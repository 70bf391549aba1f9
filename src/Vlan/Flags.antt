-- ===== src/Vlan/Flags.antt =====
-- The port's and the driver's words of flags after a receive setter.
use udx_fastpath.Base.{
  ℕ, ◌<◌, ◌≡◌, ◌≢◌, sym, ◌∙◌, Bool, true, false, some, List, get_elem?, set, length,
  get_elem?-set_self, get_elem?-set_ne,
}
use udx_fastpath.Select.Platform.{Platform, port_id_is_invalid}
use udx_fastpath.Vlan.{Port, Flag, Env, rx_offload_set}

-- The port with the flag switched in both words.
abbrev pub switched : Flag → Bool → Port → Port
switched flag on port = record port {
  rx_offloads = set port.rx_offloads flag.rx_bit on;
  vlan_offload = set port.vlan_offload flag.vlan_bit on;
}

-- The port and the driver agree on a flag.
abbrev pub Agrees : Flag → Port → Type 0
Agrees flag port =
    get_elem? port.rx_offloads flag.rx_bit ≡ get_elem? port.vlan_offload flag.vlan_bit

rx_offload_set-taken :
    (flag : Flag) (p : Platform) (env : Env) (ports : List Port) (port_id : ℕ) (on : Bool)
    (port : Port)
    → get_elem? ports port_id ≡ some port
    → port_id_is_invalid p port_id ≡ false
    → env.takes_offload port_id (set port.vlan_offload flag.vlan_bit on) ≡ true
    → rx_offload_set flag p env ports port_id on ≡ some (set ports port_id (switched flag on port))
unfolding rx_offload_set
rx_offload_set-taken flag p env ports port_id on port here valid taken = rw (here, valid, taken)

rx_offload_set-refused :
    (flag : Flag) (p : Platform) (env : Env) (ports : List Port) (port_id : ℕ) (on : Bool)
    (port : Port)
    → get_elem? ports port_id ≡ some port
    → port_id_is_invalid p port_id ≡ false
    → env.takes_offload port_id (set port.vlan_offload flag.vlan_bit on) ≡ false
    → rx_offload_set flag p env ports port_id on ≡ some ports
unfolding rx_offload_set
rx_offload_set-refused flag p env ports port_id on port here valid refused =
    rw (here, valid, refused)

-- On a valid port with words that have the flag: if the driver takes the new word, the flag is
-- switched for the port and the driver alike, and they still agree on any other flag, of other
-- bits, on which they agreed; if the driver refuses it, nothing changes.
pub rx_offload_set_lem :
    (flag : Flag) (p : Platform) (env : Env) (ports : List Port) (port_id : ℕ) (on : Bool)
    (port : Port)
    → get_elem? ports port_id ≡ some port
    → port_id_is_invalid p port_id ≡ false
    → flag.rx_bit < length port.rx_offloads
    → flag.vlan_bit < length port.vlan_offload
    → (env.takes_offload port_id (set port.vlan_offload flag.vlan_bit on) ≡ true
        → (port' : Port) × (rx_offload_set flag p env ports port_id on
            ≡ some (set ports port_id port'))
          × (get_elem? port'.rx_offloads flag.rx_bit ≡ some on)
          × Agrees flag port'
          × ((other : Flag)
              → other.rx_bit ≢ flag.rx_bit
              → other.vlan_bit ≢ flag.vlan_bit
              → Agrees other port
              → Agrees other port'))
      × (env.takes_offload port_id (set port.vlan_offload flag.vlan_bit on) ≡ false
          → rx_offload_set flag p env ports port_id on ≡ some ports)
rx_offload_set_lem flag p env ports port_id on port here valid rx_room vlan_room = (
  λ taken. (
    switched flag on port,
    rx_offload_set-taken flag p env ports port_id on port here valid taken,
    get_elem?-set_self port.rx_offloads flag.rx_bit on rx_room,
    get_elem?-set_self port.rx_offloads flag.rx_bit on rx_room
        ∙ sym (get_elem?-set_self port.vlan_offload flag.vlan_bit on vlan_room),
    λ other rx_ne vlan_ne agrees.
        get_elem?-set_ne port.rx_offloads flag.rx_bit other.rx_bit on (λ e. rx_ne (sym e))
        ∙ agrees
        ∙ sym (
            get_elem?-set_ne port.vlan_offload flag.vlan_bit other.vlan_bit on
              (λ e. vlan_ne (sym e))),
  ),
  λ refused. rx_offload_set-refused flag p env ports port_id on port here valid refused,
)
