-- ===== src/Vlan.antt =====
-- lib/core/dpdk/config.c, the VLAN settings of a port. A word of flags is the list of its bits, and
-- DPDK's flags are positions in it. `none` is an access out of bounds.
pub mod Offloads
pub mod Flags
use udx_fastpath.Base.{
  ℕ, zero, suc, Bool, true, false, not, Option, none, some, ◌>>=◌, List, get_elem?, get_or, set,
  if◌then◌else◌,
}
use udx_fastpath.Select.Platform.{Platform, port_id_is_invalid}
use udx_fastpath.Mtu.{vlan_id_is_invalid}

-- `dev_conf.rxmode.offloads`, `dev_conf.txmode.offloads`, `tx_vlan_id`, `tx_vlan_id_outer`; and what
-- the driver keeps: the VLAN offloads in force and the VLANs that pass the filter.
pub record Port : Type 0 where
  pub rx_offloads : List Bool
  pub tx_offloads : List Bool
  pub tx_vlan_id : ℕ
  pub tx_vlan_id_outer : ℕ
  pub vlan_offload : List Bool
  pub vlan_filter : List Bool

-- The positions of RTE_ETH_VLAN_..._OFFLOAD and RTE_ETH_RX_OFFLOAD_....
pub record Flag : Type 0 where
  pub vlan_bit : ℕ
  pub rx_bit : ℕ

-- DPDK: the flags; whether the driver takes a word of VLAN offloads, and a VLAN for its filter; and
-- the transmit offloads that a port can do, `none` for an error.
pub record Env : Type 0 where
  pub extend : Flag
  pub strip : Flag
  pub filter : Flag
  pub qinq_strip : Flag
  pub vlan_insert : ℕ
  pub qinq_insert : ℕ
  pub takes_offload : ℕ → List Bool → Bool
  pub takes_filter : ℕ → ℕ → Bool → Bool
  pub tx_offload_capa : ℕ → Option (List Bool)

-- The setters below differ only in the flag.
pub rx_offload_set : Flag → Platform → Env → List Port → ℕ → Bool → Option (List Port)
rx_offload_set flag p env ports port_id on = do
  port ← get_elem? ports port_id
  let vlan_offload = set port.vlan_offload flag.vlan_bit on
  let port_rx_offloads = set port.rx_offloads flag.rx_bit on
  some (
      if port_id_is_invalid p port_id
      then ports
      else (if not (env.takes_offload port_id vlan_offload)
          then ports
          else set ports port_id
              (record port { rx_offloads = port_rx_offloads; vlan_offload = vlan_offload })))

unfoldable pub vlan_extend_set : Platform → Env → List Port → ℕ → Bool → Option (List Port)
vlan_extend_set p env ports port_id on = rx_offload_set env.extend p env ports port_id on

unfoldable pub rx_vlan_strip_set : Platform → Env → List Port → ℕ → Bool → Option (List Port)
rx_vlan_strip_set p env ports port_id on = rx_offload_set env.strip p env ports port_id on

unfoldable pub rx_vlan_filter_set : Platform → Env → List Port → ℕ → Bool → Option (List Port)
rx_vlan_filter_set p env ports port_id on = rx_offload_set env.filter p env ports port_id on

unfoldable pub rx_vlan_qinq_strip_set : Platform → Env → List Port → ℕ → Bool → Option (List Port)
rx_vlan_qinq_strip_set p env ports port_id on = rx_offload_set env.qinq_strip p env ports port_id on

-- What `rx_vft_set` does to the filter of a port behind the check of the port, and whether it
-- returns 0.
pub rx_vft_set : Env → ℕ → ℕ → Bool → List Bool → List Bool × Bool
rx_vft_set env port_id vlan_id on filter =
    if vlan_id_is_invalid vlan_id
    then (filter, false)
    else (if env.takes_filter port_id vlan_id on
        then (set filter vlan_id on, true)
        else (filter, false))

-- The loop of `rx_vlan_all_filter_set`: `n` VLANs from `vlan_id` on.
pub filter_each : Env → ℕ → Bool → ℕ → ℕ → List Bool → List Bool
filter_each env port_id on zero vlan_id filter = filter
filter_each env port_id on (suc n) vlan_id filter =
    let r = rx_vft_set env port_id vlan_id on filter in
    let rest = filter_each env port_id on n (suc vlan_id) r.0 in if not r.1 then r.0 else rest

unfoldable pub rx_vlan_all_filter_set : Platform → Env → List Port → ℕ → Bool → Option (List Port)
rx_vlan_all_filter_set p env ports port_id on =
    let change = get_elem? ports port_id >>= λ port. some (
      set ports port_id
        (record port { vlan_filter = filter_each env port_id on 4096 0 port.vlan_filter })) in
    if port_id_is_invalid p port_id then some ports else change

unfoldable pub reset_port : Env → Port → Port
reset_port env port = record port {
  tx_offloads = set (set port.tx_offloads env.vlan_insert false) env.qinq_insert false;
  tx_vlan_id = 0;
  tx_vlan_id_outer = 0;
}

unfoldable pub tx_vlan_reset : Env → List Port → ℕ → Option (List Port)
tx_vlan_reset env ports port_id =
    get_elem? ports port_id >>= λ port. some (set ports port_id (reset_port env port))

-- The parts of the setters below the checks.
unfoldable pub insert_vlan : Env → ℕ → Port → Port
insert_vlan env vlan_id port =
    let t = reset_port env port in
    record t { tx_offloads = set t.tx_offloads env.vlan_insert true; tx_vlan_id = vlan_id }

unfoldable pub insert_qinq : Env → ℕ → ℕ → Port → Port
insert_qinq env vlan_id vlan_id_outer port =
    let t = reset_port env port in
    record t {
      tx_offloads = set (set t.tx_offloads env.vlan_insert true) env.qinq_insert true;
      tx_vlan_id = vlan_id;
      tx_vlan_id_outer = vlan_id_outer;
    }

-- A change of a port that can do the offload `bit`.
unfoldable pub if_capable : Env → List Port → ℕ → ℕ → Port → (Port → Port) → List Port
if_capable env ports port_id bit port change = elim (env.tx_offload_capa port_id) [
  | none ↦ ports
  | some capa ↦ if not (get_or capa bit false) then ports else set ports port_id (change port)
]

unfoldable pub tx_vlan_set : Env → List Port → ℕ → ℕ → Option (List Port)
tx_vlan_set env ports port_id vlan_id =
    let change = get_elem? ports port_id >>= λ port. some (
      if get_or port.tx_offloads env.qinq_insert false
      then ports
      else if_capable env ports port_id env.vlan_insert port (insert_vlan env vlan_id)) in
    if vlan_id_is_invalid vlan_id then some ports else change

unfoldable pub tx_qinq_set : Env → List Port → ℕ → ℕ → ℕ → Option (List Port)
tx_qinq_set env ports port_id vlan_id vlan_id_outer =
    let change = get_elem? ports port_id >>= λ port.
    some
      (if_capable env ports port_id env.qinq_insert port (insert_qinq env vlan_id vlan_id_outer)) in
    if vlan_id_is_invalid vlan_id
    then some ports
    else (if vlan_id_is_invalid vlan_id_outer then some ports else change)
