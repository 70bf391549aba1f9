-- ===== src/Mtu.antt =====
-- lib/core/dpdk/config.c, `eth_dev_get_overhead_len`, `eth_dev_validate_mtu`, `port_mtu_set` and
-- `vlan_id_is_invalid`. A return code `n` stands for `-n`.
use udx_fastpath.Base.{
  sym, ◌∙◌, ◌≢◌, ◌||◌, ℕ, ◌+◌, ◌-◌, ◌≤◌, ◌<◌, ◌≡◌, Bool, true, false, not, ◌&&◌, ◌↔◌, ◌⊎◌, inl, inr,
  Option, some, ◌>>=◌, List, get_elem?, set, ltb, ◌==◌, if◌then◌else◌, u32, uint16_max, arith,
}
use udx_fastpath.Flow.Nodes.{einval}
use udx_fastpath.Select.Platform.{Platform, port_id_is_invalid}

-- The limits of `struct rte_eth_dev_info`.
pub record Limits : Type 0 where
  pub min_mtu : ℕ
  pub max_mtu : ℕ
  pub max_rx_pktlen : ℕ

-- `rte_eth_dev_info_get` gives the limits or an errno, and `rte_eth_dev_set_mtu` an errno, 0 for none.
pub record Env : Type 0 where
  pub info : ℕ → Limits ⊎ ℕ
  pub set_mtu : ℕ → ℕ → ℕ

-- `need_reconfig`, and `dev_conf.rxmode.mtu`.
pub record Port : Type 0 where
  pub need_reconfig : Bool
  pub mtu : ℕ

unfoldable pub vlan_id_is_invalid : ℕ → Bool
vlan_id_is_invalid vlan_id = if ltb vlan_id 4096 then false else true

-- RTE_ETHER_HDR_LEN + RTE_ETHER_CRC_LEN is 18.
pub eth_dev_get_overhead_len : ℕ → ℕ → ℕ
eth_dev_get_overhead_len max_rx_pktlen max_mtu =
    if not (max_mtu == uint16_max) && ltb max_mtu max_rx_pktlen then max_rx_pktlen - max_mtu else 18

-- The part of `eth_dev_validate_mtu` below the call of DPDK.
pub validate : Limits → ℕ → ℕ
validate l mtu =
    let frame_size = u32 (mtu + eth_dev_get_overhead_len l.max_rx_pktlen l.max_mtu) in
    if ltb mtu l.min_mtu
    then einval
    else (if ltb l.max_mtu mtu
        then einval
        else (if ltb l.max_rx_pktlen frame_size then einval else 0))

pub eth_dev_validate_mtu : Env → ℕ → ℕ → ℕ
eth_dev_validate_mtu env port_id mtu = elim (env.info port_id) [
  | inl l ↦ validate l mtu
  | inr errno ↦ errno
]

-- The part of `port_mtu_set` below the checks; a port that is to be configured anew is not changed
-- in the driver.
pub set_valid_mtu : Env → Port → ℕ → ℕ → Port
set_valid_mtu env port port_id mtu =
    let set_it = record port { mtu = mtu } in
    if not port.need_reconfig
    then (if not (env.set_mtu port_id mtu == 0) then port else set_it)
    else set_it

-- `none` is an access out of bounds.
pub port_mtu_set : Platform → Env → List Port → ℕ → ℕ → Option (List Port)
port_mtu_set p env ports port_id mtu =
    let change = get_elem? ports port_id >>= λ port.
    some (set ports port_id (set_valid_mtu env port port_id mtu)) in
    if port_id_is_invalid p port_id
    then some ports
    else (if not (eth_dev_validate_mtu env port_id mtu == 0) then some ports else change)

-- What the limits of the device allow.
pub record IsAllowed (l : Limits) (mtu : ℕ) : Type 0 where
  pub lower : l.min_mtu ≤ mtu
  pub upper : mtu ≤ l.max_mtu
  pub frame : mtu + eth_dev_get_overhead_len l.max_rx_pktlen l.max_mtu ≤ l.max_rx_pktlen

-- With a frame limit of 32 bits and an MTU of 16 bits, the check accepts exactly the MTUs between
-- the limits whose frame, overhead included, fits the frame limit: the sum does not wrap.
pub validate_iff :
    (l : Limits) (mtu : ℕ)
    → l.max_rx_pktlen < 4294967296
    → mtu < 65536
    → (validate l mtu ≡ 0) ↔ IsAllowed l mtu
unfolding validate eth_dev_get_overhead_len
validate_iff l mtu w h = (
  λ e. record { lower = ground (arith, e); upper = ground (arith, e); frame = ground (arith, e) },
  λ a. ground (arith, a.lower, a.upper, a.frame),
)

port_mtu_set-allowed :
    (p : Platform) (env : Env) (ports : List Port) (port_id mtu : ℕ) (port : Port)
    → get_elem? ports port_id ≡ some port
    → port_id_is_invalid p port_id ≡ false
    → eth_dev_validate_mtu env port_id mtu ≡ 0
    → port_mtu_set p env ports port_id mtu
      ≡ some (set ports port_id (set_valid_mtu env port port_id mtu))
unfolding port_mtu_set
port_mtu_set-allowed p env ports port_id mtu port here valid allowed = rw (here, valid, allowed)

port_mtu_set-refused :
    (p : Platform) (env : Env) (ports : List Port) (port_id mtu : ℕ)
    → port_id_is_invalid p port_id ≡ false
    → eth_dev_validate_mtu env port_id mtu ≢ 0
    → port_mtu_set p env ports port_id mtu ≡ some ports
unfolding port_mtu_set
port_mtu_set-refused p env ports port_id mtu valid refused = ground (arith, valid, refused)

validated :
    (env : Env) (port_id mtu : ℕ) (l : Limits)
    → env.info port_id ≡ inl l
    → eth_dev_validate_mtu env port_id mtu ≡ validate l mtu
unfolding eth_dev_validate_mtu
validated env port_id mtu l known = ground (arith, known)

-- On a valid port whose limits are known, with a frame limit of 32 bits and an MTU of 16 bits: an
-- MTU that the limits allow becomes the port's if the port is to be configured anew or the driver
-- takes it; an MTU that they do not allow changes nothing.
pub port_mtu_set_lem :
    (p : Platform) (env : Env) (ports : List Port) (port_id mtu : ℕ) (port : Port) (l : Limits)
    → get_elem? ports port_id ≡ some port
    → port_id_is_invalid p port_id ≡ false
    → env.info port_id ≡ inl l
    → l.max_rx_pktlen < 4294967296
    → mtu < 65536
    → (IsAllowed l mtu
        → port.need_reconfig || env.set_mtu port_id mtu == 0 ≡ true
        → port_mtu_set p env ports port_id mtu
          ≡ some (set ports port_id (record port { mtu = mtu })))
      × (¬ IsAllowed l mtu → port_mtu_set p env ports port_id mtu ≡ some ports)
unfolding set_valid_mtu
port_mtu_set_lem p env ports port_id mtu port l here valid known w h =
    let same = validated env port_id mtu l known in
    let (sound, complete) = validate_iff l mtu w h in
    (
      λ allowed taken.
          port_mtu_set-allowed p env ports port_id mtu port here valid (same ∙ complete allowed)
          ∙ ground (arith, taken),
      λ refused.
          port_mtu_set-refused p env ports port_id mtu valid (λ z. refused (sound (sym same ∙ z))),
    )
