-- ===== src/Params/Events.antt =====
-- lib/core/dpdk/parameters.c, `parse_event_printing_config`. The mask is a 32-bit word, and
-- `RTE_ETH_EVENT_*` are the numbers that rte_ethdev.h gives.
pub mod Bits
pub mod Words
use udx_fastpath.Base.{ℕ, Bool, true, false, Option, none, some, List, if◌then◌else◌, ◌-◌, ◌^◌}
use Prim.Native.Nat.{bit_and, bit_or}
use udx_fastpath.Params.Text.{codes, same}

pub data Event : Type 0 where
  unknown intr_lsc queue_state intr_reset vf_mbox ipsec macsec intr_rmv dev_probed : Event
  dev_released flow_aged err_recovering recovery_success recovery_failed all : Event

-- The event that a name stands for.
unfoldable pub event_of : List ℕ → Option Event
event_of optarg =
    if same optarg (codes "unknown")
    then some unknown
    else if same optarg (codes "intr_lsc")
    then some intr_lsc
    else if same optarg (codes "queue_state")
    then some queue_state
    else if same optarg (codes "intr_reset")
    then some intr_reset
    else if same optarg (codes "vf_mbox")
    then some vf_mbox
    else if same optarg (codes "ipsec")
    then some ipsec
    else if same optarg (codes "macsec")
    then some macsec
    else if same optarg (codes "intr_rmv")
    then some intr_rmv
    else if same optarg (codes "dev_probed")
    then some dev_probed
    else if same optarg (codes "dev_released")
    then some dev_released
    else if same optarg (codes "flow_aged")
    then some flow_aged
    else if same optarg (codes "err_recovering")
    then some err_recovering
    else if same optarg (codes "recovery_success")
    then some recovery_success
    else if same optarg (codes "recovery_failed")
    then some recovery_failed
    else if same optarg (codes "all")
    then some all
    else none

abbrev pub is_all : Event → Bool
is_all all = true
is_all _ = false

-- `UINT32_C(1) << RTE_ETH_EVENT_*`, or `~UINT32_C(0)`.
unfoldable pub event_mask : (Event → ℕ) → Event → ℕ
event_mask number e = if is_all e then 2 ^ 32 - 1 else 2 ^ number e

-- `event_print_mask |= mask`, or `event_print_mask &= ~mask`.
unfoldable pub write_event : (Event → ℕ) → Event → Bool → ℕ → ℕ
unfolding event_mask
write_event number e enable word =
    if enable
    then bit_or word (event_mask number e)
    else bit_and word (2 ^ 32 - 1 - event_mask number e)

unfoldable pub with_event : (Event → ℕ) → Option Event → Bool → ℕ → Option ℕ
unfolding write_event
with_event number none enable word = none
with_event number (some e) enable word = some (write_event number e enable word)

-- `none` is a result of -1.
unfoldable pub parse_event_printing_config : (Event → ℕ) → List ℕ → Bool → ℕ → Option ℕ
unfolding event_of with_event
parse_event_printing_config number optarg enable word =
    with_event number (event_of optarg) enable word
