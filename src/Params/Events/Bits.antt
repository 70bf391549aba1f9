-- ===== src/Params/Events/Bits.antt =====
-- What `parse_event_printing_config` of lib/core/dpdk/parameters.c does to the bits of the mask.
use udx_fastpath.Base.{
  ℕ, ◌-◌, ◌^◌, ◌<◌, ◌≡◌, ◌≢◌, refl, ap, ◌∙◌, Bool, true, false, not, Option, none, some, List, ◌==◌,
  if◌then◌else◌, arith, Bool-cases, inl, inr,
}
use Prim.{Unit, tt}
use udx_fastpath.Select.Platform.{test_bit}
use udx_fastpath.Params.Text.{codes, same, same-eq}
use udx_fastpath.Params.Events.{
  Event, unknown, intr_lsc, queue_state, intr_reset, vf_mbox, ipsec, macsec, intr_rmv, dev_probed,
  dev_released, flow_aged, err_recovering, recovery_success, recovery_failed, all, event_of,
  event_mask, write_event, with_event, parse_event_printing_config,
}
use udx_fastpath.Params.Events.Words.{
  test_bit-bit_or, test_bit-bit_and, zero-test_bit, test_bit_power, test_bit_complement,
  power_small,
}

-- The name of each event on the command line.
abbrev pub name_of : Event → List ℕ
name_of unknown = codes "unknown"
name_of intr_lsc = codes "intr_lsc"
name_of queue_state = codes "queue_state"
name_of intr_reset = codes "intr_reset"
name_of vf_mbox = codes "vf_mbox"
name_of ipsec = codes "ipsec"
name_of macsec = codes "macsec"
name_of intr_rmv = codes "intr_rmv"
name_of dev_probed = codes "dev_probed"
name_of dev_released = codes "dev_released"
name_of flow_aged = codes "flow_aged"
name_of err_recovering = codes "err_recovering"
name_of recovery_success = codes "recovery_success"
name_of recovery_failed = codes "recovery_failed"
name_of all = codes "all"

-- The events of whose bits an event speaks.
abbrev pub speaks_of : (Event → ℕ) → Event → ℕ → Bool
speaks_of number all j = true
speaks_of number e j = number e == j

event_of-name_of : (e : Event) → event_of (name_of e) ≡ some e
unfolding event_of
event_of-name_of unknown = refl
event_of-name_of intr_lsc = refl
event_of-name_of queue_state = refl
event_of-name_of intr_reset = refl
event_of-name_of vf_mbox = refl
event_of-name_of ipsec = refl
event_of-name_of macsec = refl
event_of-name_of intr_rmv = refl
event_of-name_of dev_probed = refl
event_of-name_of dev_released = refl
event_of-name_of flow_aged = refl
event_of-name_of err_recovering = refl
event_of-name_of recovery_success = refl
event_of-name_of recovery_failed = refl
event_of-name_of all = refl

-- A name that is accepted is the name of the event.
Named : List ℕ → Option Event → Type 0
Named optarg none = Unit
Named optarg (some e) = optarg ≡ name_of e

Named-if :
    (optarg : List ℕ) (e : Event) (rest : Option Event)
    → Named optarg rest
    → Named optarg (if same optarg (name_of e) then some e else rest)
unfolding Named
Named-if optarg e rest k = elim (Bool-cases (same optarg (name_of e))) [
  | inl t ↦ rw t (same-eq optarg (name_of e) t)
  | inr f ↦ rw f k
]

event_of-Named : (optarg : List ℕ) → Named optarg (event_of optarg)
unfolding event_of Named
event_of-Named optarg = Named-if optarg unknown _ (
    Named-if optarg intr_lsc _ (
      Named-if optarg queue_state _ (
        Named-if optarg intr_reset _ (
          Named-if optarg vf_mbox _ (
            Named-if optarg ipsec _ (
              Named-if optarg macsec _ (
                Named-if optarg intr_rmv _ (
                  Named-if optarg dev_probed _ (
                    Named-if optarg dev_released _ (
                      Named-if optarg flow_aged _ (
                        Named-if optarg err_recovering _ (
                          Named-if optarg recovery_success _ (
                            Named-if optarg recovery_failed _
                              (Named-if optarg all _ tt))))))))))))))

-- The bits of the mask of an event, which has 32.
event_mask_lem :
    (number : Event → ℕ) (e : Event) (j : ℕ)
    → number e < 32
    → j < 32
    → (event_mask number e < 2 ^ 32) × (test_bit (event_mask number e) j ≡ speaks_of number e j)
unfolding event_mask
event_mask_lem number unknown j small lt =
    (power_small 32 (number unknown) small, test_bit_power (number unknown) j)
event_mask_lem number intr_lsc j small lt =
    (power_small 32 (number intr_lsc) small, test_bit_power (number intr_lsc) j)
event_mask_lem number queue_state j small lt =
    (power_small 32 (number queue_state) small, test_bit_power (number queue_state) j)
event_mask_lem number intr_reset j small lt =
    (power_small 32 (number intr_reset) small, test_bit_power (number intr_reset) j)
event_mask_lem number vf_mbox j small lt =
    (power_small 32 (number vf_mbox) small, test_bit_power (number vf_mbox) j)
event_mask_lem number ipsec j small lt =
    (power_small 32 (number ipsec) small, test_bit_power (number ipsec) j)
event_mask_lem number macsec j small lt =
    (power_small 32 (number macsec) small, test_bit_power (number macsec) j)
event_mask_lem number intr_rmv j small lt =
    (power_small 32 (number intr_rmv) small, test_bit_power (number intr_rmv) j)
event_mask_lem number dev_probed j small lt =
    (power_small 32 (number dev_probed) small, test_bit_power (number dev_probed) j)
event_mask_lem number dev_released j small lt =
    (power_small 32 (number dev_released) small, test_bit_power (number dev_released) j)
event_mask_lem number flow_aged j small lt =
    (power_small 32 (number flow_aged) small, test_bit_power (number flow_aged) j)
event_mask_lem number err_recovering j small lt =
    (power_small 32 (number err_recovering) small, test_bit_power (number err_recovering) j)
event_mask_lem number recovery_success j small lt =
    (power_small 32 (number recovery_success) small, test_bit_power (number recovery_success) j)
event_mask_lem number recovery_failed j small lt =
    (power_small 32 (number recovery_failed) small, test_bit_power (number recovery_failed) j)
event_mask_lem number all j small lt =
    (omega arith, test_bit_complement 32 0 j (omega arith) lt ∙ ap not (zero-test_bit j))

test_bit-write_event :
    (number : Event → ℕ) (e : Event) (enable : Bool) (word j : ℕ)
    → number e < 32
    → j < 32
    → test_bit (write_event number e enable word) j
      ≡ (if speaks_of number e j then enable else test_bit word j)
unfolding write_event
test_bit-write_event number e true word j small lt =
    test_bit-bit_or word (event_mask number e) j
    ∙ ground (arith, (event_mask_lem number e j small lt).1)
test_bit-write_event number e false word j small lt =
    let (below, bits) = event_mask_lem number e j small lt in
    test_bit-bit_and word (2 ^ 32 - 1 - event_mask number e) j
    ∙ ground (arith, test_bit_complement 32 (event_mask number e) j below lt, bits)

with_event-none :
    (number : Event → ℕ) (optarg : List ℕ) (enable : Bool) (word : ℕ) (o : Option Event)
    → ((e : Event) → optarg ≢ name_of e)
    → Named optarg o
    → with_event number o enable word ≡ none
unfolding with_event Named
with_event-none number optarg enable word none other k = refl
with_event-none number optarg enable word (some e) other k = absurd (other e k)

-- If the numbers of the events are below 32, the name of each event is accepted, and of the 32 bits
-- of the mask exactly that of the event (all of them, for "all") is set or cleared as asked; any
-- other name is refused.
pub parse_event_printing_config_lem :
    (number : Event → ℕ) (enable : Bool) (word : ℕ)
    → ((e : Event) → number e < 32)
    → ((e : Event)
        → (out : ℕ) × (parse_event_printing_config number (name_of e) enable word ≡ some out)
          × ((j : ℕ)
              → j < 32
              → test_bit out j ≡ (if speaks_of number e j then enable else test_bit word j)))
      × ((optarg : List ℕ)
          → ((e : Event) → optarg ≢ name_of e)
          → parse_event_printing_config number optarg enable word ≡ none)
unfolding parse_event_printing_config with_event
parse_event_printing_config_lem number enable word small = (
  λ e. (
    write_event number e enable word,
    ap (λ o. with_event number o enable word) (event_of-name_of e),
    λ j lt. test_bit-write_event number e enable word j (small e) lt,
  ),
  λ optarg other.
      with_event-none number optarg enable word (event_of optarg) other (event_of-Named optarg),
)
