-- ===== src/Vlan/Offloads.antt =====
-- The words of flags and the filter after the receive setters.
use udx_fastpath.Base.{
  ℕ, zero, suc, ◌+◌, ◌≤◌, ◌<◌, ◌≡◌, refl, ap, ◌∙◌, Bool, true, false, ◌⊎◌, inl, inr, some, List,
  get_elem?, set, length, length-set, get_elem?-set_self, get_elem?-set_ne, arith, Bool-cases,
}
use native.Mathlib.Decide.{ℕ_discrete}
use udx_fastpath.Mtu.{vlan_id_is_invalid}
use udx_fastpath.Vlan.{Env, rx_vft_set, filter_each}

rx_vft_set-taken :
    (env : Env) (port_id vlan_id : ℕ) (on : Bool) (filter : List Bool)
    → vlan_id < 4096
    → env.takes_filter port_id vlan_id on ≡ true
    → rx_vft_set env port_id vlan_id on filter ≡ (set filter vlan_id on, true)
unfolding rx_vft_set vlan_id_is_invalid
rx_vft_set-taken env port_id vlan_id on filter h t = ground (arith, t)

rx_vft_set-refused :
    (env : Env) (port_id vlan_id : ℕ) (on : Bool) (filter : List Bool)
    → env.takes_filter port_id vlan_id on ≡ false
    → rx_vft_set env port_id vlan_id on filter ≡ (filter, false)
unfolding rx_vft_set vlan_id_is_invalid
rx_vft_set-refused env port_id vlan_id on filter t = ground (arith, t)

filter_each-taken :
    (env : Env) (port_id n vlan_id : ℕ) (on : Bool) (filter : List Bool)
    → vlan_id < 4096
    → env.takes_filter port_id vlan_id on ≡ true
    → filter_each env port_id on (suc n) vlan_id filter
      ≡ filter_each env port_id on n (suc vlan_id) (set filter vlan_id on)
unfolding filter_each
filter_each-taken env port_id n vlan_id on filter h t =
    rw (rx_vft_set-taken env port_id vlan_id on filter h t)

filter_each-refused :
    (env : Env) (port_id n vlan_id : ℕ) (on : Bool) (filter : List Bool)
    → env.takes_filter port_id vlan_id on ≡ false
    → filter_each env port_id on (suc n) vlan_id filter ≡ filter
unfolding filter_each
filter_each-refused env port_id n vlan_id on filter t =
    rw (rx_vft_set-refused env port_id vlan_id on filter t)

outside :
    (stop vlan_id j : ℕ)
    → suc vlan_id ≤ stop
    → (j < vlan_id) ⊎ (stop ≤ j)
    → (j < suc vlan_id) ⊎ (stop ≤ j)
outside stop vlan_id j h (inl below) = inl (omega arith)
outside stop vlan_id j h (inr above) = inr above

-- With a table of 4096 VLANs and numbers in it, the loop sets those in front of the first one, from
-- the given number on, that the driver refuses, or all if it refuses none, and no other.
pub filter_each_lem :
    (env : Env) (port_id : ℕ) (on : Bool) (n vlan_id : ℕ) (filter : List Bool)
    → vlan_id + n ≤ 4096
    → length filter ≡ 4096
    → (stop : ℕ) × (vlan_id ≤ stop)
      × (stop ≤ vlan_id + n)
      × (stop < vlan_id + n → env.takes_filter port_id stop on ≡ false)
      × ((j : ℕ)
          → vlan_id ≤ j
          → j < stop
          → (env.takes_filter port_id j on ≡ true)
            × (get_elem? (filter_each env port_id on n vlan_id filter) j ≡ some on))
      × ((j : ℕ)
          → (j < vlan_id) ⊎ (stop ≤ j)
          → get_elem? (filter_each env port_id on n vlan_id filter) j ≡ get_elem? filter j)
filter_each_lem env port_id on zero vlan_id filter h size = (
  vlan_id,
  omega arith,
  omega arith,
  λ l. absurd (omega arith),
  λ j lo hi. absurd (omega arith),
  λ j out. unfold filter_each in refl,
)
filter_each_lem env port_id on (suc n) vlan_id filter h size =
    elim (Bool-cases (env.takes_filter port_id vlan_id on)) [
      | inr refused ↦ (
        vlan_id,
        omega arith,
        omega arith,
        λ l. refused,
        λ j lo hi. absurd (omega arith),
        λ j out.
            ap (λ t. get_elem? t j) (filter_each-refused env port_id n vlan_id on filter refused),
      )
      | inl taken ↦
          let (stop, lo, hi, refuses, before, others) =
            filter_each_lem env port_id on n (suc vlan_id) (set filter vlan_id on) (omega arith)
              (length-set filter vlan_id on ∙ size) in
          let same = filter_each-taken env port_id n vlan_id on filter (omega arith) taken in
          (
            stop,
            omega arith,
            omega arith,
            λ l. refuses (omega arith),
            λ j a b. elim (ℕ_discrete vlan_id j) [
              | yes first ↦ rw (← first) (
                taken,
                ap (λ t. get_elem? t vlan_id) same
                    ∙ others vlan_id (inl (omega arith))
                    ∙ get_elem?-set_self filter vlan_id on (omega arith),
              )
              | no later ↦
                  let (t, e) = before j (omega arith) (omega arith) in
                  (t, ap (λ t. get_elem? t j) same ∙ e)
            ],
            λ j out.
                ap (λ t. get_elem? t j) same
                ∙ others j (outside stop vlan_id j lo out)
                ∙ get_elem?-set_ne filter vlan_id j on
                    (λ e. elim out [ inl below ↦ omega arith | inr above ↦ omega arith ]),
          )
    ]
