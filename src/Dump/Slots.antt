-- ===== src/Dump/Slots.antt =====
-- What the loops do to the slots of the callbacks.
use udx_fastpath.Base.{
  ℕ, zero, suc, ◌+◌, ◌≤◌, ◌<◌, ◌≡◌, ◌≢◌, refl, ◌∙◌, Option, none, some, List, get_elem?, length,
  arith, get_elem?-lt, get_elem?-set_self, get_elem?-set_ne, length-set, inl, inr, ◌⊎◌, some_inj,
  sym,
}
use native.Mathlib.Decide.{ℕ_discrete}
use udx_fastpath.Dump.{add_next, add_each, remove_next, remove_each}

-- A callback that is there stays, an empty slot gets a new one.
abbrev pub filled : (ℕ → Option ℕ) → ℕ → Option ℕ → Option ℕ
filled add queue none = add queue
filled add queue (some cb) = some cb

outer : (n queue j : ℕ) → (j < queue) ⊎ (queue + suc n ≤ j) → (j < suc queue) ⊎ (suc queue + n ≤ j)
outer n queue j (inl below) = inl (omega arith)
outer n queue j (inr above) = inr (omega arith)

add_next_lem :
    (add : ℕ → Option ℕ) (queue : ℕ) (cbs : List (Option ℕ)) (cb : Option ℕ)
    → get_elem? cbs queue ≡ some cb
    → queue < length cbs
    → (length (add_next add queue cbs cb) ≡ length cbs)
      × (get_elem? (add_next add queue cbs cb) queue ≡ some (filled add queue cb))
      × ((j : ℕ) → j ≢ queue → get_elem? (add_next add queue cbs cb) j ≡ get_elem? cbs j)
unfolding add_next
add_next_lem add queue cbs none e h = (
  length-set cbs queue (add queue),
  get_elem?-set_self cbs queue (add queue) h,
  λ j ne. get_elem?-set_ne cbs queue j (add queue) (λ s. ne (omega arith)),
)
add_next_lem add queue cbs (some cb) e h = (refl, e, λ j ne. refl)

add_each-step :
    (add : ℕ → Option ℕ) (n queue : ℕ) (cbs : List (Option ℕ)) (cb : Option ℕ)
    → get_elem? cbs queue ≡ some cb
    → add_each add (suc n) queue cbs ≡ add_each add n (suc queue) (add_next add queue cbs cb)
unfolding add_each
add_each-step add n queue cbs cb e = rw e

-- With a slot for each queue the loop succeeds; each of its queues then has the callback that it
-- had or, if it had none, a new one, and every other slot is as before.
pub add_each_lem :
    (add : ℕ → Option ℕ) (n queue : ℕ) (cbs : List (Option ℕ))
    → queue + n ≤ length cbs
    → (cbs' : List (Option ℕ)) × (add_each add n queue cbs ≡ some cbs')
      × (length cbs' ≡ length cbs)
      × ((j : ℕ) (cb : Option ℕ)
          → queue ≤ j
          → j < queue + n
          → get_elem? cbs j ≡ some cb
          → get_elem? cbs' j ≡ some (filled add j cb))
      × ((j : ℕ) → (j < queue) ⊎ (queue + n ≤ j) → get_elem? cbs' j ≡ get_elem? cbs j)
unfolding add_each
add_each_lem add zero queue cbs h =
    (cbs, refl, refl, λ j cb lo hi e. absurd (omega arith), λ j out. refl)
add_each_lem add (suc n) queue cbs h =
    let (cb, here) = get_elem?-lt cbs queue (omega arith) in
    let (size, now, same) = add_next_lem add queue cbs cb here (omega arith) in
    let (cbs', done, length', inside, outside) =
      add_each_lem add n (suc queue) (add_next add queue cbs cb) (omega arith) in
    (
      cbs',
      add_each-step add n queue cbs cb here ∙ done,
      length' ∙ size,
      λ j old lo hi e. elim (ℕ_discrete queue j) [
        | yes first ↦
            let old_is : cb ≡ old = some_inj (sym here ∙ rw (← first) at e) in
            rw (← first, ← old_is) (outside queue (inl (omega arith)) ∙ now)
        | no later ↦
            inside j old (omega arith) (omega arith) (same j (λ s. later (omega arith)) ∙ e)
      ],
      λ j out.
          outside j (outer n queue j out)
          ∙ same j (λ s. elim out [ inl below ↦ omega arith | inr above ↦ omega arith ]),
    )

remove_next_lem :
    (queue : ℕ) (cbs : List (Option ℕ)) (cb : Option ℕ)
    → get_elem? cbs queue ≡ some cb
    → queue < length cbs
    → (length (remove_next queue cbs cb) ≡ length cbs)
      × (get_elem? (remove_next queue cbs cb) queue ≡ some none)
      × ((j : ℕ) → j ≢ queue → get_elem? (remove_next queue cbs cb) j ≡ get_elem? cbs j)
unfolding remove_next
remove_next_lem queue cbs (some cb) e h = (
  length-set cbs queue none,
  get_elem?-set_self cbs queue none h,
  λ j ne. get_elem?-set_ne cbs queue j none (λ s. ne (omega arith)),
)
remove_next_lem queue cbs none e h = (refl, e, λ j ne. refl)

remove_each-step :
    (n queue : ℕ) (cbs : List (Option ℕ)) (cb : Option ℕ)
    → get_elem? cbs queue ≡ some cb
    → remove_each (suc n) queue cbs ≡ remove_each n (suc queue) (remove_next queue cbs cb)
unfolding remove_each
remove_each-step n queue cbs cb e = rw e

-- With a slot for each queue the loop succeeds; none of its queues then has a callback, and every
-- other slot is as before.
pub remove_each_lem :
    (n queue : ℕ) (cbs : List (Option ℕ))
    → queue + n ≤ length cbs
    → (cbs' : List (Option ℕ)) × (remove_each n queue cbs ≡ some cbs')
      × (length cbs' ≡ length cbs)
      × ((j : ℕ) → queue ≤ j → j < queue + n → get_elem? cbs' j ≡ some none)
      × ((j : ℕ) → (j < queue) ⊎ (queue + n ≤ j) → get_elem? cbs' j ≡ get_elem? cbs j)
unfolding remove_each
remove_each_lem zero queue cbs h = (cbs, refl, refl, λ j lo hi. absurd (omega arith), λ j out. refl)
remove_each_lem (suc n) queue cbs h =
    let (cb, here) = get_elem?-lt cbs queue (omega arith) in
    let (size, now, same) = remove_next_lem queue cbs cb here (omega arith) in
    let (cbs', done, length', inside, outside) =
      remove_each_lem n (suc queue) (remove_next queue cbs cb) (omega arith) in
    (
      cbs',
      remove_each-step n queue cbs cb here ∙ done,
      length' ∙ size,
      λ j lo hi. elim (ℕ_discrete queue j) [
        | yes first ↦ rw (← first) (outside queue (inl (omega arith)) ∙ now)
        | no later ↦ inside j (omega arith) (omega arith)
      ],
      λ j out.
          outside j (outer n queue j out)
          ∙ same j (λ s. elim out [ inl below ↦ omega arith | inr above ↦ omega arith ]),
    )
