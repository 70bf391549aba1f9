-- ===== src/Life/Stop/Compact.antt =====
-- dpdk.cpp: what `remove_invalid_ports_in` leaves in front of an array.
use udx_fastpath.Base.{
  ℕ, zero, suc, ◌+◌, ◌≤◌, ◌<◌, ◌≡◌, refl, ap, sym, ◌∙◌, Bool, some, ◌>>=◌, List, [], ◌∷◌, ◌++◌,
  if◌then◌else◌, get_elem?, get_elem?-lt, length, length-set, set, take, drop, store, store-lt,
  Bool-cases, inl, inr, if-true, if-false, arith,
}
use mathlib.Core.List.{append_assoc, append-nil}
use udx_fastpath.Life.Stop.{compact, remove_invalid_ports_in}

-- The valid entries, in order.
abbrev pub valid_only : (ℕ → Bool) → List ℕ → List ℕ
valid_only valid [] = []
valid_only valid (x ∷ xs) = if valid x then x ∷ valid_only valid xs else valid_only valid xs

-- `n` entries from `i` on.
abbrev slice : ℕ → ℕ → List ℕ → List ℕ
slice i n xs = take n (drop i xs)

slice-suc :
    (i n : ℕ) (xs : List ℕ) (a : ℕ)
    → get_elem? xs i ≡ some a
    → slice i (suc n) xs ≡ a ∷ slice (suc i) n xs
slice-suc i n [] a h = absurd (cc)
slice-suc zero n (x ∷ xs) a h = ap (λ t. t ∷ take n xs) (cc)
slice-suc (suc i) n (x ∷ xs) a h = slice-suc i n xs a h

drop-set_before : (i k : ℕ) (v : ℕ) (xs : List ℕ) → k < i → drop i (set xs k v) ≡ drop i xs
drop-set_before zero k v xs h = absurd (omega arith)
drop-set_before (suc i) k v [] h = refl
drop-set_before (suc i) zero v (x ∷ xs) h = refl
drop-set_before (suc i) (suc k) v (x ∷ xs) h = drop-set_before i k v xs (omega arith)

take-suc-set :
    (k v : ℕ) (xs : List ℕ) → k < length xs → take (suc k) (set xs k v) ≡ take k xs ++ (v ∷ [])
take-suc-set k v [] h = absurd (omega arith)
take-suc-set zero v (x ∷ xs) h = refl
take-suc-set (suc k) v (x ∷ xs) h = ap (λ t. x ∷ t) (take-suc-set k v xs (omega arith))

-- From position `i`, with `k` entries kept in front of it.
abbrev Kept : (ℕ → Bool) → ℕ → ℕ → ℕ → List ℕ → Type 0
Kept valid n i k xs =
    (out : List ℕ) × (total : ℕ) × (compact valid n i k xs ≡ some (out, total))
    × (take total out ≡ take k xs ++ valid_only valid (slice i n xs))
    × (total ≤ k + n)
    × (length out ≡ length xs)

compact-step :
    (valid : ℕ → Bool) (n i k : ℕ) (xs : List ℕ) (a : ℕ)
    → get_elem? xs i ≡ some a
    → compact valid (suc n) i k xs ≡ (
        if valid a
        then (store xs k a >>= λ next. compact valid n (suc i) (suc k) next)
        else compact valid n (suc i) k xs)
unfolding compact
compact-step valid n i k xs a h = rw h refl

compact-Kept :
    (valid : ℕ → Bool) (n i k : ℕ) (xs : List ℕ) → k ≤ i → i + n ≤ length xs → Kept valid n i k xs
unfolding compact
compact-Kept valid zero i k xs h room =
    (xs, k, refl, sym (append-nil (take k xs)), omega arith, refl)
compact-Kept valid (suc n) i k xs h room =
    let (a, at) = get_elem?-lt xs i (omega arith) in
    let step = compact-step valid n i k xs a at in
    let next = set xs k a in
    elim (Bool-cases (valid a)) [
      | inl hit ↦
          let (out, total, e, kept, few, size) =
            compact-Kept valid n (suc i) (suc k) next (omega arith)
              (omega (arith, room, length-set xs k a)) in
          (
            out,
            total,
            step
                ∙ if-true (valid a) _ _ hit
                ∙ ap (λ o. o >>= (λ y. compact valid n (suc i) (suc k) y))
                    (store-lt xs k a (omega arith))
                ∙ e,
            kept
                ∙ ap (λ t. t ++ valid_only valid (slice (suc i) n next))
                    (take-suc-set k a xs (omega arith))
                ∙ append_assoc (take k xs) (a ∷ []) (valid_only valid (slice (suc i) n next))
                ∙ ap (λ t. take k xs ++ t)
                    (ap (λ d. a ∷ valid_only valid (take n d))
                        (drop-set_before (suc i) k a xs (omega arith))
                      ∙ sym (if-true (valid a) _ _ hit)
                      ∙ ap (valid_only valid) (sym (slice-suc i n xs a at))),
            omega (arith, few),
            size ∙ length-set xs k a,
          )
      | inr miss ↦
          let (out, total, e, kept, few, size) =
            compact-Kept valid n (suc i) k xs (omega arith) (omega arith) in
          (
            out,
            total,
            step ∙ if-false (valid a) _ _ miss ∙ e,
            kept
                ∙ ap (λ t. take k xs ++ t)
                    (sym (if-false (valid a) _ _ miss)
                      ∙ ap (valid_only valid) (sym (slice-suc i n xs a at))),
            omega (arith, few),
            size,
          )
    ]

-- With no more ports than entries, the compaction in place succeeds and leaves the valid ports of
-- the list, in their order, with their number; the array keeps its size.
pub remove_invalid_ports_in-refines :
    (valid : ℕ → Bool) (ids : List ℕ) (total : ℕ)
    → total ≤ length ids
    → (out : List ℕ) × (new_total : ℕ) × (remove_invalid_ports_in valid ids total
        ≡ some (out, new_total))
      × (take new_total out ≡ valid_only valid (take total ids))
      × (new_total ≤ total)
      × (length out ≡ length ids)
unfolding remove_invalid_ports_in
remove_invalid_ports_in-refines valid ids total h =
    let (out, new_total, e, kept, few, size) =
      compact-Kept valid total 0 0 ids (omega arith) (omega arith) in
    (out, new_total, e, kept, omega (arith, few), size)
