-- ===== src/Mcast/Search.antt =====
-- Where the search for an address stops.
use udx_fastpath.Base.{
  ℕ, zero, suc, ◌+◌, ◌≤◌, ◌<◌, ◌≡◌, ◌≢◌, refl, sym, ap, ◌∙◌, some, List, get_elem?, length, arith,
  get_elem?-lt, some_inj,
}
use native.Mathlib.Decide.{ℕ_discrete}
use udx_fastpath.Mcast.Pool.{pool_find}

-- The search stops at the first entry with the address, or at the end.
pub pool_find_lem :
    (addr n i : ℕ) (xs : List ℕ)
    → i + n ≤ length xs
    → (j : ℕ) × (pool_find addr n i xs ≡ some j)
      × (i ≤ j)
      × (j ≤ i + n)
      × (j < i + n → get_elem? xs j ≡ some addr)
      × ((k : ℕ) → i ≤ k → k < j → get_elem? xs k ≢ some addr)
unfolding pool_find
pool_find_lem addr zero i xs h =
    (i, refl, omega arith, omega arith, λ l. absurd (omega arith), λ k a b. absurd (omega arith))
pool_find_lem addr (suc n) i xs h =
    let (x, here) = get_elem?-lt xs i (omega arith) in
    elim (ℕ_discrete addr x) [
      | yes same ↦ (
        i,
        ground arith,
        omega arith,
        omega arith,
        λ l. here ∙ ap some (sym same),
        λ k a b. absurd (omega arith),
      )
      | no other ↦
          let (j, found, lo, hi, at, before) = pool_find_lem addr n (suc i) xs (omega arith) in
          (
            j,
            ground arith,
            omega arith,
            omega arith,
            λ l. at (omega arith),
            λ k a b g. elim (ℕ_discrete i k) [
              | yes e ↦ other (some_inj (sym (rw (← e) at g) ∙ here))
              | no ne ↦ before k (omega arith) b g
            ],
          )
    ]
