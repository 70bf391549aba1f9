-- ===== src/Base/Division.antt =====
-- Counting up in two digits, as the loops with a wrapping inner counter do.
use Prim.Native.Nat.{ℕ, suc, ◌+◌, ◌*◌, ◌/◌, ◌%◌, ◌<◌}
use mathlib.Core.Path.{◌≡◌, ap}
use mathlib.Core.Logic.{◌⊎◌, inl, inr}
use native.Mathlib.Decide.{dec_lt}
use native.Mathlib.Nat.{div-add-mod', mod-lt, div-eq_of_lt-le}
use native.Mathlib.Omega.{arith}

-- The last digit of `suc k` to base `n`, and the number before it.
pub div-mod-suc :
    (k n : ℕ)
    → 0 < n
    → ((k % n + 1 < n) × (suc k % n ≡ k % n + 1) × (suc k / n ≡ k / n))
      ⊎ ((k % n + 1 ≡ n) × (suc k % n ≡ 0) × (suc k / n ≡ k / n + 1))
div-mod-suc k n pos = elim (dec_lt (k % n + 1) n) [
  | yes lt ↦
      let same : suc k / n ≡ k / n =
        div-eq_of_lt-le n (omega (arith, div-add-mod' k n)) (omega (arith, div-add-mod' k n)) in
      inl (
        lt,
        omega (arith, div-add-mod' k n, div-add-mod' (suc k) n, ap (λ (t : ℕ). t * n) same),
        same,
      )
  | no ge ↦
      let last : k % n + 1 ≡ n = omega (arith, mod-lt k pos) in
      let next : suc k / n ≡ k / n + 1 =
        div-eq_of_lt-le n (omega (arith, div-add-mod' k n)) (omega (arith, div-add-mod' k n)) in
      inr (
        last,
        omega (arith, div-add-mod' k n, div-add-mod' (suc k) n, ap (λ (t : ℕ). t * n) next),
        next,
      )
]
