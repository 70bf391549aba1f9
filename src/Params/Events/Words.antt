-- ===== src/Params/Events/Words.antt =====
-- The bits of `|`, `& ~` and `1 << k` on the mask that `parse_event_printing_config` of
-- lib/core/dpdk/parameters.c writes.
use udx_fastpath.Base.{
  ℕ, zero, suc, ◌+◌, ◌-◌, ◌*◌, ◌/◌, ◌%◌, ◌^◌, ◌≤◌, ◌<◌, min, ◌≡◌, refl, ap, sym, ◌∙◌, false, not,
  ◌&&◌, ◌||◌, ◌==◌, arith,
}
use Prim.Native.Nat.{max, bit_and, bit_or, digits, bit_and-bitwise, bit_or-bitwise}
use native.Mathlib.Nat.{div-div-eq-div-mul}
use udx_fastpath.Select.Platform.{test_bit}

module _ (z : ℕ → ℕ) (f : ℕ → ℕ → ℕ) where
  -- One more step than enough changes nothing.
  spare_step : (n a b : ℕ) → a ≤ n → digits z f (suc n) a b ≡ digits z f n a b
  spare_step zero zero b le = refl
  spare_step (suc n) zero b le = refl
  spare_step zero (suc a) b le = absurd (omega (arith, le))
  spare_step (suc n) (suc a) b le =
      ap (λ t. t * 2 + f (suc a % 2) (b % 2)) (spare_step n (suc a / 2) (b / 2) (omega (arith, le)))

  spare_steps : (k n m a b : ℕ) → m ≡ k + n → a ≤ n → digits z f m a b ≡ digits z f n a b
  spare_steps zero n m a b e le = ap (λ t. digits z f t a b) (omega (arith, e))
  spare_steps (suc k) n zero a b e le = absurd (omega (arith, e))
  spare_steps (suc k) n (suc m) a b e le =
      spare_step m a b (omega (arith, e, le)) ∙ spare_steps k n m a b (omega (arith, e)) le

  -- The lowest digit, in front of the digits of the halves.
  halves :
      (a b : ℕ)
      → digits z f (suc a) (suc a) b
        ≡ digits z f (suc a / 2) (suc a / 2) (b / 2) * 2 + f (suc a % 2) (b % 2)
  halves a b =
      ap (λ t. t * 2 + f (suc a % 2) (b % 2))
        (spare_steps (a - suc a / 2) (suc a / 2) a (suc a / 2) (b / 2) (omega arith) (omega arith))

and_lowest : (a b : ℕ) → bit_and a b ≡ bit_and (a / 2) (b / 2) * 2 + min (a % 2) (b % 2)
and_lowest zero b = omega (arith, bit_and-bitwise 0 b, bit_and-bitwise 0 (b / 2))
and_lowest (suc a) b =
    bit_and-bitwise (suc a) b
    ∙ halves (λ _. zero) min a b
    ∙ ap (λ t. t * 2 + min (suc a % 2) (b % 2)) (sym (bit_and-bitwise (suc a / 2) (b / 2)))

or_lowest : (a b : ℕ) → bit_or a b ≡ bit_or (a / 2) (b / 2) * 2 + max (a % 2) (b % 2)
or_lowest zero b = omega (arith, bit_or-bitwise 0 b, bit_or-bitwise 0 (b / 2))
or_lowest (suc a) b =
    bit_or-bitwise (suc a) b
    ∙ halves (λ x. x) max a b
    ∙ ap (λ t. t * 2 + max (suc a % 2) (b % 2)) (sym (bit_or-bitwise (suc a / 2) (b / 2)))

power_step : (j : ℕ) → 2 ^ suc j ≡ 2 * 2 ^ j
power_step j = omega arith

-- A bit but the lowest one is a bit of the half.
test_bit_step : (m j : ℕ) → test_bit m (suc j) ≡ test_bit (m / 2) j
test_bit_step m j =
    ap (λ t. m / t % 2 == 1) (power_step j)
    ∙ ap (λ t. t % 2 == 1) (sym (div-div-eq-div-mul m 2 (2 ^ j)))

test_bit_zero : (m : ℕ) → test_bit m 0 ≡ (m % 2 == 1)
test_bit_zero m = ground arith

pub zero-test_bit : (j : ℕ) → test_bit 0 j ≡ false
zero-test_bit zero = refl
zero-test_bit (suc j) = test_bit_step 0 j ∙ zero-test_bit j

pub test_bit-bit_or : (a b j : ℕ) → test_bit (bit_or a b) j ≡ (test_bit a j || test_bit b j)
test_bit-bit_or a b zero = ground (arith, or_lowest a b)
test_bit-bit_or a b (suc j) =
    test_bit_step (bit_or a b) j
    ∙ ap (λ t. test_bit t j) (omega (arith, or_lowest a b))
    ∙ test_bit-bit_or (a / 2) (b / 2) j
    ∙ rw (test_bit_step a j, test_bit_step b j) refl

pub test_bit-bit_and : (a b j : ℕ) → test_bit (bit_and a b) j ≡ (test_bit a j && test_bit b j)
test_bit-bit_and a b zero = ground (arith, and_lowest a b)
test_bit-bit_and a b (suc j) =
    test_bit_step (bit_and a b) j
    ∙ ap (λ t. test_bit t j) (omega (arith, and_lowest a b))
    ∙ test_bit-bit_and (a / 2) (b / 2) j
    ∙ rw (test_bit_step a j, test_bit_step b j) refl

power_positive : (n : ℕ) → 0 < 2 ^ n
power_positive zero = omega arith
power_positive (suc n) = omega (arith, power_positive n)

pub power_small : (n k : ℕ) → k < n → 2 ^ k < 2 ^ n
power_small zero k lt = absurd (omega arith)
power_small (suc n) zero lt = omega (arith, power_positive n)
power_small (suc n) (suc k) lt = omega (arith, power_small n k (omega arith))

-- `1 << k` has the bit `k` only.
pub test_bit_power : (k j : ℕ) → test_bit (2 ^ k) j ≡ (k == j)
test_bit_power zero zero = refl
test_bit_power zero (suc j) = test_bit_step 1 j ∙ zero-test_bit j ∙ ground arith
test_bit_power (suc k) zero = ground arith
test_bit_power (suc k) (suc j) =
    test_bit_step (2 ^ suc k) j
    ∙ ap (λ t. test_bit t j) (omega arith)
    ∙ test_bit_power k j
    ∙ ground arith

-- `~m` on `n` bits has the bits that `m` has not.
pub test_bit_complement :
    (n m j : ℕ) → m < 2 ^ n → j < n → test_bit (2 ^ n - 1 - m) j ≡ not (test_bit m j)
test_bit_complement zero m j lt k = absurd (omega arith)
test_bit_complement (suc n) m zero lt k = ground arith
test_bit_complement (suc n) m (suc j) lt k =
    test_bit_step (2 ^ suc n - 1 - m) j
    ∙ ap (λ t. test_bit t j) (omega arith)
    ∙ test_bit_complement n (m / 2) j (omega arith) (omega arith)
    ∙ rw (test_bit_step m j) refl
