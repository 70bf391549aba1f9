-- ===== src/Mcast/Shrinking.antt =====
-- What taking out an entry does to the addresses that are recorded.
use udx_fastpath.Base.{
  ℕ, zero, suc, ◌+◌, ◌-◌, ◌≤◌, ◌<◌, ◌≡◌, refl, sym, ap, ◌∙◌, some, List, [], ◌∷◌, get_elem?, set,
  length, take, ◌==◌, if◌then◌else◌, u32, arith, Option-cases, inl, inr,
}
use mathlib.Core.Option
use native.Mathlib.Decide.{ℕ_discrete}
use udx_fastpath.Mcast.Pool.{Port, contents, move_down, pool_remove}
use udx_fastpath.Mcast.Contents.{IsPool, remove_at}

move_down-cons :
    (i n x : ℕ) (xs : List ℕ)
    → move_down (suc i) n (x ∷ xs) ≡ Option.map (λ t. x ∷ t) (move_down i n xs)
unfolding move_down
move_down-cons i zero x xs = refl
move_down-cons i (suc n) x xs = elim (Option-cases (get_elem? xs (suc i))) [
  | inl out ↦ ground arith
  | inr (y, e) ↦ ground (arith, move_down-cons (suc i) n x (set xs i y))
]

move_down_front :
    (n x : ℕ) (xs : List ℕ)
    → n ≤ length xs
    → (ys : List ℕ) × (move_down 0 n (x ∷ xs) ≡ some ys)
      × (take n ys ≡ take n xs)
      × (length ys ≡ suc (length xs))
unfolding move_down
move_down_front zero x xs h = (x ∷ xs, refl, refl, refl)
move_down_front (suc n) x [] h = absurd (omega arith)
move_down_front (suc n) x (y ∷ xs) h =
    let (ys, moved, same, size) = move_down_front n y xs (omega arith) in
    (y ∷ ys, rw (move_down-cons, moved), ap (λ t. y ∷ t) same, ap suc size)

move_down_lem :
    (i n k : ℕ) (xs : List ℕ)
    → k ≡ i + n
    → k < length xs
    → (ys : List ℕ) × (move_down i n xs ≡ some ys)
      × (take k ys ≡ remove_at i (take (suc k) xs))
      × (length ys ≡ length xs)
move_down_lem i n k [] e h = absurd (omega arith)
move_down_lem zero n k (x ∷ xs) e h =
    let same : k ≡ n = omega arith in rw same (move_down_front n x xs (omega arith))
move_down_lem (suc i) n zero (x ∷ xs) e h = absurd (omega arith)
move_down_lem (suc i) n (suc k) (x ∷ xs) e h =
    let (ys, moved, same, size) = move_down_lem i n k xs (omega arith) (omega arith) in
    (x ∷ ys, rw (move_down-cons, moved), ap (λ t. x ∷ t) same, ap suc size)

take-remove_at : (i : ℕ) (xs : List ℕ) → i < length xs → take i xs ≡ remove_at i (take (suc i) xs)
take-remove_at i [] h = absurd (omega arith)
take-remove_at zero (x ∷ xs) h = refl
take-remove_at (suc i) (x ∷ xs) h = ap (λ t. x ∷ t) (take-remove_at i xs (omega arith))

pool_remove-last :
    (port : Port) (i : ℕ)
    → port.mc_addr_nb ≡ suc i
    → i < 2147483648
    → pool_remove port i
      ≡ some
          (record port { mc_addr_pool = if i == 0 then [] else port.mc_addr_pool; mc_addr_nb = i })
unfolding pool_remove
pool_remove-last port i last small =
    let nb : u32 (port.mc_addr_nb + 4294967295) ≡ i = omega arith in rw nb (ground arith)

pool_remove-before :
    (port : Port) (i n k : ℕ) (ys : List ℕ)
    → port.mc_addr_nb ≡ suc k
    → k ≡ i + n
    → 0 < n
    → k < 2147483648
    → move_down i n port.mc_addr_pool ≡ some ys
    → pool_remove port i ≡ some (record port { mc_addr_pool = ys; mc_addr_nb = k })
unfolding pool_remove
pool_remove-before port i n k ys count e pos small moved =
    let nb : u32 (port.mc_addr_nb + 4294967295) ≡ k = omega arith in
    let diff : k - i ≡ n = omega arith in rw (nb, diff, moved) (ground arith)

-- An entry that is recorded is taken out, and the others stay in order.
pub pool_remove_lem :
    (port : Port) (i k : ℕ)
    → IsPool port
    → port.mc_addr_nb ≡ suc k
    → i ≤ k
    → k < 2147483648
    → (port' : Port) × (pool_remove port i ≡ some port')
      × (contents port' ≡ remove_at i (contents port))
      × (port'.mc_addr_nb ≡ k)
      × (port'.filter ≡ port.filter)
      × IsPool port'
pool_remove_lem port i k v count h small = elim (ℕ_discrete i k) [
  | yes last ↦ (
    record port { mc_addr_pool = if i == 0 then [] else port.mc_addr_pool; mc_addr_nb = i },
    pool_remove-last port i (omega arith) (omega arith),
    ground (arith, take-remove_at i port.mc_addr_pool, v.fits),
    last,
    refl,
    ground (arith, v.fits, v.whole),
  )
  | no before ↦
      let (ys, moved, same, size) =
        move_down_lem i (k - i) k port.mc_addr_pool (omega arith) (omega (arith, v.fits)) in
      (
        record port { mc_addr_pool = ys; mc_addr_nb = k },
        pool_remove-before port i (k - i) k ys count (omega arith) (omega arith) small moved,
        same ∙ ap (λ n. remove_at i (take n port.mc_addr_pool)) (sym count),
        refl,
        refl,
        record { fits = omega (arith, v.fits); whole = rw size v.whole },
      )
]
