-- ===== src/Mcast/Contents.antt =====
-- What the operations on the pool do to the addresses that are recorded.
use udx_fastpath.Base.{
  ℕ, zero, suc, ◌+◌, ◌-◌, ◌%◌, ◌≤◌, ◌<◌, ◌≡◌, refl, ap, ◌∙◌, true, not, some, List, [], ◌∷◌, ◌++◌,
  set, length, length-set, take, ◌==◌, if◌then◌else◌, arith, store-lt,
}
use udx_fastpath.Mcast.Pool.{Port, Env, contents, pool_inc, grow, pool_extend, pool_append}

-- The count stays in the array, whose size is a multiple of MCAST_POOL_INC.
pub record IsPool (port : Port) : Type 0 where
  pub fits : port.mc_addr_nb ≤ length port.mc_addr_pool
  pub whole : length port.mc_addr_pool % pool_inc ≡ 0

-- The list without its entry `i`.
abbrev pub remove_at : ℕ → List ℕ → List ℕ
remove_at i [] = []
remove_at zero (x ∷ xs) = xs
remove_at (suc i) (x ∷ xs) = x ∷ remove_at i xs

take-set :
    (n v : ℕ) (xs : List ℕ) → n < length xs → take (suc n) (set xs n v) ≡ take n xs ++ (v ∷ [])
take-set n v [] h = absurd (omega arith)
take-set zero v (x ∷ xs) h = refl
take-set (suc n) v (x ∷ xs) h = ap (λ t. x ∷ t) (take-set n v xs (omega arith))

length-grow : (k : ℕ) (xs : List ℕ) → length (grow k xs) ≡ k
unfolding grow
length-grow zero xs = refl
length-grow (suc k) [] = ap suc (length-grow k [])
length-grow (suc k) (x ∷ xs) = ap suc (length-grow k xs)

take-grow : (n k : ℕ) (xs : List ℕ) → n ≤ length xs → n ≤ k → take n (grow k xs) ≡ take n xs
unfolding grow
take-grow zero k xs h l = refl
take-grow (suc n) zero xs h l = absurd (omega arith)
take-grow (suc n) (suc k) [] h l = absurd (omega arith)
take-grow (suc n) (suc k) (x ∷ xs) h l =
    ap (λ t. x ∷ t) (take-grow n k xs (omega arith) (omega arith))

-- The array in which the new address is written.
pool_for : Port → List ℕ
pool_for port =
    if not (port.mc_addr_nb % pool_inc == 0)
    then port.mc_addr_pool
    else grow (port.mc_addr_nb + pool_inc) port.mc_addr_pool

appended : Port → ℕ → Port
appended port addr = record port {
  mc_addr_pool = set (pool_for port) port.mc_addr_nb addr;
  mc_addr_nb = suc port.mc_addr_nb;
}

pool_extend-eq :
    (env : Env) (port : Port)
    → port.mc_addr_nb < 2147483648
    → env.realloc (port.mc_addr_nb + pool_inc) ≡ true
    → pool_extend env port
      ≡ (record port { mc_addr_pool = pool_for port; mc_addr_nb = suc port.mc_addr_nb }, true)
unfolding pool_extend pool_for
pool_extend-eq env port small memory = ground arith

length-pool_for : (port : Port) → IsPool port → port.mc_addr_nb < length (pool_for port)
unfolding pool_for
length-pool_for port v =
    ground (arith, v.fits, v.whole, length-grow (port.mc_addr_nb + pool_inc) port.mc_addr_pool)

whole-pool_for : (port : Port) → IsPool port → length (pool_for port) % pool_inc ≡ 0
unfolding pool_for
whole-pool_for port v =
    ground (arith, v.whole, length-grow (port.mc_addr_nb + pool_inc) port.mc_addr_pool)

take-pool_for : (port : Port) → IsPool port → take port.mc_addr_nb (pool_for port) ≡ contents port
unfolding pool_for
take-pool_for port v =
    ground (arith, v.fits, take-grow port.mc_addr_nb (port.mc_addr_nb + pool_inc) port.mc_addr_pool)

pool_append-eq :
    (env : Env) (port : Port) (addr : ℕ)
    → IsPool port
    → port.mc_addr_nb < 2147483648
    → env.realloc (port.mc_addr_nb + pool_inc) ≡ true
    → pool_append env port addr ≡ some (appended port addr)
unfolding pool_append appended
pool_append-eq env port addr v small memory =
    let last : suc port.mc_addr_nb - 1 ≡ port.mc_addr_nb = omega arith in
    rw (
      pool_extend-eq env port small memory,
      last,
      store-lt (pool_for port) port.mc_addr_nb addr (length-pool_for port v),
    )

-- Where memory suffices, an append puts the address behind the recorded ones.
pub pool_append_lem :
    (env : Env) (port : Port) (addr : ℕ)
    → IsPool port
    → port.mc_addr_nb < 2147483648
    → env.realloc (port.mc_addr_nb + pool_inc) ≡ true
    → (port' : Port) × (pool_append env port addr ≡ some port')
      × (contents port' ≡ contents port ++ (addr ∷ []))
      × (port'.mc_addr_nb ≡ suc port.mc_addr_nb)
      × (port'.filter ≡ port.filter)
      × IsPool port'
unfolding appended
pool_append_lem env port addr v small memory = (
  appended port addr,
  pool_append-eq env port addr v small memory,
  take-set port.mc_addr_nb addr (pool_for port) (length-pool_for port v)
      ∙ ap (λ xs. xs ++ (addr ∷ [])) (take-pool_for port v),
  refl,
  refl,
  record {
    fits = omega (arith, length-pool_for port v, length-set (pool_for port) port.mc_addr_nb addr);
    whole = omega (arith, whole-pool_for port v, length-set (pool_for port) port.mc_addr_nb addr);
  },
)
