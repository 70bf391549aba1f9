-- ===== src/Mcast/Filter.antt =====
-- The driver's list and the recorded addresses, and where the search for an address ends.
use udx_fastpath.Base.{
  ℕ, zero, suc, ◌<◌, ◌≡◌, ◌≢◌, refl, ap, ◌∙◌, true, false, ◌⊎◌, inl, inr, some, List, [], ◌∷◌,
  get_elem?, take, arith,
}
use native.Mathlib.Decide.{ℕ_discrete}
use udx_fastpath.Select.Platform.{contains}
use udx_fastpath.Mcast.Pool.{Port, Env, contents, pool_find}
use udx_fastpath.Mcast.Contents.{IsPool}
use udx_fastpath.Mcast.Search.{pool_find_lem}

-- What the functions keep, for a driver and an allocator that have room.
pub record IsFilter (env : Env) (port : Port) : Type 0 where
  pub pool : IsPool port
  pub few : port.mc_addr_nb < 2147483647
  pub memory : (n : ℕ) → env.realloc n ≡ true

-- The list `wanted` is recorded and in force, or the driver refuses it and `kept` is recorded.
abbrev pub Settled : Env → Port → Port → List ℕ → List ℕ → Type 0
Settled env port port' wanted kept =
    ((env.accepts wanted ≡ true) × (contents port' ≡ wanted) × (port'.filter ≡ wanted))
    ⊎ ((env.accepts wanted ≡ false) × (contents port' ≡ kept) × (port'.filter ≡ port.filter))

get_elem?-take : (j n : ℕ) (xs : List ℕ) → j < n → get_elem? (take n xs) j ≡ get_elem? xs j
get_elem?-take j zero xs h = absurd (omega arith)
get_elem?-take j (suc n) [] h = refl
get_elem?-take zero (suc n) (x ∷ xs) h = refl
get_elem?-take (suc j) (suc n) (x ∷ xs) h = get_elem?-take j n xs (omega arith)

contains-get : (xs : List ℕ) (j a : ℕ) → get_elem? xs j ≡ some a → contains xs a ≡ true
unfolding contains
contains-get [] j a h = cc
contains-get (x ∷ xs) zero a h = ground arith
contains-get (x ∷ xs) (suc j) a h = ground (arith, contains-get xs j a h)

contains-none :
    (n : ℕ) (xs : List ℕ) (a : ℕ)
    → ((k : ℕ) → k < n → get_elem? xs k ≢ some a)
    → contains (take n xs) a ≡ false
unfolding contains
contains-none zero xs a h = refl
contains-none (suc n) [] a h = refl
contains-none (suc n) (x ∷ xs) a h = elim (ℕ_discrete x a) [
  | yes e ↦ absurd (h zero (omega arith) (ap some e))
  | no ne ↦ ground (arith, contains-none n xs a (λ k l. h (suc k) (omega arith)))
]

-- Where the search for an address ends.
pub find_entry :
    (env : Env) (port : Port) (addr : ℕ)
    → IsFilter env port
    → (j : ℕ) × (pool_find addr port.mc_addr_nb 0 port.mc_addr_pool ≡ some j)
      × (((j ≡ port.mc_addr_nb) × (contains (contents port) addr ≡ false))
          ⊎ ((j < port.mc_addr_nb)
              × (contains (contents port) addr ≡ true)
              × (get_elem? (contents port) j ≡ some addr)))
find_entry env port addr f =
    let (j, found, lo, hi, at, before) =
      pool_find_lem addr port.mc_addr_nb 0 port.mc_addr_pool (omega (arith, f.pool.fits)) in
    elim (ℕ_discrete j port.mc_addr_nb) [
      | yes end ↦ (
        j,
        found,
        inl (
          end,
          contains-none port.mc_addr_nb port.mc_addr_pool addr
              (λ k l. before k (omega arith) (omega arith)),
        ),
      )
      | no inside ↦
          let here =
            get_elem?-take j port.mc_addr_nb port.mc_addr_pool (omega arith) ∙ at (omega arith) in
          (j, found, inr (omega arith, contains-get (contents port) j addr here, here))
    ]
