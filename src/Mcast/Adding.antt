-- ===== src/Mcast/Adding.antt =====
-- The effect of adding an address, with the roll back when the driver refuses.
use udx_fastpath.Base.{
  ℕ, zero, suc, ◌≤◌, ◌<◌, ◌≡◌, refl, sym, ap, ◌∙◌, true, false, inl, inr, some, List, [], ◌∷◌, ◌++◌,
  length, take, arith, Bool-cases,
}
use mathlib.Core.Bool.{false≢true}
use udx_fastpath.Select.Platform.{contains}
use udx_fastpath.Mcast.Pool.{Port, Env, contents, pool_append, pool_remove, pool_find}
use udx_fastpath.Mcast.{add_new, add_addr}
use udx_fastpath.Mcast.Contents.{IsPool, remove_at, pool_append_lem}
use udx_fastpath.Mcast.Shrinking.{pool_remove_lem}
use udx_fastpath.Mcast.Filter.{IsFilter, Settled, find_entry}

remove_at-append : (xs : List ℕ) (n a : ℕ) → n ≡ length xs → remove_at n (xs ++ (a ∷ [])) ≡ xs
remove_at-append [] zero a e = refl
remove_at-append [] (suc n) a e = absurd (omega arith)
remove_at-append (x ∷ xs) zero a e = absurd (omega arith)
remove_at-append (x ∷ xs) (suc n) a e = ap (λ t. x ∷ t) (remove_at-append xs n a (omega arith))

length-take_all : (n : ℕ) (xs : List ℕ) → n ≤ length xs → length (take n xs) ≡ n
length-take_all zero xs h = refl
length-take_all (suc n) [] h = absurd (omega arith)
length-take_all (suc n) (x ∷ xs) h = ap suc (length-take_all n xs (omega arith))

add_new-taken :
    (env : Env) (port r : Port) (addr i : ℕ)
    → pool_append env port addr ≡ some r
    → env.accepts (contents r) ≡ true
    → add_new env port addr i ≡ some (record r { filter = contents r })
unfolding add_new
add_new-taken env port r addr i p q = rw (p, q)

add_new-refused :
    (env : Env) (port r r' : Port) (addr i : ℕ)
    → pool_append env port addr ≡ some r
    → env.accepts (contents r) ≡ false
    → pool_remove r i ≡ some r'
    → add_new env port addr i ≡ some r'
unfolding add_new
add_new-refused env port r r' addr i p q s = rw (p, q, s)

add_new_lem :
    (env : Env) (port : Port) (addr : ℕ)
    → IsFilter env port
    → (port' : Port) × (add_new env port addr port.mc_addr_nb ≡ some port')
      × IsPool port'
      × Settled env port port' (contents port ++ (addr ∷ [])) (contents port)
add_new_lem env port addr f =
    let (r, appends, holds, count, same, pool) =
      pool_append_lem env port addr f.pool (omega (arith, f.few)) (f.memory _) in
    elim (Bool-cases (env.accepts (contents r))) [
      | inl taken ↦ (
        record r { filter = contents r },
        add_new-taken env port r addr port.mc_addr_nb appends taken,
        record { fits = pool.fits; whole = pool.whole },
        inl (rw holds at taken, holds, holds),
      )
      | inr refused ↦
          let (r', removes, back, count', same', pool') =
            pool_remove_lem r port.mc_addr_nb port.mc_addr_nb pool count (omega arith)
              (omega (arith, f.few)) in
          (
            r',
            add_new-refused env port r r' addr port.mc_addr_nb appends refused removes,
            pool',
            inr (
              rw holds at refused,
              back
                  ∙ ap (remove_at port.mc_addr_nb) holds
                  ∙ remove_at-append (contents port) port.mc_addr_nb addr
                      (sym (length-take_all port.mc_addr_nb port.mc_addr_pool f.pool.fits)),
              same' ∙ same,
            ),
          )
    ]

add_addr-absent :
    (env : Env) (port port' : Port) (addr j : ℕ)
    → pool_find addr port.mc_addr_nb 0 port.mc_addr_pool ≡ some j
    → j ≡ port.mc_addr_nb
    → add_new env port addr port.mc_addr_nb ≡ some port'
    → add_addr env port addr ≡ some port'
unfolding add_addr
add_addr-absent env port port' addr j p e q = rw (p, e) (ground (arith, q))

add_addr-present :
    (env : Env) (port : Port) (addr j : ℕ)
    → pool_find addr port.mc_addr_nb 0 port.mc_addr_pool ≡ some j
    → j < port.mc_addr_nb
    → add_addr env port addr ≡ some port
unfolding add_addr
add_addr-present env port addr j p l = rw p (ground arith)

-- On a well-formed pool of fewer than 2^31 - 1 addresses, with an allocator that has memory: adding
-- a recorded address changes nothing; a new one is recorded and in force if the driver takes the
-- longer list, and otherwise all is as before.
pub add_addr_lem :
    (env : Env) (port : Port) (addr : ℕ)
    → IsFilter env port
    → (port' : Port) × (add_addr env port addr ≡ some port')
      × IsPool port'
      × (contains (contents port) addr ≡ true → port' ≡ port)
      × (contains (contents port) addr ≡ false
          → Settled env port port' (contents port ++ (addr ∷ [])) (contents port))
add_addr_lem env port addr f =
    let (j, found, cases) = find_entry env port addr f in
    elim cases [
      | inl (end, absent) ↦
          let (port', adds, pool, settled) = add_new_lem env port addr f in
          (
            port',
            add_addr-absent env port port' addr j found end adds,
            pool,
            λ h. absurd (false≢true (sym absent ∙ h)),
            λ h. settled,
          )
      | inr (inside, there, here) ↦ (
        port,
        add_addr-present env port addr j found inside,
        f.pool,
        λ h. refl,
        λ h. absurd (false≢true (sym h ∙ there)),
      )
    ]
