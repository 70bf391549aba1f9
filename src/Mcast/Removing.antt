-- ===== src/Mcast/Removing.antt =====
-- The effect of removing an address, with the roll back when the driver refuses.
use udx_fastpath.Base.{
  ℕ, suc, ◌-◌, ◌≤◌, ◌<◌, ◌≡◌, refl, sym, ap, ◌∙◌, true, false, inl, inr, some, [], ◌∷◌, ◌++◌,
  get_elem?, arith, Bool-cases,
}
use mathlib.Core.Bool.{false≢true}
use udx_fastpath.Select.Platform.{contains}
use udx_fastpath.Mcast.Pool.{Port, Env, contents, pool_append, pool_remove, pool_find}
use udx_fastpath.Mcast.{remove_found, remove_addr}
use udx_fastpath.Mcast.Contents.{IsPool, remove_at, pool_append_lem}
use udx_fastpath.Mcast.Shrinking.{pool_remove_lem}
use udx_fastpath.Mcast.Filter.{IsFilter, Settled, find_entry}

remove_found-taken :
    (env : Env) (port r : Port) (addr i : ℕ)
    → pool_remove port i ≡ some r
    → env.accepts (contents r) ≡ true
    → remove_found env port addr i ≡ some (record r { filter = contents r })
unfolding remove_found
remove_found-taken env port r addr i p q = rw (p, q)

remove_found-refused :
    (env : Env) (port r r' : Port) (addr i : ℕ)
    → pool_remove port i ≡ some r
    → env.accepts (contents r) ≡ false
    → pool_append env r addr ≡ some r'
    → remove_found env port addr i ≡ some r'
unfolding remove_found
remove_found-refused env port r r' addr i p q s = rw (p, q, s)

remove_addr-absent :
    (env : Env) (port : Port) (addr j : ℕ)
    → pool_find addr port.mc_addr_nb 0 port.mc_addr_pool ≡ some j
    → j ≡ port.mc_addr_nb
    → remove_addr env port addr ≡ some port
unfolding remove_addr
remove_addr-absent env port addr j p e = rw p (ground arith)

remove_addr-present :
    (env : Env) (port port' : Port) (addr j : ℕ)
    → pool_find addr port.mc_addr_nb 0 port.mc_addr_pool ≡ some j
    → j < port.mc_addr_nb
    → remove_found env port addr j ≡ some port'
    → remove_addr env port addr ≡ some port'
unfolding remove_addr
remove_addr-present env port port' addr j p l q = rw p (ground (arith, q))

remove_found_lem :
    (env : Env) (port : Port) (addr i k : ℕ)
    → IsFilter env port
    → port.mc_addr_nb ≡ suc k
    → i ≤ k
    → (port' : Port) × (remove_found env port addr i ≡ some port')
      × IsPool port'
      × Settled env port port'
          (remove_at i (contents port))
          (remove_at i (contents port) ++ (addr ∷ []))
remove_found_lem env port addr i k f count h =
    let (r, removes, holds, nb, same, pool) =
      pool_remove_lem port i k f.pool count h (omega (arith, f.few)) in
    elim (Bool-cases (env.accepts (contents r))) [
      | inl taken ↦ (
        record r { filter = contents r },
        remove_found-taken env port r addr i removes taken,
        record { fits = pool.fits; whole = pool.whole },
        inl (rw holds at taken, holds, holds),
      )
      | inr refused ↦
          let (r', appends, back, nb', same', pool') =
            pool_append_lem env r addr pool (omega (arith, f.few)) (f.memory _) in
          (
            r',
            remove_found-refused env port r r' addr i removes refused appends,
            pool',
            inr (rw holds at refused, back ∙ ap (λ xs. xs ++ (addr ∷ [])) holds, same' ∙ same),
          )
    ]

-- On a well-formed pool of fewer than 2^31 - 1 addresses, with an allocator that has memory:
-- removing an address that is not recorded changes nothing; one that is recorded is taken out and
-- the shorter list is in force if the driver takes it, and otherwise it is recorded behind the
-- others and the driver keeps its list.
pub remove_addr_lem :
    (env : Env) (port : Port) (addr : ℕ)
    → IsFilter env port
    → (port' : Port) × (remove_addr env port addr ≡ some port')
      × IsPool port'
      × (contains (contents port) addr ≡ false → port' ≡ port)
      × (contains (contents port) addr ≡ true
          → (i : ℕ) × (get_elem? (contents port) i ≡ some addr)
            × Settled env port port'
                (remove_at i (contents port))
                (remove_at i (contents port) ++ (addr ∷ [])))
remove_addr_lem env port addr f =
    let (j, found, cases) = find_entry env port addr f in
    elim cases [
      | inl (end, absent) ↦ (
        port,
        remove_addr-absent env port addr j found end,
        f.pool,
        λ h. refl,
        λ h. absurd (false≢true (sym absent ∙ h)),
      )
      | inr (inside, there, here) ↦
          let (port', removes, pool, settled) =
            remove_found_lem env port addr j (port.mc_addr_nb - 1) f (omega arith) (omega arith) in
          (
            port',
            remove_addr-present env port port' addr j found inside removes,
            pool,
            λ h. absurd (false≢true (sym h ∙ there)),
            λ h. (j, here, settled),
          )
    ]
