-- ===== src/Tests/Mcast.antt =====
-- A port with two multicast addresses: config.c, the pool of multicast addresses.
use udx_fastpath.Base.{
  ℕ, ◌≡◌, refl, true, false, [], ◌∷◌, ◌++◌, some, arith, get_elem?, ltb, length, replicate,
}
use udx_fastpath.Select.Platform.{contains}
use udx_fastpath.Mcast.Pool.{Port, Env, contents}
use udx_fastpath.Mcast.{add_addr, remove_addr}
use udx_fastpath.Mcast.Contents.{IsPool, remove_at}
use udx_fastpath.Mcast.Filter.{IsFilter, Settled}
use udx_fastpath.Mcast.Adding.{add_addr_lem}
use udx_fastpath.Mcast.Removing.{remove_addr_lem}

-- The driver takes no list of more than two addresses.
abbrev two_slots : Env
two_slots = record { realloc = λ n. true; accepts = λ list. ltb (length list) 3 }

abbrev full : Port
full = record { mc_addr_pool = 51 ∷ 52 ∷ replicate 30 0; mc_addr_nb = 2; filter = 51 ∷ 52 ∷ [] }

full-IsFilter : IsFilter two_slots full
full-IsFilter = record {
  pool = record { fits = omega arith; whole = refl };
  few = omega arith;
  memory = λ n. refl;
}

add_addr_lem_example :
    (port' : Port) × (add_addr two_slots full 53 ≡ some port')
    × IsPool port'
    × (contains (contents full) 53 ≡ true → port' ≡ full)
    × (contains (contents full) 53 ≡ false
        → Settled two_slots full port' (51 ∷ 52 ∷ 53 ∷ []) (51 ∷ 52 ∷ []))
add_addr_lem_example = add_addr_lem two_slots full 53 full-IsFilter

remove_addr_lem_example :
    (port' : Port) × (remove_addr two_slots full 51 ≡ some port')
    × IsPool port'
    × (contains (contents full) 51 ≡ false → port' ≡ full)
    × (contains (contents full) 51 ≡ true
        → (i : ℕ) × (get_elem? (contents full) i ≡ some 51)
          × Settled two_slots full port'
              (remove_at i (contents full))
              (remove_at i (contents full) ++ (51 ∷ [])))
remove_addr_lem_example = remove_addr_lem two_slots full 51 full-IsFilter
