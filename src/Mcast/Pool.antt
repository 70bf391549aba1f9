-- ===== src/Mcast/Pool.antt =====
-- The array of addresses and its count, with the driver's answers and the allocator's.
use udx_fastpath.Base.{
  ℕ, zero, suc, ◌+◌, ◌-◌, ◌%◌, Bool, true, false, not, Option, none, some, ◌>>=◌, List, [], ◌∷◌,
  get_elem?, store, take, ltb, ◌==◌, if◌then◌else◌, u32,
}

-- The fields of `struct rte_port`, an unallocated pool as `[]`, and the list that the driver last
-- accepted.
pub record Port : Type 0 where
  pub mc_addr_pool : List ℕ
  pub mc_addr_nb : ℕ
  pub filter : List ℕ

-- Whether `realloc` finds room for that many addresses, and whether
-- `rte_eth_dev_set_mc_addr_list` takes a list.
pub record Env : Type 0 where
  pub realloc : ℕ → Bool
  pub accepts : List ℕ → Bool

-- The addresses that are recorded.
abbrev pub contents : Port → List ℕ
contents port = take port.mc_addr_nb port.mc_addr_pool

-- MCAST_POOL_INC
abbrev pub pool_inc : ℕ
pool_inc = 32

-- `realloc` to `n` entries; a new entry has no value of its own, and is written before it is read.
unfoldable pub grow : ℕ → List ℕ → List ℕ
grow zero xs = []
grow (suc n) [] = 0 ∷ grow n []
grow (suc n) (x ∷ xs) = x ∷ grow n xs

-- `mcast_addr_pool_extend`; `false` is -ENOMEM.
unfoldable pub pool_extend : Env → Port → Port × Bool
pool_extend env port =
    if not (port.mc_addr_nb % pool_inc == 0)
    then (record port { mc_addr_nb = u32 (port.mc_addr_nb + 1) }, true)
    else (if env.realloc (port.mc_addr_nb + pool_inc)
        then (
          record port {
            mc_addr_pool = grow (port.mc_addr_nb + pool_inc) port.mc_addr_pool;
            mc_addr_nb = u32 (port.mc_addr_nb + 1);
          },
          true,
        )
        else (port, false))

-- `mcast_addr_pool_append` gives no sign of a failure.
unfoldable pub pool_append : Env → Port → ℕ → Option Port
pool_append env port addr =
    let r = pool_extend env port in
    if not r.1
    then some r.0
    else (store r.0.mc_addr_pool (r.0.mc_addr_nb - 1) addr >>= λ pool.
        some (record (r.0) { mc_addr_pool = pool }))

-- `memmove(&pool[i], &pool[i + 1], n entries)`
unfoldable pub move_down : ℕ → ℕ → List ℕ → Option (List ℕ)
move_down i zero pool = some pool
move_down i (suc n) pool = do
  x ← get_elem? pool (suc i)
  pool' ← store pool i x
  move_down (suc i) n pool'

-- `mcast_addr_pool_remove`. The count wraps below 0, and past `i` the size of the move is
-- negative: a fault.
unfoldable pub pool_remove : Port → ℕ → Option Port
pool_remove port i =
    let nb = u32 (port.mc_addr_nb + 4294967295) in
    if i == nb
    then some (
        if nb == 0
        then record port { mc_addr_pool = []; mc_addr_nb = nb }
        else record port { mc_addr_nb = nb })
    else (if ltb nb i
        then none
        else (move_down i (nb - i) port.mc_addr_pool >>= λ pool.
            some (record port { mc_addr_pool = pool; mc_addr_nb = nb })))

-- The search for an address among `n` entries from position `i` on: where it stops.
unfoldable pub pool_find : ℕ → ℕ → ℕ → List ℕ → Option ℕ
pool_find addr zero i pool = some i
pool_find addr (suc n) i pool = do
  x ← get_elem? pool i
  let rest = pool_find addr n (suc i) pool
  if addr == x then some i else rest

-- `mcast_addr_pool_destroy`, its part behind the check of the port.
unfoldable pub pool_destroy : Port → Port
pool_destroy port =
    if not (port.mc_addr_nb == 0) then record port { mc_addr_pool = []; mc_addr_nb = 0 } else port
