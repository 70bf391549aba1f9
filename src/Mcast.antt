-- ===== src/Mcast.antt =====
-- lib/core/dpdk/config.c, the pool of multicast addresses of a port: `mcast_addr_pool_*`,
-- `eth_port_multicast_addr_list_set`, `mcast_addr_add`, `mcast_addr_remove`, `mcast_addr_flush`.
-- An address is a number. `none` is an access out of bounds.
pub mod Pool
pub mod Contents
pub mod Shrinking
pub mod Search
pub mod Filter
pub mod Adding
pub mod Removing
use udx_fastpath.Base.{
  ℕ, zero, suc, ◌+◌, ◌-◌, ◌*◌, ◌%◌, Bool, true, false, not, ◌||◌, Option, none, some, ◌>>=◌, List,
  [], ◌∷◌, get_elem?, set, store, length, take, ltb, ◌==◌, if◌then◌else◌, u32,
}
use udx_fastpath.Select.Platform.{Platform, port_all, port_id_is_invalid}
use udx_fastpath.Mcast.Pool.{Port, Env, contents, pool_append, pool_remove, pool_find, pool_destroy}

-- `eth_port_multicast_addr_list_set`: `true` unless the driver refuses the list.
pub list_set : Env → Port → Port × Bool
list_set env port =
    if env.accepts (contents port)
    then (record port { filter = contents port }, true)
    else (port, false)

-- The part of `mcast_addr_add` below the search, which ended at position `i`.
pub add_new : Env → Port → ℕ → ℕ → Option Port
unfolding list_set
add_new env port addr i = do
  r ← pool_append env port addr
  if (list_set env r).1 then some (list_set env r).0 else pool_remove r i

pub add_addr : Env → Port → ℕ → Option Port
add_addr env port addr = do
  i ← pool_find addr port.mc_addr_nb 0 port.mc_addr_pool
  if ltb i port.mc_addr_nb then some port else add_new env port addr i

-- The part of `mcast_addr_remove` below the search, which found position `i`.
pub remove_found : Env → Port → ℕ → ℕ → Option Port
unfolding list_set
remove_found env port addr i = do
  r ← pool_remove port i
  if (list_set env r).1 then some (list_set env r).0 else pool_append env r addr

pub remove_addr : Env → Port → ℕ → Option Port
remove_addr env port addr = do
  i ← pool_find addr port.mc_addr_nb 0 port.mc_addr_pool
  if i == port.mc_addr_nb then some port else remove_found env port addr i

unfoldable pub flush_addrs : Env → Port → Port
flush_addrs env port = if env.accepts [] then pool_destroy (record port { filter = [] }) else port

-- An operation on `ports[port_id]`, behind the check of the port's number.
unfoldable pub on_port : Platform → List Port → ℕ → (Port → Option Port) → Option (List Port)
on_port p ports port_id op =
    let change =
      get_elem? ports port_id >>= λ port. op port >>= λ port'. some (set ports port_id port') in
    if port_id_is_invalid p port_id then some ports else change

unfoldable pub mcast_addr_add : Platform → Env → List Port → ℕ → ℕ → Option (List Port)
mcast_addr_add p env ports port_id addr = on_port p ports port_id (λ port. add_addr env port addr)

unfoldable pub mcast_addr_remove : Platform → Env → List Port → ℕ → ℕ → Option (List Port)
mcast_addr_remove p env ports port_id addr =
    on_port p ports port_id (λ port. remove_addr env port addr)

-- The driver knows no port of the number that stands for all, and refuses its list.
unfoldable pub mcast_addr_flush : Platform → Env → List Port → ℕ → Option (List Port)
mcast_addr_flush p env ports port_id =
    if port_id == port_all
    then some ports
    else on_port p ports port_id (λ port. some (flush_addrs env port))
