-- ===== src/Life/Stop.antt =====
-- dpdk.cpp, `stop_port`, `close_port`, `reset_port`, `remove_invalid_ports`, `detach_device`
-- and `eth_event_callback`. `none` is an access past the end of an array.
pub mod Kept
pub mod Compact
use udx_fastpath.Base.{
  ℕ, zero, suc, ◌+◌, Bool, true, false, ◌&&◌, ◌||◌, not, Option, none, some, ◌>>=◌, List, [], ◌∷◌,
  ltb, ◌==◌, if◌then◌else◌, get_elem?, set, take, store,
}
use udx_fastpath.Select.Platform.{contains, port_all}
use udx_fastpath.Life.{
  Status, stopped, started, closed, handling, is_stopped, is_started, is_closed, is_handling,
  LifePort, Globals, Driver, invalid, selects, port_is_stopped, all_ports_stopped,
}
use udx_fastpath.Life.Queues.{back_to_stopped}

-- `port_is_forwarding(port_id) != 0`, with the ports that forward.
unfoldable pub forwards : Driver → List ℕ → ℕ → Bool
unfolding invalid contains
forwards env fwd port_id = if invalid env port_id then true else contains fwd port_id

-- `port_flow_flush`, if it is called.
abbrev pub flush_flows : Globals → LifePort → LifePort
flush_flows g p = if p.has_flows && not g.no_flow_flush then record p { has_flows = false } else p

abbrev pub stop_device : Globals → Driver → ℕ → LifePort → LifePort
stop_device g env pi p =
    if g.primary && not (env.dev_stop pi)
    then record p { port_status = started }
    else back_to_stopped p

-- The body of the loop of `stop_port`.
unfoldable pub stop_one : Globals → Driver → List ℕ → ℕ → LifePort → LifePort
unfolding forwards
stop_one g env fwd pi p =
    let taken = record p { port_status = handling } in
    if forwards env fwd pi || not (is_started p.port_status)
    then p
    else (if g.hairpin_manual && not (env.peers pi)
        then taken
        else stop_device g env pi (flush_flows g taken))

-- A loop over the ports that `pid` selects.
unfoldable pub each_port :
    (ℕ → LifePort → LifePort) → ℕ → List ℕ → List LifePort → Option (List LifePort)
each_port body pid [] ports = some ports
each_port body pid (pi ∷ pis) ports =
    let passed = each_port body pid pis ports in
    if selects pid pi
    then (get_elem? ports pi >>= λ port. each_port body pid pis (set ports pi (body pi port)))
    else passed

unfoldable pub stop_port : Globals → Driver → List ℕ → ℕ → List LifePort → Option (List LifePort)
unfolding each_port stop_one invalid
stop_port g env fwd pid ports =
    if invalid env pid then some ports else each_port (stop_one g env fwd) pid env.devs ports

-- `eth_event_callback`: the events that change a port.
pub data Event : Type 0 where
  new_port destroy other : Event

pub on_event : Event → LifePort → LifePort
on_event new_port p = record p { need_setup = true; port_status = handling }
on_event destroy p = record p { port_status = closed }
on_event other p = p

unfoldable pub eth_event_callback : ℕ → Event → List LifePort → Option (List LifePort)
unfolding on_event
eth_event_callback port_id e ports =
    get_elem? ports port_id >>= λ port. some (set ports port_id (on_event e port))

-- The body of the loop of `close_port`: `closes` is whether `rte_eth_dev_close` raises the event
-- `RTE_ETH_EVENT_DESTROY` for the port.
unfoldable pub close_one : Globals → Driver → (ℕ → Bool) → List ℕ → ℕ → LifePort → LifePort
unfolding forwards on_event
close_one g env closes fwd pi p =
    let flushed = record p { has_flows = false } in
    if forwards env fwd pi || is_closed p.port_status
    then p
    else (if g.primary then (if closes pi then on_event destroy flushed else flushed) else p)

-- `remove_invalid_ports_in` from position `i` on: the valid ports move to the front.
unfoldable pub compact : (ℕ → Bool) → ℕ → ℕ → ℕ → List ℕ → Option (List ℕ × ℕ)
compact valid zero i new_total ids = some (ids, new_total)
compact valid (suc n) i new_total ids =
    let dropped = compact valid n (suc i) new_total ids in
    get_elem? ids i >>= λ port_id.
    let kept =
      (store ids new_total port_id >>= λ next. compact valid n (suc i) (suc new_total) next) in
    if valid port_id then kept else dropped

unfoldable pub remove_invalid_ports_in : (ℕ → Bool) → List ℕ → ℕ → Option (List ℕ × ℕ)
unfolding compact
remove_invalid_ports_in valid ids total = compact valid total 0 0 ids

-- The lists of ports with their lengths, and `nb_cfg_ports`.
pub record Lists : Type 0 where
  pub ports_ids : List ℕ
  pub nb_ports : ℕ
  pub fwd_ports_ids : List ℕ
  pub nb_fwd_ports : ℕ
  pub nb_cfg_ports : ℕ

unfoldable pub remove_invalid_ports : (ℕ → Bool) → Lists → Option Lists
unfolding remove_invalid_ports_in
remove_invalid_ports valid s = remove_invalid_ports_in valid s.ports_ids s.nb_ports >>= λ a.
    remove_invalid_ports_in valid s.fwd_ports_ids s.nb_fwd_ports >>= λ b. some (record {
      ports_ids = a.0;
      nb_ports = a.1;
      fwd_ports_ids = b.0;
      nb_fwd_ports = b.1;
      nb_cfg_ports = b.1;
    })

-- The ports that forward are the first `nb_fwd_ports` of `fwd_ports_ids`; `valid` is what is left
-- of the devices afterwards.
unfoldable pub close_port :
    Globals
    → Driver
    → (ℕ → Bool)
    → (ℕ → Bool)
    → ℕ
    → List LifePort
    → Lists
    → Option (List LifePort × Lists)
unfolding each_port close_one invalid remove_invalid_ports
close_port g env closes valid pid ports s =
    let fwd = take s.nb_fwd_ports s.fwd_ports_ids in
    if invalid env pid
    then some (ports, s)
    else (each_port (close_one g env closes fwd) pid env.devs ports >>= λ next.
        remove_invalid_ports valid s >>= λ t. some (next, t))

unfoldable pub reset_one : Globals → Driver → List ℕ → ℕ → LifePort → LifePort
unfolding forwards
reset_one g env fwd pi p =
    if forwards env fwd pi
    then p
    else (if g.primary && env.dev_reset pi
        then record p { need_reconfig = true; need_reconfig_queues = true }
        else p)

unfoldable pub reset_port : Globals → Driver → List ℕ → ℕ → List LifePort → Option (List LifePort)
unfolding each_port reset_one invalid all_ports_stopped port_is_stopped
reset_port g env fwd pid ports =
    let run = each_port (reset_one g env fwd) pid env.devs ports in
    if invalid env pid
    then some ports
    else ((if pid == port_all then all_ports_stopped env ports else port_is_stopped ports pid)
        >>= λ ok. if ok then run else some ports)

-- The loop of `detach_device` over the ports of the device: `false` is the return on a port that
-- is not stopped.
unfoldable pub flush_siblings : List ℕ → List LifePort → Option (List LifePort × Bool)
flush_siblings [] ports = some (ports, true)
flush_siblings (sibling ∷ rest) ports =
    let passed = flush_siblings rest ports in
    get_elem? ports sibling >>= λ port.
    let flushed = flush_siblings rest (set ports sibling (record port { has_flows = false })) in
    if is_closed port.port_status
    then passed
    else (if is_stopped port.port_status then flushed else some (ports, false))

-- The ports, the lists, and whether the device is removed.
pub record Removal : Type 0 where
  pub ports : List LifePort
  pub lists : Lists
  pub removed : Bool

-- `detach_device`, with the answer of `rte_dev_remove`: the ports of the device, or `none` if the
-- pointer is NULL.
unfoldable pub detach_device :
    (ℕ → Bool) → Bool → Option (List ℕ) → List LifePort → Lists → Option Removal
unfolding flush_siblings remove_invalid_ports
detach_device valid remove none ports s =
    some (record { ports = ports; lists = s; removed = false })
detach_device valid remove (some siblings) ports s = flush_siblings siblings ports >>= λ a.
    if a.1 && remove
    then (remove_invalid_ports valid s >>= λ t.
        some (record { ports = a.0; lists = t; removed = true }))
    else some (record { ports = a.0; lists = s; removed = false })
