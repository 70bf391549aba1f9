-- ===== src/Life/Start.antt =====
-- dpdk.cpp, `start_port`.
pub mod Outcome
use udx_fastpath.Base.{
  ℕ, zero, suc, ◌+◌, Bool, true, false, ◌&&◌, ◌||◌, not, Option, none, some, ◌>>=◌, List, [], ◌∷◌,
  ltb, ◌==◌, if◌then◌else◌, get_elem?, set,
}
use Prim.Native.Nat.{bit_or}
use udx_fastpath.Life.{
  Status, stopped, started, handling, is_stopped, is_handling, Queue, LifePort, Globals, Driver,
  invalid, selects,
}
use udx_fastpath.Life.Queues.{
  back_to_stopped, setup_txq, setup_rxq, then_port, setup_hairpin_queues,
}

abbrev pub add_offloads : ℕ → List Queue → List Queue
add_offloads mask [] = []
add_offloads mask (q ∷ qs) = record q { offloads = bit_or q.offloads mask } ∷ add_offloads mask qs

-- The offloads that the device reports are added where they differ from those asked for.
unfoldable pub with_rx_conf : ℕ → LifePort → LifePort
with_rx_conf rx p =
    if rx == p.rx_offloads
    then p
    else record p { rx_offloads = bit_or p.rx_offloads rx; rxq = add_offloads rx p.rxq }

unfoldable pub with_tx_conf : ℕ → LifePort → LifePort
with_tx_conf tx p =
    if tx == p.tx_offloads
    then p
    else record p { tx_offloads = bit_or p.tx_offloads tx; txq = add_offloads tx p.txq }

unfoldable pub with_conf : Option (ℕ × ℕ) → LifePort → LifePort × Bool
unfolding with_rx_conf with_tx_conf
with_conf none p = (p, false)
with_conf (some (rx, tx)) p = (with_tx_conf tx (with_rx_conf rx p), true)

-- `eth_dev_configure_mp` and what follows it.
unfoldable pub configure : Globals → Driver → ℕ → LifePort → LifePort × Bool
unfolding with_conf
configure g env pi p =
    if g.primary && not (env.configure pi)
    then (record (back_to_stopped p) { need_reconfig = true }, false)
    else with_conf (env.conf pi) p

-- `if (port->need_reconfig > 0)`; a result of -1 is `false`.
unfoldable pub reconfigure : Globals → Driver → ℕ → LifePort → LifePort × Bool
unfolding configure
reconfigure g env pi p =
    let fresh = record p { need_reconfig = false } in
    if not p.need_reconfig
    then (p, true)
    else (if g.flow_isolate_all && not (env.isolate pi)
        then (fresh, false)
        else (if ltb 0 g.nb_hairpinq && not (env.hairpin_capability pi)
            then (fresh, false)
            else configure g env pi fresh))

-- `if (port->need_reconfig_queues > 0 && is_proc_primary())`
unfoldable pub setup_queues : Globals → Driver → ℕ → LifePort → LifePort × Bool
unfolding setup_txq setup_rxq setup_hairpin_queues
setup_queues g env pi p =
    let fresh = record p { need_reconfig_queues = false } in
    if not (p.need_reconfig_queues && g.primary)
    then (p, true)
    else then_port (then_port (setup_txq env pi g.nb_txq 0 fresh) (setup_rxq g env pi g.nb_rxq 0))
        (setup_hairpin_queues g env pi)

-- What becomes of a port: it was not stopped, the function returns -1, the device does not start,
-- or it starts.
pub data Result : Type 0 where
  skipped failed refused running : Result

-- `eth_dev_start_mp` and what follows it.
unfoldable pub start_device : Globals → Driver → ℕ → LifePort → LifePort × Result
start_device g env pi p =
    if g.primary && not (env.dev_start pi)
    then (back_to_stopped p, refused)
    else (if is_handling p.port_status then record p { port_status = started } else p, running)

abbrev pub finish_start : Globals → Driver → ℕ → LifePort × Bool → LifePort × Result
finish_start g env pi (p, true) = start_device g env pi p
finish_start g env pi (p, false) = (p, failed)

-- The body of the loop.
unfoldable pub start_one : Globals → Driver → ℕ → LifePort → LifePort × Result
unfolding reconfigure setup_queues start_device
start_one g env pi p =
    if is_stopped p.port_status
    then finish_start g env pi (
        then_port (reconfigure g env pi (record p { port_status = handling }))
          (setup_queues g env pi))
    else (p, skipped)

abbrev pub is_failed : Result → Bool
is_failed failed = true
is_failed _ = false

-- The loop, with the ports afterwards and whether it ended without -1. `none` is an access past
-- the end of `ports`.
unfoldable pub start_loop :
    Globals → Driver → ℕ → List ℕ → List LifePort → Option (List LifePort × Bool)
unfolding start_one
start_loop g env pid [] ports = some (ports, true)
start_loop g env pid (pi ∷ pis) ports =
    let passed = start_loop g env pid pis ports in
    if selects pid pi
    then (get_elem? ports pi >>= λ port.
        let r = start_one g env pi port in
        let next = set ports pi r.0 in
        let rest = start_loop g env pid pis next in
        if is_failed r.1 then some (next, false) else rest)
    else passed

-- The function up to the end of the loop. The rest displays, and binds hairpin ports in the driver,
-- which changes no port; `update_queue_state` gets the number behind the last port, which none has.
unfoldable pub start_port : Globals → Driver → ℕ → List LifePort → Option (List LifePort × Bool)
unfolding start_loop invalid
start_port g env pid ports =
    if invalid env pid then some (ports, true) else start_loop g env pid env.devs ports
