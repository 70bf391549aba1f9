-- ===== src/Life/Queues.antt =====
-- dpdk.cpp, `rx_queue_setup` and `setup_hairpin_queues`, and the loops of `start_port` over the
-- queues of a port. A result of -1 is `false`.
use udx_fastpath.Base.{
  ℕ, zero, suc, Bool, true, false, ◌&&◌, not, Option, none, some, List, ltb, leb, ◌==◌,
  if◌then◌else◌, get_elem?, get_or, set,
}
use udx_fastpath.Fwd.Setup.{no_config}
use udx_fastpath.Life.{stopped, is_handling, Queue, LifePort, Globals, Driver}

-- `if (port->port_status == RTE_PORT_HANDLING) port->port_status = RTE_PORT_STOPPED;`
abbrev pub back_to_stopped : LifePort → LifePort
back_to_stopped p = if is_handling p.port_status then record p { port_status = stopped } else p

-- After a queue that the driver refuses.
abbrev pub queues_failed : LifePort → LifePort
queues_failed p = record (back_to_stopped p) { need_reconfig_queues = true }

-- A queue is started, unless its start is deferred.
abbrev pub mark_queue : Option Queue → List Queue → ℕ → List Queue
mark_queue none qs qi = qs
mark_queue (some q) qs qi = set qs qi (record q { running = not q.deferred_start })

-- The loop over the transmit queues from `qi` on.
unfoldable pub setup_txq : Driver → ℕ → ℕ → ℕ → LifePort → LifePort × Bool
setup_txq env pi zero qi p = (p, true)
setup_txq env pi (suc n) qi p =
    let marked = record p { txq = mark_queue (get_elem? p.txq qi) p.txq qi } in
    let rest = setup_txq env pi n (suc qi) marked in
    if env.tx_queue_setup pi qi then rest else (queues_failed p, false)

-- `rx_queue_setup`: the first flag is whether the state of the queue is written. The array has an
-- entry for each queue of the port; where it has none, which C leaves open, the set-up fails.
unfoldable pub rx_queue_setup : Globals → Driver → ℕ → ℕ → Option Queue → Bool × Bool
rx_queue_setup g env pi qi none = (false, false)
rx_queue_setup g env pi qi (some q) =
    if ltb 1 g.rx_pkt_nb_segs && env.buffer_split q.offloads
    then (true, env.rx_queue_setup pi qi)
    else (if g.multi_rx_mempool
        then (if leb g.mbuf_data_size_n 1 then (false, false) else elim (env.max_rx_mempools pi) [
          | none ↦ (false, false)
          | some n ↦ if n == 0 then (false, false) else (true, env.rx_queue_setup pi qi)
        ])
        else (true, env.rx_queue_setup pi qi))

-- The socket of the memory pool of the receive queues.
pub rx_socket : Globals → ℕ → LifePort → ℕ
rx_socket g pi p =
    if g.numa_support && not (get_or g.rxring_numa pi no_config == no_config)
    then get_or g.rxring_numa pi no_config
    else p.socket_id

unfoldable pub mark_rx : Bool → ℕ → LifePort → LifePort
mark_rx written qi p =
    if written then record p { rxq = mark_queue (get_elem? p.rxq qi) p.rxq qi } else p

-- The loop over the receive queues from `qi` on. Without a memory pool the port stays as it is.
unfoldable pub setup_rxq : Globals → Driver → ℕ → ℕ → ℕ → LifePort → LifePort × Bool
unfolding rx_queue_setup rx_socket mark_rx
setup_rxq g env pi zero qi p = (p, true)
setup_rxq g env pi (suc n) qi p =
    let r = rx_queue_setup g env pi qi (get_elem? p.rxq qi) in
    let marked = mark_rx r.0 qi p in
    let rest = setup_rxq g env pi n (suc qi) marked in
    if not (env.mempool (rx_socket g pi p))
    then (p, false)
    else (if r.1 then rest else (queues_failed marked, false))

-- The hairpin queues from `qi` on, with the driver's answer for each.
unfoldable pub setup_hairpinq : (ℕ → Bool) → ℕ → ℕ → LifePort → LifePort × Bool
setup_hairpinq accepts zero qi p = (p, true)
setup_hairpinq accepts (suc n) qi p =
    let rest = setup_hairpinq accepts n (suc qi) p in
    if accepts qi then rest else (queues_failed p, false)

-- The next step, unless the last one failed.
abbrev pub then_port : LifePort × Bool → (LifePort → LifePort × Bool) → LifePort × Bool
then_port (p, true) f = f p
then_port (p, false) f = (p, false)

unfoldable pub setup_hairpin_queues : Globals → Driver → ℕ → LifePort → LifePort × Bool
unfolding setup_hairpinq
setup_hairpin_queues g env pi p =
    then_port (setup_hairpinq (env.tx_hairpin_queue_setup pi) g.nb_hairpinq g.nb_txq p)
      (setup_hairpinq (env.rx_hairpin_queue_setup pi) g.nb_hairpinq g.nb_rxq)
