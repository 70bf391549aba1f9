-- ===== src/Life/Start/Outcome.antt =====
-- The status of a port after the steps of `start_port` of dpdk.cpp.
use udx_fastpath.Base.{
  ℕ, zero, suc, ◌≡◌, ◌⊎◌, inl, inr, refl, Bool, true, false, ◌&&◌, not, Option, none, some, ltb,
  ◌==◌, on_if, get_elem?, Bool-cases,
}
use udx_fastpath.Life.{stopped, started, handling, is_stopped, LifePort, Globals, Driver}
use udx_fastpath.Life.Queues.{
  queues_failed, mark_queue, mark_rx, rx_queue_setup, rx_socket, setup_txq, setup_rxq,
  setup_hairpinq, then_port, setup_hairpin_queues,
}
use udx_fastpath.Life.Start.{
  with_rx_conf, with_tx_conf, with_conf, configure, reconfigure, setup_queues, Result, skipped,
  failed, refused, running, start_device, finish_start, start_one,
}

-- A step that succeeds leaves the port in handling; one that fails leaves it there or stops it.
abbrev pub InHand : LifePort × Bool → Type 0
InHand (p, true) = p.port_status ≡ handling
InHand (p, false) = (p.port_status ≡ handling) ⊎ (p.port_status ≡ stopped)

InHand-then :
    (r : LifePort × Bool) (f : LifePort → LifePort × Bool)
    → ((p : LifePort) → p.port_status ≡ handling → InHand (f p))
    → InHand r
    → InHand (then_port r f)
InHand-then (p, true) f k h = k p h
InHand-then (p, false) f k h = h

queues_failed-stopped :
    (p : LifePort) → p.port_status ≡ handling → (queues_failed p).port_status ≡ stopped
queues_failed-stopped p h = rw h refl

pub setup_txq-InHand :
    (env : Driver) (pi n qi : ℕ) (p : LifePort)
    → p.port_status ≡ handling
    → InHand (setup_txq env pi n qi p)
unfolding setup_txq
setup_txq-InHand env pi zero qi p h = h
setup_txq-InHand env pi (suc n) qi p h =
    on_if InHand (env.tx_queue_setup pi qi)
      (setup_txq-InHand env pi n (suc qi)
        (record p { txq = mark_queue (get_elem? p.txq qi) p.txq qi }) h)
      (inr (queues_failed-stopped p h))

mark_rx-handling :
    (written : Bool) (qi : ℕ) (p : LifePort)
    → p.port_status ≡ handling
    → (mark_rx written qi p).port_status ≡ handling
unfolding mark_rx
mark_rx-handling true qi p h = h
mark_rx-handling false qi p h = h

setup_rxq-InHand :
    (g : Globals) (env : Driver) (pi n qi : ℕ) (p : LifePort)
    → p.port_status ≡ handling
    → InHand (setup_rxq g env pi n qi p)
unfolding setup_rxq
setup_rxq-InHand g env pi zero qi p h = h
setup_rxq-InHand g env pi (suc n) qi p h =
    let r = rx_queue_setup g env pi qi (get_elem? p.rxq qi) in
    let m = mark_rx-handling r.0 qi p h in
    on_if InHand (not (env.mempool (rx_socket g pi p))) (inl h) (
      on_if InHand r.1 (setup_rxq-InHand g env pi n (suc qi) (mark_rx r.0 qi p) m)
        (inr (queues_failed-stopped (mark_rx r.0 qi p) m)))

setup_hairpinq-InHand :
    (accepts : ℕ → Bool) (n qi : ℕ) (p : LifePort)
    → p.port_status ≡ handling
    → InHand (setup_hairpinq accepts n qi p)
unfolding setup_hairpinq
setup_hairpinq-InHand accepts zero qi p h = h
setup_hairpinq-InHand accepts (suc n) qi p h =
    on_if InHand (accepts qi) (setup_hairpinq-InHand accepts n (suc qi) p h)
      (inr (queues_failed-stopped p h))

setup_queues-InHand :
    (g : Globals) (env : Driver) (pi : ℕ) (p : LifePort)
    → p.port_status ≡ handling
    → InHand (setup_queues g env pi p)
unfolding setup_queues setup_hairpin_queues
setup_queues-InHand g env pi p h =
    let fresh = record p { need_reconfig_queues = false } in
    on_if InHand (not (p.need_reconfig_queues && g.primary)) h (
      InHand-then _ (setup_hairpin_queues g env pi)
        (λ q k.
          InHand-then _ (setup_hairpinq (env.rx_hairpin_queue_setup pi) g.nb_hairpinq g.nb_rxq)
            (λ r l.
              setup_hairpinq-InHand (env.rx_hairpin_queue_setup pi) g.nb_hairpinq g.nb_rxq r l)
            (setup_hairpinq-InHand (env.tx_hairpin_queue_setup pi) g.nb_hairpinq g.nb_txq q k))
        (InHand-then _ (setup_rxq g env pi g.nb_rxq 0)
          (λ q k. setup_rxq-InHand g env pi g.nb_rxq 0 q k)
          (setup_txq-InHand env pi g.nb_txq 0 fresh h)))

with_conf-InHand :
    (o : Option (ℕ × ℕ)) (p : LifePort) → p.port_status ≡ handling → InHand (with_conf o p)
unfolding with_conf with_rx_conf with_tx_conf
with_conf-InHand none p h = inl h
with_conf-InHand (some (rx, tx)) p h =
    let P : LifePort → Type 0 = λ q. q.port_status ≡ handling in
    let k = on_if P (rx == p.rx_offloads) h h in on_if P (tx == (with_rx_conf rx p).tx_offloads) k k

reconfigure-InHand :
    (g : Globals) (env : Driver) (pi : ℕ) (p : LifePort)
    → p.port_status ≡ handling
    → InHand (reconfigure g env pi p)
unfolding reconfigure configure
reconfigure-InHand g env pi p h =
    let fresh = record p { need_reconfig = false } in
    on_if InHand (not p.need_reconfig) h (
      on_if InHand (g.flow_isolate_all && not (env.isolate pi)) (inl h) (
        on_if InHand (ltb 0 g.nb_hairpinq && not (env.hairpin_capability pi)) (inl h) (
          on_if InHand (g.primary && not (env.configure pi)) (inr (rw h refl))
            (with_conf-InHand (env.conf pi) fresh h))))

-- What `start_one` promises for each result.
abbrev pub AfterStart : LifePort → LifePort × Result → Type 0
AfterStart p (q, skipped) = (q ≡ p) × (is_stopped p.port_status ≡ false)
AfterStart p (q, failed) = (q.port_status ≡ handling) ⊎ (q.port_status ≡ stopped)
AfterStart p (q, refused) = q.port_status ≡ stopped
AfterStart p (q, running) = q.port_status ≡ started

start_device-AfterStart :
    (g : Globals) (env : Driver) (pi : ℕ) (p q : LifePort)
    → q.port_status ≡ handling
    → AfterStart p (start_device g env pi q)
unfolding start_device
start_device-AfterStart g env pi p q h =
    on_if (AfterStart p) (g.primary && not (env.dev_start pi)) (rw h refl) (rw h refl)

finish-AfterStart :
    (g : Globals) (env : Driver) (pi : ℕ) (p : LifePort) (r : LifePort × Bool)
    → InHand r
    → AfterStart p (finish_start g env pi r)
finish-AfterStart g env pi p (q, true) h = start_device-AfterStart g env pi p q h
finish-AfterStart g env pi p (q, false) h = h

-- The status of a port after the body of the loop of start_port, for each way out: a port that was
-- not stopped is as before; after a return of -1 it is stopped or still being handled; a port whose
-- device does not start is stopped; any other is started.
pub start_one-AfterStart :
    (g : Globals) (env : Driver) (pi : ℕ) (p : LifePort) → AfterStart p (start_one g env pi p)
unfolding start_one
start_one-AfterStart g env pi p = elim (Bool-cases (is_stopped p.port_status)) [
  | inl e ↦ rw e (
      finish-AfterStart g env pi p _ (
        InHand-then _ (setup_queues g env pi) (λ q k. setup_queues-InHand g env pi q k)
          (reconfigure-InHand g env pi (record p { port_status = handling }) refl)))
  | inr e ↦ rw e (refl, e)
]
