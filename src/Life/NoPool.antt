-- ===== src/Life/NoPool.antt =====
-- dpdk.cpp: `start_port` returns without a memory pool, and the port stays in RTE_PORT_HANDLING.
use udx_fastpath.Base.{
  ℕ, zero, suc, ◌≡◌, ◌≢◌, refl, ap, ◌∙◌, Bool, true, false, ◌&&◌, not, some, List, [], ◌∷◌,
  get_elem?, get_elem?-some-lt, get_elem?-set_self, set, if-true, if-false, arith,
}
use native.Mathlib.Decide.{ℕ_discrete}
use udx_fastpath.Select.Platform.{port_all, contains}
use udx_fastpath.Life.{stopped, handling, is_stopped, LifePort, Globals, Driver, invalid, selects}
use udx_fastpath.Life.Queues.{
  mark_queue, setup_txq, setup_rxq, rx_socket, then_port, setup_hairpin_queues,
}
use udx_fastpath.Life.Start.{
  reconfigure, setup_queues, failed, finish_start, start_one, start_loop, start_port,
}
use udx_fastpath.Life.Start.Outcome.{InHand, setup_txq-InHand}
use udx_fastpath.Life.Stuck.{IsStuck, Reach, Reach-IsStuck}

-- The device takes the transmit queues, and there is no memory pool.
pub record HasNoPool (g : Globals) (env : Driver) (i : ℕ) : Type 0 where
  pub primary : g.primary ≡ true
  pub queues : (n : ℕ) × (g.nb_rxq ≡ suc n)
  pub tx_accepted : (qi : ℕ) → env.tx_queue_setup i qi ≡ true
  pub no_pool : (socket : ℕ) → env.mempool socket ≡ false

-- A stopped port whose queues are to be set up.
pub record IsFresh (p : LifePort) : Type 0 where
  pub is_stopped : p.port_status ≡ stopped
  pub configured : p.need_reconfig ≡ false
  pub queues : p.need_reconfig_queues ≡ true

setup_txq-accepted :
    (env : Driver) (pi n qi : ℕ) (p : LifePort)
    → ((k : ℕ) → env.tx_queue_setup pi k ≡ true)
    → (setup_txq env pi n qi p).1 ≡ true
unfolding setup_txq
setup_txq-accepted env pi zero qi p h = refl
setup_txq-accepted env pi (suc n) qi p h = rw (h qi) (
    setup_txq-accepted env pi n (suc qi)
      (record p { txq = mark_queue (get_elem? p.txq qi) p.txq qi }) h)

setup_rxq-no_pool :
    (g : Globals) (env : Driver) (pi n qi : ℕ) (p : LifePort)
    → ((socket : ℕ) → env.mempool socket ≡ false)
    → setup_rxq g env pi (suc n) qi p ≡ (p, false)
unfolding setup_rxq
setup_rxq-no_pool g env pi n qi p h = rw (h (rx_socket g pi p)) refl

-- The queues fail, and the port is in handling.
InHand-failed :
    (r : LifePort × Bool) (f : LifePort → LifePort × Bool)
    → InHand r
    → r.1 ≡ true
    → ((p : LifePort) → f p ≡ (p, false))
    → (q : LifePort) × (then_port r f ≡ (q, false)) × (q.port_status ≡ handling)
InHand-failed (p, true) f h e k = (p, k p, h)
InHand-failed (p, false) f h e k = absurd (cc)

setup_queues-no_pool :
    (g : Globals) (env : Driver) (i : ℕ) (p : LifePort)
    → HasNoPool g env i
    → p.port_status ≡ handling
    → p.need_reconfig_queues ≡ true
    → (q : LifePort) × (setup_queues g env i p ≡ (q, false)) × (q.port_status ≡ handling)
unfolding setup_queues
setup_queues-no_pool g env i p c h need =
    let fresh = record p { need_reconfig_queues = false } in
    let (n, rxqs) = c.queues in
    let (q, e, k) =
      InHand-failed (setup_txq env i g.nb_txq 0 fresh) (setup_rxq g env i g.nb_rxq 0)
        (setup_txq-InHand env i g.nb_txq 0 fresh h)
        (setup_txq-accepted env i g.nb_txq 0 fresh c.tx_accepted)
        (λ x. ap (λ m. setup_rxq g env i m 0 x) rxqs ∙ setup_rxq-no_pool g env i n 0 x c.no_pool) in
    let test : not (p.need_reconfig_queues && g.primary) ≡ false =
      ground (arith, need, c.primary) in
    (
      q,
      if-false (not (p.need_reconfig_queues && g.primary)) _ _ test
          ∙ ap (λ r. then_port r (setup_hairpin_queues g env i)) e,
      k,
    )

start_one-no_pool :
    (g : Globals) (env : Driver) (i : ℕ) (p : LifePort)
    → HasNoPool g env i
    → IsFresh p
    → (q : LifePort) × (start_one g env i p ≡ (q, failed)) × (q.port_status ≡ handling)
unfolding start_one reconfigure
start_one-no_pool g env i p c f =
    let taken = record p { port_status = handling } in
    let (q, e, k) = setup_queues-no_pool g env i taken c refl f.queues in
    (
      q,
      if-true (is_stopped p.port_status) _ _ (ap is_stopped f.is_stopped)
          ∙ ap (λ r. finish_start g env i (then_port r (setup_queues g env i)))
              (if-true (not p.need_reconfig) _ _ (ap not f.configured))
          ∙ ap (finish_start g env i) e,
      k,
    )

-- The loop at the port, and at another.
start_loop-here :
    (g : Globals) (env : Driver) (i : ℕ) (pis : List ℕ) (ports : List LifePort) (p q : LifePort)
    → get_elem? ports i ≡ some p
    → start_one g env i p ≡ (q, failed)
    → start_loop g env i (i ∷ pis) ports ≡ some (set ports i q, false)
unfolding start_loop
start_loop-here g env i pis ports p q at e =
    if-true (selects i i) _ _ (ground arith) ∙ rw at (rw e refl)

start_loop-other :
    (g : Globals) (env : Driver) (pid pi : ℕ) (pis : List ℕ) (ports : List LifePort)
    → selects pid pi ≡ false
    → start_loop g env pid (pi ∷ pis) ports ≡ start_loop g env pid pis ports
unfolding start_loop
start_loop-other g env pid pi pis ports h = if-false (selects pid pi) _ _ h

start_loop-no_pool :
    (g : Globals) (env : Driver) (i : ℕ) (pis : List ℕ) (ports : List LifePort) (p : LifePort)
    → i ≢ port_all
    → contains pis i ≡ true
    → get_elem? ports i ≡ some p
    → HasNoPool g env i
    → IsFresh p
    → (out : List LifePort) × (start_loop g env i pis ports ≡ some (out, false)) × IsStuck i out
unfolding contains
start_loop-no_pool g env i [] ports p ne has at c f = absurd (cc)
start_loop-no_pool g env i (pi ∷ pis) ports p ne has at c f = elim (ℕ_discrete pi i) [
  | yes same ↦
      let (q, e, h) = start_one-no_pool g env i p c f in
      (
        set ports i q,
        ap (λ k. start_loop g env i (k ∷ pis) ports) same
            ∙ start_loop-here g env i pis ports p q at e,
        (q, get_elem?-set_self ports i q (get_elem?-some-lt ports i at), h),
      )
  | no other ↦
      let (out, e, h) =
        start_loop-no_pool g env i pis ports p ne (ground (arith, has, other)) at c f in
      (out, start_loop-other g env i pi pis ports (ground (arith, other, ne)) ∙ e, h)
]

-- In the primary process, with at least one receive queue, start_port on a stopped, configured port
-- whose transmit queues the device takes, for which no memory pool is found on any socket, returns
-- -1, and from then on the port stays in the handling status, through every sequence of start_port,
-- stop_port and reset_port, with whatever answers and whichever ports forward.
pub start_port-no_pool :
    (g : Globals) (env : Driver) (i : ℕ) (ports : List LifePort) (p : LifePort)
    → i ≢ port_all
    → contains env.devs i ≡ true
    → get_elem? ports i ≡ some p
    → HasNoPool g env i
    → IsFresh p
    → (out : List LifePort) × (start_port g env i ports ≡ some (out, false))
      × ((later : List LifePort) → Reach g out later → IsStuck i later)
unfolding start_port invalid
start_port-no_pool g env i ports p ne has at c f =
    let (out, e, h) = start_loop-no_pool g env i env.devs ports p ne has at c f in
    let valid : invalid env i ≡ false = ground (arith, ne, has) in
    (out, if-false (invalid env i) _ _ valid ∙ e, λ later r. Reach-IsStuck g i out later r h)
