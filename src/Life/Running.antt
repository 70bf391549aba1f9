-- ===== src/Life/Running.antt =====
-- dpdk.cpp: where the devices accept everything, `start_port` starts the ports.
pub mod All
use udx_fastpath.Base.{
  ℕ, zero, suc, ◌+◌, ◌≤◌, ◌<◌, ◌≡◌, refl, ap, sym, ◌∙◌, Bool, true, false, ◌&&◌, ◌||◌, not, Option,
  none, some, List, [], ◌∷◌, ltb, leb, ◌==◌, if◌then◌else◌, on_if, on_false, if-true, if-false,
  get_elem?, get_elem?-lt, length, length-set, arith,
}
use mathlib.Core.Path.{subst}
use udx_fastpath.Life.{
  Status, stopped, started, handling, is_stopped, Queue, LifePort, Globals, Driver,
}
use udx_fastpath.Life.Queues.{
  mark_queue, mark_rx, rx_queue_setup, rx_socket, setup_txq, setup_rxq, setup_hairpinq, then_port,
  setup_hairpin_queues, queues_failed,
}
use udx_fastpath.Life.Start.{
  add_offloads, with_rx_conf, with_tx_conf, with_conf, configure, reconfigure, setup_queues, Result,
  running, failed, skipped, refused, start_device, finish_start, start_one,
}
use udx_fastpath.Life.Start.Outcome.{start_one-AfterStart, AfterStart}

-- The device of port `i` accepts every call, and one memory pool serves a queue.
pub record Accepts (g : Globals) (env : Driver) (i : ℕ) : Type 0 where
  pub isolate : env.isolate i ≡ true
  pub capability : env.hairpin_capability i ≡ true
  pub configure : env.configure i ≡ true
  pub conf : (c : ℕ × ℕ) × (env.conf i ≡ some c)
  pub tx : (qi : ℕ) → env.tx_queue_setup i qi ≡ true
  pub rx : (qi : ℕ) → env.rx_queue_setup i qi ≡ true
  pub tx_hairpin : (qi : ℕ) → env.tx_hairpin_queue_setup i qi ≡ true
  pub rx_hairpin : (qi : ℕ) → env.rx_hairpin_queue_setup i qi ≡ true
  pub pool : (socket : ℕ) → env.mempool socket ≡ true
  pub single : g.multi_rx_mempool ≡ false
  pub start : env.dev_start i ≡ true

-- A step that succeeds, with room for the receive queues.
abbrev Good : ℕ → LifePort × Bool → Type 0
Good n r = (r.1 ≡ true) × (n ≤ length r.0.rxq)

Good-then :
    (n : ℕ) (r : LifePort × Bool) (f : LifePort → LifePort × Bool)
    → ((p : LifePort) → n ≤ length p.rxq → Good n (f p))
    → Good n r
    → Good n (then_port r f)
Good-then n (p, true) f k h = k p h.1
Good-then n (p, false) f k h = absurd (cc)

setup_txq-Good :
    (env : Driver) (m pi n qi : ℕ) (p : LifePort)
    → ((k : ℕ) → env.tx_queue_setup pi k ≡ true)
    → m ≤ length p.rxq
    → Good m (setup_txq env pi n qi p)
unfolding setup_txq
setup_txq-Good env m pi zero qi p h room = (refl, room)
setup_txq-Good env m pi (suc n) qi p h room =
    let marked = record p { txq = mark_queue (get_elem? p.txq qi) p.txq qi } in
    rw (h qi) (setup_txq-Good env m pi n (suc qi) marked h room)

setup_hairpinq-Good :
    (accepts : ℕ → Bool) (m n qi : ℕ) (p : LifePort)
    → ((k : ℕ) → accepts k ≡ true)
    → m ≤ length p.rxq
    → Good m (setup_hairpinq accepts n qi p)
unfolding setup_hairpinq
setup_hairpinq-Good accepts m zero qi p h room = (refl, room)
setup_hairpinq-Good accepts m (suc n) qi p h room =
    rw (h qi) (setup_hairpinq-Good accepts m n (suc qi) p h room)

-- A receive queue that is there is set up.
rx_queue_setup-accepted :
    (g : Globals) (env : Driver) (pi qi : ℕ) (q : Queue)
    → g.multi_rx_mempool ≡ false
    → env.rx_queue_setup pi qi ≡ true
    → rx_queue_setup g env pi qi (some q) ≡ (true, true)
unfolding rx_queue_setup
rx_queue_setup-accepted g env pi qi q single h =
    on_if (λ r. r ≡ (true, true)) (ltb 1 g.rx_pkt_nb_segs && env.buffer_split q.offloads)
      (ap (λ b. (true, b)) h) (if-false g.multi_rx_mempool _ _ single ∙ ap (λ b. (true, b)) h)

length-mark_queue :
    (o : Option Queue) (qs : List Queue) (qi : ℕ) → length (mark_queue o qs qi) ≡ length qs
length-mark_queue none qs qi = refl
length-mark_queue (some q) qs qi = length-set qs qi _

setup_rxq-Good :
    (g : Globals) (env : Driver) (m pi n qi : ℕ) (p : LifePort)
    → Accepts g env pi
    → qi + n ≤ m
    → m ≤ length p.rxq
    → Good m (setup_rxq g env pi n qi p)
unfolding setup_rxq mark_rx
setup_rxq-Good g env m pi zero qi p a few room = (refl, room)
setup_rxq-Good g env m pi (suc n) qi p a few room =
    let (q, at) = get_elem?-lt p.rxq qi (omega arith) in
    let marked = record p { rxq = mark_queue (get_elem? p.rxq qi) p.rxq qi } in
    let same = length-mark_queue (get_elem? p.rxq qi) p.rxq qi in
    let r =
      ap (rx_queue_setup g env pi qi) at
      ∙ rx_queue_setup-accepted g env pi qi q a.single (a.rx qi) in
    let rest = setup_rxq-Good g env m pi n (suc qi) marked a (omega arith) (omega (arith, same)) in
    rw (a.pool (rx_socket g pi p), r) rest

setup_queues-Good :
    (g : Globals) (env : Driver) (pi : ℕ) (p : LifePort)
    → Accepts g env pi
    → g.nb_rxq ≤ length p.rxq
    → Good g.nb_rxq (setup_queues g env pi p)
unfolding setup_queues setup_hairpin_queues
setup_queues-Good g env pi p a room =
    let m = g.nb_rxq in
    let fresh = record p { need_reconfig_queues = false } in
    on_if (Good m) (not (p.need_reconfig_queues && g.primary)) (refl, room)
      (Good-then m _ (setup_hairpin_queues g env pi)
        (λ q k.
          Good-then m _ (setup_hairpinq (env.rx_hairpin_queue_setup pi) g.nb_hairpinq m)
            (λ r l.
              setup_hairpinq-Good (env.rx_hairpin_queue_setup pi) m g.nb_hairpinq m r a.rx_hairpin
                l)
            (setup_hairpinq-Good (env.tx_hairpin_queue_setup pi) m g.nb_hairpinq g.nb_txq q
              a.tx_hairpin k))
        (Good-then m _ (setup_rxq g env pi m 0)
          (λ q k. setup_rxq-Good g env m pi m 0 q a (omega arith) k)
          (setup_txq-Good env m pi g.nb_txq 0 fresh a.tx room)))

length-add_offloads : (mask : ℕ) (qs : List Queue) → length (add_offloads mask qs) ≡ length qs
length-add_offloads mask [] = refl
length-add_offloads mask (q ∷ qs) = ap suc (length-add_offloads mask qs)

with_conf-Good :
    (m rx tx : ℕ) (p : LifePort) → m ≤ length p.rxq → Good m (with_conf (some (rx, tx)) p)
unfolding with_conf with_rx_conf with_tx_conf
with_conf-Good m rx tx p room =
    let P : LifePort → Type 0 = λ q. m ≤ length q.rxq in
    let k =
      on_if P (rx == p.rx_offloads) room (omega (arith, length-add_offloads rx p.rxq, room)) in
    (refl, on_if P (tx == (with_rx_conf rx p).tx_offloads) k k)

configure-Good :
    (g : Globals) (env : Driver) (pi m : ℕ) (p : LifePort)
    → Accepts g env pi
    → m ≤ length p.rxq
    → Good m (configure g env pi p)
unfolding configure
configure-Good g env pi m p a room =
    let (c, e) = a.conf in
    on_false (Good m) (g.primary && not (env.configure pi)) _ _ (ground (arith, a.configure))
      (subst (λ o. Good m (with_conf o p)) (sym e) (with_conf-Good m c.0 c.1 p room))

reconfigure-Good :
    (g : Globals) (env : Driver) (pi m : ℕ) (p : LifePort)
    → Accepts g env pi
    → m ≤ length p.rxq
    → Good m (reconfigure g env pi p)
unfolding reconfigure
reconfigure-Good g env pi m p a room =
    let fresh = record p { need_reconfig = false } in
    on_if (Good m) (not p.need_reconfig) (refl, room)
      (on_false (Good m) (g.flow_isolate_all && not (env.isolate pi)) _ _
        (ground (arith, a.isolate))
        (on_false (Good m) (ltb 0 g.nb_hairpinq && not (env.hairpin_capability pi)) _ _
          (ground (arith, a.capability)) (configure-Good g env pi m fresh a room)))

start_device-running :
    (g : Globals) (env : Driver) (pi : ℕ) (p : LifePort)
    → env.dev_start pi ≡ true
    → (start_device g env pi p).1 ≡ running
unfolding start_device
start_device-running g env pi p h =
    ap (λ (r : LifePort × Result). r.1)
      (if-false (g.primary && not (env.dev_start pi)) _ _ (ground (arith, h)))

finish-running :
    (g : Globals) (env : Driver) (pi m : ℕ) (r : LifePort × Bool)
    → env.dev_start pi ≡ true
    → Good m r
    → (finish_start g env pi r).1 ≡ running
finish-running g env pi m (p, true) h k = start_device-running g env pi p h
finish-running g env pi m (p, false) h k = absurd (cc)

started-running :
    (p : LifePort) (r : LifePort × Result)
    → AfterStart p r
    → r.1 ≡ running
    → r.0.port_status ≡ started
started-running p (q, running) h e = h
started-running p (q, skipped) h e = absurd (cc)
started-running p (q, failed) h e = absurd (cc)
started-running p (q, refused) h e = absurd (cc)

pub start_one-running :
    (g : Globals) (env : Driver) (pi : ℕ) (p : LifePort)
    → Accepts g env pi
    → p.port_status ≡ stopped
    → g.nb_rxq ≤ length p.rxq
    → ((start_one g env pi p).1 ≡ running) × ((start_one g env pi p).0.port_status ≡ started)
unfolding start_one
start_one-running g env pi p a h room =
    let m = g.nb_rxq in
    let taken = record p { port_status = handling } in
    let good =
      Good-then m (reconfigure g env pi taken) (setup_queues g env pi)
        (λ q k. setup_queues-Good g env pi q a k) (reconfigure-Good g env pi m taken a room) in
    let e =
      ap (λ (r : LifePort × Result). r.1) (if-true (is_stopped p.port_status) _ _ (ap is_stopped h))
      ∙ finish-running g env pi m (then_port (reconfigure g env pi taken) (setup_queues g env pi))
          a.start good in
    (e, started-running p (start_one g env pi p) (start_one-AfterStart g env pi p) e)
