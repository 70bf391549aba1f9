-- ===== src/Life/Running/All.antt =====
-- dpdk.cpp: `start_port` and `stop_port` on all ports, where the devices accept everything.
use udx_fastpath.Base.{
  ℕ, ◌≤◌, ◌≡◌, ◌≢◌, refl, ap, ◌∙◌, true, false, ◌&&◌, ◌||◌, not, some, List, [], ◌∷◌, on_if,
  on_false, if-true, get_elem?, get_elem?-some-lt, get_elem?-set_self, get_elem?-set_ne, set,
  length, arith,
}
use udx_fastpath.Select.Platform.{contains, port_all}
use udx_fastpath.Select.PortList.Marking.{Distinct}
use udx_fastpath.Life.{
  Status, stopped, started, is_started, LifePort, Globals, Driver, invalid, selects, all_started,
  all_ports_started, all_stopped, all_ports_stopped, port_is_stopped,
}
use udx_fastpath.Life.Queues.{back_to_stopped}
use udx_fastpath.Life.Start.{running, start_one, start_loop, start_port}
use udx_fastpath.Life.Stop.{forwards, stop_one, each_port, stop_port}
use udx_fastpath.Life.Running.{Accepts, start_one-running}

-- A stopped port with an array of receive queues that is long enough.
abbrev pub IsReady : Globals → Driver → List LifePort → ℕ → Type 0
IsReady g env ports pi =
    (p : LifePort) × (get_elem? ports pi ≡ some p)
    × (p.port_status ≡ stopped)
    × (g.nb_rxq ≤ length p.rxq)
    × Accepts g env pi

abbrev pub Has : Status → List LifePort → ℕ → Type 0
Has s ports pi = (p : LifePort) × (get_elem? ports pi ≡ some p) × (p.port_status ≡ s)

abbrev pub Each : (ℕ → Type 0) → List ℕ → Type 0
Each P [] = Unit
Each P (x ∷ xs) = P x × Each P xs

-- What holds of the other entries of an array holds after a write.
Each-set :
    (P : List LifePort → ℕ → Type 0) (pi : ℕ) (pis : List ℕ) (ports : List LifePort) (q : LifePort)
    → ((j : ℕ) → pi ≢ j → P ports j → P (set ports pi q) j)
    → contains pis pi ≡ false
    → Each (P ports) pis
    → Each (P (set ports pi q)) pis
unfolding contains
Each-set P pi [] ports q keeps new a = tt
Each-set P pi (j ∷ pis) ports q keeps new a = (
  keeps j (λ e. absurd (ground (arith, new, e))) a.0,
  Each-set P pi pis ports q keeps (ground (arith, new)) a.1,
)

Has-set :
    (s : Status) (pi : ℕ) (ports : List LifePort) (q : LifePort) (j : ℕ)
    → pi ≢ j
    → Has s ports j
    → Has s (set ports pi q) j
Has-set s pi ports q j ne (p, e, h) = (p, get_elem?-set_ne ports pi j q ne ∙ e, h)

IsReady-set :
    (g : Globals) (env : Driver) (pi : ℕ) (ports : List LifePort) (q : LifePort) (j : ℕ)
    → pi ≢ j
    → IsReady g env ports j
    → IsReady g env (set ports pi q) j
IsReady-set g env pi ports q j ne (p, e, idle, room, a) =
    (p, get_elem?-set_ne ports pi j q ne ∙ e, idle, room, a)

-- The result of a loop over `pis`: each has the status, and the others are as before.
abbrev Done : Status → List ℕ → List LifePort → List LifePort → Type 0
Done s pis ports out =
    Each (Has s out) pis × ((j : ℕ) → contains pis j ≡ false → get_elem? out j ≡ get_elem? ports j)

Done-step :
    (s : Status) (pi : ℕ) (pis : List ℕ) (ports out : List LifePort) (q p : LifePort)
    → get_elem? ports pi ≡ some p
    → q.port_status ≡ s
    → contains pis pi ≡ false
    → Done s pis (set ports pi q) out
    → Done s (pi ∷ pis) ports out
unfolding contains
Done-step s pi pis ports out q p at h new (all, frame) = (
  ((q, frame pi new ∙ get_elem?-set_self ports pi q (get_elem?-some-lt ports pi at), h), all),
  λ j other.
      frame j (ground (arith, other))
      ∙ get_elem?-set_ne ports pi j q (λ e. absurd (ground (arith, other, e))),
)

start_loop-here :
    (g : Globals) (env : Driver) (pi : ℕ) (pis : List ℕ) (ports : List LifePort) (p : LifePort)
    → get_elem? ports pi ≡ some p
    → (start_one g env pi p).1 ≡ running
    → start_loop g env port_all (pi ∷ pis) ports
      ≡ start_loop g env port_all pis (set ports pi (start_one g env pi p).0)
unfolding start_loop
start_loop-here g env pi pis ports p at e =
    if-true (selects port_all pi) _ _ (ground arith) ∙ rw at (rw e refl)

start_loop-all :
    (g : Globals) (env : Driver) (pis : List ℕ) (ports : List LifePort)
    → Distinct pis
    → Each (IsReady g env ports) pis
    → (out : List LifePort) × (start_loop g env port_all pis ports ≡ some (out, true))
      × Done started pis ports out
unfolding start_loop
start_loop-all g env [] ports d a = (ports, refl, (tt, λ j h. refl))
start_loop-all g env (pi ∷ pis) ports d ((p, at, idle, room, accepts), a) =
    let (run, status) = start_one-running g env pi p accepts idle room in
    let q = (start_one g env pi p).0 in
    let ready = Each-set (IsReady g env) pi pis ports q (IsReady-set g env pi ports q) d.0 a in
    let (out, e, done) = start_loop-all g env pis (set ports pi q) d.1 ready in
    (
      out,
      start_loop-here g env pi pis ports p at run ∙ e,
      Done-step started pi pis ports out q p at status d.0 done,
    )

all_started-true :
    (ports : List LifePort) (pis : List ℕ)
    → Each (Has started ports) pis
    → all_started ports pis ≡ some true
unfolding all_started
all_started-true ports [] a = refl
all_started-true ports (pi ∷ pis) ((p, at, h), a) = rw at (rw h (all_started-true ports pis a))

-- If each of the listed ports is stopped, has room for its receive queues and a device that accepts
-- every call, with memory pools for every socket and one pool for a queue, and the ports are listed
-- once each, start_port on all of them succeeds; then all ports are started and other entries are
-- as before.
pub start_port-all :
    (g : Globals) (env : Driver) (ports : List LifePort)
    → Distinct env.devs
    → Each (IsReady g env ports) env.devs
    → (out : List LifePort) × (start_port g env port_all ports ≡ some (out, true))
      × (all_ports_started env out ≡ some true)
      × ((j : ℕ) → contains env.devs j ≡ false → get_elem? out j ≡ get_elem? ports j)
unfolding start_port invalid all_ports_started
start_port-all g env ports d a =
    let (out, e, (all, frame)) = start_loop-all g env env.devs ports d a in
    (out, e, all_started-true out env.devs all, frame)

-- The device of a port that does not forward stops.
abbrev pub IsStoppable : Globals → Driver → List ℕ → ℕ → Type 0
IsStoppable g env fwd pi =
    (forwards env fwd pi ≡ false) × (env.peers pi ≡ true) × (env.dev_stop pi ≡ true)

abbrev pub CanStop : Globals → Driver → List ℕ → List LifePort → ℕ → Type 0
CanStop g env fwd ports pi = Has started ports pi × IsStoppable g env fwd pi

stop_one-stopped :
    (g : Globals) (env : Driver) (fwd : List ℕ) (pi : ℕ) (p : LifePort)
    → p.port_status ≡ started
    → IsStoppable g env fwd pi
    → (stop_one g env fwd pi p).port_status ≡ stopped
unfolding stop_one
stop_one-stopped g env fwd pi p h (idle, peers, stops) =
    let P : LifePort → Type 0 = λ q. q.port_status ≡ stopped in
    let live : is_started p.port_status ≡ true = ap is_started h in
    on_false P (forwards env fwd pi || not (is_started p.port_status)) _ _
      (ground (arith, idle, live))
      (on_false P (g.hairpin_manual && not (env.peers pi)) _ _ (ground (arith, peers)) (
        on_false P (g.primary && not (env.dev_stop pi)) _ _ (ground (arith, stops))
          (on_if (λ q. P (back_to_stopped q)) (p.has_flows && not g.no_flow_flush) refl refl)))

each_port-all :
    (g : Globals) (env : Driver) (fwd : List ℕ) (pis : List ℕ) (ports : List LifePort)
    → Distinct pis
    → Each (CanStop g env fwd ports) pis
    → (out : List LifePort) × (each_port (stop_one g env fwd) port_all pis ports ≡ some out)
      × Done stopped pis ports out
unfolding each_port
each_port-all g env fwd [] ports d a = (ports, refl, (tt, λ j h. refl))
each_port-all g env fwd (pi ∷ pis) ports d (((p, at, h), can), a) =
    let q = stop_one g env fwd pi p in
    let next = set ports pi q in
    let ready =
      Each-set (CanStop g env fwd) pi pis ports q
        (λ j ne c. (Has-set started pi ports q j ne c.0, c.1)) d.0 a in
    let (out, e, done) = each_port-all g env fwd pis next d.1 ready in
    let step : each_port (stop_one g env fwd) port_all (pi ∷ pis) ports
        ≡ each_port (stop_one g env fwd) port_all pis next =
      if-true (selects port_all pi) _ _ (ground arith) ∙ rw at refl in
    (
      out,
      step ∙ e,
      Done-step stopped pi pis ports out q p at (stop_one-stopped g env fwd pi p h can) d.0 done,
    )

all_stopped-true :
    (ports : List LifePort) (pis : List ℕ)
    → Each (Has stopped ports) pis
    → all_stopped ports pis ≡ some true
unfolding all_stopped port_is_stopped
all_stopped-true ports [] a = refl
all_stopped-true ports (pi ∷ pis) ((p, at, h), a) = rw at (rw h (all_stopped-true ports pis a))

-- If each of the listed ports is started, does not forward, and has a device that stops and tells
-- its hairpin peers, and the ports are listed once each, stop_port on all of them leaves all ports
-- stopped and other entries as before.
pub stop_port-all :
    (g : Globals) (env : Driver) (fwd : List ℕ) (ports : List LifePort)
    → Distinct env.devs
    → Each (CanStop g env fwd ports) env.devs
    → (out : List LifePort) × (stop_port g env fwd port_all ports ≡ some out)
      × (all_ports_stopped env out ≡ some true)
      × ((j : ℕ) → contains env.devs j ≡ false → get_elem? out j ≡ get_elem? ports j)
unfolding stop_port invalid all_ports_stopped
stop_port-all g env fwd ports d a =
    let (out, e, (all, frame)) = each_port-all g env fwd env.devs ports d a in
    (out, e, all_stopped-true out env.devs all, frame)
