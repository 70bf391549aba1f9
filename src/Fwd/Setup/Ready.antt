-- ===== src/Fwd/Setup/Ready.antt =====
-- When `init_fwd_streams` succeeds: every probed port has enough queues, and there is room.
use udx_fastpath.Base.{
  ℕ, ◌*◌, ◌≤◌, ◌<◌, ◌≡◌, ◌∙◌, refl, true, List, [], ◌∷◌, some, arith, get_elem?, set, length,
  get_elem?-set_self, get_elem?-set_ne, get_elem?-some-lt, u16, replicate, if◌then◌else◌, ◌==◌,
}
use Prim.Native.Nat.{max}
use native.Mathlib.Decide.{ℕ_discrete}
use udx_fastpath.Fwd.Types.{Config, Port, zero_stream, State, Env}
use udx_fastpath.Fwd.Setup.{init_ports, init_fwd_streams, socket_of}
use udx_fastpath.Fwd.Setup.Streams.{Counted}

-- The port has a slot, a NUMA entry and enough queues.
abbrev pub HasQueues : ℕ → ℕ → List ℕ → List Port → ℕ → Type 0
HasQueues nb_rxq nb_txq port_numa ports pid =
    (port : Port) × (numa : ℕ) × (get_elem? ports pid ≡ some port)
    × (get_elem? port_numa pid ≡ some numa)
    × (nb_rxq ≤ port.max_rx_queues)
    × (nb_txq ≤ port.max_tx_queues)

abbrev pub AllHaveQueues : ℕ → ℕ → List ℕ → List Port → List ℕ → Type 0
AllHaveQueues nb_rxq nb_txq port_numa ports [] = Unit
AllHaveQueues nb_rxq nb_txq port_numa ports (pid ∷ pids) =
    HasQueues nb_rxq nb_txq port_numa ports pid × AllHaveQueues nb_rxq nb_txq port_numa ports pids

-- What the set-up relies on.
pub record IsReady (env : Env) (s : State) : Type 0 where
  pub counted : Counted s
  pub devices : AllHaveQueues s.nb_rxq s.nb_txq s.port_numa s.ports env.devs
  pub memory : (n : ℕ) → env.zmalloc_streams n ≡ true
  pub queues : (0 < s.nb_rxq) × (0 < s.nb_txq)
  pub some_port : 0 < s.nb_fwd_ports
  pub ports_probed : s.nb_fwd_ports ≤ s.nb_ports
  pub words : s.nb_ports * max s.nb_rxq s.nb_txq < 65536
  pub ids_room : s.nb_fwd_ports ≤ length s.fwd_ports_ids
  pub some_core : 0 < s.nb_fwd_lcores
  pub core_byte : s.nb_fwd_lcores < 256
  pub cores_room : s.nb_fwd_lcores ≤ length s.lcores

-- The configuration itself does not matter.
pub IsReady-cfg :
    {env : Env} {s : State} (c : Config) → IsReady env s → IsReady env (record s { cfg = c })
IsReady-cfg c r = record {
  counted = r.counted;
  devices = r.devices;
  memory = r.memory;
  queues = r.queues;
  some_port = r.some_port;
  ports_probed = r.ports_probed;
  words = r.words;
  ids_room = r.ids_room;
  some_core = r.some_core;
  core_byte = r.core_byte;
  cores_room = r.cores_room;
}

HasQueues-set :
    (s : State) (ports : List Port) (i socket pid : ℕ) (old : Port)
    → get_elem? ports i ≡ some old
    → HasQueues s.nb_rxq s.nb_txq s.port_numa ports pid
    → HasQueues s.nb_rxq s.nb_txq s.port_numa (set ports i (record old { socket_id = socket })) pid
HasQueues-set s ports i socket pid old e h = elim (ℕ_discrete i pid) [
  | yes same ↦
      let old_is : get_elem? ports pid ≡ some old = rw (← same) e in
      let (port, numa, here, numas, rx, tx) = h in
      (
        record old { socket_id = socket },
        numa,
        rw (← same) (get_elem?-set_self ports i _ (get_elem?-some-lt ports i e)),
        numas,
        ground arith,
        ground arith,
      )
  | no other ↦
      let (port, numa, here, numas, rx, tx) = h in
      (port, numa, get_elem?-set_ne ports i pid _ other ∙ here, numas, rx, tx)
]

AllHaveQueues-set :
    (s : State) (ports : List Port) (i socket : ℕ) (old : Port) (pids : List ℕ)
    → get_elem? ports i ≡ some old
    → AllHaveQueues s.nb_rxq s.nb_txq s.port_numa ports pids
    → AllHaveQueues s.nb_rxq s.nb_txq s.port_numa
        (set ports i (record old { socket_id = socket }))
        pids
AllHaveQueues-set s ports i socket old [] e h = h
AllHaveQueues-set s ports i socket old (pid ∷ pids) e h = (
  HasQueues-set s ports i socket pid old e h.0,
  AllHaveQueues-set s ports i socket old pids e h.1,
)

init_ports-succeeds :
    (env : Env) (s : State) (pids : List ℕ) (ports : List Port)
    → AllHaveQueues s.nb_rxq s.nb_txq s.port_numa ports pids
    → (ports' : List Port) × (init_ports env s pids ports ≡ some (ports', true))
unfolding init_ports
init_ports-succeeds env s [] ports h = (ports, refl)
init_ports-succeeds env s (pid ∷ pids) ports h =
    let (port, numa, here, numas, rx, tx) = h.0 in
    let socket = socket_of env s pid numa in
    let (ports', done) =
      init_ports-succeeds env s pids (set ports pid (record port { socket_id = socket }))
        (AllHaveQueues-set s ports pid socket port pids here h.1) in
    (ports', ground arith)

-- On a ready state `init_fwd_streams` returns 0.
pub init_fwd_streams-succeeds :
    (env : Env) (s : State)
    → IsReady env s
    → (t : State) × (init_fwd_streams env s ≡ some (t, true))
unfolding init_fwd_streams
init_fwd_streams-succeeds env s r =
    let (ports', done) = init_ports-succeeds env s env.devs s.ports r.devices in
    let count = u16 (s.nb_ports * max s.nb_rxq s.nb_txq) in
    let t = record s { ports = ports' } in
    let fresh = record t { nb_fwd_streams = count; streams = replicate count zero_stream } in
    (if count == s.nb_fwd_streams then t else fresh, ground (arith, r.memory count))
