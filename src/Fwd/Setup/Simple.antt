-- ===== src/Fwd/Setup/Simple.antt =====
-- The set-up with one stream for each forwarding port.
use udx_fastpath.Base.{
  ℕ, zero, suc, ◌+◌, ◌*◌, ◌/◌, ◌≤◌, ◌<◌, min, ◌≡◌, refl, ap, true, Bool, List, some, arith,
  get_elem?, get_or, set, length, length-set, get_elem?-lt, get_elem?-eq-get_or, if◌then◌else◌, ltb,
  u8, tabulate_at, get_elem?-tabulate_at,
}
use udx_fastpath.Fwd.Types.{Config, Stream, Lcore, State, Env}
use udx_fastpath.Fwd.Lcores.{setup_fwd_config_of_each_lcore}
use udx_fastpath.Fwd.Lcores.Tiling.{Tiles, setup_fwd_config_of_each_lcore-Tiles}
use udx_fastpath.Fwd.Topology.{fwd_topology_tx_port_get, fwd_topology_tx_port_get-lt}
use udx_fastpath.Fwd.Setup.{init_fwd_streams, wire_simple, simple_fwd_config_setup}
use Prim.Native.Nat.{max}
use udx_fastpath.Fwd.Setup.Streams.{
  SameWiring, init_fwd_streams-Same, nb_fwd_streams-init_fwd_streams,
}
use udx_fastpath.Fwd.Setup.Ready.{IsReady, IsReady-cfg, init_fwd_streams-succeeds}

-- The stream of position `i`: from its port to the port that the topology gives it.
abbrev pub simple_at : State → ℕ → Stream
simple_at s i =
    let tx_port =
      get_or s.fwd_ports_ids (fwd_topology_tx_port_get s.port_topology s.nb_fwd_ports i) 0 in
    record {
      rx_port = get_or s.fwd_ports_ids i 0;
      rx_queue = 0;
      tx_port = tx_port;
      tx_queue = 0;
      peer_addr = tx_port;
      retry_enabled = s.retry_enabled;
    }

wire_simple-eq :
    (s : State) (n i : ℕ) (streams : List Stream)
    → s.cfg.nb_fwd_ports ≡ s.nb_fwd_ports
    → s.nb_fwd_ports < 65536
    → s.nb_fwd_ports ≤ length s.fwd_ports_ids
    → i + n ≤ s.nb_fwd_ports
    → i + n ≤ length streams
    → wire_simple s n i streams ≡ some (tabulate_at (simple_at s) n i streams)
unfolding wire_simple
wire_simple-eq s zero i streams c w ids h room = refl
wire_simple-eq s (suc n) i streams c w ids h room =
    let tx = fwd_topology_tx_port_get s.port_topology s.nb_fwd_ports i in
    let tx_lt = fwd_topology_tx_port_get-lt s.port_topology s.nb_fwd_ports i w (omega arith) in
    ground (
      arith,
      get_elem?-lt streams i,
      get_elem?-eq-get_or s.fwd_ports_ids i 0,
      get_elem?-eq-get_or s.fwd_ports_ids tx 0,
      length-set streams i (simple_at s i),
      wire_simple-eq s n (suc i) (set streams i (simple_at s i)) c w ids,
    )

-- The configuration after the set-up: a stream for each port, at most a core for each stream, the
-- streams dealt out to the cores, and every stream as its position says.
pub record IsSimple (s t : State) : Type 0 where
  pub ports : t.cfg.nb_fwd_ports ≡ s.nb_fwd_ports
  pub streams : t.cfg.nb_fwd_streams ≡ s.nb_fwd_ports
  pub cores : t.cfg.nb_fwd_lcores ≡ min s.nb_fwd_lcores s.nb_fwd_ports
  pub tiles :
      Tiles t.cfg.nb_fwd_lcores (s.nb_fwd_ports / t.cfg.nb_fwd_lcores) 0 s.nb_fwd_ports t.lcores
  pub wired : (i : ℕ) → i < s.nb_fwd_ports → get_elem? t.streams i ≡ some (simple_at s i)

simple_cores : State → ℕ
simple_cores s = if ltb s.nb_fwd_ports s.nb_fwd_lcores then u8 s.nb_fwd_ports else s.nb_fwd_lcores

simple_config : State → Config
unfolding simple_cores
simple_config s = record (s.cfg) {
  nb_fwd_streams = s.nb_fwd_ports;
  nb_fwd_lcores = simple_cores s;
  nb_fwd_ports = s.nb_fwd_ports;
}

simple_cores-eq-min :
    (s : State) → s.nb_fwd_lcores < 256 → simple_cores s ≡ min s.nb_fwd_lcores s.nb_fwd_ports
unfolding simple_cores
simple_cores-eq-min s h = ground arith

le-mul : (a b q : ℕ) → a ≤ b → 0 < q → a ≤ b * q
le-mul a b q h k = grind arith

-- Where the ports find their streams and cores.
wire-IsSimple :
    (s t : State)
    → SameWiring (record s { cfg = simple_config s }) t
    → s.nb_fwd_ports ≤ length t.streams
    → s.nb_fwd_ports < 65536
    → s.nb_fwd_ports ≤ length s.fwd_ports_ids
    → (lcores : List Lcore)
    → Tiles (simple_cores s) (s.nb_fwd_ports / simple_cores s) 0 s.nb_fwd_ports lcores
    → s.nb_fwd_lcores < 256
    → (streams : List Stream) × (wire_simple t s.nb_fwd_ports 0 t.streams ≡ some streams)
      × IsSimple s (record t { lcores = lcores; streams = streams })
unfolding simple_config
wire-IsSimple s t same room w ids lcores tiles byte = (
  tabulate_at (simple_at t) s.nb_fwd_ports 0 t.streams,
  ground (arith, same, wire_simple-eq t s.nb_fwd_ports 0 t.streams),
  record {
    ports = ground (arith, same);
    streams = ground (arith, same);
    cores = ground (arith, same, simple_cores-eq-min s byte);
    tiles = rw same.config tiles;
    wired = λ i h.
        ground (arith, same, get_elem?-tabulate_at (simple_at t) s.nb_fwd_ports 0 i t.streams);
  },
)

simple_steps :
    (env : Env) (s t : State) (b : Bool) (lcores : List Lcore) (streams : List Stream)
    → init_fwd_streams env (record s { cfg = simple_config s }) ≡ some (t, b)
    → setup_fwd_config_of_each_lcore (simple_config s) t.lcores ≡ some lcores
    → wire_simple t s.nb_fwd_ports 0 t.streams ≡ some streams
    → simple_fwd_config_setup env s ≡ some (record t { lcores = lcores; streams = streams })
unfolding simple_fwd_config_setup simple_config simple_cores
simple_steps env s t b lcores streams p q r = rw (p, q, r)

-- On a ready state the set-up succeeds, with a stream for each forwarding port to the port that the
-- topology gives it, dealt out to at most as many cores.
pub simple_fwd_config_setup-IsSimple :
    (env : Env) (s : State)
    → IsReady env s
    → (t : State) × (simple_fwd_config_setup env s ≡ some t) × IsSimple s t
unfolding simple_config
simple_fwd_config_setup-IsSimple env s ready =
    let s' = record s { cfg = simple_config s } in
    let (t, done) = init_fwd_streams-succeeds env s' (IsReady-cfg (simple_config s) ready) in
    let (same, counted) = init_fwd_streams-Same env s' ready.counted done in
    let count = nb_fwd_streams-init_fwd_streams env s' done in
    let wide : s.nb_fwd_ports ≤ s.nb_ports * max s.nb_rxq s.nb_txq =
      le-mul s.nb_fwd_ports s.nb_ports (max s.nb_rxq s.nb_txq) ready.ports_probed
        (omega (arith, ready.queues)) in
    let cores = simple_cores-eq-min s ready.core_byte in
    let cores_pos : 0 < simple_cores s = omega (arith, ready.some_port, ready.some_core) in
    let cores_byte : simple_cores s < 256 = omega (arith, ready.core_byte) in
    let cores_le : simple_cores s ≤ s.nb_fwd_ports = omega (arith, cores) in
    let (lcores, set_up, tiles) =
      setup_fwd_config_of_each_lcore-Tiles (simple_config s) t.lcores cores_pos cores_byte cores_le
        (omega (arith, wide, ready.words))
        (omega (arith, cores, ready.cores_room, ap length same.cores)) in
    let (streams, wires, result) =
      wire-IsSimple s t same (omega (arith, counted, count, wide, ready.words))
        (omega (arith, wide, ready.words)) ready.ids_room lcores tiles ready.core_byte in
    (
      record t { lcores = lcores; streams = streams },
      simple_steps env s t true lcores streams done set_up wires,
      result,
    )
