-- ===== src/Fwd/Setup/Rss/Result.antt =====
-- `rss_fwd_config_setup` as a whole.
use udx_fastpath.Base.{
  ℕ, ◌+◌, ◌*◌, ◌/◌, ◌≤◌, ◌<◌, min, ◌≡◌, sym, ap, true, Bool, List, some, arith, length,
  if◌then◌else◌, ltb, u8, u16, u32, tabulate_at, get_elem?-tabulate_at,
}
use Prim.Native.Nat.{max}
use native.Mathlib.Nat.{le-div_iff_mul-le, zero-div, zero-mod}
use udx_fastpath.Fwd.Types.{Config, Stream, Lcore, State, Env}
use udx_fastpath.Fwd.Lcores.{setup_fwd_config_of_each_lcore}
use udx_fastpath.Fwd.Lcores.Tiling.{Tiles, setup_fwd_config_of_each_lcore-Tiles}
use udx_fastpath.Fwd.Setup.{init_fwd_streams, wire_rss, rss_fwd_config_setup}
use udx_fastpath.Fwd.Setup.Streams.{
  SameWiring, init_fwd_streams-Same, nb_fwd_streams-init_fwd_streams,
}
use udx_fastpath.Fwd.Setup.Ready.{IsReady, IsReady-cfg, init_fwd_streams-succeeds}
use udx_fastpath.Fwd.Setup.Rss.{
  rss_at, wire_rss-eq, rss_queues, rss_width, rss_start, IsShared, IsRss, share_fits,
}

rss_count : State → ℕ
rss_count s = rss_queues s * s.nb_fwd_ports

rss_cores : State → ℕ
rss_cores s = if ltb (rss_count s) s.nb_fwd_lcores then u8 (rss_count s) else s.nb_fwd_lcores

rss_config : State → Config
rss_config s = record (s.cfg) {
  nb_fwd_streams = rss_count s;
  nb_fwd_lcores = rss_cores s;
  nb_fwd_ports = s.nb_fwd_ports;
}

rss_cores-eq-min :
    (s : State) → s.nb_fwd_lcores < 256 → rss_cores s ≡ min s.nb_fwd_lcores (rss_count s)
unfolding rss_cores
rss_cores-eq-min s h = ground arith

mul_le_mul : (a b c d : ℕ) → a ≤ c → b ≤ d → a * b ≤ d * c
mul_le_mul a b c d h k = grind arith

rss_count-le :
    (s : State) → s.nb_fwd_ports ≤ s.nb_ports → rss_count s ≤ s.nb_ports * max s.nb_rxq s.nb_txq
unfolding rss_count
rss_count-le s h =
    mul_le_mul (rss_queues s) s.nb_fwd_ports (max s.nb_rxq s.nb_txq) s.nb_ports (omega arith) h

mul_pos : (a b : ℕ) → 0 < a → 0 < b → 0 < a * b
mul_pos a b h k = grind arith

mul_ge : (a b : ℕ) → 0 < a → b ≤ a * b
mul_ge a b h = grind arith

-- `nb_q` is the smaller number of queues.
nb_q-eq : (s : State) → (if ltb s.nb_txq s.nb_rxq then s.nb_txq else s.nb_rxq) ≡ rss_queues s
nb_q-eq s = ground arith

rss_steps :
    (env : Env) (s t : State) (b : Bool) (lcores : List Lcore) (streams : List Stream)
    → rss_count s < 65536
    → 0 < s.num_procs
    → init_fwd_streams env (record s { cfg = rss_config s }) ≡ some (t, b)
    → setup_fwd_config_of_each_lcore (rss_config s) t.lcores ≡ some lcores
    → wire_rss t
        (rss_start s)
        (rss_start s + rss_width s)
        (rss_count s)
        0
        0
        (u16 (rss_start s))
        t.streams
      ≡ some streams
    → rss_fwd_config_setup env s ≡ some (record t { lcores = lcores; streams = streams })
unfolding rss_fwd_config_setup rss_config rss_cores rss_count
rss_steps env s t b lcores streams w pos p q r =
    let e : u16 (rss_queues s * s.nb_fwd_ports) ≡ rss_queues s * s.nb_fwd_ports = omega arith in
    rw (nb_q-eq, e, p, q, r) (ground arith)

wire-IsRss :
    (s t : State)
    → SameWiring (record s { cfg = rss_config s }) t
    → rss_count s ≤ length t.streams
    → 0 < s.nb_fwd_ports
    → s.nb_fwd_ports < 65536
    → s.nb_fwd_ports ≤ length s.fwd_ports_ids
    → rss_queues s < 65536
    → IsShared s
    → (lcores : List Lcore) → Tiles (rss_cores s) (rss_count s / rss_cores s) 0 (rss_count s) lcores
    → s.nb_fwd_lcores < 256
    → (streams : List Stream) × (wire_rss t
          (rss_start s)
          (rss_start s + rss_width s)
          (rss_count s)
          0
          0
          (u16 (rss_start s))
          t.streams
        ≡ some streams)
      × IsRss s (record t { lcores = lcores; streams = streams })
unfolding rss_config rss_count
wire-IsRss s t same room pos w ids qs share lcores tiles byte =
    let width_pos : 0 < rss_width s =
      (le-div_iff_mul-le share.some_proc).1 (omega (arith, share)) in
    let word : u32 (s.proc_id * rss_queues s) ≡ s.proc_id * rss_queues s = omega (arith, share) in
    let fits : rss_start s + rss_width s ≤ rss_queues s =
      rw word (share_fits s.proc_id (rss_queues s) s.num_procs share.proc) in
    (
      tabulate_at (rss_at t (rss_start s) (rss_width s)) (rss_queues s * s.nb_fwd_ports) 0
          t.streams,
      wire_rss-eq t (rss_start s) (rss_width s) (rss_queues s * s.nb_fwd_ports) 0 0
          (u16 (rss_start s)) t.streams (ground (arith, same)) (ground (arith, same))
          (ground (arith, same)) (ground (arith, same)) width_pos (omega arith)
          (sym (zero-mod t.nb_fwd_ports)) (rw (zero-div, zero-mod) (omega arith)) (omega arith),
      record {
        ports = ground (arith, same);
        streams = ground (arith, same);
        cores = ground (arith, same, rss_cores-eq-min s byte);
        tiles = rw same.config tiles;
        wired = λ k h. ground (
          arith,
          same,
          get_elem?-tabulate_at (rss_at t (rss_start s) (rss_width s))
              (rss_queues s * s.nb_fwd_ports) 0 k t.streams,
        );
      },
    )

-- On a ready state in which each process has at least one of fewer than 65536 queues, the set-up
-- succeeds, with a stream for each queue of each forwarding port, wired as its number says, and the
-- streams dealt out to at most as many cores.
pub rss_fwd_config_setup-IsRss :
    (env : Env) (s : State)
    → IsReady env s
    → IsShared s
    → rss_queues s < 65536
    → (t : State) × (rss_fwd_config_setup env s ≡ some t) × IsRss s t
unfolding rss_config rss_count
rss_fwd_config_setup-IsRss env s ready share qs =
    let s' = record s { cfg = rss_config s } in
    let (t, done) = init_fwd_streams-succeeds env s' (IsReady-cfg (rss_config s) ready) in
    let (same, counted) = init_fwd_streams-Same env s' ready.counted done in
    let count = nb_fwd_streams-init_fwd_streams env s' done in
    let wide = rss_count-le s ready.ports_probed in
    let words = ready.words in
    let count_pos : 0 < rss_count s =
      mul_pos (rss_queues s) s.nb_fwd_ports (omega (arith, ready.queues)) ready.some_port in
    let ports_le : s.nb_fwd_ports ≤ rss_count s =
      mul_ge (rss_queues s) s.nb_fwd_ports (omega (arith, ready.queues)) in
    let cores = rss_cores-eq-min s ready.core_byte in
    let cores_pos : 0 < rss_cores s = omega (arith, ready.some_core) in
    let cores_byte : rss_cores s < 256 = omega (arith, ready.core_byte) in
    let cores_le : rss_cores s ≤ rss_count s = omega (arith, cores) in
    let (lcores, set_up, tiles) =
      setup_fwd_config_of_each_lcore-Tiles (rss_config s) t.lcores cores_pos cores_byte cores_le
        (omega arith) (omega (arith, cores, ready.cores_room, ap length same.cores)) in
    let (streams, wires, result) =
      wire-IsRss s t same (omega arith) ready.some_port (omega arith) ready.ids_room qs share lcores
        tiles ready.core_byte in
    (
      record t { lcores = lcores; streams = streams },
      rss_steps env s t true lcores streams (omega arith) share.some_proc done set_up wires,
      result,
    )
