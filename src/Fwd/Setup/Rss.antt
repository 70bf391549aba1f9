-- ===== src/Fwd/Setup/Rss.antt =====
-- The set-up with a stream for each receive queue of each forwarding port.
pub mod Result
pub mod Polling
use udx_fastpath.Base.{
  ℕ, zero, suc, ◌+◌, ◌-◌, ◌*◌, ◌/◌, ◌%◌, ◌≤◌, ◌<◌, min, ◌≡◌, refl, ap, true, false, Bool, List, [],
  ◌∷◌, Option, some, none, arith, get_elem?, get_or, set, length, length-set, get_elem?-lt,
  get_elem?-eq-get_or, if◌then◌else◌, ltb, u8, u16, tabulate_at, length-tabulate_at,
  get_elem?-tabulate_at, ◌⊎◌, inl, inr,
}
use udx_fastpath.Base.Division.{div-mod-suc}
use native.Mathlib.Nat.{mod-lt, div-mul-le_self}
use native.Mathlib.Decide.{dec_lt}
use udx_fastpath.Fwd.Types.{Config, Stream, Lcore, State, Env}
use udx_fastpath.Fwd.Lcores.{setup_fwd_config_of_each_lcore}
use udx_fastpath.Fwd.Lcores.Tiling.{Tiles, setup_fwd_config_of_each_lcore-Tiles}
use udx_fastpath.Fwd.Topology.{fwd_topology_tx_port_get, fwd_topology_tx_port_get-lt}
use udx_fastpath.Fwd.Setup.{
  init_fwd_streams, rss_stream, wire_rss, rss_fwd_config_setup, next_rxp, next_rxq, first_queue,
}
use Prim.Native.Nat.{max}
use udx_fastpath.Fwd.Setup.Streams.{
  SameWiring, init_fwd_streams-Same, nb_fwd_streams-init_fwd_streams,
}
use udx_fastpath.Fwd.Setup.Ready.{IsReady, IsReady-cfg, init_fwd_streams-succeeds}

-- Stream `k` receives from the port at position `k % nb_fwd_ports`; the queues from `start` on are
-- taken in turn, `width` of them, a queue for all ports before the next.
abbrev pub rxp_at : State → ℕ → ℕ
rxp_at s k = k % s.nb_fwd_ports

abbrev pub rxq_at : State → ℕ → ℕ → ℕ → ℕ
rxq_at s start width k = start + k / s.nb_fwd_ports % width

abbrev pub rss_at : State → ℕ → ℕ → ℕ → Stream
rss_at s start width k =
    let tx_port =
      get_or s.fwd_ports_ids (fwd_topology_tx_port_get s.port_topology s.nb_fwd_ports (rxp_at s k))
        0 in
    record {
      rx_port = get_or s.fwd_ports_ids (rxp_at s k) 0;
      rx_queue = rxq_at s start width k;
      tx_port = tx_port;
      tx_queue = rxq_at s start width k;
      peer_addr = tx_port;
      retry_enabled = s.retry_enabled;
    }

next_rxp-at : (s : State) (k : ℕ) → 0 < s.nb_fwd_ports → next_rxp s (rxp_at s k) ≡ rxp_at s (suc k)
next_rxp-at s k pos = ground (arith, div-mod-suc k s.nb_fwd_ports pos)

next_rxq-at :
    (s : State) (start width k : ℕ)
    → 0 < s.nb_fwd_ports
    → 0 < width
    → start + width < 65536
    → next_rxq s start (start + width) (rxp_at s k) (rxq_at s start width k)
      ≡ rxq_at s start width (suc k)
next_rxq-at s start width k pos some_queue w = elim (div-mod-suc k s.nb_fwd_ports pos) [
  | inl (lt, m, d) ↦ ground arith
  | inr (last, m, d) ↦
      let q = k / s.nb_fwd_ports in
      let e : suc k / s.nb_fwd_ports ≡ suc q = omega arith in
      rw e (ground (arith, div-mod-suc q width some_queue, mod-lt q some_queue))
]

pub wire_rss-eq :
    (s : State) (start width n k rxp rxq : ℕ) (streams : List Stream)
    → s.cfg.nb_fwd_ports ≡ s.nb_fwd_ports
    → 0 < s.nb_fwd_ports
    → s.nb_fwd_ports < 65536
    → s.nb_fwd_ports ≤ length s.fwd_ports_ids
    → 0 < width
    → start + width < 65536
    → rxp ≡ rxp_at s k
    → rxq ≡ rxq_at s start width k
    → k + n ≤ length streams
    → wire_rss s start (start + width) n k rxp rxq streams
      ≡ some (tabulate_at (rss_at s start width) n k streams)
unfolding wire_rss
wire_rss-eq s start width zero k rxp rxq streams c pos w ids wd fit ep eq room = refl
wire_rss-eq s start width (suc n) k rxp rxq streams c pos w ids wd fit ep eq room =
    let tx = fwd_topology_tx_port_get s.port_topology s.nb_fwd_ports (rxp_at s k) in
    let at_lt = mod-lt k pos in
    let tx_lt = fwd_topology_tx_port_get-lt s.port_topology s.nb_fwd_ports (rxp_at s k) w at_lt in
    let streams' = set streams k (rss_at s start width k) in
    rw (ep, eq)
      (ground (
        arith,
        get_elem?-lt streams k,
        get_elem?-eq-get_or s.fwd_ports_ids (rxp_at s k) 0,
        get_elem?-eq-get_or s.fwd_ports_ids tx 0,
        wire_rss-eq s start width n (suc k) (next_rxp s (rxp_at s k))
            (next_rxq s start (start + width) (rxp_at s k) (rxq_at s start width k)) streams' c pos
            w ids wd fit (next_rxp-at s k pos) (next_rxq-at s start width k pos wd fit)
            (omega (arith, length-set streams k (rss_at s start width k))),
      ))

-- The number of queues that receive and send, and the share of each process.
abbrev pub rss_queues : State → ℕ
rss_queues s = min s.nb_rxq s.nb_txq

abbrev pub rss_width : State → ℕ
rss_width s = rss_queues s / s.num_procs

abbrev pub rss_start : State → ℕ
rss_start s = first_queue s (rss_queues s)

-- What the spreading of queues over processes relies on.
pub record IsShared (s : State) : Type 0 where
  pub some_proc : 0 < s.num_procs
  pub own_queue : s.num_procs ≤ rss_queues s
  pub proc : s.proc_id < s.num_procs
  pub word : s.proc_id * rss_queues s < 4294967296

-- The configuration after the set-up: a stream for each queue of each port, at most a core for
-- each stream, the streams dealt out to the cores, and every stream as its number says.
pub record IsRss (s t : State) : Type 0 where
  pub ports : t.cfg.nb_fwd_ports ≡ s.nb_fwd_ports
  pub streams : t.cfg.nb_fwd_streams ≡ rss_queues s * s.nb_fwd_ports
  pub cores : t.cfg.nb_fwd_lcores ≡ min s.nb_fwd_lcores (rss_queues s * s.nb_fwd_ports)
  pub tiles :
      Tiles t.cfg.nb_fwd_lcores
        (rss_queues s * s.nb_fwd_ports / t.cfg.nb_fwd_lcores)
        0
        (rss_queues s * s.nb_fwd_ports)
        t.lcores
  pub wired :
      (k : ℕ)
      → k < rss_queues s * s.nb_fwd_ports
      → get_elem? t.streams k ≡ some (rss_at s (rss_start s) (rss_width s) k)

pub mul_mono : (a b n : ℕ) → a ≤ b → a * n ≤ b * n
mul_mono a b n h = grind arith

le_of_mul : (x q n : ℕ) → 0 < n → x * n ≤ q * n → x ≤ q
le_of_mul x q n pos h = elim (dec_lt q x) [
  | yes lt ↦ absurd (omega (arith, mul_mono (suc q) x n lt))
  | no ge ↦ omega arith
]

-- The queues of process `p` of `n` lie below `q`.
pub share_fits : (p q n : ℕ) → p < n → p * q / n + q / n ≤ q
share_fits p q n h =
    le_of_mul (p * q / n + q / n) q n (omega arith)
      (omega (arith, div-mul-le_self (p * q) n, div-mul-le_self q n, mul_mono (suc p) n q h))
