-- ===== src/Tests/Fwd.antt =====
-- Two ports and two cores: config.c, the set-up of the forwarding configuration.
use udx_fastpath.Base.{
  ℕ, zero, suc, ◌+◌, ◌*◌, ◌<◌, ◌≡◌, refl, true, false, List, [], ◌∷◌, some, arith, get_elem?,
}
use udx_fastpath.Fwd.Types.{Lcore, Stream, Config, Port, State, Env, paired, chained}
use udx_fastpath.Fwd.Lcores.{assign_streams, share_out, setup_fwd_config_of_each_lcore}
use udx_fastpath.Fwd.Lcores.Tiling.{Tiles, setup_fwd_config_of_each_lcore-Tiles}
use udx_fastpath.Fwd.Topology.{fwd_topology_tx_port_get}
use udx_fastpath.Fwd.Shared.{
  SharedPort, share_key, same_key, key_on_streams, fwd_stream_on_other_lcores, check_streams,
  check_lcores, pkt_fwd_shared_rxq_check,
}
use udx_fastpath.Fwd.Shared.Apart.{pkt_fwd_shared_rxq_check-apart}
use udx_fastpath.Fwd.Setup.{simple_fwd_config_setup, rss_fwd_config_setup}
use udx_fastpath.Fwd.Setup.Ready.{IsReady}
use udx_fastpath.Fwd.Setup.Simple.{IsSimple, simple_fwd_config_setup-IsSimple}
use udx_fastpath.Fwd.Setup.Rss.{rss_width, IsShared, IsRss}
use udx_fastpath.Fwd.Setup.Rss.Result.{rss_fwd_config_setup-IsRss}
use udx_fastpath.Fwd.Setup.Rss.Polling.{
  DistinctPorts, rss_fwd_config_setup-distinct, rss_fwd_config_setup-repeats,
}

abbrev idle : Lcore
idle = record { stream_idx = 0; stream_nb = 0 }

abbrev five_streams : Config
five_streams = record { nb_fwd_streams = 5; nb_fwd_lcores = 2; nb_fwd_ports = 5; fwd_eng = 0 }

-- The second core gets the stream that is left over.
deals_five :
    setup_fwd_config_of_each_lcore five_streams (idle ∷ idle ∷ [])
    ≡ some
        (record { stream_idx = 0; stream_nb = 2 } ∷ record { stream_idx = 2; stream_nb = 3 } ∷ [])
unfolding setup_fwd_config_of_each_lcore share_out assign_streams
deals_five = refl

setup_fwd_config_of_each_lcore-Tiles_example :
    (lcores : List Lcore) × (setup_fwd_config_of_each_lcore five_streams (idle ∷ idle ∷ [])
      ≡ some lcores)
    × Tiles 2 2 0 5 lcores
setup_fwd_config_of_each_lcore-Tiles_example =
    setup_fwd_config_of_each_lcore-Tiles five_streams (idle ∷ idle ∷ []) (omega arith) (omega arith)
      (omega arith) (omega arith) (omega arith)

chained_same : fwd_topology_tx_port_get chained 3 2 ≡ fwd_topology_tx_port_get chained 3 2
chained_same = refl

abbrev four_queues : Port
four_queues = record { max_rx_queues = 4; max_tx_queues = 4; socket_id = 0 }

abbrev no_streams : Config
no_streams = record { nb_fwd_streams = 0; nb_fwd_lcores = 0; nb_fwd_ports = 0; fwd_eng = 0 }

abbrev pub two_devs : Env
two_devs = record { devs = 0 ∷ 1 ∷ []; dev_socket_id = λ p. 0; zmalloc_streams = λ n. true }

-- `num_procs` processes, of which this is the first.
abbrev pub two_ports : ℕ → State
two_ports procs = record {
  nb_ports = 2;
  ports = four_queues ∷ four_queues ∷ [];
  nb_rxq = 2;
  nb_txq = 2;
  cur_fwd_eng = 0;
  cfg = no_streams;
  nb_fwd_streams = 0;
  streams = [];
  lcores = idle ∷ idle ∷ [];
  nb_lcores = 2;
  nb_cfg_lcores = 2;
  nb_fwd_lcores = 2;
  fwd_lcores_cpuids = 1 ∷ 2 ∷ [];
  nb_cfg_ports = 2;
  nb_fwd_ports = 2;
  fwd_ports_ids = 0 ∷ 1 ∷ [];
  port_topology = paired;
  retry_enabled = 0;
  proc_id = 0;
  num_procs = procs;
  numa_support = false;
  port_numa = 255 ∷ 255 ∷ [];
  socket_num = 255;
  socket_ids = 0 ∷ [];
}

two_ports-IsReady : (procs : ℕ) → IsReady two_devs (two_ports procs)
two_ports-IsReady procs = record {
  counted = refl;
  devices = (
    (four_queues, 255, refl, refl, omega arith, omega arith),
    ((four_queues, 255, refl, refl, omega arith, omega arith), tt),
  );
  memory = λ n. refl;
  queues = (omega arith, omega arith);
  some_port = omega arith;
  ports_probed = omega arith;
  words = omega arith;
  ids_room = omega arith;
  some_core = omega arith;
  core_byte = omega arith;
  cores_room = omega arith;
}

two_ports-IsShared : (procs : ℕ) → 0 < procs → procs < 3 → IsShared (two_ports procs)
two_ports-IsShared procs pos few = record {
  some_proc = pos;
  own_queue = omega arith;
  proc = pos;
  word = omega arith;
}

two_ports-DistinctPorts : DistinctPorts (two_ports 1)
two_ports-DistinctPorts zero zero hi hj e = refl
two_ports-DistinctPorts zero (suc zero) hi hj e = absurd (cc)
two_ports-DistinctPorts (suc zero) zero hi hj e = absurd (cc)
two_ports-DistinctPorts (suc zero) (suc zero) hi hj e = refl
two_ports-DistinctPorts (suc (suc i)) j hi hj e = absurd (omega arith)
two_ports-DistinctPorts i (suc (suc j)) hi hj e = absurd (omega arith)

simple_fwd_config_setup-IsSimple_example :
    (t : State) × (simple_fwd_config_setup two_devs (two_ports 1) ≡ some t)
    × IsSimple (two_ports 1) t
simple_fwd_config_setup-IsSimple_example =
    simple_fwd_config_setup-IsSimple two_devs (two_ports 1) (two_ports-IsReady 1)

rss_fwd_config_setup-IsRss_example :
    (t : State) × (rss_fwd_config_setup two_devs (two_ports 1) ≡ some t) × IsRss (two_ports 1) t
rss_fwd_config_setup-IsRss_example =
    rss_fwd_config_setup-IsRss two_devs (two_ports 1) (two_ports-IsReady 1)
      (two_ports-IsShared 1 (omega arith) (omega arith)) (omega arith)

rss_fwd_config_setup-distinct_example :
    (t : State) × (rss_fwd_config_setup two_devs (two_ports 1) ≡ some t)
    × ((j k : ℕ) (a b : Stream)
        → j < t.cfg.nb_fwd_streams
        → k < t.cfg.nb_fwd_streams
        → get_elem? t.streams j ≡ some a
        → get_elem? t.streams k ≡ some b
        → a.rx_port ≡ b.rx_port
        → a.rx_queue ≡ b.rx_queue
        → j ≡ k)
rss_fwd_config_setup-distinct_example =
    rss_fwd_config_setup-distinct two_devs (two_ports 1) (two_ports-IsReady 1)
      (two_ports-IsShared 1 (omega arith) (omega arith)) (omega arith) refl two_ports-DistinctPorts

rss_fwd_config_setup-repeats_example :
    (t : State) × (rss_fwd_config_setup two_devs (two_ports 2) ≡ some t)
    × (rss_width (two_ports 2) * 2 < t.cfg.nb_fwd_streams)
    × ((k : ℕ)
        → k + rss_width (two_ports 2) * 2 < t.cfg.nb_fwd_streams
        → get_elem? t.streams (k + rss_width (two_ports 2) * 2) ≡ get_elem? t.streams k)
rss_fwd_config_setup-repeats_example =
    rss_fwd_config_setup-repeats two_devs (two_ports 2) (two_ports-IsReady 2)
      (two_ports-IsShared 2 (omega arith) (omega arith)) (omega arith) (omega arith)

-- Two ports that share their queues, and a stream on each core.
abbrev sharing : SharedPort
sharing = record {
  capable = true;
  domain_id = 0;
  rxq = record { share_group = 1; share_qid = 0 } ∷ record { share_group = 1; share_qid = 1 } ∷ [];
}

abbrev polls : ℕ → ℕ → Stream
polls port queue = record {
  rx_port = port;
  rx_queue = queue;
  tx_port = port;
  tx_queue = queue;
  peer_addr = port;
  retry_enabled = 0;
}

abbrev one_each : List Lcore
one_each = record { stream_idx = 0; stream_nb = 1 } ∷ record { stream_idx = 1; stream_nb = 1 } ∷ []

-- The queues 0 and 1, and twice the queue 0.
accepts_apart :
    pkt_fwd_shared_rxq_check 1 2 (sharing ∷ sharing ∷ []) (polls 0 0 ∷ polls 1 1 ∷ []) one_each
    ≡ some true
unfolding pkt_fwd_shared_rxq_check check_lcores check_streams fwd_stream_on_other_lcores
    key_on_streams share_key
accepts_apart = refl

refuses_same :
    pkt_fwd_shared_rxq_check 1 2 (sharing ∷ sharing ∷ []) (polls 0 0 ∷ polls 1 0 ∷ []) one_each
    ≡ some false
unfolding pkt_fwd_shared_rxq_check check_lcores check_streams fwd_stream_on_other_lcores
    key_on_streams share_key
refuses_same = refl

pkt_fwd_shared_rxq_check-apart_example :
    same_key
      (record { domain = 0; group = 1; qid = 0 })
      (some (record { domain = 0; group = 1; qid = 1 }))
    ≡ false
unfolding share_key
pkt_fwd_shared_rxq_check-apart_example =
    pkt_fwd_shared_rxq_check-apart 1 2 (sharing ∷ sharing ∷ []) (polls 0 0 ∷ polls 1 1 ∷ [])
      one_each 0 1 0 1 (record { stream_idx = 0; stream_nb = 1 })
      (record { stream_idx = 1; stream_nb = 1 }) (polls 0 0) (polls 1 1)
      (record { domain = 0; group = 1; qid = 0 }) (record { domain = 0; group = 1; qid = 1 })
      (λ e. absurd (omega (arith, e))) accepts_apart (omega arith) (omega arith) refl refl
      (omega arith) (omega arith) (omega arith) (omega arith) refl refl refl refl
