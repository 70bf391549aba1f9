-- ===== src/Tests/Life.antt =====
-- Two ports whose devices accept every call: dpdk.cpp, the life cycle of ports, and the limits.
use udx_fastpath.Base.{
  ℕ, ◌≤◌, ◌≡◌, refl, true, false, List, [], ◌∷◌, some, none, arith, leb, ◌==◌, if◌then◌else◌,
  get_elem?, take, length,
}
use udx_fastpath.Select.Platform.{contains, port_all}
use udx_fastpath.Limits.{Devices, check_nb_rxd}
use udx_fastpath.Limits.Bounds.{check_nb_rxd_lem}
use udx_fastpath.Life.{
  stopped, started, LifePort, Globals, Driver, invalid, all_started, all_ports_started,
  all_ports_stopped,
}
use udx_fastpath.Life.Start.{start_one, start_port}
use udx_fastpath.Life.Start.Outcome.{AfterStart, start_one-AfterStart}
use udx_fastpath.Life.Stuck.{IsStuck, Reach}
use udx_fastpath.Life.NoPool.{HasNoPool, start_port-no_pool}
use udx_fastpath.Life.Running.{Accepts}
use udx_fastpath.Life.Running.All.{IsReady, start_port-all, stop_port-all}
use udx_fastpath.Life.Stop.{
  forwards, Lists, remove_invalid_ports_in, stop_port, each_port, stop_one, close_port, close_one,
  remove_invalid_ports, compact, detach_device, flush_siblings,
}
use udx_fastpath.Life.Detach.{answered}
use udx_fastpath.Life.Callback.{
  Unplug, Restart, rmv_port_callback, restarted, start_packet_forwarding, unplug,
}
use udx_fastpath.Tests.Fwd.{two_devs, two_ports}
use udx_fastpath.Life.Stop.Compact.{remove_invalid_ports_in-refines}

abbrev globals : Globals
globals = record {
  primary = true;
  nb_rxq = 1;
  nb_txq = 1;
  nb_hairpinq = 0;
  hairpin_manual = false;
  flow_isolate_all = false;
  no_flow_flush = false;
  numa_support = true;
  rxring_numa = 255 ∷ 255 ∷ [];
  rx_pkt_nb_segs = 0;
  multi_rx_mempool = false;
  mbuf_data_size_n = 1;
}

abbrev willing : Driver
willing = record {
  devs = 0 ∷ 1 ∷ [];
  isolate = λ p. true;
  hairpin_capability = λ p. true;
  configure = λ p. true;
  conf = λ p. some (4, 0);
  tx_queue_setup = λ p q. true;
  rx_queue_setup = λ p q. true;
  tx_hairpin_queue_setup = λ p q. true;
  rx_hairpin_queue_setup = λ p q. true;
  mempool = λ s. true;
  max_rx_mempools = λ p. none;
  buffer_split = λ m. false;
  dev_start = λ p. true;
  dev_stop = λ p. true;
  dev_reset = λ p. true;
  peers = λ p. true;
}

abbrev no_pools : Driver
no_pools = record willing { mempool = λ s. false }

abbrev idle : LifePort
idle = record {
  port_status = stopped;
  need_reconfig = true;
  need_reconfig_queues = true;
  need_setup = false;
  member_flag = false;
  socket_id = 0;
  has_flows = false;
  rx_offloads = 0;
  tx_offloads = 0;
  rxq = record { offloads = 0; deferred_start = false; running = false } ∷ [];
  txq = record { offloads = 0; deferred_start = false; running = false } ∷ [];
}

abbrev configured : LifePort
configured = record idle { need_reconfig = false }

abbrev live : LifePort
live = record configured { port_status = started }

accepts : (i : ℕ) → Accepts globals willing i
accepts i = record {
  isolate = refl;
  capability = refl;
  configure = refl;
  conf = ((4, 0), refl);
  tx = λ q. refl;
  rx = λ q. refl;
  tx_hairpin = λ q. refl;
  rx_hairpin = λ q. refl;
  pool = λ s. refl;
  single = refl;
  start = refl;
}

ready :
    (i : ℕ)
    → get_elem? (idle ∷ idle ∷ []) i ≡ some idle
    → IsReady globals willing (idle ∷ idle ∷ []) i
ready i e = (idle, e, refl, omega arith, accepts i)

start_one-AfterStart_example : AfterStart idle (start_one globals no_pools 0 idle)
start_one-AfterStart_example = start_one-AfterStart globals no_pools 0 idle

start_port-all_example :
    (out : List LifePort) × (start_port globals willing port_all (idle ∷ idle ∷ [])
      ≡ some (out, true))
    × (all_ports_started willing out ≡ some true)
    × ((j : ℕ) → contains (0 ∷ 1 ∷ []) j ≡ false → get_elem? out j ≡ get_elem? (idle ∷ idle ∷ []) j)
unfolding contains
start_port-all_example =
    start_port-all globals willing (idle ∷ idle ∷ []) (refl, (refl, tt))
      (ready 0 refl, (ready 1 refl, tt))

stop_port-all_example :
    (out : List LifePort) × (stop_port globals willing [] port_all (live ∷ live ∷ []) ≡ some out)
    × (all_ports_stopped willing out ≡ some true)
    × ((j : ℕ) → contains (0 ∷ 1 ∷ []) j ≡ false → get_elem? out j ≡ get_elem? (live ∷ live ∷ []) j)
unfolding contains forwards
stop_port-all_example =
    stop_port-all globals willing [] (live ∷ live ∷ []) (refl, (refl, tt))
      (((live, refl, refl), (refl, refl, refl)), (((live, refl, refl), (refl, refl, refl)), tt))

no_pool_here : HasNoPool globals no_pools 1
no_pool_here = record {
  primary = refl;
  queues = (0, refl);
  tx_accepted = λ q. refl;
  no_pool = λ s. refl;
}

start_port-no_pool_example :
    (out : List LifePort) × (start_port globals no_pools 1 (configured ∷ configured ∷ [])
      ≡ some (out, false))
    × ((later : List LifePort) → Reach globals out later → IsStuck 1 later)
unfolding contains
start_port-no_pool_example =
    start_port-no_pool globals no_pools 1 (configured ∷ configured ∷ []) configured
      (λ e. absurd (omega (arith, e))) refl refl no_pool_here
      (record { is_stopped = refl; configured = refl; queues = refl })

remove_invalid_ports_in-refines_example :
    (out : List ℕ) × (new_total : ℕ) × (remove_invalid_ports_in
        (λ p. leb p 1)
        (0 ∷ 5 ∷ 1 ∷ 7 ∷ [])
        3
      ≡ some (out, new_total))
    × (take new_total out ≡ 0 ∷ 1 ∷ [])
    × (new_total ≤ 3)
    × (length out ≡ 4)
remove_invalid_ports_in-refines_example =
    remove_invalid_ports_in-refines (λ p. leb p 1) (0 ∷ 5 ∷ 1 ∷ 7 ∷ []) 3 (omega arith)

abbrev both : Lists
both = record {
  ports_ids = 0 ∷ 1 ∷ [];
  nb_ports = 2;
  fwd_ports_ids = 0 ∷ 1 ∷ [];
  nb_fwd_ports = 2;
  nb_cfg_ports = 2;
}

-- The removal of port 1, whose device has no other port.
abbrev removal : Unplug
removal = record {
  attached = true;
  closes = λ p. true;
  valid = λ p. true;
  remove = true;
  siblings = some (some (1 ∷ []));
}

abbrev restart : Restart
restart = record {
  fwd = two_ports 1;
  fwd_env = two_devs;
  rxq_share = 0;
  shared = [];
  stream_init = true;
  rx_info = λ p q. answered false;
  tx_info = λ p q. answered true;
}

-- With another port that is not started the callback returns, and nothing is removed.
callback_returns :
    rmv_port_callback globals willing removal restart 1 (idle ∷ live ∷ []) both
    ≡ some (record { ports = idle ∷ live ∷ []; lists = both; removed = false })
unfolding rmv_port_callback restarted start_packet_forwarding all_ports_started all_started unplug
    stop_port each_port stop_one forwards contains invalid close_port close_one remove_invalid_ports
    remove_invalid_ports_in compact detach_device flush_siblings
callback_returns = refl

-- Port 1 does not answer.
abbrev pub devices : Devices
devices = record {
  devs = 0 ∷ 1 ∷ [];
  info = λ p.
      if p == 0
      then some (record {
        max_rx_queues = 16;
        max_tx_queues = 8;
        rx_nb_max = 4096;
        rx_nb_min = 32;
        tx_nb_max = 4096;
        tx_nb_min = 32;
        burst_size = 0;
      })
      else none;
  hairpin = λ p. none;
}

check_nb_rxd_lem_example : check_nb_rxd devices 64 ≡ true
check_nb_rxd_lem_example = check_nb_rxd_lem devices 64
