-- ===== src/Tests/Launch.antt =====
-- A command line that sets the number of receive queues: lib/core/dpdk/parameters.c,
-- `launch_args_parse`.
use udx_fastpath.Base.{
  ℕ, ◌<◌, ◌^◌, ◌-◌, ◌≡◌, ◌≢◌, refl, true, false, List, [], ◌∷◌, some, none, replicate,
}
use Prim.{tt}
use udx_fastpath.Tests.Fwd.{two_ports}
use udx_fastpath.Tests.Select.{three_ports}
use udx_fastpath.Tests.Segs.{one_port, silent, start}
use udx_fastpath.Tests.Life.{devices}
use udx_fastpath.Tests.Params.{split, ptypes, number, plain}
use udx_fastpath.Select.Strtol.{strtol, signed, after_sign, read_digits, skip_space}
use udx_fastpath.Limits.{
  lowest, any_valid, check_nb_rxq, check_nb_txq, check_nb_hairpinq, get_allowed_max_nb_rxq,
  get_allowed_max_nb_txq, get_allowed_max_nb_hairpinq, hairpin_limit,
}
use udx_fastpath.Params.Text.{
  codes, atoi, strtoul, unsigned_signed, unsigned_number, based, hex_prefix, read_base,
}
use udx_fastpath.Params.Forwarding.Masks.{AllHex, hex_from}
use udx_fastpath.Params.Offloads.{mask_option}
use udx_fastpath.Params.Outcome.{next}
use udx_fastpath.Params.Options.{Found, short_a, unknown, long, queue, rxq, mask, rx_offloads}
use udx_fastpath.Params.Forwarding.{queue_option}
use udx_fastpath.Params.Memory.{alloc_native}
use udx_fastpath.Params.Launch.{
  Settings, LaunchEnv, no_queue, early, late, checked, long_option, option, options, finish,
  proc_id_too_large, launch_args_parse,
}
use udx_fastpath.Params.Launch.Accepted.{IsQueues, launch_args_parse-IsQueues}
use udx_fastpath.Params.Launch.Finished.{by_unknown, launch_args_parse-Ends}
use udx_fastpath.Params.Launch.Modes.Stored.{launch_args_parse-modes}

abbrev env : LaunchEnv
env = record {
  start_env = record {
    strsplit = split;
    unformat_addr = λ s. some 0;
    calloc = λ n. true;
    read_lines = λ f. none;
  };
  forward_env = record {
    platform = three_ports;
    devices = devices;
    strsplit = split;
    max_ethports = 32;
    engines = codes "io" ∷ codes "mac" ∷ [];
  };
  masks = record {
    rx = λ o. 1;
    rss_ip_mask = 2;
    rss_udp_mask = 4;
    level_innermost = 8;
    level_outermost = 16;
  };
  segment_env = record { rings = silent; ports = one_port; ptypes = ptypes };
  switch_env = record { event_number = number; speed_fixed = 1; speed_mask = λ n. 2 };
}

abbrev defaults : Settings
defaults = record {
  starting = record {
    interactive = false;
    auto_start = false;
    tx_first = false;
    cmdline_filename = [];
    stats_period = 0;
    xstats_display = [];
    peer_eth_addrs = replicate 32 0;
    nb_peer_eth_addrs = 0;
  };
  forwarding = record {
    fwd = two_ports 1;
    nb_hairpinq = 0;
    rxring_numa = replicate 32 255;
    txring_numa = replicate 32 255;
  };
  pools = record {
    mp_alloc_type = alloc_native;
    mbuf_data_size = replicate 8 2176;
    mbuf_data_size_n = 1;
    param_total_num_mbufs = 0;
    max_rx_pkt_len = 0;
    max_lro_pkt_size = 0;
    latencystats_lcore_id = 0;
    latencystats_enabled = false;
    bitrate_lcore_id = 0;
    bitrate_enabled = false;
  };
  offloads = record { rx_offloads = 0; tx_offloads = 65536; rx_drop_en = false; rss_hf = 2 };
  rings = plain;
  segs = start;
  switches = record {
    multi_rx_mempool = false;
    txonly_multi_flow = false;
    no_flush_rx = false;
    no_link_check = false;
    no_device_start = false;
    lsc_interrupt = true;
    rmv_interrupt = true;
    flow_isolate_all = false;
    no_flow_flush = false;
    hot_plug = false;
    do_mlockall = false;
    no_iova_contig = true;
    record_core_cycles = false;
    record_burst_stats = false;
    rxq_share = 0;
    eth_link_speed = 0;
    event_print_mask = 2 ^ 32 - 1;
    rx_mq_mode = 7;
    num_procs = 1;
    proc_id = 0;
  };
  noise = record {
    noisy_tx_sw_bufsz = 0;
    noisy_tx_sw_buf_flush_time = 0;
    noisy_lkup_mem_sz = 0;
    noisy_lkup_num_writes = 0;
    noisy_lkup_num_reads = 0;
    noisy_lkup_num_reads_writes = 0;
    noisy_fwd_mode = 0;
  };
  rx_mode_offloads = 0;
  tx_mode_offloads = 65536;
}

-- "--rxq=4 -a"
abbrev line : List Found
line = long (queue (rxq (codes "4"))) ∷ short_a ∷ []

-- The flag for memory pools that are not contiguous is dropped, since they are not anonymous.
abbrev accepted : Settings
accepted = record defaults {
  starting = record (defaults.starting) { auto_start = true };
  forwarding = record (defaults.forwarding) { fwd = record (two_ports 1) { nb_rxq = 4 } };
  switches = record (defaults.switches) { no_iova_contig = false };
}

line-accepted : launch_args_parse env line false defaults ≡ next accepted
unfolding launch_args_parse options option long_option early checked late no_queue finish
    proc_id_too_large queue_option atoi strtol signed after_sign read_digits skip_space check_nb_rxq
    get_allowed_max_nb_rxq lowest any_valid
line-accepted = refl

defaults-IsQueues : IsQueues env (defaults.forwarding)
unfolding check_nb_rxq check_nb_txq check_nb_hairpinq get_allowed_max_nb_rxq get_allowed_max_nb_txq
    get_allowed_max_nb_hairpinq hairpin_limit lowest any_valid no_queue
defaults-IsQueues = (record { rxq_ok = refl; txq_ok = refl; hairpinq_ok = refl }, refl)

launch_args_parse-IsQueues_example : IsQueues env (accepted.forwarding)
launch_args_parse-IsQueues_example =
    launch_args_parse-IsQueues env line false defaults accepted defaults-IsQueues line-accepted

launch_args_parse-Ends_example :
    launch_args_parse env (short_a ∷ unknown ∷ line) false defaults ≢ next accepted
launch_args_parse-Ends_example =
    launch_args_parse-Ends env (short_a ∷ []) unknown line false defaults accepted by_unknown

abbrev masked : Settings
masked = record accepted {
  offloads = record (accepted.offloads) { rx_offloads = 38 };
  rx_mode_offloads = 38;
}

line-masked :
    launch_args_parse env (long (mask (rx_offloads (codes "26"))) ∷ line) false defaults
    ≡ next masked
unfolding launch_args_parse options option long_option early checked late no_queue finish
    proc_id_too_large queue_option atoi strtol signed after_sign read_digits skip_space check_nb_rxq
    get_allowed_max_nb_rxq lowest any_valid mask_option strtoul unsigned_signed unsigned_number
    based hex_prefix read_base
line-masked = refl

launch_args_parse-modes_example :
    (launch_args_parse env line false defaults ≡ next masked
      → (masked.rx_mode_offloads ≡ 0) × (masked.tx_mode_offloads ≡ 65536))
    × ((d : ℕ) (ds : List ℕ)
        → AllHex (d ∷ ds)
        → hex_from 0 (d ∷ ds) < 2 ^ 31
        → launch_args_parse env (long (mask (rx_offloads (d ∷ ds))) ∷ line) false defaults
          ≡ next masked
        → masked.rx_mode_offloads ≡ hex_from 0 (d ∷ ds))
launch_args_parse-modes_example =
    launch_args_parse-modes env [] line false defaults masked (refl, (refl, tt))
