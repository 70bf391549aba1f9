-- ===== src/Params/Options.antt =====
-- lib/core/dpdk/parameters.c, the table `lgopts` of `launch_args_parse`: an option with its argument
-- `optarg`, under the part of the settings that it writes. The parser knows the options of a build
-- with RTE_LIB_CMDLINE, RTE_LIB_LATENCYSTATS and RTE_LIB_BITRATESTATS.
use udx_fastpath.Base.{ℕ, Option, List}

-- How the program starts, and what it shows.
pub data StartOption : Type 0 where
  interactive auto_start tx_first : StartOption
  cmdline_file display_xstats eth_peers_configfile eth_peer : List ℕ → StartOption

-- The cores, the ports and the NUMA sockets, and the forwarding between the ports.
pub data ForwardOption : Type 0 where
  nb_ports nb_cores coremask portmask portlist : List ℕ → ForwardOption
  numa no_numa : ForwardOption
  port_numa_config ring_numa_config socket_num port_topology forward_mode : List ℕ → ForwardOption

-- The numbers of queues.
pub data QueueOption : Type 0 where
  rxq txq hairpinq : List ℕ → QueueOption

-- The memory pools, the lengths of packets, and the cores of the statistics.
pub data MemoryOption : Type 0 where
  mp_anon : MemoryOption
  mp_alloc mbuf_size total_num_mbufs max_pkt_len max_lro_pkt_size latencystats bitrate_stats :
      List ℕ → MemoryOption

-- The offloads that have an option of their own, and the RSS hash functions.
pub data OffloadOption : Type 0 where
  disable_crc_strip enable_lro enable_scatter enable_rx_cksum enable_rx_timestamp : OffloadOption
  enable_hw_vlan enable_hw_vlan_filter enable_hw_vlan_strip enable_hw_vlan_extend : OffloadOption
  enable_hw_qinq_strip enable_drop_en disable_rss rss_ip rss_udp : OffloadOption
  rss_level_inner rss_level_outer : OffloadOption

-- The burst size, the descriptors of the rings, and the thresholds.
pub data RingOption : Type 0 where
  hairpin_mode burst flowgen_clones flowgen_flows mbcache txfreet txrst rxd txd :
      List ℕ → RingOption
  txpt txht txwt rxpt rxht rxwt rxfreet : List ℕ → RingOption

-- The segments of the packets.
pub data SegmentOption : Type 0 where
  rxoffs rxpkts rxhdrs txpkts : List ℕ → SegmentOption

pub data SwitchOption : Type 0 where
  multi_rx_mempool txonly_multi_flow no_flush_rx disable_link_check : SwitchOption
  disable_device_start no_lsc_interrupt no_rmv_interrupt flow_isolate_all : SwitchOption
  disable_flow_flush hot_plug mlockall no_mlockall no_iova_contig : SwitchOption
  record_core_cycles record_burst_stats : SwitchOption
  rxq_share : Option (List ℕ) → SwitchOption
  eth_link_speed print_event mask_event rx_mq_mode : List ℕ → SwitchOption
  num_procs proc_id : List ℕ → SwitchOption

-- The offloads as masks.
pub data MaskOption : Type 0 where
  tx_offloads rx_offloads : List ℕ → MaskOption

pub data NoisyOption : Type 0 where
  noisy_tx_sw_buffer_size noisy_tx_sw_buffer_flushtime noisy_lkup_memory : List ℕ → NoisyOption
  noisy_lkup_num_writes noisy_lkup_num_reads noisy_lkup_num_reads_writes : List ℕ → NoisyOption
  noisy_forward_mode : List ℕ → NoisyOption

-- The options that `launch_args_parse` reads before it checks the numbers of queues, and those
-- after. `ignored` is in the table, and no test names it.
pub data LongOption : Type 0 where
  help ignored : LongOption
  stats_period : List ℕ → LongOption
  start : StartOption → LongOption
  forward : ForwardOption → LongOption
  memory : MemoryOption → LongOption
  offload : OffloadOption → LongOption
  queue : QueueOption → LongOption
  ring : RingOption → LongOption
  segment : SegmentOption → LongOption
  switch : SwitchOption → LongOption
  mask : MaskOption → LongOption
  noisy : NoisyOption → LongOption

-- What one call of `getopt_long` finds.
pub data Found : Type 0 where
  short_i short_a short_h unknown : Found
  long : LongOption → Found
