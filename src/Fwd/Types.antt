-- ===== src/Fwd/Types.antt =====
-- The structures of lib/core/dpdk/testpmd.h that the forwarding configuration writes. Fields that
-- it does not touch (statistics, callbacks, mempools) are left out.
use udx_fastpath.Base.{ℕ, Bool, List}

-- `struct fwd_lcore`: a core runs the streams `stream_idx`, ..., `stream_idx + stream_nb - 1`.
pub record Lcore : Type 0 where
  pub stream_idx : ℕ
  pub stream_nb : ℕ

-- `struct fwd_stream`, its configuration fields.
pub record Stream : Type 0 where
  pub rx_port : ℕ
  pub rx_queue : ℕ
  pub tx_port : ℕ
  pub tx_queue : ℕ
  pub peer_addr : ℕ
  pub retry_enabled : ℕ

-- What `rte_zmalloc` returns.
abbrev pub zero_stream : Stream
zero_stream = record {
  rx_port = 0;
  rx_queue = 0;
  tx_port = 0;
  tx_queue = 0;
  peer_addr = 0;
  retry_enabled = 0;
}

-- `struct fwd_config`: `nb_fwd_lcores` is a byte, the other two are 16 bits wide. An engine is its
-- position in `fwd_engines`.
pub record Config : Type 0 where
  pub nb_fwd_streams : ℕ
  pub nb_fwd_lcores : ℕ
  pub nb_fwd_ports : ℕ
  pub fwd_eng : ℕ

-- The values of `port_topology`; any other value behaves as `paired`.
pub data Topology : Type 0 where
  paired chained loop : Topology

-- The limits that `struct rte_eth_dev_info` gives of a port, and the port's socket.
pub record Port : Type 0 where
  pub max_rx_queues : ℕ
  pub max_tx_queues : ℕ
  pub socket_id : ℕ

-- The globals that the forwarding configuration reads and writes. `lcores` and `streams` are the
-- arrays behind `fwd_lcores` and `fwd_streams`.
pub record State : Type 0 where
  pub nb_ports : ℕ
  pub ports : List Port
  pub nb_rxq : ℕ
  pub nb_txq : ℕ
  pub cur_fwd_eng : ℕ
  pub cfg : Config
  pub nb_fwd_streams : ℕ
  pub streams : List Stream
  pub lcores : List Lcore
  pub nb_lcores : ℕ
  pub nb_cfg_lcores : ℕ
  pub nb_fwd_lcores : ℕ
  pub fwd_lcores_cpuids : List ℕ
  pub nb_cfg_ports : ℕ
  pub nb_fwd_ports : ℕ
  pub fwd_ports_ids : List ℕ
  pub port_topology : Topology
  pub retry_enabled : ℕ
  pub proc_id : ℕ
  pub num_procs : ℕ
  pub numa_support : Bool
  pub port_numa : List ℕ
  pub socket_num : ℕ
  pub socket_ids : List ℕ

-- What DPDK and the allocator answer: the ports of `RTE_ETH_FOREACH_DEV` in its order,
-- `rte_eth_dev_socket_id`, and whether `rte_zmalloc` finds room for that many streams.
pub record Env : Type 0 where
  pub devs : List ℕ
  pub dev_socket_id : ℕ → ℕ
  pub zmalloc_streams : ℕ → Bool
