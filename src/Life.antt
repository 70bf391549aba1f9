-- ===== src/Life.antt =====
-- dpdk.cpp, the life cycle of a port: its status in `ports`, and the functions that read it.
pub mod Queues
pub mod Start
pub mod Stop
pub mod Detach
pub mod Callback
pub mod Stuck
pub mod NoPool
pub mod Running
use udx_fastpath.Base.{
  ℕ, Bool, true, false, ◌&&◌, not, Option, none, some, ◌>>=◌, List, [], ◌∷◌, ◌==◌, if◌then◌else◌,
  ltb, get_elem?,
}
use udx_fastpath.Select.Platform.{port_all, contains}

-- RTE_PORT_STOPPED, ..., RTE_PORT_HANDLING
pub data Status : Type 0 where
  stopped started closed handling : Status

-- A queue: the offloads of its configuration, `deferred_start`, and whether its state is
-- RTE_ETH_QUEUE_STATE_STARTED.
pub record Queue : Type 0 where
  pub offloads : ℕ
  pub deferred_start : Bool
  pub running : Bool

-- The fields of `struct rte_port` that the life cycle writes or reads; `rxq` and `txq` have the
-- entries below `max_rx_queues` and `max_tx_queues`.
pub record LifePort : Type 0 where
  pub port_status : Status
  pub need_reconfig : Bool
  pub need_reconfig_queues : Bool
  pub need_setup : Bool
  pub member_flag : Bool
  pub socket_id : ℕ
  pub has_flows : Bool
  pub rx_offloads : ℕ
  pub tx_offloads : ℕ
  pub rxq : List Queue
  pub txq : List Queue

-- The globals that the life cycle reads.
pub record Globals : Type 0 where
  pub primary : Bool
  pub nb_rxq : ℕ
  pub nb_txq : ℕ
  pub nb_hairpinq : ℕ
  pub hairpin_manual : Bool
  pub flow_isolate_all : Bool
  pub no_flow_flush : Bool
  pub numa_support : Bool
  pub rxring_numa : List ℕ
  pub rx_pkt_nb_segs : ℕ
  pub multi_rx_mempool : Bool
  pub mbuf_data_size_n : ℕ

-- What DPDK answers for a port: `true` is a success. `buffer_split` tests an offload mask, and
-- `peers` is whether `rte_eth_hairpin_get_peer_ports` succeeds.
pub record Driver : Type 0 where
  pub devs : List ℕ
  pub isolate : ℕ → Bool
  pub hairpin_capability : ℕ → Bool
  pub configure : ℕ → Bool
  pub conf : ℕ → Option (ℕ × ℕ)
  pub tx_queue_setup : ℕ → ℕ → Bool
  pub rx_queue_setup : ℕ → ℕ → Bool
  pub tx_hairpin_queue_setup : ℕ → ℕ → Bool
  pub rx_hairpin_queue_setup : ℕ → ℕ → Bool
  pub mempool : ℕ → Bool
  pub max_rx_mempools : ℕ → Option ℕ
  pub buffer_split : ℕ → Bool
  pub dev_start : ℕ → Bool
  pub dev_stop : ℕ → Bool
  pub dev_reset : ℕ → Bool
  pub peers : ℕ → Bool

abbrev pub is_stopped : Status → Bool
is_stopped stopped = true
is_stopped _ = false

abbrev pub is_started : Status → Bool
is_started started = true
is_started _ = false

abbrev pub is_closed : Status → Bool
is_closed closed = true
is_closed _ = false

abbrev pub is_handling : Status → Bool
is_handling handling = true
is_handling _ = false

-- `port_id_is_invalid`, with the ports of the driver.
unfoldable pub invalid : Driver → ℕ → Bool
unfolding contains
invalid env port_id = if port_id == port_all then false else not (contains env.devs port_id)

-- `pid == pi || pid == RTE_PORT_ALL`, the test of the loops.
abbrev pub selects : ℕ → ℕ → Bool
selects pid pi = if pid == pi then true else pid == port_all

-- `none` is a read past the end of `ports`.
unfoldable pub all_started : List LifePort → List ℕ → Option Bool
all_started ports [] = some true
all_started ports (pi ∷ pis) =
    let rest = all_started ports pis in
    get_elem? ports pi >>= λ port.
    if not (is_started port.port_status) && not port.member_flag then some false else rest

unfoldable pub all_ports_started : Driver → List LifePort → Option Bool
unfolding all_started
all_ports_started env ports = all_started ports env.devs

pub port_is_stopped : List LifePort → ℕ → Option Bool
port_is_stopped ports port_id = get_elem? ports port_id >>= λ port.
    some (if not (is_stopped port.port_status) && not port.member_flag then false else true)

pub all_stopped : List LifePort → List ℕ → Option Bool
unfolding port_is_stopped
all_stopped ports [] = some true
all_stopped ports (pi ∷ pis) =
    let rest = all_stopped ports pis in
    port_is_stopped ports pi >>= λ ok. if ok then rest else some false

pub all_ports_stopped : Driver → List LifePort → Option Bool
unfolding all_stopped
all_ports_stopped env ports = all_stopped ports env.devs

unfoldable pub port_is_started : Driver → List LifePort → ℕ → Option Bool
unfolding invalid
port_is_started env ports port_id =
    if invalid env port_id
    then some false
    else (get_elem? ports port_id >>= λ port. some (is_started port.port_status))
