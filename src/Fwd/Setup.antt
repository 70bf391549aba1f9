-- ===== src/Fwd/Setup.antt =====
-- config.c, `simple_fwd_config_setup`, `rss_fwd_config_setup` and `fwd_config_setup`, with
-- `init_fwd_streams` of dpdk.cpp. `none` is a fault or an exit of the process.
pub mod Streams
pub mod Ready
pub mod Simple
pub mod Rss
use udx_fastpath.Base.{
  ℕ, zero, suc, ◌+◌, ◌*◌, ◌/◌, Bool, true, false, ◌&&◌, ◌||◌, not, Option, none, some, List, [],
  ◌∷◌, ◌>>=◌, get_elem?, get_or, set, replicate, ltb, leb, ◌==◌, if◌then◌else◌, u8, u16, u32,
}
use Prim.Native.Nat.{max}
use udx_fastpath.Fwd.Types.{Stream, zero_stream, Port, State, Env}
use udx_fastpath.Fwd.Lcores.{setup_fwd_config_of_each_lcore}
use udx_fastpath.Fwd.Topology.{fwd_topology_tx_port_get}

-- NUMA_NO_CONFIG and UMA_NO_CONFIG
abbrev pub no_config : ℕ
no_config = 255

unfoldable pub new_socket_id : List ℕ → ℕ → Bool
new_socket_id [] socket_id = true
new_socket_id (x ∷ xs) socket_id = if x == socket_id then false else new_socket_id xs socket_id

-- The socket that `init_fwd_streams` gives to port `pid`.
unfoldable pub socket_of : Env → State → ℕ → ℕ → ℕ
unfolding new_socket_id
socket_of env s pid numa =
    if s.numa_support
    then (if numa == no_config
        then (if new_socket_id s.socket_ids (env.dev_socket_id pid)
            then get_or s.socket_ids 0 0
            else env.dev_socket_id pid)
        else numa)
    else (if s.socket_num == no_config then 0 else s.socket_num)

-- Its loop over the ports: `false` is the return of -1 on a port with too few queues.
pub init_ports : Env → State → List ℕ → List Port → Option (List Port × Bool)
init_ports env s [] ports = some (ports, true)
init_ports env s (pid ∷ pids) ports = do
  port ← get_elem? ports pid
  numa ← get_elem? s.port_numa pid
  let socket = socket_of env s pid numa
  let next = init_ports env s pids (set ports pid (record port { socket_id = socket }))
  if ltb port.max_rx_queues s.nb_rxq || ltb port.max_tx_queues s.nb_txq
      then some (ports, false)
      else next

-- The result is `none` where `rte_exit` ends the process; the flag is `false` for a result of -1.
-- Afterwards `streams` has an entry for each of the `nb_fwd_streams` streams.
pub init_fwd_streams : Env → State → Option (State × Bool)
init_fwd_streams env s = do
  r ← init_ports env s env.devs s.ports
  let t = record s { ports = r.0 }
  let q = max t.nb_rxq t.nb_txq
  let count = u16 (t.nb_ports * q)
  let fresh = record t { nb_fwd_streams = count; streams = replicate count zero_stream }
  if not r.1
      then some (t, false)
      else (if q == 0
          then some (t, false)
          else (if count == t.nb_fwd_streams
              then some (t, true)
              else (if count == 0 || env.zmalloc_streams count then some (fresh, true) else none)))

-- What the loop of `simple_fwd_config_setup` writes to the stream of position `i`.
abbrev pub simple_stream : State → ℕ → ℕ → Stream
simple_stream s rx_port tx_port = record {
  rx_port = rx_port;
  rx_queue = 0;
  tx_port = tx_port;
  tx_queue = 0;
  peer_addr = tx_port;
  retry_enabled = s.retry_enabled;
}

-- That loop: `n` positions from `i` on.
pub wire_simple : State → ℕ → ℕ → List Stream → Option (List Stream)
wire_simple s zero i streams = some streams
wire_simple s (suc n) i streams = do
  old ← get_elem? streams i
  rx_port ← get_elem? s.fwd_ports_ids i
  tx_port ←
      get_elem? s.fwd_ports_ids (fwd_topology_tx_port_get s.port_topology s.cfg.nb_fwd_ports i)
  wire_simple s n (suc i) (set streams i (simple_stream s rx_port tx_port))

pub simple_fwd_config_setup : Env → State → Option State
simple_fwd_config_setup env s = do
  let ports = s.nb_fwd_ports
  let cores = if ltb ports s.nb_fwd_lcores then u8 ports else s.nb_fwd_lcores
  let cfg = record (s.cfg) { nb_fwd_streams = ports; nb_fwd_lcores = cores; nb_fwd_ports = ports }
  r ← init_fwd_streams env (record s { cfg = cfg })
  lcores ← setup_fwd_config_of_each_lcore cfg r.0.lcores
  streams ← wire_simple r.0 ports 0 r.0.streams
  some (record (r.0) { lcores = lcores; streams = streams })

-- What the loop of `rss_fwd_config_setup` writes to a stream.
abbrev pub rss_stream : State → ℕ → ℕ → ℕ → Stream
rss_stream s rx_port tx_port rxq = record {
  rx_port = rx_port;
  rx_queue = rxq;
  tx_port = tx_port;
  tx_queue = rxq;
  peer_addr = tx_port;
  retry_enabled = s.retry_enabled;
}

-- The next position and queue: `rxp++`, and at the last port `rxq++`, from `start` up to `end`.
abbrev pub next_rxp : State → ℕ → ℕ
next_rxp s rxp = if ltb (rxp + 1) s.nb_fwd_ports then rxp + 1 else 0

abbrev pub next_rxq : State → ℕ → ℕ → ℕ → ℕ → ℕ
next_rxq s start end rxp rxq =
    if ltb (rxp + 1) s.nb_fwd_ports
    then rxq
    else (if leb end (u16 (rxq + 1)) then u16 start else u16 (rxq + 1))

-- That loop: `n` streams from `sm_id` on.
pub wire_rss : State → ℕ → ℕ → ℕ → ℕ → ℕ → ℕ → List Stream → Option (List Stream)
wire_rss s start end zero sm_id rxp rxq streams = some streams
wire_rss s start end (suc n) sm_id rxp rxq streams = do
  old ← get_elem? streams sm_id
  rx_port ← get_elem? s.fwd_ports_ids rxp
  tx_port ←
      get_elem? s.fwd_ports_ids (fwd_topology_tx_port_get s.port_topology s.cfg.nb_fwd_ports rxp)
  wire_rss s start end n (suc sm_id) (next_rxp s rxp) (next_rxq s start end rxp rxq)
      (set streams sm_id (rss_stream s rx_port tx_port rxq))

-- The queues of this process: `start` and how many. No process at all is a division by 0.
abbrev pub first_queue : State → ℕ → ℕ
first_queue s nb_q = u32 (s.proc_id * nb_q) / s.num_procs

pub rss_fwd_config_setup : Env → State → Option State
rss_fwd_config_setup env s = do
  let nb_q = if ltb s.nb_txq s.nb_rxq then s.nb_txq else s.nb_rxq
  let count = u16 (nb_q * s.nb_fwd_ports)
  let cores = if ltb count s.nb_fwd_lcores then u8 count else s.nb_fwd_lcores
  let cfg = record (s.cfg) {
    nb_fwd_streams = count;
    nb_fwd_lcores = cores;
    nb_fwd_ports = s.nb_fwd_ports;
  }
  r ← init_fwd_streams env (record s { cfg = cfg })
  lcores ← setup_fwd_config_of_each_lcore cfg r.0.lcores
  let start = first_queue s nb_q
  streams ← wire_rss (r.0) start (start + nb_q / s.num_procs) count 0 0 (u16 start) r.0.streams
  if s.num_procs == 0 then none else some (record (r.0) { lcores = lcores; streams = streams })

-- Several queues on both sides are spread over the cores; otherwise each port has one stream.
unfoldable pub fwd_config_setup : Env → State → Option State
fwd_config_setup env s =
    let t = record s { cfg = record (s.cfg) { fwd_eng = s.cur_fwd_eng } } in
    if ltb 1 s.nb_rxq && ltb 1 s.nb_txq
    then rss_fwd_config_setup env t
    else simple_fwd_config_setup env t
