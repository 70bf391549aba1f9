-- ===== src/Fwd/Echo.antt =====
-- config.c, `icmp_echo_config_setup`, which sends each packet back to where it came from.
use udx_fastpath.Base.{
  ℕ, zero, suc, ◌+◌, ◌*◌, Option, some, ◌>>=◌, List, get_elem?, set, ltb, ◌==◌, if◌then◌else◌, u8,
  u16,
}
use udx_fastpath.Fwd.Types.{Stream, Lcore, State, Env}
use udx_fastpath.Fwd.Lcores.{setup_fwd_config_of_each_lcore}
use udx_fastpath.Fwd.Setup.{init_fwd_streams}

abbrev pub echo_stream : State → ℕ → ℕ → Stream
echo_stream s rx_port rxq = record {
  rx_port = rx_port;
  rx_queue = rxq;
  tx_port = rx_port;
  tx_queue = rxq;
  peer_addr = rx_port;
  retry_enabled = s.retry_enabled;
}

-- The position of the port, the queue, and the streams so far.
pub record Echo : Type 0 where
  pub rxp : ℕ
  pub rxq : ℕ
  pub streams : List Stream

abbrev pub advance : State → Echo → List Stream → Echo
advance s e streams =
    if u16 (e.rxq + 1) == s.nb_rxq
    then record { rxp = u16 (e.rxp + 1); rxq = 0; streams = streams }
    else record { rxp = e.rxp; rxq = u16 (e.rxq + 1); streams = streams }

-- The streams of one core: `n` from position `i` on.
pub wire_echo : State → ℕ → ℕ → Echo → Option Echo
wire_echo s zero i e = some e
wire_echo s (suc n) i e = do
  old ← get_elem? e.streams i
  rx_port ← get_elem? s.fwd_ports_ids e.rxp
  wire_echo s n (suc i) (advance s e (set e.streams i (echo_stream s rx_port e.rxq)))

-- The loop over `n` cores from `lc_id` on.
pub echo_lcores : State → List Lcore → ℕ → ℕ → Echo → Option Echo
unfolding wire_echo
echo_lcores s lcores zero lc_id e = some e
echo_lcores s lcores (suc n) lc_id e = do
  lc ← get_elem? lcores lc_id
  next ← wire_echo s lc.stream_nb lc.stream_idx e
  echo_lcores s lcores n (suc lc_id) next

-- The cores: at most one for a queue to send on, and one for a stream.
pub echo_cores : State → ℕ → ℕ
echo_cores s count =
    let cores =
      if ltb (s.nb_txq * s.nb_fwd_ports) s.nb_fwd_lcores
      then u8 (s.nb_txq * s.nb_fwd_ports)
      else s.nb_fwd_lcores in
    if ltb count cores then u8 count else cores

pub icmp_echo_config_setup : Env → State → Option State
unfolding echo_cores echo_lcores
icmp_echo_config_setup env s = do
  let count = u16 (s.nb_rxq * s.nb_fwd_ports)
  let cfg = record (s.cfg) {
    nb_fwd_streams = count;
    nb_fwd_lcores = echo_cores s count;
    nb_fwd_ports = s.nb_fwd_ports;
  }
  r ← init_fwd_streams env (record s { cfg = cfg })
  lcores ← setup_fwd_config_of_each_lcore cfg r.0.lcores
  e ←
      echo_lcores (r.0) lcores cfg.nb_fwd_lcores 0
        (record { rxp = 0; rxq = 0; streams = r.0.streams })
  some (record (r.0) { lcores = lcores; streams = e.streams })
