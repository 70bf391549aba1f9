-- ===== src/Life/Callback.antt =====
-- dpdk.cpp, `start_packet_forwarding`, as far as it changes ports, and `rmv_port_callback`. `none` is a
-- call of `rte_exit`, or an access past the end of an array.
pub mod Restarted
use udx_fastpath.Base.{
  ℕ, Bool, true, false, ◌&&◌, ◌||◌, not, Option, none, some, ◌>>=◌, List, [], ◌∷◌, ◌==◌,
  if◌then◌else◌, take,
}
use udx_fastpath.Select.Platform.{port_all}
use udx_fastpath.Fwd.Types.{Port, State, Env}
use udx_fastpath.Fwd.Setup.{fwd_config_setup}
use udx_fastpath.Fwd.Shared.{SharedPort, pkt_fwd_shared_rxq_check}
use udx_fastpath.Life.{LifePort, Globals, Driver, all_ports_started}
use udx_fastpath.Life.Stop.{forwards, Lists, stop_port, close_port, Removal, detach_device}
use udx_fastpath.Life.Detach.{Info, update_queue_state}

-- What the start of the forwarding reads: its configuration so far, the shared queues, whether the
-- engine has a `stream_init`, and what DPDK tells of the queues.
pub record Restart : Type 0 where
  pub fwd : State
  pub fwd_env : Env
  pub rxq_share : ℕ
  pub shared : List SharedPort
  pub stream_init : Bool
  pub rx_info : ℕ → ℕ → Info
  pub tx_info : ℕ → ℕ → Info

-- A port has one socket, which both records have.
abbrev pub sockets_in : List LifePort → List Port → List Port
sockets_in (p ∷ ps) (q ∷ qs) = record q { socket_id = p.socket_id } ∷ sockets_in ps qs
sockets_in _ qs = qs

abbrev pub sockets_out : List Port → List LifePort → List LifePort
sockets_out (q ∷ qs) (p ∷ ps) = record p { socket_id = q.socket_id } ∷ sockets_out qs ps
sockets_out _ ps = ps

-- The state of the forwarding configuration, with what the life cycle knows.
abbrev pub state_of : Globals → Lists → List LifePort → State → State
state_of g s ports f = record f {
  nb_ports = s.nb_ports;
  ports = sockets_in ports f.ports;
  nb_rxq = g.nb_rxq;
  nb_txq = g.nb_txq;
  nb_cfg_ports = s.nb_cfg_ports;
  nb_fwd_ports = s.nb_fwd_ports;
  fwd_ports_ids = s.fwd_ports_ids;
  numa_support = g.numa_support;
}

-- The ports afterwards. What comes behind the states of the queues changes no port.
unfoldable pub start_packet_forwarding :
    Globals → Driver → Restart → List LifePort → Lists → Option (List LifePort)
start_packet_forwarding g env r ports s =
    if g.nb_rxq == 0 || g.nb_txq == 0
    then none
    else (all_ports_started env ports >>= λ ok.
        if not ok
        then some ports
        else (fwd_config_setup r.fwd_env (state_of g s ports r.fwd) >>= λ f.
            pkt_fwd_shared_rxq_check r.rxq_share f.cfg.nb_fwd_lcores r.shared f.streams f.lcores
            >>= λ apart.
                let next = sockets_out f.ports ports in
                if apart && r.stream_init
                then update_queue_state g env r.rx_info r.tx_info port_all next
                else some next))

-- What DPDK answers to the callback: whether the port is attached, the ports for which a close raises
-- the event of its end, the ports that are valid afterwards, the answer of `rte_dev_remove`, and
-- `siblings`, which is `none` where the port does not answer, and else the ports of its device.
pub record Unplug : Type 0 where
  pub attached : Bool
  pub closes : ℕ → Bool
  pub valid : ℕ → Bool
  pub remove : Bool
  pub siblings : Option (Option (List ℕ))

-- From the stop of the port to the removal of the device.
unfoldable pub unplug : Globals → Driver → Unplug → ℕ → List LifePort → Lists → Option Removal
unplug g env u port_id ports s =
    stop_port g env (take s.nb_fwd_ports s.fwd_ports_ids) port_id ports >>= λ a. elim u.siblings [
      | none ↦ some (record { ports = a; lists = s; removed = false })
      | some device ↦ close_port g env u.closes u.valid port_id a s >>= λ b.
          detach_device u.valid u.remove device b.0 b.1
    ]

-- `start_packet_forwarding(0)`, where forwarding was stopped.
unfoldable pub restarted : Globals → Driver → Restart → Bool → Removal → Option Removal
restarted g env r need_to_start x =
    if need_to_start
    then (start_packet_forwarding g env r x.ports x.lists >>= λ next.
        some (record x { ports = next }))
    else some x

-- `stop_packet_forwarding`, which comes first, changes no port.
unfoldable pub rmv_port_callback :
    Globals → Driver → Unplug → Restart → ℕ → List LifePort → Lists → Option Removal
rmv_port_callback g env u r port_id ports s =
    let kept : Removal = record { ports = ports; lists = s; removed = false } in
    let need_to_start = forwards env (take s.nb_fwd_ports s.fwd_ports_ids) port_id in
    if u.attached
    then (unplug g env u port_id ports s >>= λ x. restarted g env r need_to_start x)
    else some kept
