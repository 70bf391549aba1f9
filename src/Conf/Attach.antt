-- ===== src/Conf/Attach.antt =====
-- dpdk.cpp, `attach_port` and `setup_attached_port`: the ports of a device that is probed while the
-- program runs.
use udx_fastpath.Base.{
  ℕ, zero, suc, ◌+◌, Bool, true, false, ◌&&◌, not, Option, some, ◌>>=◌, List, [], ◌∷◌,
  if◌then◌else◌, get_elem?, set, store, length, get_or, take, u16, u32,
}
use udx_fastpath.Fwd.Setup.{new_socket_id}
use udx_fastpath.Life.{LifePort, Driver, stopped, is_handling}
use udx_fastpath.Life.Stop.{Lists, forwards}
use udx_fastpath.Conf.{ConfPort, ConfGlobals, ConfEnv}
use udx_fastpath.Conf.Ports.{reconfig}

-- The ports as the life cycle has them and as their configuration has them, the lists of ports, the
-- sockets and the size of the first buffer.
pub record Attached : Type 0 where
  pub ports : List LifePort
  pub confs : List ConfPort
  pub lists : Lists
  pub socket_ids : List ℕ
  pub first_size : ℕ

-- `check_socket_id(socket_id) < 0`: the first socket is taken instead.
pub attached_socket : List ℕ → ℕ → ℕ
unfolding new_socket_id
attached_socket socket_ids v = if new_socket_id socket_ids v then get_or socket_ids 0 0 else v

-- The port is put behind the others in both lists.
pub append_port : ℕ → Lists → Option Lists
append_port pi l = store l.ports_ids l.nb_ports pi >>= λ a.
    store l.fwd_ports_ids l.nb_fwd_ports pi >>= λ b. some (record {
      ports_ids = a;
      nb_ports = u16 (l.nb_ports + 1);
      fwd_ports_ids = b;
      nb_fwd_ports = u16 (l.nb_fwd_ports + 1);
      nb_cfg_ports = u16 (l.nb_fwd_ports + 1);
    })

-- The flags that `reconfig` sets are those of both records.
abbrev pub set_up : ℕ → LifePort → LifePort
set_up socket_id p = record p {
  need_reconfig = true;
  need_reconfig_queues = true;
  socket_id = socket_id;
  need_setup = false;
  port_status = stopped;
}

-- `socket` is the answer of `rte_eth_dev_socket_id`.
pub setup_attached_port : ConfGlobals → ConfEnv → (ℕ → ℕ) → ℕ → Attached → Option Attached
unfolding attached_socket append_port reconfig
setup_attached_port g env socket pi s =
    let socket_id = attached_socket s.socket_ids (u32 (socket pi)) in
    reconfig g env pi socket_id s.confs s.first_size >>= λ r. append_port pi s.lists >>= λ lists.
    get_elem? s.ports pi >>= λ port. some (record s {
      ports = set s.ports pi (set_up socket_id port);
      confs = r.0;
      lists = lists;
      first_size = r.1;
    })

-- The loop over all entries of `ports`, `n` of them from `pi` on.
pub attach_events : ConfGlobals → ConfEnv → (ℕ → ℕ) → ℕ → ℕ → Attached → Option Attached
unfolding setup_attached_port
attach_events g env socket zero pi s = some s
attach_events g env socket (suc n) pi s =
    let passed = attach_events g env socket n (suc pi) s in
    get_elem? s.ports pi >>= λ port.
    let taken =
      (setup_attached_port g env socket pi s >>= λ t. attach_events g env socket n (suc pi) t) in
    if is_handling port.port_status && port.need_setup then taken else passed

-- The loop over the ports that match the text.
pub attach_matching : ConfGlobals → ConfEnv → Driver → (ℕ → ℕ) → List ℕ → Attached → Option Attached
unfolding setup_attached_port forwards
attach_matching g env driver socket [] s = some s
attach_matching g env driver socket (pi ∷ pis) s =
    let passed = attach_matching g env driver socket pis s in
    let taken =
      (setup_attached_port g env socket pi s >>= λ t. attach_matching g env driver socket pis t) in
    if forwards driver (take s.lists.nb_fwd_ports s.lists.fwd_ports_ids) pi then passed else taken

-- `probed` is whether there is a text and `rte_dev_probe` accepts it; the events of the probe have
-- come by then.
unfoldable pub attach_port :
    ConfGlobals → ConfEnv → Driver → (ℕ → ℕ) → Bool → Bool → List ℕ → Attached → Option Attached
unfolding attach_events attach_matching
attach_port g env driver socket probed setup_on_probe_event matching s =
    if not probed
    then some s
    else (if setup_on_probe_event
        then attach_events g env socket (length s.ports) 0 s
        else attach_matching g env driver socket matching s)
