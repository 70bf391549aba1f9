-- ===== src/Params/Forwarding.antt =====
-- lib/core/dpdk/parameters.c, `parse_fwd_coremask`, `parse_fwd_portmask` and the options of
-- `launch_args_parse` on the cores, the ports, the NUMA sockets and the numbers of queues; config.c,
-- `set_pkt_forwarding_mode`.
pub mod Masks
use udx_fastpath.Base.{
  ℕ, suc, ◌+◌, ◌^◌, Bool, true, false, ◌&&◌, ◌||◌, not, Option, none, some, List, [], ◌∷◌, ltb, leb,
  ◌==◌, if◌then◌else◌, u8, u16,
}
use udx_fastpath.Fwd.Types.{State, Topology, paired, chained, loop}
use udx_fastpath.Fwd.Setup.{new_socket_id}
use udx_fastpath.Select.Platform.{Platform}
use udx_fastpath.Select.Cores.{set_fwd_lcores_mask}
use udx_fastpath.Select.Ports.{set_fwd_ports_mask}
use udx_fastpath.Select.PortList.{parse_fwd_portlist}
use udx_fastpath.Limits.{Devices, check_nb_rxq, check_nb_txq, check_nb_hairpinq}
use udx_fastpath.Params.Text.{Word, codes, same, atoi, strtoul, positive, nonneg}
use udx_fastpath.Params.Numa.{Numa, Strsplit, parse_portnuma_config, parse_ringnuma_config}
use udx_fastpath.Params.Outcome.{Outcome, next, exit_failure, fault, accept, put}
use udx_fastpath.Params.Options.{
  ForwardOption, nb_ports, nb_cores, coremask, portmask, portlist, numa, no_numa, port_numa_config,
  ring_numa_config, socket_num, port_topology, forward_mode, QueueOption, rxq, txq, hairpinq,
}

-- The globals; `port_numa` and `socket_ids` are in `fwd`.
pub record Forwarding : Type 0 where
  pub fwd : State
  pub nb_hairpinq : ℕ
  pub rxring_numa : List ℕ
  pub txring_numa : List ℕ

-- What the options rely on: the names of the engines in `fwd_engines`, `rte_strsplit`, and DPDK.
pub record ForwardEnv : Type 0 where
  pub platform : Platform
  pub devices : Devices
  pub strsplit : Strsplit
  pub max_ethports : ℕ
  pub engines : List (List ℕ)

-- The text of a mask is not empty, and is a number to its end.
pub mask_ok : List ℕ → Word → Bool
mask_ok text w = not (same text [] || not (same w.end []))

unfoldable pub after_coremask : Option (State × Bool) → Outcome State
after_coremask none = fault
after_coremask (some (s, ok)) = if ok then next s else exit_failure

unfoldable pub parse_fwd_coremask : Platform → List ℕ → State → Outcome State
unfolding mask_ok after_coremask strtoul
parse_fwd_coremask p text s =
    if mask_ok text (strtoul 16 text)
    then after_coremask (set_fwd_lcores_mask p (strtoul 16 text).value s)
    else exit_failure

unfoldable pub stored_or_fault : Option State → Outcome State
stored_or_fault none = fault
stored_or_fault (some s) = next s

unfoldable pub parse_fwd_portmask : Platform → List ℕ → State → Outcome State
unfolding mask_ok stored_or_fault strtoul
parse_fwd_portmask p text s =
    if mask_ok text (strtoul 16 text)
    then stored_or_fault (set_fwd_ports_mask p (strtoul 16 text).value s)
    else exit_failure

-- The engine of that name, from position `i` on; an unknown name changes nothing.
pub find_engine : List (List ℕ) → ℕ → List ℕ → Option ℕ
find_engine [] i name = none
find_engine (e ∷ es) i name = if same e name then some i else find_engine es (suc i) name

unfoldable pub with_engine : Option ℕ → State → State
with_engine none s = s
with_engine (some i) s = record s { cur_fwd_eng = i }

unfoldable pub set_pkt_forwarding_mode : List (List ℕ) → List ℕ → State → State
unfolding find_engine with_engine
set_pkt_forwarding_mode engines name s = with_engine (find_engine engines 0 name) s

pub topology_of : List ℕ → Option Topology
topology_of name =
    if same name (codes "paired")
    then some paired
    else if same name (codes "chained")
    then some chained
    else if same name (codes "loop")
    then some loop
    else none

unfoldable pub with_topology : Option Topology → State → Outcome State
with_topology none s = exit_failure
with_topology (some t) s = next (record s { port_topology = t })

abbrev pub numa_of : Forwarding → Numa
numa_of s = record {
  socket_ids = s.fwd.socket_ids;
  port_numa = s.fwd.port_numa;
  rxring_numa = s.rxring_numa;
  txring_numa = s.txring_numa;
}

-- After a parser of NUMA sockets: a result of -1 ends the process.
unfoldable pub with_numa : Option (Numa × Bool) → Forwarding → Outcome Forwarding
with_numa none s = fault
with_numa (some (n, ok)) s =
    if ok
    then next (record s {
      fwd = record (s.fwd) { socket_ids = n.socket_ids; port_numa = n.port_numa };
      rxring_numa = n.rxring_numa;
      txring_numa = n.txring_numa;
    })
    else exit_failure

unfoldable pub with_fwd : Outcome State → Forwarding → Outcome Forwarding
with_fwd o s = put (λ fwd. record s { fwd = fwd }) o

unfoldable pub forward_option : ForwardEnv → ForwardOption → Forwarding → Outcome Forwarding
unfolding parse_fwd_coremask parse_fwd_portmask stored_or_fault set_pkt_forwarding_mode topology_of
    with_topology with_numa with_fwd atoi new_socket_id
forward_option env (nb_ports a) s =
    accept (positive (atoi a) && leb (atoi a) s.fwd.nb_ports)
      (record s { fwd = record (s.fwd) { nb_fwd_ports = u16 (atoi a) } })
forward_option env (nb_cores a) s =
    accept (positive (atoi a) && leb (atoi a) s.fwd.nb_lcores)
      (record s { fwd = record (s.fwd) { nb_fwd_lcores = u8 (atoi a) } })
forward_option env (coremask a) s = with_fwd (parse_fwd_coremask env.platform a s.fwd) s
forward_option env (portmask a) s = with_fwd (parse_fwd_portmask env.platform a s.fwd) s
forward_option env (portlist a) s =
    with_fwd (stored_or_fault (parse_fwd_portlist env.platform env.max_ethports a s.fwd)) s
forward_option env numa s = next (record s { fwd = record (s.fwd) { numa_support = true } })
forward_option env no_numa s = next (record s { fwd = record (s.fwd) { numa_support = false } })
forward_option env (port_numa_config a) s =
    with_numa (parse_portnuma_config env.strsplit env.platform a (numa_of s)) s
forward_option env (ring_numa_config a) s =
    with_numa (parse_ringnuma_config env.strsplit env.platform a (numa_of s)) s
forward_option env (socket_num a) s =
    accept (not (new_socket_id s.fwd.socket_ids (u8 (atoi a))))
      (record s { fwd = record (s.fwd) { socket_num = u8 (atoi a) } })
forward_option env (port_topology a) s = with_fwd (with_topology (topology_of a) s.fwd) s
forward_option env (forward_mode a) s =
    next (record s { fwd = set_pkt_forwarding_mode env.engines a s.fwd })

unfoldable pub queue_option : Devices → QueueOption → Forwarding → Outcome Forwarding
unfolding atoi check_nb_rxq check_nb_txq check_nb_hairpinq
queue_option env (rxq a) s =
    accept (nonneg (atoi a) && check_nb_rxq env (u16 (atoi a)))
      (record s { fwd = record (s.fwd) { nb_rxq = u16 (atoi a) } })
queue_option env (txq a) s =
    accept (nonneg (atoi a) && check_nb_txq env (u16 (atoi a)))
      (record s { fwd = record (s.fwd) { nb_txq = u16 (atoi a) } })
queue_option env (hairpinq a) s =
    accept
      ((nonneg (atoi a) && check_nb_hairpinq env (u16 (atoi a)))
        && ((nonneg (atoi a + s.fwd.nb_txq) && check_nb_txq env (u16 (atoi a + s.fwd.nb_txq)))
            && (nonneg (atoi a + s.fwd.nb_rxq) && check_nb_rxq env (u16 (atoi a + s.fwd.nb_rxq)))))
      (record s { nb_hairpinq = u16 (atoi a) })
