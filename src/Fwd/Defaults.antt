-- ===== src/Fwd/Defaults.antt =====
-- dpdk.cpp, `set_def_fwd_config`: the cores, the ports and the sockets that the program starts with.
-- `none` is a call of `rte_exit`, or an access past the end of an array.
use udx_fastpath.Base.{
  ℕ, zero, suc, Bool, not, Option, none, some, ◌>>=◌, List, [], ◌∷◌, ◌++◌, leb, ◌==◌, if◌then◌else◌,
  length, store, u8,
}
use udx_fastpath.Fwd.Types.{State}
use udx_fastpath.Fwd.Setup.{new_socket_id}

-- RTE_MAX_NUMA_NODES
abbrev numa_nodes : ℕ
numa_nodes = 32

-- What the platform and DPDK tell: the cores, RTE_MAX_LCORE of them, and the socket of a port, which
-- is `none` if it is negative.
pub record DefaultEnv : Type 0 where
  pub max_lcore : ℕ
  pub enabled : ℕ → Bool
  pub main_lcore : ℕ
  pub lcore_socket : ℕ → ℕ
  pub devs : List ℕ
  pub dev_socket : ℕ → Option ℕ

-- A socket is recorded if it is new.
pub add_socket : List ℕ → ℕ → Option (List ℕ)
unfolding new_socket_id
add_socket ids v =
    if new_socket_id ids v
    then (if leb numa_nodes (length ids) then none else some (ids ++ (v ∷ [])))
    else some ids

-- The loop over `n` cores from `i` on: the sockets, the array of the cores and their number.
pub default_lcores : DefaultEnv → ℕ → ℕ → ℕ → List ℕ → List ℕ → Option (List ℕ × List ℕ × ℕ)
unfolding add_socket
default_lcores env zero i nb_lc sockets cpuids = some (sockets, cpuids, nb_lc)
default_lcores env (suc n) i nb_lc sockets cpuids =
    let passed = default_lcores env n (suc i) nb_lc sockets cpuids in
    if not (env.enabled i)
    then passed
    else (add_socket sockets (env.lcore_socket i) >>= λ next.
        let main = default_lcores env n (suc i) nb_lc next cpuids in
        let other =
          (store cpuids nb_lc i >>= λ stored.
          default_lcores env n (suc i) (suc nb_lc) next stored) in
        if i == env.main_lcore then main else other)

pub set_default_fwd_lcores_config : DefaultEnv → State → Option State
unfolding default_lcores
set_default_fwd_lcores_config env s =
    default_lcores env env.max_lcore 0 0 s.socket_ids s.fwd_lcores_cpuids >>= λ r. some (record s {
      socket_ids = r.0;
      fwd_lcores_cpuids = r.1;
      nb_lcores = u8 r.2;
      nb_cfg_lcores = u8 r.2;
      nb_fwd_lcores = 1;
    })

-- A port without a socket leaves the sockets as they are.
pub add_port_socket : List ℕ → Option ℕ → Option (List ℕ)
unfolding add_socket
add_port_socket ids none = some ids
add_port_socket ids (some v) = add_socket ids v

-- The loop over the ports from position `i` on.
pub default_ports : DefaultEnv → List ℕ → ℕ → List ℕ → List ℕ → Option (List ℕ × List ℕ)
unfolding add_port_socket
default_ports env [] i sockets ids = some (sockets, ids)
default_ports env (pt_id ∷ rest) i sockets ids = store ids i pt_id >>= λ stored.
    add_port_socket sockets (env.dev_socket pt_id) >>= λ next.
    default_ports env rest (suc i) next stored

pub set_default_fwd_ports_config : DefaultEnv → State → Option State
unfolding default_ports
set_default_fwd_ports_config env s =
    default_ports env env.devs 0 s.socket_ids s.fwd_ports_ids >>= λ r. some (record s {
      socket_ids = r.0;
      fwd_ports_ids = r.1;
      nb_cfg_ports = s.nb_ports;
      nb_fwd_ports = s.nb_ports;
    })

-- The default addresses of the peers, set in between, are not part of this state.
pub set_def_fwd_config : DefaultEnv → State → Option State
unfolding set_default_fwd_lcores_config set_default_fwd_ports_config
set_def_fwd_config env s =
    set_default_fwd_lcores_config env s >>= λ t. set_default_fwd_ports_config env t
