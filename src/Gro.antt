-- ===== src/Gro.antt =====
-- config.c, `setup_gro`, `setup_gro_flush_cycles` and `setup_gso`. `none` is an access past the end of
-- the array of the ports.
pub mod Cycles
use udx_fastpath.Base.{
  ℕ, Bool, true, false, ◌||◌, not, Option, none, some, ◌>>=◌, List, ltb, ◌==◌, if◌then◌else◌,
  get_elem?, set,
}

-- GRO_DEFAULT_FLUSH_CYCLES, GRO_MAX_FLUSH_CYCLES and GRO_DEFAULT_ITEM_NUM_PER_FLOW
abbrev pub default_flush_cycles : ℕ
default_flush_cycles = 1

abbrev pub max_flush_cycles : ℕ
max_flush_cycles = 4

abbrev pub default_item_num : ℕ
default_item_num = 32

-- `struct gro_status`, with the parameters that the setters write.
pub record GroStatus : Type 0 where
  pub enable : Bool
  pub gro_types : ℕ
  pub max_flow_num : ℕ
  pub max_item_per_flow : ℕ

-- The numbers of rte_gro.h (RTE_GRO_TCP_IPV4, and RTE_GRO_MAX_BURST_ITEM_NUM over the number of
-- items), and `rte_eth_dev_is_valid_port`.
pub record GroEnv : Type 0 where
  pub valid_port : ℕ → Bool
  pub tcp_ipv4 : ℕ
  pub default_flow_num : ℕ

-- GRO is switched on: the parameters are the default ones if the flush cycles are.
pub gro_on : GroEnv → ℕ → GroStatus → GroStatus
gro_on env gro_flush_cycles g =
    let given : GroStatus = record g { enable = true } in
    let fresh : GroStatus = record {
      enable = true;
      gro_types = env.tcp_ipv4;
      max_flow_num = env.default_flow_num;
      max_item_per_flow = default_item_num;
    } in
    if g.enable then g else (if gro_flush_cycles == default_flush_cycles then fresh else given)

-- `on` is whether the text is "on"; any other text switches GRO off.
unfoldable pub setup_gro : GroEnv → ℕ → Bool → ℕ → List GroStatus → Option (List GroStatus)
unfolding gro_on
setup_gro env gro_flush_cycles on port_id gro_ports =
    if not (env.valid_port port_id)
    then some gro_ports
    else (get_elem? gro_ports port_id >>= λ g. some (
        set gro_ports port_id
          (if on then gro_on env gro_flush_cycles g else record g { enable = false })))

-- The new value of `gro_flush_cycles`.
pub setup_gro_flush_cycles : ℕ → ℕ
setup_gro_flush_cycles cycles =
    if ltb max_flush_cycles cycles || ltb cycles default_flush_cycles
    then default_flush_cycles
    else cycles

-- The texts that `setup_gso` knows.
pub data GsoMode : Type 0 where
  on off other : GsoMode

unfoldable pub setup_gso : GroEnv → GsoMode → ℕ → List Bool → Option (List Bool)
setup_gso env mode port_id gso_ports =
    let write =
      λ (b : Bool). get_elem? gso_ports port_id >>= λ old. some (set gso_ports port_id b) in
    if not (env.valid_port port_id)
    then some gso_ports
    else elim mode [ on ↦ write true | off ↦ write false | other ↦ some gso_ports ]
