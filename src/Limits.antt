-- ===== src/Limits.antt =====
-- dpdk.cpp, the limits of the devices on the numbers of queues and of descriptors: the functions
-- `get_allowed_max_nb_rxq`, ..., `check_nb_hairpinq`. The port of a limit is for messages alone, and
-- is left out.
pub mod Bounds
use udx_fastpath.Base.{
  ℕ, Bool, true, false, not, Option, none, some, List, [], ◌∷◌, ltb, if◌then◌else◌,
}

-- RTE_MAX_QUEUES_PER_PORT
abbrev pub max_queues_per_port : ℕ
max_queues_per_port = 1024

-- The fields of `struct rte_eth_dev_info` that matter here.
pub record DevInfo : Type 0 where
  pub max_rx_queues : ℕ
  pub max_tx_queues : ℕ
  pub rx_nb_max : ℕ
  pub rx_nb_min : ℕ
  pub tx_nb_max : ℕ
  pub tx_nb_min : ℕ
  pub burst_size : ℕ

-- What DPDK answers: the ports of `RTE_ETH_FOREACH_DEV`, `eth_dev_info_get_print_err`, and
-- `rte_eth_dev_hairpin_capability_get` with the number of queues.
pub record Devices : Type 0 where
  pub devs : List ℕ
  pub info : ℕ → Option DevInfo
  pub hairpin : ℕ → Option ℕ

-- The loops for a maximum and for a minimum, from the value so far; a port that does not answer is
-- passed over.
unfoldable pub lowest : (ℕ → Option ℕ) → ℕ → List ℕ → ℕ
lowest limit best [] = best
lowest limit best (pi ∷ pis) = elim (limit pi) [
  | none ↦ lowest limit best pis
  | some n ↦ lowest limit (if ltb n best then n else best) pis
]

pub highest : (ℕ → Option ℕ) → ℕ → List ℕ → ℕ
highest limit best [] = best
highest limit best (pi ∷ pis) = elim (limit pi) [
  | none ↦ highest limit best pis
  | some n ↦ highest limit (if ltb best n then n else best) pis
]

-- `max_rxq_valid`: some port answers.
unfoldable pub any_valid : (ℕ → Option ℕ) → List ℕ → Bool
any_valid limit [] = false
any_valid limit (pi ∷ pis) = elim (limit pi) [ none ↦ any_valid limit pis | some n ↦ true ]

-- A field of the information, where there is any.
abbrev pub field : (DevInfo → ℕ) → Option DevInfo → Option ℕ
field f none = none
field f (some i) = some (f i)

abbrev pub limit : Devices → (DevInfo → ℕ) → ℕ → Option ℕ
limit env f pi = field f (env.info pi)

unfoldable pub get_allowed_max_nb_rxq : Devices → ℕ
unfolding lowest any_valid
get_allowed_max_nb_rxq env =
    if any_valid (limit env (λ i. i.max_rx_queues)) env.devs
    then lowest (limit env (λ i. i.max_rx_queues)) max_queues_per_port env.devs
    else 0

unfoldable pub check_nb_rxq : Devices → ℕ → Bool
unfolding get_allowed_max_nb_rxq
check_nb_rxq env rxq = not (ltb (get_allowed_max_nb_rxq env) rxq)

unfoldable pub get_allowed_max_nb_txq : Devices → ℕ
unfolding lowest any_valid
get_allowed_max_nb_txq env =
    if any_valid (limit env (λ i. i.max_tx_queues)) env.devs
    then lowest (limit env (λ i. i.max_tx_queues)) max_queues_per_port env.devs
    else 0

unfoldable pub check_nb_txq : Devices → ℕ → Bool
unfolding get_allowed_max_nb_txq
check_nb_txq env txq = not (ltb (get_allowed_max_nb_txq env) txq)

pub get_allowed_max_nb_rxd : Devices → ℕ
unfolding lowest
get_allowed_max_nb_rxd env = lowest (limit env (λ i. i.rx_nb_max)) 65535 env.devs

pub get_allowed_min_nb_rxd : Devices → ℕ
unfolding highest
get_allowed_min_nb_rxd env = highest (limit env (λ i. i.rx_nb_min)) 0 env.devs

pub check_nb_rxd : Devices → ℕ → Bool
unfolding get_allowed_max_nb_rxd get_allowed_min_nb_rxd
check_nb_rxd env rxd =
    if ltb (get_allowed_max_nb_rxd env) rxd
    then false
    else not (ltb rxd (get_allowed_min_nb_rxd env))

pub get_allowed_max_nb_txd : Devices → ℕ
unfolding lowest
get_allowed_max_nb_txd env = lowest (limit env (λ i. i.tx_nb_max)) 65535 env.devs

pub get_allowed_min_nb_txd : Devices → ℕ
unfolding highest
get_allowed_min_nb_txd env = highest (limit env (λ i. i.tx_nb_min)) 0 env.devs

pub check_nb_txd : Devices → ℕ → Bool
unfolding get_allowed_max_nb_txd get_allowed_min_nb_txd
check_nb_txd env txd =
    if ltb (get_allowed_max_nb_txd env) txd
    then false
    else not (ltb txd (get_allowed_min_nb_txd env))

-- Here a port that does not answer ends the loop with 0.
unfoldable pub hairpin_limit : Devices → ℕ → List ℕ → ℕ
hairpin_limit env best [] = best
hairpin_limit env best (pi ∷ pis) = elim (env.hairpin pi) [
  | none ↦ 0
  | some n ↦ hairpin_limit env (if ltb n best then n else best) pis
]

unfoldable pub get_allowed_max_nb_hairpinq : Devices → ℕ
unfolding hairpin_limit
get_allowed_max_nb_hairpinq env = hairpin_limit env max_queues_per_port env.devs

unfoldable pub check_nb_hairpinq : Devices → ℕ → Bool
unfolding get_allowed_max_nb_hairpinq
check_nb_hairpinq env hairpinq = not (ltb (get_allowed_max_nb_hairpinq env) hairpinq)
