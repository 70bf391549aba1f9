-- ===== src/Select/Platform.antt =====
-- What DPDK answers, and the bits of a mask.
use udx_fastpath.Base.{
  ℕ, ◌/◌, ◌%◌, ◌<◌, ◌^◌, Bool, false, not, ◌||◌, List, [], ◌∷◌, ◌==◌, if◌then◌else◌,
}

-- `rte_lcore_is_enabled`, `rte_get_main_lcore`, the ports of `RTE_ETH_FOREACH_DEV` and
-- `rte_eth_dev_is_valid_port`.
pub record Platform : Type 0 where
  pub lcore_is_enabled : ℕ → Bool
  pub main_lcore : ℕ
  pub devs : List ℕ
  pub is_valid_port : ℕ → Bool

unfoldable pub contains : List ℕ → ℕ → Bool
contains [] a = false
contains (x ∷ xs) a = x == a || contains xs a

-- `mask & (1ULL << i)`, as a test.
abbrev pub test_bit : ℕ → ℕ → Bool
test_bit mask i = mask / 2 ^ i % 2 == 1

-- RTE_PORT_ALL
abbrev pub port_all : ℕ
port_all = 65535

-- `port_id_is_invalid`, 1 as `true`. The port that stands for all of them passes.
unfoldable pub port_id_is_invalid : Platform → ℕ → Bool
unfolding contains
port_id_is_invalid p port_id = if port_id == port_all then false else not (contains p.devs port_id)

-- The numbers of the list lie below `n`.
abbrev pub AllBelow : ℕ → List ℕ → Type 0
AllBelow n [] = Unit
AllBelow n (x ∷ xs) = (x < n) × AllBelow n xs
