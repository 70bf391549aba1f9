-- ===== src/Segs/Rings.antt =====
-- config.c, `get_rx_ring_size`, `get_tx_ring_size`, the checks of queues and descriptors, and
-- `nb_segs_is_invalid`. `none` is an access out of bounds.
use udx_fastpath.Base.{
  ℕ, zero, suc, Bool, true, false, not, Option, none, some, ◌>>=◌, List, [], ◌∷◌, get_elem?, ltb,
  ◌==◌, if◌then◌else◌,
}

-- The answer of `rte_eth_rx_queue_info_get` or `rte_eth_tx_queue_info_get`: the number of
-- descriptors, -ENOTSUP, or another error.
pub data QueueInfo : Type 0 where
  descs : ℕ → QueueInfo
  not_supported refused : QueueInfo

-- The ring sizes of `struct rte_port` and of its `dev_info`.
pub record RingPort : Type 0 where
  pub nb_rx_desc : List ℕ
  pub nb_tx_desc : List ℕ
  pub default_rx_ring : ℕ
  pub default_tx_ring : ℕ

-- DPDK: the answers for a port and a queue, RTE_ETH_DEV_FALLBACK_RX_RINGSIZE and _TX_RINGSIZE, and
-- the ports of `RTE_ETH_FOREACH_DEV`.
pub record RingEnv : Type 0 where
  pub rx_info : ℕ → ℕ → QueueInfo
  pub tx_info : ℕ → ℕ → QueueInfo
  pub fallback_rx : ℕ
  pub fallback_tx : ℕ
  pub devs : List ℕ

-- The size that is used where the driver cannot tell.
unfoldable pub stored_size : ℕ → ℕ → ℕ → ℕ
stored_size nb_desc default fallback =
    if not (nb_desc == 0) then nb_desc else (if not (default == 0) then default else fallback)

-- The inner `none` is an error.
unfoldable pub get_rx_ring_size : RingEnv → List RingPort → ℕ → ℕ → Option (Option ℕ)
get_rx_ring_size env ports port_id rxq_id = elim (env.rx_info port_id rxq_id) [
  | descs n ↦ some (some n)
  | refused ↦ some none
  | not_supported ↦ get_elem? ports port_id >>= λ port.
      get_elem? port.nb_rx_desc rxq_id >>= λ nb_desc.
      some (some (stored_size nb_desc port.default_rx_ring env.fallback_rx))
]

unfoldable pub get_tx_ring_size : RingEnv → List RingPort → ℕ → ℕ → Option (Option ℕ)
get_tx_ring_size env ports port_id txq_id = elim (env.tx_info port_id txq_id) [
  | descs n ↦ some (some n)
  | refused ↦ some none
  | not_supported ↦ get_elem? ports port_id >>= λ port.
      get_elem? port.nb_tx_desc txq_id >>= λ nb_desc.
      some (some (stored_size nb_desc port.default_tx_ring env.fallback_tx))
]

unfoldable pub rx_queue_id_is_invalid : ℕ → ℕ → Bool
rx_queue_id_is_invalid nb_rxq rxq_id = if ltb rxq_id nb_rxq then false else true

unfoldable pub tx_queue_id_is_invalid : ℕ → ℕ → Bool
tx_queue_id_is_invalid nb_txq txq_id = if ltb txq_id nb_txq then false else true

unfoldable pub desc_outside : ℕ → Option ℕ → Bool
desc_outside desc_id none = true
desc_outside desc_id (some ring_size) = if ltb desc_id ring_size then false else true

unfoldable pub rx_desc_id_is_invalid : RingEnv → List RingPort → ℕ → ℕ → ℕ → Option Bool
rx_desc_id_is_invalid env ports port_id rxq_id rxdesc_id =
    get_rx_ring_size env ports port_id rxq_id >>= λ size. some (desc_outside rxdesc_id size)

unfoldable pub tx_desc_id_is_invalid : RingEnv → List RingPort → ℕ → ℕ → ℕ → Option Bool
tx_desc_id_is_invalid env ports port_id txq_id txdesc_id =
    get_tx_ring_size env ports port_id txq_id >>= λ size. some (desc_outside txdesc_id size)

-- Whether a ring is known to be smaller than the number of segments.
unfoldable pub too_small : ℕ → Option ℕ → Bool
too_small nb_segs none = false
too_small nb_segs (some ring_size) = ltb ring_size nb_segs

-- The inner loop: `n` queues from `queue_id` on.
unfoldable pub queues_invalid : RingEnv → List RingPort → ℕ → ℕ → ℕ → ℕ → Option Bool
queues_invalid env ports nb_segs port_id zero queue_id = some false
queues_invalid env ports nb_segs port_id (suc n) queue_id = do
  size ← get_tx_ring_size env ports port_id queue_id
  let rest = queues_invalid env ports nb_segs port_id n (suc queue_id)
  if too_small nb_segs size then some true else rest

unfoldable pub devs_invalid : RingEnv → List RingPort → ℕ → ℕ → List ℕ → Option Bool
devs_invalid env ports nb_txq nb_segs [] = some false
devs_invalid env ports nb_txq nb_segs (port_id ∷ devs) = do
  found ← queues_invalid env ports nb_segs port_id nb_txq 0
  let rest = devs_invalid env ports nb_txq nb_segs devs
  if found then some true else rest

unfoldable pub nb_segs_is_invalid : RingEnv → List RingPort → ℕ → ℕ → Option Bool
nb_segs_is_invalid env ports nb_txq nb_segs = devs_invalid env ports nb_txq nb_segs env.devs
