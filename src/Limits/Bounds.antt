-- ===== src/Limits/Bounds.antt =====
-- The limits of dpdk.cpp against a reading that looks at each port by itself.
use udx_fastpath.Base.{
  ℕ, ◌≡◌, refl, Bool, true, ◌&&◌, Option, none, some, List, [], ◌∷◌, arith, ltb, leb, if◌then◌else◌,
}
use udx_fastpath.Limits.{
  Devices, lowest, highest, any_valid, limit, max_queues_per_port, get_allowed_max_nb_rxq,
  check_nb_rxq, get_allowed_max_nb_txq, check_nb_txq, get_allowed_max_nb_rxd,
  get_allowed_min_nb_rxd, check_nb_rxd, get_allowed_max_nb_txd, get_allowed_min_nb_txd,
  check_nb_txd, hairpin_limit, get_allowed_max_nb_hairpinq, check_nb_hairpinq,
}

-- A number is within the limit of a port that answers.
abbrev pub at_most : Option ℕ → ℕ → Bool
at_most none n = true
at_most (some m) n = leb n m

abbrev pub at_least : Option ℕ → ℕ → Bool
at_least none n = true
at_least (some m) n = leb m n

abbrev pub every : (ℕ → Bool) → List ℕ → Bool
every f [] = true
every f (x ∷ xs) = f x && every f xs

lowest-every :
    (l : ℕ → Option ℕ) (best : ℕ) (pis : List ℕ) (n : ℕ)
    → leb n (lowest l best pis) ≡ (leb n best && every (λ pi. at_most (l pi) n) pis)
unfolding lowest
lowest-every l best [] n = ground arith
lowest-every l best (pi ∷ pis) n =
    elim (l pi)
      as (λ o.
        leb n (elim o [
          | none ↦ lowest l best pis
          | some m ↦ lowest l (if ltb m best then m else best) pis
        ])
        ≡ (leb n best && (at_most o n && every (λ pi. at_most (l pi) n) pis))) [
          | none ↦ lowest-every l best pis n
          | some m ↦ ground (arith, lowest-every l m pis n, lowest-every l best pis n)
        ]

highest-every :
    (l : ℕ → Option ℕ) (best : ℕ) (pis : List ℕ) (n : ℕ)
    → leb (highest l best pis) n ≡ (leb best n && every (λ pi. at_least (l pi) n) pis)
unfolding highest
highest-every l best [] n = ground arith
highest-every l best (pi ∷ pis) n =
    elim (l pi)
      as (λ o.
        leb
          (elim o [
            | none ↦ highest l best pis
            | some m ↦ highest l (if ltb best m then m else best) pis
          ])
          n
        ≡ (leb best n && (at_least o n && every (λ pi. at_least (l pi) n) pis))) [
          | none ↦ highest-every l best pis n
          | some m ↦ ground (arith, highest-every l m pis n, highest-every l best pis n)
        ]

pub check_nb_rxq_lem :
    (env : Devices) (rxq : ℕ)
    → check_nb_rxq env rxq ≡ (
        if any_valid (limit env (λ i. i.max_rx_queues)) env.devs
        then leb rxq max_queues_per_port
          && every (λ pi. at_most (limit env (λ i. i.max_rx_queues) pi) rxq) env.devs
        else leb rxq 0)
unfolding check_nb_rxq get_allowed_max_nb_rxq
check_nb_rxq_lem env rxq =
    ground (arith, lowest-every (limit env (λ i. i.max_rx_queues)) max_queues_per_port env.devs rxq)

pub check_nb_txq_lem :
    (env : Devices) (txq : ℕ)
    → check_nb_txq env txq ≡ (
        if any_valid (limit env (λ i. i.max_tx_queues)) env.devs
        then leb txq max_queues_per_port
          && every (λ pi. at_most (limit env (λ i. i.max_tx_queues) pi) txq) env.devs
        else leb txq 0)
unfolding check_nb_txq get_allowed_max_nb_txq
check_nb_txq_lem env txq =
    ground (arith, lowest-every (limit env (λ i. i.max_tx_queues)) max_queues_per_port env.devs txq)

-- The check of a number of receive descriptors against the lowest maximum and the highest minimum
-- is the same as a check against the limits of each device that answers, and against 65535.
pub check_nb_rxd_lem :
    (env : Devices) (rxd : ℕ)
    → check_nb_rxd env rxd ≡ (
        (leb rxd 65535 && every (λ pi. at_most (limit env (λ i. i.rx_nb_max) pi) rxd) env.devs)
        && every (λ pi. at_least (limit env (λ i. i.rx_nb_min) pi) rxd) env.devs)
unfolding check_nb_rxd get_allowed_max_nb_rxd get_allowed_min_nb_rxd
check_nb_rxd_lem env rxd = ground (
  arith,
  lowest-every (limit env (λ i. i.rx_nb_max)) 65535 env.devs rxd,
  highest-every (limit env (λ i. i.rx_nb_min)) 0 env.devs rxd,
)

pub check_nb_txd_lem :
    (env : Devices) (txd : ℕ)
    → check_nb_txd env txd ≡ (
        (leb txd 65535 && every (λ pi. at_most (limit env (λ i. i.tx_nb_max) pi) txd) env.devs)
        && every (λ pi. at_least (limit env (λ i. i.tx_nb_min) pi) txd) env.devs)
unfolding check_nb_txd get_allowed_max_nb_txd get_allowed_min_nb_txd
check_nb_txd_lem env txd = ground (
  arith,
  lowest-every (limit env (λ i. i.tx_nb_max)) 65535 env.devs txd,
  highest-every (limit env (λ i. i.tx_nb_min)) 0 env.devs txd,
)

-- A port without the capability allows no hairpin queue.
abbrev pub hairpin_within : Option ℕ → ℕ → Bool
hairpin_within none n = leb n 0
hairpin_within (some m) n = leb n m

zero-every :
    (env : Devices) (pis : List ℕ) → every (λ pi. hairpin_within (env.hairpin pi) 0) pis ≡ true
zero-every env [] = refl
zero-every env (pi ∷ pis) = ground (arith, zero-every env pis)

hairpin_limit-every :
    (env : Devices) (best : ℕ) (pis : List ℕ) (n : ℕ)
    → leb n (hairpin_limit env best pis)
      ≡ (leb n best && every (λ pi. hairpin_within (env.hairpin pi) n) pis)
unfolding hairpin_limit
hairpin_limit-every env best [] n = ground arith
hairpin_limit-every env best (pi ∷ pis) n =
    elim (env.hairpin pi)
      as (λ o.
        leb n
          (elim o [ none ↦ 0 | some m ↦ hairpin_limit env (if ltb m best then m else best) pis ])
        ≡ (leb n best
            && (hairpin_within o n && every (λ pi. hairpin_within (env.hairpin pi) n) pis))) [
              | none ↦ ground (arith, zero-every env pis)
              | some m ↦
                  ground
                    (arith, hairpin_limit-every env m pis n, hairpin_limit-every env best pis n)
            ]

pub check_nb_hairpinq_lem :
    (env : Devices) (n : ℕ)
    → check_nb_hairpinq env n
      ≡ (leb n max_queues_per_port && every (λ pi. hairpin_within (env.hairpin pi) n) env.devs)
unfolding check_nb_hairpinq get_allowed_max_nb_hairpinq
check_nb_hairpinq_lem env n = ground (arith, hairpin_limit-every env max_queues_per_port env.devs n)
