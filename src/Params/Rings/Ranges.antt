-- ===== src/Params/Rings/Ranges.antt =====
-- The ranges that the ring options of lib/core/dpdk/parameters.c keep.
use udx_fastpath.Base.{
  ℕ, ◌≤◌, ◌<◌, ◌^◌, ◌≡◌, true, ◌&&◌, ◌||◌, Option, none, some, ltb, ◌==◌, on_if, Bool-cases, inl,
  inr, u16, arith,
}
use udx_fastpath.Limits.{Devices, DevInfo}
use udx_fastpath.Segs.{max_pkt_burst}
use udx_fastpath.Params.Text.{atoi, strtoul, unconverted, nonneg, positive}
use udx_fastpath.Params.Outcome.{next, OnNext, OnNext-accept, OnNext-eq}
use udx_fastpath.Params.Options.{
  RingOption, hairpin_mode, burst, flowgen_clones, flowgen_flows, mbcache, txfreet, txrst, rxd, txd,
  txpt, txht, txwt, rxpt, rxht, rxwt, rxfreet,
}
use udx_fastpath.Params.Rings.{
  Rings, mempool_cache_max_size, recommended, burst_option, thresh_ge, rxd_option,
  hairpin_mode_option, ring_option,
}

abbrev pub IsRings : Rings → Type 0
IsRings s =
    (0 < s.nb_flows_flowgen)
    × (s.mb_mempool_cache ≤ mempool_cache_max_size)
    × (s.nb_flows_flowgen < 2 ^ 31)
    × (s.nb_rxd < 2 ^ 16)
    × (s.nb_txd < 2 ^ 16)
    × (s.tx_free_thresh < 2 ^ 16)
    × (s.tx_rs_thresh < 2 ^ 16)
    × (s.rx_free_thresh < 2 ^ 16)
    × (s.nb_pkt_per_burst < 2 ^ 16)
    × (s.tx_pthresh < 2 ^ 8)
    × (s.tx_hthresh < 2 ^ 8)
    × (s.tx_wthresh < 2 ^ 8)
    × (s.rx_pthresh < 2 ^ 8)
    × (s.rx_hthresh < 2 ^ 8)
    × (s.rx_wthresh < 2 ^ 8)

-- Another burst size, and another number of receive descriptors.
with_burst : (n : ℕ) (s : Rings) → IsRings s → IsRings (record s { nb_pkt_per_burst = u16 n })
with_burst n s h = ground (arith, h)

with_rxd : (n : ℕ) (s : Rings) → IsRings s → IsRings (record s { nb_rxd = u16 n })
with_rxd n s h = ground (arith, h)

recommended-IsRings :
    (o : Option DevInfo) (s : Rings) → IsRings s → OnNext IsRings (recommended o s)
unfolding recommended
recommended-IsRings none s h = tt
recommended-IsRings (some i) s h =
    on_if (OnNext IsRings) (u16 i.burst_size == 0 || ltb max_pkt_burst (u16 i.burst_size)) tt
      (with_burst i.burst_size s h)

burst_option-IsRings :
    (env : Devices) (n : ℕ) (s : Rings) → IsRings s → OnNext IsRings (burst_option env n s)
unfolding burst_option
burst_option-IsRings env n s h =
    on_if (OnNext IsRings) (n == 0) (recommended-IsRings (env.info 0) s h)
      (on_if (OnNext IsRings) (ltb max_pkt_burst n && nonneg n) tt (with_burst n s h))

rxd_option-IsRings : (n : ℕ) (s : Rings) → IsRings s → OnNext IsRings (rxd_option n s)
unfolding rxd_option
rxd_option-IsRings n s h =
    on_if (OnNext IsRings) (positive n)
      (on_if (OnNext IsRings) (thresh_ge s.rx_free_thresh n) tt (with_rxd n s h)) tt

kept :
    (env : Devices) (o : RingOption) (s : Rings) → IsRings s → OnNext IsRings (ring_option env o s)
unfolding ring_option hairpin_mode_option
kept env (hairpin_mode a) s h =
    on_if (OnNext IsRings) ((strtoul 0 a).erange || unconverted a (strtoul 0 a)) tt h
kept env (burst a) s h = burst_option-IsRings env (atoi a) s h
kept env (rxd a) s h = rxd_option-IsRings (atoi a) s h
kept env (flowgen_clones a) s h = OnNext-accept IsRings _ _ (λ e. ground (arith, h, e))
kept env (flowgen_flows a) s h = OnNext-accept IsRings _ _ (λ e. ground (arith, h, e))
kept env (mbcache a) s h = OnNext-accept IsRings _ _ (λ e. ground (arith, h, e))
kept env (txfreet a) s h = OnNext-accept IsRings _ _ (λ e. ground (arith, h, e))
kept env (txrst a) s h = OnNext-accept IsRings _ _ (λ e. ground (arith, h, e))
kept env (txd a) s h = OnNext-accept IsRings _ _ (λ e. ground (arith, h, e))
kept env (txpt a) s h = OnNext-accept IsRings _ _ (λ e. ground (arith, h, e))
kept env (txht a) s h = OnNext-accept IsRings _ _ (λ e. ground (arith, h, e))
kept env (txwt a) s h = OnNext-accept IsRings _ _ (λ e. ground (arith, h, e))
kept env (rxpt a) s h = OnNext-accept IsRings _ _ (λ e. ground (arith, h, e))
kept env (rxht a) s h = OnNext-accept IsRings _ _ (λ e. ground (arith, h, e))
kept env (rxwt a) s h = OnNext-accept IsRings _ _ (λ e. ground (arith, h, e))
kept env (rxfreet a) s h = OnNext-accept IsRings _ _ (λ e. ground (arith, h, e))

pub ring_option-IsRings :
    (env : Devices) (o : RingOption) (s t : Rings)
    → IsRings s
    → ring_option env o s ≡ next t
    → IsRings t
ring_option-IsRings env o s t h e = OnNext-eq IsRings e (kept env o s h)

recommended-range :
    (o : Option DevInfo) (s : Rings)
    → OnNext
        (λ t. (0 < t.nb_pkt_per_burst) × (t.nb_pkt_per_burst ≤ max_pkt_burst))
        (recommended o s)
unfolding recommended
recommended-range none s = tt
recommended-range (some i) s =
    elim (Bool-cases (u16 i.burst_size == 0 || ltb max_pkt_burst (u16 i.burst_size))) [
      | inl e ↦ rw e tt
      | inr e ↦ rw e (ground (arith, e), ground (arith, e))
    ]

-- A burst size that is not negative and is accepted, the recommendation of the device included, is
-- between 1 and 512.
pub burst_option-range :
    (env : Devices) (n : ℕ) (s t : Rings)
    → nonneg n ≡ true
    → burst_option env n s ≡ next t
    → (0 < t.nb_pkt_per_burst) × (t.nb_pkt_per_burst ≤ max_pkt_burst)
unfolding burst_option
burst_option-range env n s t h e =
    let P : Rings → Type 0 = λ t. (0 < t.nb_pkt_per_burst) × (t.nb_pkt_per_burst ≤ max_pkt_burst) in
    OnNext-eq P e (elim (Bool-cases (n == 0)) [
      | inl z ↦ rw z (recommended-range (env.info 0) s)
      | inr nz ↦ elim (Bool-cases (ltb max_pkt_burst n)) [
        | inl big ↦ rw (nz, big, h) tt
        | inr small ↦ rw (nz, small) (ground (arith, nz, small), ground (arith, nz, small))
      ]
    ])
