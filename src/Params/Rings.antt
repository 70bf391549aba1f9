-- ===== src/Params/Rings.antt =====
-- lib/core/dpdk/parameters.c, `launch_args_parse`: the options on the burst size, the descriptors of
-- the rings and the thresholds. An `int` is its 32 bits, an `int16_t` its 16 and an `int8_t` its 8.
pub mod Ranges
use udx_fastpath.Base.{
  ℕ, ◌+◌, ◌*◌, ◌^◌, Bool, true, false, ◌&&◌, ◌||◌, not, Option, none, some, List, [], ◌∷◌, ltb, leb,
  ◌==◌, if◌then◌else◌, u8, u16, u32,
}
use udx_fastpath.Limits.{Devices, DevInfo}
use udx_fastpath.Segs.{max_pkt_burst}
use udx_fastpath.Params.Text.{Word, atoi, strtoul, unconverted, nonneg, positive}
use udx_fastpath.Params.Outcome.{Outcome, next, returned, exit_failure, accept}
use udx_fastpath.Params.Options.{
  RingOption, hairpin_mode, burst, flowgen_clones, flowgen_flows, mbcache, txfreet, txrst, rxd, txd,
  txpt, txht, txwt, rxpt, rxht, rxwt, rxfreet,
}

-- RTE_MEMPOOL_CACHE_MAX_SIZE
abbrev pub mempool_cache_max_size : ℕ
mempool_cache_max_size = 512

pub record Rings : Type 0 where
  pub hairpin_mode : ℕ
  pub nb_pkt_per_burst : ℕ
  pub nb_pkt_flowgen_clones : ℕ
  pub nb_flows_flowgen : ℕ
  pub mb_mempool_cache : ℕ
  pub nb_rxd : ℕ
  pub nb_txd : ℕ
  pub tx_free_thresh : ℕ
  pub tx_rs_thresh : ℕ
  pub rx_free_thresh : ℕ
  pub tx_pthresh : ℕ
  pub tx_hthresh : ℕ
  pub tx_wthresh : ℕ
  pub rx_pthresh : ℕ
  pub rx_hthresh : ℕ
  pub rx_wthresh : ℕ

-- The burst size that the device of port 0 recommends.
pub recommended : Option DevInfo → Rings → Outcome Rings
recommended none s = returned s
recommended (some info) s =
    if u16 info.burst_size == 0 || ltb max_pkt_burst (u16 info.burst_size)
    then exit_failure
    else next (record s { nb_pkt_per_burst = u16 info.burst_size })

-- `n > MAX_PKT_BURST` of an `int`.
unfoldable pub burst_option : Devices → ℕ → Rings → Outcome Rings
unfolding recommended
burst_option env n s =
    if n == 0
    then recommended (env.info 0) s
    else (if ltb max_pkt_burst n && nonneg n
        then exit_failure
        else next (record s { nb_pkt_per_burst = u16 n }))

-- `rx_free_thresh >= n`, for a positive `n`.
abbrev pub thresh_ge : ℕ → ℕ → Bool
thresh_ge rx_free_thresh n = ltb rx_free_thresh (2 ^ 15) && leb n rx_free_thresh

pub rxd_option : ℕ → Rings → Outcome Rings
rxd_option n s =
    if positive n
    then (if thresh_ge s.rx_free_thresh n then exit_failure else next (record s { nb_rxd = u16 n }))
    else exit_failure

pub hairpin_mode_option : List ℕ → Word → Rings → Outcome Rings
hairpin_mode_option optarg w s =
    if w.erange || unconverted optarg w
    then exit_failure
    else next (record s { hairpin_mode = u32 w.value })

unfoldable pub ring_option : Devices → RingOption → Rings → Outcome Rings
unfolding burst_option rxd_option hairpin_mode_option atoi strtoul
ring_option env (hairpin_mode a) s = hairpin_mode_option a (strtoul 0 a) s
ring_option env (burst a) s = burst_option env (atoi a) s
ring_option env (flowgen_clones a) s =
    accept (nonneg (atoi a)) (record s { nb_pkt_flowgen_clones = u16 (atoi a) })
ring_option env (flowgen_flows a) s =
    accept (positive (atoi a)) (record s { nb_flows_flowgen = atoi a })
ring_option env (mbcache a) s =
    accept (nonneg (atoi a) && leb (atoi a) mempool_cache_max_size)
      (record s { mb_mempool_cache = u16 (atoi a) })
ring_option env (txfreet a) s =
    accept (nonneg (atoi a)) (record s { tx_free_thresh = u16 (atoi a) })
ring_option env (txrst a) s = accept (nonneg (atoi a)) (record s { tx_rs_thresh = u16 (atoi a) })
ring_option env (rxd a) s = rxd_option (atoi a) s
ring_option env (txd a) s = accept (positive (atoi a)) (record s { nb_txd = u16 (atoi a) })
ring_option env (txpt a) s = accept (nonneg (atoi a)) (record s { tx_pthresh = u8 (atoi a) })
ring_option env (txht a) s = accept (nonneg (atoi a)) (record s { tx_hthresh = u8 (atoi a) })
ring_option env (txwt a) s = accept (nonneg (atoi a)) (record s { tx_wthresh = u8 (atoi a) })
ring_option env (rxpt a) s = accept (nonneg (atoi a)) (record s { rx_pthresh = u8 (atoi a) })
ring_option env (rxht a) s = accept (nonneg (atoi a)) (record s { rx_hthresh = u8 (atoi a) })
ring_option env (rxwt a) s = accept (nonneg (atoi a)) (record s { rx_wthresh = u8 (atoi a) })
ring_option env (rxfreet a) s =
    accept (nonneg (atoi a)) (record s { rx_free_thresh = u16 (atoi a) })
