-- ===== src/Conf.antt =====
-- dpdk.cpp, the configuration of a port and of its queues: `init_config_port_offloads`,
-- `rxtx_port_config`, `init_port_config` and `update_mtu_from_frame_size`. `none` is a call of
-- `rte_exit`, or an access past the end of an array; a mask is a native number.
pub mod Ports
pub mod Attach
use udx_fastpath.Base.{
  ℕ, zero, suc, ◌+◌, ◌-◌, ◌/◌, ◌^◌, Bool, true, false, ◌&&◌, ◌||◌, not, Option, none, some, ◌>>=◌,
  List, [], ◌∷◌, ltb, ◌==◌, if◌then◌else◌, get_elem?, set, store, u16, u32,
}
use Prim.Native.Nat.{bit_and}
use udx_fastpath.Params.Rings.{Rings}

-- `struct rte_eth_rxconf` and `struct rte_eth_txconf`.
pub record RxConf : Type 0 where
  pub offloads : ℕ
  pub share_group : ℕ
  pub share_qid : ℕ
  pub pthresh : ℕ
  pub hthresh : ℕ
  pub wthresh : ℕ
  pub rx_free_thresh : ℕ
  pub rx_drop_en : ℕ

pub record TxConf : Type 0 where
  pub offloads : ℕ
  pub pthresh : ℕ
  pub hthresh : ℕ
  pub wthresh : ℕ
  pub tx_rs_thresh : ℕ
  pub tx_free_thresh : ℕ

-- `struct rte_eth_dev_info`; the flags are RTE_ETH_DEV_CAPA_RXQ_SHARE,
-- RTE_ETH_TX_OFFLOAD_MBUF_FAST_FREE, RTE_ETH_DEV_INTR_LSC and RTE_ETH_DEV_INTR_RMV.
pub record ConfInfo : Type 0 where
  pub default_rxconf : RxConf
  pub default_txconf : TxConf
  pub rxq_share_capable : Bool
  pub fast_free : Bool
  pub intr_lsc : Bool
  pub intr_rmv : Bool
  pub max_rx_queues : ℕ
  pub max_tx_queues : ℕ
  pub nb_rx_queues : ℕ
  pub max_mtu : ℕ
  pub max_rx_pktlen : ℕ
  pub flow_type_rss_offloads : ℕ
  pub nb_mtu_seg_max : ℕ

-- `struct rte_eth_rxmode`.
pub record RxMode : Type 0 where
  pub mq_mode : ℕ
  pub mtu : ℕ
  pub offloads : ℕ

-- The fields of `struct rte_port` that these functions write.
pub record ConfPort : Type 0 where
  pub rxmode : RxMode
  pub tx_offloads : ℕ
  pub link_speeds : ℕ
  pub rss_hf : ℕ
  pub lsc : Bool
  pub rmv : Bool
  pub dcb_flag : Bool
  pub need_reconfig : Bool
  pub need_reconfig_queues : Bool
  pub socket_id : ℕ
  pub rxq : List RxConf
  pub txq : List TxConf
  pub nb_rx_desc : List ℕ
  pub nb_tx_desc : List ℕ

-- The globals.
pub record ConfGlobals : Type 0 where
  pub rings : Rings
  pub rx_drop_en : ℕ
  pub rx_mode : RxMode
  pub tx_mode_offloads : ℕ
  pub rss_hf : ℕ
  pub rx_mq_mode : ℕ
  pub rxq_share : ℕ
  pub nb_rxq : ℕ
  pub nb_txq : ℕ
  pub eth_link_speed : ℕ
  pub max_rx_pkt_len : ℕ
  pub lsc_interrupt : Bool
  pub rmv_interrupt : Bool
  pub primary : Bool

-- DPDK's answers and numbers: RTE_PKTMBUF_HEADROOM, and the complements of
-- RTE_ETH_TX_OFFLOAD_MBUF_FAST_FREE and RTE_ETH_RX_OFFLOAD_RSS_HASH. `negotiates` is whether
-- `rte_eth_rx_metadata_negotiate` succeeds or is not supported.
pub record ConfEnv : Type 0 where
  pub devs : List ℕ
  pub info : ℕ → Option ConfInfo
  pub negotiates : ℕ → Bool
  pub get_mtu : ℕ → Option ℕ
  pub set_mtu : ℕ → ℕ → Bool
  pub macaddr : ℕ → Bool
  pub headroom : ℕ
  pub not_fast_free : ℕ
  pub not_rss_hash : ℕ

pub get_eth_overhead : ConfInfo → ℕ
get_eth_overhead i =
    if not (i.max_mtu == 65535) && ltb i.max_mtu i.max_rx_pktlen
    then i.max_rx_pktlen - i.max_mtu
    else 18

-- The loops over the first `n` queues.
abbrev pub rx_offloads_at : (ℕ → ℕ) → ℕ → List RxConf → List RxConf
rx_offloads_at f zero qs = qs
rx_offloads_at f (suc n) [] = []
rx_offloads_at f (suc n) (q ∷ qs) = record q { offloads = f q.offloads } ∷ rx_offloads_at f n qs

abbrev pub tx_offloads_at : (ℕ → ℕ) → ℕ → List TxConf → List TxConf
tx_offloads_at f zero qs = qs
tx_offloads_at f (suc n) [] = []
tx_offloads_at f (suc n) (q ∷ qs) = record q { offloads = f q.offloads } ∷ tx_offloads_at f n qs

-- The size of the first buffer, where a packet must fit a number of segments.
pub first_buffer : ConfEnv → ConfInfo → Option ℕ → ℕ → ℕ
unfolding get_eth_overhead
first_buffer env i none size = size
first_buffer env i (some mtu) size =
    let data_size = u16 (u32 (mtu + get_eth_overhead i) / i.nb_mtu_seg_max) in
    let buffer_size = u16 (data_size + env.headroom) in
    if i.nb_mtu_seg_max == 65535 || i.nb_mtu_seg_max == 0
    then size
    else (if ltb size buffer_size then buffer_size else size)

-- The port with its offloads, MTU, link speed and flags.
pub with_offloads : ConfGlobals → ConfEnv → ConfInfo → ℕ → ConfPort → ConfPort
unfolding get_eth_overhead
with_offloads g env i socket_id p =
    let tx =
      if i.fast_free then g.tx_mode_offloads else bit_and g.tx_mode_offloads env.not_fast_free in
    let mode =
      if g.max_rx_pkt_len == 0
      then g.rx_mode
      else record (g.rx_mode) { mtu = u32 (g.max_rx_pkt_len + 2 ^ 32 - get_eth_overhead i) } in
    record p {
      rxmode = mode;
      tx_offloads = tx;
      rxq = rx_offloads_at (λ o. g.rx_mode.offloads) i.max_rx_queues p.rxq;
      txq = tx_offloads_at (λ o. tx) i.max_tx_queues p.txq;
      link_speeds = if g.eth_link_speed == 0 then p.link_speeds else g.eth_link_speed;
      need_reconfig = true;
      need_reconfig_queues = true;
      socket_id = socket_id;
    }

-- The port, and the size of the first buffer.
pub init_config_port_offloads : ConfGlobals → ConfEnv → ℕ → ℕ → ConfPort × ℕ → Option (ConfPort × ℕ)
unfolding with_offloads first_buffer
init_config_port_offloads g env pid socket_id (p, size) = elim (env.info pid) [
  | none ↦ none
  | some i ↦
      if env.negotiates pid
      then some (with_offloads g env i socket_id p, first_buffer env i (env.get_mtu pid) size)
      else none
]

-- A parameter that is passed: RTE_PMD_PARAM_UNSET is -1, of 8 or of 16 bits.
abbrev pub passed8 : ℕ → ℕ → ℕ
passed8 given default = if given == 255 then default else given

abbrev pub passed16 : ℕ → ℕ → ℕ
passed16 given default = if given == 65535 then default else given

abbrev pub kept_offloads : ℕ → ℕ → ℕ
kept_offloads old default = if old == 0 then default else old

pub rx_conf : ConfGlobals → ConfInfo → ℕ → ℕ → RxConf → RxConf
rx_conf g i pid qid q =
    let d = i.default_rxconf in
    let shared = ltb 0 g.rxq_share && i.rxq_share_capable in
    record {
      offloads = kept_offloads q.offloads d.offloads;
      share_group = if shared then u16 (pid / g.rxq_share + 1) else d.share_group;
      share_qid = if shared then qid else d.share_qid;
      pthresh = passed8 g.rings.rx_pthresh d.pthresh;
      hthresh = passed8 g.rings.rx_hthresh d.hthresh;
      wthresh = passed8 g.rings.rx_wthresh d.wthresh;
      rx_free_thresh = passed16 g.rings.rx_free_thresh d.rx_free_thresh;
      rx_drop_en = passed8 g.rx_drop_en d.rx_drop_en;
    }

pub tx_conf : ConfGlobals → ConfInfo → TxConf → TxConf
tx_conf g i q =
    let d = i.default_txconf in
    record {
      offloads = kept_offloads q.offloads d.offloads;
      pthresh = passed8 g.rings.tx_pthresh d.pthresh;
      hthresh = passed8 g.rings.tx_hthresh d.hthresh;
      wthresh = passed8 g.rings.tx_wthresh d.wthresh;
      tx_rs_thresh = passed16 g.rings.tx_rs_thresh d.tx_rs_thresh;
      tx_free_thresh = passed16 g.rings.tx_free_thresh d.tx_free_thresh;
    }
