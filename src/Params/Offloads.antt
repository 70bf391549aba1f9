-- ===== src/Params/Offloads.antt =====
-- lib/core/dpdk/parameters.c, `launch_args_parse`: the offloads and the RSS hash functions. A mask is
-- a native number.
use udx_fastpath.Base.{ℕ, Bool, true, u32}
use Prim.Native.Nat.{bit_or}
use udx_fastpath.Params.Options.{
  OffloadOption, disable_crc_strip, enable_lro, enable_scatter, enable_rx_cksum,
  enable_rx_timestamp, enable_hw_vlan, enable_hw_vlan_filter, enable_hw_vlan_strip,
  enable_hw_vlan_extend, enable_hw_qinq_strip, enable_drop_en, disable_rss, rss_ip, rss_udp,
  rss_level_inner, rss_level_outer, MaskOption, tx_offloads, rx_offloads,
}
use udx_fastpath.Params.Text.{strtoul, nonneg}
use udx_fastpath.Params.Outcome.{Outcome, accept}

pub record Offloads : Type 0 where
  pub rx_offloads : ℕ
  pub tx_offloads : ℕ
  pub rx_drop_en : Bool
  pub rss_hf : ℕ

-- The masks of rte_ethdev.h: RTE_ETH_RX_OFFLOAD_* and RTE_ETH_RSS_*.
pub record OffloadMasks : Type 0 where
  pub rx : OffloadOption → ℕ
  pub rss_ip_mask : ℕ
  pub rss_udp_mask : ℕ
  pub level_innermost : ℕ
  pub level_outermost : ℕ

pub with_rx_offload : OffloadMasks → OffloadOption → Offloads → Offloads
with_rx_offload masks o s = record s { rx_offloads = bit_or s.rx_offloads (masks.rx o) }

unfoldable pub offload_option : OffloadMasks → OffloadOption → Offloads → Offloads
unfolding with_rx_offload
offload_option masks enable_drop_en s = record s { rx_drop_en = true }
offload_option masks disable_rss s = record s { rss_hf = 0 }
offload_option masks rss_ip s = record s { rss_hf = masks.rss_ip_mask }
offload_option masks rss_udp s = record s { rss_hf = masks.rss_udp_mask }
offload_option masks rss_level_inner s = record s { rss_hf = bit_or s.rss_hf masks.level_innermost }
offload_option masks rss_level_outer s = record s { rss_hf = bit_or s.rss_hf masks.level_outermost }
offload_option masks disable_crc_strip s = with_rx_offload masks disable_crc_strip s
offload_option masks enable_lro s = with_rx_offload masks enable_lro s
offload_option masks enable_scatter s = with_rx_offload masks enable_scatter s
offload_option masks enable_rx_cksum s = with_rx_offload masks enable_rx_cksum s
offload_option masks enable_rx_timestamp s = with_rx_offload masks enable_rx_timestamp s
offload_option masks enable_hw_vlan s = with_rx_offload masks enable_hw_vlan s
offload_option masks enable_hw_vlan_filter s = with_rx_offload masks enable_hw_vlan_filter s
offload_option masks enable_hw_vlan_strip s = with_rx_offload masks enable_hw_vlan_strip s
offload_option masks enable_hw_vlan_extend s = with_rx_offload masks enable_hw_vlan_extend s
offload_option masks enable_hw_qinq_strip s = with_rx_offload masks enable_hw_qinq_strip s

-- The mask is converted to an `int`, and back to 64 bits.
unfoldable pub mask_option : MaskOption → Offloads → Outcome Offloads
unfolding strtoul
mask_option (tx_offloads a) s =
    accept (nonneg (u32 (strtoul 16 a).value)) (record s { tx_offloads = u32 (strtoul 16 a).value })
mask_option (rx_offloads a) s =
    accept (nonneg (u32 (strtoul 16 a).value)) (record s { rx_offloads = u32 (strtoul 16 a).value })
