-- ===== src/Params/Segments.antt =====
-- lib/core/dpdk/parameters.c, `launch_args_parse`: the options on the segments of packets.
use udx_fastpath.Base.{ℕ, false, Option, none, some, List, ◌==◌, if◌then◌else◌, take, replicate}
use udx_fastpath.Segs.{
  State, max_segs_buffer_split, max_segs_per_pkt, set_rx_pkt_offsets, set_rx_pkt_segments,
  set_rx_pkt_hdrs, set_tx_pkt_segments,
}
use udx_fastpath.Segs.Rings.{RingEnv, RingPort}
use udx_fastpath.Params.Items.{parse_item_list}
use udx_fastpath.Params.Headers.{PtypeMasks, parse_hdrs_list}
use udx_fastpath.Params.Outcome.{Outcome, next, exit_failure, fault}
use udx_fastpath.Params.Options.{SegmentOption, rxoffs, rxpkts, rxhdrs, txpkts}

pub record SegmentEnv : Type 0 where
  pub rings : RingEnv
  pub ports : List RingPort
  pub ptypes : PtypeMasks

pub segments_set : Option State → Outcome State
segments_set none = fault
segments_set (some s) = next s

-- An accepted list goes to the setter.
pub with_items : (List ℕ → State → Option State) → Option (ℕ × List ℕ) → State → Outcome State
unfolding segments_set
with_items setter none s = exit_failure
with_items setter (some (n, items)) s = segments_set (setter (take n items) s)

pub with_headers : Option (ℕ × List ℕ) → State → Outcome State
unfolding segments_set
with_headers none s = fault
with_headers (some (n, items)) s =
    if n == 0 then exit_failure else segments_set (set_rx_pkt_hdrs (take n items) s)

unfoldable pub segment_option : SegmentEnv → SegmentOption → State → Outcome State
unfolding with_items with_headers
segment_option env (rxoffs a) s =
    with_items set_rx_pkt_offsets
      (parse_item_list a max_segs_buffer_split (replicate max_segs_buffer_split 0) false) s
segment_option env (rxpkts a) s =
    with_items set_rx_pkt_segments
      (parse_item_list a max_segs_buffer_split (replicate max_segs_buffer_split 0) false) s
segment_option env (rxhdrs a) s =
    with_headers (parse_hdrs_list env.ptypes a (replicate max_segs_buffer_split 0)) s
segment_option env (txpkts a) s =
    with_items (set_tx_pkt_segments env.rings env.ports)
      (parse_item_list a max_segs_per_pkt (replicate max_segs_per_pkt 0) false) s
