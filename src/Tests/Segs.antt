-- ===== src/Tests/Segs.antt =====
-- One port whose transmit ring has four descriptors: config.c, the lengths of packet segments.
use udx_fastpath.Base.{zero, suc, ◌≡◌, refl, List, [], ◌∷◌, some, arith, replicate}
use udx_fastpath.Segs.Rings.{RingPort, RingEnv, descs, not_supported, stored_size, get_tx_ring_size}
use udx_fastpath.Segs.{State, set_tx_pkt_segments}
use udx_fastpath.Select.Platform.{contains}
use udx_fastpath.Segs.Room.{Readable}
use udx_fastpath.Segs.Accepted.Decided.{Acceptable, set_tx_pkt_segments_lem}

abbrev pub one_port : List RingPort
one_port =
    record { nb_rx_desc = 0 ∷ []; nb_tx_desc = 4 ∷ []; default_rx_ring = 0; default_tx_ring = 0 }
    ∷ []

-- The driver does not tell the sizes of its transmit rings.
abbrev pub silent : RingEnv
silent = record {
  rx_info = λ p q. descs 64;
  tx_info = λ p q. not_supported;
  fallback_rx = 512;
  fallback_tx = 512;
  devs = 0 ∷ [];
}

abbrev pub start : State
start = record {
  nb_txq = 1;
  mbuf_data_size = 2048;
  rx_pkt_seg_offsets = replicate 8 0;
  rx_pkt_nb_offs = 0;
  rx_pkt_hdr_protos = replicate 8 0;
  rx_pkt_seg_lengths = replicate 8 0;
  rx_pkt_nb_segs = 0;
  tx_pkt_seg_lengths = replicate 255 0;
  tx_pkt_length = 0;
  tx_pkt_nb_segs = 0;
  nb_pkt_per_burst = 32;
}

ring_of_four : get_tx_ring_size silent one_port 0 0 ≡ some (some 4)
unfolding get_tx_ring_size stored_size
ring_of_four = refl

one_port-Readable : Readable silent one_port 1
unfolding contains
one_port-Readable zero zero has lt = (some 4, ring_of_four)
one_port-Readable zero (suc q) has lt = absurd (omega arith)
one_port-Readable (suc p) q has lt = absurd (ground (arith, has))

set_tx_pkt_segments_lem_example :
    (Acceptable silent one_port (64 ∷ 100 ∷ []) start
      → set_tx_pkt_segments silent one_port (64 ∷ 100 ∷ []) start
        ≡ some (record start {
          tx_pkt_seg_lengths = 64 ∷ 100 ∷ replicate 253 0;
          tx_pkt_length = 164;
          tx_pkt_nb_segs = 2;
        }))
    × (¬ Acceptable silent one_port (64 ∷ 100 ∷ []) start
        → set_tx_pkt_segments silent one_port (64 ∷ 100 ∷ []) start ≡ some start)
set_tx_pkt_segments_lem_example =
    set_tx_pkt_segments_lem silent one_port (64 ∷ 100 ∷ []) start refl (omega arith)
      one_port-Readable
