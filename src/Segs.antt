-- ===== src/Segs.antt =====
-- lib/core/dpdk/config.c, the lengths of packet segments: `set_rx_pkt_offsets`, `set_rx_pkt_hdrs`,
-- `set_rx_pkt_segments`, `set_tx_pkt_segments` and `set_nb_pkt_per_burst`. `none` is a write out of
-- bounds. An array argument with its length is a list.
pub mod Rings
pub mod Accepted
pub mod Room
use udx_fastpath.Base.{
  ℕ, zero, suc, ◌+◌, Bool, true, false, not, ◌&&◌, Option, none, some, ◌>>=◌, List, [], ◌∷◌, ltb,
  leb, if◌then◌else◌, length, store, map, replicate, u8, u16, u32, uint16_max,
}
use udx_fastpath.Segs.Rings.{RingPort, RingEnv, nb_segs_is_invalid}

-- MAX_SEGS_BUFFER_SPLIT, RTE_MAX_SEGS_PER_PKT, MAX_PKT_BURST, and an Ethernet, an IP and a UDP header.
abbrev pub max_segs_buffer_split : ℕ
max_segs_buffer_split = 8

abbrev pub max_segs_per_pkt : ℕ
max_segs_per_pkt = 255

abbrev pub max_pkt_burst : ℕ
max_pkt_burst = 512

abbrev pub min_pkt_len : ℕ
min_pkt_len = 42

-- The globals, with the first entry of `mbuf_data_size`.
pub record State : Type 0 where
  pub nb_txq : ℕ
  pub mbuf_data_size : ℕ
  pub rx_pkt_seg_offsets : List ℕ
  pub rx_pkt_nb_offs : ℕ
  pub rx_pkt_hdr_protos : List ℕ
  pub rx_pkt_seg_lengths : List ℕ
  pub rx_pkt_nb_segs : ℕ
  pub tx_pkt_seg_lengths : List ℕ
  pub tx_pkt_length : ℕ
  pub tx_pkt_nb_segs : ℕ
  pub nb_pkt_per_burst : ℕ

-- The copying loops, from position `i` on.
pub copy_from : ℕ → List ℕ → List ℕ → Option (List ℕ)
copy_from i [] out = some out
copy_from i (v ∷ values) out = do out' ← store out i v; copy_from (suc i) values out'

-- The checking loop of the receive setters.
pub all_words : List ℕ → Bool
all_words [] = true
all_words (v ∷ values) = let rest = all_words values in if leb uint16_max v then false else rest

pub set_rx_pkt_offsets : List ℕ → State → Option State
unfolding copy_from all_words
set_rx_pkt_offsets seg_offsets s =
    let copied = copy_from 0 (map u16 seg_offsets) s.rx_pkt_seg_offsets in
    if leb max_segs_buffer_split (length seg_offsets)
    then some s
    else (if not (all_words seg_offsets)
        then some s
        else (copied >>= λ offsets.
            some (record s {
              rx_pkt_seg_offsets = offsets;
              rx_pkt_nb_offs = u8 (length seg_offsets);
            })))

pub set_rx_pkt_hdrs : List ℕ → State → Option State
unfolding copy_from
set_rx_pkt_hdrs seg_hdrs s =
    let cleared = replicate (length s.rx_pkt_hdr_protos) 0 in
    let copied = copy_from 0 (map u32 seg_hdrs) cleared in
    if ltb max_segs_buffer_split (u32 (length seg_hdrs + 1))
    then some s
    else (copied >>= λ protos.
        some (record s { rx_pkt_hdr_protos = protos; rx_pkt_nb_segs = u8 (length seg_hdrs + 1) }))

pub set_rx_pkt_segments : List ℕ → State → Option State
unfolding copy_from all_words
set_rx_pkt_segments seg_lengths s =
    let copied = copy_from 0 (map u16 seg_lengths) s.rx_pkt_seg_lengths in
    if leb max_segs_buffer_split (length seg_lengths)
    then some s
    else (if not (all_words seg_lengths)
        then some s
        else (copied >>= λ lengths.
            some (record s {
              rx_pkt_seg_lengths = lengths;
              rx_pkt_nb_segs = u8 (length seg_lengths);
            })))

-- The checking loop of the transmit setter, with the length so far; `none` is the return.
pub total_len : ℕ → ℕ → List ℕ → Option ℕ
total_len data_size len [] = some len
total_len data_size len (v ∷ values) =
    let rest = total_len data_size (u16 (len + v)) values in if ltb data_size v then none else rest

-- The part below the checks of the number of segments.
pub store_tx_segments : List ℕ → State → Option ℕ → Option State
store_tx_segments seg_lengths s none = some s
store_tx_segments seg_lengths s (some tx_pkt_len) =
    let copied = copy_from 0 (map u16 seg_lengths) s.tx_pkt_seg_lengths in
    if ltb tx_pkt_len min_pkt_len
    then some s
    else (copied >>= λ lengths. some (record s {
      tx_pkt_seg_lengths = lengths;
      tx_pkt_length = tx_pkt_len;
      tx_pkt_nb_segs = u8 (length seg_lengths);
    }))

pub set_tx_pkt_segments : RingEnv → List RingPort → List ℕ → State → Option State
set_tx_pkt_segments env ports seg_lengths s =
    let nb_segs = length seg_lengths in
    let stored = store_tx_segments seg_lengths s (total_len s.mbuf_data_size 0 seg_lengths) in
    let checked = if ltb max_segs_per_pkt nb_segs then some s else stored in
    if ltb 1 nb_segs
    then (nb_segs_is_invalid env ports s.nb_txq nb_segs >>= λ invalid.
        if invalid then some s else checked)
    else checked

unfoldable pub set_nb_pkt_per_burst : ℕ → State → State
set_nb_pkt_per_burst nb s = if ltb max_pkt_burst nb then s else record s { nb_pkt_per_burst = nb }
