-- ===== src/Segs/Accepted.antt =====
-- When the setters of segment lengths take what they are given, and what they store.
pub mod Decided
use udx_fastpath.Base.{
  ℕ, zero, suc, ◌+◌, ◌≤◌, ◌<◌, ◌≡◌, refl, ap, ◌∙◌, Bool, true, false, not, ◌&&◌, none, some, List,
  [], ◌∷◌, ltb, leb, if◌then◌else◌, length, map, length-map, replicate, overwrite, set, u16, u32,
  arith, Option-cases, inl, inr, get_elem?,
}
use mathlib.Core.Option
use udx_fastpath.Segs.Rings.{RingPort, RingEnv, nb_segs_is_invalid}
use udx_fastpath.Segs.{
  State, copy_from, all_words, set_rx_pkt_offsets, set_rx_pkt_hdrs, set_rx_pkt_segments, total_len,
  store_tx_segments, set_tx_pkt_segments, max_segs_buffer_split, max_segs_per_pkt, min_pkt_len,
}

copy_from-cons :
    (i x : ℕ) (values out : List ℕ)
    → copy_from (suc i) values (x ∷ out) ≡ Option.map (λ t. x ∷ t) (copy_from i values out)
unfolding copy_from
copy_from-cons i x [] out = refl
copy_from-cons i x (v ∷ values) out = elim (Option-cases (get_elem? out i)) [
  | inl outside ↦ ground arith
  | inr (old, e) ↦ ground (arith, copy_from-cons (suc i) x values (set out i v))
]

copy_from_lem :
    (values out : List ℕ)
    → length values ≤ length out
    → copy_from 0 values out ≡ some (overwrite out values)
unfolding copy_from
copy_from_lem [] [] h = refl
copy_from_lem [] (x ∷ out) h = refl
copy_from_lem (v ∷ values) [] h = absurd (omega arith)
copy_from_lem (v ∷ values) (x ∷ out) h =
    ground (arith, copy_from-cons 0 v values out, copy_from_lem values out)

map-u16_words : (values : List ℕ) → all_words values ≡ true → map u16 values ≡ values
unfolding all_words
map-u16_words [] h = refl
map-u16_words (v ∷ values) h = ground (arith, map-u16_words values)

-- With an array of the full size, the offsets are stored if there are fewer than 8 and each is
-- below 65535; otherwise nothing changes.
pub set_rx_pkt_offsets_lem :
    (seg_offsets : List ℕ) (s : State)
    → length s.rx_pkt_seg_offsets ≡ max_segs_buffer_split
    → set_rx_pkt_offsets seg_offsets s
      ≡ some (
          if ltb (length seg_offsets) max_segs_buffer_split && all_words seg_offsets
          then record s {
            rx_pkt_seg_offsets = overwrite s.rx_pkt_seg_offsets seg_offsets;
            rx_pkt_nb_offs = length seg_offsets;
          }
          else s)
unfolding set_rx_pkt_offsets
set_rx_pkt_offsets_lem seg_offsets s h =
    ground (arith, map-u16_words seg_offsets, copy_from_lem seg_offsets s.rx_pkt_seg_offsets)

-- With an array of the full size, the receive lengths are stored if there are fewer than 8 and each
-- is below 65535; otherwise nothing changes.
pub set_rx_pkt_segments_lem :
    (seg_lengths : List ℕ) (s : State)
    → length s.rx_pkt_seg_lengths ≡ max_segs_buffer_split
    → set_rx_pkt_segments seg_lengths s
      ≡ some (
          if ltb (length seg_lengths) max_segs_buffer_split && all_words seg_lengths
          then record s {
            rx_pkt_seg_lengths = overwrite s.rx_pkt_seg_lengths seg_lengths;
            rx_pkt_nb_segs = length seg_lengths;
          }
          else s)
unfolding set_rx_pkt_segments
set_rx_pkt_segments_lem seg_lengths s h =
    ground (arith, map-u16_words seg_lengths, copy_from_lem seg_lengths s.rx_pkt_seg_lengths)

-- The sum of the lengths.
abbrev pub sum : List ℕ → ℕ
sum [] = 0
sum (v ∷ values) = v + sum values

abbrev pub all_at_most : ℕ → List ℕ → Bool
all_at_most n [] = true
all_at_most n (v ∷ values) = leb v n && all_at_most n values

total_len_lem :
    (data_size len : ℕ) (values : List ℕ)
    → len < 65536
    → total_len data_size len values
      ≡ (if all_at_most data_size values then some (u16 (len + sum values)) else none)
unfolding total_len
total_len_lem data_size len [] h = ap some (omega arith)
total_len_lem data_size len (v ∷ values) h =
    let same : u16 (u16 (len + v) + sum values) ≡ u16 (len + (v + sum values)) = omega arith in
    ground (arith, same, total_len_lem data_size (u16 (len + v)) values (omega arith))

map-u16_at_most :
    (n : ℕ) (values : List ℕ) → n < 65536 → all_at_most n values ≡ true → map u16 values ≡ values
map-u16_at_most n [] w h = refl
map-u16_at_most n (v ∷ values) w h = ground (arith, map-u16_at_most n values w)

-- With an array of the full size and fewer than 2^32 - 1 headers, the headers are stored over zeros
-- if there are at most 7, and count one segment more; otherwise nothing changes.
pub set_rx_pkt_hdrs_lem :
    (seg_hdrs : List ℕ) (s : State)
    → length s.rx_pkt_hdr_protos ≡ max_segs_buffer_split
    → length seg_hdrs < 4294967295
    → set_rx_pkt_hdrs seg_hdrs s
      ≡ some (
          if ltb (length seg_hdrs) max_segs_buffer_split
          then record s {
            rx_pkt_hdr_protos = overwrite (replicate max_segs_buffer_split 0) (map u32 seg_hdrs);
            rx_pkt_nb_segs = suc (length seg_hdrs);
          }
          else s)
unfolding set_rx_pkt_hdrs
set_rx_pkt_hdrs_lem seg_hdrs s h few = rw h (
    ground (
      arith,
      length-map u32 seg_hdrs,
      copy_from_lem (map u32 seg_hdrs) (replicate max_segs_buffer_split 0),
    ))

-- What `set_tx_pkt_segments` takes, `invalid` being the result of the check of the rings.
abbrev pub tx_accepts : Bool → State → List ℕ → Bool
tx_accepts invalid s seg_lengths =
    not (ltb 1 (length seg_lengths) && invalid)
    && (leb (length seg_lengths) max_segs_per_pkt
        && (all_at_most s.mbuf_data_size seg_lengths && leb min_pkt_len (u16 (sum seg_lengths))))

store_tx_segments_lem :
    (seg_lengths : List ℕ) (s : State)
    → length seg_lengths ≤ max_segs_per_pkt
    → length s.tx_pkt_seg_lengths ≡ max_segs_per_pkt
    → s.mbuf_data_size < 65536
    → store_tx_segments seg_lengths s (total_len s.mbuf_data_size 0 seg_lengths)
      ≡ some (
          if all_at_most s.mbuf_data_size seg_lengths && leb min_pkt_len (u16 (sum seg_lengths))
          then record s {
            tx_pkt_seg_lengths = overwrite s.tx_pkt_seg_lengths seg_lengths;
            tx_pkt_length = u16 (sum seg_lengths);
            tx_pkt_nb_segs = length seg_lengths;
          }
          else s)
unfolding store_tx_segments
store_tx_segments_lem seg_lengths s few room w =
    rw (total_len_lem s.mbuf_data_size 0 seg_lengths (omega arith)) (
      ground (
        arith,
        map-u16_at_most s.mbuf_data_size seg_lengths w,
        copy_from_lem seg_lengths s.tx_pkt_seg_lengths,
      ))

-- What the setter of the transmit segments does, by the result of the check of the rings.
pub set_tx_pkt_segments-checked :
    (env : RingEnv) (ports : List RingPort) (seg_lengths : List ℕ) (s : State) (invalid : Bool)
    → length s.tx_pkt_seg_lengths ≡ max_segs_per_pkt
    → s.mbuf_data_size < 65536
    → nb_segs_is_invalid env ports s.nb_txq (length seg_lengths) ≡ some invalid
    → set_tx_pkt_segments env ports seg_lengths s
      ≡ some (
          if tx_accepts invalid s seg_lengths
          then record s {
            tx_pkt_seg_lengths = overwrite s.tx_pkt_seg_lengths seg_lengths;
            tx_pkt_length = u16 (sum seg_lengths);
            tx_pkt_nb_segs = length seg_lengths;
          }
          else s)
unfolding set_tx_pkt_segments
set_tx_pkt_segments-checked env ports seg_lengths s invalid room w rings =
    rw rings (ground (arith, store_tx_segments_lem seg_lengths s))
