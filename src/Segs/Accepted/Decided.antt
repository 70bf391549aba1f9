-- ===== src/Segs/Accepted/Decided.antt =====
-- When `set_tx_pkt_segments` of lib/core/dpdk/config.c stores what it is given.
use udx_fastpath.Base.{
  ℕ, zero, suc, ◌≤◌, ◌<◌, ◌≡◌, refl, ap, ◌∙◌, Bool, true, false, Bool-cases, some_inj, ltb→lt,
  if-true, if-false, some, List, [], ◌∷◌, ltb, length, overwrite, u16, arith, inl, inr, get_elem?,
}
use udx_fastpath.Segs.{State, set_tx_pkt_segments, max_segs_per_pkt}
use udx_fastpath.Segs.Rings.{RingPort, RingEnv}
use udx_fastpath.Segs.Room.{Readable, RingsFit, nb_segs_is_invalid-decides}
use udx_fastpath.Segs.Accepted.{sum, all_at_most, tx_accepts, set_tx_pkt_segments-checked}

-- What `set_tx_pkt_segments` takes: where there are several segments every ring has room for them,
-- there are at most 255, each fits a buffer, and the total is at least 42.
pub record Acceptable (env : RingEnv) (ports : List RingPort) (seg_lengths : List ℕ) (s : State)
    : Type 0 where
  pub rings : 1 < length seg_lengths → RingsFit env ports s.nb_txq (length seg_lengths)
  pub few : length seg_lengths ≤ 255
  pub fit : (j n : ℕ) → get_elem? seg_lengths j ≡ some n → n ≤ s.mbuf_data_size
  pub total : 42 ≤ u16 (sum seg_lengths)

all_at_most-each :
    (n : ℕ) (values : List ℕ)
    → all_at_most n values ≡ true
    → (j v : ℕ) → get_elem? values j ≡ some v
    → v ≤ n
all_at_most-each n [] h j v e = absurd (cc)
all_at_most-each n (x ∷ xs) h zero v e = ground (arith, h, some_inj e)
all_at_most-each n (x ∷ xs) h (suc j) v e = all_at_most-each n xs (ground (arith, h)) j v e

each-all_at_most :
    (n : ℕ) (values : List ℕ)
    → ((j v : ℕ) → get_elem? values j ≡ some v → v ≤ n)
    → all_at_most n values ≡ true
each-all_at_most n [] h = refl
each-all_at_most n (x ∷ xs) h =
    let first : x ≤ n = h 0 x refl in
    ground (arith, first, each-all_at_most n xs (λ j v e. h (suc j) v e))

tx_accepts-Acceptable :
    (env : RingEnv) (ports : List RingPort) (seg_lengths : List ℕ) (s : State) (invalid : Bool)
    → ((invalid ≡ false) → RingsFit env ports s.nb_txq (length seg_lengths))
    → tx_accepts invalid s seg_lengths ≡ true
    → Acceptable env ports seg_lengths s
tx_accepts-Acceptable env ports seg_lengths s invalid fits h =
    let each : all_at_most s.mbuf_data_size seg_lengths ≡ true = ground (arith, h) in
    record {
      rings = λ several. fits (ground (arith, h, several));
      few = ground (arith, h);
      fit = all_at_most-each s.mbuf_data_size seg_lengths each;
      total = ground (arith, h);
    }

Acceptable-tx_accepts :
    (env : RingEnv) (ports : List RingPort) (seg_lengths : List ℕ) (s : State) (invalid : Bool)
    → ((invalid ≡ true) → ¬ RingsFit env ports s.nb_txq (length seg_lengths))
    → Acceptable env ports seg_lengths s
    → tx_accepts invalid s seg_lengths ≡ true
Acceptable-tx_accepts env ports seg_lengths s invalid unfit a =
    let each = each-all_at_most s.mbuf_data_size seg_lengths a.fit in
    elim (Bool-cases (ltb 1 (length seg_lengths))) [
      | inl several ↦
          let ok : invalid ≡ false = elim (Bool-cases invalid) [
            | inl bad ↦ absurd (unfit bad (a.rings (ltb→lt 1 (length seg_lengths) several)))
            | inr good ↦ good
          ] in
          ground (arith, ok, each, a.few, a.total)
      | inr single ↦ ground (arith, single, each, a.few, a.total)
    ]

-- With an array of the full size, a 16-bit buffer size and ports whose rings can be read: the
-- transmit segments are stored with their total modulo 2^16 if there are at most 255, each fits the
-- buffer, the total modulo 2^16 is at least 42 and, where there are several, every known transmit
-- ring has room for them; otherwise nothing changes.
pub set_tx_pkt_segments_lem :
    (env : RingEnv) (ports : List RingPort) (seg_lengths : List ℕ) (s : State)
    → length s.tx_pkt_seg_lengths ≡ max_segs_per_pkt
    → s.mbuf_data_size < 65536
    → Readable env ports s.nb_txq
    → (Acceptable env ports seg_lengths s
        → set_tx_pkt_segments env ports seg_lengths s
          ≡ some (record s {
            tx_pkt_seg_lengths = overwrite s.tx_pkt_seg_lengths seg_lengths;
            tx_pkt_length = u16 (sum seg_lengths);
            tx_pkt_nb_segs = length seg_lengths;
          }))
      × (¬ Acceptable env ports seg_lengths s
          → set_tx_pkt_segments env ports seg_lengths s ≡ some s)
set_tx_pkt_segments_lem env ports seg_lengths s room w reads =
    let (invalid, rings, fits, unfit) =
      nb_segs_is_invalid-decides env ports s.nb_txq (length seg_lengths) reads in
    let run = set_tx_pkt_segments-checked env ports seg_lengths s invalid room w rings in
    let stored : State = record s {
      tx_pkt_seg_lengths = overwrite s.tx_pkt_seg_lengths seg_lengths;
      tx_pkt_length = u16 (sum seg_lengths);
      tx_pkt_nb_segs = length seg_lengths;
    } in
    (
      λ a.
          run
          ∙ ap some (
              if-true (tx_accepts invalid s seg_lengths) stored s
                (Acceptable-tx_accepts env ports seg_lengths s invalid unfit a)),
      λ refused. elim (Bool-cases (tx_accepts invalid s seg_lengths)) [
        | inl yes_taken ↦
            absurd (refused (tx_accepts-Acceptable env ports seg_lengths s invalid fits yes_taken))
        | inr not_taken ↦
            run ∙ ap some (if-false (tx_accepts invalid s seg_lengths) stored s not_taken)
      ],
    )
