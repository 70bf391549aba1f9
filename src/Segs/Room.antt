-- ===== src/Segs/Room.antt =====
-- What the check of the transmit rings says of each ring.
use udx_fastpath.Base.{
  ℕ, zero, suc, ◌+◌, ◌≤◌, ◌<◌, ◌≡◌, ap, ◌∙◌, ◌⊎◌, refl, Bool, true, false, ltb, ltb→lt, Option,
  some, List, [], ◌∷◌, arith, Bool-cases, Option-cases, inl, inr,
}
use native.Mathlib.Decide.{ℕ_discrete}
use udx_fastpath.Select.Platform.{contains}
use udx_fastpath.Segs.Rings.{
  RingPort, RingEnv, get_tx_ring_size, too_small, queues_invalid, devs_invalid, nb_segs_is_invalid,
}

queues_invalid_lem :
    (env : RingEnv) (ports : List RingPort) (nb_segs port_id n i q size : ℕ)
    → queues_invalid env ports nb_segs port_id n i ≡ some false
    → i ≤ q
    → q < i + n
    → get_tx_ring_size env ports port_id q ≡ some (some size)
    → nb_segs ≤ size
unfolding queues_invalid too_small
queues_invalid_lem env ports nb_segs port_id zero i q size h lo hi e = absurd (omega arith)
queues_invalid_lem env ports nb_segs port_id (suc n) i q size h lo hi e = elim (ℕ_discrete i q) [
  | yes same ↦
      let here : get_tx_ring_size env ports port_id i ≡ some (some size) = rw same e in
      ground (arith, h, here)
  | no ne ↦ elim (Option-cases (get_tx_ring_size env ports port_id i)) [
    | inl fault ↦ absurd (ground (arith, h, fault))
    | inr (o, known) ↦
        queues_invalid_lem env ports nb_segs port_id n (suc i) q size (ground (arith, h, known))
          (omega arith) (omega arith) e
  ]
]

devs_invalid_lem :
    (env : RingEnv) (ports : List RingPort) (nb_txq nb_segs port_id q size : ℕ) (devs : List ℕ)
    → devs_invalid env ports nb_txq nb_segs devs ≡ some false
    → contains devs port_id ≡ true
    → q < nb_txq
    → get_tx_ring_size env ports port_id q ≡ some (some size)
    → nb_segs ≤ size
unfolding devs_invalid contains
devs_invalid_lem env ports nb_txq nb_segs port_id q size [] h c l e = absurd (cc)
devs_invalid_lem env ports nb_txq nb_segs port_id q size (d ∷ devs) h c l e =
    elim (Option-cases (queues_invalid env ports nb_segs d nb_txq 0)) [
      | inl fault ↦ absurd (ground (arith, h, fault))
      | inr (found, known) ↦ elim (Bool-cases found) [
        | inl yes_found ↦ absurd (ground (arith, h, known, yes_found))
        | inr not_found ↦ elim (ℕ_discrete d port_id) [
          | yes same ↦
              queues_invalid_lem env ports nb_segs port_id nb_txq 0 q size
                (rw (← same) (known ∙ ap some not_found)) (omega arith) (omega arith) e
          | no ne ↦
              devs_invalid_lem env ports nb_txq nb_segs port_id q size devs
                (ground (arith, h, known, not_found)) (ground (arith, c)) l e
        ]
      ]
    ]

-- If the check passes, every transmit ring of a probed port whose size is known has room for the
-- segments.
pub nb_segs_is_invalid_lem :
    (env : RingEnv) (ports : List RingPort) (nb_txq nb_segs port_id q size : ℕ)
    → nb_segs_is_invalid env ports nb_txq nb_segs ≡ some false
    → contains env.devs port_id ≡ true
    → q < nb_txq
    → get_tx_ring_size env ports port_id q ≡ some (some size)
    → nb_segs ≤ size
unfolding nb_segs_is_invalid
nb_segs_is_invalid_lem env ports nb_txq nb_segs port_id q size h c l e =
    devs_invalid_lem env ports nb_txq nb_segs port_id q size env.devs h c l e

-- The ring sizes can be read.
abbrev pub Readable : RingEnv → List RingPort → ℕ → Type 0
Readable env ports nb_txq =
    (port_id q : ℕ)
    → contains env.devs port_id ≡ true
    → q < nb_txq
    → (o : Option ℕ) × (get_tx_ring_size env ports port_id q ≡ some o)

-- Every transmit ring of a probed port whose size is known has room for the segments.
abbrev pub RingsFit : RingEnv → List RingPort → ℕ → ℕ → Type 0
RingsFit env ports nb_txq nb_segs =
    (port_id q size : ℕ)
    → contains env.devs port_id ≡ true
    → q < nb_txq
    → get_tx_ring_size env ports port_id q ≡ some (some size)
    → nb_segs ≤ size

-- A queue of the port, from `i` on, whose known ring is too small.
abbrev Small : RingEnv → List RingPort → ℕ → ℕ → ℕ → ℕ → Type 0
Small env ports nb_segs port_id n i =
    (q : ℕ) × (size : ℕ) × (i ≤ q)
    × (q < i + n)
    × (get_tx_ring_size env ports port_id q ≡ some (some size))
    × (size < nb_segs)

queues_invalid-decides :
    (env : RingEnv) (ports : List RingPort) (nb_segs port_id n i : ℕ)
    → ((q : ℕ) → q < i + n → (o : Option ℕ) × (get_tx_ring_size env ports port_id q ≡ some o))
    → (queues_invalid env ports nb_segs port_id n i ≡ some false)
      ⊎ ((queues_invalid env ports nb_segs port_id n i ≡ some true)
          × Small env ports nb_segs port_id n i)
unfolding queues_invalid too_small
queues_invalid-decides env ports nb_segs port_id zero i reads = inl refl
queues_invalid-decides env ports nb_segs port_id (suc n) i reads =
    let (o, known) = reads i (omega arith) in
    let rest =
      queues_invalid-decides env ports nb_segs port_id n (suc i) (λ q lt. reads q (omega arith)) in
    let later : (queues_invalid env ports nb_segs port_id n (suc i) ≡ some false)
        ⊎ ((queues_invalid env ports nb_segs port_id n (suc i) ≡ some true)
            × Small env ports nb_segs port_id (suc n) i) =
      elim rest [
        | inl none_left ↦ inl none_left
        | inr (found, (q, size, lo, hi, e, lt)) ↦
            inr (found, (q, size, omega arith, omega arith, e, lt))
      ] in
    rw known (elim (Option-cases o) [
      | inl unknown ↦ rw unknown later
      | inr (size, e) ↦ rw e (elim (Bool-cases (ltb size nb_segs)) [
        | inl small ↦ rw small (
            inr (
              refl,
              (i, size, omega arith, omega arith, known ∙ ap some e, ltb→lt size nb_segs small),
            ))
        | inr fits ↦ rw fits later
      ])
    ])

devs_invalid-decides :
    (env : RingEnv) (ports : List RingPort) (nb_txq nb_segs : ℕ) (devs : List ℕ)
    → ((port_id q : ℕ)
        → contains devs port_id ≡ true
        → q < nb_txq
        → (o : Option ℕ) × (get_tx_ring_size env ports port_id q ≡ some o))
    → (devs_invalid env ports nb_txq nb_segs devs ≡ some false)
      ⊎ ((devs_invalid env ports nb_txq nb_segs devs ≡ some true)
          × (port_id : ℕ) × (contains devs port_id ≡ true)
          × Small env ports nb_segs port_id nb_txq 0)
unfolding devs_invalid contains
devs_invalid-decides env ports nb_txq nb_segs [] reads = inl refl
devs_invalid-decides env ports nb_txq nb_segs (d ∷ devs) reads =
    elim (queues_invalid-decides env ports nb_segs d nb_txq 0
      (λ q lt. reads d q (ground arith) (omega arith))) [
        | inr (found, small) ↦ rw found (inr (refl, d, ground arith, small))
        | inl none_found ↦
            rw none_found
              (elim (devs_invalid-decides env ports nb_txq nb_segs devs
                (λ p q has lt. reads p q (ground (arith, has)) lt)) [
                  | inl none_left ↦ inl none_left
                  | inr (found, p, has, small) ↦ inr (found, p, ground (arith, has), small)
                ])
      ]

-- The check answers, and says whether the rings fit.
pub nb_segs_is_invalid-decides :
    (env : RingEnv) (ports : List RingPort) (nb_txq nb_segs : ℕ)
    → Readable env ports nb_txq
    → (invalid : Bool) × (nb_segs_is_invalid env ports nb_txq nb_segs ≡ some invalid)
      × ((invalid ≡ false) → RingsFit env ports nb_txq nb_segs)
      × ((invalid ≡ true) → ¬ RingsFit env ports nb_txq nb_segs)
unfolding nb_segs_is_invalid
nb_segs_is_invalid-decides env ports nb_txq nb_segs reads =
    elim (devs_invalid-decides env ports nb_txq nb_segs env.devs reads) [
      | inl none_left ↦ (
        false,
        none_left,
        λ e p q size has lt known.
            devs_invalid_lem env ports nb_txq nb_segs p q size env.devs none_left has lt known,
        λ e. absurd (cc),
      )
      | inr (found, p, has, (q, size, lo, hi, known, small)) ↦ (
        true,
        found,
        λ e. absurd (cc),
        λ e fit. absurd (omega (arith, fit p q size has (omega arith) known, small)),
      )
    ]
