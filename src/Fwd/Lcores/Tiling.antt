-- ===== src/Fwd/Lcores/Tiling.antt =====
-- The streams of the cores: contiguous, without gap or overlap, and balanced.
use udx_fastpath.Base.{
  ℕ, zero, suc, ◌+◌, ◌-◌, ◌*◌, ◌/◌, ◌%◌, ◌≤◌, ◌<◌, ◌≡◌, refl, some, List, [], ◌∷◌, arith, set,
  length, u8, u16, ap, sym,
}
use mathlib.Core.Option
use native.Mathlib.Decide.{dec_lt}
use mathlib.Core.Path.{subst₂}
use native.Mathlib.Nat.{div-add-mod', div_self, mod_self, zero-add, suc-add}
use udx_fastpath.Fwd.Types.{Lcore, Config}
use udx_fastpath.Fwd.Lcores.{assign_streams, share_out, setup_fwd_config_of_each_lcore}

-- The first `n` cores run the streams from `start` up to `stop`, one core after the other, each
-- core `share` or `share + 1` of them.
abbrev pub Tiles : ℕ → ℕ → ℕ → ℕ → List Lcore → Type 0
Tiles zero share start stop lcores = start ≡ stop
Tiles (suc n) share start stop [] = ⊥
Tiles (suc n) share start stop (lc ∷ lcores) =
    (lc.stream_idx ≡ start)
    × (share ≤ lc.stream_nb)
    × (lc.stream_nb ≤ suc share)
    × Tiles n share (start + lc.stream_nb) stop lcores

-- What `assign_streams` makes of the array.
fill : ℕ → ℕ → ℕ → ℕ → List Lcore → List Lcore
fill n m nb sm [] = []
fill n (suc m) nb sm (x ∷ xs) = x ∷ fill n m nb sm xs
fill zero zero nb sm (x ∷ xs) = x ∷ xs
fill (suc n) zero nb sm (x ∷ xs) =
    record { stream_idx = sm; stream_nb = nb } ∷ fill n zero nb (sm + nb) xs

assign_streams-cons :
    (n m nb sm : ℕ) (x : Lcore) (xs : List Lcore)
    → assign_streams n (suc m) nb sm (x ∷ xs)
      ≡ Option.map (λ r. (x ∷ r.0, r.1)) (assign_streams n m nb sm xs)
unfolding assign_streams
assign_streams-cons zero m nb sm x xs = refl
assign_streams-cons (suc n) m nb sm x xs = ground (
  arith,
  assign_streams-cons n (suc m) nb (u16 (sm + nb)) x
      (set xs m (record { stream_idx = sm; stream_nb = nb })),
)

assign_streams-eq-fill :
    (n m nb sm : ℕ) (xs : List Lcore)
    → m + n ≤ length xs
    → sm + n * nb ≤ 65535
    → assign_streams n m nb sm xs ≡ some (fill n m nb sm xs, sm + n * nb)
unfolding assign_streams fill
assign_streams-eq-fill zero zero nb sm [] h k = ap (λ e. some ([], e)) (omega arith)
assign_streams-eq-fill zero zero nb sm (x ∷ xs) h k = ap (λ e. some (x ∷ xs, e)) (omega arith)
assign_streams-eq-fill (suc n) zero nb sm [] h k = absurd (omega arith)
assign_streams-eq-fill (suc n) zero nb sm (x ∷ xs) h k =
    let small : u16 (sm + nb) ≡ sm + nb = omega arith in
    let x' : Lcore = record { stream_idx = sm; stream_nb = nb } in
    rw
      (
        small,
        assign_streams-cons,
        assign_streams-eq-fill n zero nb (sm + nb) xs (omega arith) (omega arith),
      )
      (ap (λ e. some (x' ∷ fill n zero nb (sm + nb) xs, e)) (omega arith))
assign_streams-eq-fill n (suc m) nb sm [] h k = absurd (omega arith)
assign_streams-eq-fill n (suc m) nb sm (x ∷ xs) h k =
    rw (assign_streams-cons, assign_streams-eq-fill n m nb sm xs (omega arith) k)

Tiles-fill :
    (n m share start nb sm : ℕ) (xs : List Lcore)
    → m + n ≤ length xs
    → share ≤ nb
    → nb ≤ suc share
    → Tiles m share start sm xs
    → Tiles (m + n) share start (sm + n * nb) (fill n m nb sm xs)
unfolding fill
Tiles-fill zero zero share start nb sm xs h a b t = omega arith
Tiles-fill (suc n) zero share start nb sm [] h a b t = absurd (omega arith)
Tiles-fill (suc n) zero share start nb sm (x ∷ xs) h a b t =
    let rest : Tiles (0 + n) share (sm + nb) (sm + nb + n * nb) (fill n zero nb (sm + nb) xs) =
      Tiles-fill n zero share (sm + nb) nb (sm + nb) xs (omega arith) a b refl in
    let sum : sm + nb + n * nb ≡ sm + suc n * nb = omega arith in
    rw zero-add (
      sym t,
      a,
      b,
      subst₂ (λ s e. Tiles n share (s + nb) e (fill n zero nb (sm + nb) xs)) (sym t) sum
          (rw zero-add at rest),
    )
Tiles-fill n (suc m) share start nb sm [] h a b t = absurd (omega arith)
Tiles-fill n (suc m) share start nb sm (x ∷ xs) h a b t =
    rw suc-add
      (t.0, t.1, t.2, Tiles-fill n m share (start + x.stream_nb) nb sm xs (omega arith) a b t.3)

length-fill : (n m nb sm : ℕ) (xs : List Lcore) → length (fill n m nb sm xs) ≡ length xs
unfolding fill
length-fill n m nb sm [] = refl
length-fill n (suc m) nb sm (x ∷ xs) = ap suc (length-fill n m nb sm xs)
length-fill zero zero nb sm (x ∷ xs) = refl
length-fill (suc n) zero nb sm (x ∷ xs) = ap suc (length-fill n zero nb (sm + nb) xs)

-- The array after both loops: `m` cores with `share` streams, then `extra` with one more.
dealt : ℕ → ℕ → ℕ → List Lcore → List Lcore
dealt m extra share lcores = fill extra m (share + 1) (0 + m * share) (fill m 0 share 0 lcores)

dealt-Tiles :
    (m extra share : ℕ) (lcores : List Lcore)
    → m + extra ≤ length lcores
    → Tiles (m + extra) share 0 (0 + m * share + extra * (share + 1)) (dealt m extra share lcores)
unfolding dealt
dealt-Tiles m extra share lcores h =
    let first : Tiles (0 + m) share 0 (0 + m * share) (fill m 0 share 0 lcores) =
      Tiles-fill m 0 share 0 share 0 lcores (omega arith) (omega arith) (omega arith) refl in
    Tiles-fill extra m share 0 (share + 1) (0 + m * share) (fill m 0 share 0 lcores)
      (omega (arith, length-fill m 0 share 0 lcores)) (omega arith) (omega arith)
      (rw zero-add at first)

fill-zero : (m nb sm : ℕ) (xs : List Lcore) → fill 0 m nb sm xs ≡ xs
unfolding fill
fill-zero m nb sm [] = refl
fill-zero (suc m) nb sm (x ∷ xs) = ap (λ t. x ∷ t) (fill-zero m nb sm xs)
fill-zero zero nb sm (x ∷ xs) = refl

share_out-eq-dealt :
    (m extra share : ℕ) (lcores : List Lcore)
    → m + extra ≤ length lcores
    → m + extra < 256
    → m * share + extra * (share + 1) ≤ 65535
    → share_out (m + extra) share extra lcores ≡ some (dealt m extra share lcores)
unfolding share_out dealt
share_out-eq-dealt m zero share lcores h small bound =
    let nb_lc : u8 (m + zero + 256 - zero) ≡ m = omega arith in
    rw
      (
        nb_lc,
        assign_streams-eq-fill m 0 share 0 lcores (omega arith) (omega arith),
        fill-zero m (share + 1) (0 + m * share) (fill m 0 share 0 lcores),
      )
      (unfold assign_streams in refl)
share_out-eq-dealt m (suc extra) share lcores h small bound =
    let nb_lc : u8 (m + suc extra + 256 - suc extra) ≡ m = omega arith in
    let more : u16 (share + 1) ≡ share + 1 = grind arith in
    rw (
      nb_lc,
      more,
      assign_streams-eq-fill m 0 share 0 lcores (omega arith) (omega arith),
      assign_streams-eq-fill (suc extra) m (share + 1) (0 + m * share) (fill m 0 share 0 lcores)
          (omega (arith, length-fill m 0 share 0 lcores)) (omega arith),
    )

setup-eq-share_out :
    (cfg : Config) (lcores : List Lcore)
    → 0 < cfg.nb_fwd_lcores
    → cfg.nb_fwd_lcores < 256
    → cfg.nb_fwd_lcores ≤ cfg.nb_fwd_streams
    → cfg.nb_fwd_streams < 65536
    → let fs = cfg.nb_fwd_streams in
      let fc = cfg.nb_fwd_lcores in
      setup_fwd_config_of_each_lcore cfg lcores ≡ share_out fc (fs / fc) (fs % fc) lcores
unfolding setup_fwd_config_of_each_lcore
setup-eq-share_out cfg lcores pos small le bound = elim (dec_lt fc fs) [
  | yes more ↦
      let q : u16 (fs / fc) ≡ fs / fc = omega arith in
      let r : u8 (fs % fc) ≡ fs % fc = omega arith in ground arith
  | no same ↦
      let q : fs / fc ≡ 1 = grind (arith, div_self) in
      let r : fs % fc ≡ 0 = grind (arith, mod_self) in ground arith
]
  where
    open cfg use {nb_fwd_streams as fs, nb_fwd_lcores as fc}

regroup : (d q r : ℕ) {fc fs : ℕ} → d + r ≡ fc → q * fc + r ≡ fs → d * q + r * (q + 1) ≡ fs
regroup d q r e f = omega (arith, ap (λ (t : ℕ). q * t) e)

-- The streams up to `stop` are dealt out to `fc` cores.
abbrev Dealt : ℕ → ℕ → List Lcore → ℕ → ℕ → Type 0
Dealt share extra lcores fc stop =
    (lcores' : List Lcore) × (share_out fc share extra lcores ≡ some lcores')
    × Tiles fc share 0 stop lcores'

dealt_lem :
    (m extra share : ℕ) (lcores : List Lcore)
    → m + extra ≤ length lcores
    → m + extra < 256
    → m * share + extra * (share + 1) ≤ 65535
    → Dealt share extra lcores (m + extra) (m * share + extra * (share + 1))
dealt_lem m extra share lcores h small bound = (
  dealt m extra share lcores,
  share_out-eq-dealt m extra share lcores h small bound,
  rw zero-add at (dealt-Tiles m extra share lcores h),
)

-- If there is at least one core, there are at most 255, no more than streams and no more than
-- entries for cores, and fewer than 65536 streams, the streams are dealt out to the cores in
-- consecutive ranges without gap or overlap, of sizes that differ by at most one.
pub setup_fwd_config_of_each_lcore-Tiles :
    (cfg : Config) (lcores : List Lcore)
    → 0 < cfg.nb_fwd_lcores
    → cfg.nb_fwd_lcores < 256
    → cfg.nb_fwd_lcores ≤ cfg.nb_fwd_streams
    → cfg.nb_fwd_streams < 65536
    → cfg.nb_fwd_lcores ≤ length lcores
    → (lcores' : List Lcore) × (setup_fwd_config_of_each_lcore cfg lcores ≡ some lcores')
      × Tiles cfg.nb_fwd_lcores
          (cfg.nb_fwd_streams / cfg.nb_fwd_lcores)
          0
          cfg.nb_fwd_streams
          lcores'
unfolding setup_fwd_config_of_each_lcore
setup_fwd_config_of_each_lcore-Tiles cfg lcores pos small le bound room =
    rw (setup-eq-share_out cfg lcores pos small le bound) (
      subst₂ (Dealt (fs / fc) (fs % fc) lcores) cores streams (
        dealt_lem (fc - fs % fc) (fs % fc) (fs / fc) lcores (rw cores room) (rw cores small)
          (omega (arith, streams))))
  where
    open cfg use {nb_fwd_streams as fs, nb_fwd_lcores as fc}

    cores : fc - fs % fc + fs % fc ≡ fc
    cores = omega arith

    streams : (fc - fs % fc) * (fs / fc) + fs % fc * (fs / fc + 1) ≡ fs
    streams = regroup (fc - fs % fc) (fs / fc) (fs % fc) cores (div-add-mod' fs fc)
