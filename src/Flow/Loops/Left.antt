-- ===== src/Flow/Loops/Left.antt =====
-- What the loops leave in a list.
use udx_fastpath.Base.{
  ℕ, ◌≡◌, ◌≢◌, refl, ap, ◌∙◌, true, false, Option, some, List, [], ◌∷◌, if◌then◌else◌, inl, inr,
  arith, Option-cases,
}
use native.Mathlib.Decide.{ℕ_discrete}
use udx_fastpath.Select.Platform.{contains}
use udx_fastpath.Flow.Loops.{try_ids, destroy_each, flush_each}

-- The objects whose key is not named, in their order.
abbrev pub unnamed {ℓ} : {T : Type ℓ} → (T → ℕ) → List ℕ → List T → List T
unnamed key ids [] = []
unnamed key ids (t ∷ ts) =
    let rest = unnamed key ids ts in if contains ids (key t) then rest else t ∷ rest

module _ {S T : Type 0} (key : T → ℕ) (release : T → S → S × Option ℕ) where
  pub try_ids_lem :
      (t : T) (ids : List ℕ) (s : S) (ret : ℕ)
      → ((t : T) (s : S) → (release t s).1 ≢ some 0)
      → (try_ids key release t ids s ret).code ≡ 0
      → (ret ≡ 0) × ((try_ids key release t ids s ret).gone ≡ contains ids (key t))
  unfolding try_ids contains
  try_ids_lem t [] s ret nz h = (h, refl)
  try_ids_lem t (x ∷ xs) s ret nz h = elim (ℕ_discrete x (key t)) [
    | no ne ↦ ground (arith, h, try_ids_lem t xs s ret nz)
    | yes same ↦ elim (Option-cases (release t s).1) [
      | inl freed ↦ ground (arith, h)
      | inr (e, refused) ↦
          let (zero_code, gone) = try_ids_lem t xs (release t s).0 e nz (ground (arith, h)) in
          absurd (nz t s (refused ∙ ap some zero_code))
    ]
  ]

  pub destroy_each_lem :
      (ids : List ℕ) (list : List T) (s : S) (ret : ℕ)
      → ((t : T) (s : S) → (release t s).1 ≢ some 0)
      → (destroy_each key release ids list s ret).ret ≡ 0
      → (ret ≡ 0) × ((destroy_each key release ids list s ret).list ≡ unnamed key ids list)
  unfolding destroy_each
  destroy_each_lem ids [] s ret nz h = (h, refl)
  destroy_each_lem ids (t ∷ ts) s ret nz h =
      let tried = try_ids key release t ids s ret in
      let (code, rest) = destroy_each_lem ids ts tried.state tried.code nz (ground (arith, h)) in
      let (start, gone) = try_ids_lem t ids s ret nz code in (start, ground (arith, gone, rest))

  try_ids-named :
      (t : T) (ids : List ℕ) (s : S) (ret : ℕ)
      → (try_ids key release t ids s ret).gone ≡ true
      → contains ids (key t) ≡ true
  unfolding try_ids contains
  try_ids-named t [] s ret h = absurd (cc)
  try_ids-named t (x ∷ xs) s ret h = elim (ℕ_discrete x (key t)) [
    | no ne ↦ ground (arith, h, try_ids-named t xs s ret)
    | yes same ↦ ground arith
  ]

  pub destroy_each-keeps :
      (ids : List ℕ) (list : List T) (s : S) (ret : ℕ)
      → unnamed key ids (destroy_each key release ids list s ret).list ≡ unnamed key ids list
  unfolding destroy_each
  destroy_each-keeps ids [] s ret = refl
  destroy_each-keeps ids (t ∷ ts) s ret =
      let tried = try_ids key release t ids s ret in
      ground (arith, try_ids-named t ids s ret, destroy_each-keeps ids ts tried.state tried.code)

  pub try_ids-other :
      (t : T) (id : ℕ) (s : S) (ret : ℕ)
      → id ≢ key t
      → try_ids key release t (id ∷ []) s ret ≡ record { state = s; code = ret; gone = false }
  unfolding try_ids
  try_ids-other t id s ret ne = ground arith

module _ {S T : Type 0} (release : T → S → S × Option ℕ) where
  pub flush_each_lem :
      (list : List T) (s : S) (ret : ℕ)
      → ((t : T) (s : S) → (release t s).1 ≢ some 0)
      → (flush_each release list s ret).ret ≡ 0
      → (ret ≡ 0) × ((flush_each release list s ret).list ≡ [])
  unfolding flush_each
  flush_each_lem [] s ret nz h = (h, refl)
  flush_each_lem (t ∷ ts) s ret nz h = elim (Option-cases (release t s).1) [
    | inl freed ↦ ground (arith, h, flush_each_lem ts (release t s).0 ret nz)
    | inr (e, refused) ↦
        let (zero_code, gone) = flush_each_lem ts (release t s).0 e nz (ground (arith, h)) in
        absurd (nz t s (refused ∙ ap some zero_code))
  ]
