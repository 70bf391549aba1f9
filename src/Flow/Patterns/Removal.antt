-- ===== src/Flow/Patterns/Removal.antt =====
-- What is left in the list of templates after a destruction, a flush and a refused creation.
use udx_fastpath.Base.{
  ℕ, ◌≤◌, ◌≡◌, ◌≢◌, refl, true, none, some, List, [], ◌∷◌, inl, inr, arith, Option-cases, some_inj,
}
use native.Mathlib.Decide.{ℕ_discrete, dec_lt}
use Prim.{tt}
use udx_fastpath.Flow.Nodes.{link}
use udx_fastpath.Flow.Nodes.Order.{Falling}
use udx_fastpath.Flow.Loops.{try_ids, destroy_each}
use udx_fastpath.Flow.Loops.Left.{
  unnamed, destroy_each_lem, destroy_each-keeps, flush_each_lem, try_ids-other,
}
use udx_fastpath.Flow.Patterns.{Driver, Template, release, templates_destroy, templates_flush}

abbrev pub by_id : Template → ℕ
by_id t = t.id

module _ {S : Type 0} (d : Driver S) where
  -- An errno is not 0.
  abbrev pub NonzeroErrno : Type 0
  NonzeroErrno = (s : S) (handle : ℕ) → (d.destroy s handle).1 ≢ some 0

  release-errno : NonzeroErrno → (t : Template) (s : S) → (release d t s).1 ≢ some 0
  unfolding release
  release-errno nz t s h = elim (Option-cases t.item) [
    | inl blank ↦ ground (arith, h, blank)
    | inr (handle, there) ↦ nz s handle (ground (arith, h, there))
  ]

  -- If no errno is 0, a destruction that returns 0 leaves exactly the templates that are not named,
  -- in their order.
  pub templates_destroy_lem :
      (ids : List ℕ) (list : List Template) (s : S)
      → NonzeroErrno
      → (templates_destroy d ids list s).ret ≡ 0
      → (templates_destroy d ids list s).list ≡ unnamed by_id ids list
  unfolding templates_destroy
  templates_destroy_lem ids list s nz h =
      (destroy_each_lem by_id (release d) ids list s 0 (release-errno nz) h).1

  -- Whatever the driver answers, the templates that are not named stay, in their order.
  pub templates_destroy-keeps :
      (ids : List ℕ) (list : List Template) (s : S)
      → unnamed by_id ids (templates_destroy d ids list s).list ≡ unnamed by_id ids list
  unfolding templates_destroy
  templates_destroy-keeps ids list s = destroy_each-keeps by_id (release d) ids list s 0

  -- If no errno is 0, a flush that returns 0 leaves no template.
  pub templates_flush_lem :
      (list : List Template) (s : S)
      → NonzeroErrno
      → (templates_flush d list s).ret ≡ 0
      → (templates_flush d list s).list ≡ []
  unfolding templates_flush
  templates_flush_lem list s nz h = (flush_each_lem (release d) list s 0 (release-errno nz) h).1

  try_ids-blank :
      (id : ℕ) (s : S) (ret : ℕ)
      → try_ids by_id (release d) (record { id = id; item = none }) (id ∷ []) s ret
        ≡ record { state = s; code = ret; gone = true }
  unfolding try_ids release
  try_ids-blank id s ret = ground arith

  destroy_each-below :
      (top id : ℕ) (ts : List Template) (s : S) (ret : ℕ)
      → Falling top ts
      → top ≤ id
      → destroy_each by_id (release d) (id ∷ []) ts s ret
        ≡ record { driver = s; list = ts; ret = ret }
  unfolding destroy_each
  destroy_each-below top id [] s ret f h = refl
  destroy_each-below top id (t ∷ ts) s ret f h = rw (
    try_ids-other by_id (release d) t id s ret (λ e. omega (arith, f.0)),
    destroy_each-below t.id id ts s ret f.1 (omega (arith, f.0)),
  )

  destroy_each-front :
      (id : ℕ) (ts : List Template) (s : S)
      → Falling id ts
      → destroy_each by_id (release d) (id ∷ []) (record { id = id; item = none } ∷ ts) s 0
        ≡ record { driver = s; list = ts; ret = 0 }
  unfolding destroy_each
  destroy_each-front id ts s f =
      rw (try_ids-blank id s 0, destroy_each-below id id ts s 0 f (omega arith))

  destroy_each-later :
      (id : ℕ) (t : Template) (ts ns : List Template) (s : S)
      → id ≢ t.id
      → destroy_each by_id (release d) (id ∷ []) ns s 0 ≡ record { driver = s; list = ts; ret = 0 }
      → destroy_each by_id (release d) (id ∷ []) (t ∷ ns) s 0
        ≡ record { driver = s; list = t ∷ ts; ret = 0 }
  unfolding destroy_each
  destroy_each-later id t ts ns s ne h = rw (try_ids-other by_id (release d) t id s 0 ne, h)

  -- A blank node that was linked in is destroyed without the driver, and the list is as before.
  pub destroy_each-link :
      (top id : ℕ) (ts ns : List Template) (s : S)
      → Falling top ts
      → link (record { id = id; item = none }) ts ≡ some ns
      → destroy_each by_id (release d) (id ∷ []) ns s 0 ≡ record { driver = s; list = ts; ret = 0 }
  unfolding link
  destroy_each-link top id [] ns s f h = rw (← some_inj h) (destroy_each-front id [] s tt)
  destroy_each-link top id (t ∷ ts) ns s f h = elim (dec_lt id t.id) [
    | yes lt ↦ elim (Option-cases (link (record { id = id; item = none }) ts)) [
      | inl fails ↦ absurd (ground (arith, h))
      | inr (ns', links) ↦
          let same : t ∷ ns' ≡ ns = ground (arith, h) in
          rw (← same) (
            destroy_each-later id t ts ns' s (omega arith)
              (destroy_each-link t.id id ts ns' s f.1 links))
    ]
    | no ge ↦ elim (ℕ_discrete t.id id) [
      | yes e ↦ absurd (ground (arith, h))
      | no ne ↦
          let same : record { id = id; item = none } ∷ t ∷ ts ≡ ns = ground (arith, h) in
          rw (← same) (destroy_each-front id (t ∷ ts) s (omega arith, f.1))
    ]
  ]
