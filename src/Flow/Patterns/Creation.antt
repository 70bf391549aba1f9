-- ===== src/Flow/Patterns/Creation.antt =====
-- The creation of a template: what is stored, and the roll back when the driver refuses.
use udx_fastpath.Base.{
  ℕ, ◌≤◌, ◌≡◌, ◌≢◌, refl, ap, ◌∙◌, Bool, true, false, Option, none, some, List, [], ◌∷◌, ◌⊎◌, inl,
  inr, uint32_max, arith, Option-cases,
}
use native.Mathlib.Decide.{ℕ_discrete}
use udx_fastpath.Flow.Nodes.{
  Alloc, failed, allocated, pick_id, link, find_id, linked, alloc_picked, template_alloc,
}
use udx_fastpath.Flow.Nodes.Order.{Falling, Adds, Outcome, template_alloc_lem}
use udx_fastpath.Flow.Loops.{destroy_each}
use udx_fastpath.Flow.Patterns.{
  Driver, Template, release, templates_destroy, set_handle, create_allocated, create_from,
  template_create,
}
use udx_fastpath.Flow.Patterns.Removal.{by_id, destroy_each-link}

Falling-set_handle :
    (top id handle : ℕ) (ts : List Template)
    → Falling top ts
    → Falling top (set_handle id handle ts)
unfolding set_handle
Falling-set_handle top id handle [] f = f
Falling-set_handle top id handle (t ∷ ts) f = elim (ℕ_discrete t.id id) [
  | yes same ↦ ground (arith, f)
  | no ne ↦ ground (arith, f, Falling-set_handle t.id id handle ts f.1)
]

find_id-set_handle :
    (id handle : ℕ) (item : Option ℕ) (ts : List Template)
    → find_id id ts ≡ some (record { id = id; item = item })
    → find_id id (set_handle id handle ts) ≡ some (record { id = id; item = some handle })
unfolding set_handle find_id
find_id-set_handle id handle item [] h = absurd (cc)
find_id-set_handle id handle item (t ∷ ts) h = elim (ℕ_discrete t.id id) [
  | yes same ↦ ground (arith, h)
  | no ne ↦ ground (arith, h, find_id-set_handle id handle item ts)
]

find_id-set_handle_ne :
    (id other handle : ℕ) (ts : List Template)
    → other ≢ id
    → find_id other (set_handle id handle ts) ≡ find_id other ts
unfolding set_handle find_id
find_id-set_handle_ne id other handle [] ne = refl
find_id-set_handle_ne id other handle (t ∷ ts) ne = elim (ℕ_discrete t.id id) [
  | yes same ↦ ground arith
  | no diff ↦ ground (arith, find_id-set_handle_ne id other handle ts ne)
]

alloc_picked-allocated :
    (memory : Bool) (pick : Option ℕ) (i : ℕ) (list new : List Template)
    → alloc_picked none memory list pick ≡ allocated i new
    → link (record { id = i; item = none }) list ≡ some new
unfolding alloc_picked linked
alloc_picked-allocated memory none i list new h = absurd (cc)
alloc_picked-allocated false (some j) i list new h = absurd (cc)
alloc_picked-allocated true (some j) i list new h =
    elim (Option-cases (link (record { id = j; item = none }) list)) [
      | inl fails ↦ absurd (ground (arith, h))
      | inr (ns, links) ↦ ground (arith, h, links)
    ]

link_result :
    (memory : Bool) (id i : ℕ) (list new : List Template)
    → template_alloc none memory id list ≡ allocated i new
    → link (record { id = i; item = none }) list ≡ some new
unfolding template_alloc
link_result memory id i list new h = alloc_picked-allocated memory (pick_id id list) i list new h

Alloc-cases :
    (a : Alloc (Option ℕ))
    → ((code : ℕ) × (a ≡ failed code)) ⊎ ((i : ℕ) × (new : List Template) × (a ≡ allocated i new))
Alloc-cases (failed code) = inl (code, refl)
Alloc-cases (allocated i new) = inr (i, new, refl)

module _ {S : Type 0} (d : Driver S) where
  create-failed :
      (memory : Bool) (id code : ℕ) (list : List Template) (s : S)
      → template_alloc none memory id list ≡ failed code
      → template_create d memory id list s ≡ record { driver = s; list = list; ret = code }
  unfolding template_create create_from
  create-failed memory id code list s h = ground (arith, h)

  create-refused :
      (memory : Bool) (id i e : ℕ) (list new : List Template) (s : S)
      → template_alloc none memory id list ≡ allocated i new
      → (d.create s).1 ≡ inr e
      → (template_create d memory id list s).list
        ≡ (destroy_each by_id (release d) (i ∷ []) new (d.create s).0 0).list
  unfolding template_create create_from create_allocated templates_destroy
  create-refused memory id i e list new s a r = ground (arith, a, r)

  create-accepted :
      (memory : Bool) (id i handle : ℕ) (list new : List Template) (s : S)
      → template_alloc none memory id list ≡ allocated i new
      → (d.create s).1 ≡ inl handle
      → template_create d memory id list s
        ≡ record { driver = (d.create s).0; list = set_handle i handle new; ret = 0 }
  unfolding template_create create_from create_allocated
  create-accepted memory id i handle list new s a r = ground (arith, a, r)

  -- If the numbers of the list fall, a creation that the driver refuses leaves the list of
  -- templates as it was.
  pub template_create-refused :
      (memory : Bool) (id e : ℕ) (list : List Template) (s : S)
      → Falling uint32_max list
      → (d.create s).1 ≡ inr e
      → (template_create d memory id list s).list ≡ list
  template_create-refused memory id e list s f r =
      elim (Alloc-cases (template_alloc none memory id list)) [
        | inl (code, a) ↦ ap (λ t. t.list) (create-failed memory id code list s a)
        | inr (i, new, a) ↦
            create-refused memory id i e list new s a r
            ∙ ap (λ t. t.list)
                (destroy_each-link d uint32_max i list new (d.create s).0 f
                  (link_result memory id i list new a))
      ]

  -- If the numbers of the list fall, a creation that the driver accepts returns 0 with a list in
  -- order that has one template more, with the driver's handle, of the number asked for or of a
  -- free one; or no number or no memory could be had, and the list is as it was.
  pub template_create-accepted :
      (memory : Bool) (id handle : ℕ) (list : List Template) (s : S)
      → Falling uint32_max list
      → id ≤ uint32_max
      → (d.create s).1 ≡ inl handle
      → (((template_create d memory id list s).list ≡ list)
          × Outcome none memory id list (failed (template_create d memory id list s).ret))
        ⊎ ((i : ℕ) × (id ≢ uint32_max → i ≡ id)
            × ((template_create d memory id list s).ret ≡ 0)
            × Falling uint32_max (template_create d memory id list s).list
            × Adds
                (record { id = i; item = some handle })
                list
                (template_create d memory id list s).list)
  template_create-accepted memory id handle list s f h r =
      elim (Alloc-cases (template_alloc none memory id list)) [
        | inl (code, a) ↦ inl (
            rw (create-failed memory id code list s a)
              (refl, rw a at (template_alloc_lem none memory id list f h)))
        | inr (i, new, a) ↦
            let (room, below, given, falls, (absent, here, others)) =
              rw a at (template_alloc_lem none memory id list f h) in
            inr (
              rw (create-accepted memory id i handle list new s a r) (
                i,
                given,
                refl,
                Falling-set_handle uint32_max i handle new falls,
                (
                  absent,
                  find_id-set_handle i handle none new here,
                  λ other ne. find_id-set_handle_ne i other handle new ne ∙ others other ne,
                ),
              ))
      ]
