-- ===== src/Flow/Nodes/Order.antt =====
-- The order of a list of nodes and the numbers that an allocation takes.
use udx_fastpath.Base.{
  ℕ, ◌+◌, ◌-◌, ◌≤◌, ◌<◌, ◌≡◌, ◌≢◌, refl, Bool, true, false, ◌⊎◌, inl, inr, none, some, List, [],
  ◌∷◌, uint32_max, arith,
}
use native.Mathlib.Decide.{ℕ_discrete, dec_lt}
use Prim.{Unit, tt}
use udx_fastpath.Flow.Nodes.{
  Node, Alloc, failed, allocated, einval, enomem, pick_id, link, find_id, linked, alloc_picked,
  template_alloc,
}

module _ {A : Type 0} where
  -- The numbers fall strictly from `top` on, and UINT32_MAX is no number.
  abbrev pub Falling : ℕ → List (Node A) → Type 0
  Falling top [] = Unit
  Falling top (t ∷ ts) = (t.id < top) × Falling t.id ts

  -- The list has what a lookup finds in `old`, and the node `n`.
  abbrev pub Adds : Node A → List (Node A) → List (Node A) → Type 0
  Adds n old new =
      (find_id n.id old ≡ none)
      × (find_id n.id new ≡ some n)
      × ((id : ℕ) → id ≢ n.id → find_id id new ≡ find_id id old)

  find_id-above :
      (top id : ℕ) (ts : List (Node A)) → Falling top ts → top ≤ id → find_id id ts ≡ none
  unfolding find_id
  find_id-above top id [] s h = refl
  find_id-above top id (t ∷ ts) s h =
      ground (arith, s.0, find_id-above t.id id ts s.1 (omega (arith, s.0)))

  link_lem :
      (top : ℕ) (n : Node A) (ts : List (Node A))
      → Falling top ts
      → n.id < top
      → ((link n ts ≡ none) × (find_id n.id ts ≢ none))
        ⊎ ((ns : List (Node A)) × (link n ts ≡ some ns) × Falling top ns × Adds n ts ns)
  unfolding link find_id
  link_lem top n [] s h = inr (n ∷ [], refl, (h, tt), (refl, ground arith, λ id ne. ground arith))
  link_lem top n (t ∷ ts) s h = elim (dec_lt n.id t.id) [
    | yes lt ↦ elim (link_lem t.id n ts s.1 lt) [
      | inl (fails, there) ↦ inl (ground arith, λ e. there (ground (arith, e)))
      | inr (ns, links, falls, (absent, here, others)) ↦ inr (
        t ∷ ns,
        ground (arith, links),
        (s.0, falls),
        (ground (arith, absent), ground (arith, here), λ id ne. ground (arith, others id ne)),
      )
    ]
    | no ge ↦ elim (ℕ_discrete t.id n.id) [
      | yes same ↦ inl (ground arith, λ e. ground (arith, e))
      | no ne ↦ inr (
        n ∷ t ∷ ts,
        ground arith,
        (h, (omega arith, s.1)),
        (
          find_id-above n.id n.id (t ∷ ts) (omega arith, s.1) (omega arith),
          ground arith,
          λ id neq. ground arith,
        ),
      )
    ]
  ]

  -- A number below UINT32_MAX is taken as it is; UINT32_MAX stands for a number that no node has.
  pick_id_lem :
      (id : ℕ) (list : List (Node A))
      → Falling uint32_max list
      → id ≤ uint32_max
      → ((pick_id id list ≡ none) × (id ≡ uint32_max) × (find_id (uint32_max - 1) list ≢ none))
        ⊎ ((i : ℕ) × (pick_id id list ≡ some i)
            × (i < uint32_max)
            × (((id ≢ uint32_max) × (i ≡ id)) ⊎ ((id ≡ uint32_max) × (find_id i list ≡ none))))
  unfolding pick_id find_id
  pick_id_lem id [] s h = elim (ℕ_discrete id uint32_max) [
    | yes e ↦ inr (0, ground arith, omega arith, inr (e, refl))
    | no ne ↦ inr (id, ground arith, omega arith, inl (ne, refl))
  ]
  pick_id_lem id (t ∷ ts) s h = elim (ℕ_discrete id uint32_max) [
    | no ne ↦ inr (id, ground arith, omega arith, inl (ne, refl))
    | yes e ↦ elim (ℕ_discrete t.id (uint32_max - 1)) [
      | yes top ↦ inl (ground arith, e, λ n. ground arith)
      | no ne ↦ inr (
        t.id + 1,
        ground arith,
        omega (arith, s.0),
        inr (e, find_id-above (t.id + 1) (t.id + 1) (t ∷ ts) (omega arith, s.1) (omega arith)),
      )
    ]
  ]

  -- What an allocation may return: a longer list in order, or an error for want of memory or of a
  -- number, or because the number is assigned.
  abbrev pub Outcome : A → Bool → ℕ → List (Node A) → Alloc A → Type 0
  Outcome blank memory id list (allocated i new) =
      (memory ≡ true)
      × (i < uint32_max)
      × (id ≢ uint32_max → i ≡ id)
      × Falling uint32_max new
      × Adds (record { id = i; item = blank }) list new
  Outcome blank memory id list (failed code) =
      ((code ≡ einval) × (id ≢ uint32_max) × (find_id id list ≢ none))
      ⊎ ((code ≡ enomem)
          × ((memory ≡ false) ⊎ ((id ≡ uint32_max) × (find_id (uint32_max - 1) list ≢ none))))

  template_alloc-exhausted :
      (blank : A) (memory : Bool) (id : ℕ) (list : List (Node A))
      → pick_id id list ≡ none
      → template_alloc blank memory id list ≡ failed enomem
  unfolding template_alloc alloc_picked
  template_alloc-exhausted blank memory id list p = rw p

  template_alloc-picked :
      (blank : A) (id i : ℕ) (list : List (Node A))
      → pick_id id list ≡ some i
      → template_alloc blank false id list ≡ failed enomem
  unfolding template_alloc alloc_picked linked
  template_alloc-picked blank id i list p = rw p

  template_alloc-linked :
      (blank : A) (id i : ℕ) (list new : List (Node A))
      → pick_id id list ≡ some i
      → link (record { id = i; item = blank }) list ≡ some new
      → template_alloc blank true id list ≡ allocated i new
  unfolding template_alloc alloc_picked linked
  template_alloc-linked blank id i list new p q = rw (p, q)

  template_alloc-assigned :
      (blank : A) (id i : ℕ) (list : List (Node A))
      → pick_id id list ≡ some i
      → link (record { id = i; item = blank }) list ≡ none
      → template_alloc blank true id list ≡ failed einval
  unfolding template_alloc alloc_picked linked
  template_alloc-assigned blank id i list p q = rw (p, q)

  with_memory :
      (blank : A) (id i : ℕ) (list : List (Node A))
      → Falling uint32_max list
      → pick_id id list ≡ some i
      → i < uint32_max
      → ((id ≢ uint32_max) × (i ≡ id)) ⊎ ((id ≡ uint32_max) × (find_id i list ≡ none))
      → Outcome blank true id list (template_alloc blank true id list)
  with_memory blank id i list s p l choice =
      elim (link_lem uint32_max (record { id = i; item = blank }) list s l) [
        | inl (fails, there) ↦ elim choice [
          | inl (given, same) ↦
              rw (template_alloc-assigned blank id i list p fails)
                (inl (refl, given, rw (← same) there))
          | inr (free, absent) ↦ absurd (there absent)
        ]
        | inr (new, links, falls, adds) ↦ rw (template_alloc-linked blank id i list new p links) (
          refl,
          l,
          λ given. elim choice [ inl (g, same) ↦ same | inr (free, a) ↦ absurd (given free) ],
          falls,
          adds,
        )
      ]

  -- The allocation of a template in a list whose numbers fall ends in a longer list that still
  -- falls, with a blank node of the number asked for (for UINT32_MAX, of a number that no node had)
  -- and all other nodes as before; or in an error: -EINVAL for a number that is assigned, -ENOMEM
  -- for want of memory or, for UINT32_MAX, if the highest number is assigned.
  pub template_alloc_lem :
      (blank : A) (memory : Bool) (id : ℕ) (list : List (Node A))
      → Falling uint32_max list
      → id ≤ uint32_max
      → Outcome blank memory id list (template_alloc blank memory id list)
  template_alloc_lem blank memory id list s h = elim (pick_id_lem id list s h) [
    | inl (none_left, all, there) ↦
        rw (template_alloc-exhausted blank memory id list none_left) (inr (refl, inr (all, there)))
    | inr (i, picks, l, choice) ↦
        elim memory as (λ m. Outcome blank m id list (template_alloc blank m id list)) [
          | true ↦ with_memory blank id i list s picks l choice
          | false ↦ rw (template_alloc-picked blank id i list picks) (inr (refl, inl refl))
        ]
  ]
