-- ===== src/Params/Headers/Room.antt =====
-- When `parse_hdrs_list` of lib/core/dpdk/util.c stays in its array.
use udx_fastpath.Base.{
  ℕ, zero, suc, ◌+◌, ◌≤◌, ◌<◌, ◌≡◌, ◌≢◌, refl, map, length-map, get_elem?-set_self,
  get_elem?-set_ne, ap, ◌∙◌, none, some, List, [], ◌∷◌, length, set, length-set, store, store-lt,
  get_elem?, arith, leb, leb→le, Bool-cases, inl, inr,
}
use mathlib.Core.Option
use udx_fastpath.Params.Headers.Names.{
  Header, header_name, layers, or_all, get_ptype-header_name, get_ptype-unknown,
}
use udx_fastpath.Params.Headers.{PtypeMasks, get_ptype, strtok, store_ptypes, parse_hdrs_list}

-- The entries from position `i` on are those of `vs`, and the others are as before.
abbrev Holds : ℕ → List ℕ → List ℕ → List ℕ → Type 0
Holds i vs items out =
    (length out ≡ length items)
    × ((j : ℕ) → j < i → get_elem? out j ≡ get_elem? items j)
    × ((j : ℕ) → j < length vs → get_elem? out (i + j) ≡ get_elem? vs j)
    × ((j : ℕ) → i + length vs ≤ j → get_elem? out j ≡ get_elem? items j)

-- A write at `i`, and then those behind it.
Holds-cons :
    (i v : ℕ) (vs items out : List ℕ)
    → i < length items
    → Holds (suc i) vs (set items i v) out
    → Holds i (v ∷ vs) items out
Holds-cons i v vs items out room (size, front, mid, past) = (
  size ∙ length-set items i v,
  λ j lt. front j (omega arith) ∙ get_elem?-set_ne items i j v (λ e. absurd (omega (arith, e))),
  λ j. elim j as (λ k. k < suc (length vs) → get_elem? out (i + k) ≡ get_elem? (v ∷ vs) k) [
    | zero ↦ λ lt.
        ap (get_elem? out) (omega arith) ∙ front i (omega arith) ∙ get_elem?-set_self items i v room
    | suc k ↦ λ lt. ap (get_elem? out) (omega arith) ∙ mid k (omega arith)
  ],
  λ j le. past j (omega arith) ∙ get_elem?-set_ne items i j v (λ e. absurd (omega (arith, e, le))),
)

store_ptypes-fits :
    (m : PtypeMasks) (i : ℕ) (ts : List (List ℕ)) (items : List ℕ)
    → i + length ts ≤ length items
    → (out : List ℕ) × (store_ptypes m i ts items ≡ some (i + length ts, out))
      × Holds i (map (get_ptype m) ts) items out
unfolding store_ptypes
store_ptypes-fits m i [] items h = (
  items,
  ap (λ k. some (k, items)) (omega arith),
  (refl, λ j lt. refl, λ j lt. absurd (omega arith), λ j le. refl),
)
store_ptypes-fits m i (t ∷ ts) items h =
    let next = set items i (get_ptype m t) in
    let same = length-set items i (get_ptype m t) in
    let (out, e, holds) = store_ptypes-fits m (suc i) ts next (omega (arith, same)) in
    (
      out,
      rw (store-lt items i (get_ptype m t) (omega arith))
          (e ∙ ap (λ k. some (k, out)) (omega arith)),
      Holds-cons i (get_ptype m t) (map (get_ptype m) ts) items out (omega arith) holds,
    )

get_elem?-map :
    (f : List ℕ → ℕ) (xs : List (List ℕ)) (j : ℕ)
    → get_elem? (map f xs) j ≡ Option.map f (get_elem? xs j)
get_elem?-map f [] j = refl
get_elem?-map f (x ∷ xs) zero = refl
get_elem?-map f (x ∷ xs) (suc j) = get_elem?-map f xs j

get_elem?-past : (xs : List ℕ) (i : ℕ) → length xs ≤ i → get_elem? xs i ≡ none
get_elem?-past [] i h = refl
get_elem?-past (x ∷ xs) zero h = absurd (omega arith)
get_elem?-past (x ∷ xs) (suc i) h = get_elem?-past xs i (omega arith)

store-past : (xs : List ℕ) (i v : ℕ) → length xs ≤ i → store xs i v ≡ none
store-past xs i v h = ground (arith, get_elem?-past xs i h)

store_ptypes-faults :
    (m : PtypeMasks) (i : ℕ) (ts : List (List ℕ)) (items : List ℕ)
    → i ≤ length items
    → length items < i + length ts
    → store_ptypes m i ts items ≡ none
unfolding store_ptypes
store_ptypes-faults m i [] items k h = absurd (omega arith)
store_ptypes-faults m i (t ∷ ts) items k h =
    let next = set items i (get_ptype m t) in
    let same = length-set items i (get_ptype m t) in
    elim (Bool-cases (leb (length items) i)) [
      | inl e ↦ rw (store-past items i (get_ptype m t) (leb→le (length items) i e)) refl
      | inr e ↦
          rw (store-lt items i (get_ptype m t) (ground (arith, e)))
            (store_ptypes-faults m (suc i) ts next (ground (arith, e, same)) (omega (arith, same)))
    ]

-- If the array has room for the names of the list, their number is returned, each entry is the mask
-- of its name, the entries behind are as before and the array keeps its size; otherwise the parser
-- writes past the array. The mask of the name of a header is that of its layers, or-ed, and that of
-- any other name is 0.
pub parse_hdrs_list_lem :
    (m : PtypeMasks) (str items : List ℕ)
    → (length (strtok str) ≤ length items
        → (out : List ℕ) × (parse_hdrs_list m str items ≡ some (length (strtok str), out))
          × (length out ≡ length items)
          × ((j : ℕ)
              → j < length (strtok str)
              → get_elem? out j ≡ Option.map (get_ptype m) (get_elem? (strtok str) j))
          × ((j : ℕ) → length (strtok str) ≤ j → get_elem? out j ≡ get_elem? items j))
      × (length items < length (strtok str) → parse_hdrs_list m str items ≡ none)
      × ((h : Header) → get_ptype m (header_name h) ≡ or_all (layers m h))
      × ((value : List ℕ) → ((h : Header) → value ≢ header_name h) → get_ptype m value ≡ 0)
unfolding parse_hdrs_list
parse_hdrs_list_lem m str items = (
  λ h.
      let (out, e, (size, front, mid, past)) =
        store_ptypes-fits m 0 (strtok str) items (omega arith) in
      let many = length-map (get_ptype m) (strtok str) in
      (
        out,
        e ∙ ap (λ k. some (k, out)) (omega arith),
        size,
        λ j lt.
            ap (get_elem? out) (omega arith)
            ∙ mid j (omega (arith, many))
            ∙ get_elem?-map (get_ptype m) (strtok str) j,
        λ j le. past j (omega (arith, many)),
      ),
  λ h. store_ptypes-faults m 0 (strtok str) items (omega arith) (omega arith),
  get_ptype-header_name m,
  get_ptype-unknown m,
)
