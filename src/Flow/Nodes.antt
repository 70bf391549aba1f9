-- ===== src/Flow/Nodes.antt =====
-- `template_alloc`, `table_alloc`, `action_alloc` and `action_get_by_id`.
pub mod Order
use udx_fastpath.Base.{
  ℕ, ◌+◌, ◌-◌, ◌≡◌, Bool, true, false, ◌||◌, Option, none, some, List, [], ◌∷◌, get_elem?, set, ltb,
  ◌==◌, if◌then◌else◌, uint32_max,
}
use udx_fastpath.Select.Platform.{Platform, port_all, port_id_is_invalid}

-- EINVAL and ENOMEM
abbrev pub einval : ℕ
einval = 22

abbrev pub enomem : ℕ
enomem = 12

-- A node of a list: the number of an object, and the rest of the object.
pub record Node (A : Type 0) : Type 0 where
  pub id : ℕ
  pub item : A

module _ {A : Type 0} where
  -- The number that the allocation uses: UINT32_MAX asks for the first free one, which is not
  -- there once the highest is assigned.
  pub pick_id : ℕ → List (Node A) → Option ℕ
  pick_id id [] = some (if id == uint32_max then 0 else id)
  pick_id id (t ∷ ts) =
      if id == uint32_max
      then (if t.id == uint32_max - 1 then none else some (t.id + 1))
      else some id

  -- The node is linked in behind those of a higher number; `none` if its number is assigned.
  unfoldable pub link : Node A → List (Node A) → Option (List (Node A))
  link n [] = some (n ∷ [])
  link n (t ∷ ts) =
      let rest = link n ts in
      if ltb n.id t.id
      then elim rest [ none ↦ none | some ns ↦ some (t ∷ ns) ]
      else (if t.id == n.id then none else some (n ∷ t ∷ ts))

  unfoldable pub find_id : ℕ → List (Node A) → Option (Node A)
  find_id id [] = none
  find_id id (t ∷ ts) = let rest = find_id id ts in if t.id == id then some t else rest

-- What an allocation returns: an error, or the number and the longer list.
pub data Alloc (A : Type 0) : Type 0 where
  failed : ℕ → Alloc A
  allocated : ℕ → List (Node A) → Alloc A

-- The guard of the functions on a port. Each port keeps its lists; out of bounds is a fault.
unfoldable pub bad_port : Platform → ℕ → Bool
bad_port p port_id = port_id_is_invalid p port_id || port_id == port_all

module _ {A : Type 0} where
  unfoldable pub linked : ℕ → Option (List (Node A)) → Alloc A
  linked id none = failed einval
  linked id (some list) = allocated id list

  -- The allocations below the choice of a number; `calloc` makes the item `blank` where it finds
  -- memory.
  unfoldable pub alloc_picked : A → Bool → List (Node A) → Option ℕ → Alloc A
  alloc_picked blank memory list none = failed enomem
  alloc_picked blank memory list (some id) =
      if memory then linked id (link (record { id = id; item = blank }) list) else failed enomem

  unfoldable pub template_alloc : A → Bool → ℕ → List (Node A) → Alloc A
  template_alloc blank memory id list = alloc_picked blank memory list (pick_id id list)

  -- The same code for the tables of templates.
  unfoldable pub table_alloc : A → Bool → ℕ → List (Node A) → Alloc A
  table_alloc blank memory id list = alloc_picked blank memory list (pick_id id list)

  unfoldable pub action_get_by_id :
      Platform → List (List (Node A)) → ℕ → ℕ → Option (Option (Node A))
  action_get_by_id p ports port_id id =
      if bad_port p port_id
      then some none
      else elim (get_elem? ports port_id) [ none ↦ none | some list ↦ some (find_id id list) ]

  unfoldable pub action_alloc :
      A → Bool → Platform → List (List (Node A)) → ℕ → ℕ → Option (Alloc A)
  action_alloc blank memory p ports port_id id =
      if bad_port p port_id then some (failed einval) else elim (get_elem? ports port_id) [
        | none ↦ none
        | some list ↦ some (alloc_picked blank memory list (pick_id id list))
      ]
