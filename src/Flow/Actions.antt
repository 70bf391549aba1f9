-- ===== src/Flow/Actions.antt =====
-- config.c, `port_action_handle_destroy` and `port_action_handle_flush`: the list of the indirect
-- actions of a port. A result is the errno, or 0.
use udx_fastpath.Base.{
  ℕ, ◌≡◌, refl, ap, sym, inl, inr, Option-cases, Bool, true, false, Option, none, some, List, [],
  ◌∷◌, ◌==◌, if◌then◌else◌, get_elem?, set,
}
use mathlib.Core.Path.{subst}
use udx_fastpath.Select.Platform.{Platform}
use udx_fastpath.Flow.Nodes.{Node, bad_port, einval}
use udx_fastpath.Flow.Loops.{Result, Tried}

-- `struct port_indirect_action`, without its number: whether the type is
-- RTE_FLOW_ACTION_TYPE_INDIRECT_LIST, and the handle, if it is not NULL.
pub record Action (H : Type 0) : Type 0 where
  pub is_list : Bool
  pub handle : Option H

-- `destroy` is the driver: `rte_flow_action_list_handle_destroy` or `rte_flow_action_handle_destroy`,
-- with an errno if it refuses.
module _ {S H : Type 0} (destroy : Bool → H → S → S × Option ℕ) where
  -- The loop over the numbers, for one action. Each answer of the driver replaces `ret`.
  pub try_action : Node (Action H) → List ℕ → S → ℕ → Tried S
  try_action t [] s ret = record { state = s; code = ret; gone = false }
  try_action t (x ∷ xs) s ret =
      let other = try_action t xs s ret in
      let found : Tried S = elim t.item.handle [
        | none ↦ record { state = s; code = ret; gone = true }
        | some h ↦
            let r = destroy t.item.is_list h s in
            elim r.1 [
              | none ↦ record { state = r.0; code = 0; gone = true }
              | some errno ↦ try_action t xs r.0 errno
            ]
      ] in
      if x == t.id then found else other

  pub destroy_actions : List ℕ → List (Node (Action H)) → S → ℕ → Result S (Node (Action H))
  unfolding try_action
  destroy_actions ids [] s ret = record { driver = s; list = []; ret = ret }
  destroy_actions ids (t ∷ ts) s ret =
      let tried = try_action t ids s ret in
      let rest = destroy_actions ids ts tried.state tried.code in
      if tried.gone then rest else record rest { list = t ∷ rest.list }

  -- The code of an answer.
  abbrev pub answer : Option ℕ → ℕ
  answer none = 0
  answer (some errno) = errno

  -- An action with a handle stays in the list, whatever the driver answers.
  pub flush_actions : List (Node (Action H)) → S → ℕ → Result S (Node (Action H))
  flush_actions [] s ret = record { driver = s; list = []; ret = ret }
  flush_actions (t ∷ ts) s ret = elim t.item.handle [
    | none ↦ flush_actions ts s ret
    | some h ↦
        let r = destroy t.item.is_list h s in
        let rest = flush_actions ts r.0 (answer r.1) in record rest { list = t ∷ rest.list }
  ]

  -- `none` is an access past the end of `ports`.
  unfoldable pub port_action_handle_destroy :
      Platform
      → List (List (Node (Action H)))
      → ℕ
      → List ℕ
      → S
      → Option (S × List (List (Node (Action H))) × ℕ)
  unfolding destroy_actions
  port_action_handle_destroy p ports port_id ids s =
      if bad_port p port_id then some (s, ports, einval) else elim (get_elem? ports port_id) [
        | none ↦ none
        | some list ↦
            let r = destroy_actions ids list s 0 in some (r.driver, set ports port_id r.list, r.ret)
      ]

  unfoldable pub port_action_handle_flush :
      Platform
      → List (List (Node (Action H)))
      → ℕ
      → S
      → Option (S × List (List (Node (Action H))) × ℕ)
  unfolding flush_actions
  port_action_handle_flush p ports port_id s =
      if bad_port p port_id then some (s, ports, einval) else elim (get_elem? ports port_id) [
        | none ↦ none
        | some list ↦
            let r = flush_actions list s 0 in some (r.driver, set ports port_id r.list, r.ret)
      ]

  -- The actions that have a handle.
  abbrev with_handle : List (Node (Action H)) → List (Node (Action H))
  with_handle [] = []
  with_handle (t ∷ ts) = elim t.item.handle [ none ↦ with_handle ts | some h ↦ t ∷ with_handle ts ]

  -- A flush leaves the actions that have a handle in the list, whatever the driver answers.
  pub flush_actions-with_handle :
      (list : List (Node (Action H))) (s : S) (ret : ℕ)
      → (flush_actions list s ret).list ≡ with_handle list
  unfolding flush_actions
  flush_actions-with_handle [] s ret = refl
  flush_actions-with_handle (t ∷ ts) s ret =
      let F : Option H → Result S (Node (Action H)) = λ o. elim o [
        | none ↦ flush_actions ts s ret
        | some h ↦
            let r = destroy t.item.is_list h s in
            let rest = flush_actions ts r.0 (answer r.1) in record rest { list = t ∷ rest.list }
      ] in
      let G : Option H → List (Node (Action H)) =
        λ o. elim o [ none ↦ with_handle ts | some h ↦ t ∷ with_handle ts ] in
      elim (Option-cases t.item.handle) [
        | inl e ↦ subst (λ o. (F o).list ≡ G o) (sym e) (flush_actions-with_handle ts s ret)
        | inr (h, e) ↦
            let r = destroy t.item.is_list h s in
            subst (λ o. (F o).list ≡ G o) (sym e)
              (ap (λ xs. t ∷ xs) (flush_actions-with_handle ts r.0 (answer r.1)))
      ]
