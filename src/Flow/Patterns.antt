-- ===== src/Flow/Patterns.antt =====
-- `port_flow_pattern_template_create`, `port_flow_pattern_template_destroy` and
-- `port_flow_pattern_template_flush`, with the same functions for action templates, on the list of
-- one port, and on a port by its number. The driver's state is a parameter, and so are its answers.
pub mod Removal
pub mod Creation
use udx_fastpath.Base.{
  ℕ, ◌≡◌, Bool, true, false, ◌||◌, Option, none, some, List, [], ◌∷◌, get_elem?, set, ◌==◌,
  if◌then◌else◌, ◌⊎◌, inl, inr,
}
use udx_fastpath.Flow.Loops.{Result, destroy_each, flush_each}
use udx_fastpath.Select.Platform.{Platform}
use udx_fastpath.Flow.Nodes.{Node, Alloc, failed, allocated, einval, template_alloc, bad_port}

-- `rte_flow_pattern_template_create` (or `_actions_template_`), whose answer is a handle or an errno, and
-- `rte_flow_pattern_template_destroy`, whose answer is an errno or nothing.
pub record Driver (S : Type 0) : Type 0 where
  pub create : S → S × (ℕ ⊎ ℕ)
  pub destroy : S → ℕ → S × Option ℕ

-- A template: the driver's handle, if there is one.
abbrev pub Template : Type 0
Template = Node (Option ℕ)

-- The handle is stored in the node that was allocated.
pub set_handle : ℕ → ℕ → List Template → List Template
set_handle id handle [] = []
set_handle id handle (t ∷ ts) =
    let rest = set_handle id handle ts in
    if t.id == id then record t { item = some handle } ∷ ts else t ∷ rest

module _ {S : Type 0} (d : Driver S) where
  -- The driver's object is released, where there is one: an errno if the driver refuses.
  unfoldable pub release : Template → S → S × Option ℕ
  release t s = elim t.item [ none ↦ (s, none) | some handle ↦ d.destroy s handle ]

  -- The functions on the list of one port.
  unfoldable pub templates_destroy : List ℕ → List Template → S → Result S Template
  templates_destroy ids list s = destroy_each (λ t. t.id) release ids list s 0

  unfoldable pub templates_flush : List Template → S → Result S Template
  templates_flush list s = flush_each release list s 0

  pub create_allocated : S → ℕ → List Template → Result S Template
  create_allocated s id list =
      let made = d.create s in
      elim made.1 [
        | inl handle ↦ record { driver = made.0; list = set_handle id handle list; ret = 0 }
        | inr errno ↦ record (templates_destroy (id ∷ []) list made.0) { ret = errno }
      ]

  pub create_from : Alloc (Option ℕ) → List Template → S → Result S Template
  create_from (failed code) list s = record { driver = s; list = list; ret = code }
  create_from (allocated i list') list s = create_allocated s i list'

  -- `memory` tells whether the allocation of a node finds some.
  unfoldable pub template_create : Bool → ℕ → List Template → S → Result S Template
  template_create memory id list s = create_from (template_alloc none memory id list) list s

module _ {S : Type 0} where
  -- A function on the list of `ports[port_id]`, behind the check of the port's number: the
  -- lists of the ports, the driver's state and the return code; out of bounds is a fault.
  unfoldable pub on_templates :
      Platform
      → List (List Template)
      → ℕ
      → S
      → (List Template → S → Result S Template)
      → Option (List (List Template) × (S × ℕ))
  on_templates p ports port_id s op =
      if bad_port p port_id then some (ports, (s, einval)) else elim (get_elem? ports port_id) [
        | none ↦ none
        | some list ↦ let r = op list s in some (set ports port_id r.list, (r.driver, r.ret))
      ]

  unfoldable pub port_flow_pattern_template_create :
      Platform
      → Driver S
      → Bool
      → List (List Template)
      → ℕ
      → ℕ
      → S
      → Option (List (List Template) × (S × ℕ))
  port_flow_pattern_template_create p d memory ports port_id id s =
      on_templates p ports port_id s (template_create d memory id)

  unfoldable pub port_flow_pattern_template_destroy :
      Platform
      → Driver S
      → List (List Template)
      → ℕ
      → List ℕ
      → S
      → Option (List (List Template) × (S × ℕ))
  port_flow_pattern_template_destroy p d ports port_id template s =
      on_templates p ports port_id s (templates_destroy d template)

  unfoldable pub port_flow_pattern_template_flush :
      Platform → Driver S → List (List Template) → ℕ → S → Option (List (List Template) × (S × ℕ))
  port_flow_pattern_template_flush p d ports port_id s =
      on_templates p ports port_id s (templates_flush d)

  -- The action templates of the ports, `actions_templ_list`, with the driver's functions for these.
  unfoldable pub port_flow_actions_template_create :
      Platform
      → Driver S
      → Bool
      → List (List Template)
      → ℕ
      → ℕ
      → S
      → Option (List (List Template) × (S × ℕ))
  port_flow_actions_template_create p d memory ports port_id id s =
      on_templates p ports port_id s (template_create d memory id)

  unfoldable pub port_flow_actions_template_destroy :
      Platform
      → Driver S
      → List (List Template)
      → ℕ
      → List ℕ
      → S
      → Option (List (List Template) × (S × ℕ))
  port_flow_actions_template_destroy p d ports port_id template s =
      on_templates p ports port_id s (templates_destroy d template)

  unfoldable pub port_flow_actions_template_flush :
      Platform → Driver S → List (List Template) → ℕ → S → Option (List (List Template) × (S × ℕ))
  port_flow_actions_template_flush p d ports port_id s =
      on_templates p ports port_id s (templates_flush d)
