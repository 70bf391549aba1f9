-- ===== src/Flow/Tables.antt =====
-- `port_flow_template_table_create`, `port_flow_template_table_destroy` and
-- `port_flow_template_table_flush`: tables are made of templates that the port has. What a table
-- keeps beside the driver's handle is left out.
use udx_fastpath.Base.{
  ℕ, Bool, Option, none, some, List, [], ◌∷◌, get_elem?, set, if◌then◌else◌, ◌⊎◌, ◌>>=◌, ◌≡◌, refl,
  inr, uint32_max,
}
use udx_fastpath.Select.Platform.{Platform}
use udx_fastpath.Flow.Nodes.{einval, table_alloc, template_alloc, find_id, bad_port}
use udx_fastpath.Flow.Nodes.Order.{Falling}
use udx_fastpath.Flow.Loops.{Result}
use udx_fastpath.Flow.Patterns.{
  Driver, Template, create_from, template_create, templates_destroy, templates_flush,
}
use udx_fastpath.Flow.Patterns.Creation.{template_create-refused}

-- `rte_flow_template_table_create` takes the handles of the templates.
pub record TableDriver (S : Type 0) : Type 0 where
  pub create : List (Option ℕ) → List (Option ℕ) → S → S × (ℕ ⊎ ℕ)
  pub destroy : S → ℕ → S × Option ℕ

-- The lists of a port.
pub record FlowPort : Type 0 where
  pub pattern_templ_list : List Template
  pub actions_templ_list : List Template
  pub table_list : List Template

-- The loops over the numbers of templates: the handles, or `none` if a number is invalid.
unfoldable pub find_handles : List Template → List ℕ → Option (List (Option ℕ))
find_handles list [] = some []
find_handles list (id ∷ ids) = do
  t ← find_id id list
  handles ← find_handles list ids
  some (t.item ∷ handles)

module _ {S : Type 0} (d : TableDriver S) where
  -- The driver for tables with these templates.
  abbrev pub with_templates : List (Option ℕ) → List (Option ℕ) → Driver S
  with_templates patterns actions = record {
    create = λ s. d.create patterns actions s;
    destroy = d.destroy;
  }

  pub table_of :
      List (Option ℕ) → List (Option ℕ) → Bool → ℕ → List Template → S → Result S Template
  table_of patterns actions memory id list s =
      create_from (with_templates patterns actions) (table_alloc none memory id list) list s

  -- The part below the lookup of the templates.
  pub table_found :
      Option (List (Option ℕ))
      → Option (List (Option ℕ))
      → Bool
      → ℕ
      → List Template
      → S
      → Result S Template
  table_found none actions memory id list s = record { driver = s; list = list; ret = einval }
  table_found (some patterns) none memory id list s = record {
    driver = s;
    list = list;
    ret = einval;
  }
  table_found (some patterns) (some actions) memory id list s =
      table_of patterns actions memory id list s

  pub template_table_create : Bool → ℕ → List ℕ → List ℕ → FlowPort → S → Result S Template
  template_table_create memory id pattern_templates actions_templates port s =
      table_found (find_handles port.pattern_templ_list pattern_templates)
        (find_handles port.actions_templ_list actions_templates) memory id port.table_list s

  -- A function on `ports[port_id]`, behind the check of the port's number.
  unfoldable pub on_tables :
      Platform
      → List FlowPort
      → ℕ
      → S
      → (FlowPort → S → Result S Template)
      → Option (List FlowPort × (S × ℕ))
  on_tables p ports port_id s op =
      if bad_port p port_id then some (ports, (s, einval)) else elim (get_elem? ports port_id) [
        | none ↦ none
        | some port ↦
            let r = op port s in
            some (set ports port_id (record port { table_list = r.list }), (r.driver, r.ret))
      ]

  unfoldable pub port_flow_template_table_create :
      Platform
      → Bool
      → List FlowPort
      → ℕ
      → ℕ
      → List ℕ
      → List ℕ
      → S
      → Option (List FlowPort × (S × ℕ))
  port_flow_template_table_create p memory ports port_id id pattern_templates actions_templates s =
      on_tables p ports port_id s
        (template_table_create memory id pattern_templates actions_templates)

  unfoldable pub port_flow_template_table_destroy :
      Platform → List FlowPort → ℕ → List ℕ → S → Option (List FlowPort × (S × ℕ))
  port_flow_template_table_destroy p ports port_id table s =
      on_tables p ports port_id s
        (λ port. templates_destroy (with_templates [] []) table port.table_list)

  unfoldable pub port_flow_template_table_flush :
      Platform → List FlowPort → ℕ → S → Option (List FlowPort × (S × ℕ))
  port_flow_template_table_flush p ports port_id s =
      on_tables p ports port_id s (λ port. templates_flush (with_templates [] []) port.table_list)

  table_alloc-eq :
      (memory : Bool) (id : ℕ) (list : List Template)
      → table_alloc none memory id list ≡ template_alloc none memory id list
  unfolding table_alloc template_alloc
  table_alloc-eq memory id list = refl

  table_of-refused :
      (patterns actions : List (Option ℕ)) (memory : Bool) (id e : ℕ) (list : List Template) (s : S)
      → Falling uint32_max list
      → (d.create patterns actions s).1 ≡ inr e
      → (table_of patterns actions memory id list s).list ≡ list
  unfolding table_of
  table_of-refused patterns actions memory id e list s f r = rw (table_alloc-eq memory id list) (
      unfold template_create in
      template_create-refused (with_templates patterns actions) memory id e list s f r)

  table_found_lem :
      (patterns actions : Option (List (Option ℕ))) (memory : Bool) (id : ℕ) (list : List Template)
      (s : S)
      → Falling uint32_max list
      → ((ps acts : List (Option ℕ))
          → patterns ≡ some ps
          → actions ≡ some acts
          → (e : ℕ) × ((d.create ps acts s).1 ≡ inr e))
      → (table_found patterns actions memory id list s).list ≡ list
  unfolding table_found
  table_found_lem none actions memory id list s f h = refl
  table_found_lem (some ps) none memory id list s f h = refl
  table_found_lem (some ps) (some acts) memory id list s f h =
      let (e, r) = h ps acts refl refl in table_of-refused ps acts memory id e list s f r

  -- If the numbers of the tables fall, a creation of a table leaves the list of tables as it was if
  -- a template is missing, or if the driver refuses the templates' handles.
  pub template_table_create-refused :
      (memory : Bool) (id : ℕ) (pattern_templates actions_templates : List ℕ) (port : FlowPort)
      (s : S)
      → Falling uint32_max port.table_list
      → ((patterns actions : List (Option ℕ))
          → find_handles port.pattern_templ_list pattern_templates ≡ some patterns
          → find_handles port.actions_templ_list actions_templates ≡ some actions
          → (e : ℕ) × ((d.create patterns actions s).1 ≡ inr e))
      → (template_table_create memory id pattern_templates actions_templates port s).list
        ≡ port.table_list
  unfolding template_table_create
  template_table_create-refused memory id pattern_templates actions_templates port s f h =
      table_found_lem (find_handles port.pattern_templ_list pattern_templates)
        (find_handles port.actions_templ_list actions_templates) memory id port.table_list s f h
