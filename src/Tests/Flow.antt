-- ===== src/Tests/Flow.antt =====
-- A list of two pattern templates and a driver that counts: config.c, the objects of the flow API.
use Prim.{tt}
use udx_fastpath.Base.{
  ℕ, Bool, false, ◌+◌, ◌≡◌, ◌≢◌, refl, true, List, [], ◌∷◌, Option, none, some, arith, ◌==◌, inl,
  inr, ◌⊎◌, uint32_max, if◌then◌else◌,
}
use udx_fastpath.Flow.Nodes.{failed, template_alloc}
use udx_fastpath.Flow.Nodes.Order.{Falling, Adds, Outcome, template_alloc_lem}
use udx_fastpath.Flow.Loops.{try_ids, destroy_each, flush_each}
use udx_fastpath.Flow.Loops.Left.{unnamed}
use udx_fastpath.Flow.Patterns.{
  Driver, Template, release, templates_destroy, templates_flush, template_create,
}
use udx_fastpath.Flow.Tables.{TableDriver, FlowPort}
use udx_fastpath.Flow.Rules.{
  Rule, Wanted, RuleDriver, port_flow_create, release_rule, rules_destroy, port_flow_list,
}
use udx_fastpath.Flow.Rules.Kept.{NonzeroErrnos, Created, port_flow_create_lem}
use udx_fastpath.Flow.Rules.Sorted.{Sorted, count, of_groups, port_flow_list_lem}
use udx_fastpath.Flow.Patterns.Removal.{
  by_id, NonzeroErrno, templates_destroy_lem, templates_destroy-keeps,
}
use udx_fastpath.Flow.Patterns.Creation.{template_create-refused, template_create-accepted}

-- Handles count up, and the object of handle 9 is in use (EBUSY).
abbrev counting : Driver ℕ
counting = record {
  create = λ s. (s + 1, inl s);
  destroy = λ s handle. (s, if handle == 9 then some 16 else none);
}

-- A driver that makes nothing (EINVAL).
abbrev refusing : Driver ℕ
refusing = record { create = λ s. (s, inr 22); destroy = λ s handle. (s, none) }

abbrev template : ℕ → ℕ → Template
template id handle = record { id = id; item = some handle }

abbrev two_templates : List Template
two_templates = template 5 1 ∷ template 2 0 ∷ []

two_templates-Falling : Falling uint32_max two_templates
two_templates-Falling = (omega arith, (omega arith, tt))

counting-NonzeroErrno : NonzeroErrno counting
counting-NonzeroErrno s handle h = ground (arith, h)

template_alloc_lem_example :
    Outcome {A = Option ℕ} none true uint32_max two_templates
      (template_alloc none true uint32_max two_templates)
template_alloc_lem_example =
    template_alloc_lem none true uint32_max two_templates two_templates-Falling (omega arith)

destroys : (templates_destroy counting (5 ∷ []) two_templates 3).ret ≡ 0
unfolding templates_destroy destroy_each try_ids release
destroys = refl

templates_destroy_lem_example :
    (templates_destroy counting (5 ∷ []) two_templates 3).list
    ≡ unnamed by_id (5 ∷ []) two_templates
templates_destroy_lem_example =
    templates_destroy_lem counting (5 ∷ []) two_templates 3 counting-NonzeroErrno destroys

templates_destroy-keeps_example :
    unnamed by_id
      (4 ∷ [])
      (templates_destroy counting (4 ∷ []) (template 4 9 ∷ two_templates) 3).list
    ≡ unnamed by_id (4 ∷ []) (template 4 9 ∷ two_templates)
templates_destroy-keeps_example =
    templates_destroy-keeps counting (4 ∷ []) (template 4 9 ∷ two_templates) 3

flushes : (templates_flush counting two_templates 3).ret ≡ 0
unfolding templates_flush flush_each release
flushes = refl

template_create-refused_example :
    (template_create refusing true 3 two_templates 0).list ≡ two_templates
template_create-refused_example =
    template_create-refused refusing true 3 22 two_templates 0 two_templates-Falling refl

template_create-accepted_example :
    (((template_create counting true 3 two_templates 2).list ≡ two_templates)
      × Outcome {A = Option ℕ} none true 3 two_templates
          (failed (template_create counting true 3 two_templates 2).ret))
    ⊎ ((i : ℕ) × (3 ≢ uint32_max → i ≡ 3)
        × ((template_create counting true 3 two_templates 2).ret ≡ 0)
        × Falling uint32_max (template_create counting true 3 two_templates 2).list
        × Adds (template i 2) two_templates (template_create counting true 3 two_templates 2).list)
template_create-accepted_example =
    template_create-accepted counting true 3 2 two_templates 2 two_templates-Falling (omega arith)
      refl

-- A driver that makes no tables (EINVAL).
abbrev no_tables : TableDriver ℕ
no_tables = record { create = λ patterns actions s. (s, inr 22); destroy = λ s handle. (s, none) }

abbrev with_table : FlowPort
with_table = record {
  pattern_templ_list = two_templates;
  actions_templ_list = two_templates;
  table_list = template 1 7 ∷ [];
}

abbrev rules_driver : RuleDriver ℕ
rules_driver = record {
  new_rule = λ s. none;
  create = λ s. (s + 1, inl s);
  destroy = λ s flow. (s, none);
  flush = λ s. (s, none);
}

rules_driver-NonzeroErrnos : NonzeroErrnos rules_driver
rules_driver-NonzeroErrnos = record {
  copying = λ s h. cc;
  creating = λ s h. cc;
  destroying = λ s flow h. cc;
}

abbrev plain_rule : ℕ → ℕ → Rule
plain_rule id group = record { id = id; user_id = 0; group = group; priority = 0; flow = id }

abbrev two_rules : List Rule
two_rules = plain_rule 1 0 ∷ plain_rule 0 3 ∷ []

abbrev third_rule : Wanted
third_rule = record { attr_group = 3; attr_priority = 0; number = 0; tunnel_ready = true }

port_flow_create_lem_example :
    Created rules_driver third_rule two_rules 2
      (port_flow_create rules_driver third_rule two_rules 2)
port_flow_create_lem_example =
    port_flow_create_lem rules_driver third_rule two_rules 2 rules_driver-NonzeroErrnos
      (omega arith, (omega arith, tt))

destroys_rule : (rules_destroy rules_driver false (1 ∷ []) two_rules 2).ret ≡ 0
unfolding rules_destroy destroy_each try_ids release_rule
destroys_rule = refl

port_flow_list_lem_example :
    Sorted (port_flow_list [] two_rules)
    × ((test : Rule → Bool)
        → count test (port_flow_list [] two_rules) ≡ count test (of_groups [] two_rules))
port_flow_list_lem_example = port_flow_list_lem [] two_rules
