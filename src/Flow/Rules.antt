-- ===== src/Flow/Rules.antt =====
-- The flow rules of a port: `port_flow_create`, `port_flow_destroy`, `port_flow_flush` and the order
-- in which `port_flow_list` prints them.
pub mod Kept
pub mod Sorted
use udx_fastpath.Base.{
  ℕ, ◌+◌, ◌≡◌, Bool, true, false, not, ◌&&◌, ◌||◌, Option, none, some, List, [], ◌∷◌, get_elem?,
  set, ltb, ◌==◌, if◌then◌else◌, ◌⊎◌, inl, inr, uint32_max, length,
}
use udx_fastpath.Select.Platform.{Platform, contains}
use udx_fastpath.Flow.Nodes.{einval, enomem, bad_port}
use udx_fastpath.Flow.Loops.{Result, destroy_each}

-- ENOENT
abbrev pub enoent : ℕ
enoent = 2

-- `struct port_flow`, with the driver's flow and the part of the attributes that is sorted by.
pub record Rule : Type 0 where
  pub id : ℕ
  pub user_id : ℕ
  pub group : ℕ
  pub priority : ℕ
  pub flow : ℕ

-- What is asked for: the attributes, the number of the user, and whether the preparation of a tunnel,
-- if the rule has one, succeeds.
pub record Wanted : Type 0 where
  pub attr_group : ℕ
  pub attr_priority : ℕ
  pub number : ℕ
  pub tunnel_ready : Bool

-- `port_flow_new` copies the rule (`rte_flow_conv` and `calloc`), or has an errno;
-- `rte_flow_create`, `rte_flow_destroy` and `rte_flow_flush` are the driver's.
pub record RuleDriver (S : Type 0) : Type 0 where
  pub new_rule : S → Option ℕ
  pub create : S → S × (ℕ ⊎ ℕ)
  pub destroy : S → ℕ → S × Option ℕ
  pub flush : S → S × Option ℕ

-- The number of the next rule; `none` if the highest is assigned.
pub next_id : List Rule → Option ℕ
next_id [] = some 0
next_id (r ∷ rules) = if r.id == uint32_max then none else some (r.id + 1)

module _ {S : Type 0} (d : RuleDriver S) where
  -- The part below the choice of a number and the preparation of a tunnel.
  pub create_rule : Wanted → ℕ → List Rule → S → Result S Rule
  create_rule wanted id rules s =
      let made = d.create s in
      elim (d.new_rule s) [
        | some errno ↦ record { driver = s; list = rules; ret = errno }
        | none ↦ elim made.1 [
          | inr errno ↦ record { driver = made.0; list = rules; ret = errno }
          | inl flow ↦ record {
            driver = made.0;
            list =
                record {
                  id = id;
                  user_id = wanted.number;
                  group = wanted.attr_group;
                  priority = wanted.attr_priority;
                  flow = flow;
                }
                ∷ rules;
            ret = 0;
          }
        ]
      ]

  pub create_numbered : Wanted → Option ℕ → List Rule → S → Result S Rule
  create_numbered wanted none rules s = record { driver = s; list = rules; ret = enomem }
  create_numbered wanted (some id) rules s =
      if wanted.tunnel_ready
      then create_rule wanted id rules s
      else record { driver = s; list = rules; ret = enoent }

  pub port_flow_create : Wanted → List Rule → S → Result S Rule
  port_flow_create wanted rules s = create_numbered wanted (next_id rules) rules s

  unfoldable pub release_rule : Rule → S → S × Option ℕ
  release_rule r s = d.destroy s r.flow

  -- The number by which a rule is named.
  abbrev pub rule_key : Bool → Rule → ℕ
  rule_key is_user_id r = if is_user_id then r.user_id else r.id

  unfoldable pub rules_destroy : Bool → List ℕ → List Rule → S → Result S Rule
  rules_destroy is_user_id rule rules s =
      destroy_each (rule_key is_user_id) release_rule rule rules s 0

  -- An errno of the driver is printed and does not change the result.
  unfoldable pub rules_flush : List Rule → S → Result S Rule
  rules_flush [] s = record { driver = s; list = []; ret = 0 }
  rules_flush (r ∷ rules) s = record { driver = (d.flush s).0; list = []; ret = 0 }

  -- A function on `ports[port_id].flow_list`, behind the check of the port's number.
  unfoldable pub on_rules :
      Platform
      → List (List Rule)
      → ℕ
      → S
      → (List Rule → S → Result S Rule)
      → Option (List (List Rule) × (S × ℕ))
  on_rules p ports port_id s op =
      if bad_port p port_id then some (ports, (s, einval)) else elim (get_elem? ports port_id) [
        | none ↦ none
        | some rules ↦ let r = op rules s in some (set ports port_id r.list, (r.driver, r.ret))
      ]

  unfoldable pub port_flow_destroy :
      Platform → List (List Rule) → ℕ → List ℕ → Bool → S → Option (List (List Rule) × (S × ℕ))
  port_flow_destroy p ports port_id rule is_user_id s =
      on_rules p ports port_id s (rules_destroy is_user_id rule)

  unfoldable pub port_flow_flush :
      Platform → List (List Rule) → ℕ → S → Option (List (List Rule) × (S × ℕ))
  port_flow_flush p ports port_id s = on_rules p ports port_id s rules_flush

-- The loop of `port_flow_list` goes on past `t`.
pub goes_on : Rule → Rule → Bool
goes_on r t =
    ltb t.group r.group
    || ((r.group == t.group && ltb t.priority r.priority)
        || (r.group == t.group && (r.priority == t.priority && ltb t.id r.id)))

pub insert_rule : Rule → List Rule → List Rule
insert_rule r [] = r ∷ []
insert_rule r (t ∷ sorted) =
    let rest = insert_rule r sorted in if goes_on r t then t ∷ rest else r ∷ t ∷ sorted

-- The rules that are printed; without groups, all of them.
pub sort_rules : List ℕ → List Rule → List Rule → List Rule
sort_rules groups [] sorted = sorted
sort_rules groups (r ∷ rules) sorted =
    let shown = sort_rules groups rules (insert_rule r sorted) in
    let hidden = sort_rules groups rules sorted in
    if not (length groups == 0) && not (contains groups r.group) then hidden else shown

pub port_flow_list : List ℕ → List Rule → List Rule
port_flow_list groups rules = sort_rules groups rules []
