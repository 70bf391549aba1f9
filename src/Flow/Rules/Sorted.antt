-- ===== src/Flow/Rules/Sorted.antt =====
-- The order in which the rules are printed, and that none is lost.
use udx_fastpath.Base.{
  ℕ, ◌+◌, ◌≡◌, ◌<◌, ◌≤◌, ◌⊎◌, refl, Bool, true, false, ◌||◌, List, [], ◌∷◌, ◌==◌, if◌then◌else◌,
  length, arith, Bool-cases, inl, inr,
}
use Prim.{Unit, tt}
use udx_fastpath.Select.Platform.{contains}
use udx_fastpath.Flow.Rules.{Rule, goes_on, insert_rule, sort_rules, port_flow_list}

-- The order of rules: by group, in a group by priority, and then by number.
abbrev pub AtMost : Rule → Rule → Type 0
AtMost r t =
    (r.group < t.group)
    ⊎ ((r.group ≡ t.group)
        × ((r.priority < t.priority) ⊎ ((r.priority ≡ t.priority) × (r.id ≤ t.id))))

-- `t` is at most the first rule of the list.
abbrev HeadAfter : Rule → List Rule → Type 0
HeadAfter t [] = Unit
HeadAfter t (x ∷ xs) = AtMost t x

-- Each rule is at most the next one.
abbrev pub Sorted : List Rule → Type 0
Sorted [] = Unit
Sorted (t ∷ ts) = HeadAfter t ts × Sorted ts

-- How many rules of the list pass a test.
abbrev pub count : (Rule → Bool) → List Rule → ℕ
count test [] = 0
count test (r ∷ rules) = (if test r then 1 else 0) + count test rules

-- The rules of the groups, or all rules if no groups are given.
abbrev pub of_groups : List ℕ → List Rule → List Rule
of_groups groups [] = []
of_groups groups (r ∷ rules) =
    let rest = of_groups groups rules in
    if length groups == 0 || contains groups r.group then r ∷ rest else rest

-- The loop goes on past the rules that come first, and stops at the others.
goes_on-AtMost : (r t : Rule) → goes_on r t ≡ true → AtMost t r
unfolding goes_on
goes_on-AtMost r t h = ground (arith, h)

goes_on-stops : (r t : Rule) → goes_on r t ≡ false → AtMost r t
unfolding goes_on
goes_on-stops r t h = ground (arith, h)

insert_rule-HeadAfter :
    (r t : Rule) (ts : List Rule)
    → goes_on r t ≡ true
    → HeadAfter t ts
    → HeadAfter t (insert_rule r ts)
unfolding insert_rule
insert_rule-HeadAfter r t [] h a = goes_on-AtMost r t h
insert_rule-HeadAfter r t (x ∷ xs) h a = elim (Bool-cases (goes_on r x)) [
  | inl past ↦ rw past a
  | inr here ↦ rw here (goes_on-AtMost r t h)
]

insert_rule-Sorted : (r : Rule) (ts : List Rule) → Sorted ts → Sorted (insert_rule r ts)
unfolding insert_rule
insert_rule-Sorted r [] s = (tt, tt)
insert_rule-Sorted r (t ∷ ts) s = elim (Bool-cases (goes_on r t)) [
  | inl past ↦ rw past (insert_rule-HeadAfter r t ts past s.0, insert_rule-Sorted r ts s.1)
  | inr here ↦ rw here (goes_on-stops r t here, s)
]

count-insert_rule :
    (test : Rule → Bool) (r : Rule) (ts : List Rule)
    → count test (insert_rule r ts) ≡ (if test r then 1 else 0) + count test ts
unfolding insert_rule
count-insert_rule test r [] = refl
count-insert_rule test r (t ∷ ts) = ground (arith, count-insert_rule test r ts)

sort_rules_lem :
    (groups : List ℕ) (rules sorted : List Rule)
    → Sorted sorted
    → Sorted (sort_rules groups rules sorted)
      × ((test : Rule → Bool)
          → count test (sort_rules groups rules sorted)
            ≡ count test (of_groups groups rules) + count test sorted)
unfolding sort_rules
sort_rules_lem groups [] sorted s = (s, λ test. omega arith)
sort_rules_lem groups (r ∷ rules) sorted s =
    let (shown, all_shown) =
      sort_rules_lem groups rules (insert_rule r sorted) (insert_rule-Sorted r sorted s) in
    let (hidden, all_hidden) = sort_rules_lem groups rules sorted s in
    (
      ground (arith, shown, hidden),
      λ test. ground (arith, all_shown test, all_hidden test, count-insert_rule test r sorted),
    )

-- The listing is sorted by group, priority and number, and has exactly the rules of the groups that
-- are asked for, each as often as the port has it.
pub port_flow_list_lem :
    (groups : List ℕ) (rules : List Rule)
    → Sorted (port_flow_list groups rules)
      × ((test : Rule → Bool)
          → count test (port_flow_list groups rules) ≡ count test (of_groups groups rules))
unfolding port_flow_list
port_flow_list_lem groups rules =
    let (sorted, all) = sort_rules_lem groups rules [] tt in
    (sorted, λ test. omega (arith, all test))
