-- ===== src/Flow/Rules/Kept.antt =====
-- What the creation and the destruction of rules leave in the list.
use udx_fastpath.Base.{
  ℕ, ◌<◌, ◌≡◌, ◌≢◌, refl, ap, ◌∙◌, Bool, Option, none, some, List, [], ◌∷◌, ◌⊎◌, inl, inr, arith,
  Option-cases, Bool-cases,
}
use Prim.{Unit, tt}
use udx_fastpath.Flow.Loops.{Result}
use udx_fastpath.Flow.Loops.Left.{unnamed, destroy_each_lem}
use udx_fastpath.Flow.Rules.{
  Rule, Wanted, RuleDriver, next_id, create_rule, create_numbered, port_flow_create, release_rule,
  rule_key, rules_destroy,
}

-- The numbers fall strictly from `top` on.
abbrev pub RulesFall : ℕ → List Rule → Type 0
RulesFall top [] = Unit
RulesFall top (r ∷ rules) = (r.id < top) × RulesFall r.id rules

module _ {S : Type 0} (d : RuleDriver S) where
  -- No errno is 0.
  pub record NonzeroErrnos : Type 0 where
    pub copying : (s : S) → d.new_rule s ≢ some 0
    pub creating : (s : S) → (d.create s).1 ≢ inr 0
    pub destroying : (s : S) (flow : ℕ) → (d.destroy s flow).1 ≢ some 0

  -- The rule that is asked for, with a number and the driver's flow.
  abbrev pub made_rule : Wanted → ℕ → ℕ → Rule
  made_rule wanted id flow = record {
    id = id;
    user_id = wanted.number;
    group = wanted.attr_group;
    priority = wanted.attr_priority;
    flow = flow;
  }

  next_id-RulesFall :
      (rules : List Rule) (id flow : ℕ) (wanted : Wanted)
      → RulesFall 4294967296 rules
      → next_id rules ≡ some id
      → RulesFall 4294967296 (made_rule wanted id flow ∷ rules)
  unfolding next_id
  next_id-RulesFall [] id flow wanted f h = ground (arith, h, tt)
  next_id-RulesFall (r ∷ rules) id flow wanted f h = ground (arith, h, f)

  -- A rule more at the head of the list, or the list as it was.
  abbrev pub Created : Wanted → List Rule → S → Result S Rule → Type 0
  Created wanted rules s result =
      ((id : ℕ) × (flow : ℕ) × ((d.create s).1 ≡ inl flow)
        × (result.ret ≡ 0)
        × (result.list ≡ made_rule wanted id flow ∷ rules)
        × RulesFall 4294967296 result.list)
      ⊎ ((result.ret ≢ 0) × (result.list ≡ rules))

  create_rule-copying :
      (wanted : Wanted) (id e : ℕ) (rules : List Rule) (s : S)
      → d.new_rule s ≡ some e
      → create_rule d wanted id rules s ≡ record { driver = s; list = rules; ret = e }
  unfolding create_rule
  create_rule-copying wanted id e rules s h = ground (arith, h)

  create_rule-refused :
      (wanted : Wanted) (id e : ℕ) (rules : List Rule) (s : S)
      → d.new_rule s ≡ none
      → (d.create s).1 ≡ inr e
      → create_rule d wanted id rules s ≡ record { driver = (d.create s).0; list = rules; ret = e }
  unfolding create_rule
  create_rule-refused wanted id e rules s h r = ground (arith, h, r)

  create_rule-made :
      (wanted : Wanted) (id flow : ℕ) (rules : List Rule) (s : S)
      → d.new_rule s ≡ none
      → (d.create s).1 ≡ inl flow
      → create_rule d wanted id rules s
        ≡ record { driver = (d.create s).0; list = made_rule wanted id flow ∷ rules; ret = 0 }
  unfolding create_rule
  create_rule-made wanted id flow rules s h r = ground (arith, h, r)

  Answer-cases : (a : ℕ ⊎ ℕ) → ((flow : ℕ) × (a ≡ inl flow)) ⊎ ((e : ℕ) × (a ≡ inr e))
  Answer-cases (inl flow) = inl (flow, refl)
  Answer-cases (inr e) = inr (e, refl)

  create_rule_lem :
      (wanted : Wanted) (id : ℕ) (rules : List Rule) (s : S)
      → NonzeroErrnos
      → RulesFall 4294967296 rules
      → next_id rules ≡ some id
      → Created wanted rules s (create_rule d wanted id rules s)
  create_rule_lem wanted id rules s nz f h = elim (Option-cases (d.new_rule s)) [
    | inr (e, p) ↦
        rw (create_rule-copying wanted id e rules s p)
          (inr (λ z. nz.copying s (p ∙ ap some z), refl))
    | inl copied ↦ elim (Answer-cases (d.create s).1) [
      | inl (flow, q) ↦
          rw (create_rule-made wanted id flow rules s copied q)
            (inl (id, flow, q, refl, refl, next_id-RulesFall rules id flow wanted f h))
      | inr (e, q) ↦
          rw (create_rule-refused wanted id e rules s copied q)
            (inr (λ z. nz.creating s (q ∙ ap inr z), refl))
    ]
  ]

  create_numbered_lem :
      (wanted : Wanted) (pick : Option ℕ) (rules : List Rule) (s : S)
      → NonzeroErrnos
      → RulesFall 4294967296 rules
      → next_id rules ≡ pick
      → Created wanted rules s (create_numbered d wanted pick rules s)
  unfolding create_numbered create_rule
  create_numbered_lem wanted none rules s nz f h = inr (λ z. omega arith, refl)
  create_numbered_lem wanted (some id) rules s nz f h = elim (Bool-cases wanted.tunnel_ready) [
    | inl ready ↦ rw ready (create_rule_lem wanted id rules s nz f h)
    | inr unready ↦ rw unready (inr (λ z. omega arith, refl))
  ]

  -- If no errno is 0 and the numbers fall, a creation either returns 0 with the new rule, which has
  -- the driver's flow and a number above all others, at the head of the list, or returns an error
  -- with the list as it was.
  pub port_flow_create_lem :
      (wanted : Wanted) (rules : List Rule) (s : S)
      → NonzeroErrnos
      → RulesFall 4294967296 rules
      → Created wanted rules s (port_flow_create d wanted rules s)
  unfolding port_flow_create
  port_flow_create_lem wanted rules s nz f =
      create_numbered_lem wanted (next_id rules) rules s nz f refl

  -- If no errno is 0, a destruction that returns 0 leaves the rules whose number (the rule's or the
  -- user's, as asked) is not named, in their order.
  pub rules_destroy_lem :
      (is_user_id : Bool) (named : List ℕ) (rules : List Rule) (s : S)
      → NonzeroErrnos
      → (rules_destroy d is_user_id named rules s).ret ≡ 0
      → (rules_destroy d is_user_id named rules s).list
        ≡ unnamed (rule_key d is_user_id) named rules
  unfolding rules_destroy release_rule
  rules_destroy_lem is_user_id named rules s nz h =
      (destroy_each_lem (rule_key d is_user_id) (release_rule d) named rules s 0
        (λ r t. nz.destroying t r.flow) h).1
