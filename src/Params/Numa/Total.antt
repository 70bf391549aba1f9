-- ===== src/Params/Numa/Total.antt =====
-- The loops of the two NUMA parsers of lib/core/dpdk/parameters.c end.
use udx_fastpath.Base.{
  ℕ, zero, suc, ◌<◌, ◌≡◌, refl, ap, Bool, true, false, Option, none, some, some_inj, List, [], ◌∷◌,
  arith, ◌==◌, length, drop, Bool-cases, inl, inr,
}
use udx_fastpath.Select.Platform.{Platform}
use udx_fastpath.Params.Text.{strchr, length-strchr}
use udx_fastpath.Params.Numa.{
  Numa, Strsplit, Parser, Round, finished, again, closing, with_group, with_fields, after_body,
  at_paren, round, fields, groups, portnuma_parser, ringnuma_parser, parse_portnuma_config,
  parse_ringnuma_config,
}

length-strchr-pos : (cs : List ℕ) (c : ℕ) {ds : List ℕ} → strchr cs c ≡ some ds → 0 < length ds
unfolding strchr
length-strchr-pos [] c h = absurd (cc)
length-strchr-pos (x ∷ xs) c h = elim (Bool-cases (x == c)) [
  | inl e ↦ omega (arith, ap length (some_inj (rw e at h)))
  | inr e ↦ length-strchr-pos xs c (rw e at h)
]

length-drop_one : (xs : List ℕ) → 0 < length xs → suc (length (drop 1 xs)) ≡ length xs
length-drop_one [] h = absurd (omega arith)
length-drop_one (x ∷ xs) h = refl

closing-rest :
    (p : List ℕ) (o : Option (List ℕ)) {text rest : List ℕ}
    → closing p o ≡ some (text, rest)
    → o ≡ some rest
unfolding closing
closing-rest p none h = absurd (cc)
closing-rest p (some p0) h = ground (arith, h)

-- The text of a round that goes on.
abbrev pub left : Round → Option (List ℕ)
left (finished s ok) = none
left (again rest s) = some rest

left-after_body :
    (r : List ℕ) (x : Numa × Bool) {rest : List ℕ} → left (after_body r x) ≡ some rest → r ≡ rest
unfolding after_body
left-after_body r (s, true) h = some_inj h
left-after_body r (s, false) h = absurd (cc)

left-with_fields :
    (d : Parser) (r : List ℕ) (s : Numa) (o : Option (List ℕ)) {rest : List ℕ}
    → left (with_fields d r s o) ≡ some rest
    → r ≡ rest
unfolding with_fields
left-with_fields d r s none h = absurd (cc)
left-with_fields d r s (some xs) h = left-after_body r (d.body xs s) h

left-with_group :
    (d : Parser) (s : Numa) (o : Option (List ℕ × List ℕ)) {rest : List ℕ}
    → left (with_group d s o) ≡ some rest
    → (text : List ℕ) × (o ≡ some (text, rest))
unfolding with_group
left-with_group d s none h = absurd (cc)
left-with_group d s (some (text, r)) h =
    (text, ap (λ x. some (text, x)) (left-with_fields d r s (fields d.strsplit d.nb_fields text) h))

left-at_paren :
    (d : Parser) (s : Numa) (o : Option (List ℕ)) {rest : List ℕ}
    → left (at_paren d s o) ≡ some rest
    → (q : List ℕ) × (o ≡ some q) × (strchr (drop 1 q) b')' ≡ some rest)
unfolding at_paren
left-at_paren d s none h = absurd (cc)
left-at_paren d s (some q) h =
    let (text, e) = left-with_group d s (closing (drop 1 q) (strchr (drop 1 q) b')')) h in
    (q, refl, closing-rest (drop 1 q) (strchr (drop 1 q) b')') e)

-- A round that goes on has taken up some of the text.
left-round-shorter :
    (d : Parser) (p0 : List ℕ) (s : Numa) {rest : List ℕ}
    → left (round d p0 s) ≡ some rest
    → length rest < length p0
unfolding round
left-round-shorter d p0 s h =
    let (q, e, f) = left-at_paren d s (strchr p0 b'(') h in
    omega (
      arith,
      length-drop_one q (length-strchr-pos p0 b'(' e),
      length-strchr p0 b'(' e,
      length-strchr (drop 1 q) b')' f,
    )

-- What the loop makes of a round.
abbrev pub rounds : Parser → ℕ → Round → Option (Numa × Bool)
rounds d fuel (finished t ok) = some (t, ok)
rounds d fuel (again rest t) = groups d fuel rest t

groups-total :
    (d : Parser) (fuel : ℕ) (p0 : List ℕ) (s : Numa)
    → length p0 < fuel
    → (r : Numa × Bool) × (groups d fuel p0 s ≡ some r)
unfolding groups
groups-total d zero p0 s h = absurd (omega arith)
groups-total d (suc fuel) p0 s h =
    elim (round d p0 s)
        as (λ x.
          ((rest : List ℕ) → left x ≡ some rest → length rest < length p0)
          → (r : Numa × Bool) × (rounds d fuel x ≡ some r)) [
            | finished t ok ↦ λ sh. ((t, ok), refl)
            | again rest t ↦ λ sh. groups-total d fuel rest t (omega (arith, sh rest refl))
          ]
      (λ rest e. left-round-shorter d p0 s e)

-- The parser returns on every string: a round for each byte and one more suffices, since each round
-- moves forward.
pub parse_portnuma_config-total :
    (strsplit : Strsplit) (p : Platform) (q_arg : List ℕ) (s : Numa)
    → (r : Numa × Bool) × (parse_portnuma_config strsplit p q_arg s ≡ some r)
unfolding parse_portnuma_config
parse_portnuma_config-total strsplit p q_arg s =
    groups-total (portnuma_parser strsplit p) (suc (length q_arg)) q_arg s (omega arith)

pub parse_ringnuma_config-total :
    (strsplit : Strsplit) (p : Platform) (q_arg : List ℕ) (s : Numa)
    → (r : Numa × Bool) × (parse_ringnuma_config strsplit p q_arg s ≡ some r)
unfolding parse_ringnuma_config
parse_ringnuma_config-total strsplit p q_arg s =
    groups-total (ringnuma_parser strsplit p) (suc (length q_arg)) q_arg s (omega arith)
