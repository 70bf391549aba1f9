-- ===== src/Params/Numa/Kept.antt =====
-- The loop of the two NUMA parsers of lib/core/dpdk/parameters.c keeps the sockets in order.
use udx_fastpath.Base.{
  ℕ, zero, suc, ◌≡◌, Bool, true, false, Option, none, some, some_inj, List, length, drop,
}
use mathlib.Core.Path.{subst}
use udx_fastpath.Select.Platform.{Platform}
use udx_fastpath.Params.Text.{strchr}
use udx_fastpath.Params.Numa.{
  Numa, Strsplit, Parser, Round, finished, again, after_body, with_fields, with_group, at_paren,
  round, closing, fields, groups, portnuma_parser, ringnuma_parser, parse_portnuma_config,
  parse_ringnuma_config,
}
use udx_fastpath.Params.Numa.Total.{rounds}
use udx_fastpath.Params.Numa.Sockets.{IsNuma, portnuma_group-IsNuma, ringnuma_group-IsNuma}

abbrev AfterLoop : (Numa → Type 0) → Option (Numa × Bool) → Type 0
AfterLoop P none = Unit
AfterLoop P (some r) = P r.0

-- A property that every group keeps is kept by the loop.
module _ (P : Numa → Type 0) (d : Parser)
    (kept : (xs : List ℕ) (s : Numa) → P s → P (d.body xs s).0) where
  abbrev AfterRound : Round → Type 0
  AfterRound (finished s ok) = P s
  AfterRound (again rest s) = P s

  AfterRound-after_body : (rest : List ℕ) (r : Numa × Bool) → P r.0 → AfterRound (after_body rest r)
  unfolding after_body
  AfterRound-after_body rest (s, true) h = h
  AfterRound-after_body rest (s, false) h = h

  AfterRound-with_fields :
      (rest : List ℕ) (s : Numa) (o : Option (List ℕ)) → P s → AfterRound (with_fields d rest s o)
  unfolding with_fields
  AfterRound-with_fields rest s none h = h
  AfterRound-with_fields rest s (some xs) h = AfterRound-after_body rest (d.body xs s) (kept xs s h)

  AfterRound-with_group :
      (s : Numa) (o : Option (List ℕ × List ℕ)) → P s → AfterRound (with_group d s o)
  unfolding with_group
  AfterRound-with_group s none h = h
  AfterRound-with_group s (some (text, rest)) h =
      AfterRound-with_fields rest s (fields d.strsplit d.nb_fields text) h

  AfterRound-at_paren : (s : Numa) (o : Option (List ℕ)) → P s → AfterRound (at_paren d s o)
  unfolding at_paren
  AfterRound-at_paren s none h = h
  AfterRound-at_paren s (some q) h =
      AfterRound-with_group s (closing (drop 1 q) (strchr (drop 1 q) b')')) h

  groups-keeps : (fuel : ℕ) (p0 : List ℕ) (s : Numa) → P s → AfterLoop P (groups d fuel p0 s)
  unfolding groups round
  groups-keeps zero p0 s h = tt
  groups-keeps (suc fuel) p0 s h =
      elim (round d p0 s) as (λ x. AfterRound x → AfterLoop P (rounds d fuel x)) [
        | finished t ok ↦ λ k. k
        | again rest t ↦ λ k. groups-keeps fuel rest t k
      ]
        (AfterRound-at_paren s (strchr p0 b'(') h)

after :
    (P : Numa → Type 0) (o : Option (Numa × Bool)) (r : Numa × Bool)
    → o ≡ some r
    → AfterLoop P o
    → P r.0
after P none r h k = absurd (cc)
after P (some q) r h k = subst (λ x. P x.0) (some_inj h) k

-- Whatever the string, and whether or not it is accepted, the parser keeps the table of sockets
-- distinct and of at most 32 entries, each entry of the arrays by port unset or a socket of the
-- table, and the arrays of their size.
pub parse_portnuma_config-IsNuma :
    (strsplit : Strsplit) (p : Platform) (ports : ℕ) (q_arg : List ℕ) (s : Numa) (r : Numa × Bool)
    → IsNuma ports s
    → parse_portnuma_config strsplit p q_arg s ≡ some r
    → IsNuma ports r.0
unfolding parse_portnuma_config
parse_portnuma_config-IsNuma strsplit p ports q_arg s r n h =
    let d = portnuma_parser strsplit p in
    after (IsNuma ports) (parse_portnuma_config strsplit p q_arg s) r h
      (groups-keeps (IsNuma ports) d (portnuma_group-IsNuma ports p) (suc (length q_arg)) q_arg s n)

pub parse_ringnuma_config-IsNuma :
    (strsplit : Strsplit) (p : Platform) (ports : ℕ) (q_arg : List ℕ) (s : Numa) (r : Numa × Bool)
    → IsNuma ports s
    → parse_ringnuma_config strsplit p q_arg s ≡ some r
    → IsNuma ports r.0
unfolding parse_ringnuma_config
parse_ringnuma_config-IsNuma strsplit p ports q_arg s r n h =
    let d = ringnuma_parser strsplit p in
    after (IsNuma ports) (parse_ringnuma_config strsplit p q_arg s) r h
      (groups-keeps (IsNuma ports) d (ringnuma_group-IsNuma ports p) (suc (length q_arg)) q_arg s n)
