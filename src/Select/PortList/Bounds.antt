-- ===== src/Select/PortList/Bounds.antt =====
-- What `parse_port_list` returns on any string: distinct ports below the size.
use udx_fastpath.Base.{
  ℕ, zero, suc, ◌^◌, ◌≤◌, ◌<◌, ◌≡◌, false, ◌||◌, List, [], ◌∷◌, Option, none, some, arith, length,
  replicate, ◌==◌, leb, Bool-cases, inl, inr, some_inj,
}
use udx_fastpath.Select.Strtol.{strtol, int_bits, skip_blank}
use udx_fastpath.Select.PortList.{
  Marks, Round, fail, finish, again, after_value, at_item, round, parse_rounds, parse_port_list,
}
use udx_fastpath.Select.PortList.Total.{settle, settle-round}
use udx_fastpath.Select.PortList.Marking.{
  IsMarks, IsMarks-start, MinBelow, count_true-le, mark_item_lem, Distinct,
}
use udx_fastpath.Select.Platform.{AllBelow}

-- The invariant of the loop, through a round.
abbrev GoodRound : ℕ → Round → Type 0
GoodRound maxsize fail = Unit
GoodRound maxsize (finish m) = IsMarks maxsize m
GoodRound maxsize (again min m cs) = IsMarks maxsize m × MinBelow maxsize min

after_value-GoodRound :
    (maxsize : ℕ) (min : Option ℕ) (value : ℕ) (m : Marks) (cs : List ℕ)
    → value < maxsize
    → MinBelow maxsize min
    → IsMarks maxsize m
    → GoodRound maxsize (after_value maxsize min value m cs)
unfolding after_value
after_value-GoodRound maxsize min value m [] h b v = (mark_item_lem maxsize min value m h b v).0
after_value-GoodRound maxsize none value m (c ∷ cs) h b v =
    let (v', e) = mark_item_lem maxsize none value m h b v in
    elim (Bool-cases (c == b'-')) [
      | inl dash ↦ rw dash (v, h)
      | inr other ↦ elim (Bool-cases (c == b',')) [
        | inl comma ↦ rw (other, comma) (v', tt)
        | inr neither ↦ rw (other, neither) tt
      ]
    ]
after_value-GoodRound maxsize (some min) value m (c ∷ cs) h b v =
    let (v', e) = mark_item_lem maxsize (some min) value m h b v in
    elim (Bool-cases (c == b',')) [ inl comma ↦ rw comma (v', tt) | inr other ↦ rw other tt ]

at_item-GoodRound :
    (maxsize : ℕ) (min : Option ℕ) (m : Marks) (cs : List ℕ)
    → MinBelow maxsize min
    → IsMarks maxsize m
    → GoodRound maxsize (at_item maxsize min m cs)
unfolding at_item
at_item-GoodRound maxsize min m [] b v = v
at_item-GoodRound maxsize min m (c ∷ cs) b v =
    let n = strtol (c ∷ cs) in
    elim (Bool-cases n.out_of_range) [
      | inl out ↦ rw out tt
      | inr fits ↦ elim (Bool-cases (leb (2 ^ 31) (int_bits n) || leb maxsize (int_bits n))) [
        | inl large ↦ rw (fits, large) tt
        | inr small ↦
            rw (fits, small)
              (after_value-GoodRound maxsize min (int_bits n) m (skip_blank n.end) (ground arith) b
                v)
      ]
    ]

settle-Distinct :
    (fuel maxsize : ℕ) (r : Round) (v : List ℕ)
    → ((min : Option ℕ) (m : Marks) (cs : List ℕ)
        → MinBelow maxsize min
        → IsMarks maxsize m
        → parse_rounds fuel maxsize min m cs ≡ some v
        → Distinct v × AllBelow maxsize v × (length v ≤ maxsize))
    → GoodRound maxsize r
    → settle fuel maxsize r ≡ some v
    → Distinct v × AllBelow maxsize v × (length v ≤ maxsize)
unfolding settle
settle-Distinct fuel maxsize fail v ih g e = rw (← some_inj e) (tt, tt, omega arith)
settle-Distinct fuel maxsize (finish m) v ih g e =
    rw (← some_inj e)
      (g.distinct, g.below, omega (arith, g.counted, g.size, count_true-le m.marked))
settle-Distinct fuel maxsize (again min m cs) v ih g e = ih min m cs g.1 g.0 e

parse_rounds-Distinct :
    (fuel maxsize : ℕ) (min : Option ℕ) (m : Marks) (cs v : List ℕ)
    → MinBelow maxsize min
    → IsMarks maxsize m
    → parse_rounds fuel maxsize min m cs ≡ some v
    → Distinct v × AllBelow maxsize v × (length v ≤ maxsize)
unfolding parse_rounds
parse_rounds-Distinct zero maxsize min m cs v b g e = cc
parse_rounds-Distinct (suc fuel) maxsize min m cs v b g e =
    settle-Distinct fuel maxsize (round maxsize min m cs) v
      (λ min' m' cs' b' g'. parse_rounds-Distinct fuel maxsize min' m' cs' v b' g')
      (unfold round in at_item-GoodRound maxsize min m (skip_blank cs) b g) (rw settle-round at e)

-- Whatever the string, the result lists distinct ports below the size, and no more than the size.
pub parse_port_list-Distinct :
    (maxsize : ℕ) (cs v : List ℕ)
    → parse_port_list maxsize cs ≡ some v
    → Distinct v × AllBelow maxsize v × (length v ≤ maxsize)
parse_port_list-Distinct maxsize cs v e =
    parse_rounds-Distinct (suc (length cs)) maxsize none
      (record { values = []; marked = replicate maxsize false }) cs v tt (IsMarks-start maxsize)
      (unfold parse_port_list in e)
