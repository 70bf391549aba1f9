-- ===== src/Select/PortList/Total.antt =====
-- The `do` loop of `parse_port_list` ends: each round that goes on has read at least a byte.
use udx_fastpath.Base.{
  ℕ, zero, suc, ◌≤◌, ◌<◌, ◌≡◌, refl, List, [], ◌∷◌, Option, none, some, arith, length, false,
  replicate,
}
use udx_fastpath.Select.Strtol.{strtol, int_bits, skip_blank, length-end-strtol, length-skip_blank}
use udx_fastpath.Select.PortList.{
  Marks, Round, fail, finish, again, after_value, at_item, round, parse_rounds, parse_port_list,
}

-- What is left of the string is shorter than `n`.
abbrev Shorter : ℕ → Round → Type 0
Shorter n fail = Unit
Shorter n (finish m) = Unit
Shorter n (again min m cs) = length cs < n

after_value-Shorter :
    (maxsize : ℕ) (min : Option ℕ) (value : ℕ) (m : Marks) (cs : List ℕ) (n : ℕ)
    → length cs ≤ n
    → Shorter n (after_value maxsize min value m cs)
unfolding after_value
after_value-Shorter maxsize min value m [] n h = tt
after_value-Shorter maxsize none value m (c ∷ cs) n h = ground arith
after_value-Shorter maxsize (some min) value m (c ∷ cs) n h = ground arith

at_item-Shorter :
    (maxsize : ℕ) (min : Option ℕ) (m : Marks) (cs : List ℕ) (n : ℕ)
    → length cs ≤ n
    → Shorter n (at_item maxsize min m cs)
unfolding at_item
at_item-Shorter maxsize min m [] n h = tt
at_item-Shorter maxsize min m (c ∷ cs) n h =
    let number = strtol (c ∷ cs) in
    ground (
      arith,
      after_value-Shorter maxsize min (int_bits number) m (skip_blank number.end) n
          (omega (arith, length-end-strtol (c ∷ cs), length-skip_blank number.end)),
    )

round-Shorter :
    (maxsize : ℕ) (min : Option ℕ) (m : Marks) (cs : List ℕ)
    → Shorter (length cs) (round maxsize min m cs)
unfolding round
round-Shorter maxsize min m cs =
    at_item-Shorter maxsize min m (skip_blank cs) (length cs) (length-skip_blank cs)

-- The loop after a round.
unfoldable pub settle : ℕ → ℕ → Round → Option (List ℕ)
settle fuel maxsize fail = some []
settle fuel maxsize (finish m) = some m.values
settle fuel maxsize (again min m cs) = parse_rounds fuel maxsize min m cs

pub settle-round :
    (fuel maxsize : ℕ) (min : Option ℕ) (m : Marks) (cs : List ℕ)
    → parse_rounds (suc fuel) maxsize min m cs ≡ settle fuel maxsize (round maxsize min m cs)
unfolding parse_rounds settle
settle-round fuel maxsize min m cs = ground arith

settle-total :
    (fuel maxsize n : ℕ) (r : Round)
    → ((min : Option ℕ) (m : Marks) (cs : List ℕ)
        → length cs < fuel
        → (v : List ℕ) × (parse_rounds fuel maxsize min m cs ≡ some v))
    → Shorter n r
    → n ≤ fuel
    → (v : List ℕ) × (settle fuel maxsize r ≡ some v)
unfolding settle
settle-total fuel maxsize n fail ih h k = ([], refl)
settle-total fuel maxsize n (finish m) ih h k = (m.values, refl)
settle-total fuel maxsize n (again min m cs) ih h k = ih min m cs (omega arith)

parse_rounds-total :
    (fuel maxsize : ℕ) (min : Option ℕ) (m : Marks) (cs : List ℕ)
    → length cs < fuel
    → (v : List ℕ) × (parse_rounds fuel maxsize min m cs ≡ some v)
parse_rounds-total zero maxsize min m cs h = absurd (omega arith)
parse_rounds-total (suc fuel) maxsize min m cs h = rw settle-round (
    settle-total fuel maxsize (length cs) (round maxsize min m cs) (parse_rounds-total fuel maxsize)
      (round-Shorter maxsize min m cs) (omega arith))

-- The parser returns on every string: the fuel, a round for each byte and one more, suffices.
pub parse_port_list-total :
    (maxsize : ℕ) (cs : List ℕ) → (v : List ℕ) × (parse_port_list maxsize cs ≡ some v)
parse_port_list-total maxsize cs =
    unfold parse_port_list in
    parse_rounds-total (suc (length cs)) maxsize none
      (record { values = []; marked = replicate maxsize false }) cs (omega arith)
