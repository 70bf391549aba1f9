-- ===== src/Select/PortList/Grammar.antt =====
-- What `parse_port_list` makes of ports and ranges that are separated by commas.
use udx_fastpath.Base.{
  ℕ, zero, suc, ◌+◌, ◌-◌, ◌*◌, ◌%◌, ◌^◌, ◌≤◌, ◌<◌, ◌≡◌, refl, ap, ◌∙◌, true, false, List, [], ◌∷◌,
  ◌++◌, Option, none, some, arith, length, length-append, replicate,
}
use udx_fastpath.Select.Strtol.{
  strtol, signed, after_sign, read_digits, skip_blank, skip_space, is_digit, is_blank,
}
use udx_fastpath.Select.PortList.{
  Marks, after_value, at_item, round, parse_rounds, parse_port_list, mark_item,
}
use udx_fastpath.Select.PortList.Total.{settle, settle-round}
use udx_fastpath.Select.PortList.Marking.{
  IsMarks, IsMarks-start, MinBelow, mark_item_lem, add_ports, item_ports,
}

abbrev pub AllDigits : List ℕ → Type 0
AllDigits [] = Unit
AllDigits (c ∷ cs) = (is_digit c ≡ true) × AllDigits cs

-- The text ends here, or goes on with something else than a digit.
abbrev NoDigit : List ℕ → Type 0
NoDigit [] = Unit
NoDigit (c ∷ cs) = is_digit c ≡ false

-- The number that digits stand for.
abbrev pub number : List ℕ → ℕ
number ds = (read_digits 0 ds).0

read_digits-append :
    (n : ℕ) (ds rest : List ℕ)
    → AllDigits ds
    → NoDigit rest
    → read_digits n (ds ++ rest) ≡ ((read_digits n ds).0, rest)
unfolding read_digits
read_digits-append n [] [] a b = refl
read_digits-append n [] (c ∷ cs) a b = rw b
read_digits-append n (d ∷ ds) rest a b =
    rw a.0 (read_digits-append (n * 10 + (d - b'0')) ds rest a.1 b)

strtol-digits :
    (d : ℕ) (ds rest : List ℕ)
    → AllDigits (d ∷ ds)
    → NoDigit rest
    → number (d ∷ ds) < 2 ^ 31
    → strtol (d ∷ (ds ++ rest))
      ≡ record { magnitude = number (d ∷ ds); negative = false; out_of_range = false; end = rest }
unfolding strtol signed after_sign skip_space
strtol-digits d ds rest a b h =
    ground (arith, a.0, read_digits-append (0 + (d - b'0')) ds rest a.1 b)

-- A number is read, and what follows decides.
round-digits :
    (maxsize : ℕ) (min : Option ℕ) (m : Marks) (d : ℕ) (ds rest : List ℕ)
    → AllDigits (d ∷ ds)
    → NoDigit rest
    → number (d ∷ ds) < maxsize
    → maxsize ≤ 2 ^ 31
    → round maxsize min m (d ∷ (ds ++ rest))
      ≡ after_value maxsize min (number (d ∷ ds)) m (skip_blank rest)
unfolding round at_item skip_blank
round-digits maxsize min m d ds rest a b h k =
    let blank : is_blank d ≡ false = ground (arith, a.0) in
    let same : number (d ∷ ds) % 2 ^ 32 ≡ number (d ∷ ds) = omega arith in
    rw (blank, strtol-digits d ds rest a b (omega arith)) (rw same (ground arith))

-- A port, or a range of ports: each number by its first digit and the others.
pub data Item : Type 0 where
  one : ℕ → List ℕ → Item
  range : ℕ → List ℕ → ℕ → List ℕ → Item

-- The text of an item, and of the items that follow another.
abbrev pub item_then : Item → List ℕ → List ℕ
item_then (one d ds) rest = d ∷ (ds ++ rest)
item_then (range d ds e es) rest = d ∷ (ds ++ (b'-' ∷ e ∷ (es ++ rest)))

abbrev pub more_items : List Item → List ℕ
more_items [] = []
more_items (i ∷ is) = b',' ∷ item_then i (more_items is)

-- Digits that stand for ports below the size.
abbrev pub IsPort : ℕ → List ℕ → Type 0
IsPort maxsize ds = AllDigits ds × (number ds < maxsize)

abbrev pub IsItem : ℕ → Item → Type 0
IsItem maxsize (one d ds) = IsPort maxsize (d ∷ ds)
IsItem maxsize (range d ds e es) = IsPort maxsize (d ∷ ds) × IsPort maxsize (e ∷ es)

abbrev pub AllItems : ℕ → List Item → Type 0
AllItems maxsize [] = Unit
AllItems maxsize (i ∷ is) = IsItem maxsize i × AllItems maxsize is

-- The ports that are meant: a range counts up, and is empty if it is written downwards.
abbrev pub ports_of : Item → List ℕ
ports_of (one d ds) = item_ports none (number (d ∷ ds))
ports_of (range d ds e es) = item_ports (some (number (d ∷ ds))) (number (e ∷ es))

abbrev pub add_items : List ℕ → List Item → List ℕ
add_items xs [] = xs
add_items xs (i ∷ is) = add_items (add_ports xs (ports_of i)) is

more_items-NoDigit : (is : List Item) → NoDigit (more_items is)
more_items-NoDigit [] = tt
more_items-NoDigit (i ∷ is) = refl

skip_blank-more_items : (is : List Item) → skip_blank (more_items is) ≡ more_items is
unfolding skip_blank
skip_blank-more_items [] = refl
skip_blank-more_items (i ∷ is) = refl

-- The loop from an item's last number on.
abbrev AfterNumber : ℕ → List Item → Type 0
AfterNumber maxsize is =
    (fuel : ℕ) (min : Option ℕ) (value : ℕ) (m : Marks)
    → length (more_items is) ≤ fuel
    → value < maxsize
    → MinBelow maxsize min
    → IsMarks maxsize m
    → settle fuel maxsize (after_value maxsize min value m (more_items is))
      ≡ some (add_items (add_ports m.values (item_ports min value)) is)

-- A dash behind a number starts a range.
dash-again :
    (fuel maxsize value : ℕ) (m : Marks) (cs : List ℕ)
    → settle fuel maxsize (after_value maxsize none value m (skip_blank (b'-' ∷ cs)))
      ≡ parse_rounds fuel maxsize (some value) m cs
unfolding settle after_value skip_blank
dash-again fuel maxsize value m cs = refl

-- The loop from the start of an item on.
at_start :
    (maxsize : ℕ) (i : Item) (is : List Item) (fuel : ℕ) (m : Marks)
    → maxsize ≤ 2 ^ 31
    → AfterNumber maxsize is
    → IsItem maxsize i
    → length (item_then i (more_items is)) < fuel
    → IsMarks maxsize m
    → parse_rounds fuel maxsize none m (item_then i (more_items is))
      ≡ some (add_items (add_ports m.values (ports_of i)) is)
at_start maxsize i is zero m k after w h v = absurd (omega arith)
at_start maxsize (one d ds) is (suc fuel) m k after w h v =
    rw
      (
        settle-round,
        round-digits maxsize none m d ds (more_items is) w.0 (more_items-NoDigit is) w.1 k,
        skip_blank-more_items is,
      )
      (after fuel none (number (d ∷ ds)) m (omega (arith, length-append ds (more_items is))) w.1 tt
        v)
at_start maxsize (range d ds e es) is (suc zero) m k after w h v = absurd (omega arith)
at_start maxsize (range d ds e es) is (suc (suc fuel)) m k after w h v =
    let last = e ∷ (es ++ more_items is) in
    rw
      (
        settle-round,
        round-digits maxsize none m d ds (b'-' ∷ last) w.0.0 refl w.0.1 k,
        dash-again (suc fuel) maxsize (number (d ∷ ds)) m last,
        settle-round,
        round-digits maxsize (some (number (d ∷ ds))) m e es (more_items is) w.1.0
            (more_items-NoDigit is) w.1.1 k,
        skip_blank-more_items is,
      )
      (after fuel (some (number (d ∷ ds))) (number (e ∷ es)) m
        (omega (arith, length-append ds (b'-' ∷ last), length-append es (more_items is))) w.1.1
        w.0.1 v)

after_number :
    (maxsize : ℕ) (is : List Item) → maxsize ≤ 2 ^ 31 → AllItems maxsize is → AfterNumber maxsize is
unfolding settle after_value
after_number maxsize [] k w fuel min value m h b c v =
    ap some (mark_item_lem maxsize min value m b c v).1
after_number maxsize (i ∷ is) k w fuel none value m h b c v =
    let (v', e) = mark_item_lem maxsize none value m b c v in
    at_start maxsize i is fuel (mark_item maxsize none value m) k (after_number maxsize is k w.1)
      w.0 (omega arith) v'
    ∙ ap (λ xs. some (add_items (add_ports xs (ports_of i)) is)) e
after_number maxsize (i ∷ is) k w fuel (some min) value m h b c v =
    let (v', e) = mark_item_lem maxsize (some min) value m b c v in
    at_start maxsize i is fuel (mark_item maxsize (some min) value m) k
      (after_number maxsize is k w.1) w.0 (omega arith) v'
    ∙ ap (λ xs. some (add_items (add_ports xs (ports_of i)) is)) e

-- For a size of at most 2^31, ports and ranges of ports below the size, separated by commas, in any
-- decimal spelling, come out in order, each port once.
pub parse_port_list-items :
    (maxsize : ℕ) (i : Item) (is : List Item)
    → maxsize ≤ 2 ^ 31
    → AllItems maxsize (i ∷ is)
    → parse_port_list maxsize (item_then i (more_items is)) ≡ some (add_items [] (i ∷ is))
parse_port_list-items maxsize i is k w =
    unfold parse_port_list in
    at_start maxsize i is (suc (length (item_then i (more_items is))))
      (record { values = []; marked = replicate maxsize false }) k (after_number maxsize is k w.1)
      w.0 (omega arith) (IsMarks-start maxsize)
