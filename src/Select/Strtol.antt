-- ===== src/Select/Strtol.antt =====
-- C's `strtol(s, &end, 10)` on a string of bytes; the end of the list is the terminating NUL.
use udx_fastpath.Base.{
  ℕ, ◌+◌, ◌-◌, ◌*◌, ◌%◌, ◌^◌, ◌≤◌, Bool, true, false, ◌&&◌, ◌||◌, List, [], ◌∷◌, arith, ltb, leb,
  ◌==◌, if◌then◌else◌, length,
}

-- `isblank` and `isspace` of the C locale.
abbrev pub is_blank : ℕ → Bool
is_blank c = c == b' ' || c == 9

abbrev pub is_space : ℕ → Bool
is_space c = c == b' ' || (leb 9 c && leb c 13)

abbrev pub is_digit : ℕ → Bool
is_digit c = leb b'0' c && leb c b'9'

unfoldable pub skip_blank : List ℕ → List ℕ
skip_blank [] = []
skip_blank (c ∷ cs) = if is_blank c then skip_blank cs else c ∷ cs

unfoldable pub skip_space : List ℕ → List ℕ
skip_space [] = []
skip_space (c ∷ cs) = if is_space c then skip_space cs else c ∷ cs

-- The number of the leading digits, `n` in front of them, and what follows.
unfoldable pub read_digits : ℕ → List ℕ → ℕ × List ℕ
read_digits n [] = (n, [])
read_digits n (c ∷ cs) = if is_digit c then read_digits (n * 10 + (c - b'0')) cs else (n, c ∷ cs)

-- A number with its sign, whether it is out of the range of `long`, and `end`.
pub record Number : Type 0 where
  pub magnitude : ℕ
  pub negative : Bool
  pub out_of_range : Bool
  pub end : List ℕ

-- After the sign: no digit means no conversion, and `end` is the start of the string.
unfoldable pub after_sign : List ℕ → Bool → List ℕ → Number
after_sign start negative [] = record {
  magnitude = 0;
  negative = false;
  out_of_range = false;
  end = start;
}
after_sign start negative (c ∷ cs) =
    if is_digit c
    then record {
      magnitude = (read_digits 0 (c ∷ cs)).0;
      negative = negative;
      out_of_range =
          if negative
          then ltb (2 ^ 63) (read_digits 0 (c ∷ cs)).0
          else leb (2 ^ 63) (read_digits 0 (c ∷ cs)).0;
      end = (read_digits 0 (c ∷ cs)).1;
    }
    else record { magnitude = 0; negative = false; out_of_range = false; end = start }

unfoldable pub signed : List ℕ → List ℕ → Number
signed start [] = after_sign start false []
signed start (c ∷ cs) =
    if c == b'-'
    then after_sign start true cs
    else (if c == b'+' then after_sign start false cs else after_sign start false (c ∷ cs))

unfoldable pub strtol : List ℕ → Number
unfolding signed after_sign read_digits skip_space
strtol cs = signed cs (skip_space cs)

-- The bits of the number as an `int`.
abbrev pub int_bits : Number → ℕ
int_bits n = if n.negative then (2 ^ 32 - n.magnitude % 2 ^ 32) % 2 ^ 32 else n.magnitude % 2 ^ 32

pub length-skip_blank : (cs : List ℕ) → length (skip_blank cs) ≤ length cs
unfolding skip_blank
length-skip_blank [] = omega arith
length-skip_blank (c ∷ cs) = ground (arith, length-skip_blank cs)

length-read_digits : (n : ℕ) (cs : List ℕ) → length (read_digits n cs).1 ≤ length cs
unfolding read_digits
length-read_digits n [] = omega arith
length-read_digits n (c ∷ cs) = ground (arith, length-read_digits (n * 10 + (c - b'0')) cs)

length-skip_space : (cs : List ℕ) → length (skip_space cs) ≤ length cs
unfolding skip_space
length-skip_space [] = omega arith
length-skip_space (c ∷ cs) = ground (arith, length-skip_space cs)

length-after_sign :
    (start : List ℕ) (negative : Bool) (cs : List ℕ)
    → length cs ≤ length start
    → length (after_sign start negative cs).end ≤ length start
unfolding after_sign
length-after_sign start negative [] h = omega arith
length-after_sign start negative (c ∷ cs) h = ground (arith, length-read_digits 0 (c ∷ cs))

length-signed :
    (start cs : List ℕ) → length cs ≤ length start → length (signed start cs).end ≤ length start
unfolding signed
length-signed start [] h = length-after_sign start false [] h
length-signed start (c ∷ cs) h = ground (
  arith,
  length-after_sign start true cs,
  length-after_sign start false cs,
  length-after_sign start false (c ∷ cs),
)

-- `end` never lies before the start.
pub length-end-strtol : (cs : List ℕ) → length (strtol cs).end ≤ length cs
length-end-strtol cs = unfold strtol in length-signed cs (skip_space cs) (length-skip_space cs)
