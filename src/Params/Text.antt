-- ===== src/Params/Text.antt =====
-- What lib/core/dpdk/parameters.c uses of the C library: `strcmp`, `strchr`, `atoi` and `strtoul`
-- with a base of 0, 10 or 16. A string is the list of its bytes, without the terminating NUL, and an
-- `int` is the 32 bits of its two's complement.
use udx_fastpath.Base.{
  ℕ, ◌+◌, ◌-◌, ◌*◌, ◌%◌, ◌^◌, ◌≤◌, Bool, true, false, ◌&&◌, ◌||◌, Option, none, some, List, [], ◌∷◌,
  arith, ltb, leb, ◌==◌, if◌then◌else◌, length, ◌≡◌, refl, some_inj, Bool-cases, inl, inr, ap,
}
use Prim.Native.String.{String}
use Prim.Native.Char.{code}
use udx_fastpath.Select.Strtol.{
  Number, strtol, signed, after_sign, read_digits, skip_space, is_digit,
}

abbrev pub codes : String → List ℕ
codes String.[] = []
codes (String.◌∷◌ c s) = code c ∷ codes s

-- `!strcmp(a, b)`
abbrev pub same : List ℕ → List ℕ → Bool
same [] [] = true
same [] (b ∷ bs) = false
same (a ∷ xs) [] = false
same (a ∷ xs) (b ∷ bs) = a == b && same xs bs

-- `strchr(s, c)`: what starts at the first `c`.
unfoldable pub strchr : List ℕ → ℕ → Option (List ℕ)
strchr [] c = none
strchr (x ∷ xs) c = if x == c then some (x ∷ xs) else strchr xs c

-- `atoi(s)`, which is `(int) strtol(s, NULL, 10)`.
abbrev pub int_of : Number → ℕ
int_of n =
    if n.out_of_range
    then (if n.negative then 0 else 2 ^ 32 - 1)
    else (if n.negative then (2 ^ 32 - n.magnitude % 2 ^ 32) % 2 ^ 32 else n.magnitude % 2 ^ 32)

unfoldable pub atoi : List ℕ → ℕ
unfolding strtol signed after_sign read_digits skip_space
atoi cs = int_of (strtol cs)

-- `n >= 0` and `n > 0` of an `int`.
abbrev pub nonneg : ℕ → Bool
nonneg n = ltb n (2 ^ 31)

abbrev pub positive : ℕ → Bool
positive n = ltb 0 n && ltb n (2 ^ 31)

-- The value of a digit; no base has 99.
abbrev pub digit_value : ℕ → ℕ
digit_value c =
    if is_digit c
    then c - b'0'
    else (if leb b'a' c && leb c b'z'
        then c - b'a' + 10
        else (if leb b'A' c && leb c b'Z' then c - b'A' + 10 else 99))

unfoldable pub read_base : ℕ → ℕ → List ℕ → ℕ × List ℕ
read_base base n [] = (n, [])
read_base base n (c ∷ cs) =
    let rest = read_base base (n * base + digit_value c) cs in
    if ltb (digit_value c) base then rest else (n, c ∷ cs)

-- What `strtoul` returns: the word, whether it sets `errno`, and `end`.
pub record Word : Type 0 where
  pub value : ℕ
  pub erange : Bool
  pub end : List ℕ

-- The base, and where its digits start: `0x` counts only in front of a digit.
unfoldable pub hex_prefix : List ℕ → Option (List ℕ)
hex_prefix (z ∷ x ∷ d ∷ cs) =
    if z == b'0' && ((x == b'x' || x == b'X') && ltb (digit_value d) 16)
    then some (d ∷ cs)
    else none
hex_prefix _ = none

abbrev pub starts_zero : List ℕ → Bool
starts_zero [] = false
starts_zero (c ∷ cs) = c == b'0'

unfoldable pub with_prefix : ℕ → List ℕ → Option (List ℕ) → ℕ × List ℕ
with_prefix base cs (some ds) = (16, ds)
with_prefix base cs none = (if base == 0 then (if starts_zero cs then 8 else 10) else base, cs)

unfoldable pub based : ℕ → List ℕ → ℕ × List ℕ
unfolding hex_prefix with_prefix
based base cs = with_prefix base cs (if base == 0 || base == 16 then hex_prefix cs else none)

abbrev pub starts_digit : ℕ → List ℕ → Bool
starts_digit base [] = false
starts_digit base (c ∷ cs) = ltb (digit_value c) base

-- After the sign: no digit means no conversion, and `end` is the start of the string.
unfoldable pub unsigned_number : List ℕ → Bool → ℕ × List ℕ → Word
unsigned_number start negative (base, cs) =
    let r = read_base base 0 cs in
    if starts_digit base cs
    then (if leb (2 ^ 64) r.0
        then record { value = 2 ^ 64 - 1; erange = true; end = r.1 }
        else record {
          value = if negative then (2 ^ 64 - r.0) % 2 ^ 64 else r.0;
          erange = false;
          end = r.1;
        })
    else record { value = 0; erange = false; end = start }

unfoldable pub unsigned_signed : ℕ → List ℕ → List ℕ → Word
unsigned_signed base start [] = unsigned_number start false (base, [])
unsigned_signed base start (c ∷ cs) =
    if c == b'-'
    then unsigned_number start true (based base cs)
    else (if c == b'+'
        then unsigned_number start false (based base cs)
        else unsigned_number start false (based base (c ∷ cs)))

-- `strtoul(s, &end, base)`; `strtoull` is the same on 64 bits.
unfoldable pub strtoul : ℕ → List ℕ → Word
unfolding unsigned_signed unsigned_number based hex_prefix read_base skip_space
strtoul base cs = unsigned_signed base cs (skip_space cs)

-- `end == s`
abbrev pub unconverted : List ℕ → Word → Bool
unconverted s w = same w.end s

-- `strchr` stays in the string.
pub length-strchr :
    (cs : List ℕ) (c : ℕ) {ds : List ℕ} → strchr cs c ≡ some ds → length ds ≤ length cs
unfolding strchr
length-strchr [] c h = absurd (cc)
length-strchr (x ∷ xs) c h = elim (Bool-cases (x == c)) [
  | inl e ↦ omega (arith, ap length (some_inj (rw e at h)))
  | inr e ↦ omega (arith, length-strchr xs c (rw e at h))
]

pub same-eq : (a b : List ℕ) → same a b ≡ true → a ≡ b
same-eq [] [] h = refl
same-eq [] (y ∷ ys) h = absurd (cc)
same-eq (x ∷ xs) [] h = absurd (cc)
same-eq (x ∷ xs) (y ∷ ys) h = ground (arith, same-eq xs ys)
