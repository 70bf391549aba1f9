-- ===== src/Select/PortList.antt =====
-- config.c, `parse_port_list` and `parse_fwd_portlist`. A string is a list of bytes without the
-- terminating NUL; INT_MAX in `min` is `none`.
pub mod Total
pub mod Marking
pub mod Bounds
pub mod Forwarding
pub mod Grammar
pub mod Kept
use udx_fastpath.Base.{
  ℕ, zero, suc, ◌+◌, ◌-◌, ◌^◌, Bool, true, false, ◌&&◌, ◌||◌, Option, none, some, ◌>>=◌, List, [],
  ◌∷◌, ◌++◌, ltb, leb, ◌==◌, if◌then◌else◌, length, get_or, set, replicate, u16,
}
use udx_fastpath.Fwd.Types.{State}
use udx_fastpath.Select.Platform.{Platform}
use udx_fastpath.Select.Ports.{set_fwd_ports_list}
use udx_fastpath.Select.Strtol.{Number, strtol, int_bits, skip_blank}

-- The first `count` entries of `values`, and the array `marked`.
pub record Marks : Type 0 where
  pub values : List ℕ
  pub marked : List Bool

-- The body of `for (i = min; i <= max; i++)`.
unfoldable pub mark : ℕ → ℕ → Marks → Marks
mark maxsize i m =
    if ltb (length m.values) maxsize
    then (if get_or m.marked i false
        then m
        else record { values = m.values ++ (i ∷ []); marked = set m.marked i true })
    else m

-- The loop: `n` numbers from `i` on.
unfoldable pub mark_range : ℕ → ℕ → ℕ → Marks → Marks
mark_range maxsize zero i m = m
mark_range maxsize (suc n) i m = mark_range maxsize n (suc i) (mark maxsize i m)

-- What one round of the `do` loop comes to.
pub data Round : Type 0 where
  fail : Round
  finish : Marks → Round
  again : Option ℕ → Marks → List ℕ → Round

-- An item that ends at `max`: a range if `min` was seen.
unfoldable pub mark_item : ℕ → Option ℕ → ℕ → Marks → Marks
mark_item maxsize none value m = mark_range maxsize 1 value m
mark_item maxsize (some min) value m = mark_range maxsize (value + 1 - min) min m

-- The part after `strtol`, with the blanks behind the number skipped.
unfoldable pub after_value : ℕ → Option ℕ → ℕ → Marks → List ℕ → Round
after_value maxsize min value m [] = finish (mark_item maxsize min value m)
after_value maxsize none value m (c ∷ cs) =
    if c == b'-'
    then again (some value) m cs
    else (if c == b',' then again none (mark_item maxsize none value m) cs else fail)
after_value maxsize (some min) value m (c ∷ cs) =
    if c == b',' then again none (mark_item maxsize (some min) value m) cs else fail

unfoldable pub at_item : ℕ → Option ℕ → Marks → List ℕ → Round
at_item maxsize min m [] = finish m
at_item maxsize min m (c ∷ cs) =
    let n = strtol (c ∷ cs) in
    let value = int_bits n in
    if n.out_of_range
    then fail
    else (if leb (2 ^ 31) value || leb maxsize value
        then fail
        else after_value maxsize min value m (skip_blank n.end))

unfoldable pub round : ℕ → Option ℕ → Marks → List ℕ → Round
round maxsize min m cs = at_item maxsize min m (skip_blank cs)

-- The `do` loop with fuel: `none` means that the fuel ran out, a failure is the empty list.
unfoldable pub parse_rounds : ℕ → ℕ → Option ℕ → Marks → List ℕ → Option (List ℕ)
parse_rounds zero maxsize min m cs = none
parse_rounds (suc fuel) maxsize min m cs = elim (round maxsize min m cs) [
  | fail ↦ some []
  | finish m' ↦ some m'.values
  | again min' m' cs' ↦ parse_rounds fuel maxsize min' m' cs'
]

unfoldable pub parse_port_list : ℕ → List ℕ → Option (List ℕ)
unfolding parse_rounds round at_item after_value mark_item mark_range mark
parse_port_list maxsize cs =
    parse_rounds (suc (length cs)) maxsize none
      (record { values = []; marked = replicate maxsize false }) cs

-- The loop over `portindex`: the valid ports move to the front.
pub valid_ports : Platform → List ℕ → List ℕ
valid_ports p [] = []
valid_ports p (x ∷ xs) = let rest = valid_ports p xs in if p.is_valid_port x then x ∷ rest else rest

-- `none` is the exit of the process.
pub parse_fwd_portlist : Platform → ℕ → List ℕ → State → Option State
parse_fwd_portlist p max_ethports cs s = do
  ports ← parse_port_list max_ethports cs
  if length ports == 0 then none else set_fwd_ports_list p (valid_ports p ports) s
