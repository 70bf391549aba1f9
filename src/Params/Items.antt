-- ===== src/Params/Items.antt =====
-- lib/core/dpdk/util.c, `parse_item_list`: decimal numbers with commas between them. A result of 0 is
-- `none`, with the array left as the loop had it.
pub mod Read
use udx_fastpath.Base.{
  ℕ, suc, ◌+◌, ◌-◌, ◌*◌, Bool, true, false, ◌||◌, Option, none, some, List, [], ◌∷◌, ◌>>=◌, ltb,
  leb, ◌==◌, if◌then◌else◌, get_or, set, take, drop, u32,
}
use udx_fastpath.Select.Strtol.{is_digit}
use udx_fastpath.Select.Platform.{contains}

-- The variables of the first loop.
pub record Scan : Type 0 where
  pub value : ℕ
  pub value_ok : Bool
  pub nb_item : ℕ
  pub items : List ℕ

pub digit : ℕ → Scan → Scan
digit c s = record s { value = u32 (s.value * 10 + (c - b'0')); value_ok = true }

pub comma : ℕ → Scan → Scan
comma max_items s =
    if ltb s.nb_item max_items
    then record {
      value = 0;
      value_ok = false;
      nb_item = suc s.nb_item;
      items = set s.items s.nb_item s.value;
    }
    else record s { nb_item = suc s.nb_item }

-- `none` is a return of 0.
pub scan : ℕ → List ℕ → Scan → Option Scan
unfolding digit comma
scan max_items [] s = some s
scan max_items (c ∷ cs) s =
    let after_digit = scan max_items cs (digit c s) in
    let after_comma = scan max_items cs (comma max_items s) in
    if is_digit c
    then after_digit
    else (if c == b',' then (if s.value_ok then after_comma else none) else none)

-- The two loops over the pairs of items.
pub duplicated : List ℕ → Bool
unfolding contains
duplicated [] = false
duplicated (x ∷ xs) = contains xs x || duplicated xs

-- The last item is stored whether or not a digit came before it.
pub last_item : ℕ → Scan → Option (ℕ × List ℕ)
last_item max_items s =
    if leb max_items s.nb_item then none else some (suc s.nb_item, set s.items s.nb_item s.value)

pub unique : Bool → ℕ × List ℕ → Option (ℕ × List ℕ)
unfolding duplicated
unique check_unique_values (nb_item, items) =
    if check_unique_values
    then (if duplicated (take nb_item items) then none else some (nb_item, items))
    else some (nb_item, items)

-- The number of the items, and the array `items` with them in front.
unfoldable pub parse_item_list : List ℕ → ℕ → List ℕ → Bool → Option (ℕ × List ℕ)
unfolding scan last_item unique
parse_item_list str max_items items check_unique_values = do
  s ←
      scan max_items (take 128 str)
        (record { value = 0; value_ok = false; nb_item = 0; items = items })
  r ← last_item max_items s
  unique check_unique_values r
