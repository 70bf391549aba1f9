-- ===== src/Select/PortList/Marking.antt =====
-- The marks of `parse_port_list`, and the list of ports that they stand for.
use udx_fastpath.Base.{
  ℕ, zero, suc, ◌+◌, ◌-◌, ◌≤◌, ◌<◌, ◌≡◌, refl, ap, ◌∙◌, Bool, true, false, ◌||◌, List, [], ◌∷◌,
  ◌++◌, Option, none, some, arith, length, get_or, set, length-set, length-append, replicate,
  length-replicate, if◌then◌else◌, ◌==◌, Bool-cases, inl, inr,
}
use udx_fastpath.Select.Platform.{contains, AllBelow}
use udx_fastpath.Select.PortList.{Marks, mark, mark_range, mark_item}

abbrev pub count_true : List Bool → ℕ
count_true [] = 0
count_true (b ∷ bs) = if b then suc (count_true bs) else count_true bs

-- A list with no entry twice, all below `n`.
abbrev pub Distinct : List ℕ → Type 0
Distinct [] = Unit
Distinct (x ∷ xs) = (contains xs x ≡ false) × Distinct xs

pub record IsMarks (maxsize : ℕ) (m : Marks) : Type 0 where
  pub size : length m.marked ≡ maxsize
  pub counted : count_true m.marked ≡ length m.values
  pub agree : (i : ℕ) → get_or m.marked i false ≡ contains m.values i
  pub distinct : Distinct m.values
  pub below : AllBelow maxsize m.values

-- A new port is added at the end.
abbrev pub add_port : List ℕ → ℕ → List ℕ
add_port xs i = if contains xs i then xs else xs ++ (i ∷ [])

pub count_true-le : (bs : List Bool) → count_true bs ≤ length bs
count_true-le [] = omega arith
count_true-le (true ∷ bs) = omega (arith, count_true-le bs)
count_true-le (false ∷ bs) = omega (arith, count_true-le bs)

unmarked-lt :
    (bs : List Bool) (i : ℕ) → get_or bs i false ≡ false → i < length bs → count_true bs < length bs
unmarked-lt [] i h k = absurd (omega arith)
unmarked-lt (b ∷ bs) zero h k = ground (arith, count_true-le bs)
unmarked-lt (b ∷ bs) (suc i) h k = ground (arith, unmarked-lt bs i)

count_true-set :
    (bs : List Bool) (i : ℕ)
    → get_or bs i false ≡ false
    → i < length bs
    → count_true (set bs i true) ≡ suc (count_true bs)
count_true-set [] i h k = absurd (omega arith)
count_true-set (b ∷ bs) zero h k = ground arith
count_true-set (b ∷ bs) (suc i) h k = ground (arith, count_true-set bs i)

get_or-set :
    (bs : List Bool) (i j : ℕ)
    → i < length bs
    → get_or (set bs i true) j false ≡ (get_or bs j false || i == j)
get_or-set [] i j h = absurd (omega arith)
get_or-set (b ∷ bs) zero zero h = ground arith
get_or-set (b ∷ bs) zero (suc j) h = ground arith
get_or-set (b ∷ bs) (suc i) zero h = ground arith
get_or-set (b ∷ bs) (suc i) (suc j) h = ground (arith, get_or-set bs i j)

pub contains-append :
    (xs : List ℕ) (i j : ℕ) → contains (xs ++ (i ∷ [])) j ≡ (contains xs j || i == j)
unfolding contains
contains-append [] i j = ground arith
contains-append (x ∷ xs) i j = ground (arith, contains-append xs i j)

pub Distinct-append :
    (xs : List ℕ) (i : ℕ) → contains xs i ≡ false → Distinct xs → Distinct (xs ++ (i ∷ []))
unfolding contains
Distinct-append [] i h d = (refl, tt)
Distinct-append (x ∷ xs) i h d = ground (arith, contains-append xs i x, Distinct-append xs i)

AllBelow-append :
    (n : ℕ) (xs : List ℕ) (i : ℕ) → i < n → AllBelow n xs → AllBelow n (xs ++ (i ∷ []))
AllBelow-append n [] i h b = (h, tt)
AllBelow-append n (x ∷ xs) i h b = (b.0, AllBelow-append n xs i h b.1)

values-mark :
    (maxsize i : ℕ) (m : Marks)
    → i < maxsize
    → IsMarks maxsize m
    → (mark maxsize i m).values ≡ add_port m.values i
unfolding mark
values-mark maxsize i m h v = ground (arith, v.agree i, unmarked-lt m.marked i)

mark-IsMarks :
    (maxsize i : ℕ) (m : Marks)
    → i < maxsize
    → IsMarks maxsize m
    → IsMarks maxsize (mark maxsize i m)
unfolding mark
mark-IsMarks maxsize i m h v = elim (Bool-cases (contains m.values i)) [
  | inl old ↦ let marked : get_or m.marked i false ≡ true = v.agree i ∙ old in ground arith
  | inr new ↦
      let unmarked : get_or m.marked i false ≡ false = v.agree i ∙ new in
      let room : length m.values < maxsize =
        omega (arith, v.counted, v.size, unmarked-lt m.marked i unmarked (omega (arith, v.size))) in
      let m' : Marks = record { values = m.values ++ (i ∷ []); marked = set m.marked i true } in
      let marks : mark maxsize i m ≡ m' = ground arith in
      rw marks (record {
        size = length-set m.marked i true ∙ v.size;
        counted = omega (
          arith,
          count_true-set m.marked i unmarked (omega (arith, v.size)),
          v.counted,
          length-append m.values (i ∷ []),
        );
        agree = λ j.
            ground
              (arith, get_or-set m.marked i j, v.agree j, v.size, contains-append m.values i j);
        distinct = Distinct-append m.values i new v.distinct;
        below = AllBelow-append maxsize m.values i h v.below;
      })
]

-- The ports `lo`, `lo + 1`, ..., `n` of them.
abbrev pub upward : ℕ → ℕ → List ℕ
upward zero lo = []
upward (suc n) lo = lo ∷ upward n (suc lo)

-- The new ones among the ports are added in order.
abbrev pub add_ports : List ℕ → List ℕ → List ℕ
add_ports xs [] = xs
add_ports xs (i ∷ is) = add_ports (add_port xs i) is

-- A range marks its ports, each once.
pub mark_range_lem :
    (maxsize n i : ℕ) (m : Marks)
    → i + n ≤ maxsize
    → IsMarks maxsize m
    → IsMarks maxsize (mark_range maxsize n i m)
      × ((mark_range maxsize n i m).values ≡ add_ports m.values (upward n i))
unfolding mark_range
mark_range_lem maxsize zero i m h v = (v, refl)
mark_range_lem maxsize (suc n) i m h v =
    let (v', e) =
      mark_range_lem maxsize n (suc i) (mark maxsize i m) (omega arith)
        (mark-IsMarks maxsize i m (omega arith) v) in
    (v', e ∙ ap (λ xs. add_ports xs (upward n (suc i))) (values-mark maxsize i m (omega arith) v))

-- The ports of an item: those from `min` up to `max`, or `max` alone.
abbrev pub item_ports : Option ℕ → ℕ → List ℕ
item_ports none value = upward 1 value
item_ports (some min) value = upward (value + 1 - min) min

-- The start of a range, if there is one, is a port below the size.
abbrev pub MinBelow : ℕ → Option ℕ → Type 0
MinBelow maxsize none = Unit
MinBelow maxsize (some min) = min < maxsize

pub mark_item_lem :
    (maxsize : ℕ) (min : Option ℕ) (value : ℕ) (m : Marks)
    → value < maxsize
    → MinBelow maxsize min
    → IsMarks maxsize m
    → IsMarks maxsize (mark_item maxsize min value m)
      × ((mark_item maxsize min value m).values ≡ add_ports m.values (item_ports min value))
unfolding mark_item
mark_item_lem maxsize none value m h b v = mark_range_lem maxsize 1 value m (omega arith) v
mark_item_lem maxsize (some min) value m h b v =
    mark_range_lem maxsize (value + 1 - min) min m (omega arith) v

count_true-replicate : (n : ℕ) → count_true (replicate n false) ≡ 0
count_true-replicate zero = refl
count_true-replicate (suc n) = count_true-replicate n

get_or-replicate : (n i : ℕ) → get_or (replicate n false) i false ≡ false
get_or-replicate zero i = refl
get_or-replicate (suc n) zero = refl
get_or-replicate (suc n) (suc i) = get_or-replicate n i

pub IsMarks-start :
    (maxsize : ℕ) → IsMarks maxsize (record { values = []; marked = replicate maxsize false })
IsMarks-start maxsize = record {
  size = length-replicate maxsize false;
  counted = count_true-replicate maxsize;
  agree = λ i. unfold contains in get_or-replicate maxsize i;
  distinct = tt;
  below = tt;
}
