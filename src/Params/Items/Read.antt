-- ===== src/Params/Items/Read.antt =====
-- What `parse_item_list` of lib/core/dpdk/util.c accepts, and what it reads.
use udx_fastpath.Base.{
  ℕ, zero, suc, ◌+◌, ◌-◌, ◌*◌, ◌≤◌, ◌<◌, ◌≡◌, refl, ap, sym, ◌∙◌, Bool, true, false, Option, none,
  some, some_inj, List, [], ◌∷◌, ◌++◌, ◌>>=◌, >>=-eq-some, arith, ◌==◌, if◌then◌else◌, length, map,
  set, length-set, take, u32, lt→ltb, Bool-cases, inl, inr,
}
use mathlib.Core.List.{append_assoc, append-nil}
use udx_fastpath.Select.PortList.Grammar.{AllDigits}
use udx_fastpath.Params.Items.{
  Scan, digit, comma, scan, last_item, unique, duplicated, parse_item_list,
}

abbrev pub commas : List ℕ → ℕ
commas [] = 0
commas (c ∷ cs) = if c == b',' then suc (commas cs) else commas cs

-- The 32-bit number that digits stand for, after `n`.
abbrev pub word_from : ℕ → List ℕ → ℕ
word_from n [] = n
word_from n (c ∷ cs) = word_from (u32 (n * 10 + (c - b'0'))) cs

abbrev pub word : List ℕ → ℕ
word ds = word_from 0 ds

-- Digits, with commas in front of all items but the first.
abbrev pub join_rest : List (List ℕ) → List ℕ
join_rest [] = []
join_rest (ds ∷ dss) = b',' ∷ (ds ++ join_rest dss)

abbrev pub IsItem : List ℕ → Type 0
IsItem ds = (0 < length ds) × AllDigits ds

abbrev pub AllItems : List (List ℕ) → Type 0
AllItems [] = Unit
AllItems (ds ∷ dss) = IsItem ds × AllItems dss

scan-counts :
    (n : ℕ) (cs : List ℕ) (s t : Scan)
    → scan n cs s ≡ some t
    → (t.nb_item ≡ s.nb_item + commas cs) × (length t.items ≡ length s.items)
unfolding scan digit comma
scan-counts n [] s t h =
    (omega (arith, ap (λ x. x.nb_item) (some_inj h)), ap (λ x. length x.items) (sym (some_inj h)))
scan-counts n (c ∷ cs) s t h = ground (
  arith,
  scan-counts n cs (digit c s) t,
  scan-counts n cs (comma n s) t,
  length-set s.items s.nb_item s.value,
)

-- Digits are read into `value`.
scan-digits :
    (n : ℕ) (d : ℕ) (ds rest : List ℕ) (s : Scan)
    → AllDigits (d ∷ ds)
    → scan n (d ∷ (ds ++ rest)) s
      ≡ scan n rest (record s { value = word_from s.value (d ∷ ds); value_ok = true })
unfolding scan digit
scan-digits n d [] rest s a = rw a.0 refl
scan-digits n d (e ∷ es) rest s a = rw (a.0) (scan-digits n e es rest (digit d s) a.1)

-- The array with `vs` stored from position `i` on.
abbrev pub store_from : ℕ → List ℕ → List ℕ → List ℕ
store_from i [] xs = xs
store_from i (v ∷ vs) xs = store_from (suc i) vs (set xs i v)

take-suc-set :
    (i : ℕ) (v : ℕ) (xs : List ℕ)
    → i < length xs
    → take (suc i) (set xs i v) ≡ take i xs ++ (v ∷ [])
take-suc-set i v [] h = absurd (omega arith)
take-suc-set zero v (x ∷ xs) h = refl
take-suc-set (suc i) v (x ∷ xs) h = ap (λ t. x ∷ t) (take-suc-set i v xs (omega arith))

take-store_from :
    (i : ℕ) (vs xs : List ℕ)
    → i + length vs ≤ length xs
    → take (i + length vs) (store_from i vs xs) ≡ take i xs ++ vs
take-store_from i [] xs h = ap (λ k. take k xs) (omega arith) ∙ sym (append-nil (take i xs))
take-store_from i (v ∷ vs) xs h =
    let k : suc i + length vs ≤ length (set xs i v) = omega (arith, length-set xs i v) in
    let rest = take-store_from (suc i) vs (set xs i v) k in
    ap (λ k. take k (store_from (suc i) vs (set xs i v))) (omega arith)
    ∙ rest
    ∙ ap (λ t. t ++ vs) (take-suc-set i v xs (omega arith))
    ∙ append_assoc (take i xs) (v ∷ []) vs

-- A comma stores the item in front of it.
abbrev stored : Scan → Scan
stored s = record {
  value = 0;
  value_ok = false;
  nb_item = suc s.nb_item;
  items = set s.items s.nb_item s.value;
}

scan-comma :
    (n : ℕ) (cs : List ℕ) (s : Scan)
    → s.value_ok ≡ true
    → s.nb_item < n
    → scan n (b',' ∷ cs) s ≡ scan n cs (stored s)
unfolding scan comma
scan-comma n cs s ok h = rw (ok, lt→ltb s.nb_item n h) refl

scan-end :
    (n : ℕ) (s : Scan)
    → s.nb_item < n
    → (scan n [] s >>= last_item n) ≡ some (suc s.nb_item, set s.items s.nb_item s.value)
unfolding scan last_item
scan-end n s h = ground arith

-- After an item, the others with a comma in front of each.
scan-join_rest :
    (n : ℕ) (dss : List (List ℕ)) (s : Scan)
    → AllItems dss
    → s.value_ok ≡ true
    → s.nb_item + length dss < n
    → (scan n (join_rest dss) s >>= last_item n)
      ≡ some (suc (s.nb_item + length dss), store_from s.nb_item (s.value ∷ map word dss) s.items)
scan-join_rest n [] s a ok h =
    rw (scan-end n s (omega arith))
      (ap (λ k. some (k, set s.items s.nb_item s.value)) (omega arith))
scan-join_rest n ([] ∷ dss) s a ok h = absurd (omega (arith, a.0.0))
scan-join_rest n ((d ∷ ds) ∷ dss) s a ok h =
    let next : Scan = record (stored s) { value = word (d ∷ ds); value_ok = true } in
    let rest = scan-join_rest n dss next a.1 refl (omega arith) in
    rw (scan-comma n ((d ∷ ds) ++ join_rest dss) s ok (omega arith)) (
      rw (scan-digits n d ds (join_rest dss) (stored s) a.0.1) (
        rw rest (
          ap (λ k. some (k, store_from s.nb_item (s.value ∷ map word ((d ∷ ds) ∷ dss)) s.items))
            (omega arith))))

none-some {ℓ} : {A : Type ℓ} {a : A} → none ≡ some a → ⊥
none-some h = cc

last_item-some :
    (n : ℕ) (s : Scan) (r : ℕ × List ℕ)
    → last_item n s ≡ some r
    → (s.nb_item < n) × (r ≡ (suc s.nb_item, set s.items s.nb_item s.value))
unfolding last_item
last_item-some n s r h = ground arith

take-all : (n : ℕ) (xs : List ℕ) → length xs ≤ n → take n xs ≡ xs
take-all zero [] h = refl
take-all zero (x ∷ xs) h = absurd (omega arith)
take-all (suc n) [] h = refl
take-all (suc n) (x ∷ xs) h = ap (λ t. x ∷ t) (take-all n xs (omega arith))

length-map : (dss : List (List ℕ)) → length (map word dss) ≡ length dss
length-map [] = refl
length-map (ds ∷ dss) = ap suc (length-map dss)

>>=-then :
    (m : Option Scan) (f : Scan → Option (ℕ × List ℕ)) (g : ℕ × List ℕ → Option (ℕ × List ℕ))
    {r : ℕ × List ℕ}
    → (m >>= f) ≡ some r
    → (m >>= (λ s. f s >>= g)) ≡ g r
>>=-then none f g h = absurd (cc)
>>=-then (some s) f g h = rw h refl

duplicated-take :
    (check : Bool) (r t : ℕ × List ℕ)
    → unique check r ≡ some t
    → (t ≡ r) × (check ≡ true → duplicated (take r.0 r.1) ≡ false)
unfolding unique
duplicated-take true r t h = elim (Bool-cases (duplicated (take r.0 r.1))) [
  | inl e ↦ absurd (none-some (rw e at h))
  | inr e ↦ (sym (some_inj (rw e at h)), λ _. e)
]
duplicated-take false r t h = (sym (some_inj h), λ e. absurd (cc))

abbrev start : List ℕ → Scan
start items = record { value = 0; value_ok = false; nb_item = 0; items = items }

parse-short :
    (str : List ℕ) (n : ℕ) (items : List ℕ) (check : Bool) {r : ℕ × List ℕ}
    → length str ≤ 128
    → (scan n str (start items) >>= last_item n) ≡ some r
    → parse_item_list str n items check ≡ unique check r
unfolding parse_item_list
parse-short str n items check h read =
    rw (take-all 128 str h) (>>=-then (scan n str (start items)) (last_item n) (unique check) read)

take-stored : (vs xs : List ℕ) → length vs ≤ length xs → take (length vs) (store_from 0 vs xs) ≡ vs
take-stored vs xs h =
    ap (λ k. take k (store_from 0 vs xs)) (omega arith) ∙ take-store_from 0 vs xs (omega arith)

-- A text of at most 128 bytes that joins nonempty runs of digits by commas, no more of them than
-- the maximum, which the array has room for, is read as that number of items, with their values as
-- 32-bit numbers in front of the array.
pub parse_item_list-join :
    (n : ℕ) (ds : List ℕ) (dss : List (List ℕ)) (items : List ℕ)
    → AllItems (ds ∷ dss)
    → length (ds ++ join_rest dss) ≤ 128
    → suc (length dss) ≤ n
    → n ≤ length items
    → (out : List ℕ) × (parse_item_list (ds ++ join_rest dss) n items false
        ≡ some (suc (length dss), out))
      × (take (suc (length dss)) out ≡ map word (ds ∷ dss))
unfolding unique
parse_item_list-join n [] dss items a short few room = absurd (omega (arith, a.0.0))
parse_item_list-join n (d ∷ ds) dss items a short few room =
    let next : Scan = record (start items) { value = word (d ∷ ds); value_ok = true } in
    let vs = map word ((d ∷ ds) ∷ dss) in
    let read =
      ap (λ m. m >>= last_item n) (scan-digits n d ds (join_rest dss) (start items) a.0.1)
      ∙ scan-join_rest n dss next a.1 refl (omega arith) in
    (
      store_from 0 vs items,
      parse-short ((d ∷ ds) ++ join_rest dss) n items false short read
          ∙ ap (λ k. some (suc k, store_from 0 vs items)) (omega arith),
      ap (λ k. take (suc k) (store_from 0 vs items)) (sym (length-map dss))
          ∙ take-stored vs items (omega (arith, length-map dss)),
    )

pub parse_item_list_lem :
    (str : List ℕ) (n : ℕ) (items : List ℕ) (check : Bool) (r : ℕ × List ℕ)
    → parse_item_list str n items check ≡ some r
    → (r.0 ≡ suc (commas (take 128 str)))
      × (r.0 ≤ n)
      × (length r.1 ≡ length items)
      × (check ≡ true → duplicated (take r.0 r.1) ≡ false)
unfolding parse_item_list last_item
parse_item_list_lem str n items check r h =
    let (s, read, h1) = >>=-eq-some _ _ h in
    let (q, last, h2) = >>=-eq-some (last_item n s) (λ x. unique check x) h1 in
    let counts = scan-counts n (take 128 str) _ s read in
    let kept = duplicated-take check q r h2 in
    let (small, q_eq) = last_item-some n s q last in
    let e = kept.0 ∙ q_eq in
    (
      omega (arith, ap (λ x. x.0) e, counts.0),
      omega (arith, ap (λ x. x.0) e, small),
      ap (λ x. length x.1) e ∙ length-set s.items s.nb_item s.value ∙ counts.1,
      λ k. ap (λ x. duplicated (take x.0 x.1)) kept.0 ∙ kept.1 k,
    )
