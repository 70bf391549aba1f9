-- ===== src/Base/Fallible.antt =====
-- Chains of steps that may fault: `none` is a read or write out of bounds, a division by 0 or an
-- exit of the process.
use mathlib.Core.Path.{◌≡◌, refl, subst}
use mathlib.Core.Option.{Option, none, some}

infixl 5 ◌>>=◌
abbrev pub ◌>>=◌ {ℓ κ} : {A : Type ℓ} {B : Type κ} → Option A → (A → Option B) → Option B
none >>= f = none
some a >>= f = f a

pub >>=-eq-some {ℓ κ} :
    {A : Type ℓ} {B : Type κ} (m : Option A) (f : A → Option B) {b : B}
    → (m >>= f) ≡ some b
    → (a : A) × (m ≡ some a) × (f a ≡ some b)
>>=-eq-some none f h = absurd (cc)
>>=-eq-some (some a) f h = (a, refl, h)

pub some_inj {ℓ} : {A : Type ℓ} {a b : A} → some a ≡ some b → a ≡ b
some_inj h = cc

-- `P` of the result, if there is one.
abbrev pub OnSome {ℓ} : {A : Type ℓ} → (A → Type 0) → Option A → Type 0
OnSome P none = Unit
OnSome P (some a) = P a

pub OnSome-bind {ℓ κ} :
    {A : Type ℓ} {B : Type κ} (P : B → Type 0) (m : Option A) (f : A → Option B)
    → ((a : A) → OnSome P (f a))
    → OnSome P (m >>= f)
OnSome-bind P none f h = tt
OnSome-bind P (some a) f h = h a

-- The same, with the result of the first step.
pub OnSome-bind_eq {ℓ κ} :
    {A : Type ℓ} {B : Type κ} (P : B → Type 0) (m : Option A) (f : A → Option B)
    → ((a : A) → m ≡ some a → OnSome P (f a))
    → OnSome P (m >>= f)
OnSome-bind_eq P none f h = tt
OnSome-bind_eq P (some a) f h = h a refl

pub OnSome-eq {ℓ} :
    {A : Type ℓ} (P : A → Type 0) {o : Option A} {a : A} → o ≡ some a → OnSome P o → P a
OnSome-eq P {o = none} h k = absurd (cc)
OnSome-eq P {o = some b} h k = subst P (some_inj h) k

pub OnSome-then {ℓ κ} :
    {A : Type ℓ} {B : Type κ} (P : A → Type 0) (Q : B → Type 0) (m : Option A) (f : A → Option B)
    → ((a : A) → P a → OnSome Q (f a))
    → OnSome P m
    → OnSome Q (m >>= f)
OnSome-then P Q none f k h = tt
OnSome-then P Q (some a) f k h = k a h
