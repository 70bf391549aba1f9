-- ===== src/Params/Outcome.antt =====
-- How lib/core/dpdk/parameters.c goes on after an option: with the settings, or out of the function
-- or of the process. `fault` is an access out of bounds.
use udx_fastpath.Base.{Bool, true, false, ◌≡◌, refl, if◌then◌else◌}
use mathlib.Core.Path.{subst}

pub data Outcome {ℓ} (A : Type ℓ) : Type ℓ where
  next returned : A → Outcome A
  exit_success exit_failure fault : Outcome A

-- A test in front of `rte_exit(EXIT_FAILURE, ...)`.
abbrev pub accept {ℓ} : {A : Type ℓ} → Bool → A → Outcome A
accept ok a = if ok then next a else exit_failure

-- The next step, on the settings so far.
abbrev pub and_then {ℓ κ} :
    {A : Type ℓ} {B : Type κ} → Outcome A → (A → Outcome B) → (A → B) → Outcome B
and_then (next a) f g = f a
and_then (returned a) f g = returned (g a)
and_then exit_success f g = exit_success
and_then exit_failure f g = exit_failure
and_then fault f g = fault

abbrev pub put {ℓ κ} : {A : Type ℓ} {B : Type κ} → (A → B) → Outcome A → Outcome B
put g (next a) = next (g a)
put g (returned a) = returned (g a)
put g exit_success = exit_success
put g exit_failure = exit_failure
put g fault = fault

-- `P` of the settings, where the parser goes on.
abbrev pub OnNext {ℓ} : {A : Type ℓ} → (A → Type 0) → Outcome A → Type 0
OnNext P (next a) = P a
OnNext P (returned a) = Unit
OnNext P exit_success = Unit
OnNext P exit_failure = Unit
OnNext P fault = Unit

pub OnNext-map {ℓ} :
    {A : Type ℓ} (P Q : A → Type 0) (o : Outcome A)
    → ((a : A) → P a → Q a)
    → OnNext P o
    → OnNext Q o
OnNext-map P Q (next a) f h = f a h
OnNext-map P Q (returned a) f h = tt
OnNext-map P Q exit_success f h = tt
OnNext-map P Q exit_failure f h = tt
OnNext-map P Q fault f h = tt

pub OnNext-put {ℓ κ} :
    {A : Type ℓ} {B : Type κ} (P : B → Type 0) (g : A → B) (o : Outcome A)
    → OnNext (λ a. P (g a)) o
    → OnNext P (put g o)
OnNext-put P g (next a) h = h
OnNext-put P g (returned a) h = tt
OnNext-put P g exit_success h = tt
OnNext-put P g exit_failure h = tt
OnNext-put P g fault h = tt

pub OnNext-and_then {ℓ κ} :
    {A : Type ℓ} {B : Type κ} (P : A → Type 0) (Q : B → Type 0) (o : Outcome A) (f : A → Outcome B)
    (g : A → B)
    → ((a : A) → P a → OnNext Q (f a))
    → OnNext P o
    → OnNext Q (and_then o f g)
OnNext-and_then P Q (next a) f g k h = k a h
OnNext-and_then P Q (returned a) f g k h = tt
OnNext-and_then P Q exit_success f g k h = tt
OnNext-and_then P Q exit_failure f g k h = tt
OnNext-and_then P Q fault f g k h = tt

pub OnNext-always {ℓ} : {A : Type ℓ} (P : A → Type 0) (o : Outcome A) → ((a : A) → P a) → OnNext P o
OnNext-always P (next a) h = h a
OnNext-always P (returned a) h = tt
OnNext-always P exit_success h = tt
OnNext-always P exit_failure h = tt
OnNext-always P fault h = tt

-- A result that is accepted has passed its test.
pub OnNext-accept {ℓ} :
    {A : Type ℓ} (P : A → Type 0) (ok : Bool) (a : A) → (ok ≡ true → P a) → OnNext P (accept ok a)
OnNext-accept P true a h = h refl
OnNext-accept P false a h = tt

pub OnNext-eq {ℓ} :
    {A : Type ℓ} (P : A → Type 0) {o : Outcome A} {a : A} → o ≡ next a → OnNext P o → P a
OnNext-eq P {o = next b} h k = subst P (cc) k
OnNext-eq P {o = returned b} h k = absurd (cc)
OnNext-eq P {o = exit_success} h k = absurd (cc)
OnNext-eq P {o = exit_failure} h k = absurd (cc)
OnNext-eq P {o = fault} h k = absurd (cc)
