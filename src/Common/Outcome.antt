-- ===== src/Common/Outcome.antt =====
-- How a call ends: with a value, with a raised exception, or with the model's fuel used up.
use mathlib.Core.Path.{◌≡◌, refl, subst}
use mathlib.Core.Bool.{Bool, true, false}
use native.Mathlib.Omega.{arith}
use pynagle.Common.Tests.{if◌then◌else◌}

-- `raised` is a Python exception that leaves the function.
pub data Run {ℓ} (A : Type ℓ) : Type ℓ where
  ok : A → Run A
  raised : Run A
  out_of_fuel : Run A

infixl 5 ◌>>=◌
abbrev pub ◌>>=◌ {ℓ κ} : {A : Type ℓ} {B : Type κ} → Run A → (A → Run B) → Run B
ok a >>= f = f a
raised >>= f = raised
out_of_fuel >>= f = out_of_fuel

-- The call ends with a value, of which `P` holds.
pub data Returns {ℓ κ} {A : Type ℓ} (P : A → Type κ) : Run A → Type (ℓ ⊔ κ) where
  returns : {value : A} → P value → Returns P (ok value)

-- The value of such a call.
pub Returns-value {ℓ κ} :
    {A : Type ℓ} {P : A → Type κ} {call : Run A}
    → Returns P call
    → (value : A) × (call ≡ ok value) × P value
Returns-value (returns {value = v} holds) = (v, refl, holds)

pub Returns-weaken {ℓ κ ι} :
    {A : Type ℓ} {P : A → Type κ} {Q : A → Type ι} {call : Run A}
    → ((value : A) → P value → Q value)
    → Returns P call
    → Returns Q call
Returns-weaken weaker (returns {value = v} holds) = returns (weaker v holds)

-- One call after another.
pub Returns-bind {ℓ κ ℓ' κ'} :
    {A : Type ℓ} {B : Type ℓ'} {P : A → Type κ} {Q : B → Type κ'} {first : Run A}
    {then_do : A → Run B}
    → Returns P first
    → ((value : A) → P value → Returns Q (then_do value))
    → Returns Q (first >>= then_do)
Returns-bind (returns {value = v} holds) after = after v holds

-- A call that a test chooses.
pub Returns-test {ℓ κ} :
    {A : Type ℓ} {P : A → Type κ} {on_true on_false : Run A} (test : Bool)
    → (test ≡ true → Returns P on_true)
    → (test ≡ false → Returns P on_false)
    → Returns P (if test then on_true else on_false)
Returns-test true when_true when_false = when_true refl
Returns-test false when_true when_false = when_false refl

-- If the call gives a value, it is one of which `P` holds.
pub data Safely {ℓ κ} {A : Type ℓ} (P : A → Type κ) : Run A → Type (ℓ ⊔ κ) where
  gives : {value : A} → P value → Safely P (ok value)
  raises : Safely P raised
  runs_out : Safely P out_of_fuel

pub Safely-bind {ℓ κ ℓ' κ'} :
    {A : Type ℓ} {B : Type ℓ'} {P : A → Type κ} {Q : B → Type κ'} {first : Run A}
    {then_do : A → Run B}
    → Safely P first
    → ((value : A) → P value → Safely Q (then_do value))
    → Safely Q (first >>= then_do)
Safely-bind (gives {value = v} holds) after = after v holds
Safely-bind raises after = raises
Safely-bind runs_out after = runs_out

pub Safely-test {ℓ κ} :
    {A : Type ℓ} {P : A → Type κ} {on_true on_false : Run A} (test : Bool)
    → (test ≡ true → Safely P on_true)
    → (test ≡ false → Safely P on_false)
    → Safely P (if test then on_true else on_false)
Safely-test true when_true when_false = when_true refl
Safely-test false when_true when_false = when_false refl

pub Safely-weaken {ℓ κ ι} :
    {A : Type ℓ} {P : A → Type κ} {Q : A → Type ι} {call : Run A}
    → ((value : A) → P value → Q value)
    → Safely P call
    → Safely Q call
Safely-weaken weaker (gives {value = v} holds) = gives (weaker v holds)
Safely-weaken weaker raises = raises
Safely-weaken weaker runs_out = runs_out

pub Safely-ok {κ} :
    {A : Type 0} {P : A → Type κ} {call : Run A} (t : A) → Safely P call → call ≡ ok t → P t
Safely-ok {P = P} t (gives {value = v} holds) e =
    let same : v ≡ t = ground arith in subst P same holds
Safely-ok t raises e = absurd (ground arith)
Safely-ok t runs_out e = absurd (ground arith)
