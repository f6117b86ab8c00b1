-- ===== src/Prelude/Run.antt =====
-- How a Go call ends, and the rules for calls that return.
use mathlib.Core.Path.{◌≡◌, refl, subst}
use mathlib.Core.Logic.{◌⊎◌, inl, inr}
use mathlib.Core.Bool.{Bool, true, false}
use mathlib.Core.Option.{Option, none, some}
use Prim.Native.String.{String}
use rubble.Prelude.Tests.{if◌then◌else◌}

-- A value, a run-time panic, a wait that the call itself cannot end (a mutex that is held, a
-- channel operation with no partner), or the model's fuel running out.
pub data Run {ℓ} (A : Type ℓ) : Type ℓ where
  ok : A → Run A
  panic blocked out_of_fuel : Run A

infixl 5 ◌>>=◌
abbrev pub ◌>>=◌ {ℓ κ} : {A : Type ℓ} {B : Type κ} → Run A → (A → Run B) → Run B
ok a >>= f = f a
panic >>= f = panic
blocked >>= f = blocked
out_of_fuel >>= f = out_of_fuel

abbrev pub or_panic {ℓ} : {A : Type ℓ} → Option A → Run A
or_panic (some a) = ok a
or_panic none = panic

-- A call that comes to its end, with a value for which `P` holds.
pub data Returns {ℓ κ} {A : Type ℓ} (P : A → Type κ) : Run A → Type (ℓ ⊔ κ) where
  returns : {value : A} → P value → Returns P (ok value)

-- A value of such a call, with the equation that it is one.
pub Returns-elim {ℓ κ} :
    {A : Type ℓ} {P : A → Type κ} {call : Run A}
    → Returns P call
    → (value : A) × (call ≡ ok value) × P value
Returns-elim (returns {value = v} holds) = (v, refl, holds)

-- Two facts about one call.
pub Returns-both {ℓ κ μ} :
    {A : Type ℓ} {P : A → Type κ} {Q : A → Type μ} {call : Run A}
    → Returns P call
    → Returns Q call
    → Returns (λ a. P a × Q a) call
Returns-both {Q} (returns {value = v} p) r =
    let (w, e, q) = Returns-elim r in let same : w ≡ v = cc in returns (p, subst Q same q)

-- The branch taken may use the outcome of the test.
pub Returns-if {ℓ κ} :
    {A : Type ℓ} {P : A → Type κ} {yes_call no_call : Run A} (test : Bool)
    → (test ≡ true → Returns P yes_call)
    → (test ≡ false → Returns P no_call)
    → Returns P (if test then yes_call else no_call)
Returns-if false positive negative = negative refl
Returns-if true positive negative = positive refl

pub Returns-map {ℓ κ μ} :
    {A : Type ℓ} {P : A → Type κ} {Q : A → Type μ} {call : Run A}
    → Returns P call
    → ((value : A) → P value → Q value)
    → Returns Q call
Returns-map (returns {value = v} holds) weaken = returns (weaken v holds)

pub Returns-bind {ℓ κ ℓ₁ κ₁} :
    {A : Type ℓ} {P : A → Type κ} {B : Type ℓ₁} {Q : B → Type κ₁} {call : Run A} {rest : A → Run B}
    → Returns P call
    → ((value : A) → P value → Returns Q (rest value))
    → Returns Q (call >>= rest)
Returns-bind (returns {value = v} holds) continue = continue v holds

-- The errors of the program, as far as a caller can tell them apart. `external` is an error of a
-- package outside the repository, `plain` a message, and `wrapped` an error behind a message.
pub data Error : Type 0 where
  no_available_resource invalid_state not_found context_done invalid_arguments : Error
  storage_not_found : Error
  link_not_found ns_path_not_exist : Error
  external : String → Error
  plain : String → Error
  wrapped : String → Error → Error

-- A pair `(A, error)` of which one part is set.
pub data Result {ℓ} (A : Type ℓ) : Type ℓ where
  success : A → Result A
  failure : Error → Result A

pub Result-cases {ℓ} :
    {A : Type ℓ} (r : Result A) → ((a : A) × (r ≡ success a)) ⊎ ((e : Error) × (r ≡ failure e))
Result-cases (success a) = inl (a, refl)
Result-cases (failure e) = inr (e, refl)
