-- ===== src/Prelude/Outcomes.antt =====
-- What the success of a call of `Call` says of its steps.
use mathlib.Core.Path.{◌≡◌, refl, ap}
use mathlib.Core.Option.{Option, none, some}
use native.Mathlib.Omega.{arith}
use Prim.Native.String.{String}
use rubble.Prelude.Run.{
  Run, ok, panic, blocked, out_of_fuel, Error, Result, success, failure, Returns, returns,
}
use rubble.Prelude.Call.{Call, and_then, acted, behind, hidden}

module _ {W : Type 0} where
  pub and_then-success :
      {A B : Type 0} {r : Run (Result A × W)} {f : A → Call W B} {b : B} {v : W}
      → and_then r f ≡ ok (success b, v)
      → (a : A) × (w : W) × (r ≡ ok (success a, w)) × (f a w ≡ ok (success b, v))
  unfolding and_then
  and_then-success {r = ok (success a, w)} h = (a, w, refl, h)
  and_then-success {r = ok (failure e, w)} h = absurd (ground arith)
  and_then-success {r = panic} h = absurd (ground arith)
  and_then-success {r = blocked} h = absurd (ground arith)
  and_then-success {r = out_of_fuel} h = absurd (ground arith)

  pub and_then-step :
      {A B : Type 0} {r : Run (Result A × W)} (f : A → Call W B) {a : A} {w : W}
      {end : Run (Result B × W)}
      → r ≡ ok (success a, w)
      → and_then r f ≡ end
      → f a w ≡ end
  unfolding and_then
  and_then-step f e h = rw e at h

  pub behind-success :
      {A : Type 0} (text : String) {r : Run (Result A × W)} {a : A} {v : W}
      → behind text r ≡ ok (success a, v)
      → r ≡ ok (success a, v)
  unfolding behind
  behind-success text {r = ok (success a, w)} h = h
  behind-success text {r = ok (failure e, w)} h = absurd (ground arith)
  behind-success text {r = panic} h = absurd (ground arith)
  behind-success text {r = blocked} h = absurd (ground arith)
  behind-success text {r = out_of_fuel} h = absurd (ground arith)

  pub hidden-success :
      {A : Type 0} (text : String) {r : Run (Result A × W)} {a : A} {v : W}
      → hidden text r ≡ ok (success a, v)
      → r ≡ ok (success a, v)
  unfolding hidden
  hidden-success text {r = ok (success a, w)} h = h
  hidden-success text {r = ok (failure e, w)} h = absurd (ground arith)
  hidden-success text {r = panic} h = absurd (ground arith)
  hidden-success text {r = blocked} h = absurd (ground arith)
  hidden-success text {r = out_of_fuel} h = absurd (ground arith)

  pub acted-success : {r : Option Error × W} {v : W} → acted r ≡ ok (success tt, v) → r ≡ (none, v)
  unfolding acted
  acted-success {r = (none, w)} h = cc
  acted-success {r = (some e, w)} h = absurd (ground arith)

  pub ran-success :
      {A : Type 0} {r : Result A × W} {a : A} {v : W}
      → ok r ≡ ok (success a, v)
      → r ≡ (success a, v)
  ran-success h = cc

  -- A call that answers its argument, or panics.
  pub gave-success :
      {A : Type 0} {a b : A} {w v : W}
      → ◌≡◌ {A = Run (Result A × W)} (ok (success a, w)) (ok (success b, v))
      → (a ≡ b) × (w ≡ v)
  gave-success h = (cc, cc)

  -- A test and a question leave the world as it is.
  pub checked-success :
      {o : Option Error} {w v : W} → acted (o, w) ≡ ok (success tt, v) → (o ≡ none) × (w ≡ v)
  unfolding acted
  checked-success {o = none} h = (refl, cc)
  checked-success {o = some e} h = absurd (ground arith)

  pub asked-success :
      {A : Type 0} {r : Result A} {a : A} {w v : W}
      → ◌≡◌ {A = Run (Result A × W)} (ok (r, w)) (ok (success a, v))
      → (r ≡ success a) × (w ≡ v)
  asked-success {A = A} {r = r} {a = a} {w = w} {v = v} h =
      let e : ◌≡◌ {A = Result A × W} (r, w) (success a, v) = ran-success h in
      (ap (λ (p : Result A × W). p.0) e, ap (λ (p : Result A × W). p.1) e)

  pub acted-world :
      (r : Option Error × W) (a : Result (Unit {0})) (v : W) → acted r ≡ ok (a, v) → r.1 ≡ v
  unfolding acted
  acted-world (none, w) a v h = cc
  acted-world (some e, w) a v h = cc

-- A call that comes to its end, with a result or an error.
abbrev pub Ends : {W A : Type 0} → Run (Result A × W) → Type 0
Ends r = Returns (λ _. Unit {0}) r

module _ {W : Type 0} where
  pub and_then-panic : {A B : Type 0} (f : A → Call W B) → and_then panic f ≡ panic
  unfolding and_then
  and_then-panic f = refl

  pub and_then-Ends :
      {A B : Type 0} {r : Run (Result A × W)} {f : A → Call W B}
      → Ends r
      → ((a : A) (w : W) → r ≡ ok (success a, w) → Ends (f a w))
      → Ends (and_then r f)
  unfolding and_then
  and_then-Ends {r = ok (success a, w)} ends next = next a w refl
  and_then-Ends {r = ok (failure e, w)} ends next = returns tt
  and_then-Ends {r = panic} ends next = elim ends [ ]
  and_then-Ends {r = blocked} ends next = elim ends [ ]
  and_then-Ends {r = out_of_fuel} ends next = elim ends [ ]

  pub behind-Ends :
      {A : Type 0} (text : String) {r : Run (Result A × W)} → Ends r → Ends (behind text r)
  unfolding behind
  behind-Ends text {r = ok (success a, w)} ends = returns tt
  behind-Ends text {r = ok (failure e, w)} ends = returns tt
  behind-Ends text {r = panic} ends = elim ends [ ]
  behind-Ends text {r = blocked} ends = elim ends [ ]
  behind-Ends text {r = out_of_fuel} ends = elim ends [ ]

  pub hidden-Ends :
      {A : Type 0} (text : String) {r : Run (Result A × W)} → Ends r → Ends (hidden text r)
  unfolding hidden
  hidden-Ends text {r = ok (success a, w)} ends = returns tt
  hidden-Ends text {r = ok (failure e, w)} ends = returns tt
  hidden-Ends text {r = panic} ends = elim ends [ ]
  hidden-Ends text {r = blocked} ends = elim ends [ ]
  hidden-Ends text {r = out_of_fuel} ends = elim ends [ ]

  pub acted-Ends : (r : Option Error × W) → Ends (acted r)
  unfolding acted
  acted-Ends (none, w) = returns tt
  acted-Ends (some e, w) = returns tt
