-- ===== src/Prelude/Call.antt =====
-- Calls that change a world `W` and may fail: for `do` blocks.
use mathlib.Core.Option.{Option, none, some}
use Prim.Native.String.{String}
use rubble.Prelude.Run.{
  Run, ok, panic, blocked, out_of_fuel, Error, plain, wrapped, Result, success, failure,
}

abbrev pub Call : Type 0 → Type 0 → Type 0
Call W A = W → Run (Result A × W)

-- The first error ends the call; the world keeps what was done before.
unfoldable pub and_then :
    {W A B : Type 0} → Run (Result A × W) → (A → Call W B) → Run (Result B × W)
and_then (ok (success a, w)) f = f a w
and_then (ok (failure e, w)) f = ok (failure e, w)
and_then panic f = panic
and_then blocked f = blocked
and_then out_of_fuel f = out_of_fuel

module _ {W : Type 0} where
  infixl 5 ◌>>=◌ ◌>>◌
  abbrev pub ◌>>=◌ : {A B : Type 0} → Call W A → (A → Call W B) → Call W B
  ◌>>=◌ m f w = and_then (m w) f

  abbrev pub ◌>>◌ : {B : Type 0} → Call W (Unit {0}) → Call W B → Call W B
  ◌>>◌ m k w = and_then (m w) (λ _. k)

  abbrev pub give : {A : Type 0} → A → Call W A
  give a w = ok (success a, w)

  abbrev pub fail : {A : Type 0} → Error → Call W A
  fail e w = ok (failure e, w)

  abbrev pub crash : {A : Type 0} → Call W A
  crash w = panic

  -- A step that only fails or succeeds, one that reads, one that does both, and a test.
  unfoldable pub acted : Option Error × W → Run (Result (Unit {0}) × W)
  acted (none, w) = ok (success tt, w)
  acted (some e, w) = ok (failure e, w)

  abbrev pub act : (W → Option Error × W) → Call W (Unit {0})
  act f w = acted (f w)

  abbrev pub ask : {A : Type 0} → (W → Result A) → Call W A
  ask f w = ok (f w, w)

  abbrev pub run : {A : Type 0} → (W → Result A × W) → Call W A
  run f w = ok (f w)

  abbrev pub check : (W → Option Error) → Call W (Unit {0})
  check f w = acted (f w, w)

  -- The error behind a message: with `%w` it can still be told, with `%v` it cannot.
  unfoldable pub behind : {A : Type 0} → String → Run (Result A × W) → Run (Result A × W)
  behind text (ok (failure e, w)) = ok (failure (wrapped text e), w)
  behind text r = r

  unfoldable pub hidden : {A : Type 0} → String → Run (Result A × W) → Run (Result A × W)
  hidden text (ok (failure e, w)) = ok (failure (plain text), w)
  hidden text r = r

  abbrev pub wrap : {A : Type 0} → String → Call W A → Call W A
  wrap text m w = behind text (m w)

  abbrev pub hide : {A : Type 0} → String → Call W A → Call W A
  hide text m w = hidden text (m w)
