-- ===== src/Log.antt =====
-- pkg/log/log.go: the format of a line in the log. The text of a value (`%v`), of a number and of a
-- time, the base of a path and strings.ToUpper are parameters; so is the file that SetLogOutput
-- opens.
pub mod Order
mod Tests
use Prim.Native.String.{◌++◌, slice, len}
use rubble.Prelude.{
  ℕ, String, Bool, true, false, Option, none, some, List, [], ◌∷◌, map, leb, ltb, ◌==◌,
  if◌then◌else◌, ◌||◌, ◌&&◌, length,
}
use rubble.Prelude.Strings.{join}
use rubble.Prelude.Bytes.{Bytes, codes}
use rubble.Prelude.Assoc.{lookup, keys}
use rubble.Prelude.Run.{Run, ok, panic, ◌>>=◌, Error, success}
use rubble.Prelude.Call.{Call}

abbrev pub default_cni_log_path : String
default_cni_log_path = "/var/log/rubble.cni.log"

-- SetLogOutput over os.OpenFile, which opens the file for appending, and after which the logger
-- writes to it. That the file cannot be opened is no error but a panic.
unfoldable pub set_log_output :
    {W : Type 0} → (String → W → Option Error × W) → String → Call W (Unit {0})
set_log_output open_file path w =
    let (err, w₁) = open_file path w in elim err [ none ↦ ok (success tt, w₁) | some e ↦ panic ]

-- The order of Go's strings, by their bytes; the order of the characters is the same.
unfoldable pub leb_codes : Bytes → Bytes → Bool
leb_codes [] t = true
leb_codes (b ∷ s) [] = false
leb_codes (b ∷ s) (c ∷ t) = let rest = leb_codes s t in ltb b c || (b == c && rest)

unfoldable pub leb_string : String → String → Bool
leb_string s t = leb_codes (codes s) (codes t)

-- sort.Strings
unfoldable pub insert_sorted : String → List String → List String
insert_sorted x [] = x ∷ []
insert_sorted x (y ∷ l) =
    let rest = insert_sorted x l in if leb_string x y then x ∷ y ∷ l else y ∷ rest

unfoldable pub sort_strings : List String → List String
sort_strings [] = []
sort_strings (x ∷ l) = insert_sorted x (sort_strings l)

module _ {ℓ} {V : Type ℓ} (show : Option V → String) where
  -- The loop over the sorted keys, which reads the map at each.
  unfoldable pub pairs : List (String × V) → List String → List String
  pairs data_ [] = []
  pairs data_ (key ∷ rest) = (key ++ "=" ++ show (lookup key data_)) ∷ pairs data_ rest

  unfoldable pub kv : List (String × V) → String
  kv [] = ""
  kv (field ∷ fields) = join " " (pairs (field ∷ fields) (sort_strings (keys (field ∷ fields))))

-- logrus.Entry: what Format reads of it. `buffer` is what the entry's buffer holds already.
pub record Entry {ℓ} (V : Type ℓ) : Type ℓ where
  pub buffer : Option String
  pub level : String
  pub day : String
  pub clock : String
  pub caller : Option (String × ℕ)
  pub fields : List (String × V)
  pub message : String

module _ {ℓ} {V : Type ℓ} (show : Option V → String) (digits : ℕ → String)
    (base to_upper : String → String) where
  unfoldable pub file_name : Option (String × ℕ) → String
  file_name none = ""
  file_name (some (file, line)) = base file ++ ":" ++ digits line

  -- `level[:1]`, which panics on the empty string. The names of the levels are ASCII.
  unfoldable pub first_letter : String → Run String
  first_letter level = if 0 == len level then panic else ok (slice level 0 1)

  unfoldable pub key_values : List (String × V) → String
  key_values fields = let r = kv show fields in if ltb 0 (len r) then " " ++ r else ""

  unfoldable pub format : Entry V → Run String
  format entry = do
    letter ← first_letter entry.level
    let start : String = elim entry.buffer [ none ↦ "" | some text ↦ text ]
    let head : String =
        to_upper letter ++ entry.day ++ " " ++ entry.clock ++ " " ++ file_name entry.caller ++ "]"
    ok (start ++ head ++ key_values entry.fields ++ " " ++ entry.message ++ "\n")
