-- ===== src/Utils/Uuid.antt =====
-- pkg/utils/utils.go: IsValidUUID and RandomString. A regular expression without alternatives and
-- repetitions of open length is the list of the classes of its characters.
use rubble.Prelude.{
  ℕ, zero, suc, String, Bool, true, false, ◌&&◌, ◌||◌, ◌≡◌, refl, ap, List, [], ◌∷◌, ◌++◌, ◌+◌, ◌*◌,
  arith, leb, ◌==◌, if◌then◌else◌, length,
}
use Prim.Native.String.{char_at}
use rubble.Prelude.Bytes.{Bytes, codes}

abbrev CharClass : Type 0
CharClass = ℕ → Bool

-- `[a-fA-F0-9]`
unfoldable pub is_hex : CharClass
is_hex c = (leb 97 c && leb c 102) || (leb 65 c && leb c 70) || (leb 48 c && leb c 57)

-- `[8|9|aA|bB]`, in which the bar is one of the characters.
unfoldable pub is_variant : CharClass
is_variant c = c == 56 || c == 124 || c == 57 || c == 97 || c == 65 || c == 98 || c == 66

unfoldable pub times : ℕ → CharClass → List CharClass
times zero k = []
times (suc n) k = k ∷ times n k

abbrev pub dash : CharClass
dash c = c == 45

abbrev pub four : CharClass
four c = c == 52

unfoldable pub uuid_pattern : List CharClass
uuid_pattern =
    times 8 is_hex
    ++ (dash ∷ times 4 is_hex)
    ++ (dash ∷ four ∷ times 3 is_hex)
    ++ (dash ∷ is_variant ∷ times 3 is_hex)
    ++ (dash ∷ times 12 is_hex)

-- The match of a whole string.
unfoldable pub match_string : List CharClass → Bytes → Bool
match_string [] [] = true
match_string (k ∷ ks) (c ∷ s) = let rest = match_string ks s in if k c then rest else false
match_string _ _ = false

unfoldable pub is_valid_uuid : String → Bool
is_valid_uuid uuid = match_string uuid_pattern (codes uuid)

match_string-length :
    (ks : List CharClass) (s : Bytes) → match_string ks s ≡ true → length s ≡ length ks
unfolding match_string
match_string-length [] [] e = refl
match_string-length [] (c ∷ s) e = absurd (ground arith)
match_string-length (k ∷ ks) [] e = absurd (ground arith)
match_string-length (k ∷ ks) (c ∷ s) e = ap suc (match_string-length ks s (ground arith))

-- A valid UUID has 36 characters.
pub is_valid_uuid-length : (uuid : String) → is_valid_uuid uuid ≡ true → length (codes uuid) ≡ 36
unfolding is_valid_uuid uuid_pattern times
is_valid_uuid-length uuid = match_string-length uuid_pattern (codes uuid)

-- The letters that RandomString draws from, and the loop over the string's bytes, where `draw i` is
-- the i-th answer of rand.Intn.
unfoldable pub charset : String
charset = "abcdefghijklmnopqrstuvwxyz0123456789"

unfoldable pub random_string : (ℕ → ℕ) → ℕ → String
random_string draw zero = ""
random_string draw (suc n) =
    String.◌∷◌ (char_at charset (draw 0)) (random_string (λ i. draw (i + 1)) n)

random_string-length : (draw : ℕ → ℕ) (n : ℕ) → length (codes (random_string draw n)) ≡ n
unfolding random_string
random_string-length draw zero = refl
random_string-length draw (suc n) = ap suc (random_string-length (λ i. draw (i + 1)) n)

drawn : random_string (λ i. i * 30) 2 ≡ "a4"
unfolding random_string charset
drawn = refl

accepted : is_valid_uuid "0a1B2c3D-0000-4fff-aabc-0123456789ef" ≡ true
unfolding is_valid_uuid uuid_pattern times match_string is_hex is_variant
accepted = refl

-- The bar in the class of the variant.
bar_accepted : is_valid_uuid "0a1B2c3D-0000-4fff-|abc-0123456789ef" ≡ true
unfolding is_valid_uuid uuid_pattern times match_string is_hex is_variant
bar_accepted = refl

-- A name that is no UUID.
pub pods-refused : is_valid_uuid "pods" ≡ false
unfolding is_valid_uuid uuid_pattern times match_string is_hex is_variant
pods-refused = refl
