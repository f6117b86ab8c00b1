-- ===== src/Cni/Parse.antt =====
-- CNI_ARGS read back: the value of a key in a joined list of settings.
use rubble.Prelude.{
  ℕ, Bool, true, false, List, [], ◌∷◌, ◌++◌, map, ◌≡◌, ◌≢◌, refl, sym, ap, ◌∙◌, inl, inr, Option,
  none, some, ◌==◌, Option-cases, if◌then◌else◌, arith, Bool-cases,
}
use rubble.Prelude.Bytes.{Bytes}
use rubble.Prelude.Run.{plain, Result, success, failure}
use rubble.Utils.{bytes_eq}
use rubble.Cni.Args.{cut, split, after_prefix, find_value, parse_value_from_args}
use mathlib.Core.List.{append_assoc, append-nil, cons-ne-nil}

-- A byte that a text does not hold.
abbrev pub Lacks : ℕ → Bytes → Type 0
Lacks sep [] = Unit {0}
Lacks sep (b ∷ s) = ((b == sep) ≡ false) × Lacks sep s

-- A setting `key=value`, and settings joined by a separator.
abbrev pub setting : Bytes × Bytes → Bytes
setting (key, value) = key ++ b'=' ∷ value

abbrev pub join : ℕ → Bytes → List Bytes → Bytes
join sep part [] = part
join sep part (next ∷ parts) = part ++ sep ∷ join sep next parts

abbrev pub Fields : ℕ → List Bytes → Type 0
Fields sep [] = Unit {0}
Fields sep (part ∷ parts) = Lacks sep part × Fields sep parts

cut-last : (sep : ℕ) (cur part : Bytes) → Lacks sep part → cut cur part sep ≡ (cur ++ part) ∷ []
unfolding cut
cut-last sep cur [] h = ap (λ p. p ∷ []) (sym (append-nil cur))
cut-last sep cur (b ∷ part) (h, rest) =
    rw (h, cut)
      (cut-last sep (cur ++ b ∷ []) part rest ∙ ap (λ p. p ∷ []) (append_assoc cur (b ∷ []) part))

cut-field :
    (sep : ℕ) (cur part rest : Bytes)
    → Lacks sep part
    → cut cur (part ++ sep ∷ rest) sep ≡ (cur ++ part) ∷ cut [] rest sep
unfolding cut
cut-field sep cur [] rest h =
    let same : (sep == sep) ≡ true = ground arith in
    rw (same, cut) (ap (λ p. p ∷ cut [] rest sep) (sym (append-nil cur)))
cut-field sep cur (b ∷ part) rest (h, more) =
    rw (h, cut)
      (cut-field sep (cur ++ b ∷ []) part rest more
        ∙ ap (λ p. p ∷ cut [] rest sep) (append_assoc cur (b ∷ []) part))

-- A joined list is split at its separators again.
split-join :
    (sep : ℕ) (part : Bytes) (parts : List Bytes)
    → Fields sep (part ∷ parts)
    → split (join sep part parts) sep ≡ part ∷ parts
unfolding split
split-join sep part [] (h, _) = cut-last sep [] part h
split-join sep part (next ∷ parts) (h, more) =
    cut-field sep [] part (join sep next parts) h ∙ ap (◌∷◌ part) (split-join sep next parts more)

-- The prefix `key=` tells the settings of a key from the others.
after_prefix-setting :
    (key k value : Bytes)
    → Lacks b'=' key
    → Lacks b'=' k
    → after_prefix (key ++ b'=' ∷ []) (setting (k, value))
      ≡ (if bytes_eq key k then some value else none)
unfolding after_prefix bytes_eq
after_prefix-setting [] [] value h h' = refl
after_prefix-setting [] (b ∷ k) value h (other, _) =
    let differ : (b'=' == b) ≡ false = ground arith in rw differ refl
after_prefix-setting (c ∷ key) [] value (other, _) h' = rw other refl
after_prefix-setting (c ∷ key) (b ∷ k) value (_, h) (_, h') = elim (Bool-cases (c == b)) [
  | inl same ↦ rw same (after_prefix-setting key k value h h')
  | inr differ ↦ rw differ refl
]

-- The first setting of the key that has a value.
abbrev pub value_or : Bytes → Result Bytes → Result Bytes
value_or [] rest = rest
value_or (b ∷ value) rest = success (b ∷ value)

abbrev pub first_value : Bytes → List (Bytes × Bytes) → Result Bytes
first_value key [] = failure (plain "key is required in CNI_ARGS")
first_value key ((k, value) ∷ settings) =
    let rest = first_value key settings in if bytes_eq key k then value_or value rest else rest

-- Settings whose keys hold neither `=` nor `;` and whose values hold no `;`.
abbrev pub Settings : List (Bytes × Bytes) → Type 0
Settings [] = Unit {0}
Settings ((k, value) ∷ settings) =
    Lacks b'=' k × Lacks b';' k × Lacks b';' value × Settings settings

-- One turn of the loop of parseValueFromArgs.
abbrev taken : Option Bytes → Result Bytes → Result Bytes
taken none rest = rest
taken (some value) rest = value_or value rest

find_value-cons :
    (key arg : Bytes) (args : List Bytes)
    → find_value key (arg ∷ args)
      ≡ taken (after_prefix (key ++ b'=' ∷ []) arg) (find_value key args)
unfolding find_value
find_value-cons key arg args = elim (Option-cases (after_prefix (key ++ b'=' ∷ []) arg)) [
  | inl e ↦ rw (e, find_value) refl
  | inr ([], e) ↦ rw (e, find_value) refl
  | inr (b ∷ value, e) ↦ rw (e, find_value) refl
]

taken-if :
    (b : Bool) (value : Bytes) (rest : Result Bytes)
    → taken (if b then some value else none) rest ≡ (if b then value_or value rest else rest)
taken-if true value rest = refl
taken-if false value rest = refl

find_value-setting :
    (key : Bytes) (settings : List (Bytes × Bytes))
    → Lacks b'=' key
    → Settings settings
    → find_value key (map setting settings) ≡ first_value key settings
unfolding find_value
find_value-setting key [] h _ = refl
find_value-setting key ((k, value) ∷ settings) h (plain_key, _, _, more) =
    find_value-cons key (setting (k, value)) (map setting settings)
    ∙ ap (λ o. taken o (find_value key (map setting settings)))
        (after_prefix-setting key k value h plain_key)
    ∙ taken-if (bytes_eq key k) value (find_value key (map setting settings))
    ∙ ap (λ r. if bytes_eq key k then value_or value r else r)
        (find_value-setting key settings h more)

Lacks-append : (sep : ℕ) (s t : Bytes) → Lacks sep s → Lacks sep t → Lacks sep (s ++ t)
Lacks-append sep [] t _ h = h
Lacks-append sep (b ∷ s) t (differ, g) h = (differ, Lacks-append sep s t g h)

Settings-Fields :
    (settings : List (Bytes × Bytes)) → Settings settings → Fields b';' (map setting settings)
Settings-Fields [] _ = tt
Settings-Fields ((k, value) ∷ settings) (_, key, text, more) =
    (Lacks-append b';' k (b'=' ∷ value) key (refl, text), Settings-Fields settings more)

-- CNI_ARGS as the runtime writes it.
abbrev pub cni_args : Bytes × Bytes → List (Bytes × Bytes) → Bytes
cni_args s settings = join b';' (setting s) (map setting settings)

parse-split : (key s : Bytes) → s ≢ [] → parse_value_from_args key s ≡ find_value key (split s b';')
unfolding parse_value_from_args
parse-split key [] h = absurd (h refl)
parse-split key (b ∷ s) h = refl

join-ne-nil :
    (sep : ℕ) (k value : Bytes) (parts : List Bytes) → join sep (setting (k, value)) parts ≢ []
join-ne-nil sep [] value [] = cons-ne-nil _ _
join-ne-nil sep [] value (p ∷ ps) = cons-ne-nil _ _
join-ne-nil sep (b ∷ k) value [] = cons-ne-nil _ _
join-ne-nil sep (b ∷ k) value (p ∷ ps) = cons-ne-nil _ _

-- From settings `key=value` joined with `;`, of which no key holds `=` or `;` and no value holds
-- `;`, parseValueFromArgs of a key without `=` answers the first value of that key that is not
-- empty, and the error that the key is required when there is none.
pub parse_value_from_args-first_value :
    (key : Bytes) (s : Bytes × Bytes) (settings : List (Bytes × Bytes))
    → Lacks b'=' key
    → Settings (s ∷ settings)
    → parse_value_from_args key (cni_args s settings) ≡ first_value key (s ∷ settings)
parse_value_from_args-first_value key (k, value) settings h hs =
    parse-split key _ (join-ne-nil b';' k value (map setting settings))
    ∙ ap (find_value key)
        (split-join b';' _ (map setting settings) (Settings-Fields ((k, value) ∷ settings) hs))
    ∙ find_value-setting key ((k, value) ∷ settings) h hs
