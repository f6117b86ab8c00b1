-- ===== src/Log/Order.antt =====
-- A line of the log does not depend on the order in which Go visits the map of its fields.
use mathlib.Core.List.Perm
use mathlib.Core.List.{Nodup, Nodup-cons, Perm, Permᴰ, mem-cons_self}
use mathlib.Core.Path.{subst}
use mathlib.Core.HLevel.{hedberg}
use mathlib.Core.Logic.{∥∥₁_elim}
use mathlib.Core.Path.{ap₂}
use mathlib.Core.Bool.{false≢true}
use Prim.Native.String.{◌++◌ as append}
use text.Mathlib.TextEquality.{Char-path}
use rubble.Prelude.{
  str_eq, eq_iff, ◌≢◌, some, Option, Mem, ℕ, String, true, false, ◌≡◌, refl, sym, ap, ◌∙◌, inl, inr,
  List, [], ◌∷◌, Bool-cases, arith, if◌then◌else◌,
}
use rubble.Prelude.Bytes.{Bytes, codes}
use rubble.Prelude.Assoc.{lookup, keys}
use rubble.Prelude.Strings.{join}
use rubble.Log.{
  leb_codes, leb_string, insert_sorted, sort_strings, kv, pairs, Entry, format, key_values,
}

leb_codes-total : (s t : Bytes) → leb_codes s t ≡ false → leb_codes t s ≡ true
unfolding leb_codes
leb_codes-total [] t h = absurd (ground arith)
leb_codes-total (b ∷ s) [] h = refl
leb_codes-total (b ∷ s) (c ∷ t) h = ground (arith, leb_codes-total s t)

leb_codes-antisym : (s t : Bytes) → leb_codes s t ≡ true → leb_codes t s ≡ true → s ≡ t
unfolding leb_codes
leb_codes-antisym [] [] h k = refl
leb_codes-antisym [] (c ∷ t) h k = absurd (ground arith)
leb_codes-antisym (b ∷ s) [] h k = absurd (ground arith)
leb_codes-antisym (b ∷ s) (c ∷ t) h k = ground (arith, leb_codes-antisym s t)

leb_codes_trans :
    (s t u : Bytes) → leb_codes s t ≡ true → leb_codes t u ≡ true → leb_codes s u ≡ true
unfolding leb_codes
leb_codes_trans [] t u h k = refl
leb_codes_trans (b ∷ s) [] u h k = absurd (ground arith)
leb_codes_trans (b ∷ s) (c ∷ t) [] h k = absurd (ground arith)
leb_codes_trans (b ∷ s) (c ∷ t) (d ∷ u) h k = ground (arith, leb_codes_trans s t u)

codes-injective : (s t : String) → codes s ≡ codes t → s ≡ t
codes-injective String.[] String.[] e = refl
codes-injective String.[] (String.◌∷◌ d t) e = absurd (ground arith)
codes-injective (String.◌∷◌ c s) String.[] e = absurd (ground arith)
codes-injective (String.◌∷◌ c s) (String.◌∷◌ d t) e =
    λ i. String.◌∷◌ (Char-path c d (cc) i) (codes-injective s t (cc) i)

leb_string-antisym : (s t : String) → leb_string s t ≡ true → leb_string t s ≡ true → s ≡ t
unfolding leb_string
leb_string-antisym s t h k = codes-injective s t (leb_codes-antisym (codes s) (codes t) h k)

leb_string-total : (s t : String) → leb_string s t ≡ false → leb_string t s ≡ true
unfolding leb_string
leb_string-total s t h = leb_codes-total (codes s) (codes t) h

leb_string_trans :
    (s t u : String) → leb_string s t ≡ true → leb_string t u ≡ true → leb_string s u ≡ true
unfolding leb_string
leb_string_trans s t u h k = leb_codes_trans (codes s) (codes t) (codes u) h k

-- Two strings can be put into a list in either order.
insert_sorted-swap :
    (x y : String) (l : List String)
    → insert_sorted x (insert_sorted y l) ≡ insert_sorted y (insert_sorted x l)
unfolding insert_sorted
insert_sorted-swap x y [] = ground (arith, leb_string-total x y, leb_string-antisym x y)
insert_sorted-swap x y (z ∷ l) = ground (
  arith,
  leb_string-total x y,
  leb_string-antisym x y,
  leb_string_trans x y z,
  leb_string_trans y x z,
  leb_string-total x z,
  leb_string-total y z,
  leb_string_trans x z y,
  leb_string_trans y z x,
  insert_sorted-swap x y l,
)

String-set : IsSet String
String-set = hedberg (λ s t. elim (Bool-cases (str_eq s t)) [
  | inl e ↦ yes ((eq_iff s t).0 e)
  | inr e ↦ no (λ same. false≢true (sym e ∙ (eq_iff s t).1 same))
])

strings_set : IsSet (List String)
strings_set = hlevel (String-set)

sorted_alike : {xs ys : List String} → Permᴰ xs ys → sort_strings xs ≡ sort_strings ys
unfolding sort_strings
sorted_alike Permᴰ.nil = refl
sorted_alike (Permᴰ.cons e p) = ap₂ insert_sorted e (sorted_alike p)
sorted_alike (Permᴰ.swap {a = a} {b = b} {l = l} e f) =
    insert_sorted-swap a b (sort_strings l)
    ∙ ap₂ (λ x y. insert_sorted x (insert_sorted y (sort_strings l))) f e
sorted_alike (Permᴰ.trans p q) = sorted_alike p ∙ sorted_alike q

pub sort_strings-perm : {xs ys : List String} → Perm xs ys → sort_strings xs ≡ sort_strings ys
sort_strings-perm p = ∥∥₁_elim p (strings_set _ _) sorted_alike

module _ {ℓ} {V : Type ℓ} where
  keys_alike : {m m' : List (String × V)} → Permᴰ m m' → Perm (keys m) (keys m')
  keys_alike Permᴰ.nil = Perm.rfl
  keys_alike (Permᴰ.cons e p) = Perm.cons' (ap (λ (f : String × V). f.0) e) (keys_alike p)
  keys_alike (Permᴰ.swap {a = a} {b = b} e f) = Perm.trans (Perm.swap b.0 a.0 _) (
      Perm.cons' (ap (λ (x : String × V). x.0) f)
        (Perm.cons' (ap (λ (x : String × V). x.0) e) Perm.rfl))
  keys_alike (Permᴰ.trans p q) = Perm.trans (keys_alike p) (keys_alike q)

  lookup-swap :
      (k : String) (a b : String × V) (l : List (String × V))
      → a.0 ≢ b.0
      → lookup k (a ∷ b ∷ l) ≡ lookup k (b ∷ a ∷ l)
  unfolding lookup
  lookup-swap k (j, v) (i, w) l apart = ground (arith, eq_iff j k, eq_iff i k)

  -- What is read under a key that stands once.
  lookup_alike :
      (k : String) {m m' : List (String × V)}
      → Permᴰ m m'
      → Nodup (keys m)
      → lookup k m ≡ lookup k m'
  unfolding lookup
  lookup_alike k Permᴰ.nil d = refl
  lookup_alike k (Permᴰ.cons e p) d =
      ap₂ (λ (x : String × V) o. if str_eq x.0 k then some x.1 else o) e
        (lookup_alike k p (Nodup-cons.0 d).1)
  lookup_alike k (Permᴰ.swap {a = a} {b = b} {l = l} e f) d =
      lookup-swap k a b l
        (λ same. (Nodup-cons.0 d).0 (subst (λ j. Mem a.0 (j ∷ keys l)) same mem-cons_self))
      ∙ ap₂ (λ x y. lookup k (x ∷ y ∷ l)) f e
  lookup_alike k (Permᴰ.trans p q) d =
      lookup_alike k p d ∙ lookup_alike k q (Perm.nodup (keys_alike p) d)

  module _ (show : Option V → String) where
    pairs_alike :
        {m m' : List (String × V)}
        → Permᴰ m m'
        → Nodup (keys m)
        → (order : List String) → pairs show m order ≡ pairs show m' order
    unfolding pairs
    pairs_alike p d [] = refl
    pairs_alike p d (k ∷ order) =
        ap₂ (λ o rest. (append k (append "=" (show o))) ∷ rest) (lookup_alike k p d)
          (pairs_alike p d order)

    kv_alike : (m m' : List (String × V)) → Permᴰ m m' → Nodup (keys m) → kv show m ≡ kv show m'
    unfolding kv
    kv_alike [] [] p d = refl
    kv_alike [] (f ∷ m') p d = absurd (ground (arith, Perm.nil-eq ∣ p ∣₁))
    kv_alike (f ∷ m) [] p d = absurd (ground (arith, Perm.eq-nil ∣ p ∣₁))
    kv_alike (f ∷ m) (g ∷ m') p d = ap (join " ") (
        pairs_alike p d (sort_strings (keys (f ∷ m)))
        ∙ ap (pairs show (g ∷ m')) (sort_strings-perm (keys_alike p)))

    -- kv of a map is the same in whatever order its entries stand.
    pub kv-perm : (m m' : List (String × V)) → Nodup (keys m) → Perm m m' → kv show m ≡ kv show m'
    kv-perm m m' d p = ∥∥₁_elim p (String-set _ _) (λ q. kv_alike m m' q d)

module _ {ℓ} {V : Type ℓ} (show : Option V → String) (digits : ℕ → String)
    (base to_upper : String → String) where
  -- The line of an entry is the same in whatever order the entries of its map of fields stand.
  pub format-perm :
      (entry : Entry V) (others : List (String × V))
      → Nodup (keys entry.fields)
      → Perm entry.fields others
      → format show digits base to_upper entry
        ≡ format show digits base to_upper (record entry { fields = others })
  unfolding format key_values
  format-perm entry others d p = rw (kv-perm show entry.fields others d p)
