-- ===== src/Prelude/Assoc.antt =====
-- A Go map with string keys, as a list of pairs in which a key stands once.
use Prim.Native.Nat.{suc}
use Prim.Native.String.{String}
use mathlib.Core.Path.{◌≡◌, refl, sym, ap, subst}
use mathlib.Core.List.{List, [], ◌∷◌, Mem, Perm, Nodup, Nodup-cons, mem-cons_self, mem-cons_of_mem}
use mathlib.Core.List.Perm
use mathlib.Core.Logic.{inl, inr}
use mathlib.Core.Option.{Option, none, some}
use native.Mathlib.Omega.{arith}
use text.Mathlib.Text.{◌==◌ as str_eq}
use text.Mathlib.TextEquality.{eq_iff}
use rubble.Prelude.Tests.{if◌then◌else◌, Bool-cases}
use rubble.Prelude.Lists.{length}

module _ {ℓ} {V : Type ℓ} where
  unfoldable pub lookup : String → List (String × V) → Option V
  lookup key [] = none
  lookup key ((known, value) ∷ rest) = if str_eq known key then some value else lookup key rest

  -- `m[key] = value`
  unfoldable pub insert : String → V → List (String × V) → List (String × V)
  insert key value [] = (key, value) ∷ []
  insert key value ((known, old) ∷ rest) =
      if str_eq known key then (key, value) ∷ rest else (known, old) ∷ insert key value rest

  -- `delete(m, key)`
  unfoldable pub delete : String → List (String × V) → List (String × V)
  delete key [] = []
  delete key ((known, old) ∷ rest) =
      if str_eq known key then rest else (known, old) ∷ delete key rest

  -- A key stands once.
  abbrev pub IsMap : List (String × V) → Type ℓ
  IsMap [] = Unit {ℓ}
  IsMap ((k, v) ∷ m) = (lookup k m ≡ none) × IsMap m

  -- What is read after a write.
  pub lookup-insert :
      (key other : String) (value : V) (m : List (String × V))
      → lookup other (insert key value m)
        ≡ (if str_eq key other then some value else lookup other m)
  unfolding lookup insert
  lookup-insert key other value [] = refl
  lookup-insert key other value ((known, old) ∷ rest) =
      let ih = lookup-insert key other value rest in
      ground (arith, ih, eq_iff known key, eq_iff known other, eq_iff key other)

  pub lookup-delete :
      (k j : String) (m : List (String × V))
      → IsMap m
      → lookup j (delete k m) ≡ (if str_eq k j then none else lookup j m)
  unfolding lookup delete
  lookup-delete k j [] v = ground arith
  lookup-delete k j ((i, w) ∷ m) (fresh, v) =
      ground (arith, eq_iff k j, eq_iff i k, eq_iff i j, lookup-delete k j m v)

  pub insert-IsMap : (k : String) (v : V) (m : List (String × V)) → IsMap m → IsMap (insert k v m)
  unfolding lookup insert
  insert-IsMap k v [] h = (refl, tt)
  insert-IsMap k v ((j, w) ∷ m) (fresh, h) =
      ground (arith, eq_iff j k, eq_iff k j, lookup-insert k j v m, insert-IsMap k v m h)

  pub delete-IsMap : (k : String) (m : List (String × V)) → IsMap m → IsMap (delete k m)
  unfolding lookup delete
  delete-IsMap k [] h = h
  delete-IsMap k ((j, w) ∷ m) (fresh, h) =
      ground (arith, eq_iff k j, lookup-delete k j m h, delete-IsMap k m h)

  -- A new key makes the map longer by one, a known key leaves the length.
  pub length-insert :
      (k : String) (v : V) (m : List (String × V))
      → length (insert k v m) ≡ elim (lookup k m) [ none ↦ suc (length m) | some _ ↦ length m ]
  unfolding lookup insert
  length-insert k v [] = refl
  length-insert k v ((j, w) ∷ m) = ground (arith, length-insert k v m)

  pub length-insert_new :
      (k : String) (v : V) (m : List (String × V))
      → lookup k m ≡ none
      → length (insert k v m) ≡ suc (length m)
  length-insert_new k v m e = ground (arith, length-insert k v m)

  pub length-delete :
      (k : String) (v : V) (m : List (String × V))
      → lookup k m ≡ some v
      → suc (length (delete k m)) ≡ length m
  unfolding lookup delete
  length-delete k v [] e = cc
  length-delete k v ((j, w) ∷ m) e = ground (arith, length-delete k v m)

  abbrev pub keys : List (String × V) → List String
  keys [] = []
  keys ((k, v) ∷ m) = k ∷ keys m

  pub length-keys : (m : List (String × V)) → length (keys m) ≡ length m
  length-keys [] = refl
  length-keys ((k, v) ∷ m) = ap suc (length-keys m)

  pub lookup-none : (k : String) (m : List (String × V)) → ¬ Mem k (keys m) → lookup k m ≡ none
  unfolding lookup
  lookup-none k [] h = refl
  lookup-none k ((j, w) ∷ m) h =
      let rest = lookup-none k m (λ there. h (mem-cons_of_mem j there)) in
      elim (Bool-cases (str_eq j k)) [
        | inl e ↦
            absurd (h (subst (λ t. Mem k (t ∷ keys m)) (sym ((eq_iff j k).0 e)) mem-cons_self))
        | inr e ↦ rw (e, rest)
      ]

  pub mem_of_lookup :
      (k : String) (v : V) (m : List (String × V)) → lookup k m ≡ some v → Mem k (keys m)
  unfolding lookup
  mem_of_lookup k v [] e = cc
  mem_of_lookup k v ((j, w) ∷ m) e = elim (Bool-cases (str_eq j k)) [
    | inl same ↦ subst (λ t. Mem k (t ∷ keys m)) (sym ((eq_iff j k).0 same)) mem-cons_self
    | inr other ↦ mem-cons_of_mem j (mem_of_lookup k v m (rw other at e))
  ]

  pub keys-insert-perm :
      (k : String) (v : V) (m : List (String × V))
      → lookup k m ≡ none
      → Perm (keys (insert k v m)) (k ∷ keys m)
  unfolding lookup insert
  keys-insert-perm k v [] e = Perm.rfl
  keys-insert-perm k v ((j, w) ∷ m) e = elim (Bool-cases (str_eq j k)) [
    | inl same ↦ absurd (ground arith)
    | inr other ↦
        rw other
          (Perm.trans (Perm.cons j (keys-insert-perm k v m (rw other at e))) (Perm.swap k j _))
  ]

  pub keys-delete-perm :
      (k : String) (v : V) (m : List (String × V))
      → lookup k m ≡ some v
      → Perm (k ∷ keys (delete k m)) (keys m)
  unfolding lookup delete
  keys-delete-perm k v [] e = cc
  keys-delete-perm k v ((j, w) ∷ m) e = elim (Bool-cases (str_eq j k)) [
    | inl same ↦ rw (same, (eq_iff j k).0 same) Perm.rfl
    | inr other ↦
        rw other
          (Perm.trans (Perm.swap j k _) (Perm.cons j (keys-delete-perm k v m (rw other at e))))
  ]

  pub Nodup-IsMap : (m : List (String × V)) → Nodup (keys m) → IsMap m
  Nodup-IsMap [] h = tt
  Nodup-IsMap ((k, v) ∷ m) h =
      let (fresh, rest) = Nodup-cons.0 h in (lookup-none k m fresh, Nodup-IsMap m rest)
