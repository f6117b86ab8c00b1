-- ===== src/Storage/Mirror.antt =====
-- The map in memory and the database say the same, whatever calls succeed or fail, and a restart
-- finds what was stored.
use mathlib.Core.Path.{subst}
use rubble.Prelude.{
  String, ◌≡◌, refl, sym, inl, inr, Bool, true, false, Option, none, some, List, str_eq,
  Option-cases, if◌then◌else◌,
}
use rubble.Prelude.Run.{Error, Result, success, failure, Result-cases}
use rubble.Prelude.Assoc.{lookup, IsMap, lookup-insert, lookup-delete}
use rubble.Storage.Memory
use rubble.Storage.Memory.{MemoryStorage, new_memory_storage}
use rubble.Storage.Disk.{Bolt, DiskStorage, put, remove}

-- What bolt documents of its transactions: one that fails changes nothing, one that succeeds is
-- seen by those after it, creating a bucket leaves what it holds, and a bucket that was created can be
-- viewed and holds a key once.
pub record BoltLaws {D Data : Type 0} (bolt : Bolt D Data) : Type 0 where
  pub contents : D → String → List (String × Data)
  pub keys_once : (d : D) (b : String) → IsMap (contents d b)
  pub viewed :
      (d : D) (b : String)
      → (bolt.create_bucket d b).0 ≡ none
      → bolt.view (bolt.create_bucket d b).1 b ≡ success (contents (bolt.create_bucket d b).1 b)
  pub created_same : (d : D) (b : String) → contents (bolt.create_bucket d b).1 b ≡ contents d b
  pub put_done :
      (d : D) (b k : String) (x : Data)
      → (bolt.put d b k x).0 ≡ none
      → (j : String)
      → lookup j (contents (bolt.put d b k x).1 b)
        ≡ (if str_eq k j then some x else lookup j (contents d b))
  pub put_failed :
      (d : D) (b k : String) (x : Data) (e : Error)
      → (bolt.put d b k x).0 ≡ some e
      → contents (bolt.put d b k x).1 b ≡ contents d b
  pub delete_done :
      (d : D) (b k : String)
      → (bolt.delete d b k).0 ≡ none
      → (j : String)
      → lookup j (contents (bolt.delete d b k).1 b)
        ≡ (if str_eq k j then none else lookup j (contents d b))
  pub delete_failed :
      (d : D) (b k : String) (e : Error)
      → (bolt.delete d b k).0 ≡ some e
      → contents (bolt.delete d b k).1 b ≡ contents d b

module _ {V D Data : Type 0} (bolt : Bolt D Data) (laws : BoltLaws bolt)
    (serializer : V → Result Data) (deserializer : Data → Result V) where
  -- A value in memory and an entry on disk that mean the same.
  abbrev pub Agree : Option V → Option Data → Type 0
  Agree none none = Unit {0}
  Agree (some v) (some x) = deserializer x ≡ success v
  Agree _ _ = ⊥

  -- Under every key, memory and disk agree.
  abbrev pub Mirrors : DiskStorage V D → Type 0
  Mirrors d = (k : String) → Agree (lookup k d.memory.store) (lookup k (laws.contents d.db d.name))

  -- What is written can be read.
  abbrev pub RoundTrips : Type 0
  RoundTrips = (v : V) (x : Data) → serializer v ≡ success x → deserializer x ≡ success v

  Agree-if :
      (b : Bool) (v v' : Option V) (x x' : Option Data)
      → Agree v x
      → Agree v' x'
      → Agree (if b then v else v') (if b then x else x')
  Agree-if true v v' x x' p q = p
  Agree-if false v v' x x' p q = q

  -- The three ways a Put ends.
  pub put-refused :
      (d : DiskStorage V D) (key : String) (value : V) (e : Error)
      → serializer value ≡ failure e
      → put bolt serializer deserializer d key value ≡ (some e, d)
  unfolding put
  put-refused d key value e refused = rw (refused, put) refl

  pub put-failed :
      (d : DiskStorage V D) (key : String) (value : V) (x : Data) (e : Error)
      → serializer value ≡ success x
      → (bolt.put d.db d.name key x).0 ≡ some e
      → put bolt serializer deserializer d key value
        ≡ (some e, record d { db = (bolt.put d.db d.name key x).1 })
  unfolding put
  put-failed d key value x e written failed = rw (written, put) (rw (failed, put) refl)

  pub put-done :
      (d : DiskStorage V D) (key : String) (value : V) (x : Data)
      → serializer value ≡ success x
      → (bolt.put d.db d.name key x).0 ≡ none
      → put bolt serializer deserializer d key value ≡ (
        none,
        record d { db = (bolt.put d.db d.name key x).1; memory = Memory.put d.memory key value },
      )
  unfolding put
  put-done d key value x written done = rw (written, put) (rw (done, put) refl)

  -- Put keeps memory and disk alike, whether it succeeds or fails.
  pub put-Mirrors :
      (d : DiskStorage V D) (key : String) (value : V)
      → RoundTrips
      → Mirrors d
      → Mirrors (put bolt serializer deserializer d key value).1
  unfolding Memory.put
  put-Mirrors d key value round m = elim (Result-cases (serializer value)) [
    | inr (e, refused) ↦ subst (λ r. Mirrors r.1) (sym (put-refused d key value e refused)) m
    | inl (x, written) ↦ elim (Option-cases (bolt.put d.db d.name key x).0) [
      | inr (e, failed) ↦
          subst (λ r. Mirrors r.1) (sym (put-failed d key value x e written failed))
            (λ k. rw (laws.put_failed d.db d.name key x e failed) (m k))
      | inl done ↦
          subst (λ r. Mirrors r.1) (sym (put-done d key value x written done))
            (λ k.
              rw (laws.put_done d.db d.name key x done k, lookup-insert key k value d.memory.store)
                (Agree-if (str_eq key k) (some value) _ (some x) _ (round value x written) (m k)))
    ]
  ]

  -- Remove keeps memory and disk alike, whether it succeeds or fails.
  pub remove-Mirrors :
      (d : DiskStorage V D) (key : String)
      → IsMap d.memory.store
      → Mirrors d
      → Mirrors (remove bolt serializer deserializer d key).1
  unfolding remove Memory.remove
  remove-Mirrors d key once m = elim (Option-cases (bolt.delete d.db d.name key).0) [
    | inr (e, failed) ↦
        rw (failed, remove) (λ k. rw (laws.delete_failed d.db d.name key e failed) (m k))
    | inl done ↦
        rw (done, remove)
          (λ k.
            rw (laws.delete_done d.db d.name key done k, lookup-delete key k d.memory.store once)
              (Agree-if (str_eq key k) none _ none _ tt (m k)))
  ]
