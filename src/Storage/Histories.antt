-- ===== src/Storage/Histories.antt =====
-- Sequences of Puts and Deletes of a DiskStorage.
use mathlib.Core.Path.{subst}
use rubble.Prelude.{String, sym, inl, inr, List, [], ◌∷◌, Option-cases}
use rubble.Prelude.Run.{Result, Result-cases}
use rubble.Prelude.Assoc.{IsMap, insert-IsMap, delete-IsMap}
use rubble.Storage.Memory
use rubble.Storage.Memory.{MemoryStorage}
use rubble.Storage.Disk.{Bolt, DiskStorage, put, remove}
use rubble.Storage.Mirror.{
  BoltLaws, Mirrors, RoundTrips, put-refused, put-failed, put-done, put-Mirrors, remove-Mirrors,
}

-- A call of the storage that changes it.
pub data Operation (V : Type 0) : Type 0 where
  putting : String → V → Operation V
  deleting : String → Operation V

module _ {V D Data : Type 0} (bolt : Bolt D Data) (laws : BoltLaws bolt)
    (serializer : V → Result Data) (deserializer : Data → Result V) where
  abbrev pub apply : DiskStorage V D → Operation V → DiskStorage V D
  apply d (putting key value) = (put bolt serializer deserializer d key value).1
  apply d (deleting key) = (remove bolt serializer deserializer d key).1

  abbrev pub apply_all : DiskStorage V D → List (Operation V) → DiskStorage V D
  apply_all d [] = d
  apply_all d (o ∷ os) = apply_all (apply d o) os

  put-IsMap :
      (d : DiskStorage V D) (key : String) (value : V)
      → IsMap d.memory.store
      → IsMap (put bolt serializer deserializer d key value).1.memory.store
  unfolding Memory.put
  put-IsMap d key value once = elim (Result-cases (serializer value)) [
    | inr (e, refused) ↦
        subst (λ r. IsMap r.1.memory.store)
          (sym (put-refused bolt laws serializer deserializer d key value e refused)) once
    | inl (x, written) ↦ elim (Option-cases (bolt.put d.db d.name key x).0) [
      | inr (e, failed) ↦
          subst (λ r. IsMap r.1.memory.store)
            (sym (put-failed bolt laws serializer deserializer d key value x e written failed)) once
      | inl done ↦
          subst (λ r. IsMap r.1.memory.store)
            (sym (put-done bolt laws serializer deserializer d key value x written done))
            (insert-IsMap key value d.memory.store once)
    ]
  ]

  remove-IsMap :
      (d : DiskStorage V D) (key : String)
      → IsMap d.memory.store
      → IsMap (remove bolt serializer deserializer d key).1.memory.store
  unfolding remove Memory.remove
  remove-IsMap d key once = elim (Option-cases (bolt.delete d.db d.name key).0) [
    | inr (e, failed) ↦ rw (failed, remove) once
    | inl done ↦ rw (done, remove) (delete-IsMap key d.memory.store once)
  ]

  -- If what the serializer writes can be read back, no key stands twice in memory, and memory and
  -- disk agree under every key, then this is so after every sequence of Puts and Deletes, whichever
  -- of them fail.
  pub apply_all-Mirrors :
      (d : DiskStorage V D) (os : List (Operation V))
      → RoundTrips bolt laws serializer deserializer
      → IsMap d.memory.store
      → Mirrors bolt laws serializer deserializer d
      → IsMap (apply_all d os).memory.store
        × Mirrors bolt laws serializer deserializer (apply_all d os)
  apply_all-Mirrors d [] round once m = (once, m)
  apply_all-Mirrors d (putting key value ∷ os) round once m =
      apply_all-Mirrors (apply d (putting key value)) os round (put-IsMap d key value once)
        (put-Mirrors bolt laws serializer deserializer d key value round m)
  apply_all-Mirrors d (deleting key ∷ os) round once m =
      apply_all-Mirrors (apply d (deleting key)) os round (remove-IsMap d key once)
        (remove-Mirrors bolt laws serializer deserializer d key once m)
