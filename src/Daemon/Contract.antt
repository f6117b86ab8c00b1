-- ===== src/Daemon/Contract.antt =====
-- DiskStorage keeps the contract on which the daemon relies.
use rubble.Prelude.{
  String, Bool, true, false, ◌≡◌, refl, sym, ap, ◌∙◌, inl, inr, Option, none, some, arith, str_eq,
  Option-cases, if◌then◌else◌,
}
use rubble.Prelude.Run.{Error, storage_not_found, Result, success, failure, Result-cases}
use rubble.Prelude.Assoc.{lookup, lookup-insert}
use rubble.Storage.Memory
use rubble.Storage.Disk
use rubble.Storage.Disk.{Bolt, DiskStorage}
use rubble.Storage.Mirror.{BoltLaws, put-refused, put-failed, put-done}
use rubble.Daemon.{PodResources}
use rubble.Daemon.Parts.{disk}
use rubble.Daemon.Records.{StorageLaws}

-- What Get answers for an entry of the memory.
abbrev found : Option PodResources → Result PodResources
found none = failure storage_not_found
found (some v) = success v

get-found :
    (m : Memory.MemoryStorage PodResources) (key : String)
    → Memory.get m key ≡ found (lookup key m.store)
unfolding Memory.get
get-found m key = elim (Option-cases (lookup key m.store)) [
  | inl e ↦ rw (e, Memory.get) refl
  | inr (v, e) ↦ rw (e, Memory.get) refl
]

found-written :
    (b : Bool) (value : PodResources) (o : Option PodResources)
    → found (if b then some value else o) ≡ (if b then success value else found o)
found-written true value o = refl
found-written false value o = refl

put-get :
    (m : Memory.MemoryStorage PodResources) (key j : String) (value : PodResources)
    → Memory.get (Memory.put m key value) j
      ≡ (if str_eq key j then success value else Memory.get m j)
unfolding Memory.put
put-get m key j value =
    get-found _ j
    ∙ ap found (lookup-insert key j value m.store)
    ∙ found-written (str_eq key j) value _
    ∙ ap (λ r. if str_eq key j then success value else r) (sym (get-found m j))

module _ {D Data : Type 0} (bolt : Bolt D Data) (laws : BoltLaws bolt)
    (serializer : PodResources → Result Data) (deserializer : Data → Result PodResources) where
  put_done :
      (d : DiskStorage PodResources D) (key : String) (value : PodResources)
      → (Disk.put bolt serializer deserializer d key value).0 ≡ none
      → (j : String)
      → Disk.get bolt serializer deserializer
          (Disk.put bolt serializer deserializer d key value).1
          j
        ≡ (if str_eq key j then success value else Disk.get bolt serializer deserializer d j)
  unfolding Disk.get
  put_done d key value done j = elim (Result-cases (serializer value)) [
    | inr (e, refused) ↦
        let wrong =
          sym done
          ∙ ap (λ (r : Option Error × DiskStorage PodResources D). r.0)
              (put-refused bolt laws serializer deserializer d key value e refused) in
        absurd (ground arith)
    | inl (x, written) ↦ elim (Option-cases (bolt.put d.db d.name key x).0) [
      | inr (e, failed) ↦
          let wrong =
            sym done
            ∙ ap (λ (r : Option Error × DiskStorage PodResources D). r.0)
                (put-failed bolt laws serializer deserializer d key value x e written failed) in
          absurd (ground arith)
      | inl fine ↦
          ap (λ (r : Option Error × DiskStorage PodResources D). Memory.get r.1.memory j)
            (put-done bolt laws serializer deserializer d key value x written fine)
          ∙ put-get d.memory key j value
    ]
  ]

  -- For every database that keeps the laws of bolt, DiskStorage keeps the contract on which the
  -- daemon relies, in every state: after a Put without error, Get answers the new value under that
  -- key and what it answered before under every other.
  pub disk-StorageLaws : StorageLaws (disk bolt serializer deserializer) (λ d. Unit {0})
  unfolding disk
  disk-StorageLaws = record { put_done = λ d key value _ done j. put_done d key value done j }
