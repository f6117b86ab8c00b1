-- ===== src/Storage/Restart.antt =====
-- What NewDiskStorage finds in a database that an earlier process has written.
use mathlib.Core.Path.{subst}
use rubble.Prelude.{
  String, ◌≡◌, refl, sym, ap, ◌∙◌, inl, inr, Option, none, some, List, [], ◌∷◌, arith, str_eq,
  eq_iff, Bool-cases, Option-cases,
}
use rubble.Prelude.Run.{Error, Result, success}
use rubble.Prelude.Assoc.{lookup, IsMap, lookup-insert}
use rubble.Storage.Memory
use rubble.Storage.Memory.{MemoryStorage, new_memory_storage}
use rubble.Storage.Disk.{Bolt, DiskStorage, load, load_loop, get, new_disk_storage}
use rubble.Storage.Mirror.{BoltLaws, Agree, Mirrors}

module _ {V D Data : Type 0} (bolt : Bolt D Data) (laws : BoltLaws bolt)
    (serializer : V → Result Data) (deserializer : Data → Result V) where
  -- Every entry decodes to what `want` has under its key.
  abbrev Decodes : (String → Option V) → List (String × Data) → Type 0
  Decodes want entries =
      (k : String) (x : Data)
      → lookup k entries ≡ some x
      → (v : V) × (want k ≡ some v) × (deserializer x ≡ success v)

  -- Under the keys of the entries the map reads as `want`, under the others as before.
  abbrev Filled :
      (String → Option V) → MemoryStorage V → List (String × Data) → MemoryStorage V → Type 0
  Filled want m entries m' =
      (k : String)
      → (lookup k entries ≡ none → lookup k m'.store ≡ lookup k m.store)
        × ((x : Data) → lookup k entries ≡ some x → lookup k m'.store ≡ want k)

  Filled-put :
      (want : String → Option V) (m m' : MemoryStorage V) (j : String) (x : Data) (v : V)
      (entries : List (String × Data))
      → lookup j entries ≡ none
      → want j ≡ some v
      → Filled want (Memory.put m j v) entries m'
      → Filled want m ((j, x) ∷ entries) m'
  unfolding Memory.put lookup
  Filled-put want m m' j x v entries fresh wanted filled k =
      let old = lookup-insert j k v m.store in
      let (others, same) = filled k in
      elim (Bool-cases (str_eq j k)) [
        | inr e ↦ rw e (λ n. others n ∙ old ∙ rw e refl, same)
        | inl e ↦ rw e (
          λ n. absurd (ground arith),
          λ y r.
              others (ap (λ t. lookup t entries) (sym ((eq_iff j k).0 e)) ∙ fresh)
              ∙ old
              ∙ rw (e, sym ((eq_iff j k).0 e), wanted) refl,
        )
      ]

  Decodes-rest :
      (want : String → Option V) (j : String) (x : Data) (entries : List (String × Data))
      → lookup j entries ≡ none
      → Decodes want ((j, x) ∷ entries)
      → Decodes want entries
  unfolding lookup
  Decodes-rest want j x entries fresh h k y e = h k y (elim (Bool-cases (str_eq j k)) [
    | inl same ↦ absurd (ground (arith, ap (λ t. lookup t entries) ((eq_iff j k).0 same)))
    | inr other ↦ rw other e
  ])

  load_loop-Filled :
      (want : String → Option V) (m : MemoryStorage V) (entries : List (String × Data))
      → IsMap entries
      → Decodes want entries
      → (m' : MemoryStorage V) × (load_loop bolt serializer deserializer m entries ≡ (none, m'))
        × Filled want m entries m'
  unfolding load_loop Memory.put lookup
  load_loop-Filled want m [] once h = (m, refl, λ k. (λ e. refl, λ x e. absurd (ground arith)))
  load_loop-Filled want m ((j, x) ∷ entries) (fresh, once) h =
      let (v, wanted, decoded) = h j x (rw ((eq_iff j j).1 refl) refl) in
      let (m', run, filled) =
        load_loop-Filled want (Memory.put m j v) entries once
          (Decodes-rest want j x entries fresh h) in
      (m', rw (decoded, load_loop) run, Filled-put want m m' j x v entries fresh wanted filled)

  Agree-decodes :
      (o : Option V) (x : Data)
      → Agree bolt laws serializer deserializer o (some x)
      → (v : V) × (o ≡ some v) × (deserializer x ≡ success v)
  Agree-decodes none x h = absurd h
  Agree-decodes (some v) x h = (v, refl, h)

  Agree-none : (o : Option V) → Agree bolt laws serializer deserializer o none → o ≡ none
  Agree-none none h = refl
  Agree-none (some v) h = absurd h

  Mirrors-Decodes :
      (d : DiskStorage V D)
      → Mirrors bolt laws serializer deserializer d
      → Decodes (λ k. lookup k d.memory.store) (laws.contents d.db d.name)
  Mirrors-Decodes d m k x e =
      Agree-decodes (lookup k d.memory.store) x
        (subst (Agree bolt laws serializer deserializer (lookup k d.memory.store)) e (m k))

  load-loaded :
      (d : DiskStorage V D) (m' : MemoryStorage V)
      → (bolt.create_bucket d.db d.name).0 ≡ none
      → load_loop bolt serializer deserializer d.memory (laws.contents d.db d.name) ≡ (none, m')
      → load bolt serializer deserializer d
        ≡ (none, record d { db = (bolt.create_bucket d.db d.name).1; memory = m' })
  unfolding load
  load-loaded d m' created run =
      let viewed = laws.viewed d.db d.name created in
      rw (created, load)
        (rw (viewed, load) (rw (laws.created_same d.db d.name, load) (rw (run, load) refl)))

  same_answer :
      (k : String) (o o' : Option V)
      → o' ≡ o
      → (m m' : MemoryStorage V) → lookup k m.store ≡ o
      → lookup k m'.store ≡ o'
      → Memory.get m' k ≡ Memory.get m k
  unfolding Memory.get
  same_answer k o o' e m m' is_o is_o' = rw (is_o' ∙ e ∙ sym is_o, Memory.get) refl

  -- A process that opens the database of a storage whose memory and disk agree gets that storage's
  -- values: every Get answers as it did before.
  pub new_disk_storage-get :
      (prepare_dir : String → Option Error) (path : String) (d : DiskStorage V D)
      → Mirrors bolt laws serializer deserializer d
      → prepare_dir path ≡ none
      → bolt.open_file path ≡ success d.db
      → (bolt.create_bucket d.db d.name).0 ≡ none
      → (d' : DiskStorage V D) × (new_disk_storage bolt serializer deserializer prepare_dir d.name
            path
          ≡ success d')
        × ((k : String)
            → get bolt serializer deserializer d' k ≡ get bolt serializer deserializer d k)
  unfolding new_disk_storage get new_memory_storage lookup
  new_disk_storage-get prepare_dir path d m prepared opened created =
      let db = (bolt.create_bucket d.db d.name).1 in
      let entries = laws.contents d.db d.name in
      let (m', run, filled) =
        load_loop-Filled (λ k. lookup k d.memory.store) new_memory_storage entries
          (laws.keys_once d.db d.name) (Mirrors-Decodes d m) in
      (
        record { db = db; name = d.name; memory = m' },
        rw (prepared, new_disk_storage)
            (rw (opened, new_disk_storage)
              (rw (load-loaded _ m' created run, new_disk_storage)
                (ap (λ r. success r.1) (load-loaded _ m' created run)))),
        λ k.
            let (absent, present) = filled k in
            elim (Option-cases (lookup k entries)) [
              | inl e ↦
                  same_answer k none (lookup k m'.store) (absent e) d.memory m'
                    (Agree-none _ (
                      subst (Agree bolt laws serializer deserializer (lookup k d.memory.store)) e
                        (m k)))
                    refl
              | inr (x, e) ↦
                  same_answer k (lookup k d.memory.store) (lookup k m'.store) (present x e) d.memory
                    m' refl refl
            ],
      )
