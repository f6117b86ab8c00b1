-- ===== src/Storage/Disk.antt =====
-- pkg/storage/store.go: DiskStorage. The database (bolt), the serializer, the deserializer and the
-- preparation of the directory are parameters.
use rubble.Prelude.{String, Option, none, some, List, [], ◌∷◌}
use rubble.Prelude.Run.{Error, wrapped, Result, success, failure}
use rubble.Storage.Memory
use rubble.Storage.Memory.{MemoryStorage, new_memory_storage}

-- The transactions that the program runs on a database `D` of entries `Data`, each on one bucket:
-- CreateBucketIfNotExists, Put and Delete under Update, and a cursor's entries under View.
pub record Bolt (D Data : Type 0) : Type 0 where
  pub open_file : String → Result D
  pub create_bucket : D → String → Option Error × D
  pub put : D → String → String → Data → Option Error × D
  pub delete : D → String → String → Option Error × D
  pub view : D → String → Result (List (String × Data))

pub record DiskStorage (V D : Type 0) : Type 0 where
  pub db : D
  pub name : String
  pub memory : MemoryStorage V

module _ {V D Data : Type 0} (bolt : Bolt D Data) (serializer : V → Result Data)
    (deserializer : Data → Result V) where
  unfoldable pub put : DiskStorage V D → String → V → Option Error × DiskStorage V D
  put d key value = elim (serializer value) [
    | failure e ↦ (some e, d)
    | success x ↦
        let (err, db) = bolt.put d.db d.name key x in
        elim err [
          | some e ↦ (some e, record d { db = db })
          | none ↦ (none, record d { db = db; memory = Memory.put d.memory key value })
        ]
  ]

  -- The loop of load over the entries of the cursor.
  unfoldable pub load_loop : MemoryStorage V → List (String × Data) → Option Error × MemoryStorage V
  load_loop m [] = (none, m)
  load_loop m ((key, x) ∷ entries) = elim (deserializer x) [
    | failure e ↦ (some e, m)
    | success v ↦ load_loop (Memory.put m key v) entries
  ]

  unfoldable pub load : DiskStorage V D → Option Error × DiskStorage V D
  load d =
      let (err, db) = bolt.create_bucket d.db d.name in
      elim err [
        | some e ↦ (some e, record d { db = db })
        | none ↦ elim (bolt.view db d.name) [
          | failure e ↦ (some e, record d { db = db })
          | success entries ↦
              let (err₁, m) = load_loop d.memory entries in (err₁, record d { db = db; memory = m })
        ]
      ]

  -- `prepare_dir` is what os.Stat and os.MkdirAll answer for the directory of the path.
  unfoldable pub new_disk_storage :
      (String → Option Error) → String → String → Result (DiskStorage V D)
  new_disk_storage prepare_dir name path = elim (prepare_dir path) [
    | some e ↦ failure (wrapped "failed to create dir for disk storage" e)
    | none ↦ elim (bolt.open_file path) [
      | failure e ↦ failure e
      | success db ↦
          let (err, d) = load (record { db = db; name = name; memory = new_memory_storage }) in
          elim err [ some e ↦ failure e | none ↦ success d ]
    ]
  ]

  unfoldable pub get : DiskStorage V D → String → Result V
  get d key = Memory.get d.memory key

  unfoldable pub list : DiskStorage V D → List V
  list d = Memory.list d.memory

  unfoldable pub remove : DiskStorage V D → String → Option Error × DiskStorage V D
  remove d key =
      let (err, db) = bolt.delete d.db d.name key in
      elim err [
        | some e ↦ (some e, record d { db = db })
        | none ↦ (none, record d { db = db; memory = Memory.remove d.memory key })
      ]
