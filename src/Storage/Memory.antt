-- ===== src/Storage/Memory.antt =====
-- pkg/storage/store.go: MemoryStorage. Each call holds the lock from its start to its end, so a call
-- is one step, and the lock is left out. The order of List is that of a Go map, which Go leaves
-- open.
use rubble.Prelude.{String, none, some, List, [], map}
use rubble.Prelude.Run.{Result, success, failure, storage_not_found}
use rubble.Prelude.Assoc.{lookup, insert, delete}

pub record MemoryStorage (V : Type 0) : Type 0 where
  pub store : List (String × V)

module _ {V : Type 0} where
  unfoldable pub new_memory_storage : MemoryStorage V
  new_memory_storage = record { store = [] }

  unfoldable pub put : MemoryStorage V → String → V → MemoryStorage V
  put m key value = record { store = insert key value m.store }

  unfoldable pub get : MemoryStorage V → String → Result V
  get m key = elim (lookup key m.store) [ none ↦ failure storage_not_found | some v ↦ success v ]

  unfoldable pub list : MemoryStorage V → List V
  list m = map (λ kv. kv.1) m.store

  unfoldable pub remove : MemoryStorage V → String → MemoryStorage V
  remove m key = record { store = delete key m.store }
