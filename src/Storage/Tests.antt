-- ===== src/Storage/Tests.antt =====
-- The storage on numbers, in a database that is a list.
use rubble.Storage.Histories.{Operation, putting, deleting, apply_all, apply_all-Mirrors}
use rubble.Prelude.{String, ◌≡◌, refl, none, some, Option, List, [], ◌∷◌, arith, ℕ, ◌+◌, ◌-◌}
use rubble.Prelude.Run.{Error, Result, success}
use rubble.Prelude.Assoc.{
  lookup, insert, delete, IsMap, insert-IsMap, delete-IsMap, lookup-insert, lookup-delete,
}
use rubble.Storage.Memory
use rubble.Storage.Memory.{MemoryStorage}
use rubble.Storage.Disk.{Bolt, DiskStorage, put, get, new_disk_storage}
use rubble.Storage.Mirror.{BoltLaws, Mirrors, RoundTrips, put-Mirrors}
use rubble.Storage.Restart.{new_disk_storage-get}

abbrev pub Db : Type 0 → Type 0
Db Data = (m : List (String × Data)) × IsMap m

-- A database that is a list, and the same for every path.
abbrev pub list_bolt : {Data : Type 0} → Db Data → Bolt (Db Data) Data
list_bolt start = record {
  open_file = λ path. success start;
  create_bucket = λ d b. (none, d);
  put = λ d b k x. (none, (insert k x d.0, insert-IsMap k x d.0 d.1));
  delete = λ d b k. (none, (delete k d.0, delete-IsMap k d.0 d.1));
  view = λ d b. success d.0;
}

pub no_error : (o : Option Error) (e : Error) → o ≡ none → ¬ (o ≡ some e)
no_error o e fine wrong = ground arith

abbrev pub list_laws : {Data : Type 0} (start : Db Data) → BoltLaws (list_bolt start)
list_laws start = record {
  contents = λ d b. d.0;
  keys_once = λ d b. d.1;
  viewed = λ d b e. refl;
  created_same = λ d b. refl;
  put_done = λ d b k x e j. lookup-insert k j x d.0;
  put_failed = λ d b k x e wrong. absurd (no_error none e refl wrong);
  delete_done = λ d b k e j. lookup-delete k j d.0 d.1;
  delete_failed = λ d b k e wrong. absurd (no_error none e refl wrong);
}

abbrev one_entry : Db ℕ
one_entry = (insert "a" 105 [], insert-IsMap "a" 105 [] tt)

abbrev pods : Bolt (Db ℕ) ℕ
pods = list_bolt one_entry

abbrev pods_laws : BoltLaws pods
pods_laws = list_laws one_entry

-- A number is stored with a hundred added.
abbrev write : ℕ → Result ℕ
write n = success (100 + n)

abbrev read : ℕ → Result ℕ
read n = success (n - 100)

write-RoundTrips : RoundTrips pods pods_laws write read
write-RoundTrips v x e = ground arith

-- A storage without entries, and one with an entry, as it stands in memory and on disk.
abbrev nothing : DiskStorage ℕ (Db ℕ)
nothing = record { db = ([], tt); name = "pods"; memory = record { store = [] } }

abbrev stored : DiskStorage ℕ (Db ℕ)
stored = record { db = one_entry; name = "pods"; memory = record { store = insert "a" 5 [] } }

nothing-Mirrors : Mirrors pods pods_laws write read nothing
unfolding lookup
nothing-Mirrors k = tt

stored-Mirrors : Mirrors pods pods_laws write read stored
unfolding put Memory.put
stored-Mirrors =
    put-Mirrors pods pods_laws write read nothing "a" 5 write-RoundTrips nothing-Mirrors

abbrev history : List (Operation ℕ)
history = putting "b" 7 ∷ deleting "a" ∷ putting "b" 8 ∷ []

apply_all-Mirrors_example :
    IsMap (apply_all pods pods_laws write read nothing history).memory.store
    × Mirrors pods pods_laws write read (apply_all pods pods_laws write read nothing history)
apply_all-Mirrors_example =
    apply_all-Mirrors pods pods_laws write read nothing history write-RoundTrips tt nothing-Mirrors

new_disk_storage-get_example :
    (d' : DiskStorage ℕ (Db ℕ)) × (new_disk_storage pods write read
        (λ path. none)
        "pods"
        "/var/rubble/pods"
      ≡ success d')
    × ((k : String) → get pods write read d' k ≡ get pods write read stored k)
new_disk_storage-get_example =
    new_disk_storage-get pods pods_laws write read (λ path. none) "/var/rubble/pods" stored
      stored-Mirrors refl refl refl
