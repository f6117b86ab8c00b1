-- ===== src/Daemon/Tests.antt =====
-- The daemon's requests with a storage that is a list.
use rubble.Prelude.{
  ℕ, ◌+◌, if◌then◌else◌, ◌≡◌, refl, String, Bool, true, false, none, some, Option, List, [], ◌∷◌,
  str_eq,
}
use rubble.Prelude.Run.{ok, Returns, Result, success, failure, storage_not_found, invalid_state}
use rubble.Prelude.Assoc.{lookup, insert, delete, lookup-insert}
use rubble.Prelude.Int.{pos}
use rubble.Pods.{PodInfo, Pod, pod_info_key, stick_time, convert_pod, read, owned_by_workload}
use rubble.Pool.{State}
use rubble.Pool.Returning.{Returned}
use rubble.Pool.{reverse_to}
use rubble.Pool.Tests.{resource, two, busy, busy-IsSound, willing, apart}
use rubble.Ipam.Tests.{quiet}
use rubble.Storage.Tests.{Db as EntryDb, list_bolt, list_laws}
use rubble.Daemon.Contract.{disk-StorageLaws}
use rubble.Daemon.Parts.{disk, ports as manager_of}
use rubble.Daemon.Sticky.{SamePort, release_ip-SamePort}
use rubble.Ipam.{require_static_ip}
use rubble.Daemon.{
  PodResources, Storage, ResourceManager, DaemonState, Request, no_resources, get_pod,
  get_pod_resource, or_no_resources, is_zero, allocate_ip, release_ip, old_res_id, only_id,
  get_resource_item_by_type,
}
use rubble.Daemon.Records.{StorageLaws, Recorded, allocate_ip-Recorded}
use rubble.Daemon.Releases.{release_of, release_ip-again}

abbrev pub Db : Type 0
Db = List (String × PodResources)

abbrev found_in : Option PodResources → Result PodResources
found_in none = failure storage_not_found
found_in (some r) = success r

abbrev pub list_storage : Storage Db
list_storage = record {
  put = λ s key value. (none, insert key value s);
  get = λ s key. found_in (lookup key s);
  list = λ s. [];
  delete = λ s key. (none, delete key s);
}

put_found :
    (b : Bool) (v : PodResources) (o : Option PodResources)
    → found_in (if b then some v else o) ≡ (if b then success v else found_in o)
put_found true v o = refl
put_found false v o = refl

abbrev AnyDb : Db → Type 0
AnyDb s = Unit {0}

list_storage_laws : StorageLaws list_storage AnyDb
list_storage_laws = record {
  put_done = λ s key value _ done j.
      rw (lookup-insert key j value s) (put_found (str_eq key j) value (lookup j s));
}

-- A pod of a stateful set, whose address sticks to it.
abbrev pub web : Pod
web = record {
  name = "web-0";
  namespace = "shop";
  pod_ip = "";
  annotations = [];
  owner_kinds = "statefulset" ∷ [];
}

abbrev pub web_info : PodInfo
web_info = record {
  name = "web-0";
  namespace = "shop";
  pod_ip = "";
  ip_stick_time = pos 300000000000;
}

abbrev pub parse_bool : String → Bool
parse_bool s = str_eq s "true"

abbrev pub to_lower : String → String
to_lower s = s

abbrev find_pod : String → String → Result Pod
find_pod namespace name = success web

abbrev request : Request
request = record {
  context = record { done = false; picks_token = true };
  namespace = "shop";
  name = "web-0";
  ctx_err = none;
}

-- A manager that lends out one port.
abbrev lender : ResourceManager ℕ
lender = record {
  allocate = λ m ctx id. ok (success (resource "p"), m + 1);
  release = λ m ctx id. ok (none, m);
}

abbrev idle_daemon : DaemonState Db ℕ
idle_daemon = record { resource_db = []; port_manager = 0 }

allocate_ip-Recorded_example :
    Returns
      (λ a.
        Recorded list_storage AnyDb list_storage_laws lender parse_bool to_lower find_pod
          idle_daemon web_info
          (resource "p")
          1
          a.1)
      (allocate_ip list_storage lender parse_bool to_lower find_pod idle_daemon request)
unfolding get_pod convert_pod stick_time get_pod_resource or_no_resources lookup read
    owned_by_workload
allocate_ip-Recorded_example =
    allocate_ip-Recorded list_storage AnyDb list_storage_laws lender parse_bool to_lower find_pod
      idle_daemon request web_info web no_resources (resource "p") 1 tt refl refl refl refl

-- The pod has the resource in use of the pool.
abbrev pub held : PodResources
held = record {
  pod_info = some web_info;
  resources = record { type = "PortMultipleIp"; id = "c" } ∷ [];
}

abbrev one_pod : DaemonState Db (State ℕ)
one_pod = record {
  resource_db = insert (pod_info_key web_info) held [];
  port_manager = record { pool = busy; world = 5 };
}

release_ip-again_example :
    (t : DaemonState Db (State ℕ)) × (release_of list_storage willing quiet
        (λ ip. true)
        "n-1"
        "s-1"
        parse_bool
        to_lower
        find_pod
        one_pod
        request
      ≡ ok (none, t))
    × Returned two busy "c" (reverse_to 5 (pos 300000000000)) t.port_manager.pool
    × (release_of list_storage willing quiet
          (λ ip. true)
          "n-1"
          "s-1"
          parse_bool
          to_lower
          find_pod
          t
          request
        ≡ ok (some invalid_state, t))
unfolding lookup get_pod convert_pod stick_time read owned_by_workload get_pod_resource
    or_no_resources insert pod_info_key is_zero
release_ip-again_example =
    release_ip-again list_storage willing quiet (λ ip. true) "n-1" "s-1" parse_bool to_lower
      find_pod one_pod request web_info web held (record { type = "PortMultipleIp"; id = "c" })
      (resource "c") two refl refl refl refl refl busy-IsSound refl

abbrev port_manager : ResourceManager (State ℕ)
port_manager = manager_of willing quiet (λ ip. true) "n-1" "s-1"

release_ip-SamePort_example :
    (t : DaemonState Db (State ℕ)) × (release_ip list_storage port_manager parse_bool to_lower
        find_pod one_pod request
      ≡ ok (none, t))
    × Returns
        (SamePort "c")
        (allocate_ip list_storage port_manager parse_bool to_lower find_pod t request)
unfolding lookup get_pod convert_pod stick_time read owned_by_workload get_pod_resource
    or_no_resources insert pod_info_key is_zero old_res_id only_id get_resource_item_by_type
    require_static_ip
release_ip-SamePort_example =
    release_ip-SamePort list_storage willing quiet (λ ip. true) "n-1" "s-1" parse_bool to_lower
      find_pod one_pod request request web_info web_info web web held
      (record { type = "PortMultipleIp"; id = "c" }) (resource "c") two refl refl refl refl refl
      refl (apart "c" "" refl) refl refl refl busy-IsSound refl

abbrev no_pods : EntryDb PodResources
no_pods = ([], tt)

disk-StorageLaws_example : StorageLaws (disk (list_bolt no_pods) success success) (λ d. Unit {0})
disk-StorageLaws_example = disk-StorageLaws (list_bolt no_pods) (list_laws no_pods) success success
