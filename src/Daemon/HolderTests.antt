-- ===== src/Daemon/HolderTests.antt =====
-- A restart with a record of one of the node's two ports, and the requests of two pods after it.
use mathlib.Core.List.{mem-cons_self}
use mathlib.Core.Path.{subst}
use rubble.Prelude.{String, true, ◌≡◌, refl, List, [], ◌∷◌, Mem, some}
use rubble.Prelude.Assoc.{insert, insert-IsMap}
use rubble.Prelude.Run.{Returns, returns, Result, success}
use rubble.Utils.{NodeInfo}
use rubble.Pods.{pod_info_key}
use rubble.Neutron
use rubble.Neutron.{ApiPort}
use rubble.Storage.Disk
use rubble.Storage.Disk.{DiskStorage}
use rubble.Storage.Memory
use rubble.Storage.Tests.{Db, list_bolt}
use rubble.Ipam.Initial.{port_ids}
use rubble.Ipam.Readiness.{node_filter}
use rubble.Ipam.Tests.{quiet}
use rubble.Daemon.{PodResources}
use rubble.Daemon.Parts.{disk}
use rubble.Daemon.Start.{Complete, holders}
use rubble.Daemon.Tests.{parse_bool, to_lower, web_info}
use rubble.Daemon.SessionTests.{
  last_port, Unmade, last_port-Supply, quiet-Listing, find_pod, arrivals,
}
use rubble.Daemon.ServerTests.{host}
use rubble.Daemon.LifetimeTests.{same_ports, quiet-Inventory}
use rubble.Daemon.Server.{json_deserializer, res_db_name, daemon_db_path, get_node_info}
use rubble.Daemon.Beginning.{db_storage}
use rubble.Daemon.Holders.{Spared, reopened, reopened-Spared}

abbrev first_port : PodResources
first_port = record {
  pod_info = some web_info;
  resources = record { type = "PortMultipleIp"; id = "a" } ∷ [];
}

abbrev first_record : Db PodResources
first_record = (insert "shop/web-0" first_port [], insert-IsMap "shop/web-0" first_port [] tt)

abbrev kept_storage : DiskStorage PodResources (Db PodResources)
kept_storage = record {
  db = first_record;
  name = "PodPorts";
  memory = record { store = ("shop/web-0", first_port) ∷ [] };
}

same_storage :
    (db : DiskStorage PodResources (Db PodResources))
    → ◌≡◌ {A = Result (DiskStorage PodResources (Db PodResources))}
        (success kept_storage)
        (success db)
    → kept_storage ≡ db
same_storage db e = cc

abbrev records : DiskStorage PodResources (Db PodResources) → List PodResources
records =
    (db_storage host (list_bolt first_record) success success last_port quiet (λ w p. w) parse_bool
      to_lower).list

-- The records are complete, and name the pod that holds the port.
abbrev Recorded : DiskStorage PodResources (Db PodResources) → Type 0
Recorded db =
    Complete (records db)
    × (others : List String) × (holders "a" (records db) ≡ "shop/web-0" ∷ others)

kept_storage-Recorded : Recorded kept_storage
unfolding disk Disk.list Memory.list insert pod_info_key
kept_storage-Recorded = (((_, _, [], refl, refl), tt), [], refl)

opened-Recorded :
    (db : DiskStorage PodResources (Db PodResources))
    → Disk.new_disk_storage
        (list_bolt first_record)
        success
        (json_deserializer success)
        host.prepare_dir
        res_db_name
        daemon_db_path
      ≡ success db
    → Recorded db
unfolding Disk.new_disk_storage Disk.load Disk.load_loop Memory.put Memory.new_memory_storage
    json_deserializer insert
opened-Recorded db e = subst Recorded (same_storage db e) kept_storage-Recorded

listed :
    (node : NodeInfo) (net_id : String) (all : List ApiPort)
    → get_node_info host ≡ success node
    → Neutron.list_port_with_filter quiet 0 (node_filter net_id node.uuid) ≡ success all
    → Mem "a" (port_ids all)
unfolding Neutron.list_port_with_filter Neutron.each_page
listed node net_id all here e = subst (λ l. Mem "a" (port_ids l)) (same_ports all e) mem-cons_self

reopened-Spared_example : Returns (Spared "a") (
    reopened host
      (list_bolt first_record)
      success
      success
      last_port
      quiet
      (λ w p. w)
      parse_bool
      to_lower
      (λ ip. true)
      "n-1"
      "s-1"
      find_pod
      ""
      0
      arrivals)
reopened-Spared_example =
    reopened-Spared host (list_bolt first_record) success success last_port quiet (λ w p. w)
      parse_bool to_lower Unmade last_port-Supply quiet-Listing (λ w p l live. live) 0
      quiet-Inventory "" (returns tt) (λ db e. (opened-Recorded db e).0) "a" "shop/web-0"
      (λ db e. let r = opened-Recorded db e in (r.1, r.2)) listed (λ ip. true) "n-1" "s-1" find_pod
      arrivals (refl, (refl, (refl, tt)))
