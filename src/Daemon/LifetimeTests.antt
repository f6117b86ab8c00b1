-- ===== src/Daemon/LifetimeTests.antt =====
-- The daemon from its start with one record in its database on, over the requests of two pods.
use mathlib.Core.List.{Nodup, not-mem-nil}
use mathlib.Core.Path.{subst}
use rubble.Prelude.{true, ◌≡◌, refl, List, [], Mem}
use rubble.Prelude.Assoc.{insert}
use rubble.Prelude.Run.{Returns, returns, Result, success}
use rubble.Neutron
use rubble.Neutron.{ApiPort}
use rubble.Storage.Disk
use rubble.Storage.Disk.{DiskStorage}
use rubble.Storage.Memory
use rubble.Storage.Tests.{Db, list_bolt}
use rubble.Pool.Tests.{absent_cons}
use rubble.Ipam.Initial.{port_ids}
use rubble.Ipam.Readiness.{Inventory}
use rubble.Ipam.Tests.{quiet, ports, ports-distinct}
use rubble.Daemon.{PodResources}
use rubble.Daemon.Parts.{disk}
use rubble.Daemon.Start.{Complete}
use rubble.Daemon.Tests.{parse_bool, to_lower}
use rubble.Daemon.SessionTests.{
  last_port, Unmade, last_port-Supply, quiet-Listing, find_pod, visits,
}
use rubble.Daemon.ServerTests.{host, one_record, restarted}
use rubble.Daemon.Server.{json_deserializer, res_db_name, daemon_db_path}
use rubble.Daemon.Beginning.{db_storage}
use rubble.Daemon.Lifetime.{Up, lifetime, lifetime-Up}

pub same_ports :
    (all : List ApiPort)
    → ◌≡◌ {A = Result (List ApiPort)} (success ports) (success all)
    → ports ≡ all
same_ports all e = cc

pub quiet-Inventory : Inventory quiet Unmade 0
unfolding Neutron.list_port_with_filter Neutron.each_page
quiet-Inventory = record {
  distinct = λ filter all e. subst (λ l. Nodup (port_ids l)) (same_ports all e) ports-distinct;
  live = λ filter all e start.
      subst (λ l. ¬ Mem "n" (port_ids l)) (same_ports all e)
        (absent_cons "n" "a" _ refl (absent_cons "n" "b" _ refl not-mem-nil));
}

same_storage :
    (db : DiskStorage PodResources (Db PodResources))
    → ◌≡◌ {A = Result (DiskStorage PodResources (Db PodResources))} (success restarted) (success db)
    → restarted ≡ db
same_storage db e = cc

abbrev db_list : DiskStorage PodResources (Db PodResources) → List PodResources
db_list =
    (db_storage host (list_bolt one_record) success success last_port quiet (λ w p. w) parse_bool
      to_lower).list

restarted-Complete : Complete (db_list restarted)
unfolding disk Disk.list Memory.list insert
restarted-Complete = ((_, _, [], refl, refl), tt)

opened-Complete :
    (db : DiskStorage PodResources (Db PodResources))
    → Disk.new_disk_storage
        (list_bolt one_record)
        success
        (json_deserializer success)
        host.prepare_dir
        res_db_name
        daemon_db_path
      ≡ success db
    → Complete (db_list db)
unfolding Disk.new_disk_storage Disk.load Disk.load_loop Memory.put Memory.new_memory_storage
    json_deserializer insert
opened-Complete db e = subst (λ d. Complete (db_list d)) (same_storage db e) restarted-Complete

lifetime-Up_example : Returns (Up Unmade) (
    lifetime host
      (list_bolt one_record)
      success
      success
      last_port
      quiet
      (λ w p. w)
      parse_bool
      to_lower
      (λ ip. true)
      "n-1"
      "s-1"
      find_pod
      ""
      0
      visits)
lifetime-Up_example =
    lifetime-Up host (list_bolt one_record) success success last_port quiet (λ w p. w) parse_bool
      to_lower Unmade last_port-Supply quiet-Listing (λ w p l live. live) 0 quiet-Inventory ""
      (returns tt) opened-Complete (λ ip. true) "n-1" "s-1" find_pod visits
      (refl, (refl, (refl, tt)))
