-- ===== src/Daemon/ServerTests.antt =====
-- The start of the daemon with one record in its database.
use rubble.Prelude.{refl, none, [], ◌∷◌, arith}
use rubble.Prelude.Assoc.{insert, insert-IsMap}
use rubble.Prelude.Run.{ok, Returns, success}
use rubble.Neutron
use rubble.Storage.Disk
use rubble.Storage.Disk.{DiskStorage}
use rubble.Storage.Memory
use rubble.Storage.Tests.{Db, list_bolt}
use rubble.Neutron.Tests.{subnet}
use rubble.Ipam.Tests.{maker, quiet, net-found, subnet-found, ports, ports-distinct, sizes}
use rubble.Daemon.{PodResources}
use rubble.Daemon.Parts.{disk}
use rubble.Daemon.Tests.{web, held, parse_bool, to_lower}
use rubble.Daemon.Server.{
  Machine, json_deserializer, get_config_from_path, get_node_info, new_daemon_server,
}
use rubble.Daemon.Opening.{ServerOpened, new_daemon_server-ServerOpened}
use rubble.Utils.{if_runing_on_vm}

abbrev pub host : Machine (Unit {0}) (Unit {0})
host = record {
  new_client = none;
  open_config = λ path. none;
  read_config = λ path. success tt;
  unmarshal_config = λ text. success sizes;
  status = none;
  cpuinfo = none;
  http_get = none;
  read_body = success tt;
  unmarshal_node = λ text. success (record { uuid = "vm"; name = "node-1" });
  init_kube_client = λ conf. ok (success tt);
  list_pods = λ client labels node. success (web ∷ []);
  prepare_dir = λ path. none;
}

abbrev pub one_record : Db PodResources
one_record = (insert "shop/web-0" held [], insert-IsMap "shop/web-0" held [] tt)

abbrev pub restarted : DiskStorage PodResources (Db PodResources)
restarted = record {
  db = one_record;
  name = "PodPorts";
  memory = record { store = ("shop/web-0", held) ∷ [] };
}

new_daemon_server-ServerOpened_example :
    Returns
      (ServerOpened host
        (list_bolt one_record)
        success
        success
        maker
        quiet
        (λ w p. w)
        parse_bool
        to_lower
        (record sizes { node_uuid = "fake-uuid-from-rubble" })
        restarted
        "n-1"
        "s-1"
        subnet
        ports
        5)
      (new_daemon_server host
        (list_bolt one_record)
        success
        success
        maker
        quiet
        (λ w p. w)
        parse_bool
        to_lower
        ""
        5)
unfolding get_config_from_path get_node_info if_runing_on_vm json_deserializer insert disk Disk.list
    Memory.list Disk.new_disk_storage Disk.load Disk.load_loop Memory.put Memory.new_memory_storage
    Neutron.get_subnet Neutron.list_port_with_filter Neutron.each_page
new_daemon_server-ServerOpened_example =
    new_daemon_server-ServerOpened host (list_bolt one_record) success success maker quiet
      (λ w p. w) parse_bool to_lower (record sizes { node_uuid = "fake-uuid-from-rubble" })
      restarted "n-1" "s-1" subnet ports 5 ((_, _, [], refl, refl), tt) net-found subnet-found refl
      ((_, _, refl), ((_, _, refl), tt)) ports-distinct (omega arith) (omega arith) "" sizes
      (record { uuid = "fake-uuid-from-rubble"; name = "" }) tt (web ∷ []) refl refl refl refl refl
      refl refl refl
