-- ===== src/Ipam/Tests.antt =====
-- The manager's theorems at concrete pools, ports and services.
use rubble.Utils.Uuid.{is_valid_uuid, uuid_pattern, times, match_string, is_hex}
use mathlib.Core.List.{Nodup, Nodup-nil, not-mem-nil}
use rubble.Prelude.{ℕ, ◌+◌, ◌≡◌, refl, String, Bool, true, false, none, some, List, [], ◌∷◌, arith}
use rubble.Prelude.Run.{ok, Returns, success, failure, external, wrapped}
use rubble.Neutron
use rubble.Neutron.{ApiPort, ApiSubnet, NetworkService}
use rubble.Neutron.Tests.{api_port, subnet, one_port, one_port_laws}
use rubble.Pool.{ObjectFactory, State}
use rubble.Pool.Tests.{
  resource, two, busy, busy-IsSound, lean, lean-IsUsable, apart, distinct_cons, absent_cons,
}
use rubble.Pool.Opening.{Opened}
use rubble.Ipam.{ResourceContext, acquire_created}
use rubble.Ipam.Factory.{PortFactory, FactoryState, create, dispose, Made, create-Made}
use rubble.Ipam.Stall.{here, Stalled, stalled, dispose-stalls}
use rubble.Ipam.Connection.{port_factory, Existing, port_factory-Supply}
use rubble.Pool.Supply.{Supply}
use rubble.Ipam.Static.{Extra, acquire_created-Extra}
use rubble.Ipam.Start.{DaemonConfigure, adopt_ports, new_port_resource_manager}
use rubble.Ipam.Initial.{Adopted, port_ids, adopt_ports-Adopted}
use rubble.Ipam.Opening.{MappedInUse, pool_config, new_port_resource_manager-Opened}

abbrev new_factory : PortFactory
new_factory = record {
  net_id = "n-1";
  subnet_id = "s-1";
  vm_uuid = "vm";
  ports = [];
  locked = false;
}

abbrev before : FactoryState Bool
before = record { factory = new_factory; world = false }

create-Made_example : Returns (Made one_port one_port_laws before) (create one_port before "x" "")
create-Made_example = create-Made one_port one_port_laws before "x" "" refl (λ w id. refl)

-- A service that deletes no port.
abbrev keeping : NetworkService Bool
keeping = record one_port { delete_port = λ w id. (some (external "conflict"), w) }

dispose-stalls_example :
    (dispose keeping before (resource "p-0")
      ≡ ok (
        some (wrapped "failed to delete port with error" (external "conflict")),
        stalled keeping before (resource "p-0"),
      ))
    × Stalled keeping (stalled keeping before (resource "p-0"))
dispose-stalls_example =
    dispose-stalls keeping before (resource "p-0") (external "conflict")
      (stalled keeping before (resource "p-0")) refl refl here

-- Creating a port with an address makes one that is new to the pool.
abbrev pub maker : ObjectFactory ℕ
maker = record {
  create = λ w ip. (success (resource "n"), w + 1);
  dispose = λ w r. (none, w + 1);
  now = λ w. w;
}

abbrev pub quiet : NetworkService ℕ
quiet = record {
  create_port = λ w opts. (failure (external "none"), w);
  delete_port = λ w id. (none, w);
  add_tag = λ w kind of tag. (none, w);
  port_pages = λ w filter. success (api_port "a" "10.0.0.7" ∷ api_port "b" "10.0.0.8" ∷ []) ∷ [];
  get_subnet = λ w id. success subnet;
  get_network = λ w id. success (record { id = id; name = "net" });
  network_mtus = λ w id. success ((id, 1450) ∷ []);
  all_subnets = λ w. subnet ∷ [];
  all_networks = λ w. record { id = "n-1"; name = "net" } ∷ [];
}

abbrev pinned : ResourceContext
pinned = record {
  context = record { done = false; picks_token = true };
  pod_info = none;
  pod = record {
    name = "web-0";
    namespace = "shop";
    pod_ip = "";
    annotations = ("rubble.kubernetes.io/ip_address", "10.0.0.9") ∷ [];
    owner_kinds = [];
  };
}

abbrev crowded : State ℕ
crowded = record { pool = busy; world = 5 }

acquire_created-Extra_example :
    Returns
      (Extra crowded (resource "n"))
      (acquire_created maker quiet (λ ip. true) "n-1" "s-1" crowded pinned "10.0.0.9")
acquire_created-Extra_example =
    acquire_created-Extra maker quiet (λ ip. true) "n-1" "s-1" crowded two pinned "10.0.0.9"
      (resource "n") busy-IsSound refl (apart "n" "" refl)
      (absent_cons "n" "a" _ refl
        (absent_cons "n" "b" _ refl (absent_cons "n" "c" _ refl not-mem-nil)))

-- Two ports, of which a pod is known to have the first.
abbrev pub ports : List ApiPort
ports = api_port "a" "10.0.0.7" ∷ api_port "b" "10.0.0.8" ∷ []

abbrev known : List (String × List String)
known = ("a", "shop/web-0" ∷ []) ∷ []

abbrev fresh_start : State ℕ
fresh_start = record { pool = record lean { tokens = 0 }; world = 5 }

pub ports-distinct : Nodup (port_ids ports)
ports-distinct =
    distinct_cons "a" _ (absent_cons "a" "b" _ refl not-mem-nil)
      (distinct_cons "b" _ not-mem-nil Nodup-nil)

adopt_ports-Adopted_example :
    Returns
      (Adopted known ports [] fresh_start)
      (adopt_ports maker quiet (λ w p. w) subnet known ports fresh_start)
adopt_ports-Adopted_example =
    adopt_ports-Adopted maker quiet (λ w p. w) subnet known ports [] fresh_start
      (record { holds = lean-IsUsable.holds; unlocked = refl }) tt
      ((_, _, refl), ((_, _, refl), tt)) ports-distinct

abbrev pub sizes : DaemonConfigure
sizes = record {
  net_id = "net";
  subnet_id = "pods";
  max_pool_size = 5;
  max_idle_size = 3;
  min_idle_size = 1;
  node_uuid = "vm";
  node_name = "";
}

-- The configuration gives the names of the network and the subnet.
pub net-found : Neutron.get_network_id quiet 5 sizes.net_id ≡ success "n-1"
unfolding Neutron.get_network_id Neutron.list_networks Neutron.find_network is_valid_uuid
    uuid_pattern times match_string is_hex
net-found = refl

pub subnet-found : Neutron.get_subnetwork_id quiet 5 sizes.subnet_id ≡ success "s-1"
unfolding Neutron.get_subnetwork_id Neutron.list_subnetworks Neutron.find_subnet is_valid_uuid
    uuid_pattern times match_string is_hex
subnet-found = refl

new_port_resource_manager-Opened_example :
    Returns
      (Opened maker
        (pool_config maker quiet (λ w p. w) subnet known "n-1" "s-1" sizes ports 5)
        (MappedInUse known ports))
      (new_port_resource_manager maker quiet (λ w p. w) sizes known 5)
unfolding Neutron.get_subnet Neutron.list_port_with_filter Neutron.each_page
new_port_resource_manager-Opened_example =
    new_port_resource_manager-Opened maker quiet (λ w p. w) subnet known "n-1" "s-1" sizes ports 5
      net-found subnet-found refl refl ((_, _, refl), ((_, _, refl), tt)) ports-distinct
      (omega arith) (omega arith)

port_factory-Supply_example :
    (create one_port before "x" ""
      ≡ ok ((port_factory one_port (λ s. "x") (λ s. 0)).create before ""))
    × Supply
        (port_factory one_port (λ s. "x") (λ s. 0))
        (Existing one_port one_port_laws (λ w id. refl) (λ s. "x") (λ s. 0))
port_factory-Supply_example =
    port_factory-Supply one_port one_port_laws (λ w id. refl) (λ s. "x") (λ s. 0) before "" refl
