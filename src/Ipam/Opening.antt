-- ===== src/Ipam/Opening.antt =====
-- NewPortResourceManager: the pool over the node's ports.
use mathlib.Core.List.{Nodup, append-nil}
use mathlib.Core.Path.{subst}
use rubble.Prelude.{◌≤◌, String, ◌≡◌, refl, sym, some, List, [], Perm}
use rubble.Prelude.Run.{Returns, returns, Returns-bind, success}
use rubble.Resource.{PortResource, NetworkResource}
use rubble.Prelude.Assoc.{keys}
use rubble.Queue.Contents.{new_priority_queue-Holds}
use rubble.Neutron.{
  ApiPort, ApiSubnet, ListFilter, NetworkService, list_port_with_filter, get_subnet, get_network_id,
  get_subnetwork_id,
}
use rubble.Pool.{ObjectFactory}
use rubble.Pool.Start.{PoolConfig, make_pool, run_initializer}
use rubble.Pool.Opening.{Initialized, Opened, new_simple_object_pool-Opened}
use rubble.Ipam.{device_owner, vm_tag_prefix}
use rubble.Ipam.Start.{DaemonConfigure, initializer, new_port_resource_manager}
use rubble.Ipam.Initial.{Addressed, port_ids, mapped_ids, adopt_ports-Adopted}
use Prim.Native.String.{◌++◌ as append}

-- The ids in use are those of the ports that pods are known to have.
abbrev pub MappedInUse :
    List (String × List String) → List ApiPort → List (String × NetworkResource) → Type 0
MappedInUse known ports m = Perm (keys m) (mapped_ids known ports)

module _ {W : Type 0} (factory : ObjectFactory W) (service : NetworkService W)
    (keep : W → PortResource → W) (subnet : ApiSubnet) (known : List (String × List String))
    (net_id subnet_id : String) (config : DaemonConfigure) (ports : List ApiPort) (w : W) where
  -- The ports that the initializer asks for.
  abbrev pub node_ports : ListFilter
  node_ports = record {
    network_id = net_id;
    device_owner = device_owner;
    tags = append vm_tag_prefix (append ":" config.node_uuid);
  }

  abbrev pub pool_config : PoolConfig W
  pool_config = record {
    initializer = some (initializer factory service keep net_id subnet config.node_uuid known);
    min_idle = config.min_idle_size;
    max_idle = config.max_idle_size;
    capacity = config.max_pool_size;
  }

  initializer-Initialized :
      list_port_with_filter service w node_ports ≡ success ports
      → Addressed ports
      → Nodup (port_ids ports)
      → Returns
          (Initialized pool_config (MappedInUse known ports))
          (run_initializer pool_config (record { pool = make_pool pool_config; world = w }))
  unfolding run_initializer make_pool initializer
  initializer-Initialized listed addressed distinct =
      rw (listed, initializer)
        (Returns-bind
          (adopt_ports-Adopted factory service keep subnet known ports [] _
            (record { holds = new_priority_queue-Holds; unlocked = refl }) tt addressed
            (subst Nodup (sym (append-nil (port_ids ports))) distinct))
          λ t a. returns (record {
            no_error = refl;
            items = a.items;
            usable = a.sound.usable;
            no_tokens = a.tokens;
            setup = a.setup;
            in_use =
                subst (Perm (keys t.pool.inuse)) (append-nil (mapped_ids known ports)) a.in_use;
          }))

  -- If Neutron answers for the network, the subnet and the ports of the node, no two of these ports
  -- have one id, each has an address, and the sizes fit (least idle, most idle, capacity), then
  -- NewPortResourceManager returns; either it returns the error of a Create, or it hands out a
  -- pool; in this the ports that pods are known to have are in use and nothing else is; it is
  -- usable, has enough idle resources or is full, has a token for each resource that its capacity
  -- still allows, and its ticker is at work.
  pub new_port_resource_manager-Opened :
      get_network_id service w config.net_id ≡ success net_id
      → get_subnetwork_id service w config.subnet_id ≡ success subnet_id
      → get_subnet service w subnet_id ≡ success subnet
      → list_port_with_filter service w node_ports ≡ success ports
      → Addressed ports
      → Nodup (port_ids ports)
      → config.min_idle_size ≤ config.max_idle_size
      → config.max_idle_size ≤ config.max_pool_size
      → Returns
          (Opened factory pool_config (MappedInUse known ports))
          (new_port_resource_manager factory service keep config known w)
  unfolding new_port_resource_manager
  new_port_resource_manager-Opened net sub found listed addressed distinct low high =
      rw (net, new_port_resource_manager)
        (rw (sub, new_port_resource_manager)
          (rw (found, new_port_resource_manager)
            (new_simple_object_pool-Opened factory pool_config (MappedInUse known ports) w low high
              (initializer-Initialized listed addressed distinct))))
