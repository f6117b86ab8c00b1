-- ===== src/Ipam/Start.antt =====
-- pkg/ipam/port.go: NewPortResourceManager and the initializer that it gives the pool.
use rubble.Prelude.{ℕ, String, Option, none, some, List, [], ◌∷◌}
use rubble.Prelude.Run.{Run, ok, ◌>>=◌, Error, wrapped, Result, success, failure}
use rubble.Prelude.Assoc.{lookup}
use rubble.Resource.{PortResource}
use rubble.Neutron.{
  ApiPort, ApiSubnet, ListFilter, NetworkService, convert_port, list_port_with_filter, get_subnet,
  get_network_id, get_subnetwork_id,
}
use rubble.Pool.{SimpleObjectPool, ObjectFactory, State, add_idle, add_inuse}
use rubble.Pool.Start.{new_simple_object_pool}
use Prim.Native.String.{◌++◌}
use rubble.Ipam.{device_owner, vm_tag_prefix}

-- The sizes of DaemonConfigure, the names and ids it gives, and the UUID and name of its node.
pub record DaemonConfigure : Type 0 where
  pub net_id : String
  pub subnet_id : String
  pub max_pool_size : ℕ
  pub max_idle_size : ℕ
  pub min_idle_size : ℕ
  pub node_uuid : String
  pub node_name : String

-- `keep` is the append to the factory's list of ports.
module _ {W : Type 0} (factory : ObjectFactory W) (service : NetworkService W)
    (keep : W → PortResource → W) where
  -- The loop of the initializer over the listed ports.
  unfoldable pub adopt_ports :
      ApiSubnet → List (String × List String) → List ApiPort → State W → Run (State W)
  adopt_ports subnet ports_mapping [] s = ok s
  adopt_ports subnet ports_mapping (np ∷ ports) s = convert_port subnet np >>= λ port.
      let p : PortResource = record { port = port } in
      let w = keep s.world p in
      let added : Run SimpleObjectPool = elim (lookup np.id ports_mapping) [
        | some _ ↦ add_inuse s.pool p
        | none ↦ add_idle (factory.now w) s.pool p
      ] in
      added >>= λ pool. adopt_ports subnet ports_mapping ports (record { pool = pool; world = w })

  unfoldable pub initializer :
      String
      → ApiSubnet
      → String
      → List (String × List String)
      → State W
      → Run (Option Error × State W)
  initializer net_id subnet node_uuid ports_mapping s =
      let filter : ListFilter = record {
        network_id = net_id;
        device_owner = device_owner;
        tags = vm_tag_prefix ++ ":" ++ node_uuid;
      } in
      elim (list_port_with_filter service s.world filter) [
        | failure e ↦ ok (some (wrapped "failed to list ports allocated by this node" e), s)
        | success ports ↦ adopt_ports subnet ports_mapping ports s >>= λ t. ok (none, t)
      ]

  unfoldable pub new_port_resource_manager :
      DaemonConfigure → List (String × List String) → W → Run (Result (State W) × W)
  new_port_resource_manager config ports_mapping w = elim (get_network_id service w config.net_id) [
    | failure e ↦ ok (failure (wrapped "failed to get network id" e), w)
    | success net_id ↦ elim (get_subnetwork_id service w config.subnet_id) [
      | failure e ↦ ok (failure (wrapped "failed to get subnet" e), w)
      | success subnet_id ↦ elim (get_subnet service w subnet_id) [
        | failure e ↦ ok (failure (wrapped "failed to get subnet with error" e), w)
        | success subnet ↦
            new_simple_object_pool factory
              (record {
                initializer = some (initializer net_id subnet config.node_uuid ports_mapping);
                min_idle = config.min_idle_size;
                max_idle = config.max_idle_size;
                capacity = config.max_pool_size;
              })
              w
      ]
    ]
  ]
