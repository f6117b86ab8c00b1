-- ===== src/Ipam.antt =====
-- pkg/ipam/port.go: the manager of port resources over the pool. The pool reaches the factory as an
-- ObjectFactory; the factory itself is in Ipam/Factory.
pub mod Factory
pub mod Stall
pub mod Connection
pub mod Leases
pub mod Static
pub mod Service
pub mod Start
pub mod Initial
pub mod NewIds
pub mod Opening
pub mod Readiness
pub mod Tests
use rubble.Prelude.{
  ℕ, zero, suc, String, Bool, true, false, not, ◌||◌, Option, none, some, List, [], ◌∷◌, str_eq,
  if◌then◌else◌,
}
use rubble.Prelude.Run.{
  Run, ok, panic, ◌>>=◌, or_panic, Error, plain, wrapped, Result, success, failure,
}
use rubble.Prelude.Assoc.{lookup}
use rubble.Resource.{Port, PortResource, NetworkResource, get_resource_id, get_ip_address}
use rubble.Queue.{Slots, PoolItem}
use rubble.Pods.{PodInfo, Pod, read}
use rubble.Neutron.{
  ApiPort, ApiSubnet, ListFilter, NetworkService, convert_port, list_port_with_filter, get_subnet,
  get_network_id, get_subnetwork_id,
}
use rubble.Pool.{
  SimpleObjectPool, ObjectFactory, State, Context, add_idle, add_inuse, acquire, release,
  release_with_reverse, stat, get_idle,
}
use rubble.Pool.Start.{PoolConfig, new_simple_object_pool}
use Prim.Native.String.{◌++◌}

abbrev pub device_owner : String
device_owner = "network:secondary"

abbrev pub vm_tag_prefix : String
vm_tag_prefix = "vm_uuid"

abbrev pub ip_address_annotation : String
ip_address_annotation = "rubble.kubernetes.io/ip_address"

abbrev pub ip_pool_annotation : String
ip_pool_annotation = "rubble.kubernetes.io/ip_pool"

pub record ResourceContext : Type 0 where
  pub context : Context
  pub pod_info : Option PodInfo
  pub pod : Pod

-- The parts of rpc.NetConf that NetConfFromPort fills in.
pub record NetConf : Type 0 where
  pub pod_ip : String
  pub pod_cidr : String
  pub gateway_ip : String
  pub mac : String

unfoldable pub net_conf_from_port : PortResource → Result (List NetConf)
net_conf_from_port p =
    if str_eq p.port.cidr "" || str_eq p.port.gateway ""
    then failure (plain "empty cidr or gateway")
    else success (
        record {
          pod_ip = p.port.ip;
          pod_cidr = p.port.cidr;
          gateway_ip = p.port.gateway;
          mac = p.port.mac;
        }
        ∷ [])

unfoldable pub require_static_ip : ResourceContext → Bool
require_static_ip ctx =
    not (str_eq (read ctx.pod.annotations ip_address_annotation) "")
    || not (str_eq (read ctx.pod.annotations ip_pool_annotation) "")

-- `now` is the time of the call.
unfoldable pub manager_release :
    ℕ → SimpleObjectPool → Option ResourceContext → String → Run (Option Error × SimpleObjectPool)
manager_release now p none res_id = release now p res_id
manager_release now p (some ctx) res_id = elim ctx.pod_info [
  | none ↦ release now p res_id
  | some info ↦ release_with_reverse now p res_id info.ip_stick_time
]

-- The loop over the set of expired resources, in the order in which Go visits it.
unfoldable pub garbage_collection :
    ℕ → SimpleObjectPool → List String → Run (Option Error × SimpleObjectPool)
garbage_collection now p [] = ok (none, p)
garbage_collection now p (expired ∷ others) = stat p expired >>= λ (err, p₁). elim err [
  | some _ ↦ garbage_collection now p₁ others
  | none ↦
      (manager_release now p₁ none expired >>= λ (failed, p₂). elim failed [
        | some e ↦ ok (some e, p₂)
        | none ↦ garbage_collection now p₂ others
      ])
]

-- The loop over the listed ports: whether one has the address.
unfoldable pub is_occupied : ApiSubnet → String → List ApiPort → Run Bool
is_occupied subnet ip_address [] = ok false
is_occupied subnet ip_address (p ∷ ports) =
    let rest = is_occupied subnet ip_address ports in
    convert_port subnet p >>= λ port. if str_eq port.ip ip_address then ok true else rest

-- The loop over the idle items, of which some are nil: the resource with the address.
unfoldable pub idle_with_address : String → Slots → Option NetworkResource
idle_with_address ip_address [] = none
idle_with_address ip_address (none ∷ slots) = idle_with_address ip_address slots
idle_with_address ip_address (some item ∷ slots) =
    if str_eq (get_ip_address item.res) ip_address
    then some item.res
    else idle_with_address ip_address slots

-- `parse_ip` says whether net.ParseIP accepts an address.
module _ {W : Type 0} (factory : ObjectFactory W) (service : NetworkService W)
    (parse_ip : String → Bool) (net_id subnet_id : String) where
  -- The address is occupied: it is taken if an idle resource has it.
  unfoldable pub acquire_occupied :
      State W → ResourceContext → String → Run (Result NetworkResource × State W)
  acquire_occupied s ctx ip_address = get_idle s.pool >>= λ idle.
      elim (idle_with_address ip_address idle) [
        | none ↦ ok (failure (plain "IP address is occupied by port but not in pool idle queue"), s)
        | some res ↦ acquire factory s ctx.context (get_resource_id res)
      ]

  -- The address is free: a port is created with it, made idle and acquired.
  unfoldable pub acquire_created :
      State W → ResourceContext → String → Run (Result NetworkResource × State W)
  acquire_created s ctx ip_address =
      let (made, w) = factory.create s.world ip_address in
      elim made [
        | failure e ↦ ok (failure (plain "IP address is not valid"), record s { world = w })
        | success res ↦ (do
          p ← add_idle (factory.now w) s.pool res
          acquire factory (record { pool = p; world = w }) ctx.context (get_resource_id res))
      ]

  unfoldable pub acquire_static_address :
      State W → ResourceContext → Run (Result NetworkResource × State W)
  acquire_static_address s ctx =
      let ip_address = read ctx.pod.annotations ip_address_annotation in
      let filter : ListFilter = record {
        network_id = net_id;
        device_owner = device_owner;
        tags = "";
      } in
      if str_eq ip_address ""
      then ok (failure (plain "IP address is not valid"), s)
      else if not (parse_ip ip_address)
      then ok (failure (plain "failed to parse ip with annotation"), s)
      else elim (list_port_with_filter service s.world filter) [
        | failure e ↦ ok (failure (wrapped "failed to list ports allocated by rubble" e), s)
        | success ports ↦ elim (get_subnet service s.world subnet_id) [
          | failure e ↦ ok (failure (wrapped "failed to get subnet with error" e), s)
          | success subnet ↦ (do
            occupied ← is_occupied subnet ip_address ports
            if occupied
                then acquire_occupied s ctx ip_address
                else acquire_created s ctx ip_address)
        ]
      ]

  -- The log line reads the pod's key, so a context without pod would panic.
  unfoldable pub allocate :
      State W → ResourceContext → String → Run (Result NetworkResource × State W)
  allocate s ctx res_id =
      if require_static_ip ctx
      then (or_panic ctx.pod_info >>= λ _. acquire_static_address s ctx)
      else acquire factory s ctx.context res_id
