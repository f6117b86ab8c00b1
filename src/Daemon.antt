-- ===== src/Daemon.antt =====
-- pkg/daemon/daemon.go and pkg/ipam/resource_manager.go: the requests of the daemon, over a storage
-- and a resource manager that it reaches through their interfaces.
pub mod Parts
pub mod Start
pub mod Server
pub mod Loop
pub mod Shutdown
pub mod Opening
pub mod Records
pub mod Contract
pub mod Releases
pub mod Service
pub mod Sessions
pub mod Beginning
pub mod Lifetime
pub mod Holders
pub mod Sticky
mod Tests
mod ServerTests
mod SessionTests
mod LifetimeTests
mod HolderTests
mod ShutdownTests
use rubble.Prelude.{
  ℕ, String, Bool, true, false, Option, none, some, List, [], ◌∷◌, str_eq, ◌==◌, if◌then◌else◌,
}
use rubble.Prelude.Run.{
  Run, ok, ◌>>=◌, Error, storage_not_found, plain, wrapped, Result, success, failure,
}
use rubble.Prelude.Int.{ℤ, pos, negsuc}
use rubble.Resource.{
  PortResource, NetworkResource, get_resource_id, get_type, resource_type_multiple_ip,
}
use rubble.Pods.{PodInfo, Pod, pod_info_key, convert_pod}
use rubble.Pool.{Context}
use rubble.Ipam.{ResourceContext, NetConf, net_conf_from_port}

pub record ResourceItem : Type 0 where
  pub type : String
  pub id : String

pub record PodResources : Type 0 where
  pub resources : List ResourceItem
  pub pod_info : Option PodInfo

abbrev pub no_resources : PodResources
no_resources = record { resources = []; pod_info = none }

-- The interfaces storage.Storage and ipam.ResourceManager, on states `S` and `M`. The storages of
-- the program list without error, and the daemon collects no garbage.
pub record Storage (S : Type 0) : Type 0 where
  pub put : S → String → PodResources → Option Error × S
  pub get : S → String → Result PodResources
  pub list : S → List PodResources
  pub delete : S → String → Option Error × S

pub record ResourceManager (M : Type 0) : Type 0 where
  pub allocate : M → ResourceContext → String → Run (Result NetworkResource × M)
  pub release : M → Option ResourceContext → String → Run (Option Error × M)

pub record DaemonState (S M : Type 0) : Type 0 where
  pub resource_db : S
  pub port_manager : M

-- The requests' namespace and name, and how the connection ends: ctx.Err() after the work.
pub record Request : Type 0 where
  pub context : Context
  pub namespace : String
  pub name : String
  pub ctx_err : Option Error

unfoldable pub get_resource_item_by_type : String → List ResourceItem → List ResourceItem
get_resource_item_by_type res_type [] = []
get_resource_item_by_type res_type (r ∷ rest) =
    if str_eq res_type r.type
    then record { type = res_type; id = r.id } ∷ get_resource_item_by_type res_type rest
    else get_resource_item_by_type res_type rest

-- The error of a missing key is no error of getPodResource.
unfoldable pub or_no_resources : Result PodResources → Result PodResources
or_no_resources (success found) = success found
or_no_resources (failure storage_not_found) = success no_resources
or_no_resources (failure e) = failure e

unfoldable pub is_zero : ℤ → Bool
is_zero (pos n) = n == 0
is_zero (negsuc n) = false

-- `oldResId` of allocatePortIP, with the items of the right type.
unfoldable pub only_id : List ResourceItem → String
only_id (r ∷ []) = r.id
only_id _ = ""

unfoldable pub old_res_id : PodResources → String
old_res_id old = elim old.pod_info [
  | none ↦ ""
  | some _ ↦ only_id (get_resource_item_by_type resource_type_multiple_ip old.resources)
]

module _ {S M : Type 0} (storage : Storage S) (manager : ResourceManager M)
    (parse_bool : String → Bool) (to_lower : String → String)
    (find_pod : String → String → Result Pod) where
  -- GetPod of pkg/k8s, where `find_pod` is the request to the API server.
  unfoldable pub get_pod : String → String → Result (PodInfo × Pod)
  get_pod namespace name = elim (find_pod namespace name) [
    | failure e ↦ failure e
    | success pod ↦ success (convert_pod parse_bool to_lower pod, pod)
  ]

  unfoldable pub get_pod_resource : S → String → Result PodResources
  get_pod_resource db key = or_no_resources (storage.get db key)

  unfoldable pub allocate_port_ip :
      M → ResourceContext → PodResources → Run (Result PortResource × M)
  allocate_port_ip m ctx old = manager.allocate m ctx (old_res_id old)

  -- AllocateIP after the port was allocated: the record in the storage, and the reply.
  unfoldable pub record_port :
      DaemonState S M → Request → PodInfo → PortResource → Result (List NetConf) × DaemonState S M
  record_port s r pod_info port =
      let new_res : PodResources = record {
        pod_info = some pod_info;
        resources = record { id = get_resource_id port; type = get_type port } ∷ [];
      } in
      let (err, db) = storage.put s.resource_db (pod_info_key pod_info) new_res in
      let t : DaemonState S M = record s { resource_db = db } in
      elim err [
        | some e ↦ (failure (wrapped "error put resource into store with error" e), t)
        | none ↦ elim (net_conf_from_port port) [
          | failure e ↦ (failure e, t)
          | success conf ↦ elim r.ctx_err [
            | some e ↦ (failure (wrapped "error on grpc connection" e), t)
            | none ↦ (success conf, t)
          ]
        ]
      ]

  unfoldable pub record_allocated :
      S → Request → PodInfo → Result PortResource × M → Result (List NetConf) × DaemonState S M
  record_allocated db r pod_info (failure e, m) = (
    failure (wrapped "error get allocated port" e),
    record { resource_db = db; port_manager = m },
  )
  record_allocated db r pod_info (success port, m) =
      record_port (record { resource_db = db; port_manager = m }) r pod_info port

  -- The reply is given by its NetConfs; its other fields are constant.
  unfoldable pub allocate_ip :
      DaemonState S M → Request → Run (Result (List NetConf) × DaemonState S M)
  allocate_ip s r = elim (get_pod r.namespace r.name) [
    | failure e ↦ ok (failure (plain "error get pod info"), s)
    | success (pod_info, pod) ↦ elim (get_pod_resource s.resource_db (pod_info_key pod_info)) [
      | failure e ↦ ok (failure (wrapped "failed to get pod resources from db" e), s)
      | success old ↦
          let ctx : ResourceContext = record {
            context = r.context;
            pod_info = some pod_info;
            pod = pod;
          } in
          allocate_port_ip s.port_manager ctx old >>= λ a.
          ok (record_allocated s.resource_db r pod_info a)
    ]
  ]

  -- The loop of ReleaseIP over the pod's resources.
  unfoldable pub release_all : M → ResourceContext → List ResourceItem → Run (Option Error × M)
  release_all m ctx [] = ok (none, m)
  release_all m ctx (res ∷ others) = manager.release m (some ctx) res.id >>= λ (err, m₁). elim err [
    | some e ↦ ok (some e, m₁)
    | none ↦ release_all m₁ ctx others
  ]

  -- The record of a pod whose address does not stick to it is deleted.
  unfoldable pub forget_record : S → PodInfo → Option Error × S
  forget_record db pod_info =
      if is_zero pod_info.ip_stick_time
      then storage.delete db (pod_info_key pod_info)
      else (none, db)

  -- ReleaseIP after the loop.
  unfoldable pub forget_pod :
      S → Request → PodInfo → Option Error × M → Option Error × DaemonState S M
  forget_pod db r pod_info (some e, m) = (some e, record { resource_db = db; port_manager = m })
  forget_pod db r pod_info (none, m) =
      let (err, db₁) = forget_record db pod_info in
      let t : DaemonState S M = record { resource_db = db₁; port_manager = m } in
      elim err [
        | some e ↦ (some (wrapped "failed to delete key" e), t)
        | none ↦ elim r.ctx_err [
          | some e ↦ (some (wrapped "error on grpc connection" e), t)
          | none ↦ (none, t)
        ]
      ]

  -- Of the reply only its error is kept; its one field is constant.
  unfoldable pub release_ip : DaemonState S M → Request → Run (Option Error × DaemonState S M)
  release_ip s r = elim (get_pod r.namespace r.name) [
    | failure e ↦ ok (some (plain "error get pod info"), s)
    | success (pod_info, pod) ↦ elim (get_pod_resource s.resource_db (pod_info_key pod_info)) [
      | failure e ↦ ok (some (wrapped "failed to get pod resources from db" e), s)
      | success old ↦
          let ctx : ResourceContext = record {
            context = r.context;
            pod_info = some pod_info;
            pod = pod;
          } in
          release_all s.port_manager ctx old.resources >>= λ a.
          ok (forget_pod s.resource_db r pod_info a)
    ]
  ]
