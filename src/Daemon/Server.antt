-- ===== src/Daemon/Server.antt =====
-- pkg/daemon/daemon.go: newDaemonServer, which puts the parts of the daemon together.
use rubble.Prelude.{String, Bool, Option, none, some, List, [], ◌∷◌, str_eq, if◌then◌else◌}
use rubble.Prelude.Bytes.{Bytes, codes}
use rubble.Prelude.Run.{Run, ok, ◌>>=◌, Error, plain, wrapped, Result, success, failure}
use rubble.Resource.{PortResource}
use rubble.Utils.{NodeInfo, if_runing_on_vm}
use rubble.Pods.{Pod, Filter, K8s, new_k8s, list_local_pods}
use rubble.Storage.Disk
use rubble.Storage.Disk.{Bolt, DiskStorage}
use rubble.Neutron.{NetworkService}
use rubble.Pool.{ObjectFactory, State}
use rubble.Ipam.Start.{DaemonConfigure, new_port_resource_manager}
use rubble.Daemon.{PodResources, DaemonState}
use rubble.Daemon.Parts.{disk}
use rubble.Daemon.Start.{get_ports_mapping, get_pods_without_port}

-- The machine around the daemon at its start: what the creation of the Neutron client answers, the
-- files, the metadata service, the decoders of JSON, the directory of the database, the set-up of
-- the Kubernetes client, and the lists of pods that this client answers.
pub record Machine (Client Text : Type 0) : Type 0 where
  pub new_client : Option Error
  pub open_config : String → Option Error
  pub read_config : String → Result Text
  pub unmarshal_config : Text → Result DaemonConfigure
  pub status : Option Bytes
  pub cpuinfo : Option Bytes
  pub http_get : Option Error
  pub read_body : Result Text
  pub unmarshal_node : Text → Result NodeInfo
  pub init_kube_client : String → Run (Result Client)
  pub list_pods : Client → List (String × String) → String → Result (List Pod)
  pub prepare_dir : String → Option Error

abbrev pub default_deamon_config_path : String
default_deamon_config_path = "/etc/cni/rubble/rubble.json"

abbrev pub daemon_db_path : String
daemon_db_path = "/var/lib/cni/rubble/daemon.db"

abbrev pub res_db_name : String
res_db_name = "PodPorts"

-- The filter for the pods of the node.
abbrev pub local_pods : Filter
local_pods = record {
  annotations = ("ecns.easystack.io/pod-networks", "rubble") ∷ [];
  labels = ("vpc-cni", "true") ∷ [];
}

-- jsonDeserializer, over json.Unmarshal.
unfoldable pub json_deserializer :
    {Data : Type 0} → (Data → Result PodResources) → Data → Result PodResources
json_deserializer unmarshal bytes = elim (unmarshal bytes) [
  | failure e ↦ failure (wrapped "error unmarshal pod relate resource" e)
  | success found ↦ success found
]

-- The daemon's configuration with the node that was found. The name of the configuration serves
-- where the node has none.
unfoldable pub node_name : NodeInfo → DaemonConfigure → String
node_name node config = if str_eq node.name "" then config.node_name else node.name

module _ {Client Text : Type 0} (machine : Machine Client Text) where
  unfoldable pub get_config_from_path : String → Result DaemonConfigure
  get_config_from_path path = elim (machine.open_config path) [
    | some e ↦ failure (wrapped "failed open config file" e)
    | none ↦ elim (machine.read_config path) [
      | failure e ↦ failure (plain "failed read file")
      | success text ↦ elim (machine.unmarshal_config text) [
        | failure e ↦ failure (plain "failed parse config")
        | success config ↦ success config
      ]
    ]
  ]

  -- GetVMMetadata of pkg/neutron.
  unfoldable pub get_vm_metadata : Result Text
  get_vm_metadata = elim machine.http_get [ some e ↦ failure e | none ↦ machine.read_body ]

  unfoldable pub get_node_info : Result NodeInfo
  get_node_info =
      if if_runing_on_vm machine.status machine.cpuinfo (codes "hypervisor")
      then (elim get_vm_metadata [
        | failure e ↦ failure (wrapped "failed to get node withis" e)
        | success text ↦ machine.unmarshal_node text
      ])
      else success (record { uuid = "fake-uuid-from-rubble"; name = "" })

  module _ {W D Data : Type 0} (bolt : Bolt D Data) (serializer : PodResources → Result Data)
      (unmarshal : Data → Result PodResources) (factory : ObjectFactory W)
      (service : NetworkService W) (keep : W → PortResource → W) (parse_bool : String → Bool)
      (to_lower : String → String) where
    abbrev pub Db : Type 0
    Db = DiskStorage PodResources D

    -- The daemon on a port manager.
    unfoldable pub serve : Db → Result (State W) × W → Result (DaemonState Db (State W)) × W
    serve db (failure e, w) = (failure (wrapped "error init port resource manager" e), w)
    serve db (success manager, w) =
        (success (record { resource_db = db; port_manager = manager }), w)

    -- The end of newDaemonServer, with the ports that pods have.
    unfoldable pub with_ports :
        DaemonConfigure
        → Db
        → List (String × List String)
        → W
        → Run (Result (DaemonState Db (State W)) × W)
    with_ports config db ports_mapping w =
        new_port_resource_manager factory service keep config ports_mapping w >>= λ made.
        ok (serve db made)

    -- With the configuration, the Kubernetes client and the database.
    unfoldable pub with_pods :
        DaemonConfigure → K8s Client → Db → W → Run (Result (DaemonState Db (State W)) × W)
    with_pods config k8s db w =
        elim (list_local_pods parse_bool to_lower (machine.list_pods k8s.client) k8s.node_name
          local_pods) [
            | failure e ↦ ok (failure (wrapped "failed to list local pods with error" e), w)
            | success pods ↦
                let storage = disk bolt serializer (json_deserializer unmarshal) in
                get_pods_without_port storage pods db >>= λ pods_usage.
                get_ports_mapping storage pods_usage db >>= λ ports_mapping.
                with_ports config db ports_mapping w
          ]

    -- With the configuration and the name of the node.
    unfoldable pub with_node :
        String → DaemonConfigure → String → W → Run (Result (DaemonState Db (State W)) × W)
    with_node kube_config config name w =
        new_k8s machine.init_kube_client kube_config name >>= λ made. elim made [
          | failure e ↦ ok (failure (wrapped "failed to init k8s client with error" e), w)
          | success k8s ↦
              elim (Disk.new_disk_storage bolt serializer (json_deserializer unmarshal)
                machine.prepare_dir res_db_name daemon_db_path) [
                  | failure e ↦ ok (failure (wrapped "error init resource manager storage" e), w)
                  | success db ↦ with_pods config k8s db w
                ]
        ]

    unfoldable pub new_daemon_server : String → W → Run (Result (DaemonState Db (State W)) × W)
    new_daemon_server kube_config w = elim machine.new_client [
      | some e ↦ ok (failure (wrapped "failed to create neutron client with error" e), w)
      | none ↦ elim (get_config_from_path default_deamon_config_path) [
        | failure e ↦ ok (failure (wrapped "failed read config file with error" e), w)
        | success config ↦ elim get_node_info [
          | failure e ↦ ok (failure (wrapped "failed get node info with error" e), w)
          | success node ↦
              with_node kube_config (record config { node_uuid = node.uuid })
                (node_name node config) w
        ]
      ]
    ]
