-- ===== src/Daemon/Opening.antt =====
-- newDaemonServer: the daemon that the program starts with.
use mathlib.Core.List.{Nodup}
use mathlib.Core.Path.{subst}
use rubble.Prelude.{
  ◌≤◌, String, Bool, ◌≡◌, refl, sym, ◌∙◌, arith, inl, inr, none, some, List, [], ◌∷◌, map, str_eq,
  Bool-cases, Option-cases,
}
use rubble.Prelude.Assoc.{lookup}
use rubble.Prelude.Run.{
  ok, ◌>>=◌, Error, wrapped, Result, success, failure, Returns, returns, Returns-bind, Result-cases,
}
use rubble.Resource.{PortResource}
use rubble.Utils.{NodeInfo}
use rubble.Pods.{PodInfo, Pod, pod_info_key, K8s, new_k8s, list_local_pods, convert_pods}
use rubble.Storage.Memory
use rubble.Storage.Disk
use rubble.Storage.Disk.{Bolt, DiskStorage}
use rubble.Neutron.{
  ApiPort, ApiSubnet, NetworkService, list_port_with_filter, get_subnet, get_network_id,
  get_subnetwork_id,
}
use rubble.Pool.{ObjectFactory, State}
use rubble.Pool.Opening.{Started, Opened}
use rubble.Ipam.Start.{DaemonConfigure}
use rubble.Ipam.Initial.{Addressed, port_ids}
use rubble.Ipam.Opening.{MappedInUse, node_ports, pool_config, new_port_resource_manager-Opened}
use rubble.Daemon.{PodResources, Storage, DaemonState}
use rubble.Daemon.Parts.{disk}
use rubble.Daemon.Start.{
  Complete, entry, holders, get_ports_mapping-holders, get_pods_without_port, keep_recorded,
}
use rubble.Daemon.Server.{
  Machine, default_deamon_config_path, res_db_name, daemon_db_path, local_pods, json_deserializer,
  node_name, get_config_from_path, get_node_info, serve, with_ports, with_pods, with_node,
  new_daemon_server,
}

same_entry : {v w : PodResources} → some v ≡ some w → v ≡ w
same_entry e = cc

-- An entry of a storage whose records are complete names its pod.
lookup-Complete :
    (key : String) (m : List (String × PodResources)) (v : PodResources)
    → Complete (map (λ kv. kv.1) m)
    → lookup key m ≡ some v
    → (info : PodInfo) × (v.pod_info ≡ some info)
unfolding lookup
lookup-Complete key [] v c e = absurd (ground arith)
lookup-Complete key ((k, w) ∷ m) v ((info, port, ports, pod, some_ports), c) e =
    elim (Bool-cases (str_eq k key)) [
      | inl here ↦ (
        info,
        subst (λ (r : PodResources). r.pod_info ≡ some info) (same_entry (rw here at e)) pod,
      )
      | inr other ↦ lookup-Complete key m v c (rw other at e)
    ]

pub keep_recorded-Returns :
    {S : Type 0} (storage : Storage S) (db : S) (pods : List PodInfo) (m : List (String × PodInfo))
    → ((key : String) (v : PodResources)
        → storage.get db key ≡ success v
        → (info : PodInfo) × (v.pod_info ≡ some info))
    → Returns (λ _. Unit {0}) (keep_recorded storage db pods m)
unfolding keep_recorded
keep_recorded-Returns storage db [] m named = returns tt
keep_recorded-Returns storage db (p ∷ pods) m named =
    elim (Result-cases (storage.get db (pod_info_key p))) [
      | inr (e, missing) ↦
          rw (missing, keep_recorded) (keep_recorded-Returns storage db pods m named)
      | inl (v, found) ↦
          let (info, pod) = named (pod_info_key p) v found in
          rw (found, keep_recorded)
            (rw (pod, keep_recorded) (keep_recorded-Returns storage db pods _ named))
    ]

module _ {Client Text W D Data : Type 0} (machine : Machine Client Text) (bolt : Bolt D Data)
    (serializer : PodResources → Result Data) (unmarshal : Data → Result PodResources)
    (factory : ObjectFactory W) (service : NetworkService W) (keep : W → PortResource → W)
    (parse_bool : String → Bool) (to_lower : String → String) where
  abbrev pub storage : Storage (DiskStorage PodResources D)
  storage = disk bolt serializer (json_deserializer unmarshal)

  pub get-named :
      (db : DiskStorage PodResources D)
      → Complete (storage.list db)
      → (key : String) (v : PodResources) → storage.get db key ≡ success v
      → (info : PodInfo) × (v.pod_info ≡ some info)
  unfolding disk Disk.list Memory.list Disk.get Memory.get
  get-named db c key v e = elim (Option-cases (lookup key db.memory.store)) [
    | inl missing ↦ let wrong = rw (missing, Memory.get) at e in absurd (ground arith)
    | inr (found, here) ↦
        let same : success found ≡ success v = rw (here, Memory.get) at e in
        lookup-Complete key db.memory.store v c (here ∙ cc)
  ]

  local_pods-running :
      (k8s : K8s Client) (pods : List Pod)
      → machine.list_pods k8s.client local_pods.labels k8s.node_name ≡ success pods
      → list_local_pods parse_bool to_lower (machine.list_pods k8s.client) k8s.node_name local_pods
        ≡ success (convert_pods parse_bool to_lower pods)
  unfolding list_local_pods
  local_pods-running k8s pods running = rw (running, list_local_pods) refl

  module _ (config : DaemonConfigure) (db : DiskStorage PodResources D) (net_id subnet_id : String)
      (subnet : ApiSubnet) (ports : List ApiPort) (w : W) where
    -- The daemon with this storage and a pool that is ready, in which exactly those of the node's
    -- ports are in use that the storage's records name.
    pub Serves : DaemonState (DiskStorage PodResources D) (State W) → Type 0
    Serves server =
        (server.resource_db ≡ db)
        × (known : List (String × List String)) × ((id : String)
            → lookup id known ≡ entry (holders id (storage.list db)))
        × Started (pool_config factory service keep subnet known net_id subnet_id config ports w)
            (MappedInUse known ports) server.port_manager

    -- What newDaemonServer answers when only a Create can fail.
    pub ServerOpened : Result (DaemonState (DiskStorage PodResources D) (State W)) × W → Type 0
    ServerOpened (success server, _) = Serves server
    ServerOpened (failure e, _) =
        (cause : Error) × (v : W) × (e ≡ wrapped "error init port resource manager" cause)
        × ((factory.create v "").0 ≡ failure cause)

    serve-ServerOpened :
        (known : List (String × List String))
        → ((id : String) → lookup id known ≡ entry (holders id (storage.list db)))
        → (r : Result (State W) × W)
        → Opened factory
            (pool_config factory service keep subnet known net_id subnet_id config ports w)
            (MappedInUse known ports)
            r
        → ServerOpened
            (serve machine bolt serializer unmarshal factory service keep parse_bool to_lower db r)
    unfolding serve ServerOpened Serves
    serve-ServerOpened known maps (success t, v) o = (refl, known, maps, o)
    serve-ServerOpened known maps (failure e, v) (u, made) = (e, u, refl, made)

    module _ (complete : Complete (storage.list db))
        (net : get_network_id service w config.net_id ≡ success net_id)
        (sub : get_subnetwork_id service w config.subnet_id ≡ success subnet_id)
        (found : get_subnet service w subnet_id ≡ success subnet) (addressed : Addressed ports)
        (distinct : Nodup (port_ids ports)) (low : config.min_idle_size ≤ config.max_idle_size)
        (high : config.max_idle_size ≤ config.max_pool_size) where
      with_pods-ServerOpened :
          (k8s : K8s Client) (pods : List Pod)
          → machine.list_pods k8s.client local_pods.labels k8s.node_name ≡ success pods
          → list_port_with_filter service w
              (node_ports factory service keep subnet [] net_id subnet_id config ports w)
            ≡ success ports
          → Returns ServerOpened (
              with_pods machine bolt serializer unmarshal factory service keep parse_bool to_lower
                config k8s db w)
      unfolding with_pods with_ports get_pods_without_port
      with_pods-ServerOpened k8s pods running listed =
          rw (local_pods-running k8s pods running, with_pods)
            (Returns-bind
              (keep_recorded-Returns storage db (convert_pods parse_bool to_lower pods) []
                (get-named db complete))
              λ usage _.
                Returns-bind (get_ports_mapping-holders storage usage db complete) λ known maps.
                  Returns-bind
                    (new_port_resource_manager-Opened factory service keep subnet known net_id
                      subnet_id config ports w net sub found listed addressed distinct low high)
                    λ r o. returns (serve-ServerOpened known maps r o))

      -- When the client, the configuration, the node, the Kubernetes client, the database, the pods
      -- of the node and the ports of the node can be read, every record of the storage names its
      -- pod and a resource, the node's ports have addresses and different ids, and the sizes fit,
      -- newDaemonServer returns. Either it answers the error of a Create, or a daemon with that
      -- storage whose pool is ready, in which those of the node's ports that the storage's records
      -- name are in use and nothing else is.
      pub new_daemon_server-ServerOpened :
          (kube_config : String) (read : DaemonConfigure) (node : NodeInfo) (client : Client)
          (pods : List Pod)
          → machine.new_client ≡ none
          → get_config_from_path machine default_deamon_config_path ≡ success read
          → get_node_info machine ≡ success node
          → config ≡ record read { node_uuid = node.uuid }
          → machine.init_kube_client kube_config ≡ ok (success client)
          → Disk.new_disk_storage bolt serializer
              (json_deserializer unmarshal)
              machine.prepare_dir
              res_db_name
              daemon_db_path
            ≡ success db
          → machine.list_pods client local_pods.labels (node_name node read) ≡ success pods
          → list_port_with_filter service w
              (node_ports factory service keep subnet [] net_id subnet_id config ports w)
            ≡ success ports
          → Returns ServerOpened (
              new_daemon_server machine bolt serializer unmarshal factory service keep parse_bool
                to_lower kube_config w)
      unfolding new_daemon_server with_node new_k8s ServerOpened Serves
      new_daemon_server-ServerOpened kube_config read node client pods made got here same init
            opened running listed =
          rw (made, new_daemon_server)
            (rw (got, new_daemon_server)
              (rw (here, new_daemon_server)
                (rw (init, ◌>>=◌)
                  (rw (opened, with_node)
                    (rw (sym same) (
                      with_pods-ServerOpened
                        (record { client = client; node_name = node_name node read }) pods running
                        listed))))))
