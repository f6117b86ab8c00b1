-- ===== src/Daemon/Beginning.antt =====
-- newDaemonServer: the pool of the daemon that it starts runs.
use rubble.Prelude.{String, Bool, ◌≡◌, inl, inr, List, [], Option-cases}
use rubble.Prelude.Run.{Run, Result, success, failure, Returns, returns, Returns-bind, Result-cases}
use rubble.Resource.{PortResource, NetworkResource}
use rubble.Utils.{NodeInfo}
use rubble.Prelude.Assoc.{lookup}
use rubble.Pods.{K8s, new_k8s, list_local_pods}
use rubble.Storage.Disk
use rubble.Storage.Disk.{Bolt, DiskStorage}
use rubble.Neutron.{NetworkService}
use rubble.Pool.{ObjectFactory, State}
use rubble.Pool.Supply.{Supply, Running}
use rubble.Pool.Launch.{Launched}
use rubble.Ipam.Service.{Listing}
use rubble.Ipam.Start.{DaemonConfigure}
use rubble.Ipam.Readiness.{Inventory, Taken, new_port_resource_manager-Launched}
use rubble.Daemon.{PodResources, Storage, DaemonState}
use rubble.Daemon.Start.{Complete, entry, holders, get_ports_mapping-holders, get_pods_without_port}
use rubble.Daemon.Opening.{storage, get-named, keep_recorded-Returns}
use rubble.Daemon.Server.{
  Machine, default_deamon_config_path, res_db_name, daemon_db_path, local_pods, json_deserializer,
  node_name, get_config_from_path, get_node_info, serve, with_ports, with_pods, with_node,
  new_daemon_server,
}

-- A daemon that was started, whose pool runs and of whose resources in use `Q` holds, or the error
-- with which the start ended.
abbrev pub Begun :
    {S W : Type 0}
    → (W → List String → Type 0)
    → (List (String × NetworkResource) → Type 0)
    → Result (DaemonState S (State W))
    → Type 0
Begun Live Q (success server) = Running Live server.port_manager × Q server.port_manager.pool.inuse
Begun Live Q (failure e) = Unit {0}

new_k8s-Returns :
    {Client : Type 0} (init : String → Run (Result Client)) (conf node_name : String)
    → Returns (λ _. Unit {0}) (init conf)
    → Returns (λ _. Unit {0}) (new_k8s init conf node_name)
unfolding new_k8s
new_k8s-Returns init conf node_name client = Returns-bind client λ made _.
    elim (Result-cases made) [
      | inr (e, failed) ↦ rw (failed, new_k8s) (returns tt)
      | inl (client, reached) ↦ rw (reached, new_k8s) (returns tt)
    ]

module _ {Client Text W D Data : Type 0} (machine : Machine Client Text) (bolt : Bolt D Data)
    (serializer : PodResources → Result Data) (unmarshal : Data → Result PodResources)
    (factory : ObjectFactory W) (service : NetworkService W) (keep : W → PortResource → W)
    (parse_bool : String → Bool) (to_lower : String → String) where
  abbrev pub db_storage : Storage (DiskStorage PodResources D)
  db_storage = storage machine bolt serializer unmarshal factory service keep parse_bool to_lower

  module _ (Live : W → List String → Type 0) (supply : Supply factory Live)
      (listing : Listing service)
      (kept : (w : W) (res : PortResource) (l : List String) → Live w l → Live (keep w res) l)
      (w : W) (inventory : Inventory service Live w) where
    -- The storage is read to the ports that pods are known to have.
    abbrev pub Known : DiskStorage PodResources D → List (String × List String) → Type 0
    Known db known = (id : String) → lookup id known ≡ entry (holders id (db_storage.list db))

    serve-Begun :
        (Q : List (String × NetworkResource) → Type 0) (db : DiskStorage PodResources D)
        (P : List (String × NetworkResource) → Type 0) (r : Result (State W) × W)
        → ((m : List (String × NetworkResource)) → P m → Q m)
        → Launched Live P r.0
        → Begun Live Q
            (serve machine bolt serializer unmarshal factory service keep parse_bool to_lower db
              r).0
    unfolding serve
    serve-Begun Q db P (success t, v) enough (running, p) = (running, enough _ p)
    serve-Begun Q db P (failure e, v) enough up = tt

    with_pods-Begun :
        (Q : List (String × NetworkResource) → Type 0) (config : DaemonConfigure) (k8s : K8s Client)
        (db : DiskStorage PodResources D)
        → Complete (db_storage.list db)
        → ((known : List (String × List String)) (m : List (String × NetworkResource))
            → Known db known
            → Taken service w known config.node_uuid m
            → Q m)
        → Returns
            (λ a. Begun Live Q a.0)
            (with_pods machine bolt serializer unmarshal factory service keep parse_bool to_lower
              config k8s db w)
    unfolding with_pods with_ports get_pods_without_port
    with_pods-Begun Q config k8s db complete enough =
        elim (Result-cases (
          list_local_pods parse_bool to_lower (machine.list_pods k8s.client) k8s.node_name
            local_pods)) [
              | inr (e, failed) ↦ rw (failed, with_pods) (returns tt)
              | inl (pods, running) ↦
                  rw (running, with_pods)
                    (Returns-bind
                      (keep_recorded-Returns db_storage db pods [] (
                        get-named machine bolt serializer unmarshal factory service keep parse_bool
                          to_lower db complete))
                      λ usage _.
                        Returns-bind (get_ports_mapping-holders db_storage usage db complete)
                          λ known maps.
                            Returns-bind
                              (new_port_resource_manager-Launched factory Live supply service keep
                                kept w listing inventory config known)
                              λ r o. returns (serve-Begun Q db _ r (λ m. enough known m maps) o))
            ]

    module _ (kube_config : String)
        (client : Returns (λ _. Unit {0}) (machine.init_kube_client kube_config))
        (complete : (db : DiskStorage PodResources D)
          → Disk.new_disk_storage bolt serializer
              (json_deserializer unmarshal)
              machine.prepare_dir
              res_db_name
              daemon_db_path
            ≡ success db
          → Complete (db_storage.list db)) where
      module _ (Q : List (String × NetworkResource) → Type 0) where
        with_node-Begun :
            (config : DaemonConfigure) (name : String)
            → ((db : DiskStorage PodResources D) (known : List (String × List String))
                  (m : List (String × NetworkResource))
                → Disk.new_disk_storage bolt serializer
                    (json_deserializer unmarshal)
                    machine.prepare_dir
                    res_db_name
                    daemon_db_path
                  ≡ success db
                → Known db known
                → Taken service w known config.node_uuid m
                → Q m)
            → Returns
                (λ a. Begun Live Q a.0)
                (with_node machine bolt serializer unmarshal factory service keep parse_bool
                  to_lower kube_config config name w)
        unfolding with_node new_k8s
        with_node-Begun config name enough =
            Returns-bind (new_k8s-Returns machine.init_kube_client kube_config name client)
              λ made _. elim (Result-cases made) [
                | inr (e, failed) ↦ rw (failed, with_node) (returns tt)
                | inl (k8s, reached) ↦
                    rw (reached, with_node)
                      (elim (Result-cases (
                        Disk.new_disk_storage bolt serializer (json_deserializer unmarshal)
                          machine.prepare_dir res_db_name daemon_db_path)) [
                            | inr (e, failed) ↦ rw (failed, with_node) (returns tt)
                            | inl (db, opened) ↦
                                rw (opened, with_node)
                                  (with_pods-Begun Q config k8s db (complete db opened)
                                    (λ known m. enough db known m opened))
                          ])
              ]

        pub new_daemon_server-Begun :
            ((db : DiskStorage PodResources D) (node : NodeInfo)
                (known : List (String × List String)) (m : List (String × NetworkResource))
              → Disk.new_disk_storage bolt serializer
                  (json_deserializer unmarshal)
                  machine.prepare_dir
                  res_db_name
                  daemon_db_path
                ≡ success db
              → get_node_info machine ≡ success node
              → Known db known
              → Taken service w known node.uuid m
              → Q m)
            → Returns
                (λ a. Begun Live Q a.0)
                (new_daemon_server machine bolt serializer unmarshal factory service keep parse_bool
                  to_lower kube_config w)
        unfolding new_daemon_server
        new_daemon_server-Begun enough = elim (Option-cases machine.new_client) [
          | inr (e, failed) ↦ rw (failed, new_daemon_server) (returns tt)
          | inl made ↦
              rw (made, new_daemon_server)
                (elim (Result-cases (get_config_from_path machine default_deamon_config_path)) [
                  | inr (e, failed) ↦ rw (failed, new_daemon_server) (returns tt)
                  | inl (config, got) ↦
                      rw (got, new_daemon_server)
                        (elim (Result-cases (get_node_info machine)) [
                          | inr (e, failed) ↦ rw (failed, new_daemon_server) (returns tt)
                          | inl (node, here) ↦
                              rw (here, new_daemon_server)
                                (with_node-Begun (record config { node_uuid = node.uuid })
                                  (node_name node config)
                                  (λ db known m opened. enough db node known m opened here))
                        ])
                ])
        ]
