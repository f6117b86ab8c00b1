-- ===== src/Daemon/Lifetime.antt =====
-- The daemon from its start on: newDaemonServer, and then a sequence of requests.
use mathlib.Core.Path.{subst}
use rubble.Prelude.{String, Bool, ◌≡◌, inl, inr, List}
use rubble.Prelude.Run.{
  Run, ok, ◌>>=◌, Result, success, failure, Returns, returns, Returns-bind, Result-cases,
}
use rubble.Resource.{PortResource}
use rubble.Pods.{Pod}
use rubble.Storage.Disk
use rubble.Storage.Disk.{Bolt, DiskStorage}
use rubble.Neutron.{NetworkService}
use rubble.Pool.{ObjectFactory, State}
use rubble.Pool.Supply.{Supply, Running}
use rubble.Ipam.Service.{Listing}
use rubble.Ipam.Readiness.{Inventory}
use rubble.Daemon.{PodResources, Storage, DaemonState}
use rubble.Daemon.Start.{Complete}
use rubble.Daemon.Sessions.{Command, InTime, serve_all, serve_all-Running}
use rubble.Daemon.Server.{
  Machine, res_db_name, daemon_db_path, json_deserializer, new_daemon_server,
}
use rubble.Daemon.Beginning.{Begun, db_storage, new_daemon_server-Begun}

-- A daemon whose pool runs, or an error.
abbrev pub Up :
    {S W : Type 0} → (W → List String → Type 0) → Result (DaemonState S (State W)) → Type 0
Up Live (success server) = Running Live server.port_manager
Up Live (failure e) = Unit {0}

module _ {Client Text W D Data : Type 0} (machine : Machine Client Text) (bolt : Bolt D Data)
    (serializer : PodResources → Result Data) (unmarshal : Data → Result PodResources)
    (factory : ObjectFactory W) (service : NetworkService W) (keep : W → PortResource → W)
    (parse_bool : String → Bool) (to_lower : String → String) where
  abbrev storage_here : Storage (DiskStorage PodResources D)
  storage_here =
      db_storage machine bolt serializer unmarshal factory service keep parse_bool to_lower

  -- newDaemonServer, and the requests that the daemon serves then.
  unfoldable pub lifetime :
      (String → Bool)
      → String
      → String
      → (String → String → Result Pod)
      → String
      → W
      → List Command
      → Run (Result (DaemonState (DiskStorage PodResources D) (State W)))
  lifetime parse_ip net_id subnet_id find_pod kube_config w cs =
      new_daemon_server machine bolt serializer unmarshal factory service keep parse_bool to_lower
        kube_config w
      >>= λ (made, v). elim made [
        | failure e ↦ ok (failure e)
        | success server ↦
            serve_all storage_here factory service parse_ip net_id subnet_id parse_bool to_lower
              find_pod server cs
            >>= λ t. ok (success t)
      ]

  module _ (Live : W → List String → Type 0) (supply : Supply factory Live)
      (listing : Listing service)
      (kept : (w : W) (res : PortResource) (l : List String) → Live w l → Live (keep w res) l)
      (w : W) (inventory : Inventory service Live w) where
    module _ (kube_config : String)
        (client : Returns (λ _. Unit {0}) (machine.init_kube_client kube_config))
        (complete : (db : DiskStorage PodResources D)
          → Disk.new_disk_storage bolt serializer
              (json_deserializer unmarshal)
              machine.prepare_dir
              res_db_name
              daemon_db_path
            ≡ success db
          → Complete (storage_here.list db)) where
      -- When the calls of the factory return, the ids of the resources that it makes are new, the
      -- ports that Neutron lists have addresses, those that it lists at the start have different
      -- ids, which the world knows and still knows after the factory has noted a port, the set-up
      -- of the Kubernetes client ends, and every record of a database that is opened names its pod
      -- and a resource: newDaemonServer returns, with an error or with a daemon that then goes
      -- through every sequence of AllocateIPs and ReleaseIPs of any pods whose waits end, and of
      -- rounds of the ticker, one after the other, where a round that would come upon a surplus of
      -- idle resources is left out; none of them panics or waits for ever, and the pool is sound at
      -- the end, with no more tokens than its capacity.
      pub lifetime-Up :
          (parse_ip : String → Bool) (net_id subnet_id : String)
          (find_pod : String → String → Result Pod) (cs : List Command)
          → InTime cs
          → Returns (Up Live) (lifetime parse_ip net_id subnet_id find_pod kube_config w cs)
      unfolding lifetime
      lifetime-Up parse_ip net_id subnet_id find_pod cs timely =
          Returns-bind
            (new_daemon_server-Begun machine bolt serializer unmarshal factory service keep
              parse_bool to_lower Live supply listing kept w inventory kube_config client complete
              (λ _. Unit {0}) (λ db node known m _ _ _ _. tt))
            λ (made, v) up. elim (Result-cases made) [
              | inr (e, failed) ↦ rw (failed, lifetime) (returns tt)
              | inl (server, started) ↦
                  rw (started, lifetime)
                    (Returns-bind
                      (serve_all-Running storage_here factory service parse_ip net_id subnet_id
                        parse_bool to_lower find_pod Live supply listing server cs
                        (subst (Begun Live (λ _. Unit {0})) started up).0 timely)
                      λ t running. returns running)
            ]
