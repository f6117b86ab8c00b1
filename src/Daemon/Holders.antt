-- ===== src/Daemon/Holders.antt =====
-- After a restart of the daemon: the ports that its records name stay with their pods.
use mathlib.Core.Bool.{false≢true}
use mathlib.Core.List.{
  Nodup, Nodup-append, mem-append, mem-cons_self, mem-cons_of_mem, mem_of_ne_of_mem,
}
use mathlib.Core.List.Perm
use mathlib.Core.Logic.Or
use mathlib.Core.Path.{subst}
use rubble.Prelude.{
  String, Bool, ◌≡◌, sym, ap, ◌∙◌, inl, inr, some, List, [], ◌∷◌, Mem, Bool-cases, Option-cases,
  str_eq, eq_iff,
}
use rubble.Prelude.Assoc.{lookup, keys}
use rubble.Prelude.Run.{
  Run, ok, ◌>>=◌, Result, success, failure, Returns, returns, Returns-bind, Result-cases,
}
use rubble.Resource.{PortResource, NetworkResource}
use rubble.Utils.{NodeInfo}
use rubble.Pods.{Pod}
use rubble.Storage.Disk
use rubble.Storage.Disk.{Bolt, DiskStorage}
use rubble.Neutron.{ApiPort, NetworkService, list_port_with_filter}
use rubble.Pool.{ObjectFactory, State}
use rubble.Pool.Supply.{Supply}
use rubble.Ipam.{NetConf}
use rubble.Ipam.Initial.{port_ids, mapped_ids}
use rubble.Ipam.Service.{Listing}
use rubble.Ipam.Readiness.{Inventory, Taken, node_filter}
use rubble.Daemon.{PodResources, Storage, DaemonState, Request}
use rubble.Daemon.Start.{Complete, entry, holders}
use rubble.Daemon.Sessions.{Grants, AllInTime, allocate_all, allocate_all-Apart}
use rubble.Daemon.Server.{
  Machine, res_db_name, daemon_db_path, json_deserializer, get_node_info, new_daemon_server,
}
use rubble.Daemon.Beginning.{Begun, db_storage, new_daemon_server-Begun}

mapped_ids-Mem :
    (known : List (String × List String)) (id : String) (pods : List String) (ports : List ApiPort)
    → lookup id known ≡ some pods
    → Mem id (port_ids ports)
    → Mem id (mapped_ids known ports)
mapped_ids-Mem known id pods [] found m = m
mapped_ids-Mem known id pods (p ∷ ports) found m = elim (Bool-cases (str_eq id p.id)) [
  | inl e ↦
      let same = (eq_iff id p.id).0 e in
      let here : lookup p.id known ≡ some pods =
        subst (λ j. lookup j known ≡ some pods) same found in
      rw (here, mapped_ids)
        (subst (λ j. Mem j (p.id ∷ mapped_ids known ports)) (sym same) mem-cons_self)
  | inr e ↦
      let later =
        mapped_ids-Mem known id pods ports found
          (mem_of_ne_of_mem (λ same. false≢true (sym e ∙ (eq_iff id p.id).1 same)) m) in
      elim (Option-cases (lookup p.id known)) [
        | inl unknown ↦ rw (unknown, mapped_ids) later
        | inr (others, is_known) ↦ rw (is_known, mapped_ids) (mem-cons_of_mem p.id later)
      ]
]

-- Every reply without error has the address, CIDR, gateway and MAC of a port in use that was taken
-- for it alone and is not the one with this id, which stays in use.
abbrev pub Spared :
    {S W : Type 0}
    → String
    → Result (List (Result (List NetConf)) × DaemonState S (State W))
    → Type 0
Spared id (failure e) = Unit {0}
Spared id (success (replies, t)) =
    (ids : List String) × Grants t.port_manager.pool.inuse replies ids
    × Nodup ids
    × (¬ Mem id ids)
    × Mem id (keys t.port_manager.pool.inuse)

module _ {Client Text W D Data : Type 0} (machine : Machine Client Text) (bolt : Bolt D Data)
    (serializer : PodResources → Result Data) (unmarshal : Data → Result PodResources)
    (factory : ObjectFactory W) (service : NetworkService W) (keep : W → PortResource → W)
    (parse_bool : String → Bool) (to_lower : String → String) where
  abbrev disk_storage : Storage (DiskStorage PodResources D)
  disk_storage =
      db_storage machine bolt serializer unmarshal factory service keep parse_bool to_lower

  -- What the storage lists.
  abbrev pub records : DiskStorage PodResources D → List PodResources
  records db = disk_storage.list db

  -- newDaemonServer, and then AllocateIPs.
  unfoldable pub reopened :
      (String → Bool)
      → String
      → String
      → (String → String → Result Pod)
      → String
      → W
      → List Request
      → Run (
          Result
            (List (Result (List NetConf)) × DaemonState (DiskStorage PodResources D) (State W)))
  reopened parse_ip net_id subnet_id find_pod kube_config w rs =
      new_daemon_server machine bolt serializer unmarshal factory service keep parse_bool to_lower
        kube_config w
      >>= λ (made, v). elim made [
        | failure e ↦ ok (failure e)
        | success server ↦
            allocate_all disk_storage factory service parse_ip net_id subnet_id parse_bool to_lower
              find_pod server rs
            >>= λ a. ok (success a)
      ]

  module _ (Live : W → List String → Type 0) (supply : Supply factory Live)
      (listing : Listing service)
      (kept : (w : W) (res : PortResource) (l : List String) → Live w l → Live (keep w res) l)
      (w : W) (inventory : Inventory service Live w) (kube_config : String)
      (client : Returns (λ _. Unit {0}) (machine.init_kube_client kube_config))
      (complete : (db : DiskStorage PodResources D)
        → Disk.new_disk_storage bolt serializer
            (json_deserializer unmarshal)
            machine.prepare_dir
            res_db_name
            daemon_db_path
          ≡ success db
        → Complete (records db))
      (id holder : String)
      (recorded : (db : DiskStorage PodResources D)
        → Disk.new_disk_storage bolt serializer
            (json_deserializer unmarshal)
            machine.prepare_dir
            res_db_name
            daemon_db_path
          ≡ success db
        → (others : List String) × (holders id (records db) ≡ holder ∷ others))
      (listed : (node : NodeInfo) (net_id : String) (ports : List ApiPort)
        → get_node_info machine ≡ success node
        → list_port_with_filter service w (node_filter net_id node.uuid) ≡ success ports
        → Mem id (port_ids ports)) where
    taken-Mem :
        (db : DiskStorage PodResources D) (node : NodeInfo) (known : List (String × List String))
        (m : List (String × NetworkResource))
        → Disk.new_disk_storage bolt serializer
            (json_deserializer unmarshal)
            machine.prepare_dir
            res_db_name
            daemon_db_path
          ≡ success db
        → get_node_info machine ≡ success node
        → ((j : String) → lookup j known ≡ entry (holders j (records db)))
        → Taken service w known node.uuid m
        → Mem id (keys m)
    taken-Mem db node known m opened here maps (net_id, ports, all, in_use) =
        let (others, held) = recorded db opened in
        (Perm.mem_iff (Perm.symm in_use)).0 (
          mapped_ids-Mem known id (holder ∷ others) ports (maps id ∙ ap entry held)
            (listed node net_id ports here all))

    -- While the ticker makes no round and the calls of the factory return, when the ids of the
    -- resources that the factory makes are new, the ports that Neutron lists have addresses, those
    -- that it lists at the start have different ids, which the world knows and still knows after
    -- the factory has noted a port, the set-up of the Kubernetes client ends, every record of a
    -- database that is opened names its pod and a resource, the records say that a pod holds the
    -- port with a certain id, and every list of the node's ports that Neutron answers at the start
    -- has this id: newDaemonServer returns, with an error or with a daemon in which each reply
    -- without error to a sequence of AllocateIPs, of any pods and with waits that end, has the
    -- address, CIDR, gateway and MAC of a port in use that was taken for this reply alone and whose
    -- id is another one; the port with this id stays in use.
    pub reopened-Spared :
        (parse_ip : String → Bool) (net_id subnet_id : String)
        (find_pod : String → String → Result Pod) (rs : List Request)
        → AllInTime rs
        → Returns (Spared id) (reopened parse_ip net_id subnet_id find_pod kube_config w rs)
    unfolding reopened
    reopened-Spared parse_ip net_id subnet_id find_pod rs timely =
        Returns-bind
          (new_daemon_server-Begun machine bolt serializer unmarshal factory service keep parse_bool
            to_lower Live supply listing kept w inventory kube_config client complete
            (λ m. Mem id (keys m)) taken-Mem)
          λ (made, v) begun. elim (Result-cases made) [
            | inr (e, failed) ↦ rw (failed, reopened) (returns tt)
            | inl (server, started) ↦
                let (running, held) = subst (Begun Live (λ m. Mem id (keys m))) started begun in
                rw (started, reopened)
                  (Returns-bind
                    (allocate_all-Apart disk_storage factory service parse_ip net_id subnet_id
                      parse_bool to_lower find_pod Live supply listing server rs running timely)
                    λ a apart. returns (
                      apart.ids,
                      apart.grants,
                      (Nodup-append.0 apart.distinct).0,
                      λ there. (Nodup-append.0 apart.distinct).2 id there held,
                      (Perm.mem_iff (Perm.symm apart.in_use)).0 (mem-append.1 (Or.inr held)),
                    ))
          ]
