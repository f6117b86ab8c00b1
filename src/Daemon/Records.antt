-- ===== src/Daemon/Records.antt =====
-- What AllocateIP records of a pod, and what ReleaseIP finds.
use mathlib.Core.Path.{subst}
use rubble.Prelude.{
  String, Bool, false, ◌≡◌, refl, sym, inl, inr, none, some, [], ◌∷◌, str_eq, eq_refl, Option-cases,
  if◌then◌else◌,
}
use rubble.Prelude.Run.{ok, ◌>>=◌, Result, success, Result-cases, Returns, returns}
use rubble.Resource.{PortResource, get_resource_id, get_type}
use rubble.Pods.{PodInfo, Pod, pod_info_key}
use rubble.Ipam.{net_conf_from_port}
use rubble.Daemon.{
  PodResources, Storage, ResourceManager, DaemonState, Request, get_resource_item_by_type,
  or_no_resources, only_id, old_res_id, get_pod, get_pod_resource, allocate_port_ip, record_port,
  record_allocated, allocate_ip,
}

-- What the daemon relies on of its storage, in the states that are valid.
pub record StorageLaws {S : Type 0} (storage : Storage S) (Valid : S → Type 0) : Type 0 where
  pub put_done :
      (s : S) (key : String) (value : PodResources)
      → Valid s
      → (storage.put s key value).0 ≡ none
      → (j : String)
      → storage.get (storage.put s key value).1 j
        ≡ (if str_eq key j then success value else storage.get s j)

module _ {S M : Type 0} (storage : Storage S) (Valid : S → Type 0)
    (laws : StorageLaws storage Valid) (manager : ResourceManager M) (parse_bool : String → Bool)
    (to_lower : String → String) (find_pod : String → String → Result Pod) where
  -- The record of a pod with the port.
  abbrev pub record_of : PodInfo → PortResource → PodResources
  record_of info port = record {
    pod_info = some info;
    resources = record { id = get_resource_id port; type = get_type port } ∷ [];
  }

  -- The storage holds the pod's port, so that the pod's next request will ask for it.
  pub record Recorded (s : DaemonState S M) (info : PodInfo) (port : PortResource) (m : M)
      (t : DaemonState S M) : Type 0 where
    pub manager_state : t.port_manager ≡ m
    pub stored :
        get_pod_resource storage manager parse_bool to_lower find_pod t.resource_db
          (pod_info_key info)
        ≡ success (record_of info port)
    pub asks_again : old_res_id (record_of info port) ≡ get_resource_id port
    pub others :
        (key : String)
        → str_eq (pod_info_key info) key ≡ false
        → storage.get t.resource_db key ≡ storage.get s.resource_db key

  -- Once the record is written, it stays, whatever the reply.
  record_port-state :
      (s : DaemonState S M) (r : Request) (info : PodInfo) (port : PortResource)
      → (storage.put s.resource_db (pod_info_key info) (record_of info port)).0 ≡ none
      → (record_port storage manager parse_bool to_lower find_pod s r info port).1 ≡ record s {
        resource_db = (storage.put s.resource_db (pod_info_key info) (record_of info port)).1;
      }
  unfolding record_port
  record_port-state s r info port done =
      rw (done, record_port)
        (elim (Result-cases (net_conf_from_port port)) [
          | inr (e, bad) ↦ rw (bad, record_port) refl
          | inl (conf, good) ↦
              rw (good, record_port)
                (elim (Option-cases r.ctx_err) [
                  | inl alive ↦ rw (alive, record_port) refl
                  | inr (e, closed) ↦ rw (closed, record_port) refl
                ])
        ])

  record_port-Recorded :
      (s : DaemonState S M) (r : Request) (info : PodInfo) (port : PortResource)
      → Valid s.resource_db
      → (storage.put s.resource_db (pod_info_key info) (record_of info port)).0 ≡ none
      → Recorded s info port s.port_manager
          (record_port storage manager parse_bool to_lower find_pod s r info port).1
  unfolding get_pod_resource or_no_resources old_res_id get_resource_item_by_type only_id
  record_port-Recorded s r info port valid done =
      let key = pod_info_key info in
      let read = laws.put_done s.resource_db key (record_of info port) valid done in
      subst (Recorded s info port s.port_manager) (sym (record_port-state s r info port done))
        (record {
          manager_state = refl;
          stored = rw (read key, eq_refl key) refl;
          asks_again = refl;
          others = λ j other. rw (read j, other) refl;
        })

  -- If a port was allocated and its record could be written, AllocateIP returns; whether or not
  -- the reply is an error, the record of the pod holds the port, and those of other pods stay.
  pub allocate_ip-Recorded :
      (s : DaemonState S M) (r : Request) (info : PodInfo) (pod : Pod) (old : PodResources)
      (port : PortResource) (m : M)
      → Valid s.resource_db
      → get_pod storage manager parse_bool to_lower find_pod r.namespace r.name
        ≡ success (info, pod)
      → get_pod_resource storage manager parse_bool to_lower find_pod s.resource_db
          (pod_info_key info)
        ≡ success old
      → manager.allocate s.port_manager
          (record { context = r.context; pod_info = some info; pod = pod })
          (old_res_id old)
        ≡ ok (success port, m)
      → (storage.put s.resource_db (pod_info_key info) (record_of info port)).0 ≡ none
      → Returns
          (λ a. Recorded s info port m a.1)
          (allocate_ip storage manager parse_bool to_lower find_pod s r)
  unfolding allocate_ip allocate_port_ip record_allocated
  allocate_ip-Recorded s r info pod old port m valid got found allocated done =
      rw (got, allocate_ip)
        (rw (found, allocate_ip)
          (rw (allocated, ◌>>=◌)
            (returns (
              let w = record_port-Recorded (record s { port_manager = m }) r info port valid done in
              record {
                manager_state = w.manager_state;
                stored = w.stored;
                asks_again = w.asks_again;
                others = w.others;
              }))))
