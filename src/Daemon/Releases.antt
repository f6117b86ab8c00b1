-- ===== src/Daemon/Releases.antt =====
-- ReleaseIP for a pod whose address sticks to it.
use rubble.Prelude.{
  String, Bool, false, ◌≡◌, refl, ap, ◌∙◌, Option, none, some, List, [], ◌∷◌, eq_refl,
}
use rubble.Prelude.Run.{Run, ok, ◌>>=◌, Error, invalid_state, Result, success, Returns-elim}
use rubble.Prelude.Assoc.{lookup, lookup-delete}
use rubble.Resource.{NetworkResource}
use rubble.Pods.{PodInfo, Pod, pod_info_key}
use rubble.Queue.{PoolItem}
use rubble.Neutron.{NetworkService}
use rubble.Pool.{ObjectFactory, State, SimpleObjectPool, release_with_reverse, reverse_to}
use rubble.Pool.Invariant.{IsSound, IsSound-IsMap}
use rubble.Pool.Returning.{Returned, release-Returned, release-unknown}
use rubble.Ipam.{manager_release}
use rubble.Daemon.{
  ResourceItem, PodResources, Storage, ResourceManager, DaemonState, Request, get_pod,
  get_pod_resource, release_all, is_zero, forget_record, forget_pod, release_ip,
}
use rubble.Daemon.Parts.{ports}

module _ {S W : Type 0} (storage : Storage S) (factory : ObjectFactory W)
    (service : NetworkService W) (parse_ip : String → Bool) (net_id subnet_id : String)
    (parse_bool : String → Bool) (to_lower : String → String)
    (find_pod : String → String → Result Pod) where
  abbrev manager : ResourceManager (State W)
  manager = ports factory service parse_ip net_id subnet_id

  abbrev pub release_of :
      DaemonState S (State W) → Request → Run (Option Error × DaemonState S (State W))
  release_of =
      release_ip storage (ports factory service parse_ip net_id subnet_id) parse_bool to_lower
        find_pod

  forget_pod-sticky :
      (db : S) (r : Request) (info : PodInfo) (m : State W)
      → is_zero info.ip_stick_time ≡ false
      → r.ctx_err ≡ none
      → forget_pod storage manager parse_bool to_lower find_pod db r info (none, m)
        ≡ (none, record { resource_db = db; port_manager = m })
  unfolding forget_pod forget_record
  forget_pod-sticky db r info m sticks alive =
      rw (sticks, forget_record, forget_pod)
        (rw (alive, forget_pod) (rw (sticks, forget_record) refl))

  -- The answer of ReleaseIP for a pod that keeps its record, from that of the manager.
  pub release_ip-sticky :
      (s : DaemonState S (State W)) (r : Request) (info : PodInfo) (pod : Pod) (old : PodResources)
      (item : ResourceItem) (err : Option Error) (p : SimpleObjectPool)
      → get_pod storage manager parse_bool to_lower find_pod r.namespace r.name
        ≡ success (info, pod)
      → get_pod_resource storage manager parse_bool to_lower find_pod s.resource_db
          (pod_info_key info)
        ≡ success old
      → old.resources ≡ item ∷ []
      → is_zero info.ip_stick_time ≡ false
      → r.ctx_err ≡ none
      → release_with_reverse
          (factory.now s.port_manager.world)
          s.port_manager.pool
          item.id
          info.ip_stick_time
        ≡ ok (err, p)
      → release_of s r ≡ ok (err, record s { port_manager = record s.port_manager { pool = p } })
  unfolding release_ip release_all ports manager_release forget_pod
  release_ip-sticky s r info pod old item none p got found one sticks alive run =
      rw (got, release_ip)
        (rw (found, release_ip)
          (rw (one, release_all)
            (rw (run, ◌>>=◌)
              (ap (λ a. ok a) (forget_pod-sticky s.resource_db r info _ sticks alive)))))
  release_ip-sticky s r info pod old item (some e) p got found one sticks alive run =
      rw (got, release_ip) (rw (found, release_ip) (rw (one, release_all) (rw (run, ◌>>=◌) refl)))

  -- The first ReleaseIP for a pod whose address sticks to it succeeds and keeps the record of the
  -- pod; the second one, which Kubernetes may send, finds the record and fails.
  pub release_ip-again :
      (s : DaemonState S (State W)) (r : Request) (info : PodInfo) (pod : Pod) (old : PodResources)
      (item : ResourceItem) (res : NetworkResource) (xs : List PoolItem)
      → get_pod storage manager parse_bool to_lower find_pod r.namespace r.name
        ≡ success (info, pod)
      → get_pod_resource storage manager parse_bool to_lower find_pod s.resource_db
          (pod_info_key info)
        ≡ success old
      → old.resources ≡ item ∷ []
      → is_zero info.ip_stick_time ≡ false
      → r.ctx_err ≡ none
      → IsSound xs s.port_manager.pool
      → lookup item.id s.port_manager.pool.inuse ≡ some res
      → (t : DaemonState S (State W)) × (release_of s r ≡ ok (none, t))
        × Returned xs s.port_manager.pool item.id
            (reverse_to (factory.now s.port_manager.world) info.ip_stick_time)
            t.port_manager.pool
        × (release_of t r ≡ ok (some invalid_state, t))
  release_ip-again s r info pod old item res xs got found one sticks alive sound lent =
      let now = factory.now s.port_manager.world in
      let (a, run, (fine, back)) =
        Returns-elim
          (release-Returned now s.port_manager.pool xs item.id info.ip_stick_time res sound lent) in
      let t = record s { port_manager = record s.port_manager { pool = a.1 } } in
      let gone =
        ap (lookup item.id) back.removed
        ∙ lookup-delete item.id item.id s.port_manager.pool.inuse (IsSound-IsMap sound)
        ∙ rw (eq_refl item.id) refl in
      (
        t,
        release_ip-sticky s r info pod old item none a.1 got found one sticks alive
            (run ∙ ap (λ (e : Option Error). ok (e, a.1)) fine),
        back,
        release_ip-sticky t r info pod old item (some invalid_state) a.1 got found one sticks alive
            (release-unknown now a.1 back.items item.id info.ip_stick_time back.sound gone),
      )
