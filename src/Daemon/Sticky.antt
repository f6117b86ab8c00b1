-- ===== src/Daemon/Sticky.antt =====
-- The next AllocateIP of a pod whose address sticks to it, after its ReleaseIP.
use mathlib.Core.List.{mem-cons_self}
use mathlib.Core.List.Perm
use mathlib.Core.Path.{subst}
use rubble.Prelude.{
  String, Bool, false, ◌≡◌, ◌≢◌, refl, sym, ap, ◌∙◌, Option, none, some, List, [], ◌∷◌, Mem, arith,
  eq_iff,
}
use rubble.Prelude.Assoc.{lookup, lookup-insert}
use rubble.Prelude.Run.{
  ok, ◌>>=◌, Error, Result, success, Returns, returns, Returns-bind, Returns-elim,
}
use rubble.Resource.{PortResource, NetworkResource, get_resource_id}
use rubble.Pods.{PodInfo, Pod, pod_info_key}
use rubble.Queue.{PoolItem}
use rubble.Queue.Layout.{item_at}
use rubble.Neutron.{NetworkService}
use rubble.Pool.{ObjectFactory, State, Context, acquire}
use rubble.Pool.Invariant.{IsSound, ids, lookup-Keyed}
use rubble.Pool.Lending.{acquire_locked-Lent}
use rubble.Pool.Returning.{release-Returned}
use rubble.Daemon.Releases.{release_ip-sticky}
use rubble.Ipam.{NetConf, allocate, require_static_ip}
use rubble.Ipam.Static.{place}
use rubble.Daemon.{
  ResourceItem, PodResources, Storage, ResourceManager, DaemonState, Request, get_pod,
  get_pod_resource, allocate_port_ip, old_res_id, record_allocated, allocate_ip, release_ip,
  is_zero,
}
use rubble.Daemon.Parts.{ports}
use rubble.Daemon.Service.{Describes, record_port-Describes}

-- An answer that lends the resource with this id.
pub record Again {W : Type 0} (s : State W) (id : String) (r : Result NetworkResource × State W)
    : Type 0 where
  pub res : NetworkResource
  pub answer : r.0 ≡ success res
  pub same_id : get_resource_id res ≡ id
  pub in_use : lookup id r.1.pool.inuse ≡ some res
  pub same_tokens : r.1.pool.tokens ≡ s.pool.tokens
  pub same_world : r.1.world ≡ s.world

module _ {W : Type 0} (factory : ObjectFactory W) where
  -- Acquire of an idle id.
  pub acquire-Again :
      (s : State W) (xs : List PoolItem) (ctx : Context) (id : String)
      → IsSound xs s.pool
      → id ≢ ""
      → Mem id (ids xs)
      → Returns (Again s id) (acquire factory s ctx id)
  unfolding acquire
  acquire-Again s xs ctx id sound named waiting =
      let (j, inside, hit) = place s.pool xs id sound.usable waiting in
      Returns-bind (acquire_locked-Lent s.pool xs id sound (omega arith)) λ r (i, got, lent, best).
        let same = best named j inside hit in
        rw (got, ◌>>=◌)
          (returns (record {
            res = (item_at xs i).res;
            answer = refl;
            same_id = same;
            in_use =
                ap (lookup id) lent.lent
                ∙ lookup-insert _ id _ s.pool.inuse
                ∙ rw ((eq_iff _ id).1 same) refl;
            same_tokens = lent.tokens;
            same_world = refl;
          }))

-- The answer of an AllocateIP that gives the pod the port with this id.
abbrev pub SamePort :
    {S W : Type 0} → String → Result (List NetConf) × DaemonState S (State W) → Type 0
SamePort id a =
    (port : PortResource) × (get_resource_id port ≡ id)
    × Describes port a.0
    × (lookup id a.1.port_manager.pool.inuse ≡ some port)

module _ {S W : Type 0} (storage : Storage S) (factory : ObjectFactory W)
    (service : NetworkService W) (parse_ip : String → Bool) (net_id subnet_id : String)
    (parse_bool : String → Bool) (to_lower : String → String)
    (find_pod : String → String → Result Pod) where
  abbrev manager : ResourceManager (State W)
  manager = ports factory service parse_ip net_id subnet_id

  allocate_ip-SamePort :
      (s : DaemonState S (State W)) (xs : List PoolItem) (r : Request) (info : PodInfo) (pod : Pod)
      (old : PodResources)
      → get_pod storage manager parse_bool to_lower find_pod r.namespace r.name
        ≡ success (info, pod)
      → get_pod_resource storage manager parse_bool to_lower find_pod s.resource_db
          (pod_info_key info)
        ≡ success old
      → require_static_ip (record { context = r.context; pod_info = some info; pod = pod }) ≡ false
      → old_res_id old ≢ ""
      → IsSound xs s.port_manager.pool
      → Mem (old_res_id old) (ids xs)
      → Returns
          (SamePort (old_res_id old))
          (allocate_ip storage manager parse_bool to_lower find_pod s r)
  unfolding allocate_ip allocate_port_ip ports allocate record_allocated
  allocate_ip-SamePort s xs r info pod old got found dynamic named sound waiting =
      rw (got, allocate_ip)
        (rw (found, allocate_ip)
          (rw (dynamic, allocate)
            (Returns-bind
              (acquire-Again factory s.port_manager xs r.context (old_res_id old) sound named
                waiting)
              λ a w.
                let (same, described) =
                  record_port-Describes storage factory service parse_ip net_id subnet_id parse_bool
                    to_lower find_pod (record { resource_db = s.resource_db; port_manager = a.1 }) r
                    info w.res in
                rw (w.answer, record_allocated)
                  (returns (
                    w.res,
                    w.same_id,
                    described,
                    ap (λ (t : State W). lookup (old_res_id old) t.pool.inuse) same ∙ w.in_use,
                  )))))

  -- For a pod whose address sticks to it, whose record names one port that a sound pool has in use:
  -- ReleaseIP succeeds, and the next AllocateIP of the pod returns and gives it the same port
  -- again, if the pod asks for no static address and nothing came between.
  pub release_ip-SamePort :
      (s : DaemonState S (State W)) (r r₁ : Request) (info info₁ : PodInfo) (pod pod₁ : Pod)
      (old : PodResources) (item : ResourceItem) (res : NetworkResource) (xs : List PoolItem)
      → get_pod storage manager parse_bool to_lower find_pod r.namespace r.name
        ≡ success (info, pod)
      → get_pod storage manager parse_bool to_lower find_pod r₁.namespace r₁.name
        ≡ success (info₁, pod₁)
      → pod_info_key info₁ ≡ pod_info_key info
      → get_pod_resource storage manager parse_bool to_lower find_pod s.resource_db
          (pod_info_key info)
        ≡ success old
      → old.resources ≡ item ∷ []
      → old_res_id old ≡ item.id
      → item.id ≢ ""
      → is_zero info.ip_stick_time ≡ false
      → r.ctx_err ≡ none
      → require_static_ip (record { context = r₁.context; pod_info = some info₁; pod = pod₁ })
        ≡ false
      → IsSound xs s.port_manager.pool
      → lookup item.id s.port_manager.pool.inuse ≡ some res
      → (t : DaemonState S (State W)) × (release_ip storage manager parse_bool to_lower find_pod s r
          ≡ ok (none, t))
        × Returns (SamePort item.id) (allocate_ip storage manager parse_bool to_lower find_pod t r₁)
  release_ip-SamePort s r r₁ info info₁ pod pod₁ old item res xs got got₁ key found one asks named
        sticks alive dynamic sound lent =
      let now = factory.now s.port_manager.world in
      let (a, run, (fine, back)) =
        Returns-elim
          (release-Returned now s.port_manager.pool xs item.id info.ip_stick_time res sound lent) in
      let t = record s { port_manager = record s.port_manager { pool = a.1 } } in
      let own : get_resource_id back.res ≡ item.id =
        lookup-Keyed item.id back.res s.port_manager.pool.inuse sound.keyed back.was_lent in
      let waiting : Mem item.id (ids back.items) =
        subst (λ id. Mem id (ids back.items)) own
          ((Perm.mem_iff
              (Perm.symm (Perm.map (λ (i : PoolItem). get_resource_id i.res) back.added))).0
            mem-cons_self) in
      (
        t,
        release_ip-sticky storage factory service parse_ip net_id subnet_id parse_bool to_lower
            find_pod s r info pod old item none a.1 got found one sticks alive
            (run ∙ ap (λ (e : Option Error). ok (e, a.1)) fine),
        subst
            (λ id.
              Returns (SamePort id) (allocate_ip storage manager parse_bool to_lower find_pod t r₁))
            asks
            (allocate_ip-SamePort t back.items r₁ info₁ pod₁ old got₁
              (ap (get_pod_resource storage manager parse_bool to_lower find_pod s.resource_db) key
                ∙ found)
              dynamic (λ none_named. named (sym asks ∙ none_named)) back.sound
              (subst (λ id. Mem id (ids back.items)) (sym asks) waiting)),
      )
