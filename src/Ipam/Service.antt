-- ===== src/Ipam/Service.antt =====
-- Allocate on every branch: a dynamic address, a static one that is free or occupied, and errors.
use mathlib.Core.List.Perm
use mathlib.Core.Path.{subst}
use rubble.Prelude.{
  String, Bool, true, not, ◌≡◌, refl, sym, inl, inr, Option, none, some, List, [], ◌∷◌, Perm,
  Option-cases, str_eq, map, ◌⊎◌,
}
use rubble.Prelude.Assoc.{lookup, delete}
use rubble.Prelude.Int.{ℤ, pos}
use rubble.Prelude.Run.{
  ok, ◌>>=◌, Error, success, failure, Result-cases, Returns, returns, Returns-bind, Returns-map,
  Returns-if, invalid_state,
}
use rubble.Resource.{get_resource_id}
use rubble.Queue.Layout.{list-Holds}
use rubble.Neutron.{
  ApiPort, ApiSubnet, ListFilter, NetworkService, convert_port, list_port_with_filter, get_subnet,
}
use rubble.Pods.{PodInfo, read}
use rubble.Pool.{ObjectFactory, State, get_idle, release, release_with_reverse, reverse_to}
use rubble.Pool.Returning.{release-Returned, release-unknown, return-perm}
use rubble.Pool.Invariant.{add_idle-Added, owned, lookup-Keyed}
use rubble.Pool.NewIdle.{grown_pool-IsSound, grown-perm}
use rubble.Pool.Supply.{Supply, Running, Served, Granted, acquire-Served}
use rubble.Ipam.{
  ResourceContext, is_occupied, idle_with_address, acquire_occupied, acquire_created,
  acquire_static_address, allocate, manager_release, require_static_ip, ip_address_annotation,
  device_owner,
}
use rubble.Ipam.Initial.{Addressed}

-- The ports that Neutron lists have addresses.
pub record Listing {W : Type 0} (service : NetworkService W) : Type 0 where
  pub addressed :
      (w : W) (filter : ListFilter) (ports : List ApiPort)
      → list_port_with_filter service w filter ≡ success ports
      → Addressed ports

is_occupied-Returns :
    (subnet : ApiSubnet) (ip : String) (ports : List ApiPort)
    → Addressed ports
    → Returns (λ _. Unit {0}) (is_occupied subnet ip ports)
unfolding is_occupied convert_port
is_occupied-Returns subnet ip [] a = returns tt
is_occupied-Returns subnet ip (p ∷ ports) ((address, more, e), rest) =
    rw (e, convert_port)
      (Returns-if (str_eq address ip) (λ _. returns tt)
        (λ _. is_occupied-Returns subnet ip ports rest))

-- The filter of acquireStaticAddress.
abbrev rubble_ports : String → ListFilter
rubble_ports net_id = record { network_id = net_id; device_owner = device_owner; tags = "" }

module _ {W : Type 0} (factory : ObjectFactory W) (Live : W → List String → Type 0)
    (supply : Supply factory Live) (service : NetworkService W) (listing : Listing service)
    (parse_ip : String → Bool) (net_id subnet_id : String) where
  -- An error that leaves the state.
  refused : (s : State W) (e : Error) → Running Live s → Returns (Served Live s) (ok (failure e, s))
  refused s e t = returns (record { running = t; granted = refl })

  acquire_occupied-Served :
      (s : State W) (ctx : ResourceContext) (ip : String)
      → Running Live s
      → ctx.context.done ≡ true
      → Returns
          (Served Live s)
          (acquire_occupied factory service parse_ip net_id subnet_id s ctx ip)
  unfolding acquire_occupied get_idle
  acquire_occupied-Served s ctx ip t done =
      rw (list-Holds t.sound.holds) (elim (Option-cases (idle_with_address ip (map some t.items))) [
        | inl missing ↦ rw (missing, ◌>>=◌) (refused s _ t)
        | inr (res, found) ↦
            rw (found, ◌>>=◌) (acquire-Served factory Live supply s ctx.context _ t done)
      ])

  acquire_created-Served :
      (s : State W) (ctx : ResourceContext) (ip : String)
      → Running Live s
      → ctx.context.done ≡ true
      → Returns (Served Live s) (acquire_created factory service parse_ip net_id subnet_id s ctx ip)
  unfolding acquire_created
  acquire_created-Served s ctx ip t done = elim (Result-cases (factory.create s.world ip).0) [
    | inr (e, failed) ↦
        rw (failed, acquire_created)
          (returns (record {
            running = record {
              items = t.items;
              sound = t.sound;
              live = supply.failed s.world ip _ e t.live failed;
              within = t.within;
            };
            granted = refl;
          }))
    | inl (res, made) ↦
        rw (made, acquire_created)
          (Returns-bind (add_idle-Added _ s.pool t.items res t.sound.usable) λ p a.
            let (fresh, live) = supply.made s.world ip _ res t.live made in
            Returns-map
              (acquire-Served factory Live supply
                (record { pool = p; world = (factory.create s.world ip).1 }) ctx.context
                (get_resource_id res)
                (record {
                  items = a.items;
                  sound = grown_pool-IsSound t.items s.pool p res _ a t.sound fresh;
                  live = supply.same _ _ _ (Perm.symm (grown-perm t.items s.pool p res _ a)) live;
                  within = rw (a.same_tokens, a.setup.0) t.within;
                })
                done)
              λ r w. record {
                running = w.running;
                granted = subst (λ m. Granted m r.0 r.1.pool.inuse) a.same_inuse w.granted;
              })
  ]

  acquire_static_address-Served :
      (s : State W) (ctx : ResourceContext)
      → Running Live s
      → ctx.context.done ≡ true
      → Returns
          (Served Live s)
          (acquire_static_address factory service parse_ip net_id subnet_id s ctx)
  unfolding acquire_static_address
  acquire_static_address-Served s ctx t done =
      let ip = read ctx.pod.annotations ip_address_annotation in
      Returns-if (str_eq ip "") (λ _. refused s _ t)
        (λ _.
          Returns-if (not (parse_ip ip)) (λ _. refused s _ t)
            (λ _.
              elim (Result-cases (list_port_with_filter service s.world (rubble_ports net_id))) [
                | inr (e, failed) ↦ rw failed (refused s _ t)
                | inl (ports, listed) ↦
                    rw listed (elim (Result-cases (get_subnet service s.world subnet_id)) [
                      | inr (e, failed) ↦ rw failed (refused s _ t)
                      | inl (subnet, got) ↦ rw got (
                          Returns-bind
                            (is_occupied-Returns subnet ip ports (listing.addressed _ _ _ listed))
                            λ b _.
                              Returns-if b (λ _. acquire_occupied-Served s ctx ip t done)
                                (λ _. acquire_created-Served s ctx ip t done))
                    ])
              ]))

  pub allocate-Served :
      (s : State W) (ctx : ResourceContext) (info : PodInfo) (id : String)
      → Running Live s
      → ctx.context.done ≡ true
      → ctx.pod_info ≡ some info
      → Returns (Served Live s) (allocate factory service parse_ip net_id subnet_id s ctx id)
  unfolding allocate acquire_static_address
  allocate-Served s ctx info id t done known =
      Returns-if (require_static_ip ctx)
        (λ _. rw known (acquire_static_address-Served s ctx t done))
        (λ _. acquire-Served factory Live supply s ctx.context id t done)

-- What a release does to the resources in use.
pub record Released {W : Type 0} (Live : W → List String → Type 0) (s : State W) (id : String)
    (r : Option Error × State W) : Type 0 where
  pub running : Running Live r.1
  pub effect :
      ((r.0 ≡ none) × (r.1.pool.inuse ≡ delete id s.pool.inuse))
      ⊎ ((r.0 ≡ some invalid_state) × (r.1.pool.inuse ≡ s.pool.inuse))

module _ {W : Type 0} (factory : ObjectFactory W) (Live : W → List String → Type 0)
    (supply : Supply factory Live) where
  release-Released :
      (s : State W) (id : String) (reverse : ℤ)
      → Running Live s
      → Returns
          (λ r. Released Live s id (r.0, record s { pool = r.1 }))
          (release_with_reverse (factory.now s.world) s.pool id reverse)
  release-Released s id reverse t =
      let now = factory.now s.world in
      elim (Option-cases (lookup id s.pool.inuse)) [
        | inl missing ↦
            rw (release-unknown now s.pool t.items id reverse t.sound missing)
              (returns (record { running = t; effect = inr (refl, refl) }))
        | inr (res, lent) ↦
            Returns-map (release-Returned now s.pool t.items id reverse res t.sound lent)
              λ r (fine, back). record {
                running = record {
                  items = back.items;
                  sound = back.sound;
                  live =
                      supply.same _ _ _
                        (subst (λ m. Perm (owned t.items s.pool.inuse) (owned back.items m))
                          (sym back.removed)
                          (Perm.symm (
                            return-perm back.res id (reverse_to now reverse) t.items back.items
                              s.pool.inuse
                              (lookup-Keyed id back.res s.pool.inuse t.sound.keyed back.was_lent)
                              back.was_lent back.added)))
                        t.live;
                  within = rw (back.tokens, back.setup.0) t.within;
                };
                effect = inl (fine, back.removed);
              }
      ]

  -- Release of a running pool, with a pod or without one.
  pub manager_release-Released :
      (s : State W) (ctx : Option ResourceContext) (id : String)
      → Running Live s
      → Returns
          (λ r. Released Live s id (r.0, record s { pool = r.1 }))
          (manager_release (factory.now s.world) s.pool ctx id)
  unfolding manager_release release
  manager_release-Released s none id t = release-Released s id (pos 0) t
  manager_release-Released s (some ctx) id t = elim (Option-cases ctx.pod_info) [
    | inl unknown ↦ rw (unknown, manager_release) (release-Released s id (pos 0) t)
    | inr (info, known) ↦ rw (known, manager_release) (release-Released s id info.ip_stick_time t)
  ]
