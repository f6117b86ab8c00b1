-- ===== src/Ipam/Readiness.antt =====
-- NewPortResourceManager in a world that knows the ports of the node: the pool runs.
use mathlib.Core.List.{Nodup, append-nil, perm_middle}
use mathlib.Core.List.Perm
use mathlib.Core.Path.{subst}
use rubble.Prelude.{String, ◌≡◌, refl, sym, inl, inr, List, [], ◌∷◌, ◌++◌, Perm, Option-cases}
use rubble.Prelude.Run.{◌>>=◌, success, Result-cases, Returns, returns, Returns-both, Returns-bind}
use rubble.Prelude.Assoc.{lookup, keys}
use rubble.Resource.{PortResource, NetworkResource}
use rubble.Queue.{PoolItem}
use rubble.Queue.Contents.{new_priority_queue-Holds}
use rubble.Neutron.{
  ApiPort, ApiSubnet, ListFilter, NetworkService, list_port_with_filter, get_subnet, get_network_id,
  get_subnetwork_id,
}
use rubble.Pool.{ObjectFactory, State}
use rubble.Pool.Invariant.{IsUsable, ids, add_idle-Added, add_inuse-ok}
use rubble.Pool.Supply.{Supply}
use rubble.Pool.Start.{PoolConfig, make_pool, run_initializer}
use rubble.Pool.Launch.{Settled, Prepared, Launched, new_simple_object_pool-Launched}
use rubble.Ipam.{device_owner, vm_tag_prefix}
use Prim.Native.String.{◌++◌ as append}
use rubble.Ipam.Service.{Listing}
use rubble.Ipam.Start.{DaemonConfigure, adopt_ports, initializer, new_port_resource_manager}
use rubble.Ipam.Initial.{
  Addressed, Adopted, port_ids, mapped_ids, unmapped_ids, adopt_ports-Adopted, convert_port-id,
}

-- The ports that Neutron lists when the daemon starts have ids that differ from each other, and the
-- world knows these ids.
pub record Inventory {W : Type 0} (service : NetworkService W) (Live : W → List String → Type 0)
    (w : W) : Type 0 where
  pub distinct :
      (filter : ListFilter) (ports : List ApiPort)
      → list_port_with_filter service w filter ≡ success ports
      → Nodup (port_ids ports)
  pub live :
      (filter : ListFilter) (ports : List ApiPort)
      → list_port_with_filter service w filter ≡ success ports
      → Live w (port_ids ports)

-- The ports that the initializer asks for.
abbrev pub node_filter : String → String → ListFilter
node_filter net_id node = record {
  network_id = net_id;
  device_owner = device_owner;
  tags = append vm_tag_prefix (append ":" node);
}

-- Of the ports of a node, those that pods are known to have are in use, and nothing else is.
abbrev pub Taken :
    {W : Type 0}
    → NetworkService W
    → W
    → List (String × List String)
    → String
    → List (String × NetworkResource)
    → Type 0
Taken service w known node m =
    (net_id : String) × (ports : List ApiPort) × (list_port_with_filter service w
        (node_filter net_id node)
      ≡ success ports)
    × Perm (keys m) (mapped_ids known ports)

-- Every port is one of a pod or another one.
parted-perm :
    (known : List (String × List String)) (ports : List ApiPort)
    → Perm (unmapped_ids known ports ++ mapped_ids known ports) (port_ids ports)
parted-perm known [] = Perm.rfl
parted-perm known (p ∷ ports) = elim (Option-cases (lookup p.id known)) [
  | inl unknown ↦ rw (unknown, mapped_ids, unmapped_ids) (Perm.cons _ (parted-perm known ports))
  | inr (pods, is_known) ↦
      rw (is_known, mapped_ids, unmapped_ids)
        (Perm.trans (perm_middle (unmapped_ids known ports) (mapped_ids known ports))
          (Perm.cons _ (parted-perm known ports)))
]

module _ {W : Type 0} (factory : ObjectFactory W) (Live : W → List String → Type 0)
    (supply : Supply factory Live) (service : NetworkService W) (keep : W → PortResource → W)
    (kept : (w : W) (res : PortResource) (l : List String) → Live w l → Live (keep w res) l) where
  adopt_ports-Live :
      (subnet : ApiSubnet) (known : List (String × List String)) (l : List String)
      (ports : List ApiPort) (xs : List PoolItem) (s : State W)
      → IsUsable xs s.pool
      → Addressed ports
      → Live s.world l
      → Returns (λ t. Live t.world l) (adopt_ports factory service keep subnet known ports s)
  unfolding adopt_ports
  adopt_ports-Live subnet known l [] xs s u a live = returns live
  adopt_ports-Live subnet known l (np ∷ ports) xs s u ((ip, others, address), a) live =
      Returns-bind (convert_port-id subnet np ip others address) λ port same.
        let res : PortResource = record { port = port } in
        let w = keep s.world res in
        let live₁ = kept s.world res l live in
        elim (Option-cases (lookup np.id known)) [
          | inl unknown ↦
              rw (unknown, ◌>>=◌)
                (Returns-bind (add_idle-Added (factory.now w) s.pool xs res u) λ pool added.
                  adopt_ports-Live subnet known l ports added.items
                    (record { pool = pool; world = w }) added.usable a live₁)
          | inr (pods, is_known) ↦
              rw (is_known, ◌>>=◌)
                (rw (add_inuse-ok s.pool res u.unlocked, ◌>>=◌)
                  (adopt_ports-Live subnet known l ports xs _
                    (record { holds = u.holds; unlocked = refl }) a live₁))
        ]

  module _ (w : W) (listing : Listing service) (inventory : Inventory service Live w) where
    settled :
        (known : List (String × List String)) (ports : List ApiPort) (cfg : PoolConfig W)
        (t : State W)
        → Adopted known ports [] (record { pool = make_pool cfg; world = w }) t
        → Live t.world (port_ids ports)
        → Settled Live t
    unfolding make_pool
    settled known ports cfg t a live = record {
      items = a.items;
      sound = a.sound;
      live =
          supply.same _ _ _
            (Perm.symm (
              Perm.trans
                (Perm.trans
                  (Perm.append_right (keys t.pool.inuse)
                    (subst (Perm (ids a.items)) (append-nil (unmapped_ids known ports)) a.idle))
                  (Perm.append_left (unmapped_ids known ports) (
                    subst (Perm (keys t.pool.inuse)) (append-nil (mapped_ids known ports))
                      a.in_use)))
                (parted-perm known ports)))
            live;
    }

    initializer-Prepared :
        (subnet : ApiSubnet) (known : List (String × List String)) (net_id node : String)
        (cfg : PoolConfig W)
        → Returns (Prepared Live (Taken service w known node)) (
            initializer factory service keep net_id subnet node known
              (record { pool = make_pool cfg; world = w }))
    unfolding make_pool initializer
    initializer-Prepared subnet known net_id node cfg =
        elim (Result-cases (list_port_with_filter service w (node_filter net_id node))) [
          | inr (e, failed) ↦ rw (failed, initializer) (returns tt)
          | inl (ports, listed) ↦
              let start : State W = record { pool = make_pool cfg; world = w } in
              let empty : IsUsable [] start.pool = record {
                holds = new_priority_queue-Holds;
                unlocked = refl;
              } in
              let addressed = listing.addressed _ _ ports listed in
              rw (listed, initializer)
                (Returns-bind
                  (Returns-both
                    (adopt_ports-Adopted factory service keep subnet known ports [] start empty tt
                      addressed
                      (subst Nodup (sym (append-nil (port_ids ports)))
                        (inventory.distinct _ ports listed)))
                    (adopt_ports-Live subnet known (port_ids ports) ports [] start empty addressed
                      (inventory.live _ ports listed)))
                  λ t (adopted, live). returns (
                    settled known ports cfg t adopted live,
                    adopted.tokens,
                    (
                      net_id,
                      ports,
                      listed,
                      subst (Perm (keys t.pool.inuse)) (append-nil (mapped_ids known ports))
                          adopted.in_use,
                    ),
                  ))
        ]

    -- NewPortResourceManager returns, and a pool that it answers runs, with the known ports in use.
    pub new_port_resource_manager-Launched :
        (config : DaemonConfigure) (known : List (String × List String))
        → Returns
            (λ a. Launched Live (Taken service w known config.node_uuid) a.0)
            (new_port_resource_manager factory service keep config known w)
    unfolding new_port_resource_manager run_initializer
    new_port_resource_manager-Launched config known =
        elim (Result-cases (get_network_id service w config.net_id)) [
          | inr (e, failed) ↦ rw (failed, new_port_resource_manager) (returns tt)
          | inl (net_id, net) ↦
              rw (net, new_port_resource_manager)
                (elim (Result-cases (get_subnetwork_id service w config.subnet_id)) [
                  | inr (e, failed) ↦ rw (failed, new_port_resource_manager) (returns tt)
                  | inl (subnet_id, sub) ↦
                      rw (sub, new_port_resource_manager)
                        (elim (Result-cases (get_subnet service w subnet_id)) [
                          | inr (e, failed) ↦ rw (failed, new_port_resource_manager) (returns tt)
                          | inl (subnet, found) ↦
                              rw (found, new_port_resource_manager)
                                (new_simple_object_pool-Launched factory Live supply
                                  (Taken service w known config.node_uuid) _ w
                                  (initializer-Prepared subnet known net_id config.node_uuid _))
                        ])
                ])
        ]
