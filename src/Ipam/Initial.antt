-- ===== src/Ipam/Initial.antt =====
-- The initializer of the pool: every port of the node becomes a resource, in use if a pod is known
-- to have it and idle otherwise.
use mathlib.Core.List.{Nodup}
use mathlib.Core.List.Perm
use mathlib.Core.Path.{subst}
use rubble.Prelude.{
  ℕ, String, ◌≡◌, refl, sym, ◌∙◌, inl, inr, false, none, some, List, [], ◌∷◌, ◌++◌, map, Perm,
  Option-cases,
}
use rubble.Prelude.Run.{◌>>=◌, Returns, returns, Returns-bind, Returns-map}
use rubble.Prelude.Assoc.{lookup, insert, keys}
use rubble.Resource.{PortResource, NetworkResource, get_resource_id}
use rubble.Queue.{PoolItem}
use rubble.Neutron.{ApiPort, ApiSubnet, NetworkService, convert_port}
use rubble.Pool.{SimpleObjectPool, ObjectFactory, State}
use rubble.Pool.Invariant.{
  IsUsable, IsSound, SameSetup, Added, Keyed, ids, owned, insert-Keyed, add_idle-Added,
  add_inuse-ok,
}
use rubble.Ipam.Start.{adopt_ports}
use rubble.Ipam.NewIds.{moved_id, later_id, owned-idle, owned-inuse, new_idle, new_key, absent_id}

abbrev pub port_ids : List ApiPort → List String
port_ids = map (λ p. p.id)

-- The ids of the ports that pods are known to have, and those of the others.
abbrev pub mapped_ids : List (String × List String) → List ApiPort → List String
mapped_ids known [] = []
mapped_ids known (p ∷ ports) = elim (lookup p.id known) [
  | some _ ↦ p.id ∷ mapped_ids known ports
  | none ↦ mapped_ids known ports
]

abbrev pub unmapped_ids : List (String × List String) → List ApiPort → List String
unmapped_ids known [] = []
unmapped_ids known (p ∷ ports) = elim (lookup p.id known) [
  | some _ ↦ unmapped_ids known ports
  | none ↦ p.id ∷ unmapped_ids known ports
]

-- Every port has an address.
abbrev pub Addressed : List ApiPort → Type 0
Addressed [] = Unit {0}
Addressed (p ∷ ports) =
    ((ip : String) × (rest : List String) × (p.fixed_ips ≡ ip ∷ rest)) × Addressed ports

-- The pool `t` after the ports were added to the pool of `s`.
pub record Adopted {W : Type 0} (known : List (String × List String)) (ports : List ApiPort)
    (xs : List PoolItem) (s t : State W) : Type 0 where
  pub items : List PoolItem
  pub sound : IsSound items t.pool
  pub in_use : Perm (keys t.pool.inuse) (mapped_ids known ports ++ keys s.pool.inuse)
  pub idle : Perm (ids items) (unmapped_ids known ports ++ ids xs)
  pub tokens : t.pool.tokens ≡ s.pool.tokens
  pub setup : SameSetup s.pool t.pool

pub convert_port-id :
    (subnet : ApiSubnet) (p : ApiPort) (ip : String) (rest : List String)
    → p.fixed_ips ≡ ip ∷ rest
    → Returns (λ port. port.id ≡ p.id) (convert_port subnet p)
unfolding convert_port
convert_port-id subnet p ip rest e = rw (e, convert_port) (returns refl)

module _ {W : Type 0} (factory : ObjectFactory W) (service : NetworkService W)
    (keep : W → PortResource → W) (subnet : ApiSubnet) (known : List (String × List String)) where
  -- A port becomes idle before the others are added.
  then_idle :
      (p : ApiPort) (ports : List ApiPort) (xs : List PoolItem) (s : State W)
      (res : NetworkResource) (w : W) (now : ℕ) (pool : SimpleObjectPool) (t : State W)
      (a : Added xs s.pool res now pool)
      → get_resource_id res ≡ p.id
      → lookup p.id known ≡ none
      → Adopted known ports a.items (record { pool = pool; world = w }) t
      → Adopted known (p ∷ ports) xs s t
  then_idle p ports xs s res w now pool t a same none_known d = record {
    items = d.items;
    sound = d.sound;
    in_use =
        rw (none_known, mapped_ids)
          (subst (λ m. Perm (keys t.pool.inuse) (mapped_ids known ports ++ keys m)) a.same_inuse
            d.in_use);
    idle =
        rw (none_known, unmapped_ids)
          (later_id p.id (unmapped_ids known ports) (ids xs) (ids a.items) (ids d.items)
            (new_idle p.id xs s.pool pool res now a same) d.idle);
    tokens = d.tokens ∙ a.same_tokens;
    setup = (d.setup.0 ∙ a.setup.0, d.setup.1 ∙ a.setup.1, d.setup.2 ∙ a.setup.2);
  }

  -- A port becomes used before the others are added.
  then_inuse :
      (p : ApiPort) (ports : List ApiPort) (xs : List PoolItem) (s : State W)
      (res : NetworkResource) (w : W) (pods : List String) (t : State W)
      → get_resource_id res ≡ p.id
      → lookup p.id known ≡ some pods
      → lookup p.id s.pool.inuse ≡ none
      → Adopted known ports xs
          (record {
            pool = record s.pool {
              inuse = insert (get_resource_id res) res s.pool.inuse;
              locked = false;
            };
            world = w;
          })
          t
      → Adopted known (p ∷ ports) xs s t
  then_inuse p ports xs s res w pods t same is_known fresh d = record {
    items = d.items;
    sound = d.sound;
    in_use =
        rw (is_known, mapped_ids)
          (later_id p.id (mapped_ids known ports) (keys s.pool.inuse) _ (keys t.pool.inuse)
            (new_key p.id res s.pool.inuse same fresh) d.in_use);
    idle = rw (is_known, unmapped_ids) d.idle;
    tokens = d.tokens;
    setup = d.setup;
  }

  -- On a usable pool whose resources in use stand under their ids, for ports that have addresses
  -- and ids that differ from each other and from those of the pool, the loop of the initializer
  -- returns. The pool is sound then; the ports that a pod is known to have are in use, the others
  -- are idle, and the tokens and limits stay.
  pub adopt_ports-Adopted :
      (ports : List ApiPort) (xs : List PoolItem) (s : State W)
      → IsUsable xs s.pool
      → Keyed s.pool.inuse
      → Addressed ports
      → Nodup (port_ids ports ++ owned xs s.pool.inuse)
      → Returns (Adopted known ports xs s) (adopt_ports factory service keep subnet known ports s)
  unfolding adopt_ports
  adopt_ports-Adopted [] xs s u k a d = returns (record {
    items = xs;
    sound = record { usable = u; keyed = k; distinct = d };
    in_use = Perm.rfl;
    idle = Perm.rfl;
    tokens = refl;
    setup = (refl, refl, refl);
  })
  adopt_ports-Adopted (np ∷ ports) xs s u k ((ip, others, address), a) d =
      Returns-bind (convert_port-id subnet np ip others address) λ port same.
        let res : PortResource = record { port = port } in
        let w = keep s.world res in
        elim (Option-cases (lookup np.id known)) [
          | inl unknown ↦
              rw (unknown, ◌>>=◌)
                (Returns-bind (add_idle-Added (factory.now w) s.pool xs res u) λ pool added.
                  Returns-map
                    (adopt_ports-Adopted ports added.items (record { pool = pool; world = w })
                      added.usable (subst Keyed (sym added.same_inuse) k) a
                      (moved_id np.id (port_ids ports) (owned xs s.pool.inuse)
                        (owned added.items pool.inuse)
                        (owned-idle np.id added.items xs s.pool.inuse pool.inuse added.same_inuse
                          (new_idle np.id xs s.pool pool res (factory.now w) added same))
                        d))
                    λ t. then_idle np ports xs s res w (factory.now w) pool t added same unknown)
          | inr (pods, is_known) ↦
              let fresh = absent_id np.id (port_ids ports) xs s.pool.inuse d in
              rw (is_known, ◌>>=◌)
                (rw (add_inuse-ok s.pool res u.unlocked, ◌>>=◌)
                  (Returns-map
                    (adopt_ports-Adopted ports xs _ (record { holds = u.holds; unlocked = refl })
                      (insert-Keyed (get_resource_id res) res s.pool.inuse refl k) a
                      (moved_id np.id (port_ids ports) (owned xs s.pool.inuse)
                        (owned xs (insert (get_resource_id res) res s.pool.inuse))
                        (owned-inuse np.id xs s.pool.inuse _
                          (new_key np.id res s.pool.inuse same fresh))
                        d))
                    λ t. then_inuse np ports xs s res w pods t same is_known fresh))
        ]
