-- ===== src/Ipam/Static.antt =====
-- Static addresses: the pool after a port was created for one.
use mathlib.Core.List.{mem-cons_self, mem_of_ne_of_mem, not-mem-nil}
use mathlib.Core.List.Perm
use rubble.Prelude.{
  ℕ, suc, ◌+◌, ◌<◌, String, Bool, ◌≡◌, ◌≢◌, refl, sym, ap, ◌∙◌, inl, inr, some, List, [], ◌∷◌, Mem,
  arith, length, length-perm, eq_iff,
}
use rubble.Prelude.Assoc.{lookup, lookup-insert, length-insert_new}
use rubble.Prelude.Run.{◌>>=◌, Returns, returns, Returns-bind, Returns-elim, Result, success}
use rubble.Resource.{NetworkResource, get_resource_id}
use rubble.Queue.{PoolItem}
use rubble.Queue.Layout.{item_at}
use rubble.Queue.Search.{id_at, find-FoundItem}
use rubble.Neutron.{NetworkService}
use rubble.Pool.{SimpleObjectPool, ObjectFactory, State, acquire, size}
use rubble.Pool.NewIdle.{grown_pool-IsSound}
use rubble.Pool.Invariant.{IsUsable, IsSound, ids, owned, add_idle-Added, size-length}
use rubble.Pool.Lending.{Lent, acquire_locked-Lent}
use rubble.Ipam.{ResourceContext, acquire_created}

missing-Mem :
    (xs : List PoolItem) (id : String)
    → ((j : ℕ) → j < length xs → id_at xs j ≢ id)
    → ¬ Mem id (ids xs)
missing-Mem [] id missing m = not-mem-nil m
missing-Mem (x ∷ xs) id missing m =
    missing-Mem xs id (λ j inside. missing (suc j) (omega arith))
      (mem_of_ne_of_mem (λ same. missing 0 (omega arith) (sym same)) m)

-- The place of an id among the idle items of a pool.
pub place :
    (p : SimpleObjectPool) (xs : List PoolItem) (id : String)
    → IsUsable xs p
    → Mem id (ids xs)
    → (i : ℕ) × (i < length xs) × (id_at xs i ≡ id)
place p xs id u m =
    let (r, e, found) = Returns-elim (find-FoundItem p.idle xs id u.holds) in
    elim found [
      | inl (i, f, same) ↦ (i, f.1, f.2)
      | inr (missing, same) ↦
          absurd (missing-Mem xs id (λ j inside. missing j (omega arith) inside) m)
    ]

-- The state `t` after a resource with the id of `res` was made beside the tokens of `s`.
pub record Extra {W : Type 0} (s : State W) (res : NetworkResource)
    (r : Result NetworkResource × State W) : Type 0 where
  pub got : NetworkResource
  pub answer : r.0 ≡ success got
  pub same_id : get_resource_id got ≡ get_resource_id res
  pub items : List PoolItem
  pub sound : IsSound items r.1.pool
  pub in_use : lookup (get_resource_id res) r.1.pool.inuse ≡ some got
  pub same_tokens : r.1.pool.tokens ≡ s.pool.tokens
  pub one_more : size r.1.pool ≡ size s.pool + 1

module _ {W : Type 0} (factory : ObjectFactory W) (service : NetworkService W)
    (parse_ip : String → Bool) (net_id subnet_id : String) where
  size_after :
      (s : State W) (p : SimpleObjectPool) (xs items : List PoolItem) (item : PoolItem)
      (p' : SimpleObjectPool)
      → Lent items p item p'
      → IsUsable xs s.pool
      → length items ≡ suc (length xs)
      → length p.inuse ≡ length s.pool.inuse
      → size p' ≡ size s.pool + 1
  size_after s p xs items item p' lent u grown same =
      let before = size-length s.pool u.holds in
      let after = size-length p' lent.sound.usable.holds in
      let left = length-perm lent.taken in
      let lent_out =
        ap length lent.lent
        ∙ length-insert_new (get_resource_id item.res) item.res p.inuse lent.fresh in
      omega arith

  -- acquireStaticAddress for a free address, when a port could be created: the pool lends out the
  -- new port, and has one resource more with as many tokens.
  pub acquire_created-Extra :
      (s : State W) (xs : List PoolItem) (ctx : ResourceContext) (ip : String)
      (res : NetworkResource)
      → IsSound xs s.pool
      → (factory.create s.world ip).0 ≡ success res
      → get_resource_id res ≢ ""
      → ¬ Mem (get_resource_id res) (owned xs s.pool.inuse)
      → Returns (Extra s res) (acquire_created factory service parse_ip net_id subnet_id s ctx ip)
  unfolding acquire_created acquire
  acquire_created-Extra s xs ctx ip res sound made named fresh =
      let id = get_resource_id res in
      rw (made, acquire_created)
        (Returns-bind (add_idle-Added _ s.pool xs res sound.usable) λ p a.
          let sound₁ = grown_pool-IsSound xs s.pool p res _ a sound fresh in
          let (j, inside, hit) = place p a.items id a.usable (
            (Perm.mem_iff
                (Perm.symm (Perm.map (λ (i : PoolItem). get_resource_id i.res) a.added))).0
              mem-cons_self) in
          Returns-bind (acquire_locked-Lent p a.items id sound₁ (omega arith))
            λ r (i, got, lent, best).
              rw (got, ◌>>=◌)
                (returns (record {
                  got = (item_at a.items i).res;
                  answer = refl;
                  same_id = best named j inside hit;
                  items = lent.left;
                  sound = lent.sound;
                  in_use =
                      ap (lookup id) lent.lent
                      ∙ lookup-insert _ id _ p.inuse
                      ∙ rw ((eq_iff _ id).1 (best named j inside hit)) refl;
                  same_tokens = lent.tokens ∙ a.same_tokens;
                  one_more =
                      size_after s p xs a.items (item_at a.items i) r.1 lent sound.usable
                        (length-perm a.added) (ap length a.same_inuse);
                })))
