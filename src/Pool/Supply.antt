-- ===== src/Pool/Supply.antt =====
-- Acquire on every branch, with a factory whose resources have new ids.
use mathlib.Core.List.{Nodup-cons, perm_middle, mem-append}
use mathlib.Core.List.Perm
use mathlib.Core.Logic.Or
use mathlib.Core.Path.{subst}
use rubble.Prelude.{
  ◌-◌, ◌≤◌, ◌<◌, String, true, false, not, ◌&&◌, ◌||◌, ◌≡◌, refl, sym, inl, inr, none, List, ◌∷◌,
  Mem, Perm, arith, Bool-cases, length, ◌⊎◌, leb, ltb, if◌then◌else◌,
}
use rubble.Prelude.Assoc.{lookup, insert, keys, lookup-none, keys-insert-perm}
use rubble.Prelude.Run.{
  ok, ◌>>=◌, Error, context_done, no_available_resource, Result, success, failure, Result-cases,
  Returns, returns, Returns-bind, Returns-map, Returns-if,
}
use rubble.Resource.{NetworkResource, get_resource_id}
use rubble.Queue.{PoolItem}
use rubble.Queue.Layout.{item_at}
use rubble.Pool.{SimpleObjectPool, ObjectFactory, State, Context, acquire, acquire_new, await_token}
use rubble.Pool.Invariant.{IsSound, owned, ids, insert-Keyed, add_inuse-ok, send_token-ok}
use rubble.Pool.Lending.{lend-perm, acquire_locked-Lent, acquire_locked-none}

-- The factory's resources are new: `Live w l` says that the ids `l` are in use in the world `w`,
-- in which the factory never gives one of them to another resource.
pub record Supply {W : Type 0} (factory : ObjectFactory W) (Live : W → List String → Type 0)
    : Type 0 where
  pub made :
      (w : W) (ip : String) (l : List String) (res : NetworkResource)
      → Live w l
      → (factory.create w ip).0 ≡ success res
      → (¬ Mem (get_resource_id res) l) × Live (factory.create w ip).1 (get_resource_id res ∷ l)
  pub failed :
      (w : W) (ip : String) (l : List String) (e : Error)
      → Live w l
      → (factory.create w ip).0 ≡ failure e
      → Live (factory.create w ip).1 l
  pub same : (w : W) (l m : List String) → Perm l m → Live w l → Live w m

-- The pool is sound, its ids are in use in the world, and no more tokens wait than fit.
pub record Running {W : Type 0} (Live : W → List String → Type 0) (s : State W) : Type 0 where
  pub items : List PoolItem
  pub sound : IsSound items s.pool
  pub live : Live s.world (owned items s.pool.inuse)
  pub within : s.pool.tokens ≤ s.pool.capacity

-- What an answer does to the resources in use: a resource comes to them that was not there, or
-- they stay as they were.
abbrev pub Granted :
    List (String × NetworkResource)
    → Result NetworkResource
    → List (String × NetworkResource)
    → Type 0
Granted m (success res) m' =
    (lookup (get_resource_id res) m ≡ none) × (m' ≡ insert (get_resource_id res) res m)
Granted m (failure e) m' = m' ≡ m

pub record Served {W : Type 0} (Live : W → List String → Type 0) (s : State W)
    (r : Result NetworkResource × State W) : Type 0 where
  pub running : Running Live r.1
  pub granted : Granted s.pool.inuse r.0 r.1.pool.inuse

module _ {W : Type 0} (factory : ObjectFactory W) (Live : W → List String → Type 0)
    (supply : Supply factory Live) where
  acquire_new-Served :
      (s : State W) (xs : List PoolItem)
      → IsSound xs s.pool
      → Live s.world (owned xs s.pool.inuse)
      → s.pool.tokens < s.pool.capacity
      → Returns (Served Live s) (acquire_new factory s)
  unfolding acquire_new
  acquire_new-Served s xs sound live room = elim (Result-cases (factory.create s.world "").0) [
    | inl (res, made) ↦
        let (fresh, live₁) = supply.made s.world "" _ res live made in
        let id = get_resource_id res in
        let absent = lookup-none id s.pool.inuse (λ there. fresh (mem-append.1 (Or.inr there))) in
        let moved =
          Perm.trans (Perm.append_left (ids xs) (keys-insert-perm id res s.pool.inuse absent))
            (perm_middle (ids xs) (keys s.pool.inuse)) in
        rw (made, acquire_new)
          (rw (add_inuse-ok s.pool res sound.unlocked) (
            returns (record {
              running = record {
                items = xs;
                sound = record {
                  usable = record { holds = sound.holds; unlocked = refl };
                  keyed = insert-Keyed id res s.pool.inuse refl sound.keyed;
                  distinct = Perm.nodup (Perm.symm moved) (Nodup-cons.1 (fresh, sound.distinct));
                };
                live = supply.same _ _ _ (Perm.symm moved) live₁;
                within = omega arith;
              };
              granted = (absent, refl);
            })))
    | inr (e, refused) ↦
        rw (refused, acquire_new)
          (rw (send_token-ok s.pool room) (
            returns (record {
              running = record {
                items = xs;
                sound = record {
                  usable = record { holds = sound.holds; unlocked = sound.unlocked };
                  keyed = sound.keyed;
                  distinct = sound.distinct;
                };
                live = supply.failed s.world "" _ e live refused;
                within = omega arith;
              };
              granted = refl;
            })))
  ]

-- In time, the wait for a token ends.
await_token-done :
    (p : SimpleObjectPool) (ctx : Context)
    → ctx.done ≡ true
    → Returns
        (λ r.
          ((r.0 ≡ true) × (0 < p.tokens) × (r.1 ≡ record p { tokens = p.tokens - 1 }))
          ⊎ ((r.0 ≡ false) × (r.1 ≡ p)))
        (await_token p ctx)
unfolding await_token
await_token-done p ctx done =
    Returns-if (ltb 0 p.tokens && (not ctx.done || ctx.picks_token))
      (λ picked. returns (inl (refl, ground (arith, picked), refl)))
      (λ left. rw done (returns (inr (refl, refl))))

module _ {W : Type 0} (factory : ObjectFactory W) (Live : W → List String → Type 0)
    (supply : Supply factory Live) where
  -- The pool with its lock free is running as before, and nothing was granted.
  refused-Served :
      (s : State W) (e : Error) (p : SimpleObjectPool)
      → Running Live s
      → p ≡ record s.pool { locked = false }
      → Served Live s (failure e, record s { pool = p })
  refused-Served s e p t same =
      subst (λ p. Served Live s (failure e, record s { pool = p })) (sym same)
        (record {
          running = record {
            items = t.items;
            sound = record {
              usable = record { holds = t.sound.holds; unlocked = refl };
              keyed = t.sound.keyed;
              distinct = t.sound.distinct;
            };
            live = t.live;
            within = t.within;
          };
          granted = refl;
        })

  -- Acquire with no idle resource.
  acquire_waiting-Served :
      (s : State W) (ctx : Context) (t : Running Live s)
      → ctx.done ≡ true
      → Returns (Served Live s) (
          await_token (record s.pool { locked = false }) ctx >>= λ (token, p).
          if token
          then acquire_new factory (record s { pool = p })
          else ok (failure context_done, record s { pool = p }))
  acquire_waiting-Served s ctx t done =
      let p = record s.pool { locked = false } in
      let sound : IsSound t.items p = record {
        usable = record { holds = t.sound.holds; unlocked = refl };
        keyed = t.sound.keyed;
        distinct = t.sound.distinct;
      } in
      Returns-bind (await_token-done p ctx done) λ r ends. elim ends [
        | inl (token, some_token, taken) ↦
            rw (token, taken)
              (Returns-map
                (acquire_new-Served factory Live supply
                  (record s { pool = record p { tokens = p.tokens - 1 } }) t.items
                  (record {
                    usable = record { holds = sound.holds; unlocked = sound.unlocked };
                    keyed = sound.keyed;
                    distinct = sound.distinct;
                  })
                  t.live (omega (arith, some_token, t.within)))
                λ r w. record { running = w.running; granted = w.granted })
        | inr (late, same) ↦ rw (late, same) (returns (refused-Served s context_done p t refl))
      ]

  pub acquire-Served :
      (s : State W) (ctx : Context) (id : String)
      → Running Live s
      → ctx.done ≡ true
      → Returns (Served Live s) (acquire factory s ctx id)
  unfolding acquire
  acquire-Served s ctx id t done = elim (Bool-cases (leb (length t.items) 0)) [
    | inl empty ↦
        Returns-bind
          (acquire_locked-none s.pool t.items id t.sound.holds (ground arith) t.sound.unlocked)
          λ r (outcome, same). elim outcome [
            | inl refused ↦ rw refused (returns (refused-Served s no_available_resource r.1 t same))
            | inr waits ↦ rw (waits, same) (acquire_waiting-Served s ctx t done)
          ]
    | inr some_left ↦
        Returns-bind (acquire_locked-Lent s.pool t.items id t.sound (ground arith))
          λ r (i, got, lent, best). rw got (
            returns (record {
              running = record {
                items = lent.left;
                sound = lent.sound;
                live =
                    supply.same _ _ _
                      (subst (λ m. Perm (owned t.items s.pool.inuse) (owned lent.left m))
                        (sym lent.lent)
                        (Perm.symm (
                          lend-perm (item_at t.items i) t.items lent.left s.pool.inuse lent.taken
                            lent.fresh)))
                      t.live;
                within = rw (lent.tokens, lent.setup.0) t.within;
              };
              granted = (lent.fresh, lent.lent);
            }))
  ]
