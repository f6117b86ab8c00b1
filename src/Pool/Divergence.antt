-- ===== src/Pool/Divergence.antt =====
-- checkIdle where disposing fails: the loop that never ends.
use mathlib.Core.List.Perm
use mathlib.Core.List.{Mem, mem-cons, mem-cons_self, mem-cons_of_mem}
use rubble.Prelude.{
  ℕ, zero, suc, ◌≤◌, ◌<◌, true, false, ◌≡◌, refl, sym, ap, ◌∙◌, some, List, [], ◌∷◌, Perm, arith,
  length, length-perm,
}
use rubble.Prelude.Run.{out_of_fuel, ◌>>=◌, Returns, returns, Returns-bind, Returns-elim, Error}
use rubble.Resource.{NetworkResource}
use rubble.Queue.{PoolItem, PriorityQueue}
use rubble.Queue.Layout.{Holds, item_at, key}
use rubble.Pool.{SimpleObjectPool, ObjectFactory, State, size}
use rubble.Pool.Invariant.{IsUsable, SameSetup, Added, add_idle-Added}
use rubble.Pool.Upkeep.{too_many_idle, give_back, check_idle}
use rubble.Pool.Rounds.{too_many_idle-lt, check_idle_round_takes}
use native.Mathlib.Bridge.{le_prop}
use native.Mathlib.Nat.{le_trans}
use mathlib.Core.Logic.Or
use mathlib.Core.Path.{subst}

held : (p : SimpleObjectPool) (xs : List PoolItem) → Holds p.idle xs → p.idle.size ≡ length xs
held p xs h = ap (λ (q : PriorityQueue). q.size) h.shape

too_many_idle-same :
    (p p' : SimpleObjectPool)
    → p'.idle.size ≡ p.idle.size
    → p'.inuse ≡ p.inuse
    → SameSetup p p'
    → too_many_idle p' ≡ too_many_idle p
unfolding too_many_idle size
too_many_idle-same p p' n m (c, i, _) = rw (n, m, c, i)

module _ {W : Type 0} (factory : ObjectFactory W) where
  -- Every reservation has ended.
  abbrev pub AllFree : W → List PoolItem → Type 0
  AllFree w xs = (i : PoolItem) → Mem i xs → i.reverse ≤ factory.now w

  -- Disposing fails whenever it is tried, and no time is lost by trying.
  pub record Refusing : Type 0 where
    pub fails : (w : W) (r : NetworkResource) → (e : Error) × ((factory.dispose w r).0 ≡ some e)
    pub time_passes :
        (w : W) (r : NetworkResource) → factory.now w ≤ factory.now (factory.dispose w r).1

  give_back-Added :
      (s : State W) (xs : List PoolItem) (res : NetworkResource)
      → Refusing
      → IsUsable xs s.pool
      → let w = (factory.dispose s.world res).1 in
        Returns
          (λ t. Added xs s.pool res (factory.now w) t.pool × (t.world ≡ w))
          (give_back factory s res)
  unfolding give_back
  give_back-Added s xs res refusing u =
      let (e, failed) = refusing.fails s.world res in
      rw (failed, give_back)
        (Returns-bind (add_idle-Added _ s.pool xs res u) λ p added. returns (added, refl))

  round_keeps_free :
      (w w' : W) (xs left items : List PoolItem) (first : PoolItem) (res : NetworkResource)
      → Perm (first ∷ left) xs
      → Perm items (record { res = res; reverse = factory.now w' } ∷ left)
      → factory.now w ≤ factory.now w'
      → AllFree w xs
      → AllFree w' items
  round_keeps_free w w' xs left items first res taken added later free i there =
      Or.elim le_prop (mem-cons.0 ((Perm.mem_iff added).0 there))
        (λ e. omega (arith, ap (λ (t : PoolItem). t.reverse) e))
        (λ old. le_trans (free i ((Perm.mem_iff taken).0 (mem-cons_of_mem first old))) later)

  first_free :
      (w : W) (xs : List PoolItem) → AllFree w xs → 0 < length xs → key xs 0 ≤ factory.now w
  first_free w [] free h = elim h [ ]
  first_free w (x ∷ xs) free h = free x mem-cons_self

  -- While disposing fails, a surplus of resources that are no longer reserved keeps checkIdle
  -- running for ever: no number of rounds is enough.
  pub check_idle-diverges :
      (fuel : ℕ) (s : State W) (xs : List PoolItem)
      → Refusing
      → IsUsable xs s.pool
      → too_many_idle s.pool ≡ true
      → AllFree s.world xs
      → check_idle factory fuel s ≡ out_of_fuel
  unfolding check_idle
  check_idle-diverges zero s xs refusing u surplus free = refl
  check_idle-diverges (suc fuel) s xs refusing u surplus free =
      let some_left = too_many_idle-lt s.pool xs u.holds surplus in
      let (q, w, e) =
        check_idle_round_takes factory s xs u some_left (first_free s.world xs free some_left) in
      let (t, e₁, (added, elapsed)) = Returns-elim (
        give_back-Added (record s { pool = record s.pool { idle = q; locked = false } }) w.items
          (item_at xs 0).res refusing (record { holds = w.holds; unlocked = refl })) in
      rw (surplus, e)
        (rw (e₁, ◌>>=◌)
          (check_idle-diverges fuel t added.items refusing added.usable
            (too_many_idle-same s.pool t.pool
                (omega (
                  arith,
                  held s.pool xs u.holds,
                  held t.pool added.items added.usable.holds,
                  length-perm added.added,
                  length-perm w.same,
                ))
                added.same_inuse added.setup
              ∙ surplus)
            (subst (λ (v : W). AllFree v added.items) (sym elapsed)
              (round_keeps_free s.world _ xs w.items added.items (item_at xs 0) (item_at xs 0).res
                w.same added.added (refusing.time_passes s.world (item_at xs 0).res) free))))
