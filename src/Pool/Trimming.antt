-- ===== src/Pool/Trimming.antt =====
-- checkIdle where resources can be disposed of.
use mathlib.Core.List.Perm
use rubble.Prelude.{
  ℕ, zero, suc, ◌+◌, ◌≤◌, ◌<◌, true, false, ◌≡◌, refl, ◌⊎◌, inl, inr, none, List, [], ◌∷◌, ◌++◌,
  Perm, arith, length, length-perm,
}
use rubble.Prelude.Run.{ok, Returns, returns, Returns-map, Returns-if}
use rubble.Resource.{NetworkResource}
use rubble.Queue.{PoolItem}
use rubble.Queue.Layout.{Holds, item_at, key}
use rubble.Pool.{ObjectFactory, State, size}
use rubble.Pool.Invariant.{IsUsable, SameSetup, size-length, send_token-ok}
use rubble.Pool.Upkeep.{too_many_idle, give_back, check_idle}
use rubble.Pool.Rounds.{too_many_idle-lt, check_idle_round_breaks, check_idle_round_takes}
use native.Mathlib.Decide.{dec_lt}

module _ {W : Type 0} (factory : ObjectFactory W) where
  -- The world after Dispose was called for these resources, one after the other.
  abbrev pub disposed_of : List PoolItem → W → W
  disposed_of [] w = w
  disposed_of (item ∷ items) w = disposed_of items (factory.dispose w item.res).1

  -- How checkIdle ends where resources can be disposed of: `left` stay idle, and each of the
  -- others was disposed of, which is all that was done to the world, and has become a token. Either no surplus is left, or the first item is reserved and the
  -- lock is held.
  pub record Trimmed (xs : List PoolItem) (s t : State W) : Type 0 where
    pub left : List PoolItem
    pub gone : List PoolItem
    pub holds : Holds t.pool.idle left
    pub parts : Perm (gone ++ left) xs
    pub disposed : t.world ≡ disposed_of gone s.world
    pub same_inuse : t.pool.inuse ≡ s.pool.inuse
    pub tokens : t.pool.tokens ≡ s.pool.tokens + length gone
    pub setup : SameSetup s.pool t.pool
    pub settled :
        ((t.pool.locked ≡ false) × (too_many_idle t.pool ≡ false))
        ⊎ ((t.pool.locked ≡ true) × (factory.now t.world < key left 0))

  give_back-disposed :
      (s : State W) (res : NetworkResource)
      → (factory.dispose s.world res).0 ≡ none
      → s.pool.tokens < s.pool.capacity
      → give_back factory s res
        ≡ ok (record {
          pool = record s.pool { tokens = s.pool.tokens + 1 };
          world = (factory.dispose s.world res).1;
        })
  unfolding give_back
  give_back-disposed s res gone room = rw (gone, give_back) (rw (send_token-ok s.pool room))

  -- If disposing never fails, the pool is usable, its tokens and resources together do not exceed
  -- the capacity and there is more fuel than idle items, checkIdle returns; the idle items are
  -- split into those that stay and those that Dispose was called for, one after the other, which is
  -- all that was done to the world; one token was sent for each of the latter, the resources in use
  -- stay, and either no surplus is left and the lock is free, or the first item left is reserved
  -- beyond the present and the lock is held.
  pub check_idle-Trimmed :
      (fuel : ℕ) (s : State W) (xs : List PoolItem)
      → ((w : W) (r : NetworkResource) → (factory.dispose w r).0 ≡ none)
      → IsUsable xs s.pool
      → s.pool.tokens + size s.pool ≤ s.pool.capacity
      → length xs < fuel
      → Returns (Trimmed xs s) (check_idle factory fuel s)
  unfolding check_idle
  check_idle-Trimmed zero s xs works u bound enough = absurd (omega arith)
  check_idle-Trimmed (suc fuel) s xs works u bound enough =
      Returns-if (too_many_idle s.pool)
        (λ surplus.
          let some_left = too_many_idle-lt s.pool xs u.holds surplus in
          elim (dec_lt (factory.now s.world) (key xs 0)) [
            | yes reserved ↦ rw (check_idle_round_breaks factory s xs u some_left reserved) (
                returns (record {
                  left = xs;
                  gone = [];
                  holds = u.holds;
                  parts = Perm.rfl;
                  disposed = refl;
                  same_inuse = refl;
                  tokens = omega arith;
                  setup = (refl, refl, refl);
                  settled = inr (refl, reserved);
                }))
            | no free ↦
                let (q, w, e) = check_idle_round_takes factory s xs u some_left (omega arith) in
                let item = item_at xs 0 in
                let taken : State W = record s {
                  pool = record s.pool { idle = q; locked = false };
                } in
                let full = size-length s.pool u.holds in
                let count = length-perm w.same in
                let next : State W = record {
                  pool = record s.pool { idle = q; locked = false; tokens = s.pool.tokens + 1 };
                  world = (factory.dispose s.world item.res).1;
                } in
                rw (e, give_back-disposed taken item.res (works s.world item.res) (omega arith))
                  (Returns-map
                    (check_idle-Trimmed fuel next w.items works
                      (record { holds = w.holds; unlocked = refl })
                      (omega (arith, size-length next.pool w.holds)) (omega arith))
                    λ t trimmed. record {
                      left = trimmed.left;
                      gone = item ∷ trimmed.gone;
                      holds = trimmed.holds;
                      parts = Perm.trans (Perm.cons item trimmed.parts) w.same;
                      disposed = trimmed.disposed;
                      same_inuse = trimmed.same_inuse;
                      tokens = omega (arith, trimmed.tokens);
                      setup = trimmed.setup;
                      settled = trimmed.settled;
                    })
          ])
        (λ fine. returns (record {
          left = xs;
          gone = [];
          holds = u.holds;
          parts = Perm.rfl;
          disposed = refl;
          same_inuse = refl;
          tokens = omega arith;
          setup = (refl, refl, refl);
          settled = inl (u.unlocked, fine);
        }))
