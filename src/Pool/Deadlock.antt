-- ===== src/Pool/Deadlock.antt =====
-- checkIdle with a reserved first item: the lock that is never released.
use rubble.Prelude.{ℕ, suc, ◌<◌, String, true, ◌≡◌, refl, List}
use rubble.Prelude.Run.{ok, blocked}
use rubble.Resource.{NetworkResource}
use rubble.Queue.{PoolItem}
use rubble.Queue.Layout.{key}
use rubble.Pool.{
  SimpleObjectPool, ObjectFactory, State, lock, add_idle, acquire_locked, release_with_reverse,
  stat, add_inuse,
}
use rubble.Pool.Invariant.{IsUsable}
use rubble.Pool.Upkeep.{too_many_idle, check_idle}
use rubble.Pool.Rounds.{check_idle_stuck}
use rubble.Prelude.Int.{ℤ}

-- Where a lock is held, every call that takes it waits.
pub locked_blocks :
    (p : SimpleObjectPool) (id : String) (now : ℕ) (reverse : ℤ) (res : NetworkResource)
    → p.locked ≡ true
    → (acquire_locked p id ≡ blocked)
      × (release_with_reverse now p id reverse ≡ blocked)
      × (stat p id ≡ blocked)
      × (add_idle now p res ≡ blocked)
      × (add_inuse p res ≡ blocked)
unfolding acquire_locked release_with_reverse stat add_idle add_inuse lock
locked_blocks p id now reverse res e = (rw e, rw e, rw e, rw e, rw e)

module _ {W : Type 0} (factory : ObjectFactory W) where
  abbrev pub stuck : State W → State W
  stuck s = record s { pool = record s.pool { locked = true } }

  -- A surplus of idle resources, of which the first is still reserved, makes checkIdle return with
  -- the pool's lock held; from then on every call that takes the lock waits for ever.
  pub check_idle-deadlocks :
      (fuel : ℕ) (s : State W) (xs : List PoolItem) (id : String) (now : ℕ) (reverse : ℤ)
      (res : NetworkResource)
      → IsUsable xs s.pool
      → too_many_idle s.pool ≡ true
      → factory.now s.world < key xs 0
      → (check_idle factory (suc fuel) s ≡ ok (stuck s))
        × (acquire_locked (stuck s).pool id ≡ blocked)
        × (release_with_reverse now (stuck s).pool id reverse ≡ blocked)
        × (stat (stuck s).pool id ≡ blocked)
        × (add_idle now (stuck s).pool res ≡ blocked)
        × (add_inuse (stuck s).pool res ≡ blocked)
  check_idle-deadlocks fuel s xs id now reverse res u surplus reserved =
      let all = locked_blocks (stuck s).pool id now reverse res refl in
      (check_idle_stuck factory fuel s xs u surplus reserved, all.0, all.1, all.2, all.3, all.4)
