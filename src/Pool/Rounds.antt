-- ===== src/Pool/Rounds.antt =====
-- One round of the loop of checkIdle.
use rubble.Prelude.{
  ℕ, suc, ◌≤◌, ◌<◌, true, false, ◌≡◌, refl, ap, none, some, List, arith, length, lt→ltb, le→ltb,
}
use rubble.Prelude.Run.{ok, ◌>>=◌, Returns-elim}
use rubble.Queue.{PoolItem, PriorityQueue}
use rubble.Queue.Layout.{Holds, item_at, key}
use rubble.Queue.Removal.{Without, pop-Removed, peek_first}
use rubble.Pool.{SimpleObjectPool, ObjectFactory, State}
use rubble.Pool.Invariant.{IsUsable, lock-ok, unlock-ok}
use rubble.Pool.Upkeep.{too_many_idle, take_surplus, give_back, check_idle_round, check_idle}

pub too_many_idle-lt :
    (p : SimpleObjectPool) (xs : List PoolItem)
    → Holds p.idle xs
    → too_many_idle p ≡ true
    → 0 < length xs
unfolding too_many_idle
too_many_idle-lt p xs h e = ground (arith, ap (λ (q : PriorityQueue). q.size) h.shape)

-- With a reserved first item nothing is taken, and the lock is held.
pub take_surplus-reserved :
    (now : ℕ) (p : SimpleObjectPool) (xs : List PoolItem)
    → IsUsable xs p
    → 0 < length xs
    → now < key xs 0
    → take_surplus now p ≡ ok (none, record p { locked = true })
unfolding take_surplus
take_surplus-reserved now p xs u some_left reserved =
    rw (lock-ok p u.unlocked)
      (rw (peek_first p.idle xs u.holds some_left, ◌>>=◌) (rw (lt→ltb now (key xs 0) reserved)))

-- With a free first item that item is taken out.
pub take_surplus-free :
    (now : ℕ) (p : SimpleObjectPool) (xs : List PoolItem)
    → IsUsable xs p
    → 0 < length xs
    → key xs 0 ≤ now
    → (q : PriorityQueue) × Without 0 xs q
      × (take_surplus now p ≡ ok (some (item_at xs 0).res, record p { idle = q; locked = false }))
unfolding take_surplus
take_surplus-free now p xs u some_left free =
    let ((popped, q), e, (first, w)) = Returns-elim (pop-Removed p.idle xs u.holds some_left) in
    (
      q,
      w,
      rw (lock-ok p u.unlocked) (
          rw (peek_first p.idle xs u.holds some_left, ◌>>=◌)
            (rw (le→ltb now (key xs 0) free, e)
              (rw (first, unlock-ok (record p { idle = q; locked = true }) refl)))),
    )

module _ {W : Type 0} (factory : ObjectFactory W) where
  -- With a reserved first item the loop breaks, and the lock is held.
  pub check_idle_round_breaks :
      (s : State W) (xs : List PoolItem)
      → IsUsable xs s.pool
      → 0 < length xs
      → factory.now s.world < key xs 0
      → check_idle_round factory s ≡ ok (false, record s { pool = record s.pool { locked = true } })
  unfolding check_idle_round
  check_idle_round_breaks s xs u some_left reserved =
      rw (take_surplus-reserved (factory.now s.world) s.pool xs u some_left reserved)

  pub check_idle_stuck :
      (fuel : ℕ) (s : State W) (xs : List PoolItem)
      → IsUsable xs s.pool
      → too_many_idle s.pool ≡ true
      → factory.now s.world < key xs 0
      → check_idle factory (suc fuel) s ≡ ok (record s { pool = record s.pool { locked = true } })
  unfolding check_idle
  check_idle_stuck fuel s xs u surplus reserved =
      let some_left = too_many_idle-lt s.pool xs u.holds surplus in
      rw (surplus, check_idle_round_breaks s xs u some_left reserved)

  -- With a free first item a round takes it out and gives it back.
  pub check_idle_round_takes :
      (s : State W) (xs : List PoolItem)
      → IsUsable xs s.pool
      → 0 < length xs
      → key xs 0 ≤ factory.now s.world
      → (q : PriorityQueue) × Without 0 xs q
        × (check_idle_round factory s ≡ (
            give_back factory
              (record s { pool = record s.pool { idle = q; locked = false } })
              (item_at xs 0).res
            >>= λ t. ok (true, t)))
  unfolding check_idle_round
  check_idle_round_takes s xs u some_left free =
      let (q, w, e) = take_surplus-free (factory.now s.world) s.pool xs u some_left free in
      (q, w, rw e)
