-- ===== src/Pool/System/Tests.antt =====
-- Threads on small pools.
use rubble.Prelude.{◌+◌, ◌≡◌, refl, false, none, some, [], ◌∷◌, replicate, length, arith}
use rubble.Prelude.Run.{ok}
use rubble.Queue
use rubble.Prelude.Assoc.{insert}
use rubble.Queue.Layout.{layout, of_items, of_items-Holds}
use rubble.Pool.{
  SimpleObjectPool, size, selecting, acquired, acquire_locked, lock, unlock, get_one_locked,
}
use rubble.Pool.Tests.{busy, busy-IsUsable, two, item, resource, distinct_ids}
use rubble.Pool.Upkeep.{too_many_idle}
use rubble.Pool.System.{
  System, Step, Reach, Move, owing, resting, after_lock, checking, trimming, held, all_held,
  carried, all_carried,
}
use rubble.Pool.System.Balance.{Balanced, conserved}
use rubble.Pool.System.Stuck.{Frozen, race-Frozen}

-- One thread owes a token; the ticker sees a surplus.
abbrev before_test : System
before_test = record {
  pool = record busy { capacity = 4 };
  threads = owing ∷ checking false ∷ [];
  extras = 0;
}

abbrev after_test : System
after_test = record {
  pool = record busy { capacity = 4 };
  threads = owing ∷ trimming false ∷ [];
  extras = 0;
}

before_test-Balanced : Balanced before_test
unfolding carried all_carried held all_held
before_test-Balanced = record {
  items = two;
  holds = busy-IsUsable.holds;
  keyed = (refl, tt);
  distinct = distinct_ids;
  balance = refl;
}

tested : Reach before_test after_test
unfolding too_many_idle
tested = Reach.later Reach.start (Step.move (owing ∷ []) [] refl (Move.surplus refl))

conserved_example :
    after_test.pool.tokens
      + size after_test.pool
      + all_held after_test.threads
      + length (all_carried after_test.threads)
    ≡ 4
conserved_example = conserved before_test after_test before_test-Balanced tested

-- No resource may stay idle, and one is.
abbrev single : SimpleObjectPool
single = record {
  inuse = [];
  idle = of_items (item "a" 10 ∷ []) (replicate 9 none);
  locked = false;
  max_idle = 0;
  min_idle = 0;
  capacity = 1;
  ticker = selecting;
  tokens = 0;
}

abbrev taken_out : SimpleObjectPool
taken_out = record single {
  inuse = ("a", resource "a") ∷ [];
  idle = of_items [] (some (item "a" 10) ∷ replicate 9 none);
}

taken_single : acquire_locked single "" ≡ ok (acquired (resource "a"), taken_out)
unfolding acquire_locked lock unlock get_one_locked insert layout Queue.pop Queue.rob_at Queue.load
    Queue.store Queue.deref Queue.swap Queue.bubble_down Queue.bubble_down_loop
taken_single = refl

abbrev raced : System
raced = record { pool = taken_out; threads = resting ∷ trimming false ∷ []; extras = 0 }

race-Frozen_example :
    (t : System) × Step raced t × ((u : System) → Reach t u → Frozen taken_out u.pool)
race-Frozen_example =
    race-Frozen raced (resting ∷ []) [] false [] 20 refl
      (of_items-Holds [] (some (item "a" 10) ∷ replicate 9 none) (omega arith)) refl refl

-- The ticker sees the surplus, and before it takes the lock a client acquires the resource.
race : Reach (record { pool = single; threads = resting ∷ checking false ∷ []; extras = 0 }) raced
unfolding too_many_idle after_lock size
race =
    Reach.later (Reach.later Reach.start (Step.move (resting ∷ []) [] refl (Move.surplus refl)))
      (Step.move [] (trimming false ∷ []) refl (Move.acquire "" taken_single))
