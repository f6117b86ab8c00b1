-- ===== src/Pool/Tests.antt =====
-- Runs of the pool, and its theorems at concrete pools.
use mathlib.Core.List.{Nodup, Nodup-cons, Nodup-nil, not-mem-nil, forall_mem-cons, Mem, mem-cons}
use mathlib.Core.Logic.Or
use native.Mathlib.Bridge.{le_prop}
use mathlib.Core.HLevel.{⊥_prop}
use mathlib.Core.Bool.{false≢true}
use rubble.Prelude.{
  ℕ, ◌+◌, ◌≡◌, ◌≢◌, ◌<◌, refl, sym, ◌∙◌, str_eq, eq_iff, String, true, false, none, some, List, [],
  ◌∷◌, replicate, arith,
}
use rubble.Prelude.Run.{ok, blocked, out_of_fuel, Returns, returns, success, external}
use rubble.Prelude.Assoc.{lookup}
use rubble.Prelude.Int.{pos}
use rubble.Resource.{PortResource}
use rubble.Queue.{PoolItem}
use rubble.Queue.Layout.{blank, of_items, of_items-Holds, item_at}
use rubble.Queue.Search.{id_at}
use rubble.Pool.{
  SimpleObjectPool, ObjectFactory, selecting, acquired, acquire_locked, size, release_with_reverse,
  reverse_to, stat, add_idle, add_inuse,
}
use rubble.Pool.Invariant.{IsUsable, IsSound}
use rubble.Pool.Lending.{Lent, acquire_locked-Lent}
use rubble.Pool.Returning.{Returned, release-Returned}
use rubble.Pool.Upkeep.{too_many_idle, check_idle}
use rubble.Pool.Deadlock.{check_idle-deadlocks, stuck}
use rubble.Pool.Trimming.{Trimmed, check_idle-Trimmed}
use rubble.Pool.Upkeep.{check_insufficient}
use rubble.Pool.Topping.{Topped, check_insufficient-Topped}
use rubble.Pool.Start.{PoolConfig, make_pool, run_initializer, preload, new_simple_object_pool}
use rubble.Pool.Filling.{Preloaded, preload-Preloaded}
use rubble.Pool.Opening.{Initialized, Opened, new_simple_object_pool-Opened}
use rubble.Queue.Contents.{new_priority_queue-Holds}
use rubble.Pool.Divergence.{check_idle-diverges}

abbrev pub resource : String → PortResource
resource id = record { port = record blank.res.port { id = id } }

abbrev pub item : String → ℕ → PoolItem
item id reverse = record { res = resource id; reverse = reverse }

abbrev pub two : List PoolItem
two = item "a" 10 ∷ item "b" 20 ∷ []

-- Two idle resources and one in use, where one may stay idle.
abbrev pub busy : SimpleObjectPool
busy = record {
  inuse = ("c", resource "c") ∷ [];
  idle = of_items two (replicate 8 none);
  locked = false;
  max_idle = 1;
  min_idle = 0;
  capacity = 3;
  ticker = selecting;
  tokens = 0;
}

pub busy-IsUsable : IsUsable two busy
busy-IsUsable = record {
  holds = of_items-Holds two (replicate 8 none) (omega arith);
  unlocked = refl;
}

pub apart : (s t : String) → str_eq s t ≡ false → s ≢ t
apart s t e same = false≢true (sym e ∙ (eq_iff s t).1 same)

-- One more id before a list without it.
pub distinct_cons : (s : String) (l : List String) → ¬ Mem s l → Nodup l → Nodup (s ∷ l)
distinct_cons s l fresh d = Nodup-cons.1 (fresh, d)

pub absent_cons :
    (s t : String) (l : List String) → str_eq s t ≡ false → ¬ Mem s l → ¬ Mem s (t ∷ l)
absent_cons s t l e fresh m = Or.elim ⊥_prop (mem-cons.0 m) (apart s t e) fresh

pub distinct_ids : Nodup {A = String} ("a" ∷ "b" ∷ "c" ∷ [])
distinct_ids =
    distinct_cons "a" _ (absent_cons "a" "b" _ refl (absent_cons "a" "c" _ refl not-mem-nil)) (
      distinct_cons "b" _ (absent_cons "b" "c" _ refl not-mem-nil)
        (distinct_cons "c" _ not-mem-nil Nodup-nil))

pub busy-IsSound : IsSound two busy
busy-IsSound = record { usable = busy-IsUsable; keyed = (refl, tt); distinct = distinct_ids }

-- The world is the time; creating and disposing take one unit.
abbrev pub willing : ObjectFactory ℕ
willing = record {
  create = λ w ip. (success (resource "new"), w + 1);
  dispose = λ w r. (none, w + 1);
  now = λ w. w;
}

abbrev unwilling : ObjectFactory ℕ
unwilling = record willing { dispose = λ w r. (some (external "conflict"), w + 1) }

abbrev wanted : String
wanted = "b"

acquire_locked-Lent_example :
    Returns
      (λ r.
        (i : ℕ) × (r.0 ≡ acquired (item_at two i).res)
        × Lent two busy (item_at two i) r.1
        × (wanted ≢ "" → (j : ℕ) → j < 2 → id_at two j ≡ wanted → id_at two i ≡ wanted))
      (acquire_locked busy wanted)
acquire_locked-Lent_example = acquire_locked-Lent busy two wanted busy-IsSound (omega arith)

release-Returned_example :
    Returns
      (λ r. (r.0 ≡ none) × Returned two busy "c" (reverse_to 7 (pos 300)) r.1)
      (release_with_reverse 7 busy "c" (pos 300))
unfolding lookup
release-Returned_example =
    release-Returned 7 busy two "c" (pos 300) (resource "c") busy-IsSound refl

check_idle-deadlocks_example :
    (check_idle willing 3 (record { pool = busy; world = 5 })
      ≡ ok (stuck willing (record { pool = busy; world = 5 })))
    × (acquire_locked (record busy { locked = true }) "c" ≡ blocked)
    × (release_with_reverse 6 (record busy { locked = true }) "c" (pos 0) ≡ blocked)
    × (stat (record busy { locked = true }) "c" ≡ blocked)
    × (add_idle 6 (record busy { locked = true }) (resource "d") ≡ blocked)
    × (add_inuse (record busy { locked = true }) (resource "d") ≡ blocked)
unfolding too_many_idle
check_idle-deadlocks_example =
    check_idle-deadlocks willing 2 (record { pool = busy; world = 5 }) two "c" 6 (pos 0)
      (resource "d") busy-IsUsable refl (omega arith)

check_idle-Trimmed_example :
    Returns
      (Trimmed willing two (record { pool = busy; world = 15 }))
      (check_idle willing 3 (record { pool = busy; world = 15 }))
unfolding size
check_idle-Trimmed_example =
    check_idle-Trimmed willing 3 (record { pool = busy; world = 15 }) two (λ w r. refl)
      busy-IsUsable (omega arith) (omega arith)

check_idle-diverges_example :
    check_idle unwilling 1000 (record { pool = busy; world = 25 }) ≡ out_of_fuel
unfolding too_many_idle
check_idle-diverges_example =
    check_idle-diverges unwilling 1000 (record { pool = busy; world = 25 }) two
      (record { fails = λ w r. (external "conflict", refl); time_passes = λ w r. omega arith })
      busy-IsUsable refl
      ((forall_mem-cons (λ t. le_prop)).1 (
        omega arith,
        (forall_mem-cons (λ t. le_prop)).1 (omega arith, λ t m. absurd (not-mem-nil m)),
      ))

-- A pool without resources in which the ticker finds too few, and the configuration of another.
abbrev pub lean : SimpleObjectPool
lean = record {
  inuse = [];
  idle = of_items [] (replicate 8 none);
  locked = false;
  max_idle = 3;
  min_idle = 2;
  capacity = 3;
  ticker = selecting;
  tokens = 3;
}

pub lean-IsUsable : IsUsable [] lean
lean-IsUsable = record {
  holds = of_items-Holds [] (replicate 8 none) (omega arith);
  unlocked = refl;
}

check_insufficient-Topped_example :
    Returns
      (Topped [] (record { pool = lean; world = 5 }))
      (check_insufficient willing (record { pool = lean; world = 5 }))
unfolding size
check_insufficient-Topped_example =
    check_insufficient-Topped willing (record { pool = lean; world = 5 }) [] lean-IsUsable
      (omega arith)

abbrev pub emptied : SimpleObjectPool
emptied = record lean { tokens = 0 }

preload-Preloaded_example :
    Returns
      (Preloaded willing [] (record { pool = emptied; world = 5 }))
      (preload willing (record { pool = emptied; world = 5 }))
preload-Preloaded_example =
    preload-Preloaded willing (record { pool = emptied; world = 5 }) []
      (record { holds = lean-IsUsable.holds; unlocked = refl }) refl

abbrev settings : PoolConfig ℕ
settings = record { initializer = none; min_idle = 1; max_idle = 2; capacity = 3 }

settings-Initialized :
    Returns
      (Initialized settings (λ m. m ≡ []))
      (run_initializer settings (record { pool = make_pool settings; world = 5 }))
unfolding run_initializer make_pool
settings-Initialized = returns (record {
  items = [];
  no_error = refl;
  usable = record { holds = new_priority_queue-Holds; unlocked = refl };
  no_tokens = refl;
  setup = (refl, refl, refl);
  in_use = refl;
})

new_simple_object_pool-Opened_example :
    Returns (Opened willing settings (λ m. m ≡ [])) (new_simple_object_pool willing settings 5)
new_simple_object_pool-Opened_example =
    new_simple_object_pool-Opened willing settings (λ m. m ≡ []) 5 (omega arith) (omega arith)
      settings-Initialized
