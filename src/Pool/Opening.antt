-- ===== src/Pool/Opening.antt =====
-- NewSimpleObjectPool: the pool that the program starts with.
use mathlib.Core.Path.{subst}
use rubble.Resource.{NetworkResource}
use rubble.Prelude.{
  String, sym, ◌-◌, ◌≤◌, ◌<◌, ◌≡◌, refl, ◌∙◌, ◌⊎◌, Option, none, some, List, arith, le→ltb,
}
use rubble.Prelude.Run.{
  ok, Returns, returns, Returns-bind, Result, success, failure, Error, invalid_arguments,
}
use rubble.Queue.{PoolItem}
use rubble.Pool.{ObjectFactory, State, size, working}
use rubble.Pool.Invariant.{IsUsable, SameSetup}
use rubble.Pool.Start.{
  PoolConfig, start_ticker, after_initializer, make_pool, run_initializer, new_simple_object_pool,
}
use rubble.Pool.Filling.{Preloaded, preload-Preloaded}

-- The pool that NewSimpleObjectPool starts with, where `P` says which resources are in use.
pub record Started {W : Type 0} (cfg : PoolConfig W) (P : List (String × NetworkResource) → Type 0)
    (t : State W) : Type 0 where
  pub items : List PoolItem
  pub usable : IsUsable items t.pool
  pub enough : (t.pool.min_idle ≤ t.pool.idle.size) ⊎ (t.pool.capacity ≤ size t.pool)
  pub balanced : t.pool.tokens ≡ t.pool.capacity - size t.pool
  pub min_idle : t.pool.min_idle ≡ cfg.min_idle
  pub working : t.pool.ticker ≡ working
  pub in_use : P t.pool.inuse

-- What an initializer may do: it reports no error, and only makes resources idle or in use.
pub record Initialized {W : Type 0} (cfg : PoolConfig W)
    (P : List (String × NetworkResource) → Type 0) (r : Option Error × State W) : Type 0 where
  pub no_error : r.0 ≡ none
  pub items : List PoolItem
  pub usable : IsUsable items r.1.pool
  pub no_tokens : r.1.pool.tokens ≡ 0
  pub setup : SameSetup (make_pool cfg) r.1.pool
  pub in_use : P r.1.pool.inuse

-- What NewSimpleObjectPool answers when nothing in its configuration is refused: the error of a
-- resource that could not be created, or a pool that is ready.
abbrev pub Opened :
    {W : Type 0}
    → ObjectFactory W
    → PoolConfig W
    → (List (String × NetworkResource) → Type 0)
    → Result (State W) × W
    → Type 0
Opened {W} factory cfg P (failure e, w) = (v : W) × ((factory.create v "").0 ≡ failure e)
Opened factory cfg P (success t, w) = Started cfg P t

module _ {W : Type 0} (factory : ObjectFactory W) where
  -- A configuration whose sizes do not fit is refused before anything is created.
  pub new_simple_object_pool-refuses :
      (cfg : PoolConfig W) (w : W)
      → (cfg.max_idle < cfg.min_idle) ⊎ (cfg.capacity < cfg.max_idle)
      → new_simple_object_pool factory cfg w ≡ ok (failure invalid_arguments, w)
  unfolding new_simple_object_pool
  new_simple_object_pool-refuses cfg w bad = ground arith

  start_ticker-Opened :
      (cfg : PoolConfig W) (P : List (String × NetworkResource) → Type 0) (s : State W)
      (xs : List PoolItem) (r : Option Error × State W)
      → s.pool.min_idle ≡ cfg.min_idle
      → P s.pool.inuse
      → Preloaded factory xs s r
      → Opened factory cfg P (start_ticker factory r)
  unfolding start_ticker size
  start_ticker-Opened cfg P s xs (some e, t) kept p (l, ended, tokens) = ended
  start_ticker-Opened cfg P s xs (none, t) kept p (l, ended, tokens) = record {
    items = l.items;
    usable = record { holds = l.usable.holds; unlocked = l.usable.unlocked };
    enough = ended;
    balanced = tokens refl;
    min_idle = l.setup.2 ∙ kept;
    working = refl;
    in_use = subst P (sym l.same_inuse) p;
  }

  after_initializer-Opened :
      (cfg : PoolConfig W) (P : List (String × NetworkResource) → Type 0)
      (r : Option Error × State W)
      → Initialized cfg P r
      → Returns (Opened factory cfg P) (after_initializer factory r)
  unfolding after_initializer make_pool
  after_initializer-Opened cfg P (none, s) i =
      Returns-bind (preload-Preloaded factory s i.items i.usable i.no_tokens)
        λ r p. returns (start_ticker-Opened cfg P s i.items r i.setup.2 i.in_use p)
  after_initializer-Opened cfg P (some e, s) i = absurd (ground (arith, i.no_error))

  -- NewSimpleObjectPool returns for every configuration whose sizes fit and whose initializer
  -- works: with a pool that is ready, or with the error of a Create.
  pub new_simple_object_pool-Opened :
      (cfg : PoolConfig W) (P : List (String × NetworkResource) → Type 0) (w : W)
      → cfg.min_idle ≤ cfg.max_idle
      → cfg.max_idle ≤ cfg.capacity
      → Returns
          (Initialized cfg P)
          (run_initializer cfg (record { pool = make_pool cfg; world = w }))
      → Returns (Opened factory cfg P) (new_simple_object_pool factory cfg w)
  unfolding new_simple_object_pool
  new_simple_object_pool-Opened cfg P w low high init =
      rw (le→ltb cfg.max_idle cfg.min_idle low, le→ltb cfg.capacity cfg.max_idle high)
        (Returns-bind init (after_initializer-Opened cfg P))
