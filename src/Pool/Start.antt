-- ===== src/Pool/Start.antt =====
-- pkg/pool/pool.go: NewSimpleObjectPool and preload.
use rubble.Prelude.{
  ℕ, zero, suc, ◌+◌, ◌-◌, false, Option, none, some, [], ltb, leb, ◌==◌, if◌then◌else◌,
}
use rubble.Prelude.Run.{
  Run, ok, out_of_fuel, ◌>>=◌, Error, invalid_arguments, Result, success, failure,
}
use rubble.Queue.{new_priority_queue}
use rubble.Pool.{
  SimpleObjectPool, ObjectFactory, State, not_started, working, send_token, size, add_idle,
}

abbrev pub default_max_idle : ℕ
default_max_idle = 20

abbrev pub default_capacity : ℕ
default_capacity = 50

-- The fields of PoolConfig that the pool reads; the factory is a parameter.
pub record PoolConfig (W : Type 0) : Type 0 where
  pub initializer : Option (State W → Run (Option Error × State W))
  pub min_idle : ℕ
  pub max_idle : ℕ
  pub capacity : ℕ

-- The pool that NewSimpleObjectPool sets up before it runs the initializer.
unfoldable pub make_pool : {W : Type 0} → PoolConfig W → SimpleObjectPool
make_pool cfg = record {
  inuse = [];
  idle = new_priority_queue;
  locked = false;
  max_idle = if cfg.max_idle == 0 then default_max_idle else cfg.max_idle;
  min_idle = cfg.min_idle;
  capacity = if cfg.capacity == 0 then default_capacity else cfg.capacity;
  ticker = not_started;
  tokens = 0;
}

unfoldable pub run_initializer :
    {W : Type 0} → PoolConfig W → State W → Run (Option Error × State W)
run_initializer cfg s = elim cfg.initializer [ none ↦ ok (none, s) | some f ↦ f s ]

-- The second loop of preload.
unfoldable pub fill_tokens : ℕ → SimpleObjectPool → Run SimpleObjectPool
fill_tokens zero p = ok p
fill_tokens (suc left) p = do p₁ ← send_token p; fill_tokens left p₁

module _ {W : Type 0} (factory : ObjectFactory W) where
  -- The first loop of preload. Each round makes one more resource idle, so `min_idle + 1` rounds
  -- are enough.
  unfoldable pub preload_loop : ℕ → State W → Run (Option Error × State W)
  preload_loop zero s = out_of_fuel
  preload_loop (suc fuel) s =
      let (made, w) = factory.create s.world "" in
      let round : Run (Option Error × State W) = elim made [
        | failure e ↦ ok (some e, record s { world = w })
        | success res ↦
            add_idle (factory.now w) s.pool res
            >>= (λ p. preload_loop fuel (record { pool = p; world = w }))
      ] in
      if leb s.pool.min_idle s.pool.idle.size
      then ok (none, s)
      else if leb s.pool.capacity (size s.pool)
      then ok (none, s)
      else round

  -- The end of preload. The number of tokens is an `int`, and a negative one sends none.
  unfoldable pub finish_preload : Option Error × State W → Run (Option Error × State W)
  finish_preload (some e, t) = ok (some e, t)
  finish_preload (none, t) = do
    p ← fill_tokens (t.pool.capacity - size t.pool) t.pool
    ok (none, record t { pool = p })

  unfoldable pub preload : State W → Run (Option Error × State W)
  preload s = preload_loop (s.pool.min_idle + 1) s >>= finish_preload

  -- The last step of NewSimpleObjectPool, which starts the ticker's goroutine.
  unfoldable pub start_ticker : Option Error × State W → Result (State W) × W
  start_ticker (some e, t) = (failure e, t.world)
  start_ticker (none, t) =
      (success (record t { pool = record t.pool { ticker = working } }), t.world)

  unfoldable pub after_initializer : Option Error × State W → Run (Result (State W) × W)
  after_initializer (some e, s) = ok (failure e, s.world)
  after_initializer (none, s) = preload s >>= λ r. ok (start_ticker r)

  unfoldable pub new_simple_object_pool : PoolConfig W → W → Run (Result (State W) × W)
  new_simple_object_pool cfg w =
      let start =
        run_initializer cfg (record { pool = make_pool cfg; world = w }) >>= after_initializer in
      if ltb cfg.max_idle cfg.min_idle
      then ok (failure invalid_arguments, w)
      else if ltb cfg.capacity cfg.max_idle
      then ok (failure invalid_arguments, w)
      else start
