-- ===== src/Pool.antt =====
-- pkg/pool/pool.go: SimpleObjectPool, its lock, its channels, and the calls that clients make.
-- A call that fails returns its error beside the pool, since it may have changed the pool.
-- The mutex is a flag: Lock on a mutex that is held waits, and a call that nothing in it can let
-- go on is `blocked`. The token channel is the number of tokens in its buffer, whose size is the
-- capacity. The sizes of a configuration are taken to be at least 0.
pub mod Invariant
pub mod Lending
pub mod Returning
pub mod Supply
pub mod Keys
pub mod Upkeep
pub mod Rounds
pub mod Deadlock
pub mod Trimming
pub mod Divergence
pub mod Inquiry
pub mod Growth
pub mod NewIdle
pub mod Launch
pub mod Ticking
pub mod Topping
pub mod Filling
pub mod Opening
pub mod Tests
pub mod Start
pub mod System
use rubble.Prelude.{
  ℕ, zero, suc, ◌+◌, ◌-◌, String, Bool, true, false, not, ◌&&◌, ◌||◌, Option, none, some, List, [],
  ◌∷◌, ltb, leb, ◌==◌, if◌then◌else◌, str_eq, length,
}
use rubble.Prelude.Run.{
  Run, ok, panic, blocked, ◌>>=◌, or_panic, Error, no_available_resource, invalid_state, not_found,
  context_done, wrapped, Result, success, failure,
}
use rubble.Prelude.Assoc.{lookup, insert, delete}
use rubble.Prelude.Int.{ℤ, pos, negsuc}
use rubble.Resource.{NetworkResource, get_resource_id}
use rubble.Queue.{Slots, PoolItem, PriorityQueue, push, pop, rob, find, list}

-- The goroutine of startCheckIdleTicker: not started, waiting in its `select`, or at work.
pub data Ticker : Type 0 where
  not_started selecting working : Ticker

pub record SimpleObjectPool : Type 0 where
  pub inuse : List (String × NetworkResource)
  pub idle : PriorityQueue
  pub locked : Bool
  pub max_idle : ℕ
  pub min_idle : ℕ
  pub capacity : ℕ
  pub ticker : Ticker
  pub tokens : ℕ

-- What the pool calls: an ObjectFactory and `time.Now`, over a world that the factory changes.
pub record ObjectFactory (W : Type 0) : Type 0 where
  pub create : W → String → Result NetworkResource × W
  pub dispose : W → NetworkResource → Option Error × W
  pub now : W → ℕ

pub record State (W : Type 0) : Type 0 where
  pub pool : SimpleObjectPool
  pub world : W

-- What the `select` of Acquire sees of its context: whether it is done in time, and which case Go
-- picks when both can run.
pub record Context : Type 0 where
  pub done : Bool
  pub picks_token : Bool

unfoldable pub lock : SimpleObjectPool → Run SimpleObjectPool
lock p = if p.locked then blocked else ok (record p { locked = true })

unfoldable pub unlock : SimpleObjectPool → Run SimpleObjectPool
unlock p = if p.locked then ok (record p { locked = false }) else panic

-- `p.tokenCh <- struct{}{}`
unfoldable pub send_token : SimpleObjectPool → Run SimpleObjectPool
send_token p = if ltb p.tokens p.capacity then ok (record p { tokens = p.tokens + 1 }) else blocked

-- The send on notifyCh takes place only if the ticker's goroutine waits for it.
unfoldable pub wake : Ticker → Ticker
wake selecting = working
wake t = t

unfoldable pub notify : SimpleObjectPool → SimpleObjectPool
notify p = record p { ticker = wake p.ticker }

unfoldable pub size : SimpleObjectPool → ℕ
size p = p.idle.size + length p.inuse

unfoldable pub size_locked : SimpleObjectPool → ℕ
size_locked p = p.idle.size + length p.inuse

unfoldable pub add_idle : ℕ → SimpleObjectPool → NetworkResource → Run SimpleObjectPool
add_idle now p resource = do
  p₁ ← lock p
  q ← push p₁.idle (record { res = resource; reverse = now })
  unlock (record p₁ { idle = q })

unfoldable pub add_inuse : SimpleObjectPool → NetworkResource → Run SimpleObjectPool
add_inuse p res = do
  p₁ ← lock p
  unlock (record p₁ { inuse = insert (get_resource_id res) res p₁.inuse })

unfoldable pub get_one_locked : PriorityQueue → String → Run (Option PoolItem × PriorityQueue)
get_one_locked q res_id =
    if str_eq res_id ""
    then pop q
    else (rob q res_id >>= λ (found, r). elim found [
      | none ↦ pop r
      | some item ↦ ok (some item, r)
    ])

-- How the part of Acquire under the lock ends: with a resource, with an error, or with a wait for
-- a token.
pub data Locked : Type 0 where
  acquired : NetworkResource → Locked
  refused : Error → Locked
  awaits : Locked

unfoldable pub acquire_locked : SimpleObjectPool → String → Run (Locked × SimpleObjectPool)
acquire_locked p res_id =
    let take_idle : SimpleObjectPool → Run (Locked × SimpleObjectPool) = λ p₁. do
      (found, q) ← get_one_locked p₁.idle res_id
      item ← or_panic found
      p₂ ←
          unlock
            (record p₁ { idle = q; inuse = insert (get_resource_id item.res) item.res p₁.inuse })
      ok (acquired item.res, p₂)
    in do
      p₁ ← lock p
      if ltb 0 p₁.idle.size
          then take_idle p₁
          else if leb p₁.capacity (size p₁)
          then unlock p₁ >>= (λ p₂. ok (refused no_available_resource, p₂))
          else unlock p₁ >>= (λ p₂. ok (awaits, p₂))

-- The `select` of Acquire: whether it received a token.
unfoldable pub await_token : SimpleObjectPool → Context → Run (Bool × SimpleObjectPool)
await_token p ctx =
    if ltb 0 p.tokens && (not ctx.done || ctx.picks_token)
    then ok (true, record p { tokens = p.tokens - 1 })
    else if ctx.done
    then ok (false, p)
    else blocked

module _ {W : Type 0} (factory : ObjectFactory W) where
  -- Acquire with a token in hand.
  unfoldable pub acquire_new : State W → Run (Result NetworkResource × State W)
  acquire_new s =
      let (made, w) = factory.create s.world "" in
      elim made [
        | success res ↦ (do
          p ← add_inuse s.pool res
          ok (success res, record { pool = p; world = w }))
        | failure e ↦ (do
          p ← send_token s.pool
          ok (failure (wrapped "error create from factory" e), record { pool = p; world = w }))
      ]

  unfoldable pub acquire : State W → Context → String → Run (Result NetworkResource × State W)
  acquire s ctx res_id = acquire_locked s.pool res_id >>= λ (outcome, p). elim outcome [
    | acquired res ↦ ok (success res, record s { pool = p })
    | refused e ↦ ok (failure e, record s { pool = p })
    | awaits ↦ (do
      (token, p₁) ← await_token p ctx
      if token
          then acquire_new (record s { pool = p₁ })
          else ok (failure context_done, record s { pool = p₁ }))
  ]

  unfoldable pub acquire_any : State W → Context → Run (Result NetworkResource × State W)
  acquire_any s ctx = acquire s ctx ""

unfoldable pub stat : SimpleObjectPool → String → Run (Option Error × SimpleObjectPool)
stat p res_id = do
  p₁ ← lock p
  let known : Option NetworkResource = lookup res_id p₁.inuse
  waiting ← (elim known [ some _ ↦ ok none | none ↦ find p₁.idle res_id ])
  p₂ ← unlock p₁
  ok (
    elim known [ some _ ↦ none | none ↦ elim waiting [ some _ ↦ none | none ↦ some not_found ] ],
    p₂,
  )

-- `reverseTo` of ReleaseWithReverse.
unfoldable pub reverse_to : ℕ → ℤ → ℕ
reverse_to now (pos n) = if ltb 0 n then now + n else now
reverse_to now (negsuc n) = now

unfoldable pub release_with_reverse :
    ℕ → SimpleObjectPool → String → ℤ → Run (Option Error × SimpleObjectPool)
release_with_reverse now p res_id reverse = lock p >>= λ p₁. elim (lookup res_id p₁.inuse) [
  | none ↦ (do p₂ ← unlock p₁; ok (some invalid_state, p₂))
  | some res ↦ (do
    q ← push p₁.idle (record { res = res; reverse = reverse_to now reverse })
    p₂ ← unlock (notify (record p₁ { inuse = delete res_id p₁.inuse; idle = q }))
    ok (none, p₂))
]

unfoldable pub release : ℕ → SimpleObjectPool → String → Run (Option Error × SimpleObjectPool)
release now p res_id = release_with_reverse now p res_id (pos 0)

unfoldable pub get_in_use : SimpleObjectPool → List (String × NetworkResource)
get_in_use p = p.inuse

unfoldable pub get_idle : SimpleObjectPool → Run Slots
get_idle p = list p.idle
