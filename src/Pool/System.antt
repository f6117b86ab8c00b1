-- ===== src/Pool/System.antt =====
-- pkg/pool/pool.go: calls that run at once. Each thread is a client, which calls Acquire, Release
-- and Stat, or the goroutine of the ticker, and stands at a point of the program between two
-- actions on the shared pool. A part of a call under the lock is one action, for the lock keeps
-- others out; where a call returns with the lock held, the lock stays held. The reads of the sizes
-- without the lock, the receives and sends of tokens and the calls of the factory are actions too.
pub mod Parts
pub mod Effects
pub mod Actions
pub mod Balance
pub mod Stuck
pub mod Tests
use rubble.Prelude.{
  ℕ, zero, suc, ◌+◌, ◌-◌, ◌<◌, String, Bool, true, false, ◌≡◌, Option, none, some, List, [], ◌∷◌,
  ◌++◌, Mem, ltb, if◌then◌else◌,
}
use rubble.Prelude.Run.{ok, Error}
use rubble.Prelude.Int.{ℤ, pos_part}
use rubble.Resource.{NetworkResource, get_resource_id}
use rubble.Queue.{PoolItem}
use rubble.Queue.Layout.{Holds}
use rubble.Pool.{
  SimpleObjectPool, Context, Ticker, selecting, working, Locked, acquired, refused, awaits,
  acquire_locked, await_token, add_inuse, add_idle, send_token, release_with_reverse, stat, notify,
}
use rubble.Pool.Upkeep.{too_many_idle, take_surplus, need_addition}
use rubble.Pool.Invariant.{owned}

-- The points of the program. A client rests between its calls; in Acquire it waits for a token,
-- creates a resource with it, adds that to the resources in use, or owes the token. For a static
-- address it creates a resource without a token, makes it idle, and then acquires it. The ticker
-- waits in its `select`; in checkIdle it tests for a surplus, takes an item out, disposes of it, and
-- sends a token or puts it back; in checkInsufficient it asks what is missing, takes tokens,
-- creates resources, and keeps each or refunds its token. The flag says whether checkIdle is the one
-- before the first `select`. The numbers are the rounds left, then the tokens taken or the
-- resources that failed.
pub data Pc : Type 0 where
  resting awaiting creating owing : Pc
  adding offering : NetworkResource → Pc
  waiting : Pc
  checking trimming repaying : Bool → Pc
  disposing returning : Bool → NetworkResource → Pc
  needing : Pc
  taking filling refunding : ℕ → ℕ → Pc
  keeping : NetworkResource → ℕ → ℕ → Pc

-- Where Acquire goes on after its part under the lock, and the ticker after checkIdle.
unfoldable pub after_lock : Locked → Pc
after_lock awaits = awaiting
after_lock _ = resting

unfoldable pub after_check : Bool → Pc
after_check true = waiting
after_check false = needing

unfoldable pub leave : Bool → SimpleObjectPool → SimpleObjectPool
leave true p = record p { ticker = selecting }
leave false p = p

unfoldable pub after_trim : Bool → Option NetworkResource → Pc
after_trim first none = after_check first
after_trim first (some res) = disposing first res

unfoldable pub trimmed : Bool → Option NetworkResource → SimpleObjectPool → SimpleObjectPool
trimmed first none p = leave first p
trimmed first (some _) p = p

-- One action of a thread, with the pool before and after. The times, the contexts and what the
-- factory does are any.
pub data Move (p : SimpleObjectPool) : Pc → SimpleObjectPool → Pc → Type 0 where
  acquire :
      (res_id : String) {outcome : Locked} {p' : SimpleObjectPool}
      → acquire_locked p res_id ≡ ok (outcome, p')
      → Move p resting p' (after_lock outcome)
  receive :
      (ctx : Context) {token : Bool} {p' : SimpleObjectPool}
      → await_token p ctx ≡ ok (token, p')
      → Move p awaiting p' (if token then creating else resting)
  create_failed : Move p creating p owing
  add :
      {res : NetworkResource} {p' : SimpleObjectPool}
      → add_inuse p res ≡ ok p'
      → Move p (adding res) p' resting
  offer :
      (now : ℕ) {res : NetworkResource} {p' : SimpleObjectPool}
      → add_idle now p res ≡ ok p'
      → Move p (offering res) p' resting
  pay : {p' : SimpleObjectPool} → send_token p ≡ ok p' → Move p owing p' resting
  release :
      (now : ℕ) (res_id : String) (reverse : ℤ) {err : Option Error} {p' : SimpleObjectPool}
      → release_with_reverse now p res_id reverse ≡ ok (err, p')
      → Move p resting p' resting
  ask :
      (res_id : String) {err : Option Error} {p' : SimpleObjectPool}
      → stat p res_id ≡ ok (err, p')
      → Move p resting p' resting
  wake_up : Move p waiting (record p { ticker = working }) (checking false)
  surplus : {first : Bool} → too_many_idle p ≡ true → Move p (checking first) p (trimming first)
  no_surplus :
      {first : Bool}
      → too_many_idle p ≡ false
      → Move p (checking first) (leave first p) (after_check first)
  trim :
      {first : Bool} (now : ℕ) {taken : Option NetworkResource} {p' : SimpleObjectPool}
      → take_surplus now p ≡ ok (taken, p')
      → Move p (trimming first) (trimmed first taken p') (after_trim first taken)
  disposed :
      {first : Bool} {res : NetworkResource} → Move p (disposing first res) p (repaying first)
  dispose_failed :
      {first : Bool} {res : NetworkResource} → Move p (disposing first res) p (returning first res)
  repay :
      {first : Bool} {p' : SimpleObjectPool}
      → send_token p ≡ ok p'
      → Move p (repaying first) p' (checking first)
  put_back :
      {first : Bool} (now : ℕ) {res : NetworkResource} {p' : SimpleObjectPool}
      → add_idle now p res ≡ ok p'
      → Move p (returning first res) p' (checking first)
  need :
      {addition : ℤ} {p' : SimpleObjectPool}
      → need_addition p ≡ ok (addition, p')
      → Move p needing p' (taking (pos_part addition) 0)
  take_token :
      {rounds count : ℕ}
      → 0 < p.tokens
      → Move p
          (taking (suc rounds) count)
          (record p { tokens = p.tokens - 1 })
          (taking rounds (suc count))
  miss_token :
      {rounds count : ℕ} → p.tokens ≡ 0 → Move p (taking (suc rounds) count) p (taking rounds count)
  fill : {count : ℕ} → Move p (taking 0 count) p (filling count 0)
  fill_failed :
      {left left_count : ℕ} → Move p (filling (suc left) left_count) p (refunding left left_count)
  refund :
      {left left_count : ℕ} {p' : SimpleObjectPool}
      → send_token p ≡ ok p'
      → Move p (refunding left left_count) p' (filling left (suc left_count))
  keep :
      {res : NetworkResource} {left left_count : ℕ} (now : ℕ) {p' : SimpleObjectPool}
      → add_idle now p res ≡ ok p'
      → Move p (keeping res left left_count) p' (filling left left_count)
  done :
      {left_count : ℕ}
      → Move p
          (filling 0 left_count)
          (record (if ltb 0 left_count then notify p else p) { ticker = selecting })
          waiting

-- A thread creates a resource.
pub data Creates : Pc → NetworkResource → Pc → Type 0 where
  by_acquire : {res : NetworkResource} → Creates creating res (adding res)
  by_address : {res : NetworkResource} → Creates resting res (offering res)
  by_filling :
      {res : NetworkResource} {left left_count : ℕ}
      → Creates (filling (suc left) left_count) res (keeping res left left_count)

-- `extras` counts the resources that were made without a token.
pub record System : Type 0 where
  pub pool : SimpleObjectPool
  pub threads : List Pc
  pub extras : ℕ

-- The id of the resource that a thread has in its hands, which the pool does not know.
unfoldable pub carried : Pc → List String
carried (adding res) = get_resource_id res ∷ []
carried (offering res) = get_resource_id res ∷ []
carried (disposing _ res) = get_resource_id res ∷ []
carried (returning _ res) = get_resource_id res ∷ []
carried (keeping res _ _) = get_resource_id res ∷ []
carried _ = []

-- The tokens that a thread has in its hands.
unfoldable pub held : Pc → ℕ
held creating = 1
held owing = 1
held (repaying _) = 1
held (taking _ count) = count
held (filling left _) = left
held (refunding left _) = left + 1
held (keeping _ left _) = left
held _ = 0

-- A thread that has just made a resource for a static address has taken no token for it.
unfoldable pub unbacked : Pc → ℕ
unbacked (offering res) = 1
unbacked _ = 0

unfoldable pub all_held : List Pc → ℕ
all_held [] = 0
all_held (pc ∷ pcs) = held pc + all_held pcs

unfoldable pub all_carried : List Pc → List String
all_carried [] = []
all_carried (pc ∷ pcs) = carried pc ++ all_carried pcs

-- An id that no thread and no place of the pool has.
abbrev pub Unknown : System → String → Type 0
Unknown s id =
    ¬ Mem id (all_carried s.threads)
    × ((xs : List PoolItem) → Holds s.pool.idle xs → ¬ Mem id (owned xs s.pool.inuse))

-- Any thread takes the next action. The factory gives a new resource an id that is not known.
pub data Step (s : System) : System → Type 0 where
  move :
      (before after : List Pc) {pc pc' : Pc} {p' : SimpleObjectPool}
      → s.threads ≡ before ++ pc ∷ after
      → Move s.pool pc p' pc'
      → Step s (record { pool = p'; threads = before ++ pc' ∷ after; extras = s.extras })
  create :
      (before after : List Pc) {pc pc' : Pc} {res : NetworkResource}
      → s.threads ≡ before ++ pc ∷ after
      → Creates pc res pc'
      → Unknown s (get_resource_id res)
      → Step s (record {
        pool = s.pool;
        threads = before ++ pc' ∷ after;
        extras = s.extras + unbacked pc';
      })

pub data Reach (s : System) : System → Type 0 where
  start : Reach s s
  later : {t u : System} → Reach s t → Step t u → Reach s u
