-- ===== src/Pool/Upkeep.antt =====
-- pkg/pool/pool.go: the work of the ticker's goroutine, which gives surplus resources back and
-- creates missing ones.
use rubble.Prelude.{
  ℕ, zero, suc, ◌-◌, Bool, true, false, ◌&&◌, ◌||◌, Option, none, some, ltb, leb, if◌then◌else◌,
}
use rubble.Prelude.Run.{Run, ok, out_of_fuel, ◌>>=◌, or_panic, success, failure}
use rubble.Prelude.Int.{ℤ, pos_part, sub_ℕ, ltb_ℤ}
use rubble.Resource.{NetworkResource}
use rubble.Queue.{pop, peek}
use rubble.Pool.{
  SimpleObjectPool, ObjectFactory, State, selecting, working, lock, unlock, send_token, notify,
  size, size_locked, add_idle,
}

unfoldable pub too_many_idle : SimpleObjectPool → Bool
too_many_idle p = ltb p.max_idle p.idle.size || (ltb 0 p.idle.size && ltb p.capacity (size p))

-- The surplus that needAddition answers, an `int`.
unfoldable pub need_addition : SimpleObjectPool → Run (ℤ × SimpleObjectPool)
need_addition p = do
  p₁ ← lock p
  let addition = sub_ℕ p₁.min_idle p₁.idle.size
  let left = sub_ℕ p₁.capacity (size_locked p₁)
  p₂ ← unlock p₁
  ok ((if ltb_ℤ left addition then left else addition), p₂)

-- The loop that receives at most `rounds` tokens without waiting, and their number.
unfoldable pub take_tokens : ℕ → SimpleObjectPool → ℕ → ℕ × SimpleObjectPool
take_tokens zero p acquired = (acquired, p)
take_tokens (suc rounds) p acquired =
    let got = take_tokens rounds (record p { tokens = p.tokens - 1 }) (suc acquired) in
    let missed = take_tokens rounds p acquired in if ltb 0 p.tokens then got else missed

-- The part of the loop of checkIdle under the lock: the resource that is to be disposed of. Where the
-- loop breaks there is none, and the lock is held.
unfoldable pub take_surplus : ℕ → SimpleObjectPool → Run (Option NetworkResource × SimpleObjectPool)
take_surplus now p =
    let take : SimpleObjectPool → Run (Option NetworkResource × SimpleObjectPool) = λ p₁. do
      (popped, q) ← pop p₁.idle
      p₂ ← unlock (record p₁ { idle = q })
      item ← or_panic popped
      ok (some item.res, p₂)
    in lock p >>= λ p₁. peek p₁.idle >>= λ first. elim first [
      | none ↦ ok (none, p₁)
      | some item ↦ if ltb now item.reverse then ok (none, p₁) else take p₁
    ]

module _ {W : Type 0} (factory : ObjectFactory W) where
  -- `dispose`, which nothing calls.
  unfoldable pub dispose : State W → NetworkResource → Run (State W)
  dispose s res =
      let (err, w) = factory.dispose s.world res in
      elim err [
        | some _ ↦ ok (record s { world = w })
        | none ↦ (do p ← send_token s.pool; ok (record { pool = p; world = w }))
      ]

  -- After the pop: the resource is disposed of, or becomes idle again.
  unfoldable pub give_back : State W → NetworkResource → Run (State W)
  give_back s res =
      let (err, w) = factory.dispose s.world res in
      elim err [
        | none ↦ (do p ← send_token s.pool; ok (record { pool = p; world = w }))
        | some _ ↦ (do p ← add_idle (factory.now w) s.pool res; ok (record { pool = p; world = w }))
      ]

  -- The body of the loop of checkIdle, and whether the loop goes on.
  unfoldable pub check_idle_round : State W → Run (Bool × State W)
  check_idle_round s = take_surplus (factory.now s.world) s.pool >>= λ (taken, p). elim taken [
    | none ↦ ok (false, record s { pool = p })
    | some res ↦ (do t ← give_back (record s { pool = p }) res; ok (true, t))
  ]

  unfoldable pub check_idle : ℕ → State W → Run (State W)
  check_idle zero s = out_of_fuel
  check_idle (suc fuel) s =
      let round =
        check_idle_round s >>= λ (more, t). elim more [ true ↦ check_idle fuel t | false ↦ ok t ] in
      if too_many_idle s.pool then round else ok s

  -- The loop that creates `left` resources, and the number of those that failed.
  unfoldable pub create_missing : ℕ → State W → ℕ → Run (ℕ × State W)
  create_missing zero s left_count = ok (left_count, s)
  create_missing (suc left) s left_count =
      let (made, w) = factory.create s.world "" in
      elim made [
        | failure _ ↦
            send_token s.pool
            >>= (λ p. create_missing left (record { pool = p; world = w }) (suc left_count))
        | success res ↦
            add_idle (factory.now w) s.pool res
            >>= (λ p. create_missing left (record { pool = p; world = w }) left_count)
      ]

  unfoldable pub check_insufficient : State W → Run (State W)
  check_insufficient s = do
    (addition, p₁) ← need_addition s.pool
    let (acquired, p₂) = take_tokens (pos_part addition) p₁ 0
    let create : Run (State W) = do
      (left_count, t) ← create_missing acquired (record s { pool = p₂ }) 0
      ok (if ltb 0 left_count then record t { pool = notify t.pool } else t)
    if leb (pos_part addition) 0
        then ok (record s { pool = p₁ })
        else if leb acquired 0
        then ok (record s { pool = p₂ })
        else create

  -- startCheckIdleTicker up to its first `select`, and a round of its loop.
  unfoldable pub ticker_start : ℕ → State W → Run (State W)
  ticker_start fuel s = do
    t ← check_idle fuel (record s { pool = record s.pool { ticker = working } })
    ok (record t { pool = record t.pool { ticker = selecting } })

  unfoldable pub ticker_round : ℕ → State W → Run (State W)
  ticker_round fuel s = do
    t ← check_idle fuel (record s { pool = record s.pool { ticker = working } })
    u ← check_insufficient t
    ok (record u { pool = record u.pool { ticker = selecting } })
