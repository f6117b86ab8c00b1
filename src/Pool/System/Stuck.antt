-- ===== src/Pool/System/Stuck.antt =====
-- The lock that checkIdle leaves behind among other threads, and the sends that never wait.
use rubble.Prelude.{
  ℕ, ◌+◌, ◌<◌, Bool, true, false, ◌≡◌, refl, sym, ap, ◌∙◌, inl, inr, none, List, ◌∷◌, ◌++◌, arith,
  length, ltb, Bool-cases,
}
use rubble.Prelude.Run.{Run, ok, blocked, ◌>>=◌}
use rubble.Prelude.Int.{pos}
use rubble.Queue.{PoolItem}
use rubble.Queue.Layout.{Holds, blank}
use rubble.Pool.{SimpleObjectPool, send_token, notify}
use rubble.Pool.Invariant.{lock-ok, send_token-ok}
use rubble.Pool.Deadlock.{locked_blocks}
use rubble.Pool.Upkeep.{take_surplus}
use rubble.Pool.System.{
  Pc, trimming, Move, System, Step, Reach, leave, trimmed, after_trim, held, all_held,
}
use rubble.Pool.System.Parts.{peek_empty}
use rubble.Pool.System.Effects.{
  take_surplus-blocked, need_addition-blocked, send_token-cases, await_token-cases,
}
use rubble.Pool.System.Balance.{Balanced, conserved, held-among}

-- The lock is held, and the resources of the pool are those of `p`.
abbrev pub Frozen : SimpleObjectPool → SimpleObjectPool → Type 0
Frozen p p' = (p'.locked ≡ true) × (p'.inuse ≡ p.inuse) × (p'.idle ≡ p.idle)

-- A call that waits does not answer.
no_answer : {A C : Type 0} {call : Run A} {v : A} → call ≡ blocked → call ≡ ok v → C
no_answer e h = let wrong = sym e ∙ h in absurd (ground arith)

module _ (p : SimpleObjectPool) (e : p.locked ≡ true) where
  leave-Frozen : (first : Bool) → Frozen p (leave first p)
  unfolding leave
  leave-Frozen true = (e, refl, refl)
  leave-Frozen false = (e, refl, refl)

  sent-Frozen : (p' : SimpleObjectPool) → send_token p ≡ ok p' → Frozen p p'
  sent-Frozen p' h = rw (send_token-cases p p' h) (e, refl, refl)

  move-Frozen : {pc pc' : Pc} {p' : SimpleObjectPool} → Move p pc p' pc' → Frozen p p'
  unfolding notify
  move-Frozen (Move.acquire id h) = no_answer (locked_blocks p id 0 (pos 0) blank.res e).0 h
  move-Frozen {p' = p'} (Move.receive ctx {token} h) = elim (await_token-cases p p' ctx token h) [
    | inl (_, _, same) ↦ rw same (e, refl, refl)
    | inr (_, same) ↦ rw same (e, refl, refl)
  ]
  move-Frozen Move.create_failed = (e, refl, refl)
  move-Frozen (Move.add {res} h) = no_answer (locked_blocks p "" 0 (pos 0) res e).4 h
  move-Frozen (Move.offer now {res} h) = no_answer (locked_blocks p "" now (pos 0) res e).3 h
  move-Frozen {p' = p'} (Move.pay h) = sent-Frozen p' h
  move-Frozen (Move.release now id reverse h) =
      no_answer (locked_blocks p id now reverse blank.res e).1 h
  move-Frozen (Move.ask id h) = no_answer (locked_blocks p id 0 (pos 0) blank.res e).2 h
  move-Frozen Move.wake_up = (e, refl, refl)
  move-Frozen (Move.surplus h) = (e, refl, refl)
  move-Frozen (Move.no_surplus {first} h) = leave-Frozen first
  move-Frozen (Move.trim now h) = no_answer (take_surplus-blocked now p e) h
  move-Frozen Move.disposed = (e, refl, refl)
  move-Frozen Move.dispose_failed = (e, refl, refl)
  move-Frozen {p' = p'} (Move.repay h) = sent-Frozen p' h
  move-Frozen (Move.put_back now {res} h) = no_answer (locked_blocks p "" now (pos 0) res e).3 h
  move-Frozen (Move.need h) = no_answer (need_addition-blocked p e) h
  move-Frozen (Move.take_token h) = (e, refl, refl)
  move-Frozen (Move.miss_token h) = (e, refl, refl)
  move-Frozen Move.fill = (e, refl, refl)
  move-Frozen Move.fill_failed = (e, refl, refl)
  move-Frozen {p' = p'} (Move.refund h) = sent-Frozen p' h
  move-Frozen (Move.keep {res} now h) = no_answer (locked_blocks p "" now (pos 0) res e).3 h
  move-Frozen (Move.done {left_count}) = elim (Bool-cases (ltb 0 left_count)) [
    | inl some_failed ↦ rw some_failed (e, refl, refl)
    | inr none_failed ↦ rw none_failed (e, refl, refl)
  ]

step-Frozen : (s t : System) → s.pool.locked ≡ true → Step s t → Frozen s.pool t.pool
step-Frozen s t e (Step.move before after here m) = move-Frozen s.pool e m
step-Frozen s t e (Step.create before after here c new) = (e, refl, refl)

-- From a system whose lock is held between two actions, every system that is reached has its lock
-- held, and the same resources in use and idle.
pub locked-Frozen : (s t : System) → s.pool.locked ≡ true → Reach s t → Frozen s.pool t.pool
locked-Frozen s t e Reach.start = (e, refl, refl)
locked-Frozen s t e (Reach.later {t = u} r step) =
    let (held_u, inuse_u, idle_u) = locked-Frozen s u e r in
    let (held_t, inuse_t, idle_t) = step-Frozen u t held_u step in
    (held_t, inuse_t ∙ inuse_u, idle_t ∙ idle_u)

-- Nothing to take, and the lock is held.
take_surplus-none :
    (now : ℕ) (p : SimpleObjectPool) (xs : List PoolItem)
    → Holds p.idle xs
    → length xs ≡ 0
    → p.locked ≡ false
    → take_surplus now p ≡ ok (none, record p { locked = true })
unfolding take_surplus
take_surplus-none now p xs h empty free =
    rw (lock-ok p free) (rw (peek_empty p xs h empty, ◌>>=◌) refl)

-- When the ticker has seen a surplus, but the others have taken all idle resources before it takes
-- the lock, its next action leaves the lock held; from then on no resource is lent or returned,
-- whatever the threads do.
pub race-Frozen :
    (s : System) (before after : List Pc) (first : Bool) (xs : List PoolItem) (now : ℕ)
    → s.threads ≡ before ++ trimming first ∷ after
    → Holds s.pool.idle xs
    → length xs ≡ 0
    → s.pool.locked ≡ false
    → (t : System) × Step s t × ((u : System) → Reach t u → Frozen s.pool u.pool)
unfolding leave trimmed after_trim
race-Frozen s before after true xs now here h empty free = (
  _,
  Step.move before after here (Move.trim now (take_surplus-none now s.pool xs h empty free)),
  λ u r. locked-Frozen _ u refl r,
)
race-Frozen s before after false xs now here h empty free = (
  _,
  Step.move before after here (Move.trim now (take_surplus-none now s.pool xs h empty free)),
  λ u r. locked-Frozen _ u refl r,
)

-- In every system that is reached from a balanced one, where no resource was made without a token,
-- a thread with a token in its hands can send
-- it: the send does not wait.
pub sends_at_once :
    (s t : System) (before after : List Pc) (pc : Pc)
    → Balanced s
    → Reach s t
    → t.extras ≡ 0
    → t.threads ≡ before ++ pc ∷ after
    → 0 < held pc
    → send_token t.pool ≡ ok (record t.pool { tokens = t.pool.tokens + 1 })
sends_at_once s t before after pc b r none_extra here owes =
    send_token-ok t.pool
      (omega (arith, conserved s t b r, none_extra, ap all_held here ∙ held-among before after pc))
