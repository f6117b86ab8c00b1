-- ===== src/Pool/System/Actions.antt =====
-- The effect of every action of a thread.
use mathlib.Core.List.{Nodup, Nodup-cons}
use mathlib.Core.List.Perm
use mathlib.Core.Path.{subst}
use rubble.Prelude.{
  ℕ, suc, ◌-◌, Bool, true, false, ◌≡◌, refl, sym, ◌∙◌, inl, inr, Option, none, some, List, [], ◌∷◌,
  ◌++◌, Perm, arith, ltb, Bool-cases, if◌then◌else◌,
}
use rubble.Prelude.Run.{ok}
use rubble.Prelude.Int.{pos, pos_part}
use rubble.Resource.{NetworkResource, get_resource_id}
use rubble.Queue.{PoolItem}
use rubble.Queue.Layout.{Holds, blank}
use rubble.Pool.{
  SimpleObjectPool, Context, Locked, acquired, refused, awaits, await_token, notify, selecting,
  working,
}
use rubble.Pool.Invariant.{IsUsable, IsSound, Keyed, owned}
use rubble.Pool.Deadlock.{locked_blocks}
use rubble.Pool.Growth.{need_addition-min}
use rubble.Pool.System.{
  Pc, resting, awaiting, creating, owing, adding, offering, waiting, checking, trimming, repaying,
  disposing, returning, needing, taking, filling, refunding, keeping, carried, held, leave,
  after_lock, after_check, after_trim, trimmed, Move,
}
use rubble.Pool.System.Parts.{
  Returns-at, Kept, kept, acquire_locked-Kept, release-Kept, stat-Kept, add_idle-Gained,
  add_inuse-Gained, Taken, take_surplus-Taken,
}
use rubble.Pool.System.Effects.{
  Effect, was_free, take_surplus-blocked, need_addition-blocked, await_token-cases, ok_pool, still,
  from_Kept, from_Gained, sent,
}

module _ (xs : List PoolItem) (p : SimpleObjectPool) (holds : Holds p.idle xs)
    (keyed : Keyed p.inuse) where
  usable : p.locked ≡ false → IsUsable xs p
  usable free = record { holds = holds; unlocked = free }

  sound : p.locked ≡ false → Nodup (owned xs p.inuse) → IsSound xs p
  sound free distinct = record { usable = usable free; keyed = keyed; distinct = distinct }

  received :
      (ctx : Context) (token : Bool) {p' : SimpleObjectPool}
      → await_token p ctx ≡ ok (token, p')
      → Effect xs p awaiting p' (if token then creating else resting)
  unfolding carried held
  received ctx token {p'} h = elim (await_token-cases p p' ctx token h) [
    | inl (got, some_left, e) ↦
        rw (got, e)
          (still xs p holds keyed awaiting creating (p.tokens - 1) p.ticker refl (omega arith))
    | inr (ended, e) ↦
        rw (ended, e) (still xs p holds keyed awaiting resting p.tokens p.ticker refl refl)
  ]

  left_lock :
      (outcome : Locked) → (carried (after_lock outcome) ≡ []) × (held (after_lock outcome) ≡ 0)
  unfolding after_lock carried held
  left_lock (acquired res) = (refl, refl)
  left_lock (refused e) = (refl, refl)
  left_lock awaits = (refl, refl)

  left_check : (first : Bool) → (carried (after_check first) ≡ []) × (held (after_check first) ≡ 0)
  unfolding after_check carried held
  left_check true = (refl, refl)
  left_check false = (refl, refl)

  -- The end of checkIdle on a pool with the same ids.
  leaves :
      (pc : Pc) (first : Bool) {p' : SimpleObjectPool}
      → carried pc ≡ []
      → held pc ≡ 0
      → Kept xs p p'
      → Effect xs p pc (leave first p') (after_check first)
  unfolding leave
  leaves pc true e n k =
      from_Kept xs p holds keyed pc (after_check true) selecting k ((left_check true).0 ∙ sym e)
        ((left_check true).1 ∙ sym n)
  leaves pc false {p'} e n k =
      from_Kept xs p holds keyed pc (after_check false) p'.ticker k ((left_check false).0 ∙ sym e)
        ((left_check false).1 ∙ sym n)

  trims :
      (first : Bool) (taken : Option NetworkResource) (p' : SimpleObjectPool)
      → Taken p xs (taken, p')
      → Effect xs p (trimming first) (trimmed first taken p') (after_trim first taken)
  unfolding trimmed after_trim Taken carried held
  trims first none p' k = leaves (trimming first) first refl refl k
  trims first (some res) p' (items, h, same_inuse, same, tokens, capacity) = record {
    items = items;
    holds = h;
    keyed = subst Keyed (sym same_inuse) keyed;
    lost = [];
    same =
        subst (λ m. Perm (get_resource_id res ∷ owned items m) (owned xs p.inuse)) (sym same_inuse)
          same;
    balance = omega (arith, tokens);
    capacity = capacity;
  }

  finished :
      (left_count : ℕ)
      → Effect xs p
          (filling 0 left_count)
          (record (if ltb 0 left_count then notify p else p) { ticker = selecting })
          waiting
  unfolding carried held notify
  finished left_count = elim (Bool-cases (ltb 0 left_count)) [
    | inl some_failed ↦
        rw some_failed
          (still xs p holds keyed (filling 0 left_count) waiting p.tokens selecting refl refl)
    | inr none_failed ↦
        rw none_failed
          (still xs p holds keyed (filling 0 left_count) waiting p.tokens selecting refl refl)
  ]

  -- Every action of a thread keeps the ids and the tokens together, but for the disposal of a
  -- resource.
  pub move-Effect :
      {pc pc' : Pc} {p' : SimpleObjectPool}
      → Nodup (carried pc ++ owned xs p.inuse)
      → Move p pc p' pc'
      → Effect xs p pc p' pc'
  unfolding carried held
  move-Effect {p' = p'} n (Move.acquire id {outcome} h) =
      let free = was_free p (λ e. (locked_blocks p id 0 (pos 0) blank.res e).0) h in
      from_Kept xs p holds keyed resting (after_lock outcome) p'.ticker
        (Returns-at (acquire_locked-Kept p xs id (sound free n)) h) (left_lock outcome).0
        (left_lock outcome).1
  move-Effect n (Move.receive ctx {token} h) = received ctx token h
  move-Effect n Move.create_failed =
      still xs p holds keyed creating owing p.tokens p.ticker refl refl
  move-Effect n (Move.add {res} h) =
      let free = was_free p (λ e. (locked_blocks p "" 0 (pos 0) res e).4) h in
      from_Gained xs p holds keyed (adding res) resting (get_resource_id res)
        (Returns-at (add_inuse-Gained p xs res holds keyed free (Nodup-cons.0 n).0) h) refl refl
        refl
  move-Effect n (Move.offer now {res} h) =
      let free = was_free p (λ e. (locked_blocks p "" now (pos 0) res e).3) h in
      from_Gained xs p holds keyed (offering res) resting (get_resource_id res)
        (Returns-at (add_idle-Gained p xs now res (usable free) keyed) h) refl refl refl
  move-Effect n (Move.pay h) = sent xs p holds keyed owing resting h refl refl
  move-Effect {p' = p'} n (Move.release now id reverse h) =
      let free = was_free p (λ e. (locked_blocks p id now reverse blank.res e).1) h in
      from_Kept xs p holds keyed resting resting p'.ticker
        (Returns-at (release-Kept p xs now id reverse (sound free n)) h) refl refl
  move-Effect {p' = p'} n (Move.ask id h) =
      let free = was_free p (λ e. (locked_blocks p id 0 (pos 0) blank.res e).2) h in
      from_Kept xs p holds keyed resting resting p'.ticker
        (Returns-at (stat-Kept p xs id (sound free n)) h) refl refl
  move-Effect n Move.wake_up =
      still xs p holds keyed waiting (checking false) p.tokens working refl refl
  move-Effect n (Move.surplus {first} h) =
      still xs p holds keyed (checking first) (trimming first) p.tokens p.ticker refl refl
  move-Effect n (Move.no_surplus {first} h) =
      leaves (checking first) first refl refl (kept p xs p.locked holds keyed)
  move-Effect n (Move.trim {first} now {taken} {p'} h) =
      let free = was_free p (take_surplus-blocked now p) h in
      trims first taken p' (Returns-at (take_surplus-Taken p xs now (usable free) keyed) h)
  move-Effect n (Move.disposed {first} {res}) = record {
    items = xs;
    holds = holds;
    keyed = keyed;
    lost = get_resource_id res ∷ [];
    same = Perm.rfl;
    balance = omega arith;
    capacity = refl;
  }
  move-Effect n (Move.dispose_failed {first} {res}) =
      still xs p holds keyed (disposing first res) (returning first res) p.tokens p.ticker refl refl
  move-Effect n (Move.repay {first} h) =
      sent xs p holds keyed (repaying first) (checking first) h refl refl
  move-Effect n (Move.put_back {first} now {res} h) =
      let free = was_free p (λ e. (locked_blocks p "" now (pos 0) res e).3) h in
      from_Gained xs p holds keyed (returning first res) (checking first) (get_resource_id res)
        (Returns-at (add_idle-Gained p xs now res (usable free) keyed) h) refl refl refl
  move-Effect {p' = p'} n (Move.need {addition} h) =
      let free = was_free p (need_addition-blocked p) h in
      let (m, e, _) = need_addition-min p free in
      let same = sym (ok_pool (sym e ∙ h)) in
      subst (λ t. Effect xs p needing t (taking (pos_part addition) 0)) (sym same)
        (still xs p holds keyed needing (taking (pos_part addition) 0) p.tokens p.ticker refl refl)
  move-Effect n (Move.take_token {rounds} {count} some_left) =
      still xs p holds keyed (taking (suc rounds) count) (taking rounds (suc count)) (p.tokens - 1)
        p.ticker refl (omega arith)
  move-Effect n (Move.miss_token {rounds} {count} e) =
      still xs p holds keyed (taking (suc rounds) count) (taking rounds count) p.tokens p.ticker
        refl refl
  move-Effect n (Move.fill {count}) =
      still xs p holds keyed (taking 0 count) (filling count 0) p.tokens p.ticker refl refl
  move-Effect n (Move.fill_failed {left} {left_count}) =
      still xs p holds keyed (filling (suc left) left_count) (refunding left left_count) p.tokens
        p.ticker refl (omega arith)
  move-Effect n (Move.refund {left} {left_count} h) =
      sent xs p holds keyed (refunding left left_count) (filling left (suc left_count)) h refl
        (omega arith)
  move-Effect n (Move.keep {res} {left} {left_count} now h) =
      let free = was_free p (λ e. (locked_blocks p "" now (pos 0) res e).3) h in
      from_Gained xs p holds keyed (keeping res left left_count) (filling left left_count)
        (get_resource_id res) (Returns-at (add_idle-Gained p xs now res (usable free) keyed) h) refl
        refl refl
  move-Effect n (Move.done {left_count}) = finished left_count
