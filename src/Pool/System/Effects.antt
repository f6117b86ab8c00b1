-- ===== src/Pool/System/Effects.antt =====
-- What one action of a thread does to the ids and the tokens of the pool and of that thread.
use mathlib.Core.List.Perm
use mathlib.Core.Path.{subst}
use rubble.Prelude.{
  ℕ, suc, ◌+◌, ◌-◌, ◌<◌, String, Bool, true, false, not, ◌&&◌, ◌||◌, ◌≡◌, refl, sym, ◌∙◌, inl, inr,
  ◌⊎◌, List, [], ◌∷◌, ◌++◌, Perm, length, arith, ltb, ltb→lt, Bool-cases,
}
use rubble.Prelude.Run.{Run, ok, blocked}
use rubble.Queue.{PoolItem}
use rubble.Queue.Layout.{Holds}
use rubble.Pool.{SimpleObjectPool, Context, await_token, lock, send_token, Ticker}
use rubble.Pool.Invariant.{Keyed, owned}
use rubble.Pool.Upkeep.{take_surplus, need_addition}
use rubble.Pool.System.{Pc, carried, held}
use rubble.Pool.System.Parts.{Kept, Gained}

-- The pool's idle items are `items` now. Of the ids that pool and thread had together, `lost` are
-- gone, and for each of these there is one token more.
pub record Effect (xs : List PoolItem) (p : SimpleObjectPool) (pc : Pc) (p' : SimpleObjectPool)
    (pc' : Pc) : Type 0 where
  pub items : List PoolItem
  pub holds : Holds p'.idle items
  pub keyed : Keyed p'.inuse
  pub lost : List String
  pub same : Perm (lost ++ (carried pc' ++ owned items p'.inuse)) (carried pc ++ owned xs p.inuse)
  pub balance : p'.tokens + held pc' ≡ p.tokens + held pc + length lost
  pub capacity : p'.capacity ≡ p.capacity

-- A call that answers has found the lock free.
pub was_free :
    {A : Type 0} (p : SimpleObjectPool) {call : Run A} {v : A}
    → (p.locked ≡ true → call ≡ blocked)
    → call ≡ ok v
    → p.locked ≡ false
was_free p waits h = elim (Bool-cases p.locked) [
  | inl held ↦ let wrong = sym (waits held) ∙ h in absurd (ground arith)
  | inr free ↦ free
]

pub take_surplus-blocked :
    (now : ℕ) (p : SimpleObjectPool) → p.locked ≡ true → take_surplus now p ≡ blocked
unfolding take_surplus lock
take_surplus-blocked now p e = rw e

pub need_addition-blocked : (p : SimpleObjectPool) → p.locked ≡ true → need_addition p ≡ blocked
unfolding need_addition lock
need_addition-blocked p e = rw e

pub ok_pool :
    {A : Type 0} {a b : A} {p q : SimpleObjectPool}
    → ◌≡◌ {A = Run (A × SimpleObjectPool)} (ok (a, p)) (ok (b, q))
    → p ≡ q
ok_pool h = cc

pub send_token-cases :
    (p p' : SimpleObjectPool) → send_token p ≡ ok p' → p' ≡ record p { tokens = p.tokens + 1 }
unfolding send_token
send_token-cases p p' h = elim (Bool-cases (ltb p.tokens p.capacity)) [
  | inl room ↦ let sent = rw room at h in cc
  | inr full ↦ let wrong = rw full at h in absurd (ground arith)
]

pub await_token-cases :
    (p p' : SimpleObjectPool) (ctx : Context) (token : Bool)
    → await_token p ctx ≡ ok (token, p')
    → ((token ≡ true) × (0 < p.tokens) × (p' ≡ record p { tokens = p.tokens - 1 }))
      ⊎ ((token ≡ false) × (p' ≡ p))
unfolding await_token
await_token-cases p p' ctx token h =
    elim (Bool-cases (ltb 0 p.tokens && (not ctx.done || ctx.picks_token))) [
      | inl got ↦ let received = rw got at h in inl (cc, ltb→lt 0 p.tokens (ground arith), cc)
      | inr missed ↦
          let h₁ = rw missed at h in
          elim (Bool-cases ctx.done) [
            | inl ended ↦ let left = rw ended at h₁ in inr (cc, cc)
            | inr waits ↦ let wrong = rw waits at h₁ in absurd (ground arith)
          ]
    ]

module _ (xs : List PoolItem) (p : SimpleObjectPool) (holds : Holds p.idle xs)
    (keyed : Keyed p.inuse) where
  -- The ids stay where they are.
  pub still :
      (pc pc' : Pc) (tokens : ℕ) (ticker : Ticker)
      → carried pc' ≡ carried pc
      → tokens + held pc' ≡ p.tokens + held pc
      → Effect xs p pc (record p { tokens = tokens; ticker = ticker }) pc'
  still pc pc' tokens ticker e balance = record {
    items = xs;
    holds = holds;
    keyed = keyed;
    lost = [];
    same = rw e Perm.rfl;
    balance = omega (arith, balance);
    capacity = refl;
  }

  pub from_Kept :
      (pc pc' : Pc) {p' : SimpleObjectPool} (ticker : Ticker)
      → Kept xs p p'
      → carried pc' ≡ carried pc
      → held pc' ≡ held pc
      → Effect xs p pc (record p' { ticker = ticker }) pc'
  from_Kept pc pc' ticker k e same = record {
    items = k.items;
    holds = k.holds;
    keyed = k.keyed;
    lost = [];
    same = rw e (Perm.append_left (carried pc) k.same);
    balance = omega (arith, k.tokens, same);
    capacity = k.capacity;
  }

  pub from_Gained :
      (pc pc' : Pc) {p' : SimpleObjectPool} (id : String)
      → Gained p xs id p'
      → carried pc ≡ id ∷ []
      → carried pc' ≡ []
      → held pc' ≡ held pc
      → Effect xs p pc p' pc'
  from_Gained pc pc' id g e e' same = record {
    items = g.items;
    holds = g.holds;
    keyed = g.keyed;
    lost = [];
    same = rw (e, e') g.same;
    balance = omega (arith, g.tokens, same);
    capacity = g.capacity;
  }

  pub sent :
      (pc pc' : Pc) {p' : SimpleObjectPool}
      → send_token p ≡ ok p'
      → carried pc' ≡ carried pc
      → suc (held pc') ≡ held pc
      → Effect xs p pc p' pc'
  sent pc pc' {p'} h e less =
      subst (λ t. Effect xs p pc t pc') (sym (send_token-cases p p' h))
        (still pc pc' (p.tokens + 1) p.ticker e (omega (arith, less)))
