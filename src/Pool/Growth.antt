-- ===== src/Pool/Growth.antt =====
-- The loop of checkInsufficient: resources that are created, and the tokens that stand for them.
use Prim.Native.Nat.{min}
use rubble.Prelude.{
  ℕ, zero, suc, ◌+◌, ◌-◌, ◌≤◌, Bool, true, false, ◌≡◌, refl, sym, ap, ◌∙◌, inl, inr, List, arith,
  length, length-perm, if◌then◌else◌,
}
use rubble.Prelude.Run.{ok, Returns, returns, Returns-bind, Returns-map, Result-cases}
use rubble.Prelude.Int.{ℤ, pos_part, sub_ℕ, ltb_ℤ}
use rubble.Queue.{PoolItem}
use rubble.Pool.{SimpleObjectPool, ObjectFactory, State, size, size_locked}
use rubble.Pool.Invariant.{IsUsable, SameSetup, lock-ok, unlock-ok, add_idle-Added, send_token-ok}
use rubble.Pool.Upkeep.{need_addition, take_tokens, create_missing}

-- The loop takes as many tokens as there are, and at most one for each round.
pub take_tokens-min :
    (rounds : ℕ) (p : SimpleObjectPool) (acquired : ℕ)
    → take_tokens rounds p acquired
      ≡ (acquired + min rounds p.tokens, record p { tokens = p.tokens - min rounds p.tokens })
unfolding take_tokens
take_tokens-min zero p acquired = ground arith
take_tokens-min (suc rounds) p acquired = ground (
  arith,
  take_tokens-min rounds (record p { tokens = p.tokens - 1 }) (suc acquired),
  take_tokens-min rounds p acquired,
)

-- needAddition, as far as it is positive: what is missing from the least number of idle resources,
-- within the capacity.
pub need_addition-min :
    (p : SimpleObjectPool)
    → p.locked ≡ false
    → (n : ℤ) × (need_addition p ≡ ok (n, p))
      × (pos_part n ≡ min (p.min_idle - p.idle.size) (p.capacity - size p))
unfolding need_addition size size_locked
need_addition-min p free =
    let addition = sub_ℕ p.min_idle p.idle.size in
    let left = sub_ℕ p.capacity (p.idle.size + length p.inuse) in
    (
      (if ltb_ℤ left addition then left else addition),
      rw (lock-ok p free) (
          rw (unlock-ok (record p { locked = true }) refl) (
            ap
              (λ (b : Bool).
                ok (if ltb_ℤ left addition then left else addition, record p { locked = b }))
              (sym free))),
      ground arith,
    )

-- The pool `t` after `made` resources were created and `failed` tokens sent back.
pub record Grown {W : Type 0} (xs : List PoolItem) (s t : State W) (made failed : ℕ) : Type 0 where
  pub items : List PoolItem
  pub usable : IsUsable items t.pool
  pub more : length items ≡ length xs + made
  pub same_inuse : t.pool.inuse ≡ s.pool.inuse
  pub tokens : t.pool.tokens ≡ s.pool.tokens + failed
  pub setup : SameSetup s.pool t.pool

module _ {W : Type 0} (factory : ObjectFactory W) where
  -- Each round creates a resource or sends its token back.
  pub create_missing-Grown :
      (left : ℕ) (s : State W) (xs : List PoolItem) (count : ℕ)
      → IsUsable xs s.pool
      → s.pool.tokens + left ≤ s.pool.capacity
      → Returns
          (λ (c, t).
            (made : ℕ) × (failed : ℕ) × (made + failed ≡ left)
            × (c ≡ count + failed)
            × Grown xs s t made failed)
          (create_missing factory left s count)
  unfolding create_missing
  create_missing-Grown zero s xs count u room = returns (
    0,
    0,
    omega arith,
    omega arith,
    record {
      items = xs;
      usable = u;
      more = omega arith;
      same_inuse = refl;
      tokens = omega arith;
      setup = (refl, refl, refl);
    },
  )
  create_missing-Grown (suc left) s xs count u room =
      elim (Result-cases (factory.create s.world "").0) [
        | inl (res, e) ↦
            rw (e, create_missing)
              (Returns-bind (add_idle-Added _ s.pool xs res u) λ p a.
                Returns-map
                  (create_missing-Grown left
                    (record { pool = p; world = (factory.create s.world "").1 }) a.items count
                    a.usable (omega (arith, a.same_tokens, a.setup.0)))
                  λ r (made, failed, sum, total, g). (
                    suc made,
                    failed,
                    omega arith,
                    total,
                    record {
                      items = g.items;
                      usable = g.usable;
                      more = omega (arith, g.more, length-perm a.added);
                      same_inuse = g.same_inuse ∙ a.same_inuse;
                      tokens = omega (arith, g.tokens, a.same_tokens);
                      setup = (g.setup.0 ∙ a.setup.0, g.setup.1 ∙ a.setup.1, g.setup.2 ∙ a.setup.2);
                    },
                  ))
        | inr (err, e) ↦
            rw (e, create_missing)
              (rw (send_token-ok s.pool (omega arith)) (
                Returns-map
                  (create_missing-Grown left
                    (record {
                      pool = record s.pool { tokens = s.pool.tokens + 1 };
                      world = (factory.create s.world "").1;
                    })
                    xs (suc count) (record { holds = u.holds; unlocked = u.unlocked })
                    (omega arith))
                  λ r (made, failed, sum, total, g). (
                    made,
                    suc failed,
                    omega arith,
                    omega arith,
                    record {
                      items = g.items;
                      usable = g.usable;
                      more = g.more;
                      same_inuse = g.same_inuse;
                      tokens = omega (arith, g.tokens);
                      setup = g.setup;
                    },
                  )))
      ]
