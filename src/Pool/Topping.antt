-- ===== src/Pool/Topping.antt =====
-- checkInsufficient: the missing idle resources are created, each for a token.
use Prim.Native.Nat.{min}
use rubble.Prelude.{
  ℕ, ◌+◌, ◌-◌, ◌≤◌, ◌≡◌, refl, ap, inl, inr, List, arith, Bool-cases, length, ltb, leb, leb→le,
}
use rubble.Prelude.Run.{Returns, returns, Returns-bind, Returns-if}
use rubble.Prelude.Int.{pos_part}
use rubble.Queue.{PoolItem, PriorityQueue}
use rubble.Pool.{ObjectFactory, State, size, notify, wake, Ticker}
use rubble.Pool.Invariant.{IsUsable, SameSetup}
use rubble.Pool.Upkeep.{check_insufficient}
use rubble.Pool.Growth.{take_tokens-min, need_addition-min, Grown, create_missing-Grown}

-- The pool `t` after checkInsufficient made `made` resources in the pool of `s`: no more than were
-- missing, each for one token.
pub record Topped {W : Type 0} (xs : List PoolItem) (s t : State W) : Type 0 where
  pub made : ℕ
  pub items : List PoolItem
  pub usable : IsUsable items t.pool
  pub more : length items ≡ length xs + made
  pub missing : made ≤ min (s.pool.min_idle - length xs) (s.pool.capacity - size s.pool)
  pub same_inuse : t.pool.inuse ≡ s.pool.inuse
  pub spent : t.pool.tokens + made ≡ s.pool.tokens
  pub setup : SameSetup s.pool t.pool

module _ {W : Type 0} (factory : ObjectFactory W) where
  unspent :
      (s : State W) (xs : List PoolItem) (n : ℕ)
      → IsUsable xs s.pool
      → n ≡ s.pool.tokens
      → Topped xs s (record s { pool = record s.pool { tokens = n } })
  unspent s xs n u e = record {
    made = 0;
    items = xs;
    usable = record { holds = u.holds; unlocked = u.unlocked };
    more = omega arith;
    missing = omega arith;
    same_inuse = refl;
    spent = omega arith;
    setup = (refl, refl, refl);
  }

  grown :
      (s : State W) (xs : List PoolItem) (t : State W) (n made failed : ℕ) (k : Ticker)
      → Grown xs (record s { pool = record s.pool { tokens = n } }) t made failed
      → made ≤ min (s.pool.min_idle - length xs) (s.pool.capacity - size s.pool)
      → n + failed + made ≡ s.pool.tokens
      → Topped xs s (record t { pool = record t.pool { ticker = k } })
  grown s xs t n made failed k g few sum = record {
    made = made;
    items = g.items;
    usable = record { holds = g.usable.holds; unlocked = g.usable.unlocked };
    more = g.more;
    missing = few;
    same_inuse = g.same_inuse;
    spent = omega (arith, g.tokens);
    setup = g.setup;
  }

  -- With tokens and resources within the capacity, checkInsufficient returns, whether or not
  -- resources can be created.
  pub check_insufficient-Topped :
      (s : State W) (xs : List PoolItem)
      → IsUsable xs s.pool
      → s.pool.tokens + size s.pool ≤ s.pool.capacity
      → Returns (Topped xs s) (check_insufficient factory s)
  unfolding check_insufficient notify
  check_insufficient-Topped s xs u bound =
      let (n, e, want) = need_addition-min s.pool u.unlocked in
      let count = ap (λ (q : PriorityQueue). q.size) u.holds.shape in
      let got = min (pos_part n) s.pool.tokens in
      rw e (
        rw (take_tokens-min (pos_part n) s.pool 0) (
          Returns-if (leb (pos_part n) 0) (λ _. returns (unspent s xs s.pool.tokens u refl))
            (λ _.
              Returns-if (leb (0 + got) 0)
                (λ none_got. returns (
                  unspent s xs (s.pool.tokens - got) u
                    (omega (arith, leb→le (0 + got) 0 none_got))))
                (λ _.
                  Returns-bind
                    (create_missing-Grown factory (0 + got)
                      (record s { pool = record s.pool { tokens = s.pool.tokens - got } }) xs 0
                      (record { holds = u.holds; unlocked = u.unlocked }) (omega arith))
                    λ (c, t) (made, failed, sum, total, g).
                      let top = λ (k : Ticker).
                        grown s xs t (s.pool.tokens - got) made failed k g
                          (omega (arith, want, count)) (omega arith) in
                      elim (Bool-cases (ltb 0 c)) [
                        | inl some_left ↦ rw some_left (returns (top (wake t.pool.ticker)))
                        | inr none_left ↦ rw none_left (returns (top t.pool.ticker))
                      ]))))
