-- ===== src/Pool/Ticking.antt =====
-- A round of the ticker that finds no surplus, on a pool that runs.
use mathlib.Core.List.Perm
use Prim.Native.Nat.{min}
use rubble.Prelude.{
  ℕ, zero, suc, ◌+◌, ◌-◌, ◌≤◌, false, ◌≡◌, refl, ◌∙◌, inl, inr, String, List, arith, Bool-cases,
  ltb, leb,
}
use rubble.Prelude.Run.{
  ◌>>=◌, Returns, returns, Returns-bind, Returns-map, Returns-if, Result-cases,
}
use rubble.Prelude.Int.{pos_part}
use rubble.Pool.{ObjectFactory, State, size, Ticker, notify, wake, selecting, working}
use rubble.Pool.Invariant.{add_idle-Added, send_token-ok}
use rubble.Pool.NewIdle.{grown-perm, grown_pool-IsSound}
use rubble.Pool.Supply.{Supply, Running}
use rubble.Pool.Launch.{Settled}
use rubble.Pool.Upkeep.{
  too_many_idle, check_idle_round, create_missing, check_idle, check_insufficient, ticker_round,
}
use rubble.Pool.Growth.{take_tokens-min, need_addition-min}

module _ {W : Type 0} (factory : ObjectFactory W) (Live : W → List String → Type 0)
    (supply : Supply factory Live) where
  with_tokens :
      (s : State W) (n : ℕ) (k : Ticker)
      → Settled Live s
      → Settled Live (record s { pool = record s.pool { tokens = n; ticker = k } })
  with_tokens s n k t = record {
    items = t.items;
    sound = record {
      usable = record { holds = t.sound.holds; unlocked = t.sound.unlocked };
      keyed = t.sound.keyed;
      distinct = t.sound.distinct;
    };
    live = t.live;
  }

  settled : (s : State W) → Running Live s → Settled Live s
  settled s t = record { items = t.items; sound = t.sound; live = t.live }

  running :
      (s : State W) (n : ℕ) (k : Ticker)
      → Settled Live s
      → n ≤ s.pool.capacity
      → Running Live (record s { pool = record s.pool { tokens = n; ticker = k } })
  running s n k t fits =
      let w = with_tokens s n k t in
      record { items = w.items; sound = w.sound; live = w.live; within = fits }

  create_missing-Settled :
      (left : ℕ) (s : State W) (count : ℕ)
      → Settled Live s
      → s.pool.tokens + left ≤ s.pool.capacity
      → Returns
          (λ (c, u).
            Settled Live u × (u.pool.tokens ≤ u.pool.capacity) × (u.pool.inuse ≡ s.pool.inuse))
          (create_missing factory left s count)
  unfolding create_missing
  create_missing-Settled zero s count t room = returns (t, omega arith, refl)
  create_missing-Settled (suc left) s count t room =
      elim (Result-cases (factory.create s.world "").0) [
        | inl (res, made) ↦
            rw (made, create_missing)
              (Returns-bind (add_idle-Added _ s.pool t.items res t.sound.usable) λ p a.
                let (fresh, live) = supply.made s.world "" _ res t.live made in
                Returns-map
                  (create_missing-Settled left
                    (record { pool = p; world = (factory.create s.world "").1 }) count
                    (record {
                      items = a.items;
                      sound = grown_pool-IsSound t.items s.pool p res _ a t.sound fresh;
                      live =
                          supply.same _ _ _ (Perm.symm (grown-perm t.items s.pool p res _ a)) live;
                    })
                    (omega (arith, a.same_tokens, a.setup.0)))
                  λ r (settled, fits, same). (settled, fits, same ∙ a.same_inuse))
        | inr (e, failed) ↦
            rw (failed, create_missing)
              (rw (send_token-ok s.pool (omega arith)) (
                create_missing-Settled left
                  (record {
                    pool = record s.pool { tokens = s.pool.tokens + 1 };
                    world = (factory.create s.world "").1;
                  })
                  (suc count)
                  (record {
                    items = t.items;
                    sound = record {
                      usable = record { holds = t.sound.holds; unlocked = t.sound.unlocked };
                      keyed = t.sound.keyed;
                      distinct = t.sound.distinct;
                    };
                    live = supply.failed s.world "" _ e t.live failed;
                  })
                  (omega arith)))
      ]

  check_insufficient-Running :
      (s : State W)
      → Running Live s
      → Returns (λ u. Running Live u × (u.pool.inuse ≡ s.pool.inuse)) (check_insufficient factory s)
  unfolding check_insufficient notify
  check_insufficient-Running s t =
      let (n, e, want) = need_addition-min s.pool t.sound.unlocked in
      let got = min (pos_part n) s.pool.tokens in
      rw e (
        rw (take_tokens-min (pos_part n) s.pool 0) (
          Returns-if (leb (pos_part n) 0) (λ _. returns (t, refl))
            (λ _.
              Returns-if (leb (0 + got) 0)
                (λ _. returns (
                  running s (s.pool.tokens - got) s.pool.ticker (settled s t)
                      (omega (arith, t.within)),
                  refl,
                ))
                (λ _.
                  Returns-bind
                    (create_missing-Settled (0 + got)
                      (record s { pool = record s.pool { tokens = s.pool.tokens - got } }) 0
                      (with_tokens s (s.pool.tokens - got) s.pool.ticker (settled s t))
                      (omega (arith, t.within)))
                    λ (c, u) (w, fits, same). elim (Bool-cases (ltb 0 c)) [
                      | inl some_left ↦
                          rw some_left
                            (returns (running u u.pool.tokens (wake u.pool.ticker) w fits, same))
                      | inr none_left ↦
                          rw none_left
                            (returns (running u u.pool.tokens u.pool.ticker w fits, same))
                    ]))))

  -- A round that finds no surplus returns; the pool runs after it, with the same resources in use.
  pub ticker_round-Running :
      (s : State W)
      → Running Live s
      → too_many_idle s.pool ≡ false
      → Returns (λ u. Running Live u × (u.pool.inuse ≡ s.pool.inuse)) (ticker_round factory 1 s)
  unfolding ticker_round check_idle too_many_idle size check_idle_round check_insufficient
  ticker_round-Running s t fine =
      rw (fine, ◌>>=◌)
        (Returns-bind
          (check_insufficient-Running (record s { pool = record s.pool { ticker = working } })
            (running s s.pool.tokens working (settled s t) t.within))
          λ u (w, same). returns (running u u.pool.tokens selecting (settled u w) w.within, same))
