-- ===== src/Pool/Launch.antt =====
-- NewSimpleObjectPool with a factory whose resources have new ids: the pool that it makes runs.
use mathlib.Core.List.Perm
use mathlib.Core.Path.{subst}
use rubble.Prelude.{
  ℕ, zero, suc, ◌+◌, ◌-◌, ◌<◌, ◌≡◌, refl, sym, ap, ◌∙◌, inl, inr, Option, none, some, String, List,
  arith, length, length-perm, leb, ltb, leb→lt,
}
use rubble.Prelude.Run.{
  failure, success, ◌>>=◌, Result, Returns, returns, Returns-bind, Returns-map, Returns-if, Error,
  Result-cases,
}
use rubble.Resource.{NetworkResource}
use rubble.Queue.{PoolItem, PriorityQueue}
use rubble.Pool.{ObjectFactory, State, size}
use rubble.Pool.Invariant.{IsSound, owned, add_idle-Added}
use rubble.Pool.NewIdle.{grown-perm, grown_pool-IsSound}
use rubble.Pool.Supply.{Supply, Running}
use rubble.Pool.Start.{
  PoolConfig, preload_loop, finish_preload, preload, start_ticker, after_initializer, make_pool,
  run_initializer, new_simple_object_pool,
}
use rubble.Pool.Filling.{fill_tokens-ok}

-- The pool is sound, and its ids are in use in the world.
pub record Settled {W : Type 0} (Live : W → List String → Type 0) (s : State W) : Type 0 where
  pub items : List PoolItem
  pub sound : IsSound items s.pool
  pub live : Live s.world (owned items s.pool.inuse)

-- A pool that is ready runs, and of its resources in use `P` holds.
abbrev pub Launched :
    {W : Type 0}
    → (W → List String → Type 0)
    → (List (String × NetworkResource) → Type 0)
    → Result (State W)
    → Type 0
Launched Live P (success t) = Running Live t × P t.pool.inuse
Launched Live P (failure e) = Unit {0}

abbrev Filled :
    {W : Type 0}
    → (W → List String → Type 0)
    → (List (String × NetworkResource) → Type 0)
    → Option Error × State W
    → Type 0
Filled Live P (none, t) = Running Live t × P t.pool.inuse
Filled Live P (some e, t) = Unit {0}

-- What an initializer without error leaves behind, before there is a token.
abbrev pub Prepared :
    {W : Type 0}
    → (W → List String → Type 0)
    → (List (String × NetworkResource) → Type 0)
    → Option Error × State W
    → Type 0
Prepared Live P (none, t) = Settled Live t × (t.pool.tokens ≡ 0) × P t.pool.inuse
Prepared Live P (some e, t) = Unit {0}

module _ {W : Type 0} (factory : ObjectFactory W) (Live : W → List String → Type 0)
    (supply : Supply factory Live) where
  preload_loop-Settled :
      (fuel : ℕ) (s : State W) (t : Settled Live s)
      → s.pool.min_idle - length t.items < fuel
      → Returns
          (λ (err, u).
            Settled Live u × (u.pool.tokens ≡ s.pool.tokens) × (u.pool.inuse ≡ s.pool.inuse))
          (preload_loop factory fuel s)
  unfolding preload_loop
  preload_loop-Settled zero s t enough = absurd (omega arith)
  preload_loop-Settled (suc fuel) s t enough =
      let count = ap (λ (q : PriorityQueue). q.size) t.sound.holds.shape in
      Returns-if (leb s.pool.min_idle s.pool.idle.size) (λ many. returns (t, refl, refl))
        (λ few.
          Returns-if (leb s.pool.capacity (size s.pool)) (λ full. returns (t, refl, refl))
            (λ left. elim (Result-cases (factory.create s.world "").0) [
              | inl (res, made) ↦
                  rw (made, ◌>>=◌)
                    (Returns-bind (add_idle-Added _ s.pool t.items res t.sound.usable) λ p a.
                      let (fresh, live) = supply.made s.world "" _ res t.live made in
                      Returns-map
                        (preload_loop-Settled fuel
                          (record { pool = p; world = (factory.create s.world "").1 })
                          (record {
                            items = a.items;
                            sound = grown_pool-IsSound t.items s.pool p res _ a t.sound fresh;
                            live =
                                supply.same _ _ _ (Perm.symm (grown-perm t.items s.pool p res _ a))
                                  live;
                          })
                          (omega (arith, length-perm a.added, a.setup.2, count, leb→lt _ _ few)))
                        λ (err, u) (settled, kept, same).
                          (settled, kept ∙ a.same_tokens, same ∙ a.same_inuse))
              | inr (e, failed) ↦ rw failed (
                  returns (
                    record {
                      items = t.items;
                      sound = t.sound;
                      live = supply.failed s.world "" _ e t.live failed;
                    },
                    refl,
                    refl,
                  ))
            ]))

  module _ (P : List (String × NetworkResource) → Type 0) where
    finish_preload-Filled :
        (r : Option Error × State W)
        → Settled Live r.1
        → r.1.pool.tokens ≡ 0
        → P r.1.pool.inuse
        → Returns (Filled Live P) (finish_preload factory r)
    unfolding finish_preload
    finish_preload-Filled (some e, s) t none_yet p = returns tt
    finish_preload-Filled (none, s) t none_yet p =
        rw (fill_tokens-ok (s.pool.capacity - size s.pool) s.pool (omega arith)) (
          returns (
            record {
              items = t.items;
              sound = record {
                usable = record { holds = t.sound.holds; unlocked = t.sound.unlocked };
                keyed = t.sound.keyed;
                distinct = t.sound.distinct;
              };
              live = t.live;
              within = omega arith;
            },
            p,
          ))

    preload-Filled :
        (s : State W)
        → Settled Live s
        → s.pool.tokens ≡ 0
        → P s.pool.inuse
        → Returns (Filled Live P) (preload factory s)
    unfolding preload
    preload-Filled s t none_yet p =
        Returns-bind (preload_loop-Settled (s.pool.min_idle + 1) s t (omega arith))
          λ r (settled, kept, same).
            finish_preload-Filled r settled (kept ∙ none_yet) (subst P (sym same) p)

    start_ticker-Launched :
        (r : Option Error × State W) → Filled Live P r → Launched Live P (start_ticker factory r).0
    unfolding start_ticker
    start_ticker-Launched (some e, t) filled = tt
    start_ticker-Launched (none, t) (filled, p) = (
      record {
        items = filled.items;
        sound = record {
          usable = record { holds = filled.sound.holds; unlocked = filled.sound.unlocked };
          keyed = filled.sound.keyed;
          distinct = filled.sound.distinct;
        };
        live = filled.live;
        within = filled.within;
      },
      p,
    )

    after_initializer-Launched :
        (r : Option Error × State W)
        → Prepared Live P r
        → Returns (λ a. Launched Live P a.0) (after_initializer factory r)
    unfolding after_initializer
    after_initializer-Launched (none, s) (settled, none_yet, p) =
        Returns-bind (preload-Filled s settled none_yet p)
          λ r filled. returns (start_ticker-Launched r filled)
    after_initializer-Launched (some e, s) prepared = returns tt

    -- If the initializer settles the pool, NewSimpleObjectPool returns, and a pool that it answers
    -- runs, with the same resources in use.
    pub new_simple_object_pool-Launched :
        (cfg : PoolConfig W) (w : W)
        → Returns
            (Prepared Live P)
            (run_initializer cfg (record { pool = make_pool cfg; world = w }))
        → Returns (λ a. Launched Live P a.0) (new_simple_object_pool factory cfg w)
    unfolding new_simple_object_pool
    new_simple_object_pool-Launched cfg w init =
        Returns-if (ltb cfg.max_idle cfg.min_idle) (λ _. returns tt)
          (λ _.
            Returns-if (ltb cfg.capacity cfg.max_idle) (λ _. returns tt)
              (λ _. Returns-bind init after_initializer-Launched))
