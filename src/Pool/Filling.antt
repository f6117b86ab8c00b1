-- ===== src/Pool/Filling.antt =====
-- preload: the resources and tokens that the program starts with.
use rubble.Prelude.{
  ℕ, zero, suc, ◌+◌, ◌-◌, ◌≤◌, ◌<◌, ◌≡◌, refl, ap, ◌∙◌, ◌⊎◌, inl, inr, Option, none, some, List,
  arith, length, length-perm, leb, leb→le, leb→lt,
}
use rubble.Prelude.Run.{
  failure, ok, ◌>>=◌, Returns, returns, Returns-bind, Returns-map, Returns-if, Error, Result-cases,
}
use rubble.Resource.{NetworkResource}
use rubble.Queue.{PoolItem, PriorityQueue}
use rubble.Pool.{SimpleObjectPool, ObjectFactory, State, size}
use rubble.Pool.Invariant.{IsUsable, SameSetup, Added, size-length, add_idle-Added, send_token-ok}
use rubble.Pool.Start.{fill_tokens, preload_loop, finish_preload, preload}

-- Tokens that find room in the channel are all sent.
pub fill_tokens-ok :
    (n : ℕ) (p : SimpleObjectPool)
    → p.tokens + n ≤ p.capacity
    → fill_tokens n p ≡ ok (record p { tokens = p.tokens + n })
unfolding fill_tokens
fill_tokens-ok zero p room = ap (λ (k : ℕ). ok (record p { tokens = k })) (omega arith)
fill_tokens-ok (suc n) p room = rw (send_token-ok p (omega arith)) (
    fill_tokens-ok n (record p { tokens = p.tokens + 1 }) (omega arith)
    ∙ ap (λ (k : ℕ). ok (record p { tokens = k })) (omega arith))

-- The pool `t` after `made` resources were made idle in the pool of `s`.
pub record Loaded {W : Type 0} (xs : List PoolItem) (s t : State W) : Type 0 where
  pub made : ℕ
  pub items : List PoolItem
  pub usable : IsUsable items t.pool
  pub more : length items ≡ length xs + made
  pub same_inuse : t.pool.inuse ≡ s.pool.inuse
  pub setup : SameSetup s.pool t.pool
  -- A resource was made only below the least number of idle ones and below the capacity.
  pub needed : (made ≡ 0) ⊎ ((length items ≤ s.pool.min_idle) × (size t.pool ≤ s.pool.capacity))

-- With no error there are enough idle resources, or the pool is full; an error is that of a
-- Create.
abbrev pub IsEnough : {W : Type 0} → ObjectFactory W → Option Error → SimpleObjectPool → Type 0
IsEnough factory none p = (p.min_idle ≤ p.idle.size) ⊎ (p.capacity ≤ size p)
IsEnough {W} factory (some e) p = (w : W) × ((factory.create w "").0 ≡ failure e)

module _ {W : Type 0} (factory : ObjectFactory W) where
  same_pool :
      (s : State W) (xs : List PoolItem) (w : W)
      → IsUsable xs s.pool
      → Loaded xs s (record s { world = w })
  same_pool s xs w u = record {
    made = 0;
    items = xs;
    usable = u;
    more = omega arith;
    same_inuse = refl;
    setup = (refl, refl, refl);
    needed = inl refl;
  }

  retokened :
      (s : State W) (xs : List PoolItem) (t : State W)
      → Loaded xs s t
      → (n : ℕ) → Loaded xs s (record t { pool = record t.pool { tokens = n } })
  unfolding size
  retokened s xs t l n = record {
    made = l.made;
    items = l.items;
    usable = record { holds = l.usable.holds; unlocked = l.usable.unlocked };
    more = l.more;
    same_inuse = l.same_inuse;
    setup = l.setup;
    needed = l.needed;
  }

  one_more :
      (s : State W) (xs : List PoolItem) {res : NetworkResource} {until : ℕ} (w : W)
      (p : SimpleObjectPool) (t : State W) (a : Added xs s.pool res until p)
      → Loaded a.items (record { pool = p; world = w }) t
      → s.pool.idle.size < s.pool.min_idle
      → size s.pool < s.pool.capacity
      → IsUsable xs s.pool
      → Loaded xs s t
  one_more s xs w p t a l few left u =
      let count = ap (λ (q : PriorityQueue). q.size) u.holds.shape in
      let grown = length-perm a.added in
      let inuse = ap length (l.same_inuse ∙ a.same_inuse) in
      record {
        made = suc l.made;
        items = l.items;
        usable = l.usable;
        more = omega (arith, l.more);
        same_inuse = l.same_inuse ∙ a.same_inuse;
        setup = (l.setup.0 ∙ a.setup.0, l.setup.1 ∙ a.setup.1, l.setup.2 ∙ a.setup.2);
        needed = inr (
          omega (arith, l.more, l.needed, a.setup),
          omega (
            arith,
            l.needed,
            l.more,
            a.setup,
            size-length t.pool l.usable.holds,
            size-length s.pool u.holds,
          ),
        );
      }

  preload_loop-Loaded :
      (fuel : ℕ) (s : State W) (xs : List PoolItem)
      → IsUsable xs s.pool
      → s.pool.min_idle - length xs < fuel
      → Returns
          (λ (err, t).
            Loaded xs s t × IsEnough factory err t.pool × (t.pool.tokens ≡ s.pool.tokens))
          (preload_loop factory fuel s)
  unfolding preload_loop
  preload_loop-Loaded zero s xs u enough = absurd (omega arith)
  preload_loop-Loaded (suc fuel) s xs u enough =
      let count = ap (λ (q : PriorityQueue). q.size) u.holds.shape in
      Returns-if (leb s.pool.min_idle s.pool.idle.size)
        (λ many. returns (same_pool s xs s.world u, inl (leb→le _ _ many), refl))
        (λ few.
          Returns-if (leb s.pool.capacity (size s.pool))
            (λ full. returns (same_pool s xs s.world u, inr (leb→le _ _ full), refl))
            (λ left. elim (Result-cases (factory.create s.world "").0) [
              | inl (res, e) ↦
                  rw (e, ◌>>=◌)
                    (Returns-bind (add_idle-Added _ s.pool xs res u) λ p a.
                      Returns-map
                        (preload_loop-Loaded fuel
                          (record { pool = p; world = (factory.create s.world "").1 }) a.items
                          a.usable
                          (omega (arith, length-perm a.added, a.setup.2, count, leb→lt _ _ few)))
                        λ (err, t) (l, ended, kept). (
                          one_more s xs _ p t a l (leb→lt _ _ few) (leb→lt _ _ left) u,
                          ended,
                          kept ∙ a.same_tokens,
                        ))
              | inr (err, e) ↦ rw e (returns (same_pool s xs _ u, (s.world, e), refl))
            ]))

  -- How preload ends.
  abbrev pub Preloaded : List PoolItem → State W → Option Error × State W → Type 0
  Preloaded xs s (err, t) =
      Loaded xs s t
      × IsEnough factory err t.pool
      × (err ≡ none → t.pool.tokens ≡ t.pool.capacity - size t.pool)

  finish_preload-Preloaded :
      (s : State W) (xs : List PoolItem) (r : Option Error × State W)
      → Loaded xs s r.1 × IsEnough factory r.0 r.1.pool × (r.1.pool.tokens ≡ 0)
      → Returns (Preloaded xs s) (finish_preload factory r)
  unfolding finish_preload size
  finish_preload-Preloaded s xs (none, t) (l, ended, kept) =
      rw (fill_tokens-ok (t.pool.capacity - size t.pool) t.pool (omega arith)) (
        returns (
          retokened s xs t l (t.pool.tokens + (t.pool.capacity - size t.pool)),
          ended,
          λ _. omega arith,
        ))
  finish_preload-Preloaded s xs (some e, t) (l, ended, kept) = returns (l, ended, λ none_of. cc)

  -- preload returns on every usable pool without tokens; new resources are made only up to the
  -- least number of idle ones and within the capacity. An error is that of a Create. With no
  -- error, enough resources are idle or the pool is full, and there is a token for each resource
  -- that the capacity still allows.
  pub preload-Preloaded :
      (s : State W) (xs : List PoolItem)
      → IsUsable xs s.pool
      → s.pool.tokens ≡ 0
      → Returns (Preloaded xs s) (preload factory s)
  unfolding preload
  preload-Preloaded s xs u none_yet =
      Returns-bind (preload_loop-Loaded (s.pool.min_idle + 1) s xs u (omega arith))
        λ r (l, ended, kept). finish_preload-Preloaded s xs r (l, ended, kept ∙ none_yet)
