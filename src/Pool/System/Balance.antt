-- ===== src/Pool/System/Balance.antt =====
-- The balance of the pool: tokens, resources and what the threads have in their hands.
use mathlib.Core.List.{
  Nodup, Nodup-cons, Nodup-append, append_assoc, perm_append_comm, perm_middle, mem-append,
}
use mathlib.Core.List.Perm
use mathlib.Core.HLevel.{⊥_prop}
use mathlib.Core.Logic.Or
use mathlib.Core.Path.{subst}
use rubble.Prelude.{
  suc, ◌+◌, String, ◌≡◌, refl, sym, ap, ◌∙◌, List, [], ◌∷◌, ◌++◌, Perm, Mem, arith, length,
  length-append, length-perm, length-map,
}
use rubble.Prelude.Assoc.{keys, length-keys}
use rubble.Resource.{NetworkResource, get_resource_id}
use rubble.Queue.{PoolItem}
use rubble.Queue.Layout.{Holds}
use rubble.Pool.{SimpleObjectPool, size}
use rubble.Pool.Invariant.{Keyed, ids, owned, size-length}
use rubble.Pool.System.{
  Pc, System, Step, move, create, Reach, start, later, Creates, by_acquire, by_address, by_filling,
  unbacked, Unknown, carried, held, all_carried, all_held,
}
use rubble.Pool.System.Effects.{Effect}
use rubble.Pool.System.Actions.{move-Effect}

-- The ids that threads and pool have.
abbrev pub known : List PoolItem → System → List String
known xs s = all_carried s.threads ++ owned xs s.pool.inuse

-- No two of these ids are the same, and tokens, tokens in hands and ids fill the capacity exactly,
-- but for the ids that were made without a token.
pub record Balanced (s : System) : Type 0 where
  pub items : List PoolItem
  pub holds : Holds s.pool.idle items
  pub keyed : Keyed s.pool.inuse
  pub distinct : Nodup (known items s)
  pub balance :
      s.pool.tokens + all_held s.threads + length (known items s) ≡ s.pool.capacity + s.extras

-- A thread among the others.
carried-among :
    (before after : List Pc) (pc : Pc) (rest : List String)
    → Perm
        (all_carried (before ++ pc ∷ after) ++ rest)
        (all_carried (before ++ after) ++ (carried pc ++ rest))
unfolding all_carried
carried-among [] after pc rest =
    subst (λ l. Perm (carried pc ++ all_carried after ++ rest) l)
      (append_assoc (all_carried after) (carried pc) rest)
      (Perm.append_right rest (perm_append_comm (carried pc) (all_carried after)))
carried-among (b ∷ before) after pc rest =
    rw (append_assoc (carried b) (all_carried (before ++ pc ∷ after)) rest) (
      rw (append_assoc (carried b) (all_carried (before ++ after)) (carried pc ++ rest))
        (Perm.append_left (carried b) (carried-among before after pc rest)))

pub held-among :
    (before after : List Pc) (pc : Pc)
    → all_held (before ++ pc ∷ after) ≡ held pc + all_held (before ++ after)
unfolding all_held
held-among [] after pc = refl
held-among (b ∷ before) after pc = omega (arith, held-among before after pc)

-- Dropping some ids keeps the others different.
drop-Nodup : (r l y : List String) → Nodup (r ++ (l ++ y)) → Nodup (r ++ y)
drop-Nodup r l y n =
    let swapped =
      Perm.nodup (Perm.append_right y (perm_append_comm r l)) (rw (append_assoc r l y) n) in
    (Nodup-append.0 (subst Nodup (append_assoc l r y) swapped)).1

-- A thread that takes an action, among the others.
moved-Balanced :
    (s : System) (before after : List Pc) {pc pc' : Pc} {p' : SimpleObjectPool}
    → s.threads ≡ before ++ pc ∷ after
    → (b : Balanced s) → Effect b.items s.pool pc p' pc'
    → Balanced (record { pool = p'; threads = before ++ pc' ∷ after; extras = s.extras })
moved-Balanced s before after {pc} {pc'} {p'} here b e =
    let r = all_carried (before ++ after) in
    let old = owned b.items s.pool.inuse in
    let new = owned e.items p'.inuse in
    let among : Perm (known b.items s) (r ++ (carried pc ++ old)) =
      rw here (carried-among before after pc old) in
    let among' = carried-among before after pc' new in
    let step : Perm (r ++ (e.lost ++ (carried pc' ++ new))) (r ++ (carried pc ++ old)) =
      Perm.append_left r e.same in
    let t : System = record { pool = p'; threads = before ++ pc' ∷ after; extras = s.extras } in
    record {
      items = e.items;
      holds = e.holds;
      keyed = e.keyed;
      distinct = Perm.nodup (Perm.symm among') (
          drop-Nodup r e.lost (carried pc' ++ new)
            (Perm.nodup (Perm.symm step) (Perm.nodup among b.distinct)));
      balance = omega (
        arith,
        b.balance,
        e.balance,
        e.capacity,
        ap all_held here ∙ held-among before after pc,
        held-among before after pc',
        length-perm among,
        length-perm among',
        length-perm step,
        length-append r (e.lost ++ (carried pc' ++ new)),
        length-append e.lost (carried pc' ++ new),
        length-append r (carried pc' ++ new),
      );
    }

-- What a thread has before and after it creates a resource.
hands_of_creation :
    {pc pc' : Pc} {res : NetworkResource}
    → Creates pc res pc'
    → (carried pc ≡ [])
      × (carried pc' ≡ get_resource_id res ∷ [])
      × (held pc + unbacked pc' ≡ suc (held pc'))
unfolding carried held unbacked
hands_of_creation by_acquire = (refl, refl, refl)
hands_of_creation by_address = (refl, refl, refl)
hands_of_creation by_filling = (refl, refl, omega arith)

created-Balanced :
    (s : System) (before after : List Pc) {pc pc' : Pc} {res : NetworkResource}
    → s.threads ≡ before ++ pc ∷ after
    → Balanced s
    → Creates pc res pc'
    → Unknown s (get_resource_id res)
    → Balanced (record {
      pool = s.pool;
      threads = before ++ pc' ∷ after;
      extras = s.extras + unbacked pc';
    })
created-Balanced s before after {pc} {pc'} {res} here b c (uncarried, unowned) =
    let id = get_resource_id res in
    let r = all_carried (before ++ after) in
    let old = owned b.items s.pool.inuse in
    let (empty, one, less) = hands_of_creation c in
    let among : Perm (known b.items s) (r ++ old) = rw here (
      subst (λ l. Perm (all_carried (before ++ pc ∷ after) ++ old) (r ++ (l ++ old))) empty
        (carried-among before after pc old)) in
    let among' : Perm (all_carried (before ++ pc' ∷ after) ++ old) (id ∷ (r ++ old)) =
      Perm.trans (carried-among before after pc' old)
        (subst (λ l. Perm (r ++ (l ++ old)) (id ∷ (r ++ old))) (sym one) (perm_middle r old)) in
    let fresh : ¬ Mem id (r ++ old) = λ there.
      Or.elim ⊥_prop (mem-append.0 (Perm.subset (Perm.symm among) id there)) uncarried
        (unowned b.items b.holds) in
    record {
      items = b.items;
      holds = b.holds;
      keyed = b.keyed;
      distinct = Perm.nodup (Perm.symm among') (Nodup-cons.1 (fresh, Perm.nodup among b.distinct));
      balance = omega (
        arith,
        b.balance,
        less,
        ap all_held here ∙ held-among before after pc,
        held-among before after pc',
        length-perm among,
        length-perm among',
      );
    }

step-Balanced : (s t : System) → Balanced s → Step s t → Balanced t
step-Balanced s t b (move before after {pc} {pc'} {p'} here m) =
    let among : Perm (known b.items s)
        (all_carried (before ++ after) ++ (carried pc ++ owned b.items s.pool.inuse)) =
      rw here (carried-among before after pc (owned b.items s.pool.inuse)) in
    let apart = (Nodup-append.0 (Perm.nodup among b.distinct)).1 in
    moved-Balanced s before after here b (move-Effect b.items s.pool b.holds b.keyed apart m)
step-Balanced s t b (create before after here c new) = created-Balanced s before after here b c new

-- Whatever the threads do, in whatever order: from a balanced system only balanced ones are reached,
-- so no id stands for two resources, and the tokens, the resources of the pool and what the threads
-- have in their hands are as many as the capacity and the resources made without a token.
pub all-Balanced : (s t : System) → Balanced s → Reach s t → Balanced t
all-Balanced s t b start = b
all-Balanced s t b (later {t = u} r step) = step-Balanced u t (all-Balanced s u b r) step

-- When the factory gives each new resource an id that neither the pool nor a thread knows: in every
-- system that is reached from a balanced one, by the actions of any threads in any order, the
-- tokens, the resources idle and in use, the tokens that threads have in their hands and the
-- resources that they have in their hands are together exactly as many as the capacity and the
-- resources that were made without a token, for static addresses.
pub conserved :
    (s t : System)
    → Balanced s
    → Reach s t
    → t.pool.tokens + size t.pool + all_held t.threads + length (all_carried t.threads)
      ≡ t.pool.capacity + t.extras
conserved s t b r =
    let b' = all-Balanced s t b r in
    let old = owned b'.items t.pool.inuse in
    omega (
      arith,
      b'.balance,
      size-length t.pool b'.holds,
      length-append (all_carried t.threads) old,
      length-append (ids b'.items) (keys t.pool.inuse),
      length-map (λ (i : PoolItem). get_resource_id i.res) b'.items,
      length-keys t.pool.inuse,
    )
