-- ===== src/Pool/Invariant.antt =====
-- What holds of a pool between its calls.
use mathlib.Core.List.{Nodup, Nodup-append}
use rubble.Prelude.{
  ℕ, ◌+◌, ◌<◌, String, true, false, ◌≡◌, refl, ap, inl, inr, some, List, [], ◌∷◌, ◌++◌, map, Perm,
  arith, str_eq, eq_iff, Bool-cases, length, lt→ltb,
}
use rubble.Prelude.Assoc.{lookup, insert, delete, keys, IsMap, Nodup-IsMap}
use rubble.Prelude.Run.{ok, Returns, returns, Returns-bind}
use rubble.Resource.{NetworkResource, get_resource_id}
use rubble.Queue.{PoolItem, PriorityQueue}
use rubble.Queue.Layout.{Holds}
use rubble.Queue.Contents.{push-Pushed}
use rubble.Pool.{SimpleObjectPool, lock, unlock, size, add_idle, add_inuse, send_token}

abbrev pub ids : List PoolItem → List String
ids = map (λ i. get_resource_id i.res)

-- Every resource in use stands under its own id.
abbrev pub Keyed : List (String × NetworkResource) → Type 0
Keyed [] = Unit {0}
Keyed ((k, r) ∷ m) = (get_resource_id r ≡ k) × Keyed m

-- The ids of the pool's resources.
abbrev pub owned : List PoolItem → List (String × NetworkResource) → List String
owned xs m = ids xs ++ keys m

-- The pool's idle items are `xs`, and its lock is free.
pub record IsUsable (xs : List PoolItem) (p : SimpleObjectPool) : Type 0 where
  pub holds : Holds p.idle xs
  pub unlocked : p.locked ≡ false

-- Also, no id stands for two resources: none is twice idle, or idle and in use.
pub record IsSound (xs : List PoolItem) (p : SimpleObjectPool) : Type 0 where
  pub usable : IsUsable xs p
  pub open usable use *
  pub keyed : Keyed p.inuse
  pub distinct : Nodup (owned xs p.inuse)

pub insert-Keyed :
    (k : String) (r : NetworkResource) (m : List (String × NetworkResource))
    → get_resource_id r ≡ k
    → Keyed m
    → Keyed (insert k r m)
unfolding insert
insert-Keyed k r [] e h = (e, tt)
insert-Keyed k r ((j, w) ∷ m) e (own, h) = elim (Bool-cases (str_eq j k)) [
  | inl same ↦ rw same (e, h)
  | inr other ↦ rw other (own, insert-Keyed k r m e h)
]

pub delete-Keyed : (k : String) (m : List (String × NetworkResource)) → Keyed m → Keyed (delete k m)
unfolding delete
delete-Keyed k [] h = h
delete-Keyed k ((j, w) ∷ m) (own, h) = elim (Bool-cases (str_eq j k)) [
  | inl same ↦ rw same h
  | inr other ↦ rw other (own, delete-Keyed k m h)
]

pub lookup-Keyed :
    (k : String) (r : NetworkResource) (m : List (String × NetworkResource))
    → Keyed m
    → lookup k m ≡ some r
    → get_resource_id r ≡ k
unfolding lookup
lookup-Keyed k r [] h e = cc
lookup-Keyed k r ((j, w) ∷ m) (own, h) e = ground (arith, eq_iff j k, lookup-Keyed k r m h)

pub IsSound-IsMap : {xs : List PoolItem} {p : SimpleObjectPool} → IsSound xs p → IsMap p.inuse
IsSound-IsMap {xs} {p} s = Nodup-IsMap p.inuse (Nodup-append.0 s.distinct).1

-- The lock and its release, on a pool whose lock is free and on one whose lock is held.
pub lock-ok : (p : SimpleObjectPool) → p.locked ≡ false → lock p ≡ ok (record p { locked = true })
unfolding lock
lock-ok p e = rw e

pub unlock-ok :
    (p : SimpleObjectPool) → p.locked ≡ true → unlock p ≡ ok (record p { locked = false })
unfolding unlock
unlock-ok p e = rw e

-- The number of resources.
pub size-length :
    {xs : List PoolItem} (p : SimpleObjectPool)
    → Holds p.idle xs
    → size p ≡ length xs + length p.inuse
unfolding size
size-length {xs} p h = ap (λ (q : PriorityQueue). q.size + length p.inuse) h.shape

-- The fields that no call after the start changes.
abbrev pub SameSetup : SimpleObjectPool → SimpleObjectPool → Type 0
SameSetup p p' =
    (p'.capacity ≡ p.capacity) × (p'.max_idle ≡ p.max_idle) × (p'.min_idle ≡ p.min_idle)

-- The pool `p'` after an item for `res` was added to the idle items `xs` of `p`.
pub record Added (xs : List PoolItem) (p : SimpleObjectPool) (res : NetworkResource) (until : ℕ)
    (p' : SimpleObjectPool) : Type 0 where
  pub items : List PoolItem
  pub usable : IsUsable items p'
  pub added : Perm items (record { res = res; reverse = until } ∷ xs)
  pub same_inuse : p'.inuse ≡ p.inuse
  pub same_tokens : p'.tokens ≡ p.tokens
  pub setup : SameSetup p p'

pub add_idle-Added :
    (now : ℕ) (p : SimpleObjectPool) (xs : List PoolItem) (res : NetworkResource)
    → IsUsable xs p
    → Returns (Added xs p res now) (add_idle now p res)
unfolding add_idle
add_idle-Added now p xs res u = rw (lock-ok p u.unlocked) (
    Returns-bind (push-Pushed p.idle xs (record { res = res; reverse = now }) u.holds) λ q pushed.
      rw (unlock-ok (record p { idle = q; locked = true }) refl) (
        returns (record {
          items = pushed.items;
          usable = record { holds = pushed.holds; unlocked = refl };
          added = pushed.same;
          same_inuse = refl;
          same_tokens = refl;
          setup = (refl, refl, refl);
        })))

-- AddInuse on a pool whose lock is free.
pub add_inuse-ok :
    (p : SimpleObjectPool) (res : NetworkResource)
    → p.locked ≡ false
    → add_inuse p res
      ≡ ok (record p { inuse = insert (get_resource_id res) res p.inuse; locked = false })
unfolding add_inuse
add_inuse-ok p res e =
    rw (lock-ok p e) (
      unlock-ok (record p { inuse = insert (get_resource_id res) res p.inuse; locked = true }) refl)

pub send_token-ok :
    (p : SimpleObjectPool)
    → p.tokens < p.capacity
    → send_token p ≡ ok (record p { tokens = p.tokens + 1 })
unfolding send_token
send_token-ok p h = rw (lt→ltb p.tokens p.capacity h)
