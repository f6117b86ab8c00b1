-- ===== src/Pool/NewIdle.antt =====
-- A pool that gets one more idle resource, with an id that is new to it.
use mathlib.Core.List.{Nodup-cons}
use mathlib.Core.List.Perm
use mathlib.Core.Path.{subst}
use rubble.Prelude.{ℕ, sym, List, ◌∷◌, Mem, Perm}
use rubble.Prelude.Assoc.{keys}
use rubble.Resource.{NetworkResource, get_resource_id}
use rubble.Queue.{PoolItem}
use rubble.Pool.{SimpleObjectPool}
use rubble.Pool.Invariant.{IsSound, Added, Keyed, owned}

pub grown-perm :
    (xs : List PoolItem) (p p' : SimpleObjectPool) (res : NetworkResource) (now : ℕ)
    (a : Added xs p res now p')
    → Perm (owned a.items p'.inuse) (get_resource_id res ∷ owned xs p.inuse)
grown-perm xs p p' res now a =
    subst (λ m. Perm (owned a.items m) (get_resource_id res ∷ owned xs p.inuse)) (sym a.same_inuse)
      (Perm.append_right (keys p.inuse)
        (Perm.map (λ (i : PoolItem). get_resource_id i.res) a.added))

-- The pool stays sound.
pub grown_pool-IsSound :
    (xs : List PoolItem) (p p' : SimpleObjectPool) (res : NetworkResource) (now : ℕ)
    (a : Added xs p res now p')
    → IsSound xs p
    → ¬ Mem (get_resource_id res) (owned xs p.inuse)
    → IsSound a.items p'
grown_pool-IsSound xs p p' res now a s fresh = record {
  usable = a.usable;
  keyed = subst Keyed (sym a.same_inuse) s.keyed;
  distinct =
      Perm.nodup (Perm.symm (grown-perm xs p p' res now a)) (Nodup-cons.1 (fresh, s.distinct));
}
