-- ===== src/Ipam/NewIds.antt =====
-- The ids of a pool when one resource is added to it.
use mathlib.Core.List.{Nodup, Nodup-cons, perm_middle, mem-append}
use mathlib.Core.List.Perm
use mathlib.Core.Path.{subst}
use mathlib.Core.Logic.Or
use rubble.Prelude.{ℕ, String, ◌≡◌, sym, none, List, ◌∷◌, ◌++◌, Perm}
use rubble.Prelude.Assoc.{lookup, insert, keys, lookup-none, keys-insert-perm}
use rubble.Resource.{NetworkResource, get_resource_id}
use rubble.Queue.{PoolItem}
use rubble.Pool.{SimpleObjectPool}
use rubble.Pool.Invariant.{Added, ids, owned}

-- One more id among distinct ones.
pub moved_id :
    (id : String) (rest before after : List String)
    → Perm after (id ∷ before)
    → Nodup (id ∷ rest ++ before)
    → Nodup (rest ++ after)
moved_id id rest before after p d =
    Perm.nodup (Perm.symm (Perm.trans (Perm.append_left rest p) (perm_middle rest before))) d

pub later_id :
    (id : String) (rest before after out : List String)
    → Perm after (id ∷ before)
    → Perm out (rest ++ after)
    → Perm out (id ∷ rest ++ before)
later_id id rest before after out p q =
    Perm.trans q (Perm.trans (Perm.append_left rest p) (perm_middle rest before))

pub owned-idle :
    (id : String) (items xs : List PoolItem) (m m' : List (String × NetworkResource))
    → m' ≡ m
    → Perm (ids items) (id ∷ ids xs)
    → Perm (owned items m') (id ∷ owned xs m)
owned-idle id items xs m m' e p =
    subst (λ m'. Perm (owned items m') (id ∷ owned xs m)) (sym e) (Perm.append_right (keys m) p)

pub owned-inuse :
    (id : String) (xs : List PoolItem) (m m' : List (String × NetworkResource))
    → Perm (keys m') (id ∷ keys m)
    → Perm (owned xs m') (id ∷ owned xs m)
owned-inuse id xs m m' p = Perm.trans (Perm.append_left (ids xs) p) (perm_middle (ids xs) (keys m))

pub new_idle :
    (id : String) (xs : List PoolItem) (p p' : SimpleObjectPool) (res : NetworkResource) (now : ℕ)
    (a : Added xs p res now p')
    → get_resource_id res ≡ id
    → Perm (ids a.items) (id ∷ ids xs)
new_idle id xs p p' res now a same =
    subst (λ id. Perm (ids a.items) (id ∷ ids xs)) same
      (Perm.map (λ (i : PoolItem). get_resource_id i.res) a.added)

pub new_key :
    (id : String) (res : NetworkResource) (m : List (String × NetworkResource))
    → get_resource_id res ≡ id
    → lookup id m ≡ none
    → Perm (keys (insert (get_resource_id res) res m)) (id ∷ keys m)
new_key id res m same fresh =
    subst (λ key. Perm (keys (insert key res m)) (id ∷ keys m)) (sym same)
      (keys-insert-perm id res m fresh)

pub absent_id :
    (id : String) (rest : List String) (xs : List PoolItem) (m : List (String × NetworkResource))
    → Nodup (id ∷ rest ++ owned xs m)
    → lookup id m ≡ none
absent_id id rest xs m d =
    lookup-none id m
      (λ there. (Nodup-cons.0 d).0 (mem-append.1 (Or.inr (mem-append.1 (Or.inr there)))))
