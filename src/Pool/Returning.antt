-- ===== src/Pool/Returning.antt =====
-- The release of a resource: a resource in use becomes idle.
use mathlib.Core.List.{perm_middle}
use mathlib.Core.List.Perm
use rubble.Prelude.{ℕ, String, Bool, true, ◌≡◌, refl, sym, ap, none, some, List, ◌∷◌, Perm}
use rubble.Prelude.Assoc.{lookup, delete, keys, keys-delete-perm}
use rubble.Prelude.Run.{ok, ◌>>=◌, invalid_state, Returns, returns, Returns-bind}
use rubble.Prelude.Int.{ℤ}
use rubble.Resource.{NetworkResource, get_resource_id}
use rubble.Queue.{PoolItem}
use rubble.Queue.Contents.{push-Pushed}
use rubble.Pool.{SimpleObjectPool, release_with_reverse, reverse_to, notify}
use rubble.Pool.Invariant.{
  IsSound, SameSetup, ids, owned, delete-Keyed, lookup-Keyed, lock-ok, unlock-ok,
}

-- The pool `p'` after the resource under the id `id` in `p` became idle until `until`.
pub record Returned (xs : List PoolItem) (p : SimpleObjectPool) (id : String) (until : ℕ)
    (p' : SimpleObjectPool) : Type 0 where
  pub res : NetworkResource
  pub was_lent : lookup id p.inuse ≡ some res
  pub items : List PoolItem
  pub sound : IsSound items p'
  pub added : Perm items (record { res = res; reverse = until } ∷ xs)
  pub removed : p'.inuse ≡ delete id p.inuse
  pub tokens : p'.tokens ≡ p.tokens
  pub setup : SameSetup p p'

pub return-perm :
    (res : NetworkResource) (id : String) (until : ℕ) (xs items : List PoolItem)
    (m : List (String × NetworkResource))
    → get_resource_id res ≡ id
    → lookup id m ≡ some res
    → Perm items (record { res = res; reverse = until } ∷ xs)
    → Perm (owned items (delete id m)) (owned xs m)
return-perm res id until xs items m own e added =
    Perm.trans
      (Perm.append_right (keys (delete id m))
        (Perm.map (λ (i : PoolItem). get_resource_id i.res) added))
      (rw own (
        Perm.trans (Perm.symm (perm_middle (ids xs) (keys (delete id m))))
          (Perm.append_left (ids xs) (keys-delete-perm id res m e))))

-- The release of a resource in use makes it idle, reserved from now on for the given time.
pub release-Returned :
    (now : ℕ) (p : SimpleObjectPool) (xs : List PoolItem) (id : String) (reverse : ℤ)
    (res : NetworkResource)
    → IsSound xs p
    → lookup id p.inuse ≡ some res
    → Returns
        (λ r. (r.0 ≡ none) × Returned xs p id (reverse_to now reverse) r.1)
        (release_with_reverse now p id reverse)
unfolding release_with_reverse notify
release-Returned now p xs id reverse res s e = rw (lock-ok p s.unlocked) (
    rw (e, ◌>>=◌)
      (Returns-bind
        (push-Pushed p.idle xs (record { res = res; reverse = reverse_to now reverse }) s.holds)
        λ q pushed.
          rw
            (unlock-ok (notify (record p { inuse = delete id p.inuse; idle = q; locked = true }))
              refl)
            (returns (
              refl,
              record {
                res = res;
                was_lent = e;
                items = pushed.items;
                sound = record {
                  usable = record { holds = pushed.holds; unlocked = refl };
                  keyed = delete-Keyed id p.inuse s.keyed;
                  distinct =
                      Perm.nodup
                        (Perm.symm (
                          return-perm res id (reverse_to now reverse) xs pushed.items p.inuse
                            (lookup-Keyed id res p.inuse s.keyed e) e pushed.same))
                        s.distinct;
                };
                added = pushed.same;
                removed = refl;
                tokens = refl;
                setup = (refl, refl, refl);
              },
            ))))

-- The release of an unknown resource is an error and changes nothing.
pub release-unknown :
    (now : ℕ) (p : SimpleObjectPool) (xs : List PoolItem) (id : String) (reverse : ℤ)
    → IsSound xs p
    → lookup id p.inuse ≡ none
    → release_with_reverse now p id reverse ≡ ok (some invalid_state, p)
unfolding release_with_reverse
release-unknown now p xs id reverse s e = rw (lock-ok p s.unlocked) (
    rw (e, ◌>>=◌)
      (rw (unlock-ok (record p { locked = true }) refl)
        (ap (λ (b : Bool). ok (some invalid_state, record p { locked = b })) (sym s.unlocked))))
