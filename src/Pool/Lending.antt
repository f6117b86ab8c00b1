-- ===== src/Pool/Lending.antt =====
-- Acquire from the idle resources.
use mathlib.Core.List.{Nodup, Nodup-cons, perm_middle, mem-append}
use mathlib.Core.List.Perm
use mathlib.Core.Logic.Or
use rubble.Prelude.{
  ℕ, ◌<◌, String, ◌≡◌, refl, ap, ◌≢◌, inl, inr, Option, none, List, ◌∷◌, Perm, arith, str_eq,
  eq_iff, length, lt→ltb, le→ltb, leb, Bool-cases, true, false, ◌⊎◌,
}
use rubble.Prelude.Assoc.{lookup, insert, keys, lookup-none, keys-insert-perm}
use rubble.Prelude.Run.{
  no_available_resource, Returns, returns, Returns-bind, Returns-map, Returns-if,
}
use rubble.Resource.{NetworkResource, get_resource_id}
use rubble.Queue.{PoolItem, PriorityQueue}
use rubble.Queue.Layout.{Holds, item_at}
use rubble.Queue.Removal.{Removed, pop-Removed}
use rubble.Queue.Search.{id_at, rob-Robbed}
use rubble.Pool.{SimpleObjectPool, acquired, refused, awaits, size, acquire_locked, get_one_locked}
use rubble.Pool.Invariant.{IsSound, SameSetup, ids, owned, insert-Keyed, lock-ok, unlock-ok}

-- An item taken out, which has the id `id` if that is not empty and any item has it.
pub record Chosen (xs : List PoolItem) (id : String) (r : Option PoolItem × PriorityQueue)
    : Type 0 where
  pub index : ℕ
  pub inside : index < length xs
  pub removed : Removed index xs r
  pub preferred : id ≢ "" → (j : ℕ) → j < length xs → id_at xs j ≡ id → id_at xs index ≡ id

pub get_one_locked-Chosen :
    (q : PriorityQueue) (xs : List PoolItem) (id : String)
    → Holds q xs
    → 0 < length xs
    → Returns (Chosen xs id) (get_one_locked q id)
unfolding get_one_locked
get_one_locked-Chosen q xs id h some_left =
    Returns-if (str_eq id "")
      (λ any. Returns-map (pop-Removed q xs h some_left) λ r removed. record {
        index = 0;
        inside = some_left;
        removed = removed;
        preferred = λ named. absurd (named ((eq_iff id "").0 any));
      })
      (λ named. Returns-bind (rob-Robbed q xs id h) λ r robbed. elim robbed [
        | inl (i, found, removed) ↦ rw removed.0 (
            returns (record {
              index = i;
              inside = found.1;
              removed = (refl, removed.1);
              preferred = λ _ _ _ _. found.2;
            }))
        | inr (missing, same) ↦
            rw
              (
                ap (λ (t : Option PoolItem × PriorityQueue). t.0) same,
                ap (λ (t : Option PoolItem × PriorityQueue). t.1) same,
              )
              (Returns-map (pop-Removed q xs h some_left) λ r₁ removed. record {
                index = 0;
                inside = some_left;
                removed = removed;
                preferred = λ _ j p hit. absurd (missing j (omega arith) p hit);
              })
      ])

-- The pool `p'` after an idle item `item` of `p` was put to use: `left` are the idle items that
-- remain.
pub record Lent (xs : List PoolItem) (p : SimpleObjectPool) (item : PoolItem)
    (p' : SimpleObjectPool) : Type 0 where
  pub left : List PoolItem
  pub sound : IsSound left p'
  pub taken : Perm (item ∷ left) xs
  pub fresh : lookup (get_resource_id item.res) p.inuse ≡ none
  pub lent : p'.inuse ≡ insert (get_resource_id item.res) item.res p.inuse
  pub tokens : p'.tokens ≡ p.tokens
  pub setup : SameSetup p p'

-- Moving an id from the idle items to the keys in use keeps the ids.
pub lend-perm :
    (item : PoolItem) (xs left : List PoolItem) (m : List (String × NetworkResource))
    → Perm (item ∷ left) xs
    → lookup (get_resource_id item.res) m ≡ none
    → Perm (owned left (insert (get_resource_id item.res) item.res m)) (owned xs m)
lend-perm item xs left m taken fresh =
    Perm.trans
      (Perm.append_left (ids left) (keys-insert-perm (get_resource_id item.res) item.res m fresh))
      (Perm.trans (perm_middle (ids left) (keys m))
        (Perm.append_right (keys m) (Perm.map (λ (i : PoolItem). get_resource_id i.res) taken)))

-- An id that is idle is not in use.
idle-lookup :
    (item : PoolItem) (xs left : List PoolItem) (m : List (String × NetworkResource))
    → Perm (item ∷ left) xs
    → Nodup (owned xs m)
    → lookup (get_resource_id item.res) m ≡ none
idle-lookup item xs left m taken distinct =
    let moved =
      Perm.append_right (keys m)
        (Perm.map (λ (i : PoolItem). get_resource_id i.res) (Perm.symm taken)) in
    let apart = (Nodup-cons.0 (Perm.nodup moved distinct)).0 in
    lookup-none (get_resource_id item.res) m (λ there. apart (mem-append.1 (Or.inr there)))

module _ (p : SimpleObjectPool) (xs : List PoolItem) (id : String) (s : IsSound xs p) where
  -- Acquire with idle resources: one of them is put to use, the wanted one if it is idle.
  pub acquire_locked-Lent :
      0 < length xs
      → Returns
          (λ r.
            (i : ℕ) × (r.0 ≡ acquired (item_at xs i).res)
            × Lent xs p (item_at xs i) r.1
            × (id ≢ "" → (j : ℕ) → j < length xs → id_at xs j ≡ id → id_at xs i ≡ id))
          (acquire_locked p id)
  unfolding acquire_locked
  acquire_locked-Lent some_left =
      let n = ap (λ (q : PriorityQueue). q.size) s.holds.shape in
      rw (lock-ok p s.unlocked, lt→ltb 0 p.idle.size (omega (arith, n)))
        (Returns-bind (get_one_locked-Chosen p.idle xs id s.holds some_left) λ r c.
          let w = c.removed.1 in
          let item = item_at xs c.index in
          let fresh = idle-lookup item xs w.items p.inuse w.same s.distinct in
          rw (c.removed.0, unlock-ok)
            (returns (
              c.index,
              refl,
              record {
                left = w.items;
                sound = record {
                  usable = record { holds = w.holds; unlocked = refl };
                  keyed = insert-Keyed (get_resource_id item.res) item.res p.inuse refl s.keyed;
                  distinct =
                      Perm.nodup (Perm.symm (lend-perm item xs w.items p.inuse w.same fresh))
                        s.distinct;
                };
                taken = w.same;
                fresh = fresh;
                lent = refl;
                tokens = refl;
                setup = (refl, refl, refl);
              },
              c.preferred,
            )))

-- Acquire without idle resources leaves the pool, and refuses or waits for a token.
pub acquire_locked-none :
    (p : SimpleObjectPool) (xs : List PoolItem) (id : String)
    → Holds p.idle xs
    → length xs ≡ 0
    → p.locked ≡ false
    → Returns
        (λ r.
          ((r.0 ≡ refused no_available_resource) ⊎ (r.0 ≡ awaits))
          × (r.1 ≡ record p { locked = false }))
        (acquire_locked p id)
unfolding acquire_locked
acquire_locked-none p xs id h empty free =
    let n = ap (λ (q : PriorityQueue). q.size) h.shape in
    rw (lock-ok p free) (
      rw (le→ltb 0 p.idle.size (omega (arith, n)))
        (elim (Bool-cases (leb p.capacity (size (record p { locked = true })))) [
          | inl full ↦
              rw full (rw (unlock-ok (record p { locked = true }) refl) (returns (inl refl, refl)))
          | inr room ↦
              rw room (rw (unlock-ok (record p { locked = true }) refl) (returns (inr refl, refl)))
        ]))
