-- ===== src/Pool/Keys.antt =====
-- pkg/pool/pool.go: mapKeys and queueKeys, with which NewSimpleObjectPool describes the pool that
-- it has made.
use mathlib.Core.List.{append_assoc}
use mathlib.Core.Path.{subst}
use rubble.Prelude.{
  ℕ, zero, suc, String, ◌≡◌, refl, List, [], ◌∷◌, ◌++◌, length, length-append, arith,
}
use rubble.Prelude.Array
use rubble.Prelude.Run.{Run, ok, ◌>>=◌}
use rubble.Prelude.Assoc.{keys}
use rubble.Prelude.Strings.{join}
use rubble.Resource.{NetworkResource, get_resource_id}
use rubble.Queue.{PoolItem, Slots, PriorityQueue, deref}
use rubble.Queue.Layout.{Holds, blank, layout, deref-layout}
use rubble.Pool.Invariant.{ids}

unfoldable pub map_keys : List (String × NetworkResource) → String
map_keys m = join ", " (keys m)

-- The loop of queueKeys over the indices from `i` on, of which `n` are left.
unfoldable pub slot_keys : Slots → ℕ → ℕ → Run (List String)
slot_keys a zero i = ok []
slot_keys a (suc n) i = do
  item ← deref a i
  rest ← slot_keys a n (suc i)
  ok (get_resource_id item.res ∷ rest)

unfoldable pub queue_keys : PriorityQueue → Run String
queue_keys q = slot_keys q.slots q.size 0 >>= λ keys. ok (join ", " keys)

slot_keys-layout :
    (front ys : List PoolItem) (rest : Slots)
    → slot_keys (layout (front ++ ys) rest) (length ys) (length front) ≡ ok (ids ys)
unfolding slot_keys
slot_keys-layout front [] rest = refl
slot_keys-layout front (y ∷ ys) rest =
    let whole : (front ++ y ∷ []) ++ ys ≡ front ++ y ∷ ys = append_assoc front (y ∷ []) ys in
    let past : length (front ++ y ∷ []) ≡ suc (length front) =
      omega (arith, length-append front (y ∷ [])) in
    let later : slot_keys (layout (front ++ y ∷ ys) rest) (length ys) (suc (length front))
        ≡ ok (ids ys) =
      subst (λ i. slot_keys (layout (front ++ y ∷ ys) rest) (length ys) i ≡ ok (ids ys)) past
        (subst
          (λ xs. slot_keys (layout xs rest) (length ys) (length (front ++ y ∷ [])) ≡ ok (ids ys))
          whole (slot_keys-layout (front ++ y ∷ []) ys rest)) in
    rw
      (
        deref-layout (front ++ y ∷ ys) rest (length front)
            (omega (arith, length-append front (y ∷ ys))),
        Array.get_or-append_at front ys y blank,
        later,
      )
      refl

-- queueKeys of a queue with room does not panic; it names the items in the order of the array.
pub queue_keys-ids :
    {q : PriorityQueue} {xs : List PoolItem} → Holds q xs → queue_keys q ≡ ok (join ", " (ids xs))
unfolding queue_keys
queue_keys-ids {q} {xs} h = rw h.shape (rw (slot_keys-layout [] xs h.rest) refl)
