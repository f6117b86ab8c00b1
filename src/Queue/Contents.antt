-- ===== src/Queue/Contents.antt =====
-- What Push does to the items that a PriorityQueue holds.
use mathlib.Core.List.Perm
use rubble.Prelude.{
  ℕ, suc, ◌+◌, ◌-◌, ◌*◌, ◌<◌, ◌≡◌, refl, sym, ap, ◌∙◌, inl, inr, none, List, [], ◌∷◌, ◌++◌, Perm,
  arith, leb, leb→le, length, take_all, replicate, length-append, length-perm, length-replicate,
  Bool-cases,
}
use rubble.Prelude.Array
use rubble.Prelude.Run.{Returns, returns, Returns-elim}
use rubble.Queue.{PoolItem, Slots, PriorityQueue, new_priority_queue, bubble_up, push, grow}
use rubble.Queue.Layout.{
  blank, layout, layout-nil, layout-append, of_items, of_items-eq, of_items-Holds, Holds,
  length-layout, store-layout_end,
}
use rubble.Queue.Order.{parent, IsHeap}
use rubble.Queue.Up.{UpInv, bubble_up_loop_restores}

pub new_priority_queue-Holds : Holds new_priority_queue []
unfolding new_priority_queue
new_priority_queue-Holds = record {
  rest = replicate 10 none;
  shape = ap (λ (a : Slots). record { slots = a; size = 0; capacity = 10 }) (sym (layout-nil _));
  room = omega arith;
}

length-padded : (rest : Slots) (k : ℕ) → length (rest ++ replicate k none) ≡ length rest + k
length-padded rest k =
    length-append rest (replicate k none) ∙ ap (◌+◌ (length rest)) (length-replicate k none)

-- Doubling a full array keeps the items and makes room.
pub grow-Holds :
    (xs : List PoolItem) (rest : Slots) → 0 < length xs → Holds (grow (of_items xs rest)) xs
unfolding grow
grow-Holds xs rest pos =
    let n = length xs + length rest in
    elim (Bool-cases (leb n (length xs))) [
      | inl full ↦
          rw
            (
              full,
              take_all (n * 2) (layout xs rest) (omega (arith, length-layout xs rest)),
              layout-append xs rest,
            )
            (record {
              rest = rest ++ replicate (n * 2 - length (layout xs rest)) none;
              shape = of_items-eq _ _ _ xs _ refl refl (
                  omega (
                    arith,
                    length-padded rest (n * 2 - length (layout xs rest)),
                    length-layout xs rest,
                    leb→le n (length xs) full,
                  ));
              room = omega (
                arith,
                length-padded rest (n * 2 - length (layout xs rest)),
                length-layout xs rest,
              );
            })
      | inr room ↦ rw room (of_items-Holds xs rest (ground arith))
    ]

-- The queue after Push: the item is added, and an ordered queue stays ordered.
pub record Pushed (item : PoolItem) (xs : List PoolItem) (q : PriorityQueue) : Type 0 where
  pub items : List PoolItem
  pub holds : Holds q items
  pub same : Perm items (item ∷ xs)
  pub ordered : IsHeap xs → IsHeap items

snoc-UpInv :
    (xs : List PoolItem) (item : PoolItem) (i : ℕ)
    → i ≡ length xs
    → IsHeap xs
    → UpInv (xs ++ item ∷ []) i
snoc-UpInv xs item i e h =
    let size = length-append xs (item ∷ []) in
    record {
      edges = λ c p r s. ground (
        arith,
        size,
        h c,
        Array.get_or-append xs (item ∷ []) c blank,
        Array.get_or-append xs (item ∷ []) (parent c) blank,
      );
      bridged = λ c p r s t. absurd (omega (arith, size));
    }

push_onto :
    (xs : List PoolItem) (rest : Slots) (item : PoolItem)
    → 0 < length rest
    → Returns (Pushed item xs) (push (of_items xs rest) item)
unfolding push bubble_up
push_onto xs [] item h = absurd (omega arith)
push_onto xs (old ∷ rest) item h =
    let size = length-append xs (item ∷ []) in
    let (a, e, s) = Returns-elim (
      bubble_up_loop_restores (length xs + 1 - 1 + 1) (xs ++ item ∷ []) rest (length xs + 1 - 1)
        (omega arith) (omega (arith, size))) in
    let count = length-perm s.same in
    rw
      (
        store-layout_end xs old rest item,
        e,
        of_items-eq a (length xs + 1) (length xs + suc (length rest)) s.items rest s.laid_out
            (omega (arith, size, count)) (omega (arith, size, count)),
      )
      (returns (record {
        items = s.items;
        holds = grow-Holds s.items rest (omega (arith, size, count));
        same = Perm.trans s.same (Array.snoc-perm xs item);
        ordered = λ h. s.ordered (snoc-UpInv xs item _ (omega arith) h);
      }))

pub push-Pushed :
    (q : PriorityQueue) (xs : List PoolItem) (item : PoolItem)
    → Holds q xs
    → Returns (Pushed item xs) (push q item)
unfolding push
push-Pushed q xs item h = rw h.shape (push_onto xs h.rest item h.room)
