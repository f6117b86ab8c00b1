-- ===== src/Queue/Earliest.antt =====
-- The order between the items: what Pop returns, and what Rob does to the order.
use mathlib.Core.Path.{subst₂}
use mathlib.Core.List.{not-mem-nil, forall_mem-cons}
use native.Mathlib.Bridge.{le_prop}
use rubble.Prelude.{
  ℕ, suc, ◌+◌, ◌-◌, ◌≤◌, ◌<◌, ◌≡◌, refl, sym, ap, inl, Option, some, List, [], ◌∷◌, ◌++◌, Perm, Mem,
  arith, length, set, length-append, unsnoc,
}
use rubble.Prelude.Array
use rubble.Prelude.Run.{Returns, returns, Returns-map}
use rubble.Queue.{PoolItem, Slots, PriorityQueue, bubble_down, pop, rob_at}
use rubble.Queue.Layout.{
  blank, key, item_at, layout, of_items, of_items-eq, of_items-Holds, Holds, load-layout,
  store-layout, layout-snoc,
}
use rubble.Queue.Order.{parent, IsHeap, root_least}
use rubble.Queue.Down.{bubble_down_loop_stays}
use rubble.Queue.Removal.{pop-Removed}

below_all :
    (xs : List PoolItem) (b : ℕ)
    → ((i : ℕ) → i < length xs → b ≤ key xs i)
    → (t : PoolItem) → Mem t xs
    → b ≤ t.reverse
below_all [] b h = λ t m. absurd (not-mem-nil m)
below_all (x ∷ xs) b h =
    (forall_mem-cons (λ t. le_prop)).1
      (h 0 (omega arith), below_all xs b λ i p. h (suc i) (omega arith))

-- An item of the queue, such that none is reserved for less long; the queue keeps the others, in
-- order.
pub record Earliest (xs : List PoolItem) (r : Option PoolItem × PriorityQueue) : Type 0 where
  pub item : PoolItem
  pub items : List PoolItem
  pub returned : r.0 ≡ some item
  pub holds : Holds r.1 items
  pub same : Perm (item ∷ items) xs
  pub heap : IsHeap items
  pub least : (t : PoolItem) → Mem t xs → item.reverse ≤ t.reverse

pub pop-Earliest :
    (q : PriorityQueue) (xs : List PoolItem)
    → Holds q xs
    → IsHeap xs
    → 0 < length xs
    → Returns (Earliest xs) (pop q)
pop-Earliest q xs h heap some_left = Returns-map (pop-Removed q xs h some_left) λ r (returned, w).
    record {
      item = item_at xs 0;
      items = w.items;
      returned = returned;
      holds = w.holds;
      same = w.same;
      heap = w.ordered (inl refl) heap;
      least = below_all xs _ λ i p. root_least xs i heap p;
    }

-- Rob puts the last item where the robbed one stood and only moves it down. If it is reserved for
-- less long than the item above that place, the order is lost.
module _ (front : List PoolItem) (last : PoolItem) (rest : Slots) (i : ℕ) where
  abbrev whole : List PoolItem
  whole = front ++ last ∷ []

  abbrev kept : List PoolItem
  kept = set front i last

  breaks :
      IsHeap whole
      → 0 < i
      → i < length front
      → last.reverse < key front (parent i)
      → Returns
          (λ r. (ys : List PoolItem) × Holds r.1 ys × ¬ IsHeap ys)
          (rob_at (of_items whole rest) i)
  unfolding rob_at bubble_down
  breaks heap pos inside early =
      let at = λ (c : ℕ) (p : c < length front). Array.get_or-append front (last ∷ []) c blank p in
      let put = λ (c : ℕ). Array.get_or-set front i c last blank inside in
      let size = length-append front (last ∷ []) in
      let count = Array.length-set front i last in
      let end : length whole - 1 ≡ length front = omega (arith, size) in
      let stays =
        bubble_down_loop_stays (length kept + 1) kept (some last ∷ rest) i (omega arith)
          (omega arith)
          (λ c p q r. ground (arith, put c, put i, at c, at i, at (parent i), heap c, heap i)) in
      rw
        (
          load-layout whole rest i (omega arith),
          load-layout whole rest (length whole - 1) (omega arith),
          store-layout whole rest i (omega arith) (item_at whole (length whole - 1)),
          end,
          Array.get_or-append_at front [] last blank,
          Array.set-append front (last ∷ []) i last inside,
          layout-snoc kept last rest,
          sym count,
          stays,
          of_items-eq (layout kept (some last ∷ rest)) (length kept) (length whole + length rest)
              kept (some last ∷ rest) refl refl (omega (arith, size, count)),
        )
        (returns (
          kept,
          of_items-Holds kept (some last ∷ rest) (omega arith),
          λ again. absurd (ground (arith, again i, put i, put (parent i), count)),
        ))

pub rob_at-breaks :
    (q : PriorityQueue) (xs : List PoolItem) (i : ℕ)
    → Holds q xs
    → IsHeap xs
    → 0 < i
    → i < length xs - 1
    → key xs (length xs - 1) < key xs (parent i)
    → Returns (λ r. (ys : List PoolItem) × Holds r.1 ys × ¬ IsHeap ys) (rob_at q i)
rob_at-breaks q xs i h heap pos inside early =
    let (front, last, e) = unsnoc xs (omega arith) in
    let size = length-append front (last ∷ []) in
    let n : length (front ++ last ∷ []) - 1 ≡ length front = omega (arith, size) in
    let end : item_at (front ++ last ∷ []) (length (front ++ last ∷ []) - 1) ≡ last =
      rw n (Array.get_or-append_at front [] last blank) in
    let above =
      Array.get_or-append front (last ∷ []) (parent i) blank (omega (arith, ap length e, size)) in
    rw (h.shape, e)
      (breaks front last h.rest i (rw e at heap) pos (omega (arith, ap length e, size))
        (subst₂ (λ (a b : PoolItem). a.reverse < b.reverse) end above (rw e at early)))
