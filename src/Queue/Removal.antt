-- ===== src/Queue/Removal.antt =====
-- What Pop, Peek and Rob do to the items that a PriorityQueue holds.
use mathlib.Core.List.Perm
use rubble.Prelude.{
  ℕ, ◌+◌, ◌-◌, ◌≤◌, ◌<◌, ◌≡◌, refl, ap, ◌⊎◌, Option, none, some, List, [], ◌∷◌, ◌++◌, Perm, arith,
  ◌==◌, length, set, length-append, length-perm, unsnoc,
}
use rubble.Prelude.Array
use native.Mathlib.Decide.{dec_lt}
use mathlib.Core.Path.{subst}
use rubble.Prelude.Run.{ok, Returns, returns, Returns-elim, Returns-if}
use rubble.Queue.{PoolItem, Slots, PriorityQueue, bubble_down, pop, peek, rob_at}
use rubble.Queue.Layout.{
  blank, key, item_at, of_items, of_items-eq, of_items-Holds, Holds, load-layout, store-layout,
  layout-snoc,
}
use rubble.Queue.Order.{parent, IsHeap}
use rubble.Queue.Down.{DownInv, bubble_down_loop_restores}

-- The queue after Pop and after Rob at the index `i`: that item is gone.
pub record Without (i : ℕ) (xs : List PoolItem) (q : PriorityQueue) : Type 0 where
  pub items : List PoolItem
  pub holds : Holds q items
  pub same : Perm (item_at xs i ∷ items) xs
  pub ordered : (i ≡ 0) ⊎ (key xs (parent i) ≤ key xs (length xs - 1)) → IsHeap xs → IsHeap items

-- The write that fills the hole at `i` with the last item, which then leaves the end.
pub record Filled (front : List PoolItem) (last : PoolItem) (i : ℕ) : Type 0 where
  pub kept : List PoolItem
  pub written : set (front ++ last ∷ []) i last ≡ kept ++ last ∷ []
  pub count : length kept ≡ length front
  pub same : Perm (item_at (front ++ last ∷ []) i ∷ kept) (front ++ last ∷ [])
  pub start :
      (i ≡ 0) ⊎ (key (front ++ last ∷ []) (parent i) ≤ last.reverse)
      → IsHeap (front ++ last ∷ [])
      → DownInv kept i

fill_inner :
    (front : List PoolItem) (last : PoolItem) (i : ℕ) → i < length front → Filled front last i
fill_inner front last i h =
    let at = λ (c : ℕ) (p : c < length front). Array.get_or-append front (last ∷ []) c blank p in
    let put = λ (c : ℕ). Array.get_or-set front i c last blank h in
    let size = length-append front (last ∷ []) in
    let kept = Array.length-set front i last in
    record {
      kept = set front i last;
      written = Array.set-append front (last ∷ []) i last h;
      count = Array.length-set front i last;
      same = rw (at i h) (
          Perm.trans (Array.set-perm front i last blank h)
            (Perm.symm (Array.snoc-perm front last)));
      start = λ above heap. record {
        edges = λ c p q r.
            ground (arith, kept, size, heap c, at c, at (parent c), put c, put (parent c), above);
        bridged = λ c p q r t.
            ground
              (arith, kept, size, heap c, heap i, at c, at i, at (parent i), put c, put (parent i));
      };
    }

fill_last : (front : List PoolItem) (last : PoolItem) → Filled front last (length front)
fill_last front last =
    let at = λ (c : ℕ) (p : c < length front). Array.get_or-append front (last ∷ []) c blank p in
    let size = length-append front (last ∷ []) in
    record {
      kept = front;
      written = Array.set-append_at front [] last last;
      count = refl;
      same =
          rw (Array.get_or-append_at front [] last blank) (Perm.symm (Array.snoc-perm front last));
      start = λ above heap. record {
        edges = λ c p q r. ground (arith, size, heap c, at c, at (parent c));
        bridged = λ c p q r t. absurd (omega arith);
      };
    }

pub fill :
    (front : List PoolItem) (last : PoolItem) (i : ℕ)
    → i < length (front ++ last ∷ [])
    → Filled front last i
fill front last i h = elim (dec_lt i (length front)) [
  | yes inner ↦ fill_inner front last i inner
  | no outer ↦
      let e : length front ≡ i = omega (arith, length-append front (last ∷ [])) in
      subst (Filled front last) e (fill_last front last)
]

-- What a call that takes the item at `i` out returns.
abbrev pub Removed : ℕ → List PoolItem → Option PoolItem × PriorityQueue → Type 0
Removed i xs r = (r.0 ≡ some (item_at xs i)) × Without i xs r.1

rob_at_snoc :
    (front : List PoolItem) (last : PoolItem) (rest : Slots) (i : ℕ)
    → i < length (front ++ last ∷ [])
    → Returns (Removed i (front ++ last ∷ [])) (rob_at (of_items (front ++ last ∷ []) rest) i)
unfolding rob_at bubble_down
rob_at_snoc front last rest i h =
    let xs = front ++ last ∷ [] in
    let size = length-append front (last ∷ []) in
    let f = fill front last i h in
    let end : item_at xs (length xs - 1) ≡ last =
      let n : length xs - 1 ≡ length front = omega (arith, size) in
      rw n (Array.get_or-append_at front [] last blank) in
    let (a, e, s) =
      Returns-elim
        (bubble_down_loop_restores (length f.kept + 1) f.kept (some last ∷ rest) i (omega arith)) in
    let n : length xs - 1 ≡ length f.kept = omega (arith, f.count, size) in
    rw
      (
        load-layout xs rest i h,
        load-layout xs rest (length xs - 1) (omega (arith, size)),
        end,
        store-layout xs rest i h last,
        f.written,
        layout-snoc f.kept last rest,
        n,
        e,
        of_items-eq a (length f.kept) (length xs + length rest) s.items (some last ∷ rest)
            s.laid_out (omega (arith, length-perm s.same))
            (omega (arith, length-perm s.same, f.count, size)),
      )
      (returns (
        refl,
        record {
          items = s.items;
          holds = of_items-Holds s.items (some last ∷ rest) (omega arith);
          same = Perm.trans (Perm.cons _ s.same) f.same;
          ordered = λ above heap. s.ordered (
              f.start
                (subst (λ (t : PoolItem). (i ≡ 0) ⊎ (key xs (parent i) ≤ t.reverse)) end above)
                heap);
        },
      ))

pub rob_at-Removed :
    (q : PriorityQueue) (xs : List PoolItem) (i : ℕ)
    → Holds q xs
    → i < length xs
    → Returns (Removed i xs) (rob_at q i)
rob_at-Removed q xs i h inside =
    let (front, last, e) = unsnoc xs (omega arith) in
    rw (h.shape, e) (rob_at_snoc front last h.rest i (rw e at inside))

-- Pop on a queue that is not empty takes the first item of the array.
pub pop-Removed :
    (q : PriorityQueue) (xs : List PoolItem)
    → Holds q xs
    → 0 < length xs
    → Returns (Removed 0 xs) (pop q)
unfolding pop
pop-Removed q xs h some_left =
    Returns-if (q.size == 0)
      (λ e. absurd (ground (arith, ap (λ (r : PriorityQueue). r.size) h.shape)))
      (λ e. unfold rob_at in rob_at-Removed q xs 0 h some_left)

pub pop_empty : (q : PriorityQueue) → Holds q [] → pop q ≡ ok (none, q)
unfolding pop
pop_empty q h = ground (arith, ap (λ (r : PriorityQueue). r.size) h.shape)

pub peek_first :
    (q : PriorityQueue) (xs : List PoolItem)
    → Holds q xs
    → 0 < length xs
    → peek q ≡ ok (some (item_at xs 0))
unfolding peek
peek_first q xs h some_left = rw h.shape (ground (arith, load-layout xs h.rest 0 some_left))
