-- ===== src/Queue/Up.antt =====
-- bubbleUp: it returns, keeps the items, and restores the order if only one item is too low.
use mathlib.Core.List.Perm
use rubble.Prelude.{ℕ, zero, suc, ◌≤◌, ◌<◌, ◌≡◌, refl, ◌≢◌, List, Perm, arith, ltb, length}
use rubble.Prelude.Array
use rubble.Prelude.Run.{Run, Returns, returns, Returns-map, Returns-if}
use rubble.Queue.{PoolItem, Slots, bubble_up_loop, less_than}
use rubble.Queue.Layout.{blank, key, layout, deref-layout, swap-layout}
use rubble.Queue.Order.{parent, IsHeap, IsBridged}

-- Only the edge above `i` may be out of order.
pub record UpInv (xs : List PoolItem) (i : ℕ) : Type 0 where
  pub edges : (c : ℕ) → 0 < c → c < length xs → c ≢ i → key xs (parent c) ≤ key xs c
  pub bridged : IsBridged xs i

-- The array `a` holds the items `xs` again, ordered if `Start` held at the start.
pub record Sifted {ℓ} (Start : Type ℓ) (rest : Slots) (xs : List PoolItem) (a : Slots)
    : Type ℓ where
  pub items : List PoolItem
  pub laid_out : a ≡ layout items rest
  pub same : Perm items xs
  pub ordered : Start → IsHeap items

pub Sifted-swap {ℓ κ} :
    {Start : Type ℓ} {Later : Type κ} {rest : Slots} {i j : ℕ} (xs : List PoolItem) {r : Run Slots}
    → i < length xs
    → j < length xs
    → (Start → Later)
    → Returns (Sifted Later rest (Array.swap blank xs i j)) r
    → Returns (Sifted Start rest xs) r
Sifted-swap xs hi hj later run = Returns-map run λ a s. record {
  items = s.items;
  laid_out = s.laid_out;
  same = Perm.trans s.same (Array.swap-perm blank xs _ _ hi hj);
  ordered = λ v. s.ordered (later v);
}

swap-UpInv :
    (xs : List PoolItem) (i : ℕ)
    → i < length xs
    → 0 < i
    → key xs i < key xs (parent i)
    → UpInv xs i
    → UpInv (Array.swap blank xs i (parent i)) (parent i)
swap-UpInv xs i hi pos below v =
    grind (arith, Array.length-swap blank xs i (parent i), Array.get_or-swap blank xs i (parent i))

pub bubble_up_loop_restores :
    (k : ℕ) (xs : List PoolItem) (rest : Slots) (i : ℕ)
    → i < k
    → i < length xs
    → Returns (Sifted (UpInv xs i) rest xs) (bubble_up_loop k (layout xs rest) i)
unfolding bubble_up_loop less_than
bubble_up_loop_restores zero xs rest i f hi = absurd (omega arith)
bubble_up_loop_restores (suc k) xs rest i f hi =
    let above : parent i < length xs = omega arith in
    rw (deref-layout xs rest i hi, deref-layout xs rest (parent i) above)
      (Returns-if (ltb 0 i)
        (λ pos.
          Returns-if (ltb (key xs i) (key xs (parent i)))
            (λ below. rw (swap-layout xs rest i (parent i) hi above) (
              Sifted-swap xs hi above (swap-UpInv xs i hi (ground arith) (ground arith)) (
                bubble_up_loop_restores k (Array.swap blank xs i (parent i)) rest (parent i)
                  (ground arith) (omega (arith, Array.length-swap blank xs i (parent i))))))
            (λ settled. returns (record {
              items = xs;
              laid_out = refl;
              same = Perm.rfl;
              ordered = λ v c p q. ground (arith, v.edges c);
            })))
        (λ root. returns (record {
          items = xs;
          laid_out = refl;
          same = Perm.rfl;
          ordered = λ v c p q. v.edges c p q (ground arith);
        })))
