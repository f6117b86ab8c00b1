-- ===== src/Queue/Down.antt =====
-- bubbleDown: it returns, keeps the items, and restores the order if only one item is too high.
use mathlib.Core.List.Perm
use mathlib.Core.Path.{subst}
use rubble.Prelude.{
  ℕ, zero, suc, ◌+◌, ◌-◌, ◌*◌, ◌≤◌, ◌<◌, ◌≡◌, refl, ◌≢◌, ◌⊎◌, inl, inr, Option, none, some, List,
  arith, ltb, ltb→lt, ltb→le, lt→ltb, le→ltb, length, Bool-cases, Option-cases, if◌then◌else◌,
}
use rubble.Prelude.Array
use rubble.Prelude.Run.{ok, Returns, returns, Returns-bind, Returns-elim, Returns-if}
use rubble.Queue.{PoolItem, Slots, bubble_down_loop, min_child, less_than}
use rubble.Queue.Layout.{blank, key, layout, deref-layout, swap-layout}
use rubble.Queue.Order.{parent, IsHeap, IsBridged}
use rubble.Queue.Up.{Sifted, Sifted-swap}

-- Only the edges below `i` may be out of order.
pub record DownInv (xs : List PoolItem) (i : ℕ) : Type 0 where
  pub edges : (c : ℕ) → 0 < c → c < length xs → parent c ≢ i → key xs (parent c) ≤ key xs c
  pub bridged : IsBridged xs i

-- What min_child finds: the child that is reserved for less long, or that there is none.
pub MinChild : List PoolItem → ℕ → Option ℕ → Type 0
MinChild xs i none = length xs ≤ i * 2 + 1
MinChild xs i (some m) =
    (m < length xs)
    × ((m ≡ i * 2 + 1) ⊎ (m ≡ i * 2 + 2))
    × ((c : ℕ) → 0 < c → c < length xs → parent c ≡ i → key xs m ≤ key xs c)

smaller_child :
    (xs : List PoolItem) (i : ℕ)
    → i * 2 + 2 < length xs
    → MinChild xs i
        (some (if ltb (key xs (i * 2 + 1)) (key xs (i * 2 + 2)) then i * 2 + 1 else i * 2 + 2))
unfolding MinChild
smaller_child xs i h = elim (Bool-cases (ltb (key xs (i * 2 + 1)) (key xs (i * 2 + 2)))) [
  | inl e ↦ rw e (omega arith, inl refl, λ c p q r. ground arith)
  | inr e ↦ rw e (omega arith, inr refl, λ c p q r. ground arith)
]

only_child :
    (xs : List PoolItem) (i : ℕ)
    → i * 2 + 1 < length xs
    → length xs ≤ i * 2 + 2
    → MinChild xs i (some (i * 2 + 1))
unfolding MinChild
only_child xs i h k = (h, inl refl, λ c p q r. ground arith)

pub min_child-MinChild :
    (xs : List PoolItem) (rest : Slots) (i : ℕ)
    → Returns (MinChild xs i) (min_child (length xs) (layout xs rest) i)
unfolding min_child MinChild less_than
min_child-MinChild xs rest i =
    let n = length xs in
    elim (Bool-cases (ltb (i * 2 + 2) n)) [
      | inl both ↦
          let right : i * 2 + 2 < n = ltb→lt _ _ both in
          rw
            (
              both,
              lt→ltb (i * 2 + 1) n (omega arith),
              deref-layout xs rest (i * 2 + 1) (omega arith),
              deref-layout xs rest (i * 2 + 2) right,
            )
            (returns (smaller_child xs i right))
      | inr short ↦ elim (Bool-cases (ltb (i * 2 + 1) n)) [
        | inl one ↦ rw (one, short) (returns (only_child xs i (ltb→lt _ _ one) (ltb→le _ _ short)))
        | inr bare ↦ rw (bare, short) (returns (ltb→le _ _ bare))
      ]
    ]

leaf_bound : (xs : List PoolItem) (i : ℕ) → MinChild xs i none → length xs ≤ i * 2 + 1
unfolding MinChild
leaf_bound xs i h = h

MinChild-lt : (xs : List PoolItem) (i m : ℕ) → MinChild xs i (some m) → m < length xs
unfolding MinChild
MinChild-lt xs i m s = s.0

MinChild-gt : (xs : List PoolItem) (i m : ℕ) → MinChild xs i (some m) → i < m
unfolding MinChild
MinChild-gt xs i m s = ground (arith, s.1)

MinChild-parent : (xs : List PoolItem) (i m : ℕ) → MinChild xs i (some m) → parent m ≡ i
unfolding MinChild
MinChild-parent xs i m s = ground (arith, s.1)

swap-DownInv :
    (xs : List PoolItem) (i m : ℕ)
    → i < length xs
    → MinChild xs i (some m)
    → key xs m < key xs i
    → DownInv xs i
    → DownInv (Array.swap blank xs i m) m
unfolding MinChild
swap-DownInv xs i m hi (inside, child, least) below v =
    let size = Array.length-swap blank xs i m in
    let at = Array.get_or-swap blank xs i m hi inside in
    record {
      edges = λ c p q t. ground (arith, at c, at (parent c), v.edges c, v.bridged m, least c);
      bridged = λ c p q t u. ground (arith, at c, at (parent m), v.edges c);
    }

settled-IsHeap :
    (xs : List PoolItem) (i m : ℕ)
    → MinChild xs i (some m)
    → key xs i ≤ key xs m
    → DownInv xs i
    → IsHeap xs
unfolding MinChild
settled-IsHeap xs i m (inside, child, least) h v c p q = ground (arith, v.edges c, least c)

pub bubble_down_loop_restores :
    (k : ℕ) (xs : List PoolItem) (rest : Slots) (i : ℕ)
    → length xs - i < k
    → Returns (Sifted (DownInv xs i) rest xs) (bubble_down_loop k (length xs) (layout xs rest) i)
unfolding bubble_down_loop less_than
bubble_down_loop_restores zero xs rest i f = absurd (omega arith)
bubble_down_loop_restores (suc k) xs rest i f =
    Returns-if (ltb i (length xs))
      (λ e.
        let hi = ltb→lt i (length xs) e in
        Returns-bind (min_child-MinChild xs rest i) (elim [
          | none ↦ λ leaf. returns (record {
            items = xs;
            laid_out = refl;
            same = Perm.rfl;
            ordered = λ v c p q. v.edges c p q (omega (arith, leaf_bound xs i leaf));
          })
          | some m ↦ λ s.
              let inside = MinChild-lt xs i m s in
              rw (deref-layout xs rest m inside, deref-layout xs rest i hi)
                (Returns-if (ltb (key xs m) (key xs i))
                  (λ below. rw (swap-layout xs rest i m hi inside) (
                    Sifted-swap xs hi inside (swap-DownInv xs i m hi s (ltb→lt _ _ below)) (
                      rw (Array.length-swap blank xs i m) at (
                        bubble_down_loop_restores k (Array.swap blank xs i m) rest m
                          (omega (arith, MinChild-gt xs i m s, Array.length-swap blank xs i m))))))
                  (λ settled. returns (record {
                    items = xs;
                    laid_out = refl;
                    same = Perm.rfl;
                    ordered = settled-IsHeap xs i m s (ltb→le _ _ settled);
                  })))
        ]))
      (λ outside. returns (record {
        items = xs;
        laid_out = refl;
        same = Perm.rfl;
        ordered = λ v c p q. v.edges c p q (omega (arith, ltb→le i (length xs) outside));
      }))

-- bubbleDown stops at once where no child is reserved for less long.
pub bubble_down_loop_stays :
    (f : ℕ) (xs : List PoolItem) (rest : Slots) (i : ℕ)
    → 0 < f
    → i < length xs
    → ((c : ℕ) → i < c → c < length xs → parent c ≡ i → key xs i ≤ key xs c)
    → bubble_down_loop f (length xs) (layout xs rest) i ≡ ok (layout xs rest)
unfolding bubble_down_loop less_than
bubble_down_loop_stays zero xs rest i pos hi low = absurd (omega arith)
bubble_down_loop_stays (suc k) xs rest i pos hi low =
    let (m, e, s) = Returns-elim (min_child-MinChild xs rest i) in
    elim (Option-cases m) [
      | inl leaf ↦ rw (lt→ltb i (length xs) hi, e, leaf)
      | inr (c, child) ↦
          let t = subst (MinChild xs i) child s in
          let inside = MinChild-lt xs i c t in
          rw (
            lt→ltb i (length xs) hi,
            e,
            child,
            deref-layout xs rest c inside,
            deref-layout xs rest i hi,
            le→ltb (key xs c) (key xs i)
                (low c (MinChild-gt xs i c t) inside (MinChild-parent xs i c t)),
          )
    ]
