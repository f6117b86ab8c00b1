-- ===== src/Queue/Order.antt =====
-- The heap order of a PriorityQueue.
use rubble.Prelude.{ℕ, zero, suc, ◌-◌, ◌/◌, ◌≤◌, ◌<◌, ◌≡◌, List, arith, length}
use rubble.Queue.{PoolItem}
use rubble.Queue.Layout.{key}

abbrev pub parent : ℕ → ℕ
parent c = (c - 1) / 2

-- No item is reserved for less long than the item above it.
abbrev pub IsHeap : List PoolItem → Type 0
IsHeap xs = (c : ℕ) → 0 < c → c < length xs → key xs (parent c) ≤ key xs c

-- The edges that jump over `i`, from its parent to its children, are in order.
abbrev pub IsBridged : List PoolItem → ℕ → Type 0
IsBridged xs i =
    (c : ℕ) → 0 < c → c < length xs → parent c ≡ i → 0 < i → key xs (parent i) ≤ key xs c

root_least_below :
    (k : ℕ) (xs : List PoolItem) (i : ℕ) → IsHeap xs → i < k → i < length xs → key xs 0 ≤ key xs i
root_least_below zero xs i h f p = absurd (omega arith)
root_least_below (suc k) xs zero h f p = omega arith
root_least_below (suc k) xs (suc i) h f p =
    let up = h (suc i) (omega arith) p in
    omega (arith, up, root_least_below k xs (parent (suc i)) h (omega arith) (omega arith))

-- The first item of a heap is reserved for the shortest time.
pub root_least : (xs : List PoolItem) (i : ℕ) → IsHeap xs → i < length xs → key xs 0 ≤ key xs i
root_least xs i h p = root_least_below (suc i) xs i h (omega arith) p
