-- ===== src/Queue.antt =====
-- pkg/pool/queue.go: PriorityQueue, a binary heap on the time until which an item is reserved, in
-- an array of pointers that doubles when it is full. An index out of range and the dereference of
-- a nil pointer are panics. Indices stay below twice the capacity, so `int` does not overflow.
-- A `for` loop that moves an index takes fuel; its callers give the size of the queue plus one.
pub mod Layout
pub mod Order
pub mod Up
pub mod Down
pub mod Contents
pub mod Removal
pub mod Search
pub mod Earliest
pub mod Unordered
mod Tests
use rubble.Prelude.{
  ℕ, zero, suc, ◌+◌, ◌-◌, ◌*◌, ◌/◌, String, Bool, ◌&&◌, Option, none, some, List, [], ◌∷◌, ◌++◌,
  ltb, leb, ◌==◌, if◌then◌else◌, str_eq, length, get_elem?, set, replicate, take,
}
use rubble.Prelude.Run.{Run, ok, panic, out_of_fuel, ◌>>=◌, or_panic}
use rubble.Resource.{PortResource, get_resource_id}

-- Times are nanoseconds.
pub record PoolItem : Type 0 where
  pub res : PortResource
  pub reverse : ℕ

unfoldable pub less_than : PoolItem → PoolItem → Bool
less_than i other = ltb i.reverse other.reverse

unfoldable pub get_resource : PoolItem → PortResource
get_resource i = i.res

-- An array of pointers to items.
abbrev pub Slots : Type 0
Slots = List (Option PoolItem)

pub record PriorityQueue : Type 0 where
  pub slots : Slots
  pub size : ℕ
  pub capacity : ℕ

unfoldable pub new_priority_queue : PriorityQueue
new_priority_queue = record { slots = replicate 10 none; size = 0; capacity = 10 }

-- `q.slots[i]` as a value, as the target of a write, and dereferenced.
unfoldable pub load : Slots → ℕ → Run (Option PoolItem)
load a i = or_panic (get_elem? a i)

unfoldable pub store : Slots → ℕ → Option PoolItem → Run Slots
store a i v = if ltb i (length a) then ok (set a i v) else panic

unfoldable pub deref : Slots → ℕ → Run PoolItem
deref a i = do p ← load a i; or_panic p

unfoldable pub swap : Slots → ℕ → ℕ → Run Slots
swap a x y = do tmp ← load a x; other ← load a y; b ← store a x other; store b y tmp

unfoldable pub bubble_up_loop : ℕ → Slots → ℕ → Run Slots
bubble_up_loop zero a index = out_of_fuel
bubble_up_loop (suc fuel) a index =
    let parent = (index - 1) / 2 in
    let rise = swap a index parent >>= λ b. bubble_up_loop fuel b parent in
    let round : Run Slots = do
      child ← deref a index
      above ← deref a parent
      if less_than child above then rise else ok a
    in if ltb 0 index then round else ok a

unfoldable pub bubble_up : PriorityQueue → ℕ → Run PriorityQueue
bubble_up q index = do a ← bubble_up_loop (index + 1) q.slots index; ok (record q { slots = a })

-- The child to compare with, or `none` where the loop breaks.
unfoldable pub min_child : ℕ → Slots → ℕ → Run (Option ℕ)
min_child size a index =
    let left = index * 2 + 1 in
    let right = index * 2 + 2 in
    let smaller : Run (Option ℕ) = do
      l ← deref a left
      r ← deref a right
      ok (some (if less_than l r then left else right))
    in if ltb left size && ltb right size
      then smaller
      else if ltb left size
      then ok (some left)
      else if ltb right size
      then ok (some right)
      else ok none

unfoldable pub bubble_down_loop : ℕ → ℕ → Slots → ℕ → Run Slots
bubble_down_loop zero size a index = out_of_fuel
bubble_down_loop (suc fuel) size a index =
    let sink = λ (c : ℕ). swap a index c >>= λ b. bubble_down_loop fuel size b c in
    let compared = λ (c : ℕ). deref a c >>= λ child.
    deref a index >>= λ item. if less_than child item then sink c else ok a in
    let round : Run Slots =
      min_child size a index >>= λ m. elim m [ none ↦ ok a | some c ↦ compared c ] in
    if ltb index size then round else ok a

unfoldable pub bubble_down : PriorityQueue → ℕ → Run PriorityQueue
bubble_down q index = do
  a ← bubble_down_loop (q.size + 1) q.size q.slots index
  ok (record q { slots = a })

unfoldable pub pop : PriorityQueue → Run (Option PoolItem × PriorityQueue)
pop q = if q.size == 0 then ok (none, q) else do
  ret ← load q.slots 0
  last ← load q.slots (q.size - 1)
  a ← store q.slots 0 last
  r ← bubble_down (record q { slots = a; size = q.size - 1 }) 0
  ok (ret, r)

unfoldable pub peek : PriorityQueue → Run (Option PoolItem)
peek q = if q.size == 0 then ok none else load q.slots 0

-- The loop of Rob and Find: `left` rounds from index `i` on, to the first item with the id.
unfoldable pub index_of : ℕ → Slots → String → ℕ → Run (Option ℕ)
index_of zero a id i = ok none
index_of (suc left) a id i =
    let later = index_of left a id (suc i) in
    deref a i >>= λ item. if str_eq (get_resource_id item.res) id then ok (some i) else later

unfoldable pub rob_at : PriorityQueue → ℕ → Run (Option PoolItem × PriorityQueue)
rob_at q i = do
  item ← load q.slots i
  last ← load q.slots (q.size - 1)
  a ← store q.slots i last
  r ← bubble_down (record q { slots = a; size = q.size - 1 }) i
  ok (item, r)

unfoldable pub rob : PriorityQueue → String → Run (Option PoolItem × PriorityQueue)
rob q id = index_of q.size q.slots id 0 >>= λ found. elim found [
  | none ↦ ok (none, q)
  | some i ↦ rob_at q i
]

unfoldable pub find : PriorityQueue → String → Run (Option PoolItem)
find q id = index_of q.size q.slots id 0 >>= λ found. elim found [
  | none ↦ ok none
  | some i ↦ load q.slots i
]

-- A full array is copied into one of twice the length, whose new entries are nil.
unfoldable pub grow : PriorityQueue → PriorityQueue
grow q =
    if leb q.capacity q.size
    then record q {
      capacity = q.capacity * 2;
      slots = take (q.capacity * 2) q.slots ++ replicate (q.capacity * 2 - length q.slots) none;
    }
    else q

unfoldable pub push : PriorityQueue → PoolItem → Run PriorityQueue
push q item = do
  a ← store q.slots q.size (some item)
  r ← bubble_up (record q { slots = a; size = q.size + 1 }) (q.size + 1 - 1)
  ok (grow r)

-- `List`: a slice past the array's end is a panic.
unfoldable pub list : PriorityQueue → Run Slots
list q = if leb q.size (length q.slots) then ok (take q.size q.slots) else panic
