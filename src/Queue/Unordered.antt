-- ===== src/Queue/Unordered.antt =====
-- pkg/pool/queue.go: Queue, which keeps its items in no order. Its fields are those of PriorityQueue,
-- and it is read as one.
use rubble.Prelude.{
  ℕ, suc, ◌+◌, ◌-◌, String, Option, none, some, List, leb, ◌==◌, if◌then◌else◌, length, take, ◌++◌,
  replicate, ◌<◌, ◌≡◌, refl, ap, ◌⊎◌, inl, inr, [], ◌∷◌, Perm, arith, length-append, unsnoc,
}
use rubble.Prelude.Run.{
  Run, ok, panic, ◌>>=◌, Returns, returns, Returns-bind, Returns-map, Returns-if,
}
use rubble.Queue.{PoolItem, Slots, PriorityQueue, load, store, grow, index_of}
use rubble.Prelude.Array
use rubble.Queue.Layout.{
  blank, item_at, layout, layout-snoc, of_items, of_items-eq, of_items-Holds, Holds, load-layout,
  store-layout, store-layout_end,
}
use rubble.Queue.Contents.{grow-Holds}
use rubble.Queue.Removal.{fill}
use rubble.Queue.Search.{Found, searched}

unfoldable pub new_queue : PriorityQueue
new_queue = record { slots = replicate 10 none; size = 0; capacity = 10 }

-- The last item takes the place of the one at the index.
unfoldable pub take_at : PriorityQueue → ℕ → Run (Option PoolItem × PriorityQueue)
take_at q i = do
  item ← load q.slots i
  last ← load q.slots (q.size - 1)
  a ← store q.slots i last
  ok (item, record q { slots = a; size = q.size - 1 })

unfoldable pub pop : PriorityQueue → Run (Option PoolItem × PriorityQueue)
pop q = if q.size == 0 then ok (none, q) else take_at q 0

unfoldable pub peek : PriorityQueue → Run (Option PoolItem)
peek q = if q.size == 0 then ok none else load q.slots 0

unfoldable pub rob : PriorityQueue → String → Run (Option PoolItem × PriorityQueue)
rob q id = index_of q.size q.slots id 0 >>= λ found. elim found [
  | none ↦ ok (none, q)
  | some i ↦ take_at q i
]

unfoldable pub find : PriorityQueue → String → Run (Option PoolItem)
find q id = index_of q.size q.slots id 0 >>= λ found. elim found [
  | none ↦ ok none
  | some i ↦ load q.slots i
]

unfoldable pub push : PriorityQueue → PoolItem → Run PriorityQueue
push q item = do
  a ← store q.slots q.size (some item)
  ok (grow (record q { slots = a; size = q.size + 1 }))

unfoldable pub list : PriorityQueue → Run Slots
list q = if leb q.size (length q.slots) then ok (take q.size q.slots) else panic

-- A call that takes the item at `i` out returns it, and the queue has the others.
abbrev pub Dropped : ℕ → List PoolItem → Option PoolItem × PriorityQueue → Type 0
Dropped i xs r =
    (r.0 ≡ some (item_at xs i))
    × (items : List PoolItem) × Holds r.1 items
    × Perm (item_at xs i ∷ items) xs

take_at_snoc :
    (front : List PoolItem) (last : PoolItem) (rest : Slots) (i : ℕ)
    → i < length (front ++ last ∷ [])
    → Returns (Dropped i (front ++ last ∷ [])) (take_at (of_items (front ++ last ∷ []) rest) i)
unfolding take_at
take_at_snoc front last rest i h =
    let xs = front ++ last ∷ [] in
    let size = length-append front (last ∷ []) in
    let f = fill front last i h in
    let end : item_at xs (length xs - 1) ≡ last =
      let n : length xs - 1 ≡ length front = omega (arith, size) in
      rw n (Array.get_or-append_at front [] last blank) in
    rw
      (
        load-layout xs rest i h,
        load-layout xs rest (length xs - 1) (omega (arith, size)),
        end,
        store-layout xs rest i h last,
        f.written,
        of_items-eq (layout (f.kept ++ last ∷ []) rest) (length xs - 1) (length xs + length rest)
            f.kept (some last ∷ rest) (layout-snoc f.kept last rest) (omega (arith, f.count, size))
            (omega (arith, f.count, size)),
      )
      (returns (refl, f.kept, of_items-Holds f.kept (some last ∷ rest) (omega arith), f.same))

push_onto_end :
    (xs : List PoolItem) (rest : Slots) (item : PoolItem)
    → 0 < length rest
    → Returns (λ r. Holds r (xs ++ item ∷ [])) (push (of_items xs rest) item)
unfolding push
push_onto_end xs [] item h = absurd (omega arith)
push_onto_end xs (old ∷ rest) item h =
    let size = length-append xs (item ∷ []) in
    rw
      (
        store-layout_end xs old rest item,
        of_items-eq (layout (xs ++ item ∷ []) rest) (length xs + 1) (length xs + suc (length rest))
            (xs ++ item ∷ []) rest refl (omega (arith, size)) (omega (arith, size)),
      )
      (returns (grow-Holds (xs ++ item ∷ []) rest (omega (arith, size))))

module _ (q : PriorityQueue) (xs : List PoolItem) (h : Holds q xs) where
  take_at-Dropped : (i : ℕ) → i < length xs → Returns (Dropped i xs) (take_at q i)
  take_at-Dropped i inside =
      let (front, last, e) = unsnoc xs (omega arith) in
      rw (h.shape, e) (take_at_snoc front last h.rest i (rw e at inside))

  -- Pop returns the first item of the array and keeps the others, in some order.
  pub pop-Dropped : 0 < length xs → Returns (Dropped 0 xs) (pop q)
  unfolding pop
  pop-Dropped some_left =
      Returns-if (q.size == 0)
        (λ e. absurd (ground (arith, ap (λ (r : PriorityQueue). r.size) h.shape)))
        (λ e. take_at-Dropped 0 some_left)

  -- Rob takes the first item with the id out and keeps the others, or answers nil and keeps all.
  pub rob-Dropped :
      (id : String)
      → Returns
          (λ r.
            ((i : ℕ) × Found xs id 0 (some i) × Dropped i xs r)
            ⊎ (Found xs id 0 none × (r ≡ (none, q))))
          (rob q id)
  unfolding rob
  rob-Dropped id = Returns-bind (searched q xs id h) (elim [
    | none ↦ λ f. returns (inr (f, refl))
    | some i ↦ λ f. Returns-map (take_at-Dropped i f.1) λ r dropped. inl (i, f, dropped)
  ])

  -- Push adds the item at the end and leaves room for one more.
  pub push-added : (item : PoolItem) → Returns (λ r. Holds r (xs ++ item ∷ [])) (push q item)
  push-added item = rw h.shape (push_onto_end xs h.rest item h.room)
