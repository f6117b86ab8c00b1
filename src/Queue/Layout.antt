-- ===== src/Queue/Layout.antt =====
-- The array of a PriorityQueue that holds the items `xs`: pointers to them, in order, and behind
-- them entries that no operation reads. On such an array the reads and writes of the code are
-- those of the list `xs`.
use mathlib.Core.List.{append_assoc}
use rubble.Prelude.{
  ℕ, zero, suc, ◌+◌, ◌<◌, ◌≡◌, refl, sym, ap, ◌∙◌, Option, some, List, [], ◌∷◌, ◌++◌, map, arith,
  lt→ltb, length, get_elem?, get_or, set, length-append, length-map, take, take-append, le→leb,
}
use rubble.Prelude.Array
use rubble.Prelude.Run.{ok}
use rubble.Queue.{PoolItem, Slots, PriorityQueue, load, store, deref, swap, list}

abbrev pub blank : PoolItem
blank = record {
  res = record {
    port = record {
      name = "";
      id = "";
      subnet_id = "";
      mac = "";
      ip = "";
      cidr = "";
      gateway = "";
      mtu = 0;
      sgs = [];
    };
  };
  reverse = 0;
}

abbrev pub item_at : List PoolItem → ℕ → PoolItem
item_at xs i = get_or xs i blank

abbrev pub key : List PoolItem → ℕ → ℕ
key xs i = (item_at xs i).reverse

unfoldable pub layout : List PoolItem → Slots → Slots
layout xs rest = map some xs ++ rest

-- The queue with these items, and these entries behind them.
abbrev pub of_items : List PoolItem → Slots → PriorityQueue
of_items xs rest = record {
  slots = layout xs rest;
  size = length xs;
  capacity = length xs + length rest;
}

-- The queue holds the items `xs`, in the order of its array, and has room for one more.
pub record Holds (q : PriorityQueue) (xs : List PoolItem) : Type 0 where
  pub rest : Slots
  pub shape : q ≡ of_items xs rest
  pub room : 0 < length rest

pub length-layout :
    (xs : List PoolItem) (rest : Slots) → length (layout xs rest) ≡ length xs + length rest
unfolding layout
length-layout xs rest = rw (length-append (map some xs) rest, length-map some xs)

get_elem?-layout :
    (xs : List PoolItem) (rest : Slots) (i : ℕ)
    → i < length xs
    → get_elem? (layout xs rest) i ≡ some (some (item_at xs i))
unfolding layout
get_elem?-layout [] rest i h = elim h [ ]
get_elem?-layout (x ∷ xs) rest zero h = refl
get_elem?-layout (x ∷ xs) rest (suc i) h = get_elem?-layout xs rest i (omega arith)

set-layout :
    (xs : List PoolItem) (rest : Slots) (i : ℕ) (v : PoolItem)
    → i < length xs
    → set (layout xs rest) i (some v) ≡ layout (set xs i v) rest
unfolding layout
set-layout [] rest i v h = elim h [ ]
set-layout (x ∷ xs) rest zero v h = refl
set-layout (x ∷ xs) rest (suc i) v h = ap (◌∷◌ (some x)) (set-layout xs rest i v (omega arith))

module _ (xs : List PoolItem) (rest : Slots) (i : ℕ) (h : i < length xs) where
  pub load-layout : load (layout xs rest) i ≡ ok (some (item_at xs i))
  unfolding load
  load-layout = rw (get_elem?-layout xs rest i h)

  pub deref-layout : deref (layout xs rest) i ≡ ok (item_at xs i)
  unfolding deref load
  deref-layout = rw (get_elem?-layout xs rest i h)

  pub store-layout :
      (v : PoolItem) → store (layout xs rest) i (some v) ≡ ok (layout (set xs i v) rest)
  unfolding store
  store-layout v = rw (
    lt→ltb i (length (layout xs rest)) (omega (arith, length-layout xs rest)),
    set-layout xs rest i v h,
  )

pub swap-layout :
    (xs : List PoolItem) (rest : Slots) (i j : ℕ)
    → i < length xs
    → j < length xs
    → swap (layout xs rest) i j ≡ ok (layout (Array.swap blank xs i j) rest)
unfolding swap Array.swap
swap-layout xs rest i j hi hj =
    let kept = Array.length-set xs i (item_at xs j) in
    rw
      (load-layout xs rest i hi, load-layout xs rest j hj, store-layout xs rest i hi (item_at xs j))
      (store-layout (set xs i (item_at xs j)) rest j (omega (arith, kept)) (item_at xs i))

-- The last of the items joins the entries that nothing reads.
pub layout-snoc :
    (xs : List PoolItem) (x : PoolItem) (rest : Slots)
    → layout (xs ++ x ∷ []) rest ≡ layout xs (some x ∷ rest)
unfolding layout
layout-snoc [] x rest = refl
layout-snoc (y ∷ xs) x rest = ap (◌∷◌ (some y)) (layout-snoc xs x rest)

set-layout_end :
    (xs : List PoolItem) (old : Option PoolItem) (rest : Slots) (v : PoolItem)
    → set (layout xs (old ∷ rest)) (length xs) (some v) ≡ layout xs (some v ∷ rest)
unfolding layout
set-layout_end [] old rest v = refl
set-layout_end (x ∷ xs) old rest v = ap (◌∷◌ (some x)) (set-layout_end xs old rest v)

-- A write behind the items adds one.
pub store-layout_end :
    (xs : List PoolItem) (old : Option PoolItem) (rest : Slots) (v : PoolItem)
    → store (layout xs (old ∷ rest)) (length xs) (some v) ≡ ok (layout (xs ++ v ∷ []) rest)
unfolding store
store-layout_end xs old rest v =
    rw
      (lt→ltb (length xs) (length (layout xs (old ∷ rest)))
        (omega (arith, length-layout xs (old ∷ rest))))
      (ap ok (set-layout_end xs old rest v ∙ sym (layout-snoc xs v rest)))

pub layout-append :
    (xs : List PoolItem) (rest more : Slots) → layout xs rest ++ more ≡ layout xs (rest ++ more)
unfolding layout
layout-append xs rest more = append_assoc (map some xs) rest more

pub layout-nil : (rest : Slots) → layout [] rest ≡ rest
unfolding layout
layout-nil rest = refl

-- A queue with room whose items are `xs`.
pub of_items-Holds :
    (xs : List PoolItem) (rest : Slots) → 0 < length rest → Holds (of_items xs rest) xs
of_items-Holds xs rest h = record { rest = rest; shape = refl; room = h }

pub of_items-eq :
    (a : Slots) (n c : ℕ) (xs : List PoolItem) (rest : Slots)
    → a ≡ layout xs rest
    → n ≡ length xs
    → c ≡ length xs + length rest
    → ◌≡◌ {A = PriorityQueue} (record { slots = a; size = n; capacity = c }) (of_items xs rest)
of_items-eq a n c xs rest p q r = λ i. record { slots = p i; size = q i; capacity = r i }

-- List of a queue: pointers to its items.
pub list-Holds : {q : PriorityQueue} {xs : List PoolItem} → Holds q xs → list q ≡ ok (map some xs)
unfolding list layout
list-Holds {q} {xs} h = rw h.shape (
    rw (le→leb (length xs) (length (layout xs h.rest)) (omega (arith, length-layout xs h.rest))) (
      ap ok (
        ap (λ n. take n (map some xs ++ h.rest)) (sym (length-map some xs))
        ∙ take-append (map some xs) h.rest)))
