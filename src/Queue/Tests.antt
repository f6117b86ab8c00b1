-- ===== src/Queue/Tests.antt =====
-- Runs of the queue, and its theorems at a concrete queue.
use rubble.Prelude.{ℕ, ◌≡◌, refl, String, Option, none, some, List, [], ◌∷◌, replicate, arith}
use rubble.Prelude.Run.{Run, ok, Returns, ◌>>=◌}
use rubble.Resource.{PortResource}
use rubble.Queue.{
  PoolItem, PriorityQueue, new_priority_queue, push, pop, rob, rob_at, bubble_up, bubble_down,
  bubble_up_loop, bubble_down_loop, min_child, swap, deref, load, store, less_than, grow,
}
use rubble.Queue.Layout.{blank, of_items, of_items-Holds, Holds}
use rubble.Queue.Order.{IsHeap}
use rubble.Queue.Contents.{Pushed, push-Pushed}
use rubble.Queue.Search.{Robbed, rob-Robbed}
use rubble.Queue.Earliest.{Earliest, pop-Earliest, rob_at-breaks}

abbrev resource : String → PortResource
resource id = record { port = record blank.res.port { id = id } }

abbrev item : String → ℕ → PoolItem
item id reverse = record { res = resource id; reverse = reverse }

-- In the order of the heap: d stands below b, and e below c.
abbrev stock : List PoolItem
stock = item "a" 1 ∷ item "b" 20 ∷ item "c" 3 ∷ item "d" 30 ∷ item "e" 40 ∷ item "f" 5 ∷ []

abbrev stock_queue : PriorityQueue
stock_queue = of_items stock (replicate 4 none)

stock-Holds : Holds stock_queue stock
stock-Holds = of_items-Holds stock (replicate 4 none) (omega arith)

stock-IsHeap : IsHeap stock
stock-IsHeap = grind arith

push-Pushed_example : Returns (Pushed (item "g" 2) stock) (push stock_queue (item "g" 2))
push-Pushed_example = push-Pushed stock_queue stock (item "g" 2) stock-Holds

pop-Earliest_example : Returns (Earliest stock) (pop stock_queue)
pop-Earliest_example = pop-Earliest stock_queue stock stock-Holds stock-IsHeap (omega arith)

rob-Robbed_example : Returns (Robbed stock_queue stock "d" stock-Holds) (rob stock_queue "d")
rob-Robbed_example = rob-Robbed stock_queue stock "d" stock-Holds

rob_at-breaks_example :
    Returns (λ r. (ys : List PoolItem) × Holds r.1 ys × ¬ IsHeap ys) (rob_at stock_queue 3)
rob_at-breaks_example =
    rob_at-breaks stock_queue stock 3 stock-Holds stock-IsHeap (omega arith) (omega arith)
      (omega arith)

-- Three pushes and a pop: the item that is reserved for the shortest time.
abbrev three : Run (Option PoolItem × PriorityQueue)
three = do
  p ← push new_priority_queue (item "x" 9)
  q ← push p (item "y" 4)
  r ← push q (item "z" 6)
  pop r

three_first : (three >>= λ (i, _). ok i) ≡ ok (some (item "y" 4))
unfolding new_priority_queue push pop bubble_up bubble_down bubble_up_loop bubble_down_loop
    min_child swap deref load store less_than grow
three_first = refl
