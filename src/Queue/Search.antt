-- ===== src/Queue/Search.antt =====
-- Rob and Find look an item up by the id of its resource; Pop returns an item whose reservation
-- ends first.
use native.Mathlib.Decide.{ℕ_discrete}
use mathlib.Core.Bool.{false≢true}
use rubble.Prelude.{
  ℕ, zero, suc, ◌+◌, ◌≤◌, ◌<◌, ◌≡◌, refl, sym, ap, ◌∙◌, ◌⊎◌, ◌≢◌, inl, inr, Option, none, some,
  List, String, arith, str_eq, eq_iff, length,
}
use rubble.Prelude.Run.{Returns, returns, Returns-bind, Returns-map, Returns-if}
use rubble.Resource.{get_resource_id}
use rubble.Queue.{PoolItem, Slots, PriorityQueue, index_of, rob, find}
use rubble.Queue.Layout.{item_at, layout, Holds, deref-layout, load-layout}
use rubble.Queue.Removal.{Removed, rob_at-Removed}

abbrev pub id_at : List PoolItem → ℕ → String
id_at xs i = get_resource_id (item_at xs i).res

-- The answer of a search from the index `lo` on: the first item with the id, if there is one.
abbrev pub Found : List PoolItem → String → ℕ → Option ℕ → Type 0
Found xs id lo none = (j : ℕ) → lo ≤ j → j < length xs → id_at xs j ≢ id
Found xs id lo (some i) =
    (lo ≤ i) × (i < length xs) × (id_at xs i ≡ id) × ((j : ℕ) → lo ≤ j → j < i → id_at xs j ≢ id)

Found-later :
    (xs : List PoolItem) (id : String) (lo : ℕ) (r : Option ℕ)
    → id_at xs lo ≢ id
    → Found xs id (suc lo) r
    → Found xs id lo r
Found-later xs id lo none miss f =
    λ j p q. elim (ℕ_discrete lo j) [ yes e ↦ rw (← e) miss | no other ↦ f j (omega arith) q ]
Found-later xs id lo (some i) miss (above, inside, hit, before) = (
  omega arith,
  inside,
  hit,
  λ j p q. elim (ℕ_discrete lo j) [ yes e ↦ rw (← e) miss | no other ↦ before j (omega arith) q ],
)

index_of-Found :
    (left : ℕ) (xs : List PoolItem) (rest : Slots) (id : String) (i : ℕ)
    → i + left ≡ length xs
    → Returns (Found xs id i) (index_of left (layout xs rest) id i)
unfolding index_of
index_of-Found zero xs rest id i e = returns {value = none} (λ j p q. absurd (omega arith))
index_of-Found (suc left) xs rest id i e = rw (deref-layout xs rest i (omega arith)) (
    Returns-if (str_eq (id_at xs i) id)
      (λ hit.
        returns ((omega arith, omega arith, (eq_iff _ _).0 hit, λ j p q. absurd (omega arith))))
      (λ miss.
        Returns-map (index_of-Found left xs rest id (suc i) (omega arith))
          (λ r f. Found-later xs id i r (λ same. false≢true (sym miss ∙ (eq_iff _ _).1 same)) f)))

module _ (q : PriorityQueue) (xs : List PoolItem) (id : String) (h : Holds q xs) where
  pub searched : Returns (Found xs id 0) (index_of q.size q.slots id 0)
  searched = rw h.shape (index_of-Found (length xs) xs h.rest id 0 (omega arith))

  -- What Rob returns: the first item with the id, taken out, or nil from a queue without the id,
  -- which stays as it is.
  abbrev pub Robbed : Option PoolItem × PriorityQueue → Type 0
  Robbed r =
      ((i : ℕ) × Found xs id 0 (some i) × Removed i xs r) ⊎ (Found xs id 0 none × (r ≡ (none, q)))

  pub rob-Robbed : Returns Robbed (rob q id)
  unfolding rob
  rob-Robbed = Returns-bind searched (elim [
    | none ↦ λ f. returns (inr (f, refl))
    | some i ↦ λ f. Returns-map (rob_at-Removed q xs i h f.1) λ r removed. inl (i, f, removed)
  ])

  -- Find returns the first item with the id, or nil if there is none.
  abbrev pub FoundItem : Option PoolItem → Type 0
  FoundItem r =
      ((i : ℕ) × Found xs id 0 (some i) × (r ≡ some (item_at xs i)))
      ⊎ (Found xs id 0 none × (r ≡ none))

  pub find-FoundItem : Returns FoundItem (find q id)
  unfolding find
  find-FoundItem = Returns-bind searched (elim [
    | none ↦ λ f. returns (inr (f, refl))
    | some i ↦ λ f.
        rw (ap (λ (r : PriorityQueue). r.slots) h.shape, load-layout xs h.rest i f.1)
          (returns (inl (i, f, refl)))
  ])
