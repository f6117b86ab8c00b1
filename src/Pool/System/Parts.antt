-- ===== src/Pool/System/Parts.antt =====
-- What each part of a call under the lock keeps: the ids of the pool's resources, and the tokens.
use mathlib.Core.List.{mem-append, perm_middle}
use mathlib.Core.List.Perm
use mathlib.Core.Logic.Or
use mathlib.Core.Path.{subst}
use rubble.Prelude.{
  ℕ, String, Bool, true, false, ◌≡◌, refl, sym, ap, ◌∙◌, inl, inr, Option, none, some, List, ◌∷◌,
  Perm, Mem, arith, length, leb, ltb, ltb→lt, ltb→le, Bool-cases, Option-cases,
}
use rubble.Prelude.Assoc.{keys, keys-insert-perm, lookup, lookup-none}
use rubble.Prelude.Run.{Run, ok, ◌>>=◌, Returns, returns, Returns-elim, Returns-map}
use rubble.Prelude.Int.{ℤ}
use rubble.Resource.{NetworkResource, get_resource_id}
use rubble.Queue.{PoolItem, PriorityQueue, peek}
use rubble.Queue.Layout.{Holds, item_at, key}
use rubble.Pool.{
  SimpleObjectPool, acquire_locked, add_inuse, add_idle, release_with_reverse, stat, reverse_to,
}
use rubble.Pool.Invariant.{
  IsUsable, IsSound, Keyed, ids, owned, insert-Keyed, lookup-Keyed, lock-ok, add_idle-Added,
  add_inuse-ok,
}
use rubble.Pool.Lending.{lend-perm, acquire_locked-Lent, acquire_locked-none}
use rubble.Pool.Returning.{return-perm, release-Returned, release-unknown}
use rubble.Pool.Inquiry.{stat-Known}
use rubble.Pool.Rounds.{take_surplus-reserved, take_surplus-free}
use rubble.Pool.Upkeep.{take_surplus}

-- What a call that answers holds for, given what it returns.
pub Returns-at {ℓ κ} :
    {A : Type ℓ} {P : A → Type κ} {call : Run A} {v : A} → Returns P call → call ≡ ok v → P v
Returns-at {P = P} r h =
    let (value, e, holds) = Returns-elim r in
    let back : Run _ → _ = λ c. elim c [ ok a ↦ a | _ ↦ value ] in
    subst P (ap back (sym e ∙ h)) holds

-- The pool `p'` has the resources of `p`, whose idle items are `xs`, and the same tokens.
pub record Kept (xs : List PoolItem) (p p' : SimpleObjectPool) : Type 0 where
  pub items : List PoolItem
  pub holds : Holds p'.idle items
  pub keyed : Keyed p'.inuse
  pub same : Perm (owned items p'.inuse) (owned xs p.inuse)
  pub tokens : p'.tokens ≡ p.tokens
  pub capacity : p'.capacity ≡ p.capacity

pub kept :
    (p : SimpleObjectPool) (xs : List PoolItem) (b : Bool)
    → Holds p.idle xs
    → Keyed p.inuse
    → Kept xs p (record p { locked = b })
kept p xs b holds keyed = record {
  items = xs;
  holds = holds;
  keyed = keyed;
  same = Perm.rfl;
  tokens = refl;
  capacity = refl;
}

module _ (p : SimpleObjectPool) (xs : List PoolItem) where
  pub acquire_locked-Kept :
      (id : String) → IsSound xs p → Returns (λ r. Kept xs p r.1) (acquire_locked p id)
  acquire_locked-Kept id s = elim (Bool-cases (leb (length xs) 0)) [
    | inl empty ↦
        Returns-map (acquire_locked-none p xs id s.holds (ground arith) s.unlocked)
          λ r (_, e). subst (Kept xs p) (sym e) (kept p xs false s.holds s.keyed)
    | inr some_left ↦
        Returns-map (acquire_locked-Lent p xs id s (ground arith)) λ r (i, e, l, want). record {
          items = l.left;
          holds = l.sound.holds;
          keyed = l.sound.keyed;
          same =
              subst (λ m. Perm (owned l.left m) (owned xs p.inuse)) (sym l.lent)
                (lend-perm (item_at xs i) xs l.left p.inuse l.taken l.fresh);
          tokens = l.tokens;
          capacity = l.setup.0;
        }
  ]

  pub release-Kept :
      (now : ℕ) (id : String) (reverse : ℤ)
      → IsSound xs p
      → Returns (λ r. Kept xs p r.1) (release_with_reverse now p id reverse)
  release-Kept now id reverse s = elim (Option-cases (lookup id p.inuse)) [
    | inl e ↦
        rw (release-unknown now p xs id reverse s e) (returns (kept p xs p.locked s.holds s.keyed))
    | inr (res, e) ↦ Returns-map (release-Returned now p xs id reverse res s e) λ r (_, t). record {
      items = t.items;
      holds = t.sound.holds;
      keyed = t.sound.keyed;
      same =
          subst (λ m. Perm (owned t.items m) (owned xs p.inuse)) (sym t.removed)
            (return-perm t.res id (reverse_to now reverse) xs t.items p.inuse
              (lookup-Keyed id t.res p.inuse s.keyed t.was_lent) t.was_lent t.added);
      tokens = t.tokens;
      capacity = t.setup.0;
    }
  ]

  pub stat-Kept : (id : String) → IsSound xs p → Returns (λ r. Kept xs p r.1) (stat p id)
  stat-Kept id s =
      Returns-map (stat-Known p xs id s.usable)
        λ r (_, e). subst (Kept xs p) (sym e) (kept p xs p.locked s.holds s.keyed)

  -- The ids of the pool after a resource that it did not know came to it.
  pub record Gained (id : String) (p' : SimpleObjectPool) : Type 0 where
    pub items : List PoolItem
    pub holds : Holds p'.idle items
    pub keyed : Keyed p'.inuse
    pub same : Perm (owned items p'.inuse) (id ∷ owned xs p.inuse)
    pub tokens : p'.tokens ≡ p.tokens
    pub capacity : p'.capacity ≡ p.capacity

  pub add_idle-Gained :
      (now : ℕ) (res : NetworkResource)
      → IsUsable xs p
      → Keyed p.inuse
      → Returns (Gained (get_resource_id res)) (add_idle now p res)
  add_idle-Gained now res u keyed = Returns-map (add_idle-Added now p xs res u) λ r a. record {
    items = a.items;
    holds = a.usable.holds;
    keyed = subst Keyed (sym a.same_inuse) keyed;
    same =
        subst (λ m. Perm (owned a.items m) (get_resource_id res ∷ owned xs p.inuse))
          (sym a.same_inuse)
          (Perm.append_right (keys p.inuse)
            (Perm.map (λ (i : PoolItem). get_resource_id i.res) a.added));
    tokens = a.same_tokens;
    capacity = a.setup.0;
  }

  pub add_inuse-Gained :
      (res : NetworkResource)
      → Holds p.idle xs
      → Keyed p.inuse
      → p.locked ≡ false
      → ¬ Mem (get_resource_id res) (owned xs p.inuse)
      → Returns (Gained (get_resource_id res)) (add_inuse p res)
  add_inuse-Gained res h keyed free apart =
      let id = get_resource_id res in
      let fresh = lookup-none id p.inuse (λ there. apart (mem-append.1 (Or.inr there))) in
      rw (add_inuse-ok p res free) (
        returns (record {
          items = xs;
          holds = h;
          keyed = insert-Keyed id res p.inuse refl keyed;
          same =
              Perm.trans (Perm.append_left (ids xs) (keys-insert-perm id res p.inuse fresh))
                (perm_middle (ids xs) (keys p.inuse));
          tokens = refl;
          capacity = refl;
        }))

  pub peek_empty : Holds p.idle xs → length xs ≡ 0 → peek p.idle ≡ ok none
  unfolding peek
  peek_empty h empty = ground (arith, ap (λ (q : PriorityQueue). q.size) h.shape)

  -- What a round of checkIdle takes out of the pool.
  unfoldable pub Taken : Option NetworkResource × SimpleObjectPool → Type 0
  Taken (none, p') = Kept xs p p'
  Taken (some res, p') =
      (items : List PoolItem) × Holds p'.idle items
      × (p'.inuse ≡ p.inuse)
      × Perm (get_resource_id res ∷ owned items p.inuse) (owned xs p.inuse)
      × (p'.tokens ≡ p.tokens)
      × (p'.capacity ≡ p.capacity)

  pub take_surplus-Taken :
      (now : ℕ) → IsUsable xs p → Keyed p.inuse → Returns Taken (take_surplus now p)
  unfolding take_surplus Taken
  take_surplus-Taken now u keyed = elim (Bool-cases (leb (length xs) 0)) [
    | inl empty ↦
        rw (lock-ok p u.unlocked)
          (rw (peek_empty u.holds (ground arith), ◌>>=◌) (returns (kept p xs true u.holds keyed)))
    | inr some_left ↦ elim (Bool-cases (ltb now (key xs 0))) [
      | inl reserved ↦
          rw (take_surplus-reserved now p xs u (ground arith) (ltb→lt now (key xs 0) reserved))
            (returns (kept p xs true u.holds keyed))
      | inr free ↦
          let (q, w, e) =
            take_surplus-free now p xs u (ground arith) (ltb→le now (key xs 0) free) in
          rw e (
            returns (
              w.items,
              w.holds,
              refl,
              Perm.append_right (keys p.inuse)
                  (Perm.map (λ (i : PoolItem). get_resource_id i.res) w.same),
              refl,
              refl,
            ))
    ]
  ]
