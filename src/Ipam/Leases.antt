-- ===== src/Ipam/Leases.antt =====
-- GarbageCollection over the pool.
use mathlib.Core.List.{
  Nodup, Nodup-cons, mem-cons_self, mem-cons_of_mem, mem_of_ne_of_mem, not-mem-nil,
}
use mathlib.Core.List.Perm
use mathlib.Core.Path.{subst}
use mathlib.Core.Bool.{false≢true}
use rubble.Prelude.{
  ℕ, zero, suc, String, false, ◌≡◌, ◌≢◌, refl, sym, ap, ◌∙◌, inl, inr, ◌<◌, Option, none, some,
  List, [], ◌∷◌, Mem, Perm, arith, Bool-cases, length, str_eq, eq_iff, if◌then◌else◌,
}
use rubble.Prelude.Assoc.{lookup, lookup-delete}
use rubble.Prelude.Run.{
  ok, invalid_state, Error, Returns, returns, Returns-bind, Returns-map, Returns-elim,
}
use rubble.Prelude.Int.{pos}
use rubble.Resource.{get_resource_id}
use rubble.Queue.{PoolItem}
use rubble.Queue.Search.{id_at}
use rubble.Pool.{SimpleObjectPool, stat, release}
use rubble.Pool.Invariant.{IsSound, IsSound-IsMap, SameSetup, ids, owned, lookup-Keyed}
use rubble.Pool.Returning.{release-Returned, release-unknown, return-perm}
use rubble.Pool.Inquiry.{Known, in_use, is_idle, is_unknown, stat-Known}
use rubble.Ipam.{manager_release, garbage_collection}

-- An item's id is among the ids.
id_at-Mem : (xs : List PoolItem) (i : ℕ) → i < length xs → Mem (id_at xs i) (ids xs)
id_at-Mem [] i inside = absurd (omega arith)
id_at-Mem (x ∷ xs) zero inside = mem-cons_self
id_at-Mem (x ∷ xs) (suc i) inside = mem-cons_of_mem _ (id_at-Mem xs i (omega arith))

-- The pool `p'` after the resources with the ids `expired` were taken back into that of `p`.
pub record Collected (expired : List String) (xs : List PoolItem) (p p' : SimpleObjectPool)
    : Type 0 where
  pub items : List PoolItem
  pub sound : IsSound items p'
  pub same_owned : Perm (owned items p'.inuse) (owned xs p.inuse)
  pub gone : (id : String) → Mem id expired → lookup id p'.inuse ≡ none
  pub kept : (id : String) → ¬ Mem id expired → lookup id p'.inuse ≡ lookup id p.inuse
  pub tokens : p'.tokens ≡ p.tokens
  pub setup : SameSetup p p'

differs : (s t : String) → s ≢ t → str_eq s t ≡ false
differs s t apart = elim (Bool-cases (str_eq s t)) [
  | inl e ↦ absurd (apart ((eq_iff s t).0 e))
  | inr e ↦ e
]

-- One more expired id, which the pool `p₁` no longer has in use.
one_more :
    (id : String) (others : List String) (xs xs₁ : List PoolItem) (p p₁ p' : SimpleObjectPool)
    → ¬ Mem id others
    → Perm (owned xs₁ p₁.inuse) (owned xs p.inuse)
    → ((j : String) → lookup j p₁.inuse ≡ (if str_eq id j then none else lookup j p.inuse))
    → p₁.tokens ≡ p.tokens
    → SameSetup p p₁
    → Collected others xs₁ p₁ p'
    → Collected (id ∷ others) xs p p'
one_more id others xs xs₁ p p₁ p' once same without tokens setup c = record {
  items = c.items;
  sound = c.sound;
  same_owned = Perm.trans c.same_owned same;
  gone = λ j m. elim (Bool-cases (str_eq id j)) [
    | inl e ↦
        let here = (eq_iff id j).0 e in
        c.kept j (subst (λ k. ¬ Mem k others) here once) ∙ without j ∙ rw e refl
    | inr e ↦
        c.gone j (mem_of_ne_of_mem (λ same. false≢true (sym e ∙ (eq_iff id j).1 (sym same))) m)
  ];
  kept = λ j m.
      c.kept j (λ later. m (mem-cons_of_mem id later))
      ∙ without j
      ∙ rw (differs id j (λ e. m (subst (λ k. Mem k (id ∷ others)) e mem-cons_self))) refl;
  tokens = c.tokens ∙ tokens;
  setup = (c.setup.0 ∙ setup.0, c.setup.1 ∙ setup.1, c.setup.2 ∙ setup.2);
}

module _ (now : ℕ) where
  one_expired :
      (id : String) (others : List String) (p : SimpleObjectPool) (xs : List PoolItem)
      → IsSound xs p
      → ¬ Mem id others
      → ((j : String) → Mem j (id ∷ others) → ¬ Mem j (ids xs))
      → ((p₁ : SimpleObjectPool) (xs₁ : List PoolItem)
          → IsSound xs₁ p₁
          → ((j : String) → Mem j others → ¬ Mem j (ids xs₁))
          → Returns
              (λ r. (r.0 ≡ none) × Collected others xs₁ p₁ r.1)
              (garbage_collection now p₁ others))
      → (err : Option Error) → stat p id ≡ ok (err, p)
      → Known xs p id err
      → Returns
          (λ r. (r.0 ≡ none) × Collected (id ∷ others) xs p r.1)
          (garbage_collection now p (id ∷ others))
  unfolding garbage_collection manager_release release
  one_expired id others p xs s once busy rest _ e (in_use {res = res} lent) =
      rw (e, garbage_collection)
        (Returns-bind (release-Returned now p xs id (pos 0) res s lent) λ r (done, back).
          rw (done, garbage_collection)
            (Returns-map
              (rest r.1 back.items back.sound (λ j m there.
                let own = lookup-Keyed id back.res p.inuse s.keyed back.was_lent in
                busy j (mem-cons_of_mem id m) (
                  mem_of_ne_of_mem (λ same. once (subst (λ k. Mem k others) (same ∙ own) m))
                    ((Perm.mem_iff
                        (Perm.map (λ (i : PoolItem). get_resource_id i.res) back.added)).0
                      there))))
              λ t (fine, c). (
                fine,
                one_more id others xs back.items p r.1 t.1 once
                    (subst (λ m. Perm (owned back.items m) (owned xs p.inuse)) (sym back.removed)
                      (return-perm back.res id _ xs back.items p.inuse
                        (lookup-Keyed id back.res p.inuse s.keyed back.was_lent) back.was_lent
                        back.added))
                    (λ j. ap (lookup j) back.removed ∙ lookup-delete id j p.inuse (IsSound-IsMap s))
                    back.tokens back.setup c,
              )))
  one_expired id others p xs s once busy rest _ e (is_idle {i = i} inside here unused) =
      absurd (busy id mem-cons_self (subst (λ j. Mem j (ids xs)) here (id_at-Mem xs i inside)))
  one_expired id others p xs s once busy rest _ e (is_unknown unused missing) =
      rw (e, garbage_collection)
        (Returns-map (rest p xs s (λ j m. busy j (mem-cons_of_mem id m))) λ t (fine, c). (
          fine,
          one_more id others xs xs p p t.1 once Perm.rfl
              (λ j. elim (Bool-cases (str_eq id j)) [
                | inl same ↦
                    rw same (ap (λ k. lookup k p.inuse) (sym ((eq_iff id j).0 same)) ∙ unused)
                | inr other ↦ rw other refl
              ])
              refl (refl, refl, refl) c,
        ))

  answer_idle :
      (id : String) (p : SimpleObjectPool) (xs : List PoolItem) (i : ℕ)
      → i < length xs
      → id_at xs i ≡ id
      → (err : Option Error) → Known xs p id err
      → err ≡ none
  answer_idle id p xs i inside here _ (in_use lent) = refl
  answer_idle id p xs i inside here _ (is_idle _ _ _) = refl
  answer_idle id p xs i inside here _ (is_unknown unused missing) =
      absurd (missing i (omega arith) inside here)

  -- If no expired id is idle, and none is given twice, GarbageCollection returns without error;
  -- none of the expired ids is in use then, and the others are as before.
  pub garbage_collection-Collected :
      (expired : List String) (p : SimpleObjectPool) (xs : List PoolItem)
      → IsSound xs p
      → Nodup expired
      → ((id : String) → Mem id expired → ¬ Mem id (ids xs))
      → Returns (λ r. (r.0 ≡ none) × Collected expired xs p r.1) (garbage_collection now p expired)
  unfolding garbage_collection
  garbage_collection-Collected [] p xs s d busy = returns (
    refl,
    record {
      items = xs;
      sound = s;
      same_owned = Perm.rfl;
      gone = λ id m. absurd (not-mem-nil m);
      kept = λ id m. refl;
      tokens = refl;
      setup = (refl, refl, refl);
    },
  )
  garbage_collection-Collected (id ∷ others) p xs s d busy =
      let (once, distinct) = Nodup-cons.0 d in
      let (r, e, answered) = Returns-elim (stat-Known p xs id s.usable) in
      one_expired id others p xs s once busy
        (λ p₁ xs₁ s₁ busy₁. garbage_collection-Collected others p₁ xs₁ s₁ distinct busy₁) r.0
        (e ∙ ap (λ (q : SimpleObjectPool). ok (r.0, q)) answered.1) answered.0

  -- GarbageCollection fails on an expired id that is idle already, and leaves the ids after it: to
  -- Stat an idle resource is known, to the release it is none in use.
  pub garbage_collection-stops :
      (expired : String) (others : List String) (p : SimpleObjectPool) (xs : List PoolItem) (i : ℕ)
      → IsSound xs p
      → i < length xs
      → id_at xs i ≡ expired
      → lookup expired p.inuse ≡ none
      → garbage_collection now p (expired ∷ others) ≡ ok (some invalid_state, p)
  unfolding garbage_collection manager_release release
  garbage_collection-stops expired others p xs i s inside here unused =
      let (r, e, answered) = Returns-elim (stat-Known p xs expired s.usable) in
      rw (e ∙ ap (λ (q : SimpleObjectPool). ok (r.0, q)) answered.1, garbage_collection)
        (rw (answer_idle expired p xs i inside here r.0 answered.0, garbage_collection)
          (rw (release-unknown now p xs expired (pos 0) s unused, garbage_collection) refl))
