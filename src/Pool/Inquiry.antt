-- ===== src/Pool/Inquiry.antt =====
-- Stat: what the pool knows of an id.
use rubble.Prelude.{
  ℕ, String, Bool, true, false, ◌≡◌, refl, sym, ap, inl, inr, ◌<◌, Option, none, some, List,
  Option-cases, length,
}
use rubble.Prelude.Assoc.{lookup}
use rubble.Prelude.Run.{◌>>=◌, not_found, Error, Returns, returns, Returns-bind}
use rubble.Resource.{NetworkResource}
use rubble.Queue.{PoolItem}
use rubble.Queue.Search.{Found, id_at, find-FoundItem}
use rubble.Pool.{SimpleObjectPool, stat}
use rubble.Pool.Invariant.{IsUsable, lock-ok, unlock-ok}

-- How Stat ends on a pool: no error for a resource in use or idle, and not found for another.
pub data Known (xs : List PoolItem) (p : SimpleObjectPool) (id : String)
    : Option Error → Type 0 where
  in_use : {res : NetworkResource} → lookup id p.inuse ≡ some res → Known xs p id none
  is_idle :
      {i : ℕ} → i < length xs → id_at xs i ≡ id → lookup id p.inuse ≡ none → Known xs p id none
  is_unknown : lookup id p.inuse ≡ none → Found xs id 0 none → Known xs p id (some not_found)

relocked : (p : SimpleObjectPool) → p.locked ≡ false → record p { locked = false } ≡ p
relocked p free = ap (λ (b : Bool). record p { locked = b }) (sym free)

module _ (p : SimpleObjectPool) (xs : List PoolItem) (id : String) (u : IsUsable xs p) where
  -- Stat returns and leaves the pool.
  pub stat-Known : Returns (λ r. Known xs p id r.0 × (r.1 ≡ p)) (stat p id)
  unfolding stat
  stat-Known = rw (lock-ok p u.unlocked) (elim (Option-cases (lookup id p.inuse)) [
    | inr (res, e) ↦
        rw (e, ◌>>=◌)
          (rw (unlock-ok (record p { locked = true }) refl)
            (returns (in_use e, relocked p u.unlocked)))
    | inl e ↦
        rw (e, ◌>>=◌)
          (Returns-bind (find-FoundItem p.idle xs id u.holds) λ r found. elim found [
            | inl (i, f, same) ↦
                rw (unlock-ok (record p { locked = true }) refl, same)
                  (returns (is_idle f.1 f.2 e, relocked p u.unlocked))
            | inr (missing, same) ↦
                rw (unlock-ok (record p { locked = true }) refl, same)
                  (returns (is_unknown e missing, relocked p u.unlocked))
          ])
  ])
