-- ===== src/Ipam/Connection.antt =====
-- pkg/ipam/port.go: PortFactory as the ObjectFactory of the pool.
use mathlib.Core.Bool.{false≢true}
use mathlib.Core.List.{mem_of_ne_of_mem, not-mem-nil}
use mathlib.Core.List.Perm
use mathlib.Core.Path.{subst}
use rubble.Prelude.{
  ℕ, String, true, false, ◌≡◌, refl, sym, ap, ◌∙◌, inl, inr, none, some, List, [], ◌∷◌, Mem, str_eq,
  eq_iff, Bool-cases,
}
use rubble.Prelude.Run.{Run, ok, Error, plain, Result, success, failure, Returns-elim}
use rubble.Resource.{NetworkResource, get_resource_id}
use rubble.Neutron.{NetworkService}
use rubble.Neutron.Ports.{ServiceLaws}
use rubble.Pool.{ObjectFactory}
use rubble.Pool.Supply.{Supply}
use rubble.Ipam.Factory.{
  PortFactory, FactoryState, create, dispose, Made, made, none_made, left_behind, create-Made,
}

-- What a call answers where it returns.
abbrev answered : {S A : Type 0} → A → S → Run (A × S) → A × S
answered a s (ok r) = r
answered a s _ = (a, s)

-- `name` is what RandomString draws, `clock` the time.
abbrev pub port_factory :
    {W : Type 0}
    → NetworkService W
    → (FactoryState W → String)
    → (FactoryState W → ℕ)
    → ObjectFactory (FactoryState W)
port_factory service name clock = record {
  create = λ s ip. answered (failure (plain "no answer")) s (create service s (name s) ip);
  dispose = λ s res. answered (some (plain "no answer")) s (dispose service s res);
  now = clock;
}

module _ {W : Type 0} (service : NetworkService W) (laws : ServiceLaws service)
    (deletes : (w : W) (id : String) → (service.delete_port w id).0 ≡ none)
    (name : FactoryState W → String) (clock : FactoryState W → ℕ) where
  -- The lock of the factory is free, and the ports with these ids exist.
  abbrev pub Existing : FactoryState W → List String → Type 0
  Existing s l =
      (s.factory.locked ≡ false) × ((id : String) → Mem id l → laws.has s.world id ≡ true)

  -- What a Create has done that ends as it may.
  abbrev Created : List String → Result NetworkResource × FactoryState W → Type 0
  Created l (success res, t) =
      (¬ Mem (get_resource_id res) l) × Existing t (get_resource_id res ∷ l)
  Created l (failure e, t) = Existing t l

  Made-Created :
      (s : FactoryState W) (l : List String) (r : Result NetworkResource × FactoryState W)
      → Existing s l
      → Made service laws s r
      → Created l r
  Made-Created s l (success res, t) (free, there) (made fresh here stay same) = (
    λ m. false≢true (sym fresh ∙ there _ m),
    (
      ap (λ (f : PortFactory). f.locked) same,
      λ j m. elim (Bool-cases (str_eq j (get_resource_id res))) [
        | inl e ↦ subst (λ k. laws.has t.world k ≡ true) (sym ((eq_iff j _).0 e)) here
        | inr e ↦
            stay j
              (there j (mem_of_ne_of_mem (λ is_new. false≢true (sym e ∙ (eq_iff j _).1 is_new)) m))
      ],
    ),
  )
  Made-Created s l (failure e, t) (free, there) (none_made same factory) =
      (ap (λ (f : PortFactory). f.locked) factory ∙ free, λ j m. same j ∙ there j m)
  Made-Created s l (failure e, t) (free, there) (left_behind id tag _ _ _ stay factory) =
      (ap (λ (f : PortFactory). f.locked) factory ∙ free, λ j m. stay j (there j m))

  -- Where the lock is free, Create of PortFactory returns what the pool's factory answers.
  create-answers :
      (s : FactoryState W) (l : List String) (ip : String)
      → Existing s l
      → (create service s (name s) ip ≡ ok ((port_factory service name clock).create s ip))
        × Created l ((port_factory service name clock).create s ip)
  create-answers s l ip (free, there) =
      let (r, run, m) = Returns-elim (create-Made service laws s (name s) ip free deletes) in
      rw run (refl, Made-Created s l r (free, there) m)

  success-Created :
      (l : List String) (r : Result NetworkResource × FactoryState W) (res : NetworkResource)
      → r.0 ≡ success res
      → Created l r
      → (¬ Mem (get_resource_id res) l) × Existing r.1 (get_resource_id res ∷ l)
  success-Created l (r, t) res e c = subst (λ a. Created l (a, t)) e c

  failure-Created :
      (l : List String) (r : Result NetworkResource × FactoryState W) (e : Error)
      → r.0 ≡ failure e
      → Created l r
      → Existing r.1 l
  failure-Created l (r, t) e refused c = subst (λ a. Created l (a, t)) refused c

  -- When ports can be deleted: on a factory whose lock is free, Create of PortFactory returns, and
  -- as the factory of a pool whose ids are those of ports that exist, it gives every new resource
  -- an id that is new to the pool, keeps the ports of the pool, and leaves the lock free.
  pub port_factory-Supply :
      (s : FactoryState W) (ip : String)
      → s.factory.locked ≡ false
      → (create service s (name s) ip ≡ ok ((port_factory service name clock).create s ip))
        × Supply (port_factory service name clock) Existing
  port_factory-Supply s ip free = (
    (create-answers s [] ip (free, λ id m. absurd (not-mem-nil m))).0,
    record {
      made = λ w ip l res there e. success-Created l _ res e (create-answers w l ip there).1;
      failed =
          λ w ip l e there refused. failure-Created l _ e refused (create-answers w l ip there).1;
      same = λ w l m p there. (there.0, λ id k. there.1 id ((Perm.mem_iff p).1 k));
    },
  )
