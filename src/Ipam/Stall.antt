-- ===== src/Ipam/Stall.antt =====
-- A Dispose that fails keeps the factory's lock, and no later call gives it back.
use mathlib.Core.Path.{subst}
use rubble.Prelude.{
  String, ◌≡◌, refl, sym, ap, ◌∙◌, arith, inl, inr, true, false, Option, some, Option-cases,
}
use rubble.Prelude.Run.{
  Run, ok, panic, blocked, out_of_fuel, ◌>>=◌, Error, wrapped, Result, success, failure,
}
use rubble.Resource.{Port, NetworkResource, get_resource_id}
use rubble.Neutron
use rubble.Neutron.{NetworkService}
use rubble.Ipam.{vm_tag_prefix}
use rubble.Ipam.Factory.{
  FactoryState, PortFactory, lock, create_opts, create, keep_created, tag_and_keep, dispose,
}
use Prim.Native.String.{◌++◌ as append}

-- A Create that does not return with a port: where it returns, it is with an error, and the factory
-- is as it was.
abbrev pub Refuses :
    {W : Type 0} → FactoryState W → Run (Result NetworkResource × FactoryState W) → Type 0
Refuses s (ok (success res, t)) = ⊥
Refuses s (ok (failure e, t)) = t.factory ≡ s.factory
Refuses s _ = Unit {0}

module _ {W : Type 0} (service : NetworkService W) where
  -- The states that later calls of the factory come to, one after the other, where they return.
  pub data Reach (s : FactoryState W) : FactoryState W → Type 0 where
    here : Reach s s
    created :
        {t u : FactoryState W} (name ip : String) {r : Result NetworkResource}
        → Reach s t
        → create service t name ip ≡ ok (r, u)
        → Reach s u
    disposed :
        {t u : FactoryState W} (res : NetworkResource) {r : Option Error}
        → Reach s t
        → dispose service t res ≡ ok (r, u)
        → Reach s u

  -- A factory on which no call returns with a port or gives the lock back.
  pub Stalled : FactoryState W → Type 0
  Stalled s =
      (s.factory.locked ≡ true)
      × ((res : NetworkResource) → dispose service s res ≡ blocked)
      × ((name ip : String) → Refuses s (create service s name ip))

  dispose-blocked :
      (s : FactoryState W) (res : NetworkResource)
      → s.factory.locked ≡ true
      → dispose service s res ≡ blocked
  unfolding dispose lock
  dispose-blocked s res held = rw (held, dispose) refl

  keep_created-Refuses :
      (s : FactoryState W) (r : Result Port × W)
      → s.factory.locked ≡ true
      → Refuses s (keep_created service s.factory r)
  unfolding keep_created tag_and_keep lock
  keep_created-Refuses s (failure e, w) held = refl
  keep_created-Refuses s (success port, w) held =
      elim (Option-cases
        (Neutron.add_tag service w "ports" port.id
          (append (append vm_tag_prefix ":") s.factory.vm_uuid)).0) [
            | inl tagged ↦ rw (tagged, tag_and_keep) (rw (held, lock) tt)
            | inr (e, failed) ↦ rw (failed, tag_and_keep) refl
          ]

  after_call-Refuses :
      (s : FactoryState W) (call : Run (Result Port × W))
      → s.factory.locked ≡ true
      → Refuses s (call >>= keep_created service s.factory)
  after_call-Refuses s (ok r) held = keep_created-Refuses s r held
  after_call-Refuses s panic held = tt
  after_call-Refuses s blocked held = tt
  after_call-Refuses s out_of_fuel held = tt

  create-Refuses :
      (s : FactoryState W) (name ip : String)
      → s.factory.locked ≡ true
      → Refuses s (create service s name ip)
  unfolding create
  create-Refuses s name ip held =
      after_call-Refuses s (Neutron.create_port service s.world (create_opts s.factory name ip))
        held

  same_factory :
      (t u : FactoryState W) (r : Result NetworkResource)
      → Refuses t (ok (r, u))
      → u.factory ≡ t.factory
  same_factory t u (success res) gone = absurd gone
  same_factory t u (failure e) same = same

  Reach-locked :
      {s t : FactoryState W} → s.factory.locked ≡ true → Reach s t → t.factory.locked ≡ true
  Reach-locked held here = held
  Reach-locked held (created {t} {u} name ip {r} before made) =
      let locked = Reach-locked held before in
      ap (λ (f : PortFactory). f.locked)
        (same_factory t u r (subst (Refuses t) made (create-Refuses t name ip locked)))
      ∙ locked
  Reach-locked held (disposed {t} {u} res {r} before gone) =
      let ends : blocked ≡ ok (r, u) =
        sym (dispose-blocked t res (Reach-locked held before)) ∙ gone in
      absurd (ground (arith, ends))

  -- The state after Dispose failed to delete the port.
  abbrev pub stalled : FactoryState W → NetworkResource → FactoryState W
  stalled s res = record {
    factory = record s.factory { locked = true };
    world = (service.delete_port s.world (get_resource_id res)).1;
  }

  -- If the lock of the factory is free and a port cannot be deleted, Dispose returns the error with
  -- the lock held. In every state that later calls of Create and Dispose then come to, however many
  -- and whatever Neutron answers, the lock is held, every Dispose waits for ever, and no Create
  -- returns with a port.
  pub dispose-stalls :
      (s : FactoryState W) (res : NetworkResource) (e : Error) (t : FactoryState W)
      → s.factory.locked ≡ false
      → (service.delete_port s.world (get_resource_id res)).0 ≡ some e
      → Reach (stalled s res) t
      → (dispose service s res
          ≡ ok (some (wrapped "failed to delete port with error" e), stalled s res))
        × Stalled t
  unfolding dispose lock Neutron.delete_port Stalled
  dispose-stalls s res e t free refused later =
      let held = Reach-locked refl later in
      (
        rw (free, dispose) (rw (refused, dispose) refl),
        (held, λ other. dispose-blocked t other held, λ name ip. create-Refuses t name ip held),
      )
