-- ===== src/Ipam/Factory.antt =====
-- pkg/ipam/port.go: PortFactory, which makes the pool's resources from Neutron's ports.
use rubble.Prelude.{
  String, ◌≡◌, refl, ◌∙◌, inl, inr, Bool, true, false, Option, none, some, List, [], ◌∷◌, ◌++◌,
  eq_refl, str_eq, Option-cases, if◌then◌else◌,
}
use rubble.Prelude.Run.{
  Run, ok, blocked, ◌>>=◌, Returns, returns, Returns-bind, Error, wrapped, Result, success, failure,
}
use rubble.Resource.{Port, PortResource, NetworkResource, get_resource_id}
use rubble.Neutron
use rubble.Neutron.{CreateOpts, NetworkService}
use rubble.Neutron.Ports.{
  ServiceLaws, CreatedPort, created_port_ends, not_created, create_port-Created,
}
use rubble.Ipam.{device_owner, vm_tag_prefix}
use Prim.Native.String.{◌++◌ as append}

-- The factory, with its embedded lock as a flag.
pub record PortFactory : Type 0 where
  pub net_id : String
  pub subnet_id : String
  pub vm_uuid : String
  pub ports : List PortResource
  pub locked : Bool

pub record FactoryState (W : Type 0) : Type 0 where
  pub factory : PortFactory
  pub world : W

-- `f.Lock()`
unfoldable pub lock : PortFactory → Run PortFactory
lock f = if f.locked then blocked else ok (record f { locked = true })

-- `name` is what RandomString answers, and an empty `ip` asks for any address.
unfoldable pub create_opts : PortFactory → String → String → CreateOpts
create_opts f name ip = record {
  name = append "rubble-port-" name;
  network_id = f.net_id;
  subnet_id = f.subnet_id;
  ip_address = ip;
  device_owner = device_owner;
}

-- Create after the port was made: the tag, and the factory's list of ports.
module _ {W : Type 0} (service : NetworkService W) where
  unfoldable pub tag_and_keep :
      PortFactory → W → Port → Run (Result NetworkResource × FactoryState W)
  tag_and_keep f w port =
      let (err, w₁) =
        Neutron.add_tag service w "ports" port.id (append (append vm_tag_prefix ":") f.vm_uuid) in
      elim err [
        | some e ↦ ok (failure e, record { factory = f; world = w₁ })
        | none ↦ lock f >>= λ f₁. ok (
          success (record { port = port }),
          record {
            factory = record f₁ { ports = f₁.ports ++ record { port = port } ∷ []; locked = false };
            world = w₁;
          },
        )
      ]

  unfoldable pub keep_created :
      PortFactory → Result Port × W → Run (Result NetworkResource × FactoryState W)
  keep_created f (failure e, w) = ok (failure e, record { factory = f; world = w })
  keep_created f (success port, w) = tag_and_keep f w port

  unfoldable pub create :
      FactoryState W → String → String → Run (Result NetworkResource × FactoryState W)
  create s name ip =
      Neutron.create_port service s.world (create_opts s.factory name ip) >>= keep_created s.factory

  -- On an error Dispose returns without unlocking.
  unfoldable pub dispose : FactoryState W → NetworkResource → Run (Option Error × FactoryState W)
  dispose s res = lock s.factory >>= λ f.
      let (err, w) = Neutron.delete_port service s.world (get_resource_id res) in
      elim err [
        | some e ↦
            ok (
              some (wrapped "failed to delete port with error" e),
              record { factory = f; world = w },
            )
        | none ↦ ok (none, record { factory = record f { locked = false }; world = w })
      ]

  lock-ok : (f : PortFactory) → f.locked ≡ false → lock f ≡ ok (record f { locked = true })
  unfolding lock
  lock-ok f free = rw free refl

module _ {W : Type 0} (service : NetworkService W) (laws : ServiceLaws service) where
  -- How Create ends on a free factory: with a port that exists and stands in the list, or with an
  -- error; then either no port was made or one was left behind that could not be tagged.
  pub data Made (s : FactoryState W) : Result NetworkResource × FactoryState W → Type 0 where
    made :
        {res : NetworkResource} {t : FactoryState W}
        → laws.has s.world (get_resource_id res) ≡ false
        → laws.has t.world (get_resource_id res) ≡ true
        → ((id : String) → laws.has s.world id ≡ true → laws.has t.world id ≡ true)
        → t.factory ≡ record s.factory { ports = s.factory.ports ++ res ∷ []; locked = false }
        → Made s (success res, t)
    none_made :
        {e : Error} {t : FactoryState W}
        → ((id : String) → laws.has t.world id ≡ laws.has s.world id)
        → t.factory ≡ s.factory
        → Made s (failure e, t)
    left_behind :
        {e : Error} {t : FactoryState W} {w : W} (id tag : String)
        → (service.add_tag w "ports" id tag).0 ≡ some e
        → laws.has s.world id ≡ false
        → laws.has t.world id ≡ true
        → ((j : String) → laws.has s.world j ≡ true → laws.has t.world j ≡ true)
        → t.factory ≡ s.factory
        → Made s (failure e, t)

  stays : {b : Bool} (test : Bool) → b ≡ true → (if test then true else b) ≡ true
  stays false h = h
  stays true h = refl

  keep_created-Made :
      (s : FactoryState W) (opts : CreateOpts) (r : Result Port × W)
      → s.factory.locked ≡ false
      → CreatedPort service laws s.world opts r
      → Returns (Made s) (keep_created service s.factory r)
  unfolding keep_created tag_and_keep Neutron.add_tag
  keep_created-Made s opts r free (not_created same) = returns (none_made same refl)
  keep_created-Made s opts (success np, w) free (created_port_ends fresh now_there _ _) =
      let tag = append (append vm_tag_prefix ":") s.factory.vm_uuid in
      let here =
        laws.tagged w "ports" np.id tag np.id ∙ now_there np.id ∙ rw (eq_refl np.id) refl in
      let stay : (j : String)
          → laws.has s.world j ≡ true
          → laws.has (service.add_tag w "ports" np.id tag).1 j ≡ true =
        λ j h. laws.tagged w "ports" np.id tag j ∙ now_there j ∙ stays (str_eq np.id j) h in
      elim (Option-cases (service.add_tag w "ports" np.id tag).0) [
        | inl tagged ↦
            rw (tagged, tag_and_keep)
              (rw (lock-ok service s.factory free) (returns (made fresh here stay refl)))
        | inr (e, failed) ↦
            rw (failed, tag_and_keep) (returns (left_behind np.id tag failed fresh here stay refl))
      ]

  -- On a factory whose lock is free, with ports that can be deleted, Create returns: with a new
  -- port that stands in the list, or with an error and the ports of Neutron as before, or, if the
  -- port could not be tagged, with an error and a port that is left behind.
  pub create-Made :
      (s : FactoryState W) (name ip : String)
      → s.factory.locked ≡ false
      → ((w : W) (id : String) → (service.delete_port w id).0 ≡ none)
      → Returns (Made s) (create service s name ip)
  unfolding create
  create-Made s name ip free deletes =
      Returns-bind
        (create_port-Created service laws s.world (create_opts s.factory name ip) deletes)
        λ r c. keep_created-Made s (create_opts s.factory name ip) r free c
