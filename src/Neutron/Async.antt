-- ===== src/Neutron/Async.antt =====
-- pkg/neutron: CreatePort with the goroutines of getSubnetAsync and getNetworkAsync. Their channels
-- have no buffer, so a send and its receipt are one action. A goroutine has two channels and sends
-- on one of them what it has read: a value or an error.
pub mod Agreement
pub mod Leak
use rubble.Prelude.{ℕ, zero, suc}
use rubble.Prelude.Run.{Run, ok, ◌>>=◌, Error, Result, success, failure}
use rubble.Resource.{Port}
use rubble.Neutron.{
  ApiPort, ApiSubnet, ApiNetwork, CreateOpts, NetworkService, get_subnet, get_network, delete_port,
  created_port,
}

-- A goroutine that has not read yet, offers what it has read, or has ended after a receipt.
pub data Getter (A : Type 0) : Type 0 where
  reading : Getter A
  offering : Result A → Getter A
  ended : Getter A

-- That of getNetworkAsync, which reads a network and its MTU.
abbrev pub NetworkGetter : Type 0
NetworkGetter = Getter (ApiNetwork × ℕ)

-- Where CreatePort stands: at the request, at its two receives, at the deferred DeletePort, or at
-- its end, with what it answers.
pub data Creator : Type 0 where
  creating : Creator
  wants_subnet : ApiPort → Creator
  wants_network : ApiPort → ApiSubnet → Creator
  undoing : ApiPort → Error → Creator
  returned : Run (Result Port) → Creator

pub data Creation (W : Type 0) : Type 0 where
  at : W → Creator → Getter ApiSubnet → NetworkGetter → Creation W

unfoldable pub after_create : Result ApiPort → Creator
after_create (failure e) = returned (ok (failure e))
after_create (success p) = wants_subnet p

unfoldable pub after_subnet : ApiPort → Result ApiSubnet → Creator
after_subnet p (failure e) = undoing p e
after_subnet p (success sb) = wants_network p sb

unfoldable pub after_network : CreateOpts → ApiPort → ApiSubnet → Result (ApiNetwork × ℕ) → Creator
after_network opts p sb (failure e) = undoing p e
after_network opts p sb (success (network, mtu)) =
    returned (created_port opts p sb mtu >>= λ np. ok (success np))

module _ {W : Type 0} (service : NetworkService W) (opts : CreateOpts) where
  pub data Step : Creation W → Creation W → Type 0 where
    read_subnet :
        {w : W} {m : Creator} {n : NetworkGetter}
        → Step (at w m reading n) (at w m (offering (get_subnet service w opts.subnet_id)) n)
    read_network :
        {w : W} {m : Creator} {g : Getter ApiSubnet}
        → Step (at w m g reading) (at w m g (offering (get_network service w opts.network_id)))
    create :
        {w : W} {g : Getter ApiSubnet} {n : NetworkGetter}
        → Step
            (at w creating g n)
            (at (service.create_port w opts).1 (after_create (service.create_port w opts).0) g n)
    receive_subnet :
        {w : W} {p : ApiPort} {r : Result ApiSubnet} {n : NetworkGetter}
        → Step (at w (wants_subnet p) (offering r) n) (at w (after_subnet p r) ended n)
    receive_network :
        {w : W} {p : ApiPort} {sb : ApiSubnet} {g : Getter ApiSubnet} {r : Result (ApiNetwork × ℕ)}
        → Step (at w (wants_network p sb) g (offering r)) (at w (after_network opts p sb r) g ended)
    undo :
        {w : W} {p : ApiPort} {e : Error} {g : Getter ApiSubnet} {n : NetworkGetter}
        → Step
            (at w (undoing p e) g n)
            (at (delete_port service w p.id).1 (returned (ok (failure e))) g n)

  -- The states after some number of actions.
  pub data Reach (s : Creation W) : ℕ → Creation W → Type 0 where
    here : Reach s 0 s
    next : {n : ℕ} {t u : Creation W} → Reach s n t → Step t u → Reach s (suc n) u

abbrev pub started : {W : Type 0} → W → Creation W
started w = at w creating reading reading
