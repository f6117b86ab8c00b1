-- ===== src/Neutron/Lookup.antt =====
-- The names that the daemon's configuration may give in place of ids.
use rubble.Prelude.{
  String, ◌≡◌, ◌≢◌, refl, inl, inr, false, List, [], ◌∷◌, arith, str_eq, eq_iff, Bool-cases,
  if◌then◌else◌, map,
}
use rubble.Prelude.Run.{success}
use rubble.Utils.Uuid.{is_valid_uuid}
use rubble.Neutron.{
  ApiSubnet, ApiNetwork, NetworkService, find_subnet, find_network, get_subnetwork_id,
  get_network_id, list_networks, list_subnetworks,
}

-- The id `id` is that of the first of the pairs of name and id with the name, or "" if none has it.
pub data FirstNamed (name : String) : List (String × String) → String → Type 0 where
  no_more : FirstNamed name [] ""
  here : {id : String} {rest : List (String × String)} → FirstNamed name ((name, id) ∷ rest) id
  later :
      {other other_id id : String} {rest : List (String × String)}
      → other ≢ name
      → FirstNamed name rest id
      → FirstNamed name ((other, other_id) ∷ rest) id

abbrev pub subnet_names : List ApiSubnet → List (String × String)
subnet_names = map (λ net. (net.name, net.id))

abbrev pub network_names : List ApiNetwork → List (String × String)
network_names = map (λ net. (net.name, net.id))

first_or_later :
    (name other other_id id : String) (rest : List (String × String))
    → FirstNamed name rest id
    → FirstNamed name ((other, other_id) ∷ rest) (if str_eq other name then other_id else id)
first_or_later name other other_id id rest f = elim (Bool-cases (str_eq other name)) [
  | inl same ↦ rw (same, (eq_iff other name).0 same) here
  | inr differs ↦ rw differs (later (λ same. ground (arith, (eq_iff other name).1 same)) f)
]

find_subnet-FirstNamed :
    (name : String) (nets : List ApiSubnet)
    → FirstNamed name (subnet_names nets) (find_subnet name nets)
unfolding find_subnet
find_subnet-FirstNamed name [] = no_more
find_subnet-FirstNamed name (net ∷ nets) =
    first_or_later name net.name net.id _ _ (find_subnet-FirstNamed name nets)

find_network-FirstNamed :
    (name : String) (nets : List ApiNetwork)
    → FirstNamed name (network_names nets) (find_network name nets)
unfolding find_network
find_network-FirstNamed name [] = no_more
find_network-FirstNamed name (net ∷ nets) =
    first_or_later name net.name net.id _ _ (find_network-FirstNamed name nets)

module _ {W : Type 0} (service : NetworkService W) where
  -- A name that is no UUID is looked up: the answer is the id of the first network, and of the
  -- first subnet, with that name, and no error but the empty id where there is none.
  pub names-FirstNamed :
      (w : W) (name : String)
      → is_valid_uuid name ≡ false
      → ((id : String) × (get_network_id service w name ≡ success id)
          × FirstNamed name (network_names (service.all_networks w)) id)
        × ((id : String) × (get_subnetwork_id service w name ≡ success id)
            × FirstNamed name (subnet_names (service.all_subnets w)) id)
  unfolding get_network_id get_subnetwork_id list_networks list_subnetworks
  names-FirstNamed w name no_uuid = (
    (_, rw (no_uuid, get_network_id) refl, find_network-FirstNamed name _),
    (_, rw (no_uuid, get_subnetwork_id) refl, find_subnet-FirstNamed name _),
  )
