-- ===== src/Neutron/Ports.antt =====
-- CreatePort leaves no port behind when it fails, and what a list of ports is read as.
use mathlib.Core.List.{◌++◌}
use rubble.Prelude.{
  ℕ, String, ◌≡◌, refl, sym, ap, ◌∙◌, inl, inr, Bool, true, false, none, List, [], ◌∷◌, str_eq,
  eq_iff, Bool-cases, if◌then◌else◌, map,
}
use rubble.Prelude.Run.{
  ok, Returns, returns, Returns-bind, Error, Result, success, failure, Result-cases,
}
use rubble.Resource.{Port}
use rubble.Neutron.{
  ApiPort, ApiSubnet, CreateOpts, ListFilter, NetworkService, created_port, convert_port,
  read_setup, create_port, delete_port, each_page, list_port_with_filter,
}

-- What the service documents of its ports: `has` says whether a port with an id exists. A port that
-- was created is new and has an address, and a request that is refused changes no port.
pub record ServiceLaws {W : Type 0} (service : NetworkService W) : Type 0 where
  pub has : W → String → Bool
  pub created_new :
      (w : W) (opts : CreateOpts) (p : ApiPort)
      → (service.create_port w opts).0 ≡ success p
      → has w p.id ≡ false
  pub created :
      (w : W) (opts : CreateOpts) (p : ApiPort)
      → (service.create_port w opts).0 ≡ success p
      → (id : String)
      → has (service.create_port w opts).1 id ≡ (if str_eq p.id id then true else has w id)
  pub addressed :
      (w : W) (opts : CreateOpts) (p : ApiPort)
      → (service.create_port w opts).0 ≡ success p
      → (ip : String) × (rest : List String) × (p.fixed_ips ≡ ip ∷ rest)
  pub refused :
      (w : W) (opts : CreateOpts) (e : Error)
      → (service.create_port w opts).0 ≡ failure e
      → (id : String) → has (service.create_port w opts).1 id ≡ has w id
  pub deleted :
      (w : W) (gone : String)
      → (service.delete_port w gone).0 ≡ none
      → (id : String)
      → has (service.delete_port w gone).1 id ≡ (if str_eq gone id then false else has w id)
  pub tagged :
      (w : W) (kind of tag : String) (id : String)
      → has (service.add_tag w kind of tag).1 id ≡ has w id

-- The fields of a port that come from the service, the subnet and the network.
pub created_port-ok :
    (opts : CreateOpts) (p : ApiPort) (sb : ApiSubnet) (mtu : ℕ) (ip : String) (rest : List String)
    → p.fixed_ips ≡ ip ∷ rest
    → Returns
        (λ np.
          (np.id ≡ p.id)
          × (np.ip ≡ ip)
          × (np.cidr ≡ sb.cidr)
          × (np.gateway ≡ sb.gateway_ip)
          × (np.mtu ≡ mtu))
        (created_port opts p sb mtu)
unfolding created_port
created_port-ok opts p sb mtu ip rest e =
    rw (e, created_port) (returns (refl, refl, refl, refl, refl))

-- The port that CreatePort returns and the one that ConvertPort reads from the same answer of the
-- service differ in the subnet's id and the MTU at most, which ConvertPort leaves empty.
pub convert_port-created_port :
    (opts : CreateOpts) (p : ApiPort) (sb : ApiSubnet) (mtu : ℕ) (ip : String) (rest : List String)
    → p.fixed_ips ≡ ip ∷ rest
    → (np : Port) × (created_port opts p sb mtu ≡ ok np)
      × (convert_port sb p ≡ ok (record np { subnet_id = ""; mtu = 0 }))
unfolding created_port convert_port
convert_port-created_port opts p sb mtu ip rest e = (
  record {
    name = p.name;
    id = p.id;
    subnet_id = opts.subnet_id;
    mac = p.mac_address;
    ip = ip;
    cidr = sb.cidr;
    gateway = sb.gateway_ip;
    mtu = mtu;
    sgs = p.security_groups;
  },
  rw (e, created_port) refl,
  rw (e, convert_port) refl,
)

module _ {W : Type 0} (service : NetworkService W) (laws : ServiceLaws service) where
  -- How CreatePort ends: with a new port, or with the ports as they were.
  pub data CreatedPort (w : W) (opts : CreateOpts) : Result Port × W → Type 0 where
    created_port_ends :
        {np : Port} {w' : W} {sb : ApiSubnet} {mtu : ℕ}
        → laws.has w np.id ≡ false
        → ((id : String) → laws.has w' id ≡ (if str_eq np.id id then true else laws.has w id))
        → read_setup service w opts ≡ success (sb, mtu)
        → (np.cidr ≡ sb.cidr) × (np.gateway ≡ sb.gateway_ip) × (np.mtu ≡ mtu)
        → CreatedPort w opts (success np, w')
    not_created :
        {e : Error} {w' : W}
        → ((id : String) → laws.has w' id ≡ laws.has w id)
        → CreatedPort w opts (failure e, w')

  restored :
      (w : W) (opts : CreateOpts) (p : ApiPort)
      → (service.create_port w opts).0 ≡ success p
      → ((w' : W) (id : String) → (service.delete_port w' id).0 ≡ none)
      → (id : String)
      → laws.has (service.delete_port (service.create_port w opts).1 p.id).1 id ≡ laws.has w id
  restored w opts p made deletes id =
      let w₁ = (service.create_port w opts).1 in
      laws.deleted w₁ p.id (deletes w₁ p.id) id ∙ elim (Bool-cases (str_eq p.id id)) [
        | inl same ↦
            rw same
              (sym (laws.created_new w opts p made) ∙ ap (laws.has w) ((eq_iff p.id id).0 same))
        | inr other ↦ rw other (laws.created w opts p made id ∙ rw other refl)
      ]

  -- If ports can be deleted, CreatePort returns, with a new port or with the ports as before.
  pub create_port-Created :
      (w : W) (opts : CreateOpts)
      → ((w' : W) (id : String) → (service.delete_port w' id).0 ≡ none)
      → Returns (CreatedPort w opts) (create_port service w opts)
  unfolding create_port delete_port
  create_port-Created w opts deletes = elim (Result-cases (service.create_port w opts).0) [
    | inr (e, refused) ↦
        rw (refused, create_port) (returns (not_created (laws.refused w opts e refused)))
    | inl (p, made) ↦ elim (Result-cases (read_setup service w opts)) [
      | inr (e, failed) ↦
          rw (made, create_port)
            (rw (failed, create_port) (returns (not_created (restored w opts p made deletes))))
      | inl ((sb, mtu), read) ↦
          let (ip, rest, address) = laws.addressed w opts p made in
          rw (made, create_port)
            (rw (read, create_port)
              (Returns-bind (created_port-ok opts p sb mtu ip rest address)
                λ np (same_id, same_ip, cidr, gateway, mtu_read). returns (
                  created_port_ends (ap (laws.has w) same_id ∙ laws.created_new w opts p made)
                    (λ id. rw same_id (laws.created w opts p made id)) read
                    (cidr, gateway, mtu_read))))
    ]
  ]

-- Of several pages, ListPortWithFilter returns the last.
each_page-last :
    (actual : List ApiPort) (front : List (List ApiPort)) (last : List ApiPort)
    → each_page actual (map success front ++ success last ∷ []) ≡ success last
unfolding each_page
each_page-last actual [] last = refl
each_page-last actual (page ∷ front) last = each_page-last page front last

-- ListPortWithFilter returns the ports of the last page alone, whatever the pages before it hold.
pub list_port_with_filter-last :
    {W : Type 0} (service : NetworkService W) (w : W) (filter : ListFilter)
    (front : List (List ApiPort)) (last : List ApiPort)
    → service.port_pages w filter ≡ map success front ++ success last ∷ []
    → list_port_with_filter service w filter ≡ success last
unfolding list_port_with_filter
list_port_with_filter-last service w filter front last e = rw e (each_page-last [] front last)
