-- ===== src/Neutron/Tests.antt =====
-- A service that can make one port, and the theorems of the client at it.
use rubble.Prelude.{
  ℕ, ◌+◌, ltb, String, ◌≡◌, refl, sym, ap, inl, inr, Bool-cases, Bool, true, false, none, [], ◌∷◌,
  arith, str_eq, eq_iff, if◌then◌else◌,
}
use rubble.Prelude.Run.{Returns, Error, Result, success, failure, external}
use rubble.Neutron.{
  ApiPort, ApiSubnet, CreateOpts, ListFilter, NetworkService, create_port, list_port_with_filter,
}
use rubble.Neutron.Binding.{PortService, Waited, wait_port_active, wait_port_active-Waited}
use rubble.Neutron.Ports.{ServiceLaws, CreatedPort, create_port-Created, list_port_with_filter-last}

abbrev pub api_port : String → String → ApiPort
api_port id ip = record {
  name = "port";
  id = id;
  mac_address = "fa:16:3e:00:00:01";
  fixed_ips = ip ∷ [];
  security_groups = [];
}

abbrev pub subnet : ApiSubnet
subnet = record { id = "s-1"; name = "pods"; cidr = "10.0.0.0/24"; gateway_ip = "10.0.0.1" }

-- The state says whether the port exists.
abbrev pub one_port : NetworkService Bool
one_port = record {
  create_port = λ w opts.
      (if w then failure (external "quota") else success (api_port "p-1" "10.0.0.5"), true);
  delete_port = λ w id. (none, if str_eq "p-1" id then false else w);
  add_tag = λ w kind of tag. (none, w);
  port_pages = λ w filter.
      success (api_port "a" "10.0.0.7" ∷ []) ∷ success (api_port "b" "10.0.0.8" ∷ []) ∷ [];
  get_subnet = λ w id. success subnet;
  get_network = λ w id. success (record { id = id; name = "net" });
  network_mtus = λ w id. success ((id, 1450) ∷ []);
  all_subnets = λ w. subnet ∷ [];
  all_networks = λ w. [];
}

abbrev pub one_port_has : Bool → String → Bool
one_port_has w id = if str_eq "p-1" id then w else false

-- The port of a request that was granted.
abbrev pub granted : Result ApiPort → ApiPort
granted (success p) = p
granted (failure e) = api_port "" ""

-- A request is granted while the port is missing, and it makes that port.
pub made_port :
    (w : Bool) (opts : CreateOpts) (p : ApiPort)
    → (one_port.create_port w opts).0 ≡ success p
    → (w ≡ false) × (api_port "p-1" "10.0.0.5" ≡ p)
made_port true opts p e = absurd (ground arith)
made_port false opts p e = (refl, ap granted e)

pub one_port-created :
    (w : Bool) (opts : CreateOpts) (p : ApiPort)
    → (one_port.create_port w opts).0 ≡ success p
    → (id : String) → one_port_has true id ≡ (if str_eq p.id id then true else one_port_has w id)
one_port-created w opts p e id =
    let (missing, same) = made_port w opts p e in
    rw (missing, ← ap (λ (q : ApiPort). q.id) same)
      (elim (Bool-cases (str_eq "p-1" id)) [ inl hit ↦ rw hit refl | inr miss ↦ rw miss refl ])

pub one_port-refused :
    (w : Bool) (opts : CreateOpts) (err : Error)
    → (one_port.create_port w opts).0 ≡ failure err
    → (id : String) → one_port_has true id ≡ one_port_has w id
one_port-refused true opts err e id = refl
one_port-refused false opts err e id = absurd (ground arith)

pub one_port-deleted :
    (w : Bool) (gone id : String)
    → one_port_has (if str_eq "p-1" gone then false else w) id
      ≡ (if str_eq gone id then false else one_port_has w id)
one_port-deleted w gone id = ground (arith, eq_iff "p-1" gone, eq_iff "p-1" id, eq_iff gone id)

abbrev pub one_port_laws : ServiceLaws one_port
one_port_laws = record {
  has = one_port_has;
  created_new = λ w opts p e.
      let (missing, same) = made_port w opts p e in
      rw (missing, ← ap (λ (q : ApiPort). q.id) same) refl;
  created = one_port-created;
  addressed =
      λ w opts p e. (_, _, sym (ap (λ (q : ApiPort). q.fixed_ips) (made_port w opts p e).1));
  refused = one_port-refused;
  deleted = λ w gone e id. one_port-deleted w gone id;
  tagged = λ w kind of tag id. refl;
}

abbrev pub opts : CreateOpts
opts = record {
  name = "rubble-port-x";
  network_id = "n-1";
  subnet_id = "s-1";
  ip_address = "";
  device_owner = "network:secondary";
}

create_port-Created_example :
    Returns (CreatedPort one_port one_port_laws false opts) (create_port one_port false opts)
create_port-Created_example = create_port-Created one_port one_port_laws false opts (λ w id. refl)

abbrev all_ports : ListFilter
all_ports = record { network_id = "n-1"; device_owner = "network:secondary"; tags = "" }

list_port_with_filter-last_example :
    list_port_with_filter one_port false all_ports ≡ success (api_port "b" "10.0.0.8" ∷ [])
list_port_with_filter-last_example =
    list_port_with_filter-last one_port false all_ports ((api_port "a" "10.0.0.7" ∷ []) ∷ [])
      (api_port "b" "10.0.0.8" ∷ []) refl

-- The state is the time; the port can be asked for from the second tick on, and is never active.
abbrev never_active : PortService ℕ
never_active = record {
  create_port = λ w opts. (success (api_port "p-1" "10.0.0.5"), w);
  delete_port = λ w id. (none, w);
  pages = λ w net. [];
  update_port = λ w id binding. (none, w);
  port_status = λ w id. if ltb w 2 then failure (external "not yet") else success "DOWN";
  tick = λ w. w + 2;
  elapsed = λ w. w;
}

wait_port_active-Waited_example :
    Returns (Waited never_active "p-1" 5) (wait_port_active never_active 3 0 "p-1" 5)
wait_port_active-Waited_example = wait_port_active-Waited never_active 2 0 "p-1" 5 (omega arith)
