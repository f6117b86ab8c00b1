-- ===== src/Daemon/Service.antt =====
-- Requests that the daemon serves one after another, over the manager of the program and any
-- storage.
use mathlib.Core.Path.{subst}
use rubble.Prelude.{
  String, Bool, true, ◌≡◌, refl, sym, ap, ◌∙◌, inl, inr, Option, none, some, List, [], ◌∷◌,
  Option-cases, Bool-cases, str_eq, ◌||◌, arith,
}
use rubble.Prelude.Assoc.{lookup, insert}
use rubble.Prelude.Run.{
  ok, Error, Result, success, failure, Result-cases, Returns, returns, Returns-bind,
}
use rubble.Resource.{PortResource, NetworkResource, get_resource_id, get_type}
use rubble.Pods.{PodInfo, Pod, pod_info_key}
use rubble.Neutron.{NetworkService}
use rubble.Pool.{ObjectFactory, State}
use rubble.Pool.Supply.{Supply, Running, Served}
use rubble.Ipam.{NetConf, ResourceContext, net_conf_from_port}
use rubble.Ipam.Service.{Listing, allocate-Served, manager_release-Released}
use rubble.Daemon.{
  ResourceItem, PodResources, Storage, ResourceManager, DaemonState, Request, get_pod,
  get_pod_resource, allocate_port_ip, record_port, record_allocated, allocate_ip, release_all,
  forget_pod, forget_record, release_ip,
}
use rubble.Daemon.Parts.{ports}

-- What a reply shows of a port.
abbrev pub shown : PortResource → List NetConf
shown port =
    record {
      pod_ip = port.port.ip;
      pod_cidr = port.port.cidr;
      gateway_ip = port.port.gateway;
      mac = port.port.mac;
    }
    ∷ []

-- A reply of AllocateIP for the port that the manager gave: one without error has its address,
-- CIDR, gateway and MAC.
abbrev pub Describes : PortResource → Result (List NetConf) → Type 0
Describes port (success conf) = conf ≡ shown port
Describes port (failure e) = Unit {0}

-- What one AllocateIP does to the resources in use `m`: a port comes to them that was not in use,
-- and a reply without error describes that port; or it fails, and they stay.
pub data Answered (m : List (String × NetworkResource)) (reply : Result (List NetConf))
    (m' : List (String × NetworkResource)) : Type 0 where
  lent :
      (port : PortResource)
      → Describes port reply
      → lookup (get_resource_id port) m ≡ none
      → m' ≡ insert (get_resource_id port) port m
      → Answered m reply m'
  failed : (e : Error) → reply ≡ failure e → m' ≡ m → Answered m reply m'

net_conf_from_port-shown :
    (port : PortResource) (conf : List NetConf)
    → net_conf_from_port port ≡ success conf
    → conf ≡ shown port
unfolding net_conf_from_port
net_conf_from_port-shown port conf h =
    elim (Bool-cases (str_eq port.port.cidr "" || str_eq port.port.gateway "")) [
      | inl e ↦ let wrong = rw (e, net_conf_from_port) at h in absurd (ground arith)
      | inr e ↦ let done = rw (e, net_conf_from_port) at h in cc
    ]

module _ {S W : Type 0} (storage : Storage S) (factory : ObjectFactory W)
    (service : NetworkService W) (parse_ip : String → Bool) (net_id subnet_id : String)
    (parse_bool : String → Bool) (to_lower : String → String)
    (find_pod : String → String → Result Pod) where
  abbrev port_manager : ResourceManager (State W)
  port_manager = ports factory service parse_ip net_id subnet_id

  -- The record that AllocateIP makes.
  abbrev resources_of : PodInfo → PortResource → PodResources
  resources_of info port = record {
    pod_info = some info;
    resources = record { id = get_resource_id port; type = get_type port } ∷ [];
  }

  pub record_port-Describes :
      (s : DaemonState S (State W)) (r : Request) (info : PodInfo) (port : PortResource)
      → let a = record_port storage port_manager parse_bool to_lower find_pod s r info port in
        (a.1.port_manager ≡ s.port_manager) × Describes port a.0
  unfolding record_port
  record_port-Describes s r info port =
      elim (Option-cases
        (storage.put s.resource_db (pod_info_key info) (resources_of info port)).0) [
          | inr (e, unwritten) ↦ rw (unwritten, record_port) (refl, tt)
          | inl written ↦
              rw (written, record_port)
                (elim (Result-cases (net_conf_from_port port)) [
                  | inr (e, bad) ↦ rw (bad, record_port) (refl, tt)
                  | inl (conf, good) ↦
                      rw (good, record_port)
                        (elim (Option-cases r.ctx_err) [
                          | inl alive ↦
                              rw (alive, record_port)
                                (refl, net_conf_from_port-shown port conf good)
                          | inr (e, closed) ↦ rw (closed, record_port) (refl, tt)
                        ])
                ])
        ]

module _ {S W : Type 0} (storage : Storage S) (factory : ObjectFactory W)
    (Live : W → List String → Type 0) (supply : Supply factory Live) (service : NetworkService W)
    (listing : Listing service) (parse_ip : String → Bool) (net_id subnet_id : String)
    (parse_bool : String → Bool) (to_lower : String → String)
    (find_pod : String → String → Result Pod) where
  abbrev manager : ResourceManager (State W)
  manager = ports factory service parse_ip net_id subnet_id

  record_allocated-Answered :
      (db : S) (r : Request) (info : PodInfo) (s : State W) (a : Result PortResource × State W)
      → Served Live s a
      → let t = record_allocated storage manager parse_bool to_lower find_pod db r info a in
        Running Live t.1.port_manager × Answered s.pool.inuse t.0 t.1.port_manager.pool.inuse
  unfolding record_allocated
  record_allocated-Answered db r info s (failure e, m) w = (w.running, failed _ refl w.granted)
  record_allocated-Answered db r info s (success port, m) w =
      let (same, described) =
        record_port-Describes storage factory service parse_ip net_id subnet_id parse_bool to_lower
          find_pod (record { resource_db = db; port_manager = m }) r info port in
      (
        subst (Running Live) (sym same) w.running,
        lent port described w.granted.0 (ap (λ (t : State W). t.pool.inuse) same ∙ w.granted.1),
      )

  pub allocate_ip-Answered :
      (s : DaemonState S (State W)) (r : Request)
      → Running Live s.port_manager
      → r.context.done ≡ true
      → Returns
          (λ a.
            Running Live a.1.port_manager
            × Answered s.port_manager.pool.inuse a.0 a.1.port_manager.pool.inuse)
          (allocate_ip storage manager parse_bool to_lower find_pod s r)
  unfolding allocate_ip allocate_port_ip ports
  allocate_ip-Answered s r t done =
      elim (Result-cases
        (get_pod storage manager parse_bool to_lower find_pod r.namespace r.name)) [
          | inr (e, unknown) ↦ rw (unknown, allocate_ip) (returns (t, failed _ refl refl))
          | inl ((info, pod), got) ↦
              rw (got, allocate_ip)
                (elim (Result-cases (
                  get_pod_resource storage manager parse_bool to_lower find_pod s.resource_db
                    (pod_info_key info))) [
                      | inr (e, lost) ↦ rw (lost, allocate_ip) (returns (t, failed _ refl refl))
                      | inl (old, found) ↦
                          rw (found, allocate_ip)
                            (Returns-bind
                              (allocate-Served factory Live supply service listing parse_ip net_id
                                subnet_id s.port_manager
                                (record { context = r.context; pod_info = some info; pod = pod })
                                info _ t done refl)
                              λ a w.
                                returns (
                                  record_allocated-Answered s.resource_db r info s.port_manager a
                                    w))
                    ])
        ]

  release_all-Running :
      (s : State W) (ctx : ResourceContext) (items : List ResourceItem)
      → Running Live s
      → Returns
          (λ a. Running Live a.1)
          (release_all storage manager parse_bool to_lower find_pod s ctx items)
  unfolding release_all ports
  release_all-Running s ctx [] t = returns t
  release_all-Running s ctx (item ∷ items) t =
      Returns-bind
        (Returns-bind (manager_release-Released factory Live supply s (some ctx) item.id t) λ r w.
          let next : Returns (λ (a : Option Error × State W). Running Live a.1)
              (ok (r.0, record s { pool = r.1 })) =
            returns w.running in
          next)
        λ (err, s₁) t₁. elim (Option-cases err) [
          | inr (e, failing) ↦ rw failing (returns t₁)
          | inl fine ↦ rw fine (release_all-Running s₁ ctx items t₁)
        ]

  forget_pod-manager :
      (db : S) (r : Request) (info : PodInfo) (a : Option Error × State W)
      → (forget_pod storage manager parse_bool to_lower find_pod db r info a).1.port_manager ≡ a.1
  unfolding forget_pod
  forget_pod-manager db r info (some e, m) = refl
  forget_pod-manager db r info (none, m) =
      elim (Option-cases (forget_record storage manager parse_bool to_lower find_pod db info).0) [
        | inr (e, kept) ↦ rw (kept, forget_pod) refl
        | inl gone ↦
            rw (gone, forget_pod)
              (elim (Option-cases r.ctx_err) [
                | inl alive ↦ rw (alive, forget_pod) refl
                | inr (e, closed) ↦ rw (closed, forget_pod) refl
              ])
      ]

  pub release_ip-Running :
      (s : DaemonState S (State W)) (r : Request)
      → Running Live s.port_manager
      → Returns
          (λ a. Running Live a.1.port_manager)
          (release_ip storage manager parse_bool to_lower find_pod s r)
  unfolding release_ip
  release_ip-Running s r t =
      elim (Result-cases
        (get_pod storage manager parse_bool to_lower find_pod r.namespace r.name)) [
          | inr (e, unknown) ↦ rw (unknown, release_ip) (returns t)
          | inl ((info, pod), got) ↦
              rw (got, release_ip)
                (elim (Result-cases (
                  get_pod_resource storage manager parse_bool to_lower find_pod s.resource_db
                    (pod_info_key info))) [
                      | inr (e, lost) ↦ rw (lost, release_ip) (returns t)
                      | inl (old, found) ↦
                          rw (found, release_ip)
                            (Returns-bind
                              (release_all-Running s.port_manager
                                (record { context = r.context; pod_info = some info; pod = pod })
                                old.resources t)
                              λ a u. returns (
                                subst (Running Live)
                                  (sym (forget_pod-manager s.resource_db r info a)) u))
                    ])
        ]
