-- ===== src/Daemon/Sessions.antt =====
-- Sequences of requests to the daemon and of rounds of its ticker: it goes on, and gives no port to
-- two pods.
use mathlib.Core.List.{Nodup, Nodup-append, perm_middle}
use mathlib.Core.List.Perm
use mathlib.Core.Path.{subst}
use rubble.Prelude.{
  String, Bool, true, ◌≡◌, refl, sym, ap, ◌∙◌, inl, inr, none, some, List, [], ◌∷◌, ◌++◌, Perm,
  str_eq, eq_refl, eq_iff, Bool-cases, arith, if◌then◌else◌,
}
use rubble.Prelude.Assoc.{lookup, insert, lookup-insert, keys, keys-insert-perm}
use rubble.Prelude.Run.{
  Run, ok, ◌>>=◌, Error, Result, success, failure, Returns, returns, Returns-bind, Returns-if,
}
use rubble.Resource.{PortResource, NetworkResource, get_resource_id}
use rubble.Pods.{Pod}
use rubble.Neutron.{NetworkService}
use rubble.Pool.{ObjectFactory, State}
use rubble.Pool.Supply.{Supply, Running}
use rubble.Pool.Upkeep.{too_many_idle, ticker_round}
use rubble.Pool.Ticking.{ticker_round-Running}
use rubble.Ipam.{NetConf}
use rubble.Ipam.Service.{Listing}
use rubble.Daemon.{Storage, ResourceManager, DaemonState, Request, allocate_ip, release_ip}
use rubble.Daemon.Parts.{ports}
use rubble.Daemon.Service.{
  Answered, lent, failed, Describes, shown, allocate_ip-Answered, release_ip-Running,
}

-- A request to the daemon, as the RPC service passes it on, or a round of the ticker.
pub data Command : Type 0 where
  allocating releasing : Request → Command
  ticking : Command

-- The wait of every AllocateIP for a port ends.
abbrev pub InTime : List Command → Type 0
InTime [] = Unit {0}
InTime (allocating r ∷ cs) = (r.context.done ≡ true) × InTime cs
InTime (releasing r ∷ cs) = InTime cs
InTime (ticking ∷ cs) = InTime cs

abbrev pub AllInTime : List Request → Type 0
AllInTime [] = Unit {0}
AllInTime (r ∷ rs) = (r.context.done ≡ true) × AllInTime rs

-- The ids of the ports that AllocateIP took for pods, beside its replies, where `m` is in use in the
-- end: for each reply without error the port in use under that id which it describes, for one with
-- an error perhaps a port in use that the pod does not get.
pub data Grants (m : List (String × NetworkResource))
    : List (Result (List NetConf)) → List String → Type 0 where
  no_replies : Grants m [] []
  granted :
      {replies : List (Result (List NetConf))} {ids : List String} (port : PortResource)
      → lookup (get_resource_id port) m ≡ some port
      → Grants m replies ids
      → Grants m (success (shown port) ∷ replies) (get_resource_id port ∷ ids)
  lost :
      {replies : List (Result (List NetConf))} {ids : List String} {e : Error} (port : PortResource)
      → lookup (get_resource_id port) m ≡ some port
      → Grants m replies ids
      → Grants m (failure e ∷ replies) (get_resource_id port ∷ ids)
  refused :
      {replies : List (Result (List NetConf))} {ids : List String} {e : Error}
      → Grants m replies ids
      → Grants m (failure e ∷ replies) ids

one_more :
    {replies : List (Result (List NetConf))} {ids : List String}
    (m : List (String × NetworkResource)) (reply : Result (List NetConf)) (port : PortResource)
    → Describes port reply
    → lookup (get_resource_id port) m ≡ some port
    → Grants m replies ids
    → Grants m (reply ∷ replies) (get_resource_id port ∷ ids)
one_more {replies} {ids} m (success conf) port same held g =
    subst (λ c. Grants m (success c ∷ replies) (get_resource_id port ∷ ids)) (sym same)
      (granted port held g)
one_more m (failure e) port same held g = lost port held g

-- A resource in use stays so when another id is added.
lookup-kept :
    (id j : String) (port res : NetworkResource) (m : List (String × NetworkResource))
    → lookup id m ≡ none
    → lookup j m ≡ some res
    → lookup j (insert id port m) ≡ some res
lookup-kept id j port res m absent held =
    lookup-insert id j port m ∙ elim (Bool-cases (str_eq id j)) [
      | inr e ↦ rw e held
      | inl e ↦
          let same = (eq_iff id j).0 e in
          let gone = subst (λ k. lookup k m ≡ none) same absent in
          absurd (ground (arith, gone, held))
    ]

module _ {S W : Type 0} (storage : Storage S) (factory : ObjectFactory W)
    (service : NetworkService W) (parse_ip : String → Bool) (net_id subnet_id : String)
    (parse_bool : String → Bool) (to_lower : String → String)
    (find_pod : String → String → Result Pod) where
  abbrev Daemon : Type 0
  Daemon = DaemonState S (State W)

  abbrev manager : ResourceManager (State W)
  manager = ports factory service parse_ip net_id subnet_id

  -- The daemon after one request or one round of the ticker, and after a sequence of them. A round
  -- that comes upon a surplus, in which checkIdle may keep the lock, is left out.
  unfoldable pub serve_one : Daemon → Command → Run Daemon
  serve_one s (allocating r) =
      allocate_ip storage manager parse_bool to_lower find_pod s r >>= λ (reply, t). ok t
  serve_one s (releasing r) =
      release_ip storage manager parse_bool to_lower find_pod s r >>= λ (reply, t). ok t
  serve_one s ticking =
      let round =
        ticker_round factory 1 s.port_manager >>= λ m. ok (record s { port_manager = m }) in
      if too_many_idle s.port_manager.pool then ok s else round

  unfoldable pub serve_all : Daemon → List Command → Run Daemon
  serve_all s [] = ok s
  serve_all s (c ∷ cs) = serve_one s c >>= λ t. serve_all t cs

  -- The replies to a sequence of AllocateIPs.
  unfoldable pub allocate_all : Daemon → List Request → Run (List (Result (List NetConf)) × Daemon)
  allocate_all s [] = ok ([], s)
  allocate_all s (r ∷ rs) = do
    (reply, t) ← allocate_ip storage manager parse_bool to_lower find_pod s r
    (replies, u) ← allocate_all t rs
    ok (reply ∷ replies, u)

  -- What a sequence of AllocateIPs has done to the resources in use, `before`.
  pub record Apart (Live : W → List String → Type 0) (before : List (String × NetworkResource))
      (a : List (Result (List NetConf)) × Daemon) : Type 0 where
    pub ids : List String
    pub grants : Grants a.1.port_manager.pool.inuse a.0 ids
    pub running : Running Live a.1.port_manager
    pub in_use : Perm (keys a.1.port_manager.pool.inuse) (ids ++ keys before)
    pub distinct : Nodup (ids ++ keys before)
    pub kept :
        (id : String) (res : NetworkResource)
        → lookup id before ≡ some res
        → lookup id a.1.port_manager.pool.inuse ≡ some res

  module _ (Live : W → List String → Type 0) (supply : Supply factory Live)
      (listing : Listing service) where
    on_its_way :
        (t : Daemon)
        → Running Live t.port_manager
        → Returns (λ (u : Daemon). Running Live u.port_manager) (ok t)
    on_its_way t u = returns u

    -- When the factory's resources are new, the listed ports have addresses and the waits of the
    -- AllocateIPs end, then the daemon goes through every sequence of requests of any pods and rounds
    -- of the ticker, but for those upon a surplus: none panics or waits for ever, and the pool is
    -- sound after it, with no more tokens than fit.
    pub serve_all-Running :
        (s : Daemon) (cs : List Command)
        → Running Live s.port_manager
        → InTime cs
        → Returns (λ t. Running Live t.port_manager) (serve_all s cs)
    unfolding serve_all serve_one
    serve_all-Running s [] t h = returns t
    serve_all-Running s (allocating r ∷ cs) t (timely, h) =
        Returns-bind
          (Returns-bind
            (allocate_ip-Answered storage factory Live supply service listing parse_ip net_id
              subnet_id parse_bool to_lower find_pod s r t timely)
            λ a (u, answered). on_its_way a.1 u)
          λ v u. serve_all-Running v cs u h
    serve_all-Running s (releasing r ∷ cs) t h =
        Returns-bind
          (Returns-bind
            (release_ip-Running storage factory Live supply service listing parse_ip net_id
              subnet_id parse_bool to_lower find_pod s r t)
            λ a u. on_its_way a.1 u)
          λ v u. serve_all-Running v cs u h
    serve_all-Running s (ticking ∷ cs) t h =
        Returns-bind
          (Returns-if (too_many_idle s.port_manager.pool) (λ _. on_its_way s t)
            (λ fine.
              Returns-bind (ticker_round-Running factory Live supply s.port_manager t fine)
                λ m (u, same). on_its_way (record s { port_manager = m }) u))
          λ v u. serve_all-Running v cs u h

    -- The ports of one reply and those of the later ones.
    joins :
        (s t : Daemon) (reply : Result (List NetConf)) (b : List (Result (List NetConf)) × Daemon)
        → Answered s.port_manager.pool.inuse reply t.port_manager.pool.inuse
        → Apart Live t.port_manager.pool.inuse b
        → Apart Live s.port_manager.pool.inuse (reply ∷ b.0, b.1)
    joins s t reply b (lent port described absent more) rest =
        let moved =
          subst
            (λ m.
              Perm (rest.ids ++ keys m)
                (get_resource_id port ∷ rest.ids ++ keys s.port_manager.pool.inuse))
            (sym more)
            (Perm.trans
              (Perm.append_left rest.ids (keys-insert-perm (get_resource_id port) port _ absent))
              (perm_middle rest.ids _)) in
        record {
          ids = get_resource_id port ∷ rest.ids;
          grants =
              one_more _ reply port described
                (rest.kept _ port (
                  ap (lookup (get_resource_id port)) more
                  ∙ lookup-insert (get_resource_id port) (get_resource_id port) port _
                  ∙ rw (eq_refl (get_resource_id port)) refl))
                rest.grants;
          kept = λ j res held.
              rest.kept j res
                (ap (lookup j) more ∙ lookup-kept (get_resource_id port) j port res _ absent held);
          running = rest.running;
          in_use = Perm.trans rest.in_use moved;
          distinct = Perm.nodup moved rest.distinct;
        }
    joins s t reply b (failed e refusal same) rest = record {
      ids = rest.ids;
      grants =
          subst (λ reply. Grants b.1.port_manager.pool.inuse (reply ∷ b.0) rest.ids) (sym refusal)
            (refused rest.grants);
      running = rest.running;
      in_use =
          subst (λ m. Perm (keys b.1.port_manager.pool.inuse) (rest.ids ++ keys m)) same
            rest.in_use;
      distinct = subst (λ m. Nodup (rest.ids ++ keys m)) same rest.distinct;
      kept = λ j res held. rest.kept j res (ap (lookup j) same ∙ held);
    }

    -- When the calls of the factory return and the ids of the resources that it makes are new, the
    -- ports that Neutron lists have addresses, the waits of the requests end, and the ticker makes
    -- no round between them: a sequence of AllocateIPs to a running daemon, of any pods, returns;
    -- the ports that it takes and those that were in use before all differ, and they are the ones
    -- in use afterwards, under their ids; each reply without error has the address, CIDR, gateway
    -- and MAC of one of the ports taken, which was taken for this reply alone.
    pub allocate_all-Apart :
        (s : Daemon) (rs : List Request)
        → Running Live s.port_manager
        → AllInTime rs
        → Returns (Apart Live s.port_manager.pool.inuse) (allocate_all s rs)
    unfolding allocate_all
    allocate_all-Apart s [] t h = returns (record {
      ids = [];
      grants = no_replies;
      running = t;
      in_use = Perm.rfl;
      distinct = (Nodup-append.0 t.sound.distinct).1;
      kept = λ j res held. held;
    })
    allocate_all-Apart s (r ∷ rs) t (timely, h) =
        Returns-bind
          (allocate_ip-Answered storage factory Live supply service listing parse_ip net_id
            subnet_id parse_bool to_lower find_pod s r t timely)
          λ a (u, answered).
            Returns-bind (allocate_all-Apart a.1 rs u h)
              λ b rest. returns (joins s a.1 a.0 b answered rest)
