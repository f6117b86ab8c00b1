-- ===== src/Daemon/SessionTests.antt =====
-- Requests of two pods to a daemon with two idle ports and a factory that can make one more.
use mathlib.Core.List.{not-mem-nil}
use mathlib.Core.List.Perm
use mathlib.Core.Path.{subst}
use rubble.Prelude.{
  ℕ, zero, suc, ◌≡◌, refl, String, true, none, List, [], ◌∷◌, Mem, ◌==◌, if◌then◌else◌, arith,
}
use rubble.Prelude.Run.{Returns, Result, success, failure, external}
use rubble.Resource.{NetworkResource, get_resource_id}
use rubble.Pods.{Pod}
use rubble.Neutron
use rubble.Neutron.{ApiPort}
use rubble.Pool.{ObjectFactory, State}
use rubble.Pool.Supply.{Supply, Running}
use rubble.Pool.Tests.{resource, two, busy, busy-IsSound, absent_cons}
use rubble.Ipam.Tests.{quiet, ports}
use rubble.Ipam.Initial.{Addressed}
use rubble.Ipam.Service.{Listing}
use rubble.Daemon.{DaemonState, Request}
use rubble.Daemon.Tests.{Db, list_storage, web, parse_bool, to_lower}
use rubble.Daemon.Sessions.{
  Command, allocating, releasing, ticking, allocate_all, Apart, allocate_all-Apart,
}

-- A world in which one port can be made, before time 1.
abbrev pub last_port : ObjectFactory ℕ
last_port = record {
  create = λ w ip. (if w == 0 then success (resource "n") else failure (external "quota"), 1);
  dispose = λ w r. (none, w);
  now = λ w. w;
}

-- As long as it can be made, its id is not known.
abbrev pub Unmade : ℕ → List String → Type 0
Unmade w l = w ≡ 0 → ¬ Mem "n" l

only_new :
    (w : ℕ) (l : List String) (res : NetworkResource)
    → Unmade w l
    → (last_port.create w "").0 ≡ success res
    → ¬ Mem (get_resource_id res) l
only_new zero l res live e =
    let same : resource "n" ≡ res = cc in
    subst (λ (r : NetworkResource). ¬ Mem (get_resource_id r) l) same (live refl)
only_new (suc w) l res live e = absurd (ground arith)

pub last_port-Supply : Supply last_port Unmade
last_port-Supply = record {
  made = λ w ip l res live e. (only_new w l res live e, λ start. absurd (ground arith));
  failed = λ w ip l e live refused start. absurd (ground arith);
  same = λ w l m p live start there. live start ((Perm.mem_iff p).1 there);
}

listed-Addressed :
    (all : List ApiPort)
    → ◌≡◌ {A = Result (List ApiPort)} (success ports) (success all)
    → Addressed all
listed-Addressed all e =
    let same : ports ≡ all = cc in subst Addressed same ((_, _, refl), ((_, _, refl), tt))

pub quiet-Listing : Listing quiet
unfolding Neutron.list_port_with_filter Neutron.each_page
quiet-Listing = record { addressed = λ w filter all e. listed-Addressed all e }

abbrev pub find_pod : String → String → Result Pod
find_pod namespace name = success (record web { name = name })

abbrev ask_for : String → Request
ask_for name = record {
  context = record { done = true; picks_token = true };
  namespace = "shop";
  name = name;
  ctx_err = none;
}

abbrev daemon : DaemonState Db (State ℕ)
daemon = record { resource_db = []; port_manager = record { pool = busy; world = 0 } }

daemon-Running : Running Unmade daemon.port_manager
daemon-Running = record {
  items = two;
  sound = busy-IsSound;
  live = λ _.
      absent_cons "n" "a" _ refl
        (absent_cons "n" "b" _ refl (absent_cons "n" "c" _ refl not-mem-nil));
  within = omega arith;
}

abbrev pub visits : List Command
visits =
    allocating (ask_for "web-0")
    ∷ ticking
    ∷ releasing (ask_for "web-0")
    ∷ allocating (ask_for "web-1")
    ∷ allocating (ask_for "web-0")
    ∷ []

abbrev pub arrivals : List Request
arrivals = ask_for "web-0" ∷ ask_for "web-1" ∷ ask_for "web-0" ∷ []

allocate_all-Apart_example :
    Returns
      (Apart list_storage last_port quiet
        (λ ip. true)
        "n-1"
        "s-1"
        parse_bool
        to_lower
        find_pod
        Unmade
        daemon.port_manager.pool.inuse)
      (allocate_all list_storage last_port quiet
        (λ ip. true)
        "n-1"
        "s-1"
        parse_bool
        to_lower
        find_pod
        daemon
        arrivals)
allocate_all-Apart_example =
    allocate_all-Apart list_storage last_port quiet (λ ip. true) "n-1" "s-1" parse_bool to_lower
      find_pod Unmade last_port-Supply quiet-Listing daemon arrivals daemon-Running
      (refl, (refl, (refl, tt)))
