-- ===== src/Daemon/Loop.antt =====
-- pkg/daemon/server.go and cmd/cni-daemon/rubble-daemon.go: the daemon's process. The calls of the
-- operating system and of grpc are parameters.
use rubble.Prelude.{ℕ, suc, String, Bool, Option, none, some, if◌then◌else◌}
use rubble.Prelude.Run.{Run, ok, panic, blocked, out_of_fuel, Error, Result, success, failure}
use rubble.Prelude.Call.{Call, ◌>>=◌, ◌>>◌, act, run, hide, give}

-- os.MkdirAll of the parent directory, syscall.Unlink with os.IsNotExist, and net.Listen on a unix
-- socket.
pub record Os (W Listener : Type 0) : Type 0 where
  pub mkdir_parent : String → W → Option Error × W
  pub unlink : String → W → Option Error × W
  pub is_not_exist : Error → Bool
  pub listen : String → W → Result Listener × W

-- What the flags of the command set.
pub record Flags : Type 0 where
  pub daemon_mode : String
  pub log_level : String
  pub kube_config : String
  pub openstack_config : String
  pub neutron_net : String
  pub neutron_subnet : String

abbrev pub default_flags : Flags
default_flags = record {
  daemon_mode = "vpc";
  log_level = "info";
  kube_config = "";
  openstack_config = "";
  neutron_net = "share_net";
  neutron_subnet = "share_net__subnet";
}

abbrev pub default_socket_path : String
default_socket_path = "/var/run/cni/rubble.socket"

-- The goroutine of `main`, which is that of Run after its set-up: it waits for a stop, or is in
-- GracefulStop.
pub data Main : Type 0 where
  waiting stopping : Main

-- The goroutine that waits for a signal, and then for the stop to be received.
pub data Signals : Type 0 where
  listening sending sent : Signals

-- The process, with the number of requests that it serves and of those that wait for ever, or the
-- status with which it has ended. Its third goroutine is in Serve.
pub data Process : Type 0 where
  up : Main → Signals → ℕ → ℕ → Process
  exited : ℕ → Process

pub data Event : Type 0 where
  arrived replied hung signalled stop_received drained serve_failed : Event

-- What may happen. A request arrives as long as Serve accepts it, and ends with a reply, or comes
-- to wait for ever, for a lock that is not given back. The channel for stops has no buffer, so a
-- send and its receipt are one event. GracefulStop accepts no more requests and returns when no
-- request is left. Fatalf ends the process, so the goroutine of Serve never sends a stop itself;
-- where Serve returns without error, after a GracefulStop, it does nothing more.
pub data Step : Event → Process → Process → Type 0 where
  arrive : {g : Signals} {n k : ℕ} → Step arrived (up waiting g n k) (up waiting g (suc n) k)
  reply : {m : Main} {g : Signals} {n k : ℕ} → Step replied (up m g (suc n) k) (up m g n k)
  hang : {m : Main} {g : Signals} {n k : ℕ} → Step hung (up m g (suc n) k) (up m g n (suc k))
  signal : {m : Main} {n k : ℕ} → Step signalled (up m listening n k) (up m sending n k)
  stop : {n k : ℕ} → Step stop_received (up waiting sending n k) (up stopping sent n k)
  drain : {g : Signals} → Step drained (up stopping g 0 0) (exited 0)
  fail : {m : Main} {g : Signals} {n k : ℕ} → Step serve_failed (up m g n k) (exited 1)

-- The process after the set-up.
unfoldable pub begun : {A W : Type 0} → Run (Result A × W) → Run (Process × W)
begun (ok (success a, w)) = ok (up waiting listening 0 0, w)
begun (ok (failure e, w)) = ok (exited 1, w)
begun panic = panic
begun blocked = blocked
begun out_of_fuel = out_of_fuel

module _ {W Listener Daemon : Type 0} (os : Os W Listener) (start : String → Call W Daemon) where
  -- An error that says that there is no socket is none.
  unfoldable pub remove_socket : String → Call W (Unit {0})
  remove_socket path = act (λ w.
      let (err, w₁) = os.unlink path w in
      elim err [ none ↦ (none, w₁) | some e ↦ (if os.is_not_exist e then none else some e, w₁) ])

  -- Run up to the goroutines; `start` is newDaemonServer, which reads nothing of the other flags.
  unfoldable pub set_up : String → Flags → Call W (Listener × Daemon)
  set_up socket_path flags = do
    act (os.mkdir_parent socket_path)
    remove_socket socket_path
    l ← hide "error listen" (run (os.listen socket_path))
    rubble ← start flags.kube_config
    give (l, rubble)

  -- `main`: the process that runs, or that Fatal has ended.
  unfoldable pub main : Flags → W → Run (Process × W)
  main flags w = begun (set_up default_socket_path flags w)
