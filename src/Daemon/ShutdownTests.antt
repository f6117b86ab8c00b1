-- ===== src/Daemon/ShutdownTests.antt =====
-- A process that has received a signal.
use rubble.Prelude.{[], ◌∷◌}
use rubble.Daemon.Loop.{stopping, sent, up, signalled, stop_received, signal, stop}
use rubble.Daemon.Shutdown.{Ends, here, next, process-Ends}

process-Ends_example : Ends (stop_received ∷ signalled ∷ []) (up stopping sent 0 0)
process-Ends_example =
    process-Ends (stop_received ∷ signalled ∷ []) (up stopping sent 0 0)
      (next (next here signal) stop)
