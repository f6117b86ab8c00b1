-- ===== src/Daemon/Shutdown.antt =====
-- How the daemon's process ends.
use mathlib.Core.List.{mem-cons_self, mem-cons_of_mem, mem_of_ne_of_mem, not-mem-nil}
use rubble.Prelude.{ℕ, zero, suc, List, [], ◌∷◌, Mem, ◌≢◌}
use rubble.Daemon.Loop.{
  Main, Signals, waiting, stopping, listening, sending, sent, Process, up, exited, Event, hung,
  signalled, serve_failed, Step, arrive, reply, hang, signal, stop, drain, fail,
}

-- The events on the way from one state of the process to another, the last one first.
pub data Reach (s : Process) : List Event → Process → Type 0 where
  here : Reach s [] s
  next :
      {es : List Event} {e : Event} {t u : Process} → Reach s es t → Step e t u → Reach s (e ∷ es) u

-- Where the two goroutines stand together, and what must have happened before.
abbrev Phase : List Event → Main → Signals → Type 0
Phase es waiting listening = Unit {0}
Phase es waiting sending = Mem signalled es
Phase es stopping sent = Mem signalled es
Phase es _ _ = ⊥

-- Requests wait for ever if and only if one has come to do so.
abbrev Hanging : ℕ → List Event → Type 0
Hanging zero es = ¬ Mem hung es
Hanging (suc k) es = Mem hung es

-- The states that a process comes to, and what must have happened before.
abbrev Course : List Event → Process → Type 0
Course es (up m g n k) = Phase es m g × Hanging k es
Course es (exited zero) = Mem signalled es × (¬ Mem hung es)
Course es (exited (suc zero)) = Mem serve_failed es
Course es (exited (suc (suc n))) = ⊥

Phase-later :
    (e : Event) (es : List Event) (m : Main) (g : Signals) → Phase es m g → Phase (e ∷ es) m g
Phase-later e es waiting listening p = p
Phase-later e es waiting sending p = mem-cons_of_mem e p
Phase-later e es waiting sent p = p
Phase-later e es stopping listening p = p
Phase-later e es stopping sending p = p
Phase-later e es stopping sent p = mem-cons_of_mem e p

Hanging-later : (e : Event) (es : List Event) (k : ℕ) → hung ≢ e → Hanging k es → Hanging k (e ∷ es)
Hanging-later e es zero other h = λ there. h (mem_of_ne_of_mem other there)
Hanging-later e es (suc k) other h = mem-cons_of_mem e h

Step-Course :
    {e : Event} {t u : Process} (es : List Event) → Step e t u → Course es t → Course (e ∷ es) u
Step-Course es (arrive {g} {n} {k}) (p, h) =
    (Phase-later _ es waiting g p, Hanging-later _ es k (λ same. cc) h)
Step-Course es (reply {m} {g} {n} {k}) (p, h) =
    (Phase-later _ es m g p, Hanging-later _ es k (λ same. cc) h)
Step-Course es (hang {m} {g} {n} {k}) (p, h) = (Phase-later _ es m g p, mem-cons_self)
Step-Course es (signal {m = waiting} {n} {k}) (p, h) =
    (mem-cons_self, Hanging-later _ es k (λ same. cc) h)
Step-Course es (signal {m = stopping} {n} {k}) (p, h) = absurd p
Step-Course es (stop {n} {k}) (p, h) = (mem-cons_of_mem _ p, Hanging-later _ es k (λ same. cc) h)
Step-Course es (drain {g = listening}) (p, h) = absurd p
Step-Course es (drain {g = sending}) (p, h) = absurd p
Step-Course es (drain {g = sent}) (p, h) =
    (mem-cons_of_mem _ p, Hanging-later _ es 0 (λ same. cc) h)
Step-Course es fail c = mem-cons_self

Reach-Course : {es : List Event} {u : Process} → Reach (up waiting listening 0 0) es u → Course es u
Reach-Course here = (tt, not-mem-nil)
Reach-Course (next {es = es} r s) = Step-Course es s (Reach-Course r)

-- A process that has ended, and why; one in which a request waits for ever; or one that can still
-- come to a regular end.
abbrev pub Ends : List Event → Process → Type 0
Ends es (up m g n zero) = (more : List Event) × Reach (up m g n zero) more (exited 0)
Ends es (up m g n (suc k)) = Mem hung es
Ends es (exited zero) = Mem signalled es × (¬ Mem hung es)
Ends es (exited (suc zero)) = Mem serve_failed es
Ends es (exited (suc (suc n))) = ⊥

-- A way on from a later state.
first :
    {e : Event} {s t u : Process} {es : List Event}
    → Step e s t
    → Reach t es u
    → (more : List Event) × Reach s more u
first e here = (_, next here e)
first e (next r l) = let (more, q) = first e r in (_, next q l)

behind :
    {e : Event} {s t : Process}
    → Step e s t
    → ((more : List Event) × Reach t more (exited 0))
    → (more : List Event) × Reach s more (exited 0)
behind e (more, r) = first e r

from_stopping : (n : ℕ) → (more : List Event) × Reach (up stopping sent n 0) more (exited 0)
from_stopping zero = (_, next here drain)
from_stopping (suc n) = behind reply (from_stopping n)

from_sending : (n : ℕ) → (more : List Event) × Reach (up waiting sending n 0) more (exited 0)
from_sending n = behind stop (from_stopping n)

from_listening : (n : ℕ) → (more : List Event) × Reach (up waiting listening n 0) more (exited 0)
from_listening n = behind signal (from_sending n)

Course-Ends : (es : List Event) (u : Process) → Course es u → Ends es u
Course-Ends es (up waiting listening n zero) c = from_listening n
Course-Ends es (up waiting sending n zero) c = from_sending n
Course-Ends es (up waiting sent n zero) c = absurd c.0
Course-Ends es (up stopping listening n zero) c = absurd c.0
Course-Ends es (up stopping sending n zero) c = absurd c.0
Course-Ends es (up stopping sent n zero) c = from_stopping n
Course-Ends es (up m g n (suc k)) c = c.1
Course-Ends es (exited zero) c = c
Course-Ends es (exited (suc zero)) c = c
Course-Ends es (exited (suc (suc n))) c = absurd c

-- In every state that the process of the daemon reaches after its set-up, with any requests that
-- arrive, are replied to or come to wait for ever: it has ended with status 0, after a signal and
-- if no request has come to wait for ever, or with status 1, after a failure of Serve; or it still
-- runs, and then a request has come to wait for ever, or it can still end with status 0.
pub process-Ends :
    (es : List Event) (u : Process) → Reach (up waiting listening 0 0) es u → Ends es u
process-Ends es u r = Course-Ends es u (Reach-Course r)
