-- ===== src/Neutron/Async/Leak.antt =====
-- The goroutines that a CreatePort leaves behind when Neutron refuses the port.
use rubble.Prelude.{ℕ, ◌≡◌, refl, ap, ◌∙◌}
use rubble.Prelude.Run.{Error, failure}
use rubble.Neutron.{CreateOpts, NetworkService}
use rubble.Neutron.Async.{
  Getter, ended, creating, wants_subnet, wants_network, undoing, returned, Creation, at,
  after_create, Step, read_subnet, read_network, create, receive_subnet, receive_network, undo,
  Reach, here, next, started,
}

-- A goroutine that has not ended.
abbrev pub Waits : {A : Type 0} → Getter A → Type 0
Waits ended = ⊥
Waits _ = Unit {0}

module _ {W : Type 0} (service : NetworkService W) (opts : CreateOpts) (w₀ : W) (e : Error)
    (refused : (service.create_port w₀ opts).0 ≡ failure e) where
  abbrev Course : Creation W → Type 0
  Course (at w creating g n) = (w ≡ w₀) × Waits g × Waits n
  Course (at w (returned r) g n) = Waits g × Waits n
  Course _ = ⊥

  Step-Course : (s t : Creation W) → Step service opts s t → Course s → Course t
  unfolding after_create
  Step-Course s t (read_subnet {m = creating}) (same, a, b) = (same, tt, b)
  Step-Course s t (read_subnet {m = wants_subnet p}) c = absurd c
  Step-Course s t (read_subnet {m = wants_network p sb}) c = absurd c
  Step-Course s t (read_subnet {m = undoing p err}) c = absurd c
  Step-Course s t (read_subnet {m = returned r}) (a, b) = (tt, b)
  Step-Course s t (read_network {m = creating}) (same, a, b) = (same, a, tt)
  Step-Course s t (read_network {m = wants_subnet p}) c = absurd c
  Step-Course s t (read_network {m = wants_network p sb}) c = absurd c
  Step-Course s t (read_network {m = undoing p err}) c = absurd c
  Step-Course s t (read_network {m = returned r}) (a, b) = (a, tt)
  Step-Course s t (create {w = w} {g = g} {n = n}) (same, a, b) =
      rw (ap (λ w. (service.create_port w opts).0) same ∙ refused) (a, b)
  Step-Course s t receive_subnet c = absurd c
  Step-Course s t receive_network c = absurd c
  Step-Course s t undo c = absurd c

  Reach-Course : (k : ℕ) (t : Creation W) → Reach service opts (started w₀) k t → Course t
  Reach-Course k t here = (refl, tt, tt)
  Reach-Course k u (next {t = t} r s) = Step-Course t u s (Reach-Course _ t r)

  abbrev pub BothWait : Creation W → Type 0
  BothWait (at w m g n) = Waits g × Waits n

  Course-BothWait : (t : Creation W) → Course t → BothWait t
  Course-BothWait (at w creating g n) (same, a, b) = (a, b)
  Course-BothWait (at w (wants_subnet p) g n) c = absurd c
  Course-BothWait (at w (wants_network p sb) g n) c = absurd c
  Course-BothWait (at w (undoing p err) g n) c = absurd c
  Course-BothWait (at w (returned r) g n) c = c

  -- When Neutron refuses the port, neither goroutine of CreatePort ever ends, whatever happens and
  -- also after CreatePort has returned.
  pub refused-BothWait : (k : ℕ) (t : Creation W) → Reach service opts (started w₀) k t → BothWait t
  refused-BothWait k t r = Course-BothWait t (Reach-Course k t r)
