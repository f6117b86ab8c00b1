-- ===== src/Neutron/Async/Agreement.antt =====
-- However the goroutines of CreatePort run, it answers what it answers when they run first.
use mathlib.Core.Path.{subst}
use rubble.Prelude.{ℕ, ◌+◌, ◌≤◌, ◌≡◌, refl, sym, ap, ◌∙◌, arith}
use rubble.Prelude.Run.{
  Run, ok, panic, blocked, out_of_fuel, ◌>>=◌, Error, Result, success, failure,
}
use rubble.Resource.{Port}
use rubble.Neutron.{
  ApiPort, ApiSubnet, ApiNetwork, CreateOpts, NetworkService, get_subnet, get_network, delete_port,
  created_port, read_setup, create_port,
}
use rubble.Neutron.Async.{
  Getter, reading, offering, ended, Creator, creating, wants_subnet, wants_network, undoing,
  returned, Creation, at, after_create, after_subnet, after_network, Step, read_subnet,
  read_network, create, receive_subnet, receive_network, undo, Reach, here, next, started,
}

-- A goroutine that will offer `r`, or does so.
abbrev Offers : {A : Type 0} → Result A → Getter A → Type 0
Offers r reading = Unit {0}
Offers r (offering s) = s ≡ r
Offers r ended = ⊥

module _ {W : Type 0} (service : NetworkService W) (opts : CreateOpts) (w₀ : W) where
  abbrev w₁ : W
  w₁ = (service.create_port w₀ opts).1

  abbrev the_subnet : Result ApiSubnet
  the_subnet = get_subnet service w₀ opts.subnet_id

  abbrev the_network : Result (ApiNetwork × ℕ)
  the_network = get_network service w₀ opts.network_id

  -- What is answered in a world, as a call of CreatePort ends.
  abbrev pub answer : Run (Result Port) → W → Run (Result Port × W)
  answer r w = r >>= λ made. ok (made, w)

  -- What holds at each point of CreatePort.
  abbrev Course : Creation W → Type 0
  Course (at w creating g n) = (w ≡ w₀) × Offers the_subnet g × Offers the_network n
  Course (at w (wants_subnet p) g n) =
      (w ≡ w₁)
      × ((service.create_port w₀ opts).0 ≡ success p)
      × Offers the_subnet g
      × Offers the_network n
  Course (at w (wants_network p sb) g n) =
      (w ≡ w₁)
      × ((service.create_port w₀ opts).0 ≡ success p)
      × (the_subnet ≡ success sb)
      × Offers the_network n
  Course (at w (undoing p e) g n) =
      (w ≡ w₁)
      × ((service.create_port w₀ opts).0 ≡ success p)
      × (read_setup service w₀ opts ≡ failure e)
  Course (at w (returned r) g n) = answer r w ≡ create_port service w₀ opts

  subnet-Course :
      (p : ApiPort) (r : Result ApiSubnet) (n : Getter (ApiNetwork × ℕ)) (w : W)
      → w ≡ w₁
      → (service.create_port w₀ opts).0 ≡ success p
      → r ≡ the_subnet
      → Offers the_network n
      → Course (at w (after_subnet p r) ended n)
  unfolding after_subnet read_setup
  subnet-Course p (failure err) n w e made a b = (e, made, rw (sym a, read_setup) refl)
  subnet-Course p (success sb) n w e made a b = (e, made, sym a, b)

  -- The answer does not depend on how its steps are put together.
  answer-bind :
      (made : Run Port) (w : W)
      → answer (made >>= λ np. ok (success np)) w ≡ (made >>= λ np. ok (success np, w))
  answer-bind (ok np) w = refl
  answer-bind panic w = refl
  answer-bind blocked w = refl
  answer-bind out_of_fuel w = refl

  network-Course :
      (p : ApiPort) (sb : ApiSubnet) (r : Result (ApiNetwork × ℕ)) (g : Getter ApiSubnet) (w : W)
      → w ≡ w₁
      → (service.create_port w₀ opts).0 ≡ success p
      → the_subnet ≡ success sb
      → r ≡ the_network
      → Course (at w (after_network opts p sb r) g ended)
  unfolding after_network read_setup create_port
  network-Course p sb (failure err) g w e made a b =
      (e, made, rw (a, read_setup) (rw (sym b, read_setup) refl))
  network-Course p sb (success (network, mtu)) g w e made a b =
      answer-bind (created_port opts p sb mtu) w
      ∙ ap (λ w. created_port opts p sb mtu >>= λ np. ok (success np, w)) e
      ∙ sym (rw (made, create_port) (rw (a, read_setup) (rw (sym b, read_setup) refl)))

  undo-Course :
      (p : ApiPort) (err : Error) (w : W)
      → w ≡ w₁
      → (service.create_port w₀ opts).0 ≡ success p
      → read_setup service w₀ opts ≡ failure err
      → ◌≡◌ {A = Run (Result Port × W)}
          (ok (failure err, (delete_port service w p.id).1))
          (create_port service w₀ opts)
  unfolding create_port
  undo-Course p err w e made failed = rw e (sym (rw (made, create_port) (rw failed refl)))

  -- The actions that are left at most.
  abbrev unread : {A : Type 0} → Getter A → ℕ
  unread reading = 1
  unread _ = 0

  abbrev left_of : Creator → ℕ
  left_of creating = 4
  left_of (wants_subnet p) = 3
  left_of (wants_network p sb) = 2
  left_of (undoing p e) = 1
  left_of (returned r) = 0

  abbrev left : Creation W → ℕ
  left (at w m g n) = left_of m + unread g + unread n

  after_create-left : (r : Result ApiPort) → left_of (after_create r) ≤ 3
  unfolding after_create
  after_create-left (success p) = omega arith
  after_create-left (failure e) = omega arith

  after_subnet-left : (p : ApiPort) (r : Result ApiSubnet) → left_of (after_subnet p r) ≤ 2
  unfolding after_subnet
  after_subnet-left p (success sb) = omega arith
  after_subnet-left p (failure e) = omega arith

  after_network-left :
      (p : ApiPort) (sb : ApiSubnet) (r : Result (ApiNetwork × ℕ))
      → left_of (after_network opts p sb r) ≤ 1
  unfolding after_network
  after_network-left p sb (success (network, mtu)) = omega arith
  after_network-left p sb (failure e) = omega arith

  Step-left : (s t : Creation W) → Step service opts s t → left t + 1 ≤ left s
  Step-left s t read_subnet = omega arith
  Step-left s t read_network = omega arith
  Step-left s t create = omega (arith, after_create-left (service.create_port _ opts).0)
  Step-left s t (receive_subnet {p = p} {r = r}) = omega (arith, after_subnet-left p r)
  Step-left s t (receive_network {p = p} {sb = sb} {r = r}) =
      omega (arith, after_network-left p sb r)
  Step-left s t undo = omega arith

  Reach-left : (n : ℕ) (t : Creation W) → Reach service opts (started w₀) n t → left t + n ≤ 6
  Reach-left n t here = omega arith
  Reach-left n u (next {n = k} {t = t} r s) = omega (arith, Reach-left k t r, Step-left t u s)

  -- CreatePort has answered as it does in one thread, or it can go on.
  abbrev pub Agrees : Creation W → Type 0
  Agrees (at w (returned r) g n) = answer r w ≡ create_port service w₀ opts
  Agrees (at w m g n) = (u : Creation W) × Step service opts (at w m g n) u

  Course-Agrees : (t : Creation W) → Course t → Agrees t
  Course-Agrees (at w creating g n) c = (_, create)
  Course-Agrees (at w (wants_subnet p) reading n) c = (_, read_subnet)
  Course-Agrees (at w (wants_subnet p) (offering r) n) c = (_, receive_subnet)
  Course-Agrees (at w (wants_subnet p) ended n) (e, made, a, b) = absurd a
  Course-Agrees (at w (wants_network p sb) g reading) c = (_, read_network)
  Course-Agrees (at w (wants_network p sb) g (offering r)) c = (_, receive_network)
  Course-Agrees (at w (wants_network p sb) g ended) (e, made, a, b) = absurd b
  Course-Agrees (at w (undoing p e) g n) c = (_, undo)
  Course-Agrees (at w (returned r) g n) c = c

  module _ (same_subnet : get_subnet service w₁ opts.subnet_id ≡ the_subnet)
      (same_network : get_network service w₁ opts.network_id ≡ the_network) where
    create-Course :
        (r : Result ApiPort) (g : Getter ApiSubnet) (n : Getter (ApiNetwork × ℕ))
        → (service.create_port w₀ opts).0 ≡ r
        → Offers the_subnet g
        → Offers the_network n
        → Course (at w₁ (after_create r) g n)
    unfolding after_create create_port
    create-Course (failure e) g n made a b = rw (made, create_port) refl
    create-Course (success p) g n made a b = (refl, made, a, b)

    Step-Course : (s t : Creation W) → Step service opts s t → Course s → Course t
    Step-Course s t (read_subnet {w = w} {m = creating}) (e, a, b) =
        (e, ap (λ w. get_subnet service w opts.subnet_id) e, b)
    Step-Course s t (read_subnet {m = wants_subnet p}) (e, made, a, b) =
        (e, made, ap (λ w. get_subnet service w opts.subnet_id) e ∙ same_subnet, b)
    Step-Course s t (read_subnet {m = wants_network p sb}) c = c
    Step-Course s t (read_subnet {m = undoing p e}) c = c
    Step-Course s t (read_subnet {m = returned r}) c = c
    Step-Course s t (read_network {m = creating}) (e, a, b) =
        (e, a, ap (λ w. get_network service w opts.network_id) e)
    Step-Course s t (read_network {m = wants_subnet p}) (e, made, a, b) =
        (e, made, a, ap (λ w. get_network service w opts.network_id) e ∙ same_network)
    Step-Course s t (read_network {m = wants_network p sb}) (e, made, a, b) =
        (e, made, a, ap (λ w. get_network service w opts.network_id) e ∙ same_network)
    Step-Course s t (read_network {m = undoing p e}) c = c
    Step-Course s t (read_network {m = returned r}) c = c
    Step-Course s t (create {g = g} {n = n}) (e, a, b) =
        subst
          (λ w.
            Course
              (at (service.create_port w opts).1 (after_create (service.create_port w opts).0) g n))
          (sym e) (create-Course _ g n refl a b)
    Step-Course s t (receive_subnet {w = w} {p = p} {r = r} {n = n}) (e, made, a, b) =
        subnet-Course p r n w e made a b
    Step-Course s t (receive_network {w = w} {p = p} {sb = sb} {g = g} {r = r}) (e, made, a, b) =
        network-Course p sb r g w e made a b
    Step-Course s t (undo {w = w} {p = p} {e = err}) (e, made, failed) =
        undo-Course p err w e made failed

    Reach-Course : (n : ℕ) (t : Creation W) → Reach service opts (started w₀) n t → Course t
    Reach-Course n t here = (refl, tt, tt)
    Reach-Course n u (next {t = t} r s) = Step-Course t u s (Reach-Course _ t r)

    -- However the goroutines of CreatePort and the request for the port take turns, when the
    -- creation of a port does not change what is read of its subnet and of its network: after no
    -- more than six actions in all, CreatePort has answered what it answers when both are read
    -- first, in the same state of the service, or another action is possible.
    pub Reach-Agrees :
        (n : ℕ) (t : Creation W) → Reach service opts (started w₀) n t → (n ≤ 6) × Agrees t
    Reach-Agrees n t r = (omega (arith, Reach-left n t r), Course-Agrees t (Reach-Course n t r))
