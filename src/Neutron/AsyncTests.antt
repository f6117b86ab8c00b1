-- ===== src/Neutron/AsyncTests.antt =====
-- A CreatePort whose subnet is read after the port was created, and one that is refused.
use rubble.Prelude.{false, true, refl, ◌≤◌}
use rubble.Prelude.Run.{success, failure, external}
use rubble.Neutron.{get_subnet, get_network, find_mtu}
use rubble.Neutron.Tests.{one_port, opts, subnet, api_port}
use rubble.Neutron.Async.{
  at, started, wants_network, ended, reading, offering, Reach, here, next, create, read_subnet,
  receive_subnet, after_create, after_subnet,
}
use rubble.Neutron.Async.Agreement.{Agrees, Reach-Agrees}
use rubble.Neutron.Async.Leak.{BothWait, refused-BothWait}

late :
    Reach one_port opts
      (started false)
      3
      (at true (wants_network (api_port "p-1" "10.0.0.5") subnet) ended reading)
unfolding after_create after_subnet get_subnet
late = next (next (next here create) read_subnet) receive_subnet

Reach-Agrees_example :
    (3 ≤ 6)
    × Agrees one_port opts false
        (at true (wants_network (api_port "p-1" "10.0.0.5") subnet) ended reading)
unfolding get_subnet get_network find_mtu
Reach-Agrees_example = Reach-Agrees one_port opts false refl refl 3 _ late

-- The port exists already, and the quota is one.
left_behind :
    Reach one_port opts
      (started true)
      2
      (at true (after_create (failure (external "quota"))) (offering (success subnet)) reading)
unfolding get_subnet
left_behind = next (next here read_subnet) create

refused-BothWait_example :
    BothWait one_port opts true
      (external "quota")
      refl
      (at true (after_create (failure (external "quota"))) (offering (success subnet)) reading)
refused-BothWait_example =
    refused-BothWait one_port opts true (external "quota") refl 2 _ left_behind
