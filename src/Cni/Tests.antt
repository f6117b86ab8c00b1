-- ===== src/Cni/Tests.antt =====
-- The commands with a daemon that answers one address.
use rubble.Prelude.{ℕ, String, Bool, true, false, ◌≡◌, refl, none, some, [], ◌∷◌}
use rubble.Prelude.Bytes.{codes}
use rubble.Prelude.Run.{ok, plain, wrapped, external, success, failure}
use rubble.Prelude.Call.{and_then, acted, behind, hidden}
use rubble.Prelude.Outcomes.{Ends}
use rubble.Utils.{bytes_eq, NetConf as CniConf}
use rubble.Utils
use rubble.Resource.{PortResource}
use rubble.Ipam.{net_conf_from_port}
use rubble.Plugin.IpVlan
use rubble.Plugin.Ptp
use rubble.Plugin.{CniResult}
use rubble.Plugin.Tests.{one_link, packages}
use rubble.Plugin.Addressing.{Addressed}
use rubble.Cni.Args.{
  K8sArgs, parse_value_from_args, find_value, split, cut, after_prefix, get_k8s_args,
}
use rubble.Cni.Parse.{cni_args, parse_value_from_args-first_value}
use rubble.Cni.Commands.{
  SkelArgs, CniCmdArgs, AllocateIpReply, Backend, load_net_conf, get_cmd_args, get_rubble_client,
  allocate_request, release_request, do_cmd_add, cmd_add, cmd_del,
}
use rubble.Cni.Deletion.{command_args, cmd_del-NotOpened}
use rubble.Cni.Setup.{FromPort, do_cmd_add-Addressed, cmd_add-Ends}

abbrev conf : CniConf
conf = record { cni_version = "1.0.0"; master = ""; mode = ""; mtu = 1500; default_route = false }

abbrev port : PortResource
port = record {
  port = record {
    name = "p";
    id = "1";
    subnet_id = "s";
    mac = "02:01";
    ip = "10.0.0.5";
    cidr = "10.0.0.0/24";
    gateway = "10.0.0.254";
    mtu = 1500;
    sgs = [];
  };
}

abbrev reply : AllocateIpReply
reply = record {
  is_success = true;
  net_confs =
      record {
        pod_ip = "10.0.0.5";
        pod_cidr = "10.0.0.0/24";
        gateway_ip = "10.0.0.254";
        mac = "02:01";
      }
      ∷ [];
}

abbrev daemon : Backend Bool String ℕ String
daemon = record {
  dial_context = λ w. none;
  allocate_ip = λ w request. (success reply, w);
  release_ip = λ w request. (success false, w);
  unmarshal = λ bytes. success conf;
  open_file = λ path w. (none, w);
  print_result = λ w result version. (none, w);
}

abbrev k8s : K8sArgs
k8s = record {
  k8s_pod_name = codes "web-0";
  k8s_pod_namespace = codes "shop";
  k8s_infra_container_id = "c1";
}

abbrev skel_args : String → SkelArgs String
skel_args net_ns = record {
  container_id = "c1";
  net_ns = net_ns;
  if_name = "eth0";
  args = codes "K8S_POD_NAMESPACE=shop;K8S_POD_NAME=web-0";
  stdin_data = "{}";
}

-- A key without a value before the key with one, and the error of a key that is missing.
parse_value_from_args-first_value_example :
    parse_value_from_args (codes "A") (cni_args (codes "A", []) ((codes "A", codes "b=c") ∷ []))
    ≡ success (codes "b=c")
unfolding bytes_eq
parse_value_from_args-first_value_example =
    parse_value_from_args-first_value (codes "A") (codes "A", []) ((codes "A", codes "b=c") ∷ [])
      (refl, tt)
      ((refl, tt), (refl, tt), tt, ((refl, tt), (refl, tt), (refl, (refl, (refl, tt))), tt))

named : get_k8s_args (codes "K8S_POD_NAMESPACE=shop;K8S_POD_NAME=web-0") "c1" ≡ success k8s
unfolding get_k8s_args parse_value_from_args find_value split cut after_prefix
named = refl

cmd_del-NotOpened_example :
    cmd_del one_link packages daemon (skel_args "") true
    ≡ ok (
      failure (wrapped "failed to teardown ptp veth with error" (plain "failed to open netns")),
      true,
    )
cmd_del-NotOpened_example =
    cmd_del-NotOpened one_link packages daemon (skel_args "") conf k8s true
      (external "no such file") refl named refl

-- The reply to the release is one without success.
deleted : cmd_del one_link packages daemon (skel_args "ns") true ≡ ok (success tt, false)
unfolding cmd_del and_then get_cmd_args load_net_conf hidden get_k8s_args parse_value_from_args
    find_value split cut after_prefix behind acted get_rubble_client release_request Ptp.tear_down
    IpVlan.tear_down IpVlan.tear_down_link IpVlan.ns_gone_is_fine IpVlan.delete_in_ns
    IpVlan.gone_is_fine
deleted = refl

abbrev result : CniResult String ℕ
result = record {
  cni_version = "1.0.0";
  interfaces = record { name = "eth0"; mac = "02:00"; sandbox = "ns" } ∷ [];
  ips = record { address = some "10.0.0.5"; mask = 24; gateway = some "10.0.0.254" } ∷ [];
  routes = record { dst = "0.0.0.0/0"; mask = 24; gw = some "10.0.0.254" } ∷ [];
}

abbrev add_args : CniCmdArgs
add_args = command_args one_link packages daemon (skel_args "ns") conf k8s

added : do_cmd_add one_link packages daemon add_args false ≡ ok (success result, true)
unfolding do_cmd_add and_then hidden behind acted allocate_request IpVlan.setup
    IpVlan.create_ip_vlan IpVlan.rename_slave IpVlan.default_routes IpVlan.mask_of IpVlan.first_conf
    IpVlan.mode_from_string Ptp.setup Ptp.setup_pair Ptp.setup_container_veth Ptp.setup_host_veth
    Ptp.get_link_ip_addrs Ptp.first_address Ptp.veth_in_ns Ptp.pod_routes Ptp.add_routes
    Ptp.parse_ip_net Utils.get_ip_vlan_mode Utils.get_ip_vlan_master Utils.get_service_cidr
    Utils.get_ip_vlan_default_route
added = refl

do_cmd_add-Addressed_example :
    (answer : AllocateIpReply) × (w₁ : Bool) × (daemon.allocate_ip false
        (allocate_request one_link packages daemon add_args)
      ≡ (success answer, w₁))
    × Addressed one_link packages answer.net_confs result
do_cmd_add-Addressed_example =
    do_cmd_add-Addressed one_link packages daemon (λ r. refl) add_args false true result added

from_port :
    (w : Bool) (args : CniCmdArgs) (answer : AllocateIpReply) (w₁ : Bool)
    → daemon.allocate_ip w (allocate_request one_link packages daemon args) ≡ (success answer, w₁)
    → FromPort one_link packages daemon (λ r. refl) answer
unfolding net_conf_from_port
from_port w args answer w₁ h = (port, ("10.0.0.0/24", "10.0.0.0/24", 24), cc, refl)

cmd_add-Ends_example : Ends (cmd_add one_link packages daemon (skel_args "ns") false)
cmd_add-Ends_example =
    cmd_add-Ends one_link packages daemon (λ r. refl) from_port (skel_args "ns") false
