-- ===== src/Plugin/Ptp.antt =====
-- pkg/plugin/ptp.go: the veth pair between a pod and its host.
use rubble.Prelude.{String, not, ◌&&◌, Option, none, some, List, [], ◌∷◌, if◌then◌else◌}
use rubble.Prelude.Run.{plain, Result, success, failure}
use rubble.Prelude.Call.{Call, ◌>>=◌, ◌>>◌, give, fail, crash, act, ask, run, check, wrap, hide}
use rubble.Utils.{get_ip_vlan_master, get_service_cidr}
use rubble.Plugin.{
  CmdArgs, Interface, Link, IpConfig, CniResult, LinkAddress, Route, to_address, to_net, Packages,
  Kernel,
}
use rubble.Plugin.IpVlan.{tear_down_link}

abbrev pub default_container_veth_name : String
default_container_veth_name = "veth0"

-- The loop of getLinkIpAddrs.
unfoldable pub first_address : {Ip : Type 0} → List (LinkAddress Ip) → Result Ip
first_address [] = failure (plain "no ipaddress found for interface")
first_address (addr ∷ addrs) =
    if addr.is_ip_net && not addr.is_loopback && addr.is_ipv4
    then success addr.ip
    else first_address addrs

module _ {W Ip Mask : Type 0} (kernel : Kernel W Ip Mask) (packages : Packages Ip Mask) where
  unfoldable pub get_link_ip_addrs : String → Call W Ip
  get_link_ip_addrs name = do
    wrap "failed to get ip vlan master" (check (λ w. kernel.interface_by_name w name))
    addrs ← wrap "failed to get addresses for interface" (ask (λ w. kernel.interface_addrs w name))
    ask (λ w. first_address addrs)

  -- netlink.ParseIPNet answers the address with the mask, or nil where the text is no CIDR.
  unfoldable pub parse_ip_net : String → Option (Ip × Mask)
  parse_ip_net s = elim (packages.parse_cidr s) [
    | none ↦ none
    | some (ip, _, mask) ↦ some (ip, mask)
  ]

  -- The routes of a pod: to the node over the link, and to the services through the node.
  unfoldable pub pod_routes : CmdArgs → Link → Ip → List (Route Ip Mask)
  pod_routes args cont_veth node_gw =
      to_address cont_veth.index (some node_gw)
      ∷ to_net cont_veth.index (parse_ip_net (get_service_cidr args.k8s_service_cidr)) node_gw
      ∷ []

  unfoldable pub add_routes : String → List (Route Ip Mask) → Call W (Unit {0})
  add_routes net_ns [] = give tt
  add_routes net_ns (route ∷ routes) = do
    wrap "failed to add route" (act (λ w. kernel.route_add w (some net_ns) route))
    add_routes net_ns routes

  -- The function that setupContainerVeth runs in the namespace.
  unfoldable pub veth_in_ns : String → CmdArgs → Ip → Call W (Interface × Interface)
  veth_in_ns if_name args node_gw = do
    check (λ w. kernel.enter w args.net_ns)
    (host_veth, cont_veth₀) ← run (λ w. kernel.set_up_veth w args.net_ns if_name args.net_conf.mtu)
    cont_veth ←
        hide "failed to get link" (ask (λ w. kernel.link_by_name w (some args.net_ns) if_name))
    hide "failed to set link up" (act (λ w. kernel.link_set_up w args.net_ns cont_veth))
    add_routes args.net_ns (pod_routes args cont_veth node_gw)
    give (
      record { name = host_veth.name; mac = host_veth.hardware_addr; sandbox = "" },
      record { name = cont_veth₀.name; mac = cont_veth₀.hardware_addr; sandbox = args.net_ns },
    )

  unfoldable pub setup_container_veth : String → CmdArgs → Call W (Interface × Interface)
  setup_container_veth if_name args = do
    node_gw ←
        wrap "failed to get node gateway with error"
          (get_link_ip_addrs (get_ip_vlan_master args.net_conf))
    veth_in_ns if_name args node_gw

  unfoldable pub setup_host_veth : String → IpConfig Ip Mask → Call W (Unit {0})
  setup_host_veth veth_name ip = do
    host_veth ← hide "failed to get link" (ask (λ w. kernel.link_by_name w none veth_name))
    wrap "failed to add route on host"
        (act (λ w. kernel.route_add w none (to_address host_veth.index ip.address)))

  -- Setup on a result with the address `ip`.
  unfoldable pub setup_pair :
      CniResult Ip Mask → IpConfig Ip Mask → CmdArgs → Call W (CniResult Ip Mask)
  setup_pair result ip args = do
    hide "failed to open netns" (check (λ w. kernel.get_ns w args.net_ns))
    (host_interface, _) ←
        wrap "failed to create veth with error"
          (setup_container_veth default_container_veth_name args)
    wrap "failed to setup veth pair on host with error" (setup_host_veth host_interface.name ip)
    give result

  -- The error of the conversion is dropped, and a nil result panics.
  unfoldable pub setup : CniResult Ip Mask → CmdArgs → Call W (CniResult Ip Mask)
  setup pre args = elim (packages.new_result_from_result pre) [
    | none ↦ crash
    | some result ↦ elim result.ips [
      | [] ↦ fail (plain "missing IP config")
      | ip ∷ _ ↦ setup_pair result ip args
    ]
  ]

  unfoldable pub tear_down : CmdArgs → Call W (Unit {0})
  tear_down args = tear_down_link kernel packages args.net_ns default_container_veth_name
