-- ===== src/Plugin/IpVlan.antt =====
-- pkg/plugin/ipvlan.go: the ipvlan interface of a pod.
use rubble.Prelude.{String, Option, none, some, List, [], ◌∷◌, str_eq, if◌then◌else◌}
use rubble.Prelude.Run.{Error, link_not_found, ns_path_not_exist, plain, Result, success, failure}
use rubble.Prelude.Call.{Call, ◌>>=◌, ◌>>◌, give, crash, act, ask, run, check, wrap, hide}
use rubble.Ipam.{NetConf}
use rubble.Utils.{get_ip_vlan_master, get_ip_vlan_mode, get_ip_vlan_default_route}
use rubble.Plugin.{
  CmdArgs, Interface, IpVlanMode, l2, l3, l3s, RouteConfig, CniResult, Packages, Kernel,
}

abbrev pub default_dst : String
default_dst = "0.0.0.0/0"

unfoldable pub mode_from_string : String → Result IpVlanMode
mode_from_string s =
    if str_eq s ""
    then success l2
    else if str_eq s "l2"
    then success l2
    else if str_eq s "l3"
    then success l3
    else if str_eq s "l3s"
    then success l3s
    else failure (plain "unknown ipvlan mode")

-- DelLinkByName in a TearDown: a link that is gone is no error.
unfoldable pub gone_is_fine : {W : Type 0} → Option Error × W → Option Error × W
gone_is_fine (some link_not_found, w) = (none, w)
gone_is_fine r = r

-- The end of a TearDown: a namespace that is gone is no error.
unfoldable pub ns_gone_is_fine : {W : Type 0} → Option Error × W → Option Error × W
ns_gone_is_fine (some ns_path_not_exist, w) = (none, w)
ns_gone_is_fine r = r

module _ {W Ip Mask : Type 0} (kernel : Kernel W Ip Mask) (packages : Packages Ip Mask) where
  -- ns.WithNetNSPath with the deletion of a link: the namespace is opened and entered.
  unfoldable pub delete_in_ns : String → String → W → Option Error × W
  delete_in_ns net_ns name w = elim (kernel.get_ns w net_ns) [
    | some e ↦ (some e, w)
    | none ↦ elim (kernel.enter w net_ns) [
      | some e ↦ (some e, w)
      | none ↦ gone_is_fine (kernel.del_link_by_name w net_ns name)
    ]
  ]

  -- TearDown of both drivers, for the name of the link.
  unfoldable pub tear_down_link : String → String → Call W (Unit {0})
  tear_down_link net_ns name = do
    hide "failed to open netns" (check (λ w. kernel.get_ns w net_ns))
    act (λ w. ns_gone_is_fine (delete_in_ns net_ns name w))

  unfoldable pub tear_down : CmdArgs → Call W (Unit {0})
  tear_down args = tear_down_link args.net_ns args.if_name

  -- The function that createIPVlan runs in the namespace.
  unfoldable pub rename_slave : CmdArgs → String → Call W Interface
  rename_slave args tmp_name = do
    check (λ w. kernel.enter w args.net_ns)
    wrap "failed to rename ipvlan"
        (act (λ w. kernel.rename_link w args.net_ns tmp_name args.if_name))
    cont_ip_vlan ←
        wrap "failed to refetch ipvlan"
          (ask (λ w. kernel.link_by_name w (some args.net_ns) args.if_name))
    give (record { name = args.if_name; mac = cont_ip_vlan.hardware_addr; sandbox = args.net_ns })

  unfoldable pub create_ip_vlan : CmdArgs → Call W Interface
  create_ip_vlan args = do
    mode ← ask (λ w. mode_from_string (get_ip_vlan_mode args.net_conf))
    m ←
        hide "failed to lookup master"
          (ask (λ w. kernel.link_by_name w none (get_ip_vlan_master args.net_conf)))
    tmp_name ← run kernel.random_veth_name
    hide "failed to create ipvlan" (
        act (λ w. kernel.link_add w (record {
          mtu = args.net_conf.mtu;
          name = tmp_name;
          parent_index = m.index;
          namespace = args.net_ns;
          mode = mode;
        })))
    rename_slave args tmp_name

  -- The routes of the result. ParseCIDR of the constant is checked.
  unfoldable pub default_routes : CmdArgs → NetConf → Result (List (RouteConfig Ip Mask))
  default_routes args conf =
      if get_ip_vlan_default_route args.net_conf
      then (elim (packages.parse_cidr default_dst) [
        | none ↦ failure (plain "failed to add default route with error")
        | some (dst, _, mask) ↦
            success (record { dst = dst; mask = mask; gw = packages.parse_ip conf.gateway_ip } ∷ [])
      ])
      else success []

  -- The mask of the CIDR. The error of ParseCIDR is dropped, and a nil net panics.
  unfoldable pub mask_of : String → Call W Mask
  mask_of cidr = elim (packages.parse_cidr cidr) [ none ↦ crash | some (_, _, mask) ↦ give mask ]

  -- `allocateResult.NetConfs[0]` panics on an empty list.
  unfoldable pub first_conf : List NetConf → Call W NetConf
  first_conf [] = crash
  first_conf (conf ∷ _) = give conf

  unfoldable pub setup : List NetConf → CmdArgs → Call W (CniResult Ip Mask)
  setup net_confs args = do
    hide "failed to open netns" (check (λ w. kernel.get_ns w args.net_ns))
    ip_vlan_slave ← create_ip_vlan args
    conf ← first_conf net_confs
    mask ← mask_of conf.pod_cidr
    routes ← ask (λ w. default_routes args conf)
    let result : CniResult Ip Mask = record {
      cni_version = packages.implemented_spec_version;
      interfaces = ip_vlan_slave ∷ [];
      ips =
          record {
            address = packages.parse_ip conf.pod_ip;
            mask = mask;
            gateway = packages.parse_ip conf.gateway_ip;
          }
          ∷ [];
      routes = routes;
    }
    wrap "failed to configure ip address for ipvlan interface" (do
      check (λ w. kernel.enter w args.net_ns)
      act (λ w. kernel.configure_iface w args.net_ns args.if_name result))
    give result
