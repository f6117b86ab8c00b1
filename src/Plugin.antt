-- ===== src/Plugin.antt =====
-- pkg/plugin: what the drivers of the CNI command share. The kernel, as netlink and the packages of
-- containernetworking show it, is a parameter: a state `W` with the operations that the drivers
-- call. A network namespace is named by its path, and the host's is `none`.
pub mod IpVlan
pub mod Ptp
pub mod Removal
pub mod Addressing
pub mod Tests
use rubble.Prelude.{ℕ, String, Bool, Option, none, some, List}
use rubble.Prelude.Run.{Error, Result}
use rubble.Utils.{NetConf}

-- The fields of K8sArgs and CniCmdArgs that the drivers read.
pub record CmdArgs : Type 0 where
  pub net_conf : NetConf
  pub k8s_service_cidr : String
  pub net_ns : String
  pub if_name : String

pub record Interface : Type 0 where
  pub name : String
  pub mac : String
  pub sandbox : String

pub record Link : Type 0 where
  pub index : ℕ
  pub name : String
  pub hardware_addr : String

-- The three modes of netlink.
pub data IpVlanMode : Type 0 where
  l2 l3 l3s : IpVlanMode

pub record IpVlanLink : Type 0 where
  pub mtu : ℕ
  pub name : String
  pub parent_index : ℕ
  pub namespace : String
  pub mode : IpVlanMode

-- Addresses and masks are values of the package net; a nil address is `none`.
pub record IpConfig (Ip Mask : Type 0) : Type 0 where
  pub address : Option Ip
  pub mask : Mask
  pub gateway : Option Ip

pub record RouteConfig (Ip Mask : Type 0) : Type 0 where
  pub dst : Ip
  pub mask : Mask
  pub gw : Option Ip

pub record CniResult (Ip Mask : Type 0) : Type 0 where
  pub cni_version : String
  pub interfaces : List Interface
  pub ips : List (IpConfig Ip Mask)
  pub routes : List (RouteConfig Ip Mask)

-- A route of the kernel: to one address on the link, or to a net through a gateway, where a nil
-- net is `none`.
pub data Route (Ip Mask : Type 0) : Type 0 where
  to_address : ℕ → Option Ip → Route Ip Mask
  to_net : ℕ → Option (Ip × Mask) → Ip → Route Ip Mask

-- The pure functions of other packages: net.ParseIP and net.ParseCIDR, which answer nil where they
-- fail (the address that ParseCIDR answers, and the net with its mask), and of the CNI types the
-- version that they implement and NewResultFromResult, which answers nil where it fails.
pub record Packages (Ip Mask : Type 0) : Type 0 where
  pub parse_ip : String → Option Ip
  pub parse_cidr : String → Option (Ip × Ip × Mask)
  pub implemented_spec_version : String
  pub new_result_from_result : CniResult Ip Mask → Option (CniResult Ip Mask)

-- An address of an interface, with what the tests of getLinkIpAddrs answer for it.
pub record LinkAddress (Ip : Type 0) : Type 0 where
  pub is_ip_net : Bool
  pub is_loopback : Bool
  pub is_ipv4 : Bool
  pub ip : Ip

-- The calls of the drivers. `get_ns` and `enter` say whether a namespace can be opened and
-- entered; the others run in the namespace that is given.
pub record Kernel (W Ip Mask : Type 0) : Type 0 where
  pub get_ns : W → String → Option Error
  pub enter : W → String → Option Error
  pub random_veth_name : W → Result String × W
  pub link_by_name : W → Option String → String → Result Link
  pub link_add : W → IpVlanLink → Option Error × W
  pub rename_link : W → String → String → String → Option Error × W
  pub link_set_up : W → String → Link → Option Error × W
  pub del_link_by_name : W → String → String → Option Error × W
  pub configure_iface : W → String → String → CniResult Ip Mask → Option Error × W
  pub set_up_veth : W → String → String → ℕ → Result (Link × Link) × W
  pub route_add : W → Option String → Route Ip Mask → Option Error × W
  pub interface_by_name : W → String → Option Error
  pub interface_addrs : W → String → Result (List (LinkAddress Ip))
