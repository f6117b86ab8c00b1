-- ===== src/Resource.antt =====
-- pkg/neutron/port.go (Port), pkg/utils/types.go (NetworkResource) and the methods of PortResource
-- in pkg/ipam/port.go. PortResource is the only type of the program with the methods of
-- NetworkResource, so a network resource is one.
use rubble.Prelude.{ℕ, String, List}

pub record Port : Type 0 where
  pub name : String
  pub id : String
  pub subnet_id : String
  pub mac : String
  pub ip : String
  pub cidr : String
  pub gateway : String
  pub mtu : ℕ
  pub sgs : List String

pub record PortResource : Type 0 where
  pub port : Port

abbrev pub NetworkResource : Type 0
NetworkResource = PortResource

abbrev pub resource_type_multiple_ip : String
resource_type_multiple_ip = "PortMultipleIp"

abbrev pub get_resource_id : PortResource → String
get_resource_id p = p.port.id

abbrev pub get_type : PortResource → String
get_type p = resource_type_multiple_ip

abbrev pub get_ip_address : PortResource → String
get_ip_address p = p.port.ip
