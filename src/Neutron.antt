-- ===== src/Neutron.antt =====
-- pkg/neutron: the client's operations on ports, subnets and networks. The service itself (the
-- calls of gophercloud) is a parameter; its records have the fields that the client reads.
pub mod Ports
pub mod Lookup
pub mod Binding
pub mod Client
pub mod Async
mod AsyncTests
pub mod Tests
use rubble.Prelude.{
  ℕ, String, Bool, true, false, Option, none, some, List, [], ◌∷◌, str_eq, if◌then◌else◌, ◌==◌,
}
use rubble.Prelude.Run.{Run, ok, panic, ◌>>=◌, Error, plain, Result, success, failure}
use rubble.Prelude.Assoc.{lookup, insert, delete}
use rubble.Resource.{Port}
use rubble.Utils.Uuid.{is_valid_uuid}

-- ports.Port, with the addresses of its fixed IPs.
pub record ApiPort : Type 0 where
  pub name : String
  pub id : String
  pub mac_address : String
  pub fixed_ips : List String
  pub security_groups : List String

-- subnets.Subnet and networks.Network
pub record ApiSubnet : Type 0 where
  pub id : String
  pub name : String
  pub cidr : String
  pub gateway_ip : String

pub record ApiNetwork : Type 0 where
  pub id : String
  pub name : String

-- CreateOpts and ListFilter
pub record CreateOpts : Type 0 where
  pub name : String
  pub network_id : String
  pub subnet_id : String
  pub ip_address : String
  pub device_owner : String

pub record ListFilter : Type 0 where
  pub network_id : String
  pub device_owner : String
  pub tags : String

-- What gophercloud does: requests that change the service's state `W` and requests that read it.
-- A list is read page by page; the list of networks for the MTU is read with its ids.
pub record NetworkService (W : Type 0) : Type 0 where
  pub create_port : W → CreateOpts → Result ApiPort × W
  pub delete_port : W → String → Option Error × W
  pub add_tag : W → String → String → String → Option Error × W
  pub port_pages : W → ListFilter → List (Result (List ApiPort))
  pub get_subnet : W → String → Result ApiSubnet
  pub get_network : W → String → Result ApiNetwork
  pub network_mtus : W → String → Result (List (String × ℕ))
  pub all_subnets : W → List ApiSubnet
  pub all_networks : W → List ApiNetwork

-- The loop of getNetwork over the networks listed; 0 stands for none.
unfoldable pub find_mtu : String → List (String × ℕ) → ℕ
find_mtu id [] = 0
find_mtu id ((known, mtu) ∷ rest) = if str_eq known id then mtu else find_mtu id rest

-- The loops of GetSubnetworkID and GetNetworkID; "" stands for none.
unfoldable pub find_subnet : String → List ApiSubnet → String
find_subnet name [] = ""
find_subnet name (net ∷ rest) = if str_eq net.name name then net.id else find_subnet name rest

unfoldable pub find_network : String → List ApiNetwork → String
find_network name [] = ""
find_network name (network ∷ rest) =
    if str_eq network.name name then network.id else find_network name rest

-- The callback of EachPage in ListPortWithFilter, over the pages: `actual` is assigned anew.
unfoldable pub each_page : List ApiPort → List (Result (List ApiPort)) → Result (List ApiPort)
each_page actual [] = success actual
each_page actual (failure e ∷ pages) = failure e
each_page actual (success found ∷ pages) = each_page found pages

-- ConvertPort. FixedIPs[0] panics on a port without address.
unfoldable pub convert_port : ApiSubnet → ApiPort → Run Port
convert_port subnet port = elim port.fixed_ips [
  | [] ↦ panic
  | ip ∷ _ ↦ ok (record {
    name = port.name;
    id = port.id;
    subnet_id = "";
    mac = port.mac_address;
    ip = ip;
    cidr = subnet.cidr;
    gateway = subnet.gateway_ip;
    mtu = 0;
    sgs = port.security_groups;
  })
]

-- The value of CreatePort.
unfoldable pub created_port : CreateOpts → ApiPort → ApiSubnet → ℕ → Run Port
created_port opts p sb mtu = elim p.fixed_ips [
  | [] ↦ panic
  | ip ∷ _ ↦ ok (record {
    name = p.name;
    id = p.id;
    subnet_id = opts.subnet_id;
    mac = p.mac_address;
    ip = ip;
    cidr = sb.cidr;
    gateway = sb.gateway_ip;
    mtu = mtu;
    sgs = p.security_groups;
  })
]

module _ {W : Type 0} (service : NetworkService W) where
  unfoldable pub delete_port : W → String → Option Error × W
  delete_port w id = service.delete_port w id

  unfoldable pub add_tag : W → String → String → String → Option Error × W
  add_tag w resource_type resource_id tag = service.add_tag w resource_type resource_id tag

  unfoldable pub get_subnet : W → String → Result ApiSubnet
  get_subnet w id = service.get_subnet w id

  unfoldable pub get_network : W → String → Result (ApiNetwork × ℕ)
  get_network w id = elim (service.network_mtus w id) [
    | failure e ↦ failure e
    | success actual ↦
        let mtu = find_mtu id actual in
        if mtu == 0
        then failure (plain "mtu not found for network")
        else elim (service.get_network w id) [
          | failure e ↦ failure e
          | success n ↦ success (n, mtu)
        ]
  ]

  -- ListSubnetworks and ListNetworks drop the errors of the service, so they answer none.
  unfoldable pub list_subnetworks : W → Result (List ApiSubnet)
  list_subnetworks w = success (service.all_subnets w)

  unfoldable pub list_networks : W → Result (List ApiNetwork)
  list_networks w = success (service.all_networks w)

  unfoldable pub get_subnetwork_id : W → String → Result String
  get_subnetwork_id w name =
      if is_valid_uuid name then success name else elim (list_subnetworks w) [
        | failure e ↦ failure e
        | success subnets ↦ success (find_subnet name subnets)
      ]

  unfoldable pub get_network_id : W → String → Result String
  get_network_id w name = if is_valid_uuid name then success name else elim (list_networks w) [
    | failure e ↦ failure e
    | success networks ↦ success (find_network name networks)
  ]

  unfoldable pub list_port_with_filter : W → ListFilter → Result (List ApiPort)
  list_port_with_filter w filter = each_page [] (service.port_pages w filter)

  -- What the goroutines of CreatePort read: the subnet, and the network's MTU.
  unfoldable pub read_setup : W → CreateOpts → Result (ApiSubnet × ℕ)
  read_setup w opts = elim (get_subnet w opts.subnet_id) [
    | failure e ↦ failure e
    | success sb ↦ elim (get_network w opts.network_id) [
      | failure e ↦ failure e
      | success (_, mtu) ↦ success (sb, mtu)
    ]
  ]

  -- The reads run beside the request that creates the port; here they come before it. On an error
  -- after that request, the deferred DeletePort removes the port, and its own error is dropped.
  unfoldable pub create_port : W → CreateOpts → Run (Result Port × W)
  create_port w opts =
      let (made, w₁) = service.create_port w opts in
      elim made [
        | failure e ↦ ok (failure e, w₁)
        | success p ↦ elim (read_setup w opts) [
          | failure e ↦ ok (failure e, (delete_port w₁ p.id).1)
          | success (sb, mtu) ↦ (do np ← created_port opts p sb mtu; ok (success np, w₁))
        ]
      ]

-- The memory of port ids: the copies of a client share the map, and each call holds its lock.
unfoldable pub remember_port_id : String → String → List (String × String) → List (String × String)
remember_port_id key id port_ids = insert key id port_ids

unfoldable pub forget_port_id : String → List (String × String) → List (String × String)
forget_port_id key port_ids = delete key port_ids

unfoldable pub pod_to_port_id : String → List (String × String) → Option String
pod_to_port_id key port_ids = lookup key port_ids
