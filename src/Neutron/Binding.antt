-- ===== src/Neutron/Binding.antt =====
-- pkg/neutron/port.go: the ports of floating addresses, the binding of a port to a host, and the
-- wait until a port is active.
use rubble.Prelude.{
  ℕ, zero, suc, ◌<◌, ◌≡◌, ap, ◌∙◌, inl, inr, String, Bool, true, false, Option, none, some, List,
  [], ◌∷◌, str_eq, eq_iff, ltb, ltb→lt, lt→ltb, if◌then◌else◌, Bool-cases,
}
use rubble.Prelude.Run.{
  Run, ok, out_of_fuel, Error, plain, Result, success, failure, Result-cases, Returns, returns,
}
use rubble.Neutron.{ApiPort, CreateOpts}

abbrev pub fip_device_owner : String
fip_device_owner = "network:kubernetes-pod"

abbrev pub compute_device_owner : String
compute_device_owner = "compute:rubble"

-- A page of a list: its ports, or a page that was fetched and cannot be read, or one that cannot be
-- fetched, which ends the list.
pub data Page : Type 0 where
  extracted : List ApiPort → Page
  not_extracted not_fetched : Error → Page

pub record Binding : Type 0 where
  pub device_owner : String
  pub device_id : String
  pub host_id : String
  pub vnic_type : String

-- The requests of gophercloud, and the ticker of two seconds: `tick` waits for its next tick, and
-- `elapsed` is the time since the start. The timeout has the same unit.
pub record PortService (W : Type 0) : Type 0 where
  pub create_port : W → CreateOpts → Result ApiPort × W
  pub delete_port : W → String → Option Error × W
  pub pages : W → String → List Page
  pub update_port : W → String → Binding → Option Error × W
  pub port_status : W → String → Result String
  pub tick : W → W
  pub elapsed : W → ℕ

-- EachPage with the callback that assigns `actual` anew: the ports and the error in the end. A page
-- that cannot be read has no ports.
unfoldable pub read_pages : List ApiPort → List Page → List ApiPort × Option Error
read_pages actual [] = (actual, none)
read_pages actual (extracted found ∷ pages) = read_pages found pages
read_pages actual (not_extracted e ∷ pages) = ([], some e)
read_pages actual (not_fetched e ∷ pages) = (actual, some e)

unfoldable pub has_address : String → List String → Bool
has_address address [] = false
has_address address (ip ∷ ips) = if str_eq ip address then true else has_address address ips

-- The first port with the address.
unfoldable pub with_address : String → List ApiPort → Option ApiPort
with_address address [] = none
with_address address (p ∷ ports) =
    if has_address address p.fixed_ips then some p else with_address address ports

module _ {W : Type 0} (service : PortService W) where
  unfoldable pub list_port_with_network_id : W → String → List ApiPort × Option Error
  list_port_with_network_id w network_id = read_pages [] (service.pages w network_id)

  unfoldable pub create_port_with_fip : W → String → String → Result ApiPort × W
  create_port_with_fip w network_id floatingip = service.create_port w (record {
    name = "";
    network_id = network_id;
    subnet_id = "";
    ip_address = floatingip;
    device_owner = fip_device_owner;
  })

  -- The error of the list is not looked at.
  unfoldable pub delete_port_with_fip : W → String → String → Option Error × W
  delete_port_with_fip w network_id floatingip =
      elim (with_address floatingip (read_pages [] (service.pages w network_id)).0) [
        | some p ↦ service.delete_port w p.id
        | none ↦ (some (plain "delete port failed, err: not found"), w)
      ]

  unfoldable pub bind_port_to_host : W → String → String → String → Option Error × W
  bind_port_to_host w id host_id device_id = service.update_port w id (record {
    device_owner = compute_device_owner;
    device_id = device_id;
    host_id = host_id;
    vnic_type = "normal";
  })

  -- The loop of WaitPortActive over the ticks. An error of the request for the port is not looked at.
  unfoldable pub wait_port_active : ℕ → W → String → ℕ → Run (Option Error × W)
  wait_port_active zero w id timeout = out_of_fuel
  wait_port_active (suc fuel) w id timeout =
      let next = service.tick w in
      let rest = wait_port_active fuel next id timeout in
      if ltb timeout (service.elapsed next)
      then ok (some (plain "waiting port become ACTIVE timeout out"), next)
      else elim (service.port_status next id) [
        | failure e ↦ rest
        | success status ↦ if str_eq status "ACTIVE" then ok (none, next) else rest
      ]

  -- The world after some ticks.
  abbrev pub ticks : ℕ → W → W
  ticks zero w = w
  ticks (suc n) w = ticks n (service.tick w)

  -- How the wait ends: the port was seen active, or the time was over.
  abbrev pub Waited : String → ℕ → Option Error × W → Type 0
  Waited id timeout (none, v) = service.port_status v id ≡ success "ACTIVE"
  Waited id timeout (some e, v) = timeout < service.elapsed v

  -- If more time than the timeout has gone by after some number of ticks, WaitPortActive returns
  -- within that number of ticks, whatever the requests for the port answer; without an error the port
  -- was active at the last tick, and with one the time was over.
  pub wait_port_active-Waited :
      (n : ℕ) (w : W) (id : String) (timeout : ℕ)
      → timeout < service.elapsed (ticks (suc n) w)
      → Returns (Waited id timeout) (wait_port_active (suc n) w id timeout)
  unfolding wait_port_active
  wait_port_active-Waited zero w id timeout late =
      rw (lt→ltb timeout (service.elapsed (service.tick w)) late) (returns late)
  wait_port_active-Waited (suc n) w id timeout late =
      let next = service.tick w in
      elim (Bool-cases (ltb timeout (service.elapsed next))) [
        | inl over ↦ rw over (returns (ltb→lt timeout (service.elapsed next) over))
        | inr early ↦ rw early (elim (Result-cases (service.port_status next id)) [
          | inr (e, refused) ↦ rw refused (wait_port_active-Waited n next id timeout late)
          | inl (status, told) ↦ rw told (elim (Bool-cases (str_eq status "ACTIVE")) [
            | inl active ↦
                rw active (returns (told ∙ ap success ((eq_iff status "ACTIVE").0 active)))
            | inr other ↦ rw other (wait_port_active-Waited n next id timeout late)
          ])
        ])
      ]
