-- ===== src/Plugin/Addressing.antt =====
-- pkg/plugin: the address that the set-up of an interface takes from the daemon's reply.
use mathlib.Core.Path.{subst}
use rubble.Prelude.{
  String, ◌≡◌, sym, ap, ◌∙◌, some, List, [], ◌∷◌, inl, inr, Option-cases, List-cases, arith,
}
use rubble.Prelude.Run.{ok, success, returns}
use rubble.Prelude.Outcomes.{
  and_then-success, gave-success, Ends, and_then-Ends, behind-Ends, hidden-Ends, acted-Ends,
}
use rubble.Ipam.{NetConf}
use rubble.Plugin.{Kernel, Packages, CmdArgs, IpConfig, CniResult, Route}
use rubble.Plugin.IpVlan
use rubble.Plugin.IpVlan.{first_conf, mask_of, create_ip_vlan, rename_slave}
use rubble.Plugin.Ptp
use rubble.Plugin.Ptp.{
  setup_pair, setup_container_veth, setup_host_veth, get_link_ip_addrs, veth_in_ns, add_routes,
}

module _ {W Ip Mask : Type 0} (kernel : Kernel W Ip Mask) (packages : Packages Ip Mask) where
  -- The address of a NetConf, with the mask of its CIDR.
  abbrev pub address_of : NetConf → Mask → IpConfig Ip Mask
  address_of conf mask = record {
    address = packages.parse_ip conf.pod_ip;
    mask = mask;
    gateway = packages.parse_ip conf.gateway_ip;
  }

  -- A result whose one address is that of the first NetConf.
  abbrev pub Addressed : List NetConf → CniResult Ip Mask → Type 0
  Addressed net_confs result =
      (conf : NetConf) × (rest : List NetConf) × (ip : Ip) × (net : Ip) × (mask : Mask) × (net_confs
        ≡ conf ∷ rest)
      × (packages.parse_cidr conf.pod_cidr ≡ some (ip, net, mask))
      × (result.ips ≡ address_of conf mask ∷ [])

  first_conf-success :
      (net_confs : List NetConf) {conf : NetConf} (w : W) {v : W}
      → first_conf kernel packages net_confs w ≡ ok (success conf, v)
      → (rest : List NetConf) × (net_confs ≡ conf ∷ rest)
  unfolding first_conf
  first_conf-success [] w h = absurd (ground arith)
  first_conf-success (c ∷ cs) w h = (cs, ap (λ d. d ∷ cs) (gave-success h).0)

  mask_of-success :
      (cidr : String) {mask : Mask} (w : W) {v : W}
      → mask_of kernel packages cidr w ≡ ok (success mask, v)
      → (ip : Ip) × (net : Ip) × (packages.parse_cidr cidr ≡ some (ip, net, mask))
  unfolding mask_of
  mask_of-success cidr w h = elim (Option-cases (packages.parse_cidr cidr)) [
    | inl e ↦ let wrong = rw (e, mask_of) at h in absurd (ground arith)
    | inr ((ip, net, mask), e) ↦
        let done = rw (e, mask_of) at h in
        (ip, net, e ∙ ap (λ m. some (ip, net, m)) (gave-success done).0)
  ]

  pub ip_vlan-Addressed :
      (net_confs : List NetConf) (args : CmdArgs) (w v : W) (result : CniResult Ip Mask)
      → IpVlan.setup kernel packages net_confs args w ≡ ok (success result, v)
      → Addressed net_confs result
  unfolding IpVlan.setup
  ip_vlan-Addressed net_confs args w v result h =
      let (_, _, _, h₁) = and_then-success h in
      let (_, _, _, h₂) = and_then-success h₁ in
      let (conf, _, first, h₃) = and_then-success h₂ in
      let (mask, _, masked, h₄) = and_then-success h₃ in
      let (_, _, _, h₅) = and_then-success h₄ in
      let (_, _, _, h₆) = and_then-success h₅ in
      let (rest, one) = first_conf-success net_confs _ first in
      let (ip, net, parsed) = mask_of-success _ _ masked in
      (
        conf,
        rest,
        ip,
        net,
        mask,
        one,
        parsed,
        ap (λ (r : CniResult Ip Mask). r.ips) (sym (gave-success h₆).0),
      )

  -- The set-up of the veth pair answers the result that it is given, where the conversion does.
  setup_pair-result :
      (pre : CniResult Ip Mask) (ip : IpConfig Ip Mask) (args : CmdArgs) (w : W) {v : W}
      {result : CniResult Ip Mask}
      → setup_pair kernel packages pre ip args w ≡ ok (success result, v)
      → result ≡ pre
  unfolding setup_pair
  setup_pair-result pre ip args w h =
      let (_, _, _, h₁) = and_then-success h in
      let (_, _, _, h₂) = and_then-success h₁ in
      let (_, _, _, h₃) = and_then-success h₂ in sym (gave-success h₃).0

  pub ptp_setup-result :
      ((r : CniResult Ip Mask) → packages.new_result_from_result r ≡ some r)
      → (pre : CniResult Ip Mask) (args : CmdArgs) (w : W) {v : W} {result : CniResult Ip Mask}
      → Ptp.setup kernel packages pre args w ≡ ok (success result, v)
      → result ≡ pre
  unfolding Ptp.setup
  ptp_setup-result same pre args w h =
      let converted = rw (same pre, Ptp.setup) at h in
      elim (List-cases pre.ips) [
        | inl e ↦ let wrong = rw e at converted in absurd (ground arith)
        | inr (ip, rest, e) ↦ setup_pair-result pre ip args w (rw e at converted)
      ]

  -- The set-up never panics where the reply has a NetConf with a CIDR.
  create_ip_vlan-Ends : (args : CmdArgs) (w : W) → Ends (create_ip_vlan kernel packages args w)
  unfolding create_ip_vlan rename_slave
  create_ip_vlan-Ends args w = and_then-Ends (returns tt) (λ mode w₁ _.
      and_then-Ends (hidden-Ends _ (returns tt)) (λ m w₂ _. and_then-Ends (returns tt) (λ tmp w₃ _.
        and_then-Ends (hidden-Ends _ (acted-Ends _)) (λ _ w₄ _.
          and_then-Ends (acted-Ends _) (λ _ w₅ _.
            and_then-Ends (behind-Ends _ (acted-Ends _))
              (λ _ w₆ _. and_then-Ends (behind-Ends _ (returns tt)) (λ _ w₇ _. returns tt)))))))

  pub ip_vlan_setup-Ends :
      (conf : NetConf) (rest : List NetConf) (args : CmdArgs) (w : W) (net : Ip × Ip × Mask)
      → packages.parse_cidr conf.pod_cidr ≡ some net
      → Ends (IpVlan.setup kernel packages (conf ∷ rest) args w)
  unfolding IpVlan.setup first_conf mask_of
  ip_vlan_setup-Ends conf rest args w (ip, net, mask) parsed =
      and_then-Ends (hidden-Ends _ (acted-Ends _)) (λ _ w₁ _.
        and_then-Ends (create_ip_vlan-Ends args w₁) (λ slave w₂ _.
          and_then-Ends (returns tt) (λ c w₃ first.
            let same = (gave-success first).0 in
            and_then-Ends
              (subst (λ (d : NetConf). Ends (mask_of kernel packages d.pod_cidr w₃)) same
                (rw (parsed, mask_of) (returns tt)))
              (λ m w₄ _. and_then-Ends (returns tt) (λ routes w₅ _.
                and_then-Ends
                  (behind-Ends _ (and_then-Ends (acted-Ends _) (λ _ w₆ _. acted-Ends _)))
                  (λ _ w₇ _. returns tt))))))

  add_routes-Ends :
      (net_ns : String) (routes : List (Route Ip Mask)) (w : W)
      → Ends (add_routes kernel packages net_ns routes w)
  unfolding add_routes
  add_routes-Ends net_ns [] w = returns tt
  add_routes-Ends net_ns (route ∷ routes) w =
      and_then-Ends (behind-Ends _ (acted-Ends _)) (λ _ w₁ _. add_routes-Ends net_ns routes w₁)

  get_link_ip_addrs-Ends : (name : String) (w : W) → Ends (get_link_ip_addrs kernel packages name w)
  unfolding get_link_ip_addrs
  get_link_ip_addrs-Ends name w =
      and_then-Ends (behind-Ends _ (acted-Ends _))
        (λ _ w₁ _. and_then-Ends (behind-Ends _ (returns tt)) (λ addrs w₂ _. returns tt))

  veth_in_ns-Ends :
      (if_name : String) (args : CmdArgs) (node_gw : Ip) (w : W)
      → Ends (veth_in_ns kernel packages if_name args node_gw w)
  unfolding veth_in_ns
  veth_in_ns-Ends if_name args node_gw w = and_then-Ends (acted-Ends _) (λ _ w₁ _.
      and_then-Ends (returns tt) (λ pair w₂ _.
        and_then-Ends (hidden-Ends _ (returns tt)) (λ veth w₃ _.
          and_then-Ends (hidden-Ends _ (acted-Ends _))
            (λ _ w₄ _. and_then-Ends (add_routes-Ends args.net_ns _ w₄) (λ _ w₅ _. returns tt)))))

  setup_pair-Ends :
      (pre : CniResult Ip Mask) (ip : IpConfig Ip Mask) (args : CmdArgs) (w : W)
      → Ends (setup_pair kernel packages pre ip args w)
  unfolding setup_pair setup_container_veth setup_host_veth
  setup_pair-Ends pre ip args w = and_then-Ends (hidden-Ends _ (acted-Ends _)) (λ _ w₁ _.
      and_then-Ends
        (behind-Ends _ (
          and_then-Ends (behind-Ends _ (get_link_ip_addrs-Ends _ w₁))
            (λ node_gw w₂ _. veth_in_ns-Ends _ args node_gw w₂)))
        (λ pair w₃ _.
          and_then-Ends
            (behind-Ends _ (
              and_then-Ends (hidden-Ends _ (returns tt))
                (λ veth w₄ _. behind-Ends _ (acted-Ends _))))
            (λ _ w₅ _. returns tt)))

  pub ptp_setup-Ends :
      ((r : CniResult Ip Mask) → packages.new_result_from_result r ≡ some r)
      → (pre : CniResult Ip Mask) (args : CmdArgs) (w : W)
      → Ends (Ptp.setup kernel packages pre args w)
  unfolding Ptp.setup
  ptp_setup-Ends same pre args w =
      rw (same pre, Ptp.setup)
        (elim (List-cases pre.ips) [
          | inl e ↦ rw e (returns tt)
          | inr (ip, rest, e) ↦ rw e (setup_pair-Ends pre ip args w)
        ])
