-- ===== src/Cni/Setup.antt =====
-- cmd/cni/rubble.go: what an ADD that succeeds has set up, and that an ADD comes to its end.
use mathlib.Core.Path.{subst}
use rubble.Prelude.{
  ◌≡◌, refl, sym, ap, ◌∙◌, Option, none, some, Option-cases, List, [], ◌∷◌, arith, Bool-cases, inl,
  inr, str_eq, ◌||◌,
}
use rubble.Prelude.Run.{Run, ok, panic, Error, Result, success, returns}
use rubble.Log.{default_cni_log_path, set_log_output}
use rubble.Prelude.Outcomes.{
  and_then-success, ran-success, behind-success, Ends, and_then-Ends, and_then-panic, behind-Ends,
  hidden-Ends, acted-Ends,
}
use rubble.Resource.{PortResource}
use rubble.Ipam.{NetConf, net_conf_from_port}
use rubble.Plugin.{Kernel, Packages, CniResult}
use rubble.Plugin.IpVlan
use rubble.Plugin.Addressing.{
  Addressed, ip_vlan-Addressed, ptp_setup-result, ip_vlan_setup-Ends, ptp_setup-Ends,
}
use rubble.Cni.Commands.{
  SkelArgs, CniCmdArgs, AllocateIpReply, Backend, load_net_conf, get_cmd_args, get_rubble_client,
  allocate_request, do_cmd_add, cmd_add,
}

-- A command whose log can be opened ends; another one panics.
abbrev pub EndsAfter : {W A : Type 0} → Option Error → Run (Result A × W) → Type 0
EndsAfter none r = Ends r
EndsAfter (some e) r = r ≡ panic

module _ {W Ip Mask Data : Type 0} (kernel : Kernel W Ip Mask) (packages : Packages Ip Mask)
    (backend : Backend W Ip Mask Data)
    (same : (r : CniResult Ip Mask) → packages.new_result_from_result r ≡ some r) where
  -- A doCmdAdd that succeeds began with the daemon's answer to its request, and its result has one
  -- address: the pod's address of the first NetConf of that answer, with the mask of its CIDR, which
  -- ParseCIDR reads. The conversion of a result is taken to answer that result.
  pub do_cmd_add-Addressed :
      (cmd_args : CniCmdArgs) (w v : W) (result : CniResult Ip Mask)
      → do_cmd_add kernel packages backend cmd_args w ≡ ok (success result, v)
      → (reply : AllocateIpReply) × (w₁ : W) × (backend.allocate_ip w
            (allocate_request kernel packages backend cmd_args)
          ≡ (success reply, w₁))
        × Addressed kernel packages reply.net_confs result
  unfolding do_cmd_add
  do_cmd_add-Addressed cmd_args w v result h =
      let (reply, w₁, allocated, h₁) = and_then-success h in
      let (tmp, w₂, made, h₂) = and_then-success h₁ in
      let kept =
        ptp_setup-result kernel packages same tmp cmd_args.plugin_args w₂ (behind-success _ h₂) in
      (
        reply,
        w₁,
        ran-success (behind-success _ allocated),
        subst (Addressed kernel packages reply.net_confs) (sym kept) (
            ip_vlan-Addressed kernel packages reply.net_confs cmd_args.plugin_args w₁ w₂ tmp
              (behind-success _ made)),
      )

  -- A reply as the daemon makes it, from a port whose CIDR ParseCIDR reads.
  abbrev pub FromPort : AllocateIpReply → Type 0
  FromPort reply =
      (port : PortResource) × (net : Ip × Ip × Mask) × (net_conf_from_port port
        ≡ success reply.net_confs)
      × (packages.parse_cidr port.port.cidr ≡ some net)

  net_conf_from_port-success :
      (port : PortResource) (confs : List NetConf)
      → net_conf_from_port port ≡ success confs
      → (conf : NetConf) × (confs ≡ conf ∷ []) × (conf.pod_cidr ≡ port.port.cidr)
  unfolding net_conf_from_port
  net_conf_from_port-success port confs h =
      elim (Bool-cases (str_eq port.port.cidr "" || str_eq port.port.gateway "")) [
        | inl e ↦ let wrong = rw (e, net_conf_from_port) at h in absurd (ground arith)
        | inr e ↦
            let done = rw (e, net_conf_from_port) at h in
            (
              record {
                pod_ip = port.port.ip;
                pod_cidr = port.port.cidr;
                gateway_ip = port.port.gateway;
                mac = port.port.mac;
              },
              cc,
              refl,
            )
      ]

  module _
      (honest : (w : W) (cmd_args : CniCmdArgs) (reply : AllocateIpReply) (w₁ : W)
        → backend.allocate_ip w (allocate_request kernel packages backend cmd_args)
          ≡ (success reply, w₁)
        → FromPort reply) where
    do_cmd_add-Ends :
        (cmd_args : CniCmdArgs) (w : W) → Ends (do_cmd_add kernel packages backend cmd_args w)
    unfolding do_cmd_add
    do_cmd_add-Ends cmd_args w = and_then-Ends (behind-Ends _ (returns tt)) (λ reply w₁ allocated.
        let (port, net, made, parsed) =
          honest w cmd_args reply w₁ (ran-success (behind-success _ allocated)) in
        let (conf, one, cidr) = net_conf_from_port-success port _ made in
        and_then-Ends
          (behind-Ends _ (
            subst (λ confs. Ends (IpVlan.setup kernel packages confs cmd_args.plugin_args w₁))
              (sym one)
              (ip_vlan_setup-Ends kernel packages conf [] cmd_args.plugin_args w₁ net
                (ap packages.parse_cidr cidr ∙ parsed))))
          (λ tmp w₂ _.
            behind-Ends _ (ptp_setup-Ends kernel packages same tmp cmd_args.plugin_args w₂)))

    -- When every answer of the daemon to an allocation is made from a port as the daemon makes it,
    -- with a CIDR that ParseCIDR reads, and the conversion of a result answers that result, then in
    -- every state and on every argument: if the log can be opened, cmdAdd comes to its end, with or
    -- without an error; if it cannot, cmdAdd panics.
    pub cmd_add-Ends :
        (args : SkelArgs Data) (w : W)
        → EndsAfter
            (backend.open_file default_cni_log_path w).0
            (cmd_add kernel packages backend args w)
    unfolding cmd_add get_cmd_args load_net_conf get_rubble_client set_log_output
    cmd_add-Ends args w = elim (Option-cases (backend.open_file default_cni_log_path w).0) [
      | inr (e, closed) ↦ rw (closed, set_log_output) (and_then-panic _)
      | inl opened ↦
          rw (opened, set_log_output)
            (and_then-Ends (returns tt) (λ _ w₁ _.
              and_then-Ends
                (and_then-Ends (hidden-Ends _ (returns tt))
                  (λ conf w₂ _. and_then-Ends (returns tt) (λ k8s w₃ _. returns tt)))
                (λ add_args w₄ _.
                  and_then-Ends (behind-Ends _ (behind-Ends _ (acted-Ends _))) (λ _ w₅ _.
                    and_then-Ends (do_cmd_add-Ends add_args w₅) (λ result w₆ _. acted-Ends _)))))
    ]
