-- ===== src/Cni/Deletion.antt =====
-- cmd/cni/rubble.go: a DEL after the namespace is gone.
use rubble.Prelude.{◌≡◌, refl, some}
use rubble.Prelude.Run.{ok, Error, plain, wrapped, success, failure}
use rubble.Prelude.Call.{and_then, behind, hidden}
use rubble.Utils.{NetConf as CniConf}
use rubble.Plugin.{Kernel, Packages}
use rubble.Plugin.Ptp
use rubble.Plugin.Removal.{tear_down-not_opened}
use rubble.Cni.Args.{K8sArgs, get_k8s_args}
use rubble.Cni.Commands.{SkelArgs, CniCmdArgs, Backend, load_net_conf, get_cmd_args, cmd_del}

module _ {W Ip Mask Data : Type 0} (kernel : Kernel W Ip Mask) (packages : Packages Ip Mask)
    (backend : Backend W Ip Mask Data) where
  abbrev pub command_args : SkelArgs Data → CniConf → K8sArgs → CniCmdArgs
  command_args args conf k8s = record {
    plugin_args = record {
      net_conf = conf;
      k8s_service_cidr = "";
      net_ns = args.net_ns;
      if_name = args.if_name;
    };
    k8s_args = k8s;
  }

  pub get_cmd_args-parsed :
      (args : SkelArgs Data) (conf : CniConf) (k8s : K8sArgs) (w : W)
      → backend.unmarshal args.stdin_data ≡ success conf
      → get_k8s_args args.args args.container_id ≡ success k8s
      → get_cmd_args kernel packages backend args w ≡ ok (success (command_args args conf k8s), w)
  unfolding get_cmd_args load_net_conf and_then hidden
  get_cmd_args-parsed args conf k8s w e f = rw e (rw f refl)

  -- When the namespace of the pod cannot be opened, for whatever reason, and the arguments are read,
  -- cmdDel fails and leaves the world as it was: the daemon is not asked to release the address.
  pub cmd_del-NotOpened :
      (args : SkelArgs Data) (conf : CniConf) (k8s : K8sArgs) (w : W) (e : Error)
      → backend.unmarshal args.stdin_data ≡ success conf
      → get_k8s_args args.args args.container_id ≡ success k8s
      → kernel.get_ns w args.net_ns ≡ some e
      → cmd_del kernel packages backend args w
        ≡ ok (
          failure (wrapped "failed to teardown ptp veth with error" (plain "failed to open netns")),
          w,
        )
  unfolding cmd_del Ptp.tear_down and_then behind
  cmd_del-NotOpened args conf k8s w e read named closed =
      rw (get_cmd_args-parsed args conf k8s w read named)
        (rw (tear_down-not_opened kernel packages args.net_ns _ w e closed) refl)
