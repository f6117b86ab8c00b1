-- ===== src/Cni/Commands.antt =====
-- cmd/cni/rubble.go: cmdAdd, cmdDel and cmdCheck over the drivers and the daemon's client.
use rubble.Prelude.{String, Bool, Option, List}
use rubble.Prelude.Bytes.{Bytes}
use rubble.Prelude.Run.{Error, Result}
use rubble.Prelude.Call.{Call, ◌>>=◌, ◌>>◌, give, act, ask, run, check, wrap, hide}
use rubble.Log.{default_cni_log_path, set_log_output}
use rubble.Ipam.{NetConf}
use rubble.Utils.{NetConf as CniConf}
use rubble.Plugin.{CmdArgs, CniResult, Packages, Kernel}
use rubble.Plugin.IpVlan
use rubble.Plugin.Ptp
use rubble.Cni.Args.{K8sArgs, get_k8s_args}

-- skel.CmdArgs. `Data` is what standard input holds.
pub record SkelArgs (Data : Type 0) : Type 0 where
  pub container_id : String
  pub net_ns : String
  pub if_name : String
  pub args : Bytes
  pub stdin_data : Data

pub record CniCmdArgs : Type 0 where
  pub plugin_args : CmdArgs
  pub k8s_args : K8sArgs

pub record AllocateIpRequest : Type 0 where
  pub netns : String
  pub k8s_pod_name : Bytes
  pub k8s_pod_namespace : Bytes
  pub k8s_pod_infra_container_id : String
  pub if_name : String

pub record AllocateIpReply : Type 0 where
  pub is_success : Bool
  pub net_confs : List NetConf

pub record ReleaseIpRequest : Type 0 where
  pub k8s_pod_name : Bytes
  pub k8s_pod_namespace : Bytes
  pub k8s_pod_infra_container_id : String

-- The packages around a command: os.OpenFile, the dial of grpc, the two methods of the client that the command
-- calls, the JSON decoder, and PrintResult. Of the reply to a release its one field is kept.
pub record Backend (W Ip Mask Data : Type 0) : Type 0 where
  pub open_file : String → W → Option Error × W
  pub dial_context : W → Option Error
  pub allocate_ip : W → AllocateIpRequest → Result AllocateIpReply × W
  pub release_ip : W → ReleaseIpRequest → Result Bool × W
  pub unmarshal : Data → Result CniConf
  pub print_result : W → CniResult Ip Mask → String → Option Error × W

module _ {W Ip Mask Data : Type 0} (kernel : Kernel W Ip Mask) (packages : Packages Ip Mask)
    (backend : Backend W Ip Mask Data) where
  unfoldable pub load_net_conf : Data → Call W CniConf
  load_net_conf bytes = hide "failed to load netconf" (ask (λ w. backend.unmarshal bytes))

  -- getK8sArgs sets no service CIDR.
  unfoldable pub get_cmd_args : SkelArgs Data → Call W CniCmdArgs
  get_cmd_args args = do
    net_conf ← load_net_conf args.stdin_data
    k8s_args ← ask (λ w. get_k8s_args args.args args.container_id)
    give (record {
      plugin_args = record {
        net_conf = net_conf;
        k8s_service_cidr = "";
        net_ns = args.net_ns;
        if_name = args.if_name;
      };
      k8s_args = k8s_args;
    })

  unfoldable pub get_rubble_client : Call W (Unit {0})
  get_rubble_client = wrap "error dial to rubble server" (check backend.dial_context)

  unfoldable pub allocate_request : CniCmdArgs → AllocateIpRequest
  allocate_request cmd_args = record {
    netns = cmd_args.plugin_args.net_ns;
    k8s_pod_name = cmd_args.k8s_args.k8s_pod_name;
    k8s_pod_namespace = cmd_args.k8s_args.k8s_pod_namespace;
    k8s_pod_infra_container_id = cmd_args.k8s_args.k8s_infra_container_id;
    if_name = cmd_args.plugin_args.if_name;
  }

  -- A reply without success only sets an error that is overwritten.
  unfoldable pub do_cmd_add : CniCmdArgs → Call W (CniResult Ip Mask)
  do_cmd_add cmd_args = do
    alloc_result ←
        wrap "cmdAdd: error allocate ip"
          (run (λ w. backend.allocate_ip w (allocate_request cmd_args)))
    tmp_result ←
        wrap "failed to setup ipvlan device with error"
          (IpVlan.setup kernel packages alloc_result.net_confs cmd_args.plugin_args)
    wrap "failed to setup ptp veth pair with error"
        (Ptp.setup kernel packages tmp_result cmd_args.plugin_args)

  unfoldable pub cmd_add : SkelArgs Data → Call W (Unit {0})
  cmd_add args = do
    set_log_output backend.open_file default_cni_log_path
    add_args ← get_cmd_args args
    wrap "error create grpc client" get_rubble_client
    result ← do_cmd_add add_args
    let version : String = add_args.plugin_args.net_conf.cni_version
    act (λ w. backend.print_result w (record result { cni_version = version }) version)

  unfoldable pub release_request : CniCmdArgs → ReleaseIpRequest
  release_request del_args = record {
    k8s_pod_name = del_args.k8s_args.k8s_pod_name;
    k8s_pod_namespace = del_args.k8s_args.k8s_pod_namespace;
    k8s_pod_infra_container_id = del_args.k8s_args.k8s_infra_container_id;
  }

  -- A reply without success only sets an error that is dropped.
  unfoldable pub cmd_del : SkelArgs Data → Call W (Unit {0})
  cmd_del args = do
    del_args ← get_cmd_args args
    wrap "failed to teardown ptp veth with error"
        (Ptp.tear_down kernel packages del_args.plugin_args)
    wrap "failed to teardown ipvlan device with error"
        (IpVlan.tear_down kernel packages del_args.plugin_args)
    wrap "error create grpc client" get_rubble_client
    reply ←
        wrap "cmdDel: error release ip" (run (λ w. backend.release_ip w (release_request del_args)))
    give tt

  unfoldable pub cmd_check : SkelArgs Data → Call W (Unit {0})
  cmd_check args = give tt
