-- ===== src/Pods.antt =====
-- pkg/k8s/k8s.go: what the program keeps of a pod. The API server is a parameter where a client
-- uses it, and strconv.ParseBool and strings.ToLower are parameters here.
use rubble.Prelude.{String, Bool, true, false, none, some, List, [], ◌∷◌, str_eq, if◌then◌else◌}
use rubble.Prelude.Run.{Run, ok, panic, ◌>>=◌, wrapped, Result, success, failure}
use rubble.Prelude.Int.{ℤ, pos}
use rubble.Prelude.Assoc.{lookup}
use Prim.Native.String.{◌++◌}

pub record PodInfo : Type 0 where
  pub name : String
  pub namespace : String
  pub pod_ip : String
  pub ip_stick_time : ℤ

-- The fields of corev1.Pod that the program reads; of its owners, the kinds.
pub record Pod : Type 0 where
  pub name : String
  pub namespace : String
  pub pod_ip : String
  pub annotations : List (String × String)
  pub owner_kinds : List String

-- Five minutes, in nanoseconds.
abbrev pub default_stick_time_for_sts : ℤ
default_stick_time_for_sts = pos 300000000000

abbrev pub pod_static_ip : String
pod_static_ip = "ecns.easystack.io/pod-static-ip"

unfoldable pub pod_info_key : PodInfo → String
pod_info_key p = p.namespace ++ "/" ++ p.name

-- A read of a Go map of strings: "" where the key is missing.
unfoldable pub read : List (String × String) → String → String
read m key = elim (lookup key m) [ none ↦ "" | some value ↦ value ]

module _ (parse_bool : String → Bool) (to_lower : String → String) where
  -- The loop of convertPod over the owners: whether one is a stateful set.
  unfoldable pub owned_by_workload : List String → Bool
  owned_by_workload [] = false
  owned_by_workload (kind ∷ kinds) =
      if str_eq (to_lower kind) "statefulset" then true else owned_by_workload kinds

  unfoldable pub stick_time : Pod → ℤ
  stick_time pod =
      if parse_bool (read pod.annotations pod_static_ip)
      then default_stick_time_for_sts
      else if owned_by_workload pod.owner_kinds
      then default_stick_time_for_sts
      else pos 0

  unfoldable pub convert_pod : Pod → PodInfo
  convert_pod pod = record {
    name = pod.name;
    namespace = pod.namespace;
    pod_ip = pod.pod_ip;
    ip_stick_time = stick_time pod;
  }

-- The filter of ListLocalPods, whose annotations are not used.
pub record Filter : Type 0 where
  pub annotations : List (String × String)
  pub labels : List (String × String)

-- The client's set-up: rest.InClusterConfig, BuildConfigFromFlags and NewForConfig are parameters,
-- and so is the exit of the program that Fatalf makes where the last one fails.
unfoldable pub init_kube_client :
    {Config Client : Type 0}
    → Result Config
    → (String → Result Config)
    → (Config → Result Client)
    → String
    → Run (Result Client)
init_kube_client in_cluster_config build_config new_for_config kube_conf =
    elim (if str_eq kube_conf "" then in_cluster_config else build_config kube_conf) [
      | failure e ↦ ok (failure e)
      | success config ↦ elim (new_for_config config) [
        | failure e ↦ panic
        | success client ↦ ok (success client)
      ]
    ]

pub record K8s (Client : Type 0) : Type 0 where
  pub client : Client
  pub node_name : String

-- NewK8s, where `init` is the set-up of the client.
unfoldable pub new_k8s :
    {Client : Type 0} → (String → Run (Result Client)) → String → String → Run (Result (K8s Client))
new_k8s init conf node_name = init conf >>= λ made. elim made [
  | failure e ↦ ok (failure (wrapped "failed to create neutron client with error" e))
  | success client ↦ ok (success (record { client = client; node_name = node_name }))
]

module _ (parse_bool : String → Bool) (to_lower : String → String) where
  unfoldable pub convert_pods : List Pod → List PodInfo
  convert_pods [] = []
  convert_pods (pod ∷ pods) = convert_pod parse_bool to_lower pod ∷ convert_pods pods

  -- `list` is the request for the pods of all namespaces with these labels on the node.
  unfoldable pub list_local_pods :
      (List (String × String) → String → Result (List Pod))
      → String
      → Filter
      → Result (List PodInfo)
  list_local_pods list node_name filter = elim (list filter.labels node_name) [
    | failure e ↦ failure (wrapped "failed listting pods on node" e)
    | success pods ↦ success (convert_pods pods)
  ]
