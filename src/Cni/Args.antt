-- ===== src/Cni/Args.antt =====
-- cmd/cni/rubble.go: the arguments of a command. A Go string is read as the list of its bytes.
use Prim.Native.String.{String}
use rubble.Prelude.{ℕ, true, false, List, [], ◌∷◌, ◌++◌, ◌==◌, if◌then◌else◌, Option, none, some}
use rubble.Prelude.Bytes.{Bytes, codes}
use rubble.Prelude.Run.{plain, Result, success, failure}

-- strings.Split for a separator of one byte: never the empty list.
unfoldable pub cut : Bytes → Bytes → ℕ → List Bytes
cut cur [] sep = cur ∷ []
cut cur (b ∷ s) sep = elim (b == sep) [
  | true ↦ cur ∷ cut [] s sep
  | false ↦ cut (cur ++ b ∷ []) s sep
]

unfoldable pub split : Bytes → ℕ → List Bytes
split s sep = cut [] s sep

-- strings.HasPrefix with strings.TrimPrefix: what comes after the prefix.
unfoldable pub after_prefix : Bytes → Bytes → Option Bytes
after_prefix [] s = some s
after_prefix (p ∷ prefix) [] = none
after_prefix (p ∷ prefix) (b ∷ s) = if p == b then after_prefix prefix s else none

-- The loop of parseValueFromArgs over the arguments.
unfoldable pub find_value : Bytes → List Bytes → Result Bytes
find_value key [] = failure (plain "key is required in CNI_ARGS")
find_value key (arg ∷ args) = elim (after_prefix (key ++ b'=' ∷ []) arg) [
  | some (b ∷ value) ↦ success (b ∷ value)
  | _ ↦ find_value key args
]

unfoldable pub parse_value_from_args : Bytes → Bytes → Result Bytes
parse_value_from_args key [] = failure (plain "CNI_ARGS is required")
parse_value_from_args key (b ∷ arg_string) = find_value key (split (b ∷ arg_string) b';')

pub record K8sArgs : Type 0 where
  pub k8s_pod_name : Bytes
  pub k8s_pod_namespace : Bytes
  pub k8s_infra_container_id : String

unfoldable pub get_k8s_args : Bytes → String → Result K8sArgs
get_k8s_args args container_id = elim (parse_value_from_args (codes "K8S_POD_NAMESPACE") args) [
  | failure e ↦ failure e
  | success pod_namespace ↦ elim (parse_value_from_args (codes "K8S_POD_NAME") args) [
    | failure e ↦ failure e
    | success pod_name ↦ success (record {
      k8s_pod_name = pod_name;
      k8s_pod_namespace = pod_namespace;
      k8s_infra_container_id = container_id;
    })
  ]
]
