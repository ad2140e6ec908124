-- ===== src/Pod.antt =====
-- What the reconciler reads of a pod, and how it compares a pod with the StatefulSet template:
-- internal/controller/reconciler_status.go, reconciler_readiness_gate.go, reconciler_restart.go
-- and internal/utils/labels.go.
pub mod Hashes
pub mod Gate
use aerospike_ce_kubernetes.Prelude.{
  String, Bool, true, false, ◌&&◌, Option, none, some, List, str_eq, any, lookup,
}

-- corev1.PodPhase
pub data PodPhase : Type 0 where
  pending running succeeded failed unknown : PodPhase

-- corev1.ConditionStatus
pub data ConditionStatus : Type 0 where
  is_true is_false is_unknown : ConditionStatus

-- The fields of a corev1.PodCondition that are read; `kind` is its `Type`.
pub record PodCondition : Type 0 where
  pub kind : String
  pub status : ConditionStatus

pub record Container : Type 0 where
  pub name : String
  pub image : String

-- corev1.Pod, less what the reconciler does not read. `terminating` is `DeletionTimestamp != nil`,
-- `readiness_gates` the condition types of the gates.
pub record Pod : Type 0 where
  pub name : String
  pub phase : PodPhase
  pub terminating : Bool
  pub annotations : List (String × String)
  pub conditions : List PodCondition
  pub readiness_gates : List String
  pub containers : List Container

abbrev pub config_hash_annotation : String
config_hash_annotation = "acko.io/config-hash"

abbrev pub pod_spec_hash_annotation : String
pod_spec_hash_annotation = "acko.io/podspec-hash"

abbrev pub storage_hash_annotation : String
storage_hash_annotation = "acko.io/storage-hash"

-- A read of Go's map gives "" at a missing key, and of a nil map too.
abbrev or_empty : Option String → String
or_empty none = ""
or_empty (some s) = s

unfoldable pub annotation : Pod → String → String
annotation pod key = or_empty (lookup key pod.annotations)

abbrev pub is_running : PodPhase → Bool
is_running running = true
is_running _ = false

abbrev pub status_true : ConditionStatus → Bool
status_true is_true = true
status_true _ = false

-- corev1.PodReady
abbrev pub pod_ready : String
pod_ready = "Ready"

unfoldable pub is_pod_ready : Pod → Bool
is_pod_ready pod =
    is_running pod.phase
    && any (λ c. str_eq c.kind pod_ready && status_true c.status) pod.conditions
