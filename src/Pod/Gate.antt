-- ===== src/Pod/Gate.antt =====
-- The readiness gate: internal/controller/reconciler_readiness_gate.go.
use aerospike_ce_kubernetes.Prelude.{
  String, Bool, true, false, not, ◌&&◌, Option, none, some, List, [], ◌∷◌, str_eq, any,
  if◌then◌else◌,
}
use aerospike_ce_kubernetes.Cluster.{Spec}
use aerospike_ce_kubernetes.Pod.{Pod, PodCondition, is_running, status_true}

abbrev pub readiness_gate : String
readiness_gate = "acko.io/aerospike-ready"

abbrev is_set : Option (Option Bool) → Bool
is_set (some (some b)) = b
is_set _ = false

unfoldable pub is_readiness_gate_enabled : Spec → Bool
is_readiness_gate_enabled spec = is_set spec.readiness_gate_enabled

unfoldable pub pod_has_readiness_gate : Pod → Bool
pod_has_readiness_gate pod = any (λ gate. str_eq gate readiness_gate) pod.readiness_gates

-- The first component is `satisfied`, the second `exists`.
unfoldable pub find_pod_readiness_condition : List PodCondition → Bool × Bool
find_pod_readiness_condition [] = (false, false)
find_pod_readiness_condition (c ∷ rest) =
    if str_eq c.kind readiness_gate
    then (status_true c.status, true)
    else find_pod_readiness_condition rest

unfoldable pub is_pod_readiness_gate_satisfied : Spec → Pod → Bool
unfolding is_readiness_gate_enabled pod_has_readiness_gate find_pod_readiness_condition
is_pod_readiness_gate_satisfied spec pod =
    if not (is_readiness_gate_enabled spec)
    then true
    else if not (pod_has_readiness_gate pod)
    then true
    else (find_pod_readiness_condition pod.conditions).0

-- The name of the first pod that blocks.
unfoldable pub any_pod_gate_unsatisfied : Spec → List Pod → Option String
any_pod_gate_unsatisfied spec [] = none
any_pod_gate_unsatisfied spec (pod ∷ rest) =
    if is_running pod.phase && not pod.terminating && not (is_pod_readiness_gate_satisfied spec pod)
    then some pod.name
    else any_pod_gate_unsatisfied spec rest
