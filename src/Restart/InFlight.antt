-- ===== src/Restart/InFlight.antt =====
-- Whether the previous batch is back: `restartInFlightReason` of
-- internal/controller/reconciler_restart.go. Its text is a value of `Reason`, and "" is `none`.
use aerospike_ce_kubernetes.Prelude.{
  ℕ, String, ◌≡◌, ◌↔◌, refl, Bool, true, false, not, ◌&&◌, ◌||◌, Option, none, some, List, [], ◌∷◌,
  arith, str_eq, ltb, length, all, if◌then◌else◌,
}
use aerospike_ce_kubernetes.Pod.{Pod, PodPhase, is_pod_ready}
use aerospike_ce_kubernetes.Pod.Hashes.{Hashes, is_stale}

-- appsv1.PodManagementPolicyType
pub data PodManagementPolicy : Type 0 where
  ordered_ready parallel unset : PodManagementPolicy

pub record RackRestartTarget : Type 0 where
  pub hashes : Hashes
  pub replicas : ℕ
  pub pod_management_policy : PodManagementPolicy

pub data Reason : Type 0 where
  terminating : String → Reason
  not_ready : String → PodPhase → Reason
  missing : ℕ → ℕ → Reason

abbrev pub is_ordered_ready : PodManagementPolicy → Bool
is_ordered_ready ordered_ready = true
is_ordered_ready _ = false

-- What holds a batch in one pod: the body of the loop, `none` where it goes on.
pod_reason : Pod → RackRestartTarget → Option Reason
pod_reason pod target =
    if pod.terminating
    then some (terminating pod.name)
    else if str_eq target.hashes.config ""
    then none
    else if is_stale target.hashes pod
    then none
    else if not (is_pod_ready pod)
    then some (not_ready pod.name pod.phase)
    else none

first_pod_reason : List Pod → RackRestartTarget → Option Reason
unfolding pod_reason
first_pod_reason [] target = none
first_pod_reason (pod ∷ rest) target = elim (pod_reason pod target) [
  | none ↦ first_pod_reason rest target
  | some r ↦ some r
]

count_reason : List Pod → RackRestartTarget → Option Reason
count_reason pods target =
    if ltb 0 target.replicas
      && not (is_ordered_ready target.pod_management_policy)
      && ltb (length pods) target.replicas
    then some (missing (length pods) target.replicas)
    else none

unfoldable pub restart_in_flight_reason : List Pod → RackRestartTarget → Option Reason
unfolding first_pod_reason count_reason
restart_in_flight_reason pods target = elim (first_pod_reason pods target) [
  | some r ↦ some r
  | none ↦ count_reason pods target
]

-- A pod that the wait lets pass: it is not on its way out, and if it carries all hashes of a known
-- target it is Ready.
abbrev pub is_settled : RackRestartTarget → Pod → Bool
is_settled target pod =
    not pod.terminating
    && (str_eq target.hashes.config "" || is_stale target.hashes pod || is_pod_ready pod)

-- The target's pods all exist, as far as the pod management policy lets the count decide.
abbrev pub has_all_pods : RackRestartTarget → List Pod → Bool
has_all_pods target pods =
    is_ordered_ready target.pod_management_policy || not (ltb (length pods) target.replicas)

first_pod_reason_iff :
    (pods : List Pod) (target : RackRestartTarget)
    → (first_pod_reason pods target ≡ none) ↔ (all (is_settled target) pods ≡ true)
unfolding first_pod_reason
first_pod_reason_iff [] target = ((λ h. refl), (λ h. refl))
first_pod_reason_iff (pod ∷ rest) target = ground (arith, first_pod_reason_iff rest target)

-- Nothing is reported exactly when every pod is settled (not terminating, and Ready if it carries
-- all hashes of a known target) and the target's pods all exist. So a stale pod that is
-- not Ready, whose remedy may be the restart, holds a batch only while it is terminating, and under
-- OrderedReady a missing one never does.
pub restart_in_flight_reason_iff :
    (pods : List Pod) (target : RackRestartTarget)
    → (restart_in_flight_reason pods target ≡ none)
      ↔ ((all (is_settled target) pods && has_all_pods target pods) ≡ true)
unfolding restart_in_flight_reason
restart_in_flight_reason_iff pods target = ground (arith, first_pod_reason_iff pods target)
