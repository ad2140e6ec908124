-- ===== src/Examples/Operating.antt =====
-- On-demand operations at concrete inputs.
use aerospike_ce_kubernetes.Prelude.{suc, ◌≤◌, String, not, ◌≡◌, refl, some, List, [], ◌∷◌, All}
use aerospike_ce_kubernetes.Prelude.Int.{pos}
use aerospike_ce_kubernetes.Pod.{Pod}
use aerospike_ce_kubernetes.Operations.{
  pod_restart, OperationStatus, is_outstanding, process, filter_pods_by_names, reconcile_operations,
}
use aerospike_ce_kubernetes.Operations.Progress.{
  IsTidy, attempted, process-IsTidy, process-progress,
}
use aerospike_ce_kubernetes.Operations.Evidence.{WasOperated, process-AllOperated}
use aerospike_ce_kubernetes.Operations.Terminal.{IsHonest, reconcile_operations-IsHonest}
use aerospike_ce_kubernetes.Env.{delete_pod, Log, ok}
use aerospike_ce_kubernetes.Prelude.{inl}
use aerospike_ce_kubernetes.Examples.Fixtures.{
  env, ctx, scaled, pods, operation, status, operation_pass,
}

status-IsTidy : IsTidy status
status-IsTidy = record { completed = (refl, tt); failed = tt; apart = λ name e. refl }

process-IsTidy_example : IsTidy (process env ctx pod_restart (pos 1) 0 pods status []).0
process-IsTidy_example = process-IsTidy env ctx pod_restart (pos 1) 0 pods status [] status-IsTidy

process-progress_example :
    suc (attempted status) ≤ attempted (process env ctx pod_restart (pos 1) 0 pods status []).0
process-progress_example = process-progress env ctx pod_restart (pos 1) 0 pods status [] refl refl

-- The deletion of the pod that is listed as completed.
abbrev deleted : Log
deleted = record { request = delete_pod "db-0"; reply = ok } ∷ []

process-AllOperated_example :
    let r = process env ctx pod_restart (pos 1) 0 pods status deleted in
    All (WasOperated pod_restart r.1) r.0.completed_pods
process-AllOperated_example =
    process-AllOperated env ctx pod_restart (pos 1) 0 pods status deleted (inl (refl, refl), tt)

-- The names are in order already.
abbrev sorted : List String → List String
sorted names = names

abbrev after : OperationStatus
after = record status { completed_pods = "db-0" ∷ "db-1" ∷ [] }

writes :
    (reconcile_operations env ctx scaled sorted operation_pass
      (operation ∷ [])
      (some status)
      (some pods)
      []
      []).0.written
    ≡ some after
unfolding reconcile_operations aerospike_ce_kubernetes.Operations.operation_batch_blocked
    filter_pods_by_names aerospike_ce_kubernetes.Pod.is_pod_ready
    aerospike_ce_kubernetes.Restart.Block.is_batch_blocked
    aerospike_ce_kubernetes.Restart.InFlight.restart_in_flight_reason
    aerospike_ce_kubernetes.Pod.Gate.is_readiness_gate_enabled aerospike_ce_kubernetes.Env.send
    aerospike_ce_kubernetes.Operations.finalize_operation_phase process
    aerospike_ce_kubernetes.Restart.Sizes.get_rolling_update_batch_size
    aerospike_ce_kubernetes.Operations.operate
    aerospike_ce_kubernetes.Restart.PodRestart.cold_restart_pod
writes = refl

reconcile_operations-IsHonest_example :
    let r =
      (reconcile_operations env ctx scaled sorted operation_pass
        (operation ∷ [])
        (some status)
        (some pods)
        []
        []).0 in
    (all_pods : List Pod) × (some pods ≡ some all_pods)
    × IsHonest operation (filter_pods_by_names all_pods []) (after, not r.requeue)
reconcile_operations-IsHonest_example =
    reconcile_operations-IsHonest env ctx scaled sorted operation_pass operation [] (some status)
      (some pods) [] [] after writes
