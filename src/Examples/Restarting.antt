-- ===== src/Examples/Restarting.antt =====
-- Restarts and batches at concrete inputs.
use aerospike_ce_kubernetes.Prelude.{
  ◌≤◌, true, false, not, ◌≡◌, ◌↔◌, refl, sym, ap, ◌∙◌, none, some, List, [], ◌∷◌, filter, contains,
  ◌&&◌, length,
}
use aerospike_ce_kubernetes.Prelude.Int.{pos}
use aerospike_ce_kubernetes.Env.{Log, patch_config_hash, warm_restart_pod, restart_status}
use aerospike_ce_kubernetes.Pod.Hashes.{is_stale, differs}
use aerospike_ce_kubernetes.Restart.PodRestart.{
  restart_pod, determine_restart_reason, should_warm_restart,
}
use aerospike_ce_kubernetes.Restart.PodRestart.Evidence.{WasRestarted, restart_pod-WasRestarted}
use aerospike_ce_kubernetes.Restart.PodRestart.StorageLoop.{
  IsStorageEdit, rounds, requests, storage_edit-restart_pod,
}
use aerospike_ce_kubernetes.Restart.Batch.{names, restart_pod_batch, filter_unrestarted}
use aerospike_ce_kubernetes.Restart.Batch.Remaining.{filter_unrestarted-successes}
use aerospike_ce_kubernetes.Restart.Batch.Counts.{
  IsFirst, IsAccounted, restart_pod_batch-IsAccounted,
}
use aerospike_ce_kubernetes.Restart.InFlight.{RackRestartTarget}
use aerospike_ce_kubernetes.Restart.Rolling.{
  found, is_empty, after_batch, reconcile_rolling_restart,
}
use aerospike_ce_kubernetes.Restart.Rolling.Gate.{IsReleased, reconcile_rolling_restart-sends}
use aerospike_ce_kubernetes.Restart.Rolling.Queue.{unrestarted, after_batch-queue}
use aerospike_ce_kubernetes.Pod.{Pod, annotation, storage_hash_annotation}
use aerospike_ce_kubernetes.Examples.Fixtures.{
  env, ctx, desired, old_pod, storage_pod, stale_pods, dynamic, scaled, pass, target, old_config,
  new_config, new_pod,
}

restarted : (restart_pod env ctx desired old_pod []).0 ≡ true
unfolding restart_pod should_warm_restart aerospike_ce_kubernetes.Pod.is_pod_ready annotation
    aerospike_ce_kubernetes.Env.send
restarted = refl

restart_pod-WasRestarted_example :
    WasRestarted desired "db-1" (restart_pod env ctx desired old_pod []).1
restart_pod-WasRestarted_example = restart_pod-WasRestarted env ctx desired old_pod [] restarted

storage_pod-warm : should_warm_restart true "aerospike:8" storage_pod desired ≡ true
unfolding should_warm_restart aerospike_ce_kubernetes.Pod.is_pod_ready annotation
storage_pod-warm = refl

storage_pod-stamped : differs (annotation storage_pod storage_hash_annotation) "" ≡ true
unfolding annotation
storage_pod-stamped = refl

storage_pod-other : differs (annotation storage_pod storage_hash_annotation) "s2" ≡ true
unfolding annotation
storage_pod-other = refl

storage_pod-IsStorageEdit : IsStorageEdit ctx desired storage_pod
storage_pod-IsStorageEdit = record {
  warm = storage_pod-warm;
  wanted = refl;
  stamped = storage_pod-stamped;
  other = storage_pod-other;
}

-- The pod after three warm restarts.
abbrev warmed : Pod
warmed = rounds 3 desired storage_pod

storage_edit-restart_pod_example :
    (is_stale desired warmed ≡ true)
    × (requests (restart_pod env ctx desired warmed []).1
        ≡ patch_config_hash warmed.name "c2"
          ∷ warm_restart_pod warmed.name
          ∷ restart_status warmed.name (determine_restart_reason warmed "aerospike:8" desired true)
          ∷ [])
storage_edit-restart_pod_example =
    storage_edit-restart_pod env ctx desired storage_pod 3 [] storage_pod-IsStorageEdit
      (λ before. refl)

filter_unrestarted-successes_example :
    filter_unrestarted ("db-1" ∷ "db-2" ∷ "db-3" ∷ []) ("db-1" ∷ []) 1 stale_pods
    ≡ filter
        (λ name. not (contains name (names stale_pods) && not (contains name ("db-1" ∷ []))))
        ("db-1" ∷ "db-2" ∷ "db-3" ∷ [])
filter_unrestarted-successes_example =
    filter_unrestarted-successes ("db-1" ∷ "db-2" ∷ "db-3" ∷ []) ("db-1" ∷ []) 1 stale_pods
      (refl, (refl, tt)) refl

restart_pod_batch-IsAccounted_example :
    let r =
      restart_pod_batch env ctx dynamic desired stale_pods
        (pos 1)
        (some old_config)
        (some new_config)
        [] in
    IsFirst stale_pods (pos 1) r.0.batch
    × IsAccounted env ctx dynamic desired r.0.batch (some old_config) (some new_config) r.0 r.1
restart_pod_batch-IsAccounted_example =
    restart_pod_batch-IsAccounted env ctx dynamic desired stale_pods (pos 1) (some old_config)
      (some new_config) []

-- A rack of two pods, one with an old storage hash.
abbrev rack : List Pod
rack = storage_pod ∷ new_pod ∷ []

abbrev goal : RackRestartTarget
goal = record target { replicas = 2 }

sends :
    is_empty
      (reconcile_rolling_restart env ctx dynamic scaled pass (found goal) (some rack) [] []).1
    ≡ false
unfolding reconcile_rolling_restart aerospike_ce_kubernetes.Restart.Selection.select_pods_to_restart
    aerospike_ce_kubernetes.Restart.Selection.is_stuck
    aerospike_ce_kubernetes.Pod.Hashes.compare_pod_hashes annotation
    aerospike_ce_kubernetes.Restart.Block.is_batch_blocked
    aerospike_ce_kubernetes.Restart.InFlight.restart_in_flight_reason
    aerospike_ce_kubernetes.Pod.is_pod_ready
    aerospike_ce_kubernetes.Pod.Gate.is_readiness_gate_enabled restart_pod_batch
    aerospike_ce_kubernetes.Restart.Batch.restart_each
    aerospike_ce_kubernetes.Restart.Sizes.get_rolling_update_batch_size restart_pod
    should_warm_restart aerospike_ce_kubernetes.Env.send
sends = refl

reconcile_rolling_restart-sends_example :
    (t : RackRestartTarget) × (rack_pods : List Pod) × (found goal ≡ found t)
    × (some rack ≡ some rack_pods)
    × IsReleased env ctx dynamic scaled pass [] t rack_pods
unfolding aerospike_ce_kubernetes.Restart.Budget.History.run
reconcile_rolling_restart-sends_example =
    reconcile_rolling_restart-sends env ctx dynamic scaled pass [] (found goal) (some rack) []
      (λ e. let h : true ≡ false = ap is_empty (sym e) ∙ sends in cc)

after_batch-queue_example :
    let r = (restart_pod_batch env ctx dynamic desired stale_pods (pos 1) none none []).0 in
    let a = after_batch (names stale_pods) [] r in
    (a.pending ≡ some (unrestarted r (names stale_pods)))
    × (a.result ≡ some true ↔ 1 ≤ r.restarted)
    × (a.result ≡ none ↔ (r.restarted ≡ 0) × (1 ≤ length r.failed))
after_batch-queue_example =
    after_batch-queue env ctx dynamic desired stale_pods (pos 1) none none [] [] (refl, (refl, tt))
