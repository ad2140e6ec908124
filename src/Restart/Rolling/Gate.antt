-- ===== src/Restart/Rolling/Gate.antt =====
-- No pass sends a request while the previous batch is not back.
use aerospike_ce_kubernetes.Prelude.{
  ℕ, String, Bool, true, false, ◌≡◌, ◌≢◌, refl, ◌⊎◌, Option, none, some, List, if◌then◌else◌,
  str_eq,
}
use aerospike_ce_kubernetes.Prelude.Int.{ℤ}
use aerospike_ce_kubernetes.Env.{Env, Log}
use aerospike_ce_kubernetes.Pod.{Pod}
use aerospike_ce_kubernetes.Pod.Gate.{is_readiness_gate_enabled, any_pod_gate_unsatisfied}
use aerospike_ce_kubernetes.Restart.Selection.{Selection}
use aerospike_ce_kubernetes.Restart.InFlight.{RackRestartTarget, restart_in_flight_reason}
use aerospike_ce_kubernetes.Restart.Budget.History.{Check, run}
use aerospike_ce_kubernetes.Restart.Block.{Decision, is_batch_blocked}
use aerospike_ce_kubernetes.Restart.Block.Laws.{IsWarranted, is_batch_blocked_released}
use aerospike_ce_kubernetes.Restart.PodRestart.{Context}
use aerospike_ce_kubernetes.Restart.Batch.{Dynamic}
use aerospike_ce_kubernetes.Restart.Rolling.{
  Fetched, absent, unreadable, found, Pass, is_empty, unless_blocked, with_selection, selection,
  with_pods, reconcile_rolling_restart,
}

-- Where one branch sends nothing, what is sent is the other's.
idle_sends {ℓ} :
    {R : Type ℓ} (b : Bool) (x : R) (k : Log → R × Log) (log : Log)
    → ((if b then (λ l. (x, l)) else k) log).1 ≢ log
    → (k log).1 ≢ log
idle_sends true x k log sent = absurd (sent refl)
idle_sends false x k log sent = sent

module _ {N : Type 0} (env : Env) (ctx : Context) (dynamic : Dynamic N)
    (scaled : String → ℕ → Option ℤ) (pass : Pass N) where
  unless_blocked-sends :
      (target : RackRestartTarget) (selected : Selection) (d : Decision) (b : Bool) (log : Log)
      → d.blocked ≡ b
      → (unless_blocked env ctx dynamic scaled pass target selected d log).1 ≢ log
      → b ≡ false
  unfolding unless_blocked
  unless_blocked-sends target selected d false log e sent = refl
  unless_blocked-sends target selected d true log e sent = absurd (sent (rw e refl))

  abbrev pub IsReleased : List Check → RackRestartTarget → List Pod → Type 0
  IsReleased h target rack_pods =
      (restart_in_flight_reason rack_pods target ≡ none)
      × (is_readiness_gate_enabled pass.spec ≡ true
          → any_pod_gate_unsatisfied pass.spec rack_pods ≡ none)
      × (is_readiness_gate_enabled pass.spec ≡ false
          → (pass.probe ≡ some false) ⊎ ((pass.probe ≡ none) × IsWarranted h pass.now pass.key))

  with_selection-sends :
      (h : List Check) (target : RackRestartTarget) (rack_pods : List Pod) (selected : Selection)
      (log : Log)
      → (with_selection env ctx dynamic scaled pass target rack_pods selected (run h) log).1 ≢ log
      → IsReleased h target rack_pods
  unfolding with_selection
  with_selection-sends h target rack_pods selected log sent =
      let d = is_batch_blocked pass.spec pass.key pass.probe pass.now rack_pods target (run h) in
      let on = idle_sends (is_empty selected.restart) _ _ log sent in
      is_batch_blocked_released pass.spec pass.key pass.probe pass.now h rack_pods target
        (unless_blocked-sends target selected d d.blocked log refl on)

  with_pods-sends :
      (h : List Check) (target : RackRestartTarget) (pods : Option (List Pod)) (log : Log)
      → (with_pods env ctx dynamic scaled pass target pods (run h) log).1 ≢ log
      → (rack_pods : List Pod) × (pods ≡ some rack_pods) × IsReleased h target rack_pods
  unfolding with_pods
  with_pods-sends h target none log sent = absurd (sent refl)
  with_pods-sends h target (some rack_pods) log sent = (
    rack_pods,
    refl,
    with_selection-sends h target rack_pods (selection env ctx dynamic scaled pass target rack_pods)
        log sent,
  )

  -- Over any history h of migration checks, a pass over a rack sends a request of a batch (it
  -- restarts a pod or changes its configuration; the stamps of storage hashes are not counted) only
  -- if the StatefulSet and the rack's pods have been read, the previous batch is back, and, with
  -- readiness gates, no running pod's gate is unsatisfied; without them, the migration check has
  -- answered "no migration", or has failed at least five times in a row, once at least ten minutes
  -- ago.
  pub reconcile_rolling_restart-sends :
      (h : List Check) (sts : Fetched) (pods : Option (List Pod)) (log : Log)
      → (reconcile_rolling_restart env ctx dynamic scaled pass sts pods (run h) log).1 ≢ log
      → (target : RackRestartTarget) × (rack_pods : List Pod) × (sts ≡ found target)
        × (pods ≡ some rack_pods)
        × IsReleased h target rack_pods
  unfolding reconcile_rolling_restart
  reconcile_rolling_restart-sends h absent pods log sent = absurd (sent refl)
  reconcile_rolling_restart-sends h unreadable pods log sent = absurd (sent refl)
  reconcile_rolling_restart-sends h (found target) pods log sent =
      let (rack_pods, e, released) =
        with_pods-sends h target pods log
          (idle_sends (str_eq target.hashes.config "") _ _ log sent) in
      (target, rack_pods, refl, e, released)
