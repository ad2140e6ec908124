-- ===== src/Restart/Block/Laws.antt =====
-- What a released batch guarantees, over any history of checks.
use aerospike_ce_kubernetes.Prelude.{
  ℕ, ◌+◌, ◌≤◌, ◌≡◌, ◌⊎◌, Bool, true, false, Option, none, some, List, [], ◌∷◌, ◌++◌, arith, length,
  any, leb, refl, inl, inr, if◌then◌else◌,
}
use aerospike_ce_kubernetes.Cluster.{Spec}
use aerospike_ce_kubernetes.Pod.{Pod}
use aerospike_ce_kubernetes.Pod.Gate.{is_readiness_gate_enabled, any_pod_gate_unsatisfied}
use aerospike_ce_kubernetes.Restart.InFlight.{RackRestartTarget, restart_in_flight_reason}
use aerospike_ce_kubernetes.Restart.Budget.{
  Key, max_migration_check_failures, migration_check_failure_grace,
}
use aerospike_ce_kubernetes.Restart.Budget.History.{Check, failed_at, answered, run, recent}
use aerospike_ce_kubernetes.Restart.Budget.Hatch.{hatch_warranted}
use aerospike_ce_kubernetes.Restart.Block.{is_batch_blocked, by_probe}

-- The rack's checks have failed at least five times since they last answered, now included, one of
-- them at least ten minutes ago.
abbrev pub IsWarranted : List Check → ℕ → Key → Type 0
IsWarranted h now key =
    (max_migration_check_failures ≤ length (recent key (failed_at now key ∷ h)))
    × (any (λ t. leb (t + migration_check_failure_grace) now) (recent key (failed_at now key ∷ h))
        ≡ true)

module _ (spec : Spec) (key : Key) (probe : Option Bool) (now : ℕ) where
  by_probe_released :
      (h : List Check) (answer : Option Bool)
      → (by_probe answer now key (run h)).blocked ≡ false
      → (answer ≡ some false) ⊎ ((answer ≡ none) × IsWarranted h now key)
  unfolding by_probe
  by_probe_released h none released = inr (refl, hatch_warranted h now key (ground arith))
  by_probe_released h (some true) released = cc
  by_probe_released h (some false) released = inl refl

  -- A batch is released only when the previous one is back, and, with readiness gates, no running
  -- pod's gate is unsatisfied; without them, the migration check has answered "no migration", or
  -- has failed at least five times in a row for this rack, once at least ten minutes ago. This
  -- holds after any history of checks of any racks.
  pub is_batch_blocked_released :
      (h : List Check) (pods : List Pod) (target : RackRestartTarget)
      → (is_batch_blocked spec key probe now pods target (run h)).blocked ≡ false
      → (restart_in_flight_reason pods target ≡ none)
        × (is_readiness_gate_enabled spec ≡ true → any_pod_gate_unsatisfied spec pods ≡ none)
        × (is_readiness_gate_enabled spec ≡ false
            → (probe ≡ some false) ⊎ ((probe ≡ none) × IsWarranted h now key))
  unfolding is_batch_blocked
  is_batch_blocked_released h pods target released =
      (ground arith, ground arith, λ off. by_probe_released h probe (ground arith))

  -- The checks that a decision makes.
  abbrev pub checks_made : List Pod → RackRestartTarget → List Check
  checks_made pods target = elim (restart_in_flight_reason pods target) [
    | some _ ↦ []
    | none ↦
        if is_readiness_gate_enabled spec
        then []
        else elim probe [ none ↦ failed_at now key ∷ [] | some _ ↦ answered key ∷ [] ]
  ]

  -- A decision's only effect on the budgets is to record its own check, where it makes one.
  pub is_batch_blocked-run :
      (h : List Check) (pods : List Pod) (target : RackRestartTarget)
      → (is_batch_blocked spec key probe now pods target (run h)).table
        ≡ run (checks_made pods target ++ h)
  unfolding is_batch_blocked run
  is_batch_blocked-run h pods target = ground arith
