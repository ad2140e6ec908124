-- ===== src/Examples/Budgets.antt =====
-- The budget of migration checks and the block of a batch at concrete inputs.
use aerospike_ce_kubernetes.Prelude.{
  ℕ, ◌≤◌, ◌-◌, ◌+◌, suc, Bool, true, false, ◌≡◌, refl, ◌⊎◌, Option, none, some, List, [], ◌∷◌,
  length, any, leb, ◌&&◌, arith,
}
use aerospike_ce_kubernetes.Restart.Budget.{
  record_migration_check_failure, max_migration_check_failures, migration_check_failure_grace,
}
use aerospike_ce_kubernetes.Restart.Budget.History.{Check, failed_at, run, recent}
use aerospike_ce_kubernetes.Restart.Budget.Hatch.{hatch_warranted}
use aerospike_ce_kubernetes.Restart.Budget.Exact.{IsTended, hatch_exact, oldest}
use aerospike_ce_kubernetes.Restart.Block.{is_batch_blocked}
use aerospike_ce_kubernetes.Restart.Block.Laws.{IsWarranted, is_batch_blocked_released}
use aerospike_ce_kubernetes.Restart.InFlight.{restart_in_flight_reason}
use aerospike_ce_kubernetes.Pod.Gate.{is_readiness_gate_enabled, any_pod_gate_unsatisfied}
use aerospike_ce_kubernetes.Examples.Fixtures.{spec, key, pods, target}

-- Four failures, the first at time 0, one of another rack's between them.
abbrev history : List Check
history =
    failed_at 300000000000 key
    ∷ failed_at 200000000000 key
    ∷ failed_at 150000000000 (record key { uid = "other" })
    ∷ failed_at 100000000000 key
    ∷ failed_at 0 key
    ∷ []

abbrev ten_minutes : ℕ
ten_minutes = 600000000000

-- The check's error.
abbrev unanswered : Option Bool
unanswered = none

hatch_opens : (record_migration_check_failure ten_minutes key (run history)).1.hatch_open ≡ true
unfolding record_migration_check_failure run aerospike_ce_kubernetes.Restart.Budget.find
    aerospike_ce_kubernetes.Restart.Budget.sweep aerospike_ce_kubernetes.Restart.Budget.put
    aerospike_ce_kubernetes.Restart.Budget.same_key
hatch_opens = refl

hatch_warranted_example :
    let times = recent key (failed_at ten_minutes key ∷ history) in
    (max_migration_check_failures ≤ length times)
    × (any (λ t. leb (t + migration_check_failure_grace) ten_minutes) times ≡ true)
hatch_warranted_example = hatch_warranted history ten_minutes key hatch_opens

history-IsTended : IsTended key (failed_at ten_minutes key ∷ history)
unfolding recent aerospike_ce_kubernetes.Restart.Budget.same_key
history-IsTended =
    (omega arith, (omega arith, (omega arith, (omega arith, (omega arith, (tt, tt))))))

hatch_exact_example :
    (record_migration_check_failure ten_minutes key (run history)).1.hatch_open ≡ (
      leb max_migration_check_failures (suc (length (recent key history)))
      && leb migration_check_failure_grace (ten_minutes - oldest ten_minutes (recent key history)))
hatch_exact_example = hatch_exact history ten_minutes key history-IsTended

released :
    (is_batch_blocked spec key unanswered ten_minutes pods target (run history)).blocked ≡ false
unfolding is_batch_blocked record_migration_check_failure run restart_in_flight_reason
    is_readiness_gate_enabled aerospike_ce_kubernetes.Pod.Hashes.compare_pod_hashes
    aerospike_ce_kubernetes.Pod.annotation aerospike_ce_kubernetes.Pod.is_pod_ready
    aerospike_ce_kubernetes.Restart.Budget.find aerospike_ce_kubernetes.Restart.Budget.sweep
    aerospike_ce_kubernetes.Restart.Budget.put aerospike_ce_kubernetes.Restart.Budget.same_key
released = refl

is_batch_blocked_released_example :
    (restart_in_flight_reason pods target ≡ none)
    × (is_readiness_gate_enabled spec ≡ true → any_pod_gate_unsatisfied spec pods ≡ none)
    × (is_readiness_gate_enabled spec ≡ false
        → (unanswered ≡ some false) ⊎ ((unanswered ≡ none) × IsWarranted history ten_minutes key))
is_batch_blocked_released_example =
    is_batch_blocked_released spec key unanswered ten_minutes history pods target released
