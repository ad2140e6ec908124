-- ===== src/Restart/Block.antt =====
-- Whether the next batch waits: `isBatchBlocked` of internal/controller/reconciler_restart.go.
-- `probe` is the answer of `checkMigrationInProgress`, `none` its error; `now` is the clock when
-- that answer is recorded.
pub mod Laws
use aerospike_ce_kubernetes.Prelude.{
  ℕ, String, Bool, true, false, Option, none, some, List, if◌then◌else◌,
}
use aerospike_ce_kubernetes.Cluster.{Spec}
use aerospike_ce_kubernetes.Pod.{Pod}
use aerospike_ce_kubernetes.Pod.Gate.{is_readiness_gate_enabled, any_pod_gate_unsatisfied}
use aerospike_ce_kubernetes.Restart.InFlight.{RackRestartTarget, Reason, restart_in_flight_reason}
use aerospike_ce_kubernetes.Restart.Budget.{
  Key, Table, Verdict, record_migration_check_failure, clear_migration_check_failures,
}

-- The event that is recorded with the decision.
pub data Note : Type 0 where
  in_flight : Reason → Note
  gate_blocking : String → Note
  check_failed : Verdict → Note
  check_unavailable : Verdict → Note
  migrating : Note

pub record Decision : Type 0 where
  pub blocked : Bool
  pub table : Table
  pub note : Option Note

by_gate : Option String → Table → Decision
by_gate (some pod) table = record { blocked = true; table = table; note = some (gate_blocking pod) }
by_gate none table = record { blocked = false; table = table; note = none }

after_failure : Table × Verdict → Decision
after_failure (table, verdict) =
    if verdict.hatch_open
    then record { blocked = false; table = table; note = some (check_unavailable verdict) }
    else record { blocked = true; table = table; note = some (check_failed verdict) }

by_probe : Option Bool → ℕ → Key → Table → Decision
unfolding after_failure
by_probe none now key table = after_failure (record_migration_check_failure now key table)
by_probe (some true) now key table = record {
  blocked = true;
  table = clear_migration_check_failures key table;
  note = some migrating;
}
by_probe (some false) now key table = record {
  blocked = false;
  table = clear_migration_check_failures key table;
  note = none;
}

module _ (spec : Spec) (key : Key) (probe : Option Bool) (now : ℕ) where
  unfoldable pub is_batch_blocked : List Pod → RackRestartTarget → Table → Decision
  unfolding by_gate by_probe
  is_batch_blocked pods target table = elim (restart_in_flight_reason pods target) [
    | some reason ↦ record { blocked = true; table = table; note = some (in_flight reason) }
    | none ↦
        if is_readiness_gate_enabled spec
        then by_gate (any_pod_gate_unsatisfied spec pods) table
        else by_probe probe now key table
  ]
