-- ===== src/Restart/Budget.antt =====
-- The budget of failed migration checks: `migrationCheckState`, `recordMigrationCheckFailure`,
-- `sweepMigrationCheckStateLocked` and `clearMigrationCheckFailures` of
-- internal/controller/reconciler_restart.go. The map stands as a list of entries, its string key
-- "UID/rack" as the pair that it is printed from. Times are nanoseconds of a clock that does not
-- run backwards; every operation holds the mutex, so a history is a sequence of operations.
mod Facts
pub mod History
pub mod Hatch
pub mod Exact
use aerospike_ce_kubernetes.Prelude.{
  ℕ, suc, ◌-◌, String, Bool, true, false, not, ◌&&◌, Option, none, some, List, [], ◌∷◌, str_eq, leb,
  ltb, ◌==◌, filter, if◌then◌else◌,
}
use aerospike_ce_kubernetes.Prelude.Int.{ℤ, pos, negsuc}
use aerospike_ce_kubernetes.Restart.Selection.{max_pod_unstable_duration}

abbrev pub max_migration_check_failures : ℕ
max_migration_check_failures = 5

abbrev pub migration_check_failure_grace : ℕ
migration_check_failure_grace = max_pod_unstable_duration

-- One hour.
abbrev pub migration_check_state_ttl : ℕ
migration_check_state_ttl = 3600000000000

abbrev pub on_demand_operation_rack_id : ℤ
on_demand_operation_rack_id = negsuc 0

pub record Key : Type 0 where
  pub uid : String
  pub rack : ℤ

abbrev same_int : ℤ → ℤ → Bool
same_int (pos a) (pos b) = a == b
same_int (negsuc a) (negsuc b) = a == b
same_int _ _ = false

unfoldable pub same_key : Key → Key → Bool
same_key a b = str_eq a.uid b.uid && same_int a.rack b.rack

pub record MigrationCheckState : Type 0 where
  pub failures : ℕ
  pub first_seen : ℕ
  pub last_seen : ℕ

pub record Entry : Type 0 where
  pub key : Key
  pub state : MigrationCheckState

abbrev pub Table : Type 0
Table = List Entry

unfoldable pub find : Key → Table → Option MigrationCheckState
find k [] = none
find k (e ∷ rest) = if same_key e.key k then some e.state else find k rest

unfoldable pub remove : Key → Table → Table
remove k = filter (λ e. not (same_key e.key k))

unfoldable pub sweep : ℕ → Table → Table
sweep now = filter (λ e. not (ltb migration_check_state_ttl (now - e.state.last_seen)))

unfoldable pub put : Key → MigrationCheckState → Table → Table
unfolding remove
put k state table = record { key = k; state = state } ∷ remove k table

abbrev found_or_new : ℕ → Option MigrationCheckState → MigrationCheckState
found_or_new now none = record { failures = 0; first_seen = now; last_seen = now }
found_or_new now (some state) = state

pub record Verdict : Type 0 where
  pub failures : ℕ
  pub elapsed : ℕ
  pub hatch_open : Bool

-- The state of a rack after one more failure.
bumped : ℕ → Option MigrationCheckState → MigrationCheckState
bumped now old =
    let state = found_or_new now old in
    record state { failures = suc state.failures; last_seen = now }

verdict : ℕ → MigrationCheckState → Verdict
verdict now state =
    let elapsed = now - state.first_seen in
    record {
      failures = state.failures;
      elapsed = elapsed;
      hatch_open =
          leb max_migration_check_failures state.failures
          && leb migration_check_failure_grace elapsed;
    }

unfoldable pub record_migration_check_failure : ℕ → Key → Table → Table × Verdict
unfolding bumped verdict
record_migration_check_failure now k table =
    let swept = sweep now table in
    let state = bumped now (find k swept) in (put k state swept, verdict now state)

unfoldable pub clear_migration_check_failures : Key → Table → Table
unfolding remove
clear_migration_check_failures k table = remove k table
