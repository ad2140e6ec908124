-- ===== src/Breaker.antt =====
-- The circuit breaker of a reconcile: `calculateBackoff`, `handleReconcileError`,
-- `handleCircuitBreakerBackoff`, `resetFailedReconcileCount` and the tests at the head of `Reconcile`
-- in internal/controller/reconciler.go, with `HandlePause` and `HandleResume` of pause_handler.go.
-- What `Reconcile` does between the tests and its end is an outcome. The object that is fetched
-- again is the one at hand: no other writer is modelled. Counts are natural numbers, times seconds.
pub mod Backoff
pub mod Sticks
use aerospike_ce_kubernetes.Prelude.{
  ℕ, suc, ◌+◌, ◌^◌, min, String, Bool, true, false, not, ◌&&◌, ◌||◌, List, [], ◌∷◌, str_eq, ltb,
  leb, ◌==◌, if◌then◌else◌,
}

abbrev pub max_failed_reconciles : ℕ
max_failed_reconciles = 10

abbrev pub max_backoff_seconds : ℕ
max_backoff_seconds = 300

-- Five seconds.
abbrev pub default_reconcile_retry_interval : ℕ
default_reconcile_retry_interval = 5

unfoldable pub calculate_backoff : ℕ → ℕ
calculate_backoff fail_count =
    if fail_count == 0
    then default_reconcile_retry_interval
    else if ltb max_backoff_seconds (2 ^ min fail_count 9)
    then max_backoff_seconds
    else 2 ^ min fail_count 9

-- AerospikePhase, as far as the breaker tells phases apart.
pub data Phase : Type 0 where
  paused error config_degraded backoff_active in_progress other_phase : Phase

-- The fields of the resource's status.
pub record BreakerStatus : Type 0 where
  pub failed_count : ℕ
  pub last_error : String
  pub phase : Phase

-- An error of the reconcile, a permanent one (`IsValidation`) or another, with its text.
pub data Failure : Type 0 where
  validation transient : String → Failure

-- What the work between the tests and the end comes to: an early return that is no error, an
-- error, or success with the requeue that `reconcileCluster` asks for.
pub data Work : Type 0 where
  early : Work
  fails : Failure → Work
  succeeds : Work

abbrev pub is_failure : Work → Bool
is_failure (fails failure) = true
is_failure _ = false

-- `ctrl.Result` and the error.
pub data Result : Type 0 where
  idle requeue returned_error worked : Result
  requeue_after : ℕ → Result

-- The resource's flag, and which calls of the API server succeed in this reconcile.
pub record Turn : Type 0 where
  pub is_paused : Bool
  pub pause_written : Bool
  pub resume_written : Bool
  pub phase_written : Bool
  pub refetched : Bool
  pub updated : Bool
  pub work : Work

-- The status that an error is counted in.
count_error : Failure → BreakerStatus → BreakerStatus
count_error (validation text) s = record s {
  failed_count = max_failed_reconciles;
  last_error = text;
}
count_error (transient text) s = record s { failed_count = suc s.failed_count; last_error = text }

unfoldable pub handle_reconcile_error : Turn → Failure → BreakerStatus → BreakerStatus × Result
unfolding count_error
handle_reconcile_error turn failure s =
    let s' = count_error failure s in
    if turn.refetched && turn.updated
    then (s', requeue_after (calculate_backoff s'.failed_count))
    else (s, returned_error)

abbrev pub is_backoff_active : Phase → Bool
is_backoff_active backoff_active = true
is_backoff_active _ = false

abbrev pub is_paused_phase : Phase → Bool
is_paused_phase paused = true
is_paused_phase _ = false

abbrev pub is_config_degraded : Phase → Bool
is_config_degraded config_degraded = true
is_config_degraded _ = false

abbrev is_error : Phase → Bool
is_error error = true
is_error _ = false

unfoldable pub handle_circuit_breaker_backoff : Turn → BreakerStatus → BreakerStatus × Result
handle_circuit_breaker_backoff turn s = (
  if not (is_backoff_active s.phase) && turn.phase_written
      then record s { phase = backoff_active }
      else s,
  requeue_after (calculate_backoff s.failed_count),
)

unfoldable pub reset_failed_reconcile_count : Turn → BreakerStatus → BreakerStatus
reset_failed_reconcile_count turn s =
    if not (turn.refetched && turn.updated)
    then s
    else if s.failed_count == 0 && str_eq s.last_error "" && not (is_backoff_active s.phase)
    then s
    else record {
      failed_count = 0;
      last_error = "";
      phase = if is_backoff_active s.phase then in_progress else s.phase;
    }

-- After the tests.
after_work : Turn → Work → BreakerStatus → BreakerStatus × Result
unfolding handle_reconcile_error reset_failed_reconcile_count
after_work turn early s = (s, worked)
after_work turn (fails failure) s = handle_reconcile_error turn failure s
after_work turn succeeds s =
    (if ltb 0 s.failed_count then reset_failed_reconcile_count turn s else s, worked)

-- From the breaker's test on.
unless_open : Turn → BreakerStatus → BreakerStatus × Result
unfolding after_work handle_circuit_breaker_backoff
unless_open turn s =
    if leb max_failed_reconciles s.failed_count
    then handle_circuit_breaker_backoff turn s
    else if is_config_degraded s.phase
    then (s, requeue_after 60)
    else after_work turn turn.work s

-- `HandlePause` and `HandleResume`.
handle_pause : Turn → BreakerStatus → BreakerStatus × Result
handle_pause turn s =
    if turn.pause_written then (record s { phase = paused }, idle) else (s, returned_error)

cleared : BreakerStatus → BreakerStatus
cleared s =
    if is_paused_phase s.phase || is_error s.phase
    then record s { failed_count = 0; last_error = "" }
    else s

unfoldable pub reconcile : Turn → BreakerStatus → BreakerStatus × Result
unfolding unless_open handle_pause cleared
reconcile turn s =
    if turn.is_paused
    then handle_pause turn s
    else if is_paused_phase s.phase
    then (if turn.resume_written then unless_open turn (cleared s) else (s, requeue))
    else unless_open turn s

-- Reconciles one after the other.
unfoldable pub reconciles : List Turn → BreakerStatus → BreakerStatus
reconciles [] s = s
reconciles (turn ∷ rest) s = reconciles rest (reconcile turn s).0
