-- ===== src/Examples/Breaking.antt =====
-- The circuit breaker at concrete inputs.
use aerospike_ce_kubernetes.Prelude.{◌+◌, ◌≤◌, min, true, false, ◌≡◌, refl, [], ◌∷◌, length, arith}
use aerospike_ce_kubernetes.Breaker.{
  BreakerStatus, in_progress, backoff_active, Turn, succeeds, fails, transient, calculate_backoff,
  max_backoff_seconds, max_failed_reconciles, reconciles,
}
use aerospike_ce_kubernetes.Breaker.Backoff.{calculate_backoff_bounds}
use aerospike_ce_kubernetes.Breaker.Sticks.{IsOpen, reconciles-IsOpen, reconciles-opens}

calculate_backoff_bounds_example :
    (2 ≤ calculate_backoff 3)
    × (calculate_backoff 3 ≤ max_backoff_seconds)
    × (1 ≤ 3 → calculate_backoff 3 ≤ calculate_backoff 4)
    × (9 ≤ 3 → calculate_backoff 3 ≡ max_backoff_seconds)
calculate_backoff_bounds_example = calculate_backoff_bounds 3

-- Every write succeeds, and so would the work.
abbrev healthy : Turn
healthy = record {
  is_paused = false;
  pause_written = true;
  resume_written = true;
  phase_written = true;
  refetched = true;
  updated = true;
  work = succeeds;
}

abbrev failing : Turn
failing = record healthy { work = fails (transient "timeout") }

abbrev tripped : BreakerStatus
tripped = record { failed_count = 10; last_error = "timeout"; phase = backoff_active }

tripped-IsOpen : IsOpen tripped
tripped-IsOpen = record { count = omega arith; running = refl }

reconciles-IsOpen_example : IsOpen (reconciles (healthy ∷ failing ∷ healthy ∷ []) tripped)
reconciles-IsOpen_example =
    reconciles-IsOpen (healthy ∷ failing ∷ healthy ∷ []) tripped refl tripped-IsOpen

abbrev fresh : BreakerStatus
fresh = record { failed_count = 8; last_error = "timeout"; phase = in_progress }

reconciles-opens_example :
    min (8 + length (failing ∷ failing ∷ [])) max_failed_reconciles
    ≤ (reconciles (failing ∷ failing ∷ []) fresh).failed_count
reconciles-opens_example = reconciles-opens (failing ∷ failing ∷ []) fresh refl refl refl
