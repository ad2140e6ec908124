-- ===== src/Restart/Budget/Exact.antt =====
-- The escape hatch opens exactly when the history of a tended rack says so.
use aerospike_ce_kubernetes.Prelude.{
  ℕ, suc, ◌-◌, ◌≤◌, ◌≡◌, refl, ◌&&◌, Option, none, some, List, [], ◌∷◌, arith, length, leb,
  if◌then◌else◌,
}
use aerospike_ce_kubernetes.Restart.Budget.{
  Key, same_key, MigrationCheckState, Table, find, sweep, record_migration_check_failure,
  clear_migration_check_failures, max_migration_check_failures, migration_check_failure_grace,
  migration_check_state_ttl, bumped, verdict,
}
use aerospike_ce_kubernetes.Restart.Budget.Facts.{
  same_key_iff, find-remove, find-put, find-sweep_fresh, find-sweep-none,
}
use aerospike_ce_kubernetes.Restart.Budget.History.{Check, failed_at, answered, run, recent}

-- The oldest time of a list that ends with `t`.
abbrev pub oldest : ℕ → List ℕ → ℕ
oldest t [] = t
oldest t (u ∷ rest) = oldest u rest

-- Every sweep finds the rack's entry, if it has one, within the hour.
abbrev IsFresh : ℕ → List ℕ → Type 0
IsFresh now [] = Unit
IsFresh now (t ∷ rest) = now - t ≤ migration_check_state_ttl

abbrev pub IsTended : Key → List Check → Type 0
IsTended k [] = Unit
IsTended k (failed_at now j ∷ h) = IsFresh now (recent k h) × IsTended k h
IsTended k (answered j ∷ h) = IsTended k h

state_of : List ℕ → Option MigrationCheckState
state_of [] = none
state_of (t ∷ rest) =
    some (record { failures = suc (length rest); first_seen = oldest t rest; last_seen = t })

find-sweep-state_of :
    (now : ℕ) (k : Key) (t : Table) (times : List ℕ)
    → find k t ≡ state_of times
    → IsFresh now times
    → find k (sweep now t) ≡ state_of times
unfolding state_of
find-sweep-state_of now k t [] e fresh = find-sweep-none now k t e
find-sweep-state_of now k t (u ∷ rest) e fresh = find-sweep_fresh now k t _ e fresh

bumped-state_of :
    (now : ℕ) (times : List ℕ) → some (bumped now (state_of times)) ≡ state_of (now ∷ times)
unfolding bumped state_of
bumped-state_of now [] = refl
bumped-state_of now (t ∷ rest) = refl

find-record :
    (now : ℕ) (k j : Key) (t : Table) (times : List ℕ)
    → find k t ≡ state_of times
    → IsFresh now times
    → find k (record_migration_check_failure now j t).0
      ≡ state_of (if same_key j k then now ∷ times else times)
unfolding record_migration_check_failure
find-record now k j t times e fresh = ground (
  arith,
  find-put j k (bumped now (find j (sweep now t))) (sweep now t),
  same_key_iff j k,
  find-sweep-state_of now k t times,
  bumped-state_of now times,
)

find-clear :
    (k j : Key) (t : Table) (times : List ℕ)
    → find k t ≡ state_of times
    → find k (clear_migration_check_failures j t) ≡ state_of (if same_key j k then [] else times)
unfolding clear_migration_check_failures state_of
find-clear k j t times e = ground (arith, find-remove j k t)

find-run : (k : Key) (h : List Check) → IsTended k h → find k (run h) ≡ state_of (recent k h)
unfolding run recent
find-run k [] tended = unfold find state_of in refl
find-run k (failed_at now j ∷ h) tended =
    find-record now k j (run h) (recent k h) (find-run k h tended.1) tended.0
find-run k (answered j ∷ h) tended = find-clear k j (run h) (recent k h) (find-run k h tended)

verdict-state_of :
    (now : ℕ) (times : List ℕ)
    → (verdict now (bumped now (state_of times))).hatch_open ≡ (
        leb max_migration_check_failures (suc (length times))
        && leb migration_check_failure_grace (now - oldest now times))
unfolding verdict bumped state_of
verdict-state_of now [] = refl
verdict-state_of now (t ∷ rest) = refl

-- Where no sweep finds the rack's last failure more than an hour old, the hatch opens exactly when
-- the rack's checks have failed five times since they last answered, the failure at hand included,
-- and the first of these failures is ten minutes old: other racks neither spend the budget nor
-- reset it, and it does open.
pub hatch_exact :
    (h : List Check) (now : ℕ) (k : Key)
    → IsTended k (failed_at now k ∷ h)
    → (record_migration_check_failure now k (run h)).1.hatch_open ≡ (
        leb max_migration_check_failures (suc (length (recent k h)))
        && leb migration_check_failure_grace (now - oldest now (recent k h)))
hatch_exact h now k tended =
    unfold record_migration_check_failure in
    rw (find-sweep-state_of now k (run h) (recent k h) (find-run k h tended.1) tended.0)
      (verdict-state_of now (recent k h))
