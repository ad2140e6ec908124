-- ===== src/Restart/Budget/Hatch.antt =====
-- The escape hatch opens only when the history warrants it.
use aerospike_ce_kubernetes.Prelude.{
  ℕ, ◌+◌, ◌≤◌, ◌≡◌, true, some, List, [], ◌∷◌, arith, All, any, length, leb, ◌==◌, filter,
  Bool-cases, Option-cases, inl, inr,
}
use aerospike_ce_kubernetes.Restart.Budget.{
  Key, same_key, MigrationCheckState, Table, find, remove, sweep, put,
  record_migration_check_failure, clear_migration_check_failures, max_migration_check_failures,
  migration_check_failure_grace, bumped, verdict,
}
use aerospike_ce_kubernetes.Restart.Budget.Facts.{same_key_iff, same_key_refl, All-filter}
use aerospike_ce_kubernetes.Restart.Budget.History.{Check, failed_at, answered, run, recent}

-- The state is no more than the history warrants.
abbrev IsJustified : List Check → Key → MigrationCheckState → Type 0
IsJustified h k s =
    (s.failures ≤ length (recent k h)) × (any (λ t. t == s.first_seen) (recent k h) ≡ true)

abbrev AllJustified : List Check → Table → Type 0
AllJustified h = All (λ e. IsJustified h e.key e.state)

-- A further failure of any rack leaves old entries justified.
AllJustified-failed_at :
    (now : ℕ) (j : Key) (h : List Check) (t : Table)
    → AllJustified h t
    → AllJustified (failed_at now j ∷ h) t
unfolding recent
AllJustified-failed_at now j h [] a = tt
AllJustified-failed_at now j h (e ∷ rest) a =
    (ground (arith, a.0), AllJustified-failed_at now j h rest a.1)

-- An answer leaves the entries of the other racks justified.
AllJustified-answered :
    (j : Key) (h : List Check) (t : Table)
    → AllJustified h t
    → AllJustified (answered j ∷ h) (remove j t)
unfolding recent remove
AllJustified-answered j h [] a = tt
AllJustified-answered j h (e ∷ rest) a = elim (Bool-cases (same_key e.key j)) [
  | inl own ↦ rw own (AllJustified-answered j h rest a.1)
  | inr other ↦ rw other (
    ground (arith, a.0, same_key_iff e.key j, same_key_iff j e.key),
    AllJustified-answered j h rest a.1,
  )
]

clear-AllJustified :
    (j : Key) (h : List Check) (t : Table)
    → AllJustified h t
    → AllJustified (answered j ∷ h) (clear_migration_check_failures j t)
unfolding clear_migration_check_failures
clear-AllJustified j h t a = AllJustified-answered j h t a

find-IsJustified :
    (k : Key) (h : List Check) (t : Table) (s : MigrationCheckState)
    → AllJustified h t
    → find k t ≡ some s
    → IsJustified h k s
unfolding find
find-IsJustified k h [] s a f = cc
find-IsJustified k h (e ∷ rest) s a f =
    ground (arith, a.0, same_key_iff e.key k, find-IsJustified k h rest s a.1)

bumped-IsJustified :
    (now : ℕ) (k : Key) (h : List Check) (t : Table)
    → AllJustified h t
    → IsJustified (failed_at now k ∷ h) k (bumped now (find k (sweep now t)))
bumped-IsJustified now k h t a = elim (Option-cases (find k (sweep now t))) [
  | inl new ↦ rw new (unfold recent bumped in ground (arith, same_key_refl k))
  | inr (s, old) ↦ rw old (
      unfold recent bumped in
      ground (
        arith,
        same_key_refl k,
        find-IsJustified k h (sweep now t) s (unfold sweep in All-filter _ _ t a),
      ))
]

record-AllJustified :
    (now : ℕ) (k : Key) (h : List Check) (t : Table)
    → AllJustified h t
    → AllJustified (failed_at now k ∷ h) (record_migration_check_failure now k t).0
record-AllJustified now k h t a =
    unfold record_migration_check_failure put remove sweep in
    (
      bumped-IsJustified now k h t a,
      All-filter _ _ (filter _ t) (All-filter _ _ t (AllJustified-failed_at now k h t a)),
    )

run-AllJustified : (h : List Check) → AllJustified h (run h)
unfolding run
run-AllJustified [] = tt
run-AllJustified (failed_at now k ∷ h) = record-AllJustified now k h (run h) (run-AllJustified h)
run-AllJustified (answered k ∷ h) = clear-AllJustified k h (run h) (run-AllJustified h)

any-old_enough :
    (first now : ℕ) (times : List ℕ)
    → any (λ t. t == first) times ≡ true
    → first + migration_check_failure_grace ≤ now
    → any (λ t. leb (t + migration_check_failure_grace) now) times ≡ true
any-old_enough first now [] h old = cc
any-old_enough first now (t ∷ rest) h old = ground (arith, any-old_enough first now rest)

verdict_warranted :
    (now : ℕ) (s : MigrationCheckState) (times : List ℕ)
    → (s.failures ≤ length times) × (any (λ t. t == s.first_seen) times ≡ true)
    → (verdict now s).hatch_open ≡ true
    → (max_migration_check_failures ≤ length times)
      × (any (λ t. leb (t + migration_check_failure_grace) now) times ≡ true)
unfolding verdict
verdict_warranted now s times j o = ground (arith, any-old_enough s.first_seen now times)

-- After any history of checks of any racks, the hatch opens for a rack only if the rack's checks
-- have failed at least five times since they last answered, the failure at hand included, and one
-- of these failures is at least ten minutes old.
pub hatch_warranted :
    (h : List Check) (now : ℕ) (k : Key)
    → (record_migration_check_failure now k (run h)).1.hatch_open ≡ true
    → let times = recent k (failed_at now k ∷ h) in
      (max_migration_check_failures ≤ length times)
      × (any (λ t. leb (t + migration_check_failure_grace) now) times ≡ true)
hatch_warranted h now k open_hatch =
    verdict_warranted now (bumped now (find k (sweep now (run h)))) (recent k (failed_at now k ∷ h))
      (bumped-IsJustified now k h (run h) (run-AllJustified h))
      (unfold record_migration_check_failure in open_hatch)
