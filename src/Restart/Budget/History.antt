-- ===== src/Restart/Budget/History.antt =====
-- Histories of migration checks, newest first, of any number of racks.
use aerospike_ce_kubernetes.Prelude.{ℕ, List, [], ◌∷◌, if◌then◌else◌}
use aerospike_ce_kubernetes.Restart.Budget.{
  Key, same_key, Table, record_migration_check_failure, clear_migration_check_failures,
}

-- A check that failed at a time, or one that answered.
pub data Check : Type 0 where
  failed_at : ℕ → Key → Check
  answered : Key → Check

-- The table that a history leaves behind, from an operator's start.
unfoldable pub run : List Check → Table
run [] = []
run (failed_at now k ∷ earlier) = (record_migration_check_failure now k (run earlier)).0
run (answered k ∷ earlier) = clear_migration_check_failures k (run earlier)

-- The times of a rack's failures since its last answer, newest first.
unfoldable pub recent : Key → List Check → List ℕ
recent k [] = []
recent k (failed_at now j ∷ earlier) =
    let rest = recent k earlier in if same_key j k then now ∷ rest else rest
recent k (answered j ∷ earlier) = let rest = recent k earlier in if same_key j k then [] else rest
