-- ===== src/DynamicConfig/Batch.antt =====
-- The two-phase commit over a batch: `tryDynamicConfigUpdateBatch` of
-- internal/controller/reconciler_dynamic_config.go. `node_of` is `findNodeForPod`.
mod Growth
pub mod Atomic
use aerospike_ce_kubernetes.Prelude.{
  String, Bool, true, false, not, Option, none, some, List, [], ◌∷◌, ◌++◌, str_eq, if◌then◌else◌,
}
use aerospike_ce_kubernetes.Env.{
  Env, Action, ◌>>=◌, ◌>>◌, pure, send, patch_config_hash, dynamic_status, dynamic_changes,
}
use aerospike_ce_kubernetes.ConfigDiff.Values.{Value, Fields, Numbers}
use aerospike_ce_kubernetes.ConfigDiff.{Change, DiffResult, has_changes, has_static_changes}
use aerospike_ce_kubernetes.ConfigDiff.Diff.{diff}
use aerospike_ce_kubernetes.DynamicConfig.{
  AppliedChange, RollbackResult, PodDynamicUpdate, Target, validate_dynamic_config_on_pod,
  apply_dynamic_config_on_pod, rollback_dynamic_changes_with_result, rollback_dynamic_changes_batch,
}

-- `(allSucceeded, perPodResults, rollbackResult)`
pub record Outcome (N : Type 0) : Type 0 where
  pub all_ok : Bool
  pub updates : List (PodDynamicUpdate N)
  pub rolled_back : Option RollbackResult

abbrev pub aborted : {N : Type 0} → Outcome N
aborted = record { all_ok = false; updates = []; rolled_back = none }

with_target : String → Option String → Option (List Target) → Option (List Target)
with_target pod none rest = none
with_target pod (some node) none = none
with_target pod (some node) (some targets) = some (record { pod = pod; node = node } ∷ targets)

-- Every pod's node, `none` if one is missing.
unfoldable pub resolve_targets : (String → Option String) → List String → Option (List Target)
unfolding with_target
resolve_targets node_of [] = some []
resolve_targets node_of (pod ∷ rest) = with_target pod (node_of pod) (resolve_targets node_of rest)

module _ {N : Type 0} (env : Env) (format : Value N → String) (desired_hash : String) where
  -- Phase 1: true where every pod passes.
  unfoldable pub validate_all : List (Change N) → List Target → Action Bool
  validate_all changes [] log = (true, log)
  validate_all changes (t ∷ rest) log =
      let go =
        (do
          valid ← validate_dynamic_config_on_pod env format t.node changes
          if valid then validate_all changes rest else pure false)
          log in
      if env.expired log then (false, log) else go

  pub roll_back : List (PodDynamicUpdate N) → Action (Outcome N)
  roll_back successful = do
    result ← rollback_dynamic_changes_batch env format successful
    pure (record { all_ok = false; updates = []; rolled_back = some result })

  -- `if desiredHash != ""`; a failure is logged only.
  pub stamp : String → Action (Unit {0})
  stamp pod =
      if str_eq desired_hash ""
      then pure tt
      else (do reply ← send env (patch_config_hash pod desired_hash); pure tt)

  -- What follows the commands on one pod; `later` is the rest of the loop.
  pub after_apply :
      Target
      → List (PodDynamicUpdate N)
      → (List (PodDynamicUpdate N) → Action (Outcome N))
      → List (AppliedChange N) × Bool
      → Action (Outcome N)
  unfolding roll_back stamp
  after_apply t successful later (applied, false) = do
    own ← rollback_dynamic_changes_with_result env format t.node applied
    roll_back successful
  after_apply t successful later (applied, true) = do
    stamp t.pod
    status ← send env (dynamic_status t.pod)
    changes ← send env (dynamic_changes t.pod)
    later (successful ++ (record { pod_name = t.pod; node = t.node; applied = applied } ∷ []))

  -- Phase 2, from the updates that have succeeded.
  unfoldable pub apply_all :
      List (Change N) → List Target → List (PodDynamicUpdate N) → Action (Outcome N)
  unfolding after_apply roll_back
  apply_all changes [] successful log =
      (record { all_ok = true; updates = successful; rolled_back = none }, log)
  apply_all changes (t ∷ rest) successful log =
      let go =
        (do
          r ← apply_dynamic_config_on_pod env format t.node changes
          after_apply t successful (λ s. apply_all changes rest s) r)
          log in
      let stop = roll_back successful log in if env.expired log then stop else go

  phase_two : List (Change N) → List Target → Bool → Action (Outcome N)
  phase_two changes targets false = pure aborted
  phase_two changes targets true = apply_all changes targets []

  -- Both phases, once the targets are resolved.
  two_phases : List (Change N) → Option (List Target) → Action (Outcome N)
  unfolding phase_two
  two_phases changes none = pure aborted
  two_phases changes (some targets) = do
    valid ← validate_all changes targets
    phase_two changes targets valid

  abbrev is_enabled : Option Bool → Bool
  is_enabled none = false
  is_enabled (some enabled) = enabled

  unfoldable pub try_dynamic_config_update_batch :
      Numbers N
      → Option Bool
      → (String → Option String)
      → List String
      → Fields N
      → Fields N
      → Action (Outcome N)
  unfolding two_phases
  try_dynamic_config_update_batch n enabled node_of pods old_config new_config =
      let d = diff n old_config new_config in
      if not (is_enabled enabled)
      then pure aborted
      else if not (has_changes d)
      then pure aborted
      else if has_static_changes d
      then pure aborted
      else two_phases d.dynamic (resolve_targets node_of pods)
