-- ===== src/DynamicConfig.antt =====
-- Dynamic configuration in two phases: internal/controller/reconciler_dynamic_config.go. A node is
-- named by its pod, and `node_of` is `findNodeForPod` on the client's nodes.
pub mod Command
mod Growth
pub mod Batch
use aerospike_ce_kubernetes.Prelude.{
  ℕ, suc, String, Bool, true, false, not, Option, none, some, List, [], ◌∷◌, ◌++◌, str_eq, length,
  ◌==◌, if◌then◌else◌,
}
use mathlib.Core.List.{reverse}
use aerospike_ce_kubernetes.Env.{
  Env, Action, Reply, ok, ◌>>=◌, ◌>>◌, pure, send, is_ok, probe_node, set_config, patch_config_hash,
  dynamic_status, dynamic_changes,
}
use aerospike_ce_kubernetes.ConfigDiff.Values.{Value, Fields, Numbers}
use aerospike_ce_kubernetes.ConfigDiff.{Change, DiffResult, has_changes, has_static_changes}
use aerospike_ce_kubernetes.ConfigDiff.Diff.{diff}
use aerospike_ce_kubernetes.DynamicConfig.Command.{
  build_set_config_command, build_rollback_command, validate_dynamic_changes,
}

pub record AppliedChange (N : Type 0) : Type 0 where
  pub change : Change N
  pub rollback : Option String

pub record RollbackResult : Type 0 where
  pub success_count : ℕ
  pub failed_count : ℕ
  pub failed_pods : List String

abbrev pub no_rollback : RollbackResult
no_rollback = record { success_count = 0; failed_count = 0; failed_pods = [] }

unfoldable pub has_failures : RollbackResult → Bool
has_failures r = not (r.failed_count == 0)

pub record PodDynamicUpdate (N : Type 0) : Type 0 where
  pub pod_name : String
  pub node : String
  pub applied : List (AppliedChange N)

-- A pod of the batch with its node.
pub record Target : Type 0 where
  pub pod : String
  pub node : String

module _ {N : Type 0} (env : Env) (format : Value N → String) where
  -- True where the pod passes.
  unfoldable pub validate_dynamic_config_on_pod : String → List (Change N) → Action Bool
  validate_dynamic_config_on_pod node changes =
      if not (validate_dynamic_changes format changes) then pure false else (do
        reply ← send env (probe_node node)
        pure (elim reply [ Reply.failure ↦ false | _ ↦ true ]))

  applied_with : Change N → List (AppliedChange N) × Bool → List (AppliedChange N) × Bool
  applied_with change (rest, done) =
      (record { change = change; rollback = build_rollback_command format change } ∷ rest, done)

  -- What the node's answer decides; `later` is the rest of the loop.
  continue_if :
      Bool
      → Change N
      → Action (List (AppliedChange N) × Bool)
      → Action (List (AppliedChange N) × Bool)
  unfolding applied_with
  continue_if false change later = pure ([], false)
  continue_if true change later = do r ← later; pure (applied_with change r)

  -- One change of the loop.
  apply_change :
      String
      → Change N
      → Option String
      → Action (List (AppliedChange N) × Bool)
      → Action (List (AppliedChange N) × Bool)
  unfolding continue_if
  apply_change node change none later = pure ([], false)
  apply_change node change (some cmd) later = do
    reply ← send env (set_config node cmd)
    continue_if (is_ok reply) change later

  unfoldable pub apply_dynamic_config_on_pod :
      String → List (Change N) → Action (List (AppliedChange N) × Bool)
  unfolding apply_change
  apply_dynamic_config_on_pod node [] log = (([], true), log)
  apply_dynamic_config_on_pod node (change ∷ rest) log =
      let go =
        apply_change node change (build_set_config_command format change)
          (apply_dynamic_config_on_pod node rest) log in
      if env.pod_expired log then (([], false), log) else go

  counted : Bool → RollbackResult → RollbackResult
  counted true r = record r { success_count = suc r.success_count }
  counted false r = record r { failed_count = suc r.failed_count }

  roll_back_change : String → Option String → Action Bool
  roll_back_change node none = pure false
  roll_back_change node (some cmd) = do reply ← send env (set_config node cmd); pure (is_ok reply)

  -- The loop from the last change to the first, over the reversed list.
  roll_back_changes : String → RollbackResult → List (AppliedChange N) → Action RollbackResult
  unfolding counted roll_back_change
  roll_back_changes node result [] = pure result
  roll_back_changes node result (ac ∷ rest) = do
    done ← roll_back_change node ac.rollback
    roll_back_changes node (counted done result) rest

  unfoldable pub rollback_dynamic_changes_with_result :
      String → List (AppliedChange N) → Action RollbackResult
  unfolding roll_back_changes
  rollback_dynamic_changes_with_result node applied =
      roll_back_changes node no_rollback (reverse applied)

  pod_counted : String → RollbackResult → RollbackResult → RollbackResult
  unfolding has_failures
  pod_counted pod pod_result r =
      if has_failures pod_result
      then record {
        success_count = r.success_count;
        failed_count = suc r.failed_count;
        failed_pods = r.failed_pods ++ (pod ∷ []);
      }
      else record r { success_count = suc r.success_count }

  roll_back_pods : RollbackResult → List (PodDynamicUpdate N) → Action RollbackResult
  unfolding pod_counted
  roll_back_pods result [] = pure result
  roll_back_pods result (du ∷ rest) = do
    pod_result ← rollback_dynamic_changes_with_result du.node du.applied
    roll_back_pods (pod_counted du.pod_name pod_result result) rest

  unfoldable pub rollback_dynamic_changes_batch : List (PodDynamicUpdate N) → Action RollbackResult
  unfolding roll_back_pods
  rollback_dynamic_changes_batch updates = roll_back_pods no_rollback (reverse updates)
