-- ===== src/DynamicConfig/Growth.antt =====
-- The parts of the two-phase commit only add to the log.
use mathlib.Core.List.{reverse}
use aerospike_ce_kubernetes.Prelude.{
  String, Bool, true, false, Option, none, some, List, [], ◌∷◌, Bool-cases, inl, inr,
}
use aerospike_ce_kubernetes.Env.{Env, Action, send, set_config, is_ok}
use aerospike_ce_kubernetes.Env.Sent.{same, Grows, Grows-pure, Grows-send, Grows-bind, grows_rules}
use aerospike_ce_kubernetes.ConfigDiff.Values.{Value}
use aerospike_ce_kubernetes.ConfigDiff.{Change}
use aerospike_ce_kubernetes.DynamicConfig.{
  AppliedChange, RollbackResult, PodDynamicUpdate, validate_dynamic_config_on_pod, applied_with,
  continue_if, apply_change, apply_dynamic_config_on_pod, counted, roll_back_change,
  roll_back_changes, rollback_dynamic_changes_with_result, pod_counted, roll_back_pods,
  rollback_dynamic_changes_batch,
}
use aerospike_ce_kubernetes.DynamicConfig.Command.{build_set_config_command}

module _ {N : Type 0} (env : Env) (format : Value N → String) where
  pub validate-Grows :
      (node : String) (changes : List (Change N))
      → Grows (validate_dynamic_config_on_pod env format node changes)
  unfolding validate_dynamic_config_on_pod
  validate-Grows node changes = search grows_rules

  continue_if-Grows :
      (b : Bool) (change : Change N) (later : Action (List (AppliedChange N) × Bool))
      → Grows later
      → Grows (continue_if env format b change later)
  unfolding continue_if
  continue_if-Grows false change later g = Grows-pure _
  continue_if-Grows true change later g =
      Grows-bind later _ g (λ r. Grows-pure (applied_with env format change r))

  apply_change-Grows :
      (node : String) (change : Change N) (cmd : Option String)
      (later : Action (List (AppliedChange N) × Bool))
      → Grows later
      → Grows (apply_change env format node change cmd later)
  unfolding apply_change
  apply_change-Grows node change none later g = search grows_rules
  apply_change-Grows node change (some cmd) later g =
      Grows-bind (send env (set_config node cmd)) _ (Grows-send env (set_config node cmd))
        (λ reply. continue_if-Grows (is_ok reply) change later g)

  pub apply-Grows :
      (node : String) (changes : List (Change N))
      → Grows (apply_dynamic_config_on_pod env format node changes)
  unfolding apply_dynamic_config_on_pod
  apply-Grows node [] = record { at = λ log. same }
  apply-Grows node (c ∷ rest) =
      let g =
        apply_change-Grows node c (build_set_config_command format c)
          (apply_dynamic_config_on_pod env format node rest) (apply-Grows node rest) in
      record {
        at = λ log. elim (Bool-cases (env.pod_expired log)) [
          | inl e ↦ rw e same
          | inr e ↦ rw e (g.at log)
        ];
      }

  roll_back_change-Grows :
      (node : String) (cmd : Option String) → Grows (roll_back_change env format node cmd)
  unfolding roll_back_change
  roll_back_change-Grows node none = search grows_rules
  roll_back_change-Grows node (some cmd) = search grows_rules

  roll_back_changes-Grows :
      (node : String) (r : RollbackResult) (acs : List (AppliedChange N))
      → Grows (roll_back_changes env format node r acs)
  unfolding roll_back_changes
  roll_back_changes-Grows node r [] = Grows-pure r
  roll_back_changes-Grows node r (ac ∷ rest) =
      Grows-bind (roll_back_change env format node ac.rollback) _
        (roll_back_change-Grows node ac.rollback)
        (λ done. roll_back_changes-Grows node (counted env format done r) rest)

  pub rollback_changes-Grows :
      (node : String) (acs : List (AppliedChange N))
      → Grows (rollback_dynamic_changes_with_result env format node acs)
  unfolding rollback_dynamic_changes_with_result
  rollback_changes-Grows node acs = roll_back_changes-Grows node _ (reverse acs)

  roll_back_pods-Grows :
      (r : RollbackResult) (dus : List (PodDynamicUpdate N))
      → Grows (roll_back_pods env format r dus)
  unfolding roll_back_pods
  roll_back_pods-Grows r [] = Grows-pure r
  roll_back_pods-Grows r (du ∷ rest) =
      Grows-bind (rollback_dynamic_changes_with_result env format du.node du.applied) _
        (rollback_changes-Grows du.node du.applied)
        (λ own. roll_back_pods-Grows (pod_counted env format du.pod_name own r) rest)

  pub rollback_batch-Grows :
      (dus : List (PodDynamicUpdate N)) → Grows (rollback_dynamic_changes_batch env format dus)
  unfolding rollback_dynamic_changes_batch
  rollback_batch-Grows dus = roll_back_pods-Grows _ (reverse dus)
