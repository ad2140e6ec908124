-- ===== src/DynamicConfig/Batch/Growth.antt =====
-- Both phases only add to the log.
use aerospike_ce_kubernetes.Prelude.{
  some, String, Bool, true, false, List, [], ◌∷◌, ◌++◌, Bool-cases, inl, inr,
}
use aerospike_ce_kubernetes.Env.{Env, Action, send, dynamic_status, dynamic_changes}
use aerospike_ce_kubernetes.Env.Sent.{same, Grows, Grows-pure, Grows-send, Grows-bind, grows_rules}
use aerospike_ce_kubernetes.ConfigDiff.Values.{Value}
use aerospike_ce_kubernetes.ConfigDiff.{Change}
use aerospike_ce_kubernetes.DynamicConfig.{
  AppliedChange, PodDynamicUpdate, Target, apply_dynamic_config_on_pod,
  rollback_dynamic_changes_with_result, rollback_dynamic_changes_batch,
}
use aerospike_ce_kubernetes.DynamicConfig.Growth.{
  apply-Grows, rollback_changes-Grows, rollback_batch-Grows,
}
use aerospike_ce_kubernetes.DynamicConfig.Batch.{Outcome, roll_back, stamp, after_apply, apply_all}

module _ {N : Type 0} (env : Env) (format : Value N → String) (desired_hash : String) where
  pub roll_back-Grows :
      (dus : List (PodDynamicUpdate N)) → Grows (roll_back env format desired_hash dus)
  unfolding roll_back
  roll_back-Grows dus =
      Grows-bind (rollback_dynamic_changes_batch env format dus) _
        (rollback_batch-Grows env format dus)
        (λ r. Grows-pure (record { all_ok = false; updates = []; rolled_back = some r }))

  pub stamp-Grows : (pod : String) → Grows (stamp env format desired_hash pod)
  unfolding stamp
  stamp-Grows pod = search grows_rules

  pub after_apply-Grows :
      (t : Target) (dus : List (PodDynamicUpdate N))
      (later : List (PodDynamicUpdate N) → Action (Outcome N)) (r : List (AppliedChange N) × Bool)
      → ((s : List (PodDynamicUpdate N)) → Grows (later s))
      → Grows (after_apply env format desired_hash t dus later r)
  unfolding after_apply
  after_apply-Grows t dus later (applied, false) g =
      Grows-bind (rollback_dynamic_changes_with_result env format t.node applied) _
        (rollback_changes-Grows env format t.node applied) (λ own. roll_back-Grows dus)
  after_apply-Grows t dus later (applied, true) g =
      Grows-bind (stamp env format desired_hash t.pod) _ (stamp-Grows t.pod) λ u.
        Grows-bind (send env (dynamic_status t.pod)) _ (Grows-send env (dynamic_status t.pod)) λ s.
          Grows-bind (send env (dynamic_changes t.pod)) _ (Grows-send env (dynamic_changes t.pod))
            λ c. g (dus ++ (record { pod_name = t.pod; node = t.node; applied = applied } ∷ []))

  pub apply_all-Grows :
      (changes : List (Change N)) (ts : List Target) (dus : List (PodDynamicUpdate N))
      → Grows (apply_all env format desired_hash changes ts dus)
  unfolding apply_all
  apply_all-Grows changes [] dus = record { at = λ log. same }
  apply_all-Grows changes (t ∷ rest) dus =
      let step =
        Grows-bind (apply_dynamic_config_on_pod env format t.node changes) _
          (apply-Grows env format t.node changes)
          (λ r. after_apply-Grows t dus _ r (λ s. apply_all-Grows changes rest s)) in
      record {
        at = λ log. elim (Bool-cases (env.expired log)) [
          | inl e ↦ rw e ((roll_back-Grows dus).at log)
          | inr e ↦ rw e (step.at log)
        ];
      }
