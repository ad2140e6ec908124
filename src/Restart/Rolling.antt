-- ===== src/Restart/Rolling.antt =====
-- One pass over a rack: `reconcileRollingRestart` of internal/controller/reconciler_restart.go.
-- Its reads of the API server are inputs: the StatefulSet, and the rack's pods, `none` where the
-- list fails. The stamps of storage hashes that the selection makes (`adopted` of `Selection`) change
-- an annotation only, are made whether or not the batch is blocked, and are not in the log.
pub mod Gate
pub mod Queue
use aerospike_ce_kubernetes.Prelude.{
  ℕ, String, Bool, true, false, not, ◌&&◌, ◌||◌, Option, none, some, List, [], ◌∷◌, str_eq, ltb,
  ◌==◌, length, if◌then◌else◌,
}
use aerospike_ce_kubernetes.Prelude.Int.{ℤ}
use aerospike_ce_kubernetes.Cluster.{Spec, PodStatus}
use aerospike_ce_kubernetes.Env.{Env, Action, ◌>>=◌, pure}
use aerospike_ce_kubernetes.ConfigDiff.Values.{Fields}
use aerospike_ce_kubernetes.Pod.{Pod}
use aerospike_ce_kubernetes.Pod.Hashes.{Hashes}
use aerospike_ce_kubernetes.Restart.Sizes.{get_rolling_update_batch_size, get_max_ignorable_pods}
use aerospike_ce_kubernetes.Restart.Selection.{Selection, select_pods_to_restart}
use aerospike_ce_kubernetes.Restart.InFlight.{RackRestartTarget}
use aerospike_ce_kubernetes.Restart.Budget.{Key, Table}
use aerospike_ce_kubernetes.Restart.Block.{Decision, is_batch_blocked}
use aerospike_ce_kubernetes.Restart.PodRestart.{Context}
use aerospike_ce_kubernetes.Restart.Batch.{
  BatchResult, Dynamic, names, restart_pod_batch, filter_unrestarted,
}

-- The answer to `r.Get` of the StatefulSet; an absent `replicas` is 0.
pub data Fetched : Type 0 where
  absent unreadable : Fetched
  found : RackRestartTarget → Fetched

-- The clock, the answer of the migration check, what the cluster's status holds, and the rest that
-- a pass reads.
pub record Pass (N : Type 0) : Type 0 where
  pub spec : Spec
  pub key : Key
  pub now : ℕ
  pub probe : Option Bool
  pub statuses : List (String × PodStatus)
  pub old_config : Option (Fields N)
  pub new_config : Option (Fields N)

-- `result` is `none` for an error; `pending` is the new `status.pendingRestartPods`, `none` where
-- the pass leaves it alone; `completed` is the completion event.
pub record RollingResult : Type 0 where
  pub result : Option Bool
  pub pending : Option (List String)
  pub table : Table
  pub completed : Bool

abbrev pub is_empty {ℓ} : {A : Type ℓ} → List A → Bool
is_empty [] = true
is_empty (x ∷ xs) = false

-- What follows the batch.
unfoldable pub after_batch : List String → Table → BatchResult → RollingResult
after_batch pending_names table r =
    let remaining =
      if not (is_empty r.failed) || ltb 0 r.restarted
      then filter_unrestarted pending_names r.failed r.restarted r.batch
      else pending_names in
    record {
      result =
          if not (is_empty r.failed) && r.restarted == 0 then none else some (ltb 0 r.restarted);
      pending = some remaining;
      table = table;
      completed =
          not (not (is_empty r.failed) && r.restarted == 0)
          && is_empty remaining
          && ltb 0 r.restarted;
    }

module _ {N : Type 0} (env : Env) (ctx : Context) (dynamic : Dynamic N)
    (scaled : String → ℕ → Option ℤ) (pass : Pass N) where
  -- The configurations, where a config mismatch has caused the batch.
  abbrev offered : Bool → Option (Fields N) → Option (Fields N)
  offered true config = config
  offered false config = none

  unless_blocked : RackRestartTarget → Selection → Decision → Action RollingResult
  unless_blocked target selected decision log =
      let pending_names = names selected.restart in
      let size = get_rolling_update_batch_size scaled pass.spec target.replicas in
      let go =
        restart_pod_batch env ctx dynamic target.hashes selected.restart size
          (offered selected.config_changed pass.old_config)
          (offered selected.config_changed pass.new_config) log in
      if decision.blocked
      then (
        record {
          result = some true;
          pending = some pending_names;
          table = decision.table;
          completed = false;
        },
        log,
      )
      else (after_batch pending_names decision.table go.0, go.1)

  with_selection : RackRestartTarget → List Pod → Selection → Table → Action RollingResult
  unfolding unless_blocked
  with_selection target rack_pods selected table =
      if is_empty selected.restart
      then pure
          (record { result = some false; pending = some []; table = table; completed = false })
      else unless_blocked target selected
          (is_batch_blocked pass.spec pass.key pass.probe pass.now rack_pods target table)

  abbrev idle : Option Bool → Table → Action RollingResult
  idle result table =
      pure (record { result = result; pending = none; table = table; completed = false })

  abbrev selection : RackRestartTarget → List Pod → Selection
  selection target rack_pods =
      select_pods_to_restart pass.now pass.statuses target.hashes
        (get_max_ignorable_pods scaled pass.spec target.replicas) rack_pods

  with_pods : RackRestartTarget → Option (List Pod) → Table → Action RollingResult
  unfolding with_selection
  with_pods target none table = idle none table
  with_pods target (some rack_pods) table =
      with_selection target rack_pods (selection target rack_pods) table

  unfoldable pub reconcile_rolling_restart :
      Fetched → Option (List Pod) → Table → Action RollingResult
  unfolding with_pods
  reconcile_rolling_restart absent rack_pods table = idle (some false) table
  reconcile_rolling_restart unreadable rack_pods table = idle none table
  reconcile_rolling_restart (found target) rack_pods table =
      if str_eq target.hashes.config ""
      then idle (some false) table
      else with_pods target rack_pods table
