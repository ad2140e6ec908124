-- ===== src/Operations.antt =====
-- On-demand operations: internal/controller/reconciler_operations.go, and `OperationStatus` of
-- api/v1alpha1. `getOperationTargetPods` reads the API server, so the listed pods are an input,
-- `none` where the list fails. The sets of Go are lists of names; only membership is read of them,
-- but for `operationRestartInFlightReason`, whose sorted names are those of the section's `sorted`.
pub mod Terminal
pub mod Progress
pub mod Evidence
use aerospike_ce_kubernetes.Prelude.{
  ℕ, suc, String, Bool, true, false, not, ◌&&◌, ◌||◌, Option, none, some, List, [], ◌∷◌, ◌++◌,
  str_eq, filter, any, length, contains, if◌then◌else◌,
}
use aerospike_ce_kubernetes.Prelude.Int.{ℤ, geb_int, pos}
use aerospike_ce_kubernetes.Cluster.{Spec, RestartReason, manual_restart, warm_restart}
use aerospike_ce_kubernetes.Env.{
  Env, Action, Reply, conflict, ok, ◌>>=◌, pure, send, is_ok, restart_status, warm_restart_pod,
  persist_operation,
}
use aerospike_ce_kubernetes.Pod.{Pod, PodPhase, is_pod_ready}
use aerospike_ce_kubernetes.Pod.Hashes.{Hashes}
use aerospike_ce_kubernetes.Restart.Sizes.{get_rolling_update_batch_size}
use aerospike_ce_kubernetes.Restart.InFlight.{RackRestartTarget, unset}
use aerospike_ce_kubernetes.Restart.Budget.{Key, Table, on_demand_operation_rack_id}
use aerospike_ce_kubernetes.Restart.Block.{Decision, is_batch_blocked}
use aerospike_ce_kubernetes.Restart.PodRestart.{Context, cold_restart_pod}

-- OperationKind; `unsupported` is any other text.
pub data OperationKind : Type 0 where
  warm pod_restart unsupported : OperationKind

pub data OperationPhase : Type 0 where
  in_progress completed error : OperationPhase

-- OperationSpec
pub record Operation : Type 0 where
  pub kind : OperationKind
  pub id : String
  pub pod_list : List String

pub record OperationStatus : Type 0 where
  pub id : String
  pub kind : OperationKind
  pub phase : OperationPhase
  pub completed_pods : List String
  pub failed_pods : List String

-- The pod of that name that is listed last, as in `podMap`.
last_named : String → List Pod → Option Pod
last_named name [] = none
last_named name (pod ∷ rest) = elim (last_named name rest) [
  | some p ↦ some p
  | none ↦ if str_eq pod.name name then some pod else none
]

pick : Option Pod → List Pod → List Pod
pick none later = later
pick (some pod) later = pod ∷ later

picked : List Pod → List String → List Pod
unfolding last_named pick
picked all_pods [] = []
picked all_pods (name ∷ rest) = pick (last_named name all_pods) (picked all_pods rest)

unfoldable pub filter_pods_by_names : List Pod → List String → List Pod
unfolding picked
filter_pods_by_names all_pods [] = all_pods
filter_pods_by_names all_pods (name ∷ rest) = picked all_pods (name ∷ rest)

-- The pod has been attempted.
abbrev pub is_resolved : List String → List String → Pod → Bool
is_resolved completed_set failed_set pod =
    contains pod.name completed_set || contains pod.name failed_set

abbrev pub is_outstanding : List String → List String → Pod → Bool
is_outstanding completed_set failed_set pod = not (is_resolved completed_set failed_set pod)

abbrev is_nil {ℓ} : {A : Type ℓ} → List A → Bool
is_nil [] = true
is_nil (x ∷ xs) = false

-- The status with its phase, and `allDone`.
unfoldable pub finalize_operation_phase :
    OperationStatus → List Pod → List String → List String → OperationStatus × Bool
finalize_operation_phase status pods completed_set failed_set =
    if any (is_outstanding completed_set failed_set) pods
    then (status, false)
    else (record status { phase = if is_nil status.failed_pods then completed else error }, true)

-- The text of `operationRestartInFlightReason`; "" is `none`.
pub data HoldReason : Type 0 where
  not_recreated still_terminating : String → HoldReason
  not_ready_yet : String → PodPhase → HoldReason

-- Why a pod of that name is not back.
pod_back : String → Option Pod → Option HoldReason
pod_back name none = some (not_recreated name)
pod_back name (some pod) =
    if pod.terminating
    then some (still_terminating name)
    else if not (is_pod_ready pod)
    then some (not_ready_yet name pod.phase)
    else none

first_back : List Pod → List String → Option HoldReason
unfolding last_named pod_back
first_back pods [] = none
first_back pods (name ∷ rest) = elim (pod_back name (last_named name pods)) [
  | some r ↦ some r
  | none ↦ first_back pods rest
]

module _ (sorted : List String → List String) where
  unfoldable pub operation_restart_in_flight_reason : List Pod → List String → Option HoldReason
  unfolding first_back
  operation_restart_in_flight_reason pods completed_set = first_back pods (sorted completed_set)

-- The zero `rackRestartTarget`.
abbrev pub unknown_target : RackRestartTarget
unknown_target = record {
  hashes = record { config = ""; pod_spec = ""; storage = "" };
  replicas = 0;
  pod_management_policy = unset;
}

-- What a pass reads besides the pods.
pub record OperationPass : Type 0 where
  pub spec : Spec
  pub uid : String
  pub now : ℕ
  pub probe : Option Bool

pub record Blocked : Type 0 where
  pub blocked : Bool
  pub table : Table

module _ (sorted : List String → List String) (pass : OperationPass) where
  abbrev on_demand_key : Key
  on_demand_key = record { uid = pass.uid; rack = on_demand_operation_rack_id }

  by_guard : Option HoldReason → List Pod → Table → Blocked
  by_guard (some reason) pods table = record { blocked = true; table = table }
  by_guard none pods table =
      let d =
        is_batch_blocked pass.spec on_demand_key pass.probe pass.now pods unknown_target table in
      record { blocked = d.blocked; table = d.table }

  unfoldable pub operation_batch_blocked : List Pod → List String → List String → Table → Blocked
  unfolding by_guard operation_restart_in_flight_reason
  operation_batch_blocked pods completed_set failed_set table =
      if not (any (is_outstanding completed_set failed_set) pods)
      then record { blocked = false; table = table }
      else by_guard (operation_restart_in_flight_reason sorted pods completed_set) pods table

module _ (env : Env) (ctx : Context) where
  -- `recordPodRestartStatus` after a success.
  note_restart : String → RestartReason → Bool → Action Bool
  note_restart name reason false = pure false
  note_restart name reason true = do reply ← send env (restart_status name reason); pure true

  -- The `switch` on the kind: true where `opErr` is nil.
  unfoldable pub operate : OperationKind → Pod → Action Bool
  unfolding note_restart
  operate warm pod = do
    reply ← send env (warm_restart_pod pod.name)
    note_restart pod.name warm_restart (is_ok reply)
  operate pod_restart pod = do
    done ← cold_restart_pod env ctx pod
    note_restart pod.name manual_restart done
  operate unsupported pod = pure false

  -- The bookkeeping after one pod, in the lists and, as they hold the same names, in the sets.
  unfoldable pub record_outcome : String → Bool → OperationStatus → OperationStatus
  record_outcome name true status = record status {
    completed_pods = status.completed_pods ++ (name ∷ []);
  }
  record_outcome name false status = record status {
    failed_pods = status.failed_pods ++ (name ∷ []);
  }

  -- The loop, with the number of pods processed. It runs over pods that may carry the same name.
  unfoldable pub process :
      OperationKind → ℤ → ℕ → List Pod → OperationStatus → Action OperationStatus
  unfolding record_outcome
  process kind size processed [] status log = (status, log)
  process kind size processed (pod ∷ rest) status log =
      let skipped = process kind size processed rest status log in
      let (done, log') = operate kind pod log in
      let attempted =
        process kind size (suc processed) rest (record_outcome pod.name done status) log' in
      if is_resolved status.completed_pods status.failed_pods pod
      then skipped
      else if geb_int processed size
      then (status, log)
      else attempted

-- `requeue` is the returned flag, `failed` an error beside it; `written` is the status that the
-- API server has taken.
pub record OperationResult : Type 0 where
  pub requeue : Bool
  pub failed : Bool
  pub written : Option OperationStatus
  pub table : Table

module _ (env : Env) where
  answered : OperationStatus → Bool → Table → Reply → OperationResult
  answered status all_done table ok = record {
    requeue = not all_done;
    failed = false;
    written = some status;
    table = table;
  }
  answered status all_done table conflict = record {
    requeue = true;
    failed = false;
    written = none;
    table = table;
  }
  answered status all_done table _ = record {
    requeue = not all_done;
    failed = true;
    written = none;
    table = table;
  }

  persist : Table → OperationStatus × Bool → Action OperationResult
  unfolding answered
  persist table (status, all_done) = do
    reply ← send env persist_operation
    pure (answered status all_done table reply)

abbrev held : Bool → Bool → Table → Action OperationResult
held requeue failed table =
    pure (record { requeue = requeue; failed = failed; written = none; table = table })

-- The lists of the earlier status, if it is this operation's.
started : Operation → Option OperationStatus → OperationStatus
started op none = record {
  id = op.id;
  kind = op.kind;
  phase = in_progress;
  completed_pods = [];
  failed_pods = [];
}
started op (some status) =
    let same = str_eq status.id op.id in
    record {
      id = op.id;
      kind = op.kind;
      phase = in_progress;
      completed_pods = if same then status.completed_pods else [];
      failed_pods = if same then status.failed_pods else [];
    }

abbrev is_terminal : OperationPhase → Bool
is_terminal in_progress = false
is_terminal completed = true
is_terminal error = true

-- The operation has finished in an earlier pass.
is_finished : Operation → Option OperationStatus → Bool
is_finished op none = false
is_finished op (some status) = str_eq status.id op.id && is_terminal status.phase

module _ (env : Env) (ctx : Context) (scaled : String → ℕ → Option ℤ)
    (sorted : List String → List String) (pass : OperationPass) where
  finished : List Pod → Table → OperationStatus → Action OperationResult
  unfolding persist
  finished pods table status =
      persist env table
        (finalize_operation_phase status pods status.completed_pods status.failed_pods)

  run_batch : Operation → List Pod → OperationStatus → Blocked → Action OperationResult
  unfolding finished
  run_batch op pods status guard = if guard.blocked then held true false guard.table else (do
    status' ←
        process env ctx op.kind (get_rolling_update_batch_size scaled pass.spec (length pods)) 0
          pods status
    finished pods guard.table status')

  on_pods : Operation → Option OperationStatus → List Pod → Table → Action OperationResult
  unfolding run_batch started persist
  on_pods op earlier pods table =
      let status = started op earlier in
      if not (is_nil op.pod_list) && is_nil pods
      then persist env table (
        record { id = op.id; kind = op.kind; phase = error; completed_pods = []; failed_pods = [] },
        true,
      )
      else run_batch op pods status
          (operation_batch_blocked sorted pass pods status.completed_pods status.failed_pods table)

  on_listing :
      Operation → Option OperationStatus → Option (List Pod) → Table → Action OperationResult
  unfolding on_pods
  on_listing op earlier none table = held false true table
  on_listing op earlier (some all_pods) table =
      on_pods op earlier (filter_pods_by_names all_pods op.pod_list) table

  unfoldable pub reconcile_operations :
      List Operation → Option OperationStatus → Option (List Pod) → Table → Action OperationResult
  unfolding on_listing is_finished
  reconcile_operations [] earlier listed table = held false false table
  reconcile_operations (op ∷ rest) earlier listed table =
      if is_finished op earlier then held false false table else on_listing op earlier listed table
