-- ===== src/Env.antt =====
-- What lies outside the repository and answers it: the Kubernetes API server, the Aerospike nodes
-- (`asinfo`), the pod's `exec`, and the deadline of the context. Each request is logged with its
-- reply, newest first, and an environment is any function of the log.
pub mod Sent
pub mod Sends
use aerospike_ce_kubernetes.Prelude.{
  ℕ, String, Bool, true, false, Option, none, some, List, [], ◌∷◌,
}
use aerospike_ce_kubernetes.Prelude.Int.{ℤ}
use aerospike_ce_kubernetes.Privilege.{Privilege}
use aerospike_ce_kubernetes.Cluster.{RestartReason}

pub data Request : Type 0 where
  -- `asinfoCommandOnNode(node, "node")`
  probe_node : String → Request
  -- `asinfoCommandOnNode(node, cmd)` with a set-config command
  set_config : String → String → Request
  -- `updatePodConfigHash`, `adoptStorageHash`
  patch_config_hash patch_storage_hash : String → String → Request
  -- `updateDynamicConfigStatus`, `updateDynamicConfigChanges`
  dynamic_status dynamic_changes : String → Request
  -- `setConfigDegraded`, with the failed pods
  config_degraded : List String → Request
  -- `recordPodRestartStatus`
  restart_status : String → RestartReason → Request
  -- `warmRestartPod`
  warm_restart_pod : String → Request
  -- the quiesce command before a deletion
  quiesce_node : String → Request
  -- `markDirtyVolumes`
  mark_dirty_volumes : String → List String → Request
  -- `DeleteLocalPVCsForPod`
  delete_local_pvcs : String → Request
  -- `r.Delete(ctx, pod)`
  delete_pod : String → Request
  -- `c.Delete(ctx, pvc)`
  delete_claim : String → Request
  -- `r.Create(ctx, sts)`, with its replicas
  create_stateful_set : String → ℕ → Request
  -- `r.Patch(ctx, sts, ...)` of the replicas, and of the template or not
  patch_stateful_set : String → ℕ → Bool → Request
  -- `r.Delete(ctx, sts, ...)`
  delete_stateful_set : String → Request
  -- `r.Delete(ctx, cm)`, of the rack with this id
  delete_config_map : ℤ → Request
  -- `setPhase(ctx, cluster, WaitingForMigration, ...)`
  set_waiting_for_migration : Request
  -- the Aerospike client's commands on roles and users
  create_role grant_privileges revoke_privileges : String → List Privilege → Request
  drop_role drop_user : String → Request
  create_user grant_roles revoke_roles : String → List String → Request
  change_password : String → Request
  -- `persistOperationStatus`
  persist_operation : Request

-- `ok` is success, for `asinfo` the answer "ok"; `other` is any other answer of `asinfo`.
pub data Reply : Type 0 where
  ok other not_found conflict failure : Reply

pub record Exchange : Type 0 where
  pub request : Request
  pub reply : Reply

abbrev pub Log : Type 0
Log = List Exchange

pub record Env : Type 0 where
  pub answer : Log → Request → Reply
  -- `ctx.Err() != nil`
  pub expired : Log → Bool
  -- the same of the context with the time limit for one pod
  pub pod_expired : Log → Bool

abbrev pub is_ok : Reply → Bool
is_ok ok = true
is_ok _ = false

-- Some action on the log that gives a value.
abbrev pub Action : Type 0 → Type 0
Action A = Log → A × Log

infixl 5 ◌>>=◌ ◌>>◌
abbrev pub ◌>>=◌ : {A B : Type 0} → Action A → (A → Action B) → Action B
◌>>=◌ m f log = let (a, log') = m log in f a log'

abbrev pub ◌>>◌ : {A B : Type 0} → Action A → Action B → Action B
m >> k = m >>= λ _. k

abbrev pub pure : {A : Type 0} → A → Action A
pure a log = (a, log)

unfoldable pub send : Env → Request → Action Reply
send env request log =
    let reply = env.answer log request in (reply, record { request = request; reply = reply } ∷ log)
