-- ===== src/Restart/PodRestart.antt =====
-- The restart of one pod: `restartPod`, `coldRestartPod`, `determineRestartReason` and
-- `quiesceNodeBeforeDeletion` of internal/controller/reconciler_restart.go, and `shouldWarmRestart` of
-- reconciler_warm_restart.go. Logs, events and metrics are left out; what is logged and goes on
-- (quiesce, dirty volumes, local claims, the restart status) is a request whose reply is dropped.
pub mod Evidence
pub mod StorageLoop
use aerospike_ce_kubernetes.Prelude.{
  String, Bool, true, false, not, ◌&&◌, Option, none, some, List, [], ◌∷◌, str_eq, insert,
  if◌then◌else◌,
}
use aerospike_ce_kubernetes.Cluster.{
  RestartReason, config_changed, image_changed, pod_spec_changed, warm_restart,
}
use aerospike_ce_kubernetes.Env.{
  Env, Action, Reply, ◌>>=◌, ◌>>◌, pure, send, is_ok, patch_config_hash, restart_status,
  warm_restart_pod, quiesce_node, mark_dirty_volumes, delete_local_pvcs, delete_pod,
}
use aerospike_ce_kubernetes.Storage.{StorageSpec, get_dirty_volumes}
use aerospike_ce_kubernetes.Pod.{
  Pod, Container, annotation, is_pod_ready, config_hash_annotation, pod_spec_hash_annotation,
}
use aerospike_ce_kubernetes.Pod.Hashes.{Hashes, differs}

abbrev pub aerospike_container : String
aerospike_container = "aerospike-server"

-- The first container of that name runs another image.
image_differs : String → List Container → Bool
image_differs image [] = false
image_differs image (c ∷ rest) =
    if str_eq c.name aerospike_container then differs c.image image else image_differs image rest

-- `has_rest_config` is `r.RestConfig != nil`.
unfoldable pub should_warm_restart : Bool → String → Pod → Hashes → Bool
unfolding image_differs
should_warm_restart has_rest_config image pod desired =
    let current_pod_spec_hash = annotation pod pod_spec_hash_annotation in
    if not has_rest_config
    then false
    else if not (is_pod_ready pod)
    then false
    else if image_differs image pod.containers
    then false
    else if differs current_pod_spec_hash desired.pod_spec && differs desired.pod_spec ""
    then false
    else true

unfoldable pub determine_restart_reason : Pod → String → Hashes → Bool → RestartReason
unfolding image_differs
determine_restart_reason pod image desired is_warm =
    if image_differs image pod.containers
    then image_changed
    else if differs (annotation pod config_hash_annotation) desired.config
    then (if is_warm then warm_restart else config_changed)
    else if differs desired.pod_spec ""
        && differs (annotation pod pod_spec_hash_annotation) desired.pod_spec
    then pod_spec_changed
    else config_changed

-- `parses` is `storage.ParsePodName`'s `ok` on the pod's name.
pub record Context : Type 0 where
  pub has_rest_config : Bool
  pub image : String
  pub storage : Option StorageSpec
  pub parses : String → Bool

abbrev deletes_local : Option StorageSpec → Bool
deletes_local none = false
deletes_local (some s) = elim s.delete_local_storage_on_restart [ none ↦ false | some b ↦ b ]

abbrev pub gone : Reply → Bool
gone Reply.ok = true
gone Reply.not_found = true
gone _ = false

module _ (env : Env) where
  unfoldable pub quiesce_node_before_deletion : Pod → Action (Unit {0})
  quiesce_node_before_deletion pod =
      if not (is_pod_ready pod)
      then pure tt
      else (do reply ← send env (quiesce_node pod.name); pure tt)

module _ (env : Env) (ctx : Context) where
  mark_dirty : String → List String → Action (Unit {0})
  mark_dirty name [] = pure tt
  mark_dirty name (vol ∷ rest) = do reply ← send env (mark_dirty_volumes name (vol ∷ rest)); pure tt

  delete_local : String → Action (Unit {0})
  delete_local name =
      if deletes_local ctx.storage && ctx.parses name
      then (do reply ← send env (delete_local_pvcs name); pure tt)
      else pure tt

  -- True is success, false the error of the deletion.
  unfoldable pub cold_restart_pod : Pod → Action Bool
  unfolding quiesce_node_before_deletion mark_dirty delete_local
  cold_restart_pod pod = do
    quiesce_node_before_deletion env pod
    mark_dirty pod.name (get_dirty_volumes ctx.storage)
    delete_local pod.name
    reply ← send env (delete_pod pod.name)
    pure (gone reply)

  -- What follows SIGUSR1.
  after_warm : Pod → Hashes → Bool → Action Bool
  after_warm pod desired false = do
    status ← send env (restart_status pod.name config_changed)
    cold_restart_pod pod
  after_warm pod desired true = do
    reply ← send env (patch_config_hash pod.name desired.config)
    pure (is_ok reply)

  restart_as : Bool → Pod → Hashes → Action Bool
  unfolding after_warm
  restart_as false pod desired = cold_restart_pod pod
  restart_as true pod desired = do
    reply ← send env (warm_restart_pod pod.name)
    after_warm pod desired (is_ok reply)

  unfoldable pub restart_pod : Hashes → Pod → Action Bool
  unfolding restart_as
  restart_pod desired pod = do
    let is_warm = should_warm_restart ctx.has_rest_config ctx.image pod desired
    status ←
        send env (restart_status pod.name (determine_restart_reason pod ctx.image desired is_warm))
    restart_as is_warm pod desired
