-- ===== src/Restart/PodRestart/StorageLoop.antt =====
-- What a change of the storage spec alone leads to on an operator that can restart warm.
use aerospike_ce_kubernetes.Prelude.{
  ℕ, zero, suc, String, Bool, true, false, ◌≡◌, refl, ap, ◌∙◌, List, ◌∷◌, map, arith, insert,
  lookup-insert, str_eq, eq_iff,
}
use aerospike_ce_kubernetes.Env.{
  Env, Log, ok, Request, send, is_ok, patch_config_hash, restart_status, warm_restart_pod,
}
use aerospike_ce_kubernetes.Pod.{
  Pod, annotation, config_hash_annotation, pod_spec_hash_annotation, storage_hash_annotation,
  is_pod_ready,
}
use aerospike_ce_kubernetes.Pod.Hashes.{Hashes, is_stale, compare_pod_hashes, differs}
use aerospike_ce_kubernetes.Restart.PodRestart.{
  Context, should_warm_restart, determine_restart_reason, restart_pod, restart_as, after_warm,
}

-- A pod that may be restarted warm, and carries a storage hash other than the template's.
pub record IsStorageEdit (ctx : Context) (desired : Hashes) (pod : Pod) : Type 0 where
  pub warm : should_warm_restart ctx.has_rest_config ctx.image pod desired ≡ true
  pub wanted : differs desired.storage "" ≡ true
  pub stamped : differs (annotation pod storage_hash_annotation) "" ≡ true
  pub other : differs (annotation pod storage_hash_annotation) desired.storage ≡ true

-- The pod after `updatePodConfigHash`.
pub stamp_config_hash : String → Pod → Pod
stamp_config_hash hash pod = record pod {
  annotations = insert config_hash_annotation hash pod.annotations;
}

annotation-stamp :
    (hash : String) (pod : Pod) (key : String)
    → str_eq config_hash_annotation key ≡ false
    → annotation (stamp_config_hash hash pod) key ≡ annotation pod key
unfolding annotation stamp_config_hash
annotation-stamp hash pod key e = rw lookup-insert (rw e)

IsStorageEdit-stale :
    (ctx : Context) (desired : Hashes) (pod : Pod)
    → IsStorageEdit ctx desired pod
    → is_stale desired pod ≡ true
unfolding compare_pod_hashes
IsStorageEdit-stale ctx desired pod h = ground arith

IsStorageEdit-stamp :
    (ctx : Context) (desired : Hashes) (pod : Pod)
    → IsStorageEdit ctx desired pod
    → IsStorageEdit ctx desired (stamp_config_hash desired.config pod)
unfolding should_warm_restart is_pod_ready stamp_config_hash
IsStorageEdit-stamp ctx desired pod h =
    let spec =
      annotation-stamp desired.config pod pod_spec_hash_annotation
        (ground (arith, eq_iff config_hash_annotation pod_spec_hash_annotation)) in
    let storage =
      annotation-stamp desired.config pod storage_hash_annotation
        (ground (arith, eq_iff config_hash_annotation storage_hash_annotation)) in
    record {
      warm = rw spec h.warm;
      wanted = h.wanted;
      stamped = rw storage h.stamped;
      other = rw storage h.other;
    }

-- The pod after that many warm restarts.
pub rounds : ℕ → Hashes → Pod → Pod
rounds zero desired pod = pod
rounds (suc n) desired pod = stamp_config_hash desired.config (rounds n desired pod)

IsStorageEdit-rounds :
    (ctx : Context) (desired : Hashes) (pod : Pod) (n : ℕ)
    → IsStorageEdit ctx desired pod
    → IsStorageEdit ctx desired (rounds n desired pod)
unfolding rounds
IsStorageEdit-rounds ctx desired pod zero h = h
IsStorageEdit-rounds ctx desired pod (suc n) h =
    IsStorageEdit-stamp ctx desired (rounds n desired pod)
      (IsStorageEdit-rounds ctx desired pod n h)

abbrev pub requests : Log → List Request
requests = map (λ e. e.request)

module _ (env : Env) (ctx : Context) where
  after_warm-requests :
      (desired : Hashes) (pod : Pod) (b : Bool) (log : Log)
      → b ≡ true
      → requests (after_warm env ctx pod desired b log).1
        ≡ patch_config_hash pod.name desired.config ∷ requests log
  unfolding after_warm send
  after_warm-requests desired pod true log e = refl
  after_warm-requests desired pod false log e = cc

  restart_as-requests :
      (desired : Hashes) (pod : Pod) (is_warm : Bool) (log : Log)
      → is_warm ≡ true
      → is_ok (send env (warm_restart_pod pod.name) log).0 ≡ true
      → requests (restart_as env ctx is_warm pod desired log).1
        ≡ patch_config_hash pod.name desired.config ∷ warm_restart_pod pod.name ∷ requests log
  unfolding restart_as send
  restart_as-requests desired pod true log e h =
      after_warm-requests desired pod (is_ok (send env (warm_restart_pod pod.name) log).0)
        (send env (warm_restart_pod pod.name) log).1 h
  restart_as-requests desired pod false log e h = cc

  restart_pod-requests :
      (desired : Hashes) (pod : Pod) (log : Log)
      → should_warm_restart ctx.has_rest_config ctx.image pod desired ≡ true
      → ((before : Log) → env.answer before (warm_restart_pod pod.name) ≡ ok)
      → requests (restart_pod env ctx desired pod log).1
        ≡ patch_config_hash pod.name desired.config
          ∷ warm_restart_pod pod.name
          ∷ restart_status pod.name (determine_restart_reason pod ctx.image desired true)
          ∷ requests log
  unfolding restart_pod send
  restart_pod-requests desired pod log h good =
      let is_warm = should_warm_restart ctx.has_rest_config ctx.image pod desired in
      let reason = determine_restart_reason pod ctx.image desired is_warm in
      let log' = (send env (restart_status pod.name reason) log).1 in
      let sent = restart_as-requests desired pod is_warm log' h (ap is_ok (good log')) in
      let patch = patch_config_hash pod.name desired.config in
      sent
      ∙ ap
          (λ w.
            patch
            ∷ warm_restart_pod pod.name
            ∷ restart_status pod.name (determine_restart_reason pod ctx.image desired w)
            ∷ requests log)
          h

  -- Take a pod that may be restarted warm and carries a storage hash other than the template's, and
  -- a node that takes every SIGUSR1. After any number n of warm restarts, each of which stamps the
  -- config hash, the pod is still stale, and its next restart again sends no more than the restart
  -- status, the SIGUSR1 and the stamp of the config hash: the pod is not deleted.
  pub storage_edit-restart_pod :
      (desired : Hashes) (pod : Pod) (n : ℕ) (log : Log)
      → IsStorageEdit ctx desired pod
      → ((before : Log) → env.answer before (warm_restart_pod (rounds n desired pod).name) ≡ ok)
      → (is_stale desired (rounds n desired pod) ≡ true)
        × (requests (restart_pod env ctx desired (rounds n desired pod) log).1
            ≡ patch_config_hash (rounds n desired pod).name desired.config
              ∷ warm_restart_pod (rounds n desired pod).name
              ∷ restart_status
                  (rounds n desired pod).name
                  (determine_restart_reason (rounds n desired pod) ctx.image desired true)
              ∷ requests log)
  storage_edit-restart_pod desired pod n log h good =
      let edit = IsStorageEdit-rounds ctx desired pod n h in
      (
        IsStorageEdit-stale ctx desired _ edit,
        restart_pod-requests desired (rounds n desired pod) log edit.warm good,
      )
