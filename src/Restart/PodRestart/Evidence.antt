-- ===== src/Restart/PodRestart/Evidence.antt =====
-- A restart that is counted as one has happened.
use aerospike_ce_kubernetes.Prelude.{
  String, Bool, true, false, ◌≡◌, refl, ◌⊎◌, inl, inr, List, ◌∷◌, [], ◌∷◌,
}
use aerospike_ce_kubernetes.Env.{
  Env, Log, send, is_ok, patch_config_hash, warm_restart_pod, delete_pod, restart_status,
}
use aerospike_ce_kubernetes.Env.Sent.{
  SentAs, SentAs-Extends, SentAs-send, Grows-send, Grows-pure, Grows, Extends, Grows-bind,
  grows_rules,
}
use aerospike_ce_kubernetes.Pod.{Pod}
use aerospike_ce_kubernetes.Pod.Hashes.{Hashes}
use aerospike_ce_kubernetes.Restart.PodRestart.{
  Context, gone, cold_restart_pod, after_warm, restart_as, restart_pod,
  quiesce_node_before_deletion, delete_local, mark_dirty, should_warm_restart,
  determine_restart_reason, get_dirty_volumes, config_changed,
}

-- The pod has been deleted, or the server has said that it is gone; or it has taken SIGUSR1 and
-- then the config hash of the template.
abbrev pub WasRestarted : Hashes → String → Log → Type 0
WasRestarted desired name log =
    SentAs gone (delete_pod name) log
    ⊎ (SentAs is_ok (warm_restart_pod name) log
        × SentAs is_ok (patch_config_hash name desired.config) log)

module _ (env : Env) (ctx : Context) where
  pub cold-deleted :
      (pod : Pod) (log : Log)
      → (cold_restart_pod env ctx pod log).0 ≡ true
      → SentAs gone (delete_pod pod.name) (cold_restart_pod env ctx pod log).1
  unfolding cold_restart_pod
  cold-deleted pod log done = SentAs-send env gone (delete_pod pod.name) _ done

  cold-WasRestarted :
      (desired : Hashes) (pod : Pod) (log : Log)
      → (cold_restart_pod env ctx pod log).0 ≡ true
      → WasRestarted desired pod.name (cold_restart_pod env ctx pod log).1
  unfolding cold_restart_pod
  cold-WasRestarted desired pod log done = inl (cold-deleted pod log done)

  after_warm-WasRestarted :
      (desired : Hashes) (pod : Pod) (b : Bool) (log : Log)
      → (b ≡ true → SentAs is_ok (warm_restart_pod pod.name) log)
      → (after_warm env ctx pod desired b log).0 ≡ true
      → WasRestarted desired pod.name (after_warm env ctx pod desired b log).1
  unfolding after_warm
  after_warm-WasRestarted desired pod false log warm done = cold-WasRestarted desired pod _ done
  after_warm-WasRestarted desired pod true log warm done =
      let patch = patch_config_hash pod.name desired.config in
      inr (
        SentAs-Extends is_ok (warm_restart_pod pod.name) ((Grows-send env patch).at log)
            (warm refl),
        SentAs-send env is_ok patch log done,
      )

  restart_as-WasRestarted :
      (desired : Hashes) (pod : Pod) (is_warm : Bool) (log : Log)
      → (restart_as env ctx is_warm pod desired log).0 ≡ true
      → WasRestarted desired pod.name (restart_as env ctx is_warm pod desired log).1
  unfolding restart_as
  restart_as-WasRestarted desired pod false log done = cold-WasRestarted desired pod log done
  restart_as-WasRestarted desired pod true log done =
      let warm = warm_restart_pod pod.name in
      after_warm-WasRestarted desired pod (is_ok (send env warm log).0) (send env warm log).1
        (SentAs-send env is_ok warm log) done

  -- A restart succeeds only if the pod has been deleted (or the server has answered that it is gone),
  -- or has taken SIGUSR1 and then the template's config hash: a failed warm restart falls back to
  -- the deletion, and a hash that could not be stamped is an error. This holds whatever the quiesce,
  -- the marking of dirty volumes, the deletion of local claims and the status updates answer.
  pub restart_pod-WasRestarted :
      (desired : Hashes) (pod : Pod) (log : Log)
      → (restart_pod env ctx desired pod log).0 ≡ true
      → WasRestarted desired pod.name (restart_pod env ctx desired pod log).1
  unfolding restart_pod
  restart_pod-WasRestarted desired pod log done = restart_as-WasRestarted desired pod _ _ done

  mark_dirty-Grows :
      (name : String) (volumes : List String) → Grows (mark_dirty env ctx name volumes)
  unfolding mark_dirty
  mark_dirty-Grows name [] = search grows_rules
  mark_dirty-Grows name (vol ∷ rest) = search grows_rules

  quiesce-Grows : (pod : Pod) → Grows (quiesce_node_before_deletion env pod)
  unfolding quiesce_node_before_deletion
  quiesce-Grows pod = search grows_rules

  delete_local-Grows : (name : String) → Grows (delete_local env ctx name)
  unfolding delete_local
  delete_local-Grows name = search grows_rules

  pub cold-Grows : (pod : Pod) → Grows (cold_restart_pod env ctx pod)
  unfolding cold_restart_pod
  cold-Grows pod =
      let dirty = get_dirty_volumes ctx.storage in
      Grows-bind (quiesce_node_before_deletion env pod) _ (quiesce-Grows pod) (λ a.
        Grows-bind (mark_dirty env ctx pod.name dirty) _ (mark_dirty-Grows pod.name dirty) (λ b.
          Grows-bind (delete_local env ctx pod.name) _ (delete_local-Grows pod.name) (λ c.
            Grows-bind (send env (delete_pod pod.name)) _ (Grows-send env (delete_pod pod.name))
              (λ reply. Grows-pure (gone reply)))))

  after_warm-Grows :
      (pod : Pod) (desired : Hashes) (b : Bool) → Grows (after_warm env ctx pod desired b)
  unfolding after_warm
  after_warm-Grows pod desired false =
      Grows-bind (send env (restart_status pod.name config_changed)) _ (Grows-send env _)
        (λ s. cold-Grows pod)
  after_warm-Grows pod desired true = search grows_rules

  restart_as-Grows :
      (b : Bool) (pod : Pod) (desired : Hashes) → Grows (restart_as env ctx b pod desired)
  unfolding restart_as
  restart_as-Grows false pod desired = cold-Grows pod
  restart_as-Grows true pod desired =
      Grows-bind (send env (warm_restart_pod pod.name)) _ (Grows-send env _)
        (λ reply. after_warm-Grows pod desired (is_ok reply))

  pub restart_pod-Grows : (desired : Hashes) (pod : Pod) → Grows (restart_pod env ctx desired pod)
  unfolding restart_pod
  restart_pod-Grows desired pod =
      let is_warm = should_warm_restart ctx.has_rest_config ctx.image pod desired in
      let reason = determine_restart_reason pod ctx.image desired is_warm in
      Grows-bind (send env (restart_status pod.name reason)) _
        (Grows-send env (restart_status pod.name reason))
        (λ status. restart_as-Grows is_warm pod desired)

pub WasRestarted-Extends :
    (desired : Hashes) (name : String) {before after : Log}
    → Extends before after
    → WasRestarted desired name before
    → WasRestarted desired name after
WasRestarted-Extends desired name x (inl d) = inl (SentAs-Extends gone (delete_pod name) x d)
WasRestarted-Extends desired name x (inr (w, p)) = inr (
  SentAs-Extends is_ok (warm_restart_pod name) x w,
  SentAs-Extends is_ok (patch_config_hash name desired.config) x p,
)
