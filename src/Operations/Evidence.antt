-- ===== src/Operations/Evidence.antt =====
-- A pod that an operation reports as completed has been restarted.
use aerospike_ce_kubernetes.Prelude.{
  ℕ, String, Bool, true, false, ◌≡◌, refl, List, [], ◌∷◌, All, All-append,
}
use aerospike_ce_kubernetes.Prelude.Int.{ℤ}
use aerospike_ce_kubernetes.Env.{
  Env, Log, send, is_ok, warm_restart_pod, delete_pod, restart_status,
}
use aerospike_ce_kubernetes.Env.Sent.{
  SentAs, SentAs-Extends, SentAs-send, Extends, Grows, Grows-send, Grows-bind, grows_rules,
}
use aerospike_ce_kubernetes.Cluster.{RestartReason, warm_restart, manual_restart}
use aerospike_ce_kubernetes.Pod.{Pod}
use aerospike_ce_kubernetes.Restart.PodRestart.{Context, gone, cold_restart_pod}
use aerospike_ce_kubernetes.Restart.PodRestart.Evidence.{cold-deleted, cold-Grows}
use aerospike_ce_kubernetes.Operations.{
  OperationKind, warm, pod_restart, unsupported, OperationStatus, note_restart, operate,
  record_outcome, process,
}
use aerospike_ce_kubernetes.Operations.Progress.{process-Rule}

-- What a completed pod has taken.
abbrev pub WasOperated : OperationKind → Log → String → Type 0
WasOperated warm log name = SentAs is_ok (warm_restart_pod name) log
WasOperated pod_restart log name = SentAs gone (delete_pod name) log
WasOperated unsupported log name = ⊥

WasOperated-Extends :
    (kind : OperationKind) {a b : Log} (name : String)
    → Extends a b
    → WasOperated kind a name
    → WasOperated kind b name
WasOperated-Extends warm name x h = SentAs-Extends is_ok (warm_restart_pod name) x h
WasOperated-Extends pod_restart name x h = SentAs-Extends gone (delete_pod name) x h
WasOperated-Extends unsupported name x h = h

AllOperated-Extends :
    (kind : OperationKind) {a b : Log} (names : List String)
    → Extends a b
    → All (WasOperated kind a) names
    → All (WasOperated kind b) names
AllOperated-Extends kind [] x h = tt
AllOperated-Extends kind (name ∷ rest) x h =
    (WasOperated-Extends kind name x h.0, AllOperated-Extends kind rest x h.1)

module _ (env : Env) (ctx : Context) where
  note_restart-Grows :
      (name : String) (reason : RestartReason) (b : Bool)
      → Grows (note_restart env ctx name reason b)
  unfolding note_restart
  note_restart-Grows name reason false = search grows_rules
  note_restart-Grows name reason true = search grows_rules

  note_restart-kept :
      (kind : OperationKind) (name : String) (reason : RestartReason) (b : Bool) (log : Log)
      → (b ≡ true → WasOperated kind log name)
      → (note_restart env ctx name reason b log).0 ≡ true
      → WasOperated kind (note_restart env ctx name reason b log).1 name
  unfolding note_restart
  note_restart-kept kind name reason false log own done = absurd (let e : false ≡ true = done in cc)
  note_restart-kept kind name reason true log own done =
      WasOperated-Extends kind name ((Grows-send env (restart_status name reason)).at log)
        (own refl)

  operate-WasOperated :
      (kind : OperationKind) (pod : Pod) (log : Log)
      → (operate env ctx kind pod log).0 ≡ true
      → WasOperated kind (operate env ctx kind pod log).1 pod.name
  unfolding operate
  operate-WasOperated warm pod log done =
      note_restart-kept warm pod.name _ (is_ok (send env (warm_restart_pod pod.name) log).0) _
        (SentAs-send env is_ok (warm_restart_pod pod.name) log) done
  operate-WasOperated pod_restart pod log done =
      note_restart-kept pod_restart pod.name _ (cold_restart_pod env ctx pod log).0 _
        (cold-deleted env ctx pod log) done
  operate-WasOperated unsupported pod log done = absurd (let e : false ≡ true = done in cc)

  operate-Grows : (kind : OperationKind) (pod : Pod) → Grows (operate env ctx kind pod)
  unfolding operate
  operate-Grows warm pod =
      Grows-bind (send env (warm_restart_pod pod.name)) _
        (Grows-send env (warm_restart_pod pod.name))
        (λ reply. note_restart-Grows pod.name warm_restart (is_ok reply))
  operate-Grows pod_restart pod =
      Grows-bind (cold_restart_pod env ctx pod) _ (cold-Grows env ctx pod)
        (λ done. note_restart-Grows pod.name manual_restart done)
  operate-Grows unsupported pod = search grows_rules

  outcome-operated :
      (kind : OperationKind) (name : String) (done : Bool) (s : OperationStatus) {before log : Log}
      → Extends before log
      → (done ≡ true → WasOperated kind log name)
      → All (WasOperated kind before) s.completed_pods
      → All (WasOperated kind log) (record_outcome env ctx name done s).completed_pods
  unfolding record_outcome
  outcome-operated kind name true s x own h =
      All-append (WasOperated kind _) s.completed_pods (name ∷ [])
        (AllOperated-Extends kind s.completed_pods x h) (own refl, tt)
  outcome-operated kind name false s x own h = AllOperated-Extends kind s.completed_pods x h

  -- If every pod that is listed as completed has been restarted, so has every one that is listed as
  -- completed after a pass: the pod has taken SIGUSR1, or its deletion has succeeded or the server
  -- has answered that it is gone. An operation of an unknown kind completes no pod.
  pub process-AllOperated :
      (kind : OperationKind) (size : ℤ) (k : ℕ) (pods : List Pod) (s : OperationStatus) (log : Log)
      → All (WasOperated kind log) s.completed_pods
      → let r = process env ctx kind size k pods s log in
        All (WasOperated kind r.1) r.0.completed_pods
  process-AllOperated kind size =
      process-Rule env ctx kind size
        (λ k pods s log r.
          All (WasOperated kind log) s.completed_pods
          → All (WasOperated kind r.1) r.0.completed_pods)
        (record {
          ends = λ k s log h. h;
          skips = λ k pod rest s log r e ih. ih;
          stops = λ k pod rest s log e f h. h;
          attempts = λ k pod rest s log r e f ih h. ih (
              outcome-operated kind pod.name (operate env ctx kind pod log).0 s
                ((operate-Grows kind pod).at log) (operate-WasOperated kind pod log) h);
        })
