-- ===== src/Operations/Terminal.antt =====
-- What the status that a pass writes says.
use mathlib.Core.Path.{subst}
use mathlib.Core.Option.{some-injective}
use aerospike_ce_kubernetes.Prelude.{
  if_both, ℕ, String, Bool, true, false, not, ◌≡◌, refl, ◌∙◌, ◌&&◌, Option, none, some, List, [],
  ◌∷◌, arith, length, any, all, contains,
}
use aerospike_ce_kubernetes.Prelude.Int.{ℤ}
use aerospike_ce_kubernetes.Env.{
  Env, Log, Reply, ok, other, not_found, conflict, failure, Action, persist_operation, send,
}
use aerospike_ce_kubernetes.Pod.{Pod}
use aerospike_ce_kubernetes.Restart.Sizes.{get_rolling_update_batch_size}
use aerospike_ce_kubernetes.Restart.Budget.{Table}
use aerospike_ce_kubernetes.Restart.PodRestart.{Context}
use aerospike_ce_kubernetes.Operations.{
  Operation, OperationKind, in_progress, completed, error, OperationStatus, OperationResult,
  OperationPass, is_outstanding, is_nil, is_terminal, filter_pods_by_names,
  finalize_operation_phase, process, record_outcome, operate, answered, persist, started,
  is_finished, finished, run_batch, on_pods, on_listing, reconcile_operations,
  operation_batch_blocked,
}
use aerospike_ce_kubernetes.Operations.Progress.{process-Rule}

-- Every pod is listed as completed.
abbrev pub all_completed : OperationStatus → List Pod → Bool
all_completed s pods = all (λ pod. contains pod.name s.completed_pods) pods

-- The status is that operation's, it is terminal exactly where the pass is done, and where it says
-- "Completed" every target is listed as completed and no pod as failed.
abbrev pub IsHonest : Operation → List Pod → OperationStatus × Bool → Type 0
IsHonest op pods (s, done) =
    (s.id ≡ op.id)
    × (is_terminal s.phase ≡ done)
    × (s.phase ≡ completed → (all_completed s pods ≡ true) × (s.failed_pods ≡ []))

resolved_completed :
    (pods : List Pod) (cs : List String)
    → any (is_outstanding cs []) pods ≡ false
    → all (λ pod. contains pod.name cs) pods ≡ true
resolved_completed [] cs h = refl
resolved_completed (pod ∷ rest) cs h = ground (arith, resolved_completed rest cs)

finalize-IsHonest :
    (op : Operation) (pods : List Pod) (s : OperationStatus) (fs : List String)
    → s.id ≡ op.id
    → s.phase ≡ in_progress
    → s.failed_pods ≡ fs
    → IsHonest op pods (finalize_operation_phase s pods s.completed_pods s.failed_pods)
unfolding finalize_operation_phase
finalize-IsHonest op pods s [] i p e =
    let resolved = resolved_completed pods s.completed_pods in
    (ground arith, ground arith, λ c. (ground (arith, resolved), ground (arith, e)))
finalize-IsHonest op pods s (f ∷ fs) i p e =
    (ground arith, ground arith, λ c. absurd (ground arith))

module _ (env : Env) where
  answered-written :
      (op : Operation) (pods : List Pod) (table : Table) (s0 : OperationStatus) (done : Bool)
      (reply : Reply) (s : OperationStatus)
      → IsHonest op pods (s0, done)
      → (answered env s0 done table reply).written ≡ some s
      → IsHonest op pods (s, not (answered env s0 done table reply).requeue)
  unfolding answered
  answered-written op pods table s0 true ok s h w =
      subst (λ x. IsHonest op pods (x, true)) (some-injective _ _ w) h
  answered-written op pods table s0 false ok s h w =
      subst (λ x. IsHonest op pods (x, false)) (some-injective _ _ w) h
  answered-written op pods table s0 done other s h w = cc
  answered-written op pods table s0 done not_found s h w = cc
  answered-written op pods table s0 done conflict s h w = cc
  answered-written op pods table s0 done failure s h w = cc

  persist-written :
      (op : Operation) (pods : List Pod) (table : Table) (sd : OperationStatus × Bool) (log : Log)
      (s : OperationStatus)
      → IsHonest op pods sd
      → (persist env table sd log).0.written ≡ some s
      → IsHonest op pods (s, not (persist env table sd log).0.requeue)
  unfolding persist
  persist-written op pods table (s0, done) log s h w =
      answered-written op pods table s0 done (send env persist_operation log).0 s h w

module _ (env : Env) (ctx : Context) (scaled : String → ℕ → Option ℤ)
    (sorted : List String → List String) (pass : OperationPass) where
  outcome-head :
      (name : String) (done : Bool) (s : OperationStatus)
      → ((record_outcome env ctx name done s).id ≡ s.id)
        × ((record_outcome env ctx name done s).phase ≡ s.phase)
  unfolding record_outcome
  outcome-head name true s = (refl, refl)
  outcome-head name false s = (refl, refl)

  process-head :
      (kind : OperationKind) (size : ℤ) (k : ℕ) (pods : List Pod) (s : OperationStatus) (log : Log)
      → let r = process env ctx kind size k pods s log in (r.0.id ≡ s.id) × (r.0.phase ≡ s.phase)
  process-head kind size =
      process-Rule env ctx kind size (λ k pods s log r. (r.0.id ≡ s.id) × (r.0.phase ≡ s.phase))
        (record {
          ends = λ k s log. (refl, refl);
          skips = λ k pod rest s log r e ih. ih;
          stops = λ k pod rest s log e f. (refl, refl);
          attempts = λ k pod rest s log r e f ih.
              let here = outcome-head pod.name (operate env ctx kind pod log).0 s in
              (ih.0 ∙ here.0, ih.1 ∙ here.1);
        })

  run_batch-IsHonest :
      (op : Operation) (pods : List Pod) (s0 : OperationStatus) (b : Bool) (table : Table)
      (log : Log) (s : OperationStatus)
      → s0.id ≡ op.id
      → s0.phase ≡ in_progress
      → let r =
          (run_batch env ctx scaled sorted pass op pods s0
            (record { blocked = b; table = table })
            log).0 in
        r.written ≡ some s → IsHonest op pods (s, not r.requeue)
  unfolding run_batch finished
  run_batch-IsHonest op pods s0 true table log s i p w = cc
  run_batch-IsHonest op pods s0 false table log s i p w =
      let size = get_rolling_update_batch_size scaled pass.spec (length pods) in
      let after = process env ctx op.kind size 0 pods s0 log in
      let head = process-head op.kind size 0 pods s0 log in
      persist-written env op pods table _ after.1 s
        (finalize-IsHonest op pods after.0 after.0.failed_pods (head.0 ∙ i) (head.1 ∙ p) refl) w

  started-head :
      (op : Operation) (earlier : Option OperationStatus)
      → ((started op earlier).id ≡ op.id) × ((started op earlier).phase ≡ in_progress)
  unfolding started
  started-head op none = (refl, refl)
  started-head op (some e) = (refl, refl)

  on_pods-IsHonest :
      (op : Operation) (earlier : Option OperationStatus) (pods : List Pod) (table : Table)
      (log : Log) (s : OperationStatus)
      → let r = (on_pods env ctx scaled sorted pass op earlier pods table log).0 in
        r.written ≡ some s → IsHonest op pods (s, not r.requeue)
  unfolding on_pods
  on_pods-IsHonest op earlier pods table log s w =
      let status = started op earlier in
      let guard =
        operation_batch_blocked sorted pass pods status.completed_pods status.failed_pods table in
      let unmatched : OperationStatus × Bool = (
        record { id = op.id; kind = op.kind; phase = error; completed_pods = []; failed_pods = [] },
        true,
      ) in
      if_both {A = Action OperationResult} (not (is_nil op.pod_list) && is_nil pods) _ _
        (λ m. (m log).0.written ≡ some s → IsHonest op pods (s, not (m log).0.requeue))
        (persist-written env op pods table unmatched log s (refl, refl, λ c. absurd (ground arith)))
        (run_batch-IsHonest op pods status guard.blocked guard.table log s
          (started-head op earlier).0 (started-head op earlier).1)
        w

  on_listing-IsHonest :
      (op : Operation) (earlier : Option OperationStatus) (listed : Option (List Pod))
      (table : Table) (log : Log) (s : OperationStatus)
      → let r = (on_listing env ctx scaled sorted pass op earlier listed table log).0 in
        r.written ≡ some s
        → (all_pods : List Pod) × (listed ≡ some all_pods)
          × IsHonest op (filter_pods_by_names all_pods op.pod_list) (s, not r.requeue)
  unfolding on_listing
  on_listing-IsHonest op earlier none table log s w = absurd (ground arith)
  on_listing-IsHonest op earlier (some all_pods) table log s w = (
    all_pods,
    refl,
    on_pods-IsHonest op earlier (filter_pods_by_names all_pods op.pod_list) table log s w,
  )

  -- A status that a pass writes is the first operation's. Its phase is terminal exactly where the
  -- pass asks for no other one, and where it is "Completed" every target pod that is listed is
  -- listed as completed and none as failed.
  pub reconcile_operations-IsHonest :
      (op : Operation) (rest : List Operation) (earlier : Option OperationStatus)
      (listed : Option (List Pod)) (table : Table) (log : Log) (s : OperationStatus)
      → let r =
          (reconcile_operations env ctx scaled sorted pass
            (op ∷ rest)
            earlier
            listed
            table
            log).0 in
        r.written ≡ some s
        → (all_pods : List Pod) × (listed ≡ some all_pods)
          × IsHonest op (filter_pods_by_names all_pods op.pod_list) (s, not r.requeue)
  unfolding reconcile_operations
  reconcile_operations-IsHonest op rest earlier listed table log s =
      if_both {A = Action OperationResult} (is_finished op earlier) _ _
        (λ m.
          (m log).0.written ≡ some s
          → (all_pods : List Pod) × (listed ≡ some all_pods)
            × IsHonest op (filter_pods_by_names all_pods op.pod_list) (s, not (m log).0.requeue))
        (λ w. absurd (ground arith)) (on_listing-IsHonest op earlier listed table log s)
