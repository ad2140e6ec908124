-- ===== src/DynamicConfig/Batch/Atomic.antt =====
-- What a successful two-phase commit has done.
use mathlib.Core.Path.{subst}
use mathlib.Core.Option.{some-injective}
use aerospike_ce_kubernetes.Prelude.{
  sym, not, String, Bool, true, false, ◌≡◌, refl, Option, none, some, List, [], ◌∷◌, All, arith,
  inl, if◌then◌else◌,
}
use aerospike_ce_kubernetes.Env.{Env, Log, Action, pure, send, set_config, is_ok}
use aerospike_ce_kubernetes.Env.Sent.{SentOk, SentOk-Extends, Extends, Grows}
use aerospike_ce_kubernetes.ConfigDiff.Values.{Value, Fields, Numbers}
use aerospike_ce_kubernetes.ConfigDiff.{Change, has_changes, has_static_changes}
use aerospike_ce_kubernetes.ConfigDiff.Diff.{diff}
use aerospike_ce_kubernetes.DynamicConfig.{
  AppliedChange, PodDynamicUpdate, Target, continue_if, apply_change, applied_with,
  apply_dynamic_config_on_pod,
}
use aerospike_ce_kubernetes.DynamicConfig.Command.{build_set_config_command}
use aerospike_ce_kubernetes.DynamicConfig.Growth.{apply-Grows}
use aerospike_ce_kubernetes.DynamicConfig.Batch.{
  Outcome, aborted, is_enabled, with_target, resolve_targets, phase_two, validate_all, roll_back,
  after_apply, apply_all, two_phases, try_dynamic_config_update_batch,
}
use aerospike_ce_kubernetes.DynamicConfig.Batch.Growth.{after_apply-Grows, apply_all-Grows}

-- An early return that is no success leaves the other branch.
if_done :
    {R : Type 0} (done : R → Bool) (P : Log → Type 0) (b : Bool) (x y : R × Log)
    → (done x.0 ≡ true → P x.1)
    → (done y.0 ≡ true → P y.1)
    → done (if b then x else y).0 ≡ true
    → P (if b then x else y).1
if_done done P true x y hx hy h = hx h
if_done done P false x y hx hy h = hy h

module _ {N : Type 0} (env : Env) (format : Value N → String) where
  -- The node has accepted the command of the change.
  abbrev pub HasAccepted : String → Log → Change N → Type 0
  HasAccepted node log c =
      (cmd : String) × (build_set_config_command format c ≡ some cmd)
      × SentOk (set_config node cmd) log

  HasAccepted-Extends :
      (node : String) {a b : Log} (cs : List (Change N))
      → Extends a b
      → All (HasAccepted node a) cs
      → All (HasAccepted node b) cs
  HasAccepted-Extends node [] x h = tt
  HasAccepted-Extends node (c ∷ rest) x ((cmd, e, s), h) =
      ((cmd, e, SentOk-Extends (set_config node cmd) x s), HasAccepted-Extends node rest x h)

  continue_if-accepted :
      (node : String) (c : Change N) (rest : List (Change N)) (b : Bool)
      (later : Action (List (AppliedChange N) × Bool)) (log : Log)
      → (b ≡ true → HasAccepted node log c)
      → Grows later
      → ((l : Log) → (later l).0.1 ≡ true → All (HasAccepted node (later l).1) rest)
      → (continue_if env format b c later log).0.1 ≡ true
      → All (HasAccepted node (continue_if env format b c later log).1) (c ∷ rest)
  unfolding continue_if applied_with
  continue_if-accepted node c rest false later log own g ih done = cc
  continue_if-accepted node c rest true later log own g ih done =
      let (cmd, e, s) = own refl in
      ((cmd, e, SentOk-Extends (set_config node cmd) (g.at log) s), ih log done)

  accepted_reply :
      (node cmd : String) (log : Log) (c : Change N)
      → build_set_config_command format c ≡ some cmd
      → is_ok (send env (set_config node cmd) log).0 ≡ true
      → HasAccepted node (send env (set_config node cmd) log).1 c
  unfolding send
  accepted_reply node cmd log c e good = (cmd, e, inl (refl, ground arith))

  apply_change-accepted :
      (node : String) (c : Change N) (rest : List (Change N)) (cmd : Option String)
      (later : Action (List (AppliedChange N) × Bool)) (log : Log)
      → build_set_config_command format c ≡ cmd
      → Grows later
      → ((l : Log) → (later l).0.1 ≡ true → All (HasAccepted node (later l).1) rest)
      → (apply_change env format node c cmd later log).0.1 ≡ true
      → All (HasAccepted node (apply_change env format node c cmd later log).1) (c ∷ rest)
  unfolding apply_change
  apply_change-accepted node c rest none later log e g ih done = cc
  apply_change-accepted node c rest (some cmd) later log e g ih done =
      continue_if-accepted node c rest (is_ok (send env (set_config node cmd) log).0) later
        (send env (set_config node cmd) log).1 (accepted_reply node cmd log c e) g ih done

  apply-accepted :
      (node : String) (changes : List (Change N)) (log : Log)
      → (apply_dynamic_config_on_pod env format node changes log).0.1 ≡ true
      → All (HasAccepted node (apply_dynamic_config_on_pod env format node changes log).1) changes
  unfolding apply_dynamic_config_on_pod
  apply-accepted node [] log done = tt
  apply-accepted node (c ∷ rest) log done =
      if_done (λ r. r.1) (λ l. All (HasAccepted node l) (c ∷ rest)) (env.pod_expired log)
        (([], false), log) _ (λ e. cc)
        (apply_change-accepted node c rest (build_set_config_command format c)
          (apply_dynamic_config_on_pod env format node rest) log refl
          (apply-Grows env format node rest) (apply-accepted node rest))
        done

module _ {N : Type 0} (env : Env) (format : Value N → String) (desired_hash : String) where
  abbrev AllAccepted : List (Change N) → List Target → Log → Type 0
  AllAccepted changes ts log = All (λ t. All (HasAccepted env format t.node log) changes) ts

  -- A rollback is never reported as a success.
  roll_back-fails :
      (dus : List (PodDynamicUpdate N)) (log : Log) (C : Type 0)
      → (roll_back env format desired_hash dus log).0.all_ok ≡ true
      → C
  unfolding roll_back
  roll_back-fails dus log C done = absurd (let h : false ≡ true = done in cc)

  after_apply-accepted :
      (changes : List (Change N)) (t : Target) (rest : List Target)
      (dus : List (PodDynamicUpdate N)) (later : List (PodDynamicUpdate N) → Action (Outcome N))
      (r : List (AppliedChange N) × Bool) (log : Log)
      → (r.1 ≡ true → All (HasAccepted env format t.node log) changes)
      → ((s : List (PodDynamicUpdate N)) → Grows (later s))
      → ((s : List (PodDynamicUpdate N)) (l : Log)
          → (later s l).0.all_ok ≡ true
          → AllAccepted changes rest (later s l).1)
      → (after_apply env format desired_hash t dus later r log).0.all_ok ≡ true
      → AllAccepted changes (t ∷ rest) (after_apply env format desired_hash t dus later r log).1
  unfolding after_apply roll_back
  after_apply-accepted changes t rest dus later (applied, false) log own g ih done = cc
  after_apply-accepted changes t rest dus later (applied, true) log own g ih done = (
    HasAccepted-Extends env format t.node changes
        ((after_apply-Grows env format desired_hash t dus later (applied, true) g).at log)
        (own refl),
    ih _ _ done,
  )

  apply_all-accepted :
      (changes : List (Change N)) (ts : List Target) (dus : List (PodDynamicUpdate N)) (log : Log)
      → (apply_all env format desired_hash changes ts dus log).0.all_ok ≡ true
      → AllAccepted changes ts (apply_all env format desired_hash changes ts dus log).1
  unfolding apply_all
  apply_all-accepted changes [] dus log done = tt
  apply_all-accepted changes (t ∷ rest) dus log done =
      if_done (λ o. o.all_ok) (AllAccepted changes (t ∷ rest)) (env.expired log) _ _
        (roll_back-fails dus log (AllAccepted changes (t ∷ rest) _))
        (after_apply-accepted changes t rest dus _ _ _
          (apply-accepted env format t.node changes log)
          (λ s. apply_all-Grows env format desired_hash changes rest s)
          (λ s l. apply_all-accepted changes rest s l))
        done

  abort_if :
      (b : Bool) (m : Action (Outcome N)) (P : Log → Type 0) (log : Log)
      → ((m log).0.all_ok ≡ true → P (m log).1)
      → ((if b then pure aborted else m) log).0.all_ok ≡ true
      → (b ≡ false) × P ((if b then pure aborted else m) log).1
  abort_if true m P log h done = absurd (let e : false ≡ true = done in cc)
  abort_if false m P log h done = (refl, h done)

  -- The pod's node is known, and has accepted every change.
  abbrev pub IsConfigured : (String → Option String) → List (Change N) → Log → String → Type 0
  IsConfigured node_of changes log pod =
      (node : String) × (node_of pod ≡ some node) × All (HasAccepted env format node log) changes

  resolved_step :
      (node_of : String → Option String) (changes : List (Change N)) (log : Log) (pod : String)
      (o : Option String) (r : Option (List Target)) (ts : List Target)
      → node_of pod ≡ o
      → with_target pod o r ≡ some ts
      → AllAccepted changes ts log
      → IsConfigured node_of changes log pod
        × (rest : List Target) × (r ≡ some rest)
        × AllAccepted changes rest log
  unfolding with_target
  resolved_step node_of changes log pod none r ts e f h = cc
  resolved_step node_of changes log pod (some node) none ts e f h = cc
  resolved_step node_of changes log pod (some node) (some rest) ts e f h =
      let all = subst (λ l. AllAccepted changes l log) (sym (some-injective _ _ f)) h in
      ((node, e, all.0), rest, refl, all.1)

  resolved-IsConfigured :
      (node_of : String → Option String) (changes : List (Change N)) (log : Log)
      (pods : List String) (ts : List Target)
      → resolve_targets node_of pods ≡ some ts
      → AllAccepted changes ts log
      → All (IsConfigured node_of changes log) pods
  unfolding resolve_targets
  resolved-IsConfigured node_of changes log [] ts e h = tt
  resolved-IsConfigured node_of changes log (pod ∷ rest) ts e h =
      let (here, us, f, later) =
        resolved_step node_of changes log pod (node_of pod) (resolve_targets node_of rest) ts refl e
          h in
      (here, resolved-IsConfigured node_of changes log rest us f later)

  phase_two-accepted :
      (changes : List (Change N)) (ts : List Target) (valid : Bool) (log : Log)
      → (phase_two env format desired_hash changes ts valid log).0.all_ok ≡ true
      → AllAccepted changes ts (phase_two env format desired_hash changes ts valid log).1
  unfolding phase_two
  phase_two-accepted changes ts false log done = absurd (let h : false ≡ true = done in cc)
  phase_two-accepted changes ts true log done = apply_all-accepted changes ts [] log done

  two_phases-IsConfigured :
      (node_of : String → Option String) (changes : List (Change N)) (pods : List String)
      (log : Log) (o : Option (List Target))
      → resolve_targets node_of pods ≡ o
      → (two_phases env format desired_hash changes o log).0.all_ok ≡ true
      → All (IsConfigured node_of changes (two_phases env format desired_hash changes o log).1) pods
  unfolding two_phases
  two_phases-IsConfigured node_of changes pods log none e done =
      absurd (let h : false ≡ true = done in cc)
  two_phases-IsConfigured node_of changes pods log (some ts) e done =
      resolved-IsConfigured node_of changes _ pods ts e (
        phase_two-accepted changes ts (validate_all env format desired_hash changes ts log).0
          (validate_all env format desired_hash changes ts log).1 done)

  abbrev pub AllConfigured :
      Numbers N → (String → Option String) → List String → Fields N → Fields N → Log → Type 0
  AllConfigured n node_of pods old_config new_config log =
      (has_static_changes (diff n old_config new_config) ≡ false)
      × All (IsConfigured node_of (diff n old_config new_config).dynamic log) pods

  -- The update of a batch is reported as a success only if the configurations differ in no way that
  -- needs a restart, and every pod of the batch has a node that has answered "ok" to the command of
  -- every change. This holds whatever the nodes and the API server answer, and whenever the
  -- deadline passes.
  pub try_dynamic_config_update_batch-all_ok :
      (n : Numbers N) (enabled : Option Bool) (node_of : String → Option String)
      (pods : List String) (old_config new_config : Fields N) (log : Log)
      → let r =
          try_dynamic_config_update_batch env format desired_hash n enabled node_of pods old_config
            new_config log in
        r.0.all_ok ≡ true → AllConfigured n node_of pods old_config new_config r.1
  unfolding try_dynamic_config_update_batch
  try_dynamic_config_update_batch-all_ok n enabled node_of pods old_config new_config log done =
      let d = diff n old_config new_config in
      let m = two_phases env format desired_hash d.dynamic (resolve_targets node_of pods) in
      let P = λ (l : Log). All (IsConfigured node_of d.dynamic l) pods in
      let Q = λ (l : Log). (has_static_changes d ≡ false) × P l in
      let dynamic_only : Action (Outcome N) = if has_static_changes d then pure aborted else m in
      let changed : Action (Outcome N) =
        if not (has_changes d) then pure aborted else dynamic_only in
      (abort_if (not (is_enabled env format desired_hash enabled)) changed Q log
        (λ e.
          (abort_if (not (has_changes d)) dynamic_only Q log
            (abort_if (has_static_changes d) m P log (
              two_phases-IsConfigured node_of d.dynamic pods log (resolve_targets node_of pods)
                refl))
            e).1)
        done).1
