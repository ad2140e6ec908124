-- ===== src/Restart/Batch.antt =====
-- One batch of a rolling restart: `restartPodBatch` and `filterUnrestarted` of
-- internal/controller/reconciler_restart.go. `dynamicUpdated` is nil wherever the function reads it,
-- so the skipping and the cross-pod rollback that depend on it never happen and are left out.
-- Counts are natural numbers: a batch has fewer than 2 ^ 31 pods.
pub mod Counts
pub mod Remaining
pub mod Successes
use aerospike_ce_kubernetes.Prelude.{
  ℕ, suc, String, Bool, true, false, not, Option, none, some, List, [], ◌∷◌, ◌++◌, map, length, leb,
  filter, contains, if◌then◌else◌,
}
use aerospike_ce_kubernetes.Prelude.Int.{ℤ, geb_int}
use aerospike_ce_kubernetes.Env.{Env, Action, ◌>>=◌, ◌>>◌, pure, send, config_degraded}
use aerospike_ce_kubernetes.ConfigDiff.Values.{Value, Fields, Numbers}
use aerospike_ce_kubernetes.DynamicConfig.{RollbackResult, has_failures}
use aerospike_ce_kubernetes.DynamicConfig.Batch.{Outcome, try_dynamic_config_update_batch}
use aerospike_ce_kubernetes.Pod.{Pod}
use aerospike_ce_kubernetes.Pod.Hashes.{Hashes}
use aerospike_ce_kubernetes.Restart.PodRestart.{Context, restart_pod}

-- `(restarted, failedPods, batchPods)`
pub record BatchResult : Type 0 where
  pub restarted : ℕ
  pub failed : List String
  pub batch : List Pod

abbrev pub names : List Pod → List String
names pods = map (λ p. p.name) pods

-- The first loop, with the number of pods taken so far.
pub take_batch : ℤ → ℕ → List Pod → List Pod
take_batch size taken [] = []
take_batch size taken (pod ∷ rest) =
    let more = take_batch size (suc taken) rest in if geb_int taken size then [] else pod ∷ more

-- What the dynamic path needs: `formatValue`, the numbers of the configuration, the flag of the
-- spec, `findNodeForPod`, and whether `getAerospikeClient` gives a client.
pub record Dynamic (N : Type 0) : Type 0 where
  pub format : Value N → String
  pub numbers : Numbers N
  pub enabled : Option Bool
  pub node_of : String → Option String
  pub connects : Bool

module _ {N : Type 0} (env : Env) (ctx : Context) (dynamic : Dynamic N) (desired : Hashes) where
  counted : String → Bool → BatchResult → BatchResult
  counted name true r = record r { restarted = suc r.restarted }
  counted name false r = record r { failed = name ∷ r.failed }

  -- The loop over the batch, one restart per pod. A failure does not stop it.
  unfoldable pub restart_each : List Pod → List Pod → Action BatchResult
  unfolding counted
  restart_each batch [] = pure (record { restarted = 0; failed = []; batch = batch })
  restart_each batch (pod ∷ rest) = do
    done ← restart_pod env ctx desired pod
    later ← restart_each batch rest
    pure (counted pod.name done later)

  report_degraded : Option RollbackResult → Action (Unit {0})
  report_degraded none = pure tt
  report_degraded (some r) =
      if has_failures r
      then (do reply ← send env (config_degraded r.failed_pods); pure tt)
      else pure tt

  after_dynamic : List Pod → Outcome N → Bool → Action BatchResult
  unfolding report_degraded
  after_dynamic batch outcome true =
      pure (record { restarted = length batch; failed = []; batch = batch })
  after_dynamic batch outcome false = do
    report_degraded outcome.rolled_back
    restart_each batch batch

  -- The two-phase commit first, where both configurations are known and a client is there.
  pub try_dynamic : List Pod → Option (Fields N) → Option (Fields N) → Action BatchResult
  unfolding after_dynamic
  try_dynamic batch (some old_config) (some new_config) =
      if dynamic.connects
      then (do
        outcome ←
            try_dynamic_config_update_batch env dynamic.format desired.config dynamic.numbers
              dynamic.enabled dynamic.node_of (names batch) old_config new_config
        after_dynamic batch outcome outcome.all_ok)
      else restart_each batch batch
  try_dynamic batch _ _ = restart_each batch batch

  unfoldable pub restart_pod_batch :
      List Pod → ℤ → Option (Fields N) → Option (Fields N) → Action BatchResult
  unfolding take_batch try_dynamic
  restart_pod_batch pods_to_restart batch_size old_config new_config =
      try_dynamic (take_batch batch_size 0 pods_to_restart) old_config new_config

-- A name that is new goes to the end of the set.
add : String → List String → List String
add name set = if contains name set then set else set ++ (name ∷ [])

-- `restartedSet`, from the names in it already.
restarted_set : List String → ℕ → List String → List Pod → List String
unfolding add
restarted_set failed restarted set [] = set
restarted_set failed restarted set (pod ∷ rest) =
    let set' = if contains pod.name failed then set else add pod.name set in
    let later = restarted_set failed restarted set' rest in
    if leb restarted (length set') then set' else later

unfoldable pub filter_unrestarted : List String → List String → ℕ → List Pod → List String
unfolding restarted_set
filter_unrestarted all_pending failed restarted batch =
    filter (λ name. not (contains name (restarted_set failed restarted [] batch))) all_pending
