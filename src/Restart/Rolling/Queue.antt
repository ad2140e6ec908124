-- ===== src/Restart/Rolling/Queue.antt =====
-- What a pass that restarts a batch leaves pending, and what it answers.
use aerospike_ce_kubernetes.Prelude.{
  ◌+◌, ◌≤◌, String, true, not, ◌≡◌, ◌↔◌, refl, ap, sym, ◌&&◌, Option, none, some, List, [], ◌∷◌,
  length, filter, contains, Distinct, arith, ◌==◌,
}
use aerospike_ce_kubernetes.Prelude.Int.{ℤ}
use aerospike_ce_kubernetes.Env.{Env, Log}
use aerospike_ce_kubernetes.ConfigDiff.Values.{Fields}
use aerospike_ce_kubernetes.Pod.{Pod}
use aerospike_ce_kubernetes.Pod.Hashes.{Hashes}
use aerospike_ce_kubernetes.Restart.Budget.{Table}
use aerospike_ce_kubernetes.Restart.PodRestart.{Context}
use aerospike_ce_kubernetes.Restart.Batch.{BatchResult, Dynamic, names, restart_pod_batch}
use aerospike_ce_kubernetes.Restart.Batch.Remaining.{successes, filter_unrestarted-successes}
use aerospike_ce_kubernetes.Restart.Batch.Counts.{restart_pod_batch-IsAccounted}
use aerospike_ce_kubernetes.Restart.Batch.Successes.{restart_pod_batch-Tallies}
use aerospike_ce_kubernetes.Restart.Rolling.{is_empty, after_batch}

-- The names without those of the pods that the batch has restarted.
abbrev pub unrestarted : BatchResult → List String → List String
unrestarted r = filter (λ name. not (contains name (names r.batch) && not (contains name r.failed)))

filter_all : (xs : List String) → filter (λ name. true) xs ≡ xs
filter_all [] = refl
filter_all (x ∷ xs) = ap (λ l. x ∷ l) (filter_all xs)

empty_batch :
    (xs : List String) (batch : List Pod) (failed : List String)
    → length batch ≡ 0
    → xs ≡ filter (λ name. not (contains name (names batch) && not (contains name failed))) xs
empty_batch xs [] failed h = sym (filter_all xs)
empty_batch xs (pod ∷ rest) failed h = ground arith

is_empty-length : (xs : List String) → is_empty xs ≡ (length xs == 0)
is_empty-length [] = refl
is_empty-length (x ∷ xs) = ground arith

after_batch-pending :
    (pending : List String) (table : Table) (r : BatchResult)
    → Distinct (names r.batch)
    → length (successes r.failed r.batch) ≡ r.restarted
    → r.restarted + length r.failed ≡ length r.batch
    → (after_batch pending table r).pending ≡ some (unrestarted r pending)
unfolding after_batch
after_batch-pending pending table r d t c =
    let same = filter_unrestarted-successes pending r.failed r.restarted r.batch d t in
    ground (arith, same, is_empty-length r.failed, empty_batch pending r.batch r.failed)

after_batch-result :
    (pending : List String) (table : Table) (r : BatchResult)
    → ((after_batch pending table r).result ≡ some true ↔ 1 ≤ r.restarted)
      × ((after_batch pending table r).result ≡ none ↔ (r.restarted ≡ 0) × (1 ≤ length r.failed))
unfolding after_batch
after_batch-result pending table r = ground (arith, is_empty-length r.failed)

module _ {N : Type 0} (env : Env) (ctx : Context) (dynamic : Dynamic N) (desired : Hashes) where
  -- After a batch of pods with different names, the pending list is the selected pods less those
  -- of the batch that have not failed, in order. The pass answers that a restart is on its way
  -- exactly when a pod was restarted, and with an error exactly when pods have failed and none was
  -- restarted.
  pub after_batch-queue :
      (pods : List Pod) (size : ℤ) (old_config new_config : Option (Fields N)) (table : Table)
      (log : Log)
      → Distinct (names pods)
      → let r = (restart_pod_batch env ctx dynamic desired pods size old_config new_config log).0 in
        let a = after_batch (names pods) table r in
        (a.pending ≡ some (unrestarted r (names pods)))
        × (a.result ≡ some true ↔ 1 ≤ r.restarted)
        × (a.result ≡ none ↔ (r.restarted ≡ 0) × (1 ≤ length r.failed))
  after_batch-queue pods size old_config new_config table log d =
      let r = (restart_pod_batch env ctx dynamic desired pods size old_config new_config log).0 in
      let (distinct, tallies) =
        restart_pod_batch-Tallies env ctx dynamic desired pods size old_config new_config log d in
      let acc =
        restart_pod_batch-IsAccounted env ctx dynamic desired pods size old_config new_config log in
      let (some_restarted, none_restarted) = after_batch-result (names pods) table r in
      (
        after_batch-pending (names pods) table r distinct tallies acc.1.1,
        some_restarted,
        none_restarted,
      )
