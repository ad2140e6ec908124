-- ===== src/Restart/Batch/Successes.antt =====
-- `restarted` counts the pods of the batch that have not failed.
use aerospike_ce_kubernetes.Prelude.{
  if_both, String, Bool, true, false, ◌≡◌, refl, sym, ◌++◌, List, [], ◌∷◌, arith, length, contains,
  Distinct, eq_iff, eq_refl, Option, none, some,
}
use aerospike_ce_kubernetes.Env.{Env, Log, Action}
use aerospike_ce_kubernetes.ConfigDiff.Values.{Fields}
use aerospike_ce_kubernetes.Pod.{Pod}
use aerospike_ce_kubernetes.Pod.Hashes.{Hashes}
use aerospike_ce_kubernetes.Restart.PodRestart.{Context, restart_pod}
use aerospike_ce_kubernetes.Restart.Batch.{
  BatchResult, Dynamic, names, counted, restart_each, after_dynamic, try_dynamic, restart_pod_batch,
  ℤ, take_batch,
}
use aerospike_ce_kubernetes.Restart.Batch.Remaining.{successes}
use aerospike_ce_kubernetes.DynamicConfig.Batch.{Outcome}
use aerospike_ce_kubernetes.Restart.Batch.Counts.{
  attempt, try_dynamic-IsAccounted, take_batch-prefix,
}
use mathlib.Core.Path.{subst}

successes-other :
    (name : String) (failed : List String) (pods : List Pod)
    → contains name (names pods) ≡ false
    → successes (name ∷ failed) pods ≡ successes failed pods
successes-other name failed [] h = refl
successes-other name failed (pod ∷ rest) h = ground (
  arith,
  successes-other name failed rest (ground arith),
  eq_iff name pod.name,
  eq_iff pod.name name,
)

successes_none : (pods : List Pod) → length (successes [] pods) ≡ length pods
successes_none [] = refl
successes_none (pod ∷ rest) = omega (arith, successes_none rest)

contains-first :
    (name : String) (xs ys : List Pod)
    → contains name (names (xs ++ ys)) ≡ false
    → contains name (names xs) ≡ false
contains-first name [] ys h = refl
contains-first name (x ∷ xs) ys h = ground (arith, contains-first name xs ys)

Distinct-first : (xs ys : List Pod) → Distinct (names (xs ++ ys)) → Distinct (names xs)
Distinct-first [] ys d = tt
Distinct-first (x ∷ xs) ys d = (contains-first x.name xs ys d.0, Distinct-first xs ys d.1)

module _ {N : Type 0} (env : Env) (ctx : Context) (dynamic : Dynamic N) (desired : Hashes) where
  -- The failed pods are among the pods, and the others are counted.
  record IsCounted (pods : List Pod) (r : BatchResult) : Type 0 where
    within : (name : String) → contains name (names pods) ≡ false → contains name r.failed ≡ false
    count : length (successes r.failed pods) ≡ r.restarted

  counted-IsCounted :
      (pod : Pod) (rest : List Pod) (b : Bool) (r : BatchResult)
      → Distinct (names (pod ∷ rest))
      → IsCounted rest r
      → IsCounted (pod ∷ rest) (counted env ctx dynamic desired pod.name b r)
  unfolding counted
  counted-IsCounted pod rest true r d h = record {
    within = λ name e. h.within name (ground arith);
    count = rw (h.within pod.name d.0) (omega (arith, h.count));
  }
  counted-IsCounted pod rest false r d h = record {
    within = λ name e. ground (arith, h.within name);
    count = rw (eq_refl pod.name) (rw (successes-other pod.name r.failed rest d.0) h.count);
  }

  restart_each-IsCounted :
      (batch pods : List Pod) (log : Log)
      → Distinct (names pods)
      → IsCounted pods (restart_each env ctx dynamic desired batch pods log).0
  unfolding restart_each
  restart_each-IsCounted batch [] log d = record { within = λ name e. refl; count = refl }
  restart_each-IsCounted batch (pod ∷ rest) log d =
      counted-IsCounted pod rest (restart_pod env ctx desired pod log).0 _ d
        (restart_each-IsCounted batch rest (restart_pod env ctx desired pod log).1 d.1)

  abbrev pub Tallies : List Pod → BatchResult → Type 0
  Tallies batch r = length (successes r.failed batch) ≡ r.restarted

  after_dynamic-Tallies :
      (batch : List Pod) (outcome : Outcome N) (b : Bool) (log : Log)
      → Distinct (names batch)
      → Tallies batch (after_dynamic env ctx dynamic desired batch outcome b log).0
  unfolding after_dynamic
  after_dynamic-Tallies batch outcome true log d = successes_none batch
  after_dynamic-Tallies batch outcome false log d = (restart_each-IsCounted batch batch _ d).count

  try_dynamic-Tallies :
      (batch : List Pod) (old_config new_config : Option (Fields N)) (log : Log)
      → Distinct (names batch)
      → Tallies batch (try_dynamic env ctx dynamic desired batch old_config new_config log).0
  unfolding try_dynamic
  try_dynamic-Tallies batch none new_config log d = (restart_each-IsCounted batch batch log d).count
  try_dynamic-Tallies batch (some old) none log d = (restart_each-IsCounted batch batch log d).count
  try_dynamic-Tallies batch (some old) (some new) log d =
      let m = attempt env ctx dynamic desired batch old new log in
      if_both {A = Action BatchResult} dynamic.connects _ _ (λ m. Tallies batch (m log).0)
        (after_dynamic-Tallies batch m.0 m.0.all_ok m.1 d)
        (restart_each-IsCounted batch batch log d).count

  -- Where the pods to restart have different names, so have those of the batch, and `restarted` is
  -- the number of the pods of the batch that have not failed.
  pub restart_pod_batch-Tallies :
      (pods : List Pod) (size : ℤ) (old_config new_config : Option (Fields N)) (log : Log)
      → Distinct (names pods)
      → let r = (restart_pod_batch env ctx dynamic desired pods size old_config new_config log).0 in
        Distinct (names r.batch) × Tallies r.batch r
  unfolding restart_pod_batch
  restart_pod_batch-Tallies pods size old_config new_config log d =
      let batch = take_batch size 0 pods in
      let r = (try_dynamic env ctx dynamic desired batch old_config new_config log).0 in
      let same =
        (try_dynamic-IsAccounted env ctx dynamic desired batch old_config new_config log).0 in
      let (rest, e) = take_batch-prefix size 0 pods in
      let first = Distinct-first batch rest (subst (λ l. Distinct (names l)) e d) in
      subst (λ b. Distinct (names b) × Tallies b r) (sym same)
        (first, try_dynamic-Tallies batch old_config new_config log first)
