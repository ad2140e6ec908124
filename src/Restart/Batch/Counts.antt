-- ===== src/Restart/Batch/Counts.antt =====
-- What a batch has restarted.
use mathlib.Core.Path.{subst}
use aerospike_ce_kubernetes.Prelude.{
  if_both, ℕ, suc, ◌+◌, String, Bool, true, false, ◌≡◌, refl, ◌⊎◌, inl, inr, Option, none, some,
  List, [], ◌∷◌, ◌++◌, All, arith, length, contains, ap, sym, eq_refl, Bool-cases, min, ◌-◌,
}
use aerospike_ce_kubernetes.Prelude.Int.{ℤ, pos_part, geb_int, pos, negsuc}
use aerospike_ce_kubernetes.Env.{Env, Log, Action}
use aerospike_ce_kubernetes.Env.Sent.{Extends, Grows, Grows-pure, Grows-bind}
use aerospike_ce_kubernetes.ConfigDiff.Values.{Fields}
use aerospike_ce_kubernetes.Pod.{Pod}
use aerospike_ce_kubernetes.Pod.Hashes.{Hashes}
use aerospike_ce_kubernetes.Restart.PodRestart.{Context, restart_pod}
use aerospike_ce_kubernetes.Restart.PodRestart.Evidence.{
  WasRestarted, restart_pod-WasRestarted, restart_pod-Grows, WasRestarted-Extends,
}
use aerospike_ce_kubernetes.Restart.Batch.{
  BatchResult, Dynamic, names, take_batch, counted, restart_each, after_dynamic, try_dynamic,
  restart_pod_batch,
}
use aerospike_ce_kubernetes.DynamicConfig.Batch.{Outcome, try_dynamic_config_update_batch}
use aerospike_ce_kubernetes.DynamicConfig.Batch.Atomic.{
  AllConfigured, try_dynamic_config_update_batch-all_ok,
}

take_batch-length :
    (size : ℤ) (taken : ℕ) (pods : List Pod)
    → length (take_batch size taken pods) ≡ min (length pods) (pos_part size - taken)
unfolding take_batch
take_batch-length size taken [] = ground arith
take_batch-length (pos k) taken (pod ∷ rest) =
    ground (arith, take_batch-length (pos k) (suc taken) rest)
take_batch-length (negsuc k) taken (pod ∷ rest) = ground arith

pub take_batch-prefix :
    (size : ℤ) (taken : ℕ) (pods : List Pod)
    → (rest : List Pod) × (pods ≡ take_batch size taken pods ++ rest)
unfolding take_batch
take_batch-prefix size taken [] = ([], refl)
take_batch-prefix size taken (pod ∷ rest) =
    let (later, e) = take_batch-prefix size (suc taken) rest in
    elim (Bool-cases (geb_int taken size)) [
      | inl stop ↦ (pod ∷ rest, rw stop refl)
      | inr go ↦ (later, rw go (ap (λ l. pod ∷ l) e))
    ]

-- A batch is the first pods of a list, as many as there are up to the size.
abbrev pub IsFirst : List Pod → ℤ → List Pod → Type 0
IsFirst pods size batch =
    (length batch ≡ min (length pods) (pos_part size)) × (rest : List Pod) × (pods ≡ batch ++ rest)

take_batch-IsFirst : (size : ℤ) (pods : List Pod) → IsFirst pods size (take_batch size 0 pods)
take_batch-IsFirst size pods =
    let (rest, e) = take_batch-prefix size 0 pods in
    (grind (arith, take_batch-length size 0 pods), rest, e)

module _ {N : Type 0} (env : Env) (ctx : Context) (dynamic : Dynamic N) (desired : Hashes) where
  abbrev pub IsComplete : List Pod → BatchResult → Type 0
  IsComplete pods r = r.restarted + length r.failed ≡ length pods

  counted-IsComplete :
      (pod : Pod) (rest : List Pod) (b : Bool) (r : BatchResult)
      → IsComplete rest r
      → IsComplete (pod ∷ rest) (counted env ctx dynamic desired pod.name b r)
  unfolding counted
  counted-IsComplete pod rest true r h = omega (arith, h)
  counted-IsComplete pod rest false r h = omega (arith, h)

  restart_each-IsComplete :
      (batch pods : List Pod) (log : Log)
      → IsComplete pods (restart_each env ctx dynamic desired batch pods log).0
  unfolding restart_each
  restart_each-IsComplete batch [] log = refl
  restart_each-IsComplete batch (pod ∷ rest) log =
      counted-IsComplete pod rest (restart_pod env ctx desired pod log).0 _
        (restart_each-IsComplete batch rest (restart_pod env ctx desired pod log).1)

  -- The last batch that was taken, its results, and the evidence.
  abbrev pub Accounts : List Pod → BatchResult → Log → Type 0
  Accounts pods r log =
      All (λ p. (contains p.name r.failed ≡ true) ⊎ WasRestarted desired p.name log) pods

  restart_each-Grows :
      (batch pods : List Pod) → Grows (restart_each env ctx dynamic desired batch pods)
  unfolding restart_each
  restart_each-Grows batch [] = Grows-pure _
  restart_each-Grows batch (pod ∷ rest) =
      Grows-bind (restart_pod env ctx desired pod) _ (restart_pod-Grows env ctx desired pod)
        (λ done.
          Grows-bind (restart_each env ctx dynamic desired batch rest) _
            (restart_each-Grows batch rest)
            (λ later. Grows-pure (counted env ctx dynamic desired pod.name done later)))

  Accounts-failed :
      (name : String) (pods : List Pod) (r : BatchResult) (log : Log)
      → Accounts pods r log
      → Accounts pods (counted env ctx dynamic desired name false r) log
  unfolding counted
  Accounts-failed name [] r log h = tt
  Accounts-failed name (pod ∷ rest) r log (inl f, h) =
      (inl (ground arith), Accounts-failed name rest r log h)
  Accounts-failed name (pod ∷ rest) r log (inr w, h) = (inr w, Accounts-failed name rest r log h)

  counted-Accounts :
      (pod : Pod) (rest : List Pod) (b : Bool) (r : BatchResult) (before log : Log)
      → Extends before log
      → (b ≡ true → WasRestarted desired pod.name before)
      → Accounts rest r log
      → Accounts (pod ∷ rest) (counted env ctx dynamic desired pod.name b r) log
  unfolding counted
  counted-Accounts pod rest true r before log x own h =
      (inr (WasRestarted-Extends desired pod.name x (own refl)), h)
  counted-Accounts pod rest false r before log x own h =
      (inl (ground (arith, eq_refl pod.name)), Accounts-failed pod.name rest r log h)

  restart_each-Accounts :
      (batch pods : List Pod) (log : Log)
      → let r = restart_each env ctx dynamic desired batch pods log in Accounts pods r.0 r.1
  unfolding restart_each
  restart_each-Accounts batch [] log = tt
  restart_each-Accounts batch (pod ∷ rest) log =
      let first = restart_pod env ctx desired pod log in
      counted-Accounts pod rest first.0 _ first.1 _ ((restart_each-Grows batch rest).at first.1)
        (restart_pod-WasRestarted env ctx desired pod log)
        (restart_each-Accounts batch rest first.1)

  -- The pods of the batch have all taken every change dynamically.
  abbrev pub AreConfigured : List Pod → Option (Fields N) → Option (Fields N) → Log → Type 0
  AreConfigured pods old_config new_config log =
      (old : Fields N) × (new : Fields N) × (old_config ≡ some old)
      × (new_config ≡ some new)
      × AllConfigured env dynamic.format desired.config dynamic.numbers dynamic.node_of (names pods)
          old new log

  abbrev pub IsAccounted :
      List Pod → Option (Fields N) → Option (Fields N) → BatchResult → Log → Type 0
  IsAccounted pods old_config new_config r log =
      (r.batch ≡ pods)
      × IsComplete pods r
      × (Accounts pods r log ⊎ AreConfigured pods old_config new_config log)

  counted-batch :
      (name : String) (b : Bool) (r : BatchResult) {batch : List Pod}
      → r.batch ≡ batch
      → (counted env ctx dynamic desired name b r).batch ≡ batch
  unfolding counted
  counted-batch name true r h = h
  counted-batch name false r h = h

  restart_each-batch :
      (batch pods : List Pod) (log : Log)
      → (restart_each env ctx dynamic desired batch pods log).0.batch ≡ batch
  unfolding restart_each counted
  restart_each-batch batch [] log = refl
  restart_each-batch batch (pod ∷ rest) log =
      counted-batch pod.name (restart_pod env ctx desired pod log).0 _
        (restart_each-batch batch rest (restart_pod env ctx desired pod log).1)

  each-IsAccounted :
      (batch : List Pod) (old_config new_config : Option (Fields N)) (log : Log)
      → let r = restart_each env ctx dynamic desired batch batch log in
        IsAccounted batch old_config new_config r.0 r.1
  each-IsAccounted batch old_config new_config log = (
    restart_each-batch batch batch log,
    restart_each-IsComplete batch batch log,
    inl (restart_each-Accounts batch batch log),
  )

  after_dynamic-IsAccounted :
      (batch : List Pod) (old new : Fields N) (outcome : Outcome N) (b : Bool) (log : Log)
      → (b ≡ true → AreConfigured batch (some old) (some new) log)
      → let r = after_dynamic env ctx dynamic desired batch outcome b log in
        IsAccounted batch (some old) (some new) r.0 r.1
  unfolding after_dynamic
  after_dynamic-IsAccounted batch old new outcome true log h = (refl, omega arith, inr (h refl))
  after_dynamic-IsAccounted batch old new outcome false log h =
      each-IsAccounted batch (some old) (some new) _

  abbrev pub attempt : List Pod → Fields N → Fields N → Action (Outcome N)
  attempt batch old new =
      try_dynamic_config_update_batch env dynamic.format desired.config dynamic.numbers
        dynamic.enabled dynamic.node_of (names batch) old new

  pub try_dynamic-IsAccounted :
      (batch : List Pod) (old_config new_config : Option (Fields N)) (log : Log)
      → let r = try_dynamic env ctx dynamic desired batch old_config new_config log in
        IsAccounted batch old_config new_config r.0 r.1
  unfolding try_dynamic
  try_dynamic-IsAccounted batch none new_config log = each-IsAccounted batch none new_config log
  try_dynamic-IsAccounted batch (some old) none log = each-IsAccounted batch (some old) none log
  try_dynamic-IsAccounted batch (some old) (some new) log =
      if_both {A = Action BatchResult} dynamic.connects _ _
        (λ m. IsAccounted batch (some old) (some new) (m log).0 (m log).1)
        (after_dynamic-IsAccounted batch old new (attempt batch old new log).0
          (attempt batch old new log).0.all_ok (attempt batch old new log).1
          (λ done. (
            old,
            new,
            refl,
            refl,
            try_dynamic_config_update_batch-all_ok env dynamic.format desired.config dynamic.numbers
                dynamic.enabled dynamic.node_of (names batch) old new log done,
          )))
        (each-IsAccounted batch (some old) (some new) log)

  -- The batch is the first pods of the list, as many as there are up to the batch size. `restarted`
  -- and the failed pods make up the batch. Either the two-phase commit has configured every pod of
  -- the batch on its node, or each pod of the batch has failed or was restarted (deleted, or sent
  -- SIGUSR1 and stamped with the hash). This holds whatever the API server and the nodes answer.
  pub restart_pod_batch-IsAccounted :
      (pods : List Pod) (size : ℤ) (old_config new_config : Option (Fields N)) (log : Log)
      → let r = restart_pod_batch env ctx dynamic desired pods size old_config new_config log in
        IsFirst pods size r.0.batch × IsAccounted r.0.batch old_config new_config r.0 r.1
  unfolding restart_pod_batch
  restart_pod_batch-IsAccounted pods size old_config new_config log =
      let batch = take_batch size 0 pods in
      let h = try_dynamic-IsAccounted batch old_config new_config log in
      let r = (try_dynamic env ctx dynamic desired batch old_config new_config log).0 in
      let log' = (try_dynamic env ctx dynamic desired batch old_config new_config log).1 in
      subst (λ b. IsFirst pods size b × IsAccounted b old_config new_config r log') (sym h.0)
        (take_batch-IsFirst size pods, h)
