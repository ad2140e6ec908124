-- ===== src/Operations/Progress.antt =====
-- What the loop of a pass does to the status of the operation.
use aerospike_ce_kubernetes.Prelude.{
  ℕ, suc, ◌+◌, ◌≤◌, String, Bool, true, false, ◌≡◌, refl, List, [], ◌∷◌, ◌++◌, arith, length, any,
  contains, contains-append, Distinct, length-append, eq_iff, if◌then◌else◌, max,
}
use aerospike_ce_kubernetes.Prelude.Int.{ℤ, geb_int, pos_part, negsuc}
use aerospike_ce_kubernetes.Env.{Env, Log}
use aerospike_ce_kubernetes.Pod.{Pod}
use aerospike_ce_kubernetes.Restart.PodRestart.{Context}
use aerospike_ce_kubernetes.Operations.{
  OperationKind, OperationStatus, is_resolved, operate, record_outcome, process, pos,
  is_outstanding,
}

if_cases {ℓ κ} :
    {A : Type ℓ} (a b : Bool) (x y z : A) (P : A → Type κ)
    → (a ≡ true → P x)
    → (a ≡ false → b ≡ true → P y)
    → (a ≡ false → b ≡ false → P z)
    → P (if a then x else if b then y else z)
if_cases true b x y z P hx hy hz = hx refl
if_cases false true x y z P hx hy hz = hy refl refl
if_cases false false x y z P hx hy hz = hz refl refl

module _ (env : Env) (ctx : Context) (kind : OperationKind) (size : ℤ) where
  -- A fact of the loop: it holds at the end, and each of the three ways through the body keeps it.
  pub record Rule (P : ℕ → List Pod → OperationStatus → Log → OperationStatus × Log → Type 0)
      : Type 0 where
    pub ends : (k : ℕ) (s : OperationStatus) (log : Log) → P k [] s log (s, log)
    pub skips :
        (k : ℕ) (pod : Pod) (rest : List Pod) (s : OperationStatus) (log : Log)
        (r : OperationStatus × Log)
        → is_resolved s.completed_pods s.failed_pods pod ≡ true
        → P k rest s log r
        → P k (pod ∷ rest) s log r
    pub stops :
        (k : ℕ) (pod : Pod) (rest : List Pod) (s : OperationStatus) (log : Log)
        → is_resolved s.completed_pods s.failed_pods pod ≡ false
        → geb_int k size ≡ true
        → P k (pod ∷ rest) s log (s, log)
    pub attempts :
        (k : ℕ) (pod : Pod) (rest : List Pod) (s : OperationStatus) (log : Log)
        (r : OperationStatus × Log)
        → is_resolved s.completed_pods s.failed_pods pod ≡ false
        → geb_int k size ≡ false
        → let (done, log') = operate env ctx kind pod log in
          P (suc k) rest (record_outcome env ctx pod.name done s) log' r → P k (pod ∷ rest) s log r

  pub process-Rule :
      (P : ℕ → List Pod → OperationStatus → Log → OperationStatus × Log → Type 0)
      → Rule P
      → (k : ℕ) (pods : List Pod) (s : OperationStatus) (log : Log)
      → P k pods s log (process env ctx kind size k pods s log)
  unfolding process
  process-Rule P h k [] s log = h.ends k s log
  process-Rule P h k (pod ∷ rest) s log =
      let first = operate env ctx kind pod log in
      let s' = record_outcome env ctx pod.name first.0 s in
      if_cases (is_resolved s.completed_pods s.failed_pods pod) (geb_int k size) _ _ _
        (P k (pod ∷ rest) s log) (λ a. h.skips k pod rest s log _ a (process-Rule P h k rest s log))
        (λ a b. h.stops k pod rest s log a b)
        (λ a b. h.attempts k pod rest s log _ a b (process-Rule P h (suc k) rest s' first.1))

-- No pod is listed twice, and none as both completed and failed.
pub record IsTidy (s : OperationStatus) : Type 0 where
  pub completed : Distinct s.completed_pods
  pub failed : Distinct s.failed_pods
  pub apart :
      (name : String) → contains name s.completed_pods ≡ true → contains name s.failed_pods ≡ false

Distinct-snoc :
    (name : String) (xs : List String)
    → Distinct xs
    → contains name xs ≡ false
    → Distinct (xs ++ (name ∷ []))
Distinct-snoc name [] d h = (refl, tt)
Distinct-snoc name (x ∷ xs) d h = (
  ground (arith, d.0, contains-append x xs (name ∷ []), eq_iff name x, eq_iff x name),
  Distinct-snoc name xs d.1 (ground arith),
)

max_step :
    (k : ℕ) (size : ℤ)
    → geb_int k size ≡ false
    → max (suc k) (pos_part size) ≡ max k (pos_part size)
max_step k (pos n) h = ground arith
max_step k (negsuc n) h = absurd (let e : true ≡ false = h in cc)

-- The pods that have been attempted.
abbrev pub attempted : OperationStatus → ℕ
attempted s = length s.completed_pods + length s.failed_pods

module _ (env : Env) (ctx : Context) (kind : OperationKind) (size : ℤ) where
  outcome-IsTidy :
      (pod : Pod) (done : Bool) (s : OperationStatus)
      → is_resolved s.completed_pods s.failed_pods pod ≡ false
      → IsTidy s
      → IsTidy (record_outcome env ctx pod.name done s)
  unfolding record_outcome
  outcome-IsTidy pod true s new h = record {
    completed = Distinct-snoc pod.name s.completed_pods h.completed (ground arith);
    failed = h.failed;
    apart = λ name e. ground (
      arith,
      contains-append name s.completed_pods (pod.name ∷ []),
      h.apart name,
      eq_iff pod.name name,
    );
  }
  outcome-IsTidy pod false s new h = record {
    completed = h.completed;
    failed = Distinct-snoc pod.name s.failed_pods h.failed (ground arith);
    apart = λ name e. ground (
      arith,
      contains-append name s.failed_pods (pod.name ∷ []),
      h.apart name,
      eq_iff pod.name name,
    );
  }

  -- The loop of a pass keeps the lists tidy: if no pod was listed twice, and none as both completed
  -- and failed, this is so after it, whatever the pods and the batch size.
  pub process-IsTidy :
      (k : ℕ) (pods : List Pod) (s : OperationStatus) (log : Log)
      → IsTidy s
      → IsTidy (process env ctx kind size k pods s log).0
  process-IsTidy k pods s log =
      process-Rule env ctx kind size (λ k pods s log r. IsTidy s → IsTidy r.0)
        (record {
          ends = λ k s log h. h;
          skips = λ k pod rest s log r e ih. ih;
          stops = λ k pod rest s log e f h. h;
          attempts = λ k pod rest s log r e f ih h. ih (outcome-IsTidy pod _ s e h);
        })
        k pods s log

  outcome-attempted :
      (name : String) (done : Bool) (s : OperationStatus)
      → attempted (record_outcome env ctx name done s) ≡ suc (attempted s)
  unfolding record_outcome
  outcome-attempted name true s = omega (arith, length-append s.completed_pods (name ∷ []))
  outcome-attempted name false s = omega (arith, length-append s.failed_pods (name ∷ []))

  -- The loop attempts no more pods than the batch size leaves room for, k of them having been
  -- processed already.
  pub process-bound :
      (k : ℕ) (pods : List Pod) (s : OperationStatus) (log : Log)
      → attempted (process env ctx kind size k pods s log).0 + k
        ≤ attempted s + max k (pos_part size)
  process-bound k pods s log =
      process-Rule env ctx kind size
        (λ k pods s log r. attempted r.0 + k ≤ attempted s + max k (pos_part size))
        (record {
          ends = λ k s log. omega arith;
          skips = λ k pod rest s log r e ih. ih;
          stops = λ k pod rest s log e f. omega arith;
          attempts = λ k pod rest s log r e f ih. omega (
            arith,
            ih,
            max_step k size f,
            outcome-attempted pod.name (operate env ctx kind pod log).0 s,
          );
        })
        k pods s log

  -- Where the batch has room and a pod is left that is neither completed nor failed, the loop
  -- attempts a pod at least.
  pub process-progress :
      (k : ℕ) (pods : List Pod) (s : OperationStatus) (log : Log)
      → geb_int k size ≡ false
      → any (is_outstanding s.completed_pods s.failed_pods) pods ≡ true
      → suc (attempted s) ≤ attempted (process env ctx kind size k pods s log).0
  process-progress k pods s log =
      (process-Rule env ctx kind size
        (λ k pods s log r.
          (attempted s ≤ attempted r.0)
          × (geb_int k size ≡ false
              → any (is_outstanding s.completed_pods s.failed_pods) pods ≡ true
              → suc (attempted s) ≤ attempted r.0))
        (record {
          ends = λ k s log. (omega arith, λ f g. absurd (let h : false ≡ true = g in cc));
          skips = λ k pod rest s log r e ih. (ih.0, λ f g. ih.1 f (ground arith));
          stops = λ k pod rest s log e f. (omega arith, λ g h. absurd (ground arith));
          attempts = λ k pod rest s log r e f ih.
              let step = outcome-attempted pod.name (operate env ctx kind pod log).0 s in
              (omega (arith, ih.0, step), λ g h. omega (arith, ih.0, step));
        })
        k pods s log).1
