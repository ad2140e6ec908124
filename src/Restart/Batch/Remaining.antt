-- ===== src/Restart/Batch/Remaining.antt =====
-- The pods that are still pending after a batch.
use mathlib.Core.List.{append-nil}
use aerospike_ce_kubernetes.Prelude.{
  ℕ, ◌+◌, String, false, not, ◌≡◌, refl, ap, sym, ◌∙◌, Bool-cases, inl, inr, leb, ◌&&◌, List, [],
  ◌∷◌, ◌++◌, arith, length, filter, contains, contains-append, Distinct, eq_iff, if◌then◌else◌,
  length-append,
}
use aerospike_ce_kubernetes.Pod.{Pod}
use aerospike_ce_kubernetes.Restart.Batch.{names, add, restarted_set, filter_unrestarted}

-- The pods of the batch that have not failed.
abbrev pub successes : List String → List Pod → List String
successes failed [] = []
successes failed (pod ∷ rest) =
    let later = successes failed rest in
    if contains pod.name failed then later else pod.name ∷ later

-- None of the names is in the set.
abbrev Apart : List String → List Pod → Type 0
Apart set [] = Unit
Apart set (pod ∷ rest) = (contains pod.name set ≡ false) × Apart set rest

Apart-append :
    (set : List String) (name : String) (pods : List Pod)
    → Apart set pods
    → contains name (names pods) ≡ false
    → Apart (set ++ (name ∷ [])) pods
Apart-append set name [] h e = tt
Apart-append set name (pod ∷ rest) h e = (
  ground
      (arith, contains-append pod.name set (name ∷ []), eq_iff name pod.name, eq_iff pod.name name),
  Apart-append set name rest h.1 (ground arith),
)

Apart-empty : (pods : List Pod) → Apart [] pods
Apart-empty [] = tt
Apart-empty (pod ∷ rest) = (refl, Apart-empty rest)

append_cons :
    (xs : List String) (y : String) (ys : List String) → (xs ++ (y ∷ [])) ++ ys ≡ xs ++ (y ∷ ys)
append_cons [] y ys = refl
append_cons (x ∷ xs) y ys = ap (λ zs. x ∷ zs) (append_cons xs y ys)

append_empty : (xs ys : List String) → length ys ≡ 0 → xs ≡ xs ++ ys
append_empty xs [] e = sym (append-nil xs)
append_empty xs (y ∷ ys) e = ground arith

-- The test at the end of an iteration changes nothing: where it stops, no success is left.
stop-successes :
    (restarted : ℕ) (set later found : List String)
    → length set + length found ≡ restarted
    → later ≡ set ++ found
    → (if leb restarted (length set) then set else later) ≡ set ++ found
stop-successes restarted set later found e h = ground (arith, append_empty set found)

restarted_set-successes :
    (failed set : List String) (restarted : ℕ) (batch : List Pod)
    → Distinct (names batch)
    → Apart set batch
    → length set + length (successes failed batch) ≡ restarted
    → restarted_set failed restarted set batch ≡ set ++ successes failed batch
unfolding restarted_set add
restarted_set-successes failed set restarted [] d a e = sym (append-nil set)
restarted_set-successes failed set restarted (pod ∷ rest) d a e =
    elim (Bool-cases (contains pod.name failed)) [
      | inl bad ↦
          let ih = restarted_set-successes failed set restarted rest d.1 a.1 (ground arith) in
          rw bad (stop-successes restarted set _ (successes failed rest) (ground arith) ih)
      | inr good ↦
          let set' = set ++ (pod.name ∷ []) in
          let size = length-append set (pod.name ∷ []) in
          let ih =
            restarted_set-successes failed set' restarted rest d.1
              (Apart-append set pod.name rest a.1 d.0) (ground arith) in
          rw (good, a.0)
            (stop-successes restarted set' _ (successes failed rest) (ground arith) ih
              ∙ append_cons set pod.name (successes failed rest))
    ]

contains-successes :
    (failed : List String) (name : String) (batch : List Pod)
    → contains name (successes failed batch)
      ≡ (contains name (names batch) && not (contains name failed))
contains-successes failed name [] = refl
contains-successes failed name (pod ∷ rest) =
    ground (arith, contains-successes failed name rest, eq_iff pod.name name)

-- Where the pods of the batch have different names and `restarted` counts those that have not
-- failed, exactly the pods of the batch that have not failed leave the pending list, which keeps
-- its order: what has failed, and what was not in the batch, stays.
pub filter_unrestarted-successes :
    (pending failed : List String) (restarted : ℕ) (batch : List Pod)
    → Distinct (names batch)
    → length (successes failed batch) ≡ restarted
    → filter_unrestarted pending failed restarted batch
      ≡ filter (λ name. not (contains name (names batch) && not (contains name failed))) pending
unfolding filter_unrestarted
filter_unrestarted-successes pending failed restarted batch d e =
    let set =
      restarted_set-successes failed [] restarted batch d (Apart-empty batch) (omega (arith, e)) in
    rw set (ap (λ p. filter p pending) (λ i name. not (contains-successes failed name batch i)))
