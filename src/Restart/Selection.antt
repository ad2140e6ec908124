-- ===== src/Restart/Selection.antt =====
-- Which pods of a rack need a restart: `selectPodsToRestart` of
-- internal/controller/reconciler_restart.go, over the pods in the order that they are listed in.
-- `now` is the clock's reading, in nanoseconds.
pub mod Laws
use aerospike_ce_kubernetes.Prelude.{
  ℕ, suc, ◌-◌, String, Bool, true, false, ◌&&◌, Option, none, some, List, [], ◌∷◌, ltb, lookup,
  if◌then◌else◌,
}
use aerospike_ce_kubernetes.Prelude.Int.{ℤ, ltb_int}
use aerospike_ce_kubernetes.Cluster.{PodStatus}
use aerospike_ce_kubernetes.Pod.{Pod, PodPhase, pending, failed}
use aerospike_ce_kubernetes.Pod.Hashes.{Hashes, PodHashComparison, compare_pod_hashes}

-- Ten minutes.
abbrev pub max_pod_unstable_duration : ℕ
max_pod_unstable_duration = 600000000000

-- `adopted` are the pods that `adoptStorageHash` is called on, `stuck` those that are reported by
-- a `RestartFailed` event.
pub record Selection : Type 0 where
  pub restart : List Pod
  pub config_changed : Bool
  pub adopted : List Pod
  pub stuck : List Pod

abbrev pub nothing_selected : Selection
nothing_selected = record { restart = []; config_changed = false; adopted = []; stuck = [] }

abbrev pub pending_or_failed : PodPhase → Bool
pending_or_failed pending = true
pending_or_failed failed = true
pending_or_failed _ = false

unstable_too_long : ℕ → Option PodStatus → Bool
unstable_too_long now none = false
unstable_too_long now (some status) = elim status.unstable_since [
  | none ↦ false
  | some since ↦ ltb max_pod_unstable_duration (now - since)
]

unfoldable pub is_stuck : ℕ → List (String × PodStatus) → Pod → Bool
unfolding unstable_too_long
is_stuck now statuses pod = unstable_too_long now (lookup pod.name statuses)

-- The `switch` on the comparison, and the test below it.
visit : Pod → PodHashComparison → Selection → Selection
visit pod hashes later = record {
  restart = if hashes.stale then pod ∷ later.restart else later.restart;
  config_changed = if hashes.config_mismatch then true else later.config_changed;
  adopted =
      if hashes.stale
      then later.adopted
      else if hashes.storage_unknown
      then pod ∷ later.adopted
      else later.adopted;
  stuck = later.stuck;
}

module _ (now : ℕ) (statuses : List (String × PodStatus)) (desired : Hashes)
    (max_ignorable : ℤ) where
  -- The loop, with the count of the pods ignored so far.
  scan : ℕ → List Pod → Selection
  unfolding visit
  scan ignored [] = nothing_selected
  scan ignored (pod ∷ rest) =
      let skip = pending_or_failed pod.phase && ltb_int ignored max_ignorable in
      let later = scan (if skip then suc ignored else ignored) rest in
      if skip
      then later
      else if is_stuck now statuses pod
      then record later { stuck = pod ∷ later.stuck }
      else visit pod (compare_pod_hashes pod desired) later

  unfoldable pub select_pods_to_restart : List Pod → Selection
  unfolding scan
  select_pods_to_restart rack_pods = scan 0 rack_pods
