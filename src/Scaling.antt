-- ===== src/Scaling.antt =====
-- The replicas of a rack's StatefulSet: `reconcileStatefulSet`, `checkScaleDownReadiness`,
-- `statefulSetReplicas` and `detectScaling` of internal/controller/reconciler_statefulset.go, and
-- `podOrdinal` of reconciler_restart.go. Replica counts are natural numbers, as the API server
-- refuses others. The pod template stands for its three hashes; rendering it is not modelled.
pub mod Racks
pub mod Steps
pub mod Success
pub mod Safety
pub mod Removed
use aerospike_ce_kubernetes.Prelude.{
  ℕ, suc, ◌+◌, ◌-◌, max, String, Bool, true, false, not, ◌&&◌, ◌||◌, Option, none, some, List, [],
  ◌∷◌, filter, map, length, ltb, ◌==◌, str_eq, if◌then◌else◌,
}
use aerospike_ce_kubernetes.Prelude.Int.{ℤ, pos, negsuc, int32}
use aerospike_ce_kubernetes.Text.{codes, atoi, last_index, drop}
use aerospike_ce_kubernetes.Cluster.{Spec}
use aerospike_ce_kubernetes.Env.{
  Env, Action, Reply, ok, conflict, is_ok, pure, send, ◌>>=◌, create_stateful_set,
  patch_stateful_set, set_waiting_for_migration,
}
use aerospike_ce_kubernetes.Storage.{StorageSpec}
use aerospike_ce_kubernetes.Pod.{Pod, is_pod_ready}
use aerospike_ce_kubernetes.Pod.Hashes.{Hashes, differs}
use aerospike_ce_kubernetes.Claims.{Claim, ClaimSource, below}
use aerospike_ce_kubernetes.Claims.Reclaim.{Observed, reclaim_orphaned_rack_pvcs}
use aerospike_ce_kubernetes.Restart.Sizes.{get_scale_down_batch_size}

ordinal_or_zero : Option ℤ → ℤ
ordinal_or_zero none = pos 0
ordinal_or_zero (some n) = n

ordinal_at : List ℕ → Option ℕ → ℤ
unfolding atoi ordinal_or_zero
ordinal_at name none = pos 0
ordinal_at name (some idx) = ordinal_or_zero (atoi (drop (suc idx) name))

unfoldable pub pod_ordinal : List ℕ → ℤ
unfolding ordinal_at last_index
pod_ordinal name = ordinal_at name (last_index (b'-' ∷ []) name)

-- A StatefulSet with the hashes of its template, "" where absent, and whether it is being deleted.
pub record StatefulSet : Type 0 where
  pub observed : Observed
  pub hashes : Hashes
  pub deleting : Bool

abbrev pub or_zero : Option ℕ → ℕ
or_zero none = 0
or_zero (some n) = n

unfoldable pub stateful_set_replicas : Option StatefulSet → ℕ
stateful_set_replicas none = 0
stateful_set_replicas (some sts) = or_zero sts.observed.replicas

-- A pod that stays and is ready.
unfoldable pub remains_ready : ℕ → Pod → Bool
unfolding pod_ordinal
remains_ready target pod = below (pod_ordinal (codes pod.name)) target && is_pod_ready pod

-- Whether the scale-down is deferred; `none` where the pods cannot be listed.
unfoldable pub check_scale_down_readiness : ℕ → Option (List Pod) → Option Bool
unfolding remains_ready
check_scale_down_readiness target none = none
check_scale_down_readiness target (some pods) =
    some (ltb (length (filter (remains_ready target) pods)) target)

-- `max(z, floor)`
over : ℤ → ℕ → ℕ
over (pos n) floor = max n floor
over (negsuc n) floor = floor

-- `max(old - batch, floor)` in `int32`; the difference of two counts does not wrap.
unfoldable pub lowered : ℕ → ℤ → ℕ → ℕ
unfolding over
lowered old (pos batch) floor = max (old - batch) floor
lowered old (negsuc n) floor = over (int32 (pos (old + suc n))) floor

-- `errors.IsNotFound` or another error of `Get`, or the object.
pub data Lookup : Type 0 where
  absent unreadable : Lookup
  present : StatefulSet → Lookup

-- (deferred, err) of the source.
pub data PassResult : Type 0 where
  done deferred failed : PassResult

-- What one pass over a rack reads, in the order of the source: `migrating` is the migration check, and
-- `none` the failure of a read.
pub record Reads : Type 0 where
  pub found : Lookup
  pub pods_before : Option (List String)
  pub claims : Option (List Claim)
  pub migrating : Option Bool
  pub pods : Option (List Pod)

unfoldable pub hashes_differ : Hashes → Hashes → Bool
hashes_differ existing desired =
    differs existing.config desired.config
    || differs existing.pod_spec desired.pod_spec
    || differs existing.storage desired.storage

abbrev after_phase : Reply → PassResult
after_phase ok = deferred
after_phase conflict = deferred
after_phase _ = failed

module _ (scaled : String → ℕ → Option ℤ) (spec : Spec) where
  -- The replicas of the next patch, for a rack that has some and is to have others.
  unfoldable pub target_replicas : ℕ → ℕ → ℕ
  unfolding lowered
  target_replicas old rack_size =
      if ltb rack_size old
      then lowered old (get_scale_down_batch_size scaled spec (old - rack_size)) rack_size
      else rack_size

module _ (env : Env) (name : String) where
  patch : ℕ → Action PassResult
  patch target =
      send env (patch_stateful_set name target true)
      >>= (λ reply. pure (if is_ok reply then done else failed))

  create : ℕ → Action PassResult
  create rack_size =
      send env (create_stateful_set name rack_size)
      >>= (λ reply. pure (if is_ok reply then done else failed))

  abbrev unless_unready : ℕ → Option Bool → Action PassResult
  unless_unready target none = pure failed
  unless_unready target (some true) = pure deferred
  unless_unready target (some false) = patch target

  abbrev wait : Action PassResult
  wait = send env set_waiting_for_migration >>= (λ reply. pure (after_phase reply))

  -- The gates of a scale-down, then the patch.
  scale_down : ℕ → Option Bool → Option (List Pod) → Action PassResult
  unfolding patch check_scale_down_readiness
  scale_down target none pods = pure deferred
  scale_down target (some true) pods = wait
  scale_down target (some false) pods =
      unless_unready target (check_scale_down_readiness target pods)

module _ (scaled : String → ℕ → Option ℤ) (spec : Spec) (env : Env) (name : String)
    (storage : Option StorageSpec) (desired : Hashes) where
  update : StatefulSet → ℕ → Reads → Action PassResult
  unfolding target_replicas scale_down hashes_differ patch stateful_set_replicas
  update sts rack_size reads =
      let old = stateful_set_replicas (some sts) in
      let target = target_replicas scaled spec old rack_size in
      if old == rack_size && not (hashes_differ sts.hashes desired)
      then pure done
      else if ltb rack_size old
      then scale_down env name target reads.migrating reads.pods
      else patch env name target

  on_found : Lookup → ℕ → Reads → Action PassResult
  unfolding update create reclaim_orphaned_rack_pvcs
  on_found absent rack_size reads = create env name rack_size
  on_found unreadable rack_size reads = pure failed
  on_found (present sts) rack_size reads =
      reclaim_orphaned_rack_pvcs env (some sts.observed) rack_size storage reads.pods_before
        reads.claims
      >>= (λ reclaimed. update sts rack_size reads)

  -- One pass over one rack. The owner reference of a new StatefulSet is taken to be set.
  unfoldable pub reconcile_stateful_set : ℕ → Reads → Action PassResult
  unfolding on_found
  reconcile_stateful_set rack_size reads = on_found reads.found rack_size reads

-- (scalingUp, scalingDown), `none` on an error: each rack's StatefulSet with its desired size.
abbrev pub or_scaling : Bool → Bool → Option (Bool × Bool) → Option (Bool × Bool)
or_scaling up down none = none
or_scaling up down (some (u, d)) = some (up || u, down || d)

abbrev rack_scaling : Lookup → ℕ → Option (Bool × Bool) → Option (Bool × Bool)
rack_scaling absent desired later = or_scaling true false later
rack_scaling unreadable desired later = none
rack_scaling (present sts) desired later =
    let old = or_zero sts.observed.replicas in or_scaling (ltb old desired) (ltb desired old) later

unfoldable pub detect_scaling : List (Lookup × ℕ) → Option (Bool × Bool)
detect_scaling [] = some (false, false)
detect_scaling ((found, desired) ∷ rest) = rack_scaling found desired (detect_scaling rest)
