-- ===== src/Scaling/Removed.antt =====
-- The racks that have left the specification: `cleanupRemovedRacks` and `drainRemovedRack` of
-- internal/controller/reconciler_statefulset.go, and `StatefulSetName`, `ConfigMapName` of
-- internal/utils/names.go.
pub mod Listed
pub mod Rack
pub mod Safety
use aerospike_ce_kubernetes.Prelude.{
  ℕ, suc, ◌+◌, ◌-◌, String, Bool, true, false, not, ◌&&◌, ◌||◌, Option, none, some, List, [], ◌∷◌,
  ◌++◌, any, filter, length, ltb, leb, if◌then◌else◌,
}
use aerospike_ce_kubernetes.Prelude.Int.{ℤ, pos, negsuc}
use aerospike_ce_kubernetes.Text.{codes, atoi, drop, starts_with, same_text}
use aerospike_ce_kubernetes.Text.Decimal.{decimal}
use aerospike_ce_kubernetes.Cluster.{Spec}
use aerospike_ce_kubernetes.Env.{
  Env, Action, Reply, ok, not_found, is_ok, pure, send, ◌>>=◌, ◌>>◌, patch_stateful_set,
  set_waiting_for_migration, delete_stateful_set, delete_config_map,
}
use aerospike_ce_kubernetes.Storage.{StorageSpec}
use aerospike_ce_kubernetes.Pod.{Pod}
use aerospike_ce_kubernetes.Claims.{below}
use aerospike_ce_kubernetes.Claims.Deletion.{Listing, delete_cascade_delete_pvcs}
use aerospike_ce_kubernetes.Restart.PodRestart.{quiesce_node_before_deletion, gone}
use aerospike_ce_kubernetes.Restart.Budget.{Key, Table, clear_migration_check_failures}
use aerospike_ce_kubernetes.Restart.Sizes.{get_scale_down_batch_size}
use aerospike_ce_kubernetes.Scaling.{
  StatefulSet, PassResult, done, deferred, failed, stateful_set_replicas, pod_ordinal,
  check_scale_down_readiness, lowered, after_phase,
}

-- A rack's id is at least 0.
unfoldable pub stateful_set_name : String → ℕ → List ℕ
stateful_set_name cluster_name rack_id = codes cluster_name ++ (b'-' ∷ decimal rack_id)

-- `strings.TrimPrefix(s, prefix)`
abbrev trim_prefix : List ℕ → List ℕ → List ℕ
trim_prefix prefix s = if starts_with prefix s then drop (length prefix) s else s

-- The id that the name of a StatefulSet ends with.
unfoldable pub rack_id_of : String → String → Option ℤ
unfolding atoi starts_with
rack_id_of cluster_name sts_name =
    atoi (trim_prefix (codes cluster_name ++ (b'-' ∷ [])) (codes sts_name))

unfoldable pub is_current : String → List ℕ → String → Bool
unfolding stateful_set_name same_text
is_current cluster_name rack_ids sts_name =
    any (λ id. same_text (stateful_set_name cluster_name id) (codes sts_name)) rack_ids

pub record RemovedRack : Type 0 where
  pub sts : StatefulSet
  pub rack_id : ℤ

abbrev pub name_of : StatefulSet → String
name_of sts = sts.observed.source.name

with_id : StatefulSet → Option ℤ → List RemovedRack → List RemovedRack
with_id sts none later = later
with_id sts (some rack_id) later = record { sts = sts; rack_id = rack_id } ∷ later

-- The StatefulSets whose rack is not in the specification; a name without an id is passed over.
unfoldable pub removed_racks : String → List ℕ → List StatefulSet → List RemovedRack
unfolding with_id rack_id_of is_current
removed_racks cluster_name rack_ids [] = []
removed_racks cluster_name rack_ids (sts ∷ rest) =
    let later = removed_racks cluster_name rack_ids rest in
    if is_current cluster_name rack_ids (name_of sts)
    then later
    else with_id sts (rack_id_of cluster_name (name_of sts)) later

-- The budget after the racks have been forgotten.
unfoldable pub clear_removed : String → List RemovedRack → Table → Table
unfolding clear_migration_check_failures
clear_removed uid [] table = table
clear_removed uid (rr ∷ rest) table =
    clear_removed uid rest
      (clear_migration_check_failures (record { uid = uid; rack = rr.rack_id }) table)

unfoldable pub needs_drain : StatefulSet → Bool
unfolding stateful_set_replicas
needs_drain sts = not sts.deleting && ltb 0 (stateful_set_replicas (some sts))

-- What a pass reads: the pods of a rack for the readiness gate, for the quiesce and after the
-- deletion, the claims, and whether the rack's ConfigMap is there.
pub record RackReads : Type 0 where
  pub pods_ready : ℤ → Option (List Pod)
  pub pods_quiesced : ℤ → Option (List Pod)
  pub pods_left : ℤ → Option (List Pod)
  pub claims : String → Listing
  pub has_config_map : ℤ → Bool

module _ (scaled : String → ℕ → Option ℤ) (spec : Spec) where
  -- The next replica count of a rack that goes away.
  unfoldable pub drain_target : ℕ → ℕ
  unfolding lowered
  drain_target current = lowered current (get_scale_down_batch_size scaled spec current) 0

module _ (env : Env) where
  quiesce_from : ℕ → List Pod → Action (Unit {0})
  unfolding pod_ordinal quiesce_node_before_deletion
  quiesce_from target [] = pure tt
  quiesce_from target (pod ∷ rest) =
      let later = quiesce_from target rest in
      if below (pod_ordinal (codes pod.name)) target
      then later
      else quiesce_node_before_deletion env pod >> later

-- What a step of the loop over the racks comes to: the next rack, with the teardown held or not, or
-- the return of an error.
pub data Step : Type 0 where
  next hold stop : Step

abbrev pub after_drain_patch : Reply → PassResult
after_drain_patch ok = deferred
after_drain_patch _ = failed

module _ (scaled : String → ℕ → Option ℤ) (spec : Spec) (env : Env) (reads : RackReads) where
  quiesce_and_patch : StatefulSet → ℕ → Option (List Pod) → Action PassResult
  unfolding quiesce_from
  quiesce_and_patch sts target none = pure deferred
  quiesce_and_patch sts target (some pods) =
      quiesce_from env target pods
      >> (send env (patch_stateful_set (name_of sts) target false)
          >>= (λ reply. pure (after_drain_patch reply)))

  drain_if_ready : StatefulSet → ℤ → ℕ → Option Bool → Action PassResult
  unfolding quiesce_and_patch
  drain_if_ready sts rack_id target none = pure failed
  drain_if_ready sts rack_id target (some true) = pure deferred
  drain_if_ready sts rack_id target (some false) =
      quiesce_and_patch sts target (reads.pods_quiesced rack_id)

  -- `done` is that the rack has no replicas.
  unfoldable pub drain_removed_rack : StatefulSet → ℤ → Action PassResult
  unfolding drain_target drain_if_ready stateful_set_replicas check_scale_down_readiness
  drain_removed_rack sts rack_id =
      let current = stateful_set_replicas (some sts) in
      let target = drain_target scaled spec current in
      if leb current 0
      then pure done
      else drain_if_ready sts rack_id target
          (check_scale_down_readiness target (reads.pods_ready rack_id))

module _ (scaled : String → ℕ → Option ℤ) (spec : Spec) (storage : Option StorageSpec) (env : Env)
    (reads : RackReads) where
  -- Once the rack's pods are gone: its claims, then its ConfigMap, their errors only logged.
  clean_up : RemovedRack → Option (List Pod) → Action Step
  unfolding delete_cascade_delete_pvcs
  clean_up rr none = pure next
  clean_up rr (some (p ∷ ps)) = pure next
  clean_up rr (some []) =
      delete_cascade_delete_pvcs env (reads.claims (name_of rr.sts)) (name_of rr.sts) storage
      >> (if reads.has_config_map rr.rack_id
          then send env (delete_config_map rr.rack_id) >> pure next
          else pure next)

  delete_set : RemovedRack → Action Step
  unfolding clean_up
  delete_set rr =
      let cleaned = clean_up rr (reads.pods_left rr.rack_id) in
      if rr.sts.deleting
      then cleaned
      else send env (delete_stateful_set (name_of rr.sts))
        >>= (λ reply. if gone reply then cleaned else pure stop)

  abbrev after_drain : RemovedRack → PassResult → Action Step
  after_drain rr done = delete_set rr
  after_drain rr deferred = pure hold
  after_drain rr failed = pure stop

  pub tear_down : Bool → RemovedRack → Action Step
  unfolding delete_set drain_removed_rack needs_drain
  tear_down blocked rr =
      if needs_drain rr.sts
      then if blocked
        then pure hold
        else drain_removed_rack scaled spec env reads rr.sts rr.rack_id >>= after_drain rr
      else delete_set rr

  abbrev go_on : Action PassResult → Action PassResult → Step → Action PassResult
  go_on later held next = later
  go_on later held hold = held
  go_on later held stop = pure failed

  -- The loop, with whether a rack before has been held.
  tear_down_all : Bool → List RemovedRack → Bool → Action PassResult
  unfolding tear_down
  tear_down_all blocked [] held = pure (if held then deferred else done)
  tear_down_all blocked (rr ∷ rest) held =
      let later = tear_down_all blocked rest held in
      let later_held = tear_down_all blocked rest true in
      tear_down blocked rr >>= go_on later later_held

  abbrev after_wait : List RemovedRack → PassResult → Action PassResult
  after_wait racks failed = pure failed
  after_wait racks _ = tear_down_all true racks false

  gated : List RemovedRack → Option Bool → Action PassResult
  unfolding tear_down_all
  gated racks none = tear_down_all true racks false
  gated racks (some true) =
      send env set_waiting_for_migration >>= (λ reply. after_wait racks (after_phase reply))
  gated racks (some false) = tear_down_all false racks false

  over_racks : List RemovedRack → Option Bool → Action PassResult
  unfolding gated needs_drain
  over_racks [] migrating = pure done
  over_racks (rr ∷ rest) migrating =
      if any (λ r. needs_drain r.sts) (rr ∷ rest)
      then gated (rr ∷ rest) migrating
      else tear_down_all false (rr ∷ rest) false

-- The budget is cleared before anything is sent. `listed` is `none` where the listing fails.
unfoldable pub cleanup_removed_racks :
    (String → ℕ → Option ℤ)
    → Spec
    → Option StorageSpec
    → Env
    → RackReads
    → String
    → String
    → List ℕ
    → Option (List StatefulSet)
    → Option Bool
    → Table
    → Action (PassResult × Table)
unfolding over_racks removed_racks clear_removed
cleanup_removed_racks scaled spec storage env reads uid cluster_name rack_ids none migrating table =
    pure (failed, table)
cleanup_removed_racks scaled spec storage env reads uid cluster_name rack_ids (some stss) migrating
      table =
    let racks = removed_racks cluster_name rack_ids stss in
    over_racks scaled spec storage env reads racks migrating
    >>= (λ result. pure (result, clear_removed uid racks table))
