-- ===== src/Examples/Replicas.antt =====
-- The theorems on StatefulSets and claims at concrete inputs.
use aerospike_ce_kubernetes.Prelude.{
  ℕ, ◌≤◌, ◌≡◌, refl, String, true, false, Option, none, some, List, [], ◌∷◌, filter, length, arith,
  ◌+◌,
}
use aerospike_ce_kubernetes.Prelude.Int.{pos}
use aerospike_ce_kubernetes.Text.{codes}
use aerospike_ce_kubernetes.Cluster.{Spec, str}
use aerospike_ce_kubernetes.Storage.{StorageSpec, cascade_delete_volume_names}
use aerospike_ce_kubernetes.Env.{send}
use aerospike_ce_kubernetes.Env.Sends.{Sends}
use aerospike_ce_kubernetes.Pod.{is_true, Pod}
use aerospike_ce_kubernetes.Claims.{
  Claim, ClaimSource, extract_ordinal, extract_volume_name, is_of_volume,
}
use aerospike_ce_kubernetes.Claims.Names.{claim_name, extract-claim_name}
use aerospike_ce_kubernetes.Claims.Deletion.{
  Listing, delete_cascade_delete_pvcs, get_pvcs_for_stateful_set,
}
use aerospike_ce_kubernetes.Claims.Deletion.Runs.{DeletionOutcome}
use aerospike_ce_kubernetes.Claims.Reclaim.{Observed, reclaim_orphaned_rack_pvcs}
use aerospike_ce_kubernetes.Claims.Reclaim.Guards.{
  ReclaimedAsAllowed, reclaim_orphaned_rack_pvcs_lem, delete_cascade_delete_pvcs_lem,
}
use aerospike_ce_kubernetes.Scaling.{StatefulSet, present, Reads, reconcile_stateful_set}
use aerospike_ce_kubernetes.Scaling.Safety.{IsAllowed, reconcile_stateful_set-IsAllowed}
use aerospike_ce_kubernetes.Scaling.Success.{IsAchieved, reconcile_stateful_set-IsAchieved}
use aerospike_ce_kubernetes.Scaling.Steps.{replicas_after, replicas_after_enough}
use aerospike_ce_kubernetes.Scaling.Racks.{get_racks, get_rack_size, total_size, get_rack_size_lem}
use aerospike_ce_kubernetes.Scaling.Removed.{RackReads, cleanup_removed_racks}
use aerospike_ce_kubernetes.Scaling.Removed.Safety.{
  IsAllowedRemoval, cleanup_removed_racks-IsAllowed,
}
use aerospike_ce_kubernetes.Examples.Fixtures.{
  spec, scaled, quarter-FitsInt32, rounded_up, env, desired, pod_with,
}

-- A StatefulSet "db-1" with three pods and one claim template.
abbrev source : ClaimSource
source = record { name = "db-1"; uid = "u1"; templates = "data" ∷ [] }

abbrev claim : String → Claim
claim name = record { name = name; owners = [] }

abbrev observed : Observed
observed = record {
  source = source;
  replicas = some 3;
  generation = 7;
  observed_generation = 7;
  status_replicas = 3;
}

abbrev stateful_set : StatefulSet
stateful_set = record { observed = observed; hashes = desired; deleting = false }

abbrev storage : Option StorageSpec
storage = some (record {
  volumes =
      record {
        name = "data";
        persistent_volume = some "Filesystem";
        init_method = "";
        wipe_method = "";
        cascade_delete = some true;
      }
      ∷ [];
  filesystem_volume_policy = none;
  block_volume_policy = none;
  delete_local_storage_on_restart = none;
})

abbrev claims : List Claim
claims = claim "data-db-1-0" ∷ claim "data-db-1-3" ∷ claim "logs-db-1-4" ∷ []

abbrev pod_names : List String
pod_names = "db-1-0" ∷ "db-1-1" ∷ "db-1-2" ∷ []

abbrev pods : List Pod
pods =
    pod_with "db-1-0" "c2" "s2" is_true
    ∷ pod_with "db-1-1" "c2" "s2" is_true
    ∷ pod_with "db-1-2" "c2" "s2" is_true
    ∷ []

abbrev reads : Reads
reads = record {
  found = present stateful_set;
  pods_before = some pod_names;
  claims = some claims;
  migrating = some false;
  pods = some pods;
}

-- From three pods to two.
reconcile_stateful_set-IsAllowed_example :
    Sends
      (IsAllowed scaled spec "db-1" 2 reads reads.found)
      (reconcile_stateful_set scaled spec env "db-1" storage desired 2 reads)
reconcile_stateful_set-IsAllowed_example =
    reconcile_stateful_set-IsAllowed scaled spec env "db-1" storage desired 2 reads

reconcile_stateful_set-IsAchieved_example :
    IsAchieved scaled spec env "db-1" storage desired 2 reads reads.found
      (reconcile_stateful_set scaled spec env "db-1" storage desired 2 reads []).1
unfolding reconcile_stateful_set aerospike_ce_kubernetes.Restart.Sizes.get_scale_down_batch_size
    aerospike_ce_kubernetes.Pod.is_pod_ready aerospike_ce_kubernetes.Env.send
reconcile_stateful_set-IsAchieved_example =
    reconcile_stateful_set-IsAchieved scaled spec env "db-1" storage desired 2 reads [] refl

reclaim_orphaned_rack_pvcs_lem_example :
    ReclaimedAsAllowed env
      (some observed)
      2
      storage
      (some pod_names)
      claims
      []
      (reclaim_orphaned_rack_pvcs env (some observed) 2 storage (some pod_names) (some claims) [])
reclaim_orphaned_rack_pvcs_lem_example =
    reclaim_orphaned_rack_pvcs_lem env (some observed) 2 storage (some pod_names) claims []

extract-claim_name_example :
    (extract_ordinal (claim_name (codes "data") "db-1" 3) "db-1" ≡ some (pos 3))
    × (extract_volume_name (claim_name (codes "data") "db-1" 3) "db-1" ≡ some (codes "data"))
extract-claim_name_example = extract-claim_name (codes "data") "db-1" 3 (omega arith) (omega arith)

abbrev listing : Listing
listing = record { labelled = some claims; everything = none }

delete_cascade_delete_pvcs_lem_example :
    DeletionOutcome env
      (filter (is_of_volume "db-1" (cascade_delete_volume_names storage)) claims)
      []
      (delete_cascade_delete_pvcs env listing "db-1" storage [])
unfolding get_pvcs_for_stateful_set extract_ordinal
delete_cascade_delete_pvcs_lem_example =
    delete_cascade_delete_pvcs_lem env listing "db-1" storage claims [] refl

-- Batches of a quarter of what is to go.
abbrev quarters : Spec
quarters = record spec {
  rack_config = some (record {
    scale_down_batch_size = some (str "25%");
    max_ignorable_pods = none;
    rolling_update_batch_size = none;
  });
}

replicas_after_enough_example : replicas_after rounded_up quarters 2 3 5 ≡ 2
replicas_after_enough_example =
    replicas_after_enough rounded_up quarters 2 2 5 quarter-FitsInt32 (omega arith)

get_rack_size_lem_example :
    let n = length (get_racks (some (pos 1 ∷ pos 2 ∷ pos 5 ∷ []))) in
    (total_size 8 n n ≡ 8)
    × ((i j : ℕ)
        → i ≤ j
        → (get_rack_size 8 n j ≤ get_rack_size 8 n i)
          × (get_rack_size 8 n i ≤ get_rack_size 8 n j + 1))
get_rack_size_lem_example = get_rack_size_lem (some (pos 1 ∷ pos 2 ∷ pos 5 ∷ [])) 8

-- Rack 2 has left the specification.
abbrev rack_reads : RackReads
rack_reads = record {
  pods_ready = λ id. some pods;
  pods_quiesced = λ id. some pods;
  pods_left = λ id. some [];
  claims = λ name. listing;
  has_config_map = λ id. true;
}

cleanup_removed_racks-IsAllowed_example :
    Sends
      (IsAllowedRemoval scaled spec storage rack_reads
        (some false)
        "db"
        (2 ∷ [])
        (stateful_set ∷ []))
      (cleanup_removed_racks scaled spec storage env rack_reads "u" "db"
        (2 ∷ [])
        (some (stateful_set ∷ []))
        (some false)
        [])
cleanup_removed_racks-IsAllowed_example =
    cleanup_removed_racks-IsAllowed scaled spec storage env rack_reads "u" "db" (2 ∷ [])
      (stateful_set ∷ []) (some false) []
