-- ===== src/Claims/Reclaim.antt =====
-- `reclaimOrphanedRackPVCs` and `rackPodOrdinal` of internal/controller/reconciler_statefulset.go.
-- The rack's pods are given by their names, `none` where the listing fails. The replica counts are
-- natural numbers, as the API server refuses others.
pub mod Safety
pub mod Guards
use aerospike_ce_kubernetes.Prelude.{
  ℕ, suc, ◌+◌, String, Bool, true, false, not, ◌&&◌, ◌||◌, Option, none, some, List, [], ◌∷◌, any,
  length, ltb, leb, ◌==◌, if◌then◌else◌,
}
use aerospike_ce_kubernetes.Prelude.Int.{ℤ, pos, negsuc}
use aerospike_ce_kubernetes.Text.{codes, atoi, last_index, drop}
use aerospike_ce_kubernetes.Env.{Env, Action, pure}
use aerospike_ce_kubernetes.Storage.{StorageSpec, has_cascade_delete_pvcs}
use aerospike_ce_kubernetes.Claims.{Claim, ClaimSource}
use aerospike_ce_kubernetes.Claims.Deletion.{
  Reclaimed, reclaimed, delete_orphaned_cascade_delete_pvcs,
}

abbrev natural_ordinal : Option ℤ → Option ℕ
natural_ordinal none = none
natural_ordinal (some (pos n)) = some n
natural_ordinal (some (negsuc n)) = none

ordinal_after : List ℕ → Option ℕ → Option ℕ
unfolding atoi
ordinal_after name none = none
ordinal_after name (some idx) = natural_ordinal (atoi (drop (suc idx) name))

unfoldable pub rack_pod_ordinal : List ℕ → Option ℕ
unfolding ordinal_after last_index
rack_pod_ordinal name = ordinal_after name (last_index (b'-' ∷ []) name)

-- The StatefulSet as it was read, with its status.
pub record Observed : Type 0 where
  pub source : ClaimSource
  pub replicas : Option ℕ
  pub generation : ℕ
  pub observed_generation : ℕ
  pub status_replicas : ℕ

-- A pod at or above the replica count, or whose ordinal cannot be read.
abbrev pub is_in_the_way : ℕ → Option ℕ → Bool
is_in_the_way replicas none = true
is_in_the_way replicas (some n) = leb replicas n

-- The pods of the rack allow the deletion.
abbrev pub are_pods_settled : ℕ → Option (List String) → Bool
are_pods_settled replicas none = false
are_pods_settled replicas (some pods) =
    length pods == replicas
    && not (any (λ name. is_in_the_way replicas (rack_pod_ordinal (codes name))) pods)

-- The guards on the StatefulSet itself.
abbrev pub is_status_settled : Observed → ℕ → ℕ → Bool
is_status_settled sts rack_size current =
    not (ltb current 1)
    && not (ltb current rack_size)
    && sts.observed_generation == sts.generation
    && sts.status_replicas == current

reclaim_at :
    Env
    → Observed
    → ℕ
    → Option StorageSpec
    → Option (List String)
    → Option (List Claim)
    → Option ℕ
    → Action Reclaimed
unfolding delete_orphaned_cascade_delete_pvcs
reclaim_at env sts rack_size storage pods labelled none = pure (reclaimed 0 [])
reclaim_at env sts rack_size storage pods labelled (some current) =
    if not (is_status_settled sts rack_size current)
    then pure (reclaimed 0 [])
    else if not (are_pods_settled current pods)
    then pure (reclaimed 0 [])
    else delete_orphaned_cascade_delete_pvcs env (some sts.source) current storage labelled

-- The result is what the source logs and reports as an event.
unfoldable pub reclaim_orphaned_rack_pvcs :
    Env
    → Option Observed
    → ℕ
    → Option StorageSpec
    → Option (List String)
    → Option (List Claim)
    → Action Reclaimed
unfolding reclaim_at has_cascade_delete_pvcs
reclaim_orphaned_rack_pvcs env sts rack_size storage pods labelled =
    if not (has_cascade_delete_pvcs storage) then pure (reclaimed 0 []) else elim sts [
      | none ↦ pure (reclaimed 0 [])
      | some s ↦ reclaim_at env s rack_size storage pods labelled s.replicas
    ]
