-- ===== src/Scaling/Removed/Listed.antt =====
-- The racks to tear down, and what may be asked of the API server for one of them.
use aerospike_ce_kubernetes.Prelude.{
  ℕ, ◌≤◌, ◌<◌, ◌≡◌, refl, String, Bool, false, ◌⊎◌, inl, inr, Option, none, some, List, [], ◌∷◌,
  length, filter, All, Bool-cases, true,
}
use aerospike_ce_kubernetes.Prelude.Int.{ℤ}
use aerospike_ce_kubernetes.Cluster.{Spec}
use aerospike_ce_kubernetes.Env.{
  Request, patch_stateful_set, delete_claim, delete_stateful_set, delete_config_map, quiesce_node,
}
use aerospike_ce_kubernetes.Pod.{Pod}
use aerospike_ce_kubernetes.Storage.{StorageSpec, cascade_delete_volume_names}
use aerospike_ce_kubernetes.Claims.{Claim, is_of_volume}
use aerospike_ce_kubernetes.Claims.Deletion.{get_pvcs_for_stateful_set, is_owned_by_stateful_set}
use aerospike_ce_kubernetes.Claims.Deletion.Sends.{IsAmong}
use aerospike_ce_kubernetes.Scaling.{
  StatefulSet, stateful_set_replicas, remains_ready, StorageSpec, Claim,
}
use aerospike_ce_kubernetes.Scaling.Removed.{
  RemovedRack, RackReads, name_of, rack_id_of, is_current, with_id, removed_racks, drain_target,
}

abbrev pub IsListed : StatefulSet → List StatefulSet → Type 0
IsListed sts [] = ⊥
IsListed sts (s ∷ rest) = (sts ≡ s) ⊎ IsListed sts rest

-- The rack is that of a listed StatefulSet, and has left the specification.
pub record IsRemoved (cluster_name : String) (rack_ids : List ℕ) (stss : List StatefulSet)
    (rr : RemovedRack) : Type 0 where
  pub listed : IsListed rr.sts stss
  pub gone_from_spec : is_current cluster_name rack_ids (name_of rr.sts) ≡ false
  pub id : rack_id_of cluster_name (name_of rr.sts) ≡ some rr.rack_id

module _ (cluster_name : String) (rack_ids : List ℕ) where
  All-weaken :
      (s : StatefulSet) (stss : List StatefulSet) (racks : List RemovedRack)
      → All (IsRemoved cluster_name rack_ids stss) racks
      → All (IsRemoved cluster_name rack_ids (s ∷ stss)) racks
  All-weaken s stss [] h = tt
  All-weaken s stss (rr ∷ rest) h = (
    record { listed = inr h.0.listed; gone_from_spec = h.0.gone_from_spec; id = h.0.id },
    All-weaken s stss rest h.1,
  )

  with_id-IsRemoved :
      (s : StatefulSet) (rest : List StatefulSet) (o : Option ℤ) (later : List RemovedRack)
      → is_current cluster_name rack_ids (name_of s) ≡ false
      → rack_id_of cluster_name (name_of s) ≡ o
      → All (IsRemoved cluster_name rack_ids (s ∷ rest)) later
      → All (IsRemoved cluster_name rack_ids (s ∷ rest)) (with_id s o later)
  unfolding with_id
  with_id-IsRemoved s rest none later c e h = h
  with_id-IsRemoved s rest (some id) later c e h =
      (record { listed = inl refl; gone_from_spec = c; id = e }, h)

  pub removed_racks-IsRemoved :
      (stss : List StatefulSet)
      → All (IsRemoved cluster_name rack_ids stss) (removed_racks cluster_name rack_ids stss)
  unfolding removed_racks
  removed_racks-IsRemoved [] = tt
  removed_racks-IsRemoved (s ∷ rest) =
      let later =
        All-weaken s rest (removed_racks cluster_name rack_ids rest)
          (removed_racks-IsRemoved rest) in
      elim (Bool-cases (is_current cluster_name rack_ids (name_of s))) [
        | inl e ↦ rw e later
        | inr e ↦
            rw e (with_id-IsRemoved s rest (rack_id_of cluster_name (name_of s)) _ e refl later)
      ]

-- The gates of a lower replica count: no migration, and as many ready pods as are to remain.
pub record IsSafeDrain (rr : RemovedRack) (reads : RackReads) (migrating : Option Bool) (target : ℕ)
    : Type 0 where
  pub settled : migrating ≡ some false
  pub live : rr.sts.deleting ≡ false
  pub running : 0 < stateful_set_replicas (some rr.sts)
  pub pods : List Pod
  pub pods_listed : reads.pods_ready rr.rack_id ≡ some pods
  pub ready : target ≤ length (filter (remains_ready target) pods)

-- A claim that goes with the rack: no pod of the rack is left, and the claim is listed for the rack's
-- own StatefulSet, has a name of it, and is of a volume that cascades.
pub record IsRackClaim (storage : Option StorageSpec) (rr : RemovedRack) (reads : RackReads)
    (name : String) : Type 0 where
  pub no_pods : reads.pods_left rr.rack_id ≡ some []
  pub listed_claims : List Claim
  pub claims_listed :
      get_pvcs_for_stateful_set (reads.claims (name_of rr.sts)) (name_of rr.sts)
      ≡ some listed_claims
  pub claim : Claim
  pub among : IsAmong claim listed_claims
  pub named : name ≡ claim.name
  pub owned : is_owned_by_stateful_set (name_of rr.sts) claim ≡ true
  pub cascades : is_of_volume (name_of rr.sts) (cascade_delete_volume_names storage) claim ≡ true

module _ (scaled : String → ℕ → Option ℤ) (spec : Spec) (storage : Option StorageSpec)
    (reads : RackReads) (migrating : Option Bool) where
  -- What may be sent for one removed rack.
  abbrev pub IsAllowedFor : RemovedRack → Request → Type 0
  IsAllowedFor rr (patch_stateful_set n t false) =
      (n ≡ name_of rr.sts)
      × (t ≡ drain_target scaled spec (stateful_set_replicas (some rr.sts)))
      × IsSafeDrain rr reads migrating t
  IsAllowedFor rr (quiesce_node p) = migrating ≡ some false
  IsAllowedFor rr (delete_stateful_set n) =
      (n ≡ name_of rr.sts) × (rr.sts.deleting ≡ false) × (stateful_set_replicas (some rr.sts) ≡ 0)
  IsAllowedFor rr (delete_claim c) = IsRackClaim storage rr reads c
  IsAllowedFor rr (delete_config_map id) =
      (id ≡ rr.rack_id) × (reads.pods_left rr.rack_id ≡ some [])
  IsAllowedFor rr _ = ⊥
