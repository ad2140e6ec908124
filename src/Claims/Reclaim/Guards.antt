-- ===== src/Claims/Reclaim/Guards.antt =====
-- When the reclamation of a rack deletes anything, and what the deletion with the cluster returns.
use aerospike_ce_kubernetes.Prelude.{
  ℕ, ◌≤◌, ◌<◌, String, true, false, not, ◌≡◌, ◌⊎◌, inl, inr, refl, Option, none, some, List, [],
  ◌∷◌, any, filter, length, All, arith, Bool-cases,
}
use aerospike_ce_kubernetes.Text.{codes}
use aerospike_ce_kubernetes.Env.{Env, Log}
use aerospike_ce_kubernetes.Env.{Request, delete_claim}
use aerospike_ce_kubernetes.Env.Sends.{Sends, Sends-pure, Sends-if}
use aerospike_ce_kubernetes.Claims.Deletion.Sends.{Sends-delete_orphaned_cascade_delete_pvcs}
use aerospike_ce_kubernetes.Storage.{StorageSpec, cascade_delete_volume_names}
use aerospike_ce_kubernetes.Claims.{Claim, is_of_volume}
use aerospike_ce_kubernetes.Claims.Deletion.{
  Reclaimed, reclaimed, Listing, delete_volumes, delete_cascade_delete_pvcs,
  get_pvcs_for_stateful_set,
}
use aerospike_ce_kubernetes.Claims.Deletion.Runs.{
  deleted_of, DeletionOutcome, send_all, delete_until_error_run,
}
use aerospike_ce_kubernetes.Claims.Reclaim.{
  Observed, rack_pod_ordinal, reclaim_orphaned_rack_pvcs, reclaim_at, is_status_settled,
  are_pods_settled, is_in_the_way, has_cascade_delete_pvcs,
}
use aerospike_ce_kubernetes.Claims.Reclaim.Safety.{
  is_orphan, delete_orphaned_cascade_delete_pvcs_lem, filter_none, is_of_volume_none,
}

-- The pod's ordinal can be read and lies below the replica count.
abbrev pub IsBelow : ℕ → String → Type 0
IsBelow replicas name = (k : ℕ) × (rack_pod_ordinal (codes name) ≡ some k) × (k < replicas)

-- The rack runs this many pods, neither fewer than wanted nor more, and its StatefulSet agrees.
pub record Settled (sts : Observed) (rack_size replicas : ℕ) (pods : Option (List String))
    : Type 0 where
  pub running : 1 ≤ replicas
  pub wanted : rack_size ≤ replicas
  pub generation : sts.observed_generation ≡ sts.generation
  pub status : sts.status_replicas ≡ replicas
  pub names : List String
  pub listed : pods ≡ some names
  pub count : length names ≡ replicas
  pub ordinals_below : All (IsBelow replicas) names

is_in_the_way-false :
    (replicas : ℕ) (name : String) (o : Option ℕ)
    → rack_pod_ordinal (codes name) ≡ o
    → is_in_the_way replicas o ≡ false
    → IsBelow replicas name
is_in_the_way-false replicas name none e h = absurd (ground arith)
is_in_the_way-false replicas name (some k) e h = (k, e, ground arith)

pods-IsBelow :
    (replicas : ℕ) (names : List String)
    → any (λ name. is_in_the_way replicas (rack_pod_ordinal (codes name))) names ≡ false
    → All (IsBelow replicas) names
pods-IsBelow replicas [] h = tt
pods-IsBelow replicas (name ∷ rest) h = (
  is_in_the_way-false replicas name (rack_pod_ordinal (codes name)) refl (ground arith),
  pods-IsBelow replicas rest (ground arith),
)

settled :
    (sts : Observed) (rack_size replicas : ℕ) (pods : Option (List String))
    → is_status_settled sts rack_size replicas ≡ true
    → are_pods_settled replicas pods ≡ true
    → Settled sts rack_size replicas pods
settled sts rack_size replicas none s p = absurd (ground arith)
settled sts rack_size replicas (some names) s p = record {
  running = ground arith;
  wanted = ground arith;
  generation = ground arith;
  status = ground arith;
  names = names;
  listed = refl;
  count = ground arith;
  ordinals_below = pods-IsBelow replicas names (ground arith);
}

-- What the reclamation did: nothing, or the orphans' deletion, where the rack has settled.
abbrev pub ReclaimedAsAllowed :
    Env
    → Option Observed
    → ℕ
    → Option StorageSpec
    → Option (List String)
    → List Claim
    → Log
    → Reclaimed × Log
    → Type 0
ReclaimedAsAllowed env sts rack_size storage pods claims log result =
    (result ≡ (reclaimed 0 [], log))
    ⊎ ((s : Observed) × (replicas : ℕ) × (sts ≡ some s)
        × (s.replicas ≡ some replicas)
        × Settled s rack_size replicas pods
        × (result
            ≡ deleted_of env
                (filter (is_orphan s.source replicas (cascade_delete_volume_names storage)) claims)
                log))

reclaim_at_lem :
    (env : Env) (s : Observed) (rack_size : ℕ) (storage : Option StorageSpec)
    (pods : Option (List String)) (claims : List Claim) (log : Log) (current : Option ℕ)
    → s.replicas ≡ current
    → ReclaimedAsAllowed env
        (some s)
        rack_size
        storage
        pods
        claims
        log
        (reclaim_at env s rack_size storage pods (some claims) current log)
unfolding reclaim_at
reclaim_at_lem env s rack_size storage pods claims log none e = inl refl
reclaim_at_lem env s rack_size storage pods claims log (some n) e =
    elim (Bool-cases (is_status_settled s rack_size n)) [
      | inr h ↦ inl (ground (arith, h))
      | inl h ↦ elim (Bool-cases (are_pods_settled n pods)) [
        | inr k ↦ inl (ground (arith, h, k))
        | inl k ↦ inr (
          s,
          n,
          refl,
          e,
          settled s rack_size n pods h k,
          ground (
            arith,
            h,
            k,
            delete_orphaned_cascade_delete_pvcs_lem env s.source n storage claims log,
          ),
        )
      ]
    ]

-- Where the claims can be listed, the reclamation of a rack sends nothing, or the rack runs a known
-- number of pods, one at least and no fewer than the rack's size, its StatefulSet's status reports
-- that number for the newest generation, and the listed pods are that many with all their ordinals
-- below it; then it asks for exactly the orphans at or above that number.
pub reclaim_orphaned_rack_pvcs_lem :
    (env : Env) (sts : Option Observed) (rack_size : ℕ) (storage : Option StorageSpec)
    (pods : Option (List String)) (claims : List Claim) (log : Log)
    → ReclaimedAsAllowed env sts rack_size storage pods claims log
        (reclaim_orphaned_rack_pvcs env sts rack_size storage pods (some claims) log)
unfolding reclaim_orphaned_rack_pvcs
reclaim_orphaned_rack_pvcs_lem env none rack_size storage pods claims log = inl (ground arith)
reclaim_orphaned_rack_pvcs_lem env (some s) rack_size storage pods claims log =
    elim (Bool-cases (has_cascade_delete_pvcs storage)) [
      | inr h ↦ inl (ground (arith, h))
      | inl h ↦ rw h (reclaim_at_lem env s rack_size storage pods claims log s.replicas refl)
    ]

delete_volumes_lem :
    (env : Env) (cascade : List String) (listing : Listing) (sts_name : String) (pvcs : List Claim)
    (log : Log)
    → get_pvcs_for_stateful_set listing sts_name ≡ some pvcs
    → DeletionOutcome env
        (filter (is_of_volume sts_name cascade) pvcs)
        log
        (delete_volumes env cascade listing sts_name log)
unfolding delete_volumes send_all
delete_volumes_lem env [] listing sts_name pvcs log h =
    rw (filter_none (is_of_volume sts_name []) pvcs (is_of_volume_none sts_name))
      (record { settled = refl; sent = refl })
delete_volumes_lem env (v ∷ vs) listing sts_name pvcs log h =
    rw h (delete_until_error_run env (is_of_volume sts_name (v ∷ vs)) pvcs log)

-- Where the StatefulSet's claims can be listed, the deletion with a rack or a cluster returns no error
-- exactly where every claim of a cascading volume was asked to be deleted, in order, and is deleted or
-- gone; otherwise it stopped at the first claim whose deletion failed, with those before it settled
-- and none after it asked for.
pub delete_cascade_delete_pvcs_lem :
    (env : Env) (listing : Listing) (sts_name : String) (storage : Option StorageSpec)
    (pvcs : List Claim) (log : Log)
    → get_pvcs_for_stateful_set listing sts_name ≡ some pvcs
    → DeletionOutcome env
        (filter (is_of_volume sts_name (cascade_delete_volume_names storage)) pvcs)
        log
        (delete_cascade_delete_pvcs env listing sts_name storage log)
unfolding delete_cascade_delete_pvcs
delete_cascade_delete_pvcs_lem env listing sts_name storage pvcs log h =
    delete_volumes_lem env (cascade_delete_volume_names storage) listing sts_name pvcs log h

-- The reclamation sends nothing but deletions of claims.
module _ (P : Request → Type 0) (env : Env) (p : (name : String) → P (delete_claim name)) where
  Sends-reclaim_at :
      (s : Observed) (rack_size : ℕ) (storage : Option StorageSpec) (pods : Option (List String))
      (listed : Option (List Claim)) (current : Option ℕ)
      → Sends P (reclaim_at env s rack_size storage pods listed current)
  unfolding reclaim_at
  Sends-reclaim_at s rack_size storage pods listed none = Sends-pure P (reclaimed 0 [])
  Sends-reclaim_at s rack_size storage pods listed (some current) =
      Sends-if P (not (is_status_settled s rack_size current)) _ _
        (λ h. Sends-pure P (reclaimed 0 []))
        (λ h.
          Sends-if P (not (are_pods_settled current pods)) _ _ (λ g. Sends-pure P (reclaimed 0 []))
            (λ g.
              Sends-delete_orphaned_cascade_delete_pvcs P env p (some s.source) current storage
                listed))

  pub Sends-reclaim_orphaned_rack_pvcs :
      (sts : Option Observed) (rack_size : ℕ) (storage : Option StorageSpec)
      (pods : Option (List String)) (listed : Option (List Claim))
      → Sends P (reclaim_orphaned_rack_pvcs env sts rack_size storage pods listed)
  unfolding reclaim_orphaned_rack_pvcs
  Sends-reclaim_orphaned_rack_pvcs none rack_size storage pods listed =
      Sends-if P (not (has_cascade_delete_pvcs storage)) _ _ (λ h. Sends-pure P (reclaimed 0 []))
        (λ h. Sends-pure P (reclaimed 0 []))
  Sends-reclaim_orphaned_rack_pvcs (some s) rack_size storage pods listed =
      Sends-if P (not (has_cascade_delete_pvcs storage)) _ _ (λ h. Sends-pure P (reclaimed 0 []))
        (λ h. Sends-reclaim_at s rack_size storage pods listed s.replicas)
