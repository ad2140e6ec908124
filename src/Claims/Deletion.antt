-- ===== src/Claims/Deletion.antt =====
-- Deletion of claims: `GetPVCsForStatefulSet`, `isOwnedByStatefulSet`,
-- `DeleteOrphanedCascadeDeletePVCs`, `DeleteCascadeDeletePVCs` and `DeletePVCsForStatefulSet` of
-- internal/storage/pvc.go. What the API server lists is an input, `none` where the listing fails.
pub mod Runs
pub mod Sends
use aerospike_ce_kubernetes.Prelude.{
  ℕ, suc, String, Bool, true, false, ◌&&◌, Option, none, some, List, [], ◌∷◌, ◌++◌, ◌≡◌, ◌↔◌, refl,
  sym, ap, arith, filter, all, map, length, if◌then◌else◌,
}
use aerospike_ce_kubernetes.Prelude.Int.{ℤ}
use aerospike_ce_kubernetes.Text.{codes}
use aerospike_ce_kubernetes.Env.{
  Env, Request, Action, Log, Reply, ok, not_found, is_ok, ◌>>=◌, pure, send, delete_claim,
}
use aerospike_ce_kubernetes.Storage.{StorageSpec, cascade_delete_volume_names}
use aerospike_ce_kubernetes.Claims.{
  Claim, ClaimSource, extract_ordinal, is_of_volume, owned_orphan_candidates,
}

abbrev pub is_owned_by_stateful_set : String → Claim → Bool
is_owned_by_stateful_set sts_name claim = elim (extract_ordinal (codes claim.name) sts_name) [
  | none ↦ false
  | some n ↦ true
]

-- The claims under the cluster's labels, and all the claims of the namespace.
pub record Listing : Type 0 where
  pub labelled : Option (List Claim)
  pub everything : Option (List Claim)

pub listed_claims : Listing → Option (List Claim)
listed_claims listing = elim listing.labelled [
  | none ↦ none
  | some [] ↦ listing.everything
  | some (c ∷ cs) ↦ some (c ∷ cs)
]

unfoldable pub get_pvcs_for_stateful_set : Listing → String → Option (List Claim)
unfolding listed_claims
get_pvcs_for_stateful_set listing sts_name = elim (listed_claims listing) [
  | none ↦ none
  | some claims ↦ some (filter (is_owned_by_stateful_set sts_name) claims)
]

-- What the deletion of orphans comes to: how many were deleted, and the names that failed; or the
-- listing failed.
pub data Reclaimed : Type 0 where
  listing_failed : Reclaimed
  reclaimed : ℕ → List String → Reclaimed

-- One more claim, with the reply to its deletion.
abbrev pub tallied : String → Reply → ℕ × List String → ℕ × List String
tallied name ok (deleted, errs) = (suc deleted, errs)
tallied name not_found (deleted, errs) = (deleted, errs)
tallied name _ (deleted, errs) = (deleted, name ∷ errs)

-- The loop over the orphans, which goes on after an error.
pub delete_orphans : Env → (Claim → Bool) → List Claim → Action (ℕ × List String)
delete_orphans env wanted [] = pure (0, [])
delete_orphans env wanted (claim ∷ rest) =
    let later = delete_orphans env wanted rest in
    if wanted claim
    then send env (delete_claim claim.name)
      >>= (λ reply. later >>= (λ result. pure (tallied claim.name reply result)))
    else later

abbrev pub delete_listed : Env → (Claim → Bool) → Option (List Claim) → Action Reclaimed
delete_listed env wanted none = pure listing_failed
delete_listed env wanted (some claims) =
    delete_orphans env wanted claims >>= λ (deleted, errs). pure (reclaimed deleted errs)

unfoldable pub delete_orphans_of_volumes :
    Env → List String → Option ClaimSource → ℕ → Option (List Claim) → Action Reclaimed
unfolding delete_orphans
delete_orphans_of_volumes env [] sts desired labelled = pure (reclaimed 0 [])
delete_orphans_of_volumes env (v ∷ vs) none desired labelled = pure (reclaimed 0 [])
delete_orphans_of_volumes env (v ∷ vs) (some sts) desired labelled =
    delete_listed env (is_of_volume sts.name (v ∷ vs))
      (owned_orphan_candidates sts desired labelled)

unfoldable pub delete_orphaned_cascade_delete_pvcs :
    Env → Option ClaimSource → ℕ → Option StorageSpec → Option (List Claim) → Action Reclaimed
unfolding delete_orphans_of_volumes
delete_orphaned_cascade_delete_pvcs env sts desired storage labelled =
    delete_orphans_of_volumes env (cascade_delete_volume_names storage) sts desired labelled

-- The reply lets the loop of a cluster's deletion go on.
abbrev pub is_reply_settled : Reply → Bool
is_reply_settled ok = true
is_reply_settled not_found = true
is_reply_settled _ = false

-- The loop that stops at the first error; whether there was none.
pub delete_until_error : Env → (Claim → Bool) → List Claim → Action Bool
delete_until_error env wanted [] = pure true
delete_until_error env wanted (claim ∷ rest) =
    let later = delete_until_error env wanted rest in
    if wanted claim
    then send env (delete_claim claim.name)
      >>= (λ reply. if is_reply_settled reply then later else pure false)
    else later

abbrev pub delete_all_listed : Env → (Claim → Bool) → Option (List Claim) → Action Bool
delete_all_listed env wanted none = pure false
delete_all_listed env wanted (some claims) = delete_until_error env wanted claims

unfoldable pub delete_pvcs_for_stateful_set : Env → Listing → String → Action Bool
unfolding delete_until_error get_pvcs_for_stateful_set
delete_pvcs_for_stateful_set env listing sts_name =
    delete_all_listed env (λ claim. true) (get_pvcs_for_stateful_set listing sts_name)

unfoldable pub delete_volumes : Env → List String → Listing → String → Action Bool
unfolding delete_until_error get_pvcs_for_stateful_set
delete_volumes env [] listing sts_name = pure true
delete_volumes env (v ∷ vs) listing sts_name =
    delete_all_listed env (is_of_volume sts_name (v ∷ vs))
      (get_pvcs_for_stateful_set listing sts_name)

unfoldable pub delete_cascade_delete_pvcs :
    Env → Listing → String → Option StorageSpec → Action Bool
unfolding delete_volumes
delete_cascade_delete_pvcs env listing sts_name storage =
    delete_volumes env (cascade_delete_volume_names storage) listing sts_name
