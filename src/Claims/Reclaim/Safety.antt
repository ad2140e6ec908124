-- ===== src/Claims/Reclaim/Safety.antt =====
-- Which claims the reclamation of a rack deletes, and when.
use aerospike_ce_kubernetes.Prelude.{
  ℕ, String, Bool, false, not, ◌&&◌, ◌||◌, contains, leb, true, ◌≡◌, refl, ap, sym, ◌∙◌, Option,
  none, some, List, [], ◌∷◌, filter, arith,
}
use aerospike_ce_kubernetes.Prelude.Int.{ℤ}
use aerospike_ce_kubernetes.Text.{codes, has_text}
use aerospike_ce_kubernetes.Env.{Env, Log}
use aerospike_ce_kubernetes.Storage.{StorageSpec, cascade_delete_volume_names}
use aerospike_ce_kubernetes.Claims.{
  Claim, ClaimSource, below, is_of_volume, extract_ordinal, owned_by_stateful_set_uid,
  owned_orphan_candidates, is_candidate, candidates_among, leb,
}
use aerospike_ce_kubernetes.Claims.Deletion.{
  delete_orphaned_cascade_delete_pvcs, delete_orphans_of_volumes, delete_listed,
}
use aerospike_ce_kubernetes.Claims.Deletion.Runs.{send_all, failures, deleted_of, delete_listed_run}

abbrev at_or_above : ℕ → Option ℤ → Bool
at_or_above replicas none = false
at_or_above replicas (some n) = not (below n replicas)

-- The claim is the StatefulSet's, of a volume that is deleted with its pod, at or above the count.
unfoldable pub is_orphan : ClaimSource → ℕ → List String → Claim → Bool
is_orphan sts replicas cascade claim =
    at_or_above replicas (extract_ordinal (codes claim.name) sts.name)
    && is_of_volume sts.name sts.templates claim
    && is_of_volume sts.name cascade claim
    && owned_by_stateful_set_uid claim sts.uid

is_orphan-is_candidate :
    (sts : ClaimSource) (replicas : ℕ) (cascade : List String) (claim : Claim)
    → (is_candidate sts replicas claim && is_of_volume sts.name cascade claim)
      ≡ is_orphan sts replicas cascade claim
unfolding is_orphan is_candidate
is_orphan-is_candidate sts replicas cascade claim = ground arith

unfoldable pub is_unowned : List String → Bool
is_unowned [] = true
is_unowned (o ∷ os) = false

-- Whether a claim of the volume and the ordinal goes, from the replica count, the templates, the
-- cascading volumes and the owners of the claim.
unfoldable pub goes : ClaimSource → ℕ → List String → List ℕ → ℕ → List String → Bool
goes sts replicas cascade volume n owners =
    leb replicas n
    && has_text volume sts.templates
    && has_text volume cascade
    && (is_unowned owners || contains sts.uid owners)

filter-filter :
    (p q r : Claim → Bool) (claims : List Claim)
    → ((claim : Claim) → (p claim && q claim) ≡ r claim)
    → filter q (filter p claims) ≡ filter r claims
filter-filter p q r [] h = refl
filter-filter p q r (claim ∷ rest) h = ground (arith, filter-filter p q r rest h, h claim)

pub filter_none :
    (p : Claim → Bool) (claims : List Claim)
    → ((claim : Claim) → p claim ≡ false)
    → filter p claims ≡ []
filter_none p [] h = refl
filter_none p (claim ∷ rest) h = ground (arith, filter_none p rest h, h claim)

pub is_of_volume_none : (sts_name : String) (claim : Claim) → is_of_volume sts_name [] claim ≡ false
is_of_volume_none sts_name claim = ground arith

no_templates :
    (sts : ClaimSource) (replicas : ℕ) (cascade : List String) (claim : Claim)
    → sts.templates ≡ []
    → is_orphan sts replicas cascade claim ≡ false
unfolding is_orphan
no_templates sts replicas cascade claim e = rw e (ground (arith, is_of_volume_none sts.name claim))

no_cascade :
    (sts : ClaimSource) (replicas : ℕ) (claim : Claim) → is_orphan sts replicas [] claim ≡ false
unfolding is_orphan
no_cascade sts replicas claim = ground (arith, is_of_volume_none sts.name claim)

candidates_among_lem :
    (templates : List String) (env : Env) (sts : ClaimSource) (replicas : ℕ) (cascade : List String)
    (claims : List Claim) (log : Log)
    → templates ≡ sts.templates
    → delete_listed env
        (is_of_volume sts.name cascade)
        (candidates_among templates sts replicas (some claims))
        log
      ≡ deleted_of env (filter (is_orphan sts replicas cascade) claims) log
unfolding candidates_among
candidates_among_lem [] env sts replicas cascade claims log e =
    let none_left =
      filter_none (is_orphan sts replicas cascade) claims
        (λ claim. no_templates sts replicas cascade claim (sym e)) in
    delete_listed_run env (is_of_volume sts.name cascade) [] log
    ∙ ap (λ l. deleted_of env l log) (sym none_left)
candidates_among_lem (t ∷ ts) env sts replicas cascade claims log e =
    delete_listed_run env (is_of_volume sts.name cascade)
      (filter (is_candidate sts replicas) claims) log
    ∙ ap (λ l. deleted_of env l log)
        (filter-filter (is_candidate sts replicas) (is_of_volume sts.name cascade)
          (is_orphan sts replicas cascade) claims (is_orphan-is_candidate sts replicas cascade))

delete_orphans_of_volumes_lem :
    (env : Env) (cascade : List String) (sts : ClaimSource) (replicas : ℕ) (claims : List Claim)
    (log : Log)
    → delete_orphans_of_volumes env cascade (some sts) replicas (some claims) log
      ≡ deleted_of env (filter (is_orphan sts replicas cascade) claims) log
unfolding delete_orphans_of_volumes owned_orphan_candidates send_all failures
delete_orphans_of_volumes_lem env [] sts replicas claims log =
    ap (λ l. deleted_of env l log)
      (sym (filter_none (is_orphan sts replicas []) claims (no_cascade sts replicas)))
delete_orphans_of_volumes_lem env (v ∷ vs) sts replicas claims log =
    candidates_among_lem sts.templates env sts replicas (v ∷ vs) claims log refl

-- Where the listing succeeds, the deletion for a scale-down asks for exactly the orphans, in their
-- order and whatever became of those before; it counts the successes and reports the names whose
-- deletion failed otherwise than as not found.
pub delete_orphaned_cascade_delete_pvcs_lem :
    (env : Env) (sts : ClaimSource) (replicas : ℕ) (storage : Option StorageSpec)
    (claims : List Claim) (log : Log)
    → delete_orphaned_cascade_delete_pvcs env (some sts) replicas storage (some claims) log
      ≡ deleted_of env
          (filter (is_orphan sts replicas (cascade_delete_volume_names storage)) claims)
          log
unfolding delete_orphaned_cascade_delete_pvcs
delete_orphaned_cascade_delete_pvcs_lem env sts replicas storage claims log =
    delete_orphans_of_volumes_lem env (cascade_delete_volume_names storage) sts replicas claims log
