-- ===== src/Claims/Deletion/Sends.antt =====
-- The deletions of claims, `DeleteOrphanedCascadeDeletePVCs` and `DeleteCascadeDeletePVCs` of
-- internal/storage/pvc.go: what they may send.
use aerospike_ce_kubernetes.Prelude.{
  ℕ, String, Bool, true, false, Option, none, some, List, [], ◌∷◌, if◌then◌else◌, ◌≡◌, refl, ◌⊎◌,
  inl, inr, ◌∙◌, Bool-cases, filter, ap, arith, sym,
}
use aerospike_ce_kubernetes.Env.{Env, Request, pure, send, ◌>>=◌, delete_claim}
use aerospike_ce_kubernetes.Env.Sends.{Sends, Sends-pure, Sends-send, Sends-bind, Sends-if}
use aerospike_ce_kubernetes.Storage.{StorageSpec, cascade_delete_volume_names}
use aerospike_ce_kubernetes.Claims.{Claim, ClaimSource, is_of_volume}
use aerospike_ce_kubernetes.Claims.Deletion.{
  reclaimed, listing_failed, tallied, is_reply_settled, delete_orphans, delete_until_error,
  delete_orphans_of_volumes, delete_orphaned_cascade_delete_pvcs, delete_volumes,
  delete_cascade_delete_pvcs, delete_listed, delete_all_listed, Listing, get_pvcs_for_stateful_set,
  is_owned_by_stateful_set, listed_claims,
}

module _ (P : Request → Type 0) (env : Env) (p : (name : String) → P (delete_claim name)) where
  Sends-delete_orphans :
      (wanted : Claim → Bool) (claims : List Claim) → Sends P (delete_orphans env wanted claims)
  unfolding delete_orphans
  Sends-delete_orphans wanted [] = Sends-pure P (0, [])
  Sends-delete_orphans wanted (claim ∷ rest) =
      let later = Sends-delete_orphans wanted rest in
      Sends-if P (wanted claim) _ _
        (λ h.
          Sends-bind P (send env (delete_claim claim.name))
            (λ reply.
              delete_orphans env wanted rest >>= (λ result. pure (tallied claim.name reply result)))
            (Sends-send P env (delete_claim claim.name) (p claim.name))
            (λ reply.
              Sends-bind P (delete_orphans env wanted rest)
                (λ result. pure (tallied claim.name reply result)) later
                (λ result. Sends-pure P (tallied claim.name reply result))))
        (λ h. later)

  Sends-delete_listed :
      (wanted : Claim → Bool) (claims : Option (List Claim))
      → Sends P (delete_listed env wanted claims)
  Sends-delete_listed wanted none = Sends-pure P listing_failed
  Sends-delete_listed wanted (some claims) =
      Sends-bind P (delete_orphans env wanted claims) _ (Sends-delete_orphans wanted claims)
        (λ result. Sends-pure P (reclaimed result.0 result.1))

  Sends-delete_orphans_of_volumes :
      (names : List String) (sts : Option ClaimSource) (desired : ℕ) (listed : Option (List Claim))
      → Sends P (delete_orphans_of_volumes env names sts desired listed)
  unfolding delete_orphans_of_volumes
  Sends-delete_orphans_of_volumes [] sts desired listed = Sends-pure P (reclaimed 0 [])
  Sends-delete_orphans_of_volumes (v ∷ vs) none desired listed = Sends-pure P (reclaimed 0 [])
  Sends-delete_orphans_of_volumes (v ∷ vs) (some sts) desired listed = Sends-delete_listed _ _

  pub Sends-delete_orphaned_cascade_delete_pvcs :
      (sts : Option ClaimSource) (desired : ℕ) (storage : Option StorageSpec)
      (listed : Option (List Claim))
      → Sends P (delete_orphaned_cascade_delete_pvcs env sts desired storage listed)
  unfolding delete_orphaned_cascade_delete_pvcs
  Sends-delete_orphaned_cascade_delete_pvcs sts desired storage listed =
      Sends-delete_orphans_of_volumes (cascade_delete_volume_names storage) sts desired listed

-- The claim is one of the list.
abbrev pub IsAmong : Claim → List Claim → Type 0
IsAmong claim [] = ⊥
IsAmong claim (c ∷ rest) = (claim ≡ c) ⊎ IsAmong claim rest

kept_or_later :
    (keep : Claim → Bool) (claim c : Claim) (rest : List Claim)
    → keep c ≡ true
    → (IsAmong claim rest → keep claim ≡ true)
    → (claim ≡ c) ⊎ IsAmong claim rest
    → keep claim ≡ true
kept_or_later keep claim c rest e later (inl p) = ap keep p ∙ e
kept_or_later keep claim c rest e later (inr m) = later m

IsAmong-filter :
    (keep : Claim → Bool) (claim : Claim) (claims : List Claim)
    → IsAmong claim (filter keep claims)
    → keep claim ≡ true
IsAmong-filter keep claim [] h = absurd h
IsAmong-filter keep claim (c ∷ rest) h = elim (Bool-cases (keep c)) [
  | inl e ↦
      kept_or_later keep claim c (filter keep rest) e (IsAmong-filter keep claim rest) (rw e at h)
  | inr e ↦ IsAmong-filter keep claim rest (rw e at h)
]

or_nil : Option (List Claim) → List Claim
or_nil none = []
or_nil (some claims) = claims

owned_from :
    (sts_name : String) (found : Option (List Claim)) (claims : List Claim) (claim : Claim)
    → elim found [ none ↦ none | some l ↦ some (filter (is_owned_by_stateful_set sts_name) l) ]
      ≡ some claims
    → IsAmong claim claims
    → is_owned_by_stateful_set sts_name claim ≡ true
unfolding or_nil
owned_from sts_name none claims claim h m = absurd (ground (arith, h))
owned_from sts_name (some l) claims claim h m =
    let same : filter (is_owned_by_stateful_set sts_name) l ≡ claims = ap or_nil h in
    IsAmong-filter (is_owned_by_stateful_set sts_name) claim l (rw (sym same) at m)

-- The claims that are listed for a StatefulSet have names of it.
pub get_pvcs_owned :
    (listing : Listing) (sts_name : String) (claims : List Claim) (claim : Claim)
    → get_pvcs_for_stateful_set listing sts_name ≡ some claims
    → IsAmong claim claims
    → is_owned_by_stateful_set sts_name claim ≡ true
unfolding get_pvcs_for_stateful_set
get_pvcs_owned listing sts_name claims claim e m =
    owned_from sts_name (listed_claims listing) claims claim e m

module _ (P : Request → Type 0) (env : Env) where
  Sends-delete_until_error :
      (wanted : Claim → Bool) (claims : List Claim)
      → ((claim : Claim) → IsAmong claim claims → wanted claim ≡ true → P (delete_claim claim.name))
      → Sends P (delete_until_error env wanted claims)
  unfolding delete_until_error
  Sends-delete_until_error wanted [] p = Sends-pure P true
  Sends-delete_until_error wanted (claim ∷ rest) p =
      let later = Sends-delete_until_error wanted rest (λ c m. p c (inr m)) in
      Sends-if P (wanted claim) _ _
        (λ h.
          Sends-bind P (send env (delete_claim claim.name))
            (λ reply.
              if is_reply_settled reply then delete_until_error env wanted rest else pure false)
            (Sends-send P env (delete_claim claim.name) (p claim (inl refl) h))
            (λ reply.
              Sends-if P (is_reply_settled reply) _ _ (λ g. later) (λ g. Sends-pure P false)))
        (λ h. later)

  Sends-delete_all_listed :
      (wanted : Claim → Bool) (listed : Option (List Claim))
      → ((claims : List Claim) (claim : Claim)
          → listed ≡ some claims
          → IsAmong claim claims
          → wanted claim ≡ true
          → P (delete_claim claim.name))
      → Sends P (delete_all_listed env wanted listed)
  Sends-delete_all_listed wanted none p = Sends-pure P false
  Sends-delete_all_listed wanted (some claims) p =
      Sends-delete_until_error wanted claims (λ c. p claims c refl)

  Sends-delete_volumes :
      (names : List String) (listing : Listing) (sts_name : String)
      → ((claims : List Claim) (claim : Claim)
          → get_pvcs_for_stateful_set listing sts_name ≡ some claims
          → IsAmong claim claims
          → is_of_volume sts_name names claim ≡ true
          → P (delete_claim claim.name))
      → Sends P (delete_volumes env names listing sts_name)
  unfolding delete_volumes
  Sends-delete_volumes [] listing sts_name p = Sends-pure P true
  Sends-delete_volumes (v ∷ vs) listing sts_name p =
      Sends-delete_all_listed (is_of_volume sts_name (v ∷ vs))
        (get_pvcs_for_stateful_set listing sts_name) p

  -- Only a claim of the listing for the StatefulSet is asked for, and of a volume that cascades.
  pub Sends-delete_cascade_delete_pvcs :
      (listing : Listing) (sts_name : String) (storage : Option StorageSpec)
      → ((claims : List Claim) (claim : Claim)
          → get_pvcs_for_stateful_set listing sts_name ≡ some claims
          → IsAmong claim claims
          → is_of_volume sts_name (cascade_delete_volume_names storage) claim ≡ true
          → P (delete_claim claim.name))
      → Sends P (delete_cascade_delete_pvcs env listing sts_name storage)
  unfolding delete_cascade_delete_pvcs
  Sends-delete_cascade_delete_pvcs listing sts_name storage p =
      Sends-delete_volumes (cascade_delete_volume_names storage) listing sts_name p
