-- ===== src/Claims.antt =====
-- The volume claims of a StatefulSet: `extractOrdinal`, `extractVolumeName`, `ownedOrphanCandidates`,
-- `DeleteOrphanedCascadeDeletePVCs`, `DeleteCascadeDeletePVCs` and their helpers of
-- internal/storage/pvc.go. The claims that the API server lists under the cluster's labels are an
-- input. A Go string is the list of its code points; the names of Kubernetes objects are ASCII.
pub mod Names
pub mod Deletion
pub mod Reclaim
use aerospike_ce_kubernetes.Prelude.{
  ℕ, suc, ◌-◌, String, Bool, true, false, not, ◌&&◌, ◌||◌, Option, none, some, List, [], ◌∷◌, ◌++◌,
  str_eq, leb, ltb, ◌==◌, length, any, contains, map, if◌then◌else◌, ◌+◌, ◌^◌, filter,
}
use aerospike_ce_kubernetes.Prelude.Int.{ℤ, pos, negsuc}
use aerospike_ce_kubernetes.Text.{
  codes, is_digit, parse_int, last_index, drop, take, same_text, has_text,
}
use aerospike_ce_kubernetes.Env.{Env, Action, Reply, ok, not_found, ◌>>=◌, pure, send, delete_claim}
use aerospike_ce_kubernetes.Storage.{StorageSpec, cascade_delete_volume_names}

-- The fields of a PersistentVolumeClaim that are read: its name and the UIDs of its owners.
pub record Claim : Type 0 where
  pub name : String
  pub owners : List String

-- The fields of a StatefulSet that are read here; `templates` are the names of its claim templates.
pub record ClaimSource : Type 0 where
  pub name : String
  pub uid : String
  pub templates : List String

-- "-" + stsName + "-"
abbrev pub pattern : String → List ℕ
pattern sts_name = b'-' ∷ (codes sts_name ++ (b'-' ∷ []))

-- What the trailing digits leave, and these digits: the loop from the end.
unfoldable pub split_digits : List ℕ → List ℕ × List ℕ
split_digits [] = ([], [])
split_digits (c ∷ rest) =
    let (before, digits) = split_digits rest in
    elim before [
      | [] ↦ if is_digit c then ([], c ∷ digits) else (c ∷ [], digits)
      | b ∷ bs ↦ (c ∷ b ∷ bs, digits)
    ]

abbrev is_blank : List ℕ → Bool
is_blank [] = true
is_blank (c ∷ rest) = false

-- The ordinal of what has been split.
ordinal_of : List ℕ → List ℕ → List ℕ → Option ℤ
unfolding same_text parse_int
ordinal_of pattern prefix digits =
    if is_blank prefix || is_blank digits
    then none
    else if ltb (length prefix) (length pattern)
    then none
    else if not (same_text (drop (length prefix - length pattern) prefix) pattern)
    then none
    else parse_int (2 ^ 31) digits

unfoldable pub extract_ordinal : List ℕ → String → Option ℤ
unfolding split_digits ordinal_of
extract_ordinal pvc_name sts_name =
    let split = split_digits pvc_name in ordinal_of (pattern sts_name) split.0 split.1

-- What follows the search for the pattern.
volume_at : List ℕ → ℕ → Option ℕ → Option (List ℕ)
unfolding parse_int
volume_at pvc_name size none = none
volume_at pvc_name size (some idx) =
    let suffix = drop (idx + size) pvc_name in
    if idx == 0 || is_blank suffix
    then none
    else elim (parse_int (2 ^ 31) suffix) [ none ↦ none | some n ↦ some (take idx pvc_name) ]

unfoldable pub extract_volume_name : List ℕ → String → Option (List ℕ)
unfolding volume_at last_index
extract_volume_name pvc_name sts_name =
    volume_at pvc_name (length (pattern sts_name)) (last_index (pattern sts_name) pvc_name)

unfoldable pub owned_by_stateful_set_uid : Claim → String → Bool
owned_by_stateful_set_uid claim uid = elim claim.owners [
  | [] ↦ true
  | o ∷ os ↦ contains uid (o ∷ os)
]

abbrev pub below : ℤ → ℕ → Bool
below (pos n) desired = ltb n desired
below (negsuc n) desired = true

-- The volume of the claim is in the set.
abbrev pub is_of_volume : String → List String → Claim → Bool
is_of_volume sts_name names claim = elim (extract_volume_name (codes claim.name) sts_name) [
  | none ↦ false
  | some volume ↦ has_text volume names
]

-- The body of the loop of `ownedOrphanCandidates`.
is_candidate : ClaimSource → ℕ → Claim → Bool
unfolding extract_ordinal extract_volume_name owned_by_stateful_set_uid same_text
is_candidate sts desired claim = elim (extract_ordinal (codes claim.name) sts.name) [
  | none ↦ false
  | some ordinal ↦
      not (below ordinal desired)
      && is_of_volume sts.name sts.templates claim
      && owned_by_stateful_set_uid claim sts.uid
]

-- The listing is only read where the StatefulSet has claim templates.
unfoldable pub candidates_among :
    List String → ClaimSource → ℕ → Option (List Claim) → Option (List Claim)
unfolding is_candidate
candidates_among [] sts desired listed = some []
candidates_among (t ∷ ts) sts desired none = none
candidates_among (t ∷ ts) sts desired (some claims) =
    some (filter (is_candidate sts desired) claims)

unfoldable pub owned_orphan_candidates : ClaimSource → ℕ → Option (List Claim) → Option (List Claim)
unfolding candidates_among
owned_orphan_candidates sts desired listed = candidates_among sts.templates sts desired listed
