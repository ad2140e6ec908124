-- ===== src/ConfigMerge.antt =====
-- The merge of configurations: `DeepMerge` and `deepCopyValue` of internal/utils/merge.go. A value
-- cannot be changed, so a copy is the value itself.
pub mod Paths
use aerospike_ce_kubernetes.Prelude.{
  String, Bool, true, false, not, ◌&&◌, ◌≡◌, refl, sym, ap, ◌∙◌, Option, none, some, List, [], ◌∷◌,
  str_eq, eq_iff, eq_refl, arith, if◌then◌else◌,
}
use aerospike_ce_kubernetes.ConfigDiff.Values.{
  Value, null, num, text, bool, arr, obj, Fields, end, field,
}
use aerospike_ce_kubernetes.ConfigDiff.Equal.{get}

-- `result[k] = v`
unfoldable pub set_key : {N : Type 0} → String → Value N → Fields N → Fields N
set_key k v end = field k v end
set_key k v (field j w rest) =
    let later = set_key k v rest in if str_eq j k then field k v rest else field j w later

unfoldable mutual
  unfolding set_key

  -- The loop over the entries of `override`, with the result so far.
  pub deep_merge : {N : Type 0} → Fields N → Fields N → Fields N
  deep_merge base end = base
  deep_merge base (field k v rest) = deep_merge (set_key k (merged (get k base) v) base) rest

  -- The value of a key that the result may have.
  pub merged : {N : Type 0} → Option (Value N) → Value N → Value N
  merged none v = v
  merged (some (obj b)) (obj o) = obj (deep_merge b o)
  merged (some b) v = v
