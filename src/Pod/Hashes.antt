-- ===== src/Pod/Hashes.antt =====
-- The comparison of a pod's stamped hashes with those of the StatefulSet template:
-- `comparePodHashes` of internal/controller/reconciler_restart.go.
use aerospike_ce_kubernetes.Prelude.{String, Bool, not, ◌&&◌, ◌||◌, ◌≡◌, true, arith, str_eq}
use aerospike_ce_kubernetes.Pod.{
  Pod, annotation, config_hash_annotation, pod_spec_hash_annotation, storage_hash_annotation,
}

-- The three hashes that a template asks for, "" where it has none.
pub record Hashes : Type 0 where
  pub config : String
  pub pod_spec : String
  pub storage : String

pub record PodHashComparison : Type 0 where
  pub config_mismatch : Bool
  pub stale : Bool
  pub storage_unknown : Bool

abbrev pub differs : String → String → Bool
differs a b = not (str_eq a b)

unfoldable pub compare_pod_hashes : Pod → Hashes → PodHashComparison
compare_pod_hashes pod desired =
    let current_hash = annotation pod config_hash_annotation in
    let current_pod_spec_hash = annotation pod pod_spec_hash_annotation in
    let current_storage_hash = annotation pod storage_hash_annotation in
    let config_mismatch = differs current_hash desired.config in
    let pod_spec_mismatch =
      differs desired.pod_spec "" && differs current_pod_spec_hash desired.pod_spec in
    let storage_mismatch =
      differs desired.storage ""
      && differs current_storage_hash ""
      && differs current_storage_hash desired.storage in
    record {
      config_mismatch = config_mismatch;
      stale = config_mismatch || pod_spec_mismatch || storage_mismatch;
      storage_unknown = differs desired.storage "" && str_eq current_storage_hash "";
    }

abbrev pub is_stale : Hashes → Pod → Bool
is_stale desired pod = (compare_pod_hashes pod desired).stale

-- A config mismatch alone makes a pod stale.
pub stale_of_config_mismatch :
    (pod : Pod) (desired : Hashes)
    → (compare_pod_hashes pod desired).config_mismatch ≡ true
    → (compare_pod_hashes pod desired).stale ≡ true
unfolding compare_pod_hashes
stale_of_config_mismatch pod desired h = ground arith
