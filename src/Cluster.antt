-- ===== src/Cluster.antt =====
-- The fields of the AerospikeCluster resource that the modelled code reads: api/v1alpha1.
use aerospike_ce_kubernetes.Prelude.{ℕ, String, Bool, Option, List}
use aerospike_ce_kubernetes.Prelude.Int.{ℤ}

-- intstr.IntOrString
pub data IntOrString : Type 0 where
  int : ℤ → IntOrString
  str : String → IntOrString

pub data RestartReason : Type 0 where
  config_changed image_changed pod_spec_changed manual_restart warm_restart : RestartReason

-- RackConfig, less the racks: a pointer field is an `Option`.
pub record RackConfig : Type 0 where
  pub scale_down_batch_size : Option IntOrString
  pub max_ignorable_pods : Option IntOrString
  pub rolling_update_batch_size : Option IntOrString

-- AerospikeClusterSpec; `readiness_gate_enabled` is `podSpec.readinessGateEnabled`, with `podSpec`
-- the outer `Option`.
pub record Spec : Type 0 where
  pub image : String
  pub rolling_update_batch_size : Option ℤ
  pub rack_config : Option RackConfig
  pub readiness_gate_enabled : Option (Option Bool)
  pub enable_dynamic_config_update : Option Bool

-- AerospikePodStatus. A time is a number of nanoseconds.
pub record PodStatus : Type 0 where
  pub unstable_since : Option ℕ
  pub last_restart_reason : Option RestartReason
  pub dirty_volumes : List String
