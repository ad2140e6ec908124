-- ===== src/Examples/Fixtures.antt =====
-- Resources, pods and an environment that the examples share.
use aerospike_ce_kubernetes.Prelude.{
  ℕ, String, true, false, Option, none, some, List, [], ◌∷◌, arith, ◌*◌, ◌≤◌, ◌+◌, ◌/◌, ◌≡◌, suc,
  zero,
}
use aerospike_ce_kubernetes.Prelude.Int.{ℤ, pos, negsuc}
use aerospike_ce_kubernetes.Cluster.{Spec, str}
use aerospike_ce_kubernetes.Text.{codes, atoi, cut_percent}
use aerospike_ce_kubernetes.Env.{Env, ok}
use aerospike_ce_kubernetes.ConfigDiff.Values.{Value, num, obj, Fields, end, field, Numbers}
use aerospike_ce_kubernetes.Prelude.{◌==◌}
use aerospike_ce_kubernetes.Pod.{
  Pod, running, is_true, ConditionStatus, config_hash_annotation, pod_spec_hash_annotation,
  storage_hash_annotation, pod_ready,
}
use aerospike_ce_kubernetes.Pod.Hashes.{Hashes}
use aerospike_ce_kubernetes.Restart.Sizes.Laws.{FitsInt32}
use aerospike_ce_kubernetes.Restart.Budget.{Key}
use aerospike_ce_kubernetes.Restart.InFlight.{RackRestartTarget, parallel}
use aerospike_ce_kubernetes.Restart.PodRestart.{Context, aerospike_container}
use aerospike_ce_kubernetes.Restart.Batch.{Dynamic}
use aerospike_ce_kubernetes.Restart.Rolling.{Pass}
use aerospike_ce_kubernetes.Operations.{
  OperationPass, OperationStatus, Operation, pod_restart, in_progress,
}

abbrev pub spec : Spec
spec = record {
  image = "aerospike:8";
  rolling_update_batch_size = some (pos 1);
  rack_config = some (record {
    scale_down_batch_size = none;
    max_ignorable_pods = some (str "0%");
    rolling_update_batch_size = none;
  });
  readiness_gate_enabled = none;
  enable_dynamic_config_update = some true;
}

-- Every percentage rounds to one.
abbrev pub scaled : String → ℕ → Option ℤ
scaled s total = some (pos 1)

-- A percentage of a total, rounded up.
abbrev percent_of : Option ℤ → ℕ → Option ℤ
percent_of none total = none
percent_of (some (pos v)) total = some (pos ((v * total + 99) / 100))
percent_of (some (negsuc v)) total = some (negated (suc v * total / 100))
  where
    negated : ℕ → ℤ
    negated zero = pos 0
    negated (suc k) = negsuc k

abbrev number_of : Option (List ℕ) → Option ℤ
number_of none = none
number_of (some digits) = atoi digits

-- Texts that are percentages give their part of the total, rounded up, and other texts an error.
unfoldable pub rounded_up : String → ℕ → Option ℤ
unfolding cut_percent atoi
rounded_up s total = percent_of (number_of (cut_percent (codes s))) total

-- Two settings that fit: a quarter of at most three pods, and nothing of three.
pub quarter-FitsInt32 : (total : ℕ) → total ≤ 3 → FitsInt32 rounded_up (some (str "25%")) total
unfolding rounded_up
quarter-FitsInt32 total h =
    λ n e. let same : (25 * total + 99) / 100 ≡ n = ground (arith, e) in omega (arith, same, h)

pub nothing-FitsInt32 : FitsInt32 rounded_up (some (str "0%")) 3
unfolding rounded_up
nothing-FitsInt32 = λ n e. ground (arith, e)

-- Whoever is asked answers "ok", and no deadline passes.
abbrev pub env : Env
env = record { answer = λ log request. ok; expired = λ log. false; pod_expired = λ log. false }

abbrev pub desired : Hashes
desired = record { config = "c2"; pod_spec = "p1"; storage = "s2" }

abbrev pub pod_with : String → String → String → ConditionStatus → Pod
pod_with name config storage ready = record {
  name = name;
  phase = running;
  terminating = false;
  annotations =
      (config_hash_annotation, config)
      ∷ (pod_spec_hash_annotation, "p1")
      ∷ (storage_hash_annotation, storage)
      ∷ [];
  conditions = record { kind = pod_ready; status = ready } ∷ [];
  readiness_gates = [];
  containers = record { name = aerospike_container; image = "aerospike:8" } ∷ [];
}

-- A pod with an old configuration, one that is up to date, and one with an old storage hash.
abbrev pub old_pod : Pod
old_pod = pod_with "db-1" "c1" "s2" is_true

abbrev pub new_pod : Pod
new_pod = pod_with "db-0" "c2" "s2" is_true

abbrev pub storage_pod : Pod
storage_pod = pod_with "db-2" "c2" "s1" is_true

abbrev pub pods : List Pod
pods = old_pod ∷ new_pod ∷ storage_pod ∷ []

abbrev pub stale_pods : List Pod
stale_pods = old_pod ∷ storage_pod ∷ []

abbrev pub ctx : Context
ctx = record {
  has_rest_config = true;
  image = "aerospike:8";
  storage = none;
  parses = λ name. true;
}

abbrev pub numbers : Numbers ℕ
numbers = record { same = λ a b. a == b; identical = λ a b. a == b }

abbrev pub format : Value ℕ → String
format (num n) = "20000"
format v = "text"

abbrev pub service_with : ℕ → Fields ℕ
service_with n = field "service" (obj (field "proto-fd-max" (num n) end)) end

abbrev pub old_config : Fields ℕ
old_config = service_with 15000

abbrev pub new_config : Fields ℕ
new_config = service_with 20000

abbrev pub node_of : String → Option String
node_of pod = some "node-a"

abbrev pub dynamic : Dynamic ℕ
dynamic = record {
  format = format;
  numbers = numbers;
  enabled = some true;
  node_of = node_of;
  connects = true;
}

abbrev pub key : Key
key = record { uid = "u"; rack = pos 1 }

abbrev pub target : RackRestartTarget
target = record { hashes = desired; replicas = 3; pod_management_policy = parallel }

abbrev pub pass : Pass ℕ
pass = record {
  spec = spec;
  key = key;
  now = 0;
  probe = some false;
  statuses = [];
  old_config = some old_config;
  new_config = some new_config;
}

abbrev pub operation : Operation
operation = record { kind = pod_restart; id = "op-1"; pod_list = [] }

-- One pod has been restarted by the operation.
abbrev pub status : OperationStatus
status = record {
  id = "op-1";
  kind = pod_restart;
  phase = in_progress;
  completed_pods = "db-0" ∷ [];
  failed_pods = [];
}

abbrev pub operation_pass : OperationPass
operation_pass = record { spec = spec; uid = "u"; now = 0; probe = some false }
