-- ===== src/Examples/Configs.antt =====
-- The comparison of configurations and the two-phase commit at concrete inputs.
use aerospike_ce_kubernetes.Prelude.{ℕ, true, ◌≡◌, refl, some, [], ◌∷◌, All}
use aerospike_ce_kubernetes.ConfigDiff.Values.{Fields, end, field, num, obj}
use aerospike_ce_kubernetes.ConfigDiff.{has_static_changes}
use aerospike_ce_kubernetes.ConfigDiff.{Change}
use aerospike_ce_kubernetes.DynamicConfig.Command.{build_set_config_command}
use aerospike_ce_kubernetes.DynamicConfig.Command.Safety.{
  separators, printable, build_set_config_command-separators,
}
use aerospike_ce_kubernetes.ConfigDiff.Equal.{get}
use aerospike_ce_kubernetes.ConfigDiff.Diff.{diff}
use aerospike_ce_kubernetes.ConfigDiff.Diff.Dynamic.{IsAddressed, diff-AllAddressed}
use aerospike_ce_kubernetes.ConfigDiff.Diff.Removed.{here, within, diff-removed_key}
use aerospike_ce_kubernetes.DynamicConfig.Batch.{try_dynamic_config_update_batch}
use aerospike_ce_kubernetes.DynamicConfig.Batch.Atomic.{
  AllConfigured, try_dynamic_config_update_batch-all_ok,
}
use aerospike_ce_kubernetes.Examples.Fixtures.{
  env, format, numbers, node_of, old_config, new_config,
}
use aerospike_ce_kubernetes.Text.{is_space}

diff-AllAddressed_example : All IsAddressed (diff numbers old_config new_config).dynamic
diff-AllAddressed_example = diff-AllAddressed numbers old_config new_config

-- The section is kept, and its only parameter is gone.
abbrev emptied : Fields ℕ
emptied = field "service" (obj end) end

old_service : get "service" old_config ≡ some (obj (field "proto-fd-max" (num 15000) end))
old_service = refl

diff-removed_key_example : has_static_changes (diff numbers old_config emptied) ≡ true
diff-removed_key_example = diff-removed_key numbers "proto-fd-max" old_config emptied refl (
    within "service" old_config emptied (field "proto-fd-max" (num 15000) end) end refl old_service
      refl (here (field "proto-fd-max" (num 15000) end) end refl refl))

-- One pod's update from 15000 to 20000.
update-all_ok :
    (try_dynamic_config_update_batch env format "c2" numbers
      (some true)
      node_of
      ("db-1" ∷ [])
      old_config
      new_config
      []).0.all_ok
    ≡ true
unfolding aerospike_ce_kubernetes.ConfigDiff.has_changes
    aerospike_ce_kubernetes.ConfigDiff.Diff.diff
    aerospike_ce_kubernetes.ConfigDiff.Equal.values_equal
    aerospike_ce_kubernetes.ConfigDiff.classify_change
    aerospike_ce_kubernetes.ConfigDiff.Params.is_dynamic
    aerospike_ce_kubernetes.ConfigDiff.join_path
    aerospike_ce_kubernetes.ConfigDiff.Diff.diff_namespaces
    aerospike_ce_kubernetes.ConfigDiff.Diff.diff_section
    aerospike_ce_kubernetes.ConfigDiff.Equal.deep_equal aerospike_ce_kubernetes.ConfigDiff.as_slice
    aerospike_ce_kubernetes.ConfigDiff.first_segment
    aerospike_ce_kubernetes.ConfigDiff.has_static_changes
    aerospike_ce_kubernetes.ConfigDiff.key_within_context
    aerospike_ce_kubernetes.ConfigDiff.namespaces_by_name
    aerospike_ce_kubernetes.DynamicConfig.Batch.apply_all
    aerospike_ce_kubernetes.DynamicConfig.Batch.resolve_targets
    aerospike_ce_kubernetes.DynamicConfig.Batch.validate_all
    aerospike_ce_kubernetes.DynamicConfig.Command.build_rollback_command
    aerospike_ce_kubernetes.DynamicConfig.Command.build_set_config_command
    aerospike_ce_kubernetes.DynamicConfig.Command.has_unsafe_value_chars
    aerospike_ce_kubernetes.DynamicConfig.Command.is_control
    aerospike_ce_kubernetes.DynamicConfig.Command.is_key_char
    aerospike_ce_kubernetes.DynamicConfig.Command.is_separator is_space
    aerospike_ce_kubernetes.DynamicConfig.Command.is_toml_bare_key
    aerospike_ce_kubernetes.DynamicConfig.Command.validate_dynamic_changes
    aerospike_ce_kubernetes.DynamicConfig.apply_dynamic_config_on_pod
    aerospike_ce_kubernetes.DynamicConfig.validate_dynamic_config_on_pod
    aerospike_ce_kubernetes.Env.send try_dynamic_config_update_batch
update-all_ok = refl

try_dynamic_config_update_batch-all_ok_example :
    AllConfigured env format "c2" numbers node_of
      ("db-1" ∷ [])
      old_config
      new_config
      (try_dynamic_config_update_batch env format "c2" numbers
        (some true)
        node_of
        ("db-1" ∷ [])
        old_config
        new_config
        []).1
try_dynamic_config_update_batch-all_ok_example =
    try_dynamic_config_update_batch-all_ok env format "c2" numbers (some true) node_of ("db-1" ∷ [])
      old_config new_config [] update-all_ok

abbrev fd_max : Change ℕ
fd_max = record {
  path = "service.proto-fd-max";
  context_name = "service";
  key = "proto-fd-max";
  old_value = num 15000;
  new_value = num 20000;
  namespace = "";
}

fd_max-built :
    build_set_config_command format fd_max ≡ some "set-config:context=service;proto-fd-max=20000"
unfolding build_set_config_command aerospike_ce_kubernetes.DynamicConfig.Command.is_toml_bare_key
    aerospike_ce_kubernetes.DynamicConfig.Command.has_unsafe_value_chars
fd_max-built = refl

build_set_config_command-separators_example :
    (separators "set-config:context=service;proto-fd-max=20000" ≡ 4)
    × (printable "set-config:context=service;proto-fd-max=20000" ≡ true)
build_set_config_command-separators_example =
    build_set_config_command-separators format fd_max
      "set-config:context=service;proto-fd-max=20000" fd_max-built
