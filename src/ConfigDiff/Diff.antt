-- ===== src/ConfigDiff/Diff.antt =====
-- `Diff`, `diffSection` and `diffNamespaces` of internal/configdiff/diff.go. A nil map is an empty one.
pub mod Dynamic
pub mod Removed
use Prim.Native.String.{◌++◌ as ◌+++◌}
use aerospike_ce_kubernetes.Prelude.{
  String, Bool, true, false, ◌||◌, not, Option, none, some, List, [], ◌∷◌, str_eq, lookup,
  if◌then◌else◌,
}
use aerospike_ce_kubernetes.ConfigDiff.Values.{
  Value, null, num, text, bool, arr, obj, Items, nil, Fields, end, field, Numbers,
}
use aerospike_ce_kubernetes.ConfigDiff.Params.{is_dynamic}
use aerospike_ce_kubernetes.ConfigDiff.Equal.{get, has, values_equal}
use aerospike_ce_kubernetes.ConfigDiff.{
  Change, DiffResult, join_path, first_segment, key_within_context, no_changes, ◌⊕◌, one_static,
  by_path, classify_change, as_slice, namespaces_by_name,
}

module _ {N : Type 0} (n : Numbers N) where
  abbrev or_null : Option (Value N) → Value N
  or_null none = null
  or_null (some v) = v

  abbrev present : Option (Value N) → Bool
  present none = false
  present (some v) = true

  -- One parameter of a namespace that is in both configurations.
  namespace_param : String → Fields N → String → Value N → DiffResult N
  namespace_param name old_cfg key new_val =
      let old_val = get key old_cfg in
      if str_eq key "name"
      then no_changes
      else if not (present old_val) || not (values_equal n (or_null old_val) new_val)
      then by_path (record {
        path = "namespace." +++ key;
        context_name = "namespace";
        key = key;
        old_value = or_null old_val;
        new_value = new_val;
        namespace = name;
      })
      else no_changes

  namespace_params : String → Fields N → Fields N → DiffResult N
  unfolding namespace_param
  namespace_params name old_cfg end = no_changes
  namespace_params name old_cfg (field key new_val rest) =
      namespace_param name old_cfg key new_val ⊕ namespace_params name old_cfg rest

  removed_params : String → Fields N → Fields N → DiffResult N
  removed_params name end new_cfg = no_changes
  removed_params name (field key old_val rest) new_cfg =
      (if str_eq key "name" || has key new_cfg
        then no_changes
        else one_static (record {
          path = "namespace." +++ key;
          context_name = "namespace";
          key = key;
          old_value = old_val;
          new_value = null;
          namespace = name;
        }))
      ⊕ removed_params name rest new_cfg

  namespace_change : String → Value N → Value N → DiffResult N
  namespace_change name old_val new_val = one_static (record {
    path = "namespaces." +++ name;
    context_name = "namespace";
    key = name;
    old_value = old_val;
    new_value = new_val;
    namespace = "";
  })

  -- A namespace of the new configuration, against its entry in the old one.
  diff_namespace : String → Option (Fields N) → Fields N → DiffResult N
  unfolding namespace_params removed_params namespace_change
  diff_namespace name none new_cfg = namespace_change name null (obj new_cfg)
  diff_namespace name (some old_cfg) new_cfg =
      namespace_params name old_cfg new_cfg ⊕ removed_params name old_cfg new_cfg

  diff_new_namespaces : List (String × Fields N) → List (String × Fields N) → DiffResult N
  unfolding diff_namespace
  diff_new_namespaces old_by_name [] = no_changes
  diff_new_namespaces old_by_name ((name, new_cfg) ∷ rest) =
      diff_namespace name (lookup name old_by_name) new_cfg ⊕ diff_new_namespaces old_by_name rest

  removed_namespace : String → Fields N → Option (Fields N) → DiffResult N
  unfolding namespace_change
  removed_namespace name old_cfg none = namespace_change name (obj old_cfg) null
  removed_namespace name old_cfg (some new_cfg) = no_changes

  removed_namespaces : List (String × Fields N) → List (String × Fields N) → DiffResult N
  unfolding removed_namespace
  removed_namespaces [] new_by_name = no_changes
  removed_namespaces ((name, old_cfg) ∷ rest) new_by_name =
      removed_namespace name old_cfg (lookup name new_by_name) ⊕ removed_namespaces rest new_by_name

  unfoldable pub diff_namespaces : Items N → Items N → DiffResult N
  unfolding diff_new_namespaces removed_namespaces
  diff_namespaces old_ns new_ns =
      let old_by_name = namespaces_by_name old_ns in
      let new_by_name = namespaces_by_name new_ns in
      diff_new_namespaces old_by_name new_by_name ⊕ removed_namespaces old_by_name new_by_name

  -- The loop over the removed keys.
  removed_keys : String → Fields N → Fields N → DiffResult N
  removed_keys prefix end new_section = no_changes
  removed_keys prefix (field key old_val rest) new_section =
      let path = join_path prefix key in
      (if str_eq key "namespaces" || has key new_section
        then no_changes
        else one_static (record {
          path = path;
          context_name = first_segment path;
          key = key_within_context path;
          old_value = old_val;
          new_value = null;
          namespace = "";
        }))
      ⊕ removed_keys prefix rest new_section

  -- A key whose new value is no map.
  changed_leaf : String → Option (Value N) → Value N → DiffResult N
  changed_leaf path none new_val = classify_change path null new_val ""
  changed_leaf path (some old_val) new_val =
      if not (values_equal n old_val new_val)
      then classify_change path old_val new_val ""
      else no_changes

  -- A key whose new value is a map; `nested` compares it with an old map.
  changed_map : String → (Fields N → DiffResult N) → Option (Value N) → Fields N → DiffResult N
  unfolding changed_leaf
  changed_map path nested (some (obj old_map)) new_map = nested old_map
  changed_map path nested old_val new_map = changed_leaf path old_val (obj new_map)

  -- The loop over the changed and added keys.
  changed_keys : String → Fields N → Fields N → DiffResult N
  unfolding removed_keys changed_leaf changed_map
  changed_keys prefix old_section end = no_changes
  changed_keys prefix old_section (field key (obj new_map) rest) =
      let path = join_path prefix key in
      (if str_eq key "namespaces"
        then diff_namespaces (as_slice (get key old_section)) nil
        else changed_map path
            (λ old_map. changed_keys path old_map new_map ⊕ removed_keys path old_map new_map)
            (get key old_section) new_map)
      ⊕ changed_keys prefix old_section rest
  changed_keys prefix old_section (field key new_val rest) =
      (if str_eq key "namespaces"
        then diff_namespaces (as_slice (get key old_section)) (as_slice (some new_val))
        else changed_leaf (join_path prefix key) (get key old_section) new_val)
      ⊕ changed_keys prefix old_section rest

  unfoldable pub diff_section : String → Fields N → Fields N → DiffResult N
  unfolding changed_keys removed_keys
  diff_section prefix old_section new_section =
      changed_keys prefix old_section new_section ⊕ removed_keys prefix old_section new_section

  unfoldable pub diff : Fields N → Fields N → DiffResult N
  unfolding diff_section
  diff old_config new_config = diff_section "" old_config new_config
