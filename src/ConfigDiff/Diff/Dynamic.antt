-- ===== src/ConfigDiff/Diff/Dynamic.antt =====
-- What is reported as dynamic can be sent to a node as it stands.
use Prim.Native.String.append
use Prim.Native.String.{◌++◌ as ◌+++◌}
use aerospike_ce_kubernetes.Prelude.{
  String, Bool, true, false, ◌≡◌, refl, sym, ◌||◌, not, Option, none, some, List, [], ◌∷◌, str_eq,
  lookup, All, All-append, Bool-cases, inl, inr, if◌then◌else◌,
}
use aerospike_ce_kubernetes.ConfigDiff.Values.{Value, obj, Items, nil, Fields, end, field, Numbers}
use aerospike_ce_kubernetes.ConfigDiff.Params.{is_dynamic}
use aerospike_ce_kubernetes.ConfigDiff.Equal.{get, has, values_equal}
use aerospike_ce_kubernetes.ConfigDiff.{
  Change, DiffResult, join_path, first_segment, key_within_context, no_changes, ◌⊕◌, one_static,
  by_path, classify_change, as_slice, namespaces_by_name,
}
use aerospike_ce_kubernetes.ConfigDiff.Diff.{
  namespace_param, namespace_params, removed_params, diff_new_namespaces, removed_namespaces,
  namespace_change, diff_namespace, removed_namespace, diff_namespaces, changed_map, removed_keys,
  changed_leaf, changed_keys, diff_section, diff, present,
}

-- The change is to a registered parameter, and its context and key are the two parts of its path.
pub record IsAddressed {N : Type 0} (c : Change N) : Type 0 where
  pub registered : is_dynamic c.path ≡ true
  pub context_name : c.context_name ≡ first_segment c.path
  pub key : c.key ≡ key_within_context c.path

abbrev AllAddressed : {N : Type 0} → DiffResult N → Type 0
AllAddressed d = All IsAddressed d.dynamic

namespace_path :
    (key : String)
    → (first_segment ("namespace." +++ key) ≡ "namespace")
      × (key_within_context ("namespace." +++ key) ≡ key)
unfolding first_segment key_within_context
namespace_path key =
    rw
      (
        append.cons, append.cons, append.cons, append.cons, append.cons, append.cons, append.cons,
        append.cons, append.cons, append.cons, append.nil,
      )
      (refl, refl)

module _ {N : Type 0} where
  ⊕-AllAddressed : (a b : DiffResult N) → AllAddressed a → AllAddressed b → AllAddressed (a ⊕ b)
  ⊕-AllAddressed a b ha hb = All-append IsAddressed a.dynamic b.dynamic ha hb

  if-AllAddressed :
      (b : Bool) (x y : DiffResult N)
      → AllAddressed x
      → AllAddressed y
      → AllAddressed (if b then x else y)
  if-AllAddressed true x y hx hy = hx
  if-AllAddressed false x y hx hy = hy

  by_path-AllAddressed :
      (c : Change N)
      → c.context_name ≡ first_segment c.path
      → c.key ≡ key_within_context c.path
      → AllAddressed (by_path c)
  by_path-AllAddressed c e f = elim (Bool-cases (is_dynamic c.path)) [
    | inl r ↦ rw r (record { registered = r; context_name = e; key = f }, tt)
    | inr r ↦ rw r tt
  ]

module _ {N : Type 0} (n : Numbers N) where
  namespace_param-AllAddressed :
      (name : String) (old_cfg : Fields N) (key : String) (v : Value N)
      → AllAddressed (namespace_param n name old_cfg key v)
  unfolding namespace_param
  namespace_param-AllAddressed name old_cfg key v =
      let place = namespace_path key in
      if-AllAddressed (str_eq key "name") no_changes _ tt (
        if-AllAddressed (not (present n (get key old_cfg)) || not (values_equal n _ v)) _ no_changes
          (by_path-AllAddressed _ (sym place.0) (sym place.1)) tt)

  namespace_params-AllAddressed :
      (name : String) (old_cfg new_cfg : Fields N)
      → AllAddressed (namespace_params n name old_cfg new_cfg)
  unfolding namespace_params
  namespace_params-AllAddressed name old_cfg end = tt
  namespace_params-AllAddressed name old_cfg (field key v rest) =
      ⊕-AllAddressed (namespace_param n name old_cfg key v) (namespace_params n name old_cfg rest)
        (namespace_param-AllAddressed name old_cfg key v)
        (namespace_params-AllAddressed name old_cfg rest)

  removed_params-AllAddressed :
      (name : String) (old_cfg new_cfg : Fields N)
      → AllAddressed (removed_params n name old_cfg new_cfg)
  unfolding removed_params
  removed_params-AllAddressed name end new_cfg = tt
  removed_params-AllAddressed name (field key v rest) new_cfg =
      ⊕-AllAddressed (if str_eq key "name" || has key new_cfg then no_changes else one_static _)
        (removed_params n name rest new_cfg)
        (if-AllAddressed (str_eq key "name" || has key new_cfg) no_changes (one_static _) tt tt)
        (removed_params-AllAddressed name rest new_cfg)

  diff_namespace-AllAddressed :
      (name : String) (old_cfg : Option (Fields N)) (new_cfg : Fields N)
      → AllAddressed (diff_namespace n name old_cfg new_cfg)
  unfolding diff_namespace namespace_change
  diff_namespace-AllAddressed name none new_cfg = tt
  diff_namespace-AllAddressed name (some old_cfg) new_cfg =
      ⊕-AllAddressed (namespace_params n name old_cfg new_cfg)
        (removed_params n name old_cfg new_cfg) (namespace_params-AllAddressed name old_cfg new_cfg)
        (removed_params-AllAddressed name old_cfg new_cfg)

  removed_namespace-AllAddressed :
      (name : String) (old_cfg : Fields N) (new_cfg : Option (Fields N))
      → AllAddressed (removed_namespace n name old_cfg new_cfg)
  unfolding removed_namespace namespace_change
  removed_namespace-AllAddressed name old_cfg none = tt
  removed_namespace-AllAddressed name old_cfg (some new_cfg) = tt

  diff_new_namespaces-AllAddressed :
      (old_by_name new_by_name : List (String × Fields N))
      → AllAddressed (diff_new_namespaces n old_by_name new_by_name)
  unfolding diff_new_namespaces
  diff_new_namespaces-AllAddressed old_by_name [] = tt
  diff_new_namespaces-AllAddressed old_by_name ((name, new_cfg) ∷ rest) =
      ⊕-AllAddressed (diff_namespace n name (lookup name old_by_name) new_cfg)
        (diff_new_namespaces n old_by_name rest)
        (diff_namespace-AllAddressed name (lookup name old_by_name) new_cfg)
        (diff_new_namespaces-AllAddressed old_by_name rest)

  removed_namespaces-AllAddressed :
      (old_by_name new_by_name : List (String × Fields N))
      → AllAddressed (removed_namespaces n old_by_name new_by_name)
  unfolding removed_namespaces
  removed_namespaces-AllAddressed [] new_by_name = tt
  removed_namespaces-AllAddressed ((name, old_cfg) ∷ rest) new_by_name =
      ⊕-AllAddressed (removed_namespace n name old_cfg (lookup name new_by_name))
        (removed_namespaces n rest new_by_name)
        (removed_namespace-AllAddressed name old_cfg (lookup name new_by_name))
        (removed_namespaces-AllAddressed rest new_by_name)

  removed_keys-AllAddressed :
      (prefix : String) (old_section new_section : Fields N)
      → AllAddressed (removed_keys n prefix old_section new_section)
  unfolding removed_keys
  removed_keys-AllAddressed prefix end new_section = tt
  removed_keys-AllAddressed prefix (field key v rest) new_section =
      ⊕-AllAddressed
        (if str_eq key "namespaces" || has key new_section then no_changes else one_static _)
        (removed_keys n prefix rest new_section)
        (if-AllAddressed (str_eq key "namespaces" || has key new_section) no_changes (one_static _)
          tt tt)
        (removed_keys-AllAddressed prefix rest new_section)

  changed_leaf-AllAddressed :
      (path : String) (old_val : Option (Value N)) (new_val : Value N)
      → AllAddressed (changed_leaf n path old_val new_val)
  unfolding changed_leaf classify_change
  changed_leaf-AllAddressed path none new_val = by_path-AllAddressed _ refl refl
  changed_leaf-AllAddressed path (some old_val) new_val =
      if-AllAddressed (not (values_equal n old_val new_val)) _ no_changes
        (by_path-AllAddressed _ refl refl) tt

  diff_namespaces-AllAddressed :
      (old_ns new_ns : Items N) → AllAddressed (diff_namespaces n old_ns new_ns)
  unfolding diff_namespaces
  diff_namespaces-AllAddressed old_ns new_ns =
      let old_by_name = namespaces_by_name old_ns in
      let new_by_name = namespaces_by_name new_ns in
      ⊕-AllAddressed (diff_new_namespaces n old_by_name new_by_name)
        (removed_namespaces n old_by_name new_by_name)
        (diff_new_namespaces-AllAddressed old_by_name new_by_name)
        (removed_namespaces-AllAddressed old_by_name new_by_name)

  changed_map-AllAddressed :
      (path : String) (nested : Fields N → DiffResult N) (old_val : Option (Value N))
      (new_map : Fields N)
      → ((old_map : Fields N) → AllAddressed (nested old_map))
      → AllAddressed (changed_map n path nested old_val new_map)
  unfolding changed_map
  changed_map-AllAddressed path nested (some (obj old_map)) new_map h = h old_map
  changed_map-AllAddressed path nested old_val new_map h =
      changed_leaf-AllAddressed path old_val (obj new_map)

  changed_keys-AllAddressed :
      (prefix : String) (old_section new_section : Fields N)
      → AllAddressed (changed_keys n prefix old_section new_section)
  unfolding changed_keys
  changed_keys-AllAddressed prefix old_section end = tt
  changed_keys-AllAddressed prefix old_section (field key (obj new_map) rest) =
      let path = join_path prefix key in
      ⊕-AllAddressed (if str_eq key "namespaces" then _ else _)
        (changed_keys n prefix old_section rest)
        (if-AllAddressed (str_eq key "namespaces") _ _
          (diff_namespaces-AllAddressed (as_slice (get key old_section)) nil)
          (changed_map-AllAddressed path _ (get key old_section) new_map λ old_map.
            ⊕-AllAddressed (changed_keys n path old_map new_map)
              (removed_keys n path old_map new_map) (changed_keys-AllAddressed path old_map new_map)
              (removed_keys-AllAddressed path old_map new_map)))
        (changed_keys-AllAddressed prefix old_section rest)
  changed_keys-AllAddressed prefix old_section (field key new_val rest) =
      ⊕-AllAddressed (if str_eq key "namespaces" then _ else _)
        (changed_keys n prefix old_section rest)
        (if-AllAddressed (str_eq key "namespaces") _ _
          (diff_namespaces-AllAddressed (as_slice (get key old_section)) (as_slice (some new_val)))
          (changed_leaf-AllAddressed (join_path prefix key) (get key old_section) new_val))
        (changed_keys-AllAddressed prefix old_section rest)

  -- Every change that is reported as dynamic, in a section or in a namespace, is to a registered
  -- parameter, and its context and key are what stands before and behind its path's first dot.
  pub diff-AllAddressed :
      (old_config new_config : Fields N) → All IsAddressed (diff n old_config new_config).dynamic
  unfolding diff diff_section
  diff-AllAddressed old_config new_config =
      ⊕-AllAddressed (changed_keys n "" old_config new_config)
        (removed_keys n "" old_config new_config)
        (changed_keys-AllAddressed "" old_config new_config)
        (removed_keys-AllAddressed "" old_config new_config)
