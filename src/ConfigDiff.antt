-- ===== src/ConfigDiff.antt =====
-- The comparison of two configurations: internal/configdiff/diff.go. Go visits the entries of a map
-- in no fixed order; the model visits them in the order of the fields.
pub mod Values
pub mod Params
pub mod Equal
pub mod Diff
use Prim.Native.String.{◌++◌ as ◌+++◌}
use aerospike_ce_kubernetes.Prelude.{
  String, Bool, true, false, ◌||◌, Option, none, some, List, [], ◌∷◌, ◌++◌, str_eq, insert, lookup,
  if◌then◌else◌,
}
use aerospike_ce_kubernetes.ConfigDiff.Values.{
  Value, null, num, text, bool, arr, obj, Items, nil, cons, Fields, end, field, Numbers,
}
use aerospike_ce_kubernetes.ConfigDiff.Params.{is_dynamic}
use aerospike_ce_kubernetes.ConfigDiff.Equal.{get, values_equal}

-- `context_name` is `Context`. An absent value is `null`, Go's nil.
pub record Change (N : Type 0) : Type 0 where
  pub path : String
  pub context_name : String
  pub key : String
  pub old_value : Value N
  pub new_value : Value N
  pub namespace : String

pub record DiffResult (N : Type 0) : Type 0 where
  pub dynamic : List (Change N)
  pub static : List (Change N)

unfoldable pub join_path : String → String → String
join_path prefix key = if str_eq prefix "" then key else prefix +++ "." +++ key

-- What stands before the first dot.
unfoldable pub first_segment : String → String
first_segment String.[] = String.[]
first_segment (String.◌∷◌ c s) =
    if str_eq (String.◌∷◌ c String.[]) "." then String.[] else String.◌∷◌ c (first_segment s)

after_first_dot : String → Option String
after_first_dot String.[] = none
after_first_dot (String.◌∷◌ c s) =
    if str_eq (String.◌∷◌ c String.[]) "." then some s else after_first_dot s

unfoldable pub key_within_context : String → String
unfolding after_first_dot
key_within_context path = elim (after_first_dot path) [ none ↦ path | some rest ↦ rest ]

module _ {N : Type 0} where
  abbrev pub no_changes : DiffResult N
  no_changes = record { dynamic = []; static = [] }

  infixr 60 ◌⊕◌
  abbrev pub ◌⊕◌ : DiffResult N → DiffResult N → DiffResult N
  a ⊕ b = record { dynamic = a.dynamic ++ b.dynamic; static = a.static ++ b.static }

  abbrev is_empty : List (Change N) → Bool
  is_empty [] = true
  is_empty (c ∷ rest) = false

  unfoldable pub has_static_changes : DiffResult N → Bool
  has_static_changes d = if is_empty d.static then false else true

  unfoldable pub has_changes : DiffResult N → Bool
  has_changes d = if is_empty d.dynamic then (if is_empty d.static then false else true) else true

  abbrev pub one_static : Change N → DiffResult N
  one_static c = record { dynamic = []; static = c ∷ [] }

  abbrev pub by_path : Change N → DiffResult N
  by_path c =
      if is_dynamic c.path
      then record { dynamic = c ∷ []; static = [] }
      else record { dynamic = []; static = c ∷ [] }

  unfoldable pub classify_change : String → Value N → Value N → String → DiffResult N
  classify_change path old_val new_val namespace = by_path (record {
    path = path;
    context_name = first_segment path;
    key = key_within_context path;
    old_value = old_val;
    new_value = new_val;
    namespace = namespace;
  })

  unfoldable pub as_slice : Option (Value N) → Items N
  as_slice (some (arr xs)) = xs
  as_slice _ = nil

  -- The entry of one namespace, if it is a map with a name.
  abbrev named : Value N → Option (String × Fields N)
  named (obj m) = elim (get "name" m) [ some (text name) ↦ some (name, m) | _ ↦ none ]
  named _ = none

  -- The loop, from the entries before; a later entry of a name replaces an earlier one.
  by_name_from : List (String × Fields N) → Items N → List (String × Fields N)
  by_name_from table nil = table
  by_name_from table (cons v rest) =
      by_name_from (elim (named v) [ none ↦ table | some (name, m) ↦ insert name m table ]) rest

  unfoldable pub namespaces_by_name : Items N → List (String × Fields N)
  unfolding by_name_from
  namespaces_by_name items = by_name_from [] items
