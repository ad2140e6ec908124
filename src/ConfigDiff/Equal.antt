-- ===== src/ConfigDiff/Equal.antt =====
-- `valuesEqual` of internal/configdiff/diff.go, with the `reflect.DeepEqual` that it falls back on.
use aerospike_ce_kubernetes.Prelude.{
  String, Bool, true, false, ◌&&◌, Option, none, some, str_eq, if◌then◌else◌,
}
use aerospike_ce_kubernetes.ConfigDiff.Values.{
  Value, null, num, text, bool, arr, obj, Items, nil, cons, Fields, end, field, Numbers,
}

abbrev pub same_bool : Bool → Bool → Bool
same_bool true b = b
same_bool false true = false
same_bool false false = true

module _ {N : Type 0} where
  -- `m[key]`, with `exists`.
  abbrev pub get : String → Fields N → Option (Value N)
  get key end = none
  get key (field k v rest) = if str_eq k key then some v else get key rest

  abbrev pub has : String → Fields N → Bool
  has key end = false
  has key (field k v rest) = if str_eq k key then true else has key rest

  -- Every key of the first stands in the second.
  abbrev pub covers : Fields N → Fields N → Bool
  covers end b = true
  covers (field k v rest) b = has k b && covers rest b

unfoldable mutual
  pub deep_equal : {N : Type 0} → Numbers N → Value N → Value N → Bool
  deep_equal n null null = true
  deep_equal n (num a) (num b) = n.identical a b
  deep_equal n (text a) (text b) = str_eq a b
  deep_equal n (bool a) (bool b) = same_bool a b
  deep_equal n (arr a) (arr b) = deep_equal_items n a b
  deep_equal n (obj a) (obj b) = deep_equal_fields n a b && covers b a
  deep_equal n _ _ = false

  pub deep_equal_items : {N : Type 0} → Numbers N → Items N → Items N → Bool
  deep_equal_items n nil nil = true
  deep_equal_items n (cons a r) (cons b s) = deep_equal n a b && deep_equal_items n r s
  deep_equal_items n _ _ = false

  -- Every entry of the first map stands in the second with an equal value.
  pub deep_equal_fields : {N : Type 0} → Numbers N → Fields N → Fields N → Bool
  deep_equal_fields n end b = true
  deep_equal_fields n (field k v rest) b =
      elim (get k b) [ none ↦ false | some w ↦ deep_equal n v w ] && deep_equal_fields n rest b

module _ {N : Type 0} (n : Numbers N) where
  unfoldable pub values_equal : Value N → Value N → Bool
  unfolding deep_equal
  values_equal (num a) (num b) = n.same a b
  values_equal (num a) _ = false
  values_equal (text a) (text b) = str_eq a b
  values_equal (text a) _ = false
  values_equal (bool a) (bool b) = same_bool a b
  values_equal (bool a) _ = false
  values_equal null null = true
  values_equal null _ = false
  values_equal (arr a) b = deep_equal n (arr a) b
  values_equal (obj a) b = deep_equal n (obj a) b
