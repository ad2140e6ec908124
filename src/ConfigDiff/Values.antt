-- ===== src/ConfigDiff/Values.antt =====
-- A decoded configuration value, Go's `any`: a map is a list of fields. The numbers, of Go's several
-- numeric types, are the parameter `N`.
use aerospike_ce_kubernetes.Prelude.{String, Bool}

mutual
  pub data Value (N : Type 0) : Type 0 where
    null : Value N
    num : N → Value N
    text : String → Value N
    bool : Bool → Value N
    arr : Items N → Value N
    obj : Fields N → Value N

  pub data Items (N : Type 0) : Type 0 where
    nil : Items N
    cons : Value N → Items N → Items N

  pub data Fields (N : Type 0) : Type 0 where
    end : Fields N
    field : String → Value N → Fields N → Fields N

-- The comparisons of numbers: `same` after the conversion to float64, and `identical`, of the type
-- too, that `reflect.DeepEqual` makes.
pub record Numbers (N : Type 0) : Type 0 where
  pub same : N → N → Bool
  pub identical : N → N → Bool
