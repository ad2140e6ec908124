-- ===== src/Restart/Sizes.antt =====
-- The batch sizes and the limit on ignored pods, `getRollingUpdateBatchSize`, `getMaxIgnorablePods`
-- and `isExplicitZeroIntOrPercent` of internal/controller/reconciler_restart.go, and
-- `resolveIntOrPercent`, `getScaleDownBatchSize` of reconciler_statefulset.go.
-- `intstr.GetScaledValueFromIntOrPercent` is the section's parameter `scaled`, `none` its error.
pub mod Laws
use aerospike_ce_kubernetes.Prelude.{
  ℕ, String, Bool, true, false, Option, none, some, ◌==◌, if◌then◌else◌,
}
use aerospike_ce_kubernetes.Prelude.Int.{ℤ, pos, negsuc, int32, below_one}
use aerospike_ce_kubernetes.Text.{codes, atoi, cut_percent}
use aerospike_ce_kubernetes.Cluster.{IntOrString, int, str, RackConfig, Spec}

abbrev is_zero : ℤ → Bool
is_zero (pos n) = n == 0
is_zero (negsuc n) = false

unfoldable pub is_explicit_zero_int_or_percent : Option IntOrString → Bool
unfolding cut_percent atoi
is_explicit_zero_int_or_percent none = false
is_explicit_zero_int_or_percent (some (int v)) = is_zero v
is_explicit_zero_int_or_percent (some (str s)) = elim (cut_percent (codes s)) [
  | none ↦ false
  | some digits ↦ elim (atoi digits) [ none ↦ false | some n ↦ is_zero n ]
]

-- A setting of `spec.rackConfig`, absent where the rack config is.
abbrev pub rack_setting : (RackConfig → Option IntOrString) → Spec → Option IntOrString
rack_setting field spec = elim spec.rack_config [ none ↦ none | some rc ↦ field rc ]

module _ (scaled : String → ℕ → Option ℤ) where
  abbrev at_least_one : ℤ → ℤ
  at_least_one v = if below_one v then pos 1 else v

  abbrev from_percent : Option ℤ → ℤ
  from_percent none = pos 1
  from_percent (some pct) = if below_one pct then pos 1 else int32 pct

  unfoldable pub resolve_int_or_percent : Option IntOrString → ℕ → ℤ
  resolve_int_or_percent none total = pos 1
  resolve_int_or_percent (some (int v)) total = at_least_one v
  resolve_int_or_percent (some (str s)) total = from_percent (scaled s total)

  abbrev spec_batch_size : Option ℤ → ℤ
  spec_batch_size none = pos 1
  spec_batch_size (some v) = if below_one v then pos 1 else v

  rolling_from : Option IntOrString → Option ℤ → ℕ → ℤ
  unfolding resolve_int_or_percent
  rolling_from none legacy total = spec_batch_size legacy
  rolling_from (some v) legacy total = resolve_int_or_percent (some v) total

  unfoldable pub get_rolling_update_batch_size : Spec → ℕ → ℤ
  unfolding rolling_from
  get_rolling_update_batch_size spec total =
      rolling_from (rack_setting (λ rc. rc.rolling_update_batch_size) spec)
        spec.rolling_update_batch_size total

  ignorable_from : Option IntOrString → ℕ → ℤ
  unfolding resolve_int_or_percent is_explicit_zero_int_or_percent
  ignorable_from none total = pos 0
  ignorable_from (some v) total =
      if is_explicit_zero_int_or_percent (some v)
      then pos 0
      else resolve_int_or_percent (some v) total

  unfoldable pub get_max_ignorable_pods : Spec → ℕ → ℤ
  unfolding ignorable_from
  get_max_ignorable_pods spec total =
      ignorable_from (rack_setting (λ rc. rc.max_ignorable_pods) spec) total

  scale_down_from : Option IntOrString → ℕ → ℤ
  unfolding resolve_int_or_percent
  scale_down_from none total = pos total
  scale_down_from (some v) total = resolve_int_or_percent (some v) total

  unfoldable pub get_scale_down_batch_size : Spec → ℕ → ℤ
  unfolding scale_down_from
  get_scale_down_batch_size spec total =
      scale_down_from (rack_setting (λ rc. rc.scale_down_batch_size) spec) total
