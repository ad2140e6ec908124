-- ===== src/Restart/Sizes/Laws.antt =====
-- What the resolved sizes guarantee.
use aerospike_ce_kubernetes.Prelude.{
  ℕ, ◌≤◌, String, ◌≡◌, Option, none, some, Bool, true, false, not, ◌↔◌, refl, Bool-cases, inl, inr,
  arith,
}
use aerospike_ce_kubernetes.Prelude.Int.{ℤ, pos, negsuc, pos_part, int32-pos}
use aerospike_ce_kubernetes.Cluster.{IntOrString, int, str, Spec}
use aerospike_ce_kubernetes.Restart.Sizes.{
  resolve_int_or_percent, get_rolling_update_batch_size, get_max_ignorable_pods,
  is_explicit_zero_int_or_percent, get_scale_down_batch_size, rack_setting, rolling_from,
  scale_down_from, ignorable_from,
}

-- The scaled value of this setting at this total fits `int32`, so that its conversion keeps it. The
-- webhook admits percentages of at most 100%, whose scaled value is the total at most.
abbrev pub FitsInt32 : (String → ℕ → Option ℤ) → Option IntOrString → ℕ → Type 0
FitsInt32 scaled none total = Unit
FitsInt32 scaled (some (int v)) total = Unit
FitsInt32 scaled (some (str s)) total = (n : ℕ) → scaled s total ≡ some (pos n) → n ≤ 2147483647

module _ (scaled : String → ℕ → Option ℤ) where
  percent-pos :
      (s : String) (total : ℕ) (o : Option ℤ)
      → FitsInt32 scaled (some (str s)) total
      → scaled s total ≡ o
      → 1 ≤ pos_part (resolve_int_or_percent scaled (some (str s)) total)
  unfolding resolve_int_or_percent
  percent-pos s total none fits e = ground arith
  percent-pos s total (some (pos n)) fits e = ground (arith, fits n, int32-pos n)
  percent-pos s total (some (negsuc n)) fits e = ground arith

  resolve-pos :
      (v : Option IntOrString) (total : ℕ)
      → FitsInt32 scaled v total
      → 1 ≤ pos_part (resolve_int_or_percent scaled v total)
  resolve-pos none total fits = unfold resolve_int_or_percent in omega arith
  resolve-pos (some (int v)) total fits = unfold resolve_int_or_percent in ground arith
  resolve-pos (some (str s)) total fits = percent-pos s total (scaled s total) fits refl

  rolling_from-pos :
      (v : Option IntOrString) (legacy : Option ℤ) (total : ℕ)
      → FitsInt32 scaled v total
      → 1 ≤ pos_part (rolling_from scaled v legacy total)
  rolling_from-pos none legacy total fits = unfold rolling_from in ground arith
  rolling_from-pos (some v) legacy total fits =
      unfold rolling_from in resolve-pos (some v) total fits

  scale_down_from-pos :
      (v : Option IntOrString) (total : ℕ)
      → FitsInt32 scaled v total
      → 1 ≤ total
      → 1 ≤ pos_part (scale_down_from scaled v total)
  scale_down_from-pos none total fits h = unfold scale_down_from in h
  scale_down_from-pos (some v) total fits h =
      unfold scale_down_from in resolve-pos (some v) total fits

  abbrev pub scale_down_setting : Spec → Option IntOrString
  scale_down_setting spec = rack_setting (λ rc. rc.scale_down_batch_size) spec

  -- A rolling restart moves at least one pod in a batch, where the value that the resource's percentage
  -- scales to, if it has one, fits 32 bits; other settings may be anything.
  pub get_rolling_update_batch_size-pos :
      (spec : Spec) (total : ℕ)
      → FitsInt32 scaled (rack_setting (λ rc. rc.rolling_update_batch_size) spec) total
      → 1 ≤ pos_part (get_rolling_update_batch_size scaled spec total)
  unfolding get_rolling_update_batch_size
  get_rolling_update_batch_size-pos spec total fits =
      rolling_from-pos (rack_setting (λ rc. rc.rolling_update_batch_size) spec)
        spec.rolling_update_batch_size total fits

  -- The same of a scale-down that has something to remove.
  pub get_scale_down_batch_size-pos :
      (spec : Spec) (total : ℕ)
      → FitsInt32 scaled (scale_down_setting spec) total
      → 1 ≤ total
      → 1 ≤ pos_part (get_scale_down_batch_size scaled spec total)
  unfolding get_scale_down_batch_size
  get_scale_down_batch_size-pos spec total fits h =
      scale_down_from-pos (scale_down_setting spec) total fits h

  -- Whether `maxIgnorablePods` is set, to something other than an explicit zero.
  abbrev pub allows_ignoring : Option IntOrString → Bool
  allows_ignoring none = false
  allows_ignoring (some v) = not (is_explicit_zero_int_or_percent (some v))

  ignorable_from_iff :
      (v : Option IntOrString) (total : ℕ)
      → FitsInt32 scaled v total
      → (1 ≤ pos_part (ignorable_from scaled v total)) ↔ (allows_ignoring v ≡ true)
  ignorable_from_iff none total fits = unfold ignorable_from in ground arith
  ignorable_from_iff (some v) total fits =
      elim (Bool-cases (is_explicit_zero_int_or_percent (some v))) [
        | inl e ↦ unfold ignorable_from in rw e (ground arith)
        | inr e ↦
            unfold ignorable_from in rw e ((λ h. refl), (λ h. resolve-pos (some v) total fits))
      ]

  -- The rolling restart may ignore an unhealthy pod exactly when `maxIgnorablePods` is set to
  -- something other than an explicit 0 or "0%": a percentage that rounds down to nothing still
  -- allows one, and every other resource allows none, provided the value that the resource's
  -- percentage scales to, if it has one, fits 32 bits.
  pub get_max_ignorable_pods_iff :
      (spec : Spec) (total : ℕ)
      → FitsInt32 scaled (rack_setting (λ rc. rc.max_ignorable_pods) spec) total
      → (1 ≤ pos_part (get_max_ignorable_pods scaled spec total))
        ↔ (allows_ignoring (rack_setting (λ rc. rc.max_ignorable_pods) spec) ≡ true)
  unfolding get_max_ignorable_pods
  get_max_ignorable_pods_iff spec total fits =
      ignorable_from_iff (rack_setting (λ rc. rc.max_ignorable_pods) spec) total fits
