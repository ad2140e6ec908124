-- ===== src/ConfigDiff/Diff/Removed.antt =====
-- A parameter that is gone cannot be applied at run time.
use aerospike_ce_kubernetes.Prelude.{
  String, true, false, ◌≡◌, refl, ◌||◌, List, [], ◌∷◌, ◌++◌, str_eq, eq_iff, arith, Bool-cases, inl,
  inr, if◌then◌else◌, ap, none, some, Option, Bool,
}
use aerospike_ce_kubernetes.ConfigDiff.Values.{Fields, end, field, Numbers, null}
use aerospike_ce_kubernetes.ConfigDiff.Equal.{has}
use aerospike_ce_kubernetes.ConfigDiff.{
  Change, DiffResult, ◌⊕◌, has_static_changes, is_empty, get, join_path, obj, Value, num, text,
  bool, arr,
}
use aerospike_ce_kubernetes.ConfigDiff.Diff.{
  removed_keys, diff_section, diff, changed_keys, changed_map,
}

module _ {N : Type 0} where
  has_static-⊕ :
      (a b : DiffResult N)
      → has_static_changes (a ⊕ b) ≡ (has_static_changes a || has_static_changes b)
  unfolding has_static_changes
  has_static-⊕ a b = go a.static b.static
    where
      go :
          (xs ys : List (Change N))
          → (if is_empty (xs ++ ys) then false else true)
            ≡ ((if is_empty xs then false else true) || (if is_empty ys then false else true))
      go [] ys = refl
      go (x ∷ xs) ys = refl

module _ {N : Type 0} (n : Numbers N) where
  removed_keys-static :
      (prefix key : String) (old_section new_section : Fields N)
      → has key old_section ≡ true
      → str_eq key "namespaces" ≡ false
      → has key new_section ≡ false
      → has_static_changes (removed_keys n prefix old_section new_section) ≡ true
  unfolding removed_keys
  removed_keys-static prefix key end new_section old ordinary gone = cc
  removed_keys-static prefix key (field k v rest) new_section old ordinary gone =
      rw has_static-⊕ (elim (Bool-cases (str_eq k key)) [
        | inl here ↦ unfold has_static_changes in ground (arith, eq_iff k key)
        | inr there ↦
            rw (removed_keys-static prefix key rest new_section (rw there at old) ordinary gone)
              (ground arith)
      ])

  head_static :
      (a b : DiffResult N) → has_static_changes a ≡ true → has_static_changes (a ⊕ b) ≡ true
  head_static a b h = rw has_static-⊕ (rw h refl)

  tail_static :
      (a b : DiffResult N) → has_static_changes b ≡ true → has_static_changes (a ⊕ b) ≡ true
  tail_static a b h = rw has_static-⊕ (rw h (ground arith))

  static_in_map :
      (prefix key : String) (old_section old_map new_map rest : Fields N)
      → str_eq key "namespaces" ≡ false
      → get key old_section ≡ some (obj old_map)
      → has_static_changes (diff_section n (join_path prefix key) old_map new_map) ≡ true
      → has_static_changes (changed_keys n prefix old_section (field key (obj new_map) rest)) ≡ true
  unfolding changed_keys changed_map diff_section
  static_in_map prefix key old_section old_map new_map rest ordinary o h =
      rw (ordinary, o)
        (head_static (diff_section n (join_path prefix key) old_map new_map)
          (changed_keys n prefix old_section rest) h)

  abbrev is_map : Option (Value N) → Bool
  is_map none = false
  is_map (some (obj m)) = true
  is_map (some v) = false

  -- A map found under a key is not another value before it.
  found_later :
      (key k : String) (v : Value N) (rest new_map : Fields N)
      → is_map (some v) ≡ false
      → get key (field k v rest) ≡ some (obj new_map)
      → get key rest ≡ some (obj new_map)
  found_later key k v rest new_map m e = elim (Bool-cases (str_eq k key)) [
    | inl here ↦
        let same : some v ≡ some (obj new_map) = rw here at e in
        absurd (ground (arith, m, ap is_map same))
    | inr there ↦ rw there at e
  ]

  fields_of : Fields N → Option (Value N) → Fields N
  fields_of default (some (obj m)) = m
  fields_of default _ = default

  changed_keys-static :
      (prefix key : String) (old_section old_map new_map new_section : Fields N)
      → str_eq key "namespaces" ≡ false
      → get key old_section ≡ some (obj old_map)
      → get key new_section ≡ some (obj new_map)
      → has_static_changes (diff_section n (join_path prefix key) old_map new_map) ≡ true
      → has_static_changes (changed_keys n prefix old_section new_section) ≡ true
  unfolding changed_keys fields_of
  changed_keys-static prefix key old old_map new_map end ordinary o e h = absurd (ground arith)
  changed_keys-static prefix key old old_map new_map (field k null rest) ordinary o e h =
      tail_static _ _ (
        changed_keys-static prefix key old old_map new_map rest ordinary o
          (found_later key k null rest new_map refl e) h)
  changed_keys-static prefix key old old_map new_map (field k (num x) rest) ordinary o e h =
      tail_static _ _ (
        changed_keys-static prefix key old old_map new_map rest ordinary o
          (found_later key k (num x) rest new_map refl e) h)
  changed_keys-static prefix key old old_map new_map (field k (text x) rest) ordinary o e h =
      tail_static _ _ (
        changed_keys-static prefix key old old_map new_map rest ordinary o
          (found_later key k (text x) rest new_map refl e) h)
  changed_keys-static prefix key old old_map new_map (field k (bool x) rest) ordinary o e h =
      tail_static _ _ (
        changed_keys-static prefix key old old_map new_map rest ordinary o
          (found_later key k (bool x) rest new_map refl e) h)
  changed_keys-static prefix key old old_map new_map (field k (arr x) rest) ordinary o e h =
      tail_static _ _ (
        changed_keys-static prefix key old old_map new_map rest ordinary o
          (found_later key k (arr x) rest new_map refl e) h)
  changed_keys-static prefix key old old_map new_map (field k (obj m) rest) ordinary o e h =
      elim (Bool-cases (str_eq k key)) [
        | inl here ↦
            let same : k ≡ key = ground (arith, here, eq_iff k key) in
            let found : some (obj m) ≡ some (obj new_map) = rw here at e in
            let maps : m ≡ new_map = ap (fields_of m) found in
            rw (same, maps) (static_in_map prefix key old old_map new_map rest ordinary o h)
        | inr there ↦
            tail_static _ _
              (changed_keys-static prefix key old old_map new_map rest ordinary o (rw there at e) h)
      ]

-- A key that is in the old section and not in the new one, or that is so in a pair of maps that both
-- have under one key, at any depth; no key on the way, and not it itself, is "namespaces".
pub data IsGone {N : Type 0} (key : String) : Fields N → Fields N → Type 0 where
  here :
      (old_section new_section : Fields N)
      → has key old_section ≡ true
      → has key new_section ≡ false
      → IsGone key old_section new_section
  within :
      (outer : String) (old_section new_section old_map new_map : Fields N)
      → str_eq outer "namespaces" ≡ false
      → get outer old_section ≡ some (obj old_map)
      → get outer new_section ≡ some (obj new_map)
      → IsGone key old_map new_map
      → IsGone key old_section new_section

module _ {N : Type 0} (n : Numbers N) where
  diff_section-IsGone :
      (key : String)
      → str_eq key "namespaces" ≡ false
      → (prefix : String) (old_section new_section : Fields N) → IsGone key old_section new_section
      → has_static_changes (diff_section n prefix old_section new_section) ≡ true
  unfolding diff_section
  diff_section-IsGone key ordinary prefix old_section new_section (here _ _ old gone) =
      rw has_static-⊕ (
        rw (removed_keys-static n prefix key old_section new_section old ordinary gone)
          (ground arith))
  diff_section-IsGone key ordinary prefix old_section new_section
        (within outer _ _ old_map new_map o a b g) =
      let inner = diff_section-IsGone key ordinary (join_path prefix outer) old_map new_map g in
      rw has_static-⊕ (
        rw (changed_keys-static n prefix outer old_section old_map new_map new_section o a b inner)
          (ground arith))

  -- Where a key of the old configuration is missing in the new one, at the top or in sections that
  -- both have at any depth, and neither it nor a section on the way is "namespaces", the difference
  -- has a change that needs a restart, whatever the parameter is registered as.
  pub diff-removed_key :
      (key : String) (old_config new_config : Fields N)
      → str_eq key "namespaces" ≡ false
      → IsGone key old_config new_config
      → has_static_changes (diff n old_config new_config) ≡ true
  unfolding diff
  diff-removed_key key old_config new_config ordinary gone =
      diff_section-IsGone key ordinary "" old_config new_config gone
