-- ===== src/ConfigMerge/Paths.antt =====
-- What stands at a path of the merge.
use aerospike_ce_kubernetes.Prelude.{
  String, Bool, true, false, ◌≡◌, refl, sym, ap, ◌∙◌, Option, none, some, List, [], ◌∷◌, str_eq,
  eq_iff, arith, if◌then◌else◌, Option-cases, inl, inr, Bool-cases,
}
use aerospike_ce_kubernetes.ConfigDiff.Values.{
  Value, null, num, text, bool, arr, obj, Fields, end, field,
}
use aerospike_ce_kubernetes.ConfigDiff.Equal.{get}
use aerospike_ce_kubernetes.ConfigMerge.{set_key, deep_merge, merged}

module _ {N : Type 0} where
  get-set_key :
      (j k : String) (v : Value N) (f : Fields N)
      → get j (set_key k v f) ≡ (if str_eq k j then some v else get j f)
  unfolding set_key
  get-set_key j k v end = ground arith
  get-set_key j k v (field i w rest) =
      ground (arith, get-set_key j k v rest, eq_iff i k, eq_iff k j, eq_iff i j)

  -- The entry of the merge with that key, from the two values it has.
  abbrev entry : Option (Value N) → Option (Value N) → Option (Value N)
  entry base none = base
  entry base (some v) = some (merged base v)

  -- No key stands twice.
  unfoldable pub DistinctKeys : Fields N → Type 0
  DistinctKeys end = Unit
  DistinctKeys (field k v rest) = (get k rest ≡ none) × DistinctKeys rest

  get-deep_merge :
      (k : String) (base override : Fields N)
      → DistinctKeys override
      → get k (deep_merge base override) ≡ entry (get k base) (get k override)
  unfolding deep_merge DistinctKeys
  get-deep_merge k base end h = refl
  get-deep_merge k base (field j v rest) (h, hs) =
      let rest_of = get-deep_merge k (set_key j (merged (get j base) v) base) rest hs in
      let here = get-set_key k j (merged (get j base) v) base in
      elim (Bool-cases (str_eq j k)) [
        | inr e ↦ rest_of ∙ ground (arith, here, e)
        | inl e ↦
            let same : j ≡ k = (eq_iff j k).0 e in
            let none_left : get k rest ≡ none = ap (λ i. get i rest) (sym same) ∙ h in
            let value : merged (get j base) v ≡ merged (get k base) v =
              ap (λ i. merged (get i base) v) same in
            rest_of ∙ ground (arith, here, e, none_left, value)
      ]

  -- No object of the value has a key twice.
  unfoldable mutual
    pub IsTree : Value N → Type 0
    IsTree (obj f) = DistinctKeys f × AreTrees f
    IsTree _ = Unit

    pub AreTrees : Fields N → Type 0
    AreTrees end = Unit
    AreTrees (field k v rest) = IsTree v × AreTrees rest

  abbrev pub within : (Value N → Option (Value N)) → Option (Value N) → Option (Value N)
  within f none = none
  within f (some v) = f v

  -- The value at a path.
  unfoldable pub at : List String → Value N → Option (Value N)
  at [] v = some v
  at (k ∷ path) (obj f) = within (at path) (get k f)
  at (k ∷ path) _ = none

  abbrev pub is_object : Value N → Bool
  is_object (obj f) = true
  is_object _ = false

  IsTree-get : (k : String) (f : Fields N) (v : Value N) → AreTrees f → get k f ≡ some v → IsTree v
  unfolding IsTree
  IsTree-get k end v h e = absurd (ground arith)
  IsTree-get k (field j w rest) v (h, hs) e = elim (Bool-cases (str_eq j k)) [
    | inl s ↦ let same : v ≡ w = ground (arith, e, s) in rw same h
    | inr s ↦ IsTree-get k rest v hs (ground (arith, e, s))
  ]

  leaf_merged :
      (path : List String) (v : Value N)
      → ((x o : Fields N)
          → IsTree (obj o)
          → at path (obj o) ≡ some v
          → at path (obj (deep_merge x o)) ≡ some v)
      → (b : Option (Value N)) (w : Value N) → IsTree w
      → at path w ≡ some v
      → at path (merged b w) ≡ some v
  unfolding merged
  leaf_merged path v ih none w t h = h
  leaf_merged path v ih (some null) w t h = h
  leaf_merged path v ih (some (num n)) w t h = h
  leaf_merged path v ih (some (text s)) w t h = h
  leaf_merged path v ih (some (bool b)) w t h = h
  leaf_merged path v ih (some (arr items)) w t h = h
  leaf_merged path v ih (some (obj x)) (obj o) t h = ih x o t h
  leaf_merged path v ih (some (obj x)) null t h = h
  leaf_merged path v ih (some (obj x)) (num n) t h = h
  leaf_merged path v ih (some (obj x)) (text s) t h = h
  leaf_merged path v ih (some (obj x)) (bool b) t h = h
  leaf_merged path v ih (some (obj x)) (arr items) t h = h

  at_leaf :
      (path : List String) (base override : Fields N) (v : Value N)
      → IsTree (obj override)
      → is_object v ≡ false
      → at path (obj override) ≡ some v
      → at path (obj (deep_merge base override)) ≡ some v
  unfolding at IsTree
  at_leaf [] base override v t n h =
      let same : v ≡ obj override = ground (arith, h) in absurd (ground (arith, same, n))
  at_leaf (k ∷ path) base override v (d, ts) n h = elim (Option-cases (get k override)) [
    | inl e ↦ absurd (ground (arith, h, e))
    | inr (w, e) ↦
        let below : at path w ≡ some v = ground (arith, h, e) in
        let whole = get-deep_merge k base override d in
        let leaf =
          leaf_merged path v (λ x o t g. at_leaf path x o v t n g) (get k base) w
            (IsTree-get k override w ts e) below in
        ap (within (at path)) (whole ∙ ap (entry (get k base)) e) ∙ leaf
  ]

  -- The override has no entry at the path: a key on it is missing in an object.
  unfoldable pub misses : List String → Value N → Bool
  misses [] v = false
  misses (k ∷ path) (obj f) = elim (get k f) [ none ↦ true | some v ↦ misses path v ]
  misses (k ∷ path) _ = false

  misses-none : (path : List String) (v : Value N) → misses path v ≡ true → at path v ≡ none
  unfolding misses at
  misses-none [] v h = absurd (ground (arith, h))
  misses-none (k ∷ path) (obj f) h = elim (Option-cases (get k f)) [
    | inl e ↦ ground (arith, e)
    | inr (w, e) ↦
        let later = misses-none path w (ground (arith, h, e)) in ap (within (at path)) e ∙ later
  ]
  misses-none (k ∷ path) null h = refl
  misses-none (k ∷ path) (num n) h = refl
  misses-none (k ∷ path) (text s) h = refl
  misses-none (k ∷ path) (bool b) h = refl
  misses-none (k ∷ path) (arr items) h = refl

  misses_object : (path : List String) (w : Value N) → misses path w ≡ true → is_object w ≡ true
  unfolding misses
  misses_object [] w h = absurd (ground (arith, h))
  misses_object (k ∷ path) (obj f) h = refl
  misses_object (k ∷ path) null h = absurd (ground (arith, h))
  misses_object (k ∷ path) (num n) h = absurd (ground (arith, h))
  misses_object (k ∷ path) (text s) h = absurd (ground (arith, h))
  misses_object (k ∷ path) (bool b) h = absurd (ground (arith, h))
  misses_object (k ∷ path) (arr items) h = absurd (ground (arith, h))

  scalar_none :
      (path : List String) (w x : Value N)
      → misses path w ≡ true
      → is_object x ≡ false
      → at path x ≡ none
  unfolding at misses
  scalar_none [] w x h n = absurd (ground (arith, h))
  scalar_none (k ∷ path) w (obj f) h n = absurd (ground (arith, n))
  scalar_none (k ∷ path) w null h n = refl
  scalar_none (k ∷ path) w (num m) h n = refl
  scalar_none (k ∷ path) w (text s) h n = refl
  scalar_none (k ∷ path) w (bool b) h n = refl
  scalar_none (k ∷ path) w (arr items) h n = refl

  missing_merged :
      (path : List String)
      → ((x o : Fields N)
          → IsTree (obj o)
          → misses path (obj o) ≡ true
          → at path (obj (deep_merge x o)) ≡ at path (obj x))
      → (b : Option (Value N)) (w : Value N) → IsTree w
      → misses path w ≡ true
      → at path (merged b w) ≡ within (at path) b
  unfolding merged
  missing_merged path ih none w t h = misses-none path w h
  missing_merged path ih (some null) w t h =
      misses-none path w h ∙ sym (scalar_none path w null h refl)
  missing_merged path ih (some (num n)) w t h =
      misses-none path w h ∙ sym (scalar_none path w (num n) h refl)
  missing_merged path ih (some (text s)) w t h =
      misses-none path w h ∙ sym (scalar_none path w (text s) h refl)
  missing_merged path ih (some (bool b)) w t h =
      misses-none path w h ∙ sym (scalar_none path w (bool b) h refl)
  missing_merged path ih (some (arr items)) w t h =
      misses-none path w h ∙ sym (scalar_none path w (arr items) h refl)
  missing_merged path ih (some (obj x)) (obj o) t h = ih x o t h
  missing_merged path ih (some (obj x)) null t h =
      absurd (ground (arith, misses_object path null h))
  missing_merged path ih (some (obj x)) (num n) t h =
      absurd (ground (arith, misses_object path (num n) h))
  missing_merged path ih (some (obj x)) (text s) t h =
      absurd (ground (arith, misses_object path (text s) h))
  missing_merged path ih (some (obj x)) (bool b) t h =
      absurd (ground (arith, misses_object path (bool b) h))
  missing_merged path ih (some (obj x)) (arr items) t h =
      absurd (ground (arith, misses_object path (arr items) h))

  at_missing :
      (path : List String) (base override : Fields N)
      → IsTree (obj override)
      → misses path (obj override) ≡ true
      → at path (obj (deep_merge base override)) ≡ at path (obj base)
  unfolding at IsTree misses
  at_missing [] base override t h = absurd (ground (arith, h))
  at_missing (k ∷ path) base override (d, ts) h = elim (Option-cases (get k override)) [
    | inl e ↦ ap (within (at path)) (get-deep_merge k base override d ∙ ap (entry (get k base)) e)
    | inr (w, e) ↦
        let below : misses path w ≡ true = ground (arith, h, e) in
        let whole = get-deep_merge k base override d in
        ap (within (at path)) (whole ∙ ap (entry (get k base)) e)
        ∙ missing_merged path (λ x o t g. at_missing path x o t g) (get k base) w
            (IsTree-get k override w ts e) below
  ]

  -- Of an override whose objects have no key twice, the merge has every value that is no object at its
  -- path, and where a key on the path is missing from an object of the override, the merge has what
  -- the base has there.
  pub deep_merge_lem :
      (base override : Fields N) (path : List String)
      → IsTree (obj override)
      → ((v : Value N)
          → is_object v ≡ false
          → at path (obj override) ≡ some v
          → at path (obj (deep_merge base override)) ≡ some v)
        × (misses path (obj override) ≡ true
            → at path (obj (deep_merge base override)) ≡ at path (obj base))
  deep_merge_lem base override path t =
      ((λ v n h. at_leaf path base override v t n h), λ h. at_missing path base override t h)
