-- ===== src/Text/Fields.antt =====
-- Texts of fields: `strings.SplitSeq(s, sep)`, `strings.Cut(s, sep)` and `strings.TrimSpace(s)`, for a
-- separator of one character.
use aerospike_ce_kubernetes.Prelude.{
  ℕ, Bool, true, not, ◌≡◌, refl, Option, none, some, List, [], ◌∷◌, ◌++◌, all, ◌==◌, if◌then◌else◌,
  arith,
}
use aerospike_ce_kubernetes.Text.{is_space}

-- One more character of the first field.
abbrev pub extended : ℕ → List (List ℕ) → List (List ℕ)
extended c [] = (c ∷ []) ∷ []
extended c (field ∷ fields) = (c ∷ field) ∷ fields

unfoldable pub split_on : ℕ → List ℕ → List (List ℕ)
split_on sep [] = [] ∷ []
split_on sep (c ∷ s) =
    let later = split_on sep s in if c == sep then [] ∷ later else extended c later

abbrev pub with_head : ℕ → Option (List ℕ × List ℕ) → Option (List ℕ × List ℕ)
with_head c none = none
with_head c (some (before, after)) = some (c ∷ before, after)

-- `none` where the separator is not found.
unfoldable pub cut : ℕ → List ℕ → Option (List ℕ × List ℕ)
cut sep [] = none
cut sep (c ∷ s) = let later = cut sep s in if c == sep then some ([], s) else with_head c later

trim_left : List ℕ → List ℕ
unfolding is_space
trim_left [] = []
trim_left (c ∷ s) = let later = trim_left s in if is_space c then later else c ∷ s

abbrev keep_unless_blank : ℕ → List ℕ → List ℕ
keep_unless_blank c [] = if is_space c then [] else c ∷ []
keep_unless_blank c (d ∷ s) = c ∷ d ∷ s

trim_right : List ℕ → List ℕ
unfolding is_space
trim_right [] = []
trim_right (c ∷ s) = keep_unless_blank c (trim_right s)

unfoldable pub trim_space : List ℕ → List ℕ
unfolding trim_left trim_right
trim_space s = trim_right (trim_left s)

-- The character does not stand in the text.
abbrev pub lacks : ℕ → List ℕ → Bool
lacks c s = all (λ d. not (d == c)) s

-- Fields joined by the separator, with one at least.
abbrev pub join_with : ℕ → List ℕ → List (List ℕ) → List ℕ
join_with sep field [] = field
join_with sep field (next ∷ fields) = field ++ (sep ∷ join_with sep next fields)

split_on_one : (sep : ℕ) (field : List ℕ) → lacks sep field ≡ true → split_on sep field ≡ field ∷ []
unfolding split_on
split_on_one sep [] h = refl
split_on_one sep (c ∷ field) h = ground (arith, split_on_one sep field)

split_on-append :
    (sep : ℕ) (field rest : List ℕ)
    → lacks sep field ≡ true
    → split_on sep (field ++ (sep ∷ rest)) ≡ field ∷ split_on sep rest
unfolding split_on
split_on-append sep [] rest h = ground arith
split_on-append sep (c ∷ field) rest h = ground (arith, split_on-append sep field rest)

-- Fields without the separator that are joined by it are split again.
pub split_on-join_with :
    (sep : ℕ) (field : List ℕ) (fields : List (List ℕ))
    → all (lacks sep) (field ∷ fields) ≡ true
    → split_on sep (join_with sep field fields) ≡ field ∷ fields
split_on-join_with sep field [] h = split_on_one sep field (ground (arith, h))
split_on-join_with sep field (next ∷ fields) h =
    let rest = split_on-join_with sep next fields (ground (arith, h)) in
    rw (split_on-append sep field (join_with sep next fields) (ground (arith, h)), rest) refl

pub cut-append :
    (sep : ℕ) (key value : List ℕ)
    → lacks sep key ≡ true
    → cut sep (key ++ (sep ∷ value)) ≡ some (key, value)
unfolding cut
cut-append sep [] value h = ground arith
cut-append sep (c ∷ key) value h = ground (arith, cut-append sep key value)
