-- ===== src/Text/Match.antt =====
-- The last place of a pattern that stands between dashes.
use aerospike_ce_kubernetes.Prelude.{
  ℕ, ◌+◌, ◌≤◌, ◌<◌, ◌≡◌, refl, true, none, some, List, [], ◌∷◌, ◌++◌, arith, length, filter,
  length-append, filter-append, ◌==◌, ap,
}
use aerospike_ce_kubernetes.Text.{starts_with, last_index, drop, take}

-- How often a character stands in a text.
abbrev pub occurrences : ℕ → List ℕ → ℕ
occurrences c s = length (filter (λ d. c == d) s)

pub occurrences-append :
    (c : ℕ) (s t : List ℕ) → occurrences c (s ++ t) ≡ occurrences c s + occurrences c t
occurrences-append c s t =
    rw filter-append (length-append (filter (λ d. c == d) s) (filter (λ d. c == d) t))

starts_with-occurrences :
    (c : ℕ) (pattern s : List ℕ)
    → starts_with pattern s ≡ true
    → occurrences c pattern ≤ occurrences c s
unfolding starts_with
starts_with-occurrences c [] s h = omega arith
starts_with-occurrences c (p ∷ pattern) [] h = absurd (ground arith)
starts_with-occurrences c (p ∷ pattern) (d ∷ s) h =
    ground (arith, starts_with-occurrences c pattern s)

-- A text with fewer of some character than the pattern does not hold the pattern.
last_index-none :
    (c : ℕ) (pattern s : List ℕ)
    → occurrences c s < occurrences c pattern
    → last_index pattern s ≡ none
unfolding last_index
last_index-none c pattern [] h = refl
last_index-none c pattern (d ∷ s) h =
    ground (arith, last_index-none c pattern s, starts_with-occurrences c pattern (d ∷ s))

pub starts_with-append : (pattern s : List ℕ) → starts_with pattern (pattern ++ s) ≡ true
unfolding starts_with
starts_with-append [] s = refl
starts_with-append (p ∷ pattern) s = ground (arith, starts_with-append pattern s)

-- Where what follows the pattern has none of its first character, the pattern's last place is the
-- one before it.
pub last_index-append :
    (c : ℕ) (before pattern after : List ℕ)
    → occurrences c after ≡ 0
    → last_index (c ∷ pattern) (before ++ ((c ∷ pattern) ++ after)) ≡ some (length before)
unfolding last_index
last_index-append c [] pattern after h = ground (
  arith,
  last_index-none c (c ∷ pattern) (pattern ++ after),
  occurrences-append c pattern after,
  starts_with-append (c ∷ pattern) after,
)
last_index-append c (b ∷ before) pattern after h =
    ground (arith, last_index-append c before pattern after h)

pub drop-append : (s t : List ℕ) → drop (length s) (s ++ t) ≡ t
drop-append [] t = refl
drop-append (c ∷ s) t = drop-append s t

pub take-append : (s t : List ℕ) → take (length s) (s ++ t) ≡ s
take-append [] t = refl
take-append (c ∷ s) t = ap (λ l. c ∷ l) (take-append s t)
