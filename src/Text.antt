-- ===== src/Text.antt =====
-- The parts of Go's `strings` and `strconv` that the reconciler uses, over code points.
pub mod Decimal
pub mod Match
pub mod Fields
use Prim.Native.Char.{code}
use aerospike_ce_kubernetes.Prelude.{
  ℕ, ◌+◌, ◌-◌, ◌*◌, ◌^◌, String, Bool, ◌&&◌, Option, none, some, List, [], ◌∷◌, leb, ltb, ◌==◌,
  if◌then◌else◌, true, suc, false, zero, any, ◌||◌,
}
use aerospike_ce_kubernetes.Prelude.Int.{ℤ, pos, negsuc}

abbrev pub codes : String → List ℕ
codes String.[] = []
codes (String.◌∷◌ c s) = code c ∷ codes s

abbrev pub is_digit : ℕ → Bool
is_digit c = leb b'0' c && leb c b'9'

-- The digits of a decimal number, with the value read so far; `none` at another character.
unfoldable pub digits : ℕ → List ℕ → Option ℕ
digits n [] = some n
digits n (c ∷ rest) = if is_digit c then digits (n * 10 + (c - b'0')) rest else none

-- An empty number is an error.
unfoldable pub natural : List ℕ → Option ℕ
unfolding digits
natural [] = none
natural (c ∷ rest) = digits 0 (c ∷ rest)

negative : ℕ → ℤ
negative n = if n == 0 then pos 0 else negsuc (n - 1)

-- The range of a signed integer: below `limit`, and not below its negation.
unfoldable pub in_range_pos : ℕ → Option ℕ → Option ℤ
in_range_pos limit none = none
in_range_pos limit (some n) = if ltb n limit then some (pos n) else none

in_range_neg : ℕ → Option ℕ → Option ℤ
unfolding negative
in_range_neg limit none = none
in_range_neg limit (some n) = if leb n limit then some (negative n) else none

-- `strconv.ParseInt(s, 10, bits)`, with 2 ^ (bits - 1) as `limit`: an optional sign and decimal
-- digits; `none` is its error.
unfoldable pub parse_int : ℕ → List ℕ → Option ℤ
unfolding natural in_range_pos in_range_neg
parse_int limit [] = none
parse_int limit (c ∷ rest) =
    if c == b'-'
    then in_range_neg limit (natural rest)
    else if c == b'+'
    then in_range_pos limit (natural rest)
    else in_range_pos limit (natural (c ∷ rest))

-- `strconv.Atoi`
unfoldable pub atoi : List ℕ → Option ℤ
unfolding parse_int
atoi s = parse_int (2 ^ 63) s

-- `strings.CutSuffix(s, "%")`
unfoldable pub cut_percent : List ℕ → Option (List ℕ)
cut_percent [] = none
cut_percent (c ∷ []) = if c == b'%' then some [] else none
cut_percent (c ∷ d ∷ rest) = elim (cut_percent (d ∷ rest)) [ none ↦ none | some s ↦ some (c ∷ s) ]

-- `strings.HasPrefix(s, pattern)`
unfoldable pub starts_with : List ℕ → List ℕ → Bool
starts_with [] s = true
starts_with (p ∷ pattern) [] = false
starts_with (p ∷ pattern) (c ∷ s) = p == c && starts_with pattern s

abbrev shifted : Option ℕ → Bool → Option ℕ
shifted (some i) here = some (suc i)
shifted none true = some 0
shifted none false = none

-- `strings.LastIndex(s, pattern)` of a pattern that is not empty; `none` is -1.
unfoldable pub last_index : List ℕ → List ℕ → Option ℕ
unfolding starts_with
last_index pattern [] = none
last_index pattern (c ∷ s) = shifted (last_index pattern s) (starts_with pattern (c ∷ s))

-- `s[i:]`
abbrev pub drop : ℕ → List ℕ → List ℕ
drop zero s = s
drop (suc i) [] = []
drop (suc i) (c ∷ s) = drop i s

-- `s[:i]`
abbrev pub take : ℕ → List ℕ → List ℕ
take zero s = []
take (suc i) [] = []
take (suc i) (c ∷ s) = c ∷ take i s

unfoldable pub same_text : List ℕ → List ℕ → Bool
same_text [] [] = true
same_text [] (d ∷ t) = false
same_text (c ∷ s) [] = false
same_text (c ∷ s) (d ∷ t) = c == d && same_text s t

-- `set[name]`, of a name as a list.
abbrev pub has_text : List ℕ → List String → Bool
has_text name names = any (λ n. same_text (codes n) name) names

-- `unicode.IsSpace`
unfoldable pub is_space : ℕ → Bool
is_space c =
    leb 0x09 c && leb c 0x0d
    || c == 0x20
    || c == 0x85
    || c == 0xa0
    || c == 0x1680
    || leb 0x2000 c && leb c 0x200a
    || c == 0x2028
    || c == 0x2029
    || c == 0x202f
    || c == 0x205f
    || c == 0x3000
