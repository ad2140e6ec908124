-- ===== src/Migration/Statistics.antt =====
-- The statistics of a node as they are printed, and what is read back from them.
use aerospike_ce_kubernetes.Prelude.{
  ℕ, ◌<◌, ◌^◌, ◌≡◌, refl, ◌∙◌, ap, String, Bool, true, ◌&&◌, Option, none, some, List, [], ◌∷◌,
  ◌++◌, all, map, arith, if◌then◌else◌,
}
use aerospike_ce_kubernetes.Prelude.Int.{pos}
use aerospike_ce_kubernetes.Text.{codes, same_text}
use aerospike_ce_kubernetes.Text.Decimal.{decimal, parse_int-decimal}
use aerospike_ce_kubernetes.Text.Fields.{
  trim_space, lacks, join_with, split_on-join_with, cut-append,
}
use aerospike_ce_kubernetes.Migration.{stat_of_pair, find_stat, parse_migrate_stat, integer_in}

abbrev pub Pair : Type 0
Pair = List ℕ × List ℕ

-- key=value
abbrev pub print_pair : Pair → List ℕ
print_pair (key, value) = key ++ (b'=' ∷ value)

-- A key without the separators, and a value without the one between pairs.
abbrev pub is_printable : Pair → Bool
is_printable (key, value) = lacks b'=' key && lacks b';' (print_pair (key, value))

-- The value of the first pair whose key, less the spaces around it, is the given one.
unfoldable pub first_value : String → List Pair → Option (List ℕ)
first_value name [] = none
first_value name ((key, value) ∷ pairs) =
    let later = first_value name pairs in
    if same_text (trim_space key) (codes name) then some (trim_space value) else later

find_stat-first_value :
    (name : String) (pairs : List Pair)
    → all is_printable pairs ≡ true
    → find_stat name (map print_pair pairs) ≡ first_value name pairs
unfolding find_stat stat_of_pair first_value
find_stat-first_value name [] h = refl
find_stat-first_value name ((key, value) ∷ pairs) h =
    ground (arith, cut-append b'=' key value, find_stat-first_value name pairs)

all_lack :
    (pairs : List Pair)
    → all is_printable pairs ≡ true
    → all (lacks b';') (map print_pair pairs) ≡ true
all_lack [] h = refl
all_lack (p ∷ pairs) h = ground (arith, all_lack pairs)

-- Where pairs are printed as key=value with semicolons between them, a key holding no separator and
-- a value no semicolon, the statistic is the integer that stands in the first pair with that key,
-- spaces around both left out; there is none if no pair has the key or its value is no 64-bit
-- integer, and a value that is a decimal below 2 ^ 63 is read back.
pub parse_migrate_stat-join_with :
    (name : String) (pair : Pair) (pairs : List Pair)
    → all is_printable (pair ∷ pairs) ≡ true
    → let stat =
        parse_migrate_stat (join_with b';' (print_pair pair) (map print_pair pairs)) name in
      (stat ≡ integer_in (first_value name (pair ∷ pairs)))
      × ((n : ℕ)
          → n < 2 ^ 63
          → first_value name (pair ∷ pairs) ≡ some (decimal n)
          → stat ≡ some (pos n))
unfolding parse_migrate_stat
parse_migrate_stat-join_with name pair pairs h =
    let read =
      ap (λ l. integer_in (find_stat name l))
        (split_on-join_with b';' (print_pair pair) (map print_pair pairs)
          (all_lack (pair ∷ pairs) h))
      ∙ ap integer_in (find_stat-first_value name (pair ∷ pairs) h) in
    (read, λ n b e. read ∙ ap integer_in e ∙ parse_int-decimal (2 ^ 63) n (omega arith) b)
