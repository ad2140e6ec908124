-- ===== src/Claims/Names.antt =====
-- The name of a claim is made of its volume, its StatefulSet and its ordinal, and read back.
use aerospike_ce_kubernetes.Prelude.{
  ℕ, ◌+◌, ◌-◌, ◌≤◌, ◌<◌, ◌≡◌, refl, sym, ap, ◌∙◌, true, String, some, List, [], ◌∷◌, ◌++◌, arith,
  length, all, length-append, ◌^◌,
}
use aerospike_ce_kubernetes.Prelude.Int.{ℤ, pos}
use aerospike_ce_kubernetes.Text.{codes, is_digit, parse_int, drop, take, same_text}
use aerospike_ce_kubernetes.Text.Decimal.{decimal, digits-decimal, parse_int-decimal}
use aerospike_ce_kubernetes.Text.Match.{occurrences, last_index-append, drop-append, take-append}
use aerospike_ce_kubernetes.Claims.{
  pattern, split_digits, ordinal_of, extract_ordinal, volume_at, extract_volume_name,
}

append_assoc : (a b c : List ℕ) → (a ++ b) ++ c ≡ a ++ (b ++ c)
append_assoc [] b c = refl
append_assoc (x ∷ a) b c = ap (λ l. x ∷ l) (append_assoc a b c)

split_digits-all : (s : List ℕ) → all is_digit s ≡ true → split_digits s ≡ ([], s)
unfolding split_digits
split_digits-all [] h = refl
split_digits-all (c ∷ s) h = ground (arith, split_digits-all s)

-- After a dash, the trailing digits are all digits.
split_digits-append :
    (before s : List ℕ)
    → all is_digit s ≡ true
    → split_digits (before ++ (b'-' ∷ s)) ≡ (before ++ (b'-' ∷ []), s)
unfolding split_digits
split_digits-append [] s h = ground (arith, split_digits-all s h)
split_digits-append (c ∷ []) s h = ground (arith, split_digits-all s h)
split_digits-append (c ∷ d ∷ before) s h = ground (arith, split_digits-append (d ∷ before) s h)

same_text_refl : (s : List ℕ) → same_text s s ≡ true
unfolding same_text
same_text_refl [] = refl
same_text_refl (c ∷ s) = ground (arith, same_text_refl s)

occurrences_digits : (s : List ℕ) → all is_digit s ≡ true → occurrences b'-' s ≡ 0
occurrences_digits [] h = refl
occurrences_digits (c ∷ s) h = ground (arith, occurrences_digits s)

-- <volume>-<StatefulSet>-<ordinal>
unfoldable pub claim_name : List ℕ → String → ℕ → List ℕ
claim_name volume sts_name n = volume ++ (pattern sts_name ++ decimal n)

ordinal_of-append :
    (pattern volume s : List ℕ)
    → 1 ≤ length pattern
    → 1 ≤ length s
    → ordinal_of pattern (volume ++ pattern) s ≡ parse_int (2 ^ 31) s
unfolding ordinal_of
ordinal_of-append pattern volume s hp hs =
    let size : length (volume ++ pattern) - length pattern ≡ length volume =
      ground (arith, length-append volume pattern) in
    let end : drop (length (volume ++ pattern) - length pattern) (volume ++ pattern) ≡ pattern =
      rw size (drop-append volume pattern) in
    ground (arith, length-append volume pattern, end, same_text_refl pattern)

regroup :
    (v c d : List ℕ) → v ++ ((b'-' ∷ (c ++ (b'-' ∷ []))) ++ d) ≡ (v ++ (b'-' ∷ c)) ++ (b'-' ∷ d)
regroup v c d = rw (append_assoc v (b'-' ∷ c) (b'-' ∷ d), append_assoc c (b'-' ∷ []) d) refl

extract_ordinal-claim_name :
    (volume : List ℕ) (sts_name : String) (n : ℕ)
    → n < 2 ^ 31
    → extract_ordinal (claim_name volume sts_name n) sts_name ≡ some (pos n)
unfolding extract_ordinal claim_name
extract_ordinal-claim_name volume sts_name n h =
    let (read, digit, size) = digits-decimal n (omega arith) in
    let split = split_digits-append (volume ++ (b'-' ∷ codes sts_name)) (decimal n) digit in
    let join = append_assoc volume (b'-' ∷ codes sts_name) (b'-' ∷ []) in
    let prefix = ordinal_of-append (pattern sts_name) volume (decimal n) (omega arith) size in
    rw (regroup volume (codes sts_name) (decimal n), split, join)
      (prefix ∙ parse_int-decimal (2 ^ 31) n (omega arith) h)

volume_at_found :
    (name : List ℕ) (size idx : ℕ) (suffix front : List ℕ) (n : ℤ)
    → 1 ≤ idx
    → 1 ≤ length suffix
    → drop (idx + size) name ≡ suffix
    → take idx name ≡ front
    → parse_int (2 ^ 31) suffix ≡ some n
    → volume_at name size (some idx) ≡ some front
unfolding volume_at
volume_at_found name size idx [] front n i s d t p = absurd (omega arith)
volume_at_found name size idx (c ∷ suffix) front n i s d t p = rw (d, p, t) (ground arith)

extract_volume_name-claim_name :
    (volume : List ℕ) (sts_name : String) (n : ℕ)
    → 1 ≤ length volume
    → n < 2 ^ 31
    → extract_volume_name (claim_name volume sts_name n) sts_name ≡ some volume
unfolding extract_volume_name claim_name
extract_volume_name-claim_name volume sts_name n v h =
    let (read, digit, size) = digits-decimal n (omega arith) in
    let clear = occurrences_digits (decimal n) digit in
    let found = last_index-append b'-' volume (codes sts_name ++ (b'-' ∷ [])) (decimal n) clear in
    let whole = append_assoc volume (pattern sts_name) (decimal n) in
    let size_eq = length-append volume (pattern sts_name) in
    let rest = drop-append (volume ++ pattern sts_name) (decimal n) in
    let front = take-append volume (pattern sts_name ++ decimal n) in
    let drop_eq : drop (length volume + length (pattern sts_name)) (claim_name volume sts_name n)
        ≡ decimal n =
      ap (λ k. drop k (claim_name volume sts_name n)) (sym size_eq)
      ∙ ap (drop (length (volume ++ pattern sts_name))) (sym whole)
      ∙ rest in
    rw found (
      volume_at_found (claim_name volume sts_name n) (length (pattern sts_name)) (length volume)
        (decimal n) volume (pos n) v size drop_eq front
        (parse_int-decimal (2 ^ 31) n (omega arith) h))

-- The name of a claim by the convention <volume>-<StatefulSet>-<ordinal>, of a volume with a name and
-- an ordinal below 2 ^ 31, is read back: `extractOrdinal` gives the ordinal and `extractVolumeName`
-- the volume, also where the volume's or the StatefulSet's name holds dashes, digits or each other.
pub extract-claim_name :
    (volume : List ℕ) (sts_name : String) (n : ℕ)
    → 1 ≤ length volume
    → n < 2 ^ 31
    → (extract_ordinal (claim_name volume sts_name n) sts_name ≡ some (pos n))
      × (extract_volume_name (claim_name volume sts_name n) sts_name ≡ some volume)
extract-claim_name volume sts_name n v h = (
  extract_ordinal-claim_name volume sts_name n h,
  extract_volume_name-claim_name volume sts_name n v h,
)
