-- ===== src/Text/Decimal.antt =====
-- Decimal numbers as they are printed, and that they are read back.
use aerospike_ce_kubernetes.Prelude.{
  ℕ, zero, suc, ◌+◌, ◌-◌, ◌*◌, ◌/◌, ◌%◌, ◌^◌, ◌≤◌, ◌<◌, ◌≡◌, refl, true, some, List, [], ◌∷◌, arith,
  all, ltb, if◌then◌else◌, length,
}
use aerospike_ce_kubernetes.Prelude.Int.{pos}
use aerospike_ce_kubernetes.Text.{is_digit, digits, natural, parse_int, in_range_pos}

-- The digits of n before those that are there already, on fuel.
print_digits : ℕ → ℕ → List ℕ → List ℕ
print_digits zero n later = later
print_digits (suc fuel) n later =
    let digit = b'0' + n % 10 in
    let more = print_digits fuel (n / 10) (digit ∷ later) in
    if ltb n 10 then digit ∷ later else more

-- `fmt.Sprintf("%d", n)`, of a number below 2 ^ 63, which has 19 digits at most.
unfoldable pub decimal : ℕ → List ℕ
unfolding print_digits
decimal n = print_digits 19 n []

print_digits_longer :
    (fuel n : ℕ) (later : List ℕ) → length later ≤ length (print_digits fuel n later)
unfolding print_digits
print_digits_longer zero n later = omega arith
print_digits_longer (suc fuel) n later =
    ground (arith, print_digits_longer fuel (n / 10) ((b'0' + n % 10) ∷ later))

print_digits_nonempty : (fuel n : ℕ) (later : List ℕ) → 1 ≤ length (print_digits (suc fuel) n later)
unfolding print_digits
print_digits_nonempty fuel n later =
    ground (arith, print_digits_longer fuel (n / 10) ((b'0' + n % 10) ∷ later))

-- The first number with more digits than that.
limit : ℕ → ℕ
limit zero = 1
limit (suc fuel) = 10 * limit fuel

digits-digit :
    (m k : ℕ) (later : List ℕ) → k < 10 → digits m ((b'0' + k) ∷ later) ≡ digits (m * 10 + k) later
unfolding digits
digits-digit m k later h = let e : (b'0' + k) - b'0' ≡ k = omega arith in ground (arith, e)

digits-print_digits :
    (fuel n : ℕ) (later : List ℕ)
    → n < limit fuel
    → digits 0 (print_digits fuel n later) ≡ digits n later
unfolding print_digits limit
digits-print_digits zero n later h = let e : n ≡ 0 = omega arith in rw e refl
digits-print_digits (suc fuel) n later h =
    let digit = digits-digit 0 (n % 10) later (omega arith) in
    let step = digits-digit (n / 10) (n % 10) later (omega arith) in
    let rest = digits-print_digits fuel (n / 10) ((b'0' + n % 10) ∷ later) (omega arith) in
    let last : n < 10 → n % 10 ≡ n = λ p. omega arith in
    let split : n / 10 * 10 + n % 10 ≡ n = omega arith in
    ground (arith, digit, step, rest, last, split)

digits-all : (m : ℕ) (s : List ℕ) (n : ℕ) → digits m s ≡ some n → all is_digit s ≡ true
unfolding digits
digits-all m [] n h = refl
digits-all m (c ∷ s) n h = ground (arith, digits-all (m * 10 + (c - b'0')) s n)

-- A number that is printed reads back, and consists of digits, one at least.
pub digits-decimal :
    (n : ℕ)
    → n < 10 ^ 19
    → (digits 0 (decimal n) ≡ some n) × (all is_digit (decimal n) ≡ true) × (1 ≤ length (decimal n))
unfolding decimal limit digits
digits-decimal n h =
    let read : digits 0 (decimal n) ≡ some n = digits-print_digits 19 n [] (omega arith) in
    (read, digits-all 0 (decimal n) n read, print_digits_nonempty 18 n [])

parse_int-digits :
    (limit n : ℕ) (s : List ℕ)
    → all is_digit s ≡ true
    → 1 ≤ length s
    → digits 0 s ≡ some n
    → n < limit
    → parse_int limit s ≡ some (pos n)
unfolding parse_int natural in_range_pos
parse_int-digits limit n [] d h r b = absurd (omega arith)
parse_int-digits limit n (c ∷ s) d h r b = ground arith

-- A number below the limit is parsed as it was printed.
pub parse_int-decimal :
    (limit n : ℕ) → n < 10 ^ 19 → n < limit → parse_int limit (decimal n) ≡ some (pos n)
parse_int-decimal limit n b h =
    let (read, digit, size) = digits-decimal n b in
    parse_int-digits limit n (decimal n) digit size read h
