-- ===== src/Prelude/Int.antt =====
-- Go's signed integers: a value, and its `int32` conversion with the wrap-around.
use Prim.Native.Nat.{ℕ, ◌-◌, ◌%◌, ◌^◌, ◌≤◌}
use mathlib.Core.Path.{◌≡◌}
use mathlib.Core.Bool.{Bool, true, false}
use native.Mathlib.Omega.{arith}
use aerospike_ce_kubernetes.Prelude.Tests.{ltb, leb, if◌then◌else◌}

-- `negsuc n` is -(n + 1).
pub data ℤ : Type 0 where
  pos : ℕ → ℤ
  negsuc : ℕ → ℤ

abbrev wrapped : ℕ → ℤ
wrapped n = if ltb n (2 ^ 31) then pos n else negsuc (2 ^ 32 - 1 - n)

-- The conversion `int32(z)`.
abbrev pub int32 : ℤ → ℤ
int32 (pos n) = wrapped (n % 2 ^ 32)
int32 (negsuc n) = wrapped (2 ^ 32 - 1 - n % 2 ^ 32)

-- `int32(n) >= z`, for a count `n`.
abbrev pub geb_int : ℕ → ℤ → Bool
geb_int n (pos k) = leb k n
geb_int n (negsuc k) = true

-- `int32(n) < z`
abbrev pub ltb_int : ℕ → ℤ → Bool
ltb_int n (pos k) = ltb n k
ltb_int n (negsuc k) = false

-- `z < 1`
abbrev pub below_one : ℤ → Bool
below_one (pos n) = ltb n 1
below_one (negsuc n) = true

-- The count that a limit stands for: a negative one admits nothing.
abbrev pub pos_part : ℤ → ℕ
pos_part (pos n) = n
pos_part (negsuc n) = 0

pub int32-pos : (n : ℕ) → n ≤ 2147483647 → int32 (pos n) ≡ pos n
int32-pos n h = ground arith
