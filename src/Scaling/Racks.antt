-- ===== src/Scaling/Racks.antt =====
-- The sizes of the racks: `getRacks` and `getRackSize` of internal/controller/reconciler.go. The
-- cluster's size is not negative.
use aerospike_ce_kubernetes.Prelude.{
  ℕ, zero, suc, ◌+◌, ◌*◌, ◌/◌, ◌%◌, ◌≤◌, ◌<◌, ◌≡◌, min, Option, none, some, List, [], ◌∷◌, length,
  ltb, if◌then◌else◌, arith,
}
use native.Mathlib.Nat.{div-add-mod, mod-lt}
use aerospike_ce_kubernetes.Prelude.Int.{ℤ, pos}

-- `none` is a spec without a rack config; a rack stands for its id.
unfoldable pub get_racks : Option (List ℤ) → List ℤ
get_racks none = pos 0 ∷ []
get_racks (some []) = pos 0 ∷ []
get_racks (some (r ∷ racks)) = r ∷ racks

unfoldable pub get_rack_size : ℕ → ℕ → ℕ → ℕ
get_rack_size total num_racks index =
    let base = total / num_racks in
    let remainder = total % num_racks in if ltb index remainder then base + 1 else base

-- The pods of the first so many racks.
pub total_size : ℕ → ℕ → ℕ → ℕ
total_size total num_racks zero = 0
total_size total num_racks (suc k) = total_size total num_racks k + get_rack_size total num_racks k

total_size-min :
    (total num_racks k : ℕ)
    → total_size total num_racks k ≡ k * (total / num_racks) + min k (total % num_racks)
unfolding total_size get_rack_size
total_size-min total num_racks zero = omega arith
total_size-min total num_racks (suc k) =
    let before = total_size-min total num_racks k in ground (arith, before)

racks_nonempty : (racks : Option (List ℤ)) → 1 ≤ length (get_racks racks)
unfolding get_racks
racks_nonempty none = omega arith
racks_nonempty (some []) = omega arith
racks_nonempty (some (r ∷ racks)) = omega arith

split_all : (total n : ℕ) → 1 ≤ n → total_size total n n ≡ total
split_all total n h =
    let sum = total_size-min total n n in
    let whole = div-add-mod total n in
    let part : total % n < n = mod-lt total (omega arith) in omega (arith, sum, whole, part)

-- The racks' sizes add up to the cluster's size, no two differ by more than one pod, and an earlier
-- rack is no smaller; there is always a rack.
pub get_rack_size_lem :
    (racks : Option (List ℤ)) (total : ℕ)
    → let n = length (get_racks racks) in
      (total_size total n n ≡ total)
      × ((i j : ℕ)
          → i ≤ j
          → (get_rack_size total n j ≤ get_rack_size total n i)
            × (get_rack_size total n i ≤ get_rack_size total n j + 1))
unfolding get_rack_size
get_rack_size_lem racks total = (
  split_all total (length (get_racks racks)) (racks_nonempty racks),
  λ i j h. (ground arith, ground arith),
)
