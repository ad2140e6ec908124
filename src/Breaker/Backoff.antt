-- ===== src/Breaker/Backoff.antt =====
-- The bounds of the backoff.
use aerospike_ce_kubernetes.Prelude.{ℕ, zero, suc, min, ◌≤◌, ◌⊎◌, inl, inr, ◌≡◌, arith}
use aerospike_ce_kubernetes.Breaker.{calculate_backoff, max_backoff_seconds}

abbrev IsBounded : ℕ → Type 0
IsBounded n =
    (2 ≤ calculate_backoff n)
    × (calculate_backoff n ≤ max_backoff_seconds)
    × (1 ≤ n → calculate_backoff n ≤ calculate_backoff (suc n))
    × (9 ≤ n → calculate_backoff n ≡ max_backoff_seconds)

nine : (n : ℕ) → 9 ≤ n → calculate_backoff n ≡ max_backoff_seconds
unfolding calculate_backoff
nine n h = let e : min n 9 ≡ 9 = omega (arith, h) in rw e (ground arith)

cases : (n : ℕ) → (n ≤ 8) ⊎ (9 ≤ n)
cases n = ground arith

small : (n : ℕ) → n ≤ 8 → IsBounded n
unfolding calculate_backoff
small zero h = (omega arith, omega arith, λ k. omega arith, λ k. omega arith)
small (suc zero) h = (omega arith, omega arith, λ k. omega arith, λ k. omega arith)
small (suc (suc zero)) h = (omega arith, omega arith, λ k. omega arith, λ k. omega arith)
small (suc (suc (suc zero))) h = (omega arith, omega arith, λ k. omega arith, λ k. omega arith)
small (suc (suc (suc (suc zero)))) h =
    (omega arith, omega arith, λ k. omega arith, λ k. omega arith)
small (suc (suc (suc (suc (suc zero))))) h =
    (omega arith, omega arith, λ k. omega arith, λ k. omega arith)
small (suc (suc (suc (suc (suc (suc zero)))))) h =
    (omega arith, omega arith, λ k. omega arith, λ k. omega arith)
small (suc (suc (suc (suc (suc (suc (suc zero))))))) h =
    (omega arith, omega arith, λ k. omega arith, λ k. omega arith)
small (suc (suc (suc (suc (suc (suc (suc (suc zero)))))))) h =
    (omega arith, omega arith, λ k. omega arith, λ k. omega arith)
small (suc (suc (suc (suc (suc (suc (suc (suc (suc n))))))))) h = absurd (omega (arith, h))

-- A backoff is two seconds at least and five minutes at most. From the first failure on it never
-- falls as failures follow each other, and from the ninth failure on it is the five minutes.
pub calculate_backoff_bounds :
    (n : ℕ)
    → (2 ≤ calculate_backoff n)
      × (calculate_backoff n ≤ max_backoff_seconds)
      × (1 ≤ n → calculate_backoff n ≤ calculate_backoff (suc n))
      × (9 ≤ n → calculate_backoff n ≡ max_backoff_seconds)
calculate_backoff_bounds n = elim (cases n) [
  | inl low ↦ small n low
  | inr high ↦
      let top = nine n high in
      let next = nine (suc n) (omega (arith, high)) in
      (omega (arith, top), omega (arith, top), λ k. omega (arith, top, next), λ k. top)
]
