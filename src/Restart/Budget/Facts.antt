-- ===== src/Restart/Budget/Facts.antt =====
-- The laws of the table of failed checks.
use aerospike_ce_kubernetes.Prelude.{
  ℕ, ◌-◌, ◌≤◌, ◌≡◌, ◌↔◌, refl, Bool, true, none, some, [], ◌∷◌, arith, eq_iff, All, filter,
  Bool-cases, inl, inr, if◌then◌else◌,
}
use aerospike_ce_kubernetes.Restart.Budget.{
  Key, same_key, MigrationCheckState, Entry, Table, find, remove, sweep, put,
  migration_check_state_ttl,
}

pub same_key_iff : (a b : Key) → (same_key a b ≡ true) ↔ (a ≡ b)
unfolding same_key
same_key_iff a b = ground (arith, eq_iff a.uid b.uid)

pub same_key_refl : (a : Key) → same_key a a ≡ true
same_key_refl a = (same_key_iff a a).1 refl

pub find-remove :
    (k j : Key) (t : Table) → find j (remove k t) ≡ (if same_key k j then none else find j t)
unfolding find remove
find-remove k j [] = ground arith
find-remove k j (e ∷ rest) =
    ground
      (arith, find-remove k j rest, same_key_iff e.key k, same_key_iff e.key j, same_key_iff k j)

pub find-put :
    (k j : Key) (s : MigrationCheckState) (t : Table)
    → find j (put k s t) ≡ (if same_key k j then some s else find j t)
unfolding find put
find-put k j s t = ground (arith, find-remove k j t)

-- A sweep keeps what is fresh, and brings nothing in.
pub find-sweep_fresh :
    (now : ℕ) (k : Key) (t : Table) (s : MigrationCheckState)
    → find k t ≡ some s
    → now - s.last_seen ≤ migration_check_state_ttl
    → find k (sweep now t) ≡ some s
unfolding find sweep
find-sweep_fresh now k [] s h fresh = h
find-sweep_fresh now k (e ∷ rest) s h fresh = ground (arith, find-sweep_fresh now k rest s)

pub find-sweep-none :
    (now : ℕ) (k : Key) (t : Table) → find k t ≡ none → find k (sweep now t) ≡ none
unfolding find sweep
find-sweep-none now k [] h = h
find-sweep-none now k (e ∷ rest) h = ground (arith, find-sweep-none now k rest)

pub All-filter {ℓ} :
    (P : Entry → Type ℓ) (p : Entry → Bool) (t : Table) → All P t → All P (filter p t)
All-filter P p [] h = tt
All-filter P p (e ∷ rest) h = elim (Bool-cases (p e)) [
  | inl kept ↦ rw kept (h.0, All-filter P p rest h.1)
  | inr dropped ↦ rw dropped (All-filter P p rest h.1)
]
