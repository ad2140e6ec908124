-- ===== src/Scaling/Steps.antt =====
-- How a scale-down goes on from one pass to the next.
use aerospike_ce_kubernetes.Prelude.{
  ℕ, zero, suc, ◌+◌, ◌-◌, ◌≤◌, ◌<◌, ◌≡◌, refl, String, Option, ltb, arith, Bool-cases, inr, inl,
}
use aerospike_ce_kubernetes.Prelude.Int.{ℤ, pos, negsuc, pos_part}
use aerospike_ce_kubernetes.Cluster.{Spec}
use aerospike_ce_kubernetes.Restart.Sizes.{get_scale_down_batch_size}
use aerospike_ce_kubernetes.Restart.Sizes.Laws.{
  FitsInt32, get_scale_down_batch_size-pos, scale_down_setting,
}
use aerospike_ce_kubernetes.Scaling.{lowered, target_replicas}

-- A batch of at least one pod.
lowered_bounds :
    (old floor : ℕ) (batch : ℤ)
    → floor < old
    → 1 ≤ pos_part batch
    → (floor ≤ lowered old batch floor)
      × (lowered old batch floor < old)
      × (old ≤ lowered old batch floor + pos_part batch)
unfolding lowered
lowered_bounds old floor (pos n) h b = (omega arith, omega arith, omega arith)
lowered_bounds old floor (negsuc n) h b = absurd (omega arith)

module _ (scaled : String → ℕ → Option ℤ) (spec : Spec) where
  -- A pass over a rack with too many replicas asks for fewer, by one batch at most, and never for
  -- fewer than the rack is to have, provided the value that the resource's percentage scales to, if it
  -- has one, fits 32 bits.
  pub target_replicas_bounds :
      (old rack_size : ℕ)
      → FitsInt32 scaled (scale_down_setting scaled spec) (old - rack_size)
      → rack_size < old
      → (rack_size ≤ target_replicas scaled spec old rack_size)
        × (target_replicas scaled spec old rack_size < old)
        × (old
            ≤ target_replicas scaled spec old rack_size
              + pos_part (get_scale_down_batch_size scaled spec (old - rack_size)))
  unfolding target_replicas
  target_replicas_bounds old rack_size fits h =
      let size = get_scale_down_batch_size-pos scaled spec (old - rack_size) fits (omega arith) in
      let (above, less, near) =
        lowered_bounds old rack_size (get_scale_down_batch_size scaled spec (old - rack_size)) h
          size in
      (ground (arith, above), ground (arith, less), ground (arith, near))

  target_replicas_up :
      (old rack_size : ℕ) → old ≤ rack_size → target_replicas scaled spec old rack_size ≡ rack_size
  unfolding target_replicas
  target_replicas_up old rack_size h = ground arith

-- The replicas after that many passes that are not deferred.
pub replicas_after : (String → ℕ → Option ℤ) → Spec → ℕ → ℕ → ℕ → ℕ
replicas_after scaled spec rack_size zero old = old
replicas_after scaled spec rack_size (suc passes) old =
    replicas_after scaled spec rack_size passes (target_replicas scaled spec old rack_size)

module _ (scaled : String → ℕ → Option ℤ) (spec : Spec) where
  replicas_stay :
      (rack_size passes : ℕ) → replicas_after scaled spec rack_size passes rack_size ≡ rack_size
  unfolding replicas_after
  replicas_stay rack_size zero = refl
  replicas_stay rack_size (suc passes) =
      rw (target_replicas_up scaled spec rack_size rack_size (omega arith))
        (replicas_stay rack_size passes)

  target_replicas_near :
      (old rack_size passes : ℕ)
      → FitsInt32 scaled (scale_down_setting scaled spec) (old - rack_size)
      → old ≤ rack_size + suc passes
      → (rack_size ≤ target_replicas scaled spec old rack_size)
        × (target_replicas scaled spec old rack_size ≤ rack_size + passes)
  target_replicas_near old rack_size passes fits h = elim (Bool-cases (ltb rack_size old)) [
    | inr e ↦
        let same = target_replicas_up scaled spec old rack_size (ground (arith, e)) in
        (omega arith, omega arith)
    | inl e ↦
        let (above, less, near) =
          target_replicas_bounds scaled spec old rack_size fits (ground (arith, e)) in
        (above, omega arith)
  ]

  -- After as many passes that go through as there are pods too many, and one at least, the rack has
  -- the replicas that it is to have, also when it is to grow, and it keeps them; whatever the batch
  -- size of the resource says, provided that, if it is a percentage, the values that it scales to fit
  -- 32 bits at every number of pods too many on the way.
  pub replicas_after_enough :
      (rack_size passes old : ℕ)
      → ((total : ℕ) → total ≤ suc passes → FitsInt32 scaled (scale_down_setting scaled spec) total)
      → old ≤ rack_size + suc passes
      → replicas_after scaled spec rack_size (suc passes) old ≡ rack_size
  unfolding replicas_after
  replicas_after_enough rack_size zero old fits h =
      let (above, near) =
        target_replicas_near old rack_size 0 (fits (old - rack_size) (omega arith)) h in
      omega arith
  replicas_after_enough rack_size (suc passes) old fits h =
      let near =
        target_replicas_near old rack_size (suc passes) (fits (old - rack_size) (omega arith)) h in
      replicas_after_enough rack_size passes (target_replicas scaled spec old rack_size)
        (λ total less. fits total (omega arith)) near.1
