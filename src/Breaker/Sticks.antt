-- ===== src/Breaker/Sticks.antt =====
-- The breaker once it is open.
use aerospike_ce_kubernetes.Prelude.{
  ◌≤◌, Bool, true, false, not, ◌≡◌, suc, min, ◌+◌, ◌&&◌, all, length, List, [], ◌∷◌, arith,
}
use aerospike_ce_kubernetes.Breaker.{
  BreakerStatus, Turn, max_failed_reconciles, is_paused_phase, reconcile, reconciles, Work, early,
  fails, succeeds, validation, transient, after_work, count_error, handle_reconcile_error,
  is_failure, is_config_degraded, unless_open, handle_circuit_breaker_backoff,
}

-- The breaker is open, and the resource is not about to be resumed.
pub record IsOpen (s : BreakerStatus) : Type 0 where
  pub count : max_failed_reconciles ≤ s.failed_count
  pub running : is_paused_phase s.phase ≡ false

step-IsOpen :
    (turn : Turn) (s : BreakerStatus)
    → turn.is_paused ≡ false
    → IsOpen s
    → IsOpen (reconcile turn s).0
unfolding reconcile unless_open handle_circuit_breaker_backoff
step-IsOpen turn s p h = record {
  count = ground (arith, h.count);
  running = ground (arith, h.running);
}

-- An open breaker stays open through any sequence of reconciles of a resource that is not paused,
-- whatever the API server answers and whatever the work would come to: no later reconcile gets as
-- far as the work, so none can succeed and close it.
pub reconciles-IsOpen :
    (turns : List Turn) (s : BreakerStatus)
    → all (λ t. not t.is_paused) turns ≡ true
    → IsOpen s
    → IsOpen (reconciles turns s)
unfolding reconciles
reconciles-IsOpen [] s p h = h
reconciles-IsOpen (turn ∷ rest) s p h =
    reconciles-IsOpen rest (reconcile turn s).0 (ground arith) (step-IsOpen turn s (ground arith) h)

-- While the breaker is open, a reconcile of a resource that is not paused is the same whatever its
-- work would come to.
pub reconcile-work :
    (turn : Turn) (work : Work) (s : BreakerStatus)
    → turn.is_paused ≡ false
    → IsOpen s
    → reconcile (record turn { work = work }) s ≡ reconcile turn s
unfolding reconcile unless_open handle_circuit_breaker_backoff
reconcile-work turn work s p h = ground (arith, h.count, h.running)

-- The work fails, and the status is written.
abbrev pub counts_failure : Turn → Bool
counts_failure turn = turn.refetched && turn.updated && is_failure turn.work

after_work-count :
    (turn : Turn) (work : Work) (s : BreakerStatus)
    → (turn.refetched && turn.updated && is_failure work) ≡ true
    → ((after_work turn work s).0.phase ≡ s.phase)
      × (min (suc s.failed_count) max_failed_reconciles ≤ (after_work turn work s).0.failed_count)
unfolding after_work handle_reconcile_error count_error
after_work-count turn early s c = absurd (ground arith)
after_work-count turn succeeds s c = absurd (ground arith)
after_work-count turn (fails (validation text)) s c = (ground arith, ground arith)
after_work-count turn (fails (transient text)) s c = (ground arith, ground arith)

step-count :
    (turn : Turn) (s : BreakerStatus)
    → turn.is_paused ≡ false
    → counts_failure turn ≡ true
    → is_paused_phase s.phase ≡ false
    → is_config_degraded s.phase ≡ false
    → (is_paused_phase (reconcile turn s).0.phase ≡ false)
      × (is_config_degraded (reconcile turn s).0.phase ≡ false)
      × (min (suc s.failed_count) max_failed_reconciles ≤ (reconcile turn s).0.failed_count)
unfolding reconcile unless_open handle_circuit_breaker_backoff
step-count turn s p c q d =
    let (same, more) = after_work-count turn turn.work s c in
    (ground (arith, same), ground (arith, same), ground (arith, more))

-- Ten failing reconciles in a row open the breaker, whatever the count was, where the resource is
-- neither paused nor degraded and the failures can be written.
pub reconciles-opens :
    (turns : List Turn) (s : BreakerStatus)
    → all (λ t. not t.is_paused && counts_failure t) turns ≡ true
    → is_paused_phase s.phase ≡ false
    → is_config_degraded s.phase ≡ false
    → min (s.failed_count + length turns) max_failed_reconciles ≤ (reconciles turns s).failed_count
unfolding reconciles
reconciles-opens [] s p q d = omega arith
reconciles-opens (turn ∷ rest) s p q d =
    let (q', d', more) = step-count turn s (ground arith) (ground arith) q d in
    omega (arith, more, reconciles-opens rest (reconcile turn s).0 (ground arith) q' d')
