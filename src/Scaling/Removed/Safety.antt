-- ===== src/Scaling/Removed/Safety.antt =====
-- What the teardown of all the removed racks may ask of the API server.
use aerospike_ce_kubernetes.Prelude.{
  ℕ, ◌≡◌, refl, String, Bool, true, false, ◌⊎◌, inl, inr, Option, none, some, List, [], ◌∷◌, any,
  if◌then◌else◌, All, arith,
}
use aerospike_ce_kubernetes.Prelude.Int.{ℤ}
use aerospike_ce_kubernetes.Cluster.{Spec}
use aerospike_ce_kubernetes.Env.{Env, Request, Action, send, set_waiting_for_migration}
use aerospike_ce_kubernetes.Env.Sends.{Sends, Sends-pure, Sends-send, Sends-bind, Sends-if}
use aerospike_ce_kubernetes.Scaling.Removed.Listed.{
  IsAllowedFor, IsRemoved, removed_racks-IsRemoved,
}
use aerospike_ce_kubernetes.Scaling.Removed.Rack.{Sends-tear_down}
use aerospike_ce_kubernetes.Env.Sends.{Adds-weaken}
use aerospike_ce_kubernetes.Storage.{StorageSpec}
use aerospike_ce_kubernetes.Scaling.{StatefulSet, PassResult, done, deferred, failed, after_phase}
use aerospike_ce_kubernetes.Scaling.Removed.{
  RemovedRack, RackReads, removed_racks, needs_drain, tear_down, tear_down_all, gated, over_racks,
  cleanup_removed_racks, Step, next, hold, stop, go_on, after_wait, Table, clear_removed,
}

-- What may be sent in the teardown: for one of the removed racks, or the phase while data migrates.
abbrev pub IsAllowedRemoval :
    (String → ℕ → Option ℤ)
    → Spec
    → Option StorageSpec
    → RackReads
    → Option Bool
    → String
    → List ℕ
    → List StatefulSet
    → Request
    → Type 0
IsAllowedRemoval scaled spec storage reads migrating cluster_name rack_ids stss r =
    ((rr : RemovedRack) × IsRemoved cluster_name rack_ids stss rr
      × IsAllowedFor scaled spec storage reads migrating rr r)
    ⊎ ((r ≡ set_waiting_for_migration) × (migrating ≡ some true))

-- The same with any set of racks.
abbrev AllowedBy :
    (RemovedRack → Type 0) → (RemovedRack → Request → Type 0) → Option Bool → Request → Type 0
AllowedBy Q R migrating r =
    ((rr : RemovedRack) × Q rr × R rr r)
    ⊎ ((r ≡ set_waiting_for_migration) × (migrating ≡ some true))

Sends-weaken :
    {A : Type 0} {P Q : Request → Type 0} (m : Action A)
    → ((r : Request) → P r → Q r)
    → Sends P m
    → Sends Q m
Sends-weaken m h s = record { at = λ log. Adds-weaken h (s.at log) }

module _ (scaled : String → ℕ → Option ℤ) (spec : Spec) (storage : Option StorageSpec) (env : Env)
    (reads : RackReads) (migrating : Option Bool) (Q : RemovedRack → Type 0) where
  abbrev Allowed : Request → Type 0
  Allowed = AllowedBy Q (IsAllowedFor scaled spec storage reads migrating) migrating

  Sends-go_on :
      (later held : Action PassResult) (step : Step)
      → Sends Allowed later
      → Sends Allowed held
      → Sends Allowed (go_on scaled spec storage env reads later held step)
  Sends-go_on later held next x y = x
  Sends-go_on later held hold x y = y
  Sends-go_on later held stop x y = Sends-pure Allowed failed

  -- Some rack of the list has replicas left.
  abbrev drains : List RemovedRack → Bool
  drains racks = any (λ r. needs_drain r.sts) racks

  Sends-tear_down_all :
      (blocked : Bool) (racks : List RemovedRack) (held : Bool)
      → All Q racks
      → (blocked ≡ false → drains racks ≡ true → migrating ≡ some false)
      → Sends Allowed (tear_down_all scaled spec storage env reads blocked racks held)
  unfolding tear_down_all
  Sends-tear_down_all blocked [] held q settled =
      Sends-pure Allowed (if held then deferred else done)
  Sends-tear_down_all blocked (rr ∷ rest) held q settled =
      let later = λ (h : Bool).
        Sends-tear_down_all blocked rest h q.1 (λ b d. settled b (ground (arith, d))) in
      Sends-bind Allowed (tear_down scaled spec storage env reads blocked rr) _
        (Sends-weaken _ (λ r p. inl (rr, q.0, p))
          (Sends-tear_down scaled spec storage env reads migrating rr blocked
            (λ b n. settled b (ground (arith, n)))))
        (λ step.
          Sends-go_on (tear_down_all scaled spec storage env reads blocked rest held)
            (tear_down_all scaled spec storage env reads blocked rest true) step (later held)
            (later true))

  Sends-after_wait :
      (racks : List RemovedRack) (result : PassResult)
      → All Q racks
      → Sends Allowed (after_wait scaled spec storage env reads racks result)
  Sends-after_wait racks failed q = Sends-pure Allowed failed
  Sends-after_wait racks done q =
      Sends-tear_down_all true racks false q (λ b. absurd (ground (arith, b)))
  Sends-after_wait racks deferred q =
      Sends-tear_down_all true racks false q (λ b. absurd (ground (arith, b)))

  Sends-gated :
      (racks : List RemovedRack) (m : Option Bool)
      → All Q racks
      → migrating ≡ m
      → Sends Allowed (gated scaled spec storage env reads racks m)
  unfolding gated
  Sends-gated racks none q e =
      Sends-tear_down_all true racks false q (λ b. absurd (ground (arith, b)))
  Sends-gated racks (some true) q e =
      Sends-bind Allowed (send env set_waiting_for_migration) _
        (Sends-send Allowed env set_waiting_for_migration (inr (refl, e)))
        (λ reply. Sends-after_wait racks (after_phase reply) q)
  Sends-gated racks (some false) q e = Sends-tear_down_all false racks false q (λ b d. e)

  Sends-over_racks :
      (racks : List RemovedRack)
      → All Q racks
      → Sends Allowed (over_racks scaled spec storage env reads racks migrating)
  unfolding over_racks
  Sends-over_racks [] q = Sends-pure Allowed done
  Sends-over_racks (rr ∷ rest) q =
      Sends-if Allowed (drains (rr ∷ rest)) _ _ (λ d. Sends-gated (rr ∷ rest) migrating q refl)
        (λ d. Sends-tear_down_all false (rr ∷ rest) false q (λ b e. absurd (ground (arith, d, e))))

-- The teardown of removed racks asks only for what one of the listed StatefulSets allows whose rack
-- has left the specification. A lower replica count is sent only where no data is migrating and as
-- many of the rack's pods are ready below it as are to remain; the StatefulSet is deleted only at no
-- replicas; claims and the ConfigMap only where the rack has no pods left, and of the claims only those
-- listed for the rack's own StatefulSet whose volume cascades.
pub cleanup_removed_racks-IsAllowed :
    (scaled : String → ℕ → Option ℤ) (spec : Spec) (storage : Option StorageSpec) (env : Env)
    (reads : RackReads) (uid cluster_name : String) (rack_ids : List ℕ) (stss : List StatefulSet)
    (migrating : Option Bool) (table : Table)
    → Sends (IsAllowedRemoval scaled spec storage reads migrating cluster_name rack_ids stss) (
        cleanup_removed_racks scaled spec storage env reads uid cluster_name rack_ids
          (some stss)
          migrating
          table)
unfolding cleanup_removed_racks
cleanup_removed_racks-IsAllowed scaled spec storage env reads uid cluster_name rack_ids stss
      migrating table =
    let racks = removed_racks cluster_name rack_ids stss in
    let Allowed = IsAllowedRemoval scaled spec storage reads migrating cluster_name rack_ids stss in
    Sends-bind Allowed (over_racks scaled spec storage env reads racks migrating) _
      (Sends-over_racks scaled spec storage env reads migrating
        (IsRemoved cluster_name rack_ids stss) racks
        (removed_racks-IsRemoved cluster_name rack_ids stss))
      (λ result. Sends-pure Allowed (result, clear_removed uid racks table))
