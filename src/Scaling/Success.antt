-- ===== src/Scaling/Success.antt =====
-- A pass that reports neither an error nor a deferral has brought its rack forward.
use aerospike_ce_kubernetes.Prelude.{
  ℕ, ◌≡◌, refl, String, Bool, true, false, not, ◌&&◌, ◌⊎◌, inl, inr, Option, none, some, List, ◌∷◌,
  ltb, ◌==◌, if◌then◌else◌, arith,
}
use aerospike_ce_kubernetes.Prelude.Int.{ℤ}
use aerospike_ce_kubernetes.Cluster.{Spec}
use aerospike_ce_kubernetes.Env.{
  Env, Request, Reply, Action, Log, ok, is_ok, send, pure, create_stateful_set, patch_stateful_set,
}
use aerospike_ce_kubernetes.Storage.{StorageSpec}
use aerospike_ce_kubernetes.Pod.{Pod}
use aerospike_ce_kubernetes.Pod.Hashes.{Hashes}
use aerospike_ce_kubernetes.Scaling.{
  StatefulSet, Lookup, absent, unreadable, present, PassResult, done, failed, Reads,
  stateful_set_replicas, target_replicas, check_scale_down_readiness, hashes_differ, patch, create,
  scale_down, update, on_found, reconcile_stateful_set, unless_unready, after_phase,
}

-- The newest request has been answered with success.
abbrev pub IsNewest : Request → Log → Type 0
IsNewest r log = (earlier : Log) × (log ≡ record { request = r; reply = ok } ∷ earlier)

-- The action reports success only where its log then starts with the request.
record Needs (r : Request) (m : Action PassResult) : Type 0 where
  at : (log : Log) → (m log).0 ≡ done → IsNewest r (m log).1

after_reply :
    (r : Request) (reply : Reply) (log : Log)
    → (if is_ok reply then done else failed) ≡ done
    → IsNewest r (record { request = r; reply = reply } ∷ log)
after_reply r Reply.ok log h = (log, refl)
after_reply r Reply.other log h = absurd (ground arith)
after_reply r Reply.not_found log h = absurd (ground arith)
after_reply r Reply.conflict log h = absurd (ground arith)
after_reply r Reply.failure log h = absurd (ground arith)

module _ (env : Env) (name : String) where
  Needs-patch : (target : ℕ) → Needs (patch_stateful_set name target true) (patch env name target)
  unfolding patch send
  Needs-patch target = record { at = λ log h. after_reply _ _ log h }

  Needs-create :
      (rack_size : ℕ) → Needs (create_stateful_set name rack_size) (create env name rack_size)
  unfolding create send
  Needs-create rack_size = record { at = λ log h. after_reply _ _ log h }

  Needs-unless_unready :
      (target : ℕ) (unready : Option Bool)
      → Needs (patch_stateful_set name target true) (unless_unready env name target unready)
  Needs-unless_unready target none = record { at = λ log h. absurd (ground arith) }
  Needs-unless_unready target (some true) = record { at = λ log h. absurd (ground arith) }
  Needs-unless_unready target (some false) = Needs-patch target

  not_done : (reply : Reply) → after_phase reply ≡ done → ⊥
  not_done Reply.ok h = ground arith
  not_done Reply.other h = ground arith
  not_done Reply.not_found h = ground arith
  not_done Reply.conflict h = ground arith
  not_done Reply.failure h = ground arith

  Needs-scale_down :
      (target : ℕ) (migrating : Option Bool) (pods : Option (List Pod))
      → Needs (patch_stateful_set name target true) (scale_down env name target migrating pods)
  unfolding scale_down send
  Needs-scale_down target none pods = record { at = λ log h. absurd (ground arith) }
  Needs-scale_down target (some true) pods = record { at = λ log h. absurd (not_done _ h) }
  Needs-scale_down target (some false) pods =
      Needs-unless_unready target (check_scale_down_readiness target pods)

Needs-if :
    (r : Request) (b : Bool) (m k : Action PassResult)
    → Needs r m
    → Needs r k
    → Needs r (if b then m else k)
Needs-if r true m k x y = x
Needs-if r false m k x y = y

module _ (scaled : String → ℕ → Option ℤ) (spec : Spec) (env : Env) (name : String)
    (storage : Option StorageSpec) (desired : Hashes) (rack_size : ℕ) (reads : Reads) where
  -- There is nothing to change, or the new replica count and the template have been accepted.
  abbrev pub IsAchieved : Lookup → Log → Type 0
  IsAchieved absent log = IsNewest (create_stateful_set name rack_size) log
  IsAchieved unreadable log = ⊥
  IsAchieved (present sts) log =
      ((stateful_set_replicas (some sts) ≡ rack_size) × (hashes_differ sts.hashes desired ≡ false))
      ⊎ IsNewest
          (patch_stateful_set name
            (target_replicas scaled spec (stateful_set_replicas (some sts)) rack_size) true)
          log

  update_done :
      (sts : StatefulSet) (unchanged : Bool) (m : Action PassResult) (log : Log)
      → (unchanged ≡ true
          → (stateful_set_replicas (some sts) ≡ rack_size)
            × (hashes_differ sts.hashes desired ≡ false))
      → Needs
          (patch_stateful_set name
            (target_replicas scaled spec (stateful_set_replicas (some sts)) rack_size)
            true)
          m
      → ((if unchanged then pure done else m) log).0 ≡ done
      → IsAchieved (present sts) ((if unchanged then pure done else m) log).1
  update_done sts true m log u n h = inl (u refl)
  update_done sts false m log u n h = inr (n.at log h)

  update-IsAchieved :
      (sts : StatefulSet) (log : Log)
      → (update scaled spec env name storage desired sts rack_size reads log).0 ≡ done
      → IsAchieved
          (present sts)
          (update scaled spec env name storage desired sts rack_size reads log).1
  unfolding update
  update-IsAchieved sts log h =
      let old = stateful_set_replicas (some sts) in
      let target = target_replicas scaled spec old rack_size in
      update_done sts (old == rack_size && not (hashes_differ sts.hashes desired)) _ log
        (λ u. (ground (arith, u), ground (arith, u)))
        (Needs-if _ (ltb rack_size old) _ _
          (Needs-scale_down env name target reads.migrating reads.pods)
          (Needs-patch env name target))
        h

  on_found-IsAchieved :
      (found : Lookup) (log : Log)
      → (on_found scaled spec env name storage desired found rack_size reads log).0 ≡ done
      → IsAchieved found (on_found scaled spec env name storage desired found rack_size reads log).1
  unfolding on_found
  on_found-IsAchieved absent log h = (Needs-create env name rack_size).at log h
  on_found-IsAchieved unreadable log h = ground arith
  on_found-IsAchieved (present sts) log h = update-IsAchieved sts _ h

  -- A pass over a rack that reports neither an error nor a deferral has nothing to change, the replica
  -- count and the hashes being the wanted ones, or its newest request, accepted by the API server, is
  -- the patch to the next replica count, or the creation of a StatefulSet that was not there.
  pub reconcile_stateful_set-IsAchieved :
      (log : Log)
      → (reconcile_stateful_set scaled spec env name storage desired rack_size reads log).0 ≡ done
      → IsAchieved reads.found
          (reconcile_stateful_set scaled spec env name storage desired rack_size reads log).1
  unfolding reconcile_stateful_set
  reconcile_stateful_set-IsAchieved log h = on_found-IsAchieved reads.found log h
