-- ===== src/Scaling/Safety.antt =====
-- What a pass over a rack may ask of the API server, and that a pass which reports no error and no
-- deferral has brought the rack forward.
use aerospike_ce_kubernetes.Prelude.{
  ℕ, ◌≤◌, ◌<◌, ◌≡◌, refl, String, Bool, true, false, not, ◌&&◌, Option, none, some, List, length,
  filter, ltb, ◌==◌, if◌then◌else◌, arith,
}
use aerospike_ce_kubernetes.Prelude.Int.{ℤ}
use aerospike_ce_kubernetes.Cluster.{Spec}
use aerospike_ce_kubernetes.Env.{
  Env, Request, is_ok, send, pure, create_stateful_set, patch_stateful_set,
  set_waiting_for_migration, delete_claim,
}
use aerospike_ce_kubernetes.Env.Sends.{Sends, Sends-pure, Sends-send, Sends-bind, Sends-if}
use aerospike_ce_kubernetes.Storage.{StorageSpec}
use aerospike_ce_kubernetes.Pod.{Pod}
use aerospike_ce_kubernetes.Pod.Hashes.{Hashes}
use aerospike_ce_kubernetes.Claims.Reclaim.{reclaim_orphaned_rack_pvcs}
use aerospike_ce_kubernetes.Claims.Reclaim.Guards.{Sends-reclaim_orphaned_rack_pvcs}
use aerospike_ce_kubernetes.Scaling.{
  StatefulSet, Lookup, absent, unreadable, present, done, deferred, failed, Reads,
  stateful_set_replicas, target_replicas, remains_ready, check_scale_down_readiness, hashes_differ,
  patch, create, scale_down, update, on_found, reconcile_stateful_set, unless_unready, after_phase,
}

-- The gates of a lower replica count: no migration, and as many ready pods as are to remain.
pub record IsSafeDown (reads : Reads) (target : ℕ) : Type 0 where
  pub settled : reads.migrating ≡ some false
  pub pods : List Pod
  pub listed : reads.pods ≡ some pods
  pub ready : target ≤ length (filter (remains_ready target) pods)

-- What may be sent for a StatefulSet with so many replicas.
abbrev pub IsAllowedAt : String → ℕ → ℕ → ℕ → Reads → Request → Type 0
IsAllowedAt name old rack_size target reads (patch_stateful_set n t true) =
    (n ≡ name) × (t ≡ target) × (rack_size < old → IsSafeDown reads target)
IsAllowedAt name old rack_size target reads set_waiting_for_migration =
    (rack_size < old) × (reads.migrating ≡ some true)
IsAllowedAt name old rack_size target reads (delete_claim c) = Unit
IsAllowedAt name old rack_size target reads _ = ⊥

module _ (scaled : String → ℕ → Option ℤ) (spec : Spec) where
  -- What may be sent for what was found of the StatefulSet.
  abbrev pub IsAllowed : String → ℕ → Reads → Lookup → Request → Type 0
  IsAllowed name rack_size reads absent r = r ≡ create_stateful_set name rack_size
  IsAllowed name rack_size reads unreadable r = ⊥
  IsAllowed name rack_size reads (present sts) r =
      IsAllowedAt name (stateful_set_replicas (some sts)) rack_size
        (target_replicas scaled spec (stateful_set_replicas (some sts)) rack_size) reads r

Sends-patch :
    (P : Request → Type 0) (env : Env) (name : String) (target : ℕ)
    → P (patch_stateful_set name target true)
    → Sends P (patch env name target)
unfolding patch
Sends-patch P env name target p =
    Sends-bind P (send env (patch_stateful_set name target true))
      (λ reply. pure (if is_ok reply then done else failed)) (Sends-send P env _ p)
      (λ reply. Sends-pure P _)

module _ (env : Env) (name : String) (old rack_size target : ℕ) (reads : Reads) where
  Sends-gated :
      (unready : Bool)
      → (unready ≡ false → IsSafeDown reads target)
      → Sends
          (IsAllowedAt name old rack_size target reads)
          (unless_unready env name target (some unready))
  Sends-gated true h = Sends-pure (IsAllowedAt name old rack_size target reads) deferred
  Sends-gated false h = Sends-patch _ env name target (refl, refl, λ less. h refl)

  Sends-unless_unready :
      (pods : Option (List Pod))
      → reads.pods ≡ pods
      → reads.migrating ≡ some false
      → Sends
          (IsAllowedAt name old rack_size target reads)
          (unless_unready env name target (check_scale_down_readiness target pods))
  unfolding check_scale_down_readiness
  Sends-unless_unready none e m = Sends-pure (IsAllowedAt name old rack_size target reads) failed
  Sends-unless_unready (some pods) e m =
      Sends-gated (ltb (length (filter (remains_ready target) pods)) target)
        (λ h. record { settled = m; pods = pods; listed = e; ready = ground (arith, h) })

  Sends-scale_down :
      (migrating : Option Bool)
      → reads.migrating ≡ migrating
      → rack_size < old
      → Sends
          (IsAllowedAt name old rack_size target reads)
          (scale_down env name target migrating reads.pods)
  unfolding scale_down
  Sends-scale_down none m less = Sends-pure (IsAllowedAt name old rack_size target reads) deferred
  Sends-scale_down (some true) m less =
      Sends-bind (IsAllowedAt name old rack_size target reads) (send env set_waiting_for_migration)
        _
        (Sends-send (IsAllowedAt name old rack_size target reads) env set_waiting_for_migration
          (less, m))
        (λ reply. Sends-pure (IsAllowedAt name old rack_size target reads) (after_phase reply))
  Sends-scale_down (some false) m less = Sends-unless_unready reads.pods refl m

module _ (scaled : String → ℕ → Option ℤ) (spec : Spec) (env : Env) (name : String)
    (storage : Option StorageSpec) (desired : Hashes) (rack_size : ℕ) (reads : Reads) where
  Sends-update :
      (sts : StatefulSet)
      → Sends
          (IsAllowed scaled spec name rack_size reads (present sts))
          (update scaled spec env name storage desired sts rack_size reads)
  unfolding update
  Sends-update sts =
      let old = stateful_set_replicas (some sts) in
      let target = target_replicas scaled spec old rack_size in
      let P = IsAllowedAt name old rack_size target reads in
      Sends-if P (old == rack_size && not (hashes_differ sts.hashes desired)) _ _
        (λ h. Sends-pure P done)
        (λ h.
          Sends-if P (ltb rack_size old) _ _
            (λ g.
              Sends-scale_down env name old rack_size target reads reads.migrating refl
                (ground (arith, g)))
            (λ g. Sends-patch P env name target (refl, refl, λ less. absurd (ground (arith, g)))))

  Sends-on_found :
      (found : Lookup)
      → Sends
          (IsAllowed scaled spec name rack_size reads found)
          (on_found scaled spec env name storage desired found rack_size reads)
  unfolding on_found create
  Sends-on_found absent =
      Sends-bind _ (send env (create_stateful_set name rack_size)) _
        (Sends-send (λ r. r ≡ create_stateful_set name rack_size) env
          (create_stateful_set name rack_size) refl)
        (λ reply. Sends-pure _ (if is_ok reply then done else failed))
  Sends-on_found unreadable = Sends-pure _ failed
  Sends-on_found (present sts) =
      Sends-bind (IsAllowed scaled spec name rack_size reads (present sts))
        (reclaim_orphaned_rack_pvcs env (some sts.observed) rack_size storage reads.pods_before
          reads.claims)
        _
        (Sends-reclaim_orphaned_rack_pvcs (IsAllowed scaled spec name rack_size reads (present sts))
          env (λ c. tt) (some sts.observed) rack_size storage reads.pods_before reads.claims)
        (λ reclaimed. Sends-update sts)

  -- A pass over a rack sends a lower replica count only where the migration check has answered that
  -- no data is migrating and as many pods as are to remain are ready among those below the new count;
  -- the count sent is the next one of the batch. A phase is set only while data is migrating, and a
  -- StatefulSet is created only where there is none; besides, only claims are deleted.
  pub reconcile_stateful_set-IsAllowed :
      Sends
        (IsAllowed scaled spec name rack_size reads reads.found)
        (reconcile_stateful_set scaled spec env name storage desired rack_size reads)
  unfolding reconcile_stateful_set
  reconcile_stateful_set-IsAllowed = Sends-on_found reads.found
