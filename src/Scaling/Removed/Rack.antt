-- ===== src/Scaling/Removed/Rack.antt =====
-- What the teardown of one removed rack may ask of the API server.
use aerospike_ce_kubernetes.Prelude.{
  ℕ, ◌≤◌, ◌≡◌, refl, String, Bool, true, false, not, Option, none, some, List, [], ◌∷◌, length,
  filter, leb, if◌then◌else◌, arith,
}
use aerospike_ce_kubernetes.Prelude.Int.{ℤ}
use aerospike_ce_kubernetes.Cluster.{Spec}
use aerospike_ce_kubernetes.Env.{
  Env, Request, Reply, Action, Log, send, pure, patch_stateful_set, delete_stateful_set,
  delete_config_map, quiesce_node,
}
use aerospike_ce_kubernetes.Env.Sends.{
  Sends, Sends-pure, Sends-send, Sends-bind, Sends-if, Sends-bind_known,
}
use aerospike_ce_kubernetes.Scaling.Removed.Listed.{IsAllowedFor, IsSafeDrain}
use aerospike_ce_kubernetes.Storage.{StorageSpec}
use aerospike_ce_kubernetes.Pod.{Pod, is_pod_ready}
use aerospike_ce_kubernetes.Scaling.{
  PassResult, done, deferred, failed, stateful_set_replicas, remains_ready,
  check_scale_down_readiness, below, pod_ordinal, codes,
}
use aerospike_ce_kubernetes.Scaling.Removed.{
  RemovedRack, RackReads, name_of, needs_drain, drain_target, quiesce_from, quiesce_and_patch,
  drain_if_ready, drain_removed_rack, clean_up, delete_set, after_drain, tear_down, next, hold,
  stop, after_drain_patch, delete_cascade_delete_pvcs,
}
use aerospike_ce_kubernetes.Claims.Deletion.Sends.{Sends-delete_cascade_delete_pvcs, get_pvcs_owned}
use aerospike_ce_kubernetes.Restart.PodRestart.{quiesce_node_before_deletion, gone}

module _ (scaled : String → ℕ → Option ℤ) (spec : Spec) (storage : Option StorageSpec) (env : Env)
    (reads : RackReads) (migrating : Option Bool) (rr : RemovedRack) where
  abbrev Allowed : Request → Type 0
  Allowed = IsAllowedFor scaled spec storage reads migrating rr

  Sends-quiesce_from :
      (target : ℕ) (pods : List Pod)
      → migrating ≡ some false
      → Sends Allowed (quiesce_from env target pods)
  unfolding quiesce_from quiesce_node_before_deletion
  Sends-quiesce_from target [] m = Sends-pure Allowed tt
  Sends-quiesce_from target (pod ∷ rest) m =
      let later = Sends-quiesce_from target rest m in
      Sends-if Allowed (below (pod_ordinal (codes pod.name)) target) _ _ (λ h. later)
        (λ h.
          Sends-bind Allowed (quiesce_node_before_deletion env pod)
            (λ u. quiesce_from env target rest)
            (Sends-if Allowed (not (is_pod_ready pod)) _ _ (λ g. Sends-pure Allowed tt)
              (λ g.
                Sends-bind Allowed (send env (quiesce_node pod.name)) _
                  (Sends-send Allowed env (quiesce_node pod.name) m)
                  (λ reply. Sends-pure Allowed tt)))
            (λ u. later))

  abbrev target : ℕ
  target = drain_target scaled spec (stateful_set_replicas (some rr.sts))

  Sends-quiesce_and_patch :
      (pods : Option (List Pod))
      → IsSafeDrain rr reads migrating target
      → Sends Allowed (quiesce_and_patch scaled spec env reads rr.sts target pods)
  unfolding quiesce_and_patch
  Sends-quiesce_and_patch none safe = Sends-pure Allowed deferred
  Sends-quiesce_and_patch (some pods) safe =
      Sends-bind Allowed (quiesce_from env target pods) _
        (Sends-quiesce_from target pods safe.settled)
        (λ u.
          Sends-bind Allowed (send env (patch_stateful_set (name_of rr.sts) target false)) _
            (Sends-send Allowed env (patch_stateful_set (name_of rr.sts) target false)
              (refl, refl, safe))
            (λ reply. Sends-pure Allowed (after_drain_patch reply)))

  Sends-drain_gate :
      (unready : Option Bool)
      → (unready ≡ some false → IsSafeDrain rr reads migrating target)
      → Sends Allowed (drain_if_ready scaled spec env reads rr.sts rr.rack_id target unready)
  unfolding drain_if_ready
  Sends-drain_gate none safe = Sends-pure Allowed failed
  Sends-drain_gate (some true) safe = Sends-pure Allowed deferred
  Sends-drain_gate (some false) safe =
      Sends-quiesce_and_patch (reads.pods_quiesced rr.rack_id) (safe refl)

  ready_pods :
      (pods : Option (List Pod))
      → check_scale_down_readiness target pods ≡ some false
      → (l : List Pod) × (pods ≡ some l) × (target ≤ length (filter (remains_ready target) l))
  unfolding check_scale_down_readiness
  ready_pods none h = absurd (ground arith)
  ready_pods (some l) h = (l, refl, ground arith)

  Sends-drain_removed_rack :
      needs_drain rr.sts ≡ true
      → migrating ≡ some false
      → Sends Allowed (drain_removed_rack scaled spec env reads rr.sts rr.rack_id)
  unfolding drain_removed_rack needs_drain
  Sends-drain_removed_rack n m =
      Sends-if Allowed (leb (stateful_set_replicas (some rr.sts)) 0) _ _
        (λ h. Sends-pure Allowed done)
        (λ h.
          Sends-drain_gate (check_scale_down_readiness target (reads.pods_ready rr.rack_id)) (λ r.
            let (l, e, enough) = ready_pods (reads.pods_ready rr.rack_id) r in
            record {
              settled = m;
              live = ground (arith, n);
              running = ground (arith, n);
              pods = l;
              pods_listed = e;
              ready = enough;
            }))

  -- A rack that still has replicas is not drained in this pass.
  after_drain_patch_not_done : (reply : Reply) → after_drain_patch reply ≡ done → ⊥
  after_drain_patch_not_done Reply.ok h = ground arith
  after_drain_patch_not_done Reply.other h = ground arith
  after_drain_patch_not_done Reply.not_found h = ground arith
  after_drain_patch_not_done Reply.conflict h = ground arith
  after_drain_patch_not_done Reply.failure h = ground arith

  quiesce_and_patch_not_done :
      (pods : Option (List Pod)) (log : Log)
      → (quiesce_and_patch scaled spec env reads rr.sts target pods log).0 ≡ done
      → ⊥
  unfolding quiesce_and_patch
  quiesce_and_patch_not_done none log h = ground arith
  quiesce_and_patch_not_done (some pods) log h = after_drain_patch_not_done _ h

  drain_gate_not_done :
      (unready : Option Bool) (log : Log)
      → (drain_if_ready scaled spec env reads rr.sts rr.rack_id target unready log).0 ≡ done
      → ⊥
  unfolding drain_if_ready
  drain_gate_not_done none log h = ground arith
  drain_gate_not_done (some true) log h = ground arith
  drain_gate_not_done (some false) log h =
      quiesce_and_patch_not_done (reads.pods_quiesced rr.rack_id) log h

  else_not_done :
      (b : Bool) (m : Action PassResult) (log : Log)
      → b ≡ false
      → ((m log).0 ≡ done → ⊥)
      → ((if b then pure done else m) log).0 ≡ done
      → ⊥
  else_not_done true m log e h g = ground arith
  else_not_done false m log e h g = h g

  drain_not_done :
      needs_drain rr.sts ≡ true
      → (log : Log) → (drain_removed_rack scaled spec env reads rr.sts rr.rack_id log).0 ≡ done
      → ⊥
  unfolding drain_removed_rack needs_drain
  drain_not_done n log h =
      else_not_done (leb (stateful_set_replicas (some rr.sts)) 0) _ log (ground (arith, n))
        (drain_gate_not_done (check_scale_down_readiness target (reads.pods_ready rr.rack_id)) log)
        h

  Sends-clean_up :
      (left : Option (List Pod))
      → reads.pods_left rr.rack_id ≡ left
      → Sends Allowed (clean_up scaled spec storage env reads rr left)
  unfolding clean_up
  Sends-clean_up none e = Sends-pure Allowed next
  Sends-clean_up (some (p ∷ ps)) e = Sends-pure Allowed next
  Sends-clean_up (some []) e =
      Sends-bind Allowed
        (delete_cascade_delete_pvcs env (reads.claims (name_of rr.sts)) (name_of rr.sts) storage) _
        (Sends-delete_cascade_delete_pvcs Allowed env (reads.claims (name_of rr.sts))
          (name_of rr.sts) storage
          (λ claims claim l m v. record {
            no_pods = e;
            listed_claims = claims;
            claims_listed = l;
            claim = claim;
            among = m;
            named = refl;
            owned =
                get_pvcs_owned (reads.claims (name_of rr.sts)) (name_of rr.sts) claims claim l m;
            cascades = v;
          }))
        (λ r.
          Sends-if Allowed (reads.has_config_map rr.rack_id) _ _
            (λ h.
              Sends-bind Allowed (send env (delete_config_map rr.rack_id)) _
                (Sends-send Allowed env (delete_config_map rr.rack_id) (refl, e))
                (λ reply. Sends-pure Allowed next))
            (λ h. Sends-pure Allowed next))

  Sends-delete_set :
      needs_drain rr.sts ≡ false → Sends Allowed (delete_set scaled spec storage env reads rr)
  unfolding delete_set needs_drain
  Sends-delete_set n =
      let cleaned = Sends-clean_up (reads.pods_left rr.rack_id) refl in
      Sends-if Allowed rr.sts.deleting _ _ (λ h. cleaned)
        (λ h.
          Sends-bind Allowed (send env (delete_stateful_set (name_of rr.sts))) _
            (Sends-send Allowed env (delete_stateful_set (name_of rr.sts))
              (refl, h, ground (arith, n, h)))
            (λ reply.
              Sends-if Allowed (gone reply) _ _ (λ g. cleaned) (λ g. Sends-pure Allowed stop)))

  Sends-after_drain :
      (result : PassResult)
      → (result ≡ done → ⊥)
      → Sends Allowed (after_drain scaled spec storage env reads rr result)
  Sends-after_drain done h = absurd (h refl)
  Sends-after_drain deferred h = Sends-pure Allowed hold
  Sends-after_drain failed h = Sends-pure Allowed stop

  -- Unless the teardown is blocked, a rack is only torn down where no data is migrating, if it has any
  -- replicas left.
  pub Sends-tear_down :
      (blocked : Bool)
      → (blocked ≡ false → needs_drain rr.sts ≡ true → migrating ≡ some false)
      → Sends Allowed (tear_down scaled spec storage env reads blocked rr)
  unfolding tear_down
  Sends-tear_down blocked settled =
      Sends-if Allowed (needs_drain rr.sts) _ _
        (λ n.
          Sends-if Allowed blocked _ _ (λ b. Sends-pure Allowed hold)
            (λ b.
              Sends-bind_known Allowed (λ r. r ≡ done → ⊥)
                (drain_removed_rack scaled spec env reads rr.sts rr.rack_id) _
                (Sends-drain_removed_rack n (settled b n)) (drain_not_done n) Sends-after_drain))
        Sends-delete_set
