-- ===== src/Restart/Selection/Laws.antt =====
-- The selection is sound, complete up to the limit on ignored pods, and consistent.
use aerospike_ce_kubernetes.Prelude.{
  ℕ, ◌+◌, ◌≤◌, suc, ◌-◌, String, ◌≡◌, Bool, true, not, ◌&&◌, List, [], ◌∷◌, arith, filter, length,
  any, All, refl,
}
use aerospike_ce_kubernetes.Prelude.Int.{ℤ, pos, pos_part}
use aerospike_ce_kubernetes.Cluster.{PodStatus}
use aerospike_ce_kubernetes.Pod.{Pod}
use aerospike_ce_kubernetes.Pod.Hashes.{
  Hashes, compare_pod_hashes, is_stale, stale_of_config_mismatch,
}
use aerospike_ce_kubernetes.Restart.Selection.{is_stuck, scan, select_pods_to_restart}

-- A pod that must be restarted if it is not ignored.
abbrev pub is_due : ℕ → List (String × PodStatus) → Hashes → Pod → Bool
is_due now statuses desired pod = is_stale desired pod && not (is_stuck now statuses pod)

-- A pod that is stamped with the storage hash instead.
abbrev pub is_adoptable : Hashes → Pod → Bool
is_adoptable desired pod =
    not (is_stale desired pod) && (compare_pod_hashes pod desired).storage_unknown

module _ (now : ℕ) (statuses : List (String × PodStatus)) (desired : Hashes)
    (max_ignorable : ℤ) where
  scan_sound :
      (ignored : ℕ) (pods : List Pod)
      → let s = scan now statuses desired max_ignorable ignored pods in
        All (λ p. is_due now statuses desired p ≡ true) s.restart
        × All (λ p. is_adoptable desired p ≡ true) s.adopted
  unfolding scan
  scan_sound ignored [] = (tt, tt)
  scan_sound ignored (pod ∷ rest) =
      ground (arith, scan_sound ignored rest, scan_sound (suc ignored) rest)

  scan-config_changed :
      (ignored : ℕ) (pods : List Pod)
      → let s = scan now statuses desired max_ignorable ignored pods in
        s.config_changed ≡ any (λ p. (compare_pod_hashes p desired).config_mismatch) s.restart
  unfolding scan
  scan-config_changed ignored [] = refl
  scan-config_changed ignored (pod ∷ rest) = ground (
    arith,
    scan-config_changed ignored rest,
    scan-config_changed (suc ignored) rest,
    stale_of_config_mismatch pod desired,
  )

  -- At most as many due pods are left out as the limit still allows.
  scan_complete :
      (ignored : ℕ) (pods : List Pod)
      → length (filter (is_due now statuses desired) pods)
        ≤ length (scan now statuses desired max_ignorable ignored pods).restart
          + (pos_part max_ignorable - ignored)
  unfolding scan
  scan_complete ignored [] = omega arith
  scan_complete ignored (pod ∷ rest) =
      ground (arith, scan_complete ignored rest, scan_complete (suc ignored) rest)

  -- Every pod selected for a restart is stale and not stuck; every pod that is stamped instead is
  -- not stale and carries no storage hash where the template has one; and a config change is
  -- reported exactly if some selected pod's config hash differs from the template's.
  pub select_pods_to_restart_sound :
      (pods : List Pod)
      → let s = select_pods_to_restart now statuses desired max_ignorable pods in
        All (λ p. is_due now statuses desired p ≡ true) s.restart
        × All (λ p. is_adoptable desired p ≡ true) s.adopted
        × (s.config_changed ≡ any (λ p. (compare_pod_hashes p desired).config_mismatch) s.restart)
  unfolding select_pods_to_restart
  select_pods_to_restart_sound pods =
      let (due, adoptable) = scan_sound 0 pods in (due, adoptable, scan-config_changed 0 pods)

  -- Of the pods that are stale and not stuck, at most as many are left out of the restart as the
  -- limit on ignored pods allows, a negative limit allowing none.
  pub select_pods_to_restart_complete :
      (pods : List Pod)
      → length (filter (is_due now statuses desired) pods)
        ≤ length (select_pods_to_restart now statuses desired max_ignorable pods).restart
          + pos_part max_ignorable
  unfolding select_pods_to_restart
  select_pods_to_restart_complete pods = omega (arith, scan_complete 0 pods)

module _ (now : ℕ) (statuses : List (String × PodStatus)) (desired : Hashes) where
  scan_strict :
      (ignored : ℕ) (pods : List Pod)
      → (scan now statuses desired (pos 0) ignored pods).restart
        ≡ filter (is_due now statuses desired) pods
  unfolding scan
  scan_strict ignored [] = refl
  scan_strict ignored (pod ∷ rest) =
      ground (arith, scan_strict ignored rest, scan_strict (suc ignored) rest)

  -- Under the default limit of 0 the selection is exactly the pods that are stale and not stuck,
  -- in the order of the rack's pods.
  pub select_pods_to_restart_strict :
      (pods : List Pod)
      → (select_pods_to_restart now statuses desired (pos 0) pods).restart
        ≡ filter (is_due now statuses desired) pods
  unfolding select_pods_to_restart
  select_pods_to_restart_strict pods = scan_strict 0 pods
