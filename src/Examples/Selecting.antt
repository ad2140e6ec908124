-- ===== src/Examples/Selecting.antt =====
-- The sizes and the selection at concrete inputs.
use aerospike_ce_kubernetes.Prelude.{
  ◌≤◌, ◌+◌, true, ◌≡◌, ◌↔◌, none, [], All, any, all, ◌&&◌, filter, length,
}
use aerospike_ce_kubernetes.Prelude.Int.{pos, pos_part}
use aerospike_ce_kubernetes.Restart.Sizes.{get_max_ignorable_pods, rack_setting}
use aerospike_ce_kubernetes.Restart.Sizes.Laws.{get_max_ignorable_pods_iff, allows_ignoring}
use aerospike_ce_kubernetes.Restart.Selection.{select_pods_to_restart}
use aerospike_ce_kubernetes.Restart.Selection.Laws.{
  is_due, is_adoptable, select_pods_to_restart_sound, select_pods_to_restart_complete,
  select_pods_to_restart_strict,
}
use aerospike_ce_kubernetes.Restart.InFlight.{
  restart_in_flight_reason, restart_in_flight_reason_iff, is_settled, has_all_pods,
}
use aerospike_ce_kubernetes.Pod.Hashes.{compare_pod_hashes}
use aerospike_ce_kubernetes.Examples.Fixtures.{
  nothing-FitsInt32, rounded_up, spec, desired, pods, target,
}

get_max_ignorable_pods_iff_example :
    (1 ≤ pos_part (get_max_ignorable_pods rounded_up spec 3))
    ↔ (allows_ignoring rounded_up (rack_setting (λ rc. rc.max_ignorable_pods) spec) ≡ true)
get_max_ignorable_pods_iff_example = get_max_ignorable_pods_iff rounded_up spec 3 nothing-FitsInt32

select_pods_to_restart_sound_example :
    let s = select_pods_to_restart 0 [] desired (pos 1) pods in
    All (λ p. is_due 0 [] desired p ≡ true) s.restart
    × All (λ p. is_adoptable desired p ≡ true) s.adopted
    × (s.config_changed ≡ any (λ p. (compare_pod_hashes p desired).config_mismatch) s.restart)
select_pods_to_restart_sound_example = select_pods_to_restart_sound 0 [] desired (pos 1) pods

select_pods_to_restart_complete_example :
    length (filter (is_due 0 [] desired) pods)
    ≤ length (select_pods_to_restart 0 [] desired (pos 1) pods).restart + pos_part (pos 1)
select_pods_to_restart_complete_example = select_pods_to_restart_complete 0 [] desired (pos 1) pods

select_pods_to_restart_strict_example :
    (select_pods_to_restart 0 [] desired (pos 0) pods).restart ≡ filter (is_due 0 [] desired) pods
select_pods_to_restart_strict_example = select_pods_to_restart_strict 0 [] desired pods

restart_in_flight_reason_iff_example :
    (restart_in_flight_reason pods target ≡ none)
    ↔ ((all (is_settled target) pods && has_all_pods target pods) ≡ true)
restart_in_flight_reason_iff_example = restart_in_flight_reason_iff pods target
