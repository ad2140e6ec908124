-- ===== src/Migration/Safety.antt =====
-- Data is only reported as settled where every node has confirmed it.
use aerospike_ce_kubernetes.Prelude.{
  ◌≡◌, refl, false, ◌↔◌, Option, none, some, List, [], ◌∷◌, All, arith, ap, ◌∙◌,
}
use aerospike_ce_kubernetes.Prelude.Int.{ℤ}
use aerospike_ce_kubernetes.Migration.{
  Node, Migrating, stable, confirmed_remaining, is_positive, verdict_of, check_nodes,
  is_migrating_on_any_node, is_migration_in_progress,
}

-- The node is nil, or has confirmed that no partition remains.
abbrev pub IsConfirmed : Option Node → Type 0
IsConfirmed none = Unit
IsConfirmed (some node) = (n : ℤ) × (confirmed_remaining node ≡ some n) × (is_positive n ≡ false)

verdict_of_stable :
    (o : Option ℤ) (later : Migrating)
    → verdict_of o later ≡ stable
    → (n : ℤ) × (o ≡ some n) × (is_positive n ≡ false) × (later ≡ stable)
unfolding verdict_of
verdict_of_stable none later h = absurd (ground arith)
verdict_of_stable (some n) later h = (n, refl, ground (arith, h), ground (arith, h))

check_nodes_stable :
    (nodes : List (Option Node)) → check_nodes nodes ≡ stable → All IsConfirmed nodes
unfolding check_nodes
check_nodes_stable [] h = tt
check_nodes_stable (none ∷ nodes) h = (tt, check_nodes_stable nodes h)
check_nodes_stable (some node ∷ nodes) h =
    let (n, e, p, rest) = verdict_of_stable (confirmed_remaining node) (check_nodes nodes) h in
    ((n, e, p), check_nodes_stable nodes rest)

stable-check_nodes :
    (nodes : List (Option Node)) → All IsConfirmed nodes → check_nodes nodes ≡ stable
unfolding check_nodes verdict_of
stable-check_nodes [] h = refl
stable-check_nodes (none ∷ nodes) h = stable-check_nodes nodes h.1
stable-check_nodes (some node ∷ nodes) ((n, e, p), h) = rw (e, p) (stable-check_nodes nodes h)

answer_stable :
    (start : Option Node) (nodes : List (Option Node))
    → is_migration_in_progress (some (start ∷ nodes)) ≡ some false
    → check_nodes (start ∷ nodes) ≡ stable
unfolding is_migration_in_progress is_migrating_on_any_node
answer_stable start nodes h = ground (arith, h)

settled_answer :
    (client : Option (List (Option Node))) (start : Option Node) (nodes : List (Option Node))
    → client ≡ some (start ∷ nodes)
    → All IsConfirmed (start ∷ nodes)
    → is_migration_in_progress client ≡ some false
unfolding is_migration_in_progress is_migrating_on_any_node
settled_answer client start nodes e h =
    let settled = stable-check_nodes (start ∷ nodes) h in
    ap is_migration_in_progress e ∙ ground (arith, settled)

settled_nodes :
    (client : Option (List (Option Node)))
    → is_migration_in_progress client ≡ some false
    → (start : Option Node) × (nodes : List (Option Node)) × (client ≡ some (start ∷ nodes))
      × All IsConfirmed (start ∷ nodes)
unfolding is_migration_in_progress is_migrating_on_any_node
settled_nodes none h = absurd (ground arith)
settled_nodes (some []) h = absurd (ground arith)
settled_nodes (some (start ∷ nodes)) h =
    (start, nodes, refl, check_nodes_stable (start ∷ nodes) (answer_stable start nodes h))

-- The migration check answers that no data is migrating exactly where the client has a node and every
-- node that is not nil answers its statistics with a count of remaining partitions that is not
-- positive; a node that fails, or whose count is missing or no integer, never passes for settled.
pub is_migration_in_progress_iff :
    (client : Option (List (Option Node)))
    → (is_migration_in_progress client ≡ some false) ↔ (
        (start : Option Node) × (nodes : List (Option Node)) × (client ≡ some (start ∷ nodes))
        × All IsConfirmed (start ∷ nodes))
is_migration_in_progress_iff client =
    (settled_nodes client, λ (start, nodes, e, h). settled_answer client start nodes e h)
