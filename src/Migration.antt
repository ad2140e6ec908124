-- ===== src/Migration.antt =====
-- Whether data is migrating, from the nodes' statistics: internal/controller/aero_info.go. A node
-- answers each info command with a map or an error, which the nodes give as functions.
pub mod Statistics
pub mod Safety
use aerospike_ce_kubernetes.Prelude.{
  ℕ, String, Bool, true, false, Option, none, some, List, [], ◌∷◌, ◌^◌, ◌+◌, length, lookup, insert,
  str_eq, if◌then◌else◌, leb, ltb, ◌==◌,
}
use aerospike_ce_kubernetes.Prelude.Int.{ℤ, pos, negsuc}
use aerospike_ce_kubernetes.Text.{codes, parse_int, atoi, same_text}
use aerospike_ce_kubernetes.Text.Fields.{split_on, cut, trim_space}

-- A node of the client: its host, and `RequestInfo` with its error as `none`.
pub record Node : Type 0 where
  pub host : Option String
  pub request_info : String → Option (List (String × String))

unfoldable pub asinfo_command_on_node : Node → String → Option String
asinfo_command_on_node node cmd = elim (node.request_info cmd) [
  | none ↦ none
  | some result ↦ lookup cmd result
]

-- A nil node of the client is `none`.
unfoldable pub asinfo_command : List (Option Node) → String → Option String
unfolding asinfo_command_on_node
asinfo_command [] cmd = none
asinfo_command (none ∷ nodes) cmd = none
asinfo_command (some node ∷ nodes) cmd = asinfo_command_on_node node cmd

-- The value of a pair with that key, with whether the search ends here.
unfoldable pub stat_of_pair : String → List ℕ → Option (List ℕ)
unfolding trim_space same_text
stat_of_pair key pair = elim (cut b'=' pair) [
  | none ↦ none
  | some (k, v) ↦ if same_text (trim_space k) (codes key) then some (trim_space v) else none
]

-- The value of the first pair with that key.
unfoldable pub find_stat : String → List (List ℕ) → Option (List ℕ)
unfolding stat_of_pair
find_stat key [] = none
find_stat key (pair ∷ pairs) = elim (stat_of_pair key pair) [
  | none ↦ find_stat key pairs
  | some v ↦ some v
]

abbrev pub integer_in : Option (List ℕ) → Option ℤ
integer_in none = none
integer_in (some v) = parse_int (2 ^ 63) v

-- `none` is the source's false.
unfoldable pub parse_migrate_stat : List ℕ → String → Option ℤ
unfolding find_stat
parse_migrate_stat stats key = integer_in (find_stat key (split_on b';' stats))

abbrev pub migrate_partitions_remaining : String
migrate_partitions_remaining = "migrate_partitions_remaining"

abbrev pub is_positive : ℤ → Bool
is_positive (pos n) = ltb 0 n
is_positive (negsuc n) = false

-- The value that the node's statistics give, `none` where the command fails or the value cannot be
-- parsed.
unfoldable pub confirmed_remaining : Node → Option ℤ
unfolding parse_migrate_stat asinfo_command_on_node
confirmed_remaining node = elim (asinfo_command_on_node node "statistics") [
  | none ↦ none
  | some stats ↦ parse_migrate_stat (codes stats) migrate_partitions_remaining
]

-- (true, err), (true, nil) and (false, nil) of the source; `unreachable` is (false, err).
pub data Migrating : Type 0 where
  unreachable unknown migrating stable : Migrating

verdict_of : Option ℤ → Migrating → Migrating
verdict_of none later = unknown
verdict_of (some n) later = if is_positive n then migrating else later

check_nodes : List (Option Node) → Migrating
unfolding verdict_of confirmed_remaining
check_nodes [] = stable
check_nodes (none ∷ nodes) = check_nodes nodes
check_nodes (some node ∷ nodes) = verdict_of (confirmed_remaining node) (check_nodes nodes)

unfoldable pub is_migrating_on_any_node : List (Option Node) → Migrating
unfolding check_nodes
is_migrating_on_any_node [] = unreachable
is_migrating_on_any_node (node ∷ nodes) = check_nodes (node ∷ nodes)

-- What `isMigrationInProgress` returns to a caller that reads it as an error or an answer; the client
-- is `none` where it cannot be had.
unfoldable pub is_migration_in_progress : Option (List (Option Node)) → Option Bool
unfolding is_migrating_on_any_node
is_migration_in_progress none = none
is_migration_in_progress (some nodes) = elim (is_migrating_on_any_node nodes) [
  | unreachable ↦ none
  | unknown ↦ none
  | migrating ↦ some true
  | stable ↦ some false
]

abbrev pub migrate_uncertain_sentinel : ℤ
migrate_uncertain_sentinel = pos 1

abbrev or_sentinel : Option ℤ → ℤ × Bool
or_sentinel none = (migrate_uncertain_sentinel, false)
or_sentinel (some n) = (n, true)

-- The value to record, and whether it is confirmed; the statistics are `none` on an error.
unfoldable pub migrate_remaining_for_node : Option String → ℤ × Bool
unfolding parse_migrate_stat
migrate_remaining_for_node none = (migrate_uncertain_sentinel, false)
migrate_remaining_for_node (some stats) =
    or_sentinel (parse_migrate_stat (codes stats) migrate_partitions_remaining)

-- The map by host, and how many nodes had none.
record_nodes : List (Option Node) → List (String × ℤ) → ℕ → List (String × ℤ) × ℕ
unfolding migrate_remaining_for_node asinfo_command_on_node
record_nodes [] result dropped = (result, dropped)
record_nodes (none ∷ nodes) result dropped = record_nodes nodes result dropped
record_nodes (some node ∷ nodes) result dropped =
    let remaining = (migrate_remaining_for_node (asinfo_command_on_node node "statistics")).0 in
    elim node.host [
      | none ↦ record_nodes nodes result (dropped + 1)
      | some host ↦ record_nodes nodes (insert host remaining result) dropped
    ]

abbrev unless_all_dropped : List (String × ℤ) × ℕ → Option (List (String × ℤ))
unless_all_dropped ([], dropped) = if ltb 0 dropped then none else some []
unless_all_dropped (entry ∷ rest, dropped) = some (entry ∷ rest)

unfoldable pub migrate_stats_per_node : List (Option Node) → Option (List (String × ℤ))
unfolding record_nodes
migrate_stats_per_node [] = none
migrate_stats_per_node (node ∷ nodes) = unless_all_dropped (record_nodes (node ∷ nodes) [] 0)

-- `none` is the error.
unfoldable pub cluster_size : List (Option Node) → Option ℤ
unfolding asinfo_command trim_space atoi
cluster_size nodes = elim (asinfo_command nodes "cluster-size") [
  | none ↦ none
  | some result ↦ atoi (trim_space (codes result))
]
