-- ===== src/Examples/Accessing.antt =====
-- The theorems on access control, migration and the merge of configurations at concrete inputs.
use aerospike_ce_kubernetes.Prelude.{
  ℕ, ◌≡◌, refl, ◌↔◌, String, Bool, true, false, Option, none, some, List, [], ◌∷◌, All, not, ◌++◌,
  filter,
}
use aerospike_ce_kubernetes.Text.{codes}
use aerospike_ce_kubernetes.Env.{Log, Request, Reply, ok, send, grant_privileges, revoke_privileges}
use aerospike_ce_kubernetes.Env.Sends.{Sends}
use aerospike_ce_kubernetes.Privilege.{Privilege, privilege, privilege_key}
use aerospike_ce_kubernetes.Access.{AccessControl, has_key, missing_privileges}
use aerospike_ce_kubernetes.Access.Converge.{has_key-append, has_key-filter}
use aerospike_ce_kubernetes.Access.Converge.Server.{RoleOnServer, sync_role_privileges-held}
use aerospike_ce_kubernetes.Access.Sync.{sync_role_privileges, reconcile_roles, reconcile_users}
use aerospike_ce_kubernetes.Access.Sync.Commands.{IsHonestOver}
use aerospike_ce_kubernetes.Access.Sync.Errors.{reconcile_roles_and_users-IsHonest}
use aerospike_ce_kubernetes.Access.Sync.Roles.{IsAllowedOnRoles, reconcile_roles-IsAllowedOnRoles}
use aerospike_ce_kubernetes.Access.Sync.Users.{IsAllowedOnUsers, reconcile_users-IsAllowedOnUsers}
use aerospike_ce_kubernetes.Migration.{Node, is_migration_in_progress}
use aerospike_ce_kubernetes.Migration.Safety.{IsConfirmed, is_migration_in_progress_iff}
use aerospike_ce_kubernetes.ConfigDiff.Values.{Value, num, obj, Fields, end, field}
use aerospike_ce_kubernetes.ConfigMerge.{deep_merge}
use aerospike_ce_kubernetes.ConfigMerge.Paths.{
  DistinctKeys, IsTree, at, is_object, misses, deep_merge_lem,
}
use aerospike_ce_kubernetes.Examples.Fixtures.{env}

-- A role "app" that may read and write, and an admin "ops".
abbrev acl : AccessControl
acl = record {
  roles = record { name = "app"; privileges = codes "read-write.test" ∷ [] } ∷ [];
  users =
      record { name = "ops"; secret_name = "ops"; roles = "sys-admin" ∷ "user-admin" ∷ [] }
      ∷ record { name = "web"; secret_name = "web"; roles = "app" ∷ [] }
      ∷ [];
}

abbrev read : Privilege
read = privilege (codes "read") (codes "test") []

abbrev read_write : Privilege
read_write = privilege (codes "read-write") (codes "test") []

-- The server has the role with another privilege, a role too many and a predefined one.
abbrev roles : List (String × List Privilege)
roles = ("app", read ∷ []) ∷ ("old", []) ∷ ("read", []) ∷ []

abbrev users : List (String × List String)
users = ("admin", "sys-admin" ∷ []) ∷ ("web", []) ∷ ("gone", []) ∷ []

abbrev has_password : String → Bool
has_password secret = true

reconcile_roles-IsAllowedOnRoles_example :
    Sends (IsAllowedOnRoles acl roles) (reconcile_roles env acl (some roles))
reconcile_roles-IsAllowedOnRoles_example = reconcile_roles-IsAllowedOnRoles env acl roles

reconcile_users-IsAllowedOnUsers_example :
    Sends (IsAllowedOnUsers acl none users) (reconcile_users env acl none has_password (some users))
reconcile_users-IsAllowedOnUsers_example =
    reconcile_users-IsAllowedOnUsers env acl none users has_password

reconcile_roles_and_users-IsHonest_example :
    IsHonestOver (some roles) (reconcile_roles env acl (some roles))
    × IsHonestOver (some users) (reconcile_users env acl none has_password (some users))
reconcile_roles_and_users-IsHonest_example =
    reconcile_roles_and_users-IsHonest env acl none has_password (some roles) (some users)

app_synced : (sync_role_privileges env "app" (read ∷ []) (read_write ∷ []) []).0 ≡ none
unfolding sync_role_privileges missing_privileges send
app_synced = refl

-- A server that has "read" for the role at first, and keeps what is granted and not revoked.
abbrev applied : Request → Reply → List Privilege → List Privilege
applied (grant_privileges n ps) ok held = held ++ ps
applied (revoke_privileges n ps) ok held = filter (λ p. not (has_key (privilege_key p) ps)) held
applied _ _ held = held

abbrev held_after : Log → List Privilege
held_after [] = read ∷ []
held_after (x ∷ log) = applied x.request x.reply (held_after log)

abbrev server : RoleOnServer "app"
server = record {
  held = held_after;
  granted = λ log ps key. has_key-append key (held_after log) ps;
  revoked = λ log ps key. has_key-filter key (λ k. not (has_key k ps)) (held_after log);
}

sync_role_privileges-held_example :
    has_key
      (privilege_key read_write)
      (held_after (sync_role_privileges env "app" (read ∷ []) (read_write ∷ []) []).1)
    ≡ has_key (privilege_key read_write) (read_write ∷ [])
sync_role_privileges-held_example =
    sync_role_privileges-held env "app" server (read ∷ []) (read_write ∷ [])
      (privilege_key read_write) [] refl app_synced

-- A node that is settled, and one that is nil.
abbrev node : Node
node = record {
  host = some "10.0.0.1";
  request_info = λ cmd. some (("statistics", "uptime=9;migrate_partitions_remaining=0") ∷ []);
}

is_migration_in_progress_iff_example :
    (is_migration_in_progress (some (some node ∷ none ∷ [])) ≡ some false) ↔ (
      (start : Option Node) × (nodes : List (Option Node)) × (some (some node ∷ none ∷ [])
        ≡ some (start ∷ nodes))
      × All IsConfirmed (start ∷ nodes))
is_migration_in_progress_iff_example = is_migration_in_progress_iff (some (some node ∷ none ∷ []))

-- The override changes one parameter of the service and leaves the other.
abbrev base : Fields ℕ
base = field "service" (obj (field "proto-fd-max" (num 1) (field "ticks" (num 2) end))) end

abbrev override : Fields ℕ
override = field "service" (obj (field "proto-fd-max" (num 5) end)) end

override-IsTree : IsTree (obj override)
unfolding IsTree DistinctKeys
override-IsTree = ((refl, tt), (((refl, tt), (tt, tt)), tt))

deep_merge_lem_example :
    ((v : Value ℕ)
      → is_object v ≡ false
      → at ("service" ∷ "ticks" ∷ []) (obj override) ≡ some v
      → at ("service" ∷ "ticks" ∷ []) (obj (deep_merge base override)) ≡ some v)
    × (misses ("service" ∷ "ticks" ∷ []) (obj override) ≡ true
        → at ("service" ∷ "ticks" ∷ []) (obj (deep_merge base override))
          ≡ at ("service" ∷ "ticks" ∷ []) (obj base))
deep_merge_lem_example = deep_merge_lem base override ("service" ∷ "ticks" ∷ []) override-IsTree
