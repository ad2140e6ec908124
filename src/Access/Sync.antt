-- ===== src/Access/Sync.antt =====
-- The synchronisation of roles and users: `reconcileRoles`, `reconcileUsers`, `syncRolePrivileges`,
-- `syncUserRoles` of internal/controller/reconciler_acl.go.
pub mod Commands
pub mod Roles
pub mod Users
pub mod Errors
use aerospike_ce_kubernetes.Prelude.{
  String, Bool, true, false, not, ◌&&◌, ◌||◌, Option, none, some, List, [], ◌∷◌, contains, lookup,
  str_eq, map, if◌then◌else◌,
}
use aerospike_ce_kubernetes.Env.{
  Env, Action, Reply, pure, send, ◌>>=◌, create_role, grant_privileges, revoke_privileges,
  drop_role, drop_user, create_user, grant_roles, revoke_roles, change_password, Request,
}
use aerospike_ce_kubernetes.Privilege.{Privilege, role_parsed_privileges}
use aerospike_ce_kubernetes.Access.{
  RoleSpec, UserSpec, AccessControl, builtin_roles, find_admin_user, missing_privileges,
  missing_roles, SyncFailure, query_failed, invalid, no_password, Checked, error_of, then_if_ok,
  ◌>>?◌,
}

abbrev pub role_names : List RoleSpec → List String
role_names roles = map (λ r. r.name) roles

abbrev pub user_names : List UserSpec → List String
user_names users = map (λ u. u.name) users

-- A command, and its error.
abbrev pub command : Env → Request → Action Checked
command env r = send env r >>= (λ reply. pure (error_of reply))

module _ (env : Env) where
  abbrev pub grant : String → List Privilege → Action Checked
  grant name [] = pure none
  grant name (p ∷ ps) = command env (grant_privileges name (p ∷ ps))

  abbrev pub revoke : String → List Privilege → Action Checked
  revoke name [] = pure none
  revoke name (p ∷ ps) = command env (revoke_privileges name (p ∷ ps))

  unfoldable pub sync_role_privileges : String → List Privilege → List Privilege → Action Checked
  unfolding missing_privileges
  sync_role_privileges name current desired =
      grant name (missing_privileges desired current)
      >>? revoke name (missing_privileges current desired)

  abbrev give : String → List String → Action Checked
  give name [] = pure none
  give name (r ∷ rs) = command env (grant_roles name (r ∷ rs))

  abbrev take_away : String → List String → Action Checked
  take_away name [] = pure none
  take_away name (r ∷ rs) = command env (revoke_roles name (r ∷ rs))

  unfoldable pub sync_user_roles : String → List String → List String → Action Checked
  unfolding missing_roles
  sync_user_roles name current desired =
      give name (missing_roles desired current) >>? take_away name (missing_roles current desired)

  abbrev sync_parsed : String → Option (List Privilege) → Option (List Privilege) → Action Checked
  sync_parsed name existing none = pure (some invalid)
  sync_parsed name none (some privileges) = command env (create_role name privileges)
  sync_parsed name (some current) (some desired) = sync_role_privileges name current desired

  -- The body of the loop over the roles of the resource.
  sync_role : List (String × List Privilege) → RoleSpec → Action Checked
  unfolding sync_role_privileges role_parsed_privileges
  sync_role existing role =
      sync_parsed role.name (lookup role.name existing) (role_parsed_privileges role.privileges)

  sync_roles : List (String × List Privilege) → List RoleSpec → Action Checked
  unfolding sync_role
  sync_roles existing [] = pure none
  sync_roles existing (role ∷ rest) = sync_role existing role >>? sync_roles existing rest

  drop_roles : List String → List (String × List Privilege) → Action Checked
  drop_roles desired [] = pure none
  drop_roles desired ((name, privileges) ∷ rest) =
      let later = drop_roles desired rest in
      if not (contains name desired) && not (contains name builtin_roles)
      then command env (drop_role name) >>? later
      else later

  -- The existing roles are `none` where the query fails; the server lists a name once.
  unfoldable pub reconcile_roles :
      AccessControl → Option (List (String × List Privilege)) → Action Checked
  unfolding sync_roles drop_roles
  reconcile_roles acl none = pure (some query_failed)
  reconcile_roles acl (some existing) =
      sync_roles existing acl.roles >>? drop_roles (role_names acl.roles) existing

  abbrev sync_existing : UserSpec → Option (List String) → Action Checked
  sync_existing user none = command env (create_user user.name user.roles)
  sync_existing user (some current) =
      sync_user_roles user.name current user.roles >>? command env (change_password user.name)

  -- The body of the loop over the users, with whether the password can be read.
  sync_user : List (String × List String) → UserSpec → Bool → Action Checked
  unfolding sync_user_roles
  sync_user existing user false = pure (some no_password)
  sync_user existing user true = sync_existing user (lookup user.name existing)

  sync_users : (String → Bool) → List (String × List String) → List UserSpec → Action Checked
  unfolding sync_user
  sync_users has_password existing [] = pure none
  sync_users has_password existing (user ∷ rest) =
      sync_user existing user (has_password user.secret_name)
      >>? sync_users has_password existing rest

-- The user is the admin, or was it before a change of the admin's name.
unfoldable pub is_protected : Option UserSpec → Option UserSpec → String → Bool
is_protected none previous name = false
is_protected (some admin) none name = str_eq name admin.name
is_protected (some admin) (some previous) name =
    str_eq name admin.name || str_eq name previous.name && not (str_eq previous.name admin.name)

module _ (env : Env) where
  drop_users :
      Option UserSpec → Option UserSpec → List String → List (String × List String) → Action Checked
  unfolding is_protected
  drop_users admin previous desired [] = pure none
  drop_users admin previous desired ((name, roles) ∷ rest) =
      let later = drop_users admin previous desired rest in
      if not (contains name desired) && not (is_protected admin previous name)
      then command env (drop_user name) >>? later
      else later

  -- `applied` is the access control of the applied specification.
  unfoldable pub reconcile_users :
      AccessControl
      → Option AccessControl
      → (String → Bool)
      → Option (List (String × List String))
      → Action Checked
  unfolding sync_users drop_users find_admin_user
  reconcile_users acl applied has_password none = pure (some query_failed)
  reconcile_users acl applied has_password (some existing) =
      sync_users env has_password existing acl.users
      >>? drop_users (find_admin_user (some acl)) (find_admin_user applied) (user_names acl.users)
          existing
