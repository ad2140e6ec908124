-- ===== src/Access/Sync/Errors.antt =====
-- The synchronisation reports no error only where the server accepted all that it was sent.
use aerospike_ce_kubernetes.Prelude.{
  String, Bool, true, false, not, ◌&&◌, Option, none, some, List, [], ◌∷◌, contains, lookup,
}
use aerospike_ce_kubernetes.Env.{Env, drop_role, drop_user, change_password}
use aerospike_ce_kubernetes.Privilege.{Privilege, role_parsed_privileges}
use aerospike_ce_kubernetes.Access.{
  RoleSpec, UserSpec, AccessControl, builtin_roles, find_admin_user, missing_privileges,
  missing_roles, query_failed, invalid, no_password,
}
use aerospike_ce_kubernetes.Access.Sync.{
  grant, revoke, sync_role_privileges, give, take_away, sync_user_roles, sync_parsed, sync_role,
  sync_roles, role_names, drop_roles, reconcile_roles, sync_existing, sync_user, sync_users,
  is_protected, user_names, drop_users, reconcile_users,
}
use aerospike_ce_kubernetes.Access.Sync.Commands.{
  IsHonest, IsHonestOver, IsHonestOver-failed, IsHonestOver-queried, IsHonest-none, IsHonest-some,
  IsHonest-command, IsHonest-then, IsHonest-if,
}

module _ (env : Env) where
  IsHonest-grant : (name : String) (ps : List Privilege) → IsHonest (grant env name ps)
  IsHonest-grant name [] = IsHonest-none
  IsHonest-grant name (p ∷ ps) = IsHonest-command env _

  IsHonest-revoke : (name : String) (ps : List Privilege) → IsHonest (revoke env name ps)
  IsHonest-revoke name [] = IsHonest-none
  IsHonest-revoke name (p ∷ ps) = IsHonest-command env _

  IsHonest-give : (name : String) (rs : List String) → IsHonest (give env name rs)
  IsHonest-give name [] = IsHonest-none
  IsHonest-give name (r ∷ rs) = IsHonest-command env _

  IsHonest-take_away : (name : String) (rs : List String) → IsHonest (take_away env name rs)
  IsHonest-take_away name [] = IsHonest-none
  IsHonest-take_away name (r ∷ rs) = IsHonest-command env _

  IsHonest-sync_parsed :
      (name : String) (found parsed : Option (List Privilege))
      → IsHonest (sync_parsed env name found parsed)
  unfolding sync_role_privileges
  IsHonest-sync_parsed name found none = IsHonest-some invalid
  IsHonest-sync_parsed name none (some privileges) = IsHonest-command env _
  IsHonest-sync_parsed name (some current) (some desired) =
      IsHonest-then _ _ (IsHonest-grant name (missing_privileges desired current))
        (IsHonest-revoke name (missing_privileges current desired))

  IsHonest-sync_roles :
      (existing : List (String × List Privilege)) (roles : List RoleSpec)
      → IsHonest (sync_roles env existing roles)
  unfolding sync_roles sync_role
  IsHonest-sync_roles existing [] = IsHonest-none
  IsHonest-sync_roles existing (role ∷ rest) =
      IsHonest-then _ _
        (IsHonest-sync_parsed role.name (lookup role.name existing)
          (role_parsed_privileges role.privileges))
        (IsHonest-sync_roles existing rest)

  IsHonest-drop_roles :
      (desired : List String) (l : List (String × List Privilege))
      → IsHonest (drop_roles env desired l)
  unfolding drop_roles
  IsHonest-drop_roles desired [] = IsHonest-none
  IsHonest-drop_roles desired ((name, privileges) ∷ rest) =
      let later = IsHonest-drop_roles desired rest in
      IsHonest-if (not (contains name desired) && not (contains name builtin_roles)) _ _
        (IsHonest-then _ _ (IsHonest-command env (drop_role name)) later) later

  IsHonest-sync_existing :
      (user : UserSpec) (found : Option (List String)) → IsHonest (sync_existing env user found)
  unfolding sync_user_roles
  IsHonest-sync_existing user none = IsHonest-command env _
  IsHonest-sync_existing user (some current) =
      IsHonest-then _ _
        (IsHonest-then _ _ (IsHonest-give user.name (missing_roles user.roles current))
          (IsHonest-take_away user.name (missing_roles current user.roles)))
        (IsHonest-command env (change_password user.name))

  IsHonest-sync_user :
      (existing : List (String × List String)) (user : UserSpec) (has_password : Bool)
      → IsHonest (sync_user env existing user has_password)
  unfolding sync_user
  IsHonest-sync_user existing user false = IsHonest-some no_password
  IsHonest-sync_user existing user true = IsHonest-sync_existing user (lookup user.name existing)

  IsHonest-sync_users :
      (has_password : String → Bool) (existing : List (String × List String))
      (users : List UserSpec)
      → IsHonest (sync_users env has_password existing users)
  unfolding sync_users
  IsHonest-sync_users has_password existing [] = IsHonest-none
  IsHonest-sync_users has_password existing (user ∷ rest) =
      IsHonest-then _ _ (IsHonest-sync_user existing user (has_password user.secret_name))
        (IsHonest-sync_users has_password existing rest)

  IsHonest-drop_users :
      (admin previous : Option UserSpec) (desired : List String) (l : List (String × List String))
      → IsHonest (drop_users env admin previous desired l)
  unfolding drop_users
  IsHonest-drop_users admin previous desired [] = IsHonest-none
  IsHonest-drop_users admin previous desired ((name, roles) ∷ rest) =
      let later = IsHonest-drop_users admin previous desired rest in
      IsHonest-if (not (contains name desired) && not (is_protected admin previous name)) _ _
        (IsHonest-then _ _ (IsHonest-command env (drop_user name)) later) later

  reconcile_roles-IsHonest :
      (acl : AccessControl) (existing : Option (List (String × List Privilege)))
      → IsHonestOver existing (reconcile_roles env acl existing)
  unfolding reconcile_roles
  reconcile_roles-IsHonest acl none = IsHonestOver-failed query_failed
  reconcile_roles-IsHonest acl (some existing) = IsHonestOver-queried existing _ (
      IsHonest-then _ _ (IsHonest-sync_roles existing acl.roles)
        (IsHonest-drop_roles (role_names acl.roles) existing))

  reconcile_users-IsHonest :
      (acl : AccessControl) (applied : Option AccessControl) (has_password : String → Bool)
      (existing : Option (List (String × List String)))
      → IsHonestOver existing (reconcile_users env acl applied has_password existing)
  unfolding reconcile_users
  reconcile_users-IsHonest acl applied has_password none = IsHonestOver-failed query_failed
  reconcile_users-IsHonest acl applied has_password (some existing) =
      IsHonestOver-queried existing _ (
        IsHonest-then _ _ (IsHonest-sync_users has_password existing acl.users) (
          IsHonest-drop_users (find_admin_user (some acl)) (find_admin_user applied)
            (user_names acl.users) existing))

  -- The synchronisation of roles, and that of users, reports no error only where the server could be
  -- queried and accepted every command that was sent to it, changes of passwords included.
  pub reconcile_roles_and_users-IsHonest :
      (acl : AccessControl) (applied : Option AccessControl) (has_password : String → Bool)
      (roles : Option (List (String × List Privilege)))
      (users : Option (List (String × List String)))
      → IsHonestOver roles (reconcile_roles env acl roles)
        × IsHonestOver users (reconcile_users env acl applied has_password users)
  reconcile_roles_and_users-IsHonest acl applied has_password roles users =
      (reconcile_roles-IsHonest acl roles, reconcile_users-IsHonest acl applied has_password users)
