-- ===== src/Access/Sync/Roles.antt =====
-- Which commands on roles may be sent.
use aerospike_ce_kubernetes.Prelude.{
  String, true, false, not, ◌&&◌, ◌≡◌, refl, Option, none, some, List, [], ◌∷◌, contains, lookup,
  All, arith,
}
use aerospike_ce_kubernetes.Env.{
  Env, Request, create_role, grant_privileges, revoke_privileges, drop_role,
}
use aerospike_ce_kubernetes.Env.Sends.{Sends, Sends-pure, Sends-if}
use aerospike_ce_kubernetes.Privilege.{Privilege, role_parsed_privileges}
use aerospike_ce_kubernetes.Access.{
  RoleSpec, AccessControl, builtin_roles, missing_privileges, invalid,
}
use aerospike_ce_kubernetes.Access.Sync.{
  command, grant, revoke, sync_role_privileges, sync_parsed, sync_role, sync_roles, role_names,
  drop_roles, reconcile_roles,
}
use aerospike_ce_kubernetes.Access.Sync.Commands.{Sends-command, Sends-then, own_names}

module _ (P : Request → Type 0) where
  Sends-grant :
      (env : Env) (name : String) (ps : List Privilege)
      → ((l : List Privilege) → P (grant_privileges name l))
      → Sends P (grant env name ps)
  Sends-grant env name [] p = Sends-pure P none
  Sends-grant env name (q ∷ qs) p = Sends-command P env _ (p (q ∷ qs))

  Sends-revoke :
      (env : Env) (name : String) (ps : List Privilege)
      → ((l : List Privilege) → P (revoke_privileges name l))
      → Sends P (revoke env name ps)
  Sends-revoke env name [] p = Sends-pure P none
  Sends-revoke env name (q ∷ qs) p = Sends-command P env _ (p (q ∷ qs))

-- A role that is dropped is neither in the resource nor predefined; the other commands are about roles
-- of the resource, and one is created only where it is missing.
abbrev pub IsAllowedOnRoles : AccessControl → List (String × List Privilege) → Request → Type 0
IsAllowedOnRoles acl existing (drop_role name) =
    (contains name (role_names acl.roles) ≡ false) × (contains name builtin_roles ≡ false)
IsAllowedOnRoles acl existing (create_role name privileges) =
    (contains name (role_names acl.roles) ≡ true) × (lookup name existing ≡ none)
IsAllowedOnRoles acl existing (grant_privileges name privileges) =
    contains name (role_names acl.roles) ≡ true
IsAllowedOnRoles acl existing (revoke_privileges name privileges) =
    contains name (role_names acl.roles) ≡ true
IsAllowedOnRoles acl existing _ = ⊥

module _ (env : Env) (acl : AccessControl) (existing : List (String × List Privilege)) where
  abbrev OnRoles : Request → Type 0
  OnRoles = IsAllowedOnRoles acl existing

  Sends-sync_parsed :
      (name : String) (found : Option (List Privilege)) (parsed : Option (List Privilege))
      → contains name (role_names acl.roles) ≡ true
      → lookup name existing ≡ found
      → Sends OnRoles (sync_parsed env name found parsed)
  unfolding sync_role_privileges
  Sends-sync_parsed name found none c e = Sends-pure OnRoles (some invalid)
  Sends-sync_parsed name none (some privileges) c e = Sends-command OnRoles env _ (c, e)
  Sends-sync_parsed name (some current) (some desired) c e =
      Sends-then OnRoles (grant env name (missing_privileges desired current))
        (revoke env name (missing_privileges current desired))
        (Sends-grant OnRoles env name (missing_privileges desired current) (λ l. c))
        (Sends-revoke OnRoles env name (missing_privileges current desired) (λ l. c))

  Sends-sync_roles :
      (roles : List RoleSpec)
      → All (λ r. contains r.name (role_names acl.roles) ≡ true) roles
      → Sends OnRoles (sync_roles env existing roles)
  unfolding sync_roles sync_role
  Sends-sync_roles [] h = Sends-pure OnRoles none
  Sends-sync_roles (role ∷ rest) (h, hs) =
      Sends-then OnRoles (sync_role env existing role) (sync_roles env existing rest)
        (Sends-sync_parsed role.name (lookup role.name existing)
          (role_parsed_privileges role.privileges) h refl)
        (Sends-sync_roles rest hs)

  Sends-drop_roles :
      (l : List (String × List Privilege)) → Sends OnRoles (drop_roles env (role_names acl.roles) l)
  unfolding drop_roles
  Sends-drop_roles [] = Sends-pure OnRoles none
  Sends-drop_roles ((name, privileges) ∷ rest) =
      let later = Sends-drop_roles rest in
      Sends-if OnRoles
        (not (contains name (role_names acl.roles)) && not (contains name builtin_roles)) _ _
        (λ h.
          Sends-then OnRoles (command env (drop_role name))
            (drop_roles env (role_names acl.roles) rest)
            (Sends-command OnRoles env _ (ground (arith, h), ground (arith, h))) later)
        (λ h. later)

  -- The synchronisation of roles drops only roles that are neither in the resource nor predefined,
  -- creates only roles of the resource that the server does not list, and grants and revokes only for
  -- roles of the resource, whatever the server answers.
  pub reconcile_roles-IsAllowedOnRoles :
      Sends (IsAllowedOnRoles acl existing) (reconcile_roles env acl (some existing))
  unfolding reconcile_roles
  reconcile_roles-IsAllowedOnRoles =
      Sends-then OnRoles (sync_roles env existing acl.roles)
        (drop_roles env (role_names acl.roles) existing)
        (Sends-sync_roles acl.roles (own_names (λ r. r.name) acl.roles)) (Sends-drop_roles existing)
