-- ===== src/Access/Sync/Users.antt =====
-- Which commands on users may be sent.
use aerospike_ce_kubernetes.Prelude.{
  String, Bool, true, false, not, ◌&&◌, ◌≡◌, refl, Option, none, some, List, [], ◌∷◌, contains,
  lookup, All, arith, eq_iff, str_eq, ap, sym, ◌∙◌,
}
use aerospike_ce_kubernetes.Env.{
  Env, Request, drop_user, create_user, grant_roles, revoke_roles, change_password,
}
use aerospike_ce_kubernetes.Env.Sends.{Sends, Sends-pure, Sends-if}
use aerospike_ce_kubernetes.Access.{
  UserSpec, AccessControl, find_admin_user, missing_roles, no_password,
}
use aerospike_ce_kubernetes.Access.Sync.{
  command, give, take_away, sync_user_roles, sync_existing, sync_user, sync_users, is_protected,
  user_names, drop_users, reconcile_users,
}
use aerospike_ce_kubernetes.Access.Sync.Commands.{Sends-command, Sends-then, own_names}

module _ (P : Request → Type 0) where
  Sends-give :
      (env : Env) (name : String) (rs : List String)
      → ((l : List String) → P (grant_roles name l))
      → Sends P (give env name rs)
  Sends-give env name [] p = Sends-pure P none
  Sends-give env name (r ∷ rs) p = Sends-command P env _ (p (r ∷ rs))

  Sends-take_away :
      (env : Env) (name : String) (rs : List String)
      → ((l : List String) → P (revoke_roles name l))
      → Sends P (take_away env name rs)
  Sends-take_away env name [] p = Sends-pure P none
  Sends-take_away env name (r ∷ rs) p = Sends-command P env _ (p (r ∷ rs))

-- A user that is dropped is not in the resource, is not the admin, and was not the admin before the
-- admin's name changed; the other commands are about users of the resource.
abbrev pub IsAllowedOnUsers :
    AccessControl → Option AccessControl → List (String × List String) → Request → Type 0
IsAllowedOnUsers acl applied existing (drop_user name) =
    (contains name (user_names acl.users) ≡ false)
    × ((admin : UserSpec)
        → find_admin_user (some acl) ≡ some admin
        → str_eq name admin.name ≡ false)
    × ((admin previous : UserSpec)
        → find_admin_user (some acl) ≡ some admin
        → find_admin_user applied ≡ some previous
        → str_eq name previous.name ≡ false)
IsAllowedOnUsers acl applied existing (create_user name roles) =
    (contains name (user_names acl.users) ≡ true) × (lookup name existing ≡ none)
IsAllowedOnUsers acl applied existing (grant_roles name roles) =
    contains name (user_names acl.users) ≡ true
IsAllowedOnUsers acl applied existing (revoke_roles name roles) =
    contains name (user_names acl.users) ≡ true
IsAllowedOnUsers acl applied existing (change_password name) =
    contains name (user_names acl.users) ≡ true
IsAllowedOnUsers acl applied existing _ = ⊥

not_admin :
    (a : UserSpec) (previous : Option UserSpec) (name : String)
    → is_protected (some a) previous name ≡ false
    → str_eq name a.name ≡ false
unfolding is_protected
not_admin a none name h = h
not_admin a (some p) name h = ground (arith, h)

not_previous :
    (a p : UserSpec) (name : String)
    → is_protected (some a) (some p) name ≡ false
    → str_eq name p.name ≡ false
unfolding is_protected
not_previous a p name h =
    ground (arith, h, eq_iff name a.name, eq_iff name p.name, eq_iff p.name a.name)

module _ (env : Env) (acl : AccessControl) (applied : Option AccessControl)
    (existing : List (String × List String)) where
  abbrev OnUsers : Request → Type 0
  OnUsers = IsAllowedOnUsers acl applied existing

  Sends-sync_existing :
      (user : UserSpec) (found : Option (List String))
      → contains user.name (user_names acl.users) ≡ true
      → lookup user.name existing ≡ found
      → Sends OnUsers (sync_existing env user found)
  unfolding sync_user_roles
  Sends-sync_existing user none c e = Sends-command OnUsers env _ (c, e)
  Sends-sync_existing user (some current) c e =
      Sends-then OnUsers (sync_user_roles env user.name current user.roles)
        (command env (change_password user.name))
        (Sends-then OnUsers (give env user.name (missing_roles user.roles current))
          (take_away env user.name (missing_roles current user.roles))
          (Sends-give OnUsers env user.name (missing_roles user.roles current) (λ l. c))
          (Sends-take_away OnUsers env user.name (missing_roles current user.roles) (λ l. c)))
        (Sends-command OnUsers env (change_password user.name) c)

  Sends-sync_user :
      (user : UserSpec) (has_password : Bool)
      → contains user.name (user_names acl.users) ≡ true
      → Sends OnUsers (sync_user env existing user has_password)
  unfolding sync_user
  Sends-sync_user user false c = Sends-pure OnUsers (some no_password)
  Sends-sync_user user true c = Sends-sync_existing user (lookup user.name existing) c refl

  Sends-sync_users :
      (has_password : String → Bool) (users : List UserSpec)
      → All (λ u. contains u.name (user_names acl.users) ≡ true) users
      → Sends OnUsers (sync_users env has_password existing users)
  unfolding sync_users
  Sends-sync_users has_password [] h = Sends-pure OnUsers none
  Sends-sync_users has_password (user ∷ rest) (h, hs) =
      Sends-then OnUsers (sync_user env existing user (has_password user.secret_name))
        (sync_users env has_password existing rest)
        (Sends-sync_user user (has_password user.secret_name) h)
        (Sends-sync_users has_password rest hs)

  unprotected :
      (name : String)
      → contains name (user_names acl.users) ≡ false
      → is_protected (find_admin_user (some acl)) (find_admin_user applied) name ≡ false
      → OnUsers (drop_user name)
  unprotected name c h = (
    c,
    (λ a e.
        not_admin a (find_admin_user applied) name
          (ap (λ o. is_protected o (find_admin_user applied) name) (sym e) ∙ h)),
    λ a p e f. not_previous a p name (
        ap (λ o. is_protected (some a) o name) (sym f)
        ∙ ap (λ o. is_protected o (find_admin_user applied) name) (sym e)
        ∙ h),
  )

  Sends-drop_users :
      (l : List (String × List String))
      → Sends OnUsers (
          drop_users env
            (find_admin_user (some acl))
            (find_admin_user applied)
            (user_names acl.users)
            l)
  unfolding drop_users
  Sends-drop_users [] = Sends-pure OnUsers none
  Sends-drop_users ((name, roles) ∷ rest) =
      let later = Sends-drop_users rest in
      Sends-if OnUsers
        (not (contains name (user_names acl.users))
          && not (is_protected (find_admin_user (some acl)) (find_admin_user applied) name))
        _ _
        (λ h.
          Sends-then OnUsers (command env (drop_user name))
            (drop_users env (find_admin_user (some acl)) (find_admin_user applied)
              (user_names acl.users) rest)
            (Sends-command OnUsers env (drop_user name)
              (unprotected name (ground (arith, h)) (ground (arith, h))))
            later)
        (λ h. later)

  -- The synchronisation of users drops only users that are not in the resource, never the admin of the
  -- resource and never the admin that was applied before while there is an admin, and creates, grants,
  -- revokes and changes passwords only for users of the resource, whatever the server answers.
  pub reconcile_users-IsAllowedOnUsers :
      (has_password : String → Bool)
      → Sends
          (IsAllowedOnUsers acl applied existing)
          (reconcile_users env acl applied has_password (some existing))
  unfolding reconcile_users
  reconcile_users-IsAllowedOnUsers has_password =
      Sends-then OnUsers (sync_users env has_password existing acl.users)
        (drop_users env (find_admin_user (some acl)) (find_admin_user applied)
          (user_names acl.users) existing)
        (Sends-sync_users has_password acl.users (own_names (λ u. u.name) acl.users))
        (Sends-drop_users existing)
