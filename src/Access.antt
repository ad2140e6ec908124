-- ===== src/Access.antt =====
-- Access control: internal/controller/reconciler_acl.go, `FindAdminUser` of internal/utils/acl.go, and
-- `retryOnTransientWithReconnect` of internal/controller/retry.go. What the server lists of roles and
-- users and what the Secrets hold are inputs. A password is not modelled; the order in which Go visits
-- a map is that of the slice the map was made of.
pub mod Sync
pub mod Converge
pub mod Retry
use aerospike_ce_kubernetes.Prelude.{
  ℕ, String, Bool, true, false, not, ◌&&◌, ◌||◌, Option, none, some, List, [], ◌∷◌, any, filter,
  contains, lookup, str_eq, if◌then◌else◌, map,
}
use aerospike_ce_kubernetes.Env.{
  Env, Action, Reply, is_ok, pure, send, ◌>>=◌, ◌>>◌, create_role, grant_privileges,
  revoke_privileges, drop_role, drop_user, create_user, grant_roles, revoke_roles, change_password,
}
use aerospike_ce_kubernetes.Privilege.{Privilege, privilege_key, role_parsed_privileges}
use aerospike_ce_kubernetes.Text.{same_text}

pub record RoleSpec : Type 0 where
  pub name : String
  pub privileges : List (List ℕ)

pub record UserSpec : Type 0 where
  pub name : String
  pub secret_name : String
  pub roles : List String

pub record AccessControl : Type 0 where
  pub roles : List RoleSpec
  pub users : List UserSpec

-- The predefined roles.
abbrev pub builtin_roles : List String
builtin_roles =
    "user-admin" ∷ "sys-admin" ∷ "data-admin" ∷ "read" ∷ "write" ∷ "read-write" ∷ "read-write-udf"
    ∷ "truncate" ∷ []

abbrev pub is_admin : UserSpec → Bool
is_admin user = contains "sys-admin" user.roles && contains "user-admin" user.roles

abbrev first_admin : List UserSpec → Option UserSpec
first_admin [] = none
first_admin (user ∷ users) = if is_admin user then some user else first_admin users

unfoldable pub find_admin_user : Option AccessControl → Option UserSpec
find_admin_user none = none
find_admin_user (some acl) = first_admin acl.users

-- The key is one of those privileges'.
unfoldable pub has_key : List ℕ → List Privilege → Bool
unfolding privilege_key same_text
has_key key privileges = any (λ p. same_text (privilege_key p) key) privileges

-- The values of the map by key: one privilege for a key.
unfoldable pub privilege_set : List Privilege → List Privilege
unfolding has_key
privilege_set [] = []
privilege_set (p ∷ ps) =
    let later = privilege_set ps in if has_key (privilege_key p) ps then later else p ∷ later

unfoldable pub missing_privileges : List Privilege → List Privilege → List Privilege
unfolding privilege_set
missing_privileges wanted there =
    filter (λ p. not (has_key (privilege_key p) (privilege_set there))) (privilege_set wanted)

-- The keys of the set.
unfoldable pub slice_to_set : List String → List String
slice_to_set [] = []
slice_to_set (s ∷ ss) = let later = slice_to_set ss in if contains s ss then later else s ∷ later

unfoldable pub missing_roles : List String → List String → List String
unfolding slice_to_set
missing_roles wanted there =
    filter (λ r. not (contains r (slice_to_set there))) (slice_to_set wanted)

-- An error of a command, or a validation error before any; `none` is success.
pub data SyncFailure : Type 0 where
  query_failed invalid no_password : SyncFailure
  refused : Reply → SyncFailure

abbrev pub Checked : Type 0
Checked = Option SyncFailure

abbrev pub error_of : Reply → Checked
error_of reply = if is_ok reply then none else some (refused reply)

-- What follows, unless there was an error.
abbrev pub then_if_ok : Action Checked → Checked → Action Checked
then_if_ok k none = k
then_if_ok k (some e) = pure (some e)

infixl 5 ◌>>?◌
abbrev pub ◌>>?◌ : Action Checked → Action Checked → Action Checked
m >>? k = m >>= then_if_ok k
