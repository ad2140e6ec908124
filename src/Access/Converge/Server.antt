-- ===== src/Access/Converge/Server.antt =====
-- What `syncRolePrivileges` of internal/controller/reconciler_acl.go makes of a role of the server.
use aerospike_ce_kubernetes.Prelude.{
  ℕ, ◌≡◌, refl, String, not, ◌&&◌, ◌||◌, none, some, List, [], ◌∷◌, arith, Bool,
}
use aerospike_ce_kubernetes.Privilege.{Privilege}
use aerospike_ce_kubernetes.Env.{Env, Log, Reply, send, grant_privileges, revoke_privileges, ok}
use aerospike_ce_kubernetes.Access.{has_key, missing_privileges, Checked, error_of, then_if_ok}
use aerospike_ce_kubernetes.Access.Sync.{sync_role_privileges, grant, revoke}
use aerospike_ce_kubernetes.Access.Converge.{has_key-missing_privileges}

-- The privileges that the server has for a role after the exchanges of a log: a grant that it accepts
-- adds those granted, and a revocation that it accepts removes those revoked.
pub record RoleOnServer (name : String) : Type 0 where
  pub held : Log → List Privilege
  pub granted :
      (log : Log) (ps : List Privilege) (key : List ℕ)
      → has_key key (held (record { request = grant_privileges name ps; reply = ok } ∷ log))
        ≡ (has_key key (held log) || has_key key ps)
  pub revoked :
      (log : Log) (ps : List Privilege) (key : List ℕ)
      → has_key key (held (record { request = revoke_privileges name ps; reply = ok } ∷ log))
        ≡ (has_key key (held log) && not (has_key key ps))

module _ (name : String) (server : RoleOnServer name) (key : List ℕ) where
  abbrev has_now : Log → Bool
  has_now log = has_key key (server.held log)

  accepted_grant :
      (ps : List Privilege) (reply : Reply) (log : Log)
      → error_of reply ≡ none
      → has_now (record { request = grant_privileges name ps; reply = reply } ∷ log)
        ≡ (has_now log || has_key key ps)
  accepted_grant ps Reply.ok log h = server.granted log ps key
  accepted_grant ps Reply.other log h = absurd (ground arith)
  accepted_grant ps Reply.not_found log h = absurd (ground arith)
  accepted_grant ps Reply.conflict log h = absurd (ground arith)
  accepted_grant ps Reply.failure log h = absurd (ground arith)

  accepted_revoke :
      (ps : List Privilege) (reply : Reply) (log : Log)
      → error_of reply ≡ none
      → has_now (record { request = revoke_privileges name ps; reply = reply } ∷ log)
        ≡ (has_now log && not (has_key key ps))
  accepted_revoke ps Reply.ok log h = server.revoked log ps key
  accepted_revoke ps Reply.other log h = absurd (ground arith)
  accepted_revoke ps Reply.not_found log h = absurd (ground arith)
  accepted_revoke ps Reply.conflict log h = absurd (ground arith)
  accepted_revoke ps Reply.failure log h = absurd (ground arith)

  module _ (env : Env) where
    grant_lem :
        (ps : List Privilege) (log : Log)
        → (grant env name ps log).0 ≡ none
        → has_now (grant env name ps log).1 ≡ (has_now log || has_key key ps)
    unfolding send has_key
    grant_lem [] log h = ground arith
    grant_lem (p ∷ ps) log h = accepted_grant (p ∷ ps) _ log h

    revoke_lem :
        (ps : List Privilege) (log : Log)
        → (revoke env name ps log).0 ≡ none
        → has_now (revoke env name ps log).1 ≡ (has_now log && not (has_key key ps))
    unfolding send has_key
    revoke_lem [] log h = ground arith
    revoke_lem (p ∷ ps) log h = accepted_revoke (p ∷ ps) _ log h

    after_grant :
        (c : Checked) (extra missing : List Privilege) (before log : Log)
        → (c ≡ none → has_now log ≡ (has_now before || has_key key missing))
        → (then_if_ok (revoke env name extra) c log).0 ≡ none
        → has_now (then_if_ok (revoke env name extra) c log).1
          ≡ ((has_now before || has_key key missing) && not (has_key key extra))
    after_grant none extra missing before log g h = ground (arith, revoke_lem extra log h, g refl)
    after_grant (some e) extra missing before log g h = absurd (ground arith)

-- Where the synchronisation of a role reports no error, and the privileges that it was given as
-- current are those that the server had for the role, the server has afterwards a privilege with a
-- key exactly where the resource gives the role one. A grant and a revocation that the server accepts
-- add and remove what they name.
pub sync_role_privileges-held :
    (env : Env) (name : String) (server : RoleOnServer name) (current desired : List Privilege)
    (key : List ℕ) (log : Log)
    → has_key key (server.held log) ≡ has_key key current
    → (sync_role_privileges env name current desired log).0 ≡ none
    → has_key key (server.held (sync_role_privileges env name current desired log).1)
      ≡ has_key key desired
unfolding sync_role_privileges
sync_role_privileges-held env name server current desired key log same h =
    let missing = missing_privileges desired current in
    let extra = missing_privileges current desired in
    let result = grant env name missing log in
    let all =
      after_grant name server key env result.0 extra missing log result.1
        (grant_lem name server key env missing log) h in
    let a = has_key-missing_privileges key desired current in
    let b = has_key-missing_privileges key current desired in ground (arith, all, a, b, same)
