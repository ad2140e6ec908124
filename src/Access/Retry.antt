-- ===== src/Access/Retry.antt =====
-- `reconcileACL` of internal/controller/reconciler_acl.go and `retryOnTransientWithReconnect` of
-- internal/controller/retry.go. Whether an error is transient is read off its text, which is not
-- modelled: `transient` says so. What the server lists is a function of the log, since it may change
-- between attempts; closing the clients is left out.
use aerospike_ce_kubernetes.Prelude.{
  String, Bool, true, false, not, ◌≡◌, refl, Option, none, some, List, any, arith, if◌then◌else◌,
  ◌∙◌,
}
use aerospike_ce_kubernetes.Env.{Env, Log, Action, pure, ◌>>=◌}
use aerospike_ce_kubernetes.Pod.{Pod, is_pod_ready}
use aerospike_ce_kubernetes.Privilege.{Privilege}
use aerospike_ce_kubernetes.Access.{AccessControl, SyncFailure, Checked}
use aerospike_ce_kubernetes.Access.Sync.{reconcile_roles, reconcile_users}

-- `no_client` is the failure to get a client.
pub data Error : Type 0 where
  no_client : Error
  of_sync : SyncFailure → Error

abbrev as_error : Checked → Option Error
as_error none = none
as_error (some e) = some (of_sync e)

as_error-none : (c : Checked) → as_error c ≡ none → c ≡ none
as_error-none none h = refl
as_error-none (some e) h = absurd (ground arith)

module _ (transient : SyncFailure → Bool) (get_client : Bool → Action Bool)
    (fn : Action Checked) where
  abbrev fresh_result : SyncFailure → Bool → Action (Option Error)
  fresh_result e false = pure (some (of_sync e))
  fresh_result e true = fn >>= (λ c. pure (as_error c))

  abbrev after_first : Checked → Action (Option Error)
  after_first none = pure none
  after_first (some e) =
      if not (transient e) then pure (some (of_sync e)) else get_client true >>= fresh_result e

  abbrev with_client : Bool → Action (Option Error)
  with_client false = pure (some no_client)
  with_client true = fn >>= after_first

  unfoldable pub retry_on_transient_with_reconnect : Action (Option Error)
  retry_on_transient_with_reconnect = get_client false >>= with_client

  -- A success is that of the last attempt, the first or the second.
  abbrev pub SucceededAt : Log → Type 0
  SucceededAt after = (before : Log) × ((fn before).0 ≡ none) × (after ≡ (fn before).1)

  fresh_success :
      (e : SyncFailure) (got : Bool) (log : Log)
      → (fresh_result e got log).0 ≡ none
      → SucceededAt (fresh_result e got log).1
  fresh_success e false log h = absurd (ground arith)
  fresh_success e true log h = (log, as_error-none (fn log).0 h, refl)

  stop_success :
      (b : Bool) (e : SyncFailure) (m : Action (Option Error)) (log : Log)
      → ((m log).0 ≡ none → SucceededAt (m log).1)
      → ((if b then pure (some (of_sync e)) else m) log).0 ≡ none
      → SucceededAt ((if b then pure (some (of_sync e)) else m) log).1
  stop_success true e m log k h = absurd (ground arith)
  stop_success false e m log k h = k h

  first_success :
      (before : Log) (c : Checked)
      → (fn before).0 ≡ c
      → (after_first c (fn before).1).0 ≡ none
      → SucceededAt (after_first c (fn before).1).1
  first_success before none e h = (before, e, refl)
  first_success before (some failure) e h =
      stop_success (not (transient failure)) failure (get_client true >>= fresh_result failure)
        (fn before).1
        (λ k.
          fresh_success failure (get_client true (fn before).1).0 (get_client true (fn before).1).1
            k)
        h

  client_success :
      (got : Bool) (log : Log)
      → (with_client got log).0 ≡ none
      → SucceededAt (with_client got log).1
  client_success false log h = absurd (ground arith)
  client_success true log h = first_success log (fn log).0 refl h

  -- A retried synchronisation that reports success ends with an attempt that succeeded.
  pub retry_success :
      (log : Log)
      → (retry_on_transient_with_reconnect log).0 ≡ none
      → SucceededAt (retry_on_transient_with_reconnect log).1
  unfolding retry_on_transient_with_reconnect
  retry_success log h = client_success (get_client false log).0 (get_client false log).1 h

-- What `reconcileACL` returns: nothing to do, an error, or that all is synchronised.
pub data AclOutcome : Type 0 where
  skipped list_failed synced : AclOutcome
  failed : Error → AclOutcome

module _ (transient : SyncFailure → Bool) (get_client : Bool → Action Bool) (env : Env)
    (query_roles : Log → Option (List (String × List Privilege)))
    (query_users : Log → Option (List (String × List String))) (has_password : String → Bool)
    (applied : Option AccessControl) where
  abbrev pub roles_attempt : AccessControl → Action Checked
  roles_attempt acl log = reconcile_roles env acl (query_roles log) log

  abbrev pub users_attempt : AccessControl → Action Checked
  users_attempt acl log = reconcile_users env acl applied has_password (query_users log) log

  abbrev users_done : Option Error → Action AclOutcome
  users_done none = pure synced
  users_done (some e) = pure (failed e)

  abbrev roles_done : AccessControl → Option Error → Action AclOutcome
  roles_done acl none =
      retry_on_transient_with_reconnect transient get_client (users_attempt acl) >>= users_done
  roles_done acl (some e) = pure (failed e)

  sync_all : AccessControl → Action AclOutcome
  unfolding retry_on_transient_with_reconnect reconcile_roles reconcile_users
  sync_all acl =
      retry_on_transient_with_reconnect transient get_client (roles_attempt acl) >>= roles_done acl

  -- The pods are `none` where they cannot be listed.
  unfoldable pub reconcile_acl : Option AccessControl → Option (List Pod) → Action AclOutcome
  unfolding sync_all
  reconcile_acl none pods = pure skipped
  reconcile_acl (some acl) none = pure list_failed
  reconcile_acl (some acl) (some pods) =
      if not (any is_pod_ready pods) then pure skipped else sync_all acl

  -- What a reported synchronisation stands for.
  pub record IsSynced (acl : Option AccessControl) (after : Log) : Type 0 where
    pub spec : AccessControl
    pub has_spec : acl ≡ some spec
    pub before_roles : Log
    pub roles : (roles_attempt spec before_roles).0 ≡ none
    pub before_users : Log
    pub users : (users_attempt spec before_users).0 ≡ none
    pub last : after ≡ (users_attempt spec before_users).1

  users_synced :
      (o : Option Error) (log : Log)
      → (users_done o log).0 ≡ synced
      → (o ≡ none) × ((users_done o log).1 ≡ log)
  users_synced none log h = (refl, refl)
  users_synced (some e) log h = absurd (ground arith)

  roles_synced :
      (acl : AccessControl) (o : Option Error) (log : Log)
      → (roles_done acl o log).0 ≡ synced
      → (o ≡ none) × SucceededAt transient get_client (users_attempt acl) (roles_done acl o log).1
  roles_synced acl (some e) log h = absurd (ground arith)
  roles_synced acl none log h =
      let run = retry_on_transient_with_reconnect transient get_client (users_attempt acl) log in
      let (ok_users, same) = users_synced run.0 run.1 h in
      let (before, went, last) =
        retry_success transient get_client (users_attempt acl) log ok_users in
      (refl, (before, went, same ∙ last))

  sync_all-IsSynced :
      (acl : AccessControl) (log : Log)
      → (sync_all acl log).0 ≡ synced
      → IsSynced (some acl) (sync_all acl log).1
  unfolding sync_all
  sync_all-IsSynced acl log h =
      let run = retry_on_transient_with_reconnect transient get_client (roles_attempt acl) log in
      let (ok_roles, (before_users, users, last)) = roles_synced acl run.0 run.1 h in
      let (before_roles, roles, end) =
        retry_success transient get_client (roles_attempt acl) log ok_roles in
      record {
        spec = acl;
        has_spec = refl;
        before_roles = before_roles;
        roles = roles;
        before_users = before_users;
        users = users;
        last = last;
      }

  if_ready :
      (acl : AccessControl) (unready : Bool) (log : Log)
      → ((if unready then pure skipped else sync_all acl) log).0 ≡ synced
      → IsSynced (some acl) ((if unready then pure skipped else sync_all acl) log).1
  if_ready acl true log h = absurd (ground arith)
  if_ready acl false log h = sync_all-IsSynced acl log h

  -- Where the access control is reported as synchronised, there is a specification of it, an attempt at
  -- its roles ended without an error, and the last attempt of all is one at its users that ended
  -- without an error.
  pub reconcile_acl-IsSynced :
      (acl : Option AccessControl) (pods : Option (List Pod)) (log : Log)
      → (reconcile_acl acl pods log).0 ≡ synced
      → IsSynced acl (reconcile_acl acl pods log).1
  unfolding reconcile_acl
  reconcile_acl-IsSynced none pods log h = absurd (ground arith)
  reconcile_acl-IsSynced (some acl) none log h = absurd (ground arith)
  reconcile_acl-IsSynced (some acl) (some pods) log h =
      if_ready acl (not (any is_pod_ready pods)) log h
