-- ===== src/Claims/Deletion/Runs.antt =====
-- What the loops over the claims send and return.
use aerospike_ce_kubernetes.Prelude.{
  String, Bool, true, false, inl, inr, some, List, [], ◌∷◌, ◌++◌, ◌≡◌, refl, ap, filter, all, map,
  length, if◌then◌else◌, Bool-cases,
}
use aerospike_ce_kubernetes.Env.{
  Env, Request, Action, Log, Reply, is_ok, ◌>>=◌, pure, send, delete_claim,
}
use aerospike_ce_kubernetes.Claims.{Claim}
use aerospike_ce_kubernetes.Claims.Deletion.{
  tallied, is_reply_settled, delete_orphans, delete_until_error, Reclaimed, delete_listed,
  reclaimed,
}

-- Requests sent one after another, with their replies.
unfoldable pub send_all : Env → List Request → Action (List Reply)
send_all env [] = pure []
send_all env (r ∷ rest) =
    let later = send_all env rest in
    send env r >>= (λ reply. later >>= (λ replies. pure (reply ∷ replies)))

abbrev pub deletions : List Claim → List Request
deletions claims = map (λ c. delete_claim c.name) claims

-- The claims whose reply is neither success nor that they are gone.
unfoldable pub failures : List Claim → List Reply → List String
failures [] replies = []
failures (c ∷ claims) [] = []
failures (c ∷ claims) (reply ∷ replies) =
    let later = failures claims replies in if is_reply_settled reply then later else c.name ∷ later

tallied-failures :
    (claim : Claim) (reply : Reply) (claims : List Claim) (replies : List Reply)
    → tallied claim.name reply (length (filter is_ok replies), failures claims replies)
      ≡ (length (filter is_ok (reply ∷ replies)), failures (claim ∷ claims) (reply ∷ replies))
unfolding failures
tallied-failures claim Reply.ok claims replies = refl
tallied-failures claim Reply.not_found claims replies = refl
tallied-failures claim Reply.other claims replies = refl
tallied-failures claim Reply.conflict claims replies = refl
tallied-failures claim Reply.failure claims replies = refl

-- Every wanted claim is asked to be deleted, whatever became of those before it.
delete_orphans_run :
    (env : Env) (wanted : Claim → Bool) (claims : List Claim) (log : Log)
    → let sent = send_all env (deletions (filter wanted claims)) log in
      delete_orphans env wanted claims log
      ≡ ((length (filter is_ok sent.0), failures (filter wanted claims) sent.0), sent.1)
unfolding delete_orphans send_all failures
delete_orphans_run env wanted [] log = refl
delete_orphans_run env wanted (claim ∷ rest) log =
    let (reply, log') = send env (delete_claim claim.name) log in
    let later = send_all env (deletions (filter wanted rest)) log' in
    elim (Bool-cases (wanted claim)) [
      | inl w ↦
          rw (w, delete_orphans_run env wanted rest log')
            (ap (λ r. (r, later.1)) (tallied-failures claim reply (filter wanted rest) later.0))
      | inr w ↦ rw w (delete_orphans_run env wanted rest log)
    ]

-- The deletion of these claims, one after another, and what is reported of it.
abbrev pub deleted_of : Env → List Claim → Log → Reclaimed × Log
deleted_of env claims log =
    let sent = send_all env (deletions claims) log in
    (reclaimed (length (filter is_ok sent.0)) (failures claims sent.0), sent.1)

pub delete_listed_run :
    (env : Env) (wanted : Claim → Bool) (claims : List Claim) (log : Log)
    → delete_listed env wanted (some claims) log ≡ deleted_of env (filter wanted claims) log
delete_listed_run env wanted claims log =
    ap (λ r. (reclaimed r.0.0 r.0.1, r.1)) (delete_orphans_run env wanted claims log)

-- The loop stopped at a claim whose deletion failed; those before it are settled, and those after it
-- have not been asked for.
pub record Stopped (env : Env) (claims : List Claim) (log after_log : Log) : Type 0 where
  pub before : List Claim
  pub claim : Claim
  pub after : List Claim
  pub split : claims ≡ before ++ (claim ∷ after)
  pub earlier : all is_reply_settled (send_all env (deletions before) log).0 ≡ true
  pub failed :
      is_reply_settled
        (send env (delete_claim claim.name) (send_all env (deletions before) log).1).0
      ≡ false
  pub sent :
      after_log ≡ (send env (delete_claim claim.name) (send_all env (deletions before) log).1).1

-- All the claims are settled, or the loop stopped at one.
pub record Finished (env : Env) (claims : List Claim) (log after_log : Log) : Type 0 where
  pub settled : all is_reply_settled (send_all env (deletions claims) log).0 ≡ true
  pub sent : after_log ≡ (send_all env (deletions claims) log).1

abbrev pub DeletionOutcome : Env → List Claim → Log → Bool × Log → Type 0
DeletionOutcome env claims log (true, after) = Finished env claims log after
DeletionOutcome env claims log (false, after) = Stopped env claims log after

DeletionOutcome-claim :
    (env : Env) (claim : Claim) (claims : List Claim) (log : Log) (result : Bool × Log)
    → is_reply_settled (send env (delete_claim claim.name) log).0 ≡ true
    → DeletionOutcome env claims (send env (delete_claim claim.name) log).1 result
    → DeletionOutcome env (claim ∷ claims) log result
unfolding send_all
DeletionOutcome-claim env claim claims log (true, after) s x = record {
  settled = rw s x.settled;
  sent = x.sent;
}
DeletionOutcome-claim env claim claims log (false, after) s x = record {
  before = claim ∷ x.before;
  claim = x.claim;
  after = x.after;
  split = ap (λ l. claim ∷ l) x.split;
  earlier = rw s x.earlier;
  failed = x.failed;
  sent = x.sent;
}

-- The loop that stops at the first error returns whether all the wanted claims are settled.
pub delete_until_error_run :
    (env : Env) (wanted : Claim → Bool) (claims : List Claim) (log : Log)
    → DeletionOutcome env (filter wanted claims) log (delete_until_error env wanted claims log)
unfolding delete_until_error send_all
delete_until_error_run env wanted [] log = record { settled = refl; sent = refl }
delete_until_error_run env wanted (claim ∷ rest) log =
    let log' = (send env (delete_claim claim.name) log).1 in
    elim (Bool-cases (wanted claim)) [
      | inr w ↦ rw w (delete_until_error_run env wanted rest log)
      | inl w ↦ elim (Bool-cases (is_reply_settled (send env (delete_claim claim.name) log).0)) [
        | inl s ↦
            rw (w, s)
              (DeletionOutcome-claim env claim (filter wanted rest) log
                (delete_until_error env wanted rest log') s
                (delete_until_error_run env wanted rest log'))
        | inr s ↦
            rw (w, s)
              (record {
                before = [];
                claim = claim;
                after = filter wanted rest;
                split = refl;
                earlier = refl;
                failed = s;
                sent = refl;
              })
      ]
    ]
