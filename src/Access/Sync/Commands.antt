-- ===== src/Access/Sync/Commands.antt =====
-- Commands one after another, as far as they go well.
use aerospike_ce_kubernetes.Prelude.{
  ◌≡◌, refl, if◌then◌else◌, String, Option, none, some, Bool, true, false, List, [], ◌∷◌, All,
  contains, map, eq_refl, arith,
}
use aerospike_ce_kubernetes.Env.{Env, Request, Action, pure, send, Log, ok}
use aerospike_ce_kubernetes.Env.Sends.{Sends, Sends-pure, Sends-send, Sends-bind}
use aerospike_ce_kubernetes.Access.{Checked, error_of, then_if_ok, ◌>>?◌, SyncFailure, Reply}
use aerospike_ce_kubernetes.Access.Sync.{command}

module _ (P : Request → Type 0) where
  pub Sends-command : (env : Env) (r : Request) → P r → Sends P (command env r)
  Sends-command env r p =
      Sends-bind P (send env r) (λ reply. pure (error_of reply)) (Sends-send P env r p)
        (λ reply. Sends-pure P (error_of reply))

  Sends-then_if_ok : (k : Action Checked) (c : Checked) → Sends P k → Sends P (then_if_ok k c)
  Sends-then_if_ok k none s = s
  Sends-then_if_ok k (some e) s = Sends-pure P (some e)

  pub Sends-then : (m k : Action Checked) → Sends P m → Sends P k → Sends P (m >>? k)
  Sends-then m k x y = Sends-bind P m (then_if_ok k) x (λ c. Sends-then_if_ok k c y)

-- Every name of a list stands in it.
module _ {A : Type 0} (name_of : A → String) where
  All-later :
      (name : String) (names : List String) (l : List A)
      → All (λ a. contains (name_of a) names ≡ true) l
      → All (λ a. contains (name_of a) (name ∷ names) ≡ true) l
  All-later name names [] h = tt
  All-later name names (a ∷ rest) (h, hs) = (ground (arith, h), All-later name names rest hs)

  pub own_names : (l : List A) → All (λ a. contains (name_of a) (map name_of l) ≡ true) l
  own_names [] = tt
  own_names (a ∷ rest) = (
    ground (arith, eq_refl (name_of a)),
    All-later (name_of a) (map name_of rest) rest (own_names rest),
  )

-- The log after is the log before with more requests on top, all answered with success.
pub data AddsOk (before : Log) : Log → Type 0 where
  nothing_new : AddsOk before before
  one_ok :
      {after : Log} (r : Request)
      → AddsOk before after
      → AddsOk before (record { request = r; reply = ok } ∷ after)

AddsOk-trans : {a b c : Log} → AddsOk b c → AddsOk a b → AddsOk a c
AddsOk-trans nothing_new x = x
AddsOk-trans (one_ok r y) x = one_ok r (AddsOk-trans y x)

-- The action reports no error only where every command that it sent was accepted.
pub record IsHonest (m : Action Checked) : Type 0 where
  pub at : (log : Log) → (m log).0 ≡ none → AddsOk log (m log).1

pub IsHonest-none : IsHonest (pure none)
IsHonest-none = record { at = λ log h. nothing_new }

pub IsHonest-some : (e : SyncFailure) → IsHonest (pure (some e))
IsHonest-some e = record { at = λ log h. absurd (ground arith) }

accepted :
    (r : Request) (reply : Reply) (log : Log)
    → error_of reply ≡ none
    → AddsOk log (record { request = r; reply = reply } ∷ log)
accepted r Reply.ok log h = one_ok r nothing_new
accepted r Reply.other log h = absurd (ground arith)
accepted r Reply.not_found log h = absurd (ground arith)
accepted r Reply.conflict log h = absurd (ground arith)
accepted r Reply.failure log h = absurd (ground arith)

pub IsHonest-command : (env : Env) (r : Request) → IsHonest (command env r)
unfolding send
IsHonest-command env r = record { at = λ log h. accepted r _ log h }

then_honest :
    (m k : Action Checked) (log before : Log) (c : Checked)
    → IsHonest k
    → (c ≡ none → AddsOk before log)
    → (then_if_ok k c log).0 ≡ none
    → AddsOk before (then_if_ok k c log).1
then_honest m k log before none y x h = AddsOk-trans (y.at log h) (x refl)
then_honest m k log before (some e) y x h = absurd (ground arith)

pub IsHonest-then : (m k : Action Checked) → IsHonest m → IsHonest k → IsHonest (m >>? k)
IsHonest-then m k x y = record {
  at = λ log h. then_honest m k (m log).1 log (m log).0 y (x.at log) h;
}

pub IsHonest-if :
    (b : Bool) (m k : Action Checked) → IsHonest m → IsHonest k → IsHonest (if b then m else k)
IsHonest-if true m k x y = x
IsHonest-if false m k x y = y

-- The action, which needs what a query found, reports no error only where the query succeeded and
-- every command that it sent was accepted.
pub record IsHonestOver {A : Type 0} (found : Option A) (m : Action Checked) : Type 0 where
  pub at :
      (log : Log)
      → (m log).0 ≡ none
      → (existing : A) × (found ≡ some existing) × AddsOk log (m log).1

pub IsHonestOver-failed : {A : Type 0} (e : SyncFailure) → IsHonestOver {A = A} none (pure (some e))
IsHonestOver-failed e = record { at = λ log h. absurd (ground arith) }

pub IsHonestOver-queried :
    {A : Type 0} (existing : A) (m : Action Checked) → IsHonest m → IsHonestOver (some existing) m
IsHonestOver-queried existing m x = record { at = λ log h. (existing, refl, x.at log h) }
