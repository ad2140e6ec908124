-- ===== src/Env/Sends.antt =====
-- What an action may send: every request that it adds to the log has a property.
use aerospike_ce_kubernetes.Prelude.{Bool, true, false, ◌≡◌, refl, ◌∷◌, if◌then◌else◌}
use aerospike_ce_kubernetes.Env.{Env, Request, Exchange, Log, Action, send, pure, ◌>>=◌}

-- The log after is the log before with more requests on top, all with the property.
pub data Adds (P : Request → Type 0) (before : Log) : Log → Type 0 where
  nothing_new : Adds P before before
  one_more :
      {after : Log} (e : Exchange) → P e.request → Adds P before after → Adds P before (e ∷ after)

pub Adds-trans : {P : Request → Type 0} {a b c : Log} → Adds P b c → Adds P a b → Adds P a c
Adds-trans nothing_new x = x
Adds-trans (one_more e p y) x = one_more e p (Adds-trans y x)

pub Adds-weaken :
    {P Q : Request → Type 0} {a b : Log} → ((r : Request) → P r → Q r) → Adds P a b → Adds Q a b
Adds-weaken h nothing_new = nothing_new
Adds-weaken h (one_more e p y) = one_more e (h e.request p) (Adds-weaken h y)

-- The action adds only requests with the property, from any log.
pub record Sends {A : Type 0} (P : Request → Type 0) (m : Action A) : Type 0 where
  pub at : (log : Log) → Adds P log (m log).1

module _ {A : Type 0} (P : Request → Type 0) where
  pub Sends-pure : (a : A) → Sends P (pure a)
  Sends-pure a = record { at = λ log. nothing_new }

  pub Sends-if :
      (b : Bool) (m k : Action A)
      → (b ≡ true → Sends P m)
      → (b ≡ false → Sends P k)
      → Sends P (if b then m else k)
  Sends-if true m k x y = x refl
  Sends-if false m k x y = y refl

pub Sends-send : (P : Request → Type 0) (env : Env) (r : Request) → P r → Sends P (send env r)
unfolding send
Sends-send P env r p = record { at = λ log. one_more _ p nothing_new }

pub Sends-bind :
    {A B : Type 0} (P : Request → Type 0) (m : Action A) (f : A → Action B)
    → Sends P m
    → ((a : A) → Sends P (f a))
    → Sends P (m >>= f)
Sends-bind P m f x y = record { at = λ log. Adds-trans ((y (m log).0).at (m log).1) (x.at log) }

-- The same, where more is known of what the first action gives.
pub Sends-bind_known :
    {A B : Type 0} (P : Request → Type 0) (Q : A → Type 0) (m : Action A) (f : A → Action B)
    → Sends P m
    → ((log : Log) → Q (m log).0)
    → ((a : A) → Q a → Sends P (f a))
    → Sends P (m >>= f)
Sends-bind_known P Q m f x q y = record {
  at = λ log. Adds-trans ((y (m log).0 (q log)).at (m log).1) (x.at log);
}
