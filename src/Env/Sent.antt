-- ===== src/Env/Sent.antt =====
-- Facts about the log: what was sent stays sent, whatever is done afterwards.
use aerospike_ce_kubernetes.Prelude.{
  Bool, true, false, ◌≡◌, refl, ◌⊎◌, inl, inr, [], ◌∷◌, if◌then◌else◌,
}
use aerospike_ce_kubernetes.Env.{Env, Request, Reply, ok, Exchange, Log, Action, send, pure, ◌>>=◌}

-- The request has been answered with `ok`.
abbrev pub SentOk : Request → Log → Type 0
SentOk r [] = ⊥
SentOk r (e ∷ rest) = ((e.request ≡ r) × (e.reply ≡ ok)) ⊎ SentOk r rest

-- The log after is the log before with more on top.
pub data Extends (before : Log) : Log → Type 0 where
  same : Extends before before
  more : {after : Log} (e : Exchange) → Extends before after → Extends before (e ∷ after)

pub Extends-trans : {a b c : Log} → Extends b c → Extends a b → Extends a c
Extends-trans same x = x
Extends-trans (more e y) x = more e (Extends-trans y x)

pub SentOk-Extends : {a b : Log} (r : Request) → Extends a b → SentOk r a → SentOk r b
SentOk-Extends r same h = h
SentOk-Extends r (more e y) h = inr (SentOk-Extends r y h)

-- The action only adds to the log.
pub record Grows {A : Type 0} (m : Action A) : Type 0 where
  pub at : (log : Log) → Extends log (m log).1

module _ {A : Type 0} where
  pub Grows-pure : (a : A) → Grows (pure a)
  Grows-pure a = record { at = λ log. same }

  pub Grows-if : (b : Bool) (m k : Action A) → Grows m → Grows k → Grows (if b then m else k)
  Grows-if true m k x y = x
  Grows-if false m k x y = y

pub Grows-send : (env : Env) (r : Request) → Grows (send env r)
unfolding send
Grows-send env r = record { at = λ log. more _ same }

module _ {A B : Type 0} where
  pub Grows-bind :
      (m : Action A) (f : A → Action B) → Grows m → ((a : A) → Grows (f a)) → Grows (m >>= f)
  Grows-bind m f x y = record { at = λ log. Extends-trans ((y (m log).0).at (m log).1) (x.at log) }

pub ruleset grows_rules = (Grows-pure, Grows-if, Grows-send, Grows-bind)

-- The request has been answered in a way that is good.
abbrev pub SentAs : (Reply → Bool) → Request → Log → Type 0
SentAs good r [] = ⊥
SentAs good r (e ∷ rest) = ((e.request ≡ r) × (good e.reply ≡ true)) ⊎ SentAs good r rest

pub SentAs-Extends :
    {a b : Log} (good : Reply → Bool) (r : Request)
    → Extends a b
    → SentAs good r a
    → SentAs good r b
SentAs-Extends good r same h = h
SentAs-Extends good r (more e y) h = inr (SentAs-Extends good r y h)

pub SentAs-send :
    (env : Env) (good : Reply → Bool) (r : Request) (log : Log)
    → good (send env r log).0 ≡ true
    → SentAs good r (send env r log).1
unfolding send
SentAs-send env good r log h = inl (refl, h)
