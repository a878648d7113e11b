-- ===== src/Guardrails.antt =====
-- The guardrails of calls to a model (packages/guardrails/src): the kill switch, the rate limiter,
-- the budget, the concurrency gate, and the middleware that composes them. Redis is an interface; a
-- call to it may fail, before or after it has taken effect.
use monica_companion.Base.{
  ℕ, suc, ◌+◌, ◌-◌, ◌*◌, ◌≡◌, Bool, true, false, not, ◌||◌, Option, none, some, List, [], ◌∷◌,
  String, str_eq, if◌then◌else◌, ltb, leb, keep, length,
}
use monica_companion.Effects.{Outcome, ok, throws}
use monica_companion.Json.{◌+++◌}
pub mod Gate
pub mod Closed
mod Tests

-- A member of a sorted set.
pub record Member : Type 0 where
  pub member : String
  pub score : ℕ

-- The commands that the guardrails use, with what is documented of the sorted sets.
pub record Redis : Type 1 where
  pub State : Type 0
  pub get : String → State → Option String
  pub incrby : String → ℕ → State → ℕ × State
  pub expire : String → ℕ → State → State
  pub zremrangebyscore : String → ℕ → ℕ → State → State
  pub zadd : String → ℕ → String → State → State
  pub zcard : String → State → ℕ
  pub zrem : String → String → State → State
  pub entries : String → State → List Member
  pub zcard_length : (k : String) (s : State) → zcard k s ≡ length (entries k s)
  pub entries_zremrangebyscore :
      (k : String) (lo hi : ℕ) (s : State)
      → entries k (zremrangebyscore k lo hi s)
        ≡ keep (λ e. ltb e.score lo || ltb hi e.score) (entries k s)
  pub entries_zadd :
      (k : String) (n : ℕ) (m : String) (s : State)
      → entries k (zadd k n m s)
        ≡ record { member = m; score = n } ∷ keep (λ e. not (str_eq e.member m)) (entries k s)
  pub entries_zrem :
      (k m : String) (s : State)
      → entries k (zrem k m s) ≡ keep (λ e. not (str_eq e.member m)) (entries k s)
  pub entries_expire : (k : String) (n : ℕ) (s : State) → entries k (expire k n s) ≡ entries k s

-- What happens to a call: it is answered, it does not reach Redis, its answer is lost, or the
-- transaction is aborted.
pub data Fault : Type 0 where
  answered dropped unanswered aborted : Fault

-- GuardrailMiddlewareOptions, with the costs in cents, and what a request brings.
pub record Options : Type 0 where
  pub model_type : String
  pub rate_limit : ℕ
  pub rate_window_seconds : ℕ
  pub max_concurrency : ℕ
  pub limit_cents : ℕ
  pub cost_cents : ℕ

-- What a request finds: the clock at the rate limiter and at the gate, the random part of its entry,
-- the key of the month, and how the handler ends.
pub record Moment : Type 0 where
  pub rate_at : ℕ
  pub gate_at : ℕ
  pub nonce : String
  pub month_key : String
  pub ends : Outcome (Unit {0})

-- What the middleware returns. Once the handler has answered, the framework keeps that answer.
pub data GuardAnswer : Type 0 where
  handled : GuardAnswer
  refused : (status : ℕ) (error : String) → GuardAnswer

module _ (r : Redis) where
  -- Redis, the faults of the calls to come, and how often the handler has run.
  pub record World : Type 0 where
    pub redis : r.State
    pub faults : List Fault
    pub runs : ℕ

  abbrev pub M : Type 0 → Type 0
  M A = World → Outcome A × World

  abbrev pub next_fault : List Fault → Fault
  next_fault [] = answered
  next_fault (f ∷ fs) = f

  abbrev pub later_faults : List Fault → List Fault
  later_faults [] = []
  later_faults (f ∷ fs) = fs

  abbrev pub replied : {A : Type 0} → Fault → A × r.State → World → Outcome A × World
  replied answered (a, s) w = (ok a, record w { redis = s })
  replied unanswered (a, s) w = (throws "Connection is closed.", record w { redis = s })
  replied dropped (a, s) w = (throws "Connection is closed.", w)
  replied aborted (a, s) w = (throws "Connection is closed.", w)

  -- An awaited command.
  abbrev pub call : {A : Type 0} → (r.State → A × r.State) → M A
  call f w = replied (next_fault w.faults) (f w.redis) (record w { faults = later_faults w.faults })

  abbrev pub executed : {A : Type 0} → Fault → A × r.State → World → Outcome (Option A) × World
  executed answered (a, s) w = (ok (some a), record w { redis = s })
  executed unanswered (a, s) w = (throws "Connection is closed.", record w { redis = s })
  executed dropped (a, s) w = (throws "Connection is closed.", w)
  executed aborted (a, s) w = (ok none, w)

  -- An awaited transaction: null if it is aborted.
  abbrev pub exec : {A : Type 0} → (r.State → A × r.State) → M (Option A)
  exec f w =
      executed (next_fault w.faults) (f w.redis) (record w { faults = later_faults w.faults })

  abbrev pub await_then : {A B : Type 0} → Outcome A × World → (A → M B) → Outcome B × World
  await_then (ok a, w) f = f a w
  await_then (throws m, w) f = (throws m, w)

  infixl 5 ◌>>=◌
  abbrev pub ◌>>=◌ : {A B : Type 0} → M A → (A → M B) → M B
  (m >>= f) w = await_then (m w) f

  abbrev pub pure : {A : Type 0} → A → M A
  pure a w = (ok a, w)

  -- isKillSwitchActive.
  abbrev pub is_on : Option String → Bool
  is_on none = false
  is_on (some v) = str_eq v "on"

  unfoldable pub is_kill_switch_active : M Bool
  is_kill_switch_active = call (λ s. (r.get "guardrail:kill-switch" s, s)) >>= (λ v. pure (is_on v))

  -- The transaction of checkRateLimit: the entries of the window, the new one among them.
  abbrev pub rate_key : Options → String → String
  rate_key o user = "guardrail:rate:" +++ (o.model_type +++ (":" +++ user))

  abbrev pub count_request : Options → String → (now : ℕ) → String → r.State → ℕ × r.State
  count_request o user now nonce s =
      let key = rate_key o user in
      let pruned = r.zremrangebyscore key 0 (now - o.rate_window_seconds * 1000) s in
      let added = r.zadd key now nonce pruned in
      (r.zcard key added, r.expire key o.rate_window_seconds added)

  abbrev pub within : ℕ → Option ℕ → Bool
  within limit none = false
  within limit (some n) = leb n limit

  -- checkRateLimit: whether the request is allowed.
  unfoldable pub check_rate_limit : Options → String → (now : ℕ) → String → M Bool
  check_rate_limit o user now nonce =
      exec (count_request o user now nonce) >>= (λ n. pure (within o.rate_limit n))

  -- recordAndCheckBudget: whether the cost is allowed. `parse` is Number.parseInt.
  abbrev pub spent : (String → ℕ) → Option String → ℕ
  spent parse none = 0
  spent parse (some v) = if str_eq v "" then 0 else parse v

  unfoldable pub record_and_check_budget : (String → ℕ) → Options → (key : String) → M Bool
  record_and_check_budget parse o key = call (λ s. (r.get key s, s)) >>= (λ v.
      if leb o.limit_cents (spent parse v)
      then pure false
      else call (r.incrby key o.cost_cents) >>= (λ n.
        call (λ s. (tt {0}, r.expire key 3024000 s)) >>= (λ u. pure (leb n o.limit_cents))))

  abbrev pub gate_key : Options → String → String
  gate_key o user = "guardrail:concurrency:" +++ (o.model_type +++ (":" +++ user))

  abbrev pub default_ttl_seconds : ℕ
  default_ttl_seconds = 120

  -- The two transactions of acquireConcurrency.
  abbrev pub count_active : String → (now : ℕ) → r.State → ℕ × r.State
  count_active key now s =
      let cleaned = r.zremrangebyscore key 0 now s in (r.zcard key cleaned, cleaned)

  abbrev pub add_active : String → (now : ℕ) → String → r.State → Unit {0} × r.State
  add_active key now id s =
      (tt, r.expire key default_ttl_seconds (r.zadd key (now + default_ttl_seconds * 1000) id s))

  abbrev pub has_room : ℕ → Option ℕ → Bool
  has_room limit none = false
  has_room limit (some n) = ltb n limit

  -- What follows the first transaction.
  abbrev pub admit : Options → String → (now : ℕ) → String → Option ℕ → M Bool
  admit o user now id n =
      if has_room o.max_concurrency n
      then exec (add_active (gate_key o user) now id) >>= (λ u. pure true)
      else pure false

  -- acquireConcurrency: whether a slot is acquired.
  unfoldable pub acquire_concurrency : Options → String → (now : ℕ) → String → M Bool
  acquire_concurrency o user now id =
      exec (count_active (gate_key o user) now) >>= admit o user now id

  -- releaseConcurrency.
  unfoldable pub release_concurrency : Options → String → String → M (Unit {0})
  release_concurrency o user id = call (λ s. (tt, r.zrem (gate_key o user) id s))

  -- next(): the handler runs.
  abbrev pub next : Outcome (Unit {0}) → M (Unit {0})
  next outcome w = (outcome, record w { runs = suc w.runs })

  -- try { m } finally { after }: an error of `after` takes the place of the outcome.
  abbrev pub finished : {A : Type 0} → Outcome A → Outcome (Unit {0}) × World → Outcome A × World
  finished o (ok u, w) = (o, w)
  finished o (throws m, w) = (throws m, w)

  abbrev pub finally : {A : Type 0} → M A → M (Unit {0}) → M A
  finally m after w = let (o, w') = m w in finished o (after w')

  abbrev pub degraded : GuardAnswer
  degraded = refused 503 "service_degraded"

  -- The steps of guardrailMiddleware, in their order.
  abbrev pub run_handler : Options → String → String → Moment → M GuardAnswer
  run_handler o user id t =
      finally (next t.ends) (release_concurrency o user id) >>= (λ u. pure handled)

  abbrev pub gate_step : Options → String → String → Moment → M GuardAnswer
  gate_step o user id t = acquire_concurrency o user t.gate_at id >>= (λ acquired.
      if acquired then run_handler o user id t else pure (refused 429 "concurrency_exceeded"))

  abbrev pub budget_step : (String → ℕ) → Options → String → String → Moment → M GuardAnswer
  budget_step parse o user id t = record_and_check_budget parse o t.month_key >>= (λ allowed.
      if allowed then gate_step o user id t else pure (refused 503 "budget_exhausted"))

  abbrev pub rate_step : (String → ℕ) → Options → String → String → Moment → M GuardAnswer
  rate_step parse o user id t = check_rate_limit o user t.rate_at t.nonce >>= (λ allowed.
      if allowed then budget_step parse o user id t else pure (refused 429 "rate_limited"))

  abbrev pub guarded : (String → ℕ) → Options → String → String → Moment → M GuardAnswer
  guarded parse o user id t =
      is_kill_switch_active
      >>= (λ active. if active then pure degraded else rate_step parse o user id t)

  -- The catch around the checks and the handler.
  abbrev pub failing_closed : Outcome GuardAnswer × World → GuardAnswer × World
  failing_closed (ok a, w) = (a, w)
  failing_closed (throws m, w) = (degraded, w)

  -- guardrailMiddleware, for the identifier of the user and of the request.
  unfoldable pub middleware :
      (String → ℕ) → Options → Option String → (id : String) → Moment → World → GuardAnswer × World
  unfolding is_kill_switch_active check_rate_limit record_and_check_budget acquire_concurrency
      release_concurrency
  middleware parse o none id t w = (refused 400 "missing_user_id", w)
  middleware parse o (some user) id t w = failing_closed (guarded parse o user id t w)
