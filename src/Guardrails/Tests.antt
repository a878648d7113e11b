-- ===== src/Guardrails/Tests.antt =====
-- A Redis in memory, runs of the guardrails on it, and their theorems there.
use monica_companion.Base.{
  ℕ, ◌≡◌, refl, ◌⊎◌, false, not, ◌||◌, none, some, List, [], ◌∷◌, String, str_eq, str_eq_self,
  arith, if◌then◌else◌, ltb, keep, length,
}
use monica_companion.Effects.{ok}
use monica_companion.Guardrails.{
  Member, Redis, answered, dropped, Fault, Options, Moment, World, GuardAnswer, handled, refused,
  is_kill_switch_active, check_rate_limit, record_and_check_budget, acquire_concurrency,
  release_concurrency, middleware,
}
use monica_companion.Guardrails.Closed.{ArePassed, IsRefused, served, middleware-IsClosed}
use monica_companion.Guardrails.Gate.{IsBounded, enters, leaves, move, moves, moves-IsBounded}

guardrails : Unit {0}
unfolding is_kill_switch_active check_rate_limit record_and_check_budget acquire_concurrency
    release_concurrency middleware move moves
guardrails = tt

-- The sorted set of each key.
abbrev Sets : Type 0
Sets = String → List Member

abbrev changed : String → (List Member → List Member) → Sets → Sets
changed k f s j = if str_eq j k then f (s j) else s j

changed_lem : (k : String) (f : List Member → List Member) (s : Sets) → changed k f s k ≡ f (s k)
changed_lem k f s = rw (str_eq_self k) refl

abbrev memory : Redis
memory = record {
  State = Sets;
  get = (λ k s. none);
  incrby = (λ k n s. (n, s));
  expire = (λ k n s. s);
  zremrangebyscore = (λ k lo hi s. changed k (keep (λ e. ltb e.score lo || ltb hi e.score)) s);
  zadd = (λ k n m s.
      changed k (λ l. record { member = m; score = n } ∷ keep (λ e. not (str_eq e.member m)) l) s);
  zcard = (λ k s. length (s k));
  zrem = (λ k m s. changed k (keep (λ e. not (str_eq e.member m))) s);
  entries = (λ k s. s k);
  zcard_length = (λ k s. refl);
  entries_zremrangebyscore =
      (λ k lo hi s. changed_lem k (keep (λ e. ltb e.score lo || ltb hi e.score)) s);
  entries_zadd = (λ k n m s.
      changed_lem k (λ l. record { member = m; score = n } ∷ keep (λ e. not (str_eq e.member m)) l)
        s);
  entries_zrem = (λ k m s. changed_lem k (keep (λ e. not (str_eq e.member m))) s);
  entries_expire = (λ k n s. refl);
}

abbrev options : Options
options = record {
  model_type = "llm";
  rate_limit = 2;
  rate_window_seconds = 60;
  max_concurrency = 1;
  limit_cents = 100;
  cost_cents = 5;
}

abbrev moment : ℕ → Moment
moment at = record {
  rate_at = at;
  gate_at = at;
  nonce = "n";
  month_key = "guardrail:budget:2026-01";
  ends = ok tt;
}

abbrev idle_world : World memory
idle_world = record { redis = (λ k. []); faults = []; runs = 0 }

abbrev ask : World memory → GuardAnswer × World memory
ask w = middleware memory (λ s. 0) options (some "ann") "r1" (moment 100000) w

guardrail_tests :
    ((ask idle_world).0 ≡ handled)
    × ((ask idle_world).1.runs ≡ 1)
    × ((ask idle_world).1.redis "guardrail:concurrency:llm:ann" ≡ [])
    × ((ask (record idle_world { faults = dropped ∷ [] })).0 ≡ refused 503 "service_degraded")
    × ((acquire_concurrency memory options "ann" 5 "r2"
          (acquire_concurrency memory options "ann" 5 "r1" idle_world).1).0
        ≡ ok false)
unfolding guardrails
guardrail_tests = (refl, refl, refl, refl, refl)

moves-IsBounded_example :
    IsBounded memory options "ann" 9
      (moves memory options "ann" (enters "r1" 5 ∷ enters "r2" 6 ∷ leaves "r1" 9 ∷ []) idle_world)
moves-IsBounded_example =
    moves-IsBounded memory options "ann" (enters "r1" 5 ∷ enters "r2" 6 ∷ leaves "r1" 9 ∷ []) 0
      idle_world (omega arith) (omega arith)

-- The release of the slot fails.
abbrev unreleased : List Fault
unreleased =
    answered ∷ answered ∷ answered ∷ answered ∷ answered ∷ answered ∷ answered ∷ dropped ∷ []

release_tests : (ask (record idle_world { faults = unreleased })).1.runs ≡ 1
unfolding guardrails
release_tests = refl

middleware-IsClosed_example :
    (ArePassed memory (λ s. 0) options "ann" "r1" (moment 100000) idle_world
      × ((ask idle_world).1 ≡ served memory (λ s. 0) options "ann" "r1" (moment 100000) idle_world)
      × ((served memory (λ s. 0) options "ann" "r1" (moment 100000) idle_world).runs ≡ 1))
    ⊎ (((ask idle_world).1.runs ≡ 0) × IsRefused (ask idle_world).0)
middleware-IsClosed_example =
    middleware-IsClosed memory (λ s. 0) options "ann" "r1" (moment 100000) idle_world
