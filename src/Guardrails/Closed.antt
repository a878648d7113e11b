-- ===== src/Guardrails/Closed.antt =====
-- The middleware lets a request through when all its checks pass, and is closed otherwise.
use monica_companion.Base.{
  ℕ, suc, ◌≡◌, ◌∙◌, refl, ap, ◌⊎◌, inl, inr, Bool, true, false, not, Option, some, String,
  if◌then◌else◌, leb,
}
use monica_companion.Effects.{Outcome, ok, throws}
use monica_companion.Guardrails.{
  Fault, answered, dropped, unanswered, aborted, Redis, Options, Moment, GuardAnswer, handled,
  refused, World, M, next_fault, later_faults, replied, call, executed, exec, await_then, pure,
  is_kill_switch_active, check_rate_limit, record_and_check_budget, acquire_concurrency,
  release_concurrency, count_request, within, spent, gate_key, count_active, add_active, has_room,
  admit, is_on, finished, degraded, run_handler, gate_step, budget_step, rate_step, guarded,
  failing_closed, middleware,
}

abbrev pub IsRefused : GuardAnswer → Type 0
IsRefused handled = ⊥
IsRefused (refused status error) = Unit

module _ (r : Redis) where
  abbrev KeepsRuns : {A : Type 0} → M r A → Type 0
  KeepsRuns m = (w : World r) → (m w).1.runs ≡ w.runs

  replied-runs :
      {A : Type 0} (f : Fault) (x : A × r.State) (w : World r) → (replied r f x w).1.runs ≡ w.runs
  replied-runs answered (a, s) w = refl
  replied-runs unanswered (a, s) w = refl
  replied-runs dropped (a, s) w = refl
  replied-runs aborted (a, s) w = refl

  executed-runs :
      {A : Type 0} (f : Fault) (x : A × r.State) (w : World r) → (executed r f x w).1.runs ≡ w.runs
  executed-runs answered (a, s) w = refl
  executed-runs unanswered (a, s) w = refl
  executed-runs dropped (a, s) w = refl
  executed-runs aborted (a, s) w = refl

  call-runs : {A : Type 0} (f : r.State → A × r.State) → KeepsRuns (call r f)
  call-runs f w =
      replied-runs (next_fault r w.faults) (f w.redis)
        (record w { faults = later_faults r w.faults })

  exec-runs : {A : Type 0} (f : r.State → A × r.State) → KeepsRuns (exec r f)
  exec-runs f w =
      executed-runs (next_fault r w.faults) (f w.redis)
        (record w { faults = later_faults r w.faults })

  await-runs :
      {A B : Type 0} (x : Outcome A × World r) (f : A → M r B)
      → ((a : A) → KeepsRuns (f a))
      → (await_then r x f).1.runs ≡ x.1.runs
  await-runs (ok a, w) f h = h a w
  await-runs (throws m, w) f h = refl

  bind-runs :
      {A B : Type 0} (m : M r A) (f : A → M r B)
      → KeepsRuns m
      → ((a : A) → KeepsRuns (f a))
      → KeepsRuns (λ w. await_then r (m w) f)
  bind-runs m f hm hf w = await-runs (m w) f hf ∙ hm w

  if-runs :
      {A : Type 0} (b : Bool) (m n : M r A)
      → KeepsRuns m
      → KeepsRuns n
      → KeepsRuns (if b then m else n)
  if-runs true m n hm hn = hm
  if-runs false m n hm hn = hn

  kill_switch-runs : KeepsRuns (is_kill_switch_active r)
  unfolding is_kill_switch_active
  kill_switch-runs =
      bind-runs (call r (λ s. (r.get "guardrail:kill-switch" s, s))) (λ v. pure r (is_on r v))
        (call-runs (λ s. (r.get "guardrail:kill-switch" s, s))) (λ v w. refl)

  rate_limit-runs :
      (o : Options) (user : String) (now : ℕ) (nonce : String)
      → KeepsRuns (check_rate_limit r o user now nonce)
  unfolding check_rate_limit
  rate_limit-runs o user now nonce =
      bind-runs (exec r (count_request r o user now nonce)) (λ n. pure r (within r o.rate_limit n))
        (exec-runs (count_request r o user now nonce)) (λ n w. refl)

  acquire-runs :
      (o : Options) (user : String) (now : ℕ) (id : String)
      → KeepsRuns (acquire_concurrency r o user now id)
  unfolding acquire_concurrency
  acquire-runs o user now id =
      bind-runs (exec r (count_active r (gate_key r o user) now)) (admit r o user now id)
        (exec-runs (count_active r (gate_key r o user) now))
        (λ n.
          if-runs (has_room r o.max_concurrency n)
            (λ w.
              await_then r (exec r (add_active r (gate_key r o user) now id) w) (λ u. pure r true))
            (pure r false)
            (bind-runs (exec r (add_active r (gate_key r o user) now id)) (λ u. pure r true)
              (exec-runs (add_active r (gate_key r o user) now id)) (λ u w. refl))
            (λ w. refl))

  release-runs : (o : Options) (user id : String) → KeepsRuns (release_concurrency r o user id)
  unfolding release_concurrency
  release-runs o user id = call-runs (λ s. (tt {0}, r.zrem (gate_key r o user) id s))

  budget-runs :
      (parse : String → ℕ) (o : Options) (key : String)
      → KeepsRuns (record_and_check_budget r parse o key)
  unfolding record_and_check_budget
  budget-runs parse o key = bind-runs get taken (call-runs (λ s. (r.get key s, s))) taken-runs
    where
      get : M r (Option String)
      get = call r (λ s. (r.get key s, s))

      expiry : ℕ → M r Bool
      expiry n w =
          await_then r (call r (λ s. (tt {0}, r.expire key 3024000 s)) w)
            (λ u. pure r (leb n o.limit_cents))

      added : M r Bool
      added w = await_then r (call r (r.incrby key o.cost_cents) w) expiry

      taken : Option String → M r Bool
      taken v = if leb o.limit_cents (spent r parse v) then pure r false else added

      taken-runs : (v : Option String) → KeepsRuns (taken v)
      taken-runs v =
          if-runs (leb o.limit_cents (spent r parse v)) (pure r false) added (λ w. refl)
            (bind-runs (call r (r.incrby key o.cost_cents)) expiry
              (call-runs (r.incrby key o.cost_cents))
              (λ n.
                bind-runs (call r (λ s. (tt {0}, r.expire key 3024000 s)))
                  (λ u. pure r (leb n o.limit_cents))
                  (call-runs (λ s. (tt {0}, r.expire key 3024000 s))) (λ u w. refl)))

  -- The request is refused, and the handler has run as often as before.
  abbrev pub IsShut : ℕ → Outcome GuardAnswer × World r → Type 0
  IsShut n x = ((failing_closed r x).1.runs ≡ n) × IsRefused (failing_closed r x).0

  -- A check is passed and what follows does so, or the request is shut out.
  step-cases :
      (good : Bool) (n : ℕ) (Q : Outcome GuardAnswer × World r → Type 0)
      (x : Outcome Bool × World r) (f : Bool → M r GuardAnswer)
      → x.1.runs ≡ n
      → ((w : World r) → w.runs ≡ n → IsShut n (f (not good) w))
      → (x.0 ≡ ok good → Q (f good x.1) ⊎ IsShut n (f good x.1))
      → Q (await_then r x f) ⊎ IsShut n (await_then r x f)
  step-cases true n Q (ok true, w) f h shut go = go refl
  step-cases true n Q (ok false, w) f h shut go = inr (shut w h)
  step-cases true n Q (throws m, w) f h shut go = inr (h, tt)
  step-cases false n Q (ok true, w) f h shut go = inr (shut w h)
  step-cases false n Q (ok false, w) f h shut go = go refl
  step-cases false n Q (throws m, w) f h shut go = inr (h, tt)

  -- Once the handler has run, the slot is given back, however it ends.
  finished_world :
      (o : Outcome (Unit {0})) (x : Outcome (Unit {0}) × World r)
      → (failing_closed r (await_then r (finished r o x) (λ u. pure r handled))).1 ≡ x.1
  finished_world (ok u) (ok v, w) = refl
  finished_world (throws m) (ok v, w) = refl
  finished_world (ok u) (throws e, w) = refl
  finished_world (throws m) (throws e, w) = refl

  module _ (parse : String → ℕ) (o : Options) (user id : String) (t : Moment) where
    -- The worlds after the four checks.
    abbrev switched : World r → World r
    switched w = (is_kill_switch_active r w).1

    abbrev rated : World r → World r
    rated w = (check_rate_limit r o user t.rate_at t.nonce (switched w)).1

    abbrev budgeted : World r → World r
    budgeted w = (record_and_check_budget r parse o t.month_key (rated w)).1

    abbrev admitted : World r → World r
    admitted w = (acquire_concurrency r o user t.gate_at id (budgeted w)).1

    abbrev pub ArePassed : World r → Type 0
    ArePassed w =
        ((is_kill_switch_active r w).0 ≡ ok false)
        × ((check_rate_limit r o user t.rate_at t.nonce (switched w)).0 ≡ ok true)
        × ((record_and_check_budget r parse o t.month_key (rated w)).0 ≡ ok true)
        × ((acquire_concurrency r o user t.gate_at id (budgeted w)).0 ≡ ok true)

    -- The world after the handler has run once more and the slot is released.
    abbrev pub served : World r → World r
    served w = (release_concurrency r o user id (record (admitted w) { runs = suc w.runs })).1

    abbrev IsServed : World r → Outcome GuardAnswer × World r → Type 0
    IsServed w x = ArePassed w × ((failing_closed r x).1 ≡ served w)

    rated-runs : (w : World r) → (rated w).runs ≡ w.runs
    rated-runs w = rate_limit-runs o user t.rate_at t.nonce (switched w) ∙ kill_switch-runs w

    budgeted-runs : (w : World r) → (budgeted w).runs ≡ w.runs
    budgeted-runs w = budget-runs parse o t.month_key (rated w) ∙ rated-runs w

    admitted-runs : (w : World r) → (admitted w).runs ≡ w.runs
    admitted-runs w = acquire-runs o user t.gate_at id (budgeted w) ∙ budgeted-runs w

    run_handler_world :
        (w : World r) → (failing_closed r (run_handler r o user id t (admitted w))).1 ≡ served w
    run_handler_world w =
        finished_world t.ends
          (release_concurrency r o user id (record (admitted w) { runs = suc (admitted w).runs }))
        ∙ ap (λ n. (release_concurrency r o user id (record (admitted w) { runs = suc n })).1)
            (admitted-runs w)

    guarded-cases :
        (w : World r)
        → IsServed w (guarded r parse o user id t w) ⊎ IsShut w.runs (guarded r parse o user id t w)
    guarded-cases w =
        step-cases false w.runs (IsServed w) (is_kill_switch_active r w)
          (λ b. if b then pure r (degraded r) else rate_step r parse o user id t)
          (kill_switch-runs w) (λ v h. (h, tt))
          (λ e1.
            step-cases true w.runs (IsServed w)
              (check_rate_limit r o user t.rate_at t.nonce (switched w))
              (λ b.
                if b then budget_step r parse o user id t else pure r (refused 429 "rate_limited"))
              (rated-runs w) (λ v h. (h, tt))
              (λ e2.
                step-cases true w.runs (IsServed w)
                  (record_and_check_budget r parse o t.month_key (rated w))
                  (λ b.
                    if b then gate_step r o user id t else pure r (refused 503 "budget_exhausted"))
                  (budgeted-runs w) (λ v h. (h, tt))
                  (λ e3.
                    step-cases true w.runs (IsServed w)
                      (acquire_concurrency r o user t.gate_at id (budgeted w))
                      (λ b.
                        if b
                        then run_handler r o user id t
                        else pure r (refused 429 "concurrency_exceeded"))
                      (admitted-runs w) (λ v h. (h, tt))
                      (λ e4. inl ((e1, e2, e3, e4), run_handler_world w)))))

    -- Whichever calls to Redis fail, before or after they take effect, a request with a user's
    -- identifier either passes the kill switch, the rate limit, the budget and the gate in this
    -- order, and then the handler runs once and, however it ends, the slot is released after it; or
    -- the request is refused, and the handler does not run.
    pub middleware-IsClosed :
        (w : World r)
        → (ArePassed w
            × ((middleware r parse o (some user) id t w).1 ≡ served w)
            × ((served w).runs ≡ suc w.runs))
          ⊎ (((middleware r parse o (some user) id t w).1.runs ≡ w.runs)
              × IsRefused (middleware r parse o (some user) id t w).0)
    unfolding middleware
    middleware-IsClosed w = elim (guarded-cases w) [
      | inl (passed, e) ↦
          inl (passed, e, release-runs o user id (record (admitted w) { runs = suc w.runs }))
      | inr shut ↦ inr shut
    ]
