-- ===== src/Scheduler/Execute/Once.antt =====
-- How often the execute route starts a command.
use monica_companion.Base.{
  ℕ, suc, ◌+◌, ◌≤◌, ◌≡◌, refl, inl, inr, Bool, true, false, ◌&&◌, Option, none, some, List, [], ◌∷◌,
  String, arith, Option-cases, Bool-cases, str_eq, str_eq-ne, text-cases, ◌∙◌, ap,
}
use monica_companion.Idempotency.{
  Entry, complete, check, claim, running, done, CheckResult, reclaim, step, reclaims, inserts,
  completes,
}
use monica_companion.Idempotency.Laws.{entry, entry-complete, IsTable, step-IsTable}
use monica_companion.Idempotency.Claims.{check-entry, claim_outcome}
use monica_companion.Scheduler.Command.{Command}
use monica_companion.Effects.{Fetched, rejected, not_ok, garbled, answered, Outcome, ok, throws}
use monica_companion.Scheduler.Worker.{
  Job, World, Outside, suppressed, process_command_job, Execution,
}
use monica_companion.Scheduler.Worker.Laws.{process-sent, process_keeps, process-keys, answer}
use monica_companion.Scheduler.Execute.{
  claim_ttl, Call, job_of, processed, recorded, start, claimed_then, execute_command, execute,
  serve, repeated,
}

module _ {R : Type 0} (out : Outside R) where
  abbrev pub tally {ℓ} : {A : Type ℓ} → (A → String) → String → List A → ℕ
  tally f k [] = 0
  tally f k (x ∷ xs) = elim (str_eq (f x) k) [ true ↦ suc (tally f k xs) | false ↦ tally f k xs ]

  -- How often a command with the key was sent to Monica or put on the queue.
  abbrev pub started : String → World R → ℕ
  started k w =
      tally (λ s. s.0.idempotency_key) k w.sent + tally (λ j. j.command.idempotency_key) k w.queue

  -- 1 while the key is free.
  abbrev pub slack : Option (Entry R) → ℕ
  slack none = 1
  slack (some e) = 0

  slack-complete :
      (k j : String) (v : R) (now : ℕ) (t : List (Entry R))
      → slack (entry j (complete k v now t)) ≡ slack (entry j t)
  slack-complete k j v now t = ground (arith, entry-complete k j v now t)

  abbrev hit : String → String → ℕ
  hit j k = elim (str_eq j k) [ true ↦ 1 | false ↦ 0 ]

  -- A property of the keys that completing a key keeps is kept by a run of the worker.
  module _ (P : List (Entry R) → Type 0)
      (closed : (k : String) (v : R) (now : ℕ) (t : List (Entry R))
        → P t
        → P (complete k v now t)) where
    process_closed :
        (job : Job) (now : ℕ) (w : World R)
        → P w.keys
        → P (process_command_job out job now w).1.keys
    process_closed job now w p = rw (process-keys out job now w) (go (answer out job w))
      where
        go :
            (a : Fetched R)
            → P (elim a [
              | answered r ↦ complete job.command.idempotency_key r now w.keys
              | _ ↦ w.keys
            ])
        go (answered r) = closed job.command.idempotency_key r now w.keys p
        go (rejected m) = p
        go (not_ok n m) = p
        go (garbled m) = p

    processed_closed :
        (call : Call) (c : Command) (q : Outcome (Unit {0}) × World R)
        → P q.1.keys
        → P (processed out call c q).1.keys
    processed_closed call c (ok _, w) p = p
    processed_closed call c (throws m, w) p = p

    recorded_closed :
        (call : Call) (c : Command) (w : World R) (rows : Bool × List Execution)
        → P w.keys
        → P (recorded out call c w rows).1.keys
    recorded_closed call c w (false, rows) p = p
    recorded_closed call c w (true, rows) p = elim (Bool-cases (suppressed out c && call.sync)) [
      | inl sync ↦ rw sync (
          processed_closed call c _
            (process_closed (job_of out call c) call.now (record w { executions = rows }) p))
      | inr async ↦ rw async p
    ]

    start_closed :
        (call : Call) (c : Command) (w : World R) → P w.keys → P (start out call c w).1.keys
    unfolding start
    start_closed call c w p = recorded_closed call c w _ p

  processed_world :
      (call : Call) (c : Command) (p : Outcome (Unit {0}) × World R)
      → (processed out call c p).1 ≡ p.1
  processed_world call c (ok _, w) = refl
  processed_world call c (throws m, w) = refl

  recorded-started :
      (call : Call) (c : Command) (k : String) (w : World R) (rows : Bool × List Execution)
      → started k (recorded out call c w rows).1 ≤ started k w + hit c.idempotency_key k
  recorded-started call c k w (false, rows) = ground arith
  recorded-started call c k w (true, rows) =
      let w' : World R = record w { executions = rows } in
      let job = job_of out call c in
      elim (Bool-cases (suppressed out c && call.sync)) [
        | inl sync ↦ rw sync (
            rw (processed_world call c (process_command_job out job call.now w'))
              (ground (arith, process-sent out job call.now w', process_keeps out job call.now w')))
        | inr async ↦ rw async (ground arith)
      ]

  start-started :
      (call : Call) (c : Command) (k : String) (w : World R)
      → started k (start out call c w).1 ≤ started k w + hit c.idempotency_key k
  unfolding start
  start-started call c k w = recorded-started call c k w _

  claim-IsTable :
      (k : String) (ttl clock now : ℕ) (t : List (Entry R))
      → IsTable t
      → IsTable (claim k ttl clock now t).1
  unfolding claim step
  claim-IsTable k ttl clock now t u = elim (Bool-cases (reclaim k (clock + ttl) now t).0) [
    | inl e ↦ rw e (step-IsTable (reclaims k (clock + ttl) now) t u)
    | inr e ↦ rw e (
        step-IsTable (inserts k (clock + ttl) now) _
          (step-IsTable (reclaims k (clock + ttl) now) t u))
  ]

  complete-IsTable :
      (k : String) (v : R) (now : ℕ) (t : List (Entry R)) → IsTable t → IsTable (complete k v now t)
  unfolding step
  complete-IsTable k v now t u = step-IsTable (completes k v now) t u

  abbrev taken : Call → Command → World R → Bool × List (Entry R)
  taken call c w = claim c.idempotency_key claim_ttl call.clock call.now w.keys

  -- What a claim takes, it no longer leaves free.
  claim-slack :
      (call : Call) (c : Command) (k : String) (w : World R)
      → IsTable w.keys
      → check c.idempotency_key w.keys ≡ none
      → (elim (taken call c w).0 [ true ↦ hit c.idempotency_key k | false ↦ 0 ])
          + slack (entry k (taken call c w).1)
        ≤ slack (entry k w.keys)
  claim-slack call c k w u h =
      let lem = claim_outcome c.idempotency_key k claim_ttl call.clock call.now w.keys u in
      let seen = check-entry c.idempotency_key w.keys in
      elim (text-cases c.idempotency_key k) [
        | inl same ↦
            let before = ap (λ i. entry i w.keys) same in
            let after = ap (λ i. entry i (taken call c w).1) same in
            elim (Option-cases (entry c.idempotency_key w.keys)) [
              | inl gone ↦ ground (arith, lem.0, lem.1, before, after)
              | inr (e, found) ↦ absurd (ground (arith, seen))
            ]
        | inr ne ↦ ground (arith, str_eq-ne c.idempotency_key k ne, lem.2 ne)
      ]

  abbrev SlackIs : String → ℕ → List (Entry R) → Type 0
  SlackIs k n t = slack (entry k t) ≡ n

  claimed-started :
      (call : Call) (c : Command) (k : String) (w : World R) (p : Bool × List (Entry R))
      → started k (claimed_then out call c w p).1
          + slack (entry k (claimed_then out call c w p).1.keys)
        ≤ started k w
          + ((elim p.0 [ true ↦ hit c.idempotency_key k | false ↦ 0 ]) + slack (entry k p.1))
  claimed-started call c k w (true, t) =
      let w' : World R = record w { keys = t } in
      let same =
        start_closed (SlackIs k (slack (entry k t)))
          (λ j v now t' e. slack-complete j k v now t' ∙ e) call c w' refl in
      omega (arith, same, start-started call c k w')
  claimed-started call c k w (false, t) = omega arith

  repeated_world : (w : World R) (seen : CheckResult R) → (repeated out w seen).1 ≡ w
  repeated_world w (done r) = refl
  repeated_world w running = refl

  execute_command-started :
      (call : Call) (c : Command) (k : String) (w : World R)
      → IsTable w.keys
      → started k (execute_command out call c w).1
          + slack (entry k (execute_command out call c w).1.keys)
        ≤ started k w + slack (entry k w.keys)
  unfolding execute_command
  execute_command-started call c k w u = elim (Option-cases (check c.idempotency_key w.keys)) [
    | inl new ↦
        rw (new, execute_command)
          (omega (arith, claimed-started call c k w (taken call c w), claim-slack call c k w u new))
    | inr (seen, old) ↦ rw (old, execute_command) (rw (repeated_world w seen) (omega arith))
  ]

  claimed-IsTable :
      (call : Call) (c : Command) (w : World R) (p : Bool × List (Entry R))
      → IsTable p.1
      → IsTable (claimed_then out call c w p).1.keys
  claimed-IsTable call c w (true, t) u =
      start_closed IsTable complete-IsTable call c (record w { keys = t }) u
  claimed-IsTable call c w (false, t) u = u

  execute_command-IsTable :
      (call : Call) (c : Command) (w : World R)
      → IsTable w.keys
      → IsTable (execute_command out call c w).1.keys
  unfolding execute_command
  execute_command-IsTable call c w u = elim (Option-cases (check c.idempotency_key w.keys)) [
    | inl new ↦
        rw (new, execute_command)
          (claimed-IsTable call c w (taken call c w)
            (claim-IsTable c.idempotency_key claim_ttl call.clock call.now w.keys u))
    | inr (seen, old) ↦ rw (old, execute_command) (rw (repeated_world w seen) u)
  ]

  execute-started :
      (call : Call) (k : String) (w : World R)
      → IsTable w.keys
      → (started k (execute out call w).1 + slack (entry k (execute out call w).1.keys)
          ≤ started k w + slack (entry k w.keys))
        × IsTable (execute out call w).1.keys
  unfolding execute
  execute-started call k w u = elim (Option-cases call.body) [
    | inl bad ↦ rw (bad, execute) (omega arith, u)
    | inr (c, good) ↦
        rw (good, execute)
          (execute_command-started call c k w u, execute_command-IsTable call c w u)
  ]

  -- If the store has one row for each key at most, then whatever requests arrive, in whatever order
  -- and at whatever times, the commands with one idempotency key are sent to Monica or queued at
  -- most once more; not at all if the key is known.
  pub serve-started :
      (calls : List Call) (k : String) (w : World R)
      → IsTable w.keys
      → started k (serve out calls w) ≤ started k w + slack (entry k w.keys)
  unfolding serve
  serve-started [] k w u = omega arith
  serve-started (call ∷ calls) k w u =
      let (step, u') = execute-started call k w u in
      omega (arith, step, serve-started calls k (execute out call w).1 u')
