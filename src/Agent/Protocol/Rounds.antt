-- ===== src/Agent/Protocol/Rounds.antt =====
-- The loops over answers keep every stored history to the protocol.
use monica_companion.Base.{
  ℕ, zero, suc, ◌≡◌, refl, true, false, Option, none, some, List, [], ◌∷◌, ◌++◌, String, str_eq,
  arith, if◌then◌else◌, Bool-cases, Option-cases, inl, inr, ap, leb,
}
use monica_companion.Sql.{upsert-All}
use monica_companion.Effects.{Outcome, ok, throws}
use monica_companion.Json.{Json}
use monica_companion.Agent.Messages.{Message, assistant, ToolCall, Assistant}
use monica_companion.Agent.History.{Row, Pending, absent, save_history, get_history, user_of}
use monica_companion.Agent.World.{Outside, M}
use monica_companion.Agent.Turn.{Turn, main_turn, post_confirm_turn, all_tools_failed}
use monica_companion.Agent.Loop.{
  Reply, confirmation_prompt, ask, after_turn, after_answer, agent_rounds, after_confirmed_turn,
  after_confirmed_answer, post_confirm_rounds, no_calls,
}
use monica_companion.Agent.Protocol.{
  ids, due, IsTail, IsPending, IsPaired, IsTail-append, truncated-IsTail,
}
use monica_companion.Agent.Protocol.Turns.{
  OnValue, ArePaired, Gives, bind-Gives, Awaits, main_turn-Gives, post_confirm_turn-Gives,
}

-- A stored row of a paired table.
pub row-IsPaired :
    (u : String) (rows : List Row) (r : Row)
    → ArePaired rows
    → get_history u rows ≡ some r
    → IsPaired r
unfolding get_history
row-IsPaired u [] r h e = absurd (ground arith)
row-IsPaired u (x ∷ rows) r (h, hs) e = elim (Bool-cases (str_eq (user_of x) u)) [
  | inl f ↦ let e' : some x ≡ some r = rw f at e in rw (← some_injective e') h
  | inr f ↦ row-IsPaired u rows r hs (rw f at e)
]
  where
    some_injective : {A : Type 0} {a b : A} → some a ≡ some b → a ≡ b
    some_injective h = cc

-- Nothing is said of the value.
abbrev pub Anything : {A : Type 0} → A → Type 0
Anything a = Unit

pub on_Anything : {A : Type 0} (x : Outcome A) → OnValue Anything x
on_Anything (ok a) = tt
on_Anything (throws m) = tt

pub answer-IsTail :
    (ms : List Message) (a : Assistant) (results : List Message)
    → IsTail ms
    → due (ids a.tool_calls) results ≡ some []
    → IsTail (ms ++ assistant a ∷ results)
answer-IsTail ms a results t h = IsTail-append ms (assistant a ∷ results) t h

module _ (out : Outside) where
  pub save-ArePaired :
      (u : String) (ms : List Message) (p : Pending) (now : ℕ) (rows : List Row)
      → IsTail ms
      → IsPending p
      → ArePaired rows
      → ArePaired (save_history u ms p now rows)
  unfolding save_history
  save-ArePaired u ms p now rows t k h =
      upsert-All IsPaired user_of _ _ rows (record { tail = truncated-IsTail ms t; waits = k })
        (λ r _. record { tail = truncated-IsTail ms t; waits = k }) h

  pub ask-Gives : (ms : List Message) → Gives Anything (ask out ms)
  ask-Gives ms w h = (h, on_Anything _)

  no_calls-ids : (a : Assistant) → no_calls out a ≡ true → ids a.tool_calls ≡ []
  no_calls-ids a h = go a.tool_calls h
    where
      go : (cs : List ToolCall) → elim cs [ [] ↦ true | c ∷ cs ↦ false ] ≡ true → ids cs ≡ []
      go [] h = refl
      go (c ∷ cs) h = cc

  pub final-IsTail :
      (ms : List Message) (a : Assistant)
      → IsTail ms
      → no_calls out a ≡ true
      → IsTail (ms ++ assistant a ∷ [])
  final-IsTail ms a t h = answer-IsTail ms a [] t (ap some (no_calls-ids a h))

  intercepted_due :
      (start : List String) (t : Turn) {c : ToolCall} {v : Json}
      → Awaits start [] t
      → t.intercepted ≡ some (c, v)
      → due start t.results ≡ some (c.id ∷ [])
  intercepted_due start t h e = rw e at h

  free_due :
      (start : List String) (t : Turn)
      → Awaits start [] t
      → t.intercepted ≡ none
      → due start t.results ≡ some []
  free_due start t h e = rw e at h

  after_turn-Gives :
      (continue : List Message → ℕ → M Reply) (u : String) (ms : List Message) (a : Assistant)
      (errors : ℕ) (t : Turn)
      → IsTail ms
      → Awaits (ids a.tool_calls) [] t
      → ((ms' : List Message) (e : ℕ) → IsTail ms' → Gives Anything (continue ms' e))
      → Gives Anything (after_turn out continue u ms a errors t)
  after_turn-Gives continue u ms a errors t k l next w h = elim (Option-cases t.intercepted) [
    | inr ((c, v), e) ↦
        let d = intercepted_due (ids a.tool_calls) t l e in
        rw e (save-ArePaired u ms _ out.now w.rows k d h, tt)
    | inl e ↦
        let k' = answer-IsTail ms a t.results k (free_due (ids a.tool_calls) t l e) in
        rw e (elim (Bool-cases (leb 2 (if all_tools_failed out t.results then suc errors else 0))) [
          | inl stop ↦ rw stop (save-ArePaired u _ absent out.now w.rows k' tt h, tt)
          | inr more ↦ rw more (next _ _ k' w h)
        ])
  ]

  after_answer-Gives :
      (continue : List Message → ℕ → M Reply) (u : String) (ms : List Message) (errors : ℕ)
      (o : Option Assistant)
      → IsTail ms
      → ((ms' : List Message) (e : ℕ) → IsTail ms' → Gives Anything (continue ms' e))
      → Gives Anything (after_answer out continue u ms errors o)
  after_answer-Gives continue u ms errors none k next w h = (h, tt)
  after_answer-Gives continue u ms errors (some a) k next w h = elim (Bool-cases (no_calls out a)) [
    | inl e ↦ rw e (save-ArePaired u _ absent out.now w.rows (final-IsTail ms a k e) tt h, tt)
    | inr e ↦ rw e (
        bind-Gives (Awaits (ids a.tool_calls) []) Anything (main_turn out u a.tool_calls)
          (after_turn out continue u ms a errors) (main_turn-Gives out u a.tool_calls)
          (λ t l. after_turn-Gives continue u ms a errors t k l next) w h)
  ]

  pub rounds-Gives :
      (rounds : ℕ) (u : String) (ms : List Message) (errors : ℕ)
      → IsTail ms
      → Gives Anything (agent_rounds out rounds u ms errors)
  unfolding agent_rounds
  rounds-Gives zero u ms errors k w h = (save-ArePaired u ms absent out.now w.rows k tt h, tt)
  rounds-Gives (suc rounds) u ms errors k w h =
      bind-Gives Anything Anything (ask out ms)
        (after_answer out (λ ms' e. agent_rounds out rounds u ms' e) u ms errors) (ask-Gives ms)
        (λ o _.
          after_answer-Gives (λ ms' e. agent_rounds out rounds u ms' e) u ms errors o k
            (λ ms' e k'. rounds-Gives rounds u ms' e k'))
        w h

  -- The messages that are saved with a reply, which is not done with a confirmation prompt.
  abbrev pub IsSaveable : Reply × List Message → Type 0
  IsSaveable (confirmation_prompt t id version, ms) = Unit
  IsSaveable (reply, ms) = IsTail ms

  after_confirmed_turn-Gives :
      (continue : List Message → M (Reply × List Message)) (u : String) (ms : List Message)
      (a : Assistant) (t : Turn)
      → IsTail ms
      → Awaits (ids a.tool_calls) [] t
      → ((ms' : List Message) → IsTail ms' → Gives IsSaveable (continue ms'))
      → Gives IsSaveable (after_confirmed_turn out continue u ms a t)
  after_confirmed_turn-Gives continue u ms a t k l next w h = elim (Option-cases t.intercepted) [
    | inr ((c, v), e) ↦
        let d = intercepted_due (ids a.tool_calls) t l e in
        rw e (save-ArePaired u ms _ out.now w.rows k d h, tt)
    | inl e ↦ rw e (next _ (answer-IsTail ms a t.results k (free_due (ids a.tool_calls) t l e)) w h)
  ]

  after_confirmed_answer-Gives :
      (continue : List Message → M (Reply × List Message)) (u : String) (ms : List Message)
      (o : Option Assistant)
      → IsTail ms
      → ((ms' : List Message) → IsTail ms' → Gives IsSaveable (continue ms'))
      → Gives IsSaveable (after_confirmed_answer out continue u ms o)
  after_confirmed_answer-Gives continue u ms none k next w h = (h, k)
  after_confirmed_answer-Gives continue u ms (some a) k next w h =
      elim (Bool-cases (no_calls out a)) [
        | inl e ↦ rw e (h, final-IsTail ms a k e)
        | inr e ↦ rw e (
            bind-Gives (Awaits (ids a.tool_calls) []) IsSaveable
              (post_confirm_turn out u a.tool_calls) (after_confirmed_turn out continue u ms a)
              (post_confirm_turn-Gives out u a.tool_calls)
              (λ t l. after_confirmed_turn-Gives continue u ms a t k l next) w h)
      ]

  pub post_confirm-Gives :
      (rounds : ℕ) (u : String) (ms : List Message)
      → IsTail ms
      → Gives IsSaveable (post_confirm_rounds out rounds u ms)
  unfolding post_confirm_rounds
  post_confirm-Gives zero u ms k w h = (h, k)
  post_confirm-Gives (suc rounds) u ms k w h =
      bind-Gives Anything IsSaveable (ask out ms)
        (after_confirmed_answer out (λ ms'. post_confirm_rounds out rounds u ms') u ms)
        (ask-Gives ms)
        (λ o _.
          after_confirmed_answer-Gives (λ ms'. post_confirm_rounds out rounds u ms') u ms o k
            (λ ms' k'. post_confirm-Gives rounds u ms' k'))
        w h
