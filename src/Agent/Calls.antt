-- ===== src/Agent/Calls.antt =====
-- How often one event asks the language model.
pub mod Events
use monica_companion.Base.{
  ℕ, zero, suc, ◌+◌, ◌≤◌, ◌≡◌, refl, ◌⊎◌, inl, inr, Bool, true, false, Option, none, some, List, [],
  ◌∷◌, ◌++◌, String, arith, if◌then◌else◌, Bool-cases, Option-cases, ap, leb, str_eq, not, length,
  ◌==◌,
}
use monica_companion.Effects.{Outcome, ok, throws}
use monica_companion.Json.{Fields}
use monica_companion.Agent.Messages.{Message, assistant, ToolCall, Assistant}
use monica_companion.Agent.Tools.{is_mutating}
use monica_companion.Agent.History.{
  Row, Pending, PendingToolCall, absent, refused, pending, get_history, is_expired,
}
use monica_companion.Agent.World.{World, Outside, M, await_then, caught, ◌>>=◌, pure, try}
use monica_companion.Agent.Mutating.{
  ToolOutcome, execute_mutating_tool, build_payload, fetch_contact_field_type_id, field_payload,
  submit, scheduler_execute, confirmed,
}
use monica_companion.Agent.Turn.{
  Turn, execute_read_only_tool, handle_call, handle_calls, main_turn, post_confirm_turn,
  all_tools_failed, status_message,
}
use monica_companion.Agent.Loop.{
  Reply, says, confirmation_prompt, fails, ask, after_turn, after_answer, agent_rounds,
  after_confirmed_turn, after_confirmed_answer, post_confirm_rounds, no_calls, max_iterations,
  max_post_confirm_iterations, save, or_text, content_of,
}

-- The action asks the model `n` times at most.
abbrev pub Asks : {A : Type 0} → ℕ → M A → Type 0
Asks n m = (w : World) → (m w).1.chats ≤ w.chats + n

pub bind-Asks :
    {A B : Type 0} (n k all : ℕ) (m : M A) (f : A → M B)
    → n + k ≤ all
    → Asks n m
    → ((a : A) → Asks k (f a))
    → Asks all (m >>= f)
bind-Asks {A} {B} n k all m f le mn fk w = go (m w) (mn w)
  where
    go :
        (p : Outcome A × World) → p.1.chats ≤ w.chats + n → (await_then p f).1.chats ≤ w.chats + all
    go (ok a, w') h = omega (arith, le, h, fk a w')
    go (throws e, w') h = omega (arith, le, h)

module _ (out : Outside) (u : String) where
  pub ask-Asks : (ms : List Message) → Asks 1 (ask out ms)
  ask-Asks ms w = omega arith

  read_only-Asks : (c : ToolCall) → Asks 0 (execute_read_only_tool out u c)
  unfolding execute_read_only_tool
  read_only-Asks c w = ground arith

  call-Asks :
      (busy : String → String) (c : ToolCall) (t : Turn) → Asks 0 (handle_call out busy u c t)
  unfolding handle_call
  call-Asks busy c t w = elim (Bool-cases (is_mutating c.name)) [
    | inl e ↦ rw e (omega arith)
    | inr e ↦ rw e (
        bind-Asks 0 0 0 (execute_read_only_tool out u c) _ (omega arith) (read_only-Asks c)
          (λ m w'. omega arith) w)
  ]

  calls-Asks :
      (busy : String → String) (cs : List ToolCall) (t : Turn)
      → Asks 0 (handle_calls out busy u cs t)
  unfolding handle_calls
  calls-Asks busy [] t w = omega arith
  calls-Asks busy (c ∷ cs) t w =
      bind-Asks 0 0 0 (handle_call out busy u c t) (λ t'. handle_calls out busy u cs t')
        (omega arith) (call-Asks busy c t) (λ t'. calls-Asks busy cs t') w

  after_turn-Asks :
      (n : ℕ) (continue : List Message → ℕ → M Reply) (ms : List Message) (a : Assistant)
      (errors : ℕ) (t : Turn)
      → ((ms' : List Message) (e : ℕ) → Asks n (continue ms' e))
      → Asks n (after_turn out continue u ms a errors t)
  after_turn-Asks n continue ms a errors t next w = elim (Option-cases t.intercepted) [
    | inr ((c, v), e) ↦ rw e (omega arith)
    | inl e ↦
        rw e (elim (Bool-cases (leb 2 (if all_tools_failed out t.results then suc errors else 0))) [
          | inl stop ↦ rw stop (omega arith)
          | inr more ↦ rw more (next _ _ w)
        ])
  ]

  after_answer-Asks :
      (n : ℕ) (continue : List Message → ℕ → M Reply) (ms : List Message) (errors : ℕ)
      (o : Option Assistant)
      → ((ms' : List Message) (e : ℕ) → Asks n (continue ms' e))
      → Asks n (after_answer out continue u ms errors o)
  unfolding main_turn
  after_answer-Asks n continue ms errors none next w = omega arith
  after_answer-Asks n continue ms errors (some a) next w = elim (Bool-cases (no_calls out a)) [
    | inl e ↦ rw e (omega arith)
    | inr e ↦ rw e (
        bind-Asks 0 n n (main_turn out u a.tool_calls) (after_turn out continue u ms a errors)
          (omega arith) (calls-Asks _ a.tool_calls _)
          (λ t. after_turn-Asks n continue ms a errors t next) w)
  ]

  pub rounds-Asks :
      (rounds : ℕ) (ms : List Message) (errors : ℕ)
      → Asks rounds (agent_rounds out rounds u ms errors)
  unfolding agent_rounds
  rounds-Asks zero ms errors w = omega arith
  rounds-Asks (suc rounds) ms errors w =
      let next = λ (ms' : List Message) (e : ℕ). rounds-Asks rounds ms' e in
      bind-Asks 1 rounds (suc rounds) (ask out ms)
        (after_answer out (λ ms' e. agent_rounds out rounds u ms' e) u ms errors) (omega arith)
        (ask-Asks ms)
        (λ o. after_answer-Asks rounds (λ ms' e. agent_rounds out rounds u ms' e) ms errors o next)
        w

  after_confirmed_turn-Asks :
      (n : ℕ) (continue : List Message → M (Reply × List Message)) (ms : List Message)
      (a : Assistant) (t : Turn)
      → ((ms' : List Message) → Asks n (continue ms'))
      → Asks n (after_confirmed_turn out continue u ms a t)
  after_confirmed_turn-Asks n continue ms a t next w = elim (Option-cases t.intercepted) [
    | inr ((c, v), e) ↦ rw e (omega arith)
    | inl e ↦ rw e (next _ w)
  ]

  after_confirmed_answer-Asks :
      (n : ℕ) (continue : List Message → M (Reply × List Message)) (ms : List Message)
      (o : Option Assistant)
      → ((ms' : List Message) → Asks n (continue ms'))
      → Asks n (after_confirmed_answer out continue u ms o)
  unfolding post_confirm_turn
  after_confirmed_answer-Asks n continue ms none next w = omega arith
  after_confirmed_answer-Asks n continue ms (some a) next w = elim (Bool-cases (no_calls out a)) [
    | inl e ↦ rw e (omega arith)
    | inr e ↦ rw e (
        bind-Asks 0 n n (post_confirm_turn out u a.tool_calls)
          (after_confirmed_turn out continue u ms a) (omega arith) (calls-Asks _ a.tool_calls _)
          (λ t. after_confirmed_turn-Asks n continue ms a t next) w)
  ]

  pub post_confirm-Asks :
      (rounds : ℕ) (ms : List Message) → Asks rounds (post_confirm_rounds out rounds u ms)
  unfolding post_confirm_rounds
  post_confirm-Asks zero ms w = omega arith
  post_confirm-Asks (suc rounds) ms w =
      let next = λ (ms' : List Message). post_confirm-Asks rounds ms' in
      bind-Asks 1 rounds (suc rounds) (ask out ms)
        (after_confirmed_answer out (λ ms'. post_confirm_rounds out rounds u ms') u ms)
        (omega arith) (ask-Asks ms)
        (λ o.
          after_confirmed_answer-Asks rounds (λ ms'. post_confirm_rounds out rounds u ms') ms o
            next)
        w
