-- ===== src/Agent/Prompts.antt =====
-- A confirmation prompt is only shown for a stored pending call.
use monica_companion.Base.{
  ℕ, zero, suc, ◌≡◌, refl, inl, inr, Option, none, some, List, String, if◌then◌else◌, Bool-cases,
  Option-cases, leb, str_eq, str_eq_self,
}
use monica_companion.Effects.{Outcome, ok, throws}
use monica_companion.Agent.Messages.{Message, Assistant}
use monica_companion.Agent.History.{
  Row, Pending, PendingToolCall, absent, refused, pending, get_history, save_history, is_expired,
}
use monica_companion.Agent.History.Laws.{get_history-save_history}
use monica_companion.Agent.World.{World, Outside, M, await_then, caught, ◌>>=◌, try, pure}
use monica_companion.Agent.Mutating.{execute_mutating_tool}
use monica_companion.Agent.Turn.{
  Turn, main_turn, post_confirm_turn, all_tools_failed, status_message,
}
use monica_companion.Agent.Loop.{
  Reply, says, confirmation_prompt, fails, ask, after_turn, after_answer, agent_rounds,
  after_confirmed_turn, after_confirmed_answer, post_confirm_rounds, no_calls, max_iterations,
  max_post_confirm_iterations, save, or_text, content_of,
}
use monica_companion.Agent.Callback.{
  Event, text_message, voice_message, callback_action, stored, pending_of, resumed, conclude,
  handle_confirm, handle_cancel, handle_edit, arguments_of, outcome_text, acknowledge, acknowledged,
  act, answer_callback, same_command, parse_callback_data, handle_callback, handle_text,
}
use monica_companion.Agent.Run.{run_agent_loop, recover, repaired}

-- If the reply is a confirmation prompt, the pending call that it names is stored for the user.
abbrev pub IsStored : String → Outcome Reply × World → Type 0
IsStored u (ok (confirmation_prompt t id version), w) =
    (p : PendingToolCall) × (pending_of (get_history u w.rows) ≡ pending p)
    × (p.pending_command_id ≡ id)
IsStored u (o, w) = Unit

abbrev IsStoredWith : String → Outcome (Reply × List Message) × World → Type 0
IsStoredWith u (ok (r, ms), w) = IsStored u (ok r, w)
IsStoredWith u (throws m, w) = Unit

bind-IsStored :
    {A : Type 0} (u : String) (m : M A) (f : A → M Reply)
    → ((a : A) (w : World) → IsStored u (f a w))
    → (w : World) → IsStored u ((m >>= f) w)
bind-IsStored {A} u m f h w = go (m w)
  where
    go : (p : Outcome A × World) → IsStored u (await_then p f)
    go (ok a, w') = h a w'
    go (throws e, w') = tt

bind-IsStoredWith :
    {A : Type 0} (u : String) (m : M A) (f : A → M (Reply × List Message))
    → ((a : A) (w : World) → IsStoredWith u (f a w))
    → (w : World) → IsStoredWith u ((m >>= f) w)
bind-IsStoredWith {A} u m f h w = go (m w)
  where
    go : (p : Outcome A × World) → IsStoredWith u (await_then p f)
    go (ok a, w') = h a w'
    go (throws e, w') = tt

module _ (out : Outside) (u : String) where
  pending_saved :
      (ms : List Message) (p : Pending) (now : ℕ) (rows : List Row)
      → pending_of (get_history u (save_history u ms p now rows)) ≡ p
  pending_saved ms p now rows =
      rw (get_history-save_history u u ms p now rows) (rw (str_eq_self u) refl)

  after_turn-IsStored :
      (continue : List Message → ℕ → M Reply) (ms : List Message) (a : Assistant) (errors : ℕ)
      (t : Turn)
      → ((ms' : List Message) (e : ℕ) (w : World) → IsStored u (continue ms' e w))
      → (w : World) → IsStored u (after_turn out continue u ms a errors t w)
  after_turn-IsStored continue ms a errors t next w = elim (Option-cases t.intercepted) [
    | inr ((c, v), e) ↦ rw e (_, pending_saved ms _ out.now w.rows, refl)
    | inl e ↦
        rw e (elim (Bool-cases (leb 2 (if all_tools_failed out t.results then suc errors else 0))) [
          | inl stop ↦ rw stop tt
          | inr more ↦ rw more (next _ _ w)
        ])
  ]

  after_answer-IsStored :
      (continue : List Message → ℕ → M Reply) (ms : List Message) (errors : ℕ)
      (o : Option Assistant)
      → ((ms' : List Message) (e : ℕ) (w : World) → IsStored u (continue ms' e w))
      → (w : World) → IsStored u (after_answer out continue u ms errors o w)
  after_answer-IsStored continue ms errors none next w = tt
  after_answer-IsStored continue ms errors (some a) next w = elim (Bool-cases (no_calls out a)) [
    | inl e ↦ rw e tt
    | inr e ↦ rw e (
        bind-IsStored u (main_turn out u a.tool_calls) (after_turn out continue u ms a errors)
          (λ t. after_turn-IsStored continue ms a errors t next) w)
  ]

  rounds-IsStored :
      (rounds : ℕ) (ms : List Message) (errors : ℕ) (w : World)
      → IsStored u (agent_rounds out rounds u ms errors w)
  unfolding agent_rounds
  rounds-IsStored zero ms errors w = tt
  rounds-IsStored (suc rounds) ms errors w =
      let next = λ (ms' : List Message) (e : ℕ). rounds-IsStored rounds ms' e in
      bind-IsStored u (ask out ms)
        (after_answer out (λ ms' e. agent_rounds out rounds u ms' e) u ms errors)
        (λ o. after_answer-IsStored (λ ms' e. agent_rounds out rounds u ms' e) ms errors o next) w

  after_confirmed_turn-IsStored :
      (continue : List Message → M (Reply × List Message)) (ms : List Message) (a : Assistant)
      (t : Turn)
      → ((ms' : List Message) (w : World) → IsStoredWith u (continue ms' w))
      → (w : World) → IsStoredWith u (after_confirmed_turn out continue u ms a t w)
  after_confirmed_turn-IsStored continue ms a t next w = elim (Option-cases t.intercepted) [
    | inr ((c, v), e) ↦ rw e (_, pending_saved ms _ out.now w.rows, refl)
    | inl e ↦ rw e (next _ w)
  ]

  after_confirmed_answer-IsStored :
      (continue : List Message → M (Reply × List Message)) (ms : List Message)
      (o : Option Assistant)
      → ((ms' : List Message) (w : World) → IsStoredWith u (continue ms' w))
      → (w : World) → IsStoredWith u (after_confirmed_answer out continue u ms o w)
  after_confirmed_answer-IsStored continue ms none next w = tt
  after_confirmed_answer-IsStored continue ms (some a) next w = elim (Bool-cases (no_calls out a)) [
    | inl e ↦ rw e tt
    | inr e ↦ rw e (
        bind-IsStoredWith u (post_confirm_turn out u a.tool_calls)
          (after_confirmed_turn out continue u ms a)
          (λ t. after_confirmed_turn-IsStored continue ms a t next) w)
  ]

  post_confirm-IsStored :
      (rounds : ℕ) (ms : List Message) (w : World)
      → IsStoredWith u (post_confirm_rounds out rounds u ms w)
  unfolding post_confirm_rounds
  post_confirm-IsStored zero ms w = tt
  post_confirm-IsStored (suc rounds) ms w =
      let next = λ (ms' : List Message). post_confirm-IsStored rounds ms' in
      bind-IsStoredWith u (ask out ms)
        (after_confirmed_answer out (λ ms'. post_confirm_rounds out rounds u ms') u ms)
        (λ o.
          after_confirmed_answer-IsStored (λ ms'. post_confirm_rounds out rounds u ms') ms o next)
        w

  concluded :
      (q : Outcome (Reply × List Message) × World)
      → IsStoredWith u q
      → IsStored u (await_then q (λ after. conclude out u after))
  concluded (ok (confirmation_prompt t id v, ms), w) h = h
  concluded (ok (says t, ms), w) h = tt
  concluded (ok (fails t, ms), w) h = tt
  concluded (throws m, w) h = tt

  confirm-IsStored :
      (p : PendingToolCall) (ms : List Message) (correlation_id : String) (w : World)
      → IsStored u (handle_confirm out u p ms correlation_id w)
  unfolding handle_confirm
  confirm-IsStored p ms correlation_id =
      bind-IsStored u
        (execute_mutating_tool out p.name (arguments_of out p) u correlation_id
          p.pending_command_id)
        (λ o.
          post_confirm_rounds out max_post_confirm_iterations u
            (resumed out ms p (outcome_text out o))
          >>= λ after. conclude out u after)
        (λ o w. concluded _ (
          post_confirm-IsStored max_post_confirm_iterations (resumed out ms p (outcome_text out o))
            w))

  acknowledge-IsStored :
      (status message default : String) (p : PendingToolCall) (ms : List Message) (w : World)
      → IsStored u (acknowledge out status message default u p ms w)
  acknowledge-IsStored status message default p ms w =
      let ms' = resumed out ms p (out.stringify (status_message status message)) in
      bind-IsStored u (ask out ms')
        (λ a.
          save out u (acknowledged out ms' a) absent
          >>= (λ _. pure (says (or_text (content_of a) default))))
        (λ a w'. tt) w

  act-IsStored :
      (p : PendingToolCall) (ms : List Message) (action correlation_id : String) (w : World)
      → IsStored u (act out u p ms action correlation_id w)
  unfolding handle_cancel handle_edit
  act-IsStored p ms action correlation_id w = elim (Bool-cases (str_eq action "confirm")) [
    | inl c ↦ rw c (confirm-IsStored p ms correlation_id w)
    | inr c ↦ rw c (elim (Bool-cases (str_eq action "cancel")) [
      | inl d ↦ rw d (acknowledge-IsStored _ _ _ p ms w)
      | inr d ↦ rw d (elim (Bool-cases (str_eq action "edit")) [
        | inl e ↦ rw e (acknowledge-IsStored _ _ _ p ms w)
        | inr e ↦ rw e tt
      ])
    ])
  ]

  answer-IsStored :
      (r : Option Row) (action callback correlation_id : String) (q : Pending) (w : World)
      → IsStored u (answer_callback out u r action callback correlation_id q w)
  answer-IsStored r action callback correlation_id absent w = tt
  answer-IsStored r action callback correlation_id refused w = tt
  answer-IsStored r action callback correlation_id (pending p) w =
      elim (Bool-cases (same_command out p (parse_callback_data out callback))) [
        | inr e ↦ rw e tt
        | inl e ↦ rw e (elim (Bool-cases (is_expired p out.ttl_minutes out.now)) [
          | inl f ↦ rw f tt
          | inr f ↦ rw f (act-IsStored p (stored r) action correlation_id w)
        ])
      ]

  recover-IsStored : (w : World) → IsStored u (recover out u w)
  recover-IsStored w = go (repaired out u (get_history u w.rows) w)
    where
      go :
          (q : Outcome (Unit {0}) × World)
          → IsStored u (
              await_then q (λ _.
                pure (
                  fails
                    "Sorry, I encountered an error processing your request. Please try again.")))
      go (ok a, w') = tt
      go (throws m, w') = tt

  text-IsStored : (t : String) (w : World) → IsStored u (handle_text out u t w)
  unfolding handle_text
  text-IsStored t w = elim (Bool-cases (str_eq t "")) [
    | inl e ↦ rw e tt
    | inr e ↦ rw e (rounds-IsStored max_iterations _ 0 w)
  ]

  try-IsStored :
      (m : M Reply) (w : World) → IsStored u (m w) → IsStored u (try m (λ _. recover out u) w)
  try-IsStored m w h = go (m w) h
    where
      go : (q : Outcome Reply × World) → IsStored u q → IsStored u (caught (λ _. recover out u) q)
      go (ok r, w') h = h
      go (throws e, w') h = recover-IsStored w'

  -- If the reply to an event of a user is a confirmation prompt, then a pending call with the
  -- identifier of the prompt is stored for this user.
  pub run-IsStored :
      (e : Event) (correlation_id : String) (w : World)
      → IsStored u (run_agent_loop out u e correlation_id w)
  unfolding run_agent_loop handle_callback
  run-IsStored (text_message t) correlation_id w =
      try-IsStored (handle_text out u t) w (text-IsStored t w)
  run-IsStored (voice_message t) correlation_id w =
      try-IsStored (handle_text out u t) w (text-IsStored t w)
  run-IsStored (callback_action action callback) correlation_id w =
      answer-IsStored (get_history u w.rows) action callback correlation_id
        (pending_of (get_history u w.rows)) w
