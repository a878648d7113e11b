-- ===== src/Agent/Protocol/Events.antt =====
-- Every event keeps every stored history to the protocol.
use monica_companion.Base.{
  suc, ◌≡◌, refl, Option, none, some, List, [], ◌∷◌, ◌++◌, String, str_eq, Bool-cases, Option-cases,
  inl, inr, length, ◌==◌,
}
use monica_companion.Effects.{Outcome, ok, throws}
use monica_companion.Agent.Messages.{Message, assistant, user, tool, Assistant, strip_tool_calls}
use monica_companion.Agent.History.{
  Row, Pending, PendingToolCall, absent, refused, pending, get_history, is_expired,
}
use monica_companion.Agent.World.{World, Outside, M, await_then, caught, ◌>>=◌, try, pure}
use monica_companion.Agent.Mutating.{ToolOutcome, execute_mutating_tool}
use monica_companion.Agent.Turn.{status_message}
use monica_companion.Agent.Loop.{
  Reply, says, confirmation_prompt, fails, save, max_post_confirm_iterations, max_iterations,
  post_confirm_rounds, or_text, content_of,
}
use monica_companion.Agent.Callback.{
  Event, text_message, voice_message, callback_action, stored, pending_of, resumed, conclude,
  handle_confirm, handle_cancel, handle_edit, arguments_of, outcome_text, acknowledge, acknowledged,
  act, answer_callback, same_command, parse_callback_data, handle_callback, without_stale,
  handle_text,
}
use monica_companion.Agent.Run.{run_agent_loop, recover, repair_history}
use monica_companion.Agent.Sends.{execute-Sends}
use monica_companion.Agent.Repair.{repair_answered}
use monica_companion.Agent.Others.{Events, run_all}
use monica_companion.Agent.Protocol.{
  ids, due_append, IsTail, IsPending, IsTail-append, empty-IsTail, without-waiting_for,
}
use monica_companion.Agent.Protocol.Repaired.{tail-IsAnswered}
use monica_companion.Agent.Protocol.Turns.{OnValue, ArePaired, Gives, bind-Gives}
use monica_companion.Agent.Protocol.Rounds.{
  row-IsPaired, Anything, on_Anything, answer-IsTail, save-ArePaired, rounds-Gives, IsSaveable,
  post_confirm-Gives,
}

module _ (out : Outside) where
  -- The pending call, what was collected with it, and its result complete the history again.
  resumed-IsTail :
      (ms : List Message) (p : PendingToolCall) (content : String)
      → IsTail ms
      → IsPending (pending p)
      → IsTail (resumed out ms p content)
  resumed-IsTail ms p content t k = answer-IsTail ms p.assistant_message _ t (
      due_append (ids p.assistant_message.tool_calls) p.collected (tool p.tool_call_id content ∷ [])
        k (rw (without-waiting_for none p.tool_call_id []) refl))

  conclude-Gives :
      (u : String) (r : Reply × List Message) → IsSaveable out r → Gives Anything (conclude out u r)
  conclude-Gives u (confirmation_prompt t id v, ms) k w h = (h, tt)
  conclude-Gives u (says t, ms) k w h = (save-ArePaired out u ms absent out.now w.rows k tt h, tt)
  conclude-Gives u (fails t, ms) k w h = (save-ArePaired out u ms absent out.now w.rows k tt h, tt)

  confirm-Gives :
      (u : String) (p : PendingToolCall) (ms : List Message) (correlation_id : String)
      → IsTail ms
      → IsPending (pending p)
      → Gives Anything (handle_confirm out u p ms correlation_id)
  unfolding handle_confirm
  confirm-Gives u p ms correlation_id t k =
      bind-Gives Anything Anything
        (execute_mutating_tool out p.name (arguments_of out p) u correlation_id
          p.pending_command_id)
        rest
        (λ w h. (
          rw
              (execute-Sends out p.name (arguments_of out p) u correlation_id p.pending_command_id
                w).rows
              h,
          on_Anything _,
        ))
        (λ o _.
          bind-Gives (IsSaveable out) Anything
            (post_confirm_rounds out max_post_confirm_iterations u
              (resumed out ms p (outcome_text out o)))
            (λ after. conclude out u after)
            (post_confirm-Gives out max_post_confirm_iterations u _
              (resumed-IsTail ms p (outcome_text out o) t k))
            (λ r s. conclude-Gives u r s))
    where
      rest : ToolOutcome → M Reply
      rest outcome =
          post_confirm_rounds out max_post_confirm_iterations u
            (resumed out ms p (outcome_text out outcome))
          >>= λ after. conclude out u after

  acknowledged-IsTail :
      (ms : List Message) (o : Option Assistant) → IsTail ms → IsTail (acknowledged out ms o)
  unfolding strip_tool_calls
  acknowledged-IsTail ms none t = t
  acknowledged-IsTail ms (some a) t = IsTail-append ms (assistant (strip_tool_calls a) ∷ []) t refl

  acknowledge-Gives :
      (status message default : String) (u : String) (p : PendingToolCall) (ms : List Message)
      → IsTail ms
      → IsPending (pending p)
      → Gives Anything (acknowledge out status message default u p ms)
  acknowledge-Gives status message default u p ms t k w h = go (out.chat w.chats _)
    where
      ms' : List Message
      ms' = resumed out ms p (out.stringify (status_message status message))

      full : IsTail ms'
      full = resumed-IsTail ms p (out.stringify (status_message status message)) t k

      answer : Outcome (Option Assistant) → Outcome Reply × World
      answer o =
          await_then (o, record w { chats = suc w.chats })
            (λ a.
              save out u (acknowledged out ms' a) absent
              >>= (λ _. pure (says (or_text (content_of a) default))))

      go :
          (o : Outcome (Option Assistant))
          → ArePaired (answer o).1.rows × OnValue Anything (answer o).0
      go (ok a) =
          (save-ArePaired out u _ absent out.now w.rows (acknowledged-IsTail ms' a full) tt h, tt)
      go (throws m) = (h, tt)

  act-Gives :
      (u : String) (p : PendingToolCall) (ms : List Message) (action correlation_id : String)
      → IsTail ms
      → IsPending (pending p)
      → Gives Anything (act out u p ms action correlation_id)
  unfolding handle_cancel handle_edit
  act-Gives u p ms action correlation_id t k w h = elim (Bool-cases (str_eq action "confirm")) [
    | inl c ↦ rw c (confirm-Gives u p ms correlation_id t k w h)
    | inr c ↦ rw c (elim (Bool-cases (str_eq action "cancel")) [
      | inl d ↦ rw d (acknowledge-Gives _ _ _ u p ms t k w h)
      | inr d ↦ rw d (elim (Bool-cases (str_eq action "edit")) [
        | inl e ↦ rw e (acknowledge-Gives _ _ _ u p ms t k w h)
        | inr e ↦ rw e (h, tt)
      ])
    ])
  ]

  answer-Gives :
      (u : String) (r : Option Row) (action callback correlation_id : String) (q : Pending)
      → IsTail (stored r)
      → IsPending q
      → Gives Anything (answer_callback out u r action callback correlation_id q)
  answer-Gives u r action callback correlation_id absent t k w h = (h, tt)
  answer-Gives u r action callback correlation_id refused t k w h =
      (save-ArePaired out u (stored r) absent out.now w.rows t tt h, tt)
  answer-Gives u r action callback correlation_id (pending p) t k w h =
      elim (Bool-cases (same_command out p (parse_callback_data out callback))) [
        | inr e ↦ rw e (h, tt)
        | inl e ↦ rw e (elim (Bool-cases (is_expired p out.ttl_minutes out.now)) [
          | inl f ↦ rw f (save-ArePaired out u (stored r) absent out.now w.rows t tt h, tt)
          | inr f ↦ rw f (act-Gives u p (stored r) action correlation_id t k w h)
        ])
      ]

  -- The stored history of a user in a paired table, if there is one.
  stored-IsTail :
      (u : String) (rows : List Row)
      → ArePaired rows
      → IsTail (stored (get_history u rows)) × IsPending (pending_of (get_history u rows))
  stored-IsTail u rows h = elim (Option-cases (get_history u rows)) [
    | inl gone ↦ rw gone (empty-IsTail, tt)
    | inr (r, found) ↦ let k = row-IsPaired u rows r h found in rw found (k.tail, k.waits)
  ]

  start-IsTail :
      (t : String) (ms : List Message) (q : Pending)
      → IsTail ms
      → IsPending q
      → IsTail (without_stale out q ms ++ user t ∷ [])
  start-IsTail t ms absent k l = IsTail-append ms (user t ∷ []) k refl
  start-IsTail t ms refused k l = IsTail-append ms (user t ∷ []) k refl
  start-IsTail t ms (pending p) k l = IsTail-append _ (user t ∷ []) (resumed-IsTail ms p _ k l) refl

  text-Gives : (u t : String) → Gives Anything (handle_text out u t)
  unfolding handle_text
  text-Gives u t w h = elim (Bool-cases (str_eq t "")) [
    | inl e ↦ rw e (h, tt)
    | inr e ↦
        let (k, l) = stored-IsTail u w.rows h in
        rw e (rounds-Gives out max_iterations u _ 0 (start-IsTail t _ _ k l) w h)
  ]

  -- There is nothing to repair.
  recover-Gives : (u : String) → Gives Anything (recover out u)
  recover-Gives u w h = elim (Option-cases (get_history u w.rows)) [
    | inl gone ↦ rw gone (h, tt)
    | inr (r, found) ↦
        let k = row-IsPaired u w.rows r h found in
        rw found (elim (Bool-cases (length (repair_history out r.messages) == length r.messages)) [
          | inl e ↦ rw e (h, tt)
          | inr e ↦ rw e (
            save-ArePaired out u _ r.pending_tool_call out.now w.rows
                (rw (repair_answered out r.messages (tail-IsAnswered r.messages k.tail)) k.tail)
                k.waits h,
            tt,
          )
        ])
  ]

  try-Gives :
      {A : Type 0} (m : M A) (handler : String → M A)
      → Gives Anything m
      → ((e : String) → Gives Anything (handler e))
      → Gives Anything (try m handler)
  try-Gives {A} m handler gm gh w h = go (m w) (gm w h).0
    where
      go :
          (p : Outcome A × World)
          → ArePaired p.1.rows
          → ArePaired (caught handler p).1.rows × OnValue Anything (caught handler p).0
      go (ok a, w') k = (k, tt)
      go (throws e, w') k = gh e w' k

  run-Gives :
      (u : String) (e : Event) (correlation_id : String)
      → Gives Anything (run_agent_loop out u e correlation_id)
  unfolding run_agent_loop handle_callback
  run-Gives u (text_message t) correlation_id =
      try-Gives (handle_text out u t) (λ _. recover out u) (text-Gives u t) (λ _. recover-Gives u)
  run-Gives u (voice_message t) correlation_id =
      try-Gives (handle_text out u t) (λ _. recover out u) (text-Gives u t) (λ _. recover-Gives u)
  run-Gives u (callback_action action callback) correlation_id = λ w h.
      let (k, l) = stored-IsTail u w.rows h in
      answer-Gives u (get_history u w.rows) action callback correlation_id
        (pending_of (get_history u w.rows)) k l w h

  -- From a table that does so, however many events of whatever users are handled, in whatever order
  -- and with whatever errors, every stored history is the end of a history in which each tool call
  -- is answered by exactly one tool message before the next message of another kind, and every
  -- pending call is stored with answers to all other calls of its message, and to no further ones.
  pub run_all-ArePaired :
      (es : Events out) (w : World) → ArePaired w.rows → ArePaired (run_all out es w).rows
  unfolding run_all
  run_all-ArePaired [] w h = h
  run_all-ArePaired ((u, (e, id)) ∷ es) w h =
      run_all-ArePaired es (run_agent_loop out u e id w).1 (run-Gives u e id w h).0

  -- After any events from a table that keeps to the protocol, repairing a stored history would
  -- change nothing.
  pub run_all-repair_history :
      (es : Events out) (w : World) (u : String) (r : Row)
      → ArePaired w.rows
      → get_history u (run_all out es w).rows ≡ some r
      → repair_history out r.messages ≡ r.messages
  run_all-repair_history es w u r h found = repair_answered out r.messages (
      tail-IsAnswered r.messages
        (row-IsPaired u (run_all out es w).rows r (run_all-ArePaired es w h) found).tail)
