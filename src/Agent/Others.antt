-- ===== src/Agent/Others.antt =====
-- An event of one user leaves the histories of the others alone, and the table well formed.
use monica_companion.Base.{
  ◌≡◌, refl, ◌≢◌, inl, inr, Option, List, [], ◌∷◌, String, Bool-cases, ◌∙◌, ap, str_eq,
}
use monica_companion.Effects.{Outcome, ok, throws}
use monica_companion.Sql.{Unique}
use monica_companion.Agent.Messages.{Message}
use monica_companion.Agent.History.{
  Row, Pending, absent, refused, pending, PendingToolCall, get_history, user_of, is_expired,
}
use monica_companion.Agent.History.Laws.{AreShort}
use monica_companion.Agent.World.{World, Outside, M, await_then, ◌>>=◌}
use monica_companion.Agent.Mutating.{ToolOutcome, execute_mutating_tool}
use monica_companion.Agent.Loop.{Reply, post_confirm_rounds, max_post_confirm_iterations}
use monica_companion.Agent.Callback.{
  Event, text_message, voice_message, callback_action, pending_of, same_command,
  parse_callback_data, arguments_of, resumed, outcome_text, conclude, handle_confirm, handle_cancel,
  handle_edit, act, answer_callback, handle_callback, stored,
}
use monica_companion.Agent.Run.{run_agent_loop, recover}
use monica_companion.Agent.Callback.{handle_text}
use monica_companion.Agent.Frame.{
  Frame, Frame-refl, Stays, bind-Stays, saved-Frame, post_confirm-Stays,
}
use monica_companion.Agent.Sends.{execute-Sends}
use monica_companion.Agent.Quiet.{
  try-Stays, handle_text-Stays, recover-Stays, acknowledge-Stays, conclude-Stays,
}

-- From `w` to `w'` the histories of the other users stay, each user keeps one row at most, and no
-- history outgrows the window.
pub record Leaves (u : String) (w w' : World) : Type 0 where
  pub others : (v : String) → u ≢ v → get_history v w'.rows ≡ get_history v w.rows
  pub table : Unique user_of w.rows → Unique user_of w'.rows
  pub short : AreShort w.rows → AreShort w'.rows

of_Frame : (u : String) (w w' : World) → Frame u w w' → Leaves u w w'
of_Frame u w w' f = record { others = f.others; table = f.table; short = f.short }

module _ (out : Outside) where
  confirm-Leaves :
      (u : String) (p : PendingToolCall) (ms : List Message) (correlation_id : String) (w : World)
      → Leaves u w (handle_confirm out u p ms correlation_id w).1
  unfolding handle_confirm
  confirm-Leaves u p ms correlation_id w =
      go
        (execute_mutating_tool out p.name (arguments_of out p) u correlation_id p.pending_command_id
          w)
        (execute-Sends out p.name (arguments_of out p) u correlation_id p.pending_command_id w).rows
    where
      rest : ToolOutcome → M Reply
      rest outcome =
          post_confirm_rounds out max_post_confirm_iterations u
            (resumed out ms p (outcome_text out outcome))
          >>= λ after. conclude out u after

      rest-Stays : (outcome : ToolOutcome) → Stays u (rest outcome)
      rest-Stays outcome =
          bind-Stays u
            (post_confirm_rounds out max_post_confirm_iterations u
              (resumed out ms p (outcome_text out outcome)))
            (λ after. conclude out u after) (post_confirm-Stays out u max_post_confirm_iterations _)
            (conclude-Stays out u)

      go : (q : Outcome ToolOutcome × World) → q.1.rows ≡ w.rows → Leaves u w (await_then q rest).1
      go (throws m, w') e = record {
        others = λ v ne. ap (get_history v) e;
        table = λ h. rw e h;
        short = λ h. rw e h;
      }
      go (ok o, w') e =
          let f = rest-Stays o w' in
          record {
            others = λ v ne. f.others v ne ∙ ap (get_history v) e;
            table = λ h. f.table (rw e h);
            short = λ h. f.short (rw e h);
          }

  act-Leaves :
      (u : String) (p : PendingToolCall) (ms : List Message) (action correlation_id : String)
      (w : World)
      → Leaves u w (act out u p ms action correlation_id w).1
  unfolding handle_cancel handle_edit
  act-Leaves u p ms action correlation_id w = elim (Bool-cases (str_eq action "confirm")) [
    | inl c ↦ rw c (confirm-Leaves u p ms correlation_id w)
    | inr c ↦ rw c (elim (Bool-cases (str_eq action "cancel")) [
      | inl d ↦ rw d (of_Frame u w _ (acknowledge-Stays out _ _ _ u p ms w))
      | inr d ↦ rw d (elim (Bool-cases (str_eq action "edit")) [
        | inl e ↦ rw e (of_Frame u w _ (acknowledge-Stays out _ _ _ u p ms w))
        | inr e ↦ rw e (of_Frame u w w (Frame-refl u w))
      ])
    ])
  ]

  answer-Leaves :
      (u : String) (r : Option Row) (action callback correlation_id : String) (q : Pending)
      (w : World)
      → Leaves u w (answer_callback out u r action callback correlation_id q w).1
  answer-Leaves u r action callback correlation_id absent w = of_Frame u w w (Frame-refl u w)
  answer-Leaves u r action callback correlation_id refused w =
      of_Frame u w _ (saved-Frame out u w _ (stored r) absent refl refl)
  answer-Leaves u r action callback correlation_id (pending p) w =
      elim (Bool-cases (same_command out p (parse_callback_data out callback))) [
        | inr e ↦ rw e (of_Frame u w w (Frame-refl u w))
        | inl e ↦ rw e (elim (Bool-cases (is_expired p out.ttl_minutes out.now)) [
          | inl f ↦ rw f (of_Frame u w _ (saved-Frame out u w _ (stored r) absent refl refl))
          | inr f ↦ rw f (act-Leaves u p (stored r) action correlation_id w)
        ])
      ]

  run-Leaves :
      (u : String) (e : Event) (correlation_id : String) (w : World)
      → Leaves u w (run_agent_loop out u e correlation_id w).1
  unfolding run_agent_loop handle_callback
  run-Leaves u (text_message t) correlation_id w = of_Frame u w _ (
      try-Stays out u (handle_text out u t) (λ _. recover out u) (handle_text-Stays out u t)
        (λ _. recover-Stays out u) w)
  run-Leaves u (voice_message t) correlation_id w = of_Frame u w _ (
      try-Stays out u (handle_text out u t) (λ _. recover out u) (handle_text-Stays out u t)
        (λ _. recover-Stays out u) w)
  run-Leaves u (callback_action action callback) correlation_id w =
      answer-Leaves u (get_history u w.rows) action callback correlation_id
        (pending_of (get_history u w.rows)) w

  -- No event of a user changes the stored history of another user, the pending call included.
  pub run-others :
      (u v : String) (e : Event) (correlation_id : String) (w : World)
      → u ≢ v
      → get_history v (run_agent_loop out u e correlation_id w).1.rows ≡ get_history v w.rows
  run-others u v e correlation_id w ne = (run-Leaves u e correlation_id w).others v ne

  -- What every reachable table satisfies: one row for each user, none longer than the window.
  abbrev pub IsHistories : List Row → Type 0
  IsHistories rows = Unique user_of rows × AreShort rows

  abbrev pub Events : Type 0
  Events = List (String × (Event × String))

  -- The events of all users, in the order in which they are handled.
  unfoldable pub run_all : Events → World → World
  run_all [] w = w
  run_all ((u, (e, id)) ∷ es) w = run_all es (run_agent_loop out u e id w).1

  -- If the table has one row for each user at most and no stored history is longer than the window
  -- of 40 messages, this stays so, however many events of whatever users are handled, in whatever
  -- order.
  pub run_all-IsHistories :
      (es : Events) (w : World) → IsHistories w.rows → IsHistories (run_all es w).rows
  unfolding run_all
  run_all-IsHistories [] w h = h
  run_all-IsHistories ((u, (e, id)) ∷ es) w (h, k) =
      let l = run_agent_loop out u e id w in
      let f = run-Leaves u e id w in run_all-IsHistories es l.1 (f.table h, f.short k)
