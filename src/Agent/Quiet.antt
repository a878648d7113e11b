-- ===== src/Agent/Quiet.antt =====
-- The other parts of one event: they stay within the frame.
use monica_companion.Base.{
  suc, refl, inl, inr, Option, List, String, Bool-cases, Option-cases, str_eq, length, ◌==◌,
}
use monica_companion.Effects.{Outcome, ok, throws}
use monica_companion.Agent.Messages.{Message, Assistant}
use monica_companion.Agent.History.{absent, PendingToolCall, get_history}
use monica_companion.Agent.World.{World, Outside, M, pure, await_then, caught, ◌>>=◌, try}
use monica_companion.Agent.Loop.{
  Reply, max_iterations, or_text, content_of, save, says, confirmation_prompt, fails,
}
use monica_companion.Agent.Callback.{resumed, conclude, handle_text, acknowledge, acknowledged}
use monica_companion.Agent.Turn.{status_message}
use monica_companion.Agent.Run.{repair_history, recover}
use monica_companion.Agent.Frame.{
  Frame, Frame-refl, Frame-trans, Frame-of_eq, Stays, saved-Frame, rounds-Stays,
}

module _ (out : Outside) where
  pub try-Stays :
      {A : Type 0} (u : String) (m : M A) (handler : String → M A)
      → Stays u m
      → ((e : String) → Stays u (handler e))
      → Stays u (try m handler)
  try-Stays {A} u m handler sm sh w = go (m w) (sm w)
    where
      go : (p : Outcome A × World) → Frame u w p.1 → Frame u w (caught handler p).1
      go (ok a, w') f = f
      go (throws e, w') f = Frame-trans f (sh e w')

  pub handle_text-Stays : (u t : String) → Stays u (handle_text out u t)
  unfolding handle_text
  handle_text-Stays u t w = elim (Bool-cases (str_eq t "")) [
    | inl e ↦ rw e (Frame-refl u w)
    | inr e ↦ rw e (rounds-Stays out u max_iterations _ 0 w)
  ]

  pub recover-Stays : (u : String) → Stays u (recover out u)
  recover-Stays u w = elim (Option-cases (get_history u w.rows)) [
    | inl gone ↦ rw gone (Frame-refl u w)
    | inr (r, found) ↦
        rw found (elim (Bool-cases (length (repair_history out r.messages) == length r.messages)) [
          | inl e ↦ rw e (Frame-refl u w)
          | inr e ↦
              rw e (
                saved-Frame out u w _ (repair_history out r.messages) r.pending_tool_call refl refl)
        ])
  ]

  pub acknowledge-Stays :
      (status message default : String) (u : String) (p : PendingToolCall) (ms : List Message)
      → Stays u (acknowledge out status message default u p ms)
  acknowledge-Stays status message default u p ms w = go (out.chat w.chats _)
    where
      ms' : List Message
      ms' = resumed out ms p (out.stringify (status_message status message))

      go :
          (o : Outcome (Option Assistant))
          → Frame u w
              (await_then
                (o, record w { chats = suc w.chats })
                (λ a.
                  save out u (acknowledged out ms' a) absent
                  >>= (λ _. pure (says (or_text (content_of a) default))))).1
      go (ok a) = saved-Frame out u w _ (acknowledged out ms' a) absent refl refl
      go (throws m) = Frame-of_eq u w _ refl refl

  pub conclude-Stays : (u : String) (r : Reply × List Message) → Stays u (conclude out u r)
  conclude-Stays u (confirmation_prompt t id v, ms) w = Frame-refl u w
  conclude-Stays u (says t, ms) w = saved-Frame out u w _ ms absent refl refl
  conclude-Stays u (fails t, ms) w = saved-Frame out u w _ ms absent refl refl
