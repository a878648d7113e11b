-- ===== src/Agent/Frame.antt =====
-- What one event leaves alone: the other users' histories, and the commands sent to the scheduler.
use monica_companion.Base.{
  ℕ, suc, ◌≡◌, refl, ◌≢◌, inl, inr, Option, none, some, List, [], ◌∷◌, ◌++◌, String, arith,
  Bool-cases, zero, Option-cases, ◌∙◌, ap, str_eq-ne, leb, if◌then◌else◌,
}
use monica_companion.Effects.{Outcome, ok, throws}
use monica_companion.Json.{Json}
use monica_companion.Sql.{row-upsert, upsert-Unique, Unique}
use monica_companion.Agent.Messages.{Message, ToolCall, Assistant, assistant}
use monica_companion.Agent.Tools.{is_mutating}
use monica_companion.Agent.History.{Pending, absent, get_history, save_history, user_of}
use monica_companion.Agent.History.Laws.{AreShort, save-AreShort}
use monica_companion.Agent.World.{World, Outside, M, pure, await_then, ◌>>=◌, random_uuid}
use monica_companion.Agent.Turn.{
  Turn, execute_read_only_tool, handle_call, handle_calls, main_turn, post_confirm_turn,
  all_tools_failed,
}
use monica_companion.Agent.Loop.{
  Reply, save, ask, ask_confirmation, after_turn, after_answer, agent_rounds, after_confirmed_turn,
  after_confirmed_answer, post_confirm_rounds, no_calls,
}

-- From `w` to `w'` only the history of `u` changed, and no command was sent.
pub record Frame (u : String) (w w' : World) : Type 0 where
  pub executed : w'.executed ≡ w.executed
  pub others : (v : String) → u ≢ v → get_history v w'.rows ≡ get_history v w.rows
  pub table : Unique user_of w.rows → Unique user_of w'.rows
  pub short : AreShort w.rows → AreShort w'.rows

pub Frame-refl : (u : String) (w : World) → Frame u w w
Frame-refl u w = record { executed = refl; others = λ v ne. refl; table = λ h. h; short = λ h. h }

pub Frame-trans : {u : String} {w w' w'' : World} → Frame u w w' → Frame u w' w'' → Frame u w w''
Frame-trans f g = record {
  executed = g.executed ∙ f.executed;
  others = λ v ne. g.others v ne ∙ f.others v ne;
  table = λ h. g.table (f.table h);
  short = λ h. g.short (f.short h);
}

pub Frame-of_eq :
    (u : String) (w w' : World) → w'.rows ≡ w.rows → w'.executed ≡ w.executed → Frame u w w'
Frame-of_eq u w w' r e = record {
  executed = e;
  others = λ v ne. ap (get_history v) r;
  table = λ h. rw r h;
  short = λ h. rw r h;
}

-- An action that stays within the frame.
abbrev pub Stays : {A : Type 0} → String → M A → Type 0
Stays u m = (w : World) → Frame u w (m w).1

pub bind-Stays :
    {A B : Type 0} (u : String) (m : M A) (f : A → M B)
    → Stays u m
    → ((a : A) → Stays u (f a))
    → Stays u (m >>= f)
bind-Stays u m f sm sf w = go (m w) (sm w)
  where
    go : (p : Outcome _ × World) → Frame u w p.1 → Frame u w (await_then p f).1
    go (ok a, w') h = Frame-trans h (sf a w')
    go (throws e, w') h = h

pub pure-Stays : {A : Type 0} (u : String) (a : A) → Stays u (pure a)
pure-Stays u a w = Frame-refl u w

module _ (out : Outside) (u : String) where
  pub save-Stays : (ms : List Message) (p : Pending) → Stays u (save out u ms p)
  unfolding get_history save_history
  save-Stays ms p w = record {
    executed = refl;
    others = λ v ne. row-upsert user_of _ _ v w.rows (λ r. refl) ∙ ground (arith, str_eq-ne u v ne);
    table = λ h. upsert-Unique user_of _ _ w.rows (λ r. refl) h;
    short = λ h. save-AreShort u ms p out.now w.rows h;
  }

  ask-Stays : (ms : List Message) → Stays u (ask out ms)
  ask-Stays ms w = record { executed = refl; others = λ v ne. refl; table = λ h. h; short = λ h. h }

  uuid-Stays : Stays u (random_uuid out)
  uuid-Stays w = record { executed = refl; others = λ v ne. refl; table = λ h. h; short = λ h. h }

  read_only-Stays : (c : ToolCall) → Stays u (execute_read_only_tool out u c)
  unfolding execute_read_only_tool
  read_only-Stays c w = Frame-of_eq u w _ (ground arith) (ground arith)

  call-Stays :
      (busy : String → String) (c : ToolCall) (t : Turn) → Stays u (handle_call out busy u c t)
  unfolding handle_call
  call-Stays busy c t w = elim (Bool-cases (is_mutating c.name)) [
    | inl e ↦ rw e (Frame-refl u w)
    | inr e ↦ rw e (
        bind-Stays u (execute_read_only_tool out u c) _ (read_only-Stays c)
          (λ m w'. Frame-refl u w') w)
  ]

  calls-Stays :
      (busy : String → String) (cs : List ToolCall) (t : Turn)
      → Stays u (handle_calls out busy u cs t)
  unfolding handle_calls
  calls-Stays busy [] t = pure-Stays u t
  calls-Stays busy (c ∷ cs) t =
      bind-Stays u (handle_call out busy u c t) _ (call-Stays busy c t)
        (λ t'. calls-Stays busy cs t')

  -- A world that differs by one saved history and by counters.
  pub saved-Frame :
      (w w' : World) (ms : List Message) (p : Pending)
      → w'.rows ≡ save_history u ms p out.now w.rows
      → w'.executed ≡ w.executed
      → Frame u w w'
  saved-Frame w w' ms p r e = Frame-trans (save-Stays ms p w) (Frame-of_eq u _ w' r e)

  confirmation-Stays :
      (before known : List Message) (a : Assistant) (results : List Message) (c : ToolCall)
      (v : Json)
      → Stays u (ask_confirmation out u before known a results c v)
  confirmation-Stays before known a results c v w = saved-Frame w _ before _ refl refl

  after_turn-Stays :
      (continue : List Message → ℕ → M Reply) (ms : List Message) (a : Assistant) (errors : ℕ)
      (t : Turn)
      → ((ms' : List Message) (errors' : ℕ) → Stays u (continue ms' errors'))
      → Stays u (after_turn out continue u ms a errors t)
  after_turn-Stays continue ms a errors t next w = elim (Option-cases t.intercepted) [
    | inr ((c, v), e) ↦ rw e (confirmation-Stays ms _ a t.results c v w)
    | inl e ↦
        rw e (elim (Bool-cases (leb 2 (if all_tools_failed out t.results then suc errors else 0))) [
          | inl stop ↦ rw stop (saved-Frame w _ (ms ++ assistant a ∷ t.results) absent refl refl)
          | inr more ↦ rw more (next _ _ w)
        ])
  ]

  after_answer-Stays :
      (continue : List Message → ℕ → M Reply) (ms : List Message) (errors : ℕ)
      (o : Option Assistant)
      → ((ms' : List Message) (errors' : ℕ) → Stays u (continue ms' errors'))
      → Stays u (after_answer out continue u ms errors o)
  unfolding main_turn
  after_answer-Stays continue ms errors none next w = Frame-refl u w
  after_answer-Stays continue ms errors (some a) next w = elim (Bool-cases (no_calls out a)) [
    | inl e ↦ rw e (saved-Frame w _ (ms ++ assistant a ∷ []) absent refl refl)
    | inr e ↦ rw e (
        bind-Stays u (main_turn out u a.tool_calls) (after_turn out continue u ms a errors)
          (calls-Stays _ a.tool_calls _) (λ t. after_turn-Stays continue ms a errors t next) w)
  ]

  pub rounds-Stays :
      (rounds : ℕ) (ms : List Message) (errors : ℕ) → Stays u (agent_rounds out rounds u ms errors)
  unfolding agent_rounds
  rounds-Stays zero ms errors w = saved-Frame w _ ms absent refl refl
  rounds-Stays (suc rounds) ms errors w =
      let next = λ (ms' : List Message) (e : ℕ). rounds-Stays rounds ms' e in
      bind-Stays u (ask out ms)
        (after_answer out (λ ms' e. agent_rounds out rounds u ms' e) u ms errors) (ask-Stays ms)
        (λ o. after_answer-Stays (λ ms' e. agent_rounds out rounds u ms' e) ms errors o next) w

  after_confirmed_turn-Stays :
      (continue : List Message → M (Reply × List Message)) (ms : List Message) (a : Assistant)
      (t : Turn)
      → ((ms' : List Message) → Stays u (continue ms'))
      → Stays u (after_confirmed_turn out continue u ms a t)
  after_confirmed_turn-Stays continue ms a t next w = elim (Option-cases t.intercepted) [
    | inr ((c, v), e) ↦ rw e (saved-Frame w _ ms _ refl refl)
    | inl e ↦ rw e (next _ w)
  ]

  after_confirmed_answer-Stays :
      (continue : List Message → M (Reply × List Message)) (ms : List Message)
      (o : Option Assistant)
      → ((ms' : List Message) → Stays u (continue ms'))
      → Stays u (after_confirmed_answer out continue u ms o)
  unfolding post_confirm_turn
  after_confirmed_answer-Stays continue ms none next w = Frame-refl u w
  after_confirmed_answer-Stays continue ms (some a) next w = elim (Bool-cases (no_calls out a)) [
    | inl e ↦ rw e (Frame-refl u w)
    | inr e ↦ rw e (
        bind-Stays u (post_confirm_turn out u a.tool_calls)
          (after_confirmed_turn out continue u ms a) (calls-Stays _ a.tool_calls _)
          (λ t. after_confirmed_turn-Stays continue ms a t next) w)
  ]

  pub post_confirm-Stays :
      (rounds : ℕ) (ms : List Message) → Stays u (post_confirm_rounds out rounds u ms)
  unfolding post_confirm_rounds
  post_confirm-Stays zero ms w = Frame-refl u w
  post_confirm-Stays (suc rounds) ms w =
      let next = λ (ms' : List Message). post_confirm-Stays rounds ms' in
      bind-Stays u (ask out ms)
        (after_confirmed_answer out (λ ms'. post_confirm_rounds out rounds u ms') u ms)
        (ask-Stays ms)
        (λ o. after_confirmed_answer-Stays (λ ms'. post_confirm_rounds out rounds u ms') ms o next)
        w
