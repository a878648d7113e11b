-- ===== src/Agent/Protocol.antt =====
-- The protocol of the chat interface: every tool call of an assistant message is answered by one tool
-- message before the next message of another kind.
pub mod Repaired
pub mod Turns
pub mod Rounds
pub mod Events
use monica_companion.Base.{
  ◌≡◌, refl, Bool, true, false, Option, none, some, List, [], ◌∷◌, ◌++◌, String, str_eq, eq_iff,
  arith, if◌then◌else◌, Bool-cases, inl, inr, ap, ◌∙◌, All, take, length, ◌-◌,
}
use monica_companion.Agent.Messages.{Message, system, user, assistant, tool, ToolCall, Assistant}
use monica_companion.Agent.History.{
  PendingToolCall, Pending, absent, refused, pending, Row, truncated, sliding_window_size,
}
use monica_companion.Agent.History.Laws.{truncated_lem}
use monica_companion.Agent.Run.{any_answers}
use monica_companion.Agent.Repair.{IsAnswered}

abbrev pub ids : List ToolCall → List String
ids [] = []
ids (c ∷ cs) = c.id ∷ ids cs

-- One occurrence less of an identifier; `none` if it does not occur.
abbrev pub without : String → List String → Option (List String)
without id [] = none
without id (j ∷ js) =
    let rest = without id js in
    if str_eq j id then some js else elim rest [ none ↦ none | some left ↦ some (j ∷ left) ]

abbrev pub idle : List String → List String → Option (List String)
idle [] next = some next
idle (id ∷ waiting) next = none

-- The identifiers that wait for an answer after a message; `none` if it breaks the protocol.
abbrev pub next_due : List String → Message → Option (List String)
next_due waiting (system content) = idle waiting []
next_due waiting (user content) = idle waiting []
next_due waiting (assistant a) = idle waiting (ids a.tool_calls)
next_due waiting (tool id content) = without id waiting

abbrev pub and_then :
    Option (List String) → (List String → Option (List String)) → Option (List String)
and_then none f = none
and_then (some ws) f = f ws

abbrev pub due : List String → List Message → Option (List String)
due waiting [] = some waiting
due waiting (m ∷ ms) = and_then (next_due waiting m) (λ ws. due ws ms)

pub due-append :
    (waiting : List String) (ms ns : List Message)
    → due waiting (ms ++ ns) ≡ and_then (due waiting ms) (λ ws. due ws ns)
due-append waiting [] ns = refl
due-append waiting (m ∷ ms) ns = go (next_due waiting m) (λ ws. due-append ws ms ns)
  where
    go :
        (o : Option (List String))
        → ((ws : List String) → due ws (ms ++ ns) ≡ and_then (due ws ms) (λ v. due v ns))
        → and_then o (λ ws. due ws (ms ++ ns))
          ≡ and_then (and_then o (λ ws. due ws ms)) (λ ws. due ws ns)
    go none h = refl
    go (some ws) h = h ws

pub due_append :
    (waiting : List String) (ms ns : List Message) {ws vs : List String}
    → due waiting ms ≡ some ws
    → due ws ns ≡ some vs
    → due waiting (ms ++ ns) ≡ some vs
due_append waiting ms ns h k = rw (due-append waiting ms ns) (rw h k)

-- The end of a history that keeps to the protocol and leaves no call waiting. The sliding window may
-- have cut the history anywhere.
pub record IsTail (ms : List Message) : Type 0 where
  pub before : List Message
  pub complete : due [] (before ++ ms) ≡ some []

-- What was collected with a pending call answers every call of its message but that one.
abbrev pub IsPending : Pending → Type 0
IsPending (pending p) =
    due (ids p.assistant_message.tool_calls) p.collected ≡ some (p.tool_call_id ∷ [])
IsPending _ = Unit

-- A stored row that keeps to the protocol.
pub record IsPaired (r : Row) : Type 0 where
  pub tail : IsTail r.messages
  pub waits : IsPending r.pending_tool_call

append_assoc : {A : Type 0} (xs ys zs : List A) → (xs ++ ys) ++ zs ≡ xs ++ (ys ++ zs)
append_assoc [] ys zs = refl
append_assoc (x ∷ xs) ys zs = ap (λ l. x ∷ l) (append_assoc xs ys zs)

pub IsTail-append : (ms ns : List Message) → IsTail ms → due [] ns ≡ some [] → IsTail (ms ++ ns)
IsTail-append ms ns t h = record {
  before = t.before;
  complete = rw (← append_assoc t.before ms ns) (due_append [] (t.before ++ ms) ns t.complete h);
}

pub truncated-IsTail : (ms : List Message) → IsTail ms → IsTail (truncated ms)
truncated-IsTail ms t = record {
  before = t.before ++ take (length ms - sliding_window_size) ms;
  complete =
      rw (append_assoc t.before (take (length ms - sliding_window_size) ms) (truncated ms))
        (rw (truncated_lem ms).0 t.complete);
}

pub empty-IsTail : IsTail []
empty-IsTail = record { before = []; complete = refl }

-- Removing the identifier of a call that follows at most one skipped call.
abbrev pub waiting_for : Option String → List String → List String
waiting_for none rest = rest
waiting_for (some id) rest = id ∷ rest

pub without-waiting_for :
    (skipped : Option String) (id : String) (rest : List String)
    → without id (waiting_for skipped (id ∷ rest)) ≡ some (waiting_for skipped rest)
without-waiting_for none id rest = ground (arith, eq_iff id id)
without-waiting_for (some s) id rest = elim (Bool-cases (str_eq s id)) [
  | inl e ↦ ground (arith, eq_iff s id)
  | inr e ↦ ground (arith, eq_iff id id)
]
