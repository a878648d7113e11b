-- ===== src/Agent/Protocol/Turns.antt =====
-- The tool results of one answer: one for each call that was not intercepted.
use monica_companion.Base.{
  ◌≡◌, refl, Option, none, some, List, [], ◌∷◌, ◌++◌, String, Bool-cases, Option-cases, inl, inr,
  ap, All,
}
use monica_companion.Effects.{Outcome, ok, throws}
use monica_companion.Json.{Json}
use monica_companion.Agent.Messages.{Message, tool, ToolCall}
use monica_companion.Agent.Tools.{is_mutating, accepts}
use monica_companion.Agent.History.{Row}
use monica_companion.Agent.World.{World, Outside, M, await_then, ◌>>=◌}
use monica_companion.Agent.Turn.{
  Turn, execute_read_only_tool, handle_call, handle_calls, main_turn, post_confirm_turn, intercept,
  failed, invalid_json, invalid_arguments, dispatched, is_read_only,
}
use monica_companion.Agent.Protocol.{
  ids, due, due_append, without-waiting_for, waiting_for, IsPaired,
}

-- A statement of the value of an action, if it has one.
abbrev pub OnValue : {A : Type 0} → (A → Type 0) → Outcome A → Type 0
OnValue P (ok a) = P a
OnValue P (throws m) = Unit

abbrev pub ArePaired : List Row → Type 0
ArePaired rows = All IsPaired rows

-- An action that keeps the table paired, and whose value has a property.
abbrev pub Gives : {A : Type 0} → (A → Type 0) → M A → Type 0
Gives P m = (w : World) → ArePaired w.rows → ArePaired (m w).1.rows × OnValue P (m w).0

pub bind-Gives :
    {A B : Type 0} (P : A → Type 0) (Q : B → Type 0) (m : M A) (f : A → M B)
    → Gives P m
    → ((a : A) → P a → Gives Q (f a))
    → Gives Q (m >>= f)
bind-Gives {A} {B} P Q m f gm gf w h = go (m w) (gm w h)
  where
    go :
        (p : Outcome A × World)
        → ArePaired p.1.rows × OnValue P p.0
        → ArePaired (await_then p f).1.rows × OnValue Q (await_then p f).0
    go (ok a, w') (k, v) = gf a v w' k
    go (throws e, w') (k, v) = (k, tt)

abbrev pub skipped : Turn → Option String
skipped t = elim t.intercepted [ none ↦ none | some (c, v) ↦ some c.id ]

-- After the results of the turn, the intercepted call and the calls `rest` still wait.
abbrev pub Awaits : List String → List String → Turn → Type 0
Awaits start rest t = due start t.results ≡ some (waiting_for (skipped t) rest)

push-Awaits :
    (start rest : List String) (t : Turn) (id content : String)
    → Awaits start (id ∷ rest) t
    → Awaits start rest (record t { results = t.results ++ tool id content ∷ [] })
push-Awaits start rest t id content h =
    due_append start t.results (tool id content ∷ []) h
      (rw (without-waiting_for (skipped t) id rest) refl)

module _ (out : Outside) where
  Awaits-by :
      (start rest : List String) {t t' : Turn} → t ≡ t' → Awaits start rest t' → Awaits start rest t
  Awaits-by start rest e h = rw e h

  intercept-Awaits :
      (start rest : List String) (busy : String → String) (c : ToolCall) (t : Turn)
      → Awaits start (c.id ∷ rest) t
      → Awaits start rest (intercept out busy c t)
  intercept-Awaits start rest busy c t h = elim (Option-cases t.intercepted) [
    | inr ((other, v), e) ↦
        let eq : intercept out busy c t
            ≡ record t { results = t.results ++ failed out c.id (busy c.name) ∷ [] } =
          rw e refl in
        Awaits-by start rest eq (push-Awaits start rest t c.id _ h)
    | inl e ↦ elim (Option-cases (out.parse c.arguments)) [
      | inl f ↦
          let eq : intercept out busy c t
              ≡ record t { results = t.results ++ invalid_json out c ∷ [] } =
            rw e (rw (f, intercept) refl) in
          Awaits-by start rest eq (push-Awaits start rest t c.id _ h)
      | inr (v, f) ↦ elim (Bool-cases (accepts c.name v)) [
        | inl g ↦
            let eq : intercept out busy c t ≡ record t { intercepted = some (c, v) } =
              rw e (rw (f, intercept) (rw g refl)) in
            Awaits-by start rest eq (rw e at h)
        | inr g ↦
            let eq : intercept out busy c t
                ≡ record t { results = t.results ++ invalid_arguments out c v ∷ [] } =
              rw e (rw (f, intercept) (rw g refl)) in
            Awaits-by start rest eq (push-Awaits start rest t c.id _ h)
      ]
    ]
  ]

  abbrev Answers : ToolCall → Message → Type 0
  Answers c m = (content : String) × (m ≡ tool c.id content)

  dispatched-Gives :
      (u : String) (c : ToolCall) (v : Json) → Gives (Answers c) (dispatched out u c v)
  dispatched-Gives u c v w h = elim (Bool-cases (is_read_only out c.name)) [
    | inl e ↦ rw e (h, (_, refl))
    | inr e ↦ rw e (h, (_, refl))
  ]

  read_only-Gives : (u : String) (c : ToolCall) → Gives (Answers c) (execute_read_only_tool out u c)
  unfolding execute_read_only_tool
  read_only-Gives u c w h = elim (Option-cases (out.parse c.arguments)) [
    | inl f ↦ rw (f, execute_read_only_tool) (h, (_, refl))
    | inr (v, f) ↦
        rw (f, execute_read_only_tool)
          (elim (Bool-cases (accepts c.name v)) [
            | inl g ↦ rw g (dispatched-Gives u c v w h)
            | inr g ↦ rw g (h, (_, refl))
          ])
  ]

  call-Gives :
      (start rest : List String) (busy : String → String) (u : String) (c : ToolCall) (t : Turn)
      → Awaits start (c.id ∷ rest) t
      → Gives (Awaits start rest) (handle_call out busy u c t)
  unfolding handle_call
  call-Gives start rest busy u c t k w h = elim (Bool-cases (is_mutating c.name)) [
    | inl e ↦ rw e (h, intercept-Awaits start rest busy c t k)
    | inr e ↦ rw e (
        bind-Gives (Answers c) (Awaits start rest) (execute_read_only_tool out u c) _
          (read_only-Gives u c)
          (λ m (content, eq) w' h'. (
            h',
            Awaits-by start rest (ap (λ x. record t { results = t.results ++ x ∷ [] }) eq)
                (push-Awaits start rest t c.id content k),
          ))
          w h)
  ]

  calls-Gives :
      (start : List String) (busy : String → String) (u : String) (cs : List ToolCall) (t : Turn)
      → Awaits start (ids cs) t
      → Gives (Awaits start []) (handle_calls out busy u cs t)
  unfolding handle_calls
  calls-Gives start busy u [] t k w h = (h, k)
  calls-Gives start busy u (c ∷ cs) t k w h =
      bind-Gives (Awaits start (ids cs)) (Awaits start []) (handle_call out busy u c t)
        (λ t'. handle_calls out busy u cs t') (call-Gives start (ids cs) busy u c t k)
        (λ t' k'. calls-Gives start busy u cs t' k') w h

  -- The results of an answer of the main loop answer all its calls but the intercepted one.
  pub main_turn-Gives :
      (u : String) (cs : List ToolCall) → Gives (Awaits (ids cs) []) (main_turn out u cs)
  unfolding main_turn
  main_turn-Gives u cs = calls-Gives (ids cs) _ u cs _ refl

  pub post_confirm_turn-Gives :
      (u : String) (cs : List ToolCall) → Gives (Awaits (ids cs) []) (post_confirm_turn out u cs)
  unfolding post_confirm_turn
  post_confirm_turn-Gives u cs = calls-Gives (ids cs) _ u cs _ refl
