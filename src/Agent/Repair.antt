-- ===== src/Agent/Repair.antt =====
-- What repairing a history does: no tool call is left without an answer.
use monica_companion.Base.{
  ◌≡◌, refl, inl, inr, Bool, true, ◌||◌, List, [], ◌∷◌, ◌++◌, String, arith, ap, eq_iff,
  str_eq_self, str_eq-ne, text-cases, All,
}
use monica_companion.Agent.Messages.{Message, system, user, assistant, tool, ToolCall}
use monica_companion.Agent.World.{Outside}
use monica_companion.Agent.Run.{any_answers, has_id, orphans, synthetics, repair_history}

-- Every tool call of every assistant message has a result in a later message.
abbrev pub IsAnswered : List Message → Type 0
IsAnswered [] = Unit
IsAnswered (assistant a ∷ ms) = All (λ c. any_answers c.id ms ≡ true) a.tool_calls × IsAnswered ms
IsAnswered (m ∷ ms) = IsAnswered ms

any_answers-append :
    (id : String) (xs ys : List Message)
    → any_answers id (xs ++ ys) ≡ (any_answers id xs || any_answers id ys)
any_answers-append id [] ys = refl
any_answers-append id (x ∷ xs) ys = ground (arith, any_answers-append id xs ys)

-- An answered call is no orphan.
orphans_answered :
    (seen : List String) (cs : List ToolCall) (ms : List Message)
    → All (λ c. any_answers c.id ms ≡ true) cs
    → orphans seen cs ms ≡ []
unfolding orphans
orphans_answered seen [] ms h = refl
orphans_answered seen (c ∷ cs) ms (h, hs) = ground (arith, orphans_answered (c.id ∷ seen) cs ms hs)

abbrev pub is_met : List String → List String → List Message → String → Bool
is_met seen missing ms id = any_answers id ms || (has_id id seen || has_id id missing)

-- What is met once `c` is seen is met by the orphans that start at `c`.
is_met-orphans :
    (seen : List String) (c : ToolCall) (cs : List ToolCall) (ms : List Message) (id : String)
    → is_met (c.id ∷ seen) (orphans (c.id ∷ seen) cs ms) ms id ≡ true
    → is_met seen (orphans seen (c ∷ cs) ms) ms id ≡ true
unfolding orphans
is_met-orphans seen c cs ms id h = elim (text-cases c.id id) [
  | inl same ↦
      ground (arith, ap (λ i. any_answers i ms) same, ap (λ i. has_id i seen) same, eq_iff c.id id)
  | inr ne ↦ ground (arith, str_eq-ne c.id id ne)
]

met_along :
    (seen : List String) (c : ToolCall) (cs ds : List ToolCall) (ms : List Message)
    → All (λ d. is_met (c.id ∷ seen) (orphans (c.id ∷ seen) cs ms) ms d.id ≡ true) ds
    → All (λ d. is_met seen (orphans seen (c ∷ cs) ms) ms d.id ≡ true) ds
met_along seen c cs [] ms h = tt
met_along seen c cs (d ∷ ds) ms (h, hs) =
    (is_met-orphans seen c cs ms d.id h, met_along seen c cs ds ms hs)

-- A call is answered, seen before, or an orphan.
orphans-is_met :
    (seen : List String) (cs : List ToolCall) (ms : List Message)
    → All (λ c. is_met seen (orphans seen cs ms) ms c.id ≡ true) cs
unfolding orphans
orphans-is_met seen [] ms = tt
orphans-is_met seen (c ∷ cs) ms = (
  ground (arith, str_eq_self c.id),
  met_along seen c cs cs ms (orphans-is_met (c.id ∷ seen) cs ms),
)

module _ (out : Outside) where
  any_answers-synthetics :
      (id : String) (ids : List String) → any_answers id (synthetics out ids) ≡ has_id id ids
  unfolding synthetics
  any_answers-synthetics id [] = refl
  any_answers-synthetics id (j ∷ ids) = ground (arith, any_answers-synthetics id ids)

  any_answers-repair :
      (id : String) (ms : List Message)
      → any_answers id ms ≡ true
      → any_answers id (repair_history out ms) ≡ true
  unfolding repair_history
  any_answers-repair id [] h = h
  any_answers-repair id (system m ∷ ms) h = any_answers-repair id ms h
  any_answers-repair id (user m ∷ ms) h = any_answers-repair id ms h
  any_answers-repair id (tool j m ∷ ms) h = ground (arith, any_answers-repair id ms)
  any_answers-repair id (assistant a ∷ ms) h = ground (
    arith,
    any_answers-append id (synthetics out (orphans [] a.tool_calls ms)) (repair_history out ms),
    any_answers-repair id ms h,
  )

  any_answers-synthetic_prefix :
      (ids : List String) (ms : List Message)
      → IsAnswered ms
      → IsAnswered (synthetics out ids ++ ms)
  unfolding synthetics
  any_answers-synthetic_prefix [] ms h = h
  any_answers-synthetic_prefix (id ∷ ids) ms h = any_answers-synthetic_prefix ids ms h

  -- The calls of one message are answered by what repairing puts behind it.
  calls_answered :
      (cs0 cs : List ToolCall) (ms : List Message)
      → All (λ c. (any_answers c.id ms || has_id c.id (orphans [] cs0 ms)) ≡ true) cs
      → All
          (λ c.
            any_answers c.id (synthetics out (orphans [] cs0 ms) ++ repair_history out ms) ≡ true)
          cs
  calls_answered cs0 [] ms h = tt
  calls_answered cs0 (c ∷ cs) ms (h, hs) = (
    ground (
      arith,
      any_answers-append c.id (synthetics out (orphans [] cs0 ms)) (repair_history out ms),
      any_answers-synthetics c.id (orphans [] cs0 ms),
      any_answers-repair c.id ms,
    ),
    calls_answered cs0 cs ms hs,
  )

  -- In a repaired history every tool call of every assistant message has a later result.
  pub repair-IsAnswered : (ms : List Message) → IsAnswered (repair_history out ms)
  unfolding repair_history
  repair-IsAnswered [] = tt
  repair-IsAnswered (system m ∷ ms) = repair-IsAnswered ms
  repair-IsAnswered (user m ∷ ms) = repair-IsAnswered ms
  repair-IsAnswered (tool j m ∷ ms) = repair-IsAnswered ms
  repair-IsAnswered (assistant a ∷ ms) = (
    calls_answered a.tool_calls a.tool_calls ms (orphans-is_met [] a.tool_calls ms),
    any_answers-synthetic_prefix (orphans [] a.tool_calls ms) (repair_history out ms)
        (repair-IsAnswered ms),
  )

  -- Repairing changes nothing in a history in which every tool call has a later result.
  pub repair_answered : (ms : List Message) → IsAnswered ms → repair_history out ms ≡ ms
  unfolding repair_history synthetics
  repair_answered [] h = refl
  repair_answered (system m ∷ ms) h = ap (λ l. system m ∷ l) (repair_answered ms h)
  repair_answered (user m ∷ ms) h = ap (λ l. user m ∷ l) (repair_answered ms h)
  repair_answered (tool j m ∷ ms) h = ap (λ l. tool j m ∷ l) (repair_answered ms h)
  repair_answered (assistant a ∷ ms) (h, hs) =
      rw (orphans_answered [] a.tool_calls ms h) (ap (λ l. assistant a ∷ l) (repair_answered ms hs))
