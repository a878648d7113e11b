-- ===== src/Agent/Protocol/Repaired.antt =====
-- A history that keeps to the protocol needs no repair.
use monica_companion.Base.{
  ◌≡◌, true, none, some, List, [], ◌∷◌, ◌++◌, String, str_eq, eq_iff, arith, Bool-cases,
  Option-cases, inl, inr, All, str_eq_self,
}
use monica_companion.Agent.Messages.{Message, system, user, assistant, tool, ToolCall}
use monica_companion.Agent.Run.{any_answers}
use monica_companion.Agent.Repair.{IsAnswered}
use monica_companion.Agent.Protocol.{ids, without, due, IsTail}

without-All :
    (P : String → Type 0) (id : String) (js : List String) {rest : List String}
    → without id js ≡ some rest
    → P id
    → All P rest
    → All P js
without-All P id [] h p ps = absurd (ground arith)
without-All P id (j ∷ js) {rest} h p ps = elim (Bool-cases (str_eq j id)) [
  | inl e ↦
      let same : j ≡ id = (eq_iff j id).0 e in
      let tail : some js ≡ some rest = rw e at h in (rw same p, rw (some_injective tail) ps)
  | inr e ↦ elim (Option-cases (without id js)) [
    | inl gone ↦ absurd (ground arith)
    | inr (left, found) ↦
        let h' = rw e at h in
        let whole : some (j ∷ left) ≡ some rest = rw found at h' in
        let ps' : All P (j ∷ left) = rw (← some_injective whole) at ps in
        (ps'.0, without-All P id js found p ps'.1)
  ]
]
  where
    some_injective : {A : Type 0} {a b : A} → some a ≡ some b → a ≡ b
    some_injective h = cc

-- A call that waits is answered later, since at the end none waits.
abbrev Later : List Message → String → Type 0
Later ms id = any_answers id ms ≡ true

Later-past :
    (m : Message) (ms : List Message) (ws : List String)
    → All (Later ms) ws
    → All (Later (m ∷ ms)) ws
Later-past m ms [] h = tt
Later-past m ms (w ∷ ws) (h, hs) = (ground (arith, h), Later-past m ms ws hs)

waiting_answered : (ws : List String) (ms : List Message) → due ws ms ≡ some [] → All (Later ms) ws
waiting_answered [] ms h = tt
waiting_answered (w ∷ ws) [] h = absurd (ground arith)
waiting_answered (w ∷ ws) (system s ∷ ms) h = absurd (ground arith)
waiting_answered (w ∷ ws) (user s ∷ ms) h = absurd (ground arith)
waiting_answered (w ∷ ws) (assistant a ∷ ms) h = absurd (ground arith)
waiting_answered (w ∷ ws) (tool id s ∷ ms) h = elim (Option-cases (without id (w ∷ ws))) [
  | inl gone ↦ absurd (let e : none ≡ some [] = rw gone at h in cc)
  | inr (rest, found) ↦
      without-All (Later (tool id s ∷ ms)) id (w ∷ ws) found (ground (arith, str_eq_self id))
        (Later-past (tool id s) ms rest (waiting_answered rest ms (rw found at h)))
]

calls-Later :
    (cs : List ToolCall) (ms : List Message)
    → All (Later ms) (ids cs)
    → All (λ c. any_answers c.id ms ≡ true) cs
calls-Later [] ms h = tt
calls-Later (c ∷ cs) ms (h, hs) = (h, calls-Later cs ms hs)

due-IsAnswered : (ws : List String) (ms : List Message) → due ws ms ≡ some [] → IsAnswered ms
due-IsAnswered ws [] h = tt
due-IsAnswered [] (system s ∷ ms) h = due-IsAnswered [] ms h
due-IsAnswered [] (user s ∷ ms) h = due-IsAnswered [] ms h
due-IsAnswered [] (assistant a ∷ ms) h = (
  calls-Later a.tool_calls ms (waiting_answered (ids a.tool_calls) ms h),
  due-IsAnswered (ids a.tool_calls) ms h,
)
due-IsAnswered (w ∷ ws) (system s ∷ ms) h = absurd (ground arith)
due-IsAnswered (w ∷ ws) (user s ∷ ms) h = absurd (ground arith)
due-IsAnswered (w ∷ ws) (assistant a ∷ ms) h = absurd (ground arith)
due-IsAnswered ws (tool id s ∷ ms) h = elim (Option-cases (without id ws)) [
  | inl gone ↦ absurd (let e : none ≡ some [] = rw gone at h in cc)
  | inr (rest, found) ↦ due-IsAnswered rest ms (rw found at h)
]

IsAnswered-append : (xs ys : List Message) → IsAnswered (xs ++ ys) → IsAnswered ys
IsAnswered-append [] ys h = h
IsAnswered-append (system s ∷ xs) ys h = IsAnswered-append xs ys h
IsAnswered-append (user s ∷ xs) ys h = IsAnswered-append xs ys h
IsAnswered-append (tool id s ∷ xs) ys h = IsAnswered-append xs ys h
IsAnswered-append (assistant a ∷ xs) ys (h, hs) = IsAnswered-append xs ys hs

-- In the end of a history that keeps to the protocol every call is answered.
pub tail-IsAnswered : (ms : List Message) → IsTail ms → IsAnswered ms
tail-IsAnswered ms t = IsAnswered-append t.before ms (due-IsAnswered [] (t.before ++ ms) t.complete)
