-- ===== src/Agent/Sends.antt =====
-- What executing a confirmed tool does to the agent's state: at most one command is sent.
use monica_companion.Base.{
  ◌≡◌, refl, ◌⊎◌, inl, inr, Option, none, some, ◌∷◌, String, arith, Bool-cases, ◌∙◌, ap, str_eq,
}
use monica_companion.Effects.{Outcome, ok, throws}
use monica_companion.Json.{Fields, ◌+++◌}
use monica_companion.Agent.World.{World, Outside, pure, await_then, caught}
use monica_companion.Agent.Mutating.{
  ToolOutcome, build_payload, scheduler_execute, submit, confirmed, execute_mutating_tool,
  fetch_contact_field_type_id, field_payload,
}

module _ (out : Outside) where
  -- `w'` differs from `w` by at most one command: the tool `name` for the pending command `id`.
  pub record Sends (u correlation_id name id : String) (w w' : World) : Type 0 where
    pub rows : w'.rows ≡ w.rows
    pub sent :
        (w'.executed ≡ w.executed)
        ⊎ ((payload : Fields) × (w'.executed
              ≡ confirmed out name u correlation_id id payload ∷ w.executed))

  then_pure :
      {A B : Type 0} (p : Outcome A × World) (g : A → B) → (await_then p (λ a. pure (g a))).1 ≡ p.1
  then_pure (ok a, w) g = refl
  then_pure (throws m, w) g = refl

  caught-pure :
      {A : Type 0} (p : Outcome A × World) (g : String → A) → (caught (λ m. pure (g m)) p).1 ≡ p.1
  caught-pure (ok a, w) g = refl
  caught-pure (throws m, w) g = refl

  build-keeps :
      (name : String) (args : Fields) (u : String) (w : World)
      → ((build_payload out name args u w).1.rows ≡ w.rows)
        × ((build_payload out name args u w).1.executed ≡ w.executed)
  unfolding build_payload
  build-keeps name args u w = elim (Bool-cases (str_eq name "update_contact_phone")) [
    | inl e ↦
        rw (e, build_payload)
          (ground (
            arith,
            then_pure (fetch_contact_field_type_id out u "phone" w)
                (λ id. some (field_payload out "update_contact_phone" "phone_number" args id)),
          ))
    | inr e ↦ elim (Bool-cases (str_eq name "update_contact_email")) [
      | inl f ↦
          rw (e, build_payload)
            (rw f (
              ground (
                arith,
                then_pure (fetch_contact_field_type_id out u "email" w)
                    (λ id. some (field_payload out "update_contact_email" "email" args id)),
              )))
      | inr f ↦ rw (e, build_payload) (rw f (refl, refl))
    ]
  ]

  submit-Sends :
      (name u correlation_id id : String) (p : Option Fields) (w : World)
      → Sends u correlation_id name id w (submit out name u correlation_id id p w).1
  unfolding scheduler_execute
  submit-Sends name u correlation_id id none w = record { rows = refl; sent = inl refl }
  submit-Sends name u correlation_id id (some payload) w =
      let p = scheduler_execute out (confirmed out name u correlation_id id payload) w in
      rw (then_pure p (λ r. ToolOutcome.success r.0 r.1))
        (record { rows = refl; sent = inr (payload, refl) })

  pub execute-Sends :
      (name : String) (args : Fields) (u correlation_id id : String) (w : World)
      → Sends u correlation_id name id w
          (execute_mutating_tool out name args u correlation_id id w).1
  unfolding execute_mutating_tool
  execute-Sends name args u correlation_id id w =
      rw
        (caught-pure
          (await_then (build_payload out name args u w)
            (λ x. submit out name u correlation_id id x))
          (λ _.
            ToolOutcome.error
              ("Failed to execute \"" +++ (name +++ "\". Please try again later."))))
        (go (build_payload out name args u w) (build-keeps name args u w))
    where
      go :
          (p : Outcome (Option Fields) × World)
          → (p.1.rows ≡ w.rows) × (p.1.executed ≡ w.executed)
          → Sends u correlation_id name id w
              (await_then p (λ x. submit out name u correlation_id id x)).1
      go (throws m, w') (r, e) = record { rows = r; sent = inl e }
      go (ok o, w') (r, e) =
          let s = submit-Sends name u correlation_id id o w' in
          record {
            rows = s.rows ∙ r;
            sent = elim s.sent [
              | inl same ↦ inl (same ∙ e)
              | inr (payload, more) ↦
                  inr
                    (payload, more ∙ ap (λ l. confirmed out name u correlation_id id payload ∷ l) e)
            ];
          }
