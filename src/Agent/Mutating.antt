-- ===== src/Agent/Mutating.antt =====
-- Executing a confirmed tool (services/ai-router/src/agent/tool-handlers/mutating-handlers.ts and
-- lib/scheduler-client.ts). The payload is the JSON object that is sent, an undefined field left out.
use Prim.Native.Char.{code}
use monica_companion.Base.{
  suc, true, Option, none, some, List, [], ◌∷◌, String, str_eq, if◌then◌else◌, ◌==◌, length,
}
use monica_companion.Effects.{Outcome, ok, throws}
use monica_companion.Json.{
  ℤ, pos, Json, null, int, text, obj, Fields, end, field, get, optional, ◌+++◌, decimal,
}
use monica_companion.Agent.World.{Outside, Confirmed, M, pure, ◌>>=◌, try, fetched}

pub data ToolOutcome : Type 0 where
  success : (execution_id : String) → Option Json → ToolOutcome
  error : (message : String) → ToolOutcome

-- dateStr.split("-").
split_from : String → String → List String
split_from cur String.[] = cur ∷ []
split_from cur (String.◌∷◌ c s) =
    let closed = cur ∷ split_from "" s in
    let longer = split_from (cur +++ String.◌∷◌ c "") s in if code c == b'-' then closed else longer

pub record Date : Type 0 where
  pub day : Json
  pub month : Json
  pub year : Json

-- `args.k ?? d`.
abbrev or_default : Option Json → Json → Json
or_default none d = d
or_default (some null) d = d
or_default (some v) d = v

-- `args.k as string`, where it is used as a text.
abbrev text_in : Option Json → Option String
text_in (some (text s)) = some s
text_in _ = none

module _ (out : Outside) where
  date_of_parts : String → List String → Outcome Date
  date_of_parts s (y ∷ m ∷ d ∷ []) = elim (out.number y) [
    | none ↦
        throws ("Invalid date format: \"" +++ (s +++ "\". Expected YYYY-MM-DD with numeric parts."))
    | some year ↦ elim (out.number m) [
      | none ↦
          throws
            ("Invalid date format: \"" +++ (s +++ "\". Expected YYYY-MM-DD with numeric parts."))
      | some month ↦ elim (out.number d) [
        | none ↦
            throws
              ("Invalid date format: \"" +++ (s +++ "\". Expected YYYY-MM-DD with numeric parts."))
        | some day ↦ ok (record { day = day; month = month; year = year })
      ]
    ]
  ]
  date_of_parts s _ = throws ("Invalid date format: \"" +++ (s +++ "\". Expected YYYY-MM-DD."))

  -- parseDateString; an argument that is no text is refused here as an empty one is.
  unfoldable pub parse_date_string : Option String → Outcome Date
  unfolding date_of_parts split_from
  parse_date_string none = throws "Date string is empty"
  parse_date_string (some s) =
      if str_eq s "" then throws "Date string is empty" else date_of_parts s (split_from "" s)

  find_type : String → List (ℤ × Option String) → Option ℤ
  find_type kind [] = none
  find_type kind ((id, none) ∷ types) = find_type kind types
  find_type kind ((id, some t) ∷ types) = if str_eq t kind then some id else find_type kind types

  -- `data.map(t => t.type).join(", ")`, where null is empty.
  type_names : List (ℤ × Option String) → String
  type_names [] = ""
  type_names ((id, t) ∷ []) = elim t [ none ↦ "" | some s ↦ s ]
  type_names ((id, t) ∷ types) = (elim t [ none ↦ "" | some s ↦ s ]) +++ (", " +++ type_names types)

  abbrev type_named : String → Outcome (List (ℤ × Option String)) → Outcome ℤ
  type_named kind (ok types) = elim (find_type kind types) [
    | some id ↦ ok id
    | none ↦ throws (
        "Contact field type \""
        +++ (kind +++ ("\" not found. Available types: " +++ type_names types)))
  ]
  type_named kind (throws m) = throws m

  -- fetchContactFieldTypeId.
  unfoldable pub fetch_contact_field_type_id : String → String → M ℤ
  unfolding find_type type_names
  fetch_contact_field_type_id u kind w = (
    type_named kind (
        fetched (λ status _. "Failed to fetch contact field types: " +++ decimal status)
          (out.contact_field_types w.reads u)),
    record w { reads = suc w.reads },
  )

  abbrev date_fields : Date → Fields → Fields
  date_fields d rest = field "day" d.day (field "month" d.month (field "year" d.year rest))

  abbrev with_birthdate : Fields → Option Date → Fields
  with_birthdate args birth = field "type" (text "create_contact") (
      optional "firstName" (get "first_name" args) (
        optional "lastName" (get "last_name" args) (
          optional "nickname" (get "nickname" args) (
            field "genderId" (or_default (get "gender_id" args) (int (pos 3))) (elim birth [
              | none ↦ end
              | some d ↦ field "birthdate" (obj (date_fields d end)) end
            ])))))

  abbrev settled {ℓ} : {A : Type ℓ} → (A → Fields) → Outcome A → Outcome (Option Fields)
  settled f (ok a) = ok (some (f a))
  settled f (throws m) = throws m

  contact_payload : Fields → Outcome (Option Fields)
  unfolding parse_date_string
  contact_payload args = elim (text_in (get "birthday_date" args)) [
    | none ↦ ok (some (with_birthdate args none))
    | some s ↦
        if str_eq s ""
        then ok (some (with_birthdate args none))
        else settled (λ d. with_birthdate args (some d)) (parse_date_string (some s))
  ]

  birthday_payload : Fields → Outcome (Option Fields)
  unfolding parse_date_string
  birthday_payload args =
      settled
        (λ d.
          field "type" (text "update_contact_birthday")
            (optional "contactId" (get "contact_id" args) (date_fields d end)))
        (parse_date_string (text_in (get "date" args)))

  abbrev pub field_payload : String → String → Fields → ℤ → Fields
  field_payload name value args id = field "type" (text name) (
      optional "contactId" (get "contact_id" args)
        (optional "value" (get value args) (field "contactFieldTypeId" (int id) end)))

  -- The cases of buildPayload that ask no other service.
  local_payload : String → Fields → Outcome (Option Fields)
  unfolding contact_payload birthday_payload
  local_payload name args =
      if str_eq name "create_note"
      then ok (
          some (
            field "type" (text "create_note") (
              optional "contactId" (get "contact_id" args)
                (optional "body" (get "body" args) end))))
      else if str_eq name "create_contact"
      then contact_payload args
      else if str_eq name "create_activity"
      then ok (
          some (
            field "type" (text "create_activity") (
              optional "summary" (get "description" args) (
                field "happenedAt" (or_default (get "date" args) (text out.today)) (
                  optional "contactIds" (get "contact_ids" args)
                    (field "activityTypeId" null end))))))
      else if str_eq name "update_contact_birthday"
      then birthday_payload args
      else if str_eq name "update_contact_address"
      then ok (
          some (
            field "type" (text "update_contact_address") (
              optional "contactId" (get "contact_id" args) (
                field "name" (text "Main") (
                  optional "street" (get "street" args) (
                    optional "city" (get "city" args) (
                      optional "province" (get "province" args) (
                        optional "postalCode" (get "postal_code" args) (
                          field "country" (or_default (get "country" args) (text "US")) end)))))))))
      else if str_eq name "update_contact_nickname"
      then ok (
          some (
            field "type" (text "update_contact_nickname") (
              optional "contactId" (get "contact_id" args)
                (optional "nickname" (get "nickname" args) end))))
      else if str_eq name "delete_contact"
      then ok (
          some (
            field "type" (text "delete_contact")
              (optional "contactId" (get "contact_id" args) end)))
      else ok none

  -- buildPayload: `none` for a tool that does not exist.
  unfoldable pub build_payload : String → Fields → String → M (Option Fields)
  unfolding local_payload fetch_contact_field_type_id
  build_payload name args u w =
      if str_eq name "update_contact_phone"
      then (do
        id ← fetch_contact_field_type_id u "phone"
        pure (some (field_payload "update_contact_phone" "phone_number" args id)))
          w
      else if str_eq name "update_contact_email"
      then (do
        id ← fetch_contact_field_type_id u "email"
        pure (some (field_payload "update_contact_email" "email" args id)))
          w
      else (local_payload name args, w)

  -- SchedulerClient.execute.
  unfoldable pub scheduler_execute : Confirmed → M (String × Option Json)
  scheduler_execute c w = (
    fetched (λ status body. "scheduler returned " +++ (decimal status +++ (": " +++ body)))
        (out.scheduler (length w.executed) c),
    record w { executed = c ∷ w.executed },
  )

  -- The request for a payload. The idempotency key is `${pendingCommandId}:v1`.
  abbrev pub confirmed : String → String → String → String → Fields → Confirmed
  confirmed name u correlation_id id payload = record {
    pending_command_id = id;
    user_id = u;
    command_type = name;
    payload = payload;
    idempotency_key = id +++ ":v1";
    correlation_id = correlation_id;
    confirmed_at = out.now;
    suppress_delivery = true;
  }

  abbrev pub submit : String → String → String → String → Option Fields → M ToolOutcome
  submit name u correlation_id id none =
      pure (error ("Unknown tool \"" +++ (name +++ "\". Cannot execute.")))
  submit name u correlation_id id (some payload) = do
    (execution_id, result) ← scheduler_execute (confirmed name u correlation_id id payload)
    pure (success execution_id result)

  -- executeMutatingTool.
  unfoldable pub execute_mutating_tool :
      (name : String) (args : Fields) (user_id correlation_id pending_command_id : String)
      → M ToolOutcome
  execute_mutating_tool name args u correlation_id id =
      try (build_payload name args u >>= submit name u correlation_id id)
        (λ _. pure (error ("Failed to execute \"" +++ (name +++ "\". Please try again later."))))
