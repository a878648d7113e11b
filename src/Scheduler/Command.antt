-- ===== src/Scheduler/Command.antt =====
-- Confirmed commands (packages/types/src/commands.ts) and their translation to requests of
-- monica-integration (services/scheduler/src/lib/command-mapper.ts).
use monica_companion.Base.{Option, none, some, List, Bool, String}
use monica_companion.Json.{
  ℤ, Json, null, int, text, arr, obj, Fields, end, field, ints, optional, show, ◌+++◌,
}
use mathlib.Core.Option

pub record DayMonth : Type 0 where
  pub day : ℤ
  pub month : ℤ
  pub year : Option ℤ

-- MutatingCommandPayload: the discriminated union on `type`. A field of type `Option (Option A)` is
-- nullable and optional.
pub data Payload : Type 0 where
  create_contact :
      (first_name : String) (last_name nickname : Option String) (gender_id : ℤ)
      (birthdate : Option DayMonth)
      → Payload
  create_note : (contact_id : ℤ) (body : String) → Payload
  create_activity :
      (summary : String) (description : Option String) (happened_at : String) (contact_ids : List ℤ)
      (activity_type_id : Option (Option ℤ))
      → Payload
  update_contact_birthday : (contact_id : ℤ) → DayMonth → Payload
  update_contact_phone : (contact_id : ℤ) (value : String) (contact_field_type_id : ℤ) → Payload
  update_contact_email : (contact_id : ℤ) (value : String) (contact_field_type_id : ℤ) → Payload
  update_contact_address :
      (contact_id : ℤ) (name : Option String)
      (street city province postal_code : Option (Option String)) (country : String)
      → Payload
  update_contact_nickname : (contact_id : ℤ) (nickname : String) → Payload
  delete_contact : (contact_id : ℤ) → Payload

-- ConfirmedCommandPayload.
pub record Command : Type 0 where
  pub pending_command_id : String
  pub user_id : String
  pub command_type : String
  pub payload : Payload
  pub idempotency_key : String
  pub correlation_id : String
  pub confirmed_at : String
  pub connector_type : Option String
  pub connector_routing_id : Option String
  pub suppress_delivery : Option Bool

pub data Method : Type 0 where
  post put delete : Method

pub record MonicaRequest : Type 0 where
  pub method : Method
  pub path : String
  pub body : Fields

abbrev texts : Option String → Option Json
texts = Option.map text

abbrev numbers : Option ℤ → Option Json
numbers = Option.map int

-- A field that is nullable and optional: `some none` is null, `none` is undefined.
abbrev nullable {ℓ} : {A : Type ℓ} → (A → Json) → Option (Option A) → Option Json
nullable f none = none
nullable f (some none) = some null
nullable f (some (some a)) = some (f a)

abbrev day_month : DayMonth → Fields
day_month d =
    field "day" (int d.day) (field "month" (int d.month) (optional "year" (numbers d.year) end))

abbrev dates : Option DayMonth → Option Json
dates = Option.map (λ d. obj (day_month d))

abbrev contact_path : ℤ → String
contact_path n = "/internal/contacts/" +++ show n

-- mapCommandToMonicaRequest.
unfoldable pub map_command : Payload → MonicaRequest
map_command (create_contact first last nick gender birth) = record {
  method = post;
  path = "/internal/contacts";
  body = field "firstName" (text first) (
      optional "lastName" (texts last) (
        optional "nickname" (texts nick)
          (field "genderId" (int gender) (optional "birthdate" (dates birth) end))));
}
map_command (create_note contact body) = record {
  method = post;
  path = contact_path contact +++ "/notes";
  body = field "body" (text body) end;
}
map_command (create_activity summary description happened contacts kind) = record {
  method = post;
  path = "/internal/activities";
  body = field "summary" (text summary) (
      optional "description" (texts description) (
        field "happenedAt" (text happened) (
          field "contactIds" (arr (ints contacts))
            (optional "activityTypeId" (nullable int kind) end))));
}
map_command (update_contact_birthday contact date) = record {
  method = put;
  path = contact_path contact;
  body = field "birthdate" (obj (day_month date)) end;
}
map_command (update_contact_phone contact value kind) = record {
  method = post;
  path = contact_path contact +++ "/contact-fields";
  body =
      field "value" (text value)
        (field "contactFieldTypeId" (int kind) (field "type" (text "phone") end));
}
map_command (update_contact_email contact value kind) = record {
  method = post;
  path = contact_path contact +++ "/contact-fields";
  body =
      field "value" (text value)
        (field "contactFieldTypeId" (int kind) (field "type" (text "email") end));
}
map_command (update_contact_address contact name street city province postal country) = record {
  method = post;
  path = contact_path contact +++ "/addresses";
  body = optional "name" (texts name) (
      optional "street" (nullable text street) (
        optional "city" (nullable text city) (
          optional "province" (nullable text province)
            (optional "postalCode" (nullable text postal) (field "country" (text country) end)))));
}
map_command (update_contact_nickname contact nickname) = record {
  method = put;
  path = contact_path contact +++ "/nickname";
  body = field "nickname" (text nickname) end;
}
map_command (delete_contact contact) = record {
  method = delete;
  path = contact_path contact;
  body = end;
}
