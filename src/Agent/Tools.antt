-- ===== src/Agent/Tools.antt =====
-- The tools of the agent: which ones change data, their argument schemas, and the description that a
-- confirmation shows (services/ai-router/src/agent/tools.ts). Texts are cut by characters.
use Prim.Native.String.{count}
use monica_companion.Base.{
  ℕ, zero, suc, Bool, true, false, ◌&&◌, ◌||◌, not, Option, none, some, String, str_eq,
  if◌then◌else◌, ltb, leb,
}
use monica_companion.Json.{
  pos, negsuc, Json, null, bool, int, frac, text, arr, obj, Elems, nil, cons, Fields, end, get,
  show, ◌+++◌,
}

-- MUTATING_TOOLS.
unfoldable pub is_mutating : String → Bool
is_mutating name =
    str_eq name "create_note"
    || (str_eq name "create_contact"
        || (str_eq name "create_activity"
            || (str_eq name "update_contact_birthday"
                || (str_eq name "update_contact_phone"
                    || (str_eq name "update_contact_email"
                        || (str_eq name "update_contact_address"
                            || (str_eq name "update_contact_nickname"
                                || str_eq name "delete_contact")))))))

-- The pieces of the schemas. A missing field is `none`.
-- Number.MAX_SAFE_INTEGER, which bounds z.int().
abbrev max_safe_integer : ℕ
max_safe_integer = 9007199254740991

abbrev is_int : Option Json → Bool
is_int (some (int (pos n))) = leb n max_safe_integer
is_int (some (int (negsuc n))) = ltb n max_safe_integer
is_int _ = false

abbrev is_positive : Option Json → Bool
is_positive (some (int (pos n))) = ltb 0 n && leb n max_safe_integer
is_positive _ = false

abbrev is_text : (String → Bool) → Option Json → Bool
is_text p (some (text s)) = p s
is_text p _ = false

abbrev is_bool : Option Json → Bool
is_bool (some (bool b)) = true
is_bool _ = false

abbrev optionally : (Option Json → Bool) → Option Json → Bool
optionally p none = true
optionally p (some v) = p (some v)

abbrev any_text : String → Bool
any_text s = true

abbrev nonempty : String → Bool
nonempty s = not (str_eq s "")

abbrev at_most_255 : String → Bool
at_most_255 s = leb (count s) 255

all_ints : Elems → Bool
all_ints nil = true
all_ints (cons v vs) = is_int (some v) && all_ints vs

some_ints : Option Json → Bool
unfolding all_ints
some_ints (some (arr (cons v vs))) = is_int (some v) && all_ints vs
some_ints _ = false

abbrev in_days : Option Json → Bool
in_days (some (int (pos n))) = leb 1 n && leb n 90
in_days _ = false

-- TOOL_ARG_SCHEMAS: the schema of a tool, by the tests that its object passes.
schema : String → Fields → Option Bool
unfolding some_ints
schema name o =
    if str_eq name "search_contacts"
    then some (is_text nonempty (get "query" o))
    else if str_eq name "query_birthday"
    then some (is_positive (get "contact_id" o))
    else if str_eq name "query_phone"
    then some (is_positive (get "contact_id" o))
    else if str_eq name "query_last_note"
    then some (is_positive (get "contact_id" o))
    else if str_eq name "create_note"
    then some (is_int (get "contact_id" o) && is_text nonempty (get "body" o))
    else if str_eq name "create_contact"
    then some (
        is_text nonempty (get "first_name" o)
        && (optionally (is_text any_text) (get "last_name" o)
            && (optionally (is_text any_text) (get "nickname" o)
                && (optionally is_int (get "gender_id" o)
                    && optionally (is_text any_text) (get "birthday_date" o)))))
    else if str_eq name "create_activity"
    then some (
        some_ints (get "contact_ids" o)
        && (is_text (λ s. nonempty s && at_most_255 s) (get "description" o)
            && (optionally (is_text any_text) (get "activity_type" o)
                && optionally (is_text any_text) (get "date" o))))
    else if str_eq name "update_contact_birthday"
    then some (
        is_int (get "contact_id" o)
        && (is_text nonempty (get "date" o) && optionally is_bool (get "is_age_based" o)))
    else if str_eq name "update_contact_phone"
    then some (is_int (get "contact_id" o) && is_text nonempty (get "phone_number" o))
    else if str_eq name "update_contact_email"
    then some (is_int (get "contact_id" o) && is_text nonempty (get "email" o))
    else if str_eq name "update_contact_address"
    then some (
        is_int (get "contact_id" o)
        && (optionally (is_text any_text) (get "street" o)
            && (optionally (is_text any_text) (get "city" o)
                && (optionally (is_text any_text) (get "province" o)
                    && (optionally (is_text any_text) (get "postal_code" o)
                        && optionally (is_text any_text) (get "country" o))))))
    else if str_eq name "update_contact_nickname"
    then some (is_positive (get "contact_id" o) && is_text any_text (get "nickname" o))
    else if str_eq name "delete_contact"
    then some (is_positive (get "contact_id" o))
    else if str_eq name "query_reminders"
    then some (optionally in_days (get "days" o))
    else none

-- The fields of an object, where a value is one. A read of a field of another value is undefined.
abbrev pub fields_of : Json → Fields
fields_of (obj o) = o
fields_of _ = end

abbrev is_object : Json → Bool
is_object (obj o) = true
is_object _ = false

-- Whether `safeParse` accepts the arguments; a tool with no schema accepts all.
unfoldable pub accepts : String → Json → Bool
unfolding schema
accepts name v = elim (schema name (fields_of v)) [
  | none ↦ true
  | some passes ↦ is_object v && passes
]

-- String(v).
mutual
  js_string : Json → String
  js_string null = "null"
  js_string (bool b) = elim b [ true ↦ "true" | false ↦ "false" ]
  js_string (int n) = show n
  js_string (frac t) = t
  js_string (text t) = t
  js_string (arr vs) = joined "," vs
  js_string (obj o) = "[object Object]"

  -- `vs.join(separator)`, where null is empty.
  joined : String → Elems → String
  joined separator nil = ""
  joined separator (cons null nil) = ""
  joined separator (cons v nil) = js_string v
  joined separator (cons null vs) = separator +++ joined separator vs
  joined separator (cons v vs) = js_string v +++ (separator +++ joined separator vs)

abbrev interpolated : Option Json → String
interpolated none = "undefined"
interpolated (some v) = js_string v

first : ℕ → String → String
first zero s = ""
first (suc n) String.[] = ""
first (suc n) (String.◌∷◌ c s) = String.◌∷◌ c (first n s)

truncate : String → ℕ → String
unfolding first
truncate s most = if ltb most (count s) then first most s +++ "…" else s

-- A field that is a text and not empty.
abbrev full_text : Option Json → Option String
full_text (some (text s)) = if str_eq s "" then none else some s
full_text _ = none

contact_label : Fields → String
contact_label args = elim (full_text (get "contactName" args)) [
  | some name ↦ name
  | none ↦ "contact " +++ interpolated (get "contact_id" args)
]

abbrev text_or_empty : Option Json → String
text_or_empty (some (text s)) = s
text_or_empty _ = ""

-- `${String(args.body ?? "")}`.
abbrev string_or_empty : Option Json → String
string_or_empty none = ""
string_or_empty (some null) = ""
string_or_empty (some v) = js_string v

-- [first_name, last_name].filter(Boolean).join(" "), of texts.
abbrev full_name : Option String → Option String → String
full_name (some a) (some b) = a +++ (" " +++ b)
full_name (some a) none = a
full_name none (some b) = b
full_name none none = ""

abbrev id_list : Option Json → String
id_list (some (arr vs)) = joined ", " vs
id_list _ = "unknown"

abbrev suffix : (before after : String) → Option String → String
suffix before after none = ""
suffix before after (some s) = before +++ (s +++ after)

-- generateActionDescription.
unfoldable pub describe : String → Fields → String
unfolding contact_label truncate js_string joined
describe name args =
    if str_eq name "create_note"
    then "Create a note for "
      +++ (contact_label args
          +++ (": \"" +++ (truncate (string_or_empty (get "body" args)) 200 +++ "\"")))
    else if str_eq name "create_contact"
    then "Create a new contact: "
      +++ (full_name (full_text (get "first_name" args)) (full_text (get "last_name" args))
          +++ (suffix " (nickname: \"" "\")" (full_text (get "nickname" args))
              +++ suffix ", birthday " "" (full_text (get "birthday_date" args))))
    else if str_eq name "create_activity"
    then "Log an activity with contact(s) "
      +++ (id_list (get "contact_ids" args)
          +++ (": \"" +++ (truncate (text_or_empty (get "description" args)) 200 +++ "\"")))
    else if str_eq name "update_contact_birthday"
    then "Update birthday for "
      +++ (contact_label args +++ (" to " +++ interpolated (get "date" args)))
    else if str_eq name "update_contact_phone"
    then "Update phone number for " +++ contact_label args
    else if str_eq name "update_contact_email"
    then "Update email for " +++ contact_label args
    else if str_eq name "update_contact_address"
    then "Update address for " +++ contact_label args
    else if str_eq name "update_contact_nickname"
    then "Update nickname for "
      +++ (contact_label args
          +++ (" to " +++ elim (full_text (get "nickname" args)) [
            | some nick ↦ "\"" +++ (nick +++ "\"")
            | none ↦ "(remove)"
          ]))
    else if str_eq name "delete_contact"
    then "Permanently delete " +++ (contact_label args +++ " and all associated data")
    else "Execute " +++ name
