-- ===== src/Users.antt =====
-- Users of user-management: their rows and preferences (services/user-management/src/user/
-- repository.ts, src/db/schema.ts), disconnecting (src/user/disconnect.ts beside it), and the route
-- that consumes a setup token and creates the user (src/app.ts).
use monica_companion.Base.{
  ℕ, ◌+◌, ◌*◌, Bool, true, false, not, Option, none, some, List, [], ◌∷◌, String, str_eq,
  if◌then◌else◌, keep,
}
use monica_companion.Effects.{Outcome, ok, throws}
use monica_companion.Sql.{row, update_where, upsert}
use monica_companion.SetupToken as SetupToken
use monica_companion.SetupToken.{
  Token, Consumed, consumed_for, token_is, consume_token, active_for, invalidating, invalidated,
}
use monica_companion.Purge as Purge
pub mod Laws
pub mod Leaving
mod Tests

-- A row of users.
pub record User : Type 0 where
  pub id : String
  pub telegram_user_id : String
  pub monica_base_url : String
  pub monica_api_token_encrypted : String
  pub encryption_key_id : String
  pub updated_at : ℕ

-- A row of userPreferences, by its unique user.
pub record Preferences : Type 0 where
  pub user_id : String
  pub language : String
  pub confirmation_mode : String
  pub timezone : String
  pub reminder_cadence : String
  pub reminder_time : String
  pub connector_type : String
  pub connector_routing_id : String
  pub updated_at : ℕ

-- A row of credentialAccessAuditLog.
pub record Access : Type 0 where
  pub user_id : String
  pub actor_service : String
  pub correlation_id : Option String

pub record Database : Type 0 where
  pub users : List User
  pub preferences : List Preferences
  pub tokens : SetupToken.World
  pub purges : List Purge.Request
  pub accesses : List Access

abbrev pub id_of : User → String
id_of u = u.id

abbrev pub telegram_of : User → String
telegram_of u = u.telegram_user_id

abbrev pub user_of : Preferences → String
user_of p = p.user_id

-- findUserById and findUserByTelegramId.
abbrev pub find_user_by_id : Database → String → Option User
find_user_by_id db id = row id_of id db.users

abbrev pub find_user_by_telegram_id : Database → String → Option User
find_user_by_telegram_id db u = row telegram_of u db.users

abbrev pub get_user_preferences : Database → String → Option Preferences
get_user_preferences db id = row user_of id db.preferences

-- listUsersWithSchedules.
abbrev pub list_users_with_schedules : Database → List Preferences
list_users_with_schedules db = keep (λ p. not (str_eq p.reminder_cadence "none")) db.preferences

-- What onboarding says (OnboardingUserParams).
pub record Onboarding : Type 0 where
  pub monica_base_url : String
  pub monica_api_key : String
  pub language : String
  pub confirmation_mode : String
  pub timezone : String
  pub reminder_cadence : String
  pub reminder_time : String

-- What the route calls: the cipher, the check of a token's signature, the time zones, the protocol of
-- a URL, and normalizeMonicaUrl of the Monica API library.
pub record Outside : Type 0 where
  pub encrypt : String → String
  pub key_id : String
  pub verifies : Token → String → Bool
  pub is_timezone : String → Bool
  pub protocol : String → Outcome String
  pub normalize : String → Outcome String

abbrev pub id_or : String → Option User → String
id_or id none = id
id_or id (some u) = u.id

-- The rows that createOrUpdateUserFromOnboarding inserts, and the changes where they exist.
module _ (out : Outside) (u url : String) (o : Onboarding) (now : ℕ) where
  abbrev pub new_user : String → User
  new_user id = record {
    id = id;
    telegram_user_id = u;
    monica_base_url = url;
    monica_api_token_encrypted = out.encrypt o.monica_api_key;
    encryption_key_id = out.key_id;
    updated_at = now;
  }

  abbrev pub renewed : User → User
  renewed x = record x {
    monica_base_url = url;
    monica_api_token_encrypted = out.encrypt o.monica_api_key;
    encryption_key_id = out.key_id;
    updated_at = now;
  }

  abbrev pub chosen : String → Preferences
  chosen user_id = record {
    user_id = user_id;
    language = o.language;
    confirmation_mode = o.confirmation_mode;
    timezone = o.timezone;
    reminder_cadence = o.reminder_cadence;
    reminder_time = o.reminder_time;
    connector_type = "telegram";
    connector_routing_id = u;
    updated_at = now;
  }

  -- createOrUpdateUserFromOnboarding; `id` is the identifier that a new row gets.
  unfoldable pub create_or_update : String → Database → Database
  create_or_update id db =
      let users = upsert telegram_of (new_user id) renewed db.users in
      let user_id = id_or id (row telegram_of u users) in
      record db {
        users = users;
        preferences = upsert user_of (chosen user_id) (λ p. chosen p.user_id) db.preferences;
      }

-- What the consume route answers, by its status and reason.
pub data ConsumeAnswer : Type 0 where
  bad_request invalid_signature : (message : String) → ConsumeAnswer
  consumes : Consumed → ConsumeAnswer
  invalid_url : ConsumeAnswer

-- The transaction that consumes the token and creates the user.
abbrev pub created :
    Outside
    → String
    → Token
    → Onboarding
    → ℕ
    → Consumed
    → Outcome String
    → Database
    → ConsumeAnswer × Database
created out id seen o now result (throws e) db = (invalid_url, db)
created out id seen o now result (ok url) db =
    (consumes result, create_or_update out seen.telegram_user_id url o now id db)

abbrev pub create_consumed :
    Outside
    → String
    → Token
    → Onboarding
    → ℕ
    → Consumed × SetupToken.World
    → Database
    → ConsumeAnswer × Database
create_consumed out id seen o now (consumed_for u, tokens) db =
    created out id seen o now (consumed_for u) (out.normalize o.monica_base_url)
      (record db { tokens = tokens })
create_consumed out id seen o now (refused, tokens) db =
    (consumes refused, record db { tokens = tokens })

abbrev pub only_consumed : Consumed × SetupToken.World → Database → ConsumeAnswer × Database
only_consumed (result, tokens) db = (consumes result, record db { tokens = tokens })

-- The checks of the onboarding data before the token is consumed.
abbrev pub checked_url :
    Outcome String → (accepted : ConsumeAnswer × Database) → Database → ConsumeAnswer × Database
checked_url (throws e) accepted db = (bad_request "Invalid Monica URL", db)
checked_url (ok protocol) accepted db =
    if str_eq protocol "https:"
    then accepted
    else (bad_request "Only HTTPS Monica URLs are allowed", db)

abbrev pub consume_for :
    Outside
    → String
    → Option Token
    → String
    → String
    → Option Onboarding
    → ℕ
    → Database
    → ConsumeAnswer × Database
consume_for out id none token_id sig o now db = (consumes SetupToken.not_found, db)
consume_for out id (some seen) token_id sig none now db =
    if out.verifies seen sig then only_consumed (consume_token token_id now now db.tokens) db else (
      invalid_signature "Invalid signature",
      record db { tokens = SetupToken.noted token_id "invalid_signature_rejected" db.tokens },
    )
consume_for out id (some seen) token_id sig (some o) now db =
    if out.verifies seen sig
    then if out.is_timezone o.timezone
      then checked_url (out.protocol o.monica_base_url)
          (create_consumed out id seen o now (consume_token token_id now now db.tokens) db) db
      else (bad_request "Invalid timezone", db)
    else (
      invalid_signature "Invalid signature",
      record db { tokens = SetupToken.noted token_id "invalid_signature_rejected" db.tokens },
    )

-- POST /internal/setup-tokens/:tokenId/consume, with a body that is accepted: the signature, and the
-- onboarding data where they are given.
unfoldable pub consume_route :
    Outside
    → (new_id token_id sig : String) → Option Onboarding
    → (now : ℕ) → Database
    → ConsumeAnswer × Database
unfolding create_or_update consume_token
consume_route out id token_id sig o now db =
    consume_for out id (row SetupToken.id_of token_id db.tokens.tokens) token_id sig o now db

abbrev pub purge_grace_days : ℕ
purge_grace_days = 30

abbrev pub purge_time : ℕ → ℕ
purge_time now = now + purge_grace_days * 24 * 60 * 60 * 1000

abbrev pub revoked : ℕ → User → User
revoked now u = record u {
  monica_api_token_encrypted = "";
  encryption_key_id = "revoked";
  monica_base_url = "revoked";
  updated_at = now;
}

abbrev pub purge_request : (id user_id : String) → ℕ → Purge.Request
purge_request id user_id now = record {
  id = id;
  user_id = user_id;
  status = Purge.pending;
  reason = "account_disconnection";
  requested_at = now;
  purge_after = purge_time now;
  claimed_at = none;
  completed_at = none;
  retry_count = 0;
  error = none;
}

abbrev pub disconnecting :
    (id user_id actor : String) → Option String → ℕ → Option User → Database → Option ℕ × Database
disconnecting id user_id actor cid now none db = (none, db)
disconnecting id user_id actor cid now (some user) db = (
  some (purge_time now),
  record db {
    users = update_where (λ u. str_eq u.id user_id) (revoked now) db.users;
    tokens = record db.tokens {
      tokens =
          update_where (active_for user.telegram_user_id) (invalidating invalidated now)
            db.tokens.tokens;
    };
    purges = purge_request id user_id now ∷ db.purges;
    accesses =
        record { user_id = user_id; actor_service = actor; correlation_id = cid } ∷ db.accesses;
  },
)

-- disconnectUser; `id` is the identifier of the purge request.
unfoldable pub disconnect_user :
    (id user_id actor : String) → Option String → (now : ℕ) → Database → Option ℕ × Database
disconnect_user id user_id actor cid now db =
    disconnecting id user_id actor cid now (find_user_by_id db user_id) db
