-- ===== src/Users/Tests.antt =====
-- Onboarding and disconnecting, and their theorems at concrete databases.
use monica_companion.Base.{
  ◌+◌, ◌≡◌, ◌≢◌, refl, false, true, none, some, [], ◌∷◌, String, str_eq, eq_iff, arith, keep,
  if◌then◌else◌,
}
use monica_companion.Effects.{answered, ok, throws}
use monica_companion.Json.{◌+++◌}
use monica_companion.Sql.{row, update_where, upsert}
use monica_companion.SetupToken.{
  Token, consumed_for, active_for, new_token, consume_after, consume_token,
}
use monica_companion.SetupToken.Once.{IsUsedUp}
use monica_companion.Purge.{Request, Sweep}
use monica_companion.Purge.Rows as Rows
use monica_companion.Purge.Retries.{run, IsSettled}
use monica_companion.Users.{
  User, Database, Onboarding, Outside, consumes, invalid_url, find_user_by_id,
  find_user_by_telegram_id, create_or_update, consume_route, disconnect_user, purge_request,
}
use monica_companion.Users.Laws.{HasUser, consume_route-HasUser, consume_route-IsUsedUp}
use monica_companion.Users.Leaving.{disconnect_user_lem, disconnect_user-IsSettled}

users : Unit {0}
unfolding consume_after consume_token create_or_update consume_route disconnect_user update_where
    upsert
users = tt

-- A cipher that only marks the text; a URL with a fragment cannot be normalized.
abbrev outside : Outside
outside = record {
  encrypt = (λ s. "sealed " +++ s);
  key_id = "k1";
  verifies = (λ t s. str_eq s t.step);
  is_timezone = (λ s. str_eq s "UTC");
  protocol = (λ s. ok "https:");
  normalize =
      (λ s. if str_eq s "https://m.example#" then throws "Invalid URL" else ok (s +++ "/api"));
}

abbrev answers : String → Onboarding
answers url = record {
  monica_base_url = url;
  monica_api_key = "secret";
  language = "en";
  confirmation_mode = "explicit";
  timezone = "UTC";
  reminder_cadence = "daily";
  reminder_time = "08:00";
}

abbrev token : Token
token = new_token "t1" "ann" "onboarding" 900

abbrev bea : User
bea = record {
  id = "u2";
  telegram_user_id = "bea";
  monica_base_url = "https://b.example/api";
  monica_api_token_encrypted = "sealed b";
  encryption_key_id = "k1";
  updated_at = 10;
}

abbrev database : Database
database = record {
  users = bea ∷ [];
  preferences = [];
  tokens = record { tokens = token ∷ new_token "t2" "bea" "onboarding" 900 ∷ []; log = [] };
  purges = [];
  accesses = [];
}

other : ◌≢◌ {A = String} "bea" "ann"
other e = let h : false ≡ true = (eq_iff "bea" "ann").1 e in cc

consume_route-HasUser_example :
    ((consume_route outside "u1" "t1" "onboarding"
        (some (answers "https://m.example"))
        500
        database).0
      ≡ consumes (consumed_for "ann"))
    × HasUser outside "ann" "https://m.example/api"
        (answers "https://m.example")
        (consume_route outside "u1" "t1" "onboarding"
          (some (answers "https://m.example"))
          500
          database).1
    × IsUsedUp "t1"
        (consume_route outside "u1" "t1" "onboarding"
          (some (answers "https://m.example"))
          500
          database).1.tokens
    × (find_user_by_telegram_id
          (consume_route outside "u1" "t1" "onboarding"
            (some (answers "https://m.example"))
            500
            database).1
          "bea"
        ≡ some bea)
consume_route-HasUser_example =
    consume_route-HasUser outside "u1" "t1" "onboarding" "bea" "https://m.example/api" token
      (answers "https://m.example") 500 database (refl, (refl, tt)) refl refl (omega arith) refl
      refl refl refl other

consume_route-IsUsedUp_example :
    ((consume_route outside "u1" "t1" "onboarding"
        (some (answers "https://m.example#"))
        500
        database).0
      ≡ invalid_url)
    × IsUsedUp "t1"
        (consume_route outside "u1" "t1" "onboarding"
          (some (answers "https://m.example#"))
          500
          database).1.tokens
    × ((consume_route outside "u1" "t1" "onboarding"
          (some (answers "https://m.example#"))
          500
          database).1.users
        ≡ database.users)
    × ((consume_route outside "u1" "t1" "onboarding"
          (some (answers "https://m.example#"))
          500
          database).1.preferences
        ≡ database.preferences)
consume_route-IsUsedUp_example =
    consume_route-IsUsedUp outside "u1" "t1" "onboarding" "Invalid URL" token
      (answers "https://m.example#") 500 database (refl, (refl, tt)) refl refl (omega arith) refl
      refl refl refl

absent : ◌≢◌ {A = String} "u1" "u2"
absent e = let h : false ≡ true = (eq_iff "u1" "u2").1 e in cc

disconnect_user_example :
    ((disconnect_user "p1" "u2" "telegram-bridge" none 500 database).0 ≡ some (500 + 2592000000))
    × (find_user_by_id (disconnect_user "p1" "u2" "telegram-bridge" none 500 database).1 "u2"
        ≡ some (record bea {
          monica_api_token_encrypted = "";
          encryption_key_id = "revoked";
          monica_base_url = "revoked";
          updated_at = 500;
        }))
    × (find_user_by_id (disconnect_user "p1" "u2" "telegram-bridge" none 500 database).1 "u1"
        ≡ find_user_by_id database "u1")
    × (keep
          (active_for "bea")
          (disconnect_user "p1" "u2" "telegram-bridge" none 500 database).1.tokens.tokens
        ≡ [])
    × ((disconnect_user "p1" "u2" "telegram-bridge" none 500 database).1.purges
        ≡ purge_request "p1" "u2" 500 ∷ [])
disconnect_user_example =
    disconnect_user_lem "p1" "u2" "telegram-bridge" "u1" none 500 database bea refl absent

-- A sweep, more than thirty days later, to which every service answers.
abbrev sweep : Sweep
sweep = record {
  stale_claim_threshold_minutes = 10;
  max_purge_retries = 1;
  started = 2592000900;
  claims_at = 2592000900;
  due_by = 2592000900;
  completes_at = (λ id. 2592001000);
  deletes = (λ s u. answered tt);
  first = (λ m ms. m);
}

disconnect_user-IsSettled_example :
    (x : Request) × (row Rows.id_of "p1"
        (run (sweep ∷ []) (disconnect_user "p1" "u2" "telegram-bridge" none 500 database).1.purges)
      ≡ some x)
    × IsSettled 1 x
disconnect_user-IsSettled_example =
    disconnect_user-IsSettled "p1" "u2" "telegram-bridge" none 500 1 (sweep ∷ []) database bea refl
      tt refl (omega arith) (omega arith) ((refl, omega arith), tt)
