-- ===== src/SetupToken.antt =====
-- The setup tokens of user-management (services/user-management/src/setup-token/repository.ts) over
-- their table, with its primary key and its unique index on the active token of a user
-- (db/schema.ts). The application's clock and the database's now() are separate arguments.
pub mod Laws
pub mod Once
pub mod Active
pub mod Registry
mod Tests
use monica_companion.Base.{
  ℕ, Bool, true, false, ◌&&◌, Option, none, some, List, [], ◌∷◌, ◌++◌, String, str_eq,
  if◌then◌else◌, ltb, leb, keep, some_of,
}
use monica_companion.Effects.{Outcome, ok, throws}
use monica_companion.Sql.{row, update_where}

-- The values of the column `status`.
pub data Status : Type 0 where
  active superseded consumed cancelled invalidated : Status

pub record Token : Type 0 where
  pub id : String
  pub telegram_user_id : String
  pub step : String
  pub status : Status
  pub expires_at : ℕ
  pub consumed_at : Option ℕ
  pub invalidated_at : Option ℕ

-- A row of the audit log, as far as it tells events apart.
pub record Audit : Type 0 where
  pub token_id : String
  pub event : String

pub record World : Type 0 where
  pub tokens : List Token
  pub log : List Audit

-- ConsumeResult, by its reason.
pub data Consumed : Type 0 where
  consumed_for : (telegram_user_id : String) → Consumed
  not_found already_consumed expired race_condition : Consumed
  token_is : Status → Consumed

abbrev pub id_of : Token → String
id_of t = t.id

abbrev pub is_active : Status → Bool
is_active active = true
is_active _ = false

abbrev pub active_for : String → Token → Bool
active_for u t = str_eq t.telegram_user_id u && is_active t.status

-- An event for each of the tokens.
abbrev pub audited : String → List Token → List Audit → List Audit
audited event [] log = log
audited event (t ∷ ts) log = record { token_id = t.id; event = event } ∷ audited event ts log

abbrev pub noted : String → String → World → World
noted id event w = record w { log = record { token_id = id; event = event } ∷ w.log }

abbrev pub invalidating : Status → ℕ → Token → Token
invalidating status now t = record t { status = status; invalidated_at = some now }

abbrev pub new_token : (id user step : String) (expires_at : ℕ) → Token
new_token id u step expires = record {
  id = id;
  telegram_user_id = u;
  step = step;
  status = active;
  expires_at = expires;
  consumed_at = none;
  invalidated_at = none;
}

-- INSERT INTO setup_tokens: refused if the id exists or the user has an active token. A transaction
-- that throws is rolled back to `before`.
abbrev pub placed :
    (before : World) → Token → World → Option Token → List Token → Outcome Token × World
placed before t w none [] = (ok t, noted t.id "issued" (record w { tokens = t ∷ w.tokens }))
placed before t w same_id same_user = (throws "duplicate key value", before)

abbrev pub inserted : (before : World) → Token → World → Outcome Token × World
inserted before t w =
    placed before t w (row id_of t.id w.tokens) (keep (active_for t.telegram_user_id) w.tokens)

abbrev pub superseding : String → ℕ → World → World
superseding u clock w = record {
  tokens = update_where (active_for u) (invalidating superseded clock) w.tokens;
  log = audited "superseded_by_reissue" (keep (active_for u) w.tokens) w.log;
}

-- issueToken.
unfoldable pub issue_token :
    (id user step : String) (expires_at clock : ℕ) → World → Outcome Token × World
issue_token id u step expires clock w =
    inserted w (new_token id u step expires) (superseding u clock w)

-- The WHERE clause of findActiveToken and of the update of consumeTokenInner.
abbrev pub usable : String → ℕ → Token → Bool
usable id now t = str_eq t.id id && (is_active t.status && ltb now t.expires_at)

-- findActiveToken.
unfoldable pub find_active_token : String → ℕ → World → Option Token
find_active_token id now w = elim (keep (usable id now) w.tokens) [ [] ↦ none | t ∷ ts ↦ some t ]

-- The update of consumeTokenInner, and what follows it.
abbrev pub use_token : Token → String → (clock now : ℕ) → World → Consumed × World
use_token seen id clock now w =
    if some_of (usable id now) w.tokens
    then (
      consumed_for seen.telegram_user_id,
      noted id "consumed" (record w {
        tokens =
            update_where (usable id now)
              (λ t. record t { status = consumed; consumed_at = some clock }) w.tokens;
      }),
    )
    else (race_condition, w)

-- consumeTokenInner after its look at the token: `seen` is what the SELECT found. Other transactions
-- may have committed since.
abbrev pub consume_seen : Status → Token → String → (clock now : ℕ) → World → Consumed × World
consume_seen consumed seen id clock now w = (already_consumed, noted id "replay_rejected" w)
consume_seen superseded seen id clock now w = (token_is superseded, w)
consume_seen cancelled seen id clock now w = (token_is cancelled, w)
consume_seen invalidated seen id clock now w = (token_is invalidated, w)
consume_seen active seen id clock now w =
    if leb seen.expires_at clock
    then (expired, noted id "expired_rejected" w)
    else use_token seen id clock now w

unfoldable pub consume_after : Option Token → String → (clock now : ℕ) → World → Consumed × World
consume_after none id clock now w = (not_found, w)
consume_after (some t) id clock now w = consume_seen t.status t id clock now w

-- consumeToken, when no other transaction commits between its statements.
unfoldable pub consume_token : String → (clock now : ℕ) → World → Consumed × World
unfolding consume_after
consume_token id clock now w = consume_after (row id_of id w.tokens) id clock now w

abbrev pub cancelling : String → ℕ → World → List Token → Bool × World
cancelling u clock w [] = (false, w)
cancelling u clock w (t ∷ ts) = (
  true,
  record {
    tokens = update_where (active_for u) (invalidating cancelled clock) w.tokens;
    log = audited "cancelled" (t ∷ ts) w.log;
  },
)

-- cancelToken.
unfoldable pub cancel_token : String → ℕ → World → Bool × World
cancel_token u clock w = cancelling u clock w (keep (active_for u) w.tokens)

-- The transactions, in the order in which they commit. A consumption carries what it saw before.
pub data Op : Type 0 where
  issues : (id user step : String) (expires_at clock : ℕ) → Op
  consumes : Option Token → String → (clock now : ℕ) → Op
  cancels : (user : String) (clock : ℕ) → Op

unfoldable pub step : Op → World → World
unfolding issue_token consume_after cancel_token
step (issues id u at expires clock) w = (issue_token id u at expires clock w).1
step (consumes seen id clock now) w = (consume_after seen id clock now w).1
step (cancels u clock) w = (cancel_token u clock w).1

unfoldable pub run : List Op → World → World
run [] w = w
run (o ∷ os) w = run os (step o w)
