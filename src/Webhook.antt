-- ===== src/Webhook.antt =====
-- The webhook of the Telegram bridge (services/telegram-bridge/src): the rate limiter
-- (middleware/rate-limiter.ts), the secret (middleware/webhook-secret.ts), the deduplication of
-- updates (bot/update-dedup.ts) and the handler (bot/webhook-handler.ts), composed as app.ts does.
-- The headers of the answers are left out, and of their bodies the texts.
use monica_companion.Base.{
  ℕ, ◌+◌, Bool, true, false, not, ◌&&◌, Option, none, some, List, [], ◌∷◌, String, str_eq,
  if◌then◌else◌, ltb, leb,
}
use monica_companion.Effects.{Outcome, ok, throws}
use monica_companion.Json.{◌+++◌, decimal}
use monica_companion.Text.{split_on}
use monica_companion.Contacts.Words.{trim}
pub mod Limits
mod Tests

-- RateLimiterOptions, and the secret that Telegram sends.
pub record WebhookOptions : Type 0 where
  pub window_ms : ℕ
  pub max_requests : ℕ
  pub secret : String

-- An entry of the map `windows`, and the map.
pub record WindowEntry : Type 0 where
  pub count : ℕ
  pub reset_at : ℕ

abbrev pub Windows : Type 0
Windows = String → Option WindowEntry

-- windows.set(ip, entry).
abbrev pub set : String → WindowEntry → Windows → Windows
set ip e l k = if str_eq k ip then some e else l k

abbrev pub unexpired : ℕ → Option WindowEntry → Option WindowEntry
unexpired now none = none
unexpired now (some e) = if ltb now e.reset_at then some e else none

-- The interval that deletes the entries that have run out.
unfoldable pub cleanup : ℕ → Windows → Windows
cleanup now l k = unexpired now (l k)

-- The entry that the request is counted in, before it is.
unfoldable pub current : WebhookOptions → ℕ → Option WindowEntry → WindowEntry
current o now none = record { count = 0; reset_at = now + o.window_ms }
current o now (some e) =
    if ltb now e.reset_at then e else record { count = 0; reset_at = now + o.window_ms }

-- x-forwarded-for up to the first comma (44).
abbrev first_of : List String → String
first_of [] = ""
first_of (s ∷ l) = s

unfoldable pub ip_of : Option String → String
ip_of none = "unknown"
ip_of (some header) =
    let s = trim (first_of (split_on 44 header)) in if str_eq s "" then "unknown" else s

abbrev pub incremented : WindowEntry → WindowEntry
incremented e = record e { count = e.count + 1 }

-- rateLimiter: whether the request may pass, and the windows after it.
unfoldable pub rate_limiter : WebhookOptions → String → ℕ → Windows → Bool × Windows
unfolding current
rate_limiter o ip now windows =
    let e = incremented (current o now (windows ip)) in
    (leb e.count o.max_requests, set ip e windows)

-- webhookSecret: the buffers are equal when the texts are.
unfoldable pub has_secret : String → Option String → Bool
has_secret expected none = false
has_secret expected (some provided) = not (str_eq provided "") && str_eq expected provided

-- Redis and the bot: `set_nx` is SET key "1" EX ttl NX, which answers whether the key was set, and
-- `handle_update` is the bot's.
pub record Bridge : Type 1 where
  pub State : Type 0
  pub Update : Type 0
  pub update_id : Update → Option ℕ
  pub set_nx : String → ℕ → State → Outcome Bool × State
  pub handle_update : Update → State → Outcome (Unit {0}) × State

abbrev pub dedup_ttl_seconds : ℕ
dedup_ttl_seconds = 60

abbrev pub dedup_key : ℕ → String
dedup_key id = "tg:dedup:" +++ decimal id

-- A request: its two headers, whether bodyLimit lets it pass, and the body, if it is JSON.
pub record WebhookRequest (U : Type 0) : Type 0 where
  pub forwarded_for : Option String
  pub secret_token : Option String
  pub fits : Bool
  pub body : Option U

pub data Answer : Type 0 where
  accepted unauthorized too_large too_many_requests : Answer

module _ (b : Bridge) where
  -- What `isDuplicate` makes of the answer.
  abbrev pub was_seen : Outcome Bool × b.State → Bool × b.State
  was_seen (ok was_set, s) = (not was_set, s)
  was_seen (throws m, s) = (false, s)

  unfoldable pub is_duplicate : ℕ → b.State → Bool × b.State
  is_duplicate id s = was_seen (b.set_nx (dedup_key id) dedup_ttl_seconds s)

  abbrev pub handed : b.Update → b.State → b.State
  handed u s = (b.handle_update u s).1

  abbrev pub unless_duplicate : b.Update → Bool × b.State → b.State
  unless_duplicate u (true, s) = s
  unless_duplicate u (false, s) = handed u s

  abbrev pub checked : b.Update → Option ℕ → b.State → b.State
  unfolding is_duplicate
  checked u none s = handed u s
  checked u (some id) s = unless_duplicate u (is_duplicate id s)

  -- createWebhookHandler: the answer is 200 whatever happens.
  unfoldable pub webhook_handler : Option b.Update → b.State → b.State
  unfolding is_duplicate
  webhook_handler none s = s
  webhook_handler (some u) s = checked u (b.update_id u) s

  pub record World : Type 0 where
    pub windows : Windows
    pub state : b.State

  -- What comes after the rate limiter.
  unfoldable pub limited : WebhookOptions → WebhookRequest b.Update → b.State → Answer × b.State
  unfolding has_secret webhook_handler
  limited o r s =
      if has_secret o.secret r.secret_token
      then if r.fits then (accepted, webhook_handler r.body s) else (too_large, s)
      else (unauthorized, s)

  unfoldable pub continued :
      WebhookOptions → WebhookRequest b.Update → b.State → Bool × Windows → Answer × World
  unfolding limited
  continued o r s (true, l) = let x = limited o r s in (x.0, record { windows = l; state = x.1 })
  continued o r s (false, l) = (too_many_requests, record { windows = l; state = s })

  -- POST /webhook/telegram.
  unfoldable pub webhook : WebhookOptions → ℕ → WebhookRequest b.Update → World → Answer × World
  unfolding rate_limiter continued ip_of
  webhook o now r w = continued o r w.state (rate_limiter o (ip_of r.forwarded_for) now w.windows)
