-- ===== src/Reminders/Digest.antt =====
-- The job of a reminder window (services/scheduler/src/workers/reminder-executor.ts): the digest of
-- the upcoming reminders goes to the delivery service, and the window is marked as sent.
use monica_companion.Base.{
  ℕ, ◌≡◌, ◌≢◌, refl, sym, Option, none, some, List, [], ◌∷◌, map, String, str_eq, eq_iff, arith,
}
use monica_companion.Effects.{Fetched, rejected, not_ok, garbled, answered, Outcome, ok, throws}
use monica_companion.Json.{◌+++◌, decimal}
use monica_companion.Sql.{row, update_where, row-update_where, row-update_where_ne, row-key}
use monica_companion.Reminders.{Window, ReminderJob, key_of}

-- UpcomingReminder, as far as the digest shows it.
pub record Upcoming : Type 0 where
  pub planned_date : String
  pub title : String
  pub contact_name : String

-- A message that is sent to the delivery service.
pub record Notice : Type 0 where
  pub user_id : String
  pub connector_type : String
  pub connector_routing_id : String
  pub correlation_id : String
  pub text : String

pub record World : Type 0 where
  pub windows : List Window
  pub notices : List Notice

abbrev pub line : Upcoming → String
line r = "- " +++ (r.contact_name +++ (": " +++ (r.title +++ (" (" +++ (r.planned_date +++ ")")))))

-- lines.join("\n").
abbrev pub join : List String → String
join [] = ""
join (s ∷ []) = s
join (s ∷ t ∷ l) = s +++ ("\n" +++ join (t ∷ l))

-- formatReminderDigest.
unfoldable pub format_reminder_digest : List Upcoming → String
format_reminder_digest [] = "No upcoming reminders for today."
format_reminder_digest (r ∷ rs) = "Upcoming reminders:\n" +++ join (map line (r ∷ rs))

abbrev pub digest : ReminderJob → List Upcoming → Notice
digest j rs = record {
  user_id = j.user_id;
  connector_type = j.connector_type;
  connector_routing_id = j.connector_routing_id;
  correlation_id = j.correlation_id;
  text = format_reminder_digest rs;
}

-- The message is sent; the status of the answer is not looked at.
abbrev pub send_digest :
    ReminderJob → List Upcoming → Fetched (Unit {0}) → World → Outcome (Unit {0}) × World
send_digest j rs (rejected m) w = (throws m, record w { notices = digest j rs ∷ w.notices })
send_digest j rs other w = (
  ok tt,
  record {
    windows =
        update_where (λ x. str_eq x.dedupe_key j.window_id) (λ x. record x { status = "sent" })
          w.windows;
    notices = digest j rs ∷ w.notices;
  },
)

-- executeReminder, for what the requests to monica-integration and to delivery come to.
unfoldable pub execute_reminder :
    ReminderJob → Fetched (List Upcoming) → Fetched (Unit {0}) → World → Outcome (Unit {0}) × World
execute_reminder j (rejected m) delivery w = (throws m, w)
execute_reminder j (garbled m) delivery w = (throws m, w)
execute_reminder j (not_ok status body) delivery w =
    (throws ("monica-integration returned " +++ (decimal status +++ (": " +++ body))), w)
execute_reminder j (answered []) delivery w = (ok tt, w)
execute_reminder j (answered (r ∷ rs)) delivery w = send_digest j (r ∷ rs) delivery w

-- The status of a window.
abbrev pub status_of : Option Window → Option String
status_of none = none
status_of (some x) = some x.status

-- If there are reminders, the window of the job exists and the delivery service answers with an
-- error status, the run of the job succeeds, its digest is sent once, and the window is marked as
-- sent; no other window changes.
pub execute_reminder_refused :
    (j : ReminderJob) (r : Upcoming) (rs : List Upcoming) (status : ℕ) (body k : String)
    (x : Window) (w : World)
    → row key_of j.window_id w.windows ≡ some x
    → k ≢ j.window_id
    → ((execute_reminder j (answered (r ∷ rs)) (not_ok status body) w).0 ≡ ok tt)
      × (status_of (
            row key_of j.window_id
              (execute_reminder j (answered (r ∷ rs)) (not_ok status body) w).1.windows)
          ≡ some "sent")
      × (row key_of k (execute_reminder j (answered (r ∷ rs)) (not_ok status body) w).1.windows
          ≡ row key_of k w.windows)
      × ((execute_reminder j (answered (r ∷ rs)) (not_ok status body) w).1.notices
          ≡ record {
            user_id = j.user_id;
            connector_type = j.connector_type;
            connector_routing_id = j.connector_routing_id;
            correlation_id = j.correlation_id;
            text = format_reminder_digest (r ∷ rs);
          }
            ∷ w.notices)
unfolding execute_reminder
execute_reminder_refused j r rs status body k x w found ne = (
  refl,
  ground (
    arith,
    found,
    eq_iff x.dedupe_key j.window_id,
    row-key key_of j.window_id w.windows x found,
    row-update_where key_of (λ y. str_eq y.dedupe_key j.window_id)
        (λ y. record y { status = "sent" }) j.window_id w.windows (λ y. refl),
  ),
  row-update_where_ne key_of (λ y. str_eq y.dedupe_key j.window_id)
      (λ y. record y { status = "sent" }) j.window_id k w.windows (λ y. refl)
      (λ y h. (eq_iff y.dedupe_key j.window_id).0 h) (λ e. ne (sym e)),
  refl,
)
