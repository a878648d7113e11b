-- ===== src/Reminders.antt =====
-- The reminders of the scheduler (services/scheduler/src/workers/reminder-poller.ts and
-- reminder-executor.ts beside it), over the table of reminder windows (src/db/schema.ts).
use monica_companion.Base.{
  ℕ, ◌-◌, ◌*◌, Bool, true, false, Option, none, some, List, [], ◌∷◌, ◌++◌, String, str_eq,
  if◌then◌else◌, ltb, leb,
}
use monica_companion.Effects.{Fetched, rejected, not_ok, garbled, answered, Outcome, ok, throws}
use monica_companion.Json.{◌+++◌, decimal}
use monica_companion.Sql.{insert_new, update_where}
pub mod Clock
pub mod Once
pub mod Digest
mod Tests
use monica_companion.Reminders.Clock.{
  Calendar, compute_next_firing_utc, compute_dedupe_key, is_within_catch_up_window,
  get_iso_week_string,
}

-- UserSchedule.
pub record UserSchedule : Type 0 where
  pub user_id : String
  pub reminder_cadence : String
  pub reminder_time : String
  pub timezone : String
  pub connector_type : String
  pub connector_routing_id : String

-- A row of reminderWindows.
pub record Window : Type 0 where
  pub user_id : String
  pub dedupe_key : String
  pub cadence : String
  pub scheduled_at : ℕ
  pub status : String

-- ReminderJobData.
pub record ReminderJob : Type 0 where
  pub user_id : String
  pub connector_type : String
  pub connector_routing_id : String
  pub correlation_id : String
  pub window_id : String

-- The table, and the jobs that the queue has taken.
pub record World : Type 0 where
  pub windows : List Window
  pub jobs : List ReminderJob

abbrev pub key_of : Window → String
key_of w = w.dedupe_key

-- A poll: what the request for the users comes to, the clock, the catch-up window, and for which
-- windows the queue takes no job.
pub record Poll : Type 0 where
  pub users : Fetched (List UserSchedule)
  pub now : ℕ
  pub catch_up_window_hours : ℕ
  pub queue_fails : String → Bool

pub data Cadence : Type 0 where
  daily weekly : Cadence

abbrev pub text_of : Cadence → String
text_of daily = "daily"
text_of weekly = "weekly"

abbrev pub cadence_of : String → Option Cadence
cadence_of s =
    if str_eq s "daily" then some daily else if str_eq s "weekly" then some weekly else none

-- The length of a cadence in hours.
abbrev pub hours_of : Cadence → ℕ
hours_of daily = 24
hours_of weekly = 168

abbrev pub window_of : UserSchedule → Cadence → String → ℕ → String → Window
window_of user c key at status = record {
  user_id = user.user_id;
  dedupe_key = key;
  cadence = text_of c;
  scheduled_at = at;
  status = status;
}

abbrev pub reminder_job : UserSchedule → String → String → ReminderJob
reminder_job user window_id key = record {
  user_id = user.user_id;
  connector_type = user.connector_type;
  connector_routing_id = user.connector_routing_id;
  correlation_id = "reminder:" +++ (user.user_id +++ (":" +++ window_id));
  window_id = key;
}

-- reminderQueue.add.
abbrev pub add_job : Poll → ReminderJob → World → Outcome (Unit {0}) × World
add_job p j w =
    if p.queue_fails j.window_id
    then (throws "queue unavailable", w)
    else (ok tt, record w { jobs = j ∷ w.jobs })

-- tryInsertWindow, and the job that follows an insertion.
abbrev pub inserted_then :
    Poll → ReminderJob → World → Bool × List Window → Outcome (Unit {0}) × World
inserted_then p j w (true, windows) = add_job p j (record w { windows = windows })
inserted_then p j w (false, windows) = (ok tt, record w { windows = windows })

unfoldable pub enqueue_once : Poll → Window → ReminderJob → World → Outcome (Unit {0}) × World
enqueue_once p x j w = inserted_then p j w (insert_new key_of x w.windows)

unfoldable pub skip_window : Window → World → Outcome (Unit {0}) × World
skip_window x w = (ok tt, record w { windows = (insert_new key_of x w.windows).1 })

-- What follows a step that did not throw.
abbrev pub after :
    Outcome (Unit {0}) × World → (World → Outcome (Unit {0}) × World) → Outcome (Unit {0}) × World
after (ok u, w) f = f w
after (throws m, w) f = (throws m, w)

-- `Intl`, `Date` and `Number` of the language.
module _ (cal : Calendar) where
  abbrev pub window_id : UserSchedule → Cadence → ℕ → String
  window_id user daily at = cal.local_date user.timezone at
  window_id user weekly at = get_iso_week_string cal user.timezone at

  -- checkCatchUpWindow.
  unfoldable pub check_catch_up_window :
      Poll → UserSchedule → Cadence → World → Outcome (Unit {0}) × World
  unfolding enqueue_once skip_window
  check_catch_up_window p user c w =
      let previous = p.now - hours_of c * 60 * 60 * 1000 in
      let firing = compute_next_firing_utc cal user.timezone user.reminder_time previous in
      let id = window_id user c firing in
      let key = compute_dedupe_key user.user_id (text_of c) id in
      if ltb firing p.now
      then if is_within_catch_up_window firing p.now p.catch_up_window_hours
        then enqueue_once p (window_of user c key firing "catch_up") (reminder_job user id key) w
        else skip_window (window_of user c key firing "skipped") w
      else (ok tt, w)

  -- processUserSchedule: the current window.
  unfoldable pub check_current_window :
      Poll → UserSchedule → Cadence → World → Outcome (Unit {0}) × World
  unfolding enqueue_once
  check_current_window p user c w =
      let firing = compute_next_firing_utc cal user.timezone user.reminder_time p.now in
      let id = window_id user c p.now in
      let key = compute_dedupe_key user.user_id (text_of c) id in
      if leb firing p.now
      then enqueue_once p (window_of user c key firing "pending") (reminder_job user id key) w
      else (ok tt, w)

  -- processUserSchedule.
  abbrev pub process_cadence :
      Poll → UserSchedule → Option Cadence → World → Outcome (Unit {0}) × World
  process_cadence p user none w = (ok tt, w)
  process_cadence p user (some c) w =
      after (check_current_window p user c w) (check_catch_up_window p user c)

  abbrev pub process_user_schedule : Poll → UserSchedule → World → Outcome (Unit {0}) × World
  process_user_schedule p user w = process_cadence p user (cadence_of user.reminder_cadence) w

  -- The loop over the users, which an error ends.
  abbrev pub process_users : Poll → List UserSchedule → World → Outcome (Unit {0}) × World
  process_users p [] w = (ok tt, w)
  process_users p (u ∷ us) w = after (process_user_schedule p u w) (process_users p us)

  -- pollReminders: the users of an answer, and none of any other. Errors are caught.
  abbrev pub users_of : Fetched (List UserSchedule) → List UserSchedule
  users_of (answered us) = us
  users_of (not_ok status body) = []
  users_of (rejected m) = []
  users_of (garbled m) = []

  unfoldable pub poll_reminders : Poll → World → World
  unfolding check_current_window check_catch_up_window
  poll_reminders p w = (process_users p (users_of p.users) w).1

  unfoldable pub polls : List Poll → World → World
  polls [] w = w
  polls (p ∷ ps) w = polls ps (poll_reminders p w)
