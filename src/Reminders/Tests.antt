-- ===== src/Reminders/Tests.antt =====
-- Polls of reminders, and their theorems at concrete users.
use Prim.Native.Char.{code}
use monica_companion.Base.{
  ℕ, ◌+◌, ◌-◌, ◌*◌, ◌/◌, ◌%◌, ◌≤◌, ◌≡◌, ◌≢◌, refl, false, true, some, List, [], ◌∷◌, String, str_eq,
  eq_iff, arith,
}
use monica_companion.Base.Sorting.{sort, place}
use monica_companion.Effects.{not_ok, answered, ok}
use monica_companion.Json.{◌+++◌, decimal}
use monica_companion.Text.{split_on}
use monica_companion.Sql.{row, insert_new, update_where}
use monica_companion.Reminders.{
  UserSchedule, Window, ReminderJob, World, key_of, Poll, enqueue_once, skip_window,
  check_catch_up_window, check_current_window, poll_reminders, polls,
}
use monica_companion.Reminders.Clock.{
  Calendar, Parts, candidates, resolve_spring_forward, local_date_to_utc, compute_next_firing_utc,
  get_iso_week_string,
}
use monica_companion.Reminders.Once.{enqueued, polls-enqueued}
use monica_companion.Reminders.Digest as Digest
use monica_companion.Reminders.Digest.{
  Upcoming, digest, status_of, execute_reminder, execute_reminder_refused,
}

reminders : Unit {0}
unfolding enqueue_once skip_window check_catch_up_window check_current_window poll_reminders polls
    split_on candidates resolve_spring_forward local_date_to_utc compute_next_firing_utc
    get_iso_week_string sort place insert_new update_where execute_reminder decimal
reminders = tt

number_from : ℕ → String → ℕ
number_from n String.[] = n
number_from n (String.◌∷◌ c s) = number_from (n * 10 + (code c - 48)) s

-- One long month of one year, in UTC.
abbrev parts : ℕ → Parts
parts at = record {
  year = 2026;
  month = 1;
  day = at / 86400000 + 1;
  hour = (at / 3600000) % 24;
  minute = (at / 60000) % 60;
}

abbrev calendar : Calendar
calendar = record {
  local_parts = (λ tz at. parts at);
  local_date = (λ tz at. "2026-1-" +++ decimal (at / 86400000 + 1));
  utc = (λ y m d h n. (d - 1) * 86400000 + h * 3600000 + n * 60000);
  utc_parts = parts;
  utc_day = (λ at. (at / 86400000) % 7);
  number = number_from 0;
}

abbrev ann : UserSchedule
ann = record {
  user_id = "ann";
  reminder_cadence = "daily";
  reminder_time = "8:00";
  timezone = "UTC";
  connector_type = "telegram";
  connector_routing_id = "7";
}

-- Day 12 at 9:00 and at 9:30.
abbrev poll : ℕ → Poll
poll now = record {
  users = answered (ann ∷ record ann { user_id = "bea"; reminder_cadence = "weekly" } ∷ []);
  now = now;
  catch_up_window_hours = 6;
  queue_fails = (λ k. str_eq k "");
}

abbrev unpolled : World
unpolled = record { windows = []; jobs = [] }

-- The weekly user's window is only ever skipped.
abbrev polled : World
polled = polls calendar (poll 982800000 ∷ poll 984600000 ∷ []) unpolled

abbrev statuses : List Window → List String
statuses [] = []
statuses (x ∷ xs) = x.status ∷ statuses xs

reminder_tests :
    (enqueued "reminder:ann:daily:2026-1-12" polled.jobs ≡ 1)
    × (statuses polled.windows ≡ "skipped" ∷ "catch_up" ∷ [])
unfolding reminders number_from
reminder_tests = (refl, refl)

polls-enqueued_example :
    enqueued "reminder:ann:daily:2026-1-12"
      (polls calendar (poll 982800000 ∷ poll 984600000 ∷ []) unpolled).jobs
    ≤ 1
polls-enqueued_example =
    polls-enqueued calendar "reminder:ann:daily:2026-1-12" (poll 982800000 ∷ poll 984600000 ∷ [])
      unpolled (omega arith)

abbrev window : Window
window = record {
  user_id = "ann";
  dedupe_key = "k";
  cadence = "daily";
  scheduled_at = 979200000;
  status = "catch_up";
}

abbrev job : ReminderJob
job = record {
  user_id = "ann";
  connector_type = "telegram";
  connector_routing_id = "7";
  correlation_id = "reminder:ann:2026-1-12";
  window_id = "k";
}

abbrev birthday : Upcoming
birthday = record { planned_date = "2026-01-13"; title = "Birthday"; contact_name = "Bea" }

other : ◌≢◌ {A = String} "j" "k"
other e = let h : false ≡ true = (eq_iff "j" "k").1 e in cc

abbrev sending : Digest.World
sending = record { windows = window ∷ []; notices = [] }

execute_reminder_refused_example :
    ((execute_reminder job (answered (birthday ∷ [])) (not_ok 500 "") sending).0 ≡ ok tt)
    × (status_of (
          row key_of "k"
            (execute_reminder job (answered (birthday ∷ [])) (not_ok 500 "") sending).1.windows)
        ≡ some "sent")
    × (row key_of "j"
          (execute_reminder job (answered (birthday ∷ [])) (not_ok 500 "") sending).1.windows
        ≡ row key_of "j" sending.windows)
    × ((execute_reminder job (answered (birthday ∷ [])) (not_ok 500 "") sending).1.notices
        ≡ digest job (birthday ∷ []) ∷ [])
execute_reminder_refused_example =
    execute_reminder_refused job birthday [] 500 "" "j" window sending refl other
