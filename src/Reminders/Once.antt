-- ===== src/Reminders/Once.antt =====
-- However often and whenever it is polled, a reminder window is enqueued at most once.
use monica_companion.Base.{
  ℕ, ◌-◌, ◌*◌, ◌≤◌, ◌≡◌, refl, inl, inr, Option, none, some, List, [], ◌∷◌, String, str_eq, eq_iff,
  arith, Bool-cases, Option-cases, counted, ltb, leb,
}
use monica_companion.Effects.{Outcome, ok, throws}
use monica_companion.Sql.{row, insert_new}
use monica_companion.Reminders.{
  UserSchedule, Window, ReminderJob, World, key_of, Poll, Cadence, text_of, cadence_of, window_of,
  reminder_job, enqueue_once, skip_window, after, window_id, check_catch_up_window,
  check_current_window, process_cadence, process_user_schedule, process_users, poll_reminders,
  polls, users_of, hours_of,
}
use monica_companion.Reminders.Clock.{
  Calendar, compute_dedupe_key, compute_next_firing_utc, is_within_catch_up_window,
}

-- The jobs of a window.
abbrev pub enqueued : String → List ReminderJob → ℕ
enqueued k [] = 0
enqueued k (j ∷ js) = counted (str_eq j.window_id k) (enqueued k js)

abbrev pub present : Option Window → ℕ
present none = 0
present (some x) = 1

present-le : (o : Option Window) → present o ≤ 1
present-le none = omega arith
present-le (some x) = omega arith

-- A window has as many jobs as rows at most.
abbrev pub IsOnce : String → World → Type 0
IsOnce k w = enqueued k w.jobs ≤ present (row key_of k w.windows)

skip-IsOnce : (k : String) (x : Window) (w : World) → IsOnce k w → IsOnce k (skip_window x w).1
unfolding skip_window insert_new
skip-IsOnce k x w h = elim (Option-cases (row key_of x.dedupe_key w.windows)) [
  | inl gone ↦ ground (arith, h, gone)
  | inr (y, found) ↦ ground (arith, h, found)
]

enqueue-IsOnce :
    (k : String) (p : Poll) (x : Window) (j : ReminderJob) (w : World)
    → x.dedupe_key ≡ j.window_id
    → IsOnce k w
    → IsOnce k (enqueue_once p x j w).1
unfolding enqueue_once insert_new
enqueue-IsOnce k p x j w same h = elim (Option-cases (row key_of x.dedupe_key w.windows)) [
  | inl gone ↦ elim (Bool-cases (str_eq x.dedupe_key k)) [
    | inl e ↦
        let here : row key_of k w.windows ≡ none = rw (← (eq_iff x.dedupe_key k).0 e) gone in
        ground (arith, h, gone, here, same, e, Bool-cases (p.queue_fails j.window_id))
    | inr e ↦ ground (
      arith,
      h,
      gone,
      same,
      e,
      eq_iff x.dedupe_key k,
      eq_iff j.window_id k,
      Bool-cases (p.queue_fails j.window_id),
    )
  ]
  | inr (y, found) ↦ ground (arith, h, found)
]

-- A window that has a row, and `n` jobs.
abbrev pub IsRecorded : String → ℕ → World → Type 0
IsRecorded k n w = (present (row key_of k w.windows) ≡ 1) × (enqueued k w.jobs ≡ n)

skip-IsRecorded :
    (k : String) (n : ℕ) (x : Window) (w : World)
    → IsRecorded k n w
    → IsRecorded k n (skip_window x w).1
unfolding skip_window insert_new
skip-IsRecorded k n x w h = elim (Option-cases (row key_of x.dedupe_key w.windows)) [
  | inl gone ↦ ground (arith, h, gone)
  | inr (y, found) ↦ ground (arith, h, found)
]

enqueue-IsRecorded :
    (k : String) (n : ℕ) (p : Poll) (x : Window) (j : ReminderJob) (w : World)
    → x.dedupe_key ≡ j.window_id
    → IsRecorded k n w
    → IsRecorded k n (enqueue_once p x j w).1
unfolding enqueue_once insert_new
enqueue-IsRecorded k n p x j w same h = elim (Option-cases (row key_of x.dedupe_key w.windows)) [
  | inl gone ↦ elim (Bool-cases (str_eq x.dedupe_key k)) [
    | inl e ↦
        let here : row key_of k w.windows ≡ none = rw (← (eq_iff x.dedupe_key k).0 e) gone in
        absurd (ground (arith, h, here))
    | inr e ↦ ground (
      arith,
      h,
      gone,
      same,
      e,
      eq_iff x.dedupe_key k,
      eq_iff j.window_id k,
      Bool-cases (p.queue_fails j.window_id),
    )
  ]
  | inr (y, found) ↦ ground (arith, h, found)
]

-- What the two statements on windows keep, polls keep.
module _ (P : World → Type 0)
    (enqueues : (p : Poll) (x : Window) (j : ReminderJob) (w : World)
      → x.dedupe_key ≡ j.window_id
      → P w
      → P (enqueue_once p x j w).1)
    (skips : (x : Window) (w : World) → P w → P (skip_window x w).1) (cal : Calendar) where
  after-keeps :
      (x : Outcome (Unit {0}) × World) (f : World → Outcome (Unit {0}) × World)
      → P x.1
      → ((w : World) → P w → P (f w).1)
      → P (after x f).1
  after-keeps (ok u, w) f h keeps = keeps w h
  after-keeps (throws m, w) f h keeps = h

  current-keeps :
      (p : Poll) (user : UserSchedule) (c : Cadence) (w : World)
      → P w
      → P (check_current_window cal p user c w).1
  unfolding check_current_window
  current-keeps p user c w h =
      let firing = compute_next_firing_utc cal user.timezone user.reminder_time p.now in
      let id = window_id cal user c p.now in
      let key = compute_dedupe_key user.user_id (text_of c) id in
      elim (Bool-cases (leb firing p.now)) [
        | inl e ↦
            rw e (
              enqueues p (window_of user c key firing "pending") (reminder_job user id key) w refl
                h)
        | inr e ↦ rw e h
      ]

  catch_up-keeps :
      (p : Poll) (user : UserSchedule) (c : Cadence) (w : World)
      → P w
      → P (check_catch_up_window cal p user c w).1
  unfolding check_catch_up_window
  catch_up-keeps p user c w h =
      let previous = p.now - hours_of c * 60 * 60 * 1000 in
      let firing = compute_next_firing_utc cal user.timezone user.reminder_time previous in
      let id = window_id cal user c firing in
      let key = compute_dedupe_key user.user_id (text_of c) id in
      elim (Bool-cases (ltb firing p.now)) [
        | inl e ↦
            elim (Bool-cases (is_within_catch_up_window firing p.now p.catch_up_window_hours)) [
              | inl f ↦
                  rw (e, f)
                    (enqueues p (window_of user c key firing "catch_up") (reminder_job user id key)
                      w refl h)
              | inr f ↦ rw (e, f) (skips (window_of user c key firing "skipped") w h)
            ]
        | inr e ↦ rw e h
      ]

  user-keeps :
      (p : Poll) (user : UserSchedule) (c : Option Cadence) (w : World)
      → P w
      → P (process_cadence cal p user c w).1
  user-keeps p user none w h = h
  user-keeps p user (some c) w h =
      after-keeps (check_current_window cal p user c w) (check_catch_up_window cal p user c)
        (current-keeps p user c w h) (catch_up-keeps p user c)

  users-keep :
      (p : Poll) (us : List UserSchedule) (w : World) → P w → P (process_users cal p us w).1
  users-keep p [] w h = h
  users-keep p (u ∷ us) w h =
      after-keeps (process_user_schedule cal p u w) (process_users cal p us)
        (user-keeps p u (cadence_of u.reminder_cadence) w h) (users-keep p us)

  pub polls-keep : (ps : List Poll) (w : World) → P w → P (polls cal ps w)
  unfolding polls poll_reminders
  polls-keep [] w h = h
  polls-keep (p ∷ ps) w h =
      polls-keep ps (poll_reminders cal p w) (users-keep p (users_of cal p.users) w h)

-- A window that is recorded is not enqueued again.
pub polls-IsRecorded :
    (cal : Calendar) (k : String) (n : ℕ) (ps : List Poll) (w : World)
    → IsRecorded k n w
    → IsRecorded k n (polls cal ps w)
polls-IsRecorded cal k n ps w h =
    polls-keep (IsRecorded k n) (enqueue-IsRecorded k n) (skip-IsRecorded k n) cal ps w h

-- From a state in which a reminder window has at most as many jobs as rows, the window is enqueued
-- once at most, however often, whenever and with whatever users and errors it is polled.
pub polls-enqueued :
    (cal : Calendar) (k : String) (ps : List Poll) (w : World)
    → enqueued k w.jobs ≤ present (row key_of k w.windows)
    → enqueued k (polls cal ps w).jobs ≤ 1
polls-enqueued cal k ps w h =
    let once = polls-keep (IsOnce k) (enqueue-IsOnce k) (skip-IsOnce k) cal ps w h in
    omega (arith, once, present-le (row key_of k (polls cal ps w).windows))
