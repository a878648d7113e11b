-- ===== src/Reminders/Clock.antt =====
-- Firing times (services/scheduler/src/lib/schedule-time.ts). Instants are milliseconds since 1970,
-- and the offsets from -14 to +14 hours are tried in steps of 30 minutes.
use Prim.Native.Nat.{compare}
use monica_companion.Base.{
  ℕ, zero, suc, ◌+◌, ◌-◌, ◌*◌, ◌/◌, ◌%◌, Bool, ◌&&◌, List, [], ◌∷◌, map, String, if◌then◌else◌, ltb,
  leb, ◌==◌,
}
use monica_companion.Base.Sorting.{sort}
use monica_companion.Json.{◌+++◌, decimal}
use monica_companion.Text.{split_on}

-- The numeric parts of an instant.
pub record Parts : Type 0 where
  pub year : ℕ
  pub month : ℕ
  pub day : ℕ
  pub hour : ℕ
  pub minute : ℕ

-- What is taken from `Intl`, `Date` and `Number`: the parts and the date text of an instant in a time
-- zone, Date.UTC (months from 1, days beyond the month's end allowed), the UTC parts and weekday of
-- an instant, and the number that a text reads as.
pub record Calendar : Type 0 where
  pub local_parts : String → ℕ → Parts
  pub local_date : String → ℕ → String
  pub utc : (year month day hour minute : ℕ) → ℕ
  pub utc_parts : ℕ → Parts
  pub utc_day : ℕ → ℕ
  pub number : String → ℕ

-- The first three of the split_numbers; the texts that are read have as many.
abbrev pub first_three : List ℕ → ℕ × ℕ × ℕ
first_three (a ∷ b ∷ c ∷ l) = (a, b, c)
first_three (a ∷ b ∷ []) = (a, b, 0)
first_three (a ∷ []) = (a, 0, 0)
first_three [] = (0, 0, 0)

abbrev pub same_parts : Parts → Parts → Bool
same_parts p q =
    p.year == q.year
    && p.month == q.month
    && p.day == q.day
    && p.hour == q.hour
    && p.minute == q.minute

module _ (cal : Calendar) where
  -- s.split(c).map(Number).
  abbrev pub split_numbers : ℕ → String → ℕ × ℕ × ℕ
  split_numbers c s = first_three (map cal.number (split_on c s))

  -- The instant of the wall clock at the offset of -14 hours and `k` half hours.
  abbrev pub candidate : Parts → ℕ → ℕ
  candidate p k = cal.utc p.year p.month p.day p.hour p.minute + 840 * 60000 - k * 1800000

  -- The loop over `n` offsets from the k-th on: the instants at which the wall clock of the time zone
  -- shows what is wanted.
  unfoldable pub candidates : String → (tried wanted : Parts) → (k n : ℕ) → List ℕ
  candidates tz tried wanted k zero = []
  candidates tz tried wanted k (suc n) =
      let rest = candidates tz tried wanted (suc k) n in
      if same_parts (cal.local_parts tz (candidate tried k)) wanted
      then candidate tried k ∷ rest
      else rest

  abbrev pub offsets : ℕ
  offsets = 57

  -- The wall clock `offset` minutes later, and what it is compared with on the day after the 31st.
  abbrev pub advanced : Parts → ℕ → Parts
  advanced p offset =
      let minutes = p.hour * 60 + p.minute + offset in
      record {
        year = p.year;
        month = p.month;
        day = (if leb 1440 minutes then p.day + 1 else p.day);
        hour = (minutes / 60) % 24;
        minute = minutes % 60;
      }

  abbrev pub wanted_on : Parts → Parts
  wanted_on p = record p { day = if ltb 31 p.day then 1 else p.day }

  abbrev pub first_or : ℕ → List ℕ → ℕ
  first_or n [] = n
  first_or n (m ∷ l) = m

  -- resolveSpringForward: the loop over the `n` offsets in minutes from the given one on.
  unfoldable pub resolve_spring_forward : String → Parts → (offset n : ℕ) → ℕ
  unfolding candidates
  resolve_spring_forward tz p offset zero = cal.utc p.year p.month p.day p.hour p.minute
  resolve_spring_forward tz p offset (suc n) =
      let later = advanced p offset in
      let rest = resolve_spring_forward tz p (suc offset) n in
      first_or rest (candidates tz later (wanted_on later) 0 offsets)

  -- localDateToUtc: the earliest candidate.
  unfoldable pub local_date_to_utc : String → Parts → ℕ
  unfolding candidates resolve_spring_forward
  local_date_to_utc tz p =
      first_or (resolve_spring_forward tz p 1 120) (sort compare (candidates tz p p 0 offsets))

  -- computeNextFiringUtc.
  unfoldable pub compute_next_firing_utc : (timezone local_time : String) → (now : ℕ) → ℕ
  unfolding local_date_to_utc
  compute_next_firing_utc tz local_time now =
      let (hour, minute, more) = split_numbers b':' local_time in
      let (year, month, day) = split_numbers b'-' (cal.local_date tz now) in
      let today =
        local_date_to_utc tz
          (record { year = year; month = month; day = day; hour = hour; minute = minute }) in
      let next_day = cal.utc_parts (cal.utc year month (day + 1) 0 0) in
      let next = local_date_to_utc tz (record next_day { hour = hour; minute = minute }) in
      if ltb now today then today else next

  abbrev pub day_ms : ℕ
  day_ms = 86400000

  -- date.getUTCDay() || 7.
  abbrev pub day_of_week : ℕ → ℕ
  day_of_week at = let n = cal.utc_day at in if n == 0 then 7 else n

  abbrev pub two_digits : ℕ → String
  two_digits n = if ltb n 10 then "0" +++ decimal n else decimal n

  -- getIsoWeekString.
  unfoldable pub get_iso_week_string : String → ℕ → String
  get_iso_week_string tz at =
      let (year, month, day) = split_numbers b'-' (cal.local_date tz at) in
      let date = cal.utc year month day 0 0 in
      let thursday = date + 4 * day_ms - day_of_week date * day_ms in
      let week_year = (cal.utc_parts thursday).year in
      let days = (thursday - cal.utc week_year 1 1 0 0) / day_ms in
      decimal week_year +++ ("-W" +++ two_digits ((days + 7) / 7))

-- computeDedupeKey.
abbrev pub compute_dedupe_key : (user cadence window_id : String) → String
compute_dedupe_key user cadence id = "reminder:" +++ (user +++ (":" +++ (cadence +++ (":" +++ id))))

-- isWithinCatchUpWindow.
abbrev pub is_within_catch_up_window : (scheduled now window_hours : ℕ) → Bool
is_within_catch_up_window scheduled now window_hours =
    leb scheduled now && leb (now - scheduled) (window_hours * 60 * 60 * 1000)
