-- ===== src/Proactive/QuietHours.antt =====
-- Quiet hours (`QuietHoursConfig` of python/tom/schemas/proactive.py). Times of the day are seconds
-- after midnight.
use tom.Prelude.{
  ℕ, ◌+◌, ◌-◌, ◌%◌, ◌<◌, ◌≡◌, Bool, false, ◌&&◌, ◌||◌, ltb, leb, arith, if◌then◌else◌,
}

pub record QuietHoursConfig : Type 0 where
  pub enabled : Bool
  pub start_time : ℕ
  pub end_time : ℕ

unfoldable pub is_quiet_hours : QuietHoursConfig → ℕ → Bool
is_quiet_hours q t =
    if q.enabled
    then if ltb q.end_time q.start_time
      then leb q.start_time t || ltb t q.end_time
      else if ltb q.start_time q.end_time
      then leb q.start_time t && ltb t q.end_time
      else false
    else false

abbrev pub seconds_per_day : ℕ
seconds_per_day = 86_400

-- The seconds from one time of the day to the next time that the clock shows another.
abbrev pub seconds_until : ℕ → ℕ → ℕ
seconds_until from to = (to + seconds_per_day - from) % seconds_per_day

-- For times of the day, the hours are quiet exactly if they are enabled and the time since the start,
-- round the clock, is shorter than the whole window; a window that starts and ends at one time is
-- empty.
pub is_quiet_hours-window :
    (q : QuietHoursConfig) (t : ℕ)
    → t < seconds_per_day
    → q.start_time < seconds_per_day
    → q.end_time < seconds_per_day
    → is_quiet_hours q t
      ≡ (q.enabled && ltb (seconds_until q.start_time t) (seconds_until q.start_time q.end_time))
unfolding is_quiet_hours
is_quiet_hours-window q t ht hs he = ground arith
