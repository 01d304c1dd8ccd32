-- ===== src/Proactive/Triggers.antt =====
-- The triggers of python/tom/schemas/proactive.py.
use tom.Prelude.{
  ℕ, ◌+◌, String, Bool, true, false, not, ◌&&◌, Option, none, some, leb, ◌==◌, if◌then◌else◌,
}
use tom.Streaming.Text.{Text, Unicode}
use tom.Proactive.Cron.{DateTime, hour, minute, matches}

-- The three classes of triggers, with the fields that only one has. Periods are in seconds.
pub data Kind : Type 0 where
  cron : Text → Kind
  interval : ℕ → Kind
  system_event : String → ℕ → Kind

pub record Trigger : Type 0 where
  pub trigger_id : String
  pub kind : Kind
  pub goal : String
  pub urgent_health : Bool
  pub enabled : Bool
  pub last_run : Option DateTime

-- Whether the last run was in the same minute.
unfoldable pub is_same_minute : Option DateTime → DateTime → Bool
is_same_minute none dt = false
is_same_minute (some r) dt =
    r.year == dt.year
    && r.month == dt.month
    && r.day == dt.day
    && hour r == hour dt
    && minute r == minute dt

-- Whether a period has passed since the last run.
unfoldable pub has_elapsed : Option DateTime → ℕ → DateTime → Bool
has_elapsed none period dt = true
has_elapsed (some r) period dt = leb (r.stamp + period) dt.stamp

unfoldable pub cron_is_due : Option Bool → Option DateTime → DateTime → Option Bool
unfolding is_same_minute
cron_is_due none last_run dt = none
cron_is_due (some false) last_run dt = some false
cron_is_due (some true) last_run dt = some (not (is_same_minute last_run dt))

unfoldable pub kind_is_due : Unicode → Kind → Option DateTime → DateTime → Option Bool
unfolding cron_is_due has_elapsed
kind_is_due u (cron expression) last_run dt = cron_is_due (matches u expression dt) last_run dt
kind_is_due u (interval seconds) last_run dt = some (has_elapsed last_run seconds dt)
kind_is_due u (system_event name cooldown) last_run dt = some (has_elapsed last_run cooldown dt)

-- `none` is the ValueError of a cron expression.
unfoldable pub is_due : Unicode → Trigger → DateTime → Option Bool
unfolding kind_is_due
is_due u t dt = if t.enabled then kind_is_due u t.kind t.last_run dt else some false
