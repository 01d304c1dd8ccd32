-- ===== src/Proactive/Examples.antt =====
-- The proactive scheduler at concrete triggers, and the theorems about it there.
use tom.Prelude.{
  String, All, ◌≡◌, ◌⊎◌, arith, refl, true, false, none, some, List, [], ◌∷◌, leb, ltb, ◌&&◌, ◌||◌,
  ◌==◌,
}
use tom.Dict.{has, put, values}
use tom.Tasks.Manager.{create, empty, list_all}
use tom.Streaming.Text.{split, strip, Unicode}
use tom.Streaming.Boundaries.{codes}
use tom.Proactive.Cron.{DateTime, matches}
use tom.Proactive.QuietHours.{
  QuietHoursConfig, is_quiet_hours, seconds_until, is_quiet_hours-window,
}
use tom.Proactive.Triggers.{Trigger, interval, is_due}
use tom.Proactive.Scheduler.{evaluate_policy, Config, ProactiveScheduler, dispatch_proactive_task}
use tom.Proactive.Conditions.{IsHarmless, HasPassed, IsDue}
use tom.Proactive.Limits.{dispatched-IsPermitted}
use tom.Proactive.Spacing.{Event, register, tick, finish, IsSpaced, run, run-IsSpaced}

abbrev ascii : Unicode
ascii = record {
  is_space = λ c. c == 32 || (leb 9 c && leb c 13);
  is_alpha = λ c. (leb 65 c && leb c 90) || (leb 97 c && leb c 122);
  is_digit = λ c. leb 48 c && leb c 57;
  lower = λ cs. cs;
}

abbrev overnight : QuietHoursConfig
overnight = record { enabled = true; start_time = 79_200; end_time = 28_800 }

abbrev config : Config
config = record {
  unicode = ascii;
  enabled = true;
  quiet_hours = overnight;
  cooldown_seconds = 1800;
}

-- Noon on a Monday, and an hour later.
abbrev noon : DateTime
noon = record { stamp = 43_200; year = 2024; month = 7; day = 1; weekday = 0; time = 43_200 }

abbrev one : DateTime
one = record { stamp = 46_800; year = 2024; month = 7; day = 1; weekday = 0; time = 46_800 }

abbrev hourly : Trigger
hourly = record {
  trigger_id = "hourly";
  kind = interval 3600;
  goal = "look around";
  urgent_health = false;
  enabled = true;
  last_run = none;
}

abbrev fresh : ProactiveScheduler
fresh = record {
  task_manager = empty;
  proactive_tasks = [];
  triggers = [];
  last_proactive_time = none;
  user_active_override = false;
  active_proactive_token = none;
}

abbrev events : List Event
events = register hourly ∷ tick "a" noon ∷ finish "a" ∷ tick "b" noon ∷ tick "c" one ∷ []

-- Noon is in a list of ranges and steps, and is not at half past.
at_noon : matches ascii (codes "0,30 9-17 */10 * 1") noon ≡ some true
unfolding matches split strip
at_noon = refl

not_at_noon : matches ascii (codes "30 * * * *") noon ≡ some false
unfolding matches split strip
not_at_noon = refl

bad_step : matches ascii (codes "*/0 * * * *") noon ≡ none
unfolding matches split strip
bad_step = refl

two_starts : (run config events fresh).1 ≡ 43_200 ∷ 46_800 ∷ []
unfolding run values put evaluate_policy is_quiet_hours is_due create has
two_starts = refl

is_quiet_hours-window_example :
    is_quiet_hours overnight 3600
    ≡ (true && ltb (seconds_until 79_200 3600) (seconds_until 79_200 28_800))
is_quiet_hours-window_example =
    is_quiet_hours-window overnight 3600 (omega arith) (omega arith) (omega arith)

abbrev started : ProactiveScheduler
started = (dispatch_proactive_task config "a" hourly noon fresh).0

dispatched-IsPermitted_example :
    ((true ≡ true)
      × (false ≡ false)
      × All (IsHarmless []) (list_all empty)
      × (((true && ltb (seconds_until 79_200 43_200) (seconds_until 79_200 28_800)) ≡ false)
          ⊎ (false ≡ true))
      × HasPassed none 1800 43_200
      × (true ≡ true)
      × IsDue ascii (interval 3600) none noon)
    × ((◌≡◌ {A = String} "a" "a")
        × (started.last_proactive_time ≡ some 43_200)
        × (started.active_proactive_token ≡ some "a")
        × (started.proactive_tasks ≡ "a" ∷ []))
unfolding dispatch_proactive_task evaluate_policy is_quiet_hours is_due create
dispatched-IsPermitted_example =
    dispatched-IsPermitted config "a" hourly noon fresh "a" started (omega arith) (omega arith)
      (omega arith) refl

run-IsSpaced_example : IsSpaced 1800 none (run config events fresh).1
run-IsSpaced_example = run-IsSpaced config events fresh
