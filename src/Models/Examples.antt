-- ===== src/Models/Examples.antt =====
-- The coordinator at concrete calls, and the theorems about it there.
use tom.Prelude.{◌+◌, ◌≤◌, ◌≡◌, refl, ◌⊎◌, inl, true, false, none, some, List, [], ◌∷◌, ◌||◌}
use tom.Dict.{put, get}
use tom.Resources.Queue.{reasoning}
use tom.Models.Coordinator.{
  acquire_body, with_record, ModelRecord, ModelRegistration, ready, busy, idle, ready_body, is_busy,
  is_unloaded,
}
use tom.Models.Soundness.{
  apply, Call, register, record_ready, record_acquire, run, run_sound, is_error,
}
use tom.Models.Usage.{
  Use, acquires, releases, use_all, outstanding, IsAt, then_do, acquire_all, release_all,
  used_then_idle, ready_while_busy_leaks,
}

abbrev qwen : ModelRegistration
qwen = record {
  model_name = "qwen";
  role = reasoning;
  vram_required_mb = 5000;
  ram_required_mb = 500;
  idle_timeout_seconds = 300;
}

abbrev loaded : ModelRecord
loaded = record {
  registration = qwen;
  state = ready;
  observed_residency = true;
  confirmed_physical_unload = false;
  last_active_at = none;
  active_acquisitions = 0;
}

abbrev in_use : ModelRecord
in_use = record loaded { state = busy; active_acquisitions = 1; last_active_at = some 5 }

abbrev calls : List Call
calls = register qwen ∷ record_ready "qwen" true ∷ record_acquire "qwen" 5 ∷ []

run_sound_example :
    ((is_busy in_use.state ≡ false) ⊎ (1 ≤ in_use.active_acquisitions))
    × ((in_use.confirmed_physical_unload ≡ false)
        ⊎ ((in_use.observed_residency ≡ false)
            × ((is_unloaded in_use.state || is_error in_use.state) ≡ true)))
unfolding run get apply with_record put ready_body acquire_body
run_sound_example = run_sound calls "qwen" in_use refl

used_then_idle_example :
    IsAt idle 0 (then_do (acquire_all (λ n. n) 2 loaded) (release_all (λ n. n + 9) 2))
used_then_idle_example = used_then_idle (λ n. n) (λ n. n + 9) 1 loaded (inl refl) refl

-- Two later users, one after the other and overlapping.
abbrev later_users : List Use
later_users = acquires 11 ∷ releases 12 ∷ acquires 13 ∷ releases 14 ∷ releases 15 ∷ []

ready_while_busy_leaks_example :
    IsAt busy 1 (then_do (ready_body true in_use) (use_all (acquires 10 ∷ later_users)))
unfolding outstanding
ready_while_busy_leaks_example =
    ready_while_busy_leaks true 10 0 0 later_users in_use refl refl refl
