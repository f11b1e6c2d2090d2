-- ===== src/Manager/Tests.antt =====
-- apps/server/src/steam/manager.ts: an account that plays and is held until a time, and one whose end of
-- farming is broken off.
use Prim.Native.Nat.{Ordering}
use steam_bee.Common.{
  ℕ, ◌+◌, ◌*◌, ◌/◌, ◌%◌, ◌≡◌, refl, Bool, true, false, ◌||◌, Option, none, some, List, [], ◌∷◌, ltb,
}
use steam_bee.Common.Int.{pos}
use steam_bee.Schedule.{
  Parts, WindowId, ScheduleRecord, evaluate_schedule_window, same_day, day_before, window_on,
  select_schedule_winner, sort_entries, place_entry,
}
use steam_bee.Coordinator.{OpenWindow, winner_of, evaluate_schedules}
use steam_bee.Coordinator.Hold.{unscheduled}
use steam_bee.Farming.{Config, order_default}
use steam_bee.Farming.Session
use steam_bee.Worker.{
  disconnected, boosting, stopped, running, set_status, set_desired, report_games, clear_health,
  clear_timers, reset_conflict, enforce_limit, selected_games, play, apply_games,
  clear_farming_selection,
}
use steam_bee.Worker.Commands
use steam_bee.Worker.Events
use steam_bee.Worker.Operations
use steam_bee.Worker.Operations.{
  logged_on_event, disconnected_event, event, reconnect_fires, reconnect_runs, new_worker, do_event,
}
use steam_bee.Manager.{
  manual, Account, Outside, set_hold, halt_farming, hold_manually, pause_now, pause_for_safety,
}
use steam_bee.Manager.Running
use steam_bee.Manager.Automatic.{tick_safety}
use steam_bee.Manager.Operations.{
  Operation, starts, refreshes, pauses_until, applies_games, ends_farming, ticks_schedules,
  ticks_safety, timer_fires, timer_runs, worker_does, perform, perform_all, hold_until,
}
use steam_bee.Manager.Held.{StaysHeld}
use steam_bee.Manager.Lasting.{perform_all-lasting}

abbrev utc_clock : ℕ → Option (ℕ → Parts)
utc_clock zone = some (λ instant. record {
  date_key = instant / 60_000 / 1440;
  time = record { hour = instant / 60_000 % 1440 / 60; minute = instant / 60_000 % 60 };
  weekday = (instant / 60_000 / 1440 + 4) % 7;
})

-- Thursdays from 8 to 10.
abbrev schedule : ScheduleRecord
schedule = record {
  window = record {
    id = 1;
    weekdays = 4 ∷ [];
    start_time = record { hour = 8; minute = 0 };
    end_time = record { hour = 10; minute = 0 };
  };
  updated_at = 5;
  enabled = true;
  time_zone = 0;
  preset_id = 71;
  last_started = none;
  last_stopped = none;
}

abbrev config : Config
config = record {
  max_concurrent_games = 1;
  skip_refundable = false;
  whitelist = [];
  blacklist = [];
  order = order_default;
  priority = [];
}

abbrev account : Account
account = record {
  worker = new_worker disconnected stopped false;
  hold = record { reason = manual; until = none; owner = unscheduled };
  resume_at = none;
  coordinator = record { rows = schedule ∷ []; active_window = none; failed = none };
  session = Session.new_session config;
  titled = false;
  games = 440 ∷ 570 ∷ [];
  limits = record {
    max_session_minutes = some 1;
    max_daily_minutes = none;
    max_weekly_minutes = none;
  };
}

-- The minutes after 9 o'clock on the first Thursday of the epoch.
abbrev at_minute : ℕ → Outside
at_minute minutes = record {
  worker = record {
    now = (9 * 60 + minutes) * 60_000;
    jitter = 0;
    has_token = true;
    enabled_games = [];
    farming_resumes = false;
  };
  pause_throws = false;
  report_throws = false;
  log_off_throws = false;
  presets = λ id. none;
  sessions = record { started_at = 0; ended_at = none; stop_reason = none } ∷ [];
  edit = λ rows. rows;
}

-- It plays, and is paused until half past nine.
abbrev before : List (Outside × Operation)
before =
    (at_minute 0, starts)
    ∷ (at_minute 1, worker_does (event 1 logged_on_event))
    ∷ (at_minute 2, pauses_until ((9 * 60 + 30) * 60_000))
    ∷ []

abbrev after : List (Outside × Operation)
after =
    (at_minute 3, ticks_schedules)
    ∷ (at_minute 4, worker_does (event 2 (disconnected_event (some (pos 3)) none)))
    ∷ (at_minute 5, worker_does (reconnect_runs 1))
    ∷ (at_minute 6, timer_fires)
    ∷ (at_minute 6, timer_runs)
    ∷ (at_minute 7, ticks_safety)
    ∷ []

abbrev by_text : ℕ → ℕ → Ordering
by_text a b = Ordering.eq

abbrev by_window : OpenWindow → OpenWindow → Ordering
by_window a b = Ordering.eq

abbrev never : WindowId → Bool
never w = false

abbrev run : List (Outside × Operation) → Account → Account
run = perform_all by_window utc_clock never by_text

perform_all-lasting_example : StaysHeld (run before account) (run after (run before account))
unfolding perform_all perform hold_until Running.start Running.run_farming_interruption
    Running.start_now pause_for_safety pause_now hold_manually set_hold halt_farming set_status
    set_desired report_games clear_health clear_timers reset_conflict enforce_limit selected_games
    play apply_games clear_farming_selection Commands.start_now Commands.pause_now Events.logged_on
    Operations.perform do_event winner_of evaluate_schedules evaluate_schedule_window same_day
    day_before window_on select_schedule_winner sort_entries place_entry
perform_all-lasting_example =
    perform_all-lasting by_window utc_clock never by_text before after account refl
      (refl, (refl, (refl, tt))) refl (refl, (refl, (refl, (refl, (refl, (refl, tt))))))

-- The end of farming, of whose answers the one after the hold is no.
abbrev broken_off : ℕ → Bool
broken_off place = ltb place 4 || ltb 12 place

abbrev yes : ℕ → Bool
yes place = true

abbrev interrupted : List (Outside × Operation)
interrupted =
    (at_minute 0, starts)
    ∷ (at_minute 1, worker_does (event 1 logged_on_event))
    ∷ (at_minute 2, applies_games (730 ∷ []) yes)
    ∷ (at_minute 3, ends_farming broken_off)
    ∷ (at_minute 4, refreshes)
    ∷ (at_minute 5, ticks_safety)
    ∷ []

-- It plays on under the manual hold, beyond the limit of a session.
plays_held :
    let a = run interrupted account in
    (a.worker.held ≡ true) × (a.worker.status ≡ boosting) × (a.worker.desired ≡ running)
unfolding perform_all perform Running.start Running.run_farming_interruption Running.start_now
    Running.apply_farming_games Running.get_farming_availability Running.end_farming
    Running.refresh_worker Running.refresh_worker_now tick_safety pause_for_safety pause_now
    hold_manually set_hold halt_farming set_status set_desired report_games clear_health
    clear_timers reset_conflict enforce_limit selected_games play apply_games
    clear_farming_selection Commands.start_now Commands.apply_farming Commands.update_account
    Events.logged_on Operations.perform do_event
plays_held = (refl, refl, refl)
