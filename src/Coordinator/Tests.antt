-- ===== src/Coordinator/Tests.antt =====
-- apps/server/src/steam/schedule-coordinator.ts: two schedules of an account, one of which has ended.
use Prim.Native.Nat.{Ordering}
use steam_bee.Common.{
  ℕ, ◌+◌, ◌*◌, ◌/◌, ◌%◌, ◌≡◌, refl, Bool, true, false, Option, none, some, List, [], ◌∷◌, All,
}
use steam_bee.Schedule.{
  Parts, Time, WindowId, ScheduleRecord, evaluate_schedule_window, same_day, day_before, window_on,
  select_schedule_winner, sort_entries, place_entry,
}
use steam_bee.Coordinator.{
  Coordinator, Outside, apply_preset, resume_or_start, is_backing_off, open_windows, open_window,
  winner_of, transition_account, start_or_keep, start_account, commit_started_window,
  mark_windows_stopped, stop_row, update_one, evaluate_schedules,
}
use steam_bee.Coordinator.Backoff.{IsPatient, key_of, transition_account-IsPatient}
use steam_bee.Coordinator.Settled.{Succeeds, IsSettled}
use steam_bee.Coordinator.Transition.{transition_account-IsSettled}
use steam_bee.Coordinator.Hold.{
  IsReleased, get_hold_owner, can_resume_held, can_resume_held-get_hold_owner,
}
use steam_bee.Coordinator.Ticks.{
  closed, close, none_dropped, TickEvent, requested, ticked, no_tick, handle_all, handle, tick,
  run_tick_loop, is_served, requests, handle_all-IsServed,
}

abbrev minute_of : ℕ → ℕ
minute_of instant = instant / 60_000

abbrev utc_clock : ℕ → Option (ℕ → Parts)
utc_clock zone = some (λ instant. record {
  date_key = minute_of instant / 1440;
  time = record { hour = minute_of instant % 1440 / 60; minute = minute_of instant % 60 };
  weekday = (minute_of instant / 1440 + 4) % 7;
})

abbrev at_hour : ℕ → Time
at_hour h = record { hour = h; minute = 0 }

abbrev schedule : ℕ → ℕ → ℕ → Option WindowId → ScheduleRecord
schedule id from to started = record {
  window = record { id = id; weekdays = 4 ∷ []; start_time = at_hour from; end_time = at_hour to };
  updated_at = 5;
  enabled = true;
  time_zone = 0;
  preset_id = 70 + id;
  last_started = started;
  last_stopped = none;
}

abbrev window : ℕ → ℕ → ℕ → WindowId
window id from to = record {
  schedule_id = id;
  date_key = 7;
  start_time = at_hour from;
  end_time = at_hour to;
}

-- The first schedule's window of the day is still open.
abbrev account : Coordinator
account = record {
  rows = schedule 1 8 10 (some (window 1 8 10)) ∷ schedule 2 10 12 none ∷ [];
  active_window = some (window 1 8 10);
  failed = none;
}

abbrev outside : Outside
outside = record {
  held = false;
  held_after_preset = false;
  applies = true;
  resumes = true;
  pauses = true;
  stopped = false;
  edit = λ rows. rows;
}

abbrev never : WindowId → Bool
never w = false

abbrev as_equal : ℕ → ℕ → Ordering
as_equal a b = Ordering.eq

-- Thursday, 8 January 1970, 11:00.
abbrev eleven : ℕ
eleven = (7 * 24 + 11) * 60 * 60_000

moves_on :
    (transition_account utc_clock never as_equal outside eleven account).1
    ≡ apply_preset 72 ∷ resume_or_start ∷ []
unfolding transition_account winner_of evaluate_schedules evaluate_schedule_window same_day
    day_before window_on select_schedule_winner sort_entries place_entry start_or_keep
    is_backing_off start_account open_windows open_window commit_started_window mark_windows_stopped
    stop_row update_one
moves_on = refl

abbrev succeeds : Succeeds outside account.rows
succeeds = record {
  not_held = refl;
  not_held_later = refl;
  applied = refl;
  resumed = refl;
  paused = refl;
  unedited = refl;
}

transition_account-IsSettled_example :
    IsSettled
      (winner_of utc_clock never as_equal eleven account.rows)
      (transition_account utc_clock never as_equal outside eleven account).0
unfolding is_backing_off
transition_account-IsSettled_example =
    transition_account-IsSettled utc_clock never as_equal eleven outside account succeeds
      ((refl, tt), (tt, tt)) refl

transition_account-IsPatient_example :
    IsPatient outside
      (key_of (winner_of utc_clock never as_equal eleven account.rows))
      eleven
      account
      (transition_account utc_clock never as_equal outside eleven account)
transition_account-IsPatient_example =
    transition_account-IsPatient utc_clock never as_equal outside eleven account

-- An hour later, after the window that had won at first.
abbrev noon : ℕ
noon = eleven + 60 * 60_000

can_resume_held-get_hold_owner_example :
    IsReleased
      (winner_of utc_clock never as_equal eleven account.rows)
      (open_windows account.rows)
      account.active_window
      (winner_of utc_clock never as_equal noon account.rows)
      (can_resume_held
        (λ v w. Ordering.eq)
        utc_clock
        never
        as_equal
        (get_hold_owner
          (λ v w. Ordering.eq)
          utc_clock
          never
          as_equal
          eleven
          account.active_window
          account.rows)
        noon
        account.rows)
can_resume_held-get_hold_owner_example =
    can_resume_held-get_hold_owner (λ v w. Ordering.eq) utc_clock never as_equal eleven noon
      account.active_window account.rows account.rows

-- Two requests come while a tick is in flight.
abbrev busy : List TickEvent
busy = requested 3 ∷ requested 5 ∷ requested 4 ∷ ticked ∷ ticked ∷ closed ∷ []

-- A request between the end of the loop and the `finally` gets no tick.
abbrev too_late : List TickEvent
too_late = requested 3 ∷ ticked ∷ requested 5 ∷ closed ∷ []

loses_request : handle_all too_late no_tick [] ≡ (no_tick, 3 ∷ [])
unfolding handle_all handle tick run_tick_loop close
loses_request = refl

dropped_request : none_dropped too_late no_tick ≡ false
unfolding handle tick run_tick_loop close
dropped_request = refl

handle_all-IsServed_example :
    All (λ t. is_served (handle_all busy no_tick []).1 t ≡ true) (requests busy)
unfolding handle_all handle tick run_tick_loop close
handle_all-IsServed_example = handle_all-IsServed busy refl refl
