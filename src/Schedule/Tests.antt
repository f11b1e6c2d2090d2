-- ===== src/Schedule/Tests.antt =====
-- apps/server/src/steam/scheduler.ts: schedules in UTC and an hour ahead of it.
use Prim.Native.Nat.{Ordering}
use steam_bee.Common.{
  ℕ, ◌+◌, ◌-◌, ◌*◌, ◌/◌, ◌%◌, ◌≤◌, ◌≡◌, refl, ◌↔◌, ◌⊎◌, true, none, some, List, [], ◌∷◌, arith,
  keep_if,
}
use steam_bee.Common.Int.{pos, int, other}
use steam_bee.Schedule.{
  parse_weekdays, WindowInput, Parts, Entry, utc, represented, zoned_local_time_to_epoch, correct,
  includes_day, evaluate_schedule_window, same_day, day_before, window_on, is_candidate,
  select_schedule_winner, sort_entries, place_entry,
}
use steam_bee.Schedule.Evaluate.{
  IsInside, IsShifted, evaluate_schedule_window_iff, zoned_local_time_to_epoch-represented,
}
use steam_bee.Schedule.Winner.{IsChosen, select_schedule_winner-IsChosen}

keeps_weekdays :
    parse_weekdays (some (int (pos 6) ∷ other ∷ int (pos 7) ∷ int (pos 0) ∷ int (pos 6) ∷ []))
    ≡ 6 ∷ 0 ∷ []
unfolding parse_weekdays
keeps_weekdays = refl

abbrev minute_of : ℕ → ℕ
minute_of instant = instant / 60_000

-- A clock that is ahead of UTC by a number of minutes.
abbrev ahead : ℕ → ℕ → Parts
ahead offset instant = record {
  date_key = (minute_of instant + offset) / 1440;
  time = record {
    hour = (minute_of instant + offset) % 1440 / 60;
    minute = (minute_of instant + offset) % 60;
  };
  weekday = ((minute_of instant + offset) / 1440 + 4) % 7;
}

abbrev night : WindowInput
night = record {
  id = 1;
  weekdays = 4 ∷ [];
  start_time = record { hour = 22; minute = 0 };
  end_time = record { hour = 6; minute = 30 };
}

-- Friday, 2 January 1970, 05:00.
abbrev friday_morning : ℕ
friday_morning = (24 + 5) * 60 * 60_000

goes_on : evaluate_schedule_window (ahead 0) night friday_morning ≡ window_on (ahead 0) night 0
unfolding evaluate_schedule_window same_day day_before
goes_on = refl

starts_at :
    (evaluate_schedule_window (ahead 60) night friday_morning).window_started_at
    ≡ some (21 * 60 * 60_000)
unfolding evaluate_schedule_window same_day day_before window_on zoned_local_time_to_epoch correct
starts_at = refl

evaluate_schedule_window_iff_example :
    ((evaluate_schedule_window (ahead 0) night friday_morning).is_active ≡ true) ↔ (
      ((includes_day 5 night.weekdays ≡ true) × IsInside night 300)
      ⊎ ((includes_day 4 night.weekdays ≡ true) × IsInside night 1740))
evaluate_schedule_window_iff_example =
    evaluate_schedule_window_iff (ahead 0) night friday_morning (omega arith) (omega arith)
      (omega arith)

ahead-IsShifted : (minutes : ℕ) → IsShifted (ahead minutes) minutes 0
unfolding IsShifted
ahead-IsShifted minutes n m = omega arith

-- A zone `minutes` behind UTC.
abbrev behind : ℕ → ℕ → Parts
behind minutes t = ahead 0 (t - minutes * 60_000)

behind-IsShifted : (minutes : ℕ) → IsShifted (behind minutes) 0 minutes
unfolding IsShifted
behind-IsShifted minutes n m = omega (arith, m)

east :
    represented (ahead 60) (zoned_local_time_to_epoch (ahead 60) 7 night.start_time)
    ≡ utc 7 night.start_time
east =
    zoned_local_time_to_epoch-represented (ahead 60) 60 0 7 night.start_time (ahead-IsShifted 60)
      (omega arith) (omega arith)

zoned_local_time_to_epoch-represented_example :
    represented (behind 300) (zoned_local_time_to_epoch (behind 300) 7 night.start_time)
    ≡ utc 7 night.start_time
zoned_local_time_to_epoch-represented_example =
    zoned_local_time_to_epoch-represented (behind 300) 0 300 7 night.start_time
      (behind-IsShifted 300) (omega arith) (omega arith)

abbrev entry : ℕ → ℕ → ℕ → Entry
entry id updated_at started_at = record {
  schedule = record {
    window = record {
      id = id;
      weekdays = 4 ∷ [];
      start_time = night.start_time;
      end_time = night.end_time;
    };
    updated_at = updated_at;
    enabled = true;
    time_zone = 0;
    preset_id = 1;
    last_started = none;
    last_stopped = none;
  };
  state = some (record {
    is_active = true;
    window_id = some (record {
      schedule_id = id;
      date_key = 0;
      start_time = night.start_time;
      end_time = night.end_time;
    });
    window_started_at = some started_at;
  });
}

abbrev by_id : ℕ → ℕ → Ordering
by_id a b = Ordering.eq

abbrev entries : List Entry
entries = entry 1 5 100 ∷ entry 2 9 200 ∷ entry 3 7 200 ∷ []

latest_change_wins : select_schedule_winner by_id entries ≡ some (entry 2 9 200)
unfolding select_schedule_winner sort_entries place_entry
latest_change_wins = refl

select_schedule_winner-IsChosen_example :
    IsChosen
      (λ e. 5 ≤ e.schedule.updated_at)
      (keep_if is_candidate entries)
      (select_schedule_winner by_id entries)
select_schedule_winner-IsChosen_example =
    select_schedule_winner-IsChosen by_id (λ e. 5 ≤ e.schedule.updated_at) entries
      (omega arith, (omega arith, (omega arith, tt)))
