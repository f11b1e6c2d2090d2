-- ===== src/Preview/Tests.antt =====
-- apps/server/src/steam/schedule-preview.ts: two schedules of a Thursday that overlap.
use Prim.Native.Nat.{Ordering}
use steam_bee.Common.{
  ℕ, ◌+◌, ◌*◌, ◌/◌, ◌%◌, ◌≡◌, ◌==◌, refl, Bool, true, false, none, List, [], ◌∷◌, map,
}
use steam_bee.Schedule.{
  Parts, WindowId, ScheduleRecord, zoned_local_time_to_epoch, correct, select_schedule_winner,
}
use steam_bee.Preview.{
  Candidate, Item, candidates_of, candidates_on, candidate_on, local_date_keys, local_days, wins,
  sort_candidates, place_candidate, build_preview,
}
use steam_bee.Preview.Agreement.{entry_at, has_won, wins-select_schedule_winner}

abbrev utc_clock : ℕ → ℕ → Parts
utc_clock zone instant = record {
  date_key = instant / 60_000 / 1440;
  time = record { hour = instant / 60_000 % 1440 / 60; minute = instant / 60_000 % 60 };
  weekday = (instant / 60_000 / 1440 + 4) % 7;
}

abbrev schedule : ℕ → ℕ → ℕ → ScheduleRecord
schedule id from to = record {
  window = record {
    id = id;
    weekdays = 4 ∷ [];
    start_time = record { hour = from; minute = 0 };
    end_time = record { hour = to; minute = 0 };
  };
  updated_at = 5;
  enabled = true;
  time_zone = 0;
  preset_id = 1;
  last_started = none;
  last_stopped = none;
}

abbrev never : WindowId → Bool
never w = false

abbrev as_equal : ℕ → ℕ → Ordering
as_equal a b = Ordering.eq

-- Wednesday, 7 January 1970, noon.
abbrev noon : ℕ
noon = (6 * 24 + 12) * 60 * 60_000

abbrev items : List Item
items = build_preview as_equal utc_clock never 1 noon (schedule 1 8 12 ∷ schedule 2 10 14 ∷ [])

both_win_at_their_start : map {B = Bool} (λ (i : Item). i.winner) items ≡ true ∷ true ∷ []
unfolding build_preview candidates_of candidates_on candidate_on local_date_keys local_days
    zoned_local_time_to_epoch correct wins sort_candidates place_candidate
both_win_at_their_start = refl

-- The window of the first schedule is skipped.
abbrev first_skipped : WindowId → Bool
first_skipped w = w.schedule_id == 1

abbrev all_candidates : List Candidate
all_candidates =
    candidates_of utc_clock first_skipped noon (noon + 24 * 60 * 60_000)
      (schedule 1 8 12 ∷ schedule 2 10 14 ∷ [])

abbrev second : Candidate
second = record {
  schedule = schedule 2 10 14;
  window_id = record {
    schedule_id = 2;
    date_key = 7;
    start_time = record { hour = 10; minute = 0 };
    end_time = record { hour = 14; minute = 0 };
  };
  starts_at = (7 * 24 + 10) * 60 * 60_000;
  ends_at = (7 * 24 + 14) * 60 * 60_000;
  skipped = false;
}

skipped_loses : wins as_equal all_candidates second ≡ true
unfolding candidates_of candidates_on candidate_on local_date_keys local_days
    zoned_local_time_to_epoch correct wins sort_candidates place_candidate
skipped_loses = refl

wins-select_schedule_winner_example :
    wins as_equal all_candidates second
    ≡ has_won second.window_id (
        select_schedule_winner as_equal
          (map (entry_at first_skipped utc_clock as_equal second.starts_at) all_candidates))
wins-select_schedule_winner_example =
    wins-select_schedule_winner first_skipped utc_clock as_equal noon (noon + 24 * 60 * 60_000)
      (schedule 1 8 12 ∷ schedule 2 10 14 ∷ []) second
