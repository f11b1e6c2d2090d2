-- ===== src/Schedule/Evaluate.antt =====
-- apps/server/src/steam/scheduler.ts: when a window is on, and the instant of a local time.
use steam_bee.Common.{
  ℕ, suc, ◌+◌, ◌-◌, ◌*◌, ◌%◌, ◌≤◌, ◌<◌, ◌≡◌, refl, ◌↔◌, Bool, true, ◌&&◌, ◌||◌, arith, ltb, leb,
  if-intro, ◌⊎◌, ◌==◌, sym, ◌∙◌, ap,
}
use steam_bee.Schedule.{
  Time, WindowInput, WindowState, Parts, time_to_minute, utc, represented, correct,
  zoned_local_time_to_epoch, window_on, is_overnight, includes_day, same_day, day_before,
  evaluate_schedule_window,
}

-- The minutes of a window from the start of its day: the end is on the next day when it is not after
-- the start.
pub IsInside : WindowInput → ℕ → Type 0
IsInside w minute =
    (time_to_minute w.start_time ≤ minute)
    × ((minute < time_to_minute w.end_time)
        ⊎ ((time_to_minute w.end_time < time_to_minute w.start_time)
            × (minute < 24 * 60 + time_to_minute w.end_time)))

is_on_iff :
    (w : WindowInput) (today before : Bool) (minute : ℕ)
    → minute < 24 * 60
    → time_to_minute w.start_time < 24 * 60
    → time_to_minute w.end_time ≤ 24 * 60
    → (((today
            && (leb (time_to_minute w.start_time) minute
                && (is_overnight w || ltb minute (time_to_minute w.end_time))))
          || (is_overnight w && (before && ltb minute (time_to_minute w.end_time))))
        ≡ true)
      ↔ (((today ≡ true) × IsInside w minute) ⊎ ((before ≡ true) × IsInside w (24 * 60 + minute)))
unfolding IsInside
is_on_iff w today before minute l m n = ground arith

module _ (zoned : ℕ → Parts) (w : WindowInput) (now : ℕ) where
  active_lem :
      (evaluate_schedule_window zoned w now).is_active
      ≡ (same_day w (zoned now) || day_before w (zoned now))
  unfolding evaluate_schedule_window window_on
  active_lem =
      if-intro
        (λ (s : WindowState). s.is_active ≡ (same_day w (zoned now) || day_before w (zoned now)))
        (same_day w (zoned now)) (λ e. rw e refl)
        (λ e. rw e (
          if-intro (λ (s : WindowState). s.is_active ≡ day_before w (zoned now))
            (day_before w (zoned now)) (λ f. sym f) (λ f. sym f)))

  -- With a local clock below 24 hours, and a window that starts within the day and ends by its end, the window is on exactly
  -- when the local time is inside the window of today's weekday or, a day further, of yesterday's.
  pub evaluate_schedule_window_iff :
      time_to_minute (zoned now).time < 24 * 60
      → time_to_minute w.start_time < 24 * 60
      → time_to_minute w.end_time ≤ 24 * 60
      → ((evaluate_schedule_window zoned w now).is_active ≡ true) ↔ (
          ((includes_day (zoned now).weekday w.weekdays ≡ true)
            × IsInside w (time_to_minute (zoned now).time))
          ⊎ ((includes_day (((zoned now).weekday + 6) % 7) w.weekdays ≡ true)
              × IsInside w (24 * 60 + time_to_minute (zoned now).time)))
  unfolding same_day day_before
  evaluate_schedule_window_iff l m n =
      let both =
        is_on_iff w (includes_day (zoned now).weekday w.weekdays)
          (includes_day (((zoned now).weekday + 6) % 7) w.weekdays)
          (time_to_minute (zoned now).time) l m n in
      (λ e. both.0 (sym active_lem ∙ e), λ h. active_lem ∙ both.1 h)

-- The clock of `zoned` is a fixed number of minutes from UTC at whole minutes, as long as it is not before
-- the epoch: `ahead` minutes later and `behind` minutes earlier.
unfoldable pub IsShifted : (ℕ → Parts) → ℕ → ℕ → Type 0
IsShifted zoned ahead behind =
    (n : ℕ) → behind ≤ n + ahead → represented zoned (n * 60_000) ≡ (n + ahead - behind) * 60_000

corrected :
    (zoned : ℕ → Parts) (ahead behind minute attempts : ℕ)
    → IsShifted zoned ahead behind
    → ahead ≤ minute + behind
    → behind ≤ minute + ahead
    → represented zoned (correct zoned (suc (suc attempts)) (minute * 60_000) (minute * 60_000))
      ≡ minute * 60_000
unfolding correct IsShifted
corrected zoned ahead behind minute attempts h l m =
    let target = minute * 60_000 in
    if-intro (λ c. represented zoned c ≡ target) (represented zoned target == target)
      (λ e. ground (arith, e))
      (λ e.
        let next = target + target - represented zoned target in
        let first : represented zoned target ≡ (minute + ahead - behind) * 60_000 = h minute m in
        let instant = minute + behind - ahead in
        let moved : next ≡ instant * 60_000 = omega (arith, first, l, m) in
        let shown : represented zoned next ≡ (instant + ahead - behind) * 60_000 =
          ap (represented zoned) moved ∙ h instant (omega (arith, l)) in
        let near : represented zoned next ≡ target = omega (arith, shown, l, m) in
        if-intro (λ c. represented zoned c ≡ target) (represented zoned next == target) (λ f. near)
          (λ f. ground (arith, f, near)))

-- In a time zone that is a fixed number of minutes ahead of UTC or behind it, and for a local time and an
-- instant that are not before the epoch: the instant that the code gives for the local time is one at
-- which the clock of that zone shows it.
pub zoned_local_time_to_epoch-represented :
    (zoned : ℕ → Parts) (ahead behind date_key : ℕ) (t : Time)
    → IsShifted zoned ahead behind
    → ahead ≤ date_key * 24 * 60 + time_to_minute t + behind
    → behind ≤ date_key * 24 * 60 + time_to_minute t + ahead
    → represented zoned (zoned_local_time_to_epoch zoned date_key t) ≡ utc date_key t
unfolding zoned_local_time_to_epoch
zoned_local_time_to_epoch-represented zoned ahead behind date_key t h l m =
    corrected zoned ahead behind (date_key * 24 * 60 + time_to_minute t) 1 h l m
