-- ===== src/Schedule.antt =====
-- apps/server/src/steam/scheduler.ts: which schedule of an account is on. `zoned` is what `Intl` shows of
-- an instant in the schedule's time zone. A date key is the number of its calendar day from the start
-- of the epoch, so that `Date.UTC` and `addLocalDays` are arithmetic; a time `HH:MM` is its two numbers;
-- and a window's identifier is the record of the parts that its text joins. Instants are after the
-- start of the epoch.
pub mod Evaluate
pub mod Winner
mod Tests
use Prim.Native.Nat.{compare, Ordering}
use steam_bee.Common.{
  ℕ, zero, suc, ◌+◌, ◌-◌, ◌*◌, ◌%◌, Bool, true, false, not, ◌&&◌, ◌||◌, Option, none, some, List,
  [], ◌∷◌, ltb, leb, ◌==◌, ◌++◌, foldl, if◌then◌else◌, any, keep_if,
}
use steam_bee.Common.Int.{pos, negsuc, Number, int, other}

pub record Time : Type 0 where
  pub hour : ℕ
  pub minute : ℕ

-- `weekdays` is what `parseWeekdays` returns.
pub record WindowInput : Type 0 where
  pub id : ℕ
  pub weekdays : List ℕ
  pub start_time : Time
  pub end_time : Time

abbrev pub includes_day : ℕ → List ℕ → Bool
includes_day day = any (λ x. x == day)

abbrev pub add_weekday : Number → List ℕ → List ℕ
add_weekday (int (pos n)) days =
    if leb n 6 && not (includes_day n days) then days ++ (n ∷ []) else days
add_weekday (int (negsuc n)) days = days
add_weekday other days = days

-- What `JSON.parse` gives: `none` when it throws or gives no array; what is no number is `other`.
unfoldable pub parse_weekdays : Option (List Number) → List ℕ
parse_weekdays none = []
parse_weekdays (some items) = foldl (λ days item. add_weekday item days) [] items

pub record WindowId : Type 0 where
  pub schedule_id : ℕ
  pub date_key : ℕ
  pub start_time : Time
  pub end_time : Time

pub record WindowState : Type 0 where
  pub is_active : Bool
  pub window_id : Option WindowId
  pub window_started_at : Option ℕ

pub record Parts : Type 0 where
  pub date_key : ℕ
  pub time : Time
  pub weekday : ℕ

abbrev pub time_to_minute : Time → ℕ
time_to_minute t = t.hour * 60 + t.minute

-- `Date.UTC`
abbrev pub utc : ℕ → Time → ℕ
utc date_key t = (date_key * 24 * 60 + time_to_minute t) * 60_000

abbrev pub inactive_window : WindowState
inactive_window = record { is_active = false; window_id = none; window_started_at = none }

abbrev pub is_overnight : WindowInput → Bool
is_overnight w = ltb (time_to_minute w.end_time) (time_to_minute w.start_time)

unfoldable pub same_day : WindowInput → Parts → Bool
same_day w parts =
    includes_day parts.weekday w.weekdays
    && (leb (time_to_minute w.start_time) (time_to_minute parts.time)
        && (is_overnight w || ltb (time_to_minute parts.time) (time_to_minute w.end_time)))

unfoldable pub day_before : WindowInput → Parts → Bool
day_before w parts =
    is_overnight w
    && (includes_day ((parts.weekday + 6) % 7) w.weekdays
        && ltb (time_to_minute parts.time) (time_to_minute w.end_time))

module _ (zoned : ℕ → Parts) where
  abbrev pub represented : ℕ → ℕ
  represented candidate = utc (zoned candidate).date_key (zoned candidate).time

  -- The attempts that are left, and the instant to start from.
  unfoldable pub correct : ℕ → ℕ → ℕ → ℕ
  correct zero target candidate = candidate
  correct (suc attempts) target candidate =
      let rest = correct attempts target (candidate + target - represented candidate) in
      if represented candidate == target then candidate else rest

  unfoldable pub zoned_local_time_to_epoch : ℕ → Time → ℕ
  zoned_local_time_to_epoch date_key t = correct 3 (utc date_key t) (utc date_key t)

  unfoldable pub window_on : WindowInput → ℕ → WindowState
  window_on w date_key = record {
    is_active = true;
    window_id = some (record {
      schedule_id = w.id;
      date_key = date_key;
      start_time = w.start_time;
      end_time = w.end_time;
    });
    window_started_at = some (zoned_local_time_to_epoch date_key w.start_time);
  }

  -- Without weekdays no test of a weekday succeeds.
  unfoldable pub evaluate_schedule_window : WindowInput → ℕ → WindowState
  evaluate_schedule_window w now =
      let parts = zoned now in
      if same_day w parts
      then window_on w parts.date_key
      else if day_before w parts
      then window_on w (parts.date_key - 1)
      else inactive_window

-- A row of `boostSchedule`; the schedule's time zone and preset are their numbers.
pub record ScheduleRecord : Type 0 where
  pub window : WindowInput
  pub updated_at : ℕ
  pub enabled : Bool
  pub time_zone : ℕ
  pub preset_id : ℕ
  pub last_started : Option WindowId
  pub last_stopped : Option WindowId

pub record Entry : Type 0 where
  pub schedule : ScheduleRecord
  pub state : Option WindowState

abbrev pub is_given {ℓ} : {A : Type ℓ} → Option A → Bool
is_given none = false
is_given (some a) = true

abbrev pub is_candidate : Entry → Bool
is_candidate entry = on entry.state
  where
    on : Option WindowState → Bool
    on none = false
    on (some s) = s.is_active && (is_given s.window_id && is_given s.window_started_at)

abbrev pub started_at : Entry → ℕ
started_at entry = start_of entry.state
  where
    or_zero : Option ℕ → ℕ
    or_zero none = 0
    or_zero (some n) = n

    start_of : Option WindowState → ℕ
    start_of none = 0
    start_of (some s) = or_zero s.window_started_at

-- Whether the first of two entries sorts after the second.
abbrev pub is_after : (ℕ → ℕ → Ordering) → Entry → Entry → Bool
is_after compare_ids l r = elim (compare (started_at r) (started_at l)) [
  | Ordering.lt ↦ false
  | Ordering.gt ↦ true
  | Ordering.eq ↦ elim (compare r.schedule.updated_at l.schedule.updated_at) [
    | Ordering.lt ↦ false
    | Ordering.gt ↦ true
    | Ordering.eq ↦ elim (compare_ids r.schedule.window.id l.schedule.window.id) [
      | Ordering.gt ↦ true
      | _ ↦ false
    ]
  ]
]

module _ (compare_ids : ℕ → ℕ → Ordering) where
  -- `sort`
  unfoldable pub place_entry : Entry → List Entry → List Entry
  place_entry x [] = x ∷ []
  place_entry x (y ∷ ys) =
      let rest = place_entry x ys in if is_after compare_ids x y then y ∷ rest else x ∷ y ∷ ys

  unfoldable pub sort_entries : List Entry → List Entry
  sort_entries [] = []
  sort_entries (x ∷ xs) = place_entry x (sort_entries xs)

  abbrev pub first : List Entry → Option Entry
  first [] = none
  first (x ∷ xs) = some x

  unfoldable pub select_schedule_winner : List Entry → Option Entry
  select_schedule_winner entries = first (sort_entries (keep_if is_candidate entries))
