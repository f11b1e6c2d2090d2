-- ===== src/Safety.antt =====
-- apps/server/src/steam/safety-coordinator.ts: the limits on the time that an account plays. The rows
-- that the database returns are arguments. Texts that the code compares are constructors.
pub mod Laws
pub mod Chain
mod Tests
use steam_bee.Common.{
  ℕ, ◌+◌, ◌-◌, ◌*◌, ◌/◌, ◌%◌, min, max, Bool, true, false, not, ◌&&◌, ◌||◌, Option, none, some,
  List, [], ◌∷◌, foldl, ltb, leb, ◌==◌, if◌then◌else◌, keep_if,
}

pub data StopReason : Type 0 where
  selection_changed : StopReason
  other_reason : ℕ → StopReason

pub data HoldReason : Type 0 where
  session_limit daily_limit weekly_limit : HoldReason

pub data Status : Type 0 where
  boosting other_status : Status

pub data DesiredState : Type 0 where
  running other_state : DesiredState

-- A row of `boostSession`.
pub record BoostSession : Type 0 where
  pub started_at : ℕ
  pub ended_at : Option ℕ
  pub stop_reason : Option StopReason

pub record Policy : Type 0 where
  pub max_session_minutes : Option ℕ
  pub max_daily_minutes : Option ℕ
  pub max_weekly_minutes : Option ℕ
  pub hold_reason : Option HoldReason
  pub status : Status
  pub desired_state : DesiredState

pub record Cap : Type 0 where
  pub reason : HoldReason
  pub consumed_ms : ℕ
  pub limit_minutes : ℕ

abbrev pub day_ms : ℕ
day_ms = 24 * 60 * 60_000

-- `setUTCHours(0, 0, 0, 0)`
abbrev pub start_of_day : ℕ → ℕ
start_of_day now = now - now % day_ms

-- `getUTCDay`: the first day of the epoch was a Thursday.
abbrev pub utc_day : ℕ → ℕ
utc_day now = (now / day_ms + 4) % 7

-- In the days before the first Monday of the epoch this is 0 and the source's value is below 0; no
-- session starts earlier, so `sum_overlap` is the same.
abbrev pub start_of_week : ℕ → ℕ
start_of_week now = start_of_day now - ((utc_day now + 6) % 7) * day_ms

abbrev pub is_open : BoostSession → Bool
is_open s = elim s.ended_at [ none ↦ true | some t ↦ false ]

-- `Math.min` of the starts.
abbrev pub earliest : ℕ → List BoostSession → ℕ
earliest start [] = start
earliest start (s ∷ ss) = earliest (min start s.started_at) ss

abbrev pub is_rotation : Option StopReason → Bool
is_rotation none = false
is_rotation (some selection_changed) = true
is_rotation (some (other_reason n)) = false

abbrev pub ends_at : Option ℕ → ℕ → Bool
ends_at none start = false
ends_at (some t) start = t == start

-- Whether a session goes on at a start.
abbrev pub continues : ℕ → BoostSession → Bool
continues start s =
    is_rotation s.stop_reason && (ends_at s.ended_at start && ltb s.started_at start)

-- `sort` by start, the latest first.
unfoldable pub place_session : BoostSession → List BoostSession → List BoostSession
place_session x [] = x ∷ []
place_session x (y ∷ ys) =
    let rest = place_session x ys in if ltb x.started_at y.started_at then y ∷ rest else x ∷ y ∷ ys

unfoldable pub sort_sessions : List BoostSession → List BoostSession
sort_sessions [] = []
sort_sessions (x ∷ xs) = place_session x (sort_sessions xs)

-- The loop over the previous sessions.
unfoldable pub go_back : ℕ → List BoostSession → ℕ
go_back start [] = start
go_back start (s ∷ ss) =
    let far = go_back s.started_at ss in
    let near = go_back start ss in if continues start s then far else near

abbrev pub previous : List BoostSession → List BoostSession
previous sessions = sort_sessions (keep_if (λ s. not (is_open s)) sessions)

unfoldable pub session_ms : ℕ → List BoostSession → List BoostSession → ℕ
session_ms now [] sessions = 0
session_ms now (s ∷ open_sessions) sessions =
    now - go_back (earliest s.started_at open_sessions) (previous sessions)

unfoldable pub continuous_session_ms : List BoostSession → ℕ → ℕ
continuous_session_ms sessions now = session_ms now (keep_if is_open sessions) sessions

abbrev pub end_of : Option ℕ → ℕ → ℕ
end_of none range_end = range_end
end_of (some t) range_end = t

abbrev pub overlap : ℕ → ℕ → BoostSession → ℕ
overlap range_start range_end s =
    min (end_of s.ended_at range_end) range_end - max s.started_at range_start

unfoldable pub sum_overlap : ℕ → ℕ → List BoostSession → ℕ
sum_overlap range_start range_end [] = 0
sum_overlap range_start range_end (s ∷ ss) =
    overlap range_start range_end s + sum_overlap range_start range_end ss

unfoldable pub cap_result : HoldReason → ℕ → Option ℕ → Option Cap
cap_result reason consumed none = none
cap_result reason consumed (some limit) =
    if ltb consumed (limit * 60_000)
    then none
    else some (record { reason = reason; consumed_ms = consumed; limit_minutes = limit })

-- `??`
abbrev pub or_cap : Option Cap → Option Cap → Option Cap
or_cap none c = c
or_cap (some cap_found) c = some cap_found

abbrev pub is_none : Option ℕ → Bool
is_none none = true
is_none (some n) = false

unfoldable pub exceeded_cap : Policy → List BoostSession → ℕ → Option Cap
exceeded_cap p sessions now =
    if is_none p.max_session_minutes
      && (is_none p.max_daily_minutes && is_none p.max_weekly_minutes)
    then none
    else or_cap
        (cap_result session_limit (continuous_session_ms sessions now) p.max_session_minutes)
        (or_cap
          (cap_result daily_limit (sum_overlap (start_of_day now) now sessions) p.max_daily_minutes)
          (cap_result weekly_limit (sum_overlap (start_of_week now) now sessions)
            p.max_weekly_minutes))

abbrev pub is_playing : Policy → Bool
is_playing p = is_boosting p.status && is_running p.desired_state
  where
    is_boosting : Status → Bool
    is_boosting boosting = true
    is_boosting other_status = false

    is_running : DesiredState → Bool
    is_running running = true
    is_running other_state = false

abbrev pub is_free : Option HoldReason → Bool
is_free none = true
is_free (some r) = false

-- What `pause` and `recordInfo` are given.
pub record Context : Type 0 where
  pub reason : HoldReason
  pub consumed_minutes : ℕ
  pub limit_minutes : ℕ

unfoldable pub hold : Option Cap → Policy → Policy × Option Context
hold none p = (p, none)
hold (some c) p = (
  record p { hold_reason = some c.reason },
  some (record {
    reason = c.reason;
    consumed_minutes = (c.consumed_ms + 59_999) / 60_000;
    limit_minutes = c.limit_minutes;
  }),
)

-- The operation that runs for the account, on the policy and the sessions that it reads again.
unfoldable pub enforce : Policy → List BoostSession → ℕ → Policy × Option Context
enforce p sessions now =
    if is_playing p && is_free p.hold_reason
    then hold (exceeded_cap p sessions now) p
    else (p, none)
