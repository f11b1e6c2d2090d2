-- ===== src/Coordinator.antt =====
-- apps/server/src/steam/schedule-coordinator.ts, with the transactions of schedule-repository.ts: what a
-- tick does for an account. The rows are the account's own. A port either succeeds or throws; while the
-- coordinator waits for one, the rest of the server may edit the rows. Events are left out.
pub mod Windows
pub mod Commit
pub mod Settled
pub mod Transition
pub mod Backoff
pub mod Hold
pub mod Ticks
mod Tests
use Prim.Native.Nat.{Ordering}
use steam_bee.Common.{
  ℕ, zero, suc, ◌+◌, ◌-◌, ◌*◌, ◌^◌, min, Bool, true, false, not, ◌&&◌, ◌||◌, Option, none, some,
  List, [], ◌∷◌, ◌++◌, ltb, ◌==◌, if◌then◌else◌, length, keep_if, map, any,
}
use steam_bee.Schedule.{
  Time, WindowId, WindowState, Parts, ScheduleRecord, Entry, evaluate_schedule_window,
  inactive_window, select_schedule_winner,
}

pub record OpenWindow : Type 0 where
  pub schedule_id : ℕ
  pub window_id : WindowId

pub data RetryKey : Type 0 where
  start_key : ℕ → WindowId → RetryKey
  pause_key : RetryKey

-- `FailedTransition`
pub record Failed : Type 0 where
  pub key : RetryKey
  pub failures : ℕ
  pub retry_at : ℕ

-- What the coordinator and the database keep for an account.
pub record Coordinator : Type 0 where
  pub rows : List ScheduleRecord
  pub active_window : Option WindowId
  pub failed : Option Failed

pub data Action : Type 0 where
  apply_preset : ℕ → Action
  resume_or_start : Action
  pause : Action

-- What a transition finds outside: whether the account is held at first and after the preset, which
-- ports succeed, and how the rows are edited meanwhile.
pub record Outside : Type 0 where
  pub held : Bool
  pub held_after_preset : Bool
  pub applies : Bool
  pub resumes : Bool
  pub pauses : Bool
  pub stopped : Bool
  pub edit : List ScheduleRecord → List ScheduleRecord

abbrev pub is_none {ℓ} : {A : Type ℓ} → Option A → Bool
is_none none = true
is_none (some a) = false

abbrev pub is_empty {ℓ} : {A : Type ℓ} → List A → Bool
is_empty [] = true
is_empty (x ∷ xs) = false

abbrev pub same_time : Time → Time → Bool
same_time a b = (a.hour == b.hour) && (a.minute == b.minute)

abbrev pub same_window : WindowId → WindowId → Bool
same_window a b =
    (a.schedule_id == b.schedule_id)
    && ((a.date_key == b.date_key)
        && (same_time a.start_time b.start_time && same_time a.end_time b.end_time))

abbrev pub is_window : WindowId → Option WindowId → Bool
is_window w none = false
is_window w (some v) = same_window v w

abbrev pub same_key : RetryKey → RetryKey → Bool
same_key (start_key i v) (start_key j w) = (i == j) && same_window v w
same_key pause_key pause_key = true
same_key (start_key i v) pause_key = false
same_key pause_key (start_key j w) = false

-- Whether a window of the schedule is open, and it is this one.
abbrev pub has_open : WindowId → ScheduleRecord → Bool
has_open w s = is_window w s.last_started && not (is_window w s.last_stopped)

-- `openScheduleWindows`
unfoldable pub open_window : ScheduleRecord → List OpenWindow
open_window s = elim s.last_started [
  | none ↦ []
  | some w ↦
      if is_window w s.last_stopped
      then []
      else record { schedule_id = s.window.id; window_id = w } ∷ []
]

unfoldable pub open_windows : List ScheduleRecord → List OpenWindow
open_windows [] = []
open_windows (s ∷ ss) = open_window s ++ open_windows ss

-- A row that an update names.
abbrev pub matches : OpenWindow → ScheduleRecord → Bool
matches w s = (s.window.id == w.schedule_id) && is_window w.window_id s.last_started

-- `UPDATE … WHERE`, which has to change one row.
unfoldable pub update_one :
    (ScheduleRecord → Bool)
    → (ScheduleRecord → ScheduleRecord)
    → List ScheduleRecord
    → Option (List ScheduleRecord)
update_one p f rows =
    if length (keep_if p rows) == 1 then some (map (λ s. if p s then f s else s) rows) else none

unfoldable pub stop_row : OpenWindow → List ScheduleRecord → Option (List ScheduleRecord)
stop_row w = update_one (matches w) (λ s. record s { last_stopped = some w.window_id })

-- `markWindowsStopped`
unfoldable pub mark_windows_stopped :
    List OpenWindow → List ScheduleRecord → Option (List ScheduleRecord)
mark_windows_stopped [] rows = some rows
mark_windows_stopped (w ∷ ws) rows = elim (stop_row w rows) [
  | none ↦ none
  | some stopped ↦ mark_windows_stopped ws stopped
]

-- The windows but the one that starts.
abbrev pub other_windows : OpenWindow → List OpenWindow → List OpenWindow
other_windows w =
    keep_if (λ v. not (v.schedule_id == w.schedule_id) || not (same_window v.window_id w.window_id))

abbrev pub starts : OpenWindow → ℕ → ScheduleRecord → Bool
starts w updated_at s =
    (s.window.id == w.schedule_id) && (s.enabled && (s.updated_at == updated_at))

abbrev pub start_window : WindowId → ScheduleRecord → ScheduleRecord
start_window w s = record s {
  last_started = some w;
  last_stopped = if is_window w s.last_stopped then none else s.last_stopped;
}

-- `commitStartedWindow`
unfoldable pub commit_started_window :
    OpenWindow → ℕ → List OpenWindow → List ScheduleRecord → Option (List ScheduleRecord)
commit_started_window w updated_at previous rows =
    elim (mark_windows_stopped (other_windows w previous) rows) [
      | none ↦ none
      | some stopped ↦ update_one (starts w updated_at) (start_window w.window_id) stopped
    ]

-- `isBackingOff`
unfoldable pub is_backing_off : RetryKey → ℕ → Option Failed → Bool
is_backing_off key now none = false
is_backing_off key now (some f) = same_key f.key key && ltb now f.retry_at

abbrev pub failures_after : RetryKey → Option Failed → ℕ
failures_after key none = 1
failures_after key (some f) = if same_key f.key key then suc f.failures else 1

abbrev pub transition_delay : ℕ → ℕ
transition_delay failures = min (60_000 * 2 ^ (failures - 1)) (60 * 60_000)

-- `recordTransitionFailure`
unfoldable pub record_failure : RetryKey → ℕ → Coordinator → Coordinator
record_failure key now c =
    let failures = failures_after key c.failed in
    record c {
      failed =
          some
            (record { key = key; failures = failures; retry_at = now + transition_delay failures });
    }

-- Where the winner's window is open already, what else is open is stopped; where that throws, nothing
-- changes.
unfoldable pub keep_window : ScheduleRecord → WindowId → List OpenWindow → Coordinator → Coordinator
keep_window s w previous c =
    if is_empty previous
    then record c { active_window = some w }
    else elim (commit_started_window (record { schedule_id = s.window.id; window_id = w })
        s.updated_at previous c.rows) [
          | none ↦ c
          | some rows ↦ record c { rows = rows; active_window = some w }
        ]

module _ (o : Outside) (now : ℕ) where
  -- The rest of `transitionAccount`, from `applyPreset` on.
  unfoldable pub start_account :
      ScheduleRecord → WindowId → List OpenWindow → Coordinator → Coordinator × List Action
  start_account s w previous c =
      let key = start_key s.window.id w in
      let edited = record c { rows = o.edit c.rows } in
      let failed = record_failure key now edited in
      let chosen = apply_preset s.preset_id in
      if not o.applies
      then (failed, chosen ∷ [])
      else if o.held_after_preset
      then (edited, chosen ∷ [])
      else if not o.resumes
      then (failed, chosen ∷ resume_or_start ∷ [])
      else elim (commit_started_window (record { schedule_id = s.window.id; window_id = w })
          s.updated_at previous edited.rows) [
            | none ↦ (failed, chosen ∷ resume_or_start ∷ [])
            | some rows ↦ (
              record { rows = rows; active_window = some w; failed = none },
              chosen ∷ resume_or_start ∷ [],
            )
          ]

  -- `stopAccountWindow`
  unfoldable pub stop_account : Coordinator → Coordinator × List Action
  stop_account c =
      let windows = open_windows c.rows in
      let edited = record c { rows = o.edit c.rows } in
      let failed = record_failure pause_key now edited in
      let asked = if o.stopped then [] else pause ∷ [] in
      if is_none c.active_window && is_empty windows
      then (c, [])
      else if is_backing_off pause_key now c.failed
      then (c, [])
      else if not o.stopped && not o.pauses
      then (failed, asked)
      else elim (mark_windows_stopped windows edited.rows) [
        | none ↦ (failed, asked)
        | some rows ↦ (record { rows = rows; active_window = none; failed = none }, asked)
      ]

  unfoldable pub start_or_keep : ScheduleRecord → WindowId → Coordinator → Coordinator × List Action
  start_or_keep s w c =
      let opened : OpenWindow = record { schedule_id = s.window.id; window_id = w } in
      let previous = other_windows opened (open_windows c.rows) in
      if has_open w s && (is_none c.active_window || is_window w c.active_window)
      then (keep_window s w previous c, [])
      else if is_backing_off (start_key s.window.id w) now c.failed
      then (c, [])
      else start_account s w previous c

module _ (zoned : ℕ → Option (ℕ → Parts)) (is_skipped : WindowId → Bool)
    (compare_ids : ℕ → ℕ → Ordering) where
  -- The window of a schedule that is enabled; `none` where the evaluation throws, as it does in an
  -- unknown time zone.
  abbrev pub unless_skipped : WindowState → WindowState
  unless_skipped state = elim state.window_id [
    | none ↦ state
    | some w ↦ if is_skipped w then inactive_window else state
  ]

  abbrev pub evaluate_schedule : ℕ → ScheduleRecord → Option WindowState
  evaluate_schedule now s = elim (zoned s.time_zone) [
    | none ↦ none
    | some local ↦
        if s.enabled
        then some (unless_skipped (evaluate_schedule_window local s.window now))
        else none
  ]

  -- `evaluateSchedules`
  unfoldable pub evaluate_schedules : ℕ → List ScheduleRecord → List Entry
  evaluate_schedules now = map (λ s. record { schedule = s; state = evaluate_schedule now s })

  -- The winner with its window; a winner is never without one.
  abbrev pub window_of : Entry → Option WindowId
  window_of entry = elim entry.state [ none ↦ none | some state ↦ state.window_id ]

  unfoldable pub winner_of : ℕ → List ScheduleRecord → Option (ScheduleRecord × WindowId)
  winner_of now rows = elim (select_schedule_winner compare_ids (evaluate_schedules now rows)) [
    | none ↦ none
    | some entry ↦ elim (window_of entry) [ none ↦ none | some w ↦ some (entry.schedule, w) ]
  ]

  -- `transitionAccount`, with the evaluation of the schedules before it.
  unfoldable pub transition_account : Outside → ℕ → Coordinator → Coordinator × List Action
  transition_account o now c = if o.held then (c, []) else elim (winner_of now c.rows) [
    | none ↦ stop_account o now c
    | some (s, w) ↦ start_or_keep o now s w c
  ]
