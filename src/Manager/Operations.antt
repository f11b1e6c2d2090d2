-- ===== src/Manager/Operations.antt =====
-- apps/server/src/steam/manager.ts: the ticks of schedules, timed holds, and every operation as one step.
-- Commands of the worker come from the manager only. A status that the worker emits is a step of its own.
use Prim.Native.Nat.{Ordering}
use steam_bee.Common.{
  ℕ, Bool, true, false, not, ◌&&◌, ◌||◌, Option, none, some, List, [], ◌∷◌, if◌then◌else◌,
}
use steam_bee.Schedule.{WindowId, Parts}
use steam_bee.Coordinator.{OpenWindow, winner_of, transition_account}
use steam_bee.Coordinator.Hold.{get_hold_owner, can_resume_held}
use steam_bee.Worker.{Status, is_running, same_desired, paused}
use steam_bee.Worker.Operations
use steam_bee.Worker.Operations.{new_worker}
use steam_bee.Worker.Rest.{is_command}
use steam_bee.Manager.{
  pause_until, Limits, Account, Outside, user, safety, Result, outside_of, set_hold, clear_hold,
  by_pause, clear_account, pause_now, pause_for_safety, always,
}
use steam_bee.Manager.Running
use steam_bee.Manager.Automatic.{
  tick_safety, run_actions, is_timed, is_after, found_of, restarted, auto_start, handle_status,
  begin_shutdown, shutdown_now,
}

pub data Operation : Type 0 where
  starts stops pauses resumes refreshes resumes_for_farming : Operation
  pauses_until : ℕ → Operation
  applies_preset : ℕ → Operation
  applies_games : List ℕ → (ℕ → Bool) → Operation
  ends_farming : (ℕ → Bool) → Operation
  ticks_schedules ticks_safety timer_fires timer_runs : Operation
  shows : Status → Bool → Operation
  worker_does : Operations.Operation → Operation
  invalidates : Operation
  edits : List ℕ → Bool → Limits → Operation
  shutdown_begins shutdown_runs restarts : Operation

module _ (compare_windows : OpenWindow → OpenWindow → Ordering) (zoned : ℕ → Option (ℕ → Parts))
    (is_skipped : WindowId → Bool) (compare_ids : ℕ → ℕ → Ordering) where
  -- `tick` of the schedule coordinator, for the account.
  unfoldable pub tick_schedules : Outside → Account → Account
  tick_schedules o a =
      let winner = winner_of zoned is_skipped compare_ids o.worker.now a.coordinator.rows in
      let next =
        transition_account zoned is_skipped compare_ids (found_of o winner a) o.worker.now
          a.coordinator in
      if a.worker.quiescing then a else record (run_actions o next.1 a) { coordinator = next.0 }

  -- `pauseUntil`
  unfoldable pub hold_until : Outside → ℕ → Account → Result
  hold_until o until a =
      let owner =
        get_hold_owner compare_windows zoned is_skipped compare_ids o.worker.now
          a.coordinator.active_window a.coordinator.rows in
      let result = pause_for_safety o always safety (set_hold pause_until (some until) owner a) in
      if a.worker.quiescing || not (is_running a.worker.desired)
      then (a, true)
      else if not result.1 && is_timed result.0.hold.reason
      then (record result.0 { resume_at = some until }, false)
      else result

  -- What the timer of a timed hold runs.
  unfoldable pub end_hold : Outside → Account → Account
  end_hold o a =
      let free = clear_hold a in
      if not (a.worker.held && is_timed a.hold.reason)
      then a
      else if is_after a.hold.until o.worker.now
      then record a { resume_at = a.hold.until }
      else if not (same_desired paused a.worker.desired)
      then free
      else if not (
          can_resume_held compare_windows zoned is_skipped compare_ids a.hold.owner o.worker.now
            a.coordinator.rows)
      then free
      else if a.worker.quiescing
      then a
      else if a.worker.connected
      then (Running.resume_now o free).0
      else (Running.start_now o free).0

  unfoldable pub perform : Outside → Operation → Account → Account
  perform o starts a = (Running.start o a).0
  perform o stops a = (Running.stop o a).0
  perform o pauses a = (Running.run_farming_interruption o by_pause (pause_now o always user) a).0
  perform o resumes a = (Running.resume o a).0
  perform o refreshes a = (Running.refresh_worker o a).0
  perform o resumes_for_farming a = Running.resume_for_farming o a
  perform o (pauses_until until) a = (hold_until o until a).0
  perform o (applies_preset id) a = (Running.apply_preset o id a).0
  perform o (applies_games app_ids answers) a = Running.apply_farming_games o app_ids answers a
  perform o (ends_farming answers) a = Running.end_farming o answers a
  perform o ticks_schedules a = tick_schedules o a
  perform o ticks_safety a = tick_safety o a
  perform o timer_fires a = record a { resume_at = none }
  perform o timer_runs a = end_hold o a
  perform o (shows status cleans_up) a = handle_status status cleans_up a
  perform o (worker_does op) a =
      if is_command op
      then a
      else record a { worker = Operations.perform (outside_of o a) op a.worker }
  perform o invalidates a = record a { coordinator = clear_account a.coordinator }
  perform o (edits games titled limits) a = record a {
    games = games;
    titled = titled;
    limits = limits;
  }
  perform o shutdown_begins a = begin_shutdown o a
  perform o shutdown_runs a = shutdown_now o a
  perform o restarts a = auto_start o (tick_schedules o (restarted a))

  unfoldable pub perform_all : List (Outside × Operation) → Account → Account
  perform_all [] a = a
  perform_all ((o, op) ∷ ops) a = perform_all ops (perform o op a)
