-- ===== src/Manager/Automatic.antt =====
-- apps/server/src/steam/manager.ts: what runs by itself for an account: safety limits, the ports of the
-- schedules, a restart, the statuses of the worker and the shutdown.
use steam_bee.Common.{
  ℕ, Bool, true, false, not, ◌&&◌, ◌||◌, Option, none, some, List, [], ◌∷◌, if◌then◌else◌, ltb,
}
use steam_bee.Schedule.{ScheduleRecord, WindowId}
use steam_bee.Coordinator
use steam_bee.Coordinator.{
  OpenWindow, Action, apply_preset, resume_or_start, pause, winner_of, transition_account,
}
use steam_bee.Coordinator.Hold.{unscheduled}
use steam_bee.Safety
use steam_bee.Safety.{Policy, Context, enforce}
use steam_bee.Worker
use steam_bee.Worker.{
  Status, disconnected, connecting, reconnecting, status_error, paused_manual, Desired, is_running,
  is_boosting, clear_health, same_desired, stopped, paused,
}
use steam_bee.Worker.Commands
use steam_bee.Worker.Commands.{is_on}
use steam_bee.Worker.Operations.{new_worker}
use steam_bee.Farming
use steam_bee.Farming.{Reason}
use steam_bee.Farming.Session
use steam_bee.Manager.{
  HoldReason, pause_until, limit_reached, Account, Outside, scheduler, safety, Result, outside_of,
  set_hold, is_held, halt_farming, clear_account, pause_now, pause_for_safety, always,
}
use steam_bee.Manager.Running

-- The policy of an account without a hold.
abbrev pub policy_of : Account → Policy
policy_of a = record {
  max_session_minutes = a.limits.max_session_minutes;
  max_daily_minutes = a.limits.max_daily_minutes;
  max_weekly_minutes = a.limits.max_weekly_minutes;
  hold_reason = none;
  status = if is_boosting a.worker.status then Safety.boosting else Safety.other_status;
  desired_state = if is_running a.worker.desired then Safety.running else Safety.other_state;
}

unfoldable pub hold_at_limit : Outside → Option Context → Account → Account
hold_at_limit o none a = a
hold_at_limit o (some c) a =
    (pause_for_safety o always safety (set_hold (limit_reached c.reason) none unscheduled a)).0

-- `tick` of the safety coordinator, for the account.
unfoldable pub tick_safety : Outside → Account → Account
tick_safety o a =
    if a.worker.quiescing || a.worker.held
    then a
    else hold_at_limit o (enforce (policy_of a) o.sessions o.worker.now).1 a

-- `resumeOrStartFromScheduleNow`
unfoldable pub resume_or_start_now : Outside → Account → Result
resume_or_start_now o a =
    if same_desired paused a.worker.desired then Running.resume_now o a else Running.start_now o a

unfoldable pub apply_winner : Outside → Option (ScheduleRecord × WindowId) → Account → Result
apply_winner o none a = (a, true)
apply_winner o (some (s, w)) a = Running.apply_preset_now o s.preset_id a

-- The ports of the schedule coordinator.
abbrev pub run_action : Outside → Action → Account → Account
run_action o (apply_preset id) a = (Running.apply_preset_now o id a).0
run_action o resume_or_start a = (resume_or_start_now o a).0
run_action o pause a = (pause_now o always scheduler a).0

unfoldable pub run_actions : Outside → List Action → Account → Account
run_actions o [] a = a
run_actions o (action ∷ actions) a = run_actions o actions (run_action o action a)

-- `pause_until`, and whether its time is not over.
abbrev pub is_timed : HoldReason → Bool
is_timed reason = elim reason [ pause_until ↦ true | _ ↦ false ]

abbrev pub is_after : Option ℕ → ℕ → Bool
is_after none now = false
is_after (some t) now = ltb now t

-- What the coordinator finds of the account: its hold, also after the preset, and how the ports answer.
abbrev pub found_of : Outside → Option (ScheduleRecord × WindowId) → Account → Coordinator.Outside
found_of o winner a =
    let applied = apply_winner o winner a in
    record {
      held = is_held a;
      held_after_preset = is_held applied.0;
      applies = not applied.1;
      resumes = not (resume_or_start_now o applied.0).1;
      pauses = not (pause_now o always scheduler a).1;
      stopped = same_desired stopped a.worker.desired;
      edit = o.edit;
    }

-- A process that starts again has the rows, and nothing else.
unfoldable pub restarted : Account → Account
restarted a = record a {
  worker = record (new_worker a.worker.status a.worker.desired a.titled) {
    held = a.worker.held;
    health = a.worker.health;
  };
  resume_at = none;
  coordinator = clear_account a.coordinator;
  session = record (Session.new_session a.session.config) { remembered = a.session.remembered };
}

-- The loop of `init` for the account, after the tick of the schedules.
unfoldable pub auto_start : Outside → Account → Account
auto_start o a =
    if a.worker.held && (is_timed a.hold.reason && Worker.is_some a.hold.until)
    then record a { resume_at = a.hold.until }
    else if is_running a.worker.desired && not (is_held a)
    then record a { worker = Commands.start_now (outside_of o a) (clear_health a.worker) }
    else a

-- The reason of a halt by a status; the texts that the controller does not compare are alike.
abbrev pub reason_of : Status → Reason
reason_of connecting = Farming.connecting
reason_of reconnecting = Farming.reconnecting
reason_of disconnected = Farming.disconnected
reason_of status_error = Farming.error
reason_of _ = Farming.other 5

abbrev pub is_manual_pause : Status → Bool
is_manual_pause status = elim status [ paused_manual ↦ true | _ ↦ false ]

-- `handleWorkerStatus`, whether or not farming is being cleaned up.
unfoldable pub handle_status : Status → Bool → Account → Account
handle_status status cleans_up a =
    if is_on status || (is_manual_pause status && cleans_up)
    then a
    else halt_farming (reason_of status) true a

unfoldable pub begin_shutdown : Outside → Account → Account
begin_shutdown o a = record a {
  session = Session.halt Farming.shutdown a.session;
  resume_at = none;
  worker = Commands.begin_shutdown o.worker a.worker;
}

unfoldable pub shutdown_now : Outside → Account → Account
shutdown_now o a = record a {
  resume_at = none;
  worker = Commands.shutdown_now o.worker a.worker;
  coordinator = clear_account a.coordinator;
}
