-- ===== src/Manager.antt =====
-- apps/server/src/steam/manager.ts: `SteamManager`, for one account: its worker, the hold of its row
-- (operations-repository.ts), the timer that ends the hold, its schedules and its farming session.
-- `accountOperations` runs the operations one after another, so each is one step. The hold is null where
-- `worker.held` is false. Writes to the database succeed, and of the Steam client's calls only those of a
-- pause and of a forced disconnect throw. Events, the inventory batches and the library's import are left
-- out; the boost sessions are an argument.
pub mod Running
pub mod Automatic
pub mod Operations
pub mod Calm
pub mod Kept
pub mod Reached
pub mod Held
pub mod Resting
pub mod Lasting
mod Tests
use steam_bee.Common.{
  ℕ, Bool, true, false, not, ◌&&◌, ◌||◌, Option, none, some, List, String, if◌then◌else◌, ltb,
  length,
}
use steam_bee.Retry.{RecoveryAction, attention, reauthenticate}
use steam_bee.Worker
use steam_bee.Worker.{Worker, Status, is_running, clear_farming_selection}
use steam_bee.Worker.Commands
use steam_bee.Worker.Commands.{is_on}
use steam_bee.Safety
use steam_bee.Safety.{BoostSession}
use steam_bee.Schedule.{ScheduleRecord}
use steam_bee.Coordinator.{Coordinator}
use steam_bee.Coordinator.Hold.{HoldOwner, unscheduled}
use steam_bee.Farming.{Reason, other}
use steam_bee.Farming.Session
use steam_bee.Farming.Session.{Session}

-- `SafetyHoldReason`
pub data HoldReason : Type 0 where
  manual : HoldReason
  pause_until : HoldReason
  limit_reached : Safety.HoldReason → HoldReason
  safety_failure : HoldReason

pub record Hold : Type 0 where
  pub reason : HoldReason
  pub until : Option ℕ
  pub owner : HoldOwner

pub record Limits : Type 0 where
  pub max_session_minutes : Option ℕ
  pub max_daily_minutes : Option ℕ
  pub max_weekly_minutes : Option ℕ

-- `titled` and `games` are the account's rows; the worker has its own copy of the title.
pub record Account : Type 0 where
  pub worker : Worker
  pub hold : Hold
  pub resume_at : Option ℕ
  pub coordinator : Coordinator
  pub session : Session
  pub titled : Bool
  pub games : List ℕ
  pub limits : Limits

-- A row of `boostPreset` with its games.
pub record Preset : Type 0 where
  pub titled : Bool
  pub app_ids : List ℕ

-- What an operation finds outside: the worker's part; which calls of the client throw; the presets of the
-- account; its boost sessions; and how its schedules are edited while the coordinator waits.
pub record Outside : Type 0 where
  pub worker : Worker.Outside
  pub pause_throws : Bool
  pub report_throws : Bool
  pub log_off_throws : Bool
  pub presets : ℕ → Option Preset
  pub sessions : List BoostSession
  pub edit : List ScheduleRecord → List ScheduleRecord

-- `context.source`
pub data Source : Type 0 where
  user scheduler safety farming : Source

-- The account after an operation, and whether it throws.
abbrev pub Result : Type 0
Result = Account × Bool

-- The worker reads the games of the row.
abbrev pub outside_of : Outside → Account → Worker.Outside
outside_of o a = record o.worker { enabled_games = a.games }

-- `setSafetyHold`
unfoldable pub set_hold : HoldReason → Option ℕ → HoldOwner → Account → Account
set_hold reason until owner a = record a {
  hold = record { reason = reason; until = until; owner = owner };
  worker = record a.worker { held = true };
}

-- `clearSafetyHold`
unfoldable pub clear_hold : Account → Account
clear_hold a = record a { worker = record a.worker { held = false } }

abbrev pub needs_user : RecoveryAction → Bool
needs_user r = elim r [ attention ↦ true | reauthenticate ↦ true | _ ↦ false ]

-- Whether `getActiveAutomationHold` finds a hold.
abbrev pub is_held : Account → Bool
is_held a = a.worker.held || needs_user a.worker.health.recovery_action

-- The reasons of a halt that the manager gives; the controller treats these texts alike.
abbrev pub by_pause : Reason
by_pause = other 0

abbrev pub by_start : Reason
by_start = other 1

abbrev pub by_resume : Reason
by_resume = other 2

abbrev pub by_settings : Reason
by_settings = other 3

abbrev pub by_preset : Reason
by_preset = other 4

-- `haltFarming`
unfoldable pub halt_farming : Reason → Bool → Account → Account
halt_farming reason keeps_awaiting a = record a {
  session = Session.halt reason a.session;
  worker = clear_farming_selection keeps_awaiting a.worker;
}

-- `clearAccount` of the coordinator.
unfoldable pub clear_account : Coordinator → Coordinator
clear_account c = record c { active_window = none; failed = none }

abbrev pub is_farming_source : Source → Bool
is_farming_source source = elim source [ farming ↦ true | _ ↦ false ]

abbrev pub holds_itself : Source → Bool
holds_itself source = elim source [ scheduler ↦ false | safety ↦ false | _ ↦ true ]

unfoldable pub hold_manually : Source → Account → Account
hold_manually source a =
    let held = set_hold manual none unscheduled a in
    if holds_itself source then record held { coordinator = clear_account a.coordinator } else a

-- `pauseNow`. `answers` are those of `shouldPause`, by the place that asks: 2 to 4 are in this function,
-- and 5 to 7 in the worker's.
unfoldable pub pause_now : Outside → (ℕ → Bool) → Source → Account → Result
pause_now o answers source a =
    let halted = if is_farming_source source then a else halt_farming by_pause false a in
    let held = hold_manually source (record halted { resume_at = none }) in
    let reports = answers 7 && not o.pause_throws in
    let paused = record held {
      worker = Commands.pause_now o.worker (answers 5) (answers 6) reports held.worker;
    } in
    if not (answers 2)
    then (a, false)
    else if not (answers 3)
    then (halted, false)
    else if not (answers 4)
    then (held, false)
    else (paused, answers 5 && (answers 6 && (answers 7 && o.pause_throws)))

-- `forceDisconnectForSafety`, where calls of the client may throw: what was reported stays as it was, or
-- nothing is.
unfoldable pub force_disconnect : Outside → Bool → Bool → Worker → Worker
force_disconnect o first second w =
    let off =
      Commands.force_disconnect o.worker
        "SteamBee force-disconnected after the safety pause failed." first second w in
    if o.report_throws then record off { reported = w.reported; mode = w.mode } else off

-- `pauseForSafety`, whose answers of `shouldPause` are also those at 0, 1 and, after a failure, 8 to 12.
unfoldable pub pause_for_safety : Outside → (ℕ → Bool) → Source → Account → Result
pause_for_safety o answers source a =
    let paused = pause_now o answers source a in
    let forced = record paused.0 {
      worker = force_disconnect o (answers 9) (answers 10) paused.0.worker;
    } in
    let fails = answers 9 && (answers 10 && (o.report_throws || o.log_off_throws)) in
    let marked = set_hold safety_failure none unscheduled forced in
    let failed = record marked {
      worker =
          Commands.mark_attention o.worker
            "Safety enforcement could not confirm that the Steam client stopped." marked.worker;
    } in
    if not (answers 0 && answers 1)
    then (a, false)
    else if not (paused.1 && answers 8)
    then (paused.0, false)
    else if not (fails && answers 12)
    then (forced, false)
    else (failed, true)

abbrev pub always : ℕ → Bool
always place = true
