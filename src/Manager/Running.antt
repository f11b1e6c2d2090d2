-- ===== src/Manager/Running.antt =====
-- apps/server/src/steam/manager.ts: the operations of `SteamManager` that start, stop, resume and change
-- what an account plays, and those of card farming.
use steam_bee.Common.{
  ℕ, Bool, true, false, not, ◌&&◌, ◌||◌, Option, none, some, List, if◌then◌else◌, ltb, length,
}
use steam_bee.Worker
use steam_bee.Worker.{
  Worker, Payload, is_running, is_some, clear_health, game_limit, selected_games,
}
use steam_bee.Worker.Commands
use steam_bee.Worker.Commands.{is_on}
use steam_bee.Coordinator.{is_none}
use steam_bee.Farming.{Reason, stopped}
use steam_bee.Manager.{
  HoldReason, manual, Account, Preset, Outside, user, farming, Result, outside_of, needs_user,
  is_held, by_start, by_resume, by_settings, by_preset, halt_farming, pause_for_safety, always,
}

-- `runFarmingInterruption`; a manager that shuts down rejects the operation.
unfoldable pub run_farming_interruption : Outside → Reason → (Account → Result) → Account → Result
run_farming_interruption o reason operation a =
    let halted = halt_farming reason false a in
    let result = operation halted in
    if a.worker.quiescing
    then (halted, true)
    else if result.1 && is_some a.worker.farming_app_ids
    then ((pause_for_safety o always user result.0).0, true)
    else result

-- Whether `applyGames` finds more games than the limit.
abbrev pub exceeds_limit : Worker.Outside → Worker → Bool
exceeds_limit o w =
    w.connected && (not w.manually_paused && (not w.blocked && is_none (selected_games o w)))

-- `clearSafetyHold` and `clearRecoveryHealth`, after the timer is cleared.
abbrev pub set_free : Account → Account
set_free a = record a { resume_at = none; worker = clear_health (record a.worker { held = false }) }

unfoldable pub start_now : Outside → Account → Result
start_now o a =
    let free = set_free a in
    (record free { worker = Commands.start_now (outside_of o a) free.worker }, false)

unfoldable pub start : Outside → Account → Result
start o a =
    if a.worker.connected && (is_some a.worker.farming_app_ids && is_on a.worker.status)
    then (a, false)
    else run_farming_interruption o by_start (start_now o) a

unfoldable pub stop_now : Outside → Account → Result
stop_now o a =
    (record a { resume_at = none; worker = Commands.stop_now (outside_of o a) a.worker }, false)

unfoldable pub stop : Outside → Account → Result
stop o = run_farming_interruption o stopped (stop_now o)

unfoldable pub resume_now : Outside → Account → Result
resume_now o a =
    let free = set_free a in
    (
      record free { worker = Commands.resume_now (outside_of o a) free.worker },
      exceeds_limit (outside_of o a)
          (record free.worker { manually_paused = false; awaiting_farming = false }),
    )

unfoldable pub resume : Outside → Account → Result
resume o = run_farming_interruption o by_resume (resume_now o)

-- The row's intent is the worker's own.
unfoldable pub refresh_worker_now : Outside → Account → Result
refresh_worker_now o a = (
  record a { worker = Commands.update_account (outside_of o a) a.worker.desired a.titled a.worker },
  exceeds_limit (outside_of o a) (record a.worker { titled = a.titled }),
)

unfoldable pub refresh_worker : Outside → Account → Result
refresh_worker o = run_farming_interruption o by_settings (refresh_worker_now o)

-- `replaceSelectedGames`, and what follows.
unfoldable pub apply_found : Outside → Option Preset → Account → Result
apply_found o none a = (a, true)
apply_found o (some p) a =
    if ltb (game_limit p.titled) (length p.app_ids)
    then (a, true)
    else refresh_worker_now o (record a { games = p.app_ids; titled = p.titled })

unfoldable pub apply_preset_now : Outside → ℕ → Account → Result
apply_preset_now o id a = apply_found o (o.presets id) (halt_farming by_preset false a)

unfoldable pub apply_preset : Outside → ℕ → Account → Result
apply_preset o id = run_farming_interruption o by_preset (apply_preset_now o id)

-- `reason` of `getFarmingAvailability`
pub data Obstacle : Type 0 where
  shutting_down recovery not_running not_connected : Obstacle
  held_by : HoldReason → Obstacle

abbrev pub obstacle : Account → Option Obstacle
obstacle a =
    if a.worker.quiescing
    then some shutting_down
    else if a.worker.held
    then some (held_by a.hold.reason)
    else if needs_user a.worker.health.recovery_action
    then some recovery
    else if not (is_running a.worker.desired)
    then some not_running
    else if not (a.worker.connected && is_on a.worker.status)
    then some not_connected
    else none

pub record Availability : Type 0 where
  pub allowed : Bool
  pub reason : Option Obstacle
  pub resumable : Bool
  pub game_limit : ℕ

abbrev pub is_manual : HoldReason → Bool
is_manual reason = elim reason [ manual ↦ true | _ ↦ false ]

unfoldable pub get_farming_availability : Account → Availability
get_farming_availability a = record {
  allowed = is_none (obstacle a);
  reason = obstacle a;
  resumable =
      not a.worker.quiescing
      && ((not (is_held a) || (a.worker.held && is_manual a.hold.reason))
          && not (is_running a.worker.desired));
  game_limit = game_limit a.titled;
}

-- The account that `resumeForFarming` leaves; then it only waits.
unfoldable pub resume_for_farming : Outside → Account → Account
resume_for_farming o a =
    let available = get_farming_availability a in
    let free = set_free a in
    if available.allowed || not available.resumable
    then a
    else record free { worker = Commands.resume_for_farming (outside_of o a) free.worker }

-- `applyFarmingGames`, with the answers of `shouldApply`; where it throws, nothing changes.
unfoldable pub apply_farming_games : Outside → List ℕ → (ℕ → Bool) → Account → Account
apply_farming_games o app_ids answers a =
    if answers 0 && ((get_farming_availability a).allowed && answers 1)
    then record a {
      worker =
          Commands.apply_farming (outside_of o a) app_ids (answers 2) (answers 3) (answers 4)
            a.worker;
    }
    else a

-- `endFarming`; the answers of `shouldEnd` here are those at 13 and 14.
unfoldable pub end_farming : Outside → (ℕ → Bool) → Account → Account
end_farming o answers a =
    if a.worker.quiescing || not (answers 13 && (answers 14 && is_some a.worker.farming_app_ids))
    then a
    else (pause_for_safety o answers farming a).0
