-- ===== src/Worker/Commands.antt =====
-- apps/server/src/steam/worker.ts: the commands of `SteamWorker`. A predicate such as `shouldPause` is
-- the list of what it answers each time that it is asked.
use steam_bee.Common.{
  ℕ, suc, Bool, true, false, not, ◌&&◌, ◌||◌, none, some, List, [], String, if◌then◌else◌,
}
use steam_bee.Retry.{terminal_error, attention}
use steam_bee.Worker.{
  Status, disconnected, connecting, online, boosting, paused_manual, login_required, status_error,
  Desired, running, paused, stopped, Worker, Outside, no_games, is_running, same_desired, is_some,
  report_games, clear_farming_selection, set_desired, set_status, clear_health, clear_timers,
  reset_conflict, enforce_limit, apply_games,
}

abbrev pub is_on : Status → Bool
is_on status = elim status [ online ↦ true | boosting ↦ true | _ ↦ false ]

abbrev pub is_connecting : Status → Bool
is_connecting status = elim status [ connecting ↦ true | _ ↦ false ]

-- `startNow`; `startInFlight` is false between operations.
unfoldable pub start_now : Outside → Worker → Worker
start_now o w =
    if w.quiescing || (is_connecting w.status || (w.connected && is_on w.status))
    then w
    else if o.has_token
    then (let begun =
          set_status o.now connecting none
            (set_desired running (record w { manually_paused = false })) in
        record begun { login_attempt = suc begun.login_attempt; handled_attempt = none })
    else set_status o.now login_required (some "Refresh token is missing or incomplete.") w

-- `clearRetryTimers` and `resetSessionConflict`
abbrev pub end_retries : Worker → Worker
end_retries w = reset_conflict (clear_timers w)

unfoldable pub stop_now : Outside → Worker → Worker
stop_now o w =
    let rested = record (clear_health (end_retries (clear_farming_selection false w))) {
      held = false;
    } in
    let off = record (report_games no_games (set_desired stopped rested)) { connected = false } in
    set_status o.now disconnected none off

-- `beginShutdown`, which runs at once.
unfoldable pub begin_shutdown : Outside → Worker → Worker
begin_shutdown o w =
    if w.quiescing
    then w
    else end_retries (
        clear_farming_selection false (record w {
          quiescing = true;
          farming_interrupted = is_some w.farming_app_ids && not o.farming_resumes;
        }))

unfoldable pub shutdown_now : Outside → Worker → Worker
shutdown_now o w =
    let asked = if w.farming_interrupted then set_desired paused w else w in
    set_status o.now disconnected none
      (record (report_games no_games (end_retries asked)) { connected = false })

-- `pauseNow`, with the three answers of `shouldPause`.
unfoldable pub pause_now : Outside → Bool → Bool → Bool → Worker → Worker
pause_now o first second third w =
    let rested = clear_health (end_retries (clear_farming_selection false w)) in
    let asked = set_desired paused (record rested { manually_paused = true }) in
    if first
    then (if second
        then (if third
            then set_status o.now paused_manual none (report_games no_games asked)
            else asked)
        else rested)
    else w

-- `forceDisconnectForSafety`, where nothing that it calls fails.
unfoldable pub force_disconnect : Outside → String → Bool → Bool → Worker → Worker
force_disconnect o message first second w =
    let rested = end_retries (clear_farming_selection false w) in
    let asked = set_desired paused (clear_health (record rested { manually_paused = true })) in
    if first
    then (if second
        then set_status o.now paused_manual (some message)
            (record (report_games no_games asked) { connected = false })
        else asked)
    else w

unfoldable pub mark_attention : Outside → String → Worker → Worker
mark_attention o message w =
    let asked =
      set_desired paused (record (end_retries w) { connected = false; manually_paused = true }) in
    set_status o.now status_error (some message) (record asked {
      health = record {
        next_retry_at = none;
        retry_attempt = 0;
        error_class = terminal_error;
        error_code = none;
        recovery_action = attention;
      };
    })

abbrev pub start_or_apply : Outside → Worker → Worker
start_or_apply o w = if w.connected then apply_games o true w else start_now o w

unfoldable pub resume_now : Outside → Worker → Worker
resume_now o w =
    start_or_apply o
      (set_desired running (record w { manually_paused = false; awaiting_farming = false }))

unfoldable pub resume_for_farming : Outside → Worker → Worker
resume_for_farming o w = start_or_apply o (
    set_desired running
      (record w { manually_paused = false; farming_app_ids = some []; awaiting_farming = true }))

-- `updateAccountNow`: the row's intent and title are what this worker reads of it.
unfoldable pub update_account : Outside → Desired → Bool → Worker → Worker
update_account o d titled w =
    let rested = if is_running d then w else clear_health (end_retries w) in
    let changed = record rested { intent_generation = suc w.intent_generation } in
    let known = record (if same_desired w.desired d then w else changed) {
      desired = d;
      titled = titled;
    } in
    if w.quiescing then known else apply_games o true known

-- `applyFarmingSelection`, with the three answers of `shouldApply`; where it throws, nothing changes.
unfoldable pub apply_farming : Outside → List ℕ → Bool → Bool → Bool → Worker → Worker
apply_farming o app_ids first second third w =
    let chosen = record w { farming_app_ids = some app_ids; awaiting_farming = false } in
    if not first || (not w.connected || (w.quiescing || (w.manually_paused || w.blocked)))
    then w
    else elim (enforce_limit w.titled (record { titled = false; app_ids = app_ids })) [
      | none ↦ w
      | some p ↦ if second then apply_games o third chosen else clear_farming_selection false chosen
    ]
