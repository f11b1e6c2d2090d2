-- ===== src/Worker/Events.antt =====
-- apps/server/src/steam/worker.ts: the events of the Steam client and the retries.
use steam_bee.Common.{
  ℕ, Bool, true, false, not, ◌&&◌, Option, none, some, String, if◌then◌else◌, ◌==◌,
}
use steam_bee.Common.Int.{ℤ, int}
use steam_bee.Retry.{
  ErrorClass, authentication, session_replaced, RetryDecision, Thrown, number, anything,
  classify_steam_failure,
}
use steam_bee.Worker.{
  disconnected, online, paused_other_session, login_required, reconnecting, status_error, paused,
  ConflictSource, login, live, Payload, Worker, Outside, no_games, is_running, is_some, is_handled,
  report_games, clear_farming_selection, set_desired, set_status, clear_health, reset_conflict,
  selected_games, apply_games, schedule_reconnect, register_conflict,
}
use steam_bee.Worker.Commands.{end_retries, start_now}

abbrev pub is_replaced : ErrorClass → Bool
is_replaced c = elim c [ session_replaced ↦ true | _ ↦ false ]

abbrev pub is_authentication : ErrorClass → Bool
is_authentication c = elim c [ authentication ↦ true | _ ↦ false ]

-- `handledConflictLoginAttemptId === loginAttemptId`
abbrev pub has_handled : Worker → Bool
has_handled w = is_handled w.handled_attempt w.login_attempt

-- `keepsRunningForFarming`
abbrev pub keeps_running : Outside → RetryDecision → Worker → Bool
keeps_running o d w =
    not d.terminal
    && (not (is_replaced d.error_class) && (not (has_handled w) && o.farming_resumes))

unfoldable pub logged_on : Outside → Worker → Worker
logged_on o w =
    let fresh = clear_health (end_retries (record w { connected = true; reconnect_attempt = 0 })) in
    if fresh.quiescing then fresh else apply_games o true (set_status o.now online none fresh)

unfoldable pub block : Outside → Worker → Worker
block o w =
    let cleared = clear_farming_selection false (record w { blocked = true }) in
    let asked =
      if is_some w.farming_app_ids
      then set_desired paused (record cleared { manually_paused = true })
      else cleared in
    let shown = set_status o.now paused_other_session none (report_games no_games asked) in
    if not w.blocked && is_running shown.desired then register_conflict o live none shown else shown

unfoldable pub unblock : Outside → Worker → Worker
unblock o w =
    let free = record w { blocked = false } in
    if w.blocked && (not w.manually_paused && is_running w.desired)
    then apply_games o true (clear_health (reset_conflict (record free { conflict_timer = none })))
    else free

unfoldable pub terminal_failure : Outside → RetryDecision → Option String → Worker → Worker
terminal_failure o d message w =
    let ended = record (end_retries w) {
      connected = false;
      blocked = false;
      health = record {
        next_retry_at = none;
        retry_attempt = w.reconnect_attempt;
        error_class = d.error_class;
        error_code = d.error_code;
        recovery_action = d.recovery_action;
      };
    } in
    set_status o.now (if is_authentication d.error_class then login_required else status_error)
      message (set_desired paused ended)

unfoldable pub login_conflict : Outside → RetryDecision → Worker → Worker
login_conflict o d w =
    if has_handled w
    then w
    else register_conflict o login d.error_code (
        set_status o.now reconnecting none
          (record w { handled_attempt = some w.login_attempt; connected = false; blocked = false }))

-- What both failures do first: farming ends, or waits for the reconnect.
unfoldable pub lose_connection : Outside → RetryDecision → Worker → Worker
lose_connection o d w =
    let cleared = record (clear_farming_selection false w) { connected = false } in
    if is_some w.farming_app_ids
    then (if keeps_running o d w
        then record cleared { awaiting_farming = true }
        else set_desired paused (record cleared { manually_paused = true }))
    else cleared

-- `eresult` is `undefined` or a number.
abbrev pub thrown_of : Option ℤ → Thrown
thrown_of none = anything
thrown_of (some z) = number (int z)

abbrev pub or_text : Option String → String → String
or_text none text = text
or_text (some message) text = message

unfoldable pub lost : Outside → Option ℤ → Option String → Worker → Worker
lost o eresult message w =
    let d = classify_steam_failure (thrown_of eresult) in
    let gone = lose_connection o d w in
    if has_handled w
    then gone
    else if is_replaced d.error_class
    then login_conflict o d gone
    else if d.terminal
    then terminal_failure o d (some (or_text message "Steam disconnected permanently.")) gone
    else if is_running gone.desired
    then schedule_reconnect o d (set_status o.now reconnecting none gone)
    else set_status o.now disconnected none gone

unfoldable pub failed : Outside → Thrown → String → Worker → Worker
failed o value message w =
    let d = classify_steam_failure value in
    let gone = lose_connection o d w in
    if has_handled w
    then gone
    else if is_replaced d.error_class
    then login_conflict o d gone
    else if d.terminal
    then terminal_failure o d (some message) gone
    else (let shown = set_status o.now status_error (some message) gone in
        if is_running gone.desired then schedule_reconnect o d shown else shown)

unfoldable pub retry_blocked : Outside → Option Payload → Worker → Worker
retry_blocked o none w = w
retry_blocked o (some p) w =
    if w.quiescing then w else register_conflict o live none (report_games p w)

-- `retryLiveSessionConflict`
unfoldable pub retry_live : Outside → Worker → Worker
retry_live o w =
    if w.blocked
    then retry_blocked o (selected_games o w) w
    else apply_games o true (clear_health (reset_conflict w))

abbrev pub is_live : Option ConflictSource → Bool
is_live none = false
is_live (some login) = false
is_live (some live) = true

-- A retry of the intent with the generation `g`.
abbrev pub is_due : ℕ → Worker → Bool
is_due g w = not w.quiescing && (is_running w.desired && (w.intent_generation == g))

unfoldable pub retry_conflict : Outside → ℕ → Bool → Worker → Worker
retry_conflict o g resets w =
    let cycled = record w { conflict_attempt = if resets then 0 else w.conflict_attempt } in
    if is_due g w
    then (if is_live w.conflict_mode then retry_live o cycled else start_now o cycled)
    else w

unfoldable pub reconnect : Outside → ℕ → Worker → Worker
reconnect o g w = if is_due g w then start_now o w else w
