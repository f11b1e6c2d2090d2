-- ===== src/Worker/Operations.antt =====
-- apps/server/src/steam/worker.ts: every operation of a worker as one step. `runSerial` refuses all but
-- the shutdown once the worker quiesces; an event of the client is of the intent's generation in which
-- it came in; a timer's callback clears the timer and queues a retry, which runs later.
use steam_bee.Common.{
  ℕ, Bool, false, not, ◌||◌, Option, none, List, [], ◌∷◌, String, if◌then◌else◌, ◌==◌,
}
use steam_bee.Common.Int.{ℤ}
use steam_bee.Retry.{Thrown, no_error, no_action}
use steam_bee.Worker.{
  Status, idle, Desired, Worker, Outside, no_games, is_running, clear_farming_selection,
}
use steam_bee.Worker.Commands.{
  start_now, stop_now, begin_shutdown, shutdown_now, pause_now, force_disconnect, mark_attention,
  resume_now, resume_for_farming, update_account, apply_farming,
}
use steam_bee.Worker.Events.{logged_on, block, unblock, lost, failed, retry_conflict, reconnect}

pub data Command : Type 0 where
  start : Command
  stop : Command
  pause : Bool → Bool → Bool → Command
  force : String → Bool → Bool → Command
  attend : String → Command
  resume : Command
  resume_farming : Command
  update : Desired → Bool → Command
  farm : List ℕ → Bool → Bool → Bool → Command

pub data Event : Type 0 where
  logged_on_event : Event
  playing_state : Bool → Event
  disconnected_event : Option ℤ → Option String → Event
  error_event : Thrown → String → Event

pub data Operation : Type 0 where
  command : Command → Operation
  event : ℕ → Event → Operation
  reconnect_fires : Operation
  conflict_fires : Operation
  reconnect_runs : ℕ → Operation
  conflict_runs : ℕ → Bool → Operation
  halts_farming : Bool → Operation
  shutdown_begins : Operation
  shutdown_runs : Operation

unfoldable pub do_command : Outside → Command → Worker → Worker
do_command o start w = start_now o w
do_command o stop w = stop_now o w
do_command o (pause first second third) w = pause_now o first second third w
do_command o (force message first second) w = force_disconnect o message first second w
do_command o (attend message) w = mark_attention o message w
do_command o resume w = resume_now o w
do_command o resume_farming w = resume_for_farming o w
do_command o (update d titled) w = update_account o d titled w
do_command o (farm app_ids first second third) w = apply_farming o app_ids first second third w

unfoldable pub do_event : Outside → Event → Worker → Worker
do_event o logged_on_event w = if is_running w.desired then logged_on o w else w
do_event o (playing_state is_blocked) w = if is_blocked then block o w else unblock o w
do_event o (disconnected_event eresult message) w = lost o eresult message w
do_event o (error_event value message) w = failed o value message w

unfoldable pub perform : Outside → Operation → Worker → Worker
perform o (command c) w = if w.quiescing then w else do_command o c w
perform o (event g e) w =
    if w.quiescing || not (g == w.intent_generation) then w else do_event o e w
perform o reconnect_fires w = record w { reconnect_timer = none }
perform o conflict_fires w = record w { conflict_timer = none }
perform o (reconnect_runs g) w = reconnect o g w
perform o (conflict_runs g resets) w = retry_conflict o g resets w
perform o (halts_farming keeps_awaiting) w = clear_farming_selection keeps_awaiting w
perform o shutdown_begins w = begin_shutdown o w
perform o shutdown_runs w = shutdown_now o w

unfoldable pub perform_all : List (Outside × Operation) → Worker → Worker
perform_all [] w = w
perform_all ((o, op) ∷ ops) w = perform_all ops (perform o op w)

-- A worker that is made of the row of its account.
abbrev pub new_worker : Status → Desired → Bool → Worker
new_worker status d titled = record {
  status = status;
  last_error = none;
  latest_boost_started_at = none;
  desired = d;
  titled = titled;
  connected = false;
  manually_paused = false;
  blocked = false;
  farming_app_ids = none;
  awaiting_farming = false;
  farming_interrupted = false;
  reported = no_games;
  mode = idle;
  reconnect_timer = none;
  conflict_timer = none;
  reconnect_attempt = 0;
  conflict_attempt = 0;
  conflict_mode = none;
  login_attempt = 0;
  handled_attempt = none;
  quiescing = false;
  intent_generation = 0;
  health = record {
    next_retry_at = none;
    retry_attempt = 0;
    error_class = no_error;
    error_code = none;
    recovery_action = no_action;
  };
  held = false;
}
