-- ===== src/Worker.antt =====
-- apps/server/src/steam/worker.ts: `SteamWorker`, which keeps the Steam session of an account. Its
-- operations are serialized by `runSerial`, so each is one step here; writes to the database succeed.
-- The writes of the worker to its account's row are fields of its record. Logging, the community
-- session, the credentials and the emitted status are left out.
pub mod Commands
pub mod Events
pub mod Operations
pub mod Sound
pub mod Rest
pub mod Delays
pub mod Kept
mod Tests
use steam_bee.Common.{
  ℕ, suc, ◌+◌, ◌*◌, ◌^◌, min, max, Bool, true, false, not, ◌&&◌, ◌||◌, Option, none, some, List, [],
  ◌∷◌, String, ltb, leb, ◌==◌, if◌then◌else◌, length,
}
use steam_bee.Common.Int.{ℤ}
use steam_bee.Retry.{
  ErrorClass, no_error, session_replaced, RecoveryAction, no_action, wait, retry, RetryDecision,
  session_conflict_delay,
}

pub data Status : Type 0 where
  disconnected connecting online boosting paused_manual paused_other_session : Status
  login_required reconnecting status_error : Status

pub data Desired : Type 0 where
  running paused stopped : Desired

pub data ActivityMode : Type 0 where
  idle manual farming : ActivityMode

pub data ConflictSource : Type 0 where
  login live : ConflictSource

-- A row of `accountHealthState`.
pub record Health : Type 0 where
  pub next_retry_at : Option ℕ
  pub retry_attempt : ℕ
  pub error_class : ErrorClass
  pub error_code : Option ℤ
  pub recovery_action : RecoveryAction

-- What `gamesPlayed` is given: whether a title comes first, and the games.
pub record Payload : Type 0 where
  pub titled : Bool
  pub app_ids : List ℕ

-- The timers hold what their callbacks captured: the generation of the intent, and `resetCycle`.
pub record Worker : Type 0 where
  pub status : Status
  pub last_error : Option String
  pub latest_boost_started_at : Option ℕ
  pub desired : Desired
  pub titled : Bool
  pub connected : Bool
  pub manually_paused : Bool
  pub blocked : Bool
  pub farming_app_ids : Option (List ℕ)
  pub awaiting_farming : Bool
  pub farming_interrupted : Bool
  pub reported : Payload
  pub mode : ActivityMode
  pub reconnect_timer : Option ℕ
  pub conflict_timer : Option (ℕ × Bool)
  pub reconnect_attempt : ℕ
  pub conflict_attempt : ℕ
  pub conflict_mode : Option ConflictSource
  pub login_attempt : ℕ
  pub handled_attempt : Option ℕ
  pub quiescing : Bool
  pub intent_generation : ℕ
  pub health : Health
  pub held : Bool

-- What an operation finds outside: the clock, the random part of a delay
-- (`Math.floor(Math.random() * 2500)`, so below 2500), whether a token is stored, the enabled games, and whether farming resumes after an interruption.
pub record Outside : Type 0 where
  pub now : ℕ
  pub jitter : ℕ
  pub has_token : Bool
  pub enabled_games : List ℕ
  pub farming_resumes : Bool

abbrev pub no_games : Payload
no_games = record { titled = false; app_ids = [] }

abbrev pub is_empty : Payload → Bool
is_empty p = not p.titled && (length p.app_ids == 0)

abbrev pub is_running : Desired → Bool
is_running running = true
is_running paused = false
is_running stopped = false

abbrev pub same_desired : Desired → Desired → Bool
same_desired running d = is_running d
same_desired paused d = elim d [ paused ↦ true | _ ↦ false ]
same_desired stopped d = elim d [ stopped ↦ true | _ ↦ false ]

abbrev pub is_some {ℓ} : {A : Type ℓ} → Option A → Bool
is_some none = false
is_some (some a) = true

abbrev pub is_boosting : Status → Bool
is_boosting status = elim status [ boosting ↦ true | _ ↦ false ]

abbrev pub is_handled : Option ℕ → ℕ → Bool
is_handled none attempt = false
is_handled (some n) attempt = n == attempt

-- `getActivity`
unfoldable pub get_activity : Worker → ActivityMode × List ℕ
get_activity w =
    if not w.connected || (w.quiescing || (w.manually_paused || w.blocked))
    then (idle, [])
    else if is_some w.farming_app_ids
    then (farming, if is_farming w.mode then w.reported.app_ids else [])
    else (w.mode, w.reported.app_ids)
  where
    is_farming : ActivityMode → Bool
    is_farming m = elim m [ farming ↦ true | _ ↦ false ]

unfoldable pub report_games : Payload → Worker → Worker
report_games p w = record w {
  reported = p;
  mode = if is_some w.farming_app_ids then farming else if is_empty p then idle else manual;
}

unfoldable pub clear_farming_selection : Bool → Worker → Worker
clear_farming_selection keeps_awaiting w = record w {
  farming_app_ids = none;
  awaiting_farming = keeps_awaiting && w.awaiting_farming;
}

-- `setDesiredState`
unfoldable pub set_desired : Desired → Worker → Worker
set_desired d w = record w {
  desired = d;
  intent_generation =
      if same_desired w.desired d then w.intent_generation else suc w.intent_generation;
}

abbrev pub or_now : Option ℕ → ℕ → ℕ
or_now none now = now
or_now (some t) now = t

-- `setStatus`, without the early return, which keeps the status from being emitted again.
unfoldable pub set_status : ℕ → Status → Option String → Worker → Worker
set_status now status message w = record w {
  status = status;
  last_error = message;
  latest_boost_started_at =
      if is_boosting status then some (or_now w.latest_boost_started_at now) else none;
}

unfoldable pub clear_health : Worker → Worker
clear_health w = record w {
  health = record {
    next_retry_at = none;
    retry_attempt = 0;
    error_class = no_error;
    error_code = none;
    recovery_action = no_action;
  };
}

-- `clearRetryTimers`
unfoldable pub clear_timers : Worker → Worker
clear_timers w = record w { reconnect_timer = none; conflict_timer = none }

unfoldable pub reset_conflict : Worker → Worker
reset_conflict w = record w {
  conflict_attempt = 0;
  conflict_mode = none;
  handled_attempt = none;
  blocked = false;
}

-- `gameSelectionLimit`
abbrev pub game_limit : Bool → ℕ
game_limit titled = if titled then 31 else 32

-- `enforceGameLimit`: `none` is the error.
unfoldable pub enforce_limit : Bool → Payload → Option Payload
enforce_limit titled p = if ltb (game_limit titled) (length p.app_ids) then none else some p

-- `selectedGamesPayload`
unfoldable pub selected_games : Outside → Worker → Option Payload
selected_games o w = elim w.farming_app_ids [
  | some app_ids ↦ enforce_limit w.titled (record { titled = false; app_ids = app_ids })
  | none ↦
      if w.awaiting_farming
      then some no_games
      else enforce_limit w.titled (record { titled = w.titled; app_ids = o.enabled_games })
]

unfoldable pub play : Outside → Bool → Option Payload → Worker → Worker
play o applies none w = w
play o applies (some p) w =
    if w.quiescing || not applies
    then w
    else set_status o.now (if is_empty p then online else boosting) none (report_games p w)

-- `applyGames`; where the limit is exceeded it throws, and the worker stays as it is.
unfoldable pub apply_games : Outside → Bool → Worker → Worker
apply_games o applies w =
    if w.quiescing || not w.connected
    then w
    else if w.manually_paused
    then set_status o.now paused_manual none (report_games no_games w)
    else if w.blocked
    then set_status o.now paused_other_session none (report_games no_games w)
    else play o applies (selected_games o w) w

abbrev pub backoff : ℕ → ℕ
backoff attempt = min (15 * 60_000) (10_000 * 2 ^ min attempt 6)

-- `scheduleReconnect`
unfoldable pub reconnect_delay : ℕ → ℕ → ℕ
reconnect_delay attempt minimum = max (backoff attempt) minimum

unfoldable pub schedule_reconnect : Outside → RetryDecision → Worker → Worker
schedule_reconnect o d w =
    let attempt = suc w.reconnect_attempt in
    record (reset_conflict (clear_timers w)) {
      reconnect_attempt = attempt;
      reconnect_timer = some w.intent_generation;
      health = record {
        next_retry_at = some (o.now + reconnect_delay attempt d.minimum_delay_ms + o.jitter);
        retry_attempt = attempt;
        error_class = d.error_class;
        error_code = d.error_code;
        recovery_action = d.recovery_action;
      };
    }

-- `registerSessionConflict` and `scheduleSessionConflictRetry`
unfoldable pub register_conflict : Outside → ConflictSource → Option ℤ → Worker → Worker
register_conflict o source code w =
    let attempt = suc w.conflict_attempt in
    let cools_down = leb 3 attempt in
    record w {
      reconnect_timer = none;
      conflict_timer = some (w.intent_generation, cools_down);
      conflict_mode = some source;
      conflict_attempt = attempt;
      health = record {
        next_retry_at = some (o.now + session_conflict_delay attempt);
        retry_attempt = attempt;
        error_class = session_replaced;
        error_code = code;
        recovery_action = if cools_down then wait else retry;
      };
    }
