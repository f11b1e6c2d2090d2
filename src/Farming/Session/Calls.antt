-- ===== src/Farming/Session/Calls.antt =====
-- apps/server/src/farming/controller.ts: the asynchronous part of `FarmingController`. A task waits at
-- an `await`; `resume` takes it to its next one. `catch` is the answer `none`.
use Prim.Native.Nat.{Ordering}
use steam_bee.Common.{
  ℕ, ◌-◌, ◌*◌, Bool, true, false, not, ◌&&◌, ◌||◌, Option, none, some, List, [], ◌∷◌, String, leb,
  ◌==◌, if◌then◌else◌, map,
}
use steam_bee.Farming.{
  phase_stopped, warming, farming, completed, failed, account_unavailable, farming_failed,
  badge_scan_failed, resumed, no_eligible_games, Game, Availability, Discovery, is_active,
}
use steam_bee.Farming.Games.{or_else, is_eligible, select, Selection}
use steam_bee.Farming.Session.{Session, halt, credit_playtime, update_games, filter_games}

-- Where a task waits: for the answer of `availability` (with `forceScan`), `begin`, `discover`,
-- `apply`, the `end` of a completed worker, the `end` that cleans up, or the `discover` of `scan`.
pub data Stage : Type 0 where
  asks : Bool → Stage
  begins : Availability → Stage
  discovers : Availability → Stage
  applies : List ℕ → Bool → Stage
  ends : Stage
  cleans_up : Stage
  scans : Stage

pub data Origin : Type 0 where
  ticked : Origin
  started : Bool → Origin

pub record Task : Type 0 where
  pub generation : ℕ
  pub origin : Origin
  pub stage : Stage

-- What the adapter answers when it does not fail.
pub data Answer : Type 0 where
  availability_is : Availability → Answer
  discovery_is : Discovery → Answer
  is_done : Answer

abbrev pub Moved : Type 0
Moved = Session × Option Task

-- What `start` does after its `advance`.
unfoldable pub settle : Origin → Session → Session
settle ticked s = s
settle (started is_resumed) s =
    if is_active s.phase
    then record s { remembered = some true; reason = if is_resumed then some resumed else s.reason }
    else s

unfoldable pub is_current : Bool → Session → Task → Bool
is_current shutting_down s t = not shutting_down && (s.generation == t.generation)

-- The task has returned.
unfoldable pub returns : Task → Session → Moved
returns t s = (settle t.origin s, none)

abbrev pub waits : Stage → Task → Session → Moved
waits stage t s = (s, some (record t { stage = stage }))

-- The `catch` of `advance`, when the task is current.
unfoldable pub fail : Task → Session → Moved
fail t s =
    let halted = record (halt farming_failed s) { phase = failed } in
    if s.applied then waits cleans_up t halted else returns t halted

-- No task runs when the timer is set, so its callback waits for the next turn.
unfoldable pub play : ℕ → List ℕ → Bool → Task → Session → Moved
play now app_ids is_warming t s = returns t (record s {
  applied = true;
  active_app_ids = app_ids;
  phase = if is_warming then warming else farming;
  active_since = some now;
  timer = some t.generation;
})

unfoldable pub equals : List ℕ → List ℕ → Bool
equals [] [] = true
equals [] (y ∷ ys) = false
equals (x ∷ xs) [] = false
equals (x ∷ xs) (y ∷ ys) = (x == y) && equals xs ys

unfoldable pub complete : Bool → Task → Session → Moved
complete is_empty t s =
    let done = record s {
      phase = completed;
      remembered = some false;
      reason = if is_empty then some no_eligible_games else none;
      active_app_ids = [];
      active_since = none;
    } in
    if s.applied then waits ends t done else returns t done

abbrev pub has_no_eligible : List Game → Bool
has_no_eligible [] = false
has_no_eligible (game ∷ games) = lacks (game ∷ games)
  where
    lacks : List Game → Bool
    lacks [] = true
    lacks (g ∷ gs) = not (is_eligible g) && lacks gs

unfoldable pub play_ids : ℕ → Bool → List ℕ → Task → Session → Moved
play_ids now is_warming [] t s = complete (has_no_eligible s.games) t s
play_ids now is_warming (app_id ∷ app_ids) t s =
    if equals (app_id ∷ app_ids) s.active_app_ids
    then play now (app_id ∷ app_ids) is_warming t s
    else waits (applies (app_id ∷ app_ids) is_warming) t (record s { applied = true })

unfoldable pub play_selection : ℕ → Selection → Task → Session → Moved
play_selection now selection t s =
    play_ids now selection.is_warming (map (λ (game : Game). game.app_id) selection.games) t s

abbrev pub scan_interval : ℕ
scan_interval = 5 * 60_000

unfoldable pub is_due : ℕ → Option ℕ → Bool
is_due now none = true
is_due now (some at) = leb scan_interval (now - at)

module _ (compare_names : String → String → Ordering) (now : ℕ) (shutting_down : Bool) where
  unfoldable pub select_and_play : Availability → Task → Session → Moved
  select_and_play availability t s =
      let filtered = filter_games compare_names now shutting_down s in
      play_selection now (select filtered.config availability.game_limit filtered.games) t filtered

  unfoldable pub scan_or_play : Bool → Availability → Task → Session → Moved
  scan_or_play is_forced availability t s =
      let credited = credit_playtime now s in
      if is_forced || is_due now credited.scanned_at
      then waits (discovers availability) t credited
      else select_and_play availability t credited

  unfoldable pub after_availability : Bool → Availability → Task → Session → Moved
  after_availability is_forced availability t s =
      let asked = record s {
        can_start = availability.is_allowed;
        game_limit = availability.game_limit;
      } in
      if availability.is_allowed
      then if is_forced
        then waits (begins availability) t (record asked { applied = true })
        else scan_or_play false availability t asked
      else let halted = halt (or_else availability.reason account_unavailable) asked in
        if s.applied then waits cleans_up t halted else returns t halted

  -- An answer of another call than the one that is waited for resumes nothing.
  unfoldable pub proceed : Stage → Answer → Task → Session → Moved
  proceed (asks is_forced) (availability_is a) t s = after_availability is_forced a t s
  proceed (asks is_forced) (discovery_is d) t s = (s, some t)
  proceed (asks is_forced) is_done t s = (s, some t)
  proceed (begins a) (availability_is b) t s = (s, some t)
  proceed (begins a) (discovery_is d) t s = (s, some t)
  proceed (begins a) is_done t s = scan_or_play true a t s
  proceed (discovers a) (availability_is b) t s = (s, some t)
  proceed (discovers a) (discovery_is d) t s =
      select_and_play a t (update_games compare_names now shutting_down d s)
  proceed (discovers a) is_done t s = (s, some t)
  proceed (applies app_ids is_warming) (availability_is b) t s = (s, some t)
  proceed (applies app_ids is_warming) (discovery_is d) t s = (s, some t)
  proceed (applies app_ids is_warming) is_done t s = play now app_ids is_warming t s
  proceed ends a t s = returns t s
  proceed cleans_up a t s = returns t s
  proceed scans (availability_is b) t s = (s, some t)
  proceed scans (discovery_is d) t s =
      returns t
        (record (update_games compare_names now shutting_down d s) { phase = phase_stopped })
  proceed scans is_done t s = (s, some t)

  unfoldable pub throw : Stage → Task → Session → Moved
  throw stage t s = elim stage [
    | scans ↦ returns t (record s { phase = failed; reason = some badge_scan_failed })
    | _ ↦ fail t s
  ]

  -- A task whose generation has passed returns at its next step.
  unfoldable pub resume : Option Answer → Task → Session → Moved
  resume answer t s =
      if is_current shutting_down s t
      then elim answer [ none ↦ throw t.stage t s | some a ↦ proceed t.stage a t s ]
      else returns t s
