-- ===== src/Boosting.antt =====
-- apps/server/src/steam/boost-session-tracker.ts: the sessions that are kept of what each account plays.
-- The table is a list of rows, the last one first; accounts and presets are numbers. Events are left out.
pub mod Normal
pub mod Rows
pub mod Tracked
pub mod Recorded
mod Tests
use steam_bee.Common.{
  ℕ, max, Bool, true, false, not, ◌&&◌, ◌||◌, Option, none, some, List, [], ◌∷◌, leb, ◌==◌,
  if◌then◌else◌, length, keep_if, map,
}
use steam_bee.Common.Maps.{lookup, insert}
use steam_bee.Worker.{Status, disconnected, ActivityMode, idle, manual, farming, is_boosting}

pub data StopReason : Type 0 where
  stopped_as : Status → StopReason
  selection_changed : StopReason
  stopped_idle : StopReason
  interrupted : StopReason

-- A row of `boostSession`.
pub record Session : Type 0 where
  pub account : ℕ
  pub preset : Option ℕ
  pub app_ids : List ℕ
  pub started_at : ℕ
  pub ended_at : Option ℕ
  pub stop_reason : Option StopReason
  pub last_seen_at : Option ℕ

-- The sessions, and the active preset of each account.
pub record Tables : Type 0 where
  pub sessions : List Session
  pub accounts : List (ℕ × Option ℕ)

-- `BoostActivitySnapshot`
pub record Activity : Type 0 where
  pub mode : Option ActivityMode
  pub active_app_ids : Option (List ℕ)

-- The clock, whether the account's active preset exists, and its enabled games.
pub record Outside : Type 0 where
  pub now : ℕ
  pub preset_exists : Bool
  pub enabled_games : List ℕ

abbrev pub is_open : ℕ → Session → Bool
is_open account s = (s.account == account) && is_none s.ended_at
  where
    is_none : Option ℕ → Bool
    is_none none = true
    is_none (some t) = false

-- `new Set(…)`, and the sort.
abbrev pub distinct : List ℕ → List ℕ
distinct [] = []
distinct (x ∷ xs) = x ∷ keep_if (λ y. not (y == x)) (distinct xs)

abbrev pub place : ℕ → List ℕ → List ℕ
place x [] = x ∷ []
place x (y ∷ ys) = let rest = place x ys in if leb x y then x ∷ y ∷ ys else y ∷ rest

abbrev pub sort : List ℕ → List ℕ
sort [] = []
sort (x ∷ xs) = place x (sort xs)

-- `normalizeAppIds`
unfoldable pub normalize_app_ids : List ℕ → List ℕ
normalize_app_ids app_ids = sort (distinct app_ids)

abbrev pub same_ids : List ℕ → List ℕ → Bool
same_ids [] [] = true
same_ids [] (y ∷ ys) = false
same_ids (x ∷ xs) [] = false
same_ids (x ∷ xs) (y ∷ ys) = (x == y) && same_ids xs ys

abbrev pub same_preset : Option ℕ → Option ℕ → Bool
same_preset none none = true
same_preset (some p) (some q) = p == q
same_preset none (some q) = false
same_preset (some p) none = false

abbrev pub is_farming : Option ActivityMode → Bool
is_farming mode = elim mode [ none ↦ false | some m ↦ elim m [ farming ↦ true | _ ↦ false ] ]

abbrev pub is_idle : Option ActivityMode → Bool
is_idle mode = elim mode [ none ↦ false | some m ↦ elim m [ idle ↦ true | _ ↦ false ] ]

abbrev pub end_row : StopReason → ℕ → Session → Session
end_row reason at s = record s { ended_at = some at; stop_reason = some reason }

-- `endBoostSession`
unfoldable pub end_boost_session : ℕ → StopReason → ℕ → List Session → List Session
end_boost_session account reason at =
    map (λ s. if is_open account s then end_row reason at s else s)

-- The selection that is played.
unfoldable pub played_app_ids : Outside → Activity → List ℕ
played_app_ids o a = elim a.active_app_ids [
  | some app_ids ↦ normalize_app_ids app_ids
  | none ↦ if is_farming a.mode then [] else normalize_app_ids o.enabled_games
]

abbrev pub is_unchanged : Option ℕ → List ℕ → List Session → Bool
is_unchanged preset app_ids [] = false
is_unchanged preset app_ids (s ∷ []) =
    same_preset s.preset preset && same_ids (normalize_app_ids s.app_ids) app_ids
is_unchanged preset app_ids (s ∷ r ∷ rs) = false

-- The insertion, after the open sessions have ended.
unfoldable pub open_session : ℕ → ℕ → Option ℕ → List ℕ → List Session → List Session
open_session account now preset app_ids sessions =
    if is_unchanged preset app_ids (keep_if (is_open account) sessions)
    then sessions
    else record {
      account = account;
      preset = preset;
      app_ids = app_ids;
      started_at = now;
      ended_at = none;
      stop_reason = none;
      last_seen_at = some now;
    }
      ∷ end_boost_session account selection_changed now sessions

-- `startBoostSession`
unfoldable pub start_boost_session : Outside → ℕ → Activity → Tables → Tables
start_boost_session o account a t = elim (lookup account t.accounts) [
  | none ↦ t
  | some active ↦
      let preset = if is_farming a.mode then none else active in
      let known = if o.preset_exists then preset else none in
      record {
        sessions = open_session account o.now known (played_app_ids o a) t.sessions;
        accounts =
            if o.preset_exists || is_farming a.mode
            then t.accounts
            else insert account none t.accounts;
      }
]

-- `trackBoostSession`
unfoldable pub track_boost_session : Outside → ℕ → Status → Activity → Tables → Tables
track_boost_session o account status a t =
    if is_boosting status && not (is_idle a.mode)
    then start_boost_session o account a t
    else record t {
      sessions =
          end_boost_session account
            (if is_idle a.mode && is_boosting status then stopped_idle else stopped_as status) o.now
            t.sessions;
    }

abbrev pub is_open_row : Session → Bool
is_open_row s = is_open s.account s

-- `markOpenBoostSessionsSeen`
unfoldable pub mark_seen : ℕ → List Session → List Session
mark_seen now = map (λ s. if is_open_row s then record s { last_seen_at = some now } else s)

abbrev pub or_start : Option ℕ → ℕ → ℕ
or_start none start = start
or_start (some t) start = t

-- `closeInterruptedBoostSessions`
unfoldable pub close_interrupted : List Session → List Session
close_interrupted = map (λ s.
    if is_open_row s
    then end_row interrupted (max s.started_at (or_start s.last_seen_at s.started_at)) s
    else s)

pub data Operation : Type 0 where
  track : Outside → ℕ → Status → Activity → Operation
  seen : ℕ → Operation
  restarted : Operation

unfoldable pub operate : Operation → Tables → Tables
operate (track o account status a) t = track_boost_session o account status a t
operate (seen now) t = record t { sessions = mark_seen now t.sessions }
operate restarted t = record t { sessions = close_interrupted t.sessions }

unfoldable pub operate_all : List Operation → Tables → Tables
operate_all [] t = t
operate_all (op ∷ ops) t = operate_all ops (operate op t)
