-- ===== src/Farming/Session.antt =====
-- apps/server/src/farming/controller.ts: `FarmingController` for one account. An asynchronous call
-- runs to its next `await`; there it is a `Task`, which the answer of the adapter resumes. A session
-- is the account's entry of `sessions`; `remembered` is what `adapter.remember` was last given. The
-- adapter gives all its optional operations. What it does when the controller calls it, and the
-- names that it compares, come from outside.
pub mod Calls
pub mod Steps
use Prim.Native.Nat.{Ordering}
use steam_bee.Common.{
  ℕ, suc, ◌+◌, ◌-◌, ◌*◌, max, Bool, true, false, not, ◌&&◌, ◌||◌, Option, none, some, List, [], ◌∷◌,
  foldl, String, ltb, leb, ◌==◌, if◌then◌else◌, keep_if, map,
}
use steam_bee.Common.Maps.{lookup, insert}
use steam_bee.Farming.{
  Order, card_value, Phase, phase_stopped, scanning, warming, farming, completed, blocked, failed,
  Reason, stopped, account_unavailable, farming_failed, resumed, no_eligible_games, Config, Game,
  Availability, Discovery, is_active, is_resumable, other,
}
use steam_bee.Farming.Games.{
  or_else, compare_games, is_eligible, mark, positions, select, sort, Selection,
}

-- A card price that was looked up, `none` without one, and the time.
pub record PriceEntry : Type 0 where
  pub value : Option ℕ
  pub at : ℕ

-- `snapshot.accountId` is left out. `timer` is the generation that the timer's callback has.
pub record Session : Type 0 where
  pub phase : Phase
  pub config : Config
  pub games : List Game
  pub active_app_ids : List ℕ
  pub remaining_drops : ℕ
  pub scanned_at : Option ℕ
  pub started_at : Option ℕ
  pub truncated : Bool
  pub reason : Option Reason
  pub can_start : Bool
  pub game_limit : ℕ
  pub pricing : Bool
  pub generation : ℕ
  pub timer : Option ℕ
  pub active_since : Option ℕ
  pub applied : Bool
  pub badge_order : List (ℕ × ℕ)
  pub card_values : List (ℕ × PriceEntry)
  pub remembered : Option Bool

unfoldable pub new_session : Config → Session
new_session config = record {
  phase = phase_stopped;
  config = config;
  games = [];
  active_app_ids = [];
  remaining_drops = 0;
  scanned_at = none;
  started_at = none;
  truncated = false;
  reason = none;
  can_start = false;
  game_limit = 32;
  pricing = false;
  generation = 0;
  timer = none;
  active_since = none;
  applied = false;
  badge_order = [];
  card_values = [];
  remembered = none;
}

abbrev pub is_user_stop : Reason → Bool
is_user_stop reason = elim reason [ stopped ↦ true | _ ↦ false ]

unfoldable pub halt : Reason → Session → Session
halt reason s = record s {
  generation = suc s.generation;
  timer = none;
  active_since = none;
  active_app_ids = [];
  remembered = if is_resumable reason then s.remembered else some false;
  phase =
      if is_user_stop reason then phase_stopped else if is_active s.phase then blocked else s.phase;
  reason =
      if is_user_stop reason then none else if is_active s.phase then some reason else s.reason;
  applied = false;
}

abbrev pub card_value_ttl : Option ℕ → ℕ
card_value_ttl none = 6 * 60 * 60_000
card_value_ttl (some average) = 24 * 60 * 60_000

unfoldable pub wants_price : ℕ → List (ℕ × PriceEntry) → Game → Bool
wants_price now values game = is_eligible game && is_stale (lookup game.app_id values)
  where
    is_stale : Option PriceEntry → Bool
    is_stale none = true
    is_stale (some e) = ltb (card_value_ttl e.value) (now - e.at)

abbrev pub is_by_value : Order → Bool
is_by_value order = elim order [ card_value ↦ true | _ ↦ false ]

-- The identifiers that are looked up become a call of `adapter.cardValues`.
unfoldable pub price_games : ℕ → Bool → Session → Session
price_games now shutting_down s =
    if s.pricing || shutting_down || not (is_by_value s.config.order)
    then s
    else record s { pricing = is_missing (keep_if (wants_price now s.card_values) s.games) }
  where
    is_missing : List Game → Bool
    is_missing [] = false
    is_missing (game ∷ games) = true

-- The games by identifier, the last one of equal ones.
abbrev pub by_app_id : List Game → List (ℕ × Game)
by_app_id = foldl (λ found game. insert game.app_id game found) []

abbrev pub playtime_of : Option Game → ℕ
playtime_of none = 0
playtime_of (some game) = or_else game.playtime 0

abbrev pub value_of : Option PriceEntry → Option ℕ
value_of none = none
value_of (some e) = e.value

abbrev pub observe : ℕ → Option ℕ → Option ℕ
observe observed playtime = if observed == 0 then playtime else some observed

unfoldable pub merge : List (ℕ × Game) → List (ℕ × PriceEntry) → Game → Game
merge old values game = record game {
  playtime =
      observe (max (or_else game.playtime 0) (playtime_of (lookup game.app_id old))) game.playtime;
  skip_reason = none;
  card_value = value_of (lookup game.app_id values);
}

-- Adds to the first game with the identifier.
unfoldable pub credit : ℕ → List Game → ℕ → List Game
credit elapsed [] app_id = []
credit elapsed (game ∷ games) app_id =
    let rest = credit elapsed games app_id in
    if game.app_id == app_id
    then record game { playtime = some (or_else game.playtime 0 + elapsed) } ∷ games
    else game ∷ rest

unfoldable pub credit_playtime : ℕ → Session → Session
credit_playtime now s = elim s.active_since [
  | none ↦ s
  | some since ↦ record s {
    games = foldl (credit (now - since)) s.games s.active_app_ids;
    active_since = some now;
  }
]

module _ (compare_names : String → String → Ordering) (now : ℕ) (shutting_down : Bool) where
  unfoldable pub order_games : Session → Session
  order_games s = record s {
    games = sort (compare_games compare_names s.config s.badge_order) s.games;
  }

  unfoldable pub filter_games : Session → Session
  filter_games s =
      price_games now shutting_down
        (order_games (record s { games = map (mark now s.config) s.games }))

  unfoldable pub update_games : Discovery → Session → Session
  update_games discovery s = filter_games (record s {
    badge_order = positions (map (λ game. game.app_id) discovery.games);
    games = map (merge (by_app_id s.games) s.card_values) discovery.games;
    scanned_at = some now;
    truncated = discovery.truncated;
    remaining_drops = foldl (λ total game. total + game.remaining_drops) 0 discovery.games;
  })

  -- `snapshot` of an account that has a session.
  unfoldable pub set_config : Config → Session → Session
  set_config config s = if is_active s.phase then s else filter_games (record s { config = config })
