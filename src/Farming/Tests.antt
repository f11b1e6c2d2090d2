-- ===== src/Farming/Tests.antt =====
-- apps/server/src/farming/controller.ts: runs of small workers.
use Prim.Native.Nat.{Ordering}
use steam_bee.Common.{
  ℕ, ◌*◌, ◌≤◌, ◌≡◌, refl, ◌↔◌, true, false, Bool, none, some, Option, List, [], ◌∷◌, String, All,
  arith, keep_if,
}
use steam_bee.Common.Maps.{lookup}
use steam_bee.Farming.{
  drops_desc, Config, Game, Availability, stopped, farming, refund_window, blacklisted,
}
use steam_bee.Farming.Games.{
  skip_reason_of, list_reason, purchase_reason, is_eligible, select, choose, warm_or_farm, take,
  limit_of, positions, sort, place,
}
use steam_bee.Farming.Games.Laws.{IsFree, skip_reason_of_iff, IsAllowed, select-IsAllowed}
use steam_bee.Farming.Session.{
  Session, new_session, halt, filter_games, order_games, price_games, update_games, merge,
}
use steam_bee.Farming.Session.Calls.{
  discovers, applies, started, discovery_is, resume, proceed, select_and_play, play_selection,
  play_ids, is_current, equals, Answer,
}
use steam_bee.Farming.Session.Steps.{
  Farm, farm, do_call, start_asked, halted, calls, Reachable, begun, follows, task,
}
use steam_bee.Farming.Worker.Sound.{IsSound}
use steam_bee.Farming.Worker.Reached.{worker-IsSound, halt-IsFinal}

abbrev by_badge : String → String → Ordering
by_badge l r = Ordering.eq

abbrev config : Config
config = record {
  max_concurrent_games = 32;
  skip_refundable = true;
  whitelist = [];
  blacklist = 9 ∷ [];
  order = drops_desc;
  priority = [];
}

abbrev played : ℕ → ℕ → ℕ → Game
played app_id drops minutes = record {
  app_id = app_id;
  name = "Game";
  remaining_drops = drops;
  playtime = some (minutes * 60_000);
  acquired_at = some 1;
  skip_reason = none;
  card_value = none;
}

abbrev games : List Game
games = played 7 2 180 ∷ played 8 3 200 ∷ played 9 4 500 ∷ []

abbrev available : Availability
available = record { is_allowed = true; reason = none; game_limit = 32 }

abbrev asked : Farm
asked = do_call by_badge 5 (start_asked config none false) (farm false (new_session config) [])

abbrev asked-Reachable : Reachable by_badge asked
asked-Reachable = follows (begun false config) (calls 5 (start_asked config none false) _)

-- A worker that waits for `availability`.
abbrev waiting : Session
waiting = record (new_session config) { phase = farming; generation = 1; scanned_at = none }

worker-IsSound_example : IsSound (do_call by_badge 6 (halted stopped) asked)
worker-IsSound_example = worker-IsSound (follows asked-Reachable (calls 6 (halted stopped) asked))

halt-IsFinal_example :
    All
      (λ t.
        (now : ℕ) (answer : Option Answer) (d : Bool)
        → resume by_badge now d answer t (halt stopped asked.session)
          ≡ (halt stopped asked.session, none))
      asked.tasks
halt-IsFinal_example = halt-IsFinal stopped asked-Reachable

skip_reason_of_iff_example :
    (skip_reason_of 5 config (played 7 2 180) ≡ none) ↔ IsFree 5 config (played 7 2 180)
skip_reason_of_iff_example = skip_reason_of_iff 5 config (played 7 2 180)

select-IsAllowed_example :
    IsAllowed
      (λ game. (1 ≤ game.remaining_drops) × (is_eligible game ≡ true))
      (limit_of config 4)
      (keep_if is_eligible games)
      (select config 4 games)
select-IsAllowed_example =
    select-IsAllowed config 4 (λ game. 1 ≤ game.remaining_drops) games
      (omega arith, (omega arith, (omega arith, tt)))

blacklists : skip_reason_of 5 config (played 9 2 0) ≡ some blacklisted
unfolding skip_reason_of list_reason
blacklists = refl

refunds : skip_reason_of 5 config (played 7 2 0) ≡ some refund_window
unfolding skip_reason_of list_reason purchase_reason
refunds = refl

-- A discovery leads to the game with the most drops that is not left out.
plays_most_drops :
    (resume by_badge 5 false
      (some (discovery_is (record { games = games; truncated = false })))
      (task 1 (started false) (discovers available))
      waiting).1
    ≡ some (task 1 (started false) (applies (8 ∷ []) false))
unfolding resume proceed is_current update_games filter_games order_games price_games merge sort
    place positions skip_reason_of list_reason purchase_reason select_and_play play_selection
    play_ids select choose warm_or_farm take equals new_session lookup
plays_most_drops = refl
