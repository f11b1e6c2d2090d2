-- ===== src/Farming/Games.antt =====
-- apps/server/src/farming/controller.ts: which games are skipped (`filterGames`), their order
-- (`orderGames`) and the games that a turn plays (`advance`). `localeCompare` is `compare_names`.
pub mod Laws
use Prim.Native.Nat.{compare, Ordering}
use steam_bee.Common.{
  ℕ, zero, suc, ◌-◌, ◌*◌, ◌^◌, min, Bool, true, false, not, ◌&&◌, ◌||◌, Option, none, some, List,
  [], ◌∷◌, foldl, String, ltb, leb, ◌==◌, if◌then◌else◌, length, any, keep_if, map,
}
use steam_bee.Common.Maps.{lookup, insert}
use steam_bee.Farming.{
  Order, order_default, card_value, drops_desc, drops_asc, hours_desc, acquired_asc, name,
  SkipReason, blacklisted, not_whitelisted, refund_window, purchase_date_unknown, Config, Game,
}

abbrev pub or_else {ℓ} : {A : Type ℓ} → Option A → A → A
or_else none a = a
or_else (some b) a = b

abbrev pub includes : ℕ → List ℕ → Bool
includes app_id = any (λ x. x == app_id)

-- 120 minutes
abbrev pub warm_up : ℕ
warm_up = 120 * 60_000

abbrev pub refund_period : ℕ
refund_period = 14 * 24 * 60 * 60_000

abbrev pub is_cold : Game → Bool
is_cold game = ltb (or_else game.playtime 0) warm_up

unfoldable pub list_reason : Config → ℕ → Option SkipReason
list_reason config app_id =
    if includes app_id config.blacklist
    then some blacklisted
    else if ltb 0 (length config.whitelist) && not (includes app_id config.whitelist)
    then some not_whitelisted
    else none

unfoldable pub purchase_reason : ℕ → Option ℕ → Option SkipReason
purchase_reason now none = some purchase_date_unknown
purchase_reason now (some acquired) =
    if ltb now acquired
    then some purchase_date_unknown
    else if leb (now - acquired) refund_period
    then some refund_window
    else none

abbrev pub first_reason : Option SkipReason → Option SkipReason → Option SkipReason
first_reason none other = other
first_reason (some reason) other = some reason

unfoldable pub skip_reason_of : ℕ → Config → Game → Option SkipReason
skip_reason_of now config game = first_reason (list_reason config game.app_id) (
    if not config.skip_refundable || not (is_cold game)
    then none
    else purchase_reason now game.acquired_at)

abbrev pub mark : ℕ → Config → Game → Game
mark now config game = record game { skip_reason = skip_reason_of now config game }

-- The last position of each identifier.
abbrev positions_from : ℕ → List ℕ → List (ℕ × ℕ) → List (ℕ × ℕ)
positions_from n [] found = found
positions_from n (x ∷ xs) found = positions_from (suc n) xs (insert x n found)

unfoldable pub positions : List ℕ → List (ℕ × ℕ)
positions xs = positions_from 0 xs []

abbrev max_safe_integer : ℕ
max_safe_integer = 2 ^ 53 - 1

abbrev pub position : List (ℕ × ℕ) → Game → ℕ
position places game = or_else (lookup game.app_id places) max_safe_integer

-- `a || b` on the results of two comparisons.
abbrev pub or_by : Ordering → Ordering → Ordering
or_by Ordering.lt o = Ordering.lt
or_by Ordering.eq o = o
or_by Ordering.gt o = Ordering.gt

module _ (compare_names : String → String → Ordering) where
  -- `?? -1`, one higher.
  abbrev pub by_strategy : Order → Game → Game → Ordering
  by_strategy order_default l r = Ordering.eq
  by_strategy card_value l r = compare (price r.card_value) (price l.card_value)
    where
      price : Option ℕ → ℕ
      price none = 0
      price (some average) = suc average
  by_strategy drops_desc l r = compare r.remaining_drops l.remaining_drops
  by_strategy drops_asc l r = compare l.remaining_drops r.remaining_drops
  by_strategy hours_desc l r = compare (or_else r.playtime 0) (or_else l.playtime 0)
  by_strategy acquired_asc l r =
      compare (or_else l.acquired_at max_safe_integer) (or_else r.acquired_at max_safe_integer)
  by_strategy name l r = compare_names l.name r.name

  abbrev pub compare_games : Config → List (ℕ × ℕ) → Game → Game → Ordering
  compare_games config badge_order l r =
      let pinned = positions config.priority in
      or_by (compare (position pinned l) (position pinned r)) (
        or_by (by_strategy config.order l r)
          (compare (position badge_order l) (position badge_order r)))

abbrev pub is_gt : Ordering → Bool
is_gt Ordering.lt = false
is_gt Ordering.eq = false
is_gt Ordering.gt = true

-- `sort`, which is stable.
module _ (order : Game → Game → Ordering) where
  unfoldable pub place : Game → List Game → List Game
  place x [] = x ∷ []
  place x (y ∷ ys) = let rest = place x ys in if is_gt (order x y) then y ∷ rest else x ∷ y ∷ ys

  unfoldable pub sort : List Game → List Game
  sort [] = []
  sort (x ∷ xs) = place x (sort xs)

-- What a turn plays: the games, and whether it warms them up.
pub record Selection : Type 0 where
  pub games : List Game
  pub is_warming : Bool

abbrev pub is_eligible : Game → Bool
is_eligible game = is_unskipped game.skip_reason && ltb 0 game.remaining_drops
  where
    is_unskipped : Option SkipReason → Bool
    is_unskipped none = true
    is_unskipped (some r) = false

unfoldable pub take {ℓ} : {A : Type ℓ} → ℕ → List A → List A
take zero xs = []
take (suc n) [] = []
take (suc n) (x ∷ xs) = x ∷ take n xs

-- `Math.max(0, …)` of natural numbers.
abbrev pub limit_of : Config → ℕ → ℕ
limit_of config game_limit = min 32 (min config.max_concurrent_games game_limit)

unfoldable pub warm_or_farm : ℕ → List Game → Selection
warm_or_farm limit eligible = elim (keep_if is_cold eligible) [
  | [] ↦ record { games = take (min 1 limit) eligible; is_warming = false }
  | game ∷ games ↦ record { games = take limit (game ∷ games); is_warming = true }
]

unfoldable pub choose : Config → ℕ → List Game → Selection
choose config limit eligible = elim eligible [
  | [] ↦ warm_or_farm limit []
  | first ∷ others ↦
      if includes first.app_id config.priority
      then record { games = take limit (first ∷ []); is_warming = false }
      else warm_or_farm limit (first ∷ others)
]

unfoldable pub select : Config → ℕ → List Game → Selection
select config game_limit games =
    choose config (limit_of config game_limit) (keep_if is_eligible games)
