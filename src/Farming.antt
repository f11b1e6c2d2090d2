-- ===== src/Farming.antt =====
-- apps/server/src/farming/controller.ts: the farming worker of an account. This file has the data,
-- with the types of packages/contracts/src/farming.ts. Playtimes are in milliseconds (the source's
-- minutes times 60_000), so that the source's division by 60_000 is exact. Texts that the code
-- compares are constructors.
pub mod Games
pub mod Session
pub mod Worker
mod Tests
use steam_bee.Common.{ℕ, Bool, true, false, Option, List, String}

pub data Order : Type 0 where
  order_default card_value drops_desc drops_asc hours_desc acquired_asc name : Order

pub data SkipReason : Type 0 where
  blacklisted not_whitelisted refund_window purchase_date_unknown : SkipReason

pub data Phase : Type 0 where
  phase_stopped scanning warming farming completed blocked failed : Phase

-- The reasons of a halt, those that the controller itself shows, and any other text.
pub data Reason : Type 0 where
  stopped shutdown shutting_down connecting reconnecting disconnected error not_connected : Reason
  account_unavailable farming_failed badge_scan_failed resumed no_eligible_games : Reason
  other : ℕ → Reason

pub record Config : Type 0 where
  pub max_concurrent_games : ℕ
  pub skip_refundable : Bool
  pub whitelist : List ℕ
  pub blacklist : List ℕ
  pub order : Order
  pub priority : List ℕ

-- `card_value` is the average price.
pub record Game : Type 0 where
  pub app_id : ℕ
  pub name : String
  pub remaining_drops : ℕ
  pub playtime : Option ℕ
  pub acquired_at : Option ℕ
  pub skip_reason : Option SkipReason
  pub card_value : Option ℕ

pub record Availability : Type 0 where
  pub is_allowed : Bool
  pub reason : Option Reason
  pub game_limit : ℕ

pub record Discovery : Type 0 where
  pub games : List Game
  pub truncated : Bool

-- `isActive`
abbrev pub is_active : Phase → Bool
is_active phase_stopped = false
is_active scanning = true
is_active warming = true
is_active farming = true
is_active completed = false
is_active blocked = false
is_active failed = false

-- `RESUMABLE_HALTS`
abbrev pub is_resumable : Reason → Bool
is_resumable stopped = false
is_resumable shutdown = true
is_resumable shutting_down = true
is_resumable connecting = true
is_resumable reconnecting = true
is_resumable disconnected = true
is_resumable error = true
is_resumable not_connected = true
is_resumable account_unavailable = false
is_resumable farming_failed = false
is_resumable badge_scan_failed = false
is_resumable resumed = false
is_resumable no_eligible_games = false
is_resumable (other n) = false
