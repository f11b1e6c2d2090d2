-- ===== src/Batch.antt =====
-- apps/server/src/inventory/batch.ts: `MarketBatchQueue`. This file has the data of a batch, with
-- the types of packages/contracts/src/inventory.ts that it uses. Identifiers (accounts, actors,
-- tokens, jobs, assets, listings) are numbers, since the code only compares them.
pub mod Run
pub mod Queue
mod Tests
use steam_bee.Common.{ℕ, Bool, Option, List, String}

pub data ItemStatus : Type 0 where
  queued running listed pending_confirmation cancelled failed skipped : ItemStatus

pub data Kind : Type 0 where
  sale cancel : Kind

pub data JobStatus : Type 0 where
  job_running job_waiting job_completed job_stopped : JobStatus

-- A row of the preview, `MarketBatchPreviewItem`; its amounts are those that `create` adds up.
pub record Row : Type 0 where
  pub asset_id : Option ℕ
  pub variant_id : Option ℕ
  pub listing_id : Option ℕ
  pub name : String
  pub quantity : ℕ
  pub buyer_pays : Option ℕ
  pub seller_receives : Option ℕ
  pub message : Option String

-- `executable` says that `execute` is not null; what it does comes from outside.
pub record Command : Type 0 where
  pub row : Row
  pub executable : Bool

pub record Item : Type 0 where
  pub asset_id : Option ℕ
  pub variant_id : Option ℕ
  pub listing_id : Option ℕ
  pub name : String
  pub quantity : ℕ
  pub status : ItemStatus
  pub message : Option String

-- `MarketBatchJob`, without the fields that nothing reads.
pub record JobValue : Type 0 where
  pub id : ℕ
  pub kind : Kind
  pub status : JobStatus
  pub created_at : ℕ
  pub updated_at : ℕ
  pub next_action_at : Option ℕ
  pub items : List Item
  pub completed_count : ℕ
  pub total_count : ℕ
  pub stop_requested : Bool

-- `MarketActionResult`, and what `catch` reads of an error.
pub record ActionResult : Type 0 where
  pub is_ok : Bool
  pub listing_id : Option ℕ
  pub awaits_confirmation : Bool
  pub message : String

pub record ErrorDetail : Type 0 where
  pub message : Option String
  pub not_submitted : Bool
  pub stop_batch : Bool
  pub is_429 : Bool

pub data Outcome : Type 0 where
  fulfilled : ActionResult → Outcome
  rejected : ErrorDetail → Outcome
