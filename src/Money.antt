-- ===== src/Money.antt =====
-- apps/server/src/inventory/money.ts: the wallet, unit conversion, the price rules and the quote.
-- This file has the data types of the module; its functions are in the children.
pub mod Parse
pub mod Units
pub mod Fees
pub mod Rules
mod Tests
use steam_bee.Common.{ℕ, ◌%◌, ◌≤◌, ◌<◌, ◌≡◌, String, Option, List, Result}
use steam_bee.Common.Int.{ℤ, Number}

-- The errors that the module throws, by their message.
pub data MoneyError : Type 0 where
  unsupported_fee : MoneyError
  invalid_integer : MoneyError
  wallet_unavailable : MoneyError
  currency_unsupported : MoneyError
  increments_unsupported : MoneyError
  outside_precision : MoneyError
  exceeds_limit : MoneyError
  not_representable : MoneyError
  not_exact_integer : MoneyError
  invalid_settings : MoneyError
  unbound_currency : MoneyError
  currency_mismatch : MoneyError
  min_exceeds_max : MoneyError
  off_increment : MoneyError
  unsupported_reference : MoneyError
  adjusted_out_of_range : MoneyError
  outside_price_limits : MoneyError
  below_minimum_fees : MoneyError

abbrev pub Money {ℓ} : Type ℓ → Type ℓ
Money A = Result MoneyError A

pub record Rate : Type 0 where
  pub numerator : ℕ
  pub denominator : ℕ

pub record Currency : Type 0 where
  pub id : ℕ
  pub code : String
  pub minor_unit : ℕ
  pub price_step : Option ℤ

pub record Wallet : Type 0 where
  pub currency : Currency
  pub country : List ℕ
  pub minimum : ℕ
  pub increment : ℕ
  pub steam_rate : Rate
  pub publisher_rate : Rate
  pub steam_base : ℕ

-- What `parse_wallet` guarantees of a rate and of a wallet, and the quote relies on.
pub record IsRate (r : Rate) : Type 0 where
  pub positive : 0 < r.denominator
  pub at_most_one : r.numerator ≤ r.denominator

pub record IsWallet (w : Wallet) : Type 0 where
  pub increment_pos : 0 < w.increment
  pub minimum_pos : 0 < w.minimum
  pub on_grid : w.minimum % w.increment ≡ 0
  pub steam_IsRate : IsRate w.steam_rate
  pub publisher_IsRate : IsRate w.publisher_rate

pub data PriceMode : Type 0 where
  lowest_sell_order highest_buy_order unknown_mode : PriceMode

-- `MarketPriceSettings` of packages/contracts/src/inventory.ts; `null` is `none`.
pub record Settings : Type 0 where
  pub price_mode : PriceMode
  pub adjustment : Number
  pub min_buyer_price : Option Number
  pub max_buyer_price : Option Number
  pub delay_seconds : Number
  pub currency_id : Option Number
