-- ===== src/Money/Rules.antt =====
-- apps/server/src/inventory/money.ts: `validatePriceSettings` and `quoteWithRules`. A setting of
-- `Number.isSafeInteger` is tested before it is compared, so `other` never reaches a comparison.
pub mod Laws
use steam_bee.Common.{
  ℕ, zero, suc, ◌%◌, Bool, true, false, not, ◌&&◌, ◌||◌, Option, none, some, List, ok, err, ◌>>=◌,
  ◌>>◌, throw_if, leb, ◌==◌, Result,
}
use steam_bee.Common.Int.{ℤ, Number, int, other, pos, negsuc, magnitude, ltb_ℤ, ◌+ℤ◌}
use steam_bee.Money.{
  Money, Wallet, Settings, PriceMode, lowest_sell_order, highest_buy_order, unknown_mode,
  invalid_settings, unbound_currency, currency_mismatch, min_exceeds_max, off_increment,
  unsupported_reference, adjusted_out_of_range, outside_price_limits,
}
use steam_bee.Money.Units.{is_safe, to_minor_units, from_minor_units}
use steam_bee.Money.Fees.{Quote, quote_from_buyer_cap}

abbrev pub max_price : ℕ
max_price = 1_000_000_000

abbrev pub is_some : Option Number → Bool
is_some none = false
is_some (some n) = true

abbrev pub is_zero : Number → Bool
is_zero (int z) = magnitude z == 0
is_zero other = false

abbrev pub known_mode : PriceMode → Bool
known_mode unknown_mode = false
known_mode lowest_sell_order = true
known_mode highest_buy_order = true

abbrev pub valid_adjustment : Number → Bool
valid_adjustment (int z) = is_safe z && leb (magnitude z) max_price
valid_adjustment other = false

-- An integer from `low` to `high`, both natural.
abbrev pub in_range : ℕ → ℕ → Number → Bool
in_range low high (int (pos n)) = leb low n && leb n high
in_range low high (int (negsuc n)) = false
in_range low high other = false

abbrev pub absent_or : (Number → Bool) → Option Number → Bool
absent_or p none = true
absent_or p (some n) = p n

unfoldable pub money_customized : Settings → Bool
money_customized s =
    not (is_zero s.adjustment) || is_some s.min_buyer_price || is_some s.max_buyer_price

unfoldable pub well_formed : Settings → Bool
well_formed s =
    known_mode s.price_mode
    && valid_adjustment s.adjustment
    && in_range 1 60 s.delay_seconds
    && absent_or (in_range 1 1000) s.currency_id
    && absent_or (in_range 0 max_price) s.min_buyer_price
    && absent_or (in_range 0 max_price) s.max_buyer_price

abbrev pub is_currency : ℕ → Number → Bool
is_currency id (int (pos n)) = n == id
is_currency id (int (negsuc n)) = false
is_currency id other = false

abbrev pub exceeds : Option Number → Option Number → Bool
exceeds (some (int a)) (some (int b)) = ltb_ℤ b a
exceeds _ _ = false

-- `steamAmount % increment === 0`; a remainder by 0 is NaN, which is not 0.
abbrev pub on_increment : ℕ → ℤ → Bool
on_increment zero z = false
on_increment (suc k) z = magnitude z % suc k == 0

-- One round of the loop over the three money settings.
unfoldable pub check_increment : Wallet → Option Number → Money (Unit {0})
check_increment w none = ok tt
check_increment w (some value) = do
  steam_amount ← from_minor_units value w.currency
  throw_if (not (on_increment w.increment steam_amount)) off_increment

unfoldable pub validate_price_settings : Wallet → Settings → Money (Unit {0})
validate_price_settings w s = do
  throw_if (not (well_formed s)) invalid_settings
  throw_if (money_customized s && not (is_some s.currency_id)) unbound_currency
  throw_if (not (absent_or (is_currency w.currency.id) s.currency_id)) currency_mismatch
  throw_if (exceeds s.min_buyer_price s.max_buyer_price) min_exceeds_max
  check_increment w (some s.adjustment)
  check_increment w s.min_buyer_price
  check_increment w s.max_buyer_price

abbrev pub below_limit : ℤ → Option Number → Bool
below_limit a (some (int b)) = ltb_ℤ a b
below_limit a _ = false

abbrev pub above_limit : ℤ → Option Number → Bool
above_limit a (some (int b)) = ltb_ℤ b a
above_limit a _ = false

unfoldable pub check_bounds : Wallet → Settings → ℕ → Money (Unit {0})
check_bounds w s steam_price = do
  amount ← to_minor_units (int (pos steam_price)) w.currency
  throw_if (below_limit amount s.min_buyer_price || above_limit amount s.max_buyer_price)
      outside_price_limits

-- The reference price, once it is known to be an integer from 1 to 1,000,000,000 on the increment.
abbrev pub reference_price : Wallet → Number → Money ℕ
reference_price w (int (pos n)) = do
  throw_if (not (leb 1 n && leb n max_price && on_increment w.increment (pos n)))
      unsupported_reference
  ok n
reference_price w _ = err unsupported_reference

-- The adjusted price, once it is known to be from 1 to 1,000,000,000.
abbrev pub adjusted_price : ℤ → Money ℕ
adjusted_price (pos n) = do throw_if (not (leb 1 n && leb n max_price)) adjusted_out_of_range; ok n
adjusted_price (negsuc n) = err adjusted_out_of_range

-- The quote with its `buyerCap`.
unfoldable pub quote_with_rules : Number → Wallet → Option (List ℕ) → Settings → Money (Quote × ℕ)
quote_with_rules reference w publisher_fee s = do
  validate_price_settings w s
  price ← reference_price w reference
  adjustment ← from_minor_units s.adjustment w.currency
  buyer_cap ← adjusted_price (pos price +ℤ adjustment)
  check_bounds w s buyer_cap
  quote ← quote_from_buyer_cap buyer_cap w publisher_fee
  check_bounds w s quote.buyer_pays
  ok (quote, buyer_cap)
