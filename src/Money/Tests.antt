-- ===== src/Money/Tests.antt =====
-- apps/server/src/inventory/money.ts: runs on a euro wallet and a dinar wallet.
use steam_bee.Common.{ℕ, ◌≡◌, refl, ◌↔◌, String, Option, none, some, [], ◌∷◌, ok, err}
use steam_bee.Common.Int.{int, pos, negsuc, ◌+ℤ◌}
use steam_bee.Money.{
  Wallet, Currency, Rate, Settings, IsWallet, lowest_sell_order, below_minimum_fees,
  outside_price_limits,
}
use steam_bee.Money.Parse.{
  RawWallet, undefined, number, text, parse_rate, parse_wallet, checked_wallet, currency_codes,
  country_of, coalesce, wallet_minimum_of, wallet_increment_of, integer, steam_rate_of,
}
use steam_bee.Money.Parse.Laws.{parse_wallet-IsWallet}
use steam_bee.Money.Units.{from_minor_units, to_minor_units}
use steam_bee.Money.Units.Laws.{from_minor_units_iff_to_minor_units}
use steam_bee.Money.Fees.{
  Quote, fee, calculate, search_quote, publisher_rate_of, or_below_minimum, quote_from_buyer_cap,
}
use steam_bee.Money.Fees.Optimal.{IsOptimal, quote_from_buyer_cap-IsOptimal}
use steam_bee.Money.Rules.{
  validate_price_settings, well_formed, money_customized, check_increment, check_bounds,
  quote_with_rules,
}
use steam_bee.Money.Rules.Laws.{IsRuled, quote_with_rules-IsRuled}

abbrev raw_euro : RawWallet
raw_euro = record {
  wallet_currency = number (b'3' ∷ []);
  wallet_country = text (b'D' ∷ b'E' ∷ []);
  wallet_market_minimum = number (b'1' ∷ []);
  wallet_fee_minimum = number (b'1' ∷ []);
  wallet_currency_increment = number (b'1' ∷ []);
  wallet_fee = number (b'1' ∷ []);
  wallet_fee_percent = text (b'0' ∷ b'.' ∷ b'0' ∷ b'5' ∷ []);
  wallet_publisher_fee_percent_default = text (b'0' ∷ b'.' ∷ b'1' ∷ []);
  wallet_fee_base = undefined;
}

abbrev two_digits : String → Option ℕ
two_digits code = some 2

abbrev euro : Currency
euro = record { id = 3; code = "EUR"; minor_unit = 2; price_step = some (pos 1) }

abbrev dinar : Currency
dinar = record { id = 38; code = "KWD"; minor_unit = 3; price_step = some (pos 10) }

abbrev five_percent : Rate
five_percent = record { numerator = 5; denominator = 100 }

abbrev ten_percent : Rate
ten_percent = record { numerator = 1; denominator = 10 }

abbrev euro_wallet : Wallet
euro_wallet = record {
  currency = euro;
  country = b'D' ∷ b'E' ∷ [];
  minimum = 1;
  increment = 1;
  steam_rate = five_percent;
  publisher_rate = ten_percent;
  steam_base = 0;
}

euro_parses : parse_wallet two_digits raw_euro ≡ ok euro_wallet
unfolding parse_wallet checked_wallet currency_codes country_of coalesce wallet_minimum_of
    wallet_increment_of integer steam_rate_of parse_rate to_minor_units
euro_parses = refl

parse_wallet-IsWallet_example : IsWallet euro_wallet
parse_wallet-IsWallet_example = parse_wallet-IsWallet two_digits raw_euro euro_parses

from_minor_units_iff_to_minor_units_example :
    (from_minor_units (int (negsuc 1229)) dinar ≡ ok (negsuc 122))
    ↔ (to_minor_units (int (negsuc 122)) dinar ≡ ok (negsuc 1229))
from_minor_units_iff_to_minor_units_example =
    from_minor_units_iff_to_minor_units (negsuc 1229) (negsuc 122) dinar

abbrev euro_quote : Quote
euro_quote = record { base = 87; steam_fee = 4; publisher_fee = 8; buyer_pays = 99 }

quotes : quote_from_buyer_cap 99 euro_wallet none ≡ ok euro_quote
unfolding quote_from_buyer_cap publisher_rate_of search_quote calculate fee or_below_minimum
quotes = refl

too_low : quote_from_buyer_cap 2 euro_wallet none ≡ err below_minimum_fees
unfolding quote_from_buyer_cap publisher_rate_of search_quote calculate fee or_below_minimum
too_low = refl

quote_from_buyer_cap-IsOptimal_example :
    IsOptimal euro_wallet ten_percent 99 (quote_from_buyer_cap 99 euro_wallet none)
unfolding publisher_rate_of
quote_from_buyer_cap-IsOptimal_example =
    quote_from_buyer_cap-IsOptimal 99 euro_wallet none ten_percent parse_wallet-IsWallet_example
      refl

abbrev undercut : Settings
undercut = record {
  price_mode = lowest_sell_order;
  adjustment = int (negsuc 0);
  min_buyer_price = some (int (pos 50));
  max_buyer_price = none;
  delay_seconds = int (pos 10);
  currency_id = some (int (pos 3));
}

undercuts : quote_with_rules (int (pos 100)) euro_wallet none undercut ≡ ok (euro_quote, 99)
unfolding quote_with_rules validate_price_settings well_formed money_customized check_increment
    check_bounds from_minor_units to_minor_units ◌+ℤ◌ quote_from_buyer_cap publisher_rate_of
    search_quote calculate fee or_below_minimum
undercuts = refl

below_floor : quote_with_rules (int (pos 50)) euro_wallet none undercut ≡ err outside_price_limits
unfolding quote_with_rules validate_price_settings well_formed money_customized check_increment
    check_bounds from_minor_units to_minor_units ◌+ℤ◌ quote_from_buyer_cap publisher_rate_of
    search_quote calculate fee or_below_minimum
below_floor = refl

quote_with_rules-IsRuled_example :
    IsRuled (int (pos 100)) euro_wallet undercut ten_percent euro_quote 99
unfolding publisher_rate_of
quote_with_rules-IsRuled_example =
    quote_with_rules-IsRuled (int (pos 100)) euro_wallet none undercut ten_percent euro_quote 99
      parse_wallet-IsWallet_example refl undercuts
