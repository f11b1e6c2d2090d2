-- ===== src/Money/Parse/Laws.antt =====
-- apps/server/src/inventory/money.ts: what `parseRate` and `parseWallet` guarantee.
use native.Mathlib.Nat.{one-le-pow}
use steam_bee.Common.{
  length, ℕ, ◌≡◌, arith, String, Option, List, ok, Ensures, Ensures-of, Ensures-bind, Ensures-elim,
}
use steam_bee.Money.{
  wallet_unavailable, currency_unsupported, Currency, Rate, Wallet, IsRate, IsWallet,
}
use steam_bee.Money.Parse.{
  parse_rate, parse_wallet, or_throw, currency_codes, country_of, wallet_minimum_of,
  wallet_increment_of, integer, RawWallet, checked_wallet, steam_rate_of, zero_text, to_string,
  after_dot,
}

pub parse_rate-IsRate : (raw : List ℕ) {r : Rate} → parse_rate raw ≡ ok r → IsRate r
unfolding parse_rate
parse_rate-IsRate raw h = ground (arith, one-le-pow (length (after_dot raw)) 10 (omega arith))

steam_rate_of-IsRate : (value : RawWallet) {r : Rate} → steam_rate_of value ≡ ok r → IsRate r
unfolding steam_rate_of
steam_rate_of-IsRate value {r} h = ground (
  arith,
  parse_rate-IsRate zero_text {r = r},
  parse_rate-IsRate (to_string value.wallet_fee_percent) {r = r},
)

checked_wallet-IsWallet :
    (value : RawWallet) (c : Currency) (country : List ℕ) (minimum increment : ℕ) {w : Wallet}
    → checked_wallet value c country minimum increment ≡ ok w
    → IsWallet w
unfolding checked_wallet
checked_wallet-IsWallet value c country minimum increment h =
    grind (arith, parse_rate-IsRate, steam_rate_of-IsRate)

parse_wallet-Ensures :
    (fraction_digits : String → Option ℕ) (value : RawWallet)
    → Ensures IsWallet (parse_wallet fraction_digits value)
unfolding parse_wallet
parse_wallet-Ensures fraction_digits value =
    Ensures-bind (integer value.wallet_currency 1000) _ λ id _.
      Ensures-bind (or_throw (currency_codes id) wallet_unavailable) _ λ code _.
        Ensures-bind (country_of value.wallet_country) _ λ country _.
          Ensures-bind (or_throw (fraction_digits code) currency_unsupported) _ λ minor_unit _.
            Ensures-bind (wallet_minimum_of value) _ λ minimum _.
              Ensures-bind (wallet_increment_of value) _ λ increment _.
                Ensures-of λ w. checked_wallet-IsWallet value _ country minimum increment

-- Every wallet that `parseWallet` accepts has a positive price increment, a positive minimum that is
-- a multiple of the increment, and fee rates that are fractions from 0 to 1.
pub parse_wallet-IsWallet :
    (fraction_digits : String → Option ℕ) (value : RawWallet) {w : Wallet}
    → parse_wallet fraction_digits value ≡ ok w
    → IsWallet w
parse_wallet-IsWallet fraction_digits value =
    Ensures-elim (parse_wallet fraction_digits value) (parse_wallet-Ensures fraction_digits value)
