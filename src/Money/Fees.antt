-- ===== src/Money/Fees.antt =====
-- apps/server/src/inventory/money.ts: `fee` and `quoteFromBuyerCap`. Amounts are natural numbers:
-- the caller has checked that the buyer's price is an integer from 1 to 1,000,000,000. The binary
-- search takes fuel; `Money/Fees/Search.antt` shows that the fuel given is enough.
pub mod Grid
pub mod Search
pub mod Optimal
use steam_bee.Common.{
  ℕ, zero, suc, ◌+◌, ◌*◌, ◌/◌, Bool, Option, none, some, List, ok, err, ◌>>=◌, leb, ◌==◌,
  if◌then◌else◌,
}
use steam_bee.Money.{Money, Rate, Wallet, below_minimum_fees}
use steam_bee.Money.Parse.{parse_rate}

unfoldable pub fee : ℕ → Rate → Wallet → ℕ
fee base rate w =
    if rate.numerator == 0
    then 0
    else let floor = base * rate.numerator / rate.denominator in
      if leb floor w.minimum
      then w.minimum
      else (2 * floor + w.increment) / (2 * w.increment) * w.increment

pub record Quote : Type 0 where
  pub base : ℕ
  pub steam_fee : ℕ
  pub publisher_fee : ℕ
  pub buyer_pays : ℕ

unfoldable pub calculate : Wallet → Rate → ℕ → Quote
calculate w publisher_rate base =
    let steam_fee = fee base w.steam_rate w + w.steam_base in
    let publisher = fee base publisher_rate w in
    record {
      base = base;
      steam_fee = steam_fee;
      publisher_fee = publisher;
      buyer_pays = base + steam_fee + publisher;
    }

-- The `while (low <= high)` loop. Where `middle` is 0 the next `high` is -1, and the loop ends.
unfoldable pub search_quote : ℕ → Wallet → Rate → ℕ → ℕ → ℕ → Option Quote → Option Quote
search_quote zero w r buyer_cap low high best = best
search_quote (suc fuel) w r buyer_cap low high best =
    let middle = (low + high) / 2 in
    let quote = calculate w r (middle * w.increment) in
    let above = search_quote fuel w r buyer_cap (middle + 1) high (some quote) in
    let below : Option Quote = elim middle [
      | zero ↦ best
      | suc m ↦ search_quote fuel w r buyer_cap low m best
    ] in
    if leb low high then (if leb quote.buyer_pays buyer_cap then above else below) else best

unfoldable pub publisher_rate_of : Wallet → Option (List ℕ) → Money Rate
publisher_rate_of w none = ok w.publisher_rate
publisher_rate_of w (some raw) = parse_rate raw

unfoldable pub or_below_minimum : Option Quote → Money Quote
or_below_minimum none = err below_minimum_fees
or_below_minimum (some q) = ok q

-- `null` and `undefined` are `none`; `some` is `String(publisherFee)`.
unfoldable pub quote_from_buyer_cap : ℕ → Wallet → Option (List ℕ) → Money Quote
quote_from_buyer_cap buyer_cap w publisher_fee = do
  rate ← publisher_rate_of w publisher_fee
  let low = w.minimum / w.increment
  let high = buyer_cap / w.increment
  or_below_minimum (search_quote (high + 2) w rate buyer_cap low high none)
