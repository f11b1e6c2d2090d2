-- ===== src/Money/Fees/Optimal.antt =====
-- apps/server/src/inventory/money.ts: what `quoteFromBuyerCap` returns.
use steam_bee.Common.{ℕ, ◌+◌, ◌/◌, ◌≡◌, refl, Option, none, some, List, ok, err, arith}
use steam_bee.Money.{Money, Rate, Wallet, IsRate, IsWallet, below_minimum_fees}
use steam_bee.Money.Parse.Laws.{parse_rate-IsRate}
use steam_bee.Money.Fees.{
  Quote, search_quote, publisher_rate_of, or_below_minimum, quote_from_buyer_cap,
}
use steam_bee.Money.Fees.Search.{IsHighest, search_quote-start}

publisher_rate_of-IsRate :
    (w : Wallet) (publisher_fee : Option (List ℕ)) (r : Rate)
    → IsWallet w
    → publisher_rate_of w publisher_fee ≡ ok r
    → IsRate r
unfolding publisher_rate_of
publisher_rate_of-IsRate w none r v h = ground arith
publisher_rate_of-IsRate w (some raw) r v h = parse_rate-IsRate raw h

-- The quote is the highest price that the cap covers; the error says that there is none.
abbrev pub IsOptimal : Wallet → Rate → ℕ → Money Quote → Type 0
IsOptimal w r buyer_cap (ok q) = IsHighest w r buyer_cap (w.minimum / w.increment) (some q)
IsOptimal w r buyer_cap (err e) =
    (e ≡ below_minimum_fees) × IsHighest w r buyer_cap (w.minimum / w.increment) none

or_below_minimum-IsOptimal :
    (w : Wallet) (r : Rate) (buyer_cap : ℕ) (best : Option Quote)
    → IsHighest w r buyer_cap (w.minimum / w.increment) best
    → IsOptimal w r buyer_cap (or_below_minimum best)
unfolding or_below_minimum
or_below_minimum-IsOptimal w r buyer_cap none h = (refl, h)
or_below_minimum-IsOptimal w r buyer_cap (some q) h = h

-- For a wallet that `parse_wallet` accepts and a publisher fee that `parse_rate` accepts, the code
-- returns a quote or reports that the fees are not covered. The quote is the fee calculation at the
-- highest step of the wallet's price grid, from the wallet's minimum on, at which the buyer pays no
-- more than the cap; no step of the grid above it is within the cap. The error is reported only
-- where every step from the minimum on costs the buyer more than the cap.
pub quote_from_buyer_cap-IsOptimal :
    (buyer_cap : ℕ) (w : Wallet) (publisher_fee : Option (List ℕ)) (r : Rate)
    → IsWallet w
    → publisher_rate_of w publisher_fee ≡ ok r
    → IsOptimal w r buyer_cap (quote_from_buyer_cap buyer_cap w publisher_fee)
unfolding quote_from_buyer_cap
quote_from_buyer_cap-IsOptimal buyer_cap w fee r v h =
    let low = w.minimum / w.increment in
    let high = buyer_cap / w.increment in
    rw h (
      or_below_minimum-IsOptimal w r buyer_cap (search_quote (high + 2) w r buyer_cap low high none)
        (search_quote-start w r buyer_cap low (publisher_rate_of-IsRate w fee r v h) v (high + 2)
          (omega arith)))
