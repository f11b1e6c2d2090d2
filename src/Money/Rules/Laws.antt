-- ===== src/Money/Rules/Laws.antt =====
-- apps/server/src/inventory/money.ts: what a quote of `quoteWithRules` keeps to.
use steam_bee.Common.{
  subst, Bool, ◌/◌, ℕ, ◌≤◌, ◌≡◌, ◌||◌, false, Option, some, List, ok, arith, Ensures, Ensures-of,
  Ensures-bind, Ensures-elim, returns, throw_if-eq-ok,
}
use steam_bee.Common.Int.{ℤ, Number, int, pos, ◌+ℤ◌, ◌≤ℤ◌}
use steam_bee.Money.{Rate, Wallet, Settings, IsWallet}
use steam_bee.Money.Units.{to_minor_units, from_minor_units}
use steam_bee.Money.Fees.{Quote, publisher_rate_of, quote_from_buyer_cap}
use steam_bee.Money.Fees.Optimal.{IsOptimal, quote_from_buyer_cap-IsOptimal}
use steam_bee.Money.Fees.Search.{IsHighest}
use steam_bee.Money.Rules.{
  max_price, validate_price_settings, reference_price, adjusted_price, check_bounds,
  quote_with_rules, below_limit, above_limit,
}

-- An amount in minor units within the user's limits, as far as they are set.
pub record IsWithin (s : Settings) (a : ℤ) : Type 0 where
  pub at_least : (m : ℤ) → s.min_buyer_price ≡ some (int m) → m ≤ℤ a
  pub at_most : (m : ℤ) → s.max_buyer_price ≡ some (int m) → a ≤ℤ m

pub record IsChecked (w : Wallet) (s : Settings) (steam_price : ℕ) : Type 0 where
  pub amount : ℤ
  pub converts : to_minor_units (int (pos steam_price)) w.currency ≡ ok amount
  pub within : IsWithin s amount

IsWithin-of :
    (s : Settings) (a : ℤ)
    → below_limit a s.min_buyer_price ≡ false
    → above_limit a s.max_buyer_price ≡ false
    → IsWithin s a
IsWithin-of s a lo hi = record { at_least = λ m e. ground arith; at_most = λ m e. ground arith }

or_false : (a b : Bool) → (a || b) ≡ false → (a ≡ false) × (b ≡ false)
or_false a b h = ground arith

check_bounds-IsChecked :
    (w : Wallet) (s : Settings) (steam_price : ℕ)
    → Ensures (λ _. IsChecked w s steam_price) (check_bounds w s steam_price)
unfolding check_bounds
check_bounds-IsChecked w s p = Ensures-bind (to_minor_units (int (pos p)) w.currency) _ λ a e.
    Ensures-of λ _ t.
      let low = below_limit a s.min_buyer_price in
      let high = above_limit a s.max_buyer_price in
      let clear = or_false low high (throw_if-eq-ok (low || high) _ t) in
      record { amount = a; converts = e; within = IsWithin-of s a clear.0 clear.1 }

-- The adjusted reference price, as the code computes it.
pub record IsAdjusted (reference : Number) (w : Wallet) (s : Settings) (buyer_cap : ℕ)
    : Type 0 where
  pub price : ℕ
  pub adjustment : ℤ
  pub is_reference : reference ≡ int (pos price)
  pub converts : from_minor_units s.adjustment w.currency ≡ ok adjustment
  pub is_sum : pos buyer_cap ≡ pos price +ℤ adjustment
  pub range : (1 ≤ buyer_cap) × (buyer_cap ≤ max_price)

reference_price-lem :
    (w : Wallet) (reference : Number) (n : ℕ)
    → reference_price w reference ≡ ok n
    → reference ≡ int (pos n)
reference_price-lem w reference n h = ground arith

adjusted_price-lem :
    (z : ℤ) (n : ℕ) → adjusted_price z ≡ ok n → (pos n ≡ z) × (1 ≤ n) × (n ≤ max_price)
adjusted_price-lem z n h = ground arith

pub record IsRuled (reference : Number) (w : Wallet) (s : Settings) (r : Rate) (q : Quote)
    (buyer_cap : ℕ) : Type 0 where
  pub adjusted : IsAdjusted reference w s buyer_cap
  pub cap_checked : IsChecked w s buyer_cap
  pub price_checked : IsChecked w s q.buyer_pays
  pub highest : IsHighest w r buyer_cap (w.minimum / w.increment) (some q)

quote-IsHighest :
    (buyer_cap : ℕ) (w : Wallet) (publisher_fee : Option (List ℕ)) (r : Rate) (q : Quote)
    → IsWallet w
    → publisher_rate_of w publisher_fee ≡ ok r
    → quote_from_buyer_cap buyer_cap w publisher_fee ≡ ok q
    → IsHighest w r buyer_cap (w.minimum / w.increment) (some q)
quote-IsHighest buyer_cap w fee r q v h e =
    subst (IsOptimal w r buyer_cap) e (quote_from_buyer_cap-IsOptimal buyer_cap w fee r v h)

quote_with_rules-Ensures :
    (reference : Number) (w : Wallet) (publisher_fee : Option (List ℕ)) (s : Settings) (r : Rate)
    → IsWallet w
    → publisher_rate_of w publisher_fee ≡ ok r
    → Ensures
        (λ (result : Quote × ℕ). IsRuled reference w s r result.0 result.1)
        (quote_with_rules reference w publisher_fee s)
unfolding quote_with_rules
quote_with_rules-Ensures reference w fee s r v h =
    Ensures-bind (validate_price_settings w s) _ λ _ _.
      Ensures-bind (reference_price w reference) _ λ price e1.
        Ensures-bind (from_minor_units s.adjustment w.currency) _ λ adjustment e2.
          Ensures-bind (adjusted_price (pos price +ℤ adjustment)) _ λ buyer_cap e3.
            Ensures-bind (check_bounds w s buyer_cap) _ λ _ e4.
              Ensures-bind (quote_from_buyer_cap buyer_cap w fee) _ λ q e5.
                Ensures-bind (check_bounds w s q.buyer_pays) _ λ _ e6. returns (
                  let sum = adjusted_price-lem (pos price +ℤ adjustment) buyer_cap e3 in
                  record {
                    adjusted = record {
                      price = price;
                      adjustment = adjustment;
                      is_reference = reference_price-lem w reference price e1;
                      converts = e2;
                      is_sum = sum.0;
                      range = (sum.1, sum.2);
                    };
                    cap_checked = Ensures-elim _ (check_bounds-IsChecked w s buyer_cap) e4;
                    price_checked = Ensures-elim _ (check_bounds-IsChecked w s q.buyer_pays) e6;
                    highest = quote-IsHighest buyer_cap w fee r q v h e5;
                  })

-- Every quote that `quote_with_rules` returns, for a wallet that `parse_wallet` accepts: the buyer's
-- price limit is the reference price plus the adjustment and lies from 1 to 1,000,000,000; the price
-- that the buyer pays is the highest on the wallet's price grid that does not exceed that limit; and
-- both amounts, in the currency's minor units, keep to the user's minimum and maximum.
pub quote_with_rules-IsRuled :
    (reference : Number) (w : Wallet) (publisher_fee : Option (List ℕ)) (s : Settings) (r : Rate)
    (q : Quote) (buyer_cap : ℕ)
    → IsWallet w
    → publisher_rate_of w publisher_fee ≡ ok r
    → quote_with_rules reference w publisher_fee s ≡ ok (q, buyer_cap)
    → IsRuled reference w s r q buyer_cap
quote_with_rules-IsRuled reference w fee s r q buyer_cap v h =
    Ensures-elim _ (quote_with_rules-Ensures reference w fee s r v h)
