-- ===== src/Money/Fees/Search.antt =====
-- apps/server/src/inventory/money.ts: the binary search of `quoteFromBuyerCap` finds the highest
-- price on the wallet's grid that the buyer's price covers.
use steam_bee.Common.{
  ℕ, zero, suc, ◌+◌, ◌*◌, ◌/◌, ◌≤◌, ◌<◌, ◌≡◌, refl, Option, none, some, arith, leb, Bool-cases, inl,
  inr, leb→le,
}
use native.Mathlib.Nat.{div-lt_iff_lt-mul}
use steam_bee.Money.{Rate, Wallet, IsRate, IsWallet}
use steam_bee.Money.Fees.{Quote, calculate, search_quote}
use steam_bee.Money.Fees.Grid.{price, price_mono, base-le-price}

module _ (w : Wallet) (r : Rate) (buyer_cap lowest : ℕ) where
  abbrev pub IsHighest : Option Quote → Type 0
  IsHighest none = (m : ℕ) → lowest ≤ m → buyer_cap < price w r m
  IsHighest (some q) =
      (m : ℕ) × (lowest ≤ m)
      × (q ≡ calculate w r (m * w.increment))
      × (price w r m ≤ buyer_cap)
      × ((n : ℕ) → price w r n ≤ buyer_cap → n ≤ m)

  abbrev IsBestBelow : ℕ → Option Quote → Type 0
  IsBestBelow low none = low ≡ lowest
  IsBestBelow low (some q) =
      (m : ℕ) × (low ≡ suc m)
      × (lowest ≤ m)
      × (q ≡ calculate w r (m * w.increment))
      × (price w r m ≤ buyer_cap)

  abbrev IsTooHigh : ℕ → Type 0
  IsTooHigh high = (n : ℕ) → high < n → buyer_cap < price w r n

  finished :
      (low high : ℕ) (best : Option Quote)
      → high < low
      → IsBestBelow low best
      → IsTooHigh high
      → IsHighest best
  finished low high none h b t = λ m l. t m (omega arith)
  finished low high (some q) h (m, e, l, is, fits) t = (m, l, is, fits, λ n p. ground (arith, t n))

  module _ (vr : IsRate r) (vw : IsWallet w) where
    too_high : (m : ℕ) → buyer_cap < price w r m → (n : ℕ) → m ≤ n → buyer_cap < price w r n
    too_high m h n l = omega (arith, price_mono w r m n vr vw l)

    bottom :
        (low : ℕ) (best : Option Quote)
        → low ≤ 0
        → IsBestBelow low best
        → buyer_cap < price w r 0
        → IsHighest best
    bottom low none h b over = λ m l. too_high 0 over m (omega arith)
    bottom low (some q) h (m, e, _, _, _) over = absurd (omega arith)

    -- The branch that lowers `high`, at the value of `middle`.
    lower :
        (fuel low middle : ℕ) (best : Option Quote)
        → low ≤ middle
        → IsBestBelow low best
        → buyer_cap < price w r middle
        → ((m : ℕ) → middle ≡ suc m → IsHighest (search_quote fuel w r buyer_cap low m best))
        → IsHighest
            (elim middle [ zero ↦ best | suc m ↦ search_quote fuel w r buyer_cap low m best ])
    lower fuel low zero best l b over rec = bottom low best l b over
    lower fuel low (suc m) best l b over rec = rec m refl

    pub search_quote-IsHighest :
        (fuel low high : ℕ) (best : Option Quote)
        → high + 1 < fuel + low
        → lowest ≤ low
        → IsBestBelow low best
        → IsTooHigh high
        → IsHighest (search_quote fuel w r buyer_cap low high best)
    unfolding search_quote
    search_quote-IsHighest zero low high best f l b t = finished low high best (omega arith) b t
    search_quote-IsHighest (suc fuel) low high best f l b t =
        let middle = (low + high) / 2 in
        elim (Bool-cases (leb low high)) [
          | inr past ↦ rw past (finished low high best (ground arith) b t)
          | inl more ↦ rw more (elim (Bool-cases (leb (price w r middle) buyer_cap)) [
            | inl fits ↦ rw fits (
                search_quote-IsHighest fuel (middle + 1) high
                  (some (calculate w r (middle * w.increment))) (ground arith) (ground arith)
                  (middle, omega arith, ground arith, refl, leb→le _ _ fits) t)
            | inr over ↦
                let above : buyer_cap < price w r middle = ground arith in
                rw over (
                  lower fuel low middle best (ground arith) b above λ m e.
                    search_quote-IsHighest fuel low m best (ground arith) l b
                      λ n h. too_high middle above n (omega arith))
          ])
        ]

    -- The search that `quote_from_buyer_cap` starts.
    pub search_quote-start :
        (fuel : ℕ)
        → buyer_cap / w.increment + 1 < fuel
        → IsHighest (search_quote fuel w r buyer_cap lowest (buyer_cap / w.increment) none)
    search_quote-start fuel f =
        search_quote-IsHighest fuel lowest (buyer_cap / w.increment) none (omega arith)
          (omega arith) refl
          λ n h. omega (arith, (div-lt_iff_lt-mul vw.increment_pos).0 h, base-le-price w r n)
