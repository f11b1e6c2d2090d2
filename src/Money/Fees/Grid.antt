-- ===== src/Money/Fees/Grid.antt =====
-- apps/server/src/inventory/money.ts: the fee of `fee`, and so the buyer's price, grows with the
-- base price, because the wallet's minimum lies on its price grid.
use steam_bee.Common.{ℕ, ◌+◌, ◌*◌, ◌/◌, ◌%◌, ◌≤◌, ◌<◌, ◌≡◌, arith}
use native.Mathlib.Nat.{mul-le-mul_right, le-div_iff_mul-le, div-mul-le_self, mod-add-div'}
use steam_bee.Money.{Rate, Wallet, IsRate, IsWallet}
use steam_bee.Money.Fees.{fee, calculate}

div_mono : (a b k : ℕ) → 0 < k → a ≤ b → a / k ≤ b / k
div_mono a b k h l = (le-div_iff_mul-le h).1 (omega (arith, div-mul-le_self a k))

-- Rounding to the grid never falls below a number on the grid.
le-round : (m f i : ℕ) → 0 < i → m % i ≡ 0 → m ≤ f → m ≤ (2 * f + i) / (2 * i) * i
le-round m f i h e l =
    let grid : m / i * i ≡ m = omega (arith, mod-add-div' m i) in
    let steps : m / i ≤ (2 * f + i) / (2 * i) =
      (le-div_iff_mul-le {k = 2 * i} (omega arith)).1 (omega (arith, grid)) in
    omega (arith, grid, mul-le-mul_right i steps)

round_mono : (a b i : ℕ) → 0 < i → a ≤ b → (2 * a + i) / (2 * i) * i ≤ (2 * b + i) / (2 * i) * i
round_mono a b i h l =
    mul-le-mul_right i (div_mono (2 * a + i) (2 * b + i) (2 * i) (omega arith) (omega arith))

pub fee_mono :
    (a b : ℕ) (r : Rate) (w : Wallet) → IsRate r → IsWallet w → a ≤ b → fee a r w ≤ fee b r w
unfolding fee
fee_mono a b r w vr vw h =
    let fa = a * r.numerator / r.denominator in
    let fb = b * r.numerator / r.denominator in
    let grows : fa ≤ fb =
      div_mono (a * r.numerator) (b * r.numerator) r.denominator vr.positive
        (mul-le-mul_right r.numerator h) in
    ground (
      arith,
      grows,
      round_mono fa fb w.increment vw.increment_pos grows,
      le-round w.minimum fb w.increment vw.increment_pos vw.on_grid,
    )

-- What the buyer pays at the `m`-th step of the grid.
abbrev pub price : Wallet → Rate → ℕ → ℕ
price w r m = (calculate w r (m * w.increment)).buyer_pays

pub price_mono :
    (w : Wallet) (r : Rate) (m n : ℕ) → IsRate r → IsWallet w → m ≤ n → price w r m ≤ price w r n
unfolding calculate
price_mono w r m n vr vw h =
    let base = mul-le-mul_right w.increment h in
    omega (
      arith,
      base,
      fee_mono (m * w.increment) (n * w.increment) w.steam_rate w vw.steam_IsRate vw base,
      fee_mono (m * w.increment) (n * w.increment) r w vr vw base,
    )

pub base-le-price : (w : Wallet) (r : Rate) (m : ℕ) → m * w.increment ≤ price w r m
unfolding calculate
base-le-price w r m = omega arith
