-- ===== src/Money/Units.antt =====
-- apps/server/src/inventory/money.ts: `toMinorUnits`, `fromMinorUnits` and `assertMoneyInput`.
-- BigInt arithmetic is exact; a quotient is taken only where the remainder is 0, so that its sign
-- rule does not matter. `Number(big)` of a value outside the safe range is itself unsafe.
pub mod Laws
use steam_bee.Common.{
  ℕ, ◌+◌, ◌*◌, ◌/◌, ◌%◌, ◌^◌, Bool, true, false, not, ◌||◌, ok, err, ◌>>=◌, ◌>>◌, throw_if, ltb,
  leb, ◌==◌,
}
use steam_bee.Common.Int.{ℤ, Number, int, other, magnitude, map_magnitude}
use steam_bee.Money.{
  Money, Currency, outside_precision, exceeds_limit, not_representable, not_exact_integer,
}

-- `Number.isSafeInteger` of an integral value.
abbrev pub max_safe_integer : ℕ
max_safe_integer = 9_007_199_254_740_991

abbrev pub is_safe : ℤ → Bool
is_safe z = leb (magnitude z) max_safe_integer

-- `minorUnit` is a natural number here, so the tests of its sign and integrality hold.
unfoldable pub assert_money_input : Number → Currency → Money ℤ
assert_money_input other c = err not_exact_integer
assert_money_input (int z) c = do
  throw_if (not (is_safe z) || ltb 3 c.minor_unit) not_exact_integer
  ok z

unfoldable pub to_minor_units : Number → Currency → Money ℤ
unfolding assert_money_input
to_minor_units steam_amount c = do
  z ← assert_money_input steam_amount c
  throw_if (not (magnitude z * 10 ^ c.minor_unit % 100 == 0)) outside_precision
  let amount = map_magnitude (λ m. m * 10 ^ c.minor_unit / 100) z
  throw_if (not (is_safe amount)) exceeds_limit
  ok amount

unfoldable pub from_minor_units : Number → Currency → Money ℤ
unfolding assert_money_input
from_minor_units amount c = do
  z ← assert_money_input amount c
  throw_if (not (magnitude z * 100 % 10 ^ c.minor_unit == 0)) not_representable
  let result = map_magnitude (λ m. m * 100 / 10 ^ c.minor_unit) z
  throw_if (not (is_safe result)) exceeds_limit
  ok result
