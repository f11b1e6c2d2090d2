-- ===== src/Money/Parse.antt =====
-- apps/server/src/inventory/money.ts: `parseRate`, `integer`, `parseWallet` and the currency table.
-- A text is the list of its character codes. Intl's number of fraction digits is a parameter.
pub mod Laws
use steam_bee.Common.{
  ℕ, ◌+◌, ◌-◌, ◌*◌, ◌%◌, ◌^◌, String, Bool, true, false, not, ◌&&◌, ◌||◌, Option, none, some, List,
  [], ◌∷◌, ◌++◌, foldl, ok, err, ◌>>=◌, ◌>>◌, throw_if, ltb, leb, ◌==◌, if◌then◌else◌, length,
}
use steam_bee.Common.Int.{pos, int}
use steam_bee.Money.Units.{to_minor_units, max_safe_integer}
use steam_bee.Money.{
  Money, MoneyError, Rate, Currency, Wallet, unsupported_fee, invalid_integer, wallet_unavailable,
  currency_unsupported, increments_unsupported,
}

-- A value of Steam's wallet object, with what `String(value)` makes of it.
pub data Unknown : Type 0 where
  undefined null : Unknown
  number text object : List ℕ → Unknown

unfoldable pub to_string : Unknown → List ℕ
to_string undefined = b'u' ∷ b'n' ∷ b'd' ∷ b'e' ∷ b'f' ∷ b'i' ∷ b'n' ∷ b'e' ∷ b'd' ∷ []
to_string null = b'n' ∷ b'u' ∷ b'l' ∷ b'l' ∷ []
to_string (number s) = s
to_string (text s) = s
to_string (object s) = s

-- `left ?? right`
unfoldable pub coalesce : Unknown → Unknown → Unknown
coalesce undefined right = right
coalesce null right = right
coalesce left right = left

abbrev pub is_digit : ℕ → Bool
is_digit c = leb b'0' c && leb c b'9'

abbrev pub all_digits : List ℕ → Bool
all_digits [] = true
all_digits (c ∷ cs) = is_digit c && all_digits cs

-- The value of a text of digits.
abbrev pub decimal : List ℕ → ℕ
decimal = foldl (λ acc c. acc * 10 + (c - b'0')) 0

-- `(?:\.\d{1,8})?$`
matches_fraction : List ℕ → Bool
matches_fraction [] = true
matches_fraction (c ∷ cs) = c == b'.' && all_digits cs && leb 1 (length cs) && leb (length cs) 8

-- `^(?:0|1)(?:\.\d{1,8})?$`
matches_rate : List ℕ → Bool
unfolding matches_fraction
matches_rate [] = false
matches_rate (c ∷ cs) = (c == b'0' || c == b'1') && matches_fraction cs

-- The first part of `raw.split(".")`, and the part behind the first dot.
before_dot : List ℕ → List ℕ
before_dot [] = []
before_dot (c ∷ cs) = let rest = before_dot cs in if c == b'.' then [] else c ∷ rest

pub after_dot : List ℕ → List ℕ
after_dot [] = []
after_dot (c ∷ cs) = let rest = after_dot cs in if c == b'.' then before_dot cs else rest

unfoldable pub parse_rate : List ℕ → Money Rate
unfolding matches_rate before_dot after_dot
parse_rate raw = do
  throw_if (not (matches_rate raw)) unsupported_fee
  let whole = before_dot raw
  let fraction = after_dot raw
  let numerator = decimal (whole ++ fraction)
  let denominator = 10 ^ length fraction
  throw_if (ltb denominator numerator) unsupported_fee
  ok (record { numerator = numerator; denominator = denominator })

matches_integer : List ℕ → Bool
matches_integer [] = false
matches_integer (c ∷ cs) = all_digits (c ∷ cs)

-- `Number(value)` of a text of digits above the safe range is itself unsafe.
unfoldable pub integer : Unknown → ℕ → Money ℕ
unfolding to_string matches_integer
integer value limit = do
  let raw = to_string value
  throw_if (not (matches_integer raw)) invalid_integer
  let result = decimal raw
  throw_if (ltb max_safe_integer result || ltb limit result) invalid_integer
  ok result

abbrev default_limit : ℕ
default_limit = 1_000_000_000

abbrev currency_table : List String
currency_table =
    "USD" ∷ "GBP" ∷ "EUR" ∷ "CHF" ∷ "RUB" ∷ "PLN" ∷ "BRL" ∷ "JPY" ∷ "NOK" ∷ "IDR" ∷ "MYR" ∷ "PHP"
    ∷ "SGD" ∷ "THB" ∷ "VND" ∷ "KRW" ∷ "TRY" ∷ "UAH" ∷ "MXN" ∷ "CAD" ∷ "AUD" ∷ "NZD" ∷ "CNY" ∷ "INR"
    ∷ "CLP" ∷ "PEN" ∷ "COP" ∷ "ZAR" ∷ "HKD" ∷ "TWD" ∷ "SAR" ∷ "AED" ∷ "SEK" ∷ "ARS" ∷ "ILS" ∷ "BYN"
    ∷ "KZT" ∷ "KWD" ∷ "QAR" ∷ "CRC" ∷ "UYU" ∷ "BGN" ∷ []

nth_code : List String → ℕ → Option String
nth_code [] n = none
nth_code (c ∷ cs) n = let rest = nth_code cs (n - 1) in if n == 1 then some c else rest

-- `currencyCodes[id]`; the table's keys are 1 to 42.
unfoldable pub currency_codes : ℕ → Option String
unfolding nth_code
currency_codes id = nth_code currency_table id

pub record RawWallet : Type 0 where
  pub wallet_currency : Unknown
  pub wallet_country : Unknown
  pub wallet_market_minimum : Unknown
  pub wallet_fee_minimum : Unknown
  pub wallet_currency_increment : Unknown
  pub wallet_fee : Unknown
  pub wallet_fee_percent : Unknown
  pub wallet_publisher_fee_percent_default : Unknown
  pub wallet_fee_base : Unknown

is_upper : ℕ → Bool
is_upper c = leb b'A' c && leb c b'Z'

-- `typeof value === "string" && /^[A-Z]{2}$/.test(value)`
unfoldable pub country_of : Unknown → Money (List ℕ)
unfolding is_upper
country_of (text (a ∷ b ∷ [])) =
    if is_upper a && is_upper b then ok (a ∷ b ∷ []) else err wallet_unavailable
country_of other = err wallet_unavailable

abbrev pub or_throw {ℓ} : {A : Type ℓ} → Option A → MoneyError → Money A
or_throw none e = err e
or_throw (some a) e = ok a

-- `value.wallet_fee === 0 || value.wallet_fee === "0"`
is_zero : Unknown → Bool
is_zero (number (c ∷ [])) = c == b'0'
is_zero (text (c ∷ [])) = c == b'0'
is_zero other = false

is_undefined : Unknown → Bool
is_undefined undefined = true
is_undefined other = false

abbrev pub zero_text : List ℕ
zero_text = b'0' ∷ []

unfoldable pub steam_rate_of : RawWallet → Money Rate
unfolding is_zero to_string
steam_rate_of value =
    if is_zero value.wallet_fee
    then parse_rate zero_text
    else parse_rate (to_string value.wallet_fee_percent)

steam_base_of : RawWallet → Money ℕ
unfolding is_undefined coalesce
steam_base_of value =
    if is_undefined value.wallet_market_minimum
    then integer (coalesce value.wallet_fee_base (number zero_text)) default_limit
    else ok 0

abbrev one_text : List ℕ
one_text = b'1' ∷ []

-- `parseWallet` from its check of the increments on.
unfoldable pub checked_wallet : RawWallet → Currency → List ℕ → ℕ → ℕ → Money Wallet
unfolding steam_base_of
checked_wallet value currency country minimum increment = do
  throw_if (ltb minimum 1 || ltb increment 1 || not (minimum % increment == 0))
      increments_unsupported
  steam_rate ← steam_rate_of value
  publisher_rate ← parse_rate (to_string value.wallet_publisher_fee_percent_default)
  steam_base ← steam_base_of value
  _ ← to_minor_units (int (pos minimum)) currency
  step ← to_minor_units (int (pos increment)) currency
  ok (record {
    currency = record currency { price_step = some step };
    country = country;
    minimum = minimum;
    increment = increment;
    steam_rate = steam_rate;
    publisher_rate = publisher_rate;
    steam_base = steam_base;
  })

unfoldable pub wallet_minimum_of : RawWallet → Money ℕ
wallet_minimum_of value =
    integer (coalesce value.wallet_market_minimum value.wallet_fee_minimum) default_limit

unfoldable pub wallet_increment_of : RawWallet → Money ℕ
wallet_increment_of value =
    integer (coalesce value.wallet_currency_increment (number one_text)) default_limit

-- `maximumFractionDigits` of `Intl.NumberFormat` for a currency code is the parameter.
unfoldable pub parse_wallet : (String → Option ℕ) → RawWallet → Money Wallet
parse_wallet fraction_digits value = do
  id ← integer value.wallet_currency 1000
  code ← or_throw (currency_codes id) wallet_unavailable
  country ← country_of value.wallet_country
  minor_unit ← or_throw (fraction_digits code) currency_unsupported
  minimum ← wallet_minimum_of value
  increment ← wallet_increment_of value
  let currency : Currency = record {
    id = id;
    code = code;
    minor_unit = minor_unit;
    price_step = none;
  }
  checked_wallet value currency country minimum increment
