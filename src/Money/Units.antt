-- ===== src/Money/Units.antt =====
-- src/money.ts: the branded amounts, their checks, and the sums and differences of Coin amounts.
use mpulse.Common.{ℕ, Bool, true, false, ◌&&◌, ◌||◌, not, ok, err, if◌then◌else◌}
use mpulse.Common.Int.{ℤ, pos, ◌+ℤ◌, ◌-ℤ◌, ltb_ℤ, eqb_ℤ}
use mpulse.Money.Error.{Money, MoneyError}

abbrev pub coin_micros_per_coin : ℕ
coin_micros_per_coin = 1_000_000

abbrev pub usd_rate_scale : ℕ
usd_rate_scale = 1_000_000_000

unfoldable pub as_non_negative : ℤ → Bool → Money ℤ
as_non_negative value allow_zero =
    if ltb_ℤ value (pos 0)
    then err MoneyError.negative_amount
    else if not allow_zero && eqb_ℤ value (pos 0)
    then err MoneyError.zero_amount
    else ok value

unfoldable pub coin_micros : ℤ → Bool → Money ℤ
unfolding as_non_negative
coin_micros value allow_zero = as_non_negative value allow_zero

unfoldable pub usdt_atomic : ℤ → Bool → Money ℤ
unfolding as_non_negative
usdt_atomic value allow_zero = as_non_negative value allow_zero

unfoldable pub usd_rate_nanos : ℤ → Money ℤ
unfolding as_non_negative
usd_rate_nanos value = as_non_negative value false

-- The unit checks of the sums run with zero allowed.
unfoldable pub add_coins : ℤ → ℤ → Money ℤ
unfolding coin_micros ◌+ℤ◌
add_coins left right = coin_micros (left +ℤ right) true

unfoldable pub subtract_coins : ℤ → ℤ → Money ℤ
unfolding coin_micros ◌-ℤ◌
subtract_coins left right =
    if ltb_ℤ left right then err MoneyError.negative_amount else coin_micros (left -ℤ right) true

unfoldable pub assert_amount_range : ℤ → ℤ → ℤ → Money ℤ
assert_amount_range value low high =
    if ltb_ℤ value low || ltb_ℤ high value then err MoneyError.amount_out_of_range else ok value
