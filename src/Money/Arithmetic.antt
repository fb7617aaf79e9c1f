-- ===== src/Money/Arithmetic.antt =====
-- src/money.ts: `multiplyDivide`, the conversions between Coin and USDT, and the fee.
pub mod Rounding
pub mod Conversion
pub mod Fee
use mpulse.Common.{ℕ, ◌+◌, ◌*◌, ◌/◌, ◌%◌, true, ◌||◌, ok, err, if◌then◌else◌, ltb, leb, ◌==◌, ◌>>=◌}
use mpulse.Common.Int.{ℤ, pos, pos_part, ltb_ℤ, leb_ℤ}
use mpulse.Money.Error.{Money, MoneyError, RoundingMode}
use mpulse.Money.Units.{coin_micros, usdt_atomic, usd_rate_scale}

-- The last lines of `multiplyDivide`, on a quotient and its remainder.
round_quotient : RoundingMode → ℕ → ℕ → ℕ → ℕ
round_quotient RoundingMode.down quotient remainder divisor = quotient
round_quotient RoundingMode.up quotient remainder divisor =
    if remainder == 0 then quotient else quotient + 1
round_quotient RoundingMode.half_up quotient remainder divisor =
    if remainder == 0
    then quotient
    else if leb divisor (remainder * 2)
    then quotient + 1
    else quotient

-- Past the guards the operands are not negative, so the division is that of ℕ.
unfoldable pub multiply_divide : ℤ → ℤ → ℤ → RoundingMode → Money ℤ
unfolding round_quotient
multiply_divide value multiplier divisor rounding =
    let numerator = pos_part value * pos_part multiplier in
    let quotient = numerator / pos_part divisor in
    let remainder = numerator % pos_part divisor in
    if leb_ℤ divisor (pos 0)
    then err MoneyError.division_by_zero
    else if ltb_ℤ value (pos 0) || ltb_ℤ multiplier (pos 0)
    then err MoneyError.negative_amount
    else ok (pos (round_quotient rounding quotient remainder (pos_part divisor)))

unfoldable pub usdt_to_coin_micros : ℤ → ℤ → RoundingMode → Money ℤ
usdt_to_coin_micros amount rate rounding = do
  value ← multiply_divide amount rate (pos usd_rate_scale) rounding
  coin_micros value true

unfoldable pub coin_micros_to_usdt : ℤ → ℤ → RoundingMode → Money ℤ
coin_micros_to_usdt amount rate rounding = do
  value ← multiply_divide amount (pos usd_rate_scale) rate rounding
  usdt_atomic value true

unfoldable pub calculate_fee : ℤ → ℤ → ℤ → RoundingMode → Money ℤ
calculate_fee amount basis_points minimum rounding =
    if ltb_ℤ basis_points (pos 0) || ltb_ℤ (pos 10_000) basis_points || ltb_ℤ minimum (pos 0)
    then err MoneyError.amount_out_of_range
    else do
      proportional ← multiply_divide amount basis_points (pos 10_000) rounding
      ok (if ltb_ℤ minimum proportional then proportional else minimum)
