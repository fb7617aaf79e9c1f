-- ===== src/Money/Tests.antt =====
-- Runs of the decimal and amount functions of src/money.ts on concrete inputs.
use mpulse.Common.{◌≡◌, refl, true, ok, err, ℕ, ◌*◌, ◌≤◌, ◌<◌, ◌+◌, max, ◌>>=◌, arith}
use mpulse.Money.Arithmetic.{
  multiply_divide, usdt_to_coin_micros, coin_micros_to_usdt, calculate_fee,
}
use mpulse.Money.Arithmetic.Rounding.{IsRounded, multiply_divide-IsRounded}
use mpulse.Money.Arithmetic.Conversion.{conversion_no_gain}
use mpulse.Money.Arithmetic.Fee.{calculate_fee_bounds}
use mpulse.Money.Decimal.Spelling.{minus}
use mpulse.Money.Decimal.Stored.{parse_stored_padded}
use mpulse.Money.Decimal.RoundTrip.{parse-format_atomic}
use mpulse.Common.Int.{pos, negsuc}
use mpulse.Common.Text.{codes, trim}
use mpulse.Money.Error.{MoneyError, RoundingMode}
use mpulse.Money.Decimal.{
  parse_coins, format_atomic, parse_decimal_to_atomic, parse_stored_decimal_to_atomic, is_digit,
  parse_matched, plain_options, match_decimal, decimal_value, check_decimal, parse_stored_matched,
  all_zeros, spell_decimal, to_text, pad_start, pad_end, strip_zeros,
}

parse_coins-padded : parse_coins (codes " 12.5 ") true ≡ ok (pos 12500000)
unfolding parse_coins parse_decimal_to_atomic parse_matched trim match_decimal decimal_value pad_end
    check_decimal
parse_coins-padded = refl

parse_coins-excess : parse_coins (codes "1.2345678") true ≡ err MoneyError.invalid_decimal
unfolding parse_coins parse_decimal_to_atomic parse_matched trim match_decimal decimal_value pad_end
    check_decimal
parse_coins-excess = refl

parse_stored-zeros :
    parse_stored_decimal_to_atomic
      (codes "-1.50000000")
      6
      (record { allow_negative = true; allow_zero = true })
    ≡ ok (negsuc 1499999)
unfolding parse_stored_decimal_to_atomic parse_stored_matched all_zeros spell_decimal
    parse_decimal_to_atomic parse_matched trim match_decimal decimal_value pad_end check_decimal
parse_stored-zeros = refl

format_atomic-cents : format_atomic (negsuc 1249999) 6 2 ≡ codes "-1.25"
unfolding format_atomic to_text pad_start pad_end strip_zeros
format_atomic-cents = refl

format_atomic-whole : format_atomic (pos 3000000) 6 0 ≡ codes "3"
unfolding format_atomic to_text pad_start pad_end strip_zeros
format_atomic-whole = refl

multiply_divide-IsRounded_example :
    (q : ℕ) × (multiply_divide (pos 10) (pos 2) (pos 3) RoundingMode.half_up ≡ ok (pos q))
    × IsRounded RoundingMode.half_up (10 * 2) 3 q
multiply_divide-IsRounded_example =
    multiply_divide-IsRounded RoundingMode.half_up 10 2 3 (omega arith)

conversion_no_gain_example :
    (back : ℕ) × ((coin_micros_to_usdt (pos 5000000) (pos 990000000) RoundingMode.down >>= λ u.
    usdt_to_coin_micros u (pos 990000000) RoundingMode.down)
      ≡ ok (pos back))
    × (back ≤ 5000000)
conversion_no_gain_example = conversion_no_gain 5000000 990000000 (omega arith)

calculate_fee_bounds_example :
    (fee : ℕ) × (calculate_fee (pos 1000000) (pos 250) (pos 100) RoundingMode.up ≡ ok (pos fee))
    × (100 ≤ fee)
    × (1000000 * 250 ≤ fee * 10_000)
    × (fee * 10_000 < max (100 * 10_000 + 1) (1000000 * 250 + 10_000))
    × (100 ≤ 1000000 → fee ≤ 1000000)
calculate_fee_bounds_example = calculate_fee_bounds 1000000 250 100 (omega arith)

parse-format_atomic_example :
    parse_decimal_to_atomic (format_atomic (negsuc 1249999) 6 2) 6 plain_options
    ≡ ok (negsuc 1249999)
parse-format_atomic_example = parse-format_atomic (negsuc 1249999) 6 2 (omega arith)

parse_stored_padded_example :
    parse_stored_decimal_to_atomic
      (spell_decimal (codes "-") (codes "12") (pad_end (codes "5") 8))
      6
      plain_options
    ≡ parse_decimal_to_atomic (spell_decimal (codes "-") (codes "12") (codes "5")) 6 plain_options
unfolding is_digit
parse_stored_padded_example =
    parse_stored_padded (codes "12") (codes "5") 6 8 plain_options minus (refl, (refl, tt)) refl
      (refl, tt) (omega arith) (omega arith)
