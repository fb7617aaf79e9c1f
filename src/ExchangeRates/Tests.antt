-- ===== src/ExchangeRates/Tests.antt =====
-- A USD quote of src/exchangeRates.ts that passes its validation.
use mpulse.Common.{◌≡◌, refl, Option, none, some, [], ◌∷◌, ◌==◌, if◌then◌else◌}
use mpulse.Common.Int.{◌+ℤ◌, ◌-ℤ◌, neg}
use mpulse.Common.Text.{text_eq, is_space, trim_start, trim, starts_with}
use mpulse.Common.Equality.{Text-discrete, OptionText-discrete, OptionNat-discrete}
use mpulse.Money.Decimal.{
  is_digit, digits_value, emit_digits, to_text, pad_end, pad_start, span_digits, split_sign,
  match_fraction, match_decimal, apply_sign, decimal_value, check_decimal, parse_matched,
  parse_decimal_to_atomic, all_zeros, spell_decimal, parse_stored_matched,
  parse_stored_decimal_to_atomic, strip_zeros, format_atomic, parse_coins, parse_usdt,
  parse_usd_rate,
}
use mpulse.Money.Arithmetic.{
  multiply_divide, usdt_to_coin_micros, coin_micros_to_usdt, calculate_fee,
}
use mpulse.Money.Quote.{is_quote_stale, assert_fresh_quote}
use mpulse.ExchangeRates.{
  same_purpose, same_kind, expiry_invalid, rate_matches, quote_is_current, validate_usd_quote,
}
use mpulse.Common.Int.{ℤ, pos}
use mpulse.Common.Text.{Text, codes}
use mpulse.ExchangeRates.{RatePurpose, RateKind, UsdQuote, ValidateOptions}
use mpulse.ExchangeRates.Validity.{validate_usd_quote_sound, Accepts, IsCurrent}

-- A clock that reads the texts a and b.
abbrev test_date : Text → Option ℤ
test_date [] = none
test_date (c ∷ rest) = some (if c == 97 then pos 1000 else pos 20000)

abbrev test_quote : UsdQuote
test_quote = record {
  asset = codes "USDT";
  network = codes "TRON";
  amount_usdt_atomic = pos 1000000;
  usd_rate_nanos = pos 999000000;
  rate_decimal = codes "0.999";
  source = codes "provider";
  quoted_at = codes "a";
  expires_at = codes "b";
  kind = RateKind.final;
  purpose = RatePurpose.deposit_final;
}

abbrev test_options : ValidateOptions
test_options = record {
  ttl_seconds = pos 30;
  now = pos 5000;
  expected_purpose = some RatePurpose.deposit_final;
  expected_kind = some RateKind.final;
  expected_amount_usdt_atomic = none;
}

validate_usd_quote_sound_example :
    (test_quote ≡ test_quote)
    × Accepts test_date test_quote test_options
    × (made ends : ℤ) × (test_date test_quote.quoted_at ≡ some made)
    × (test_date test_quote.expires_at ≡ some ends)
    × IsCurrent test_quote test_options made ends
unfolding ◌+ℤ◌ ◌-ℤ◌ neg text_eq is_space trim_start trim starts_with Text-discrete
    OptionText-discrete OptionNat-discrete is_digit digits_value emit_digits to_text pad_end
    pad_start span_digits split_sign match_fraction match_decimal apply_sign decimal_value
    check_decimal parse_matched parse_decimal_to_atomic all_zeros spell_decimal parse_stored_matched
    parse_stored_decimal_to_atomic strip_zeros format_atomic parse_coins parse_usdt parse_usd_rate
    multiply_divide usdt_to_coin_micros coin_micros_to_usdt calculate_fee is_quote_stale
    assert_fresh_quote same_purpose same_kind expiry_invalid rate_matches quote_is_current
    validate_usd_quote
validate_usd_quote_sound_example =
    validate_usd_quote_sound test_date test_quote test_options test_quote refl
