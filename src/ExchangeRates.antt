-- ===== src/ExchangeRates.antt =====
-- src/exchangeRates.ts: the check that every rate quote passes before it is used.
pub mod Validity
mod Tests
use mpulse.Common.{
  ℕ, ◌*◌, Bool, true, false, not, ◌&&◌, ◌||◌, Option, none, some, Result, ok, err, if◌then◌else◌,
  ◌>>=◌, ◌>>◌, throw_if,
}
use mpulse.Common.Int.{ℤ, pos, pos_part, ◌+ℤ◌, ltb_ℤ, leb_ℤ, eqb_ℤ}
use mpulse.Common.Text.{Text, codes, trim, text_eq, is_empty}
use mpulse.Money.Error.{Money}
use mpulse.Money.Decimal.{parse_usd_rate}
use mpulse.Money.Quote.{assert_fresh_quote}

pub data RatePurpose : Type 0 where
  deposit_final withdrawal_indicative withdrawal_final : RatePurpose

pub data RateKind : Type 0 where
  indicative final : RateKind

pub record UsdQuote : Type 0 where
  pub asset : Text
  pub network : Text
  pub amount_usdt_atomic : ℤ
  pub usd_rate_nanos : ℤ
  pub rate_decimal : Text
  pub source : Text
  pub quoted_at : Text
  pub expires_at : Text
  pub kind : RateKind
  pub purpose : RatePurpose

pub data ExchangeRateError : Type 0 where
  rate_unavailable rate_stale rate_asset_unsupported : ExchangeRateError
  rate_provider_invalid rate_response_invalid : ExchangeRateError

abbrev pub supported_settlement_asset : Text
supported_settlement_asset = codes "USDT"

abbrev pub supported_settlement_network : Text
supported_settlement_network = codes "TRON"

pub record ValidateOptions : Type 0 where
  pub ttl_seconds : ℤ
  pub now : ℤ
  pub expected_purpose : Option RatePurpose
  pub expected_kind : Option RateKind
  pub expected_amount_usdt_atomic : Option ℤ

unfoldable pub same_purpose : RatePurpose → RatePurpose → Bool
same_purpose RatePurpose.deposit_final RatePurpose.deposit_final = true
same_purpose RatePurpose.withdrawal_indicative RatePurpose.withdrawal_indicative = true
same_purpose RatePurpose.withdrawal_final RatePurpose.withdrawal_final = true
same_purpose _ _ = false

unfoldable pub same_kind : RateKind → RateKind → Bool
same_kind RateKind.indicative RateKind.indicative = true
same_kind RateKind.final RateKind.final = true
same_kind _ _ = false

-- `expected && actual !== expected`
abbrev pub differs : {A : Type 0} → (A → A → Bool) → Option A → A → Bool
differs same none actual = false
differs same (some expected) actual = not (same actual expected)

-- The tests on the parsed dates.
unfoldable pub expiry_invalid : ValidateOptions → Option ℤ → Option ℤ → Bool
unfolding ◌+ℤ◌
expiry_invalid options none expires_at = true
expiry_invalid options (some quoted_at) none = true
expiry_invalid options (some quoted_at) (some expires_at) =
    leb_ℤ expires_at quoted_at
    || ltb_ℤ (options.now +ℤ pos 1000) quoted_at
    || ltb_ℤ (quoted_at +ℤ pos (pos_part options.ttl_seconds * 1000)) expires_at
    || leb_ℤ expires_at options.now

-- `parseUsdRate(...)` returned, and equals the integer rate.
unfoldable pub rate_matches : Money ℤ → ℤ → Bool
rate_matches (err _) rate = false
rate_matches (ok parsed_rate) rate = eqb_ℤ parsed_rate rate

abbrev pub is_ok : {E A : Type 0} → Result E A → Bool
is_ok (ok _) = true
is_ok (err _) = false

module _ (date_parse : Text → Option ℤ) where
  -- The body of the `try`, in its order: whatever it throws, the `catch` maps to one error.
  unfoldable pub quote_is_current : UsdQuote → ValidateOptions → Bool
  quote_is_current quote options =
      rate_matches (parse_usd_rate quote.rate_decimal) quote.usd_rate_nanos
      && is_ok (assert_fresh_quote date_parse quote.quoted_at options.ttl_seconds options.now)
      && not (expiry_invalid options (date_parse quote.quoted_at) (date_parse quote.expires_at))

  unfoldable pub validate_usd_quote : UsdQuote → ValidateOptions → Result ExchangeRateError UsdQuote
  validate_usd_quote quote options = do
    throw_if
        (not (text_eq quote.asset supported_settlement_asset)
          || not (text_eq quote.network supported_settlement_network))
        ExchangeRateError.rate_asset_unsupported
    throw_if (is_empty (trim quote.source)) ExchangeRateError.rate_provider_invalid
    throw_if
        (differs same_purpose options.expected_purpose quote.purpose
          || differs same_kind options.expected_kind quote.kind
          || differs eqb_ℤ options.expected_amount_usdt_atomic quote.amount_usdt_atomic)
        ExchangeRateError.rate_provider_invalid
    throw_if (not (quote_is_current quote options)) ExchangeRateError.rate_stale
    ok quote
