-- ===== src/ExchangeRates/Validity.antt =====
-- What a quote that passes `validateUsdQuote` satisfies.
use mpulse.Common.{◌*◌, ◌≡◌, refl, ap, true, false, Option, none, some, ok, err, arith}
use mpulse.Common.Int.{ℤ, pos, pos_part, ◌+ℤ◌, ◌<ℤ◌, ◌≤ℤ◌, eqb_ℤ, eqb_ℤ→eq}
use mpulse.Common.Text.{Text, trim, text_eq→eq, is_empty}
use mpulse.Money.Error.{Money}
use mpulse.Money.Decimal.{parse_usd_rate}
use mpulse.ExchangeRates.{
  UsdQuote, ValidateOptions, supported_settlement_asset, supported_settlement_network, differs,
  rate_matches, same_purpose, same_kind, expiry_invalid, quote_is_current, validate_usd_quote,
}

-- A current quote: its two rates agree, it was not made in the future (a second of clock skew
-- aside), and now lies before its expiry, which lies within the time to live.
pub record IsCurrent (quote : UsdQuote) (options : ValidateOptions) (quoted_at expires_at : ℤ)
    : Type 0 where
  pub rate : parse_usd_rate quote.rate_decimal ≡ ok quote.usd_rate_nanos
  pub not_future : quoted_at ≤ℤ options.now +ℤ pos 1000
  pub unexpired : options.now <ℤ expires_at
  pub short : expires_at ≤ℤ quoted_at +ℤ pos (pos_part options.ttl_seconds * 1000)
  pub ordered : quoted_at <ℤ expires_at

-- The expiry test lets through only parsed dates in order.
expiry_valid :
    (options : ValidateOptions) (made ends : Option ℤ)
    → expiry_invalid options made ends ≡ false
    → (m e : ℤ) × (made ≡ some m)
      × (ends ≡ some e)
      × (m ≤ℤ options.now +ℤ pos 1000)
      × (options.now <ℤ e)
      × (e ≤ℤ m +ℤ pos (pos_part options.ttl_seconds * 1000))
      × (m <ℤ e)
unfolding expiry_invalid
expiry_valid options none ends h = cc
expiry_valid options (some m) none h = cc
expiry_valid options (some m) (some e) h =
    (m, e, refl, refl, ground arith, ground arith, ground arith, ground arith)

rate_matches-eq : (r : Money ℤ) (rate : ℤ) → rate_matches r rate ≡ true → r ≡ ok rate
unfolding rate_matches
rate_matches-eq (err _) rate h = cc
rate_matches-eq (ok parsed) rate h = ap ok (eqb_ℤ→eq parsed rate h)

-- A current quote has a rate that reads as the integer rate, and passes the expiry test.
current_parts :
    (date_parse : Text → Option ℤ) (quote : UsdQuote) (options : ValidateOptions)
    → quote_is_current date_parse quote options ≡ true
    → (parse_usd_rate quote.rate_decimal ≡ ok quote.usd_rate_nanos)
      × (expiry_invalid options (date_parse quote.quoted_at) (date_parse quote.expires_at) ≡ false)
unfolding quote_is_current
current_parts date_parse quote options h =
    ground (arith, rate_matches-eq (parse_usd_rate quote.rate_decimal) quote.usd_rate_nanos)

module _ (date_parse : Text → Option ℤ) (quote : UsdQuote) (options : ValidateOptions) where
  -- The conditions under which the code accepts.
  pub record Accepts : Type 0 where
    pub asset : quote.asset ≡ supported_settlement_asset
    pub network : quote.network ≡ supported_settlement_network
    pub source : is_empty (trim quote.source) ≡ false
    pub purpose : differs same_purpose options.expected_purpose quote.purpose ≡ false
    pub kind : differs same_kind options.expected_kind quote.kind ≡ false
    pub amount : differs eqb_ℤ options.expected_amount_usdt_atomic quote.amount_usdt_atomic ≡ false
    pub current : quote_is_current date_parse quote options ≡ true

  validate-Accepts :
      (q : UsdQuote) → validate_usd_quote date_parse quote options ≡ ok q → (q ≡ quote) × Accepts
  unfolding validate_usd_quote
  validate-Accepts q h = ground (
    arith,
    text_eq→eq quote.asset supported_settlement_asset,
    text_eq→eq quote.network supported_settlement_network,
  )

-- A quote that passes is the one that was given, for USDT on TRON with a named source, for the
-- purpose, the kind and the amount that were asked for, and current at the time of the check.
pub validate_usd_quote_sound :
    (date_parse : Text → Option ℤ) (quote : UsdQuote) (options : ValidateOptions) (q : UsdQuote)
    → validate_usd_quote date_parse quote options ≡ ok q
    → (q ≡ quote)
      × Accepts date_parse quote options
      × (made ends : ℤ) × (date_parse quote.quoted_at ≡ some made)
      × (date_parse quote.expires_at ≡ some ends)
      × IsCurrent quote options made ends
validate_usd_quote_sound date_parse quote options q h =
    let (same, accepts) = validate-Accepts date_parse quote options q h in
    let (rate, unexpired) = current_parts date_parse quote options accepts.current in
    let (m, e, em, ee, a, b, c, d) = expiry_valid options _ _ unexpired in
    (
      same,
      accepts,
      m,
      e,
      em,
      ee,
      record { rate = rate; not_future = a; unexpired = b; short = c; ordered = d },
    )
