-- ===== src/Wallets/Parse.antt =====
-- src/coinWallets.ts: the checks of what a request gives. A value of type `unknown` is `none` where
-- it is not a string, and an optional text may also be missing.
use mpulse.Common.{
  ℕ, Bool, true, false, not, ◌&&◌, ◌||◌, Option, none, some, [], ◌∷◌, ok, err, ◌>>=◌, ◌>>◌,
  throw_if, if◌then◌else◌, ltb, leb, ◌==◌, length,
}
use mpulse.Common.Int.{ℤ, pos, neg}
use mpulse.Common.Text.{Text, codes, trim, is_empty, text_eq}
use mpulse.Money.Decimal.{is_digit, digits_value}
use mpulse.Wallets.Types.{WalletError, Wallet, ProviderOutcome}

abbrev pub all_of : (ℕ → Bool) → Text → Bool
all_of test [] = true
all_of test (c ∷ s) = test c && all_of test s

-- `/^[1-9]\d*$/`
unfoldable pub is_positive_integer : Text → Bool
unfolding is_digit
is_positive_integer [] = false
is_positive_integer (c ∷ s) = is_digit c && not (c == b'0') && all_of is_digit s

-- `/^\d+$/`
unfoldable pub is_integer : Text → Bool
unfolding is_digit
is_integer s = not (is_empty s) && all_of is_digit s

-- `assertPgBigint`
unfoldable pub assert_pg_bigint : ℕ → Wallet ℕ
assert_pg_bigint n = do
  throw_if (ltb 9_223_372_036_854_775_807 n) WalletError.invalid_coin_amount
  ok n

unfoldable pub parse_positive : WalletError → Option Text → Wallet ℕ
unfolding is_positive_integer assert_pg_bigint digits_value
parse_positive error none = err error
parse_positive error (some value) = do
  throw_if (not (is_positive_integer (trim value))) error
  assert_pg_bigint (digits_value 0 (trim value))

abbrev pub parse_positive_coin_micros : Option Text → Wallet ℕ
parse_positive_coin_micros = parse_positive WalletError.invalid_coin_amount

abbrev pub parse_positive_usdt_atomic : Option Text → Wallet ℕ
parse_positive_usdt_atomic = parse_positive WalletError.invalid_usdt_amount

-- The sign of a delta, and its digits.
unfoldable pub signed_digits : Text → Bool × Text
signed_digits [] = (false, [])
signed_digits (c ∷ s) = if c == b'-' then (true, s) else (false, c ∷ s)

-- `/^-?[1-9]\d*$/`, then the range of a signed bigint.
unfoldable pub parse_signed_coin_delta : Option Text → Wallet ℤ
unfolding is_positive_integer digits_value signed_digits neg
parse_signed_coin_delta none = err WalletError.invalid_coin_amount
parse_signed_coin_delta (some value) =
    let (negative, digits) = signed_digits (trim value) in
    let amount = digits_value 0 digits in
    do
      throw_if (not (is_positive_integer digits)) WalletError.invalid_coin_amount
      throw_if
          (ltb (if negative then 9_223_372_036_854_775_808 else 9_223_372_036_854_775_807) amount)
          WalletError.invalid_coin_amount
      ok (if negative then neg (pos amount) else pos amount)

unfoldable pub parse_idempotency_key : Option Text → Wallet Text
parse_idempotency_key none = err WalletError.idempotency_key_required
parse_idempotency_key (some value) = do
  throw_if (is_empty (trim value)) WalletError.idempotency_key_required
  throw_if (ltb 200 (length (trim value))) WalletError.idempotency_key_required
  ok (trim value)

unfoldable pub required_text : Option Text → Wallet Text
required_text none = err WalletError.invalid_coin_wallet_request
required_text (some value) = do
  throw_if (is_empty (trim value)) WalletError.invalid_coin_wallet_request
  ok (trim value)

unfoldable pub required_reason : Option Text → Wallet Text
unfolding required_text
required_reason value = do
  reason ← required_text value
  throw_if (ltb (length reason) 5) WalletError.admin_reason_required
  ok reason

-- `none` for `undefined`, `null` and the empty text; `some none` for another value.
unfoldable pub optional_reason : Option (Option Text) → Wallet (Option Text)
unfolding required_text
optional_reason none = ok none
optional_reason (some none) = err WalletError.invalid_coin_wallet_request
optional_reason (some (some value)) =
    if is_empty value then ok none else required_text (some value) >>= λ reason. ok (some reason)

unfoldable pub parse_optional_atomic_fee : Option Text → ℕ → Wallet ℕ
unfolding is_integer assert_pg_bigint digits_value
parse_optional_atomic_fee none fallback = ok fallback
parse_optional_atomic_fee (some value) fallback = do
  throw_if (not (is_integer value)) WalletError.invalid_usdt_amount
  assert_pg_bigint (digits_value 0 value)

abbrev pub is_lower_hex : ℕ → Bool
is_lower_hex c = leb b'0' c && leb c b'9' || leb b'a' c && leb c b'f'

-- `timestamp` is what `Date.parse` gives for the time of the outcome.
unfoldable pub validate_verified_outcome : Option ℤ → ProviderOutcome → Wallet ProviderOutcome
unfolding required_text
validate_verified_outcome timestamp o = do
  throw_if (not o.verified || not (text_eq o.outcome_provider (codes "fireblocks")))
      WalletError.invalid_coin_wallet_request
  reference ← required_text (some o.provider_reference)
  throw_if (not (length o.evidence_hash == 64 && all_of is_lower_hex o.evidence_hash))
      WalletError.invalid_coin_wallet_request
  throw_if (elim timestamp [ none ↦ true | some t ↦ false ]) WalletError.invalid_coin_wallet_request
  ok o
