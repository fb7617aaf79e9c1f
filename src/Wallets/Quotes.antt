-- ===== src/Wallets/Quotes.antt =====
-- src/coinWallets.ts: `createWithdrawalQuote`.
use mpulse.Common.{
  ℕ, ◌+◌, Bool, false, not, ◌&&◌, ◌||◌, Option, none, some, List, [], ◌∷◌, Result, ok, err, ◌>>=◌,
  ◌>>◌, throw_if, if◌then◌else◌, ltb, ◌==◌,
}
use mpulse.Common.Int.{ℤ, pos, pos_part, ◌-ℤ◌, leb_ℤ}
use mpulse.Common.Text.{Text, codes, text_eq}
use mpulse.Wallets.Types.{
  QuoteStatus, WithdrawalQuote, RateSnapshot, WalletDb, WalletError, Wallet, WalletHost,
}
use mpulse.Wallets.Parse.{parse_positive_coin_micros, parse_idempotency_key}
use mpulse.Wallets.Store.{required, insert_audit}
use mpulse.Money.Decimal.{to_text}
use mpulse.Money.Error.{Money, RoundingMode}
use mpulse.Money.Units.{usdt_atomic}
use mpulse.Money.Arithmetic.{coin_micros_to_usdt}
use mpulse.ExchangeRates.{RatePurpose, RateKind, UsdQuote, ExchangeRateError, validate_usd_quote}
use mpulse.Wallets.Amounts.{from_rate}
use mpulse.Wallets.Address.{parse_tron_address}

pub record QuoteInput : Type 0 where
  pub input_user : ℕ
  pub input_destination : Option Text
  pub input_amount : Option Text
  pub input_key : Option Text

-- A quote with its rate, as `mapQuoteWithSnapshot` gives it.
pub record QuoteAnswer : Type 0 where
  pub answered_quote : WithdrawalQuote
  pub gross_usdt_atomic : ℕ
  pub answered_rate : RateSnapshot

unfoldable pub map_quote_with_snapshot : WithdrawalQuote → RateSnapshot → QuoteAnswer
map_quote_with_snapshot q rate = record {
  answered_quote = q;
  gross_usdt_atomic = q.quote_estimated_usdt_atomic + q.quote_network_fee + q.quote_provider_fee;
  answered_rate = rate;
}

unfoldable pub find_snapshot : ℕ → List RateSnapshot → Option RateSnapshot
find_snapshot id [] = none
find_snapshot id (s ∷ snapshots) =
    if s.snapshot_id == id then some s else find_snapshot id snapshots

unfoldable pub find_quote_row : ℕ → Text → List WithdrawalQuote → Option WithdrawalQuote
find_quote_row user key [] = none
find_quote_row user key (q ∷ quotes) =
    if q.quote_user == user && text_eq q.quote_key key
    then some q
    else find_quote_row user key quotes

unfoldable pub with_rate :
    WalletDb → Option WithdrawalQuote → Wallet (Option (WithdrawalQuote × RateSnapshot))
unfolding find_snapshot
with_rate db none = ok none
with_rate db (some q) =
    required WalletError.row_missing (find_snapshot q.rate_snapshot db.snapshots) >>= λ rate.
    ok (some (q, rate))

unfoldable pub find_quote_by_idempotency :
    ℕ → Text → WalletDb → Wallet (Option (WithdrawalQuote × RateSnapshot))
unfolding find_quote_row with_rate
find_quote_by_idempotency user key db = with_rate db (find_quote_row user key db.quotes)

unfoldable pub quote_clashes : WithdrawalQuote → List WithdrawalQuote → Bool
quote_clashes q [] = false
quote_clashes q (p ∷ quotes) =
    p.quote_id == q.quote_id
    || p.quote_user == q.quote_user && text_eq p.quote_key q.quote_key
    || quote_clashes q quotes

-- The amounts are bigints, and the table is unique on the id, and on the user with the key.
unfoldable pub insert_quote : WithdrawalQuote → List WithdrawalQuote → Wallet (List WithdrawalQuote)
unfolding quote_clashes
insert_quote q quotes = do
  throw_if (ltb 9_223_372_036_854_775_807 q.quote_estimated_usdt_atomic)
      WalletError.bigint_out_of_range
  throw_if (quote_clashes q quotes) WalletError.unique_violation
  ok (q ∷ quotes)

abbrev pub as_money : {A : Type 0} → Money A → Wallet A
as_money (ok a) = ok a
as_money (err e) = err (WalletError.money_failed e)

-- `assertQuoteFingerprint`, and the answer from the rows.
unfoldable pub replay_quote :
    Text → (WithdrawalQuote × RateSnapshot) → WalletDb → Wallet (QuoteAnswer × WalletDb)
replay_quote fingerprint (q, rate) db = do
  throw_if (not (text_eq q.quote_fingerprint fingerprint))
      WalletError.idempotency_key_reuse_mismatch
  ok (map_quote_with_snapshot q rate, db)

module _ (host : WalletHost) (rate_ttl : ℤ) (fetched : ℤ → Result ExchangeRateError UsdQuote)
    (network_fee provider_fee : ℕ) where
  unfoldable pub priced_quote : ℕ → Wallet UsdQuote
  priced_quote amount = do
    answered ← from_rate (fetched (pos amount))
    from_rate (
        validate_usd_quote host.date_parse answered record {
          ttl_seconds = rate_ttl;
          now = host.now;
          expected_purpose = some RatePurpose.withdrawal_indicative;
          expected_kind = some RateKind.indicative;
          expected_amount_usdt_atomic = some (pos amount);
        })

  -- The estimate: the value of the Coins, rounded down, less the fees.
  unfoldable pub estimate : ℕ → UsdQuote → Wallet ℕ
  unfolding ◌-ℤ◌
  estimate amount quote = do
    gross ← as_money (coin_micros_to_usdt (pos amount) quote.usd_rate_nanos RoundingMode.down)
    throw_if (leb_ℤ gross (pos (network_fee + provider_fee))) WalletError.invalid_coin_amount
    estimated ← as_money (usdt_atomic (gross -ℤ pos (network_fee + provider_fee)) false)
    ok (pos_part estimated)

  unfoldable pub quote_row : ℕ → Text → ℕ → Text → Text → UsdQuote → ℕ → WithdrawalQuote
  quote_row user destination amount key fingerprint quote estimated = record {
    quote_id = host.new_uuid 1;
    quote_user = user;
    quote_destination = destination;
    coin_to_debit_micros = amount;
    quote_estimated_usdt_atomic = estimated;
    quote_network_fee = network_fee;
    quote_provider_fee = provider_fee;
    rate_snapshot = host.new_uuid 0;
    quote_status = QuoteStatus.open_quote;
    quote_expires_at = quote.expires_at;
    quote_key = key;
    quote_fingerprint = fingerprint;
  }

  -- The transaction, which looks for the key once more.
  unfoldable pub save_quote :
      UsdQuote
      → WithdrawalQuote
      → Option (WithdrawalQuote × RateSnapshot)
      → WalletDb
      → Wallet (QuoteAnswer × WalletDb)
  save_quote quote row (some concurrent) db = replay_quote row.quote_fingerprint concurrent db
  save_quote quote row none db =
      let rate : RateSnapshot = record { snapshot_id = host.new_uuid 0; snapshot_quote = quote } in
      do
        quotes ← insert_quote row db.quotes
        ok (
          map_quote_with_snapshot row rate,
          record db {
            quotes = quotes;
            snapshots = rate ∷ db.snapshots;
            audits =
                insert_audit (codes "wallet.withdrawal_quote_created") (some row.quote_user)
                  db.audits;
          },
        )

  unfoldable pub new_quote :
      ℕ
      → Text
      → ℕ
      → Text
      → Text
      → Option (WithdrawalQuote × RateSnapshot)
      → WalletDb
      → Wallet (QuoteAnswer × WalletDb)
  new_quote user destination amount key fingerprint (some existing) db =
      replay_quote fingerprint existing db
  new_quote user destination amount key fingerprint none db = do
    quote ← priced_quote amount
    estimated ← estimate amount quote
    concurrent ← find_quote_by_idempotency user key db
    save_quote quote (quote_row user destination amount key fingerprint quote estimated) concurrent
        db

  -- `before` is the state at the first read, and `db` the state of the transaction.
  unfoldable pub create_withdrawal_quote :
      QuoteInput → WalletDb → WalletDb → Wallet (QuoteAnswer × WalletDb)
  create_withdrawal_quote input before db = do
    destination ← parse_tron_address host.sha256 input.input_destination
    amount ← parse_positive_coin_micros input.input_amount
    key ← parse_idempotency_key input.input_key
    let fingerprint = host.hash (
        host.json (
          (codes "userId", some (host.uuid_text input.input_user))
          ∷ (codes "destinationAddress", some destination)
          ∷ (codes "coinAmountMicros", some (to_text amount))
          ∷ []))
    existing ← find_quote_by_idempotency input.input_user key before
    new_quote input.input_user destination amount key fingerprint existing db
