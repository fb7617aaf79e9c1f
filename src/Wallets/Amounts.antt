-- ===== src/Wallets/Amounts.antt =====
-- src/coinWallets.ts: the final amounts of a completed transfer, and the errors on the way.
use mpulse.Common.{ℕ, ◌+◌, false, some, Result, ok, err, ◌>>=◌, ◌>>◌, throw_if}
use mpulse.Common.Int.{ℤ, pos, ◌-ℤ◌, leb_ℤ}
use mpulse.Common.Text.{Text, codes}
use mpulse.Wallets.Types.{Request, WalletError, Wallet, ProviderOutcome, WalletHost}
use mpulse.Wallets.Parse.{parse_positive_usdt_atomic, parse_optional_atomic_fee}
use mpulse.Wallets.Store.{or_zero}
use mpulse.Money.Error.{Money, RoundingMode}
use mpulse.Money.Units.{coin_micros, usdt_atomic}
use mpulse.Money.Arithmetic.{coin_micros_to_usdt}
use mpulse.ExchangeRates.{RatePurpose, RateKind, UsdQuote, ExchangeRateError, validate_usd_quote}

-- `mapRateError`
abbrev pub map_rate_error : ExchangeRateError → WalletError
map_rate_error ExchangeRateError.rate_stale = WalletError.rate_stale
map_rate_error _ = WalletError.rate_unavailable

abbrev pub from_rate : {A : Type 0} → Result ExchangeRateError A → Wallet A
from_rate (ok a) = ok a
from_rate (err e) = err (map_rate_error e)

-- An error of the money functions is none of the rate's, so that `mapRateError` makes it this one.
abbrev pub from_money : {A : Type 0} → Money A → Wallet A
from_money (ok a) = ok a
from_money (err e) = err WalletError.rate_unavailable

-- The final amounts of a completed transfer.
pub record FinalAmounts : Type 0 where
  pub final_quote : UsdQuote
  pub expected_final : ℤ
  pub final_network_fee : ℕ
  pub final_provider_fee : ℕ
  pub provider_final : ℕ

module _ (host : WalletHost) (rate_ttl : ℤ) (fetched : ℤ → Result ExchangeRateError UsdQuote) where
  -- The body of the `try`: `fetched` is what the rate provider answers for an amount.
  unfoldable pub final_amounts : ProviderOutcome → Request → Wallet FinalAmounts
  unfolding ◌-ℤ◌
  final_amounts outcome initial = do
    reserved ← from_money (coin_micros (pos (or_zero initial.coin_reserved_micros)) false)
    network ←
        parse_optional_atomic_fee outcome.outcome_network_fee
          (or_zero initial.network_fee_usdt_atomic)
    fee ←
        parse_optional_atomic_fee outcome.outcome_provider_fee
          (or_zero initial.provider_fee_usdt_atomic)
    stated ← parse_positive_usdt_atomic outcome.outcome_final_usdt_atomic
    answered ← from_rate (fetched reserved)
    quote ← from_rate (
        validate_usd_quote host.date_parse answered record {
          ttl_seconds = rate_ttl;
          now = host.now;
          expected_purpose = some RatePurpose.withdrawal_final;
          expected_kind = some RateKind.final;
          expected_amount_usdt_atomic = some reserved;
        })
    gross ← from_money (coin_micros_to_usdt reserved quote.usd_rate_nanos RoundingMode.down)
    throw_if (leb_ℤ gross (pos (network + fee))) WalletError.invalid_usdt_amount
    expected ← from_money (usdt_atomic (gross -ℤ pos (network + fee)) false)
    ok record {
      final_quote = quote;
      expected_final = expected;
      final_network_fee = network;
      final_provider_fee = fee;
      provider_final = stated;
    }

-- `finalQuoteError.code`, for the errors that the `try` can end with.
abbrev pub error_code : WalletError → Text
error_code WalletError.invalid_coin_amount = codes "INVALID_COIN_AMOUNT"
error_code WalletError.invalid_usdt_amount = codes "INVALID_USDT_AMOUNT"
error_code WalletError.rate_stale = codes "RATE_STALE"
error_code _ = codes "RATE_UNAVAILABLE"
