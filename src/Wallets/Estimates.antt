-- ===== src/Wallets/Estimates.antt =====
-- The estimate of a quote against exact arithmetic.
use mpulse.Common.{ℕ, ◌+◌, ◌-◌, ◌*◌, ◌≤◌, ◌<◌, ◌≡◌, false, Result, ok, err, arith, ◌>>=◌, throw_if}
use mpulse.Common.Int.{ℤ, pos, pos_part, ◌-ℤ◌, leb_ℤ}
use mpulse.Wallets.Types.{WalletError, WalletHost}
use mpulse.Money.Error.{RoundingMode}
use mpulse.Money.Units.{usdt_atomic, usd_rate_scale}
use mpulse.Money.Arithmetic.{coin_micros_to_usdt}
use mpulse.Money.Arithmetic.Rounding.{multiply_divide-IsRounded}
use mpulse.ExchangeRates.{UsdQuote, ExchangeRateError}
use mpulse.Wallets.Quotes.{as_money, estimate}

pub coin_micros_to_usdt-exact :
    (c r : ℕ)
    → 0 < r
    → (u : ℕ) × (coin_micros_to_usdt (pos c) (pos r) RoundingMode.down ≡ ok (pos u))
      × (u * r ≤ c * usd_rate_scale)
      × (c * usd_rate_scale < (u + 1) * r)
unfolding coin_micros_to_usdt usdt_atomic
coin_micros_to_usdt-exact c r h =
    let (u, e, bounds) = multiply_divide-IsRounded RoundingMode.down c usd_rate_scale r h in
    (u, rw e (ground arith), bounds.0, bounds.1)

priced :
    (u fees : ℕ)
    → fees < u
    → (throw_if (leb_ℤ (pos u) (pos fees)) WalletError.invalid_coin_amount >>= λ _.
        as_money (usdt_atomic (pos u -ℤ pos fees) false) >>= λ estimated. ok (pos_part estimated))
      ≡ ok (u - fees)
unfolding usdt_atomic ◌-ℤ◌
priced u fees h = ground arith

too_low :
    (u fees : ℕ)
    → u ≤ fees
    → (throw_if (leb_ℤ (pos u) (pos fees)) WalletError.invalid_coin_amount >>= λ _.
        as_money (usdt_atomic (pos u -ℤ pos fees) false) >>= λ estimated. ok (pos_part estimated))
      ≡ err WalletError.invalid_coin_amount
too_low u fees h = ground arith

-- A quote at a positive rate estimates an amount above 0 that, with the fees, is the value of the
-- Coins at the rate, rounded down; and it is made exactly where that value is above the fees.
pub estimate-exact :
    (host : WalletHost) (rate_ttl : ℤ) (fetched : ℤ → Result ExchangeRateError UsdQuote)
    (network_fee provider_fee amount rate : ℕ) (quote : UsdQuote)
    → 0 < rate
    → quote.usd_rate_nanos ≡ pos rate
    → (gross : ℕ) × (gross * rate ≤ amount * 1_000_000_000)
      × (amount * 1_000_000_000 < (gross + 1) * rate)
      × ((network_fee + provider_fee < gross
            → (e : ℕ) × (estimate host rate_ttl fetched network_fee provider_fee amount quote
                ≡ ok e)
              × (e + (network_fee + provider_fee) ≡ gross))
          × (gross ≤ network_fee + provider_fee
              → estimate host rate_ttl fetched network_fee provider_fee amount quote
                ≡ err WalletError.invalid_coin_amount))
unfolding estimate
estimate-exact host rate_ttl fetched network_fee provider_fee amount rate quote positive known =
    let (u, e, low, high) = coin_micros_to_usdt-exact amount rate positive in
    (
      u,
      low,
      high,
      (
        (λ above. (
          u - (network_fee + provider_fee),
          rw (known, e) (priced u (network_fee + provider_fee) above),
          omega arith,
        )),
        (λ below. rw (known, e) (too_low u (network_fee + provider_fee) below)),
      ),
    )
