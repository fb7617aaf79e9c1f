-- ===== src/Money/Arithmetic/Conversion.antt =====
-- `usdtToCoinMicros` and `coinMicrosToUsdt`: a round trip at one rate never gains money.
use mpulse.Common.{ℕ, ◌*◌, ◌≤◌, ◌<◌, ◌≡◌, ok, arith, ◌>>=◌}
use mpulse.Common.Int.{pos}
use mpulse.Money.Error.{RoundingMode}
use mpulse.Money.Units.{coin_micros, usdt_atomic, usd_rate_scale}
use mpulse.Money.Arithmetic.{usdt_to_coin_micros, coin_micros_to_usdt}
use mpulse.Money.Arithmetic.Rounding.{multiply_divide-IsRounded}

coin_micros_to_usdt-down :
    (c r : ℕ)
    → 0 < r
    → (u : ℕ) × (coin_micros_to_usdt (pos c) (pos r) RoundingMode.down ≡ ok (pos u))
      × (u * r ≤ c * usd_rate_scale)
unfolding coin_micros_to_usdt usdt_atomic
coin_micros_to_usdt-down c r h =
    let (u, e, bounds) = multiply_divide-IsRounded RoundingMode.down c usd_rate_scale r h in
    (u, rw e (ground arith), bounds.0)

usdt_to_coin_micros-down :
    (u r : ℕ)
    → (c : ℕ) × (usdt_to_coin_micros (pos u) (pos r) RoundingMode.down ≡ ok (pos c))
      × (c * usd_rate_scale ≤ u * r)
unfolding usdt_to_coin_micros coin_micros
usdt_to_coin_micros-down u r =
    let (c, e, bounds) =
      multiply_divide-IsRounded RoundingMode.down u r usd_rate_scale (omega arith) in
    (c, rw e (ground arith), bounds.0)

-- At a positive rate, Coins turned into USDT and back, rounding down both times, end as some
-- amount that is not more than the Coins at the start.
pub conversion_no_gain :
    (c r : ℕ)
    → 0 < r
    → (back : ℕ) × ((coin_micros_to_usdt (pos c) (pos r) RoundingMode.down >>= λ u.
          usdt_to_coin_micros u (pos r) RoundingMode.down)
        ≡ ok (pos back))
      × (back ≤ c)
conversion_no_gain c r h =
    let (u, eu, below) = coin_micros_to_usdt-down c r h in
    let (back, eb, low) = usdt_to_coin_micros-down u r in (back, rw (eu, eb), omega arith)
