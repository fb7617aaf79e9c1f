-- ===== src/Money/Arithmetic/Fee.antt =====
-- Bounds of `calculateFee`.
use mpulse.Common.{ℕ, ◌+◌, ◌*◌, ◌≤◌, ◌<◌, ◌≡◌, ok, arith, max, le→ltb_false}
use mpulse.Common.Int.{pos}
use mpulse.Money.Error.{RoundingMode}
use mpulse.Money.Arithmetic.{multiply_divide, calculate_fee}
use mpulse.Money.Arithmetic.Rounding.{multiply_divide-IsRounded}

calculate_fee-max :
    (mode : RoundingMode) (amount points least q : ℕ)
    → points ≤ 10_000
    → multiply_divide (pos amount) (pos points) (pos 10_000) mode ≡ ok (pos q)
    → calculate_fee (pos amount) (pos points) (pos least) mode ≡ ok (pos (max least q))
unfolding calculate_fee
calculate_fee-max mode amount points least q h e =
    rw
      (
        le→ltb_false (points + 0) 0 (omega arith),
        le→ltb_false 10_000 (points + 0) (omega arith),
        le→ltb_false (least + 0) 0 (omega arith),
        e,
      )
      (ground arith)

share_le : (amount points : ℕ) → points ≤ 10_000 → amount * points ≤ amount * 10_000
share_le amount points h = grind arith

-- Within the policy bounds a fee rounded up is the larger of the minimum and the proportional
-- part, which covers the exact share and exceeds it by less than one unit; and it is no more
-- than the amount where the minimum is not.
pub calculate_fee_bounds :
    (amount points least : ℕ)
    → points ≤ 10_000
    → (fee : ℕ) × (calculate_fee (pos amount) (pos points) (pos least) RoundingMode.up
        ≡ ok (pos fee))
      × (least ≤ fee)
      × (amount * points ≤ fee * 10_000)
      × (fee * 10_000 < max (least * 10_000 + 1) (amount * points + 10_000))
      × (least ≤ amount → fee ≤ amount)
unfolding calculate_fee
calculate_fee_bounds amount points least h =
    let (q, e, bounds) =
      multiply_divide-IsRounded RoundingMode.up amount points 10_000 (omega arith) in
    let low : amount * points ≤ q * 10_000 = bounds.0 in
    let high : q * 10_000 < amount * points + 10_000 = bounds.1 in
    (
      max least q,
      calculate_fee-max RoundingMode.up amount points least q h e,
      omega arith,
      omega arith,
      omega arith,
      λ k. omega (arith, share_le amount points h),
    )
