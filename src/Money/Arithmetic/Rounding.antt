-- ===== src/Money/Arithmetic/Rounding.antt =====
-- How far the result of `multiplyDivide` lies from the exact quotient, for each rounding mode.
use mpulse.Common.{ℕ, ◌+◌, ◌*◌, ◌/◌, ◌%◌, ◌≤◌, ◌<◌, ◌≡◌, ok, inl, inr, arith, leb, ◌==◌, Bool-cases}
use mpulse.Common.Int.{pos}
use mpulse.Money.Error.{RoundingMode}
use mpulse.Money.Arithmetic.{multiply_divide, round_quotient}

-- Where a result stands: the largest below the exact quotient, the smallest above it, or one at
-- most half a unit away from it, the upper one at a tie.
abbrev pub IsRounded : RoundingMode → ℕ → ℕ → ℕ → Type 0
IsRounded RoundingMode.down numerator divisor q =
    (q * divisor ≤ numerator) × (numerator < (q + 1) * divisor)
IsRounded RoundingMode.up numerator divisor q =
    (numerator ≤ q * divisor) × (q * divisor < numerator + divisor)
IsRounded RoundingMode.half_up numerator divisor q =
    (2 * (q * divisor) ≤ 2 * numerator + divisor) × (2 * numerator < 2 * (q * divisor) + divisor)

round_quotient-IsRounded :
    (mode : RoundingMode) (n d q r : ℕ)
    → n ≡ q * d + r
    → r < d
    → IsRounded mode n d (round_quotient mode q r d)
unfolding round_quotient
round_quotient-IsRounded RoundingMode.down n d q r e h = (omega arith, omega arith)
round_quotient-IsRounded RoundingMode.up n d q r e h = elim (Bool-cases (r == 0)) [
  | inl exact ↦ rw exact (ground arith)
  | inr inexact ↦ rw inexact (ground arith)
]
round_quotient-IsRounded RoundingMode.half_up n d q r e h = elim (Bool-cases (r == 0)) [
  | inl exact ↦ rw exact (ground arith)
  | inr inexact ↦ rw inexact (elim (Bool-cases (leb d (r * 2))) [
    | inl upper ↦ rw upper (ground arith)
    | inr lower ↦ rw lower (ground arith)
  ])
]

-- With a positive divisor and operands that are not negative there is a result, and it is the
-- exact quotient rounded as the mode says.
pub multiply_divide-IsRounded :
    (mode : RoundingMode) (v m d : ℕ)
    → 0 < d
    → (q : ℕ) × (multiply_divide (pos v) (pos m) (pos d) mode ≡ ok (pos q))
      × IsRounded mode (v * m) d q
unfolding multiply_divide
multiply_divide-IsRounded mode v m d h = (
  round_quotient mode (v * m / d) (v * m % d) d,
  ground arith,
  round_quotient-IsRounded mode (v * m) d (v * m / d) (v * m % d) (omega arith) (omega arith),
)
