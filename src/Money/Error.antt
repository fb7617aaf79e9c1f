-- ===== src/Money/Error.antt =====
-- src/money.ts: the error codes of `MoneyError`, and the rounding modes.
use mpulse.Common.{Result}

pub data MoneyError : Type 0 where
  invalid_decimal negative_amount zero_amount : MoneyError
  amount_out_of_range division_by_zero stale_rate : MoneyError

pub data RoundingMode : Type 0 where
  down half_up up : RoundingMode

abbrev pub Money : Type 0 → Type 0
Money A = Result MoneyError A
