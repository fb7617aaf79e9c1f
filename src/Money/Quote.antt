-- ===== src/Money/Quote.antt =====
-- src/money.ts: the age of a rate quote. `Date.parse` is the host's: a parameter that gives the
-- milliseconds of a text, or `none` for a date that is not finite. A time to live is an integer.
use mpulse.Common.{◌*◌, Bool, true, Option, none, some, if◌then◌else◌, throw_if}
use mpulse.Common.Int.{ℤ, pos, pos_part, ◌-ℤ◌, ltb_ℤ, leb_ℤ}
use mpulse.Common.Text.{Text}
use mpulse.Money.Error.{Money, MoneyError}

module _ (date_parse : Text → Option ℤ) where
  unfoldable pub is_quote_stale : Text → ℤ → ℤ → Bool
  unfolding ◌-ℤ◌
  is_quote_stale quoted_at ttl_seconds now = elim (date_parse quoted_at) [
    | none ↦ true
    | some timestamp ↦
        (if leb_ℤ ttl_seconds (pos 0)
          then true
          else ltb_ℤ (pos (pos_part ttl_seconds * 1000)) (now -ℤ timestamp))
  ]

  unfoldable pub assert_fresh_quote : Text → ℤ → ℤ → Money (Unit {0})
  assert_fresh_quote quoted_at ttl_seconds now =
      throw_if (is_quote_stale quoted_at ttl_seconds now) MoneyError.stale_rate
