-- ===== src/Money/Decimal/RoundTrip.antt =====
-- A formatted amount is read back as it was: `parseDecimalToAtomic` undoes `formatAtomic`.
use mpulse.Common.{
  ℕ, zero, suc, ◌+◌, ◌*◌, ◌/◌, ◌%◌, ◌^◌, ◌≤◌, ◌<◌, ◌≡◌, refl, ap, ◌∙◌, [], ◌∷◌, arith, ok, length,
  if◌then◌else◌, min, le→ltb_false, lt→ltb,
}
use mpulse.Common.Int.{ℤ, pos, negsuc, neg, int_laws}
use mpulse.Common.Text.{Text, is_empty}
use mpulse.Money.Decimal.{
  Decimal, plain_options, digits_value, to_text, pad_end, pad_start, strip_zeros, decimal_value,
  check_decimal, parse_decimal_to_atomic, spell_decimal, format_atomic,
}
use mpulse.Money.Decimal.Digits.{
  IsDigits, to_text-IsDigits, is_empty-to_text, digits_value-to_text, length-to_text,
}
use mpulse.Money.Decimal.Padding.{
  pad_end-pad_end, pad_end-strip_zeros, length-strip_zeros, length-pad_start, length-pad_end,
  pad_end-IsDigits, strip_zeros-IsDigits, pad_start-IsDigits, digits_value-pad_start,
}
use mpulse.Money.Decimal.Spelling.{IsSign, plain, minus, parse-spell_decimal}
use native.Mathlib.Nat.{one-le-pow}

-- The fraction digits that `formatAtomic` prints for a remainder.
module _ (decimals shown rest : ℕ) where
  abbrev fraction : Text
  fraction = pad_start (to_text rest) decimals

  abbrev printed : Text
  printed = pad_end (strip_zeros fraction) (min shown decimals)

module _ (shown rest : ℕ) where
  -- Without decimals nothing is printed.
  printed_none : rest < 10 ^ 0 → printed 0 shown rest ≡ []
  unfolding to_text pad_start pad_end strip_zeros
  printed_none h =
      let e : rest ≡ 0 = omega arith in let m : min shown 0 ≡ 0 = omega arith in rw (e, m)

  printed_restore :
      (k : ℕ)
      → rest < 10 ^ suc k
      → pad_end (printed (suc k) shown rest) (suc k) ≡ fraction (suc k) shown rest
  printed_restore k h =
      pad_end-pad_end (strip_zeros (fraction (suc k) shown rest)) (min shown (suc k)) (suc k)
        (omega arith)
      ∙ pad_end-strip_zeros _ (suc k)
          (length-pad_start (to_text rest) (suc k) (length-to_text rest k h))

  -- The printed digits, padded again, spell the remainder.
  printed_value : (d : ℕ) → rest < 10 ^ d → digits_value 0 (pad_end (printed d shown rest) d) ≡ rest
  printed_value zero h = rw (printed_none h) (unfold pad_end digits_value in omega arith)
  printed_value (suc k) h =
      rw (printed_restore k h, digits_value-pad_start) (digits_value-to_text rest)

  length-printed : (d : ℕ) → rest < 10 ^ d → length (printed d shown rest) ≤ d
  length-printed zero h = rw (printed_none h) (omega arith)
  length-printed (suc k) h = omega (
    arith,
    length-pad_end (strip_zeros (fraction (suc k) shown rest)) (min shown (suc k)),
    length-strip_zeros (fraction (suc k) shown rest),
    length-pad_start (to_text rest) (suc k) (length-to_text rest k h),
  )

  printed-IsDigits : (d : ℕ) → IsDigits (printed d shown rest)
  printed-IsDigits d =
      pad_end-IsDigits _ _ (strip_zeros-IsDigits _ (pad_start-IsDigits _ d (to_text-IsDigits rest)))

module _ (decimals shown absolute : ℕ) where
  abbrev scale : ℕ
  scale = 10 ^ decimals

  abbrev spelled : Text → Decimal
  spelled sign = record {
    sign = sign;
    whole = to_text (absolute / scale);
    fraction = printed decimals shown (absolute % scale);
  }

  rest_lt : absolute % scale < scale
  rest_lt = let h : 1 ≤ 10 ^ decimals = one-le-pow decimals 10 (omega arith) in omega arith

  -- The whole and the fraction together are the number that was printed.
  spelled_value :
      digits_value 0 (to_text (absolute / scale)) * scale
        + (if is_empty (pad_end (printed decimals shown (absolute % scale)) decimals)
            then 0
            else digits_value 0 (pad_end (printed decimals shown (absolute % scale)) decimals))
      ≡ absolute
  spelled_value =
      rw
        (
          digits_value-to_text,
          or_zero (pad_end (printed decimals shown (absolute % scale)) decimals),
          printed_value shown (absolute % scale) decimals rest_lt,
        )
        (omega arith)
    where
      or_zero : (s : Text) → (if is_empty s then 0 else digits_value 0 s) ≡ digits_value 0 s
      or_zero [] = unfold digits_value in refl
      or_zero (c ∷ s) = refl

  parse-printed :
      {sign : Text}
      → IsSign sign
      → decimals ≤ 18
      → parse_decimal_to_atomic
          (spell_decimal sign
            (to_text (absolute / scale))
            (printed decimals shown (absolute % scale)))
          decimals
          plain_options
        ≡ ok (decimal_value (spelled sign) decimals)
  parse-printed p small =
      parse-spell_decimal _ _ decimals plain_options p (to_text-IsDigits _) (is_empty-to_text _)
        (printed-IsDigits shown _ decimals) small (length-printed shown _ decimals rest_lt)
      ∙ (unfold check_decimal in refl)

module _ (n decimals shown : ℕ) where
  format_atomic-plain :
      format_atomic (pos n) decimals shown
      ≡ spell_decimal [] (to_text (n / 10 ^ decimals)) (printed decimals shown (n % 10 ^ decimals))
  unfolding format_atomic spell_decimal
  format_atomic-plain = rw (le→ltb_false (n + 0) 0 (omega arith))

  format_atomic-minus :
      format_atomic (negsuc n) decimals shown
      ≡ spell_decimal
          (b'-' ∷ [])
          (to_text (suc n / 10 ^ decimals))
          (printed decimals shown (suc n % 10 ^ decimals))
  unfolding format_atomic spell_decimal
  format_atomic-minus = rw (lt→ltb 0 (0 + suc n) (omega arith))

  decimal_value-plain : decimal_value (spelled decimals shown n []) decimals ≡ pos n
  unfolding decimal_value
  decimal_value-plain = ap pos (spelled_value decimals shown n)

  decimal_value-minus :
      decimal_value (spelled decimals shown (suc n) (b'-' ∷ [])) decimals ≡ negsuc n
  unfolding decimal_value
  decimal_value-minus =
      ap (λ (k : ℕ). neg (pos k)) (spelled_value decimals shown (suc n)) ∙ omega int_laws

-- Every integer amount is printed, with any number of shown decimals, as a text that is read back
-- as the same amount, at the same scale of at most 18 decimals.
pub parse-format_atomic :
    (value : ℤ) (decimals shown : ℕ)
    → decimals ≤ 18
    → parse_decimal_to_atomic (format_atomic value decimals shown) decimals plain_options ≡ ok value
parse-format_atomic (pos n) d m h =
    rw (format_atomic-plain n d m, parse-printed d m n plain h, decimal_value-plain n d m)
parse-format_atomic (negsuc n) d m h =
    rw (format_atomic-minus n d m, parse-printed d m (suc n) minus h, decimal_value-minus n d m)
