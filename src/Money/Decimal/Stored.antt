-- ===== src/Money/Decimal/Stored.antt =====
-- `parseStoredDecimalToAtomic`: a stored number may carry zeros past the scale that is asked for,
-- as a database column of a larger scale prints them, and nothing else.
use mpulse.Common.{
  ℕ, zero, suc, ◌-◌, ◌≤◌, ◌<◌, ◌≡◌, refl, sym, ap, ◌∙◌, true, false, inl, inr, ◌||◌, List, [], ◌∷◌,
  ◌++◌, arith, some, ltb, leb, Bool-cases, length, take, drop, le→ltb_false,
}
use mpulse.Common.Text.{Text, is_empty, trim-IsSpaceless}
use mpulse.Money.Decimal.{
  ParseOptions, pad_end, all_zeros, decimal_value, check_decimal, parse_decimal_to_atomic,
  spell_decimal, parse_stored_decimal_to_atomic, parse_stored_matched,
}
use mpulse.Money.Decimal.Digits.{IsDigits}
use mpulse.Money.Decimal.Padding.{zeros, pad_end-pad_end, length-pad_end, pad_end-IsDigits}
use mpulse.Money.Decimal.Spelling.{
  IsSign, match_decimal-spell, spell_decimal-IsSpaceless, parse-spell_decimal,
}

module _ {ℓ} {A : Type ℓ} where
  take-append_length : (xs ys : List A) → take (length xs) (xs ++ ys) ≡ xs
  take-append_length [] ys = refl
  take-append_length (x ∷ xs) ys = ap (λ r. x ∷ r) (take-append_length xs ys)

  drop-append_length : (xs ys : List A) → drop (length xs) (xs ++ ys) ≡ ys
  drop-append_length [] ys = refl
  drop-append_length (x ∷ xs) ys = drop-append_length xs ys

pad_end_unfolded : (s : Text) (n : ℕ) → pad_end s n ≡ s ++ zeros (n - length s)
unfolding pad_end
pad_end_unfolded s n = refl

all_zeros-zeros : (n : ℕ) → all_zeros (zeros n) ≡ true
unfolding all_zeros
all_zeros-zeros zero = refl
all_zeros-zeros (suc n) = all_zeros-zeros n

-- A wide padding is a narrow one with zeros behind it.
module _ (fraction : Text) (decimals wide : ℕ) (fits : length fraction ≤ decimals)
    (wider : decimals ≤ wide) where
  width : length (pad_end fraction decimals) ≡ decimals
  width = omega (arith, length-pad_end fraction decimals)

  pad_end_split : pad_end fraction wide ≡ pad_end fraction decimals ++ zeros (wide - decimals)
  pad_end_split =
      sym (pad_end-pad_end fraction decimals wide wider)
      ∙ pad_end_unfolded (pad_end fraction decimals) wide
      ∙ ap (λ (k : ℕ). pad_end fraction decimals ++ zeros (wide - k)) width

  take-pad_end : take decimals (pad_end fraction wide) ≡ pad_end fraction decimals
  take-pad_end =
      ap (λ s. take decimals s) pad_end_split
      ∙ ap (λ (k : ℕ). take k (pad_end fraction decimals ++ zeros (wide - decimals))) (sym width)
      ∙ take-append_length (pad_end fraction decimals) _

  drop-pad_end : drop decimals (pad_end fraction wide) ≡ zeros (wide - decimals)
  drop-pad_end =
      ap (λ s. drop decimals s) pad_end_split
      ∙ ap (λ (k : ℕ). drop k (pad_end fraction decimals ++ zeros (wide - decimals))) (sym width)
      ∙ drop-append_length (pad_end fraction decimals) _

decimal_value-pad_end :
    (sign whole fraction : Text) (n decimals : ℕ)
    → n ≤ decimals
    → decimal_value (record { sign = sign; whole = whole; fraction = pad_end fraction n }) decimals
      ≡ decimal_value (record { sign = sign; whole = whole; fraction = fraction }) decimals
unfolding decimal_value
decimal_value-pad_end sign whole fraction n decimals h = rw (pad_end-pad_end fraction n decimals h)

module _ {sign : Text} (whole fraction : Text) (decimals wide : ℕ) (options : ParseOptions)
    (p : IsSign sign) (whole_digits : IsDigits whole) (whole_some : is_empty whole ≡ false)
    (fraction_digits : IsDigits fraction) (small : decimals ≤ 18)
    (fits : length fraction ≤ decimals) where
  -- A padding within the scale changes nothing.
  parse-pad_end :
      (n : ℕ)
      → n ≤ decimals
      → parse_decimal_to_atomic (spell_decimal sign whole (pad_end fraction n)) decimals options
        ≡ parse_decimal_to_atomic (spell_decimal sign whole fraction) decimals options
  parse-pad_end n h =
      parse-spell_decimal whole (pad_end fraction n) decimals options p whole_digits whole_some
        (pad_end-IsDigits fraction n fraction_digits) small
        (omega (arith, length-pad_end fraction n))
      ∙ ap (check_decimal options) (decimal_value-pad_end sign whole fraction n decimals h)
      ∙ sym (
          parse-spell_decimal whole fraction decimals options p whole_digits whole_some
            fraction_digits small fits)

  matched :
      parse_stored_decimal_to_atomic
        (spell_decimal sign whole (pad_end fraction wide))
        decimals
        options
      ≡ parse_stored_matched
          (spell_decimal sign whole (pad_end fraction wide))
          (some (record { sign = sign; whole = whole; fraction = pad_end fraction wide }))
          decimals
          options
  unfolding parse_stored_decimal_to_atomic
  matched = rw (
    trim-IsSpaceless _ (
        spell_decimal-IsSpaceless whole _ p whole_digits
          (pad_end-IsDigits fraction wide fraction_digits)),
    match_decimal-spell whole _ p whole_digits whole_some
        (pad_end-IsDigits fraction wide fraction_digits),
  )

  -- Zeros behind a fraction that fits, to any width, leave the stored number as it was.
  pub parse_stored_padded :
      parse_stored_decimal_to_atomic
        (spell_decimal sign whole (pad_end fraction wide))
        decimals
        options
      ≡ parse_decimal_to_atomic (spell_decimal sign whole fraction) decimals options
  unfolding parse_stored_matched
  parse_stored_padded = matched ∙ elim (Bool-cases (leb wide decimals)) [
    | inl narrow ↦ rw (short (ground arith)) (parse-pad_end wide (ground arith))
    | inr wider ↦ rw (long (ground arith)) (
        rw
          (
            le→ltb_false 18 decimals small,
            drop-pad_end fraction decimals wide fits (ground arith),
            all_zeros-zeros,
            take-pad_end fraction decimals wide fits (ground arith),
          )
          (parse-pad_end decimals (omega arith)))
  ]
    where
      short :
          wide ≤ decimals
          → (ltb 18 decimals || leb (length (pad_end fraction wide)) decimals) ≡ true
      short h = ground (arith, length-pad_end fraction wide)

      long : decimals < wide → leb (length (pad_end fraction wide)) decimals ≡ false
      long h = ground (arith, length-pad_end fraction wide)
