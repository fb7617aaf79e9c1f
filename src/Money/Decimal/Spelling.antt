-- ===== src/Money/Decimal/Spelling.antt =====
-- A number spelled as sign, digits, point and digits is matched part by part, and read as its value.
use mpulse.Common.{
  ℕ, ◌≤◌, ◌≡◌, refl, true, false, ◌||◌, [], ◌∷◌, ◌++◌, arith, some, ◌==◌, length, All-append,
  if◌then◌else◌, append-nil, le→ltb_false,
}
use mpulse.Common.Text.{Text, is_empty, is_space, trim-IsSpaceless, IsSpaceless}
use mpulse.Money.Decimal.{
  ParseOptions, is_digit, span_digits, split_sign, match_fraction, match_decimal, decimal_value,
  check_decimal, parse_decimal_to_atomic, parse_matched, spell_decimal,
}
use mpulse.Money.Decimal.Digits.{IsDigits}

span_digits-append :
    (s t : Text) → IsDigits s → span_digits t ≡ ([], t) → span_digits (s ++ t) ≡ (s, t)
unfolding span_digits
span_digits-append [] t h e = e
span_digits-append (c ∷ s) t h e = rw (h.0, span_digits-append s t h.1 e)

-- What `split_sign` may cut off a number that is spelled out.
pub data IsSign : Text → Type 0 where
  plain : IsSign []
  minus : IsSign (b'-' ∷ [])

not_sign : (c : ℕ) → is_digit c ≡ true → (c == b'+' || c == b'-') ≡ false
unfolding is_digit
not_sign c h = ground arith

split_sign-append :
    {sign : Text} (s t : Text)
    → IsSign sign
    → IsDigits s
    → is_empty s ≡ false
    → split_sign (sign ++ (s ++ t)) ≡ (sign, s ++ t)
unfolding split_sign
split_sign-append [] t p h e = cc
split_sign-append (c ∷ s) t plain h e = rw (not_sign c h.0)
split_sign-append (c ∷ s) t minus h e = refl

span_digits-point :
    (fraction : Text)
    → span_digits (if is_empty fraction then [] else b'.' ∷ fraction)
      ≡ ([], if is_empty fraction then [] else b'.' ∷ fraction)
unfolding span_digits
span_digits-point [] = refl
span_digits-point (c ∷ s) = refl

match_fraction-spell :
    (sign whole fraction : Text)
    → IsDigits fraction
    → match_fraction sign whole (if is_empty fraction then [] else b'.' ∷ fraction)
      ≡ some (record { sign = sign; whole = whole; fraction = fraction })
unfolding match_fraction
match_fraction-spell sign whole [] h = refl
match_fraction-spell sign whole (c ∷ s) h =
    let e : span_digits (c ∷ s) ≡ (c ∷ s, []) =
      rw append-nil at (span_digits-append (c ∷ s) [] h (unfold span_digits in refl)) in
    rw e

-- The pattern finds the parts of a spelled decimal.
pub match_decimal-spell :
    {sign : Text} (whole fraction : Text)
    → IsSign sign
    → IsDigits whole
    → is_empty whole ≡ false
    → IsDigits fraction
    → match_decimal (spell_decimal sign whole fraction)
      ≡ some (record { sign = sign; whole = whole; fraction = fraction })
unfolding match_decimal spell_decimal
match_decimal-spell {sign} whole fraction p hw ew hf =
    rw
      (
        split_sign-append whole (if is_empty fraction then [] else b'.' ∷ fraction) p hw ew,
        span_digits-append whole (if is_empty fraction then [] else b'.' ∷ fraction) hw
            (span_digits-point fraction),
        ew,
      )
      (match_fraction-spell sign whole fraction hf)

digit_spaceless : (c : ℕ) → is_digit c ≡ true → is_space c ≡ false
unfolding is_digit is_space
digit_spaceless c h = ground arith

digits-IsSpaceless : (s : Text) → IsDigits s → IsSpaceless s
digits-IsSpaceless [] h = tt
digits-IsSpaceless (c ∷ s) h = (digit_spaceless c h.0, digits-IsSpaceless s h.1)

point-IsSpaceless :
    (fraction : Text)
    → IsDigits fraction
    → IsSpaceless (if is_empty fraction then [] else b'.' ∷ fraction)
unfolding is_space
point-IsSpaceless [] h = tt
point-IsSpaceless (c ∷ s) h = (refl, digits-IsSpaceless (c ∷ s) h)

sign-IsSpaceless : {sign : Text} → IsSign sign → IsSpaceless sign
unfolding is_space
sign-IsSpaceless plain = tt
sign-IsSpaceless minus = (refl, tt)

pub spell_decimal-IsSpaceless :
    {sign : Text} (whole fraction : Text)
    → IsSign sign
    → IsDigits whole
    → IsDigits fraction
    → IsSpaceless (spell_decimal sign whole fraction)
unfolding spell_decimal
spell_decimal-IsSpaceless {sign} whole fraction p hw hf =
    All-append (λ c. is_space c ≡ false) sign _ (sign-IsSpaceless p)
      (All-append (λ c. is_space c ≡ false) whole _ (digits-IsSpaceless whole hw)
        (point-IsSpaceless fraction hf))

-- A spelled decimal with few enough decimals is read as its value.
pub parse-spell_decimal :
    {sign : Text} (whole fraction : Text) (decimals : ℕ) (options : ParseOptions)
    → IsSign sign
    → IsDigits whole
    → is_empty whole ≡ false
    → IsDigits fraction
    → decimals ≤ 18
    → length fraction ≤ decimals
    → parse_decimal_to_atomic (spell_decimal sign whole fraction) decimals options
      ≡ check_decimal options
          (decimal_value (record { sign = sign; whole = whole; fraction = fraction }) decimals)
unfolding parse_decimal_to_atomic parse_matched
parse-spell_decimal whole fraction decimals options p hw ew hf small fits = rw (
  trim-IsSpaceless _ (spell_decimal-IsSpaceless whole fraction p hw hf),
  match_decimal-spell whole fraction p hw ew hf,
  le→ltb_false 18 decimals small,
  le→ltb_false decimals (length fraction) fits,
)
