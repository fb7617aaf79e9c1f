-- ===== src/Money/Decimal.antt =====
-- src/money.ts: decimal strings to atomic amounts and back. The pattern
-- `/^([+-]?)(\d+)(?:\.(\d+))?$/` is `match_decimal`; its groups are digits, so `BigInt` reads them
-- as `digits_value`.
pub mod Digits
pub mod Padding
pub mod Spelling
pub mod RoundTrip
pub mod Stored
use mpulse.Common.{
  ℕ, zero, suc, ◌+◌, ◌-◌, ◌*◌, ◌/◌, ◌%◌, ◌^◌, min, Bool, true, false, not, ◌&&◌, ◌||◌, Option, none,
  some, List, [], ◌∷◌, ◌++◌, ok, err, ltb, leb, ◌==◌, if◌then◌else◌, length, take, drop, replicate,
  ◌>>=◌,
}
use mpulse.Common.Int.{ℤ, pos, negsuc, pos_part, neg_part, neg, ltb_ℤ, eqb_ℤ}
use mpulse.Common.Text.{Text, trim, is_empty}
use mpulse.Money.Error.{Money, MoneyError}
use mpulse.Money.Units.{coin_micros, usdt_atomic, usd_rate_nanos}

abbrev pub digit_zero : ℕ
digit_zero = b'0'

unfoldable pub is_digit : ℕ → Bool
is_digit c = leb b'0' c && leb c b'9'

-- `BigInt(digits)`, read from the left on top of what has been read.
unfoldable pub digits_value : ℕ → Text → ℕ
digits_value n [] = n
digits_value n (c ∷ s) = digits_value (n * 10 + (c - b'0')) s

-- `n.toString()` for a natural number: the fuel is one more than the number.
unfoldable pub emit_digits : ℕ → ℕ → Text → Text
emit_digits zero n out = out
emit_digits (suc fuel) n out =
    let more = emit_digits fuel (n / 10) ((b'0' + n % 10) ∷ out) in
    if ltb n 10 then (b'0' + n) ∷ out else more

unfoldable pub to_text : ℕ → Text
unfolding emit_digits
to_text n = emit_digits (suc n) n []

-- `s.padEnd(n, "0")` and `s.padStart(n, "0")`
unfoldable pub pad_end : Text → ℕ → Text
pad_end s n = s ++ replicate (n - length s) digit_zero

unfoldable pub pad_start : Text → ℕ → Text
pad_start s n = replicate (n - length s) digit_zero ++ s

-- The longest prefix of digits, and the rest: what `\d+` and `\d*` take.
unfoldable pub span_digits : Text → Text × Text
unfolding is_digit
span_digits [] = ([], [])
span_digits (c ∷ s) =
    let (taken, rest) = span_digits s in if is_digit c then (c ∷ taken, rest) else ([], c ∷ s)

-- The sign group: "+", "-" or nothing.
unfoldable pub split_sign : Text → Text × Text
split_sign [] = ([], [])
split_sign (c ∷ s) = if c == b'+' || c == b'-' then (c ∷ [], s) else ([], c ∷ s)

pub record Decimal : Type 0 where
  pub sign : Text
  pub whole : Text
  pub fraction : Text

-- After the whole digits: the end, or a point with at least one digit and then the end.
unfoldable pub match_fraction : Text → Text → Text → Option Decimal
unfolding span_digits
match_fraction sign whole [] = some (record { sign = sign; whole = whole; fraction = [] })
match_fraction sign whole (c ∷ s) =
    let (fraction, rest) = span_digits s in
    if c == b'.' && not (is_empty fraction) && is_empty rest
    then some (record { sign = sign; whole = whole; fraction = fraction })
    else none

unfoldable pub match_decimal : Text → Option Decimal
unfolding split_sign span_digits match_fraction
match_decimal s =
    let (sign, unsigned) = split_sign s in
    let (whole, rest) = span_digits unsigned in
    if is_empty whole then none else match_fraction sign whole rest

pub record ParseOptions : Type 0 where
  pub allow_negative : Bool
  pub allow_zero : Bool

-- `sign === "-" ? -unsigned : unsigned`
unfoldable pub apply_sign : Text → ℕ → ℤ
unfolding neg
apply_sign [] unsigned = pos unsigned
apply_sign (c ∷ s) unsigned = if c == b'-' then neg (pos unsigned) else pos unsigned

-- `BigInt(whole) * scale + BigInt(fraction || "0")` with the sign, and the checks on the result.
unfoldable pub decimal_value : Decimal → ℕ → ℤ
unfolding digits_value apply_sign
decimal_value d decimals =
    let scale = 10 ^ decimals in
    let fraction = pad_end d.fraction decimals in
    let fraction_value = if is_empty fraction then 0 else digits_value 0 fraction in
    let unsigned = digits_value 0 d.whole * scale + fraction_value in apply_sign d.sign unsigned

unfoldable pub check_decimal : ParseOptions → ℤ → Money ℤ
check_decimal options result =
    if not options.allow_negative && ltb_ℤ result (pos 0)
    then err MoneyError.negative_amount
    else if not options.allow_zero && eqb_ℤ result (pos 0)
    then err MoneyError.zero_amount
    else ok result

-- The body of `parseDecimalToAtomic` behind its match.
unfoldable pub parse_matched : Option Decimal → ℕ → ParseOptions → Money ℤ
parse_matched none decimals options = err MoneyError.invalid_decimal
parse_matched (some d) decimals options =
    if ltb 18 decimals
    then err MoneyError.invalid_decimal
    else if ltb decimals (length d.fraction)
    then err MoneyError.invalid_decimal
    else check_decimal options (decimal_value d decimals)

unfoldable pub parse_decimal_to_atomic : Text → ℕ → ParseOptions → Money ℤ
parse_decimal_to_atomic input decimals options =
    parse_matched (match_decimal (trim input)) decimals options

-- `/^0+$/` on a text that is not empty, since it is what exceeds the allowed decimals.
unfoldable pub all_zeros : Text → Bool
all_zeros [] = true
all_zeros (c ∷ s) = c == b'0' && all_zeros s

-- `${sign}${whole}${retained ? `.${retained}` : ""}`
unfoldable pub spell_decimal : Text → Text → Text → Text
spell_decimal sign whole fraction =
    sign ++ (whole ++ (if is_empty fraction then [] else b'.' ∷ fraction))

-- The body of `parseStoredDecimalToAtomic` behind its match.
unfoldable pub parse_stored_matched : Text → Option Decimal → ℕ → ParseOptions → Money ℤ
parse_stored_matched value none decimals options = parse_decimal_to_atomic value decimals options
parse_stored_matched value (some d) decimals options =
    if ltb 18 decimals || leb (length d.fraction) decimals
    then parse_decimal_to_atomic value decimals options
    else if not (all_zeros (drop decimals d.fraction))
    then parse_decimal_to_atomic value decimals options
    else parse_decimal_to_atomic (spell_decimal d.sign d.whole (take decimals d.fraction)) decimals
        options

unfoldable pub parse_stored_decimal_to_atomic : Text → ℕ → ParseOptions → Money ℤ
parse_stored_decimal_to_atomic input decimals options =
    parse_stored_matched (trim input) (match_decimal (trim input)) decimals options

-- The options under which every integer is accepted.
abbrev pub plain_options : ParseOptions
plain_options = record { allow_negative = true; allow_zero = true }

-- `fraction.replace(/0+$/, "")`
unfoldable pub strip_zeros : Text → Text
strip_zeros [] = []
strip_zeros (c ∷ s) =
    let rest = strip_zeros s in if c == b'0' && is_empty rest then [] else c ∷ rest

-- The default of `minFractionDigits` is 0.
unfoldable pub format_atomic : ℤ → ℕ → ℕ → Text
format_atomic value decimals min_fraction_digits =
    let negative = ltb_ℤ value (pos 0) in
    let absolute = if negative then neg_part value else pos_part value in
    let scale = 10 ^ decimals in
    let whole = absolute / scale in
    let fraction = pad_start (to_text (absolute % scale)) decimals in
    let trimmed = strip_zeros fraction in
    let padded = pad_end trimmed (min min_fraction_digits decimals) in
    (if negative then b'-' ∷ [] else [])
    ++ (to_text whole ++ (if is_empty padded then [] else b'.' ∷ padded))

unfoldable pub parse_coins : Text → Bool → Money ℤ
unfolding coin_micros
parse_coins value allow_zero = do
  amount ←
      parse_decimal_to_atomic value 6 (record { allow_negative = false; allow_zero = allow_zero })
  coin_micros amount allow_zero

unfoldable pub parse_usdt : Text → Bool → Money ℤ
unfolding usdt_atomic
parse_usdt value allow_zero = do
  amount ←
      parse_decimal_to_atomic value 6 (record { allow_negative = false; allow_zero = allow_zero })
  usdt_atomic amount allow_zero

unfoldable pub parse_usd_rate : Text → Money ℤ
unfolding usd_rate_nanos
parse_usd_rate value = do
  rate ← parse_decimal_to_atomic value 9 (record { allow_negative = false; allow_zero = false })
  usd_rate_nanos rate
