-- ===== src/Money/Decimal/Padding.antt =====
-- Padding with zeros and stripping them.
use mpulse.Common.{
  ℕ, zero, suc, ◌+◌, ◌-◌, ◌≤◌, ◌≡◌, refl, ap, ◌∙◌, true, inl, inr, ◌&&◌, [], ◌∷◌, ◌++◌, arith, ◌==◌,
  Bool-cases, length, All-append, replicate, append_assoc, append-nil, length-append,
  length-replicate, ==_iff, max,
}
use native.Mathlib.Nat.{sub-zero, suc-sub-suc}
use mpulse.Common.Text.{Text, is_empty}
use mpulse.Money.Decimal.{is_digit, digits_value, digit_zero, pad_end, pad_start, strip_zeros}
use mpulse.Money.Decimal.Digits.{IsDigits}

abbrev pub zeros : ℕ → Text
zeros n = replicate n digit_zero

zeros-append : (m n : ℕ) → zeros m ++ zeros n ≡ zeros (m + n)
zeros-append zero n = rw (zero-add_lem n)
  where
    zero-add_lem : (n : ℕ) → zero + n ≡ n
    zero-add_lem n = omega arith
zeros-append (suc m) n = rw (suc-add_lem) (ap (λ r. digit_zero ∷ r) (zeros-append m n))
  where
    suc-add_lem : suc m + n ≡ suc (m + n)
    suc-add_lem = omega arith

pub digits_value-zeros : (n : ℕ) (s : Text) → digits_value 0 (zeros n ++ s) ≡ digits_value 0 s
unfolding digits_value
digits_value-zeros zero s = refl
digits_value-zeros (suc n) s = digits_value-zeros n s

pub zeros-IsDigits : (n : ℕ) → IsDigits (zeros n)
unfolding is_digit
zeros-IsDigits zero = tt
zeros-IsDigits (suc n) = (refl, zeros-IsDigits n)

pub length-pad_start : (s : Text) (n : ℕ) → length s ≤ n → length (pad_start s n) ≡ n
unfolding pad_start
length-pad_start s n h =
    omega
      (arith, length-append (zeros (n - length s)) s, length-replicate (n - length s) digit_zero)

pub pad_end-nil : (s : Text) (n : ℕ) → n ≤ length s → pad_end s n ≡ s
unfolding pad_end
pad_end-nil s n h = rw (sub_zero) (append-nil s)
  where
    sub_zero : n - length s ≡ 0
    sub_zero = omega arith

-- Padding twice is padding to the larger width.
pub pad_end-pad_end : (s : Text) (m n : ℕ) → m ≤ n → pad_end (pad_end s m) n ≡ pad_end s n
unfolding pad_end
pad_end-pad_end s m n h =
    append_assoc s (zeros (m - length s)) _
    ∙ ap (λ r. s ++ r) (zeros-append (m - length s) _ ∙ ap zeros widths)
  where
    widths : m - length s + (n - length (s ++ zeros (m - length s))) ≡ n - length s
    widths =
        omega (
          arith,
          length-append s (zeros (m - length s)),
          length-replicate (m - length s) digit_zero,
        )

empty→nil : (s : Text) → is_empty s ≡ true → s ≡ []
empty→nil [] h = refl
empty→nil (c ∷ s) h = cc

-- A text that is stripped whole was all zeros.
zeros_of_stripped :
    (s : Text)
    → strip_zeros s ++ zeros (length s - length (strip_zeros s)) ≡ s
    → is_empty (strip_zeros s) ≡ true
    → zeros (suc (length s) - 0) ≡ digit_zero ∷ s
zeros_of_stripped s h e =
    let n : strip_zeros s ≡ [] = empty→nil (strip_zeros s) e in
    let k : zeros (length s - 0) ≡ s = rw n at h in
    rw (sub-zero) (ap (λ r. digit_zero ∷ r) (rw sub-zero at k))

strip_zeros_restore : (s : Text) → strip_zeros s ++ zeros (length s - length (strip_zeros s)) ≡ s
unfolding strip_zeros
strip_zeros_restore [] = refl
strip_zeros_restore (c ∷ s) = elim (Bool-cases (c == b'0')) [
  | inl z ↦ elim (Bool-cases (is_empty (strip_zeros s))) [
    | inl none_left ↦
        rw (z, none_left)
          (rw ((==_iff c _).0 z) (zeros_of_stripped s (strip_zeros_restore s) none_left))
    | inr some_left ↦ rw (z, some_left, suc-sub-suc) (ap (λ r. c ∷ r) (strip_zeros_restore s))
  ]
  | inr other ↦ rw (other, suc-sub-suc) (ap (λ r. c ∷ r) (strip_zeros_restore s))
]

pub length-strip_zeros : (s : Text) → length (strip_zeros s) ≤ length s
unfolding strip_zeros
length-strip_zeros [] = omega arith
length-strip_zeros (c ∷ s) = ground (arith, length-strip_zeros s)

-- Padding to the old width undoes the stripping.
pub pad_end-strip_zeros : (s : Text) (n : ℕ) → length s ≡ n → pad_end (strip_zeros s) n ≡ s
unfolding pad_end
pad_end-strip_zeros s n e = rw (← e) (strip_zeros_restore s)

pub length-pad_end : (s : Text) (n : ℕ) → length (pad_end s n) ≡ max n (length s)
unfolding pad_end
length-pad_end s n =
    omega
      (arith, length-append s (zeros (n - length s)), length-replicate (n - length s) digit_zero)

pub digits_value-pad_start : (s : Text) (n : ℕ) → digits_value 0 (pad_start s n) ≡ digits_value 0 s
unfolding pad_start
digits_value-pad_start s n = digits_value-zeros (n - length s) s

pub pad_end-IsDigits : (s : Text) (n : ℕ) → IsDigits s → IsDigits (pad_end s n)
unfolding pad_end
pad_end-IsDigits s n h = All-append (λ c. is_digit c ≡ true) s _ h (zeros-IsDigits (n - length s))

pub pad_start-IsDigits : (s : Text) (n : ℕ) → IsDigits s → IsDigits (pad_start s n)
unfolding pad_start
pad_start-IsDigits s n h = All-append (λ c. is_digit c ≡ true) _ s (zeros-IsDigits (n - length s)) h

pub strip_zeros-IsDigits : (s : Text) → IsDigits s → IsDigits (strip_zeros s)
unfolding strip_zeros
strip_zeros-IsDigits [] h = tt
strip_zeros-IsDigits (c ∷ s) h = elim (Bool-cases (c == b'0' && is_empty (strip_zeros s))) [
  | inl gone ↦ rw gone tt
  | inr kept ↦ rw kept (h.0, strip_zeros-IsDigits s h.1)
]
