-- ===== src/Money/Decimal/Digits.antt =====
-- Decimal print of a natural number: its digits spell it, it is not empty, and it is short.
use mpulse.Common.{
  ℕ, zero, suc, ◌+◌, ◌*◌, ◌/◌, ◌%◌, ◌^◌, ◌≤◌, ◌<◌, ◌≡◌, refl, true, false, inl, inr, [], ◌∷◌, arith,
  ltb, Bool-cases, length, All,
}
use mpulse.Common.Text.{Text, is_empty}
use mpulse.Money.Decimal.{is_digit, digits_value, emit_digits, to_text}
use native.Mathlib.Nat.{pow-suc}

abbrev pub IsDigits : Text → Type 0
IsDigits = All (λ c. is_digit c ≡ true)

digits_value-emit_digits :
    (fuel n : ℕ) (out : Text)
    → n < fuel
    → digits_value 0 (emit_digits fuel n out) ≡ digits_value n out
unfolding digits_value emit_digits
digits_value-emit_digits zero n out h = absurd (omega arith)
digits_value-emit_digits (suc fuel) n out h =
    ground (arith, digits_value-emit_digits fuel (n / 10) ((b'0' + n % 10) ∷ out))

-- Reading a printed number gives the number.
pub digits_value-to_text : (n : ℕ) → digits_value 0 (to_text n) ≡ n
unfolding to_text digits_value
digits_value-to_text n = digits_value-emit_digits (suc n) n [] (omega arith)

is_digit-add : (n : ℕ) → n < 10 → is_digit (b'0' + n) ≡ true
unfolding is_digit
is_digit-add n h = ground arith

emit_digits-IsDigits : (fuel n : ℕ) (out : Text) → IsDigits out → IsDigits (emit_digits fuel n out)
unfolding emit_digits
emit_digits-IsDigits zero n out h = h
emit_digits-IsDigits (suc fuel) n out h = elim (Bool-cases (ltb n 10)) [
  | inl last ↦ rw last (is_digit-add n (ground arith), h)
  | inr more ↦
      rw more (emit_digits-IsDigits fuel (n / 10) _ (is_digit-add (n % 10) (omega arith), h))
]

pub to_text-IsDigits : (n : ℕ) → IsDigits (to_text n)
unfolding to_text
to_text-IsDigits n = emit_digits-IsDigits (suc n) n [] tt

emit_digits-cons : (fuel n c : ℕ) (out : Text) → is_empty (emit_digits fuel n (c ∷ out)) ≡ false
unfolding emit_digits
emit_digits-cons zero n c out = refl
emit_digits-cons (suc fuel) n c out = elim (Bool-cases (ltb n 10)) [
  | inl last ↦ rw last
  | inr more ↦ rw more (emit_digits-cons fuel (n / 10) (b'0' + n % 10) (c ∷ out))
]

pub is_empty-to_text : (n : ℕ) → is_empty (to_text n) ≡ false
unfolding to_text
is_empty-to_text n = elim (Bool-cases (ltb n 10)) [
  | inl last ↦ rw last
  | inr more ↦ rw more (emit_digits-cons n (n / 10) (b'0' + n % 10) [])
]

tenth_bound : (n k : ℕ) → n < 10 ^ suc k → n / 10 < 10 ^ k
tenth_bound n k h = let e : 10 ^ suc k ≡ 10 ^ k * 10 = pow-suc 10 k in omega arith

length-emit_digits :
    (fuel n k : ℕ) (out : Text)
    → n < fuel
    → n < 10 ^ suc k
    → length (emit_digits fuel n out) ≤ suc k + length out
unfolding emit_digits
length-emit_digits zero n k out h b = absurd (omega arith)
length-emit_digits (suc fuel) n zero out h b = elim (Bool-cases (ltb n 10)) [
  | inl last ↦ rw last (omega arith)
  | inr more ↦ absurd (ground arith)
]
length-emit_digits (suc fuel) n (suc k) out h b = elim (Bool-cases (ltb n 10)) [
  | inl last ↦ rw last (omega arith)
  | inr more ↦ rw more (
      let shorter =
        length-emit_digits fuel (n / 10) k ((b'0' + n % 10) ∷ out) (ground arith)
          (tenth_bound n (suc k) b) in
      omega arith)
]

-- A number below 10 ^ d has at most d digits, if d is not 0.
pub length-to_text : (n k : ℕ) → n < 10 ^ suc k → length (to_text n) ≤ suc k
unfolding to_text
length-to_text n k b = omega (arith, length-emit_digits (suc n) n k [] (omega arith) b)
