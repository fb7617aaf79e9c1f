-- ===== src/Wallets/Address/Decoding.antt =====
-- Base58: the bytes that are decoded spell the number that the characters spell.
use mpulse.Common.{
  ℕ, zero, suc, ◌+◌, ◌*◌, ◌/◌, ◌%◌, ◌^◌, ◌≤◌, ◌<◌, ◌≡◌, ◌≢◌, refl, sym, ap, ◌∙◌, inl, inr, Option,
  none, some, List, [], ◌∷◌, ◌++◌, arith, ◌==◌, Bool-cases, Option-cases, length, All, replicate,
}
use mpulse.Common.Text.{Text}
use mpulse.Wallets.Address.{
  alphabet, next_index, accumulate, index_of, base58_number, emit_bytes, leading_ones, with_zeros,
  decode_base58,
}
use native.Mathlib.Nat.{pow-suc, pow-le-pow_left}

-- The number that bytes spell after what has been read, the most significant first.
unfoldable pub bytes_value : ℕ → List ℕ → ℕ
bytes_value n [] = n
bytes_value n (b ∷ bytes) = bytes_value (n * 256 + b) bytes

abbrev pub AreBytes : List ℕ → Type 0
AreBytes = All (λ b. b < 256)

bytes_value-emit_bytes :
    (fuel n : ℕ) (bytes : List ℕ)
    → n < 256 ^ fuel
    → bytes_value 0 (emit_bytes fuel n bytes) ≡ bytes_value n bytes
unfolding bytes_value emit_bytes
bytes_value-emit_bytes zero n bytes h = let none_left : n ≡ 0 = omega arith in rw none_left refl
bytes_value-emit_bytes (suc fuel) n bytes h =
    let whole : 256 ^ suc fuel ≡ 256 ^ fuel * 256 = pow-suc 256 fuel in
    let rest = bytes_value-emit_bytes fuel (n / 256) ((n % 256) ∷ bytes) (omega arith) in
    elim (Bool-cases (n == 0)) [
      | inl last ↦ rw last (ap (λ k. bytes_value k bytes) (ground arith))
      | inr more ↦ rw more (rest ∙ ap (λ k. bytes_value k bytes) (omega arith))
    ]

emit_bytes-AreBytes :
    (fuel n : ℕ) (bytes : List ℕ) → AreBytes bytes → AreBytes (emit_bytes fuel n bytes)
unfolding emit_bytes
emit_bytes-AreBytes zero n bytes h = h
emit_bytes-AreBytes (suc fuel) n bytes h = elim (Bool-cases (n == 0)) [
  | inl last ↦ rw last h
  | inr more ↦ rw more (emit_bytes-AreBytes fuel (n / 256) _ (omega arith, h))
]

bytes_value-replicate :
    (count : ℕ) (bytes : List ℕ) → bytes_value 0 (replicate count 0 ++ bytes) ≡ bytes_value 0 bytes
unfolding bytes_value
bytes_value-replicate zero bytes = refl
bytes_value-replicate (suc count) bytes = bytes_value-replicate count bytes

replicate-AreBytes :
    (count : ℕ) (bytes : List ℕ) → AreBytes bytes → AreBytes (replicate count 0 ++ bytes)
replicate-AreBytes zero bytes h = h
replicate-AreBytes (suc count) bytes h = (omega arith, replicate-AreBytes count bytes h)

some_injective : (a b : ℕ) → some a ≡ some b → a ≡ b
some_injective a b h = cc

next_index-bound :
    (found : Option ℕ) (letters : Text) (i : ℕ)
    → next_index found ≡ some i
    → ((k : ℕ) → found ≡ some k → k < length letters)
    → i < suc (length letters)
next_index-bound none letters i h below = cc
next_index-bound (some k) letters i h below =
    let next : suc k ≡ i = some_injective (suc k) i h in
    let bound = below k refl in omega (arith, next)

index_of-bound : (c : ℕ) (letters : Text) (i : ℕ) → index_of c letters ≡ some i → i < length letters
unfolding index_of
index_of-bound c [] i h = cc
index_of-bound c (a ∷ letters) i h = elim (Bool-cases (a == c)) [
  | inl here ↦ let first : 0 ≡ i = some_injective 0 i (rw here at h) in omega (arith, first)
  | inr there ↦
      next_index-bound (index_of c letters) letters i (rw there at h) (index_of-bound c letters)
]

nothing : (s : Text) (m : ℕ) → base58_number none s ≢ some m
unfolding base58_number
nothing s m h = cc

base58_step :
    (n c : ℕ) (s : Text) (found : Option ℕ)
    → index_of c alphabet ≡ found
    → base58_number (some n) (c ∷ s) ≡ base58_number (accumulate found n) s
unfolding base58_number
base58_step n c s found e = ap (λ o. base58_number (accumulate o n) s) e

sum_suc : (k l : ℕ) → k + suc l ≡ suc k + l
sum_suc k l = omega arith

base58_bound :
    (s : Text) (n m k : ℕ)
    → n < 58 ^ k
    → base58_number (some n) s ≡ some m
    → m < 58 ^ (k + length s)
unfolding base58_number
base58_bound [] n m k small h =
    let same : n ≡ m = some_injective n m h in
    let whole : k + 0 ≡ k = omega arith in rw (← same, whole) small
base58_bound (c ∷ s) n m k small h = elim (Option-cases (index_of c alphabet)) [
  | inl outside ↦ absurd (nothing s m (sym (base58_step n c s none outside) ∙ h))
  | inr (i, found) ↦
      let bound : i < 58 = index_of-bound c alphabet i found in
      let whole : 58 ^ suc k ≡ 58 ^ k * 58 = pow-suc 58 k in
      let rest =
        base58_bound s (n * 58 + i) m (suc k) (omega arith)
          (sym (base58_step n c s (some i) found) ∙ h) in
      rw (sum_suc k (length s)) rest
]

with_zeros-value :
    (fuel count : ℕ) (numeric : Option ℕ) (bytes : List ℕ)
    → ((n : ℕ) → numeric ≡ some n → n < 256 ^ fuel)
    → with_zeros fuel count numeric ≡ some bytes
    → (numeric ≡ some (bytes_value 0 bytes)) × AreBytes bytes
with_zeros-value fuel count none bytes small h = cc
with_zeros-value fuel count (some n) bytes small h =
    let emitted = emit_bytes fuel n [] in
    let same : replicate count 0 ++ emitted ≡ bytes = cc in
    rw (← same) (
      ap some (
          sym (
            bytes_value-replicate count emitted
            ∙ bytes_value-emit_bytes fuel n [] (small n refl)
            ∙ unfold bytes_value in refl)),
      replicate-AreBytes count emitted (emit_bytes-AreBytes fuel n [] tt),
    )

-- What Base58 decodes to are bytes, and read as a number, the most significant first, they give the
-- number that the characters of the text spell to the base 58.
pub decode_base58-value :
    (s : Text) (bytes : List ℕ)
    → decode_base58 s ≡ some bytes
    → (base58_number (some 0) s ≡ some (bytes_value 0 bytes)) × All (λ b. b < 256) bytes
unfolding decode_base58
decode_base58-value s bytes h =
    with_zeros-value (length s) (leading_ones s) (base58_number (some 0) s) bytes
      (λ n number.
        let small = base58_bound s 0 n 0 (omega arith) number in
        let smaller : 58 ≤ 256 = omega arith in
        let wider = pow-le-pow_left smaller (length s) in
        let same : 0 + length s ≡ length s = omega arith in
        let below = rw same at small in omega (arith, wider, below))
      h
