-- ===== src/Wallets/Address.antt =====
-- src/coinWallets.ts: the check of a TRON address, which is written in Base58 with a checksum.
use mpulse.Common.{
  ℕ, zero, suc, ◌+◌, ◌*◌, ◌/◌, ◌%◌, Bool, true, false, not, ◌&&◌, ◌||◌, Option, none, some, List,
  [], ◌∷◌, ◌++◌, Result, ok, err, if◌then◌else◌, leb, ◌==◌, length, take, drop, replicate,
}
use mpulse.Common.Text.{Text, codes, text_eq, trim}
use mpulse.Wallets.Types.{WalletError, Wallet}
pub mod Decoding

abbrev pub alphabet : Text
alphabet = codes "123456789ABCDEFGHJKLMNPQRSTUVWXYZabcdefghijkmnopqrstuvwxyz"

abbrev pub next_index : Option ℕ → Option ℕ
next_index none = none
next_index (some i) = some (suc i)

-- `alphabet.indexOf(character)`, or `none` for -1.
unfoldable pub index_of : ℕ → Text → Option ℕ
index_of c [] = none
index_of c (a ∷ rest) = if a == c then some 0 else next_index (index_of c rest)

abbrev pub accumulate : Option ℕ → ℕ → Option ℕ
accumulate none numeric = none
accumulate (some index) numeric = some (numeric * 58 + index)

-- The first loop of `decodeBase58`, from the value that the characters before give.
unfoldable pub base58_number : Option ℕ → Text → Option ℕ
unfolding index_of
base58_number none s = none
base58_number (some numeric) [] = some numeric
base58_number (some numeric) (c ∷ s) = base58_number (accumulate (index_of c alphabet) numeric) s

-- The second loop: `bytes.unshift(numeric & 0xff); numeric >>= 8`. A byte more than the text is
-- long is fuel enough.
unfoldable pub emit_bytes : ℕ → ℕ → List ℕ → List ℕ
emit_bytes zero numeric bytes = bytes
emit_bytes (suc fuel) numeric bytes =
    let rest = emit_bytes fuel (numeric / 256) (numeric % 256 ∷ bytes) in
    if numeric == 0 then bytes else rest

unfoldable pub leading_ones : Text → ℕ
leading_ones [] = 0
leading_ones (c ∷ s) = let rest = leading_ones s in if c == b'1' then suc rest else 0

abbrev pub with_zeros : ℕ → ℕ → Option ℕ → Option (List ℕ)
with_zeros fuel count none = none
with_zeros fuel count (some numeric) = some (replicate count 0 ++ emit_bytes fuel numeric [])

unfoldable pub decode_base58 : Text → Option (List ℕ)
unfolding base58_number emit_bytes leading_ones
decode_base58 value = with_zeros (length value) (leading_ones value) (base58_number (some 0) value)

-- `[1-9A-HJ-NP-Za-km-z]`
unfoldable pub is_base58 : ℕ → Bool
is_base58 c =
    leb b'1' c && leb c b'9'
    || leb b'A' c && leb c b'H'
    || leb b'J' c && leb c b'N'
    || leb b'P' c && leb c b'Z'
    || leb b'a' c && leb c b'k'
    || leb b'm' c && leb c b'z'

unfoldable pub all_base58 : Text → Bool
unfolding is_base58
all_base58 [] = true
all_base58 (c ∷ s) = is_base58 c && all_base58 s

-- `/^T[1-9A-HJ-NP-Za-km-z]{33}$/`
unfoldable pub looks_like_address : Text → Bool
unfolding all_base58
looks_like_address [] = false
looks_like_address (c ∷ s) = c == b'T' && length s == 33 && all_base58 s

abbrev pub has_prefix : ℕ → List ℕ → Bool
has_prefix byte [] = false
has_prefix byte (b ∷ bytes) = b == byte

module _ (sha256 : List ℕ → List ℕ) where
  unfoldable pub checksum_of : List ℕ → List ℕ
  checksum_of body = take 4 (sha256 (sha256 body))

  unfoldable pub decoded_is_valid : Option (List ℕ) → Bool
  unfolding text_eq
  decoded_is_valid none = false
  decoded_is_valid (some decoded) =
      length decoded == 25
      && has_prefix 65 decoded
      && text_eq (drop 21 decoded) (checksum_of (take 21 decoded))

  unfoldable pub is_valid_tron_address : Text → Bool
  unfolding looks_like_address decode_base58
  is_valid_tron_address value = looks_like_address value && decoded_is_valid (decode_base58 value)

  unfoldable pub parse_tron_address : Option Text → Wallet Text
  unfolding trim
  parse_tron_address none = err WalletError.invalid_tron_address
  parse_tron_address (some value) =
      if is_valid_tron_address (trim value)
      then ok (trim value)
      else err WalletError.invalid_tron_address
