-- ===== src/Common/Text.antt =====
-- Text as the list of its code units, with the parts of `String.prototype` that the program uses.
use mpulse.Common.Tests.{leb, ◌==◌, if◌then◌else◌}
use mpulse.Common.Lists.{All, All-append}
use Prim.Native.Nat.{ℕ}
use Prim.Native.Char.{code}
use Prim.Native.String.{String}
use mathlib.Core.Path.{◌≡◌, refl}
use mathlib.Core.Bool.{Bool, true, false, ◌&&◌, ◌||◌}
use mathlib.Core.List.{List, [], ◌∷◌, reverse, reverse-reverse, reverse-append}
use native.Mathlib.Omega.{arith}

abbrev pub Text : Type 0
Text = List ℕ

-- The code units of a literal: it is ASCII wherever the source has one.
abbrev pub codes : String → Text
codes String.[] = []
codes (String.◌∷◌ c s) = code c ∷ codes s

unfoldable pub text_eq : Text → Text → Bool
text_eq [] [] = true
text_eq (a ∷ s) (b ∷ t) = a == b && text_eq s t
text_eq _ _ = false

pub text_eq→eq : (s t : Text) → text_eq s t ≡ true → s ≡ t
unfolding text_eq
text_eq→eq [] [] h = refl
text_eq→eq [] (b ∷ t) h = cc
text_eq→eq (a ∷ s) [] h = cc
text_eq→eq (a ∷ s) (b ∷ t) h = ground (arith, text_eq→eq s t)

pub text_eq_refl : (s : Text) → text_eq s s ≡ true
unfolding text_eq
text_eq_refl [] = refl
text_eq_refl (a ∷ s) = ground (arith, text_eq_refl s)

-- The white space and line terminators that `trim` removes and that `\s` matches.
unfoldable pub is_space : ℕ → Bool
is_space c =
    leb 9 c && leb c 13
    || c == 32
    || c == 160
    || c == 5760
    || leb 8192 c && leb c 8202
    || c == 8232
    || c == 8233
    || c == 8239
    || c == 8287
    || c == 12288
    || c == 65279

unfoldable pub trim_start : Text → Text
unfolding is_space
trim_start [] = []
trim_start (c ∷ s) = let rest = trim_start s in if is_space c then rest else c ∷ s

-- `s.trim()`
unfoldable pub trim : Text → Text
unfolding trim_start
trim s = reverse (trim_start (reverse (trim_start s)))

-- `!s`: the empty string is falsy
abbrev pub is_empty : Text → Bool
is_empty [] = true
is_empty (c ∷ s) = false

-- `s.startsWith(p)`, with the text last as it is in a fold
unfoldable pub starts_with : Text → Text → Bool
starts_with [] s = true
starts_with (p ∷ ps) [] = false
starts_with (p ∷ ps) (c ∷ s) = p == c && starts_with ps s

-- Text with no white space at all, which `trim` leaves as it is.
abbrev pub IsSpaceless : Text → Type 0
IsSpaceless = All (λ c. is_space c ≡ false)

trim_start-IsSpaceless : (s : Text) → IsSpaceless s → trim_start s ≡ s
unfolding trim_start
trim_start-IsSpaceless [] h = refl
trim_start-IsSpaceless (c ∷ s) h = rw h.0

reverse-IsSpaceless : (s : Text) → IsSpaceless s → IsSpaceless (reverse s)
reverse-IsSpaceless [] h = tt
reverse-IsSpaceless (c ∷ s) h = rw (reverse-append (c ∷ []) s) (
    All-append (λ c. is_space c ≡ false) (reverse s) (c ∷ []) (reverse-IsSpaceless s h.1) (h.0, tt))

pub trim-IsSpaceless : (s : Text) → IsSpaceless s → trim s ≡ s
unfolding trim
trim-IsSpaceless s h =
    rw (trim_start-IsSpaceless s h, trim_start-IsSpaceless (reverse s) (reverse-IsSpaceless s h))
      (reverse-reverse s)
