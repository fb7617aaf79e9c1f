-- ===== src/Common/Equality.antt =====
-- Boolean equality from a decision, for the data that the program compares.
use Prim.Native.Nat.{ℕ}
use mathlib.Core.Path.{◌≡◌}
use mathlib.Core.Bool.{Bool, true, false}
use mathlib.Core.Option.{Option}
use native.Mathlib.Decide.{ℕ_discrete}
use mpulse.Common.Text.{Text}

module _ {ℓ} {A : Type ℓ} where
  abbrev pub from_dec : {a b : A} → Dec (a ≡ b) → Bool
  from_dec (yes _) = true
  from_dec (no _) = false

  pub from_dec→eq : {a b : A} (d : Dec (a ≡ b)) → from_dec d ≡ true → a ≡ b
  from_dec→eq (yes p) h = p
  from_dec→eq (no _) h = cc

  pub from_dec_false→ne : {a b : A} (d : Dec (a ≡ b)) → from_dec d ≡ false → ¬ (a ≡ b)
  from_dec_false→ne (yes _) h = cc
  from_dec_false→ne (no n) h = n

  pub eq→from_dec : {a b : A} (d : Dec (a ≡ b)) → a ≡ b → from_dec d ≡ true
  eq→from_dec (yes _) p = λ _. true
  eq→from_dec (no n) p = absurd (n p)

unfoldable pub Text-discrete : Discrete Text
unfolding ℕ_discrete
Text-discrete = hlevel ℕ_discrete

unfoldable pub OptionText-discrete : Discrete (Option Text)
unfolding ℕ_discrete
OptionText-discrete = hlevel ℕ_discrete

unfoldable pub OptionNat-discrete : Discrete (Option ℕ)
unfolding ℕ_discrete
OptionNat-discrete = hlevel ℕ_discrete
