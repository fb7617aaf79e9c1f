-- ===== src/Coins/Accounts.antt =====
-- What the account operations do to the balances of every user.
use mpulse.Common.{
  ℕ, ◌≡◌, ◌≢◌, refl, Option, none, some, List, [], ◌∷◌, inl, inr, arith, Option-cases, ==_iff,
}
use mpulse.Common.Int.{ℤ, pos}
use mpulse.Coins.Types.{Account}
use mpulse.Coins.Posting.{find_account, ensure_account, update_account}

-- The available and the reserved balance; a user without an account has none.
abbrev pub amounts : Option Account → ℤ × ℤ
amounts none = (pos 0, pos 0)
amounts (some a) = (a.available, a.reserved)

abbrev pub amounts_of : ℕ → List Account → ℤ × ℤ
amounts_of user accounts = amounts (find_account user accounts)

pub find_account-ensure_some :
    (user : ℕ) (accounts : List Account) (a : Account)
    → find_account user accounts ≡ some a
    → ensure_account user accounts ≡ accounts
unfolding ensure_account
find_account-ensure_some user accounts a h = rw (h, ensure_account)

ensure_account-none :
    (user : ℕ) (accounts : List Account)
    → find_account user accounts ≡ none
    → ensure_account user accounts
      ≡ record { account_user = user; available = pos 0; reserved = pos 0 } ∷ accounts
unfolding ensure_account
ensure_account-none user accounts h = rw (h, ensure_account)

find_account-cons :
    (user v : ℕ) (accounts : List Account)
    → find_account user accounts ≡ none
    → amounts_of v (record { account_user = user; available = pos 0; reserved = pos 0 } ∷ accounts)
      ≡ amounts_of v accounts
unfolding find_account
find_account-cons user v accounts h = ground (arith, ==_iff user v)

-- Opening an account changes no balance.
pub amounts_of-ensure :
    (user v : ℕ) (accounts : List Account)
    → amounts_of v (ensure_account user accounts) ≡ amounts_of v accounts
amounts_of-ensure user v accounts = elim (Option-cases (find_account user accounts)) [
  | inl new ↦ rw (ensure_account-none user accounts new) (find_account-cons user v accounts new)
  | inr (a, old) ↦ rw (find_account-ensure_some user accounts a old)
]

-- Behind it the account is there.
pub find_account-ensured :
    (user : ℕ) (accounts : List Account)
    → (a : Account) × (find_account user (ensure_account user accounts) ≡ some a)
find_account-ensured user accounts = elim (Option-cases (find_account user accounts)) [
  | inl new ↦ (
    record { account_user = user; available = pos 0; reserved = pos 0 },
    rw (ensure_account-none user accounts new) (unfold find_account in ground arith),
  )
  | inr (a, old) ↦ (a, rw (find_account-ensure_some user accounts a old) old)
]

pub ensure_account_twice :
    (user : ℕ) (accounts : List Account)
    → ensure_account user (ensure_account user accounts) ≡ ensure_account user accounts
ensure_account_twice user accounts =
    let (a, there) = find_account-ensured user accounts in
    find_account-ensure_some user (ensure_account user accounts) a there

pub find_account-update :
    (user : ℕ) (x y : ℤ) (accounts : List Account) (a : Account)
    → find_account user accounts ≡ some a
    → find_account user (update_account user x y accounts)
      ≡ some (record a { available = x; reserved = y })
unfolding find_account update_account
find_account-update user x y [] a h = cc
find_account-update user x y (b ∷ accounts) a h =
    ground (arith, find_account-update user x y accounts a)

pub find_account-update_ne :
    (user v : ℕ) (x y : ℤ) (accounts : List Account)
    → user ≢ v
    → find_account v (update_account user x y accounts) ≡ find_account v accounts
unfolding find_account update_account
find_account-update_ne user v x y [] ne = refl
find_account-update_ne user v x y (b ∷ accounts) ne =
    ground (arith, find_account-update_ne user v x y accounts)
