-- ===== src/Coins/Derived.antt =====
-- The balances are derived from the entries: `coin_accounts` is a cache of the ledger.
use mpulse.Common.{
  ℕ, ◌≡◌, ◌≢◌, sym, ap, ◌∙◌, some, List, [], ◌∷◌, inl, inr, ok, arith, ◌==◌, if◌then◌else◌,
  eq_or_ne,
}
use mpulse.Common.Int.{ℤ, pos, ◌+ℤ◌, ◌≤ℤ◌, +ℤ_comm}
use mpulse.Coins.Types.{Movement, Entry, Account, CoinDb}
use mpulse.Coins.Posting.{
  max_bigint, find_account, update_account, record_movement, post_ledger_entry,
}
use mpulse.Coins.Accounts.{
  amounts_of, amounts_of-ensure, find_account-update, find_account-update_ne,
}
use mpulse.Coins.Outcome.{ensured, IsFunded, Outcome, replayed, recorded, post_ledger_entry-Outcome}

-- The sum of a user's movements.
unfoldable pub sum_entries : (Movement → ℤ) → ℕ → List Entry → ℤ
sum_entries delta user [] = pos 0
sum_entries delta user (e ∷ entries) =
    if e.movement.user_id == user
    then delta e.movement +ℤ sum_entries delta user entries
    else sum_entries delta user entries

abbrev pub derived : ℕ → List Entry → ℤ × ℤ
derived user entries = (
  sum_entries (λ m. m.available_delta) user entries,
  sum_entries (λ m. m.reserved_delta) user entries,
)

abbrev IsBigint : ℤ → Type 0
IsBigint z = (pos 0 ≤ℤ z) × (z ≤ℤ pos max_bigint)

-- Every user's two balances are the sums of the entries, none is negative, and all fit.
pub record IsLedger (db : CoinDb) : Type 0 where
  pub sums : (user : ℕ) → amounts_of user db.accounts ≡ derived user db.entries
  pub available_range : (user : ℕ) → IsBigint (amounts_of user db.accounts).0
  pub reserved_range : (user : ℕ) → IsBigint (amounts_of user db.accounts).1

module _ (m : Movement) (db : CoinDb) (ledger : IsLedger db) where
  ensured-IsLedger : IsLedger (record db { accounts = ensured m db })
  ensured-IsLedger = record {
    sums = λ user. amounts_of-ensure m.user_id user db.accounts ∙ ledger.sums user;
    available_range =
        λ user. rw (amounts_of-ensure m.user_id user db.accounts) (ledger.available_range user);
    reserved_range =
        λ user. rw (amounts_of-ensure m.user_id user db.accounts) (ledger.reserved_range user);
  }

module _ (m : Movement) (account : Account) (accounts : List Account)
    (found : find_account m.user_id accounts ≡ some account) (x y : ℤ) where
  updated_self : amounts_of m.user_id (update_account m.user_id x y accounts) ≡ (x, y)
  updated_self = rw (find_account-update m.user_id x y accounts account found)

  updated_other :
      (user : ℕ)
      → m.user_id ≢ user
      → amounts_of user (update_account m.user_id x y accounts) ≡ amounts_of user accounts
  updated_other user ne = rw (find_account-update_ne m.user_id user x y accounts ne)

-- A recorded entry adds its deltas to the sums of its user.
derived-cons_self :
    (e : Entry) (entries : List Entry)
    → derived e.movement.user_id (e ∷ entries) ≡ (
      e.movement.available_delta +ℤ (derived e.movement.user_id entries).0,
      e.movement.reserved_delta +ℤ (derived e.movement.user_id entries).1,
    )
unfolding sum_entries
derived-cons_self e entries = ground arith

derived-cons_other :
    (e : Entry) (entries : List Entry) (user : ℕ)
    → e.movement.user_id ≢ user
    → derived user (e ∷ entries) ≡ derived user entries
unfolding sum_entries
derived-cons_other e entries user ne = ground arith

-- New balances that add the deltas to the old ones, which were the sums so far.
recorded_sums :
    (a r x y da dr s t : ℤ)
    → x ≡ a +ℤ da
    → y ≡ r +ℤ dr
    → ◌≡◌ {A = ℤ × ℤ} (a, r) (s, t)
    → ◌≡◌ {A = ℤ × ℤ} (x, y) (da +ℤ s, dr +ℤ t)
recorded_sums a r x y da dr s t ex ey e =
    let ea : a ≡ s = ap (λ (q : ℤ × ℤ). q.0) e in
    let er : r ≡ t = ap (λ (q : ℤ × ℤ). q.1) e in rw (ex, ey, ea, er, +ℤ_comm s da, +ℤ_comm t dr)

module _ (m : Movement) (account : Account) (db : CoinDb)
    (ledger : IsLedger (record db { accounts = ensured m db }))
    (found : find_account m.user_id (ensured m db) ≡ some account) (available reserved : ℤ) where
  after : CoinDb
  after = (record_movement m available reserved (ensured m db) db).1

  account_sums : (account.available, account.reserved) ≡ derived m.user_id db.entries
  account_sums = rw found at (ledger.sums m.user_id)

  self_sums :
      available ≡ account.available +ℤ m.available_delta
      → reserved ≡ account.reserved +ℤ m.reserved_delta
      → amounts_of m.user_id after.accounts ≡ derived m.user_id after.entries
  unfolding after record_movement
  self_sums ea er =
      updated_self m account (ensured m db) found available reserved
      ∙ recorded_sums _ _ _ _ m.available_delta m.reserved_delta _ _ ea er account_sums
      ∙ sym (derived-cons_self _ db.entries)

  other_sums :
      (user : ℕ) → m.user_id ≢ user → amounts_of user after.accounts ≡ derived user after.entries
  unfolding after record_movement
  other_sums user ne =
      updated_other m account (ensured m db) found available reserved user ne
      ∙ ledger.sums user
      ∙ sym (derived-cons_other _ db.entries user ne)

  other_same :
      (user : ℕ)
      → m.user_id ≢ user
      → amounts_of user after.accounts ≡ amounts_of user (ensured m db)
  unfolding after record_movement
  other_same user ne = updated_other m account (ensured m db) found available reserved user ne

  self_same : amounts_of m.user_id after.accounts ≡ (available, reserved)
  unfolding after record_movement
  self_same = updated_self m account (ensured m db) found available reserved

  after-IsLedger :
      IsFunded account.available m.available_delta available
      → IsFunded account.reserved m.reserved_delta reserved
      → IsLedger after
  after-IsLedger fa fr = record {
    sums = λ user. elim (eq_or_ne m.user_id user) [
      | inl same ↦ rw (← same) (self_sums fa.exact fr.exact)
      | inr other ↦ other_sums user other
    ];
    available_range = λ user. elim (eq_or_ne m.user_id user) [
      | inl same ↦ rw (← same, self_same) (fa.nonneg, fa.fits)
      | inr other ↦ rw (other_same user other) (ledger.available_range user)
    ];
    reserved_range = λ user. elim (eq_or_ne m.user_id user) [
      | inl same ↦ rw (← same, self_same) (fr.nonneg, fr.fits)
      | inr other ↦ rw (other_same user other) (ledger.reserved_range user)
    ];
  }

-- A post that succeeds keeps the ledger: the balances of every user are the sums of the entries,
-- not negative, and within `bigint`.
pub post_ledger_entry-IsLedger :
    (m : Movement) (db : CoinDb) (p : Entry × CoinDb)
    → IsLedger db
    → post_ledger_entry m db ≡ ok p
    → IsLedger p.1
post_ledger_entry-IsLedger m db p ledger h = kept (post_ledger_entry-Outcome m db p h).1
  where
    kept : Outcome m db p → IsLedger p.1
    kept (replayed e found same r) = rw r (ensured-IsLedger m db ledger)
    kept (recorded account found unused r) = rw r.result (
        unfold after in
        after-IsLedger m account db (ensured-IsLedger m db ledger) found r.available r.reserved
          r.available_funded r.reserved_funded)
