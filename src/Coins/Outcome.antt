-- ===== src/Coins/Outcome.antt =====
-- The two ways in which `coin_post_ledger_entry` succeeds.
use mpulse.Common.{
  ◌≡◌, refl, Bool, true, false, not, Option, none, some, List, ok, inl, inr, arith, ◌>>◌, throw_if,
  Bool-cases, >>=-eq-ok,
}
use mpulse.Common.Int.{ℤ, pos, ◌+ℤ◌, ◌≤ℤ◌}
use mpulse.Coins.Types.{Movement, Entry, Account, CoinDb, PgError}
use mpulse.Coins.Posting.{
  max_bigint, add_bigint, sum_in_funds, posting_allowed, find_account, ensure_account, find_entry,
  same_movement, entry_checks, record_movement, post_new, post_replay, post_to_account,
  post_ledger_entry,
}

abbrev pub ensured : Movement → CoinDb → List Account
ensured m db = ensure_account m.user_id db.accounts

-- A new balance: the exact sum, not negative, and in the range of `bigint`.
pub record IsFunded (a b c : ℤ) : Type 0 where
  pub exact : c ≡ a +ℤ b
  pub nonneg : pos 0 ≤ℤ c
  pub fits : c ≤ℤ pos max_bigint

sum_in_funds-IsFunded : (a b c : ℤ) → sum_in_funds a b ≡ ok c → IsFunded a b c
unfolding sum_in_funds add_bigint
sum_in_funds-IsFunded a b c h = ground arith

-- What a new movement does, from the account that it was posted on.
pub record Recorded (m : Movement) (account : Account) (accounts : List Account) (db : CoinDb)
    (p : Entry × CoinDb) : Type 0 where
  pub available : ℤ
  pub reserved : ℤ
  pub available_funded : IsFunded account.available m.available_delta available
  pub reserved_funded : IsFunded account.reserved m.reserved_delta reserved
  pub checked : entry_checks m ≡ true
  pub result : p ≡ record_movement m available reserved accounts db

last_check :
    (checked : Bool) (p q : Entry × CoinDb)
    → (throw_if (not checked) PgError.check_violation >> ok p) ≡ ok q
    → (checked ≡ true) × (q ≡ p)
last_check true p q h = (refl, cc)
last_check false p q h = cc

post_new-Recorded :
    (m : Movement) (account : Account) (accounts : List Account) (db : CoinDb) (p : Entry × CoinDb)
    → post_new m account accounts db ≡ ok p
    → Recorded m account accounts db p
unfolding post_new
post_new-Recorded m account accounts db p h =
    let (a, ea, ha) = >>=-eq-ok (sum_in_funds account.available m.available_delta) _ h in
    let (r, er, hr) = >>=-eq-ok (sum_in_funds account.reserved m.reserved_delta) _ ha in
    let (checked, same) = last_check (entry_checks m) _ _ hr in
    record {
      available = a;
      reserved = r;
      available_funded = sum_in_funds-IsFunded _ _ a ea;
      reserved_funded = sum_in_funds-IsFunded _ _ r er;
      checked = checked;
      result = same;
    }

-- A post that succeeds returns the entry of an earlier equal post, or records a new one.
pub data Outcome (m : Movement) (db : CoinDb) (p : Entry × CoinDb) : Type 0 where
  replayed :
      (e : Entry)
      → find_entry m.user_id m.idempotency_key db.entries ≡ some e
      → same_movement e.movement m ≡ true
      → p ≡ (e, record db { accounts = ensured m db })
      → Outcome m db p
  recorded :
      (account : Account)
      → find_account m.user_id (ensured m db) ≡ some account
      → find_entry m.user_id m.idempotency_key db.entries ≡ none
      → Recorded m account (ensured m db) db p
      → Outcome m db p

post_to_account-Outcome :
    (m : Movement) (account : Option Account) (found : Option Entry) (db : CoinDb)
    (p : Entry × CoinDb)
    → find_account m.user_id (ensured m db) ≡ account
    → find_entry m.user_id m.idempotency_key db.entries ≡ found
    → post_to_account m account found (ensured m db) db ≡ ok p
    → Outcome m db p
unfolding post_to_account post_replay
post_to_account-Outcome m none found db p ha he h = cc
post_to_account-Outcome m (some account) none db p ha he h =
    recorded account ha he (post_new-Recorded m account _ db p h)
post_to_account-Outcome m (some account) (some e) db p ha he h =
    elim (Bool-cases (same_movement e.movement m)) [
      | inl same ↦ replayed e he same (ground arith)
      | inr differs ↦ absurd (ground arith)
    ]

pub post_ledger_entry-Outcome :
    (m : Movement) (db : CoinDb) (p : Entry × CoinDb)
    → post_ledger_entry m db ≡ ok p
    → (posting_allowed db.active_system m.operation_type ≡ true) × Outcome m db p
unfolding post_ledger_entry
post_ledger_entry-Outcome m db p h =
    elim (Bool-cases (posting_allowed db.active_system m.operation_type)) [
      | inl allowed ↦ (allowed, post_to_account-Outcome m _ _ db p refl refl (rw allowed at h))
      | inr fenced ↦ absurd (ground arith)
    ]
