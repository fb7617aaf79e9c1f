-- ===== src/Coins/Reserve.antt =====
-- When a reservation goes through, and when it is refused for want of funds.
use mpulse.Common.{
  ℕ, suc, ◌+◌, ◌≤◌, ◌<◌, ◌≡◌, refl, sym, ap, ◌∙◌, true, false, none, some, List, ok, err, arith,
}
use mpulse.Common.Int.{ℤ, pos, negsuc, neg, ◌+ℤ◌, ◌≤ℤ◌, ◌<ℤ◌, int_laws}
use mpulse.Common.Text.{trim, is_empty}
use mpulse.Coins.Types.{
  OperationType, Movement, Entry, Account, ActiveSystem, CoinDb, PgError, CoinLedgerError,
}
use mpulse.Coins.Posting.{
  max_bigint, add_bigint, sum_in_funds, posting_allowed, find_entry, not_blank, needs_admin,
  delta_shape, entry_checks, record_movement, post_new, post_to_account, post_ledger_entry,
}
use mpulse.Coins.Accounts.{amounts, amounts_of, amounts_of-ensure, find_account-ensured}
use mpulse.Coins.Outcome.{ensured}
use mpulse.Coins.Repository.{validate_post_entry, from_database, post_entry, reserve_coins}

sum_in_funds_ok :
    (a d : ℤ) → pos 0 ≤ℤ a +ℤ d → a +ℤ d ≤ℤ pos max_bigint → sum_in_funds a d ≡ ok (a +ℤ d)
unfolding sum_in_funds add_bigint
sum_in_funds_ok a d low high = ground arith

sum_in_funds_short :
    (a d : ℤ)
    → a +ℤ d <ℤ pos 0
    → negsuc max_bigint ≤ℤ a +ℤ d
    → sum_in_funds a d ≡ err PgError.insufficient_coin_balance
unfolding sum_in_funds add_bigint
sum_in_funds_short a d low high = ground arith

module _ (m : Movement) (account : Account) (accounts : List Account) (db : CoinDb) where
  post_new_covered :
      pos 0 ≤ℤ account.available +ℤ m.available_delta
      → account.available +ℤ m.available_delta ≤ℤ pos max_bigint
      → pos 0 ≤ℤ account.reserved +ℤ m.reserved_delta
      → account.reserved +ℤ m.reserved_delta ≤ℤ pos max_bigint
      → entry_checks m ≡ true
      → post_new m account accounts db
        ≡ ok (
            record_movement m
              (account.available +ℤ m.available_delta)
              (account.reserved +ℤ m.reserved_delta)
              accounts
              db)
  unfolding post_new
  post_new_covered al ah rl rh checked = rw (
    sum_in_funds_ok account.available m.available_delta al ah,
    sum_in_funds_ok account.reserved m.reserved_delta rl rh,
    checked,
  )

  post_new_short :
      account.available +ℤ m.available_delta <ℤ pos 0
      → negsuc max_bigint ≤ℤ account.available +ℤ m.available_delta
      → post_new m account accounts db ≡ err PgError.insufficient_coin_balance
  unfolding post_new
  post_new_short low high = rw (sum_in_funds_short account.available m.available_delta low high)

-- A key that is new for the user, while the Coin system is active.
post_fresh :
    (m : Movement) (db : CoinDb)
    → db.active_system ≡ some ActiveSystem.coin
    → find_entry m.user_id m.idempotency_key db.entries ≡ none
    → (account : Account) × (post_ledger_entry m db ≡ post_new m account (ensured m db) db)
      × ◌≡◌ {A = ℤ × ℤ} (account.available, account.reserved) (amounts_of m.user_id db.accounts)
unfolding post_ledger_entry post_to_account posting_allowed
post_fresh m db active fresh =
    let (account, found) = find_account-ensured m.user_id db.accounts in
    (
      account,
      rw (active, found, fresh),
      sym (ap amounts found) ∙ amounts_of-ensure m.user_id m.user_id db.accounts,
    )

-- The texts of an input are there: not empty for the service, not blank for the database.
pub record IsNamed (m : Movement) : Type 0 where
  pub key : is_empty (trim m.idempotency_key) ≡ false
  pub reason : is_empty (trim m.reason) ≡ false
  pub source_type : is_empty (trim m.source_type) ≡ false
  pub source_id : is_empty (trim m.source_id) ≡ false
  pub stored_key : not_blank m.idempotency_key ≡ true
  pub stored_reason : not_blank m.reason ≡ true
  pub stored_source_type : not_blank m.source_type ≡ true
  pub stored_source_id : not_blank m.source_id ≡ true

abbrev reserving : Movement → ℕ → Movement
reserving input amount = record input {
  operation_type = OperationType.withdrawal_reserve;
  available_delta = neg (pos amount);
  reserved_delta = pos amount;
}

neg-suc : (n : ℕ) → neg (pos (suc n)) ≡ negsuc n
unfolding neg
neg-suc n = ground arith

module _ (input : Movement) (n : ℕ) (named : IsNamed input) where
  validate-reserving : validate_post_entry (reserving input (suc n)) ≡ ok tt
  unfolding validate_post_entry
  validate-reserving =
      rw (neg-suc, named.key, named.reason, named.source_type, named.source_id) (ground arith)

  checks-reserving : entry_checks (reserving input (suc n)) ≡ true
  unfolding entry_checks needs_admin delta_shape
  checks-reserving =
      rw
        (
          neg-suc, named.stored_key, named.stored_reason, named.stored_source_type,
          named.stored_source_id,
        )
        (ground arith)

module _ (input : Movement) (n : ℕ) (db : CoinDb) (named : IsNamed input)
    (active : db.active_system ≡ some ActiveSystem.coin)
    (fresh : find_entry input.user_id input.idempotency_key db.entries ≡ none) where
  -- With the checks passed, the outcome is that of the two sums.
  reserve_by_sums :
      (account : Account) × ◌≡◌ {A = ℤ × ℤ}
        (account.available, account.reserved)
        (amounts_of input.user_id db.accounts)
      × (reserve_coins input (pos (suc n)) db
          ≡ from_database (post_new (reserving input (suc n)) account (ensured input db) db))
  unfolding reserve_coins post_entry
  reserve_by_sums =
      let (account, posted, before) = post_fresh (reserving input (suc n)) db active fresh in
      (account, before, rw (validate-reserving input n named, posted))

-- With the Coin system active, a new key, all texts there, balances that are not negative and an
-- amount above zero and within the range of a database integer (`max_bigint`), a reservation
-- succeeds if the available balance covers the amount and both balances stay in that range, and is
-- refused as insufficient if the available balance does not cover the amount.
pub reserve_coins_decides :
    (input : Movement) (n available reserved : ℕ) (db : CoinDb)
    → IsNamed input
    → db.active_system ≡ some ActiveSystem.coin
    → find_entry input.user_id input.idempotency_key db.entries ≡ none
    → amounts_of input.user_id db.accounts ≡ (pos available, pos reserved)
    → suc n ≤ max_bigint
    → (suc n ≤ available
        → available ≤ max_bigint
        → reserved + suc n ≤ max_bigint
        → (p : Entry × CoinDb) × (reserve_coins input (pos (suc n)) db ≡ ok p))
      × (available < suc n
          → reserve_coins input (pos (suc n)) db ≡ err CoinLedgerError.insufficient_coin_balance)
reserve_coins_decides input n available reserved db named active fresh holds small =
    let (account, before, outcome) = reserve_by_sums input n db named active fresh in
    let ea : account.available ≡ pos available = ap (λ (q : ℤ × ℤ). q.0) (before ∙ holds) in
    let er : account.reserved ≡ pos reserved = ap (λ (q : ℤ × ℤ). q.1) (before ∙ holds) in
    (
      λ covered low high. (
        record_movement (reserving input (suc n)) (account.available +ℤ neg (pos (suc n)))
            (account.reserved +ℤ pos (suc n)) (ensured input db) db,
        outcome
            ∙ ap from_database (
                post_new_covered (reserving input (suc n)) account (ensured input db) db
                  (rw ea (omega int_laws)) (rw ea (omega int_laws)) (rw er (omega int_laws))
                  (rw er (omega int_laws)) (checks-reserving input n named))
            ∙ (unfold from_database in refl),
      ),
      λ short.
          outcome
          ∙ ap from_database (
              post_new_short (reserving input (suc n)) account (ensured input db) db
                (rw ea (omega int_laws)) (rw ea (omega int_laws)))
          ∙ (unfold from_database in refl),
    )
