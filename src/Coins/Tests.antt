-- ===== src/Coins/Tests.antt =====
-- Runs of the Coin ledger on a small database.
use mpulse.Common.{
  ℕ, suc, ◌+◌, ◌≤◌, ◌<◌, ◌≡◌, ◌≢◌, ◌⊎◌, refl, none, some, [], Result, ok, err, arith,
}
use mpulse.Common.Int.{◌+ℤ◌, ◌-ℤ◌, neg}
use mpulse.Common.Text.{text_eq, is_space, trim_start, trim, starts_with}
use mpulse.Common.Equality.{Text-discrete, OptionText-discrete, OptionNat-discrete}
use mpulse.Coins.Types.{OperationType-discrete}
use mpulse.Coins.Posting.{
  add_bigint, sum_in_funds, posting_allowed, find_account, ensure_account, update_account,
  find_entry, same_movement, not_blank, has_admin, delta_shape, needs_admin, entry_checks,
  record_movement, post_new, post_replay, post_to_account, post_ledger_entry,
}
use mpulse.Coins.Repository.{
  assert_cutover_ready, balance_row, get_balance, list_entries, validate_post_entry, map_pg_error,
  from_database, post_entry, reserve_coins, release_reserved_coins,
}
use mpulse.Common.Int.{pos}
use mpulse.Common.Text.{codes}
use mpulse.Coins.Types.{
  OperationType, Movement, Entry, ActiveSystem, CoinDb, PgError, CoinLedgerError,
}
use mpulse.Coins.Accounts.{amounts_of}
use mpulse.Coins.Derived.{IsLedger, sum_entries, post_ledger_entry-IsLedger}
use mpulse.Coins.Outcome.{ensured}
use mpulse.Coins.Replay.{Agrees, key_reuse, post_twice}
use mpulse.Coins.Effects.{post_entry_fence, reserve_coins_moves, release_undoes_reserve}
use mpulse.Coins.Reserve.{IsNamed, reserve_coins_decides}
use mpulse.Coins.Posting.{max_bigint}

abbrev test_db : CoinDb
test_db = record {
  active_system = some ActiveSystem.coin;
  accounts = [];
  entries = [];
  next_sequence = 1;
}

-- A deposit of one Coin.
abbrev deposit : Movement
deposit = record {
  user_id = 7;
  operation_type = OperationType.crypto_deposit_credit;
  available_delta = pos 1000000;
  reserved_delta = pos 0;
  idempotency_key = codes "d";
  source_type = codes "deposit";
  source_id = codes "1";
  reason = codes "paid in";
  external_reference = none;
  rate_snapshot_id = some 3;
  admin_user_id = none;
  admin_actor = none;
  audit_metadata = codes "{}";
}

abbrev withdrawal : Movement
withdrawal = record deposit {
  idempotency_key = codes "w";
  operation_type = OperationType.withdrawal_reserve;
}

abbrev cancellation : Movement
cancellation = record deposit {
  idempotency_key = codes "c";
  operation_type = OperationType.withdrawal_release;
}

-- The value of a run, or that of a run that failed.
abbrev ok_or : {E A : Type 0} → A → Result E A → A
ok_or a (ok b) = b
ok_or a (err e) = a

abbrev no_entry : Entry × CoinDb
no_entry = (
  record {
    entry_sequence = 0;
    movement = deposit;
    available_after = pos 0;
    reserved_after = pos 0;
  },
  test_db,
)

abbrev after_deposit : Entry × CoinDb
after_deposit = ok_or no_entry (post_ledger_entry deposit test_db)

abbrev after_reserve : Entry × CoinDb
after_reserve = ok_or no_entry (reserve_coins withdrawal (pos 400000) after_deposit.1)

abbrev after_release : Entry × CoinDb
after_release = ok_or no_entry (release_reserved_coins cancellation (pos 400000) after_reserve.1)

test_db-IsLedger : IsLedger test_db
unfolding find_account ◌+ℤ◌ sum_entries
test_db-IsLedger = record {
  sums = λ user. refl;
  available_range = λ user. (omega arith, omega arith);
  reserved_range = λ user. (omega arith, omega arith);
}

post_ledger_entry-IsLedger_example : IsLedger after_deposit.1
unfolding ◌+ℤ◌ ◌-ℤ◌ neg text_eq is_space trim_start trim starts_with Text-discrete
    OptionText-discrete OptionNat-discrete OperationType-discrete add_bigint sum_in_funds
    posting_allowed find_account ensure_account update_account find_entry same_movement not_blank
    has_admin delta_shape needs_admin entry_checks record_movement post_new post_replay
    post_to_account post_ledger_entry assert_cutover_ready balance_row get_balance list_entries
    validate_post_entry map_pg_error from_database post_entry reserve_coins release_reserved_coins
post_ledger_entry-IsLedger_example =
    post_ledger_entry-IsLedger deposit test_db after_deposit test_db-IsLedger refl

post_twice_example : post_ledger_entry deposit after_deposit.1 ≡ ok after_deposit
unfolding ◌+ℤ◌ ◌-ℤ◌ neg text_eq is_space trim_start trim starts_with Text-discrete
    OptionText-discrete OptionNat-discrete OperationType-discrete add_bigint sum_in_funds
    posting_allowed find_account ensure_account update_account find_entry same_movement not_blank
    has_admin delta_shape needs_admin entry_checks record_movement post_new post_replay
    post_to_account post_ledger_entry assert_cutover_ready balance_row get_balance list_entries
    validate_post_entry map_pg_error from_database post_entry reserve_coins release_reserved_coins
post_twice_example = post_twice deposit test_db after_deposit refl

key_reuse_example :
    (Agrees after_deposit.0.movement deposit
      → post_ledger_entry deposit after_deposit.1
        ≡ ok (
          after_deposit.0,
          record after_deposit.1 { accounts = ensured deposit after_deposit.1 },
        ))
    × (¬ Agrees after_deposit.0.movement deposit
        → post_ledger_entry deposit after_deposit.1 ≡ err PgError.idempotency_key_reuse_mismatch)
unfolding ◌+ℤ◌ ◌-ℤ◌ neg text_eq is_space trim_start trim starts_with Text-discrete
    OptionText-discrete OptionNat-discrete OperationType-discrete add_bigint sum_in_funds
    posting_allowed find_account ensure_account update_account find_entry same_movement not_blank
    has_admin delta_shape needs_admin entry_checks record_movement post_new post_replay
    post_to_account post_ledger_entry assert_cutover_ready balance_row get_balance list_entries
    validate_post_entry map_pg_error from_database post_entry reserve_coins release_reserved_coins
key_reuse_example = key_reuse deposit after_deposit.1 after_deposit.0 refl refl

post_entry_fence_example :
    (test_db.active_system ≡ some ActiveSystem.coin)
    ⊎ ((test_db.active_system ≡ some ActiveSystem.migrating)
        × (deposit.operation_type ≡ OperationType.migration_credit))
unfolding ◌+ℤ◌ ◌-ℤ◌ neg text_eq is_space trim_start trim starts_with Text-discrete
    OptionText-discrete OptionNat-discrete OperationType-discrete add_bigint sum_in_funds
    posting_allowed find_account ensure_account update_account find_entry same_movement not_blank
    has_admin delta_shape needs_admin entry_checks record_movement post_new post_replay
    post_to_account post_ledger_entry assert_cutover_ready balance_row get_balance list_entries
    validate_post_entry map_pg_error from_database post_entry reserve_coins release_reserved_coins
post_entry_fence_example = post_entry_fence deposit test_db after_deposit refl

reserve_coins_moves_example :
    let (available, reserved) = amounts_of withdrawal.user_id after_deposit.1.accounts in
    let (available', reserved') = amounts_of withdrawal.user_id after_reserve.1.accounts in
    (available' ≡ available -ℤ pos 400000)
    × (reserved' ≡ reserved +ℤ pos 400000)
    × (available' +ℤ reserved' ≡ available +ℤ reserved)
    × ((user : ℕ)
        → withdrawal.user_id ≢ user
        → amounts_of user after_reserve.1.accounts ≡ amounts_of user after_deposit.1.accounts)
unfolding ◌+ℤ◌ ◌-ℤ◌ neg text_eq is_space trim_start trim starts_with Text-discrete
    OptionText-discrete OptionNat-discrete OperationType-discrete add_bigint sum_in_funds
    posting_allowed find_account ensure_account update_account find_entry same_movement not_blank
    has_admin delta_shape needs_admin entry_checks record_movement post_new post_replay
    post_to_account post_ledger_entry assert_cutover_ready balance_row get_balance list_entries
    validate_post_entry map_pg_error from_database post_entry reserve_coins release_reserved_coins
reserve_coins_moves_example =
    reserve_coins_moves withdrawal (pos 400000) after_deposit.1 after_reserve refl refl

release_undoes_reserve_example :
    amounts_of 7 after_release.1.accounts ≡ amounts_of 7 after_deposit.1.accounts
unfolding ◌+ℤ◌ ◌-ℤ◌ neg text_eq is_space trim_start trim starts_with Text-discrete
    OptionText-discrete OptionNat-discrete OperationType-discrete add_bigint sum_in_funds
    posting_allowed find_account ensure_account update_account find_entry same_movement not_blank
    has_admin delta_shape needs_admin entry_checks record_movement post_new post_replay
    post_to_account post_ledger_entry assert_cutover_ready balance_row get_balance list_entries
    validate_post_entry map_pg_error from_database post_entry reserve_coins release_reserved_coins
release_undoes_reserve_example =
    release_undoes_reserve withdrawal cancellation (pos 400000) after_deposit.1 after_reserve
      after_release refl refl refl refl refl 7

withdrawal-IsNamed : IsNamed withdrawal
unfolding ◌+ℤ◌ ◌-ℤ◌ neg text_eq is_space trim_start trim starts_with Text-discrete
    OptionText-discrete OptionNat-discrete OperationType-discrete add_bigint sum_in_funds
    posting_allowed find_account ensure_account update_account find_entry same_movement not_blank
    has_admin delta_shape needs_admin entry_checks record_movement post_new post_replay
    post_to_account post_ledger_entry assert_cutover_ready balance_row get_balance list_entries
    validate_post_entry map_pg_error from_database post_entry reserve_coins release_reserved_coins
withdrawal-IsNamed = record {
  key = refl;
  reason = refl;
  source_type = refl;
  source_id = refl;
  stored_key = refl;
  stored_reason = refl;
  stored_source_type = refl;
  stored_source_id = refl;
}

reserve_coins_decides_example :
    (suc 399999 ≤ 1000000
      → 1000000 ≤ max_bigint
      → 0 + suc 399999 ≤ max_bigint
      → (p : Entry × CoinDb) × (reserve_coins withdrawal (pos (suc 399999)) after_deposit.1 ≡ ok p))
    × (1000000 < suc 399999
        → reserve_coins withdrawal (pos (suc 399999)) after_deposit.1
          ≡ err CoinLedgerError.insufficient_coin_balance)
unfolding ◌+ℤ◌ ◌-ℤ◌ neg text_eq is_space trim_start trim starts_with Text-discrete
    OptionText-discrete OptionNat-discrete OperationType-discrete add_bigint sum_in_funds
    posting_allowed find_account ensure_account update_account find_entry same_movement not_blank
    has_admin delta_shape needs_admin entry_checks record_movement post_new post_replay
    post_to_account post_ledger_entry assert_cutover_ready balance_row get_balance list_entries
    validate_post_entry map_pg_error from_database post_entry reserve_coins release_reserved_coins
reserve_coins_decides_example =
    reserve_coins_decides withdrawal 399999 1000000 0 after_deposit.1 withdrawal-IsNamed refl refl
      refl (omega arith)
