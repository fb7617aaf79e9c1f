-- ===== src/Coins/Repository.antt =====
-- src/coins.ts: `PostgresCoinLedgerRepository`, and the reservations built on it.
use mpulse.Common.{
  ℕ, ◌&&◌, Option, none, some, List, Result, ok, err, ◌>>◌, throw_if, ◌==◌, take, filter,
}
use mpulse.Common.Int.{ℤ, pos, neg, ◌+ℤ◌, eqb_ℤ}
use mpulse.Common.Text.{trim, is_empty}
use mpulse.Coins.Types.{
  OperationType, Movement, Entry, Account, ActiveSystem, CoinDb, PgError, CoinLedgerError,
}
use mpulse.Coins.Posting.{find_account, post_ledger_entry}

pub record CoinBalance : Type 0 where
  pub balance_user : ℕ
  pub available_coin_micros : ℤ
  pub reserved_coin_micros : ℤ
  pub total_coin_micros : ℤ

unfoldable pub assert_cutover_ready : Option ActiveSystem → Result CoinLedgerError (Unit {0})
assert_cutover_ready (some ActiveSystem.coin) = ok tt
assert_cutover_ready _ = err CoinLedgerError.coin_cutover_incomplete

-- The row of the account, or zeros where there is none.
unfoldable pub balance_row : ℕ → Option Account → CoinBalance
unfolding ◌+ℤ◌
balance_row user none = record {
  balance_user = user;
  available_coin_micros = pos 0;
  reserved_coin_micros = pos 0;
  total_coin_micros = pos 0 +ℤ pos 0;
}
balance_row user (some a) = record {
  balance_user = user;
  available_coin_micros = a.available;
  reserved_coin_micros = a.reserved;
  total_coin_micros = a.available +ℤ a.reserved;
}

unfoldable pub get_balance : ℕ → CoinDb → Result CoinLedgerError CoinBalance
get_balance user db = do
  assert_cutover_ready db.active_system
  ok (balance_row user (find_account user db.accounts))

-- `order by entry_sequence desc limit $2`: the entries stand in that order.
unfoldable pub list_entries : ℕ → ℕ → CoinDb → Result CoinLedgerError (List Entry)
list_entries user limit db = do
  assert_cutover_ready db.active_system
  ok (take limit (filter (λ e. e.movement.user_id == user) db.entries))

unfoldable pub validate_post_entry : Movement → Result CoinLedgerError (Unit {0})
validate_post_entry input = do
  throw_if (is_empty (trim input.idempotency_key)) CoinLedgerError.coin_idempotency_key_required
  throw_if (is_empty (trim input.reason)) CoinLedgerError.coin_reason_required
  throw_if (is_empty (trim input.source_type)) CoinLedgerError.coin_source_required
  throw_if (is_empty (trim input.source_id)) CoinLedgerError.coin_source_required
  throw_if (eqb_ℤ input.available_delta (pos 0) && eqb_ℤ input.reserved_delta (pos 0))
      CoinLedgerError.coin_zero_movement

-- The `catch` of `postEntry`, which knows the exceptions by their messages.
unfoldable pub map_pg_error : PgError → CoinLedgerError
map_pg_error PgError.insufficient_coin_balance = CoinLedgerError.insufficient_coin_balance
map_pg_error PgError.cutover_incomplete = CoinLedgerError.coin_cutover_incomplete
map_pg_error PgError.idempotency_key_reuse_mismatch =
    CoinLedgerError.coin_idempotency_key_reuse_mismatch
map_pg_error other = CoinLedgerError.database other

unfoldable pub from_database : {A : Type 0} → Result PgError A → Result CoinLedgerError A
unfolding map_pg_error
from_database (ok a) = ok a
from_database (err e) = err (map_pg_error e)

unfoldable pub post_entry : Movement → CoinDb → Result CoinLedgerError (Entry × CoinDb)
post_entry input db = do validate_post_entry input; from_database (post_ledger_entry input db)

-- The amounts and the operation type of the input are replaced.
unfoldable pub reserve_coins : Movement → ℤ → CoinDb → Result CoinLedgerError (Entry × CoinDb)
reserve_coins input amount db =
    post_entry
      (record input {
        operation_type = OperationType.withdrawal_reserve;
        available_delta = neg amount;
        reserved_delta = amount;
      })
      db

unfoldable pub release_reserved_coins :
    Movement → ℤ → CoinDb → Result CoinLedgerError (Entry × CoinDb)
release_reserved_coins input amount db =
    post_entry
      (record input {
        operation_type = OperationType.withdrawal_release;
        available_delta = amount;
        reserved_delta = neg amount;
      })
      db
