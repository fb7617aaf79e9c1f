-- ===== src/Coins/Types.antt =====
-- src/coins.ts: the data of the Coin ledger. A uuid is a number, since it is only compared.
use mpulse.Common.{ℕ, Option, List}
use mpulse.Common.Int.{ℤ}
use mpulse.Common.Text.{Text}

pub data OperationType : Type 0 where
  crypto_deposit_credit withdrawal_reserve withdrawal_debit withdrawal_release : OperationType
  trade_reserve trade_debit trade_release trade_settlement_credit : OperationType
  fee_debit refund_credit bonus_credit admin_credit admin_debit : OperationType
  migration_credit correction_credit correction_debit reversed_deposit : OperationType

unfoldable pub OperationType-discrete : Discrete OperationType
OperationType-discrete = hlevel

-- `PostCoinEntryInput`; its JSON metadata is kept as text.
pub record Movement : Type 0 where
  pub user_id : ℕ
  pub operation_type : OperationType
  pub available_delta : ℤ
  pub reserved_delta : ℤ
  pub idempotency_key : Text
  pub source_type : Text
  pub source_id : Text
  pub reason : Text
  pub external_reference : Option Text
  pub rate_snapshot_id : Option ℕ
  pub admin_user_id : Option ℕ
  pub admin_actor : Option Text
  pub audit_metadata : Text

-- A row of `coin_ledger_entries`: the movement and the balances after it. The row is known by its
-- sequence number, which stands for its id too.
pub record Entry : Type 0 where
  pub entry_sequence : ℕ
  pub movement : Movement
  pub available_after : ℤ
  pub reserved_after : ℤ

-- A row of `coin_accounts`, one for each user.
pub record Account : Type 0 where
  pub account_user : ℕ
  pub available : ℤ
  pub reserved : ℤ

pub data ActiveSystem : Type 0 where
  legacy migrating coin : ActiveSystem

-- The three tables; `active_system` is `none` where the singleton row is missing. The newest entry
-- stands first.
pub record CoinDb : Type 0 where
  pub active_system : Option ActiveSystem
  pub accounts : List Account
  pub entries : List Entry
  pub next_sequence : ℕ

-- What a statement on the tables may raise.
pub data PgError : Type 0 where
  cutover_incomplete idempotency_key_reuse_mismatch insufficient_coin_balance : PgError
  bigint_out_of_range check_violation : PgError

-- `CoinLedgerError`, or an error of the database that is thrown on as it is.
pub data CoinLedgerError : Type 0 where
  coin_idempotency_key_required coin_reason_required coin_source_required : CoinLedgerError
  coin_zero_movement coin_cutover_incomplete insufficient_coin_balance : CoinLedgerError
  coin_idempotency_key_reuse_mismatch : CoinLedgerError
  database : PgError → CoinLedgerError
