-- ===== src/Settlement/Types.antt =====
-- src/settlement.ts: the records of a Coin settlement. A uuid is a number; the host gives its text.
-- The columns in dollars are 0 on this path and left out.
use mpulse.Common.{ℕ, Bool, true, false, Option, List, Result}
use mpulse.Common.Int.{ℤ}
use mpulse.Common.Text.{Text}
use mpulse.Money.Error.{MoneyError}
use mpulse.Coins.Types.{Movement, CoinDb, CoinLedgerError}

pub data SettlementStatus : Type 0 where
  resolved cancelled no_winner : SettlementStatus

pub data SettlementSide : Type 0 where
  yes_side no_side : SettlementSide

unfoldable pub same_side : SettlementSide → SettlementSide → Bool
same_side SettlementSide.yes_side SettlementSide.yes_side = true
same_side SettlementSide.no_side SettlementSide.no_side = true
same_side _ _ = false

pub data PayoutKind : Type 0 where
  payout refund loss : PayoutKind

-- A row of `positions`; the database checks that the cost is not negative.
pub record Position : Type 0 where
  pub position_user : ℕ
  pub position_market : Text
  pub position_side : SettlementSide
  pub shares : Text
  pub total_cost_coin_micros : ℕ

-- What a user holds on one side, all positions together.
pub record Stake : Type 0 where
  pub stake_user : ℕ
  pub stake_side : SettlementSide
  pub original_stake_coin_micros : ℕ
  pub shares_micros : ℤ

pub record Settlement : Type 0 where
  pub settlement_id : ℕ
  pub market_id : Text
  pub status : SettlementStatus
  pub winning_side : Option SettlementSide
  pub total_pool_coin_micros : ℕ
  pub winning_pool_coin_micros : ℕ
  pub platform_fee_coin_micros : ℕ
  pub distributable_pool_coin_micros : ℕ
  pub payout_count : ℕ
  pub created_by : Option ℕ
  pub settlement_key : Text
  pub created_at : Text

pub record Payout : Type 0 where
  pub payout_id : ℕ
  pub payout_settlement : ℕ
  pub payout_market : Text
  pub payout_user : ℕ
  pub payout_side : SettlementSide
  pub payout_stake : ℕ
  pub payout_coin_micros : ℕ
  pub profit_coin_micros : ℤ
  pub kind : PayoutKind
  pub coin_ledger_entry_id : Option ℕ
  pub paid_at : Text

-- `SettlementCoinLedgerEntryDraft`
pub record Draft : Type 0 where
  pub draft_payout : ℕ
  pub draft_movement : Movement

pub data AuditType : Type 0 where
  market_cancelled market_settled : AuditType

pub record AuditEvent : Type 0 where
  pub event_type : AuditType
  pub event_user : Option ℕ
  pub event_session : Option ℕ
  pub event_actor : Option Text
  pub event_settlement : Settlement
  pub event_balanced : Bool

-- An insert into `money_outbox_events`.
pub record CommittedEvent : Type 0 where
  pub aggregate_id : ℕ
  pub event_key : Text
  pub event_market : Text
  pub event_payouts : ℕ

-- `CoinSettlementCommitInput`
pub record CommitInput : Type 0 where
  pub input_market : Text
  pub input_status : SettlementStatus
  pub input_winner : Option SettlementSide
  pub admin_user : Option ℕ
  pub admin_actor_id : Option Text
  pub session_id : Option ℕ
  pub input_key : Text

-- `SettlementCommitInput`
pub record Plan : Type 0 where
  pub settlement : Settlement
  pub payouts : List Payout
  pub drafts : List Draft

pub record SettlementResult : Type 0 where
  pub result_settlement : Settlement
  pub result_payouts : List Payout
  pub payout_total : ℕ
  pub balanced : Bool

pub data SettlementError : Type 0 where
  invalid_settlement_request no_settlement_positions market_already_settled : SettlementError
  settlement_idempotency_key_required settlement_executions_pending : SettlementError
  settlement_provider_funding_unverified settlement_commit_incomplete : SettlementError
  money_error : MoneyError → SettlementError
  coin_ledger_error : CoinLedgerError → SettlementError

abbrev pub Settling : Type 0 → Type 0
Settling A = Result SettlementError A

-- A row of `trade_execution_orders`, as far as settlement reads it.
pub data ExecutionStatus : Type 0 where
  execution_pending manual_review other_status : ExecutionStatus

pub record ExecutionOrder : Type 0 where
  pub order_market : Text
  pub order_status : ExecutionStatus

pub record SettlementDb : Type 0 where
  pub coins : CoinDb
  pub settlements : List Settlement
  pub paid : List Payout
  pub positions : List Position
  pub executions : List ExecutionOrder
  pub audits : List AuditEvent
  pub outbox : List CommittedEvent

-- What the host gives: the n-th `randomUUID()` of a commit, the text of a uuid, the JSON text of a
-- payout's audit metadata, and the time.
pub record Host : Type 0 where
  pub random_uuid : ℕ → ℕ
  pub uuid_text : ℕ → Text
  pub payout_metadata : Payout → Text
  pub now : Text
