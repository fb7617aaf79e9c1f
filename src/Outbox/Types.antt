-- ===== src/Outbox/Types.antt =====
-- src/moneyOutbox.ts: the rows of `money_outbox_events`, the events handed to a worker, and what a
-- run reports. A uuid is a number, a time is in milliseconds, a payload is its JSON text.
use mpulse.Common.{ℕ, Option, List}
use mpulse.Common.Text.{Text}

pub data MoneyOutboxStatus : Type 0 where
  pending processing sent failed dead_letter : MoneyOutboxStatus

pub record OutboxRow : Type 0 where
  pub id : ℕ
  pub aggregate_type : Text
  pub aggregate_id : Text
  pub event_type : Text
  pub idempotency_key : Text
  pub payload : Text
  pub status : MoneyOutboxStatus
  pub attempts : ℕ
  pub available_at : ℕ
  pub created_at : ℕ
  pub locked_at : Option ℕ
  pub locked_by : Option Text
  pub lock_token : Option ℕ
  pub last_error : Option Text
  pub last_attempt_at : Option ℕ
  pub processed_at : Option ℕ
  pub dead_lettered_at : Option ℕ
  pub updated_at : ℕ

abbrev pub Table : Type 0
Table = List OutboxRow

-- `MoneyOutboxEvent`
pub record OutboxEvent : Type 0 where
  pub event_id : ℕ
  pub event_aggregate_type : Text
  pub event_aggregate_id : Text
  pub event_kind : Text
  pub event_idempotency_key : Text
  pub event_payload : Text
  pub event_status : MoneyOutboxStatus
  pub attempt : ℕ
  pub event_available_at : ℕ
  pub event_created_at : ℕ
  pub event_lock_token : ℕ

pub data RecordFailureResult : Type 0 where
  retry exhausted lease_lost : RecordFailureResult

pub record RunResult : Type 0 where
  pub claimed : ℕ
  pub sent_count : ℕ
  pub retried : ℕ
  pub dead_lettered : ℕ
  pub lease_lost_count : ℕ
