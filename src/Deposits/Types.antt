-- ===== src/Deposits/Types.antt =====
-- src/coinWallets.ts: the rows that deposits read and write. A uuid is a number. `Event` is what
-- `parseFireblocksDeposit` makes of a webhook whose signature has been verified.
use mpulse.Common.{ℕ, Bool, Option, List}
use mpulse.Common.Int.{ℤ}
use mpulse.Common.Text.{Text}
use mpulse.Coins.Types.{Entry, CoinDb}
use mpulse.Wallets.Types.{RateSnapshot, AuditRow, OutboxInsert}

pub data DepositStatus : Type 0 where
  detected confirming confirmed_unpriced pending_rate manual_review : DepositStatus
  credited rejected reversal_pending reversing reversed : DepositStatus

-- A row of `crypto_deposits`. The USD value in micros is the credited amount.
pub record Deposit : Type 0 where
  pub deposit_id : ℕ
  pub deposit_event : Text
  pub deposit_transaction : Option Text
  pub tx_hash : Text
  pub chain_index : Text
  pub contract : Text
  pub deposit_address : Text
  pub deposit_intent : Option ℕ
  pub deposit_user : Option ℕ
  pub gross_usdt : ℕ
  pub network_fee_usdt : ℕ
  pub provider_fee_usdt : ℕ
  pub net_usdt : ℕ
  pub deposit_rate : Option ℕ
  pub credited_coin_micros : Option ℕ
  pub credit_entry : Option ℕ
  pub reversal_entry : Option ℕ
  pub last_event : ℕ
  pub required_confirmations : ℕ
  pub actual_confirmations : ℕ
  pub deposit_status : DepositStatus
  pub manual_review_reason : Option Text
  pub confirmed_at : Option Text
  pub credited_at : Option Text

pub data IntentStatus : Type 0 where
  waiting intent_detected intent_credited intent_expired : IntentStatus

-- A row of `wallet_deposit_intents` for USDT on TRON; its expected amount is in atomic units.
pub record Intent : Type 0 where
  pub intent_id : ℕ
  pub intent_user : ℕ
  pub intent_address : Text
  pub expected_amount : ℤ
  pub intent_status : IntentStatus
  pub intent_expires : ℤ

-- A row of `money_provider_events`.
pub record ProviderEvent : Type 0 where
  pub event_uuid : ℕ
  pub event_name : Text
  pub event_hash : Text

pub record Event : Type 0 where
  pub provider_event_id : Text
  pub provider_transaction_id : Option Text
  pub blockchain_tx_hash : Text
  pub event_index : Text
  pub destination : Text
  pub token_contract : Text
  pub event_asset : Text
  pub event_network : Text
  pub gross : ℕ
  pub network_fee : ℕ
  pub provider_fee : ℕ
  pub confirmations : ℕ
  pub provider_status : Text
  pub confirmed : Bool
  pub reversal : Bool
  pub validation_issues : List Text
  pub payload_hash : Text

pub record DepositDb : Type 0 where
  pub coins : CoinDb
  pub deposits : List Deposit
  pub intents : List Intent
  pub events : List ProviderEvent
  pub snapshots : List RateSnapshot
  pub audits : List AuditRow
  pub outbox : List OutboxInsert

-- `CoinWalletServiceOptions`, as far as deposits read them.
pub record DepositOptions : Type 0 where
  pub usdt_tron_contract : Option Text
  pub allow_deposit_credits : Bool
  pub rate_ttl : ℤ
  pub needed_confirmations : ℕ

-- `ProcessedCoinDeposit`
pub record Processed : Type 0 where
  pub processed_deposit : Option Deposit
  pub processed_rate : Option RateSnapshot
  pub processed_entry : Option Entry
  pub repeated : Bool
  pub credit_blocked_reason : Option Text
  pub conflict : Bool
