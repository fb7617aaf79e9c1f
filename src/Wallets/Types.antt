-- ===== src/Wallets/Types.antt =====
-- src/coinWallets.ts: the rows that withdrawals read and write, and the errors. A uuid is a number.
-- Of the JSON metadata of a request only the field `source` is kept, which the code reads back; the
-- metadata of audit rows and the payloads of outbox events are not modelled.
use mpulse.Common.{ℕ, Bool, Option, List, Result}
use mpulse.Common.Int.{ℤ}
use mpulse.Common.Text.{Text}
use mpulse.Money.Error.{MoneyError}
use mpulse.ExchangeRates.{UsdQuote, ExchangeRateError}
use mpulse.Coins.Types.{Entry, CoinDb, CoinLedgerError}
use mpulse.Coins.Repository.{CoinBalance}

pub data WithdrawalStatus : Type 0 where
  pending_review approved_for_review rejected cancelled : WithdrawalStatus
  broadcast_pending broadcasted failed : WithdrawalStatus

pub data QuoteStatus : Type 0 where
  open_quote consumed expired cancelled_quote : QuoteStatus

-- A row of `withdrawal_quotes`.
pub record WithdrawalQuote : Type 0 where
  pub quote_id : ℕ
  pub quote_user : ℕ
  pub quote_destination : Text
  pub coin_to_debit_micros : ℕ
  pub quote_estimated_usdt_atomic : ℕ
  pub quote_network_fee : ℕ
  pub quote_provider_fee : ℕ
  pub rate_snapshot : ℕ
  pub quote_status : QuoteStatus
  pub quote_expires_at : Text
  pub quote_key : Text
  pub quote_fingerprint : Text

-- A row of `exchange_rate_snapshots`.
pub record RateSnapshot : Type 0 where
  pub snapshot_id : ℕ
  pub snapshot_quote : UsdQuote

-- A row of `wallet_withdrawal_requests`. An entry of the Coin ledger is named by its sequence.
pub record Request : Type 0 where
  pub request_id : ℕ
  pub request_user : ℕ
  pub withdrawal_quote : Option ℕ
  pub destination_address : Text
  pub status : WithdrawalStatus
  pub request_key : Text
  pub provider : Text
  pub real_transfer_blocked : Bool
  pub block_reason : Option Text
  pub metadata_source : Option Text
  pub request_fingerprint : Text
  pub coin_reserved_micros : Option ℕ
  pub coin_debited_micros : Option ℕ
  pub estimated_usdt_atomic : Option ℕ
  pub final_usdt_atomic : Option ℕ
  pub network_fee_usdt_atomic : Option ℕ
  pub provider_fee_usdt_atomic : Option ℕ
  pub final_rate_snapshot : Option ℕ
  pub fireblocks_reference : Option Text
  pub failure_state : Option Text
  pub review_reason : Option Text
  pub reviewed_by_actor : Option Text
  pub reviewed_at : Option Text
  pub reserve_ledger_entry : Option ℕ
  pub final_ledger_entry : Option ℕ
  pub release_ledger_entry : Option ℕ
  pub created_at : Text
  pub updated_at : Text

pub record AuditRow : Type 0 where
  pub audit_type : Text
  pub audit_user : Option ℕ

-- An insert into `money_outbox_events`.
pub record OutboxInsert : Type 0 where
  pub aggregate_type : Text
  pub aggregate_id : Text
  pub event_type : Text
  pub event_key : Text

pub record WalletDb : Type 0 where
  pub coins : CoinDb
  pub quotes : List WithdrawalQuote
  pub snapshots : List RateSnapshot
  pub requests : List Request
  pub audits : List AuditRow
  pub outbox : List OutboxInsert

pub data WalletError : Type 0 where
  invalid_coin_wallet_request invalid_coin_amount invalid_usdt_amount : WalletError
  invalid_tron_address idempotency_key_required idempotency_key_reuse_mismatch : WalletError
  admin_reason_required rate_stale rate_unavailable coin_cutover_incomplete : WalletError
  withdrawal_quote_not_found withdrawal_quote_already_used withdrawal_quote_expired : WalletError
  withdrawal_not_found withdrawal_not_cancellable withdrawal_not_reviewable : WalletError
  deposit_not_found deposit_not_retryable : WalletError
  row_missing unique_violation bigint_out_of_range : WalletError
  ledger_failed : CoinLedgerError → WalletError
  money_failed : MoneyError → WalletError
  rate_failed : ExchangeRateError → WalletError

abbrev pub Wallet : Type 0 → Type 0
Wallet A = Result WalletError A

pub data ProviderState : Type 0 where
  completed provider_failed unknown : ProviderState

-- `VerifiedWithdrawalProviderOutcome`
pub record ProviderOutcome : Type 0 where
  pub verified : Bool
  pub outcome_provider : Text
  pub state : ProviderState
  pub provider_reference : Text
  pub transaction_hash : Option Text
  pub outcome_final_usdt_atomic : Option Text
  pub outcome_network_fee : Option Text
  pub outcome_provider_fee : Option Text
  pub evidence_hash : Text
  pub observed_at : Text

-- What an operation on a request answers.
pub record Answer : Type 0 where
  pub withdrawal_request : Request
  pub balance : Option CoinBalance
  pub ledger_entry : Option Entry
  pub idempotent : Bool
  pub accepted : Bool
  pub reserve_held : Bool
  pub retry_blocked_reason : Option Text

-- What the host gives: the n-th `randomUUID()` of an operation, the text of a uuid, `Date.parse`,
-- the time as a number and as text, the JSON text of named fields, a hash of a text, and the two
-- hashes of SHA-256 over bytes that an address needs.
pub record WalletHost : Type 0 where
  pub new_uuid : ℕ → ℕ
  pub uuid_text : ℕ → Text
  pub date_parse : Text → Option ℤ
  pub now : ℤ
  pub now_text : Text
  pub json : List (Text × Option Text) → Text
  pub hash : Text → Text
  pub sha256 : List ℕ → List ℕ
