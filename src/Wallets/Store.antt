-- ===== src/Wallets/Store.antt =====
-- src/coinWallets.ts: how withdrawals read and write their tables.
use mpulse.Common.{
  ℕ, Bool, true, false, not, ◌&&◌, ◌||◌, Option, none, some, List, [], ◌∷◌, ◌++◌, map, Result, ok,
  err, ◌>>=◌, ◌>>◌, throw_if, if◌then◌else◌, ◌==◌,
}
use mpulse.Common.Text.{Text, codes, text_eq}
use mpulse.Coins.Types.{ActiveSystem, Entry, CoinDb, CoinLedgerError}
use mpulse.Coins.Repository.{list_entries}
use mpulse.Wallets.Types.{
  WithdrawalStatus, QuoteStatus, WithdrawalQuote, Request, AuditRow, OutboxInsert, WalletDb,
  WalletError, Wallet, WalletHost,
}

abbrev pub is_some : {A : Type 0} → Option A → Bool
is_some none = false
is_some (some _) = true

-- `value ?? "0"`
abbrev pub or_zero : Option ℕ → ℕ
or_zero none = 0
or_zero (some n) = n

abbrev pub is_text : Option Text → Text → Bool
is_text none t = false
is_text (some s) t = text_eq s t

-- `requireRow` and the checks for a row that is not there
abbrev pub required : {A : Type 0} → WalletError → Option A → Wallet A
required error none = err error
required error (some a) = ok a

abbrev pub from_ledger : {A : Type 0} → Result CoinLedgerError A → Wallet A
from_ledger (ok a) = ok a
from_ledger (err e) = err (WalletError.ledger_failed e)

unfoldable pub when_coin : {A : Type 0} → Option ActiveSystem → Wallet A → Wallet A
when_coin (some ActiveSystem.coin) operation = operation
when_coin _ operation = err WalletError.coin_cutover_incomplete

unfoldable pub with_cutover_ready : {A : Type 0} → WalletDb → Wallet A → Wallet A
unfolding when_coin
with_cutover_ready db operation = when_coin db.coins.active_system operation

-- `withdrawal_quote_id is not null and (user is null or user_id = user)`
unfoldable pub is_withdrawal_of : Option ℕ → Request → Bool
is_withdrawal_of none r = is_some r.withdrawal_quote
is_withdrawal_of (some user) r = is_some r.withdrawal_quote && r.request_user == user

unfoldable pub find_withdrawal_for_update : ℕ → Option ℕ → List Request → Option Request
unfolding is_withdrawal_of
find_withdrawal_for_update id user [] = none
find_withdrawal_for_update id user (r ∷ requests) =
    if r.request_id == id && is_withdrawal_of user r
    then some r
    else find_withdrawal_for_update id user requests

unfoldable pub find_withdrawal_by_idempotency : ℕ → Text → List Request → Option Request
find_withdrawal_by_idempotency user key [] = none
find_withdrawal_by_idempotency user key (r ∷ requests) =
    if r.request_user == user && text_eq r.request_key key && is_some r.withdrawal_quote
    then some r
    else find_withdrawal_by_idempotency user key requests

-- `update wallet_withdrawal_requests ... where id = $1`
unfoldable pub update_request : ℕ → (Request → Request) → List Request → List Request
update_request id change requests = map (λ r. if r.request_id == id then change r else r) requests

unfoldable pub request_clashes : Request → List Request → Bool
request_clashes r [] = false
request_clashes r (q ∷ requests) =
    q.request_id == r.request_id
    || q.request_user == r.request_user && text_eq q.request_key r.request_key
    || request_clashes r requests

-- The table is unique on the id, and on the user with the key.
unfoldable pub insert_request : Request → List Request → Wallet (List Request)
unfolding request_clashes
insert_request r requests = do
  throw_if (request_clashes r requests) WalletError.unique_violation
  ok (r ∷ requests)

unfoldable pub find_quote : ℕ → ℕ → List WithdrawalQuote → Option WithdrawalQuote
find_quote id user [] = none
find_quote id user (q ∷ quotes) =
    if q.quote_id == id && q.quote_user == user then some q else find_quote id user quotes

unfoldable pub set_quote_status : ℕ → QuoteStatus → List WithdrawalQuote → List WithdrawalQuote
set_quote_status id status quotes =
    map (λ q. if q.quote_id == id then record q { quote_status = status } else q) quotes

unfoldable pub find_sequence : ℕ → List Entry → Option Entry
find_sequence sequence [] = none
find_sequence sequence (e ∷ entries) =
    if e.entry_sequence == sequence then some e else find_sequence sequence entries

unfoldable find_listed : ℕ → Option Entry → CoinDb → Result CoinLedgerError (Option Entry)
find_listed sequence none coins = ok none
find_listed sequence (some row) coins = do
  entries ← list_entries row.movement.user_id 500 coins
  ok (find_sequence sequence entries)

-- The user of the entry is read first, and then the user's 500 newest entries are searched.
unfoldable pub find_coin_entry : ℕ → CoinDb → Wallet (Option Entry)
unfolding find_sequence find_listed
find_coin_entry sequence coins =
    from_ledger (find_listed sequence (find_sequence sequence coins.entries) coins)

unfoldable pub insert_audit : Text → Option ℕ → List AuditRow → List AuditRow
insert_audit kind user audits = record { audit_type = kind; audit_user = user } ∷ audits

abbrev has_event : Text → List OutboxInsert → Bool
has_event key [] = false
has_event key (e ∷ events) = text_eq e.event_key key || has_event key events

-- `on conflict (idempotency_key) do nothing`
unfoldable pub insert_outbox : OutboxInsert → List OutboxInsert → List OutboxInsert
insert_outbox e events = if has_event e.event_key events then events else e ∷ events

abbrev pub is_review_only : WithdrawalStatus → Bool
is_review_only WithdrawalStatus.pending_review = true
is_review_only WithdrawalStatus.approved_for_review = true
is_review_only WithdrawalStatus.rejected = true
is_review_only WithdrawalStatus.cancelled = true
is_review_only WithdrawalStatus.broadcast_pending = false
is_review_only WithdrawalStatus.broadcasted = false
is_review_only WithdrawalStatus.failed = false

unfoldable pub is_backed : Request → Bool
is_backed r =
    is_some r.withdrawal_quote
    && is_some r.coin_reserved_micros
    && is_some r.estimated_usdt_atomic
    && is_some r.reserve_ledger_entry

unfoldable pub has_valid_transfer_policy : Request → Bool
has_valid_transfer_policy r =
    if is_review_only r.status
    then r.real_transfer_blocked && is_text r.block_reason (codes "TRANSFERS_UNAVAILABLE")
    else not r.real_transfer_blocked
      && not (is_some r.block_reason)
      && is_text r.metadata_source (codes "real_withdrawal_broadcast")

-- `mapWithdrawal`, whose result has the fields of the row.
unfoldable pub map_withdrawal : Request → Wallet Request
unfolding is_backed has_valid_transfer_policy
map_withdrawal r = do
  throw_if (not (is_backed r)) WalletError.invalid_coin_wallet_request
  throw_if (not (has_valid_transfer_policy r)) WalletError.invalid_coin_wallet_request
  ok r

-- `withdrawal:${id}:${suffix}`
unfoldable pub withdrawal_key : WalletHost → ℕ → Text → Text
withdrawal_key host id suffix = codes "withdrawal:" ++ (host.uuid_text id ++ (codes ":" ++ suffix))

abbrev pub withdrawal_event : WalletHost → ℕ → Text → Text → OutboxInsert
withdrawal_event host id kind suffix = record {
  aggregate_type = codes "withdrawal";
  aggregate_id = host.uuid_text id;
  event_type = kind;
  event_key = withdrawal_key host id suffix;
}
