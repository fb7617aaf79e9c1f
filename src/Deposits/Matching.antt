-- ===== src/Deposits/Matching.antt =====
-- src/coinWallets.ts: `lockOrCreateDeposit`, which finds the row of an event or inserts one.
use mpulse.Common.{
  ℕ, Bool, true, false, not, ◌&&◌, ◌||◌, Option, none, some, List, [], ◌∷◌, ◌++◌, max, ok, ◌>>◌,
  throw_if, if◌then◌else◌, ◌==◌, filter, take,
}
use mpulse.Common.Int.{ℤ, ltb_ℤ}
use mpulse.Common.Text.{Text, codes, text_eq, is_empty}
use mpulse.Wallets.Types.{WalletError, Wallet, WalletHost}
use mpulse.Wallets.Store.{is_some}
use mpulse.Deposits.Types.{DepositStatus, Deposit, Intent, Event, DepositDb}
use mpulse.Deposits.Store.{
  calculate_net_usdt, update_deposit, find_deposit, is_open_intent, coalesce_text,
}

abbrev pub immutable_fields_conflict : Text
immutable_fields_conflict = codes "DEPOSIT_IMMUTABLE_FIELDS_CONFLICT"

abbrev pub intent_ambiguous : Text
intent_ambiguous = codes "DEPOSIT_INTENT_AMBIGUOUS"

abbrev pub same_text : Option Text → Option Text → Bool
same_text (some a) (some b) = text_eq a b
same_text _ _ = false

unfoldable pub same_chain_fields : Deposit → Event → Bool
same_chain_fields d e =
    text_eq d.tx_hash e.blockchain_tx_hash
    && text_eq d.contract e.token_contract
    && text_eq d.chain_index e.event_index
    && text_eq d.deposit_address e.destination

-- The fields of the chain agree, or both have one transaction of the provider.
unfoldable pub is_deposit_of : Event → Deposit → Bool
unfolding same_chain_fields
is_deposit_of e d =
    same_chain_fields d e || same_text d.deposit_transaction e.provider_transaction_id

-- The rows stand in the order in which they were created.
unfoldable pub find_matching : Event → List Deposit → Option Deposit
unfolding is_deposit_of
find_matching e [] = none
find_matching e (d ∷ deposits) = if is_deposit_of e d then some d else find_matching e deposits

unfoldable pub is_deposit_financial_state_immutable : DepositStatus → Bool
is_deposit_financial_state_immutable DepositStatus.credited = true
is_deposit_financial_state_immutable DepositStatus.reversal_pending = true
is_deposit_financial_state_immutable DepositStatus.reversing = true
is_deposit_financial_state_immutable DepositStatus.reversed = true
is_deposit_financial_state_immutable _ = false

-- A provider transaction is compared where both are there and not empty.
abbrev pub other_transaction : Option Text → Option Text → Bool
other_transaction (some a) (some b) = not (is_empty a) && not (is_empty b) && not (text_eq a b)
other_transaction _ _ = false

-- `compareDepositImmutableFields(...) !== null`: some field that may not change differs.
unfoldable pub immutable_fields_differ : Deposit → Event → Bool
unfolding same_chain_fields calculate_net_usdt
immutable_fields_differ d e =
    not (text_eq e.event_asset (codes "USDT"))
    || not (text_eq e.event_network (codes "TRON"))
    || not (same_chain_fields d e)
    || not (d.gross_usdt == e.gross)
    || not (d.network_fee_usdt == e.network_fee)
    || not (d.provider_fee_usdt == e.provider_fee)
    || not (d.net_usdt == calculate_net_usdt e)
    || other_transaction d.deposit_transaction e.provider_transaction_id

-- What the event leaves in the row that it was found for.
unfoldable pub seen_deposit : Bool → ℕ → Event → Deposit → Deposit
seen_deposit clash stored e d = record d {
  deposit_event = e.provider_event_id;
  deposit_transaction =
      if clash
      then d.deposit_transaction
      else coalesce_text d.deposit_transaction e.provider_transaction_id;
  last_event = stored;
  actual_confirmations = max d.actual_confirmations e.confirmations;
  deposit_status =
      if clash && not (is_deposit_financial_state_immutable d.deposit_status)
      then DepositStatus.manual_review
      else d.deposit_status;
  manual_review_reason = if clash then some immutable_fields_conflict else d.manual_review_reason;
}

abbrev pub has_issue : Text → List Text → Bool
has_issue issue [] = false
has_issue issue (i ∷ issues) = text_eq i issue || has_issue issue issues

-- `selectUnambiguousDepositIntent`
unfoldable pub select_unambiguous_deposit_intent : List Intent → Option Intent × Bool
select_unambiguous_deposit_intent [] = (none, false)
select_unambiguous_deposit_intent (i ∷ []) = (some i, false)
select_unambiguous_deposit_intent (i ∷ j ∷ intents) = (none, true)

unfoldable pub is_candidate : ℤ → Event → Intent → Bool
is_candidate now e i =
    text_eq i.intent_address e.destination
    && is_open_intent i.intent_status
    && ltb_ℤ now i.intent_expires

-- The intent, and whether there are several.
unfoldable pub find_deposit_intent : ℤ → Event → List Intent → Option Intent × Bool
unfolding select_unambiguous_deposit_intent is_candidate
find_deposit_intent now e intents =
    if not (text_eq e.event_asset (codes "USDT"))
      || not (text_eq e.event_network (codes "TRON"))
      || is_empty e.destination
      || has_issue (codes "INVALID_DESTINATION_ADDRESS") e.validation_issues
    then (none, false)
    else select_unambiguous_deposit_intent (take 2 (filter (is_candidate now e) intents))

abbrev pub first_issue : List Text → Bool → Option Text
first_issue (i ∷ issues) ambiguous = some i
first_issue [] true = some intent_ambiguous
first_issue [] false = none

abbrev id_of : Option Intent → Option ℕ
id_of none = none
id_of (some i) = some i.intent_id

abbrev user_of : Option Intent → Option ℕ
user_of none = none
user_of (some i) = some i.intent_user

unfoldable pub new_deposit : ℕ → ℕ → ℕ → Event → Option Intent → Option Text → Deposit
unfolding calculate_net_usdt
new_deposit id stored needed e intent invalid = record {
  deposit_id = id;
  deposit_event = e.provider_event_id;
  deposit_transaction = e.provider_transaction_id;
  tx_hash = e.blockchain_tx_hash;
  chain_index = e.event_index;
  contract = e.token_contract;
  deposit_address = e.destination;
  deposit_intent = id_of intent;
  deposit_user = user_of intent;
  gross_usdt = e.gross;
  network_fee_usdt = e.network_fee;
  provider_fee_usdt = e.provider_fee;
  net_usdt = calculate_net_usdt e;
  deposit_rate = none;
  credited_coin_micros = none;
  credit_entry = none;
  reversal_entry = none;
  last_event = stored;
  required_confirmations = needed;
  actual_confirmations = e.confirmations;
  deposit_status = if is_some invalid then DepositStatus.manual_review else DepositStatus.detected;
  manual_review_reason = invalid;
  confirmed_at = none;
  credited_at = none;
}

-- The row, whether its immutable fields differ, and the rows after it.
pub record Locked : Type 0 where
  pub locked : Deposit
  pub fields_clash : Bool
  pub rows : List Deposit

unfoldable pub lock_existing : Deposit → ℕ → Event → List Deposit → Locked
unfolding immutable_fields_differ seen_deposit
lock_existing d stored e deposits =
    let clash = immutable_fields_differ d e in
    record {
      locked = seen_deposit clash stored e d;
      fields_clash = clash;
      rows = update_deposit d.deposit_id (seen_deposit clash stored e) deposits;
    }

-- The id is unique in the table.
unfoldable pub lock_new :
    WalletHost → ℕ → ℕ → Event → (Option Intent × Bool) → List Deposit → Wallet Locked
unfolding new_deposit
lock_new host stored needed e (intent, ambiguous) deposits =
    let d =
      new_deposit (host.new_uuid 1) stored needed e intent
        (first_issue e.validation_issues ambiguous) in
    do
      throw_if (is_some (find_deposit d.deposit_id deposits)) WalletError.unique_violation
      ok (record { locked = d; fields_clash = false; rows = deposits ++ (d ∷ []) })

unfoldable pub lock_found : Option Deposit → WalletHost → ℕ → ℕ → Event → DepositDb → Wallet Locked
unfolding lock_existing lock_new find_deposit_intent
lock_found (some d) host stored needed e db = ok (lock_existing d stored e db.deposits)
lock_found none host stored needed e db =
    lock_new host stored needed e (find_deposit_intent host.now e db.intents) db.deposits

unfoldable pub lock_or_create_deposit : WalletHost → ℕ → ℕ → Event → DepositDb → Wallet Locked
unfolding find_matching lock_found
lock_or_create_deposit host stored needed e db =
    lock_found (find_matching e db.deposits) host stored needed e db
