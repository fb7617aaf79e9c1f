-- ===== src/Deposits/Process.antt =====
-- src/coinWallets.ts: `processFireblocksWebhook` and `retryDeposit`.
use mpulse.Common.{
  ℕ, Bool, true, false, not, ◌&&◌, ◌||◌, Option, none, some, List, [], ◌∷◌, ◌++◌, map, filter,
  Result, ok, err, ◌>>=◌, ◌>>◌, throw_if, if◌then◌else◌, ltb, take,
}
use mpulse.Common.Int.{ℤ, pos}
use mpulse.Common.Text.{Text, codes, text_eq, is_empty}
use mpulse.Money.Units.{usdt_atomic}
use mpulse.ExchangeRates.{RatePurpose, RateKind, UsdQuote, ExchangeRateError, validate_usd_quote}
use mpulse.Wallets.Types.{WalletError, Wallet, WalletHost}
use mpulse.Wallets.Parse.{required_text, required_reason}
use mpulse.Wallets.Store.{is_some, is_text, required, insert_audit, insert_outbox}
use mpulse.Wallets.Amounts.{from_rate}
use mpulse.Wallets.Quotes.{as_money}
use mpulse.Deposits.Types.{
  DepositStatus, Deposit, ProviderEvent, Event, DepositDb, DepositOptions, Processed,
}
use mpulse.Deposits.Store.{
  StoredEvent, calculate_net_usdt, store_provider_event, update_deposit, find_deposit, set_detected,
  with_state, find_rate, find_entry_of, deposit_row_event,
}
use mpulse.Deposits.Matching.{
  immutable_fields_conflict, has_issue, is_deposit_of, is_deposit_financial_state_immutable, Locked,
  lock_or_create_deposit,
}
use mpulse.Deposits.Validation.{no_issues, validate_deposit_for_credit}
use mpulse.Deposits.Credit.{is_credited, credit_deposit}
use mpulse.Deposits.Reverse.{is_reversed, reverse_deposit}

abbrev pub contract_issues : Option Text → Text → List Text
contract_issues none token = codes "USDT_CONTRACT_NOT_CONFIGURED" ∷ []
contract_issues (some contract) token =
    if is_empty contract
    then codes "USDT_CONTRACT_NOT_CONFIGURED" ∷ []
    else if text_eq token contract
    then []
    else codes "TOKEN_CONTRACT_MISMATCH" ∷ []

-- `[...new Set(issues)]`
unfoldable pub distinct_from : List Text → List Text → List Text
distinct_from seen [] = []
distinct_from seen (i ∷ issues) =
    let rest = distinct_from (i ∷ seen) issues in if has_issue i seen then rest else i ∷ rest

unfoldable pub with_issues : Option Text → Event → Event
unfolding distinct_from
with_issues contract e = record e {
  validation_issues = distinct_from [] (
      e.validation_issues
      ++ ((if text_eq e.event_asset (codes "USDT") then [] else codes "UNSUPPORTED_ASSET" ∷ [])
          ++ ((if text_eq e.event_network (codes "TRON")
                then []
                else codes "UNSUPPORTED_NETWORK" ∷ [])
              ++ contract_issues contract e.token_contract)));
}

abbrev pub stale_or_unavailable : ExchangeRateError → Text
stale_or_unavailable ExchangeRateError.rate_unavailable = codes "RATE_UNAVAILABLE"
stale_or_unavailable ExchangeRateError.rate_stale = codes "RATE_STALE"
stale_or_unavailable ExchangeRateError.rate_asset_unsupported = codes "RATE_ASSET_UNSUPPORTED"
stale_or_unavailable ExchangeRateError.rate_provider_invalid = codes "RATE_PROVIDER_INVALID"
stale_or_unavailable ExchangeRateError.rate_response_invalid = codes "RATE_RESPONSE_INVALID"

abbrev pub unpriced_status : ExchangeRateError → DepositStatus
unpriced_status ExchangeRateError.rate_stale = DepositStatus.confirmed_unpriced
unpriced_status _ = DepositStatus.pending_rate

abbrev pub awaits_reversal : DepositStatus → Bool
awaits_reversal DepositStatus.reversal_pending = true
awaits_reversal _ = false

abbrev pub review_only : Text
review_only = codes "REAL_MONEY_LAUNCH_NOT_APPROVED"

abbrev payload_conflict : Text
payload_conflict = codes "PROVIDER_EVENT_ID_PAYLOAD_CONFLICT"

-- `pending_rate`, `confirmed_unpriced`, or in review for the rate.
abbrev pub retryable : DepositStatus → Option Text → Bool
retryable DepositStatus.pending_rate reason = true
retryable DepositStatus.confirmed_unpriced reason = true
retryable DepositStatus.manual_review reason =
    is_text reason (codes "RATE_UNAVAILABLE") || is_text reason (codes "RATE_STALE")
retryable _ reason = false

abbrev pub is_retryable : Deposit → Bool
is_retryable d = retryable d.deposit_status d.manual_review_reason

module _ (host : WalletHost) (options : DepositOptions)
    (fetched : ℤ → Result ExchangeRateError UsdQuote) where
  unfoldable pub deposit_quote : ℕ → Result ExchangeRateError UsdQuote
  deposit_quote net = do
    answered ← fetched (pos net)
    validate_usd_quote host.date_parse answered record {
      ttl_seconds = options.rate_ttl;
      now = host.now;
      expected_purpose = some RatePurpose.deposit_final;
      expected_kind = some RateKind.final;
      expected_amount_usdt_atomic = some (pos net);
    }

  -- The rate is asked for only where a credit is possible; otherwise there is none.
  unfoldable pub quote_for_event : Event → Result ExchangeRateError UsdQuote
  unfolding calculate_net_usdt
  quote_for_event e =
      if e.confirmed
        && not e.reversal
        && no_issues e.validation_issues
        && options.allow_deposit_credits
      then deposit_quote (calculate_net_usdt e)
      else err ExchangeRateError.rate_unavailable

  unfoldable pub mark_conflict : Deposit → Deposit
  mark_conflict d = record d {
    deposit_status =
        if is_deposit_financial_state_immutable d.deposit_status
        then d.deposit_status
        else DepositStatus.manual_review;
    manual_review_reason = some payload_conflict;
  }

  abbrev first_of : List Deposit → Option Deposit
  first_of [] = none
  first_of (d ∷ rest) = some d

  abbrev user_of_first : Option Deposit → Option ℕ
  user_of_first none = none
  user_of_first (some d) = d.deposit_user

  -- An event id that comes again with another payload.
  unfoldable pub record_payload_conflict :
      Event → List ProviderEvent → DepositDb → Processed × DepositDb
  unfolding store_provider_event is_deposit_of
  record_payload_conflict e events db =
      let name = e.provider_event_id ++ (codes ":conflict:" ++ take 16 e.payload_hash) in
      let linked = first_of (map mark_conflict (filter (is_deposit_of e) db.deposits)) in
      (
        record {
          processed_deposit = linked;
          processed_rate = none;
          processed_entry = none;
          repeated = false;
          credit_blocked_reason = some payload_conflict;
          conflict = true;
        },
        record db {
          deposits = map (λ d. if is_deposit_of e d then mark_conflict d else d) db.deposits;
          events = (store_provider_event (host.new_uuid 1) name e.payload_hash events).1;
          audits =
              insert_audit (codes "wallet.deposit_provider_event_conflict") (user_of_first linked)
                db.audits;
          outbox =
              insert_outbox
                (record {
                  aggregate_type = codes "provider_event";
                  aggregate_id = e.provider_event_id;
                  event_type = codes "provider_event.payload_conflict";
                  event_key =
                      codes "provider-event:"
                      ++ (e.provider_event_id ++ (codes ":conflict:" ++ e.payload_hash));
                })
                db.outbox;
        },
      )

  unfoldable pub record_fields_conflict : Bool → ℕ → Deposit → DepositDb → Processed × DepositDb
  unfolding find_rate
  record_fields_conflict existing stored d db = (
    record {
      processed_deposit = some d;
      processed_rate = find_rate d.deposit_rate db;
      processed_entry = none;
      repeated = existing;
      credit_blocked_reason = some immutable_fields_conflict;
      conflict = true;
    },
    record db {
      audits =
          insert_audit (codes "wallet.deposit_immutable_fields_conflict") d.deposit_user db.audits;
      outbox =
          insert_outbox
            (deposit_row_event host d.deposit_id (codes "crypto_deposit.immutable_fields_conflict")
              (codes "immutable-conflict:" ++ host.uuid_text stored))
            db.outbox;
    },
  )

  -- A row that is kept with a state and a reason, and an answer with that reason.
  unfoldable pub keep_deposit :
      DepositStatus
      → Option Text
      → Option Text
      → Text
      → Text
      → Option (Text × Text)
      → Bool
      → Event
      → Deposit
      → DepositDb
      → Processed × DepositDb
  unfolding with_state set_detected
  keep_deposit status noted confirmed blocked audit event existing e d db =
      let change = with_state status e.confirmations noted confirmed in
      (
        record {
          processed_deposit = some (change d);
          processed_rate = none;
          processed_entry = none;
          repeated = existing;
          credit_blocked_reason = some blocked;
          conflict = false;
        },
        record db {
          deposits = update_deposit d.deposit_id change db.deposits;
          intents = set_detected d.deposit_intent db.intents;
          audits = insert_audit audit d.deposit_user db.audits;
          outbox = elim event [
            | none ↦ db.outbox
            | some (kind, suffix) ↦
                insert_outbox (deposit_row_event host d.deposit_id kind suffix) db.outbox
          ];
        },
      )

  unfoldable pub hold_back : Text → Bool → Event → Deposit → DepositDb → Processed × DepositDb
  hold_back reason existing e d db =
      if text_eq reason (codes "INSUFFICIENT_CONFIRMATIONS")
      then keep_deposit DepositStatus.confirming none none reason
          (codes "wallet.deposit_confirming")
          (some (codes "crypto_deposit.confirming", codes "confirming:" ++ e.provider_event_id))
          existing e d db
      else keep_deposit DepositStatus.manual_review (some reason) none reason
          (codes "wallet.deposit_manual_review")
          (some
            (codes "crypto_deposit.manual_review", codes "manual_review:" ++ e.provider_event_id))
          existing e d db

  unfoldable pub price_deposit :
      Result ExchangeRateError UsdQuote
      → Bool
      → Event
      → Deposit
      → DepositDb
      → Wallet (Processed × DepositDb)
  price_deposit (err rate_error) existing e d db = ok (
      keep_deposit (unpriced_status rate_error) (some (stale_or_unavailable rate_error))
        (some host.now_text) (stale_or_unavailable rate_error) (codes "wallet.deposit_pending_rate")
        (some (codes "crypto_deposit.pending_rate", codes "pending-rate:" ++ e.provider_event_id))
        existing e d db)
  price_deposit (ok quote) existing e d db = credit_deposit host e.provider_event_id none quote d db

  unfoldable pub credit_allowed :
      Bool
      → Result ExchangeRateError UsdQuote
      → Bool
      → Event
      → Deposit
      → DepositDb
      → Wallet (Processed × DepositDb)
  credit_allowed false quote existing e d db = ok (
      keep_deposit DepositStatus.manual_review (some review_only) (some host.now_text) review_only
        (codes "wallet.deposit_manual_review") none existing e d db)
  credit_allowed true quote existing e d db = price_deposit quote existing e d db

  unfoldable pub validated :
      Option Text
      → Result ExchangeRateError UsdQuote
      → Bool
      → Event
      → Deposit
      → DepositDb
      → Wallet (Processed × DepositDb)
  validated (some reason) quote existing e d db = ok (hold_back reason existing e d db)
  validated none quote existing e d db =
      credit_allowed options.allow_deposit_credits quote existing e d db

  -- The row as it stands, with the entry that it refers to.
  unfoldable pub answer_again :
      Option ℕ → Option Text → Deposit → DepositDb → Wallet (Processed × DepositDb)
  unfolding find_rate find_entry_of
  answer_again entry_id blocked d db = do
    entry ← find_entry_of entry_id db
    ok (
      record {
        processed_deposit = some d;
        processed_rate = find_rate d.deposit_rate db;
        processed_entry = entry;
        repeated = true;
        credit_blocked_reason = blocked;
        conflict = false;
      },
      db,
    )

  -- The cases of a row that is locked: credited, reversed or about to be, an event that takes the
  -- transfer back, and another event.
  unfoldable pub process_case :
      Bool
      → Bool
      → Bool
      → Result ExchangeRateError UsdQuote
      → Bool
      → Event
      → Deposit
      → DepositDb
      → Wallet (Processed × DepositDb)
  process_case true reversed back quote existing e d db = answer_again d.credit_entry none d db
  process_case false true back quote existing e d db =
      answer_again d.reversal_entry
        (if awaits_reversal d.deposit_status then d.manual_review_reason else none) d db
  process_case false false true quote existing e d db = reverse_deposit host e d db
  process_case false false false quote existing e d db =
      validated (validate_deposit_for_credit host d e db.intents) quote existing e d db

  unfoldable pub process_deposit :
      Result ExchangeRateError UsdQuote
      → Bool
      → Event
      → Deposit
      → DepositDb
      → Wallet (Processed × DepositDb)
  process_deposit quote existing e d db =
      process_case (is_credited d.deposit_status && not e.reversal)
        ((is_reversed d.deposit_status || awaits_reversal d.deposit_status) && not e.reversal)
        e.reversal quote existing e d db

  unfoldable pub process_locked :
      Result ExchangeRateError UsdQuote
      → StoredEvent
      → Event
      → Locked
      → DepositDb
      → Wallet (Processed × DepositDb)
  process_locked quote stored e l db =
      let after = record db { deposits = l.rows } in
      if l.fields_clash
      then ok (record_fields_conflict stored.was_there stored.stored_id l.locked after)
      else process_deposit quote stored.was_there e l.locked after

  unfoldable pub process_stored :
      Result ExchangeRateError UsdQuote
      → Event
      → (StoredEvent × List ProviderEvent)
      → DepositDb
      → Wallet (Processed × DepositDb)
  process_stored quote e (stored, events) db =
      if not (text_eq stored.stored_hash e.payload_hash)
      then ok (record_payload_conflict e events db)
      else lock_or_create_deposit host stored.stored_id options.needed_confirmations e
          (record db { events = events })
        >>= λ l. process_locked quote stored e l (record db { events = events })

  unfoldable pub process_webhook : Event → DepositDb → Wallet (Processed × DepositDb)
  unfolding with_issues store_provider_event
  process_webhook received db =
      let e = with_issues options.usdt_tron_contract received in
      process_stored (quote_for_event e) e
        (store_provider_event (host.new_uuid 0) e.provider_event_id e.payload_hash db.events) db

  -- A row that is credited already, one that awaits a retry, and another.
  unfoldable pub retry_case :
      Bool → Bool → Text → Text → UsdQuote → Deposit → DepositDb → Wallet (Processed × DepositDb)
  retry_case true may actor reason quote d db = answer_again d.credit_entry none d db
  retry_case false true actor reason quote d db =
      credit_deposit host
        (codes "admin-retry:" ++ (actor ++ (codes ":" ++ host.uuid_text d.deposit_id)))
        (some (actor, reason)) quote d db
  retry_case false false actor reason quote d db = err WalletError.deposit_not_retryable

  unfoldable pub retry_locked :
      Text → Text → UsdQuote → Deposit → DepositDb → Wallet (Processed × DepositDb)
  retry_locked actor reason quote d db =
      retry_case (is_credited d.deposit_status) (is_retryable d) actor reason quote d db

  -- `first` is the state at the first read, and `db` the state of the transaction.
  unfoldable pub retry_deposit :
      ℕ → Text → Option Text → DepositDb → DepositDb → Wallet (Processed × DepositDb)
  unfolding find_deposit
  retry_deposit id actor reason first db = do
    given ← required_reason reason
    known ← required_text (some actor)
    throw_if (not options.allow_deposit_credits) WalletError.deposit_not_retryable
    d ← required WalletError.deposit_not_found (find_deposit id first.deposits)
    throw_if
        (not (is_retryable d)
          || ltb d.actual_confirmations d.required_confirmations
          || not (no_issues (contract_issues options.usdt_tron_contract d.contract)))
        WalletError.deposit_not_retryable
    throw_if (not (is_some d.deposit_user) || not (is_some d.deposit_intent))
        WalletError.deposit_not_retryable
    net ← as_money (usdt_atomic (pos d.net_usdt) false)
    quote ← from_rate (deposit_quote d.net_usdt)
    locked ← required WalletError.deposit_not_found (find_deposit id db.deposits)
    retry_locked known given quote locked db
