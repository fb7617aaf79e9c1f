-- ===== src/Deposits/Tests.antt =====
-- A deposit of src/coinWallets.ts that is credited and then reversed.
use mpulse.Common.{
  ◌+◌, ◌≡◌, ◌⊎◌, refl, true, false, Option, none, some, [], ◌∷◌, Result, ok, err, ◌==◌,
  if◌then◌else◌,
}
use mpulse.Common.Int.{◌+ℤ◌, ◌-ℤ◌, neg}
use mpulse.Common.Text.{text_eq, is_space, trim_start, trim, starts_with}
use mpulse.Common.Equality.{Text-discrete, OptionText-discrete, OptionNat-discrete}
use mpulse.Money.Units.{
  as_non_negative, coin_micros, usdt_atomic, usd_rate_nanos, add_coins, subtract_coins,
  assert_amount_range,
}
use mpulse.Money.Decimal.{
  is_digit, digits_value, emit_digits, to_text, pad_end, pad_start, span_digits, split_sign,
  match_fraction, match_decimal, apply_sign, decimal_value, check_decimal, parse_matched,
  parse_decimal_to_atomic, all_zeros, spell_decimal, parse_stored_matched,
  parse_stored_decimal_to_atomic, strip_zeros, format_atomic, parse_coins, parse_usdt,
  parse_usd_rate,
}
use mpulse.Money.Arithmetic.{
  multiply_divide, usdt_to_coin_micros, coin_micros_to_usdt, calculate_fee,
}
use mpulse.Money.Quote.{is_quote_stale, assert_fresh_quote}
use mpulse.ExchangeRates.{
  same_purpose, same_kind, expiry_invalid, rate_matches, quote_is_current, validate_usd_quote,
}
use mpulse.Coins.Types.{OperationType-discrete}
use mpulse.Coins.Posting.{
  add_bigint, sum_in_funds, posting_allowed, find_account, ensure_account, update_account,
  find_entry, same_movement, not_blank, has_admin, delta_shape, needs_admin, entry_checks,
  record_movement, post_new, post_replay, post_to_account, post_ledger_entry,
}
use mpulse.Coins.Repository.{
  assert_cutover_ready, balance_row, get_balance, list_entries, validate_post_entry, map_pg_error,
  from_database, post_entry, reserve_coins, release_reserved_coins,
}
use mpulse.Wallets.Parse.{
  is_positive_integer, is_integer, assert_pg_bigint, parse_positive, signed_digits,
  parse_signed_coin_delta, parse_idempotency_key, required_text, required_reason, optional_reason,
  parse_optional_atomic_fee, validate_verified_outcome,
}
use mpulse.Wallets.Store.{
  when_coin, with_cutover_ready, is_withdrawal_of, find_withdrawal_for_update,
  find_withdrawal_by_idempotency, update_request, request_clashes, insert_request, find_quote,
  set_quote_status, find_sequence, find_coin_entry, insert_audit, insert_outbox, is_backed,
  has_valid_transfer_policy, map_withdrawal, withdrawal_key,
}
use mpulse.Wallets.Address.{
  index_of, base58_number, emit_bytes, leading_ones, decode_base58, is_base58, all_base58,
  looks_like_address, checksum_of, decoded_is_valid, is_valid_tron_address, parse_tron_address,
}
use mpulse.Wallets.Quotes.{
  map_quote_with_snapshot, find_snapshot, find_quote_row, with_rate, find_quote_by_idempotency,
  quote_clashes, insert_quote, replay_quote, priced_quote, estimate, quote_row, save_quote,
  new_quote, create_withdrawal_quote,
}
use mpulse.Deposits.Store.{
  calculate_net_usdt, find_event, store_found, store_provider_event, update_deposit, find_deposit,
  find_intent, set_detected, set_credited, with_state, find_rate, find_entry_of, deposit_key,
}
use mpulse.Deposits.Matching.{
  same_chain_fields, is_deposit_of, find_matching, is_deposit_financial_state_immutable,
  immutable_fields_differ, seen_deposit, select_unambiguous_deposit_intent, is_candidate,
  find_deposit_intent, new_deposit, lock_existing, lock_new, lock_found, lock_or_create_deposit,
}
use mpulse.Deposits.Validation.{
  first_reason, was_already_confirmed, intent_reasons, event_reasons, validate_deposit_for_credit,
}
use mpulse.Deposits.Credit.{
  credit_movement, credited_deposit, credited_amount, credit_owner, credit_once, credit_for,
  credit_deposit,
}
use mpulse.Deposits.Reverse.{
  reversal_movement, reversed_deposit_row, reject_deposit, hold_reversal, post_reversal,
  reverse_funded, reverse_credited, reverse_again, reverse_deposit,
}
use mpulse.Deposits.Process.{
  distinct_from, with_issues, deposit_quote, quote_for_event, mark_conflict,
  record_payload_conflict, record_fields_conflict, keep_deposit, hold_back, price_deposit,
  credit_allowed, validated, answer_again, process_case, process_deposit, process_locked,
  process_stored, process_webhook, retry_case, retry_locked, retry_deposit,
}
use mpulse.Common.Int.{ℤ, pos}
use mpulse.Common.Text.{Text, codes}
use mpulse.ExchangeRates.{RatePurpose, RateKind, UsdQuote, ExchangeRateError}
use mpulse.Coins.Types.{ActiveSystem}
use mpulse.Wallets.Types.{Wallet, WalletHost}
use mpulse.Deposits.Types.{DepositStatus, IntentStatus, Event, DepositDb, DepositOptions, Processed}
use mpulse.Deposits.Phases.{AreSound}
use mpulse.Deposits.Checked.{CreditFor, credit-IsChecked}
use mpulse.Deposits.Runs.{DepositStep, DepositRun, run-AreSound}

-- A clock that reads the texts a and b.
abbrev test_date : Text → Option ℤ
test_date [] = none
test_date (c ∷ rest) = some (if c == 97 then pos 1000 else pos 20000)

-- A hash with the checksum of the address below.
abbrev test_host : WalletHost
test_host = record {
  new_uuid = λ n. 40 + n;
  uuid_text = λ n. n ∷ [];
  date_parse = test_date;
  now = pos 5000;
  now_text = codes "t";
  json = λ fields. codes "{}";
  hash = λ t. t;
  sha256 = λ bytes. 113 ∷ 2 ∷ 119 ∷ 245 ∷ [];
}

abbrev test_address : Text
test_address = codes "TR7NHqjeKQxGTCi8q8ZY4pL8otSzgjLj6t"

abbrev final_rate : ℤ → Result ExchangeRateError UsdQuote
final_rate amount = ok (record {
  asset = codes "USDT";
  network = codes "TRON";
  amount_usdt_atomic = amount;
  usd_rate_nanos = pos 1000000000;
  rate_decimal = codes "1";
  source = codes "provider";
  quoted_at = codes "a";
  expires_at = codes "b";
  kind = RateKind.final;
  purpose = RatePurpose.deposit_final;
})

abbrev test_options : DepositOptions
test_options = record {
  usdt_tron_contract = some (codes "usdt");
  allow_deposit_credits = true;
  rate_ttl = pos 30;
  needed_confirmations = 2;
}

abbrev test_db : DepositDb
test_db = record {
  coins = record {
    active_system = some ActiveSystem.coin;
    accounts = [];
    entries = [];
    next_sequence = 1;
  };
  deposits = [];
  intents =
      record {
        intent_id = 8;
        intent_user = 1;
        intent_address = test_address;
        expected_amount = pos 9;
        intent_status = IntentStatus.waiting;
        intent_expires = pos 6000;
      }
      ∷ [];
  events = [];
  snapshots = [];
  audits = [];
  outbox = [];
}

abbrev arrival : Event
arrival = record {
  provider_event_id = codes "e1";
  provider_transaction_id = some (codes "x");
  blockchain_tx_hash = codes "h";
  event_index = codes "0";
  destination = test_address;
  token_contract = codes "usdt";
  event_asset = codes "USDT";
  event_network = codes "TRON";
  gross = 9;
  network_fee = 1;
  provider_fee = 1;
  confirmations = 3;
  provider_status = codes "COMPLETED";
  confirmed = true;
  reversal = false;
  validation_issues = [];
  payload_hash = codes "p1";
}

abbrev taken_back : Event
taken_back = record arrival {
  provider_event_id = codes "e2";
  reversal = true;
  payload_hash = codes "p2";
}

abbrev no_answer : Processed
no_answer = record {
  processed_deposit = none;
  processed_rate = none;
  processed_entry = none;
  repeated = false;
  credit_blocked_reason = none;
  conflict = false;
}

abbrev value_of : Wallet (Processed × DepositDb) → Processed × DepositDb
value_of (err e) = (no_answer, test_db)
value_of (ok p) = p

abbrev credited_state : Processed × DepositDb
credited_state = value_of (process_webhook test_host test_options final_rate arrival test_db)

abbrev later_host : WalletHost
later_host = record test_host { new_uuid = λ n. 50 + n }

abbrev reversed_state : Processed × DepositDb
reversed_state =
    value_of (process_webhook later_host test_options final_rate taken_back credited_state.1)

abbrev status_of : Processed → Option DepositStatus
status_of p = elim p.processed_deposit [ none ↦ none | some d ↦ some d.deposit_status ]

credit_run : status_of credited_state.0 ≡ some DepositStatus.credited
unfolding ◌+ℤ◌ ◌-ℤ◌ neg text_eq is_space trim_start trim starts_with Text-discrete
    OptionText-discrete OptionNat-discrete as_non_negative coin_micros usdt_atomic usd_rate_nanos
    add_coins subtract_coins assert_amount_range is_digit digits_value emit_digits to_text pad_end
    pad_start span_digits split_sign match_fraction match_decimal apply_sign decimal_value
    check_decimal parse_matched parse_decimal_to_atomic all_zeros spell_decimal parse_stored_matched
    parse_stored_decimal_to_atomic strip_zeros format_atomic parse_coins parse_usdt parse_usd_rate
    multiply_divide usdt_to_coin_micros coin_micros_to_usdt calculate_fee is_quote_stale
    assert_fresh_quote same_purpose same_kind expiry_invalid rate_matches quote_is_current
    validate_usd_quote OperationType-discrete add_bigint sum_in_funds posting_allowed find_account
    ensure_account update_account find_entry same_movement not_blank has_admin delta_shape
    needs_admin entry_checks record_movement post_new post_replay post_to_account post_ledger_entry
    assert_cutover_ready balance_row get_balance list_entries validate_post_entry map_pg_error
    from_database post_entry reserve_coins release_reserved_coins is_positive_integer is_integer
    assert_pg_bigint parse_positive signed_digits parse_signed_coin_delta parse_idempotency_key
    required_text required_reason optional_reason parse_optional_atomic_fee
    validate_verified_outcome when_coin with_cutover_ready is_withdrawal_of
    find_withdrawal_for_update find_withdrawal_by_idempotency update_request request_clashes
    insert_request find_quote set_quote_status find_sequence find_coin_entry insert_audit
    insert_outbox is_backed has_valid_transfer_policy map_withdrawal withdrawal_key index_of
    base58_number emit_bytes leading_ones decode_base58 is_base58 all_base58 looks_like_address
    checksum_of decoded_is_valid is_valid_tron_address parse_tron_address map_quote_with_snapshot
    find_snapshot find_quote_row with_rate find_quote_by_idempotency quote_clashes insert_quote
    replay_quote priced_quote estimate quote_row save_quote new_quote create_withdrawal_quote
    calculate_net_usdt find_event store_found store_provider_event update_deposit find_deposit
    find_intent set_detected set_credited with_state find_rate find_entry_of deposit_key
    same_chain_fields is_deposit_of find_matching is_deposit_financial_state_immutable
    immutable_fields_differ seen_deposit select_unambiguous_deposit_intent is_candidate
    find_deposit_intent new_deposit lock_existing lock_new lock_found lock_or_create_deposit
    first_reason was_already_confirmed intent_reasons event_reasons validate_deposit_for_credit
    credit_movement credited_deposit credited_amount credit_owner credit_once credit_for
    credit_deposit reversal_movement reversed_deposit_row reject_deposit hold_reversal post_reversal
    reverse_funded reverse_credited reverse_again reverse_deposit distinct_from with_issues
    deposit_quote quote_for_event mark_conflict record_payload_conflict record_fields_conflict
    keep_deposit hold_back price_deposit credit_allowed validated answer_again process_case
    process_deposit process_locked process_stored process_webhook retry_case retry_locked
    retry_deposit
credit_run = refl

reversal_run : status_of reversed_state.0 ≡ some DepositStatus.reversed
unfolding ◌+ℤ◌ ◌-ℤ◌ neg text_eq is_space trim_start trim starts_with Text-discrete
    OptionText-discrete OptionNat-discrete as_non_negative coin_micros usdt_atomic usd_rate_nanos
    add_coins subtract_coins assert_amount_range is_digit digits_value emit_digits to_text pad_end
    pad_start span_digits split_sign match_fraction match_decimal apply_sign decimal_value
    check_decimal parse_matched parse_decimal_to_atomic all_zeros spell_decimal parse_stored_matched
    parse_stored_decimal_to_atomic strip_zeros format_atomic parse_coins parse_usdt parse_usd_rate
    multiply_divide usdt_to_coin_micros coin_micros_to_usdt calculate_fee is_quote_stale
    assert_fresh_quote same_purpose same_kind expiry_invalid rate_matches quote_is_current
    validate_usd_quote OperationType-discrete add_bigint sum_in_funds posting_allowed find_account
    ensure_account update_account find_entry same_movement not_blank has_admin delta_shape
    needs_admin entry_checks record_movement post_new post_replay post_to_account post_ledger_entry
    assert_cutover_ready balance_row get_balance list_entries validate_post_entry map_pg_error
    from_database post_entry reserve_coins release_reserved_coins is_positive_integer is_integer
    assert_pg_bigint parse_positive signed_digits parse_signed_coin_delta parse_idempotency_key
    required_text required_reason optional_reason parse_optional_atomic_fee
    validate_verified_outcome when_coin with_cutover_ready is_withdrawal_of
    find_withdrawal_for_update find_withdrawal_by_idempotency update_request request_clashes
    insert_request find_quote set_quote_status find_sequence find_coin_entry insert_audit
    insert_outbox is_backed has_valid_transfer_policy map_withdrawal withdrawal_key index_of
    base58_number emit_bytes leading_ones decode_base58 is_base58 all_base58 looks_like_address
    checksum_of decoded_is_valid is_valid_tron_address parse_tron_address map_quote_with_snapshot
    find_snapshot find_quote_row with_rate find_quote_by_idempotency quote_clashes insert_quote
    replay_quote priced_quote estimate quote_row save_quote new_quote create_withdrawal_quote
    calculate_net_usdt find_event store_found store_provider_event update_deposit find_deposit
    find_intent set_detected set_credited with_state find_rate find_entry_of deposit_key
    same_chain_fields is_deposit_of find_matching is_deposit_financial_state_immutable
    immutable_fields_differ seen_deposit select_unambiguous_deposit_intent is_candidate
    find_deposit_intent new_deposit lock_existing lock_new lock_found lock_or_create_deposit
    first_reason was_already_confirmed intent_reasons event_reasons validate_deposit_for_credit
    credit_movement credited_deposit credited_amount credit_owner credit_once credit_for
    credit_deposit reversal_movement reversed_deposit_row reject_deposit hold_reversal post_reversal
    reverse_funded reverse_credited reverse_again reverse_deposit distinct_from with_issues
    deposit_quote quote_for_event mark_conflict record_payload_conflict record_fields_conflict
    keep_deposit hold_back price_deposit credit_allowed validated answer_again process_case
    process_deposit process_locked process_stored process_webhook retry_case retry_locked
    retry_deposit
reversal_run = refl

run-AreSound_example : AreSound reversed_state.1.deposits
unfolding ◌+ℤ◌ ◌-ℤ◌ neg text_eq is_space trim_start trim starts_with Text-discrete
    OptionText-discrete OptionNat-discrete as_non_negative coin_micros usdt_atomic usd_rate_nanos
    add_coins subtract_coins assert_amount_range is_digit digits_value emit_digits to_text pad_end
    pad_start span_digits split_sign match_fraction match_decimal apply_sign decimal_value
    check_decimal parse_matched parse_decimal_to_atomic all_zeros spell_decimal parse_stored_matched
    parse_stored_decimal_to_atomic strip_zeros format_atomic parse_coins parse_usdt parse_usd_rate
    multiply_divide usdt_to_coin_micros coin_micros_to_usdt calculate_fee is_quote_stale
    assert_fresh_quote same_purpose same_kind expiry_invalid rate_matches quote_is_current
    validate_usd_quote OperationType-discrete add_bigint sum_in_funds posting_allowed find_account
    ensure_account update_account find_entry same_movement not_blank has_admin delta_shape
    needs_admin entry_checks record_movement post_new post_replay post_to_account post_ledger_entry
    assert_cutover_ready balance_row get_balance list_entries validate_post_entry map_pg_error
    from_database post_entry reserve_coins release_reserved_coins is_positive_integer is_integer
    assert_pg_bigint parse_positive signed_digits parse_signed_coin_delta parse_idempotency_key
    required_text required_reason optional_reason parse_optional_atomic_fee
    validate_verified_outcome when_coin with_cutover_ready is_withdrawal_of
    find_withdrawal_for_update find_withdrawal_by_idempotency update_request request_clashes
    insert_request find_quote set_quote_status find_sequence find_coin_entry insert_audit
    insert_outbox is_backed has_valid_transfer_policy map_withdrawal withdrawal_key index_of
    base58_number emit_bytes leading_ones decode_base58 is_base58 all_base58 looks_like_address
    checksum_of decoded_is_valid is_valid_tron_address parse_tron_address map_quote_with_snapshot
    find_snapshot find_quote_row with_rate find_quote_by_idempotency quote_clashes insert_quote
    replay_quote priced_quote estimate quote_row save_quote new_quote create_withdrawal_quote
    calculate_net_usdt find_event store_found store_provider_event update_deposit find_deposit
    find_intent set_detected set_credited with_state find_rate find_entry_of deposit_key
    same_chain_fields is_deposit_of find_matching is_deposit_financial_state_immutable
    immutable_fields_differ seen_deposit select_unambiguous_deposit_intent is_candidate
    find_deposit_intent new_deposit lock_existing lock_new lock_found lock_or_create_deposit
    first_reason was_already_confirmed intent_reasons event_reasons validate_deposit_for_credit
    credit_movement credited_deposit credited_amount credit_owner credit_once credit_for
    credit_deposit reversal_movement reversed_deposit_row reject_deposit hold_reversal post_reversal
    reverse_funded reverse_credited reverse_again reverse_deposit distinct_from with_issues
    deposit_quote quote_for_event mark_conflict record_payload_conflict record_fields_conflict
    keep_deposit hold_back price_deposit credit_allowed validated answer_again process_case
    process_deposit process_locked process_stored process_webhook retry_case retry_locked
    retry_deposit
run-AreSound_example =
    run-AreSound test_db reversed_state.1 (record { unique = tt; sound = tt })
      (DepositRun.step {next = credited_state.1}
        (DepositStep.receives test_host test_options final_rate arrival credited_state.0 refl)
        (DepositRun.step {next = reversed_state.1}
          (DepositStep.receives later_host test_options final_rate taken_back reversed_state.0 refl)
          DepositRun.done))

credit-IsChecked_example :
    (credited_state.1.coins ≡ test_db.coins)
    ⊎ CreditFor test_host test_options
        (quote_for_event test_host test_options final_rate
          (with_issues test_options.usdt_tron_contract arrival))
        (with_issues test_options.usdt_tron_contract arrival)
        test_db
unfolding ◌+ℤ◌ ◌-ℤ◌ neg text_eq is_space trim_start trim starts_with Text-discrete
    OptionText-discrete OptionNat-discrete as_non_negative coin_micros usdt_atomic usd_rate_nanos
    add_coins subtract_coins assert_amount_range is_digit digits_value emit_digits to_text pad_end
    pad_start span_digits split_sign match_fraction match_decimal apply_sign decimal_value
    check_decimal parse_matched parse_decimal_to_atomic all_zeros spell_decimal parse_stored_matched
    parse_stored_decimal_to_atomic strip_zeros format_atomic parse_coins parse_usdt parse_usd_rate
    multiply_divide usdt_to_coin_micros coin_micros_to_usdt calculate_fee is_quote_stale
    assert_fresh_quote same_purpose same_kind expiry_invalid rate_matches quote_is_current
    validate_usd_quote OperationType-discrete add_bigint sum_in_funds posting_allowed find_account
    ensure_account update_account find_entry same_movement not_blank has_admin delta_shape
    needs_admin entry_checks record_movement post_new post_replay post_to_account post_ledger_entry
    assert_cutover_ready balance_row get_balance list_entries validate_post_entry map_pg_error
    from_database post_entry reserve_coins release_reserved_coins is_positive_integer is_integer
    assert_pg_bigint parse_positive signed_digits parse_signed_coin_delta parse_idempotency_key
    required_text required_reason optional_reason parse_optional_atomic_fee
    validate_verified_outcome when_coin with_cutover_ready is_withdrawal_of
    find_withdrawal_for_update find_withdrawal_by_idempotency update_request request_clashes
    insert_request find_quote set_quote_status find_sequence find_coin_entry insert_audit
    insert_outbox is_backed has_valid_transfer_policy map_withdrawal withdrawal_key index_of
    base58_number emit_bytes leading_ones decode_base58 is_base58 all_base58 looks_like_address
    checksum_of decoded_is_valid is_valid_tron_address parse_tron_address map_quote_with_snapshot
    find_snapshot find_quote_row with_rate find_quote_by_idempotency quote_clashes insert_quote
    replay_quote priced_quote estimate quote_row save_quote new_quote create_withdrawal_quote
    calculate_net_usdt find_event store_found store_provider_event update_deposit find_deposit
    find_intent set_detected set_credited with_state find_rate find_entry_of deposit_key
    same_chain_fields is_deposit_of find_matching is_deposit_financial_state_immutable
    immutable_fields_differ seen_deposit select_unambiguous_deposit_intent is_candidate
    find_deposit_intent new_deposit lock_existing lock_new lock_found lock_or_create_deposit
    first_reason was_already_confirmed intent_reasons event_reasons validate_deposit_for_credit
    credit_movement credited_deposit credited_amount credit_owner credit_once credit_for
    credit_deposit reversal_movement reversed_deposit_row reject_deposit hold_reversal post_reversal
    reverse_funded reverse_credited reverse_again reverse_deposit distinct_from with_issues
    deposit_quote quote_for_event mark_conflict record_payload_conflict record_fields_conflict
    keep_deposit hold_back price_deposit credit_allowed validated answer_again process_case
    process_deposit process_locked process_stored process_webhook retry_case retry_locked
    retry_deposit
credit-IsChecked_example =
    credit-IsChecked test_host test_options final_rate arrival test_db credited_state refl refl

-- The reversal arrives before the event that it takes back: the deposit is rejected, and the older
-- event credits it then.
abbrev rejected_state : Processed × DepositDb
rejected_state = value_of (process_webhook later_host test_options final_rate taken_back test_db)

abbrev late_credit : Processed × DepositDb
late_credit = value_of (process_webhook test_host test_options final_rate arrival rejected_state.1)

rejected_run : status_of rejected_state.0 ≡ some DepositStatus.rejected
unfolding ◌+ℤ◌ ◌-ℤ◌ neg text_eq is_space trim_start trim starts_with Text-discrete
    OptionText-discrete OptionNat-discrete as_non_negative coin_micros usdt_atomic usd_rate_nanos
    add_coins subtract_coins assert_amount_range is_digit digits_value emit_digits to_text pad_end
    pad_start span_digits split_sign match_fraction match_decimal apply_sign decimal_value
    check_decimal parse_matched parse_decimal_to_atomic all_zeros spell_decimal parse_stored_matched
    parse_stored_decimal_to_atomic strip_zeros format_atomic parse_coins parse_usdt parse_usd_rate
    multiply_divide usdt_to_coin_micros coin_micros_to_usdt calculate_fee is_quote_stale
    assert_fresh_quote same_purpose same_kind expiry_invalid rate_matches quote_is_current
    validate_usd_quote OperationType-discrete add_bigint sum_in_funds posting_allowed find_account
    ensure_account update_account find_entry same_movement not_blank has_admin delta_shape
    needs_admin entry_checks record_movement post_new post_replay post_to_account post_ledger_entry
    assert_cutover_ready balance_row get_balance list_entries validate_post_entry map_pg_error
    from_database post_entry reserve_coins release_reserved_coins is_positive_integer is_integer
    assert_pg_bigint parse_positive signed_digits parse_signed_coin_delta parse_idempotency_key
    required_text required_reason optional_reason parse_optional_atomic_fee
    validate_verified_outcome when_coin with_cutover_ready is_withdrawal_of
    find_withdrawal_for_update find_withdrawal_by_idempotency update_request request_clashes
    insert_request find_quote set_quote_status find_sequence find_coin_entry insert_audit
    insert_outbox is_backed has_valid_transfer_policy map_withdrawal withdrawal_key index_of
    base58_number emit_bytes leading_ones decode_base58 is_base58 all_base58 looks_like_address
    checksum_of decoded_is_valid is_valid_tron_address parse_tron_address map_quote_with_snapshot
    find_snapshot find_quote_row with_rate find_quote_by_idempotency quote_clashes insert_quote
    replay_quote priced_quote estimate quote_row save_quote new_quote create_withdrawal_quote
    calculate_net_usdt find_event store_found store_provider_event update_deposit find_deposit
    find_intent set_detected set_credited with_state find_rate find_entry_of deposit_key
    same_chain_fields is_deposit_of find_matching is_deposit_financial_state_immutable
    immutable_fields_differ seen_deposit select_unambiguous_deposit_intent is_candidate
    find_deposit_intent new_deposit lock_existing lock_new lock_found lock_or_create_deposit
    first_reason was_already_confirmed intent_reasons event_reasons validate_deposit_for_credit
    credit_movement credited_deposit credited_amount credit_owner credit_once credit_for
    credit_deposit reversal_movement reversed_deposit_row reject_deposit hold_reversal post_reversal
    reverse_funded reverse_credited reverse_again reverse_deposit distinct_from with_issues
    deposit_quote quote_for_event mark_conflict record_payload_conflict record_fields_conflict
    keep_deposit hold_back price_deposit credit_allowed validated answer_again process_case
    process_deposit process_locked process_stored process_webhook retry_case retry_locked
    retry_deposit
rejected_run = refl

late_credit_run : status_of late_credit.0 ≡ some DepositStatus.credited
unfolding ◌+ℤ◌ ◌-ℤ◌ neg text_eq is_space trim_start trim starts_with Text-discrete
    OptionText-discrete OptionNat-discrete as_non_negative coin_micros usdt_atomic usd_rate_nanos
    add_coins subtract_coins assert_amount_range is_digit digits_value emit_digits to_text pad_end
    pad_start span_digits split_sign match_fraction match_decimal apply_sign decimal_value
    check_decimal parse_matched parse_decimal_to_atomic all_zeros spell_decimal parse_stored_matched
    parse_stored_decimal_to_atomic strip_zeros format_atomic parse_coins parse_usdt parse_usd_rate
    multiply_divide usdt_to_coin_micros coin_micros_to_usdt calculate_fee is_quote_stale
    assert_fresh_quote same_purpose same_kind expiry_invalid rate_matches quote_is_current
    validate_usd_quote OperationType-discrete add_bigint sum_in_funds posting_allowed find_account
    ensure_account update_account find_entry same_movement not_blank has_admin delta_shape
    needs_admin entry_checks record_movement post_new post_replay post_to_account post_ledger_entry
    assert_cutover_ready balance_row get_balance list_entries validate_post_entry map_pg_error
    from_database post_entry reserve_coins release_reserved_coins is_positive_integer is_integer
    assert_pg_bigint parse_positive signed_digits parse_signed_coin_delta parse_idempotency_key
    required_text required_reason optional_reason parse_optional_atomic_fee
    validate_verified_outcome when_coin with_cutover_ready is_withdrawal_of
    find_withdrawal_for_update find_withdrawal_by_idempotency update_request request_clashes
    insert_request find_quote set_quote_status find_sequence find_coin_entry insert_audit
    insert_outbox is_backed has_valid_transfer_policy map_withdrawal withdrawal_key index_of
    base58_number emit_bytes leading_ones decode_base58 is_base58 all_base58 looks_like_address
    checksum_of decoded_is_valid is_valid_tron_address parse_tron_address map_quote_with_snapshot
    find_snapshot find_quote_row with_rate find_quote_by_idempotency quote_clashes insert_quote
    replay_quote priced_quote estimate quote_row save_quote new_quote create_withdrawal_quote
    calculate_net_usdt find_event store_found store_provider_event update_deposit find_deposit
    find_intent set_detected set_credited with_state find_rate find_entry_of deposit_key
    same_chain_fields is_deposit_of find_matching is_deposit_financial_state_immutable
    immutable_fields_differ seen_deposit select_unambiguous_deposit_intent is_candidate
    find_deposit_intent new_deposit lock_existing lock_new lock_found lock_or_create_deposit
    first_reason was_already_confirmed intent_reasons event_reasons validate_deposit_for_credit
    credit_movement credited_deposit credited_amount credit_owner credit_once credit_for
    credit_deposit reversal_movement reversed_deposit_row reject_deposit hold_reversal post_reversal
    reverse_funded reverse_credited reverse_again reverse_deposit distinct_from with_issues
    deposit_quote quote_for_event mark_conflict record_payload_conflict record_fields_conflict
    keep_deposit hold_back price_deposit credit_allowed validated answer_again process_case
    process_deposit process_locked process_stored process_webhook retry_case retry_locked
    retry_deposit
late_credit_run = refl
