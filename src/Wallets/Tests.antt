-- ===== src/Wallets/Tests.antt =====
-- A withdrawal of src/coinWallets.ts, from the quote to its end.
use mpulse.Common.{
  ℕ, ◌+◌, ◌*◌, ◌≤◌, ◌<◌, ◌≡◌, ◌⊎◌, refl, true, false, Option, none, some, [], ◌∷◌, Result, ok, err,
  arith, ◌==◌, if◌then◌else◌, All, replicate,
}
use mpulse.Common.Int.{◌+ℤ◌, ◌-ℤ◌, neg}
use mpulse.Common.Text.{text_eq, is_space, trim_start, trim, starts_with}
use mpulse.Common.Equality.{Text-discrete, OptionText-discrete, OptionNat-discrete}
use mpulse.Money.Units.{
  as_non_negative, coin_micros, usdt_atomic, usd_rate_nanos, add_coins, subtract_coins,
  assert_amount_range,
}
use mpulse.Money.Decimal.{
  is_digit, digits_value, emit_digits, to_text, pad_end, pad_start, span_digits, split_sign,
  match_fraction, match_decimal, apply_sign, decimal_value, check_decimal, parse_matched,
  parse_decimal_to_atomic, all_zeros, spell_decimal, parse_stored_matched,
  parse_stored_decimal_to_atomic, strip_zeros, format_atomic, parse_coins, parse_usdt,
  parse_usd_rate,
}
use mpulse.Money.Arithmetic.{
  multiply_divide, usdt_to_coin_micros, coin_micros_to_usdt, calculate_fee,
}
use mpulse.Money.Quote.{is_quote_stale, assert_fresh_quote}
use mpulse.ExchangeRates.{
  same_purpose, same_kind, expiry_invalid, rate_matches, quote_is_current, validate_usd_quote,
}
use mpulse.Coins.Types.{OperationType-discrete}
use mpulse.Coins.Posting.{
  add_bigint, sum_in_funds, posting_allowed, find_account, ensure_account, update_account,
  find_entry, same_movement, not_blank, has_admin, delta_shape, needs_admin, entry_checks,
  record_movement, post_new, post_replay, post_to_account, post_ledger_entry,
}
use mpulse.Coins.Repository.{
  assert_cutover_ready, balance_row, get_balance, list_entries, validate_post_entry, map_pg_error,
  from_database, post_entry, reserve_coins, release_reserved_coins,
}
use mpulse.Wallets.Parse.{
  is_positive_integer, is_integer, assert_pg_bigint, parse_positive, signed_digits,
  parse_signed_coin_delta, parse_idempotency_key, required_text, required_reason, optional_reason,
  parse_optional_atomic_fee, validate_verified_outcome,
}
use mpulse.Wallets.Store.{
  when_coin, with_cutover_ready, is_withdrawal_of, find_withdrawal_for_update,
  find_withdrawal_by_idempotency, update_request, request_clashes, insert_request, find_quote,
  set_quote_status, find_sequence, find_coin_entry, insert_audit, insert_outbox, is_backed,
  has_valid_transfer_policy, map_withdrawal, withdrawal_key,
}
use mpulse.Wallets.Confirm.{
  reserve_movement, confirmed_request, confirm_open, confirm_status, confirm_found,
  confirm_withdrawal,
}
use mpulse.Wallets.Release.{
  can_release_withdrawal_reserve, release_movement, released_request, look_up_release,
  release_or_post, release_reserve, release_found, release_withdrawal, cancel_withdrawal,
  reject_withdrawal,
}
use mpulse.Wallets.Amounts.{final_amounts}
use mpulse.Wallets.Outcome.{
  failure_movement, must_release, post_failure, failed_request, record_withdrawal_failure_state,
  debit_movement, completed_request, complete_withdrawal, mismatch_reason, reconcile_matched,
  reconcile_completed, reconcile_state, reconcile_found, reconcile_verified_outcome,
}
use mpulse.Wallets.Address.{
  index_of, base58_number, emit_bytes, leading_ones, decode_base58, is_base58, all_base58,
  looks_like_address, checksum_of, decoded_is_valid, is_valid_tron_address, parse_tron_address,
}
use mpulse.Wallets.Quotes.{
  map_quote_with_snapshot, find_snapshot, find_quote_row, with_rate, find_quote_by_idempotency,
  quote_clashes, insert_quote, replay_quote, priced_quote, estimate, quote_row, save_quote,
  new_quote, create_withdrawal_quote,
}
use mpulse.Common.Int.{ℤ, pos}
use mpulse.Common.Text.{Text, codes}
use mpulse.ExchangeRates.{RatePurpose, RateKind, UsdQuote, ExchangeRateError}
use mpulse.Coins.Types.{ActiveSystem}
use mpulse.Wallets.Types.{
  WithdrawalStatus, QuoteStatus, WithdrawalQuote, Request, WalletDb, WalletError, Wallet,
  ProviderState, ProviderOutcome, Answer, WalletHost,
}
use mpulse.Wallets.Confirm.{ConfirmInput}
use mpulse.Wallets.Release.{ReleaseTarget, ReleaseInput}
use mpulse.Wallets.Accounting.{Conserved}
use mpulse.Wallets.Accounting.Steps.{reconcile_conserves}
use mpulse.Wallets.Accounting.Confirms.{HasReserved, HasRepeated, confirm_conserves}
use mpulse.Wallets.Phases.{IsValid}
use mpulse.Wallets.Refinement.{Evolved, step-Evolved}
use mpulse.Wallets.Runs.{WalletStep, WalletRun, run-IsValid}
use mpulse.Wallets.Accepted.{Agreed}
use mpulse.Wallets.Debited.{IsUndebited, debited_only-Agreed}
use mpulse.Wallets.Repeated.{confirm_repeats}
use mpulse.Wallets.Estimates.{estimate-exact}
use mpulse.Wallets.Address.Decoding.{bytes_value, decode_base58-value}

-- A clock that reads the texts a and b.
abbrev test_date : Text → Option ℤ
test_date [] = none
test_date (c ∷ rest) = some (if c == 97 then pos 1000 else pos 20000)

abbrev test_host : WalletHost
test_host = record {
  new_uuid = λ n. 40 + n;
  uuid_text = λ n. n ∷ [];
  date_parse = test_date;
  now = pos 5000;
  now_text = codes "t";
  json = λ fields. codes "{}";
  hash = λ t. t;
  sha256 = λ bytes. bytes;
}

abbrev usd_quote : RatePurpose → RateKind → ℤ → UsdQuote
usd_quote purpose kind amount = record {
  asset = codes "USDT";
  network = codes "TRON";
  amount_usdt_atomic = amount;
  usd_rate_nanos = pos 1000000000;
  rate_decimal = codes "1";
  source = codes "provider";
  quoted_at = codes "a";
  expires_at = codes "b";
  kind = kind;
  purpose = purpose;
}

abbrev final_rate : ℤ → Result ExchangeRateError UsdQuote
final_rate amount = ok (usd_quote RatePurpose.withdrawal_final RateKind.final amount)

abbrev open_quote_row : WithdrawalQuote
open_quote_row = record {
  quote_id = 5;
  quote_user = 1;
  quote_destination = codes "T";
  coin_to_debit_micros = 7;
  quote_estimated_usdt_atomic = 6;
  quote_network_fee = 1;
  quote_provider_fee = 0;
  rate_snapshot = 3;
  quote_status = QuoteStatus.open_quote;
  quote_expires_at = codes "b";
  quote_key = codes "q";
  quote_fingerprint = codes "f";
}

abbrev test_db : WalletDb
test_db = record {
  coins = record {
    active_system = some ActiveSystem.coin;
    accounts = record { account_user = 1; available = pos 10; reserved = pos 0 } ∷ [];
    entries = [];
    next_sequence = 1;
  };
  quotes = open_quote_row ∷ [];
  snapshots = [];
  requests = [];
  audits = [];
  outbox = [];
}

abbrev no_request : Request
no_request = record {
  request_id = 0;
  request_user = 0;
  withdrawal_quote = none;
  destination_address = [];
  status = WithdrawalStatus.failed;
  request_key = [];
  provider = [];
  real_transfer_blocked = false;
  block_reason = none;
  metadata_source = none;
  request_fingerprint = [];
  coin_reserved_micros = none;
  coin_debited_micros = none;
  estimated_usdt_atomic = none;
  final_usdt_atomic = none;
  network_fee_usdt_atomic = none;
  provider_fee_usdt_atomic = none;
  final_rate_snapshot = none;
  fireblocks_reference = none;
  failure_state = none;
  review_reason = none;
  reviewed_by_actor = none;
  reviewed_at = none;
  reserve_ledger_entry = none;
  final_ledger_entry = none;
  release_ledger_entry = none;
  created_at = [];
  updated_at = [];
}

abbrev no_answer : Answer
no_answer = record {
  withdrawal_request = no_request;
  balance = none;
  ledger_entry = none;
  idempotent = false;
  accepted = false;
  reserve_held = false;
  retry_blocked_reason = none;
}

-- What an operation that succeeds gives.
abbrev value_of : Wallet (Answer × WalletDb) → Answer × WalletDb
value_of (err e) = (no_answer, test_db)
value_of (ok p) = p

abbrev confirm_input : ConfirmInput
confirm_input = record { confirm_user = 1; confirm_quote = some 5; confirm_key = some (codes "k") }

abbrev confirmed : Answer × WalletDb
confirmed = value_of (confirm_withdrawal test_host confirm_input test_db)

abbrev cancel_input : ReleaseInput
cancel_input = record {
  release_id = 40;
  release_user = some 1;
  target = ReleaseTarget.to_cancelled;
  actor = none;
  release_reason = codes "user_cancelled";
}

abbrev cancelled : Answer × WalletDb
cancelled = value_of (release_withdrawal test_host cancel_input confirmed.1)

abbrev test_outcome : ProviderOutcome
test_outcome = record {
  verified = true;
  outcome_provider = codes "fireblocks";
  state = ProviderState.completed;
  provider_reference = codes "ref";
  transaction_hash = some (codes "hash");
  outcome_final_usdt_atomic = some (codes "6");
  outcome_network_fee = none;
  outcome_provider_fee = none;
  evidence_hash = replicate 64 b'a';
  observed_at = codes "a";
}

abbrev completed : Answer × WalletDb
completed = value_of (
    reconcile_verified_outcome test_host (pos 30) final_rate 40 test_outcome confirmed.1
      confirmed.1)

abbrev the_request : Request
the_request = confirmed.0.withdrawal_request

run-IsValid_example : IsValid completed.1
unfolding ◌+ℤ◌ ◌-ℤ◌ neg text_eq is_space trim_start trim starts_with Text-discrete
    OptionText-discrete OptionNat-discrete as_non_negative coin_micros usdt_atomic usd_rate_nanos
    add_coins subtract_coins assert_amount_range is_digit digits_value emit_digits to_text pad_end
    pad_start span_digits split_sign match_fraction match_decimal apply_sign decimal_value
    check_decimal parse_matched parse_decimal_to_atomic all_zeros spell_decimal parse_stored_matched
    parse_stored_decimal_to_atomic strip_zeros format_atomic parse_coins parse_usdt parse_usd_rate
    multiply_divide usdt_to_coin_micros coin_micros_to_usdt calculate_fee is_quote_stale
    assert_fresh_quote same_purpose same_kind expiry_invalid rate_matches quote_is_current
    validate_usd_quote OperationType-discrete add_bigint sum_in_funds posting_allowed find_account
    ensure_account update_account find_entry same_movement not_blank has_admin delta_shape
    needs_admin entry_checks record_movement post_new post_replay post_to_account post_ledger_entry
    assert_cutover_ready balance_row get_balance list_entries validate_post_entry map_pg_error
    from_database post_entry reserve_coins release_reserved_coins is_positive_integer is_integer
    assert_pg_bigint parse_positive signed_digits parse_signed_coin_delta parse_idempotency_key
    required_text required_reason optional_reason parse_optional_atomic_fee
    validate_verified_outcome when_coin with_cutover_ready is_withdrawal_of
    find_withdrawal_for_update find_withdrawal_by_idempotency update_request request_clashes
    insert_request find_quote set_quote_status find_sequence find_coin_entry insert_audit
    insert_outbox is_backed has_valid_transfer_policy map_withdrawal withdrawal_key reserve_movement
    confirmed_request confirm_open confirm_status confirm_found confirm_withdrawal
    can_release_withdrawal_reserve release_movement released_request look_up_release release_or_post
    release_reserve release_found release_withdrawal cancel_withdrawal reject_withdrawal
    final_amounts failure_movement must_release post_failure failed_request
    record_withdrawal_failure_state debit_movement completed_request complete_withdrawal
    mismatch_reason reconcile_matched reconcile_completed reconcile_state reconcile_found
    reconcile_verified_outcome index_of base58_number emit_bytes leading_ones decode_base58
    is_base58 all_base58 looks_like_address checksum_of decoded_is_valid is_valid_tron_address
    parse_tron_address map_quote_with_snapshot find_snapshot find_quote_row with_rate
    find_quote_by_idempotency quote_clashes insert_quote replay_quote priced_quote estimate
    quote_row save_quote new_quote create_withdrawal_quote
run-IsValid_example =
    run-IsValid test_db completed.1 (record { unique = tt; sound = tt })
      (WalletRun.step {next = confirmed.1}
        (WalletStep.confirms test_host confirm_input test_db confirmed.0 refl)
        (WalletRun.step {next = completed.1}
          (WalletStep.reconciles test_host (pos 30) final_rate 40 test_outcome confirmed.1
            completed.0 refl)
          WalletRun.done))

step-Evolved_example : Evolved confirmed.1.requests completed.1.requests
unfolding ◌+ℤ◌ ◌-ℤ◌ neg text_eq is_space trim_start trim starts_with Text-discrete
    OptionText-discrete OptionNat-discrete as_non_negative coin_micros usdt_atomic usd_rate_nanos
    add_coins subtract_coins assert_amount_range is_digit digits_value emit_digits to_text pad_end
    pad_start span_digits split_sign match_fraction match_decimal apply_sign decimal_value
    check_decimal parse_matched parse_decimal_to_atomic all_zeros spell_decimal parse_stored_matched
    parse_stored_decimal_to_atomic strip_zeros format_atomic parse_coins parse_usdt parse_usd_rate
    multiply_divide usdt_to_coin_micros coin_micros_to_usdt calculate_fee is_quote_stale
    assert_fresh_quote same_purpose same_kind expiry_invalid rate_matches quote_is_current
    validate_usd_quote OperationType-discrete add_bigint sum_in_funds posting_allowed find_account
    ensure_account update_account find_entry same_movement not_blank has_admin delta_shape
    needs_admin entry_checks record_movement post_new post_replay post_to_account post_ledger_entry
    assert_cutover_ready balance_row get_balance list_entries validate_post_entry map_pg_error
    from_database post_entry reserve_coins release_reserved_coins is_positive_integer is_integer
    assert_pg_bigint parse_positive signed_digits parse_signed_coin_delta parse_idempotency_key
    required_text required_reason optional_reason parse_optional_atomic_fee
    validate_verified_outcome when_coin with_cutover_ready is_withdrawal_of
    find_withdrawal_for_update find_withdrawal_by_idempotency update_request request_clashes
    insert_request find_quote set_quote_status find_sequence find_coin_entry insert_audit
    insert_outbox is_backed has_valid_transfer_policy map_withdrawal withdrawal_key reserve_movement
    confirmed_request confirm_open confirm_status confirm_found confirm_withdrawal
    can_release_withdrawal_reserve release_movement released_request look_up_release release_or_post
    release_reserve release_found release_withdrawal cancel_withdrawal reject_withdrawal
    final_amounts failure_movement must_release post_failure failed_request
    record_withdrawal_failure_state debit_movement completed_request complete_withdrawal
    mismatch_reason reconcile_matched reconcile_completed reconcile_state reconcile_found
    reconcile_verified_outcome index_of base58_number emit_bytes leading_ones decode_base58
    is_base58 all_base58 looks_like_address checksum_of decoded_is_valid is_valid_tron_address
    parse_tron_address map_quote_with_snapshot find_snapshot find_quote_row with_rate
    find_quote_by_idempotency quote_clashes insert_quote replay_quote priced_quote estimate
    quote_row save_quote new_quote create_withdrawal_quote
step-Evolved_example =
    step-Evolved confirmed.1 completed.1 (tt, tt)
      (WalletStep.reconciles test_host (pos 30) final_rate 40 test_outcome confirmed.1 completed.0
        refl)

confirm_conserves_example :
    ((key : Text) × (parse_idempotency_key confirm_input.confirm_key ≡ ok key)
      × (HasRepeated test_host confirm_input test_db confirmed key
          ⊎ (HasReserved test_host confirm_input test_db confirmed
              × (find_withdrawal_by_idempotency confirm_input.confirm_user key test_db.requests
                  ≡ none))))
    × ((user : ℕ) → Conserved test_db confirmed.1 user)
unfolding ◌+ℤ◌ ◌-ℤ◌ neg text_eq is_space trim_start trim starts_with Text-discrete
    OptionText-discrete OptionNat-discrete as_non_negative coin_micros usdt_atomic usd_rate_nanos
    add_coins subtract_coins assert_amount_range is_digit digits_value emit_digits to_text pad_end
    pad_start span_digits split_sign match_fraction match_decimal apply_sign decimal_value
    check_decimal parse_matched parse_decimal_to_atomic all_zeros spell_decimal parse_stored_matched
    parse_stored_decimal_to_atomic strip_zeros format_atomic parse_coins parse_usdt parse_usd_rate
    multiply_divide usdt_to_coin_micros coin_micros_to_usdt calculate_fee is_quote_stale
    assert_fresh_quote same_purpose same_kind expiry_invalid rate_matches quote_is_current
    validate_usd_quote OperationType-discrete add_bigint sum_in_funds posting_allowed find_account
    ensure_account update_account find_entry same_movement not_blank has_admin delta_shape
    needs_admin entry_checks record_movement post_new post_replay post_to_account post_ledger_entry
    assert_cutover_ready balance_row get_balance list_entries validate_post_entry map_pg_error
    from_database post_entry reserve_coins release_reserved_coins is_positive_integer is_integer
    assert_pg_bigint parse_positive signed_digits parse_signed_coin_delta parse_idempotency_key
    required_text required_reason optional_reason parse_optional_atomic_fee
    validate_verified_outcome when_coin with_cutover_ready is_withdrawal_of
    find_withdrawal_for_update find_withdrawal_by_idempotency update_request request_clashes
    insert_request find_quote set_quote_status find_sequence find_coin_entry insert_audit
    insert_outbox is_backed has_valid_transfer_policy map_withdrawal withdrawal_key reserve_movement
    confirmed_request confirm_open confirm_status confirm_found confirm_withdrawal
    can_release_withdrawal_reserve release_movement released_request look_up_release release_or_post
    release_reserve release_found release_withdrawal cancel_withdrawal reject_withdrawal
    final_amounts failure_movement must_release post_failure failed_request
    record_withdrawal_failure_state debit_movement completed_request complete_withdrawal
    mismatch_reason reconcile_matched reconcile_completed reconcile_state reconcile_found
    reconcile_verified_outcome index_of base58_number emit_bytes leading_ones decode_base58
    is_base58 all_base58 looks_like_address checksum_of decoded_is_valid is_valid_tron_address
    parse_tron_address map_quote_with_snapshot find_snapshot find_quote_row with_rate
    find_quote_by_idempotency quote_clashes insert_quote replay_quote priced_quote estimate
    quote_row save_quote new_quote create_withdrawal_quote
confirm_conserves_example = confirm_conserves test_host confirm_input test_db confirmed refl refl

reconcile_conserves_example : Conserved confirmed.1 completed.1 1
unfolding ◌+ℤ◌ ◌-ℤ◌ neg text_eq is_space trim_start trim starts_with Text-discrete
    OptionText-discrete OptionNat-discrete as_non_negative coin_micros usdt_atomic usd_rate_nanos
    add_coins subtract_coins assert_amount_range is_digit digits_value emit_digits to_text pad_end
    pad_start span_digits split_sign match_fraction match_decimal apply_sign decimal_value
    check_decimal parse_matched parse_decimal_to_atomic all_zeros spell_decimal parse_stored_matched
    parse_stored_decimal_to_atomic strip_zeros format_atomic parse_coins parse_usdt parse_usd_rate
    multiply_divide usdt_to_coin_micros coin_micros_to_usdt calculate_fee is_quote_stale
    assert_fresh_quote same_purpose same_kind expiry_invalid rate_matches quote_is_current
    validate_usd_quote OperationType-discrete add_bigint sum_in_funds posting_allowed find_account
    ensure_account update_account find_entry same_movement not_blank has_admin delta_shape
    needs_admin entry_checks record_movement post_new post_replay post_to_account post_ledger_entry
    assert_cutover_ready balance_row get_balance list_entries validate_post_entry map_pg_error
    from_database post_entry reserve_coins release_reserved_coins is_positive_integer is_integer
    assert_pg_bigint parse_positive signed_digits parse_signed_coin_delta parse_idempotency_key
    required_text required_reason optional_reason parse_optional_atomic_fee
    validate_verified_outcome when_coin with_cutover_ready is_withdrawal_of
    find_withdrawal_for_update find_withdrawal_by_idempotency update_request request_clashes
    insert_request find_quote set_quote_status find_sequence find_coin_entry insert_audit
    insert_outbox is_backed has_valid_transfer_policy map_withdrawal withdrawal_key reserve_movement
    confirmed_request confirm_open confirm_status confirm_found confirm_withdrawal
    can_release_withdrawal_reserve release_movement released_request look_up_release release_or_post
    release_reserve release_found release_withdrawal cancel_withdrawal reject_withdrawal
    final_amounts failure_movement must_release post_failure failed_request
    record_withdrawal_failure_state debit_movement completed_request complete_withdrawal
    mismatch_reason reconcile_matched reconcile_completed reconcile_state reconcile_found
    reconcile_verified_outcome index_of base58_number emit_bytes leading_ones decode_base58
    is_base58 all_base58 looks_like_address checksum_of decoded_is_valid is_valid_tron_address
    parse_tron_address map_quote_with_snapshot find_snapshot find_quote_row with_rate
    find_quote_by_idempotency quote_clashes insert_quote replay_quote priced_quote estimate
    quote_row save_quote new_quote create_withdrawal_quote
reconcile_conserves_example =
    reconcile_conserves test_host (pos 30) final_rate 40 test_outcome confirmed.1 confirmed.1
      completed the_request (tt, tt) refl (λ h. refl) refl refl 1

debited_only-Agreed_example :
    ((completed.0.accepted ≡ false) × IsUndebited confirmed.1 completed.1)
    ⊎ ((completed.0.accepted ≡ true)
        × (test_outcome.verified ≡ true)
        × (test_outcome.state ≡ ProviderState.completed)
        × Agreed test_outcome
            (final_amounts test_host (pos 30) final_rate test_outcome the_request)
            completed.0)
unfolding ◌+ℤ◌ ◌-ℤ◌ neg text_eq is_space trim_start trim starts_with Text-discrete
    OptionText-discrete OptionNat-discrete as_non_negative coin_micros usdt_atomic usd_rate_nanos
    add_coins subtract_coins assert_amount_range is_digit digits_value emit_digits to_text pad_end
    pad_start span_digits split_sign match_fraction match_decimal apply_sign decimal_value
    check_decimal parse_matched parse_decimal_to_atomic all_zeros spell_decimal parse_stored_matched
    parse_stored_decimal_to_atomic strip_zeros format_atomic parse_coins parse_usdt parse_usd_rate
    multiply_divide usdt_to_coin_micros coin_micros_to_usdt calculate_fee is_quote_stale
    assert_fresh_quote same_purpose same_kind expiry_invalid rate_matches quote_is_current
    validate_usd_quote OperationType-discrete add_bigint sum_in_funds posting_allowed find_account
    ensure_account update_account find_entry same_movement not_blank has_admin delta_shape
    needs_admin entry_checks record_movement post_new post_replay post_to_account post_ledger_entry
    assert_cutover_ready balance_row get_balance list_entries validate_post_entry map_pg_error
    from_database post_entry reserve_coins release_reserved_coins is_positive_integer is_integer
    assert_pg_bigint parse_positive signed_digits parse_signed_coin_delta parse_idempotency_key
    required_text required_reason optional_reason parse_optional_atomic_fee
    validate_verified_outcome when_coin with_cutover_ready is_withdrawal_of
    find_withdrawal_for_update find_withdrawal_by_idempotency update_request request_clashes
    insert_request find_quote set_quote_status find_sequence find_coin_entry insert_audit
    insert_outbox is_backed has_valid_transfer_policy map_withdrawal withdrawal_key reserve_movement
    confirmed_request confirm_open confirm_status confirm_found confirm_withdrawal
    can_release_withdrawal_reserve release_movement released_request look_up_release release_or_post
    release_reserve release_found release_withdrawal cancel_withdrawal reject_withdrawal
    final_amounts failure_movement must_release post_failure failed_request
    record_withdrawal_failure_state debit_movement completed_request complete_withdrawal
    mismatch_reason reconcile_matched reconcile_completed reconcile_state reconcile_found
    reconcile_verified_outcome index_of base58_number emit_bytes leading_ones decode_base58
    is_base58 all_base58 looks_like_address checksum_of decoded_is_valid is_valid_tron_address
    parse_tron_address map_quote_with_snapshot find_snapshot find_quote_row with_rate
    find_quote_by_idempotency quote_clashes insert_quote replay_quote priced_quote estimate
    quote_row save_quote new_quote create_withdrawal_quote
debited_only-Agreed_example =
    debited_only-Agreed test_host (pos 30) final_rate 40 test_outcome confirmed.1 confirmed.1
      completed the_request refl refl

confirm_repeats_example :
    (answer : Answer) × (confirm_withdrawal test_host confirm_input confirmed.1
      ≡ ok (answer, confirmed.1))
    × (answer.idempotent ≡ true)
    × (answer.withdrawal_request ≡ confirmed.0.withdrawal_request)
unfolding ◌+ℤ◌ ◌-ℤ◌ neg text_eq is_space trim_start trim starts_with Text-discrete
    OptionText-discrete OptionNat-discrete as_non_negative coin_micros usdt_atomic usd_rate_nanos
    add_coins subtract_coins assert_amount_range is_digit digits_value emit_digits to_text pad_end
    pad_start span_digits split_sign match_fraction match_decimal apply_sign decimal_value
    check_decimal parse_matched parse_decimal_to_atomic all_zeros spell_decimal parse_stored_matched
    parse_stored_decimal_to_atomic strip_zeros format_atomic parse_coins parse_usdt parse_usd_rate
    multiply_divide usdt_to_coin_micros coin_micros_to_usdt calculate_fee is_quote_stale
    assert_fresh_quote same_purpose same_kind expiry_invalid rate_matches quote_is_current
    validate_usd_quote OperationType-discrete add_bigint sum_in_funds posting_allowed find_account
    ensure_account update_account find_entry same_movement not_blank has_admin delta_shape
    needs_admin entry_checks record_movement post_new post_replay post_to_account post_ledger_entry
    assert_cutover_ready balance_row get_balance list_entries validate_post_entry map_pg_error
    from_database post_entry reserve_coins release_reserved_coins is_positive_integer is_integer
    assert_pg_bigint parse_positive signed_digits parse_signed_coin_delta parse_idempotency_key
    required_text required_reason optional_reason parse_optional_atomic_fee
    validate_verified_outcome when_coin with_cutover_ready is_withdrawal_of
    find_withdrawal_for_update find_withdrawal_by_idempotency update_request request_clashes
    insert_request find_quote set_quote_status find_sequence find_coin_entry insert_audit
    insert_outbox is_backed has_valid_transfer_policy map_withdrawal withdrawal_key reserve_movement
    confirmed_request confirm_open confirm_status confirm_found confirm_withdrawal
    can_release_withdrawal_reserve release_movement released_request look_up_release release_or_post
    release_reserve release_found release_withdrawal cancel_withdrawal reject_withdrawal
    final_amounts failure_movement must_release post_failure failed_request
    record_withdrawal_failure_state debit_movement completed_request complete_withdrawal
    mismatch_reason reconcile_matched reconcile_completed reconcile_state reconcile_found
    reconcile_verified_outcome index_of base58_number emit_bytes leading_ones decode_base58
    is_base58 all_base58 looks_like_address checksum_of decoded_is_valid is_valid_tron_address
    parse_tron_address map_quote_with_snapshot find_snapshot find_quote_row with_rate
    find_quote_by_idempotency quote_clashes insert_quote replay_quote priced_quote estimate
    quote_row save_quote new_quote create_withdrawal_quote
confirm_repeats_example = confirm_repeats test_host test_host confirm_input test_db confirmed refl

estimate-exact_example :
    (gross : ℕ) × (gross * 2000000000 ≤ 9 * 1_000_000_000)
    × (9 * 1_000_000_000 < (gross + 1) * 2000000000)
    × ((1 + 2 < gross
          → (e : ℕ) × (estimate test_host
                (pos 30)
                final_rate
                1
                2
                9
                (record (usd_quote RatePurpose.withdrawal_indicative RateKind.indicative (pos 9)) {
                  usd_rate_nanos = pos 2000000000;
                })
              ≡ ok e)
            × (e + (1 + 2) ≡ gross))
        × (gross ≤ 1 + 2
            → estimate test_host
                (pos 30)
                final_rate
                1
                2
                9
                (record (usd_quote RatePurpose.withdrawal_indicative RateKind.indicative (pos 9)) {
                  usd_rate_nanos = pos 2000000000;
                })
              ≡ err WalletError.invalid_coin_amount))
estimate-exact_example =
    estimate-exact test_host (pos 30) final_rate 1 2 9 2000000000
      (record (usd_quote RatePurpose.withdrawal_indicative RateKind.indicative (pos 9)) {
        usd_rate_nanos = pos 2000000000;
      })
      (omega arith) refl

decode_base58-value_example :
    (base58_number (some 0) (codes "1Z5") ≡ some (bytes_value 0 (0 ∷ 7 ∷ 68 ∷ [])))
    × All (λ b. b < 256) (0 ∷ 7 ∷ 68 ∷ [])
unfolding ◌+ℤ◌ ◌-ℤ◌ neg text_eq is_space trim_start trim starts_with Text-discrete
    OptionText-discrete OptionNat-discrete as_non_negative coin_micros usdt_atomic usd_rate_nanos
    add_coins subtract_coins assert_amount_range is_digit digits_value emit_digits to_text pad_end
    pad_start span_digits split_sign match_fraction match_decimal apply_sign decimal_value
    check_decimal parse_matched parse_decimal_to_atomic all_zeros spell_decimal parse_stored_matched
    parse_stored_decimal_to_atomic strip_zeros format_atomic parse_coins parse_usdt parse_usd_rate
    multiply_divide usdt_to_coin_micros coin_micros_to_usdt calculate_fee is_quote_stale
    assert_fresh_quote same_purpose same_kind expiry_invalid rate_matches quote_is_current
    validate_usd_quote OperationType-discrete add_bigint sum_in_funds posting_allowed find_account
    ensure_account update_account find_entry same_movement not_blank has_admin delta_shape
    needs_admin entry_checks record_movement post_new post_replay post_to_account post_ledger_entry
    assert_cutover_ready balance_row get_balance list_entries validate_post_entry map_pg_error
    from_database post_entry reserve_coins release_reserved_coins is_positive_integer is_integer
    assert_pg_bigint parse_positive signed_digits parse_signed_coin_delta parse_idempotency_key
    required_text required_reason optional_reason parse_optional_atomic_fee
    validate_verified_outcome when_coin with_cutover_ready is_withdrawal_of
    find_withdrawal_for_update find_withdrawal_by_idempotency update_request request_clashes
    insert_request find_quote set_quote_status find_sequence find_coin_entry insert_audit
    insert_outbox is_backed has_valid_transfer_policy map_withdrawal withdrawal_key reserve_movement
    confirmed_request confirm_open confirm_status confirm_found confirm_withdrawal
    can_release_withdrawal_reserve release_movement released_request look_up_release release_or_post
    release_reserve release_found release_withdrawal cancel_withdrawal reject_withdrawal
    final_amounts failure_movement must_release post_failure failed_request
    record_withdrawal_failure_state debit_movement completed_request complete_withdrawal
    mismatch_reason reconcile_matched reconcile_completed reconcile_state reconcile_found
    reconcile_verified_outcome index_of base58_number emit_bytes leading_ones decode_base58
    is_base58 all_base58 looks_like_address checksum_of decoded_is_valid is_valid_tron_address
    parse_tron_address map_quote_with_snapshot find_snapshot find_quote_row with_rate
    find_quote_by_idempotency quote_clashes insert_quote replay_quote priced_quote estimate
    quote_row save_quote new_quote create_withdrawal_quote
decode_base58-value_example = decode_base58-value (codes "1Z5") (0 ∷ 7 ∷ 68 ∷ []) refl
