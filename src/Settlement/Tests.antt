-- ===== src/Settlement/Tests.antt =====
-- Settlements of a market with two positions.
use mpulse.Common.{
  ℕ, ◌+◌, ◌≡◌, ◌≢◌, refl, true, false, none, some, [], ◌∷◌, Result, ok, err, filter,
}
use mpulse.Common.Int.{◌+ℤ◌, ◌-ℤ◌, neg}
use mpulse.Common.Text.{text_eq, is_space, trim_start, trim, starts_with}
use mpulse.Common.Equality.{Text-discrete, OptionText-discrete, OptionNat-discrete}
use mpulse.Money.Decimal.{
  is_digit, digits_value, emit_digits, to_text, pad_end, pad_start, span_digits, split_sign,
  match_fraction, match_decimal, apply_sign, decimal_value, check_decimal, parse_matched,
  parse_decimal_to_atomic, all_zeros, spell_decimal, parse_stored_matched,
  parse_stored_decimal_to_atomic, strip_zeros, format_atomic, parse_coins, parse_usdt,
  parse_usd_rate,
}
use mpulse.Coins.Types.{OperationType-discrete}
use mpulse.Coins.Posting.{
  add_bigint, sum_in_funds, posting_allowed, find_account, ensure_account, update_account,
  find_entry, same_movement, not_blank, has_admin, delta_shape, needs_admin, entry_checks,
  record_movement, post_new, post_replay, post_to_account, post_ledger_entry,
}
use mpulse.Coins.Repository.{
  assert_cutover_ready, balance_row, get_balance, list_entries, validate_post_entry, map_pg_error,
  from_database, post_entry, reserve_coins, release_reserved_coins,
}
use mpulse.Settlement.Types.{same_side}
use mpulse.Settlement.Plan.{
  parse_shares, add_stake, group_from, group_coin_position_stakes, total_stake, total_payout,
  holds_side, has_winning_position, side_text, refund_payout, refund_payouts, payout_key,
  payout_draft, plan_settlement, refund_plan, plan_of_stakes, build_coin_settlement_commit,
}
use mpulse.Settlement.Commit.{
  blocks_settlement, lock_market_and_assert_no_active_executions, comes_before, insert_position,
  order_positions, of_market, load_coin_position_snapshot, clashes, insert_settlement, post_draft,
  post_drafts, entry_of, with_entry, insert_payouts, to_settlement_result,
  build_settlement_audit_event, insert_committed_event, commit_settlement_in_transaction,
  same_payout, planned_payout, matches_plan, misses_entry, assert_settlement_commit_result,
  commit_coin_settlement,
}
use mpulse.Settlement.Service.{
  validate_winning_side, validate_market_id, find_by_market_id, list_payouts_by_settlement_id,
  given_key, settle_again, settle_new, settle_found, settle_market, resolve_market, cancel_market,
}
use mpulse.Common.Int.{ℤ, pos}
use mpulse.Common.Text.{codes}
use mpulse.Coins.Types.{ActiveSystem}
use mpulse.Coins.Accounts.{amounts_of}
use mpulse.Settlement.Types.{
  SettlementStatus, SettlementSide, Position, Settlement, CommitInput, Plan, SettlementResult,
  SettlementDb, Host,
}
use mpulse.Settlement.Service.{Answer, SettleInput}
use mpulse.Settlement.Stakes.{user_cost, total_cost, side_cost}
use mpulse.Settlement.Balance.{plan_balances, no_payout_to_winners}
use mpulse.Settlement.Committed.{commit_refunds_costs}
use mpulse.Settlement.Once.{retry_answered}
use mpulse.Settlement.Runs.{SettlementRun, market_settled_once}

abbrev test_host : Host
test_host = record {
  random_uuid = λ n. 100 + n;
  uuid_text = λ n. n ∷ [];
  payout_metadata = λ p. codes "{}";
  now = codes "t";
}

abbrev later_host : Host
later_host = record test_host { random_uuid = λ n. 900 + n; now = codes "u" }

abbrev bet : ℕ → SettlementSide → ℕ → Position
bet user side cost = record {
  position_user = user;
  position_market = codes "m";
  position_side = side;
  shares = codes "1.5";
  total_cost_coin_micros = cost;
}

abbrev test_db : SettlementDb
test_db = record {
  coins = record {
    active_system = some ActiveSystem.coin;
    accounts = [];
    entries = [];
    next_sequence = 1;
  };
  settlements = [];
  paid = [];
  positions =
      bet 2 SettlementSide.yes_side 30
      ∷ bet 1 SettlementSide.yes_side 20
      ∷ bet 2 SettlementSide.yes_side 5
      ∷ [];
  executions = [];
  audits = [];
  outbox = [];
}

abbrev test_input : CommitInput
test_input = record {
  input_market = codes "m";
  input_status = SettlementStatus.resolved;
  input_winner = some SettlementSide.no_side;
  admin_user = none;
  admin_actor_id = some (codes "a");
  session_id = none;
  input_key = codes "k";
}

abbrev request : SettleInput
request = record {
  market = codes "m ";
  admin_user_id = none;
  actor_id = some (codes "a");
  session = none;
  idempotency_key = some (codes "k");
}

abbrev ok_or : {E A : Type 0} → A → Result E A → A
ok_or a (ok b) = b
ok_or a (err e) = a

abbrev no_settlement : Settlement
no_settlement = record {
  settlement_id = 0;
  market_id = [];
  status = SettlementStatus.cancelled;
  winning_side = none;
  total_pool_coin_micros = 0;
  winning_pool_coin_micros = 0;
  platform_fee_coin_micros = 0;
  distributable_pool_coin_micros = 0;
  payout_count = 0;
  created_by = none;
  settlement_key = [];
  created_at = [];
}

abbrev no_result : SettlementResult
no_result = record {
  result_settlement = no_settlement;
  result_payouts = [];
  payout_total = 0;
  balanced = true;
}

abbrev test_plan : Plan
test_plan =
    ok_or (record { settlement = no_settlement; payouts = []; drafts = [] })
      (build_coin_settlement_commit test_host test_input test_db.positions)

abbrev committed : SettlementResult × SettlementDb
committed = ok_or (no_result, test_db) (commit_coin_settlement test_host test_input test_db)

abbrev no_answer : Answer × SettlementDb
no_answer = (record { answer = no_result; idempotent = false }, test_db)

abbrev settled : Answer × SettlementDb
settled = ok_or no_answer (settle_market test_host request SettlementStatus.cancelled none test_db)

abbrev settled_again : Answer × SettlementDb
settled_again =
    ok_or no_answer (settle_market test_host request SettlementStatus.cancelled none settled.1)

plan_balances_example :
    (total_payout test_plan.payouts ≡ test_plan.settlement.total_pool_coin_micros)
    × (test_plan.settlement.total_pool_coin_micros ≡ total_cost test_db.positions)
    × (test_plan.settlement.platform_fee_coin_micros ≡ 0)
    × (test_plan.settlement.winning_side ≡ none)
    × (test_plan.settlement.status ≢ SettlementStatus.resolved)
unfolding ◌+ℤ◌ ◌-ℤ◌ neg text_eq is_space trim_start trim starts_with Text-discrete
    OptionText-discrete OptionNat-discrete is_digit digits_value emit_digits to_text pad_end
    pad_start span_digits split_sign match_fraction match_decimal apply_sign decimal_value
    check_decimal parse_matched parse_decimal_to_atomic all_zeros spell_decimal parse_stored_matched
    parse_stored_decimal_to_atomic strip_zeros format_atomic parse_coins parse_usdt parse_usd_rate
    OperationType-discrete add_bigint sum_in_funds posting_allowed find_account ensure_account
    update_account find_entry same_movement not_blank has_admin delta_shape needs_admin entry_checks
    record_movement post_new post_replay post_to_account post_ledger_entry assert_cutover_ready
    balance_row get_balance list_entries validate_post_entry map_pg_error from_database post_entry
    reserve_coins release_reserved_coins same_side parse_shares add_stake group_from
    group_coin_position_stakes total_stake total_payout holds_side has_winning_position side_text
    refund_payout refund_payouts payout_key payout_draft plan_settlement refund_plan plan_of_stakes
    build_coin_settlement_commit blocks_settlement lock_market_and_assert_no_active_executions
    comes_before insert_position order_positions of_market load_coin_position_snapshot clashes
    insert_settlement post_draft post_drafts entry_of with_entry insert_payouts to_settlement_result
    build_settlement_audit_event insert_committed_event commit_settlement_in_transaction same_payout
    planned_payout matches_plan misses_entry assert_settlement_commit_result commit_coin_settlement
    validate_winning_side validate_market_id find_by_market_id list_payouts_by_settlement_id
    given_key settle_again settle_new settle_found settle_market resolve_market cancel_market
plan_balances_example = plan_balances test_host test_input test_db.positions test_plan refl

no_payout_to_winners_example : side_cost SettlementSide.no_side test_db.positions ≡ 0
unfolding ◌+ℤ◌ ◌-ℤ◌ neg text_eq is_space trim_start trim starts_with Text-discrete
    OptionText-discrete OptionNat-discrete is_digit digits_value emit_digits to_text pad_end
    pad_start span_digits split_sign match_fraction match_decimal apply_sign decimal_value
    check_decimal parse_matched parse_decimal_to_atomic all_zeros spell_decimal parse_stored_matched
    parse_stored_decimal_to_atomic strip_zeros format_atomic parse_coins parse_usdt parse_usd_rate
    OperationType-discrete add_bigint sum_in_funds posting_allowed find_account ensure_account
    update_account find_entry same_movement not_blank has_admin delta_shape needs_admin entry_checks
    record_movement post_new post_replay post_to_account post_ledger_entry assert_cutover_ready
    balance_row get_balance list_entries validate_post_entry map_pg_error from_database post_entry
    reserve_coins release_reserved_coins same_side parse_shares add_stake group_from
    group_coin_position_stakes total_stake total_payout holds_side has_winning_position side_text
    refund_payout refund_payouts payout_key payout_draft plan_settlement refund_plan plan_of_stakes
    build_coin_settlement_commit blocks_settlement lock_market_and_assert_no_active_executions
    comes_before insert_position order_positions of_market load_coin_position_snapshot clashes
    insert_settlement post_draft post_drafts entry_of with_entry insert_payouts to_settlement_result
    build_settlement_audit_event insert_committed_event commit_settlement_in_transaction same_payout
    planned_payout matches_plan misses_entry assert_settlement_commit_result commit_coin_settlement
    validate_winning_side validate_market_id find_by_market_id list_payouts_by_settlement_id
    given_key settle_again settle_new settle_found settle_market resolve_market cancel_market
no_payout_to_winners_example =
    no_payout_to_winners test_host test_input SettlementSide.no_side test_db.positions test_plan
      refl refl refl

commit_refunds_costs_example : ◌≡◌ {A = ℤ × ℤ} (amounts_of 2 committed.1.coins.accounts) (
  (amounts_of 2 test_db.coins.accounts).0
      +ℤ pos (user_cost 2 (filter (of_market test_input.input_market) test_db.positions)),
  (amounts_of 2 test_db.coins.accounts).1,
)
unfolding ◌+ℤ◌ ◌-ℤ◌ neg text_eq is_space trim_start trim starts_with Text-discrete
    OptionText-discrete OptionNat-discrete is_digit digits_value emit_digits to_text pad_end
    pad_start span_digits split_sign match_fraction match_decimal apply_sign decimal_value
    check_decimal parse_matched parse_decimal_to_atomic all_zeros spell_decimal parse_stored_matched
    parse_stored_decimal_to_atomic strip_zeros format_atomic parse_coins parse_usdt parse_usd_rate
    OperationType-discrete add_bigint sum_in_funds posting_allowed find_account ensure_account
    update_account find_entry same_movement not_blank has_admin delta_shape needs_admin entry_checks
    record_movement post_new post_replay post_to_account post_ledger_entry assert_cutover_ready
    balance_row get_balance list_entries validate_post_entry map_pg_error from_database post_entry
    reserve_coins release_reserved_coins same_side parse_shares add_stake group_from
    group_coin_position_stakes total_stake total_payout holds_side has_winning_position side_text
    refund_payout refund_payouts payout_key payout_draft plan_settlement refund_plan plan_of_stakes
    build_coin_settlement_commit blocks_settlement lock_market_and_assert_no_active_executions
    comes_before insert_position order_positions of_market load_coin_position_snapshot clashes
    insert_settlement post_draft post_drafts entry_of with_entry insert_payouts to_settlement_result
    build_settlement_audit_event insert_committed_event commit_settlement_in_transaction same_payout
    planned_payout matches_plan misses_entry assert_settlement_commit_result commit_coin_settlement
    validate_winning_side validate_market_id find_by_market_id list_payouts_by_settlement_id
    given_key settle_again settle_new settle_found settle_market resolve_market cancel_market
commit_refunds_costs_example =
    commit_refunds_costs test_host test_input test_db committed (λ user side. refl) refl 2

market_settled_once_example :
    (settled_again.1 ≡ settled.1)
    × (settled_again.0.idempotent ≡ true)
    × (settled_again.0.answer.result_settlement ≡ settled.0.answer.result_settlement)
unfolding ◌+ℤ◌ ◌-ℤ◌ neg text_eq is_space trim_start trim starts_with Text-discrete
    OptionText-discrete OptionNat-discrete is_digit digits_value emit_digits to_text pad_end
    pad_start span_digits split_sign match_fraction match_decimal apply_sign decimal_value
    check_decimal parse_matched parse_decimal_to_atomic all_zeros spell_decimal parse_stored_matched
    parse_stored_decimal_to_atomic strip_zeros format_atomic parse_coins parse_usdt parse_usd_rate
    OperationType-discrete add_bigint sum_in_funds posting_allowed find_account ensure_account
    update_account find_entry same_movement not_blank has_admin delta_shape needs_admin entry_checks
    record_movement post_new post_replay post_to_account post_ledger_entry assert_cutover_ready
    balance_row get_balance list_entries validate_post_entry map_pg_error from_database post_entry
    reserve_coins release_reserved_coins same_side parse_shares add_stake group_from
    group_coin_position_stakes total_stake total_payout holds_side has_winning_position side_text
    refund_payout refund_payouts payout_key payout_draft plan_settlement refund_plan plan_of_stakes
    build_coin_settlement_commit blocks_settlement lock_market_and_assert_no_active_executions
    comes_before insert_position order_positions of_market load_coin_position_snapshot clashes
    insert_settlement post_draft post_drafts entry_of with_entry insert_payouts to_settlement_result
    build_settlement_audit_event insert_committed_event commit_settlement_in_transaction same_payout
    planned_payout matches_plan misses_entry assert_settlement_commit_result commit_coin_settlement
    validate_winning_side validate_market_id find_by_market_id list_payouts_by_settlement_id
    given_key settle_again settle_new settle_found settle_market resolve_market cancel_market
market_settled_once_example =
    market_settled_once test_host later_host request request SettlementStatus.cancelled
      SettlementStatus.cancelled none none test_db settled.1 settled settled_again refl refl
      (SettlementRun.settles test_host request SettlementStatus.cancelled none settled_again refl
        (SettlementRun.leaves refl SettlementRun.done))
      refl

retry_answered_example :
    (b : Answer) × (settle_market test_host request SettlementStatus.cancelled none settled.1
      ≡ ok (b, settled.1))
    × (b.idempotent ≡ true)
    × (b.answer.result_settlement ≡ settled.0.answer.result_settlement)
unfolding ◌+ℤ◌ ◌-ℤ◌ neg text_eq is_space trim_start trim starts_with Text-discrete
    OptionText-discrete OptionNat-discrete is_digit digits_value emit_digits to_text pad_end
    pad_start span_digits split_sign match_fraction match_decimal apply_sign decimal_value
    check_decimal parse_matched parse_decimal_to_atomic all_zeros spell_decimal parse_stored_matched
    parse_stored_decimal_to_atomic strip_zeros format_atomic parse_coins parse_usdt parse_usd_rate
    OperationType-discrete add_bigint sum_in_funds posting_allowed find_account ensure_account
    update_account find_entry same_movement not_blank has_admin delta_shape needs_admin entry_checks
    record_movement post_new post_replay post_to_account post_ledger_entry assert_cutover_ready
    balance_row get_balance list_entries validate_post_entry map_pg_error from_database post_entry
    reserve_coins release_reserved_coins same_side parse_shares add_stake group_from
    group_coin_position_stakes total_stake total_payout holds_side has_winning_position side_text
    refund_payout refund_payouts payout_key payout_draft plan_settlement refund_plan plan_of_stakes
    build_coin_settlement_commit blocks_settlement lock_market_and_assert_no_active_executions
    comes_before insert_position order_positions of_market load_coin_position_snapshot clashes
    insert_settlement post_draft post_drafts entry_of with_entry insert_payouts to_settlement_result
    build_settlement_audit_event insert_committed_event commit_settlement_in_transaction same_payout
    planned_payout matches_plan misses_entry assert_settlement_commit_result commit_coin_settlement
    validate_winning_side validate_market_id find_by_market_id list_payouts_by_settlement_id
    given_key settle_again settle_new settle_found settle_market resolve_market cancel_market
retry_answered_example =
    retry_answered test_host request SettlementStatus.cancelled none test_db settled refl
