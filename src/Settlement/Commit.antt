-- ===== src/Settlement/Commit.antt =====
-- src/settlement.ts: `commitCoinSettlement` and the transaction that it runs. An error rolls all of
-- it back. The advisory lock on the market makes the commits of one market run one after another.
use mpulse.Common.{
  ℕ, ◌+◌, Bool, true, false, not, ◌&&◌, ◌||◌, Option, none, some, List, [], ◌∷◌, ◌++◌, map, ok, err,
  ◌>>=◌, ◌>>◌, throw_if, if◌then◌else◌, ltb, ◌==◌, filter, length,
}
use mpulse.Common.Int.{eqb_ℤ}
use mpulse.Common.Text.{Text, codes}
use mpulse.Common.Equality.{from_dec, Text-discrete}
use mpulse.Coins.Types.{Movement, Entry, CoinDb}
use mpulse.Coins.Repository.{post_entry}
use mpulse.Settlement.Types.{
  SettlementStatus, SettlementSide, same_side, PayoutKind, Position, Settlement, Payout, Draft,
  AuditType, AuditEvent, CommittedEvent, CommitInput, Plan, SettlementResult, SettlementError,
  Settling, ExecutionStatus, ExecutionOrder, SettlementDb, Host,
}
use mpulse.Settlement.Plan.{total_payout, build_coin_settlement_commit}

abbrev pub text_same : Text → Text → Bool
text_same a b = from_dec (Text-discrete a b)

-- `status in ('execution_pending', 'manual_review')`
unfoldable pub blocks_settlement : Text → ExecutionOrder → Bool
blocks_settlement market o = text_same o.order_market market && elim o.order_status [
  | ExecutionStatus.execution_pending ↦ true
  | ExecutionStatus.manual_review ↦ true
  | ExecutionStatus.other_status ↦ false
]

unfoldable pub lock_market_and_assert_no_active_executions :
    Text → List ExecutionOrder → Settling (Unit {0})
unfolding blocks_settlement
lock_market_and_assert_no_active_executions market executions =
    throw_if (ltb 0 (length (filter (blocks_settlement market) executions)))
      SettlementError.settlement_executions_pending

abbrev side_rank : SettlementSide → ℕ
side_rank SettlementSide.no_side = 0
side_rank SettlementSide.yes_side = 1

-- `order by user_id asc, side asc`
unfoldable pub comes_before : Position → Position → Bool
comes_before p q =
    ltb p.position_user q.position_user
    || p.position_user == q.position_user
      && ltb (side_rank p.position_side) (side_rank q.position_side)

unfoldable pub insert_position : Position → List Position → List Position
insert_position p [] = p ∷ []
insert_position p (q ∷ positions) =
    if comes_before q p then q ∷ insert_position p positions else p ∷ q ∷ positions

unfoldable pub order_positions : List Position → List Position
order_positions [] = []
order_positions (p ∷ positions) = insert_position p (order_positions positions)

unfoldable pub of_market : Text → Position → Bool
of_market market p = text_same p.position_market market

unfoldable pub load_coin_position_snapshot : Text → List Position → List Position
load_coin_position_snapshot market positions = order_positions (filter (of_market market) positions)

-- Unique on the market, and on the idempotency key: both violations are reported alike.
unfoldable pub clashes : Settlement → List Settlement → Bool
clashes s [] = false
clashes s (t ∷ settlements) =
    text_same t.market_id s.market_id
    || text_same t.settlement_key s.settlement_key
    || clashes s settlements

unfoldable pub insert_settlement : Settlement → List Settlement → Settling (List Settlement)
unfolding clashes
insert_settlement s settlements = do
  throw_if (clashes s settlements) SettlementError.market_already_settled
  ok (s ∷ settlements)

unfoldable pub post_draft : Movement → CoinDb → Settling (Entry × CoinDb)
post_draft m coins = elim (post_entry m coins) [
  | ok posted ↦ ok posted
  | err e ↦ err (SettlementError.coin_ledger_error e)
]

-- The loop over the drafts, with the map from payouts to entries built so far, newest first.
unfoldable pub post_drafts : List Draft → List (ℕ × ℕ) → CoinDb → Settling (List (ℕ × ℕ) × CoinDb)
post_drafts [] ids coins = ok (ids, coins)
post_drafts (d ∷ drafts) ids coins = do
  posted ← post_draft d.draft_movement coins
  post_drafts drafts ((d.draft_payout, posted.0.entry_sequence) ∷ ids) posted.1

unfoldable pub entry_of : ℕ → List (ℕ × ℕ) → Option ℕ
entry_of payout [] = none
entry_of payout ((p, e) ∷ ids) = if p == payout then some e else entry_of payout ids

-- `coinLedgerEntryIdsByPayoutId.get(payout.id) ?? payout.coinLedgerEntryId ?? null`
unfoldable pub with_entry : List (ℕ × ℕ) → Payout → Payout
unfolding entry_of
with_entry ids p = elim (entry_of p.payout_id ids) [
  | none ↦ p
  | some e ↦ record p { coin_ledger_entry_id = some e }
]

abbrev has_payout : ℕ → List Payout → Bool
has_payout id [] = false
has_payout id (p ∷ paid) = p.payout_id == id || has_payout id paid

-- `on conflict (id) do nothing`
unfoldable pub insert_payouts : List Payout → List Payout → List Payout
insert_payouts [] paid = paid
insert_payouts (p ∷ payouts) paid =
    insert_payouts payouts (if has_payout p.payout_id paid then paid else p ∷ paid)

unfoldable pub to_settlement_result : Settlement → List Payout → SettlementResult
to_settlement_result s payouts = record {
  result_settlement = s;
  result_payouts = payouts;
  payout_total = total_payout payouts;
  balanced = total_payout payouts + s.platform_fee_coin_micros == s.total_pool_coin_micros;
}

unfoldable pub build_settlement_audit_event : CommitInput → SettlementResult → AuditEvent
build_settlement_audit_event input result = record {
  event_type = elim result.result_settlement.status [
    | SettlementStatus.cancelled ↦ AuditType.market_cancelled
    | SettlementStatus.resolved ↦ AuditType.market_settled
    | SettlementStatus.no_winner ↦ AuditType.market_settled
  ];
  event_user = input.admin_user;
  event_session = input.session_id;
  event_actor = input.admin_actor_id;
  event_settlement = result.result_settlement;
  event_balanced = result.balanced;
}

abbrev has_event : Text → List CommittedEvent → Bool
has_event key [] = false
has_event key (e ∷ events) = text_same e.event_key key || has_event key events

-- `on conflict (idempotency_key) do nothing`, and no event where no Coin entry was posted.
unfoldable pub insert_committed_event :
    Host → Settlement → List Draft → ℕ → List CommittedEvent → List CommittedEvent
insert_committed_event host s [] payouts outbox = outbox
insert_committed_event host s (d ∷ drafts) payouts outbox =
    let event : CommittedEvent = record {
      aggregate_id = s.settlement_id;
      event_key = codes "settlement:" ++ host.uuid_text s.settlement_id ++ codes ":committed";
      event_market = s.market_id;
      event_payouts = payouts;
    } in
    if has_event event.event_key outbox then outbox else event ∷ outbox

unfoldable pub commit_settlement_in_transaction :
    Host → CommitInput → Plan → SettlementDb → Settling (SettlementResult × SettlementDb)
commit_settlement_in_transaction host input plan db = do
  settlements ← insert_settlement plan.settlement db.settlements
  posted ← post_drafts plan.drafts [] db.coins
  let payouts = map (with_entry posted.0) plan.payouts
  let result = to_settlement_result plan.settlement payouts
  ok (
    result,
    record db {
      coins = posted.1;
      settlements = settlements;
      paid = insert_payouts payouts db.paid;
      positions = filter (λ p. not (of_market plan.settlement.market_id p)) db.positions;
      audits = build_settlement_audit_event input result ∷ db.audits;
      outbox = insert_committed_event host plan.settlement plan.drafts (length payouts) db.outbox;
    },
  )

same_kind : PayoutKind → PayoutKind → Bool
same_kind PayoutKind.payout PayoutKind.payout = true
same_kind PayoutKind.refund PayoutKind.refund = true
same_kind PayoutKind.loss PayoutKind.loss = true
same_kind _ _ = false

-- The comparison of a returned payout with a planned one.
unfoldable pub same_payout : Payout → Payout → Bool
unfolding same_kind
same_payout p q =
    text_same p.payout_market q.payout_market
    && p.payout_user == q.payout_user
    && same_side p.payout_side q.payout_side
    && same_kind p.kind q.kind
    && p.payout_stake == q.payout_stake
    && p.payout_coin_micros == q.payout_coin_micros
    && eqb_ℤ p.profit_coin_micros q.profit_coin_micros

-- `expectedPayoutsById.get(id)`: of two payouts with one id the map keeps the later.
unfoldable pub planned_payout : ℕ → List Payout → Option Payout
planned_payout id [] = none
planned_payout id (p ∷ payouts) = elim (planned_payout id payouts) [
  | some later ↦ some later
  | none ↦ if p.payout_id == id then some p else none
]

unfoldable pub matches_plan : List Payout → Payout → Bool
unfolding same_payout planned_payout
matches_plan planned p = elim (planned_payout p.payout_id planned) [
  | none ↦ false
  | some q ↦ same_payout p q
]

abbrev all_of : {A : Type 0} → (A → Bool) → List A → Bool
all_of test [] = true
all_of test (x ∷ xs) = test x && all_of test xs

abbrev has_draft : ℕ → List Draft → Bool
has_draft id [] = false
has_draft id (d ∷ drafts) = d.draft_payout == id || has_draft id drafts

abbrev is_none : {A : Type 0} → Option A → Bool
is_none none = true
is_none (some _) = false

unfoldable pub misses_entry : List Draft → Payout → Bool
misses_entry drafts p = has_draft p.payout_id drafts && is_none p.coin_ledger_entry_id

unfoldable pub assert_settlement_commit_result : Plan → SettlementResult → Settling (Unit {0})
assert_settlement_commit_result plan result = do
  throw_if
      (not (result.result_settlement.settlement_id == plan.settlement.settlement_id)
        || not (text_same result.result_settlement.market_id plan.settlement.market_id))
      SettlementError.settlement_commit_incomplete
  throw_if (not (length result.result_payouts == length plan.payouts))
      SettlementError.settlement_commit_incomplete
  throw_if (not (all_of (matches_plan plan.payouts) result.result_payouts))
      SettlementError.settlement_commit_incomplete
  throw_if (not (all_of (λ p. not (misses_entry plan.drafts p)) result.result_payouts))
      SettlementError.settlement_commit_incomplete
  throw_if (not result.balanced) SettlementError.settlement_commit_incomplete

abbrev pub no_positions : List Position → Bool
no_positions [] = true
no_positions (p ∷ positions) = false

unfoldable pub commit_coin_settlement :
    Host → CommitInput → SettlementDb → Settling (SettlementResult × SettlementDb)
commit_coin_settlement host input db = do
  lock_market_and_assert_no_active_executions input.input_market db.executions
  let snapshot = load_coin_position_snapshot input.input_market db.positions
  throw_if (no_positions snapshot) SettlementError.no_settlement_positions
  plan ← build_coin_settlement_commit host input snapshot
  committed ← commit_settlement_in_transaction host input plan db
  assert_settlement_commit_result plan committed.0
  ok committed
