-- ===== src/Settlement/Service.antt =====
-- src/settlement.ts: `resolveMarket` and `cancelMarket` of the service, over a Coin ledger and a
-- repository that commits Coin settlements.
use mpulse.Common.{
  ℕ, Bool, true, false, Option, none, some, List, [], ◌∷◌, ok, err, ◌>>=◌, ◌>>◌, throw_if,
  if◌then◌else◌, filter, ◌==◌,
}
use mpulse.Common.Text.{Text, codes, trim, is_empty}
use mpulse.Settlement.Types.{
  SettlementStatus, SettlementSide, Settlement, Payout, SettlementResult, SettlementError, Settling,
  SettlementDb, Host,
}
use mpulse.Settlement.Commit.{text_same, to_settlement_result, commit_coin_settlement}

pub record Answer : Type 0 where
  pub answer : SettlementResult
  pub idempotent : Bool

pub record SettleInput : Type 0 where
  pub market : Text
  pub admin_user_id : Option ℕ
  pub actor_id : Option Text
  pub session : Option ℕ
  pub idempotency_key : Option Text

unfoldable pub validate_winning_side : Text → Settling SettlementSide
validate_winning_side value =
    if text_same value (codes "yes")
    then ok SettlementSide.yes_side
    else if text_same value (codes "no")
    then ok SettlementSide.no_side
    else err SettlementError.invalid_settlement_request

unfoldable pub validate_market_id : Text → Settling Text
validate_market_id value = do
  throw_if (is_empty (trim value)) SettlementError.invalid_settlement_request
  ok (trim value)

unfoldable pub find_by_market_id : Text → List Settlement → Option Settlement
find_by_market_id market [] = none
find_by_market_id market (s ∷ settlements) =
    if text_same s.market_id market then some s else find_by_market_id market settlements

unfoldable pub list_payouts_by_settlement_id : ℕ → List Payout → List Payout
list_payouts_by_settlement_id id paid = filter (λ p. p.payout_settlement == id) paid

-- `input.idempotencyKey?.trim()`, and an empty key counts as none.
unfoldable pub given_key : Option Text → Option Text
given_key none = none
given_key (some key) = if is_empty (trim key) then none else some (trim key)

module _ (host : Host) where
  -- A market that is settled: its result again under the same key, and a refusal otherwise.
  unfoldable pub settle_again :
      Settlement → Option Text → SettlementDb → Settling (Answer × SettlementDb)
  settle_again previous none db = err SettlementError.market_already_settled
  settle_again previous (some key) db =
      if text_same previous.settlement_key key
      then ok (
        record {
          answer =
              to_settlement_result previous
                (list_payouts_by_settlement_id previous.settlement_id db.paid);
          idempotent = true;
        },
        db,
      )
      else err SettlementError.market_already_settled

  unfoldable pub settle_new :
      SettleInput
      → Text
      → SettlementStatus
      → Option SettlementSide
      → Option Text
      → SettlementDb
      → Settling (Answer × SettlementDb)
  settle_new input market status winner none db =
      err SettlementError.settlement_idempotency_key_required
  settle_new input market status winner (some key) db = do
    committed ←
        commit_coin_settlement host
          (record {
            input_market = market;
            input_status = status;
            input_winner = winner;
            admin_user = input.admin_user_id;
            admin_actor_id = elim input.actor_id [
              | some actor ↦ some actor
              | none ↦ elim input.admin_user_id [
                | some user ↦ some (host.uuid_text user)
                | none ↦ none
              ]
            ];
            session_id = input.session;
            input_key = key;
          })
          db
    ok (record { answer = committed.0; idempotent = false }, committed.1)

  unfoldable pub settle_found :
      SettleInput
      → Text
      → SettlementStatus
      → Option SettlementSide
      → Option Settlement
      → SettlementDb
      → Settling (Answer × SettlementDb)
  settle_found input market status winner (some previous) db =
      settle_again previous (given_key input.idempotency_key) db
  settle_found input market status winner none db =
      settle_new input market status winner (given_key input.idempotency_key) db

  unfoldable pub settle_market :
      SettleInput
      → SettlementStatus
      → Option SettlementSide
      → SettlementDb
      → Settling (Answer × SettlementDb)
  settle_market input status winner db = do
    market ← validate_market_id input.market
    settle_found input market status winner (find_by_market_id market db.settlements) db

  unfoldable pub resolve_market :
      SettleInput → Text → SettlementDb → Settling (Answer × SettlementDb)
  resolve_market input winning_side db = do
    side ← validate_winning_side winning_side
    settle_market input SettlementStatus.resolved (some side) db

  unfoldable pub cancel_market : SettleInput → SettlementDb → Settling (Answer × SettlementDb)
  cancel_market input db = settle_market input SettlementStatus.cancelled none db
