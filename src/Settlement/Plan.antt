-- ===== src/Settlement/Plan.antt =====
-- src/settlement.ts: `groupCoinPositionStakes` and `buildCoinSettlementCommit`.
use mpulse.Common.{
  ℕ, suc, ◌+◌, Bool, true, false, ◌&&◌, ◌||◌, Option, none, some, List, [], ◌∷◌, ◌++◌, map, ok, err,
  ◌>>=◌, if◌then◌else◌, ltb, ◌==◌, filter, length,
}
use mpulse.Common.Int.{ℤ, pos, ◌+ℤ◌, ◌-ℤ◌, eqb_ℤ}
use mpulse.Common.Text.{Text, codes}
use mpulse.Money.Decimal.{parse_stored_decimal_to_atomic, ParseOptions}
use mpulse.Coins.Types.{OperationType}
use mpulse.Settlement.Types.{
  SettlementStatus, SettlementSide, same_side, PayoutKind, Position, Stake, Settlement, Payout,
  Draft, CommitInput, Plan, SettlementError, Settling, Host,
}

abbrev pub share_options : ParseOptions
share_options = record { allow_negative = false; allow_zero = true }

unfoldable pub parse_shares : Text → Settling ℤ
parse_shares shares = elim (parse_stored_decimal_to_atomic shares 6 share_options) [
  | ok amount ↦ ok amount
  | err e ↦ err (SettlementError.money_error e)
]

-- The map from `${userId}:${side}` to a stake, in the order of insertion: the text determines
-- the user and the side. A stake that is there grows in place.
unfoldable pub add_stake : ℕ → SettlementSide → ℕ → ℤ → List Stake → List Stake
unfolding ◌+ℤ◌
add_stake user side stake shares [] =
    record {
      stake_user = user;
      stake_side = side;
      original_stake_coin_micros = 0 + stake;
      shares_micros = pos 0 +ℤ shares;
    }
    ∷ []
add_stake user side stake shares (s ∷ grouped) =
    if s.stake_user == user && same_side s.stake_side side
    then record s {
      original_stake_coin_micros = s.original_stake_coin_micros + stake;
      shares_micros = s.shares_micros +ℤ shares;
    }
      ∷ grouped
    else s ∷ add_stake user side stake shares grouped

-- The loop over the positions, on the map built so far.
unfoldable pub group_from : List Position → List Stake → Settling (List Stake)
group_from [] grouped = ok grouped
group_from (p ∷ positions) grouped = do
  shares ← parse_shares p.shares
  group_from positions (
      if p.total_cost_coin_micros == 0 && eqb_ℤ shares (pos 0)
      then grouped
      else add_stake p.position_user p.position_side p.total_cost_coin_micros shares grouped)

unfoldable pub group_coin_position_stakes : List Position → Settling (List Stake)
group_coin_position_stakes positions = group_from positions []

unfoldable pub total_stake : List Stake → ℕ
total_stake [] = 0
total_stake (s ∷ grouped) = s.original_stake_coin_micros + total_stake grouped

unfoldable pub total_payout : List Payout → ℕ
total_payout [] = 0
total_payout (p ∷ payouts) = p.payout_coin_micros + total_payout payouts

unfoldable pub holds_side : SettlementSide → List Stake → Bool
holds_side side [] = false
holds_side side (s ∷ grouped) = same_side s.stake_side side || holds_side side grouped

unfoldable pub has_winning_position : SettlementStatus → Option SettlementSide → List Stake → Bool
has_winning_position SettlementStatus.resolved (some winner) grouped = holds_side winner grouped
has_winning_position _ _ grouped = false

abbrev pub settled_status : SettlementStatus → SettlementStatus
settled_status SettlementStatus.resolved = SettlementStatus.no_winner
settled_status SettlementStatus.cancelled = SettlementStatus.cancelled
settled_status SettlementStatus.no_winner = SettlementStatus.no_winner

unfoldable pub side_text : SettlementSide → Text
side_text SettlementSide.yes_side = codes "yes"
side_text SettlementSide.no_side = codes "no"

abbrev pub is_positive : Payout → Bool
is_positive p = ltb 0 p.payout_coin_micros

module _ (host : Host) (input : CommitInput) where
  -- The refund of one stake; `n` counts the uuids drawn so far.
  unfoldable pub refund_payout : ℕ → Stake → Payout
  unfolding ◌-ℤ◌
  refund_payout n s = record {
    payout_id = host.random_uuid n;
    payout_settlement = host.random_uuid 0;
    payout_market = input.input_market;
    payout_user = s.stake_user;
    payout_side = s.stake_side;
    payout_stake = s.original_stake_coin_micros;
    payout_coin_micros = s.original_stake_coin_micros;
    profit_coin_micros = pos s.original_stake_coin_micros -ℤ pos s.original_stake_coin_micros;
    kind = PayoutKind.refund;
    coin_ledger_entry_id = none;
    paid_at = host.now;
  }

  unfoldable pub refund_payouts : ℕ → List Stake → List Payout
  unfolding refund_payout
  refund_payouts n [] = []
  refund_payouts n (s ∷ grouped) = refund_payout n s ∷ refund_payouts (suc n) grouped

  -- `settlement:${marketId}:${userId}:${side}`
  unfoldable pub payout_key : ℕ → SettlementSide → Text
  unfolding side_text
  payout_key user side =
      codes "settlement:"
      ++ input.input_market
      ++ codes ":"
      ++ host.uuid_text user
      ++ codes ":"
      ++ side_text side

  -- Every payout of a plan is a refund, so the branches for other kinds are not taken.
  unfoldable pub payout_draft : Payout → Draft
  payout_draft p = record {
    draft_payout = p.payout_id;
    draft_movement = record {
      user_id = p.payout_user;
      operation_type = OperationType.refund_credit;
      available_delta = pos p.payout_coin_micros;
      reserved_delta = pos 0;
      idempotency_key = payout_key p.payout_user p.payout_side;
      source_type = codes "market_settlement";
      source_id = host.uuid_text (host.random_uuid 0);
      reason = codes "Refund Coin stake after cancelled market";
      external_reference = none;
      rate_snapshot_id = none;
      admin_user_id = none;
      admin_actor = input.admin_actor_id;
      audit_metadata = host.payout_metadata p;
    };
  }

  unfoldable pub plan_settlement : List Stake → List Payout → Settlement
  plan_settlement grouped payouts = record {
    settlement_id = host.random_uuid 0;
    market_id = input.input_market;
    status = settled_status input.input_status;
    winning_side = none;
    total_pool_coin_micros = total_stake grouped;
    winning_pool_coin_micros = 0;
    platform_fee_coin_micros = 0;
    distributable_pool_coin_micros = total_payout payouts;
    payout_count = length (filter is_positive payouts);
    created_by = input.admin_user;
    settlement_key = input.input_key;
    created_at = host.now;
  }

  unfoldable pub refund_plan : List Stake → Plan
  refund_plan grouped =
      let payouts = refund_payouts 1 grouped in
      record {
        settlement = plan_settlement grouped payouts;
        payouts = payouts;
        drafts = map payout_draft (filter is_positive payouts);
      }

  unfoldable pub plan_of_stakes : List Stake → Settling Plan
  plan_of_stakes grouped =
      if has_winning_position input.input_status input.input_winner grouped
      then err SettlementError.settlement_provider_funding_unverified
      else ok (refund_plan grouped)

  unfoldable pub build_coin_settlement_commit : List Position → Settling Plan
  build_coin_settlement_commit positions = do
    grouped ← group_coin_position_stakes positions
    plan_of_stakes grouped
