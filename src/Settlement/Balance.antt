-- ===== src/Settlement/Balance.antt =====
-- A plan pays out exactly the stakes, and never pays a winning side.
use mpulse.Common.{
  ℕ, suc, ◌≡◌, ◌≢◌, refl, ◌∙◌, false, none, some, List, [], ◌∷◌, inl, inr, ok, arith, Bool-cases,
  >>=-eq-ok,
}
use mpulse.Settlement.Types.{
  SettlementStatus, SettlementSide, Position, Stake, CommitInput, Plan, Host,
}
use mpulse.Settlement.Plan.{
  refund_payouts, plan_settlement, plan_of_stakes, refund_plan, holds_side, settled_status,
  has_winning_position, build_coin_settlement_commit, group_coin_position_stakes, total_stake,
  total_payout,
}
use mpulse.Settlement.Stakes.{total_cost, side_cost, side_stake, Groups, group-Groups}

module _ (host : Host) (input : CommitInput) where
  total_payout-refund_payouts :
      (n : ℕ) (grouped : List Stake)
      → total_payout (refund_payouts host input n grouped) ≡ total_stake grouped
  unfolding refund_payouts total_payout total_stake
  total_payout-refund_payouts n [] = refl
  total_payout-refund_payouts n (s ∷ grouped) =
      omega (arith, total_payout-refund_payouts (suc n) grouped)

  -- The stakes behind a plan that was built.
  pub record Planned (positions : List Position) (plan : Plan) : Type 0 where
    pub grouped : List Stake
    pub groups : Groups positions [] grouped
    pub no_winner : has_winning_position input.input_status input.input_winner grouped ≡ false
    pub plan_of : plan ≡ refund_plan host input grouped

  plan_of_stakes-eq-ok :
      (grouped : List Stake) (plan : Plan)
      → plan_of_stakes host input grouped ≡ ok plan
      → (has_winning_position input.input_status input.input_winner grouped ≡ false)
        × (plan ≡ refund_plan host input grouped)
  unfolding plan_of_stakes
  plan_of_stakes-eq-ok grouped plan h =
      elim (Bool-cases (has_winning_position input.input_status input.input_winner grouped)) [
        | inl wins ↦ absurd (ground arith)
        | inr none_wins ↦ (none_wins, ground arith)
      ]

  pub build-Planned :
      (positions : List Position) (plan : Plan)
      → build_coin_settlement_commit host input positions ≡ ok plan
      → Planned positions plan
  unfolding build_coin_settlement_commit
  build-Planned positions plan h =
      let (grouped, found, built) = >>=-eq-ok (group_coin_position_stakes positions) _ h in
      let (no_winner, plan_of) = plan_of_stakes-eq-ok grouped plan built in
      record {
        grouped = grouped;
        groups = group-Groups positions grouped found;
        no_winner = no_winner;
        plan_of = plan_of;
      }

-- A side that nobody holds has no stake.
holds_side-side_stake :
    (side : SettlementSide) (grouped : List Stake)
    → holds_side side grouped ≡ false
    → side_stake side grouped ≡ 0
unfolding holds_side
holds_side-side_stake side [] h = refl
holds_side-side_stake side (s ∷ grouped) h = ground (arith, holds_side-side_stake side grouped)

settled_status-ne : (status : SettlementStatus) → settled_status status ≢ SettlementStatus.resolved
settled_status-ne SettlementStatus.resolved = λ e. cc
settled_status-ne SettlementStatus.cancelled = λ e. cc
settled_status-ne SettlementStatus.no_winner = λ e. cc

-- A plan that is built pays out exactly its pool, which is what the positions cost in total; it
-- takes no fee, names no winner and is not marked resolved.
pub plan_balances :
    (host : Host) (input : CommitInput) (positions : List Position) (plan : Plan)
    → build_coin_settlement_commit host input positions ≡ ok plan
    → (total_payout plan.payouts ≡ plan.settlement.total_pool_coin_micros)
      × (plan.settlement.total_pool_coin_micros ≡ total_cost positions)
      × (plan.settlement.platform_fee_coin_micros ≡ 0)
      × (plan.settlement.winning_side ≡ none)
      × (plan.settlement.status ≢ SettlementStatus.resolved)
unfolding refund_plan plan_settlement
plan_balances host input positions plan h =
    let planned = build-Planned host input positions plan h in
    rw planned.plan_of (
      total_payout-refund_payouts host input 1 planned.grouped,
      planned.groups.total ∙ (unfold total_stake in omega arith),
      refl,
      refl,
      settled_status-ne input.input_status,
    )

-- A market is planned as resolved for a side only where nobody has paid for that side: payouts to
-- winners are blocked.
pub no_payout_to_winners :
    (host : Host) (input : CommitInput) (winner : SettlementSide) (positions : List Position)
    (plan : Plan)
    → input.input_status ≡ SettlementStatus.resolved
    → input.input_winner ≡ some winner
    → build_coin_settlement_commit host input positions ≡ ok plan
    → side_cost winner positions ≡ 0
unfolding has_winning_position
no_payout_to_winners host input winner positions plan resolved side h =
    let planned = build-Planned host input positions plan h in
    let unheld : holds_side winner planned.grouped ≡ false =
      rw (resolved, side) at planned.no_winner in
    omega
      (arith, planned.groups.per_side winner, holds_side-side_stake winner planned.grouped unheld)
