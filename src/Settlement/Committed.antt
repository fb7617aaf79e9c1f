-- ===== src/Settlement/Committed.antt =====
-- What a commit that succeeded has read and written, and whom it has paid.
use mpulse.Common.{
  ℕ, ◌+◌, ◌≡◌, refl, sym, ap, ◌∙◌, false, not, none, List, [], ◌∷◌, map, inl, inr, ok, arith,
  Bool-cases, >>=-eq-ok, throw_if-eq-ok, throw_if, filter, ltb, length,
}
use mpulse.Common.Int.{ℤ, pos, ◌+ℤ◌}
use mpulse.Coins.Types.{CoinDb}
use mpulse.Coins.Posting.{find_entry}
use mpulse.Coins.Accounts.{amounts_of}
use mpulse.Settlement.Types.{
  SettlementSide, Position, CommitInput, Plan, SettlementResult, SettlementDb, SettlementError,
  Host,
}
use mpulse.Settlement.Plan.{payout_key, build_coin_settlement_commit, refund_plan}
use mpulse.Settlement.Commit.{
  blocks_settlement, lock_market_and_assert_no_active_executions, comes_before, insert_position,
  order_positions, of_market, load_coin_position_snapshot, clashes, insert_settlement, post_drafts,
  with_entry, to_settlement_result, commit_settlement_in_transaction,
  assert_settlement_commit_result, no_positions, commit_coin_settlement,
}
use mpulse.Settlement.Stakes.{user_cost}
use mpulse.Settlement.Balance.{build-Planned}
use mpulse.Settlement.Refunds.{drafts_of, post_drafts-pays}

module _ (host : Host) (input : CommitInput) (db : SettlementDb) where
  -- The steps of a commit that succeeded.
  pub record Committed (out : SettlementResult × SettlementDb) : Type 0 where
    pub plan : Plan
    pub posted : List (ℕ × ℕ) × CoinDb
    pub unblocked :
        ltb 0 (length (filter (blocks_settlement input.input_market) db.executions)) ≡ false
    pub held : no_positions (load_coin_position_snapshot input.input_market db.positions) ≡ false
    pub built :
        build_coin_settlement_commit host input
          (load_coin_position_snapshot input.input_market db.positions)
        ≡ ok plan
    pub unsettled : clashes plan.settlement db.settlements ≡ false
    pub paid_out : post_drafts plan.drafts [] db.coins ≡ ok posted
    pub complete : assert_settlement_commit_result plan out.0 ≡ ok tt
    pub result_of :
        out.0 ≡ to_settlement_result plan.settlement (map (with_entry posted.0) plan.payouts)
    pub coins_of : out.1.coins ≡ posted.1
    pub settlements_of : out.1.settlements ≡ plan.settlement ∷ db.settlements
    pub positions_of :
        out.1.positions ≡ filter (λ p. not (of_market plan.settlement.market_id p)) db.positions

  -- The steps of the transaction that succeeded.
  record Written (plan : Plan) (out : SettlementResult × SettlementDb) : Type 0 where
    posted : List (ℕ × ℕ) × CoinDb
    unsettled : clashes plan.settlement db.settlements ≡ false
    paid_out : post_drafts plan.drafts [] db.coins ≡ ok posted
    result_of :
        out.0 ≡ to_settlement_result plan.settlement (map (with_entry posted.0) plan.payouts)
    coins_of : out.1.coins ≡ posted.1
    settlements_of : out.1.settlements ≡ plan.settlement ∷ db.settlements
    positions_of :
        out.1.positions ≡ filter (λ p. not (of_market plan.settlement.market_id p)) db.positions

  insert_settlement-eq-ok :
      (plan : Plan) {rows : _}
      → insert_settlement plan.settlement db.settlements ≡ ok rows
      → (clashes plan.settlement db.settlements ≡ false) × (rows ≡ plan.settlement ∷ db.settlements)
  unfolding insert_settlement
  insert_settlement-eq-ok plan h =
      let (u, unsettled, h1) =
        >>=-eq-ok
          (throw_if (clashes plan.settlement db.settlements) SettlementError.market_already_settled)
          _ h in
      (throw_if-eq-ok _ SettlementError.market_already_settled unsettled, cc)

  transaction-Written :
      (plan : Plan) (out : SettlementResult × SettlementDb)
      → commit_settlement_in_transaction host input plan db ≡ ok out
      → Written plan out
  unfolding commit_settlement_in_transaction
  transaction-Written plan out h =
      let (rows, inserted, h1) = >>=-eq-ok (insert_settlement plan.settlement db.settlements) _ h in
      let (posted, paid_out, h2) = >>=-eq-ok (post_drafts plan.drafts [] db.coins) _ h1 in
      let (unsettled, grown) = insert_settlement-eq-ok plan inserted in
      record {
        posted = posted;
        unsettled = unsettled;
        paid_out = paid_out;
        result_of = cc;
        coins_of = cc;
        settlements_of = cc;
        positions_of = cc;
      }

  pub commit-Committed :
      (out : SettlementResult × SettlementDb)
      → commit_coin_settlement host input db ≡ ok out
      → Committed out
  unfolding commit_coin_settlement lock_market_and_assert_no_active_executions
  commit-Committed out h =
      let snapshot = load_coin_position_snapshot input.input_market db.positions in
      let (u, unblocked, h1) =
        >>=-eq-ok
          (throw_if (ltb 0 (length (filter (blocks_settlement input.input_market) db.executions)))
            SettlementError.settlement_executions_pending)
          _ h in
      let (v, held, h2) =
        >>=-eq-ok (throw_if (no_positions snapshot) SettlementError.no_settlement_positions) _ h1 in
      let (plan, built, h3) = >>=-eq-ok (build_coin_settlement_commit host input snapshot) _ h2 in
      let (committed, written, h4) =
        >>=-eq-ok (commit_settlement_in_transaction host input plan db) _ h3 in
      let (w, complete, h5) = >>=-eq-ok (assert_settlement_commit_result plan committed.0) _ h4 in
      let same : committed ≡ out = cc in
      let steps = transaction-Written plan out (written ∙ ap ok same) in
      record {
        plan = plan;
        posted = steps.posted;
        unblocked = throw_if-eq-ok _ SettlementError.settlement_executions_pending unblocked;
        held = throw_if-eq-ok _ SettlementError.no_settlement_positions held;
        built = built;
        unsettled = steps.unsettled;
        paid_out = steps.paid_out;
        complete =
            ap (λ (r : SettlementResult × SettlementDb). assert_settlement_commit_result plan r.0)
              (sym same)
            ∙ complete;
        result_of = steps.result_of;
        coins_of = steps.coins_of;
        settlements_of = steps.settlements_of;
        positions_of = steps.positions_of;
      }

user_cost-insert :
    (u : ℕ) (p : Position) (ps : List Position)
    → user_cost u (insert_position p ps) ≡ user_cost u (p ∷ ps)
unfolding insert_position
user_cost-insert u p [] = refl
user_cost-insert u p (q ∷ ps) = elim (Bool-cases (comes_before q p)) [
  | inl later ↦ rw later (omega (arith, user_cost-insert u p ps))
  | inr here ↦ rw here refl
]

user_cost-order : (u : ℕ) (ps : List Position) → user_cost u (order_positions ps) ≡ user_cost u ps
unfolding order_positions
user_cost-order u [] = refl
user_cost-order u (p ∷ ps) =
    omega (arith, user_cost-insert u p (order_positions ps), user_cost-order u ps)

user_cost-snapshot :
    (input : CommitInput) (db : SettlementDb) (u x : ℕ)
    → x ≡ 0 + user_cost u (load_coin_position_snapshot input.input_market db.positions)
    → x ≡ user_cost u (filter (of_market input.input_market) db.positions)
unfolding load_coin_position_snapshot
user_cost-snapshot input db u x h =
    omega (arith, h, user_cost-order u (filter (of_market input.input_market) db.positions))

-- A commit that succeeds, where no key of the market's payouts was used before, adds to every
-- user's available balance exactly what the user's positions in the market cost, both sides
-- together, and leaves every reserved balance.
pub commit_refunds_costs :
    (host : Host) (input : CommitInput) (db : SettlementDb) (out : SettlementResult × SettlementDb)
    → ((user : ℕ) (side : SettlementSide)
        → find_entry user (payout_key host input user side) db.coins.entries ≡ none)
    → commit_coin_settlement host input db ≡ ok out
    → (user : ℕ)
    → ◌≡◌ {A = ℤ × ℤ} (amounts_of user out.1.coins.accounts) (
      (amounts_of user db.coins.accounts).0
          +ℤ pos (user_cost user (filter (of_market input.input_market) db.positions)),
      (amounts_of user db.coins.accounts).1,
    )
unfolding refund_plan
commit_refunds_costs host input db out unused h user =
    let steps = commit-Committed host input db out h in
    let planned =
      build-Planned host input (load_coin_position_snapshot input.input_market db.positions)
        steps.plan steps.built in
    let drafts : post_drafts (drafts_of host input 1 planned.grouped) [] db.coins
        ≡ ok steps.posted =
      ap (λ (p : Plan). post_drafts p.drafts [] db.coins) (sym planned.plan_of) ∙ steps.paid_out in
    let pays =
      post_drafts-pays host input 1 planned.grouped [] db.coins steps.posted
        (planned.groups.distinct tt) (λ u side held. unused u side) drafts user in
    let cost = user_cost-snapshot input db user _ (planned.groups.per_user user) in
    ap (λ (c : CoinDb). amounts_of user c.accounts) steps.coins_of
    ∙ pays
    ∙ ap
        (λ (x : ℕ).
          ((amounts_of user db.coins.accounts).0 +ℤ pos x, (amounts_of user db.coins.accounts).1))
        cost
