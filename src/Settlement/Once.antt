-- ===== src/Settlement/Once.antt =====
-- What a request that settles a market leaves on record, and that it can be sent again.
use mpulse.Common.{
  ◌≡◌, refl, sym, ap, ◌∙◌, true, Option, none, some, ◌∷◌, inl, inr, ok, err, Bool-cases, >>=-eq-ok,
  throw_if,
}
use mpulse.Common.Text.{Text, trim, is_empty}
use mpulse.Common.Equality.{from_dec→eq, eq→from_dec, Text-discrete}
use mpulse.Settlement.Types.{
  SettlementSide, SettlementStatus, Settlement, CommitInput, Plan, SettlementResult, SettlementDb,
  SettlementError, Settling, Host,
}
use mpulse.Settlement.Plan.{refund_plan, plan_settlement}
use mpulse.Settlement.Commit.{
  text_same, to_settlement_result, load_coin_position_snapshot, commit_coin_settlement,
}
use mpulse.Settlement.Service.{
  Answer, SettleInput, validate_market_id, find_by_market_id, list_payouts_by_settlement_id,
  given_key, settle_again, settle_new, settle_found, settle_market,
}
use mpulse.Settlement.Balance.{build-Planned}
use mpulse.Settlement.Committed.{commit-Committed}

text_same_refl : (a : Text) → text_same a a ≡ true
text_same_refl a = eq→from_dec (Text-discrete a a) refl

refused_or_ok : {A : Type 0} {e : SettlementError} {a : A} → ◌≡◌ {A = Settling A} (err e) (ok a) → ⊥
refused_or_ok h = cc

module _ (host : Host) where
  -- A commit settles the market that it was asked for, under the given key.
  pub commit-market :
      (input : CommitInput) (db : SettlementDb) (out : SettlementResult × SettlementDb)
      → commit_coin_settlement host input db ≡ ok out
      → (out.1.settlements ≡ out.0.result_settlement ∷ db.settlements)
        × (out.0.result_settlement.market_id ≡ input.input_market)
        × (out.0.result_settlement.settlement_key ≡ input.input_key)
  unfolding to_settlement_result refund_plan plan_settlement
  commit-market input db out h =
      let steps = commit-Committed host input db out h in
      let planned =
        build-Planned host input (load_coin_position_snapshot input.input_market db.positions)
          steps.plan steps.built in
      let made : out.0.result_settlement ≡ steps.plan.settlement =
        ap (λ (r : SettlementResult). r.result_settlement) steps.result_of in
      (
        steps.settlements_of ∙ ap (λ s. s ∷ db.settlements) (sym made),
        ap (λ (s : Settlement). s.market_id) made
            ∙ ap (λ (p : Plan). p.settlement.market_id) planned.plan_of,
        ap (λ (s : Settlement). s.settlement_key) made
            ∙ ap (λ (p : Plan). p.settlement.settlement_key) planned.plan_of,
      )

  -- The settlement of the market is on record, under the key of the request.
  pub record Settled (key : Option Text) (market : Text) (a : Answer × SettlementDb) : Type 0 where
    pub on_record : find_by_market_id market a.1.settlements ≡ some a.0.answer.result_settlement
    pub under_key : given_key key ≡ some a.0.answer.result_settlement.settlement_key

  settle_new-Settled :
      (input : SettleInput) (market : Text) (status : SettlementStatus)
      (winner : Option SettlementSide) (key : Option Text) (db : SettlementDb)
      (a : Answer × SettlementDb)
      → settle_new host input market status winner key db ≡ ok a
      → (find_by_market_id market a.1.settlements ≡ some a.0.answer.result_settlement)
        × (key ≡ some a.0.answer.result_settlement.settlement_key)
  unfolding settle_new find_by_market_id
  settle_new-Settled input market status winner none db a h = cc
  settle_new-Settled input market status winner (some key) db a h =
      let (committed, done, rest) = >>=-eq-ok (commit_coin_settlement host _ db) _ h in
      let (rows, its_market, its_key) = commit-market _ db committed done in
      let ea : committed.0 ≡ a.0.answer = cc in
      let ed : committed.1 ≡ a.1 = cc in
      let found : find_by_market_id market committed.1.settlements
          ≡ some committed.0.result_settlement =
        rw rows (rw its_market (rw (text_same_refl market) refl)) in
      (
        ap (λ (d : SettlementDb). find_by_market_id market d.settlements) (sym ed)
            ∙ found
            ∙ ap (λ (r : SettlementResult). some r.result_settlement) ea,
        ap some
            (sym its_key ∙ ap (λ (r : SettlementResult). r.result_settlement.settlement_key) ea),
      )

  pub settle_again-Settled :
      (previous : Settlement) (key : Option Text) (db : SettlementDb) (a : Answer × SettlementDb)
      → settle_again host previous key db ≡ ok a
      → (a.1 ≡ db)
        × (a.0.idempotent ≡ true)
        × (a.0.answer.result_settlement ≡ previous)
        × (key ≡ some previous.settlement_key)
  unfolding settle_again to_settlement_result
  settle_again-Settled previous none db a h = cc
  settle_again-Settled previous (some key) db a h =
      elim (Bool-cases (text_same previous.settlement_key key)) [
        | inl same ↦
            let h' = rw same at h in
            (
              cc,
              cc,
              cc,
              ap some (sym (from_dec→eq (Text-discrete previous.settlement_key key) same)),
            )
        | inr other ↦ absurd (refused_or_ok (rw other at h))
      ]

  settle_found-Settled :
      (input : SettleInput) (market : Text) (status : SettlementStatus)
      (winner : Option SettlementSide) (found : Option Settlement) (db : SettlementDb)
      (a : Answer × SettlementDb)
      → find_by_market_id market db.settlements ≡ found
      → settle_found host input market status winner found db ≡ ok a
      → Settled input.idempotency_key market a
  unfolding settle_found
  settle_found-Settled input market status winner (some previous) db a e h =
      let (same, replayed, its, key) =
        settle_again-Settled previous (given_key input.idempotency_key) db a h in
      record {
        on_record =
            ap (λ (d : SettlementDb). find_by_market_id market d.settlements) same
            ∙ e
            ∙ ap some (sym its);
        under_key = key ∙ ap (λ (s : Settlement). some s.settlement_key) (sym its);
      }
  settle_found-Settled input market status winner none db a e h =
      let (found, key) =
        settle_new-Settled input market status winner (given_key input.idempotency_key) db a h in
      record { on_record = found; under_key = key }

  valid_market : (value market : Text) → validate_market_id value ≡ ok market → market ≡ trim value
  unfolding validate_market_id
  valid_market value market h =
      let (u, filled, rest) =
        >>=-eq-ok (throw_if (is_empty (trim value)) SettlementError.invalid_settlement_request) _
          h in
      cc

  pub settle_market-Settled :
      (input : SettleInput) (status : SettlementStatus) (winner : Option SettlementSide)
      (db : SettlementDb) (a : Answer × SettlementDb)
      → settle_market host input status winner db ≡ ok a
      → (validate_market_id input.market ≡ ok (trim input.market))
        × Settled input.idempotency_key (trim input.market) a
  unfolding settle_market
  settle_market-Settled input status winner db a h =
      let (market, valid, rest) = >>=-eq-ok (validate_market_id input.market) _ h in
      let e = valid_market input.market market valid in
      (valid ∙ ap ok e, rw e at (settle_found-Settled input market status winner _ db a refl rest))

-- A request that has settled a market can be sent again: it is answered, with the same settlement
-- and with nothing changed.
pub retry_answered :
    (host : Host) (input : SettleInput) (status : SettlementStatus) (winner : Option SettlementSide)
    (db : SettlementDb) (a : Answer × SettlementDb)
    → settle_market host input status winner db ≡ ok a
    → (b : Answer) × (settle_market host input status winner a.1 ≡ ok (b, a.1))
      × (b.idempotent ≡ true)
      × (b.answer.result_settlement ≡ a.0.answer.result_settlement)
unfolding settle_market settle_found settle_again to_settlement_result
retry_answered host input status winner db a h =
    let (valid, settled) = settle_market-Settled host input status winner db a h in
    (
      record {
        answer =
            to_settlement_result a.0.answer.result_settlement
              (list_payouts_by_settlement_id a.0.answer.result_settlement.settlement_id a.1.paid);
        idempotent = true;
      },
      rw (valid, settled.on_record, settled.under_key)
          (rw (text_same_refl a.0.answer.result_settlement.settlement_key) refl),
      refl,
      refl,
    )
