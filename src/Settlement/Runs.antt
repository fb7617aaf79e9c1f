-- ===== src/Settlement/Runs.antt =====
-- A market is settled once: a later request gets the first result again, or is refused.
use mpulse.Common.{
  ◌≡◌, ◌≢◌, refl, sym, ap, ◌∙◌, true, Option, none, some, inl, inr, ok, Bool-cases, >>=-eq-ok,
}
use mpulse.Common.Text.{Text, trim}
use mpulse.Common.Equality.{from_dec→eq, Text-discrete}
use mpulse.Settlement.Types.{SettlementSide, SettlementStatus, Settlement, SettlementDb, Host}
use mpulse.Settlement.Commit.{text_same, commit_coin_settlement}
use mpulse.Settlement.Service.{
  Answer, SettleInput, validate_market_id, find_by_market_id, given_key, settle_again, settle_new,
  settle_found, settle_market,
}
use mpulse.Settlement.Once.{commit-market, settle_again-Settled, settle_market-Settled}

text_same_eq : (a b : Text) → text_same a b ≡ true → a ≡ b
text_same_eq a b h = from_dec→eq (Text-discrete a b) h

none-some : {A : Type 0} {a : A} → ◌≢◌ {A = Option A} none (some a)
none-some h = cc

-- A settlement that is on record stays so, whatever is settled next.
module _ (host : Host) (input : SettleInput) (status : SettlementStatus)
    (winner : Option SettlementSide) (db : SettlementDb) (a : Answer × SettlementDb) (market : Text)
    (s : Settlement) (on_record : find_by_market_id market db.settlements ≡ some s) where
  settle_new-keeps :
      (other : Text) (key : Option Text)
      → find_by_market_id other db.settlements ≡ none
      → settle_new host input other status winner key db ≡ ok a
      → find_by_market_id market a.1.settlements ≡ some s
  unfolding settle_new find_by_market_id
  settle_new-keeps other none unsettled h = cc
  settle_new-keeps other (some key) unsettled h =
      let (committed, done, rest) = >>=-eq-ok (commit_coin_settlement host _ db) _ h in
      let (rows, its_market, its_key) = commit-market host _ db committed done in
      let ed : committed.1 ≡ a.1 = cc in
      ap (λ (d : SettlementDb). find_by_market_id market d.settlements) (sym ed)
      ∙ rw rows (elim (Bool-cases (text_same committed.0.result_settlement.market_id market)) [
        | inl same ↦
            let e : other ≡ market = sym its_market ∙ text_same_eq _ _ same in
            absurd (none-some (sym (rw e at unsettled) ∙ on_record))
        | inr differs ↦ rw differs on_record
      ])

  settle_found-keeps :
      (other : Text) (found : Option Settlement)
      → find_by_market_id other db.settlements ≡ found
      → settle_found host input other status winner found db ≡ ok a
      → find_by_market_id market a.1.settlements ≡ some s
  unfolding settle_found
  settle_found-keeps other (some previous) e h =
      let again = settle_again-Settled host previous (given_key input.idempotency_key) db a h in
      ap (λ (d : SettlementDb). find_by_market_id market d.settlements) again.0 ∙ on_record
  settle_found-keeps other none e h = settle_new-keeps other (given_key input.idempotency_key) e h

  settle_market-keeps :
      settle_market host input status winner db ≡ ok a
      → find_by_market_id market a.1.settlements ≡ some s
  unfolding settle_market
  settle_market-keeps h =
      let (other, valid, rest) = >>=-eq-ok (validate_market_id input.market) _ h in
      settle_found-keeps other _ refl rest

-- What may happen between two requests: settlements of any markets by any hosts, and changes that
-- leave the table of settlements, such as positions that are taken.
pub data SettlementRun : SettlementDb → SettlementDb → Type 0 where
  done : {db : SettlementDb} → SettlementRun db db
  settles :
      {db last : SettlementDb} (host : Host) (input : SettleInput) (status : SettlementStatus)
      (winner : Option SettlementSide) (a : Answer × SettlementDb)
      → settle_market host input status winner db ≡ ok a
      → SettlementRun a.1 last
      → SettlementRun db last
  leaves :
      {db next last : SettlementDb}
      → next.settlements ≡ db.settlements
      → SettlementRun next last
      → SettlementRun db last

run-keeps :
    {db last : SettlementDb} (market : Text) (s : Settlement)
    → SettlementRun db last
    → find_by_market_id market db.settlements ≡ some s
    → find_by_market_id market last.settlements ≡ some s
run-keeps market s SettlementRun.done on_record = on_record
run-keeps {db = db} market s (SettlementRun.settles host input status winner a made rest)
      on_record =
    run-keeps market s rest
      (settle_market-keeps host input status winner db a market s on_record made)
run-keeps market s (SettlementRun.leaves same rest) on_record =
    run-keeps market s rest (ap (find_by_market_id market) same ∙ on_record)

-- Once a request has settled a market or was answered with its settlement, and after any number of
-- settlements of any markets and of changes that leave the table of settlements, every request for
-- the same market that is answered changes nothing and returns that settlement, marked as
-- idempotent, whatever it asks for and whichever clock and identifiers it is run with.
pub market_settled_once :
    (host later : Host) (first second : SettleInput) (status status' : SettlementStatus)
    (winner winner' : Option SettlementSide) (db last : SettlementDb) (a b : Answer × SettlementDb)
    → trim first.market ≡ trim second.market
    → settle_market host first status winner db ≡ ok a
    → SettlementRun a.1 last
    → settle_market later second status' winner' last ≡ ok b
    → (b.1 ≡ last)
      × (b.0.idempotent ≡ true)
      × (b.0.answer.result_settlement ≡ a.0.answer.result_settlement)
unfolding settle_market settle_found
market_settled_once host later first second status status' winner winner' db last a b same h run k =
    let settled = (settle_market-Settled host first status winner db a h).1 in
    let valid = (settle_market-Settled later second status' winner' last b k).0 in
    let on_record = run-keeps (trim second.market) _ run (rw same at settled.on_record) in
    let again : settle_again later a.0.answer.result_settlement (given_key second.idempotency_key)
          last
        ≡ ok b =
      rw (valid, on_record) at k in
    let (db_same, replayed, its, key) =
      settle_again-Settled later a.0.answer.result_settlement (given_key second.idempotency_key)
        last b again in
    (db_same, replayed, its)
