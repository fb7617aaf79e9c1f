-- ===== src/Wallets/Reconciled.antt =====
-- What a reconciliation with the provider has read and written when it succeeds.
use mpulse.Common.{
  ℕ, ◌≡◌, ◌⊎◌, refl, Bool, true, false, Option, none, some, inl, inr, Result, ok, err, >>=-eq-ok,
}
use mpulse.Common.Int.{ℤ}
use mpulse.Common.Text.{Text}
use mpulse.Coins.Types.{Entry, CoinDb}
use mpulse.Coins.Repository.{get_balance, post_entry}
use mpulse.Wallets.Types.{
  Request, WalletDb, WalletError, Wallet, ProviderState, ProviderOutcome, Answer, WalletHost,
}
use mpulse.Wallets.Parse.{validate_verified_outcome}
use mpulse.Wallets.Store.{
  or_zero, required, from_ledger, find_withdrawal_for_update, update_request, find_coin_entry,
  map_withdrawal,
}
use mpulse.Wallets.Amounts.{FinalAmounts, final_amounts}
use mpulse.Wallets.Outcome.{
  must_release, post_failure, entry_of, failed_request, record_withdrawal_failure_state,
  debit_movement, completed_request, complete_withdrawal, reconcile_matched, reconcile_completed,
  reconcile_state, reconcile_found, reconcile_verified_outcome,
}
use mpulse.ExchangeRates.{UsdQuote, ExchangeRateError}
use mpulse.Wallets.Succeeded.{from_ledger-eq-ok, required-eq-ok}

-- A failure that was recorded, and perhaps released the reserve.
pub record Failed (host : WalletHost) (outcome : ProviderOutcome) (r : Request) (db db' : WalletDb)
    : Type 0 where
  pub failure : Text
  pub wants_release : Bool
  pub posted : Option Entry × CoinDb
  pub post :
      post_failure host outcome (must_release host outcome wants_release r) r db.coins ≡ ok posted
  pub coins_of : db'.coins ≡ posted.1
  pub requests_of :
      db'.requests
      ≡ update_request r.request_id
          (failed_request host outcome failure (entry_of host outcome posted.0))
          db.requests

-- A transfer that was completed, with the debit of the reserve.
pub record Completed (host : WalletHost) (outcome : ProviderOutcome) (r : Request)
    (db db' : WalletDb) : Type 0 where
  pub amounts : FinalAmounts
  pub unreleased : r.release_ledger_entry ≡ none
  pub posted : Entry × CoinDb
  pub post : post_entry (debit_movement host outcome (host.new_uuid 0) r) db.coins ≡ ok posted
  pub coins_of : db'.coins ≡ posted.1
  pub requests_of :
      db'.requests
      ≡ update_request r.request_id
          (completed_request host outcome amounts
            (host.new_uuid 0)
            (or_zero r.coin_reserved_micros)
            posted.0.entry_sequence)
          db.requests

pub data Settled (host : WalletHost) (outcome : ProviderOutcome) (r : Request) (db db' : WalletDb)
    : Type 0 where
  failed : Failed host outcome r db db' → Settled host outcome r db db'
  completed : Completed host outcome r db db' → Settled host outcome r db db'

-- A reconciliation that changed a request without a final entry.
pub record Reconciled (host : WalletHost) (id : ℕ) (db db' : WalletDb) : Type 0 where
  pub outcome : ProviderOutcome
  pub r : Request
  pub found : find_withdrawal_for_update id none db.requests ≡ some r
  pub undebited : r.final_ledger_entry ≡ none
  pub settled : Settled host outcome r db db'

module _ (host : WalletHost) (outcome : ProviderOutcome) (db : WalletDb) (out : Answer × WalletDb)
    (r : Request) where
  pub record_failure-Failed :
      (failure : Text) (release_reserve held : Bool)
      → record_withdrawal_failure_state host outcome failure release_reserve held r db ≡ ok out
      → Failed host outcome r db out.1
  unfolding record_withdrawal_failure_state
  record_failure-Failed failure release_reserve held h =
      let (posted, post, h1) =
        >>=-eq-ok
          (post_failure host outcome (must_release host outcome release_reserve r) r db.coins) _
          h in
      let (saved, mapped, h2) =
        >>=-eq-ok
          (map_withdrawal (failed_request host outcome failure (entry_of host outcome posted.0) r))
          _ h1 in
      let (balance, read, h3) =
        >>=-eq-ok (from_ledger (get_balance r.request_user posted.1)) _ h2 in
      record {
        failure = failure;
        wants_release = release_reserve;
        posted = posted;
        post = post;
        coins_of = cc;
        requests_of = cc;
      }

  complete-Completed :
      (amounts : FinalAmounts)
      → r.release_ledger_entry ≡ none
      → complete_withdrawal host outcome amounts r db ≡ ok out
      → Completed host outcome r db out.1
  unfolding complete_withdrawal
  complete-Completed amounts unreleased h =
      let (posted, post, h1) =
        >>=-eq-ok
          (from_ledger (post_entry (debit_movement host outcome (host.new_uuid 0) r) db.coins)) _
          h in
      let (saved, mapped, h2) =
        >>=-eq-ok
          (map_withdrawal (
            completed_request host outcome amounts (host.new_uuid 0)
              (or_zero r.coin_reserved_micros) posted.0.entry_sequence r))
          _ h1 in
      let (balance, read, h3) =
        >>=-eq-ok (from_ledger (get_balance r.request_user posted.1)) _ h2 in
      record {
        amounts = amounts;
        unreleased = unreleased;
        posted = posted;
        post = from_ledger-eq-ok _ posted post;
        coins_of = cc;
        requests_of = cc;
      }

  reconcile_matched-Settled :
      (release : Option ℕ) (amounts : Wallet FinalAmounts)
      → r.release_ledger_entry ≡ release
      → reconcile_matched host outcome release amounts r db ≡ ok out
      → Settled host outcome r db out.1
  unfolding reconcile_matched
  reconcile_matched-Settled release (err e) known h = cc
  reconcile_matched-Settled (some entry) (ok amounts) known h =
      Settled.failed (record_failure-Failed _ false false h)
  reconcile_matched-Settled none (ok amounts) known h =
      Settled.completed (complete-Completed amounts known h)

  reconcile_completed-Settled :
      (mismatch : Option Text) (amounts : Wallet FinalAmounts)
      → reconcile_completed host outcome mismatch amounts r db ≡ ok out
      → Settled host outcome r db out.1
  unfolding reconcile_completed
  reconcile_completed-Settled (some reason) amounts h =
      Settled.failed (record_failure-Failed reason false true h)
  reconcile_completed-Settled none amounts h = reconcile_matched-Settled _ amounts refl h

  reconcile_state-Settled :
      (state : ProviderState) (amounts : Wallet FinalAmounts)
      → reconcile_state host outcome state amounts r db ≡ ok out
      → Settled host outcome r db out.1
  unfolding reconcile_state
  reconcile_state-Settled ProviderState.unknown amounts h =
      Settled.failed (record_failure-Failed _ false true h)
  reconcile_state-Settled ProviderState.provider_failed amounts h =
      Settled.failed (record_failure-Failed _ true false h)
  reconcile_state-Settled ProviderState.completed amounts h =
      reconcile_completed-Settled _ amounts h

  reconcile_found-Reconciled :
      (id : ℕ) (final : Option ℕ) (amounts : Wallet FinalAmounts)
      → find_withdrawal_for_update id none db.requests ≡ some r
      → r.final_ledger_entry ≡ final
      → reconcile_found host outcome final amounts r db ≡ ok out
      → (out.1 ≡ db) ⊎ Reconciled host id db out.1
  unfolding reconcile_found
  reconcile_found-Reconciled id (some entry) amounts found known h =
      let (saved, mapped, h1) = >>=-eq-ok (map_withdrawal r) _ h in
      let (e, looked_up, h2) = >>=-eq-ok (find_coin_entry entry db.coins) _ h1 in inl (cc)
  reconcile_found-Reconciled id none amounts found known h = inr (record {
    outcome = outcome;
    r = r;
    found = found;
    undebited = known;
    settled = reconcile_state-Settled outcome.state amounts h;
  })

pub reconcile-Reconciled :
    (host : WalletHost) (rate_ttl : ℤ) (fetched : ℤ → Result ExchangeRateError UsdQuote) (id : ℕ)
    (given : ProviderOutcome) (before db : WalletDb) (out : Answer × WalletDb)
    → reconcile_verified_outcome host rate_ttl fetched id given before db ≡ ok out
    → (out.1 ≡ db) ⊎ Reconciled host id db out.1
unfolding reconcile_verified_outcome
reconcile-Reconciled host rate_ttl fetched id given before db out h =
    let (outcome, valid, h1) =
      >>=-eq-ok (validate_verified_outcome (host.date_parse given.observed_at) given) _ h in
    let (initial, first, h2) =
      >>=-eq-ok
        (required WalletError.withdrawal_not_found
          (find_withdrawal_for_update id none before.requests))
        _ h1 in
    let (r, found, h3) =
      >>=-eq-ok
        (required WalletError.withdrawal_not_found (find_withdrawal_for_update id none db.requests))
        _ h2 in
    reconcile_found-Reconciled host outcome db out r id _
      (final_amounts host rate_ttl fetched outcome initial) (required-eq-ok _ _ r found) refl h3
