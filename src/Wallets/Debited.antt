-- ===== src/Wallets/Debited.antt =====
-- A reconciliation debits a request only where it accepts the provider's outcome.
use mpulse.Common.{
  ℕ, ◌≡◌, ◌⊎◌, refl, ap, ◌∙◌, Bool, true, false, Option, none, some, List, [], ◌∷◌, map, inl, inr,
  Result, ok, err, filter, ◌==◌, Bool-cases, >>=-eq-ok,
}
use mpulse.Common.Int.{ℤ}
use mpulse.Common.Text.{Text}
use mpulse.Common.Equality.{from_dec}
use mpulse.Coins.Types.{OperationType, OperationType-discrete, Entry, CoinDb}
use mpulse.Coins.Posting.{record_movement}
use mpulse.Coins.Outcome.{Outcome, post_ledger_entry-Outcome}
use mpulse.Coins.Effects.{post_entry-eq-ok}
use mpulse.Coins.Repository.{get_balance, post_entry}
use mpulse.ExchangeRates.{UsdQuote, ExchangeRateError}
use mpulse.Wallets.Types.{
  Request, WalletDb, WalletError, Wallet, ProviderState, ProviderOutcome, Answer, WalletHost,
}
use mpulse.Wallets.Parse.{validate_verified_outcome}
use mpulse.Wallets.Store.{
  required, from_ledger, find_withdrawal_for_update, update_request, find_coin_entry,
  map_withdrawal,
}
use mpulse.Wallets.Amounts.{FinalAmounts, final_amounts}
use mpulse.Wallets.Outcome.{
  post_failure, failure_movement, failed_request, debit_movement, complete_withdrawal,
  reconcile_matched, reconcile_completed, reconcile_state, reconcile_found,
  reconcile_verified_outcome,
}
use mpulse.Wallets.Succeeded.{from_ledger-eq-ok}
use mpulse.Wallets.Reconciled.{Failed, record_failure-Failed}
use mpulse.Wallets.Accepted.{Agreed, accepted-Agreed}

-- The debits of withdrawals in a ledger.
abbrev pub is_withdrawal_debit : Entry → Bool
is_withdrawal_debit e =
    from_dec (OperationType-discrete e.movement.operation_type OperationType.withdrawal_debit)

abbrev pub debit_entries : List Entry → List Entry
debit_entries entries = filter is_withdrawal_debit entries

-- The debits that the requests record.
abbrev pub debits_of : List Request → List (Option ℕ × Option ℕ)
debits_of requests = map (λ r. (r.final_ledger_entry, r.coin_debited_micros)) requests

-- No withdrawal is debited, in the ledger and in the requests.
pub record IsUndebited (db db' : WalletDb) : Type 0 where
  pub ledger : debit_entries db'.coins.entries ≡ debit_entries db.coins.entries
  pub requests : debits_of db'.requests ≡ debits_of db.requests

same_IsUndebited : (db db' : WalletDb) → db' ≡ db → IsUndebited db db'
same_IsUndebited db db' same = record { ledger = rw same refl; requests = rw same refl }

-- A release posts no debit.
failure-debit_entries :
    (host : WalletHost) (outcome : ProviderOutcome) (r : Request) (coins : CoinDb)
    (p : Entry × CoinDb)
    → Outcome (failure_movement host outcome r) coins p
    → debit_entries p.1.entries ≡ debit_entries coins.entries
unfolding failure_movement record_movement OperationType-discrete
failure-debit_entries host outcome r coins p (Outcome.replayed e found same result) = rw result refl
failure-debit_entries host outcome r coins p (Outcome.recorded account found fresh made) =
    rw made.result refl

post_failure-debit_entries :
    (host : WalletHost) (outcome : ProviderOutcome) (test : Bool) (r : Request) (coins : CoinDb)
    (posted : Option Entry × CoinDb)
    → post_failure host outcome test r coins ≡ ok posted
    → debit_entries posted.1.entries ≡ debit_entries coins.entries
unfolding post_failure
post_failure-debit_entries host outcome false r coins posted h =
    let same : posted.1 ≡ coins = cc in rw same refl
post_failure-debit_entries host outcome true r coins posted h =
    let (p, post, h1) =
      >>=-eq-ok (from_ledger (post_entry (failure_movement host outcome r) coins)) _ h in
    let same : posted.1 ≡ p.1 = cc in
    rw same (
      failure-debit_entries host outcome r coins p
        (post_ledger_entry-Outcome _ coins p
          (post_entry-eq-ok _ coins p (from_ledger-eq-ok _ p post))).1)

update-debits_of :
    (id : ℕ) (change : Request → Request) (requests : List Request)
    → ((r : Request)
        → ((change r).final_ledger_entry ≡ r.final_ledger_entry)
          × ((change r).coin_debited_micros ≡ r.coin_debited_micros))
    → debits_of (update_request id change requests) ≡ debits_of requests
unfolding update_request
update-debits_of id change [] keeps = refl
update-debits_of id change (r ∷ requests) keeps =
    let (final, amount) = keeps r in
    let rest = update-debits_of id change requests keeps in
    elim (Bool-cases (r.request_id == id)) [
      | inl this ↦ rw (this, final, amount, rest) refl
      | inr other ↦ rw (other, rest) refl
    ]

module _ (host : WalletHost) (outcome : ProviderOutcome) (db : WalletDb) (out : Answer × WalletDb)
    (r : Request) where
  Failed-IsUndebited : Failed host outcome r db out.1 → IsUndebited db out.1
  unfolding failed_request
  Failed-IsUndebited made = record {
    ledger =
        ap (λ (c : CoinDb). debit_entries c.entries) made.coins_of
        ∙ post_failure-debit_entries host outcome _ r db.coins made.posted made.post;
    requests = rw made.requests_of (update-debits_of _ _ db.requests (λ q. (refl, refl)));
  }

  complete-accepted :
      (amounts : FinalAmounts)
      → complete_withdrawal host outcome amounts r db ≡ ok out
      → out.0.accepted ≡ true
  unfolding complete_withdrawal
  complete-accepted amounts h =
      let (posted, post, h1) =
        >>=-eq-ok
          (from_ledger (post_entry (debit_movement host outcome (host.new_uuid 0) r) db.coins)) _
          h in
      let (saved, mapped, h2) = >>=-eq-ok (map_withdrawal _) _ h1 in
      let (balance, read, h3) =
        >>=-eq-ok (from_ledger (get_balance r.request_user posted.1)) _ h2 in
      cc

  module _ (refused : out.0.accepted ≡ false) where
    matched-IsUndebited :
        (release : Option ℕ) (amounts : Wallet FinalAmounts)
        → reconcile_matched host outcome release amounts r db ≡ ok out
        → IsUndebited db out.1
    unfolding reconcile_matched
    matched-IsUndebited release (err e) h = cc
    matched-IsUndebited (some entry) (ok amounts) h =
        Failed-IsUndebited (record_failure-Failed host outcome db out r _ false false h)
    matched-IsUndebited none (ok amounts) h = let yes = complete-accepted amounts h in cc

    completed-IsUndebited :
        (mismatch : Option Text) (amounts : Wallet FinalAmounts)
        → reconcile_completed host outcome mismatch amounts r db ≡ ok out
        → IsUndebited db out.1
    unfolding reconcile_completed
    completed-IsUndebited (some reason) amounts h =
        Failed-IsUndebited (record_failure-Failed host outcome db out r reason false true h)
    completed-IsUndebited none amounts h = matched-IsUndebited _ amounts h

    state-IsUndebited :
        (state : ProviderState) (amounts : Wallet FinalAmounts)
        → reconcile_state host outcome state amounts r db ≡ ok out
        → IsUndebited db out.1
    unfolding reconcile_state
    state-IsUndebited ProviderState.unknown amounts h =
        Failed-IsUndebited (record_failure-Failed host outcome db out r _ false true h)
    state-IsUndebited ProviderState.provider_failed amounts h =
        Failed-IsUndebited (record_failure-Failed host outcome db out r _ true false h)
    state-IsUndebited ProviderState.completed amounts h = completed-IsUndebited _ amounts h

    found-IsUndebited :
        (final : Option ℕ) (amounts : Wallet FinalAmounts)
        → reconcile_found host outcome final amounts r db ≡ ok out
        → IsUndebited db out.1
    unfolding reconcile_found
    found-IsUndebited (some entry) amounts h =
        let (saved, mapped, h1) = >>=-eq-ok (map_withdrawal r) _ h in
        let (e, looked_up, h2) = >>=-eq-ok (find_coin_entry entry db.coins) _ h1 in
        same_IsUndebited db out.1 (cc)
    found-IsUndebited none amounts h = state-IsUndebited outcome.state amounts h

refused-IsUndebited :
    (host : WalletHost) (rate_ttl : ℤ) (fetched : ℤ → Result ExchangeRateError UsdQuote) (id : ℕ)
    (given : ProviderOutcome) (before db : WalletDb) (out : Answer × WalletDb)
    → reconcile_verified_outcome host rate_ttl fetched id given before db ≡ ok out
    → out.0.accepted ≡ false
    → IsUndebited db out.1
unfolding reconcile_verified_outcome
refused-IsUndebited host rate_ttl fetched id given before db out h refused =
    let (outcome, valid, h1) =
      >>=-eq-ok (validate_verified_outcome (host.date_parse given.observed_at) given) _ h in
    let (initial, first, h2) =
      >>=-eq-ok
        (required WalletError.withdrawal_not_found
          (find_withdrawal_for_update id none before.requests))
        _ h1 in
    let (r, found, h3) =
      >>=-eq-ok
        (required WalletError.withdrawal_not_found (find_withdrawal_for_update id none db.requests))
        _ h2 in
    found-IsUndebited host outcome db out r refused _
      (final_amounts host rate_ttl fetched outcome initial) h3

-- A reconciliation that succeeds either answers that the outcome is not accepted, and then the
-- debits of withdrawals in the ledger and those that the requests record are as before; or it
-- accepts the outcome, and then the provider's outcome is verified and says completed with a
-- transaction hash, the amount that the provider states is the value of the reserved Coins at the
-- final rate less the fees, as `finalAmounts` gives it for the request that was read first, and the
-- request is answered as broadcasted with that amount. So a debit is made only in the second case.
pub debited_only-Agreed :
    (host : WalletHost) (rate_ttl : ℤ) (fetched : ℤ → Result ExchangeRateError UsdQuote) (id : ℕ)
    (given : ProviderOutcome) (before db : WalletDb) (out : Answer × WalletDb) (initial : Request)
    → find_withdrawal_for_update id none before.requests ≡ some initial
    → reconcile_verified_outcome host rate_ttl fetched id given before db ≡ ok out
    → ((out.0.accepted ≡ false) × IsUndebited db out.1)
      ⊎ ((out.0.accepted ≡ true)
          × (given.verified ≡ true)
          × (given.state ≡ ProviderState.completed)
          × Agreed given (final_amounts host rate_ttl fetched given initial) out.0)
debited_only-Agreed host rate_ttl fetched id given before db out initial first h =
    elim (Bool-cases out.0.accepted) [
      | inl accepted ↦
          let (verified, completed, agreed) =
            accepted-Agreed host rate_ttl fetched id given before db out initial first h accepted in
          inr (accepted, verified, completed, agreed)
      | inr refused ↦
          inl (refused, refused-IsUndebited host rate_ttl fetched id given before db out h refused)
    ]
