-- ===== src/Wallets/Accepted.antt =====
-- When a reconciliation debits a request: only for amounts that the provider and the rate agree on.
use mpulse.Common.{
  ℕ, ◌≡◌, ◌≢◌, refl, sym, ap, ◌∙◌, Bool, true, false, not, ◌&&◌, ◌||◌, Option, none, some, inl, inr,
  Result, ok, err, throw_if, if◌then◌else◌, ◌==◌, length, Bool-cases, >>=-eq-ok, throw_if-eq-ok,
}
use mpulse.Common.Int.{ℤ, pos, pos_part, eqb_ℤ}
use mpulse.Common.Text.{Text, codes, text_eq}
use mpulse.Coins.Repository.{get_balance, post_entry}
use mpulse.Wallets.Types.{
  WithdrawalStatus, Request, WalletDb, WalletError, Wallet, ProviderState, ProviderOutcome, Answer,
  WalletHost,
}
use mpulse.Wallets.Parse.{required_text, all_of, is_lower_hex, validate_verified_outcome}
use mpulse.Wallets.Store.{
  required, from_ledger, find_withdrawal_for_update, find_coin_entry, is_backed,
  has_valid_transfer_policy, map_withdrawal,
}
use mpulse.Common.Int.{eqb_ℤ→eq}
use mpulse.ExchangeRates.{UsdQuote, ExchangeRateError}
use mpulse.Wallets.Amounts.{FinalAmounts, final_amounts}
use mpulse.Wallets.Outcome.{
  has_hash, must_release, post_failure, entry_of, failed_request, record_withdrawal_failure_state,
  debit_movement, completed_request, complete_withdrawal, mismatch_reason, reconcile_matched,
  reconcile_completed, reconcile_state, reconcile_found, reconcile_verified_outcome,
}
use mpulse.Wallets.Rows.{some_injective}
use mpulse.Wallets.Succeeded.{required-eq-ok}

-- The amounts that a completed request was debited for.
pub record Agreed (outcome : ProviderOutcome) (amounts : Wallet FinalAmounts) (answer : Answer)
    : Type 0 where
  pub agreed : FinalAmounts
  pub found : amounts ≡ ok agreed
  pub same : agreed.expected_final ≡ pos agreed.provider_final
  pub hashed : has_hash outcome.transaction_hash ≡ true
  pub final_amount : answer.withdrawal_request.final_usdt_atomic ≡ some agreed.provider_final
  pub status : answer.withdrawal_request.status ≡ WithdrawalStatus.broadcasted

some-none : (t : Text) → some t ≢ none
some-none t h = cc

pub map_withdrawal-eq-ok : (r saved : Request) → map_withdrawal r ≡ ok saved → saved ≡ r
unfolding map_withdrawal
map_withdrawal-eq-ok r saved h =
    let (u, backed, h1) =
      >>=-eq-ok (throw_if (not (is_backed r)) WalletError.invalid_coin_wallet_request) _ h in
    let (v, valid, h2) =
      >>=-eq-ok
        (throw_if (not (has_valid_transfer_policy r)) WalletError.invalid_coin_wallet_request) _
        h1 in
    cc

module _ (host : WalletHost) (outcome : ProviderOutcome) (db : WalletDb) (out : Answer × WalletDb)
    (r : Request) where
  failure_not_accepted :
      (failure : Text) (release_reserve held : Bool)
      → record_withdrawal_failure_state host outcome failure release_reserve held r db ≡ ok out
      → out.0.accepted ≡ false
  unfolding record_withdrawal_failure_state
  failure_not_accepted failure release_reserve held h =
      let (posted, post, h1) =
        >>=-eq-ok
          (post_failure host outcome (must_release host outcome release_reserve r) r db.coins) _
          h in
      let (saved, mapped, h2) =
        >>=-eq-ok
          (map_withdrawal (failed_request host outcome failure (entry_of host outcome posted.0) r))
          _ h1 in
      let (balance, read, h3) =
        >>=-eq-ok (from_ledger (get_balance r.request_user posted.1)) _ h2 in
      cc

  complete_answer :
      (amounts : FinalAmounts)
      → complete_withdrawal host outcome amounts r db ≡ ok out
      → (out.0.withdrawal_request.final_usdt_atomic ≡ some (pos_part amounts.expected_final))
        × (out.0.withdrawal_request.status ≡ WithdrawalStatus.broadcasted)
  unfolding complete_withdrawal completed_request
  complete_answer amounts h =
      let (posted, post, h1) =
        >>=-eq-ok
          (from_ledger (post_entry (debit_movement host outcome (host.new_uuid 0) r) db.coins)) _
          h in
      let (saved, mapped, h2) = >>=-eq-ok (map_withdrawal _) _ h1 in
      let (balance, read, h3) =
        >>=-eq-ok (from_ledger (get_balance r.request_user posted.1)) _ h2 in
      let answered : out.0.withdrawal_request ≡ saved = cc in
      let row = map_withdrawal-eq-ok _ saved mapped in
      (rw (answered, row) refl, rw (answered, row) refl)

  mismatch_reason-none :
      (amounts : FinalAmounts)
      → mismatch_reason host outcome (ok amounts) ≡ none
      → (has_hash outcome.transaction_hash ≡ true)
        × (amounts.expected_final ≡ pos amounts.provider_final)
  unfolding mismatch_reason
  mismatch_reason-none amounts h = elim (Bool-cases (has_hash outcome.transaction_hash)) [
    | inr missing ↦ cc
    | inl there ↦ elim (Bool-cases (eqb_ℤ amounts.expected_final (pos amounts.provider_final))) [
      | inl equal ↦ (there, eqb_ℤ→eq _ _ equal)
      | inr differs ↦ absurd (
          some-none _ (
            sym (ap (λ b. if b then none else some (codes "FINAL_AMOUNT_RATE_MISMATCH")) differs)
            ∙ (rw there at h)))
    ]
  ]

  accepted_matched :
      (release : Option ℕ) (amounts : Wallet FinalAmounts)
      → mismatch_reason host outcome amounts ≡ none
      → reconcile_matched host outcome release amounts r db ≡ ok out
      → out.0.accepted ≡ true
      → Agreed outcome amounts out.0
  unfolding reconcile_matched
  accepted_matched release (err e) matched h accepted = cc
  accepted_matched (some entry) (ok amounts) matched h accepted =
      cc (failure_not_accepted _ false false h)
  accepted_matched none (ok amounts) matched h accepted =
      let (hashed, same) = mismatch_reason-none amounts matched in
      let (final, status) = complete_answer amounts h in
      record {
        agreed = amounts;
        found = refl;
        same = same;
        hashed = hashed;
        final_amount = final ∙ ap (λ z. some (pos_part z)) same;
        status = status;
      }

  accepted_completed :
      (mismatch : Option Text) (amounts : Wallet FinalAmounts)
      → mismatch_reason host outcome amounts ≡ mismatch
      → reconcile_completed host outcome mismatch amounts r db ≡ ok out
      → out.0.accepted ≡ true
      → Agreed outcome amounts out.0
  unfolding reconcile_completed
  accepted_completed (some reason) amounts known h accepted =
      cc (failure_not_accepted reason false true h)
  accepted_completed none amounts known h accepted = accepted_matched _ amounts known h accepted

  accepted_state :
      (state : ProviderState) (amounts : Wallet FinalAmounts)
      → reconcile_state host outcome state amounts r db ≡ ok out
      → out.0.accepted ≡ true
      → (state ≡ ProviderState.completed) × Agreed outcome amounts out.0
  unfolding reconcile_state
  accepted_state ProviderState.unknown amounts h accepted = cc (failure_not_accepted _ false true h)
  accepted_state ProviderState.provider_failed amounts h accepted =
      cc (failure_not_accepted _ true false h)
  accepted_state ProviderState.completed amounts h accepted =
      (refl, accepted_completed _ amounts refl h accepted)

  accepted_found :
      (final : Option ℕ) (amounts : Wallet FinalAmounts)
      → reconcile_found host outcome final amounts r db ≡ ok out
      → out.0.accepted ≡ true
      → (outcome.state ≡ ProviderState.completed) × Agreed outcome amounts out.0
  unfolding reconcile_found
  accepted_found (some entry) amounts h accepted =
      let (saved, mapped, h1) = >>=-eq-ok (map_withdrawal r) _ h in
      let (e, looked_up, h2) = >>=-eq-ok (find_coin_entry entry db.coins) _ h1 in cc
  accepted_found none amounts h accepted = accepted_state outcome.state amounts h accepted

not_or_false : (a b : Bool) → (not a || b) ≡ false → a ≡ true
not_or_false true b h = refl
not_or_false false b h = cc

validate_verified_outcome-eq-ok :
    (time : Option ℤ) (given outcome : ProviderOutcome)
    → validate_verified_outcome time given ≡ ok outcome
    → (outcome ≡ given) × (given.verified ≡ true)
unfolding validate_verified_outcome
validate_verified_outcome-eq-ok time given outcome h =
    let test = not given.verified || not (text_eq given.outcome_provider (codes "fireblocks")) in
    let (u, verified, h1) = >>=-eq-ok (throw_if test WalletError.invalid_coin_wallet_request) _ h in
    let (reference, named, h2) = >>=-eq-ok (required_text (some given.provider_reference)) _ h1 in
    let (v, hashed, h3) =
      >>=-eq-ok
        (throw_if
          (not (length given.evidence_hash == 64 && all_of is_lower_hex given.evidence_hash))
          WalletError.invalid_coin_wallet_request)
        _ h2 in
    let (w, timed, h4) =
      >>=-eq-ok
        (throw_if (elim time [ none ↦ true | some t ↦ false ])
          WalletError.invalid_coin_wallet_request)
        _ h3 in
    (
      cc,
      not_or_false given.verified _
          (throw_if-eq-ok test WalletError.invalid_coin_wallet_request verified),
    )

-- An answer that accepts the outcome states what was agreed on.
pub accepted-Agreed :
    (host : WalletHost) (rate_ttl : ℤ) (fetched : ℤ → Result ExchangeRateError UsdQuote) (id : ℕ)
    (given : ProviderOutcome) (before db : WalletDb) (out : Answer × WalletDb) (initial : Request)
    → find_withdrawal_for_update id none before.requests ≡ some initial
    → reconcile_verified_outcome host rate_ttl fetched id given before db ≡ ok out
    → out.0.accepted ≡ true
    → (given.verified ≡ true)
      × (given.state ≡ ProviderState.completed)
      × Agreed given (final_amounts host rate_ttl fetched given initial) out.0
unfolding reconcile_verified_outcome
accepted-Agreed host rate_ttl fetched id given before db out initial first h accepted =
    let (outcome, valid, h1) =
      >>=-eq-ok (validate_verified_outcome (host.date_parse given.observed_at) given) _ h in
    let (found_first, read, h2) =
      >>=-eq-ok
        (required WalletError.withdrawal_not_found
          (find_withdrawal_for_update id none before.requests))
        _ h1 in
    let (r, found, h3) =
      >>=-eq-ok
        (required WalletError.withdrawal_not_found (find_withdrawal_for_update id none db.requests))
        _ h2 in
    let (same, verified) = validate_verified_outcome-eq-ok _ given outcome valid in
    let this : found_first ≡ initial =
      some_injective found_first initial (sym (required-eq-ok _ _ found_first read) ∙ first) in
    let facts =
      accepted_found host outcome db out r r.final_ledger_entry
        (final_amounts host rate_ttl fetched outcome found_first) h3 accepted in
    let (state, agreed) : (given.state ≡ ProviderState.completed)
        × Agreed given (final_amounts host rate_ttl fetched given initial) out.0 =
      rw (same, this) at facts in
    (verified, state, agreed)
