-- ===== src/Wallets/Phases.antt =====
-- The phases of a request: its reserve is held, released or debited, as its status says.
use mpulse.Common.{
  ℕ, ◌≡◌, ◌≢◌, refl, sym, ◌∙◌, Bool, true, false, not, ◌&&◌, ◌||◌, Option, none, some, All,
}
use mpulse.Common.Text.{Text}
use mpulse.Wallets.Types.{
  WithdrawalStatus, WithdrawalQuote, Request, WalletDb, ProviderOutcome, WalletHost,
}
use mpulse.Wallets.Store.{is_some, or_zero, find_withdrawal_for_update, update_request}
use mpulse.Wallets.Confirm.{confirmed_request}
use mpulse.Wallets.Release.{
  ReleaseTarget, ReleaseInput, target_status, is_releasable, released_request,
}
use mpulse.Wallets.Amounts.{FinalAmounts}
use mpulse.Wallets.Outcome.{failed_request, completed_request}
use mpulse.Wallets.Review.{approved_request}
use mpulse.Wallets.Rows.{IsUnique, found-All, update-All, update-IsUnique, request_clashes-Absent}
use mpulse.Wallets.Succeeded.{Reserved, Released}
use mpulse.Wallets.Reviewed.{Approved}
use mpulse.Wallets.Reconciled.{Settled, Reconciled}

-- The entries that a status goes with: the final debit, and the release.
abbrev pub phase_ok : WithdrawalStatus → Bool → Bool → Bool
phase_ok WithdrawalStatus.pending_review final release = not final && not release
phase_ok WithdrawalStatus.approved_for_review final release = not final && not release
phase_ok WithdrawalStatus.rejected final release = not final && release
phase_ok WithdrawalStatus.cancelled final release = not final && release
phase_ok WithdrawalStatus.broadcast_pending final release = not (final && release)
phase_ok WithdrawalStatus.broadcasted final release = final && not release
phase_ok WithdrawalStatus.failed final release = not final

-- The phase fits the status, and a request with a final debit has debited what it reserved.
pub record IsSound (r : Request) : Type 0 where
  pub phase :
      phase_ok r.status (is_some r.final_ledger_entry) (is_some r.release_ledger_entry) ≡ true
  pub debited :
      is_some r.final_ledger_entry ≡ true
      → or_zero r.coin_debited_micros ≡ or_zero r.coin_reserved_micros

-- A table of requests: no two have one id, and each is sound.
pub record IsValid (db : WalletDb) : Type 0 where
  pub unique : IsUnique db.requests
  pub sound : All IsSound db.requests

confirmed-IsSound :
    (host : WalletHost) (user id : ℕ) (key : Text) (q : WithdrawalQuote) (entry : ℕ)
    → IsSound (confirmed_request host user id key q entry)
unfolding confirmed_request
confirmed-IsSound host user id key q entry = record { phase = refl; debited = λ h. cc }

false-true : false ≢ true
false-true e = cc

or_false_right : (a b : Bool) → (a || b) ≡ false → b ≡ false
or_false_right true b h = cc
or_false_right false b h = h

target_phase :
    (target : ReleaseTarget) (final : Bool)
    → final ≡ false
    → phase_ok (target_status target) final true ≡ true
target_phase ReleaseTarget.to_cancelled final h = rw h refl
target_phase ReleaseTarget.to_rejected final h = rw h refl

released-IsSound :
    (host : WalletHost) (input : ReleaseInput) (entry : ℕ) (r : Request)
    → (not (is_releasable r.status) || is_some r.final_ledger_entry) ≡ false
    → IsSound (released_request host input entry r)
unfolding released_request
released-IsSound host input entry r h = record {
  phase = target_phase input.target _ (or_false_right _ _ h);
  debited = λ f. absurd (false-true (sym (or_false_right _ _ h) ∙ f));
}

approved-IsSound :
    (host : WalletHost) (actor reason : Text) (r : Request)
    → r.status ≡ WithdrawalStatus.pending_review
    → IsSound r
    → IsSound (approved_request host actor reason r)
unfolding approved_request
approved-IsSound host actor reason r pending h = record {
  phase = rw pending at h.phase;
  debited = h.debited;
}

failed-IsSound :
    (host : WalletHost) (outcome : ProviderOutcome) (failure : Text) (entry : Option ℕ)
    (r : Request)
    → r.final_ledger_entry ≡ none
    → IsSound (failed_request host outcome failure entry r)
unfolding failed_request
failed-IsSound host outcome failure entry r h = record { phase = rw h refl; debited = λ f. cc }

completed-IsSound :
    (host : WalletHost) (outcome : ProviderOutcome) (amounts : FinalAmounts) (snapshot entry : ℕ)
    (r : Request)
    → r.release_ledger_entry ≡ none
    → IsSound
        (completed_request host outcome amounts snapshot (or_zero r.coin_reserved_micros) entry r)
unfolding completed_request
completed-IsSound host outcome amounts snapshot entry r h = record {
  phase = rw h refl;
  debited = λ f. refl;
}

module _ (db db' : WalletDb) (valid : IsValid db) where
  update-IsValid :
      (id : ℕ) (user : Option ℕ) (r : Request) (change : Request → Request)
      → find_withdrawal_for_update id user db.requests ≡ some r
      → db'.requests ≡ update_request r.request_id change db.requests
      → (change r).request_id ≡ r.request_id
      → (IsSound r → IsSound (change r))
      → IsValid db'
  update-IsValid id user r change found wrote same keep =
      let sound = found-All id user db.requests r valid.unique found IsSound valid.sound in
      record {
        unique = rw wrote (update-IsUnique id user db.requests r valid.unique found change same);
        sound = rw wrote (
            update-All id user db.requests r valid.unique found change IsSound (keep sound)
              valid.sound);
      }

  pub same-IsValid : db' ≡ db → IsValid db'
  same-IsValid same = rw same valid

  pub Reserved-IsValid : (host : WalletHost) (user : ℕ) → Reserved host user db db' → IsValid db'
  unfolding confirmed_request
  Reserved-IsValid host user made = record {
    unique = rw made.requests_of (request_clashes-Absent _ _ made.no_clash, valid.unique);
    sound = rw made.requests_of (confirmed-IsSound host user _ made.key made.q _, valid.sound);
  }

  pub Released-IsValid :
      (host : WalletHost) (input : ReleaseInput) → Released host input db db' → IsValid db'
  unfolding released_request
  Released-IsValid host input made =
      update-IsValid _ _ made.r _ made.found made.requests_of refl
        (λ s. released-IsSound host input _ made.r made.unfinished)

  pub Approved-IsValid : Approved db db' → IsValid db'
  unfolding approved_request
  Approved-IsValid made =
      update-IsValid _ _ made.r _ made.found made.requests_of refl
        (approved-IsSound made.host made.actor made.reason made.r made.pending)

  Settled-IsValid :
      (id : ℕ) (host : WalletHost) (outcome : ProviderOutcome) (r : Request)
      → find_withdrawal_for_update id none db.requests ≡ some r
      → r.final_ledger_entry ≡ none
      → Settled host outcome r db db'
      → IsValid db'
  unfolding failed_request completed_request
  Settled-IsValid id host outcome r found open_still (Settled.failed made) =
      update-IsValid id none r _ found made.requests_of refl
        (λ s. failed-IsSound host outcome made.failure _ r open_still)
  Settled-IsValid id host outcome r found open_still (Settled.completed made) =
      update-IsValid id none r _ found made.requests_of refl
        (λ s. completed-IsSound host outcome made.amounts _ _ r made.unreleased)

  pub Reconciled-IsValid : (host : WalletHost) (id : ℕ) → Reconciled host id db db' → IsValid db'
  Reconciled-IsValid host id made =
      Settled-IsValid id host made.outcome made.r made.found made.undebited made.settled
