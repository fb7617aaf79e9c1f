-- ===== src/Wallets/Review.antt =====
-- src/coinWallets.ts: what an administrator does with a request that is held for review.
use mpulse.Common.{
  ℕ, Bool, true, false, Option, none, some, List, [], ◌∷◌, ok, err, ◌>>=◌, if◌then◌else◌, ◌==◌,
}
use mpulse.Common.Text.{Text, codes}
use mpulse.Wallets.Types.{
  WithdrawalStatus, Request, WalletDb, WalletError, Wallet, Answer, WalletHost,
}
use mpulse.Wallets.Parse.{required_text, required_reason}
use mpulse.Wallets.Store.{
  is_text, required, find_withdrawal_for_update, update_request, insert_audit, insert_outbox,
  map_withdrawal, withdrawal_event,
}
use mpulse.Wallets.Release.{provider_confirmed_failed}

unfoldable pub withdrawal_retry_blocked_reason : Option Text → Text
withdrawal_retry_blocked_reason failure =
    if is_text failure provider_confirmed_failed
    then codes "REAL_MONEY_LAUNCH_NOT_APPROVED"
    else codes "WITHDRAWAL_RESERVE_LOCKED_PROVIDER_OUTCOME_NOT_CONFIRMED"

abbrev plain_answer : Request → Bool → Option Text → Answer
plain_answer r repeated blocked = record {
  withdrawal_request = r;
  balance = none;
  ledger_entry = none;
  idempotent = repeated;
  accepted = false;
  reserve_held = false;
  retry_blocked_reason = blocked;
}

unfoldable pub find_request : ℕ → List Request → Option Request
find_request id [] = none
find_request id (r ∷ requests) = if r.request_id == id then some r else find_request id requests

module _ (host : WalletHost) where
  unfoldable pub approved_request : Text → Text → Request → Request
  approved_request actor reason r = record r {
    status = WithdrawalStatus.approved_for_review;
    review_reason = some reason;
    reviewed_by_actor = some actor;
    reviewed_at = some host.now_text;
    updated_at = host.now_text;
  }

  unfoldable pub approve_status :
      WithdrawalStatus → Text → Text → Request → WalletDb → Wallet (Answer × WalletDb)
  approve_status WithdrawalStatus.approved_for_review actor reason r db =
      map_withdrawal r >>= λ saved. ok (plain_answer saved true none, db)
  approve_status WithdrawalStatus.pending_review actor reason r db = do
    saved ← map_withdrawal (approved_request actor reason r)
    ok (
      plain_answer saved false none,
      record db {
        requests = update_request r.request_id (approved_request actor reason) db.requests;
        audits =
            insert_audit (codes "admin.withdrawal_approved_for_review") (some r.request_user)
              db.audits;
        outbox =
            insert_outbox
              (withdrawal_event host r.request_id (codes "withdrawal.approved_for_review")
                (codes "approved-for-review"))
              db.outbox;
      },
    )
  approve_status _ actor reason r db = err WalletError.withdrawal_not_reviewable

  unfoldable pub approve_withdrawal_for_review :
      ℕ → Text → Option Text → WalletDb → Wallet (Answer × WalletDb)
  approve_withdrawal_for_review id actor reason db = do
    known ← required_text (some actor)
    given ← required_reason reason
    r ← required WalletError.withdrawal_not_found (find_withdrawal_for_update id none db.requests)
    approve_status r.status known given r db

  unfoldable pub retry_status :
      WithdrawalStatus → ℕ → Text → Option Text → Request → WalletDb → Wallet (Answer × WalletDb)
  retry_status WithdrawalStatus.approved_for_review id actor reason r db =
      map_withdrawal r >>= λ saved.
      ok (plain_answer saved true (some (codes "REAL_MONEY_LAUNCH_NOT_APPROVED")), db)
  retry_status WithdrawalStatus.failed id actor reason r db = map_withdrawal r >>= λ saved.
      ok (plain_answer saved true (some (withdrawal_retry_blocked_reason r.failure_state)), db)
  retry_status _ id actor reason r db = approve_withdrawal_for_review id actor reason db >>= λ p.
      ok (record p.0 { retry_blocked_reason = some (codes "REAL_MONEY_LAUNCH_NOT_APPROVED") }, p.1)

  -- `before` is the state at the first read, and `db` the state of the transaction.
  unfoldable pub safe_retry_withdrawal :
      ℕ → Text → Option Text → WalletDb → WalletDb → Wallet (Answer × WalletDb)
  safe_retry_withdrawal id actor reason before db = do
    r ← required WalletError.withdrawal_not_found (find_request id before.requests)
    retry_status r.status id actor reason r db
