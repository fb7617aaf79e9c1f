-- ===== src/Wallets/Release.antt =====
-- src/coinWallets.ts: `releaseWithdrawal` and its callers, which give reserved Coins back.
use mpulse.Common.{
  ℕ, Bool, true, false, not, ◌&&◌, ◌||◌, Option, none, some, [], ◌∷◌, ok, ◌>>=◌, ◌>>◌, throw_if,
  if◌then◌else◌, ◌==◌,
}
use mpulse.Common.Int.{pos, neg}
use mpulse.Common.Text.{Text, codes}
use mpulse.Coins.Types.{OperationType, Movement, Entry, CoinDb}
use mpulse.Coins.Repository.{get_balance, post_entry}
use mpulse.Wallets.Types.{
  WithdrawalStatus, Request, WalletDb, WalletError, Wallet, Answer, WalletHost,
}
use mpulse.Wallets.Parse.{required_text, required_reason, optional_reason}
use mpulse.Wallets.Store.{
  is_some, or_zero, is_text, required, from_ledger, find_withdrawal_for_update, update_request,
  find_coin_entry, insert_audit, insert_outbox, map_withdrawal, withdrawal_key, withdrawal_event,
}
use mpulse.Coins.Types.{Movement}

pub data ReleaseTarget : Type 0 where
  to_cancelled to_rejected : ReleaseTarget

abbrev pub target_status : ReleaseTarget → WithdrawalStatus
target_status ReleaseTarget.to_cancelled = WithdrawalStatus.cancelled
target_status ReleaseTarget.to_rejected = WithdrawalStatus.rejected

abbrev target_text : ReleaseTarget → Text
target_text ReleaseTarget.to_cancelled = codes "cancelled"
target_text ReleaseTarget.to_rejected = codes "rejected"

abbrev target_audit : ReleaseTarget → Text
target_audit ReleaseTarget.to_cancelled = codes "wallet.withdrawal_cancelled"
target_audit ReleaseTarget.to_rejected = codes "admin.withdrawal_rejected"

abbrev target_event : ReleaseTarget → Text
target_event ReleaseTarget.to_cancelled = codes "withdrawal.cancelled"
target_event ReleaseTarget.to_rejected = codes "withdrawal.rejected"

abbrev pub has_target : ReleaseTarget → WithdrawalStatus → Bool
has_target ReleaseTarget.to_cancelled WithdrawalStatus.cancelled = true
has_target ReleaseTarget.to_rejected WithdrawalStatus.rejected = true
has_target _ _ = false

abbrev pub provider_confirmed_failed : Text
provider_confirmed_failed = codes "PROVIDER_CONFIRMED_FAILED"

abbrev pub is_failed : WithdrawalStatus → Bool
is_failed WithdrawalStatus.failed = true
is_failed _ = false

unfoldable pub can_release_withdrawal_reserve : WithdrawalStatus → Option Text → Bool
can_release_withdrawal_reserve status failure =
    not (is_failed status) || is_text failure provider_confirmed_failed

-- `["pending_review", "approved_for_review", "failed"].includes(status)`
abbrev pub is_releasable : WithdrawalStatus → Bool
is_releasable WithdrawalStatus.pending_review = true
is_releasable WithdrawalStatus.approved_for_review = true
is_releasable WithdrawalStatus.failed = true
is_releasable _ = false

pub record ReleaseInput : Type 0 where
  pub release_id : ℕ
  pub release_user : Option ℕ
  pub target : ReleaseTarget
  pub actor : Option Text
  pub release_reason : Text

module _ (host : WalletHost) (input : ReleaseInput) where
  unfoldable pub release_movement : Request → Movement
  unfolding neg withdrawal_key
  release_movement r = record {
    user_id = r.request_user;
    operation_type = OperationType.withdrawal_release;
    available_delta = pos (or_zero r.coin_reserved_micros);
    reserved_delta = neg (pos (or_zero r.coin_reserved_micros));
    idempotency_key = withdrawal_key host r.request_id (codes "release");
    source_type = codes "withdrawal_request";
    source_id = host.uuid_text r.request_id;
    reason = input.release_reason;
    external_reference = none;
    rate_snapshot_id = none;
    admin_user_id = none;
    admin_actor = input.actor;
    audit_metadata = host.json (
        (codes "targetStatus", some (target_text input.target))
        ∷ (codes "adminActor", input.actor)
        ∷ (
          codes "reserveLedgerEntryId",
          elim r.reserve_ledger_entry [ none ↦ none | some e ↦ some (host.uuid_text e) ],
        )
        ∷ []);
  }

  unfoldable pub released_request : ℕ → Request → Request
  released_request entry r = record r {
    status = target_status input.target;
    real_transfer_blocked = true;
    block_reason = some (codes "TRANSFERS_UNAVAILABLE");
    release_ledger_entry = some entry;
    review_reason = some input.release_reason;
    reviewed_by_actor = elim input.actor [ none ↦ r.reviewed_by_actor | some a ↦ some a ];
    reviewed_at = elim input.actor [ none ↦ r.reviewed_at | some a ↦ some host.now_text ];
    updated_at = host.now_text;
  }

  abbrev pub is_conclusive : Request → Bool
  is_conclusive r = is_failed r.status && is_text r.failure_state provider_confirmed_failed

  unfoldable pub look_up_release : Option ℕ → Bool → CoinDb → Wallet (Option Entry)
  look_up_release none conclusive coins = ok none
  look_up_release (some entry) conclusive coins =
      if conclusive then find_coin_entry entry coins else ok none

  -- A release that the provider's failure has posted before, where it is found.
  abbrev pub existing_release : Request → CoinDb → Wallet (Option Entry)
  existing_release r coins = look_up_release r.release_ledger_entry (is_conclusive r) coins

  unfoldable pub release_or_post : Option Entry → Request → CoinDb → Wallet (Entry × CoinDb)
  release_or_post (some e) r coins = ok (e, coins)
  release_or_post none r coins = from_ledger (post_entry (release_movement r) coins)

  unfoldable pub release_reserve : Request → WalletDb → Wallet (Answer × WalletDb)
  release_reserve r db = do
    throw_if (not (can_release_withdrawal_reserve r.status r.failure_state))
        WalletError.withdrawal_not_cancellable
    throw_if (not (is_releasable r.status) || is_some r.final_ledger_entry)
        WalletError.withdrawal_not_cancellable
    throw_if (or_zero r.coin_reserved_micros == 0 || not (is_some r.reserve_ledger_entry))
        WalletError.withdrawal_not_cancellable
    existing ← existing_release r db.coins
    release ← release_or_post existing r db.coins
    saved ← map_withdrawal (released_request release.0.entry_sequence r)
    balance ← from_ledger (get_balance r.request_user release.1)
    ok (
      record {
        withdrawal_request = saved;
        balance = some balance;
        ledger_entry = none;
        idempotent = false;
        accepted = false;
        reserve_held = false;
        retry_blocked_reason = none;
      },
      record db {
        coins = release.1;
        requests =
            update_request r.request_id (released_request release.0.entry_sequence) db.requests;
        audits = insert_audit (target_audit input.target) (some r.request_user) db.audits;
        outbox =
            insert_outbox
              (withdrawal_event host r.request_id (target_event input.target)
                (target_text input.target))
              db.outbox;
      },
    )

  unfoldable pub release_found : Bool → Request → WalletDb → Wallet (Answer × WalletDb)
  release_found true r db = do
    saved ← map_withdrawal r
    balance ← from_ledger (get_balance r.request_user db.coins)
    ok (
      record {
        withdrawal_request = saved;
        balance = some balance;
        ledger_entry = none;
        idempotent = true;
        accepted = false;
        reserve_held = false;
        retry_blocked_reason = none;
      },
      db,
    )
  release_found false r db = release_reserve r db

  unfoldable pub release_withdrawal : WalletDb → Wallet (Answer × WalletDb)
  release_withdrawal db = do
    r ←
        required WalletError.withdrawal_not_found
          (find_withdrawal_for_update input.release_id input.release_user db.requests)
    release_found (has_target input.target r.status && is_some r.release_ledger_entry) r db

-- `optionalReason(input.reason) ?? "user_cancelled"`
abbrev reason_or : Option Text → Text
reason_or none = codes "user_cancelled"
reason_or (some reason) = reason

unfoldable pub cancel_withdrawal :
    WalletHost → ℕ → ℕ → Option (Option Text) → WalletDb → Wallet (Answer × WalletDb)
cancel_withdrawal host id user reason db = do
  given ← optional_reason reason
  release_withdrawal host
      (record {
        release_id = id;
        release_user = some user;
        target = ReleaseTarget.to_cancelled;
        actor = none;
        release_reason = reason_or given;
      })
      db

unfoldable pub reject_withdrawal :
    WalletHost → ℕ → Text → Option Text → WalletDb → Wallet (Answer × WalletDb)
reject_withdrawal host id actor reason db = do
  known ← required_text (some actor)
  given ← required_reason reason
  release_withdrawal host
      (record {
        release_id = id;
        release_user = none;
        target = ReleaseTarget.to_rejected;
        actor = some known;
        release_reason = given;
      })
      db
