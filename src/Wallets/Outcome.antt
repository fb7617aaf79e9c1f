-- ===== src/Wallets/Outcome.antt =====
-- src/coinWallets.ts: `reconcileVerifiedWithdrawalOutcome`, which settles a request by what the
-- provider of the transfer has verified, and `recordWithdrawalFailureState`.
use mpulse.Common.{
  ℕ, Bool, true, false, not, ◌&&◌, Option, none, some, [], ◌∷◌, ◌++◌, Result, ok, err, ◌>>=◌,
  if◌then◌else◌, ltb,
}
use mpulse.Common.Int.{ℤ, pos, pos_part, neg, eqb_ℤ}
use mpulse.Common.Text.{Text, codes, is_empty}
use mpulse.Coins.Types.{OperationType, Movement, Entry, CoinDb}
use mpulse.Coins.Repository.{get_balance, post_entry}
use mpulse.Wallets.Types.{
  WithdrawalStatus, Request, WalletDb, WalletError, Wallet, ProviderState, ProviderOutcome, Answer,
  WalletHost,
}
use mpulse.Wallets.Parse.{validate_verified_outcome}
use mpulse.Wallets.Store.{
  is_some, or_zero, required, from_ledger, find_withdrawal_for_update, update_request,
  find_coin_entry, insert_audit, insert_outbox, map_withdrawal, withdrawal_key, withdrawal_event,
}
use mpulse.ExchangeRates.{UsdQuote, ExchangeRateError}
use mpulse.Wallets.Release.{provider_confirmed_failed}
use mpulse.Wallets.Amounts.{FinalAmounts, final_amounts, error_code}

abbrev pub has_hash : Option Text → Bool
has_hash none = false
has_hash (some hash) = not (is_empty hash)

module _ (host : WalletHost) (outcome : ProviderOutcome) where
  unfoldable pub failure_movement : Request → Movement
  unfolding neg withdrawal_key
  failure_movement r = record {
    user_id = r.request_user;
    operation_type = OperationType.withdrawal_release;
    available_delta = pos (or_zero r.coin_reserved_micros);
    reserved_delta = neg (pos (or_zero r.coin_reserved_micros));
    idempotency_key = withdrawal_key host r.request_id (codes "provider-failure-release");
    source_type = codes "withdrawal_request";
    source_id = host.uuid_text r.request_id;
    reason = codes "verified_provider_withdrawal_failed";
    external_reference = some outcome.provider_reference;
    rate_snapshot_id = none;
    admin_user_id = none;
    admin_actor = none;
    audit_metadata = host.json (
        (codes "provider", some outcome.outcome_provider)
        ∷ (codes "providerReference", some outcome.provider_reference)
        ∷ (codes "evidenceHash", some outcome.evidence_hash)
        ∷ (codes "providerCallInitiated", some (codes "false"))
        ∷ []);
  }

  unfoldable pub must_release : Bool → Request → Bool
  must_release release_reserve r =
      release_reserve
      && not (is_some r.release_ledger_entry)
      && not (is_some r.final_ledger_entry)
      && ltb 0 (or_zero r.coin_reserved_micros)

  unfoldable pub post_failure : Bool → Request → CoinDb → Wallet (Option Entry × CoinDb)
  post_failure false r coins = ok (none, coins)
  post_failure true r coins =
      from_ledger (post_entry (failure_movement r) coins) >>= λ p. ok (some p.0, p.1)

  abbrev pub entry_of : Option Entry → Option ℕ
  entry_of none = none
  entry_of (some e) = some e.entry_sequence

  -- `coalesce(old, new)`
  abbrev pub coalesce : Option ℕ → Option ℕ → Option ℕ
  coalesce none new = new
  coalesce (some old) new = some old

  unfoldable pub failed_request : Text → Option ℕ → Request → Request
  failed_request failure release r = record r {
    status = WithdrawalStatus.failed;
    provider = outcome.outcome_provider;
    real_transfer_blocked = false;
    block_reason = none;
    failure_state = some failure;
    fireblocks_reference = some outcome.provider_reference;
    release_ledger_entry = coalesce r.release_ledger_entry release;
    updated_at = outcome.observed_at;
    metadata_source = some (codes "real_withdrawal_broadcast");
  }

  -- `held` is what the caller answers as `reserveHeld`.
  unfoldable pub record_withdrawal_failure_state :
      Text → Bool → Bool → Request → WalletDb → Wallet (Answer × WalletDb)
  record_withdrawal_failure_state failure release_reserve held r db = do
    released ← post_failure (must_release release_reserve r) r db.coins
    saved ← map_withdrawal (failed_request failure (entry_of released.0) r)
    balance ← from_ledger (get_balance r.request_user released.1)
    ok (
      record {
        withdrawal_request = saved;
        balance = some balance;
        ledger_entry = released.0;
        idempotent = false;
        accepted = false;
        reserve_held = held;
        retry_blocked_reason = none;
      },
      record db {
        coins = released.1;
        requests =
            update_request r.request_id (failed_request failure (entry_of released.0)) db.requests;
        audits =
            insert_audit (codes "wallet.withdrawal_provider_state_recorded") (some r.request_user)
              db.audits;
        outbox =
            insert_outbox
              (withdrawal_event host r.request_id (codes "withdrawal.provider_state_recorded")
                (codes "provider-state:" ++ outcome.evidence_hash))
              db.outbox;
      },
    )

  unfoldable pub debit_movement : ℕ → Request → Movement
  unfolding neg withdrawal_key
  debit_movement snapshot r = record {
    user_id = r.request_user;
    operation_type = OperationType.withdrawal_debit;
    available_delta = pos 0;
    reserved_delta = neg (pos (or_zero r.coin_reserved_micros));
    idempotency_key = withdrawal_key host r.request_id (codes "final-debit");
    source_type = codes "withdrawal_request";
    source_id = host.uuid_text r.request_id;
    reason = codes "verified_provider_withdrawal_completed";
    external_reference = some outcome.provider_reference;
    rate_snapshot_id = some snapshot;
    admin_user_id = none;
    admin_actor = none;
    audit_metadata = host.json (
        (codes "provider", some outcome.outcome_provider)
        ∷ (codes "providerReference", some outcome.provider_reference)
        ∷ (codes "transactionHash", outcome.transaction_hash)
        ∷ (codes "evidenceHash", some outcome.evidence_hash)
        ∷ (codes "observedAt", some outcome.observed_at)
        ∷ (codes "providerCallInitiated", some (codes "false"))
        ∷ (codes "externallyObserved", some (codes "true"))
        ∷ []);
  }

  unfoldable pub completed_request : FinalAmounts → ℕ → ℕ → ℕ → Request → Request
  completed_request amounts snapshot reserved entry r = record r {
    status = WithdrawalStatus.broadcasted;
    provider = outcome.outcome_provider;
    real_transfer_blocked = false;
    block_reason = none;
    coin_debited_micros = some reserved;
    final_usdt_atomic = some (pos_part amounts.expected_final);
    network_fee_usdt_atomic = some amounts.final_network_fee;
    provider_fee_usdt_atomic = some amounts.final_provider_fee;
    final_rate_snapshot = some snapshot;
    fireblocks_reference = some outcome.provider_reference;
    final_ledger_entry = some entry;
    failure_state = none;
    updated_at = outcome.observed_at;
    metadata_source = some (codes "real_withdrawal_broadcast");
  }

  -- The debit of the reserved Coins, at the rate that was found.
  unfoldable pub complete_withdrawal :
      FinalAmounts → Request → WalletDb → Wallet (Answer × WalletDb)
  complete_withdrawal amounts r db =
      let snapshot = host.new_uuid 0 in
      do
        debit ← from_ledger (post_entry (debit_movement snapshot r) db.coins)
        let change =
            completed_request amounts snapshot (or_zero r.coin_reserved_micros)
              debit.0.entry_sequence
        saved ← map_withdrawal (change r)
        balance ← from_ledger (get_balance r.request_user debit.1)
        ok (
          record {
            withdrawal_request = saved;
            balance = some balance;
            ledger_entry = some debit.0;
            idempotent = false;
            accepted = true;
            reserve_held = false;
            retry_blocked_reason = none;
          },
          record db {
            coins = debit.1;
            snapshots =
                record { snapshot_id = snapshot; snapshot_quote = amounts.final_quote }
                ∷ db.snapshots;
            requests = update_request r.request_id change db.requests;
            audits =
                insert_audit (codes "wallet.withdrawal_verified_completed") (some r.request_user)
                  db.audits;
            outbox =
                insert_outbox
                  (withdrawal_event host r.request_id (codes "withdrawal.verified_completed")
                    (codes "verified-completed"))
                  db.outbox;
          },
        )

  unfoldable pub mismatch_reason : Wallet FinalAmounts → Option Text
  mismatch_reason (err e) = some (error_code e)
  mismatch_reason (ok amounts) =
      if not (has_hash outcome.transaction_hash)
      then some (codes "PROVIDER_TRANSACTION_HASH_REQUIRED")
      else if eqb_ℤ amounts.expected_final (pos amounts.provider_final)
      then none
      else some (codes "FINAL_AMOUNT_RATE_MISMATCH")

  -- The amounts agree, or there are none and the state is recorded already.
  unfoldable pub reconcile_matched :
      Option ℕ → Wallet FinalAmounts → Request → WalletDb → Wallet (Answer × WalletDb)
  reconcile_matched release (err e) r db = err e
  reconcile_matched (some entry) (ok amounts) r db =
      record_withdrawal_failure_state (codes "PROVIDER_COMPLETED_AFTER_RESERVE_RELEASE") false false
        r db
  reconcile_matched none (ok amounts) r db = complete_withdrawal amounts r db

  unfoldable pub reconcile_completed :
      Option Text → Wallet FinalAmounts → Request → WalletDb → Wallet (Answer × WalletDb)
  reconcile_completed (some mismatch) amounts r db =
      record_withdrawal_failure_state mismatch false true r db
  reconcile_completed none amounts r db = reconcile_matched r.release_ledger_entry amounts r db

  unfoldable pub reconcile_state :
      ProviderState → Wallet FinalAmounts → Request → WalletDb → Wallet (Answer × WalletDb)
  reconcile_state ProviderState.unknown amounts r db =
      record_withdrawal_failure_state (codes "PROVIDER_STATE_UNKNOWN") false true r db
  reconcile_state ProviderState.provider_failed amounts r db =
      record_withdrawal_failure_state provider_confirmed_failed true false r db
  reconcile_state ProviderState.completed amounts r db =
      reconcile_completed (mismatch_reason amounts) amounts r db

  unfoldable pub reconcile_found :
      Option ℕ → Wallet FinalAmounts → Request → WalletDb → Wallet (Answer × WalletDb)
  reconcile_found (some entry) amounts r db = do
    saved ← map_withdrawal r
    found ← find_coin_entry entry db.coins
    ok (
      record {
        withdrawal_request = saved;
        balance = none;
        ledger_entry = found;
        idempotent = true;
        accepted = false;
        reserve_held = false;
        retry_blocked_reason = none;
      },
      db,
    )
  reconcile_found none amounts r db = reconcile_state outcome.state amounts r db

-- `before` is the state at the first read, and `db` the state of the transaction, which other
-- operations may have changed while the rate was fetched.
unfoldable pub reconcile_verified_outcome :
    WalletHost
    → ℤ
    → (ℤ → Result ExchangeRateError UsdQuote)
    → ℕ
    → ProviderOutcome
    → WalletDb
    → WalletDb
    → Wallet (Answer × WalletDb)
reconcile_verified_outcome host rate_ttl fetched id given before db = do
  outcome ← validate_verified_outcome (host.date_parse given.observed_at) given
  initial ←
      required WalletError.withdrawal_not_found (find_withdrawal_for_update id none before.requests)
  let amounts = final_amounts host rate_ttl fetched outcome initial
  r ← required WalletError.withdrawal_not_found (find_withdrawal_for_update id none db.requests)
  reconcile_found host outcome r.final_ledger_entry amounts r db
