-- ===== src/Wallets/Confirm.antt =====
-- src/coinWallets.ts: `confirmWithdrawal`, which reserves the Coins of a quote.
use mpulse.Common.{
  ℕ, Bool, true, false, not, Option, none, some, [], ◌∷◌, ok, err, ◌>>=◌, ◌>>◌, throw_if, ◌==◌,
}
use mpulse.Common.Int.{ℤ, pos, neg, leb_ℤ}
use mpulse.Common.Text.{Text, codes}
use mpulse.Coins.Types.{OperationType, Movement}
use mpulse.Coins.Repository.{get_balance, post_entry}
use mpulse.Wallets.Types.{
  WithdrawalStatus, QuoteStatus, WithdrawalQuote, Request, WalletDb, WalletError, Wallet, Answer,
  WalletHost,
}
use mpulse.Wallets.Parse.{parse_idempotency_key}
use mpulse.Wallets.Store.{
  required, from_ledger, find_withdrawal_by_idempotency, insert_request, find_quote,
  set_quote_status, insert_audit, insert_outbox, map_withdrawal, withdrawal_key, withdrawal_event,
}
use mpulse.Money.Decimal.{to_text}

pub record ConfirmInput : Type 0 where
  pub confirm_user : ℕ
  pub confirm_quote : Option ℕ
  pub confirm_key : Option Text

abbrev pub same_quote : Option ℕ → ℕ → Bool
same_quote none id = false
same_quote (some q) id = q == id

-- `Date.parse(expires_at) <= now`, which a time that does not parse fails.
abbrev pub is_past : Option ℤ → ℤ → Bool
is_past none now = false
is_past (some t) now = leb_ℤ t now

module _ (host : WalletHost) where
  unfoldable pub reserve_movement : ℕ → ℕ → WithdrawalQuote → Movement
  unfolding neg withdrawal_key
  reserve_movement user id q = record {
    user_id = user;
    operation_type = OperationType.withdrawal_reserve;
    available_delta = neg (pos q.coin_to_debit_micros);
    reserved_delta = pos q.coin_to_debit_micros;
    idempotency_key = withdrawal_key host id (codes "reserve");
    source_type = codes "withdrawal_request";
    source_id = host.uuid_text id;
    reason = codes "withdrawal_requested";
    external_reference = none;
    rate_snapshot_id = some q.rate_snapshot;
    admin_user_id = none;
    admin_actor = none;
    audit_metadata = host.json (
        (codes "withdrawalQuoteId", some (host.uuid_text q.quote_id))
        ∷ (codes "destinationAddress", some q.quote_destination)
        ∷ (codes "estimatedUsdtAtomic", some (to_text q.quote_estimated_usdt_atomic))
        ∷ (codes "reviewOnly", some (codes "true"))
        ∷ []);
  }

  unfoldable pub confirmed_request : ℕ → ℕ → Text → WithdrawalQuote → ℕ → Request
  confirmed_request user id key q entry = record {
    request_id = id;
    request_user = user;
    withdrawal_quote = some q.quote_id;
    destination_address = q.quote_destination;
    status = WithdrawalStatus.pending_review;
    request_key = key;
    provider = codes "internal_wallet";
    real_transfer_blocked = true;
    block_reason = some (codes "TRANSFERS_UNAVAILABLE");
    metadata_source = some (codes "coin_withdrawal");
    request_fingerprint = host.hash (
        host.json (
          (codes "quoteId", some (host.uuid_text q.quote_id))
          ∷ (codes "idempotencyKey", some key)
          ∷ []));
    coin_reserved_micros = some q.coin_to_debit_micros;
    coin_debited_micros = none;
    estimated_usdt_atomic = some q.quote_estimated_usdt_atomic;
    final_usdt_atomic = none;
    network_fee_usdt_atomic = some q.quote_network_fee;
    provider_fee_usdt_atomic = some q.quote_provider_fee;
    final_rate_snapshot = none;
    fireblocks_reference = none;
    failure_state = none;
    review_reason = none;
    reviewed_by_actor = none;
    reviewed_at = none;
    reserve_ledger_entry = some entry;
    final_ledger_entry = none;
    release_ledger_entry = none;
    created_at = host.now_text;
    updated_at = host.now_text;
  }

  -- A quote that is open and has not expired.
  unfoldable pub confirm_open : ℕ → Text → WithdrawalQuote → WalletDb → Wallet (Answer × WalletDb)
  confirm_open user key q db =
      let id = host.new_uuid 0 in
      do
        reserved ← from_ledger (post_entry (reserve_movement user id q) db.coins)
        let request = confirmed_request user id key q reserved.0.entry_sequence
        requests ← insert_request request db.requests
        saved ← map_withdrawal request
        balance ← from_ledger (get_balance user reserved.1)
        ok (
          record {
            withdrawal_request = saved;
            balance = some balance;
            ledger_entry = none;
            idempotent = false;
            accepted = false;
            reserve_held = false;
            retry_blocked_reason = none;
          },
          record db {
            coins = reserved.1;
            quotes = set_quote_status q.quote_id QuoteStatus.consumed db.quotes;
            requests = requests;
            audits = insert_audit (codes "wallet.withdrawal_coin_reserved") (some user) db.audits;
            outbox =
                insert_outbox
                  (withdrawal_event host id (codes "withdrawal.pending_review")
                    (codes "pending-review"))
                  db.outbox;
          },
        )

  -- Where an open quote has expired the code marks it so, and throws: the mark is rolled back.
  unfoldable pub confirm_status :
      QuoteStatus → ℕ → Text → WithdrawalQuote → WalletDb → Wallet (Answer × WalletDb)
  confirm_status QuoteStatus.consumed user key q db = err WalletError.withdrawal_quote_already_used
  confirm_status QuoteStatus.open_quote user key q db =
      throw_if (is_past (host.date_parse q.quote_expires_at) host.now)
        WalletError.withdrawal_quote_expired
      >> confirm_open user key q db
  confirm_status QuoteStatus.expired user key q db = err WalletError.withdrawal_quote_expired
  confirm_status QuoteStatus.cancelled_quote user key q db =
      err WalletError.withdrawal_quote_expired

  unfoldable pub confirm_found :
      Option Request → ℕ → ℕ → Text → WalletDb → Wallet (Answer × WalletDb)
  confirm_found (some existing) user quote key db = do
    throw_if (not (same_quote existing.withdrawal_quote quote))
        WalletError.idempotency_key_reuse_mismatch
    saved ← map_withdrawal existing
    balance ← from_ledger (get_balance user db.coins)
    ok (
      record {
        withdrawal_request = saved;
        balance = some balance;
        ledger_entry = none;
        idempotent = true;
        accepted = false;
        reserve_held = false;
        retry_blocked_reason = none;
      },
      db,
    )
  confirm_found none user quote key db = do
    q ← required WalletError.withdrawal_quote_not_found (find_quote quote user db.quotes)
    confirm_status q.quote_status user key q db

  unfoldable pub confirm_withdrawal : ConfirmInput → WalletDb → Wallet (Answer × WalletDb)
  confirm_withdrawal input db = do
    quote ← required WalletError.invalid_coin_wallet_request input.confirm_quote
    key ← parse_idempotency_key input.confirm_key
    confirm_found (find_withdrawal_by_idempotency input.confirm_user key db.requests)
        input.confirm_user quote key db
