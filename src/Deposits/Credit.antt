-- ===== src/Deposits/Credit.antt =====
-- src/coinWallets.ts: `creditDeposit`.
use mpulse.Common.{
  ℕ, ◌/◌, Bool, true, false, Option, none, some, [], ◌∷◌, max, Result, ok, err, ◌>>=◌, ◌>>◌,
  throw_if,
}
use mpulse.Common.Int.{ℤ, pos, pos_part, ◌-ℤ◌, leb_ℤ}
use mpulse.Common.Text.{Text, codes}
use mpulse.Money.Error.{RoundingMode}
use mpulse.Money.Units.{usdt_atomic}
use mpulse.Money.Decimal.{to_text}
use mpulse.Money.Arithmetic.{usdt_to_coin_micros}
use mpulse.ExchangeRates.{RatePurpose, RateKind, UsdQuote, ExchangeRateError, validate_usd_quote}
use mpulse.Coins.Types.{OperationType, Movement}
use mpulse.Coins.Repository.{post_entry}
use mpulse.Wallets.Types.{RateSnapshot, WalletError, Wallet, WalletHost}
use mpulse.Wallets.Store.{from_ledger, insert_audit, insert_outbox}
use mpulse.Wallets.Quotes.{as_money}
use mpulse.Deposits.Types.{DepositStatus, Deposit, DepositDb, Processed}
use mpulse.Deposits.Store.{
  update_deposit, set_credited, coalesce_text, find_rate, find_entry_of, deposit_key,
  deposit_row_event,
}

-- A rate error that is thrown on as it is.
abbrev as_rate : {A : Type 0} → Result ExchangeRateError A → Wallet A
as_rate (ok a) = ok a
as_rate (err e) = err (WalletError.rate_failed e)

-- `Math.max(1, Math.floor((expires - quoted) / 1000))`; a time that does not parse fails the quote
-- whatever the number is.
abbrev quote_span : Option ℤ → Option ℤ → ℤ
quote_span (some quoted) (some expires) = pos (max 1 (pos_part (expires -ℤ quoted) / 1000))
quote_span _ _ = pos 1

abbrev reason_of : Option (Text × Text) → Text
reason_of none = codes "confirmed_usdt_deposit"
reason_of (some (actor, reason)) = reason

abbrev actor_of : Option (Text × Text) → Option Text
actor_of none = none
actor_of (some (actor, reason)) = some actor

abbrev pub is_credited : DepositStatus → Bool
is_credited DepositStatus.credited = true
is_credited _ = false

module _ (host : WalletHost) (provider_event : Text) (admin : Option (Text × Text)) where
  unfoldable pub credit_movement : ℕ → ℕ → ℕ → Deposit → Movement
  unfolding deposit_key
  credit_movement user amount snapshot d = record {
    user_id = user;
    operation_type = OperationType.crypto_deposit_credit;
    available_delta = pos amount;
    reserved_delta = pos 0;
    idempotency_key = deposit_key host d.deposit_id (codes "credit");
    source_type = codes "crypto_deposit";
    source_id = host.uuid_text d.deposit_id;
    reason = reason_of admin;
    external_reference = some d.tx_hash;
    rate_snapshot_id = some snapshot;
    admin_user_id = none;
    admin_actor = none;
    audit_metadata = host.json (
        (codes "provider", some (codes "fireblocks"))
        ∷ (codes "providerEventId", some provider_event)
        ∷ (codes "providerTransactionId", d.deposit_transaction)
        ∷ (codes "blockchainTxHash", some d.tx_hash)
        ∷ (codes "eventIndex", some d.chain_index)
        ∷ (codes "tokenContract", some d.contract)
        ∷ (codes "destinationAddress", some d.deposit_address)
        ∷ (codes "grossUsdtAtomic", some (to_text d.gross_usdt))
        ∷ (codes "netUsdtAtomic", some (to_text d.net_usdt))
        ∷ (codes "rateSnapshotId", some (host.uuid_text snapshot))
        ∷ (codes "adminActor", actor_of admin)
        ∷ []);
  }

  unfoldable pub credited_deposit : ℕ → ℕ → ℕ → Deposit → Deposit
  credited_deposit amount snapshot entry d = record d {
    deposit_status = DepositStatus.credited;
    deposit_rate = some snapshot;
    credited_coin_micros = some amount;
    credit_entry = some entry;
    manual_review_reason = none;
    confirmed_at = coalesce_text d.confirmed_at (some host.now_text);
    credited_at = some host.now_text;
  }

  -- The Coins for a net amount at the rate of a quote that is valid now.
  unfoldable pub credited_amount : Deposit → UsdQuote → Wallet ℕ
  unfolding ◌-ℤ◌
  credited_amount d quote = do
    net ← as_money (usdt_atomic (pos d.net_usdt) false)
    valid ← as_rate (
        validate_usd_quote host.date_parse quote record {
          ttl_seconds =
              quote_span (host.date_parse quote.quoted_at) (host.date_parse quote.expires_at);
          now = host.now;
          expected_purpose = some RatePurpose.deposit_final;
          expected_kind = some RateKind.final;
          expected_amount_usdt_atomic = some net;
        })
    amount ← as_money (usdt_to_coin_micros net quote.usd_rate_nanos RoundingMode.down)
    throw_if (leb_ℤ amount (pos 0)) WalletError.invalid_coin_amount
    ok (pos_part amount)

  unfoldable pub credit_owner :
      ℕ → ℕ → UsdQuote → Deposit → DepositDb → Wallet (Processed × DepositDb)
  credit_owner user intent quote d db =
      let snapshot = host.new_uuid 2 in
      let rate : RateSnapshot = record { snapshot_id = snapshot; snapshot_quote = quote } in
      do
        amount ← credited_amount d quote
        posted ← from_ledger (post_entry (credit_movement user amount snapshot d) db.coins)
        let change = credited_deposit amount snapshot posted.0.entry_sequence
        ok (
          record {
            processed_deposit = some (change d);
            processed_rate = some rate;
            processed_entry = some posted.0;
            repeated = false;
            credit_blocked_reason = none;
            conflict = false;
          },
          record db {
            coins = posted.1;
            deposits = update_deposit d.deposit_id change db.deposits;
            intents = set_credited intent db.intents;
            snapshots = rate ∷ db.snapshots;
            audits = insert_audit (codes "wallet.deposit_coin_credited") (some user) db.audits;
            outbox =
                insert_outbox
                  (deposit_row_event host d.deposit_id (codes "crypto_deposit.credited")
                    (codes "credited"))
                  db.outbox;
          },
        )

  unfoldable pub credit_once :
      Bool → ℕ → ℕ → UsdQuote → Deposit → DepositDb → Wallet (Processed × DepositDb)
  unfolding find_rate find_entry_of
  credit_once true user intent quote d db = do
    entry ← find_entry_of d.credit_entry db
    ok (
      record {
        processed_deposit = some d;
        processed_rate = find_rate d.deposit_rate db;
        processed_entry = entry;
        repeated = true;
        credit_blocked_reason = none;
        conflict = false;
      },
      db,
    )
  credit_once false user intent quote d db = credit_owner user intent quote d db

  unfoldable pub credit_for :
      Option ℕ → Option ℕ → UsdQuote → Deposit → DepositDb → Wallet (Processed × DepositDb)
  credit_for (some user) (some intent) quote d db =
      credit_once (is_credited d.deposit_status) user intent quote d db
  credit_for _ _ quote d db = err WalletError.deposit_not_retryable

  unfoldable pub credit_deposit : UsdQuote → Deposit → DepositDb → Wallet (Processed × DepositDb)
  credit_deposit quote d db = credit_for d.deposit_user d.deposit_intent quote d db
