-- ===== src/Deposits/Reverse.antt =====
-- src/coinWallets.ts: `reverseDeposit`, after the provider has taken a transfer back.
use mpulse.Common.{ℕ, Bool, true, false, ◌&&◌, Option, none, some, [], ◌∷◌, ok, ◌>>=◌}
use mpulse.Common.Int.{ℤ, pos, neg, ltb_ℤ}
use mpulse.Common.Text.{Text, codes}
use mpulse.Coins.Types.{OperationType, Movement, Account}
use mpulse.Coins.Posting.{find_account}
use mpulse.Coins.Repository.{post_entry}
use mpulse.Wallets.Types.{Wallet, WalletHost}
use mpulse.Wallets.Store.{from_ledger, insert_audit, insert_outbox, is_some}
use mpulse.Deposits.Types.{DepositStatus, Deposit, Event, DepositDb, Processed}
use mpulse.Deposits.Store.{
  update_deposit, with_state, find_rate, find_entry_of, deposit_key, deposit_row_event,
}

-- `["credited", "reversal_pending", "reversing"]`
abbrev pub is_reversible : DepositStatus → Bool
is_reversible DepositStatus.credited = true
is_reversible DepositStatus.reversal_pending = true
is_reversible DepositStatus.reversing = true
is_reversible _ = false

abbrev pub is_reversed : DepositStatus → Bool
is_reversed DepositStatus.reversed = true
is_reversed _ = false

-- `account.rows[0]?.available_coin_micros ?? "0"`
abbrev pub available_of : Option Account → ℤ
available_of none = pos 0
available_of (some a) = a.available

abbrev uuid_or_none : WalletHost → Option ℕ → Option Text
uuid_or_none host none = none
uuid_or_none host (some id) = some (host.uuid_text id)

module _ (host : WalletHost) (e : Event) where
  unfoldable pub reversal_movement : ℕ → ℕ → Deposit → Movement
  unfolding neg deposit_key
  reversal_movement user amount d = record {
    user_id = user;
    operation_type = OperationType.reversed_deposit;
    available_delta = neg (pos amount);
    reserved_delta = pos 0;
    idempotency_key = deposit_key host d.deposit_id (codes "reversal");
    source_type = codes "crypto_deposit";
    source_id = host.uuid_text d.deposit_id;
    reason = codes "provider_reversal_or_chain_reorg";
    external_reference = some d.tx_hash;
    rate_snapshot_id = d.deposit_rate;
    admin_user_id = none;
    admin_actor = none;
    audit_metadata = host.json (
        (codes "providerEventId", some e.provider_event_id)
        ∷ (codes "providerStatus", some e.provider_status)
        ∷ (codes "originalLedgerEntryId", uuid_or_none host d.credit_entry)
        ∷ []);
  }

  unfoldable pub reversed_deposit_row : ℕ → Deposit → Deposit
  reversed_deposit_row entry d = record d {
    deposit_status = DepositStatus.reversed;
    reversal_entry = some entry;
    manual_review_reason = some (codes "PROVIDER_REVERSAL_OR_REORG");
  }

  abbrev before_credit : Deposit → Deposit
  before_credit =
      with_state DepositStatus.rejected e.confirmations
        (some (codes "PROVIDER_REVERSAL_BEFORE_CREDIT")) none

  abbrev insufficient : Deposit → Deposit
  insufficient =
      with_state DepositStatus.reversal_pending e.confirmations
        (some (codes "REVERSAL_INSUFFICIENT_AVAILABLE_COINS")) none

  -- Nothing was credited.
  unfoldable pub reject_deposit : Deposit → DepositDb → Processed × DepositDb
  reject_deposit d db = (
    record {
      processed_deposit = some (before_credit d);
      processed_rate = none;
      processed_entry = none;
      repeated = false;
      credit_blocked_reason = some (codes "PROVIDER_REVERSAL_BEFORE_CREDIT");
      conflict = false;
    },
    record db {
      deposits = update_deposit d.deposit_id before_credit db.deposits;
      audits =
          insert_audit (codes "wallet.deposit_reversed_before_credit") d.deposit_user db.audits;
    },
  )

  unfoldable pub hold_reversal : ℕ → Deposit → DepositDb → Processed × DepositDb
  unfolding find_rate
  hold_reversal user d db = (
    record {
      processed_deposit = some (insufficient d);
      processed_rate = find_rate d.deposit_rate db;
      processed_entry = none;
      repeated = false;
      credit_blocked_reason = some (codes "REVERSAL_INSUFFICIENT_AVAILABLE_COINS");
      conflict = false;
    },
    record db {
      deposits = update_deposit d.deposit_id insufficient db.deposits;
      audits = insert_audit (codes "wallet.deposit_reversal_pending") (some user) db.audits;
      outbox =
          insert_outbox
            (deposit_row_event host d.deposit_id (codes "crypto_deposit.reversal_pending")
              (codes "reversal-pending"))
            db.outbox;
    },
  )

  unfoldable pub post_reversal : ℕ → ℕ → Deposit → DepositDb → Wallet (Processed × DepositDb)
  unfolding find_rate
  post_reversal user amount d db = do
    posted ← from_ledger (post_entry (reversal_movement user amount d) db.coins)
    let change = reversed_deposit_row posted.0.entry_sequence
    ok (
      record {
        processed_deposit = some (change d);
        processed_rate = find_rate d.deposit_rate db;
        processed_entry = some posted.0;
        repeated = false;
        credit_blocked_reason = none;
        conflict = false;
      },
      record db {
        coins = posted.1;
        deposits = update_deposit d.deposit_id change db.deposits;
        audits = insert_audit (codes "wallet.deposit_coin_reversed") (some user) db.audits;
        outbox =
            insert_outbox
              (deposit_row_event host d.deposit_id (codes "crypto_deposit.reversed")
                (codes "reversed"))
              db.outbox;
      },
    )

  unfoldable pub reverse_funded :
      Bool → ℕ → ℕ → Deposit → DepositDb → Wallet (Processed × DepositDb)
  reverse_funded true user amount d db = ok (hold_reversal user d db)
  reverse_funded false user amount d db = post_reversal user amount d db

  unfoldable pub reverse_credited :
      Bool → Option ℕ → Option ℕ → Deposit → DepositDb → Wallet (Processed × DepositDb)
  reverse_credited true (some user) (some amount) d db =
      reverse_funded (ltb_ℤ (available_of (find_account user db.coins.accounts)) (pos amount)) user
        amount d db
  reverse_credited _ _ _ d db = ok (reject_deposit d db)

  unfoldable pub reverse_again : Bool → Deposit → DepositDb → Wallet (Processed × DepositDb)
  unfolding find_rate find_entry_of
  reverse_again true d db = do
    entry ← find_entry_of d.reversal_entry db
    ok (
      record {
        processed_deposit = some d;
        processed_rate = find_rate d.deposit_rate db;
        processed_entry = entry;
        repeated = true;
        credit_blocked_reason = none;
        conflict = false;
      },
      db,
    )
  reverse_again false d db =
      reverse_credited (is_reversible d.deposit_status) d.deposit_user d.credited_coin_micros d db

  unfoldable pub reverse_deposit : Deposit → DepositDb → Wallet (Processed × DepositDb)
  reverse_deposit d db =
      reverse_again (is_reversed d.deposit_status && is_some d.reversal_entry) d db
