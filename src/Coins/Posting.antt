-- ===== src/Coins/Posting.antt =====
-- migrations/031_coins_ledger_cutover.sql: `coin_post_ledger_entry` and the checks of its tables,
-- which `PostgresCoinLedgerRepository.postEntry` of src/coins.ts calls. An exception rolls the
-- statement back, so an error leaves the tables as they were. The row lock on the account makes
-- the calls for one user run one after another.
use mpulse.Common.{
  ℕ, suc, ◌-◌, ◌^◌, Bool, true, false, not, ◌&&◌, ◌||◌, Option, none, some, List, [], ◌∷◌, Result,
  ok, err, ◌>>=◌, ◌>>◌, throw_if, ◌==◌, if◌then◌else◌,
}
use mpulse.Common.Int.{ℤ, pos, negsuc, neg, ◌+ℤ◌, ltb_ℤ, leb_ℤ, eqb_ℤ}
use mpulse.Common.Text.{Text}
use mpulse.Common.Equality.{from_dec, Text-discrete, OptionText-discrete, OptionNat-discrete}
use mpulse.Coins.Types.{
  OperationType, OperationType-discrete, Movement, Entry, Account, ActiveSystem, CoinDb, PgError,
}

abbrev pub max_bigint : ℕ
max_bigint = 2 ^ 63 - 1

-- `a + b` on `bigint`, which raises where the sum does not fit.
unfoldable pub add_bigint : ℤ → ℤ → Result PgError ℤ
add_bigint a b =
    if leb_ℤ (a +ℤ b) (pos max_bigint) && leb_ℤ (negsuc max_bigint) (a +ℤ b)
    then ok (a +ℤ b)
    else err PgError.bigint_out_of_range

-- `v + delta < 0` raises; the sum is what the update stores.
unfoldable pub sum_in_funds : ℤ → ℤ → Result PgError ℤ
sum_in_funds a b = do
  total ← add_bigint a b
  throw_if (ltb_ℤ total (pos 0)) PgError.insufficient_coin_balance
  ok total

-- The gate on `money_system_state`.
unfoldable pub posting_allowed : Option ActiveSystem → OperationType → Bool
posting_allowed none op = false
posting_allowed (some ActiveSystem.coin) op = true
posting_allowed (some ActiveSystem.migrating) OperationType.migration_credit = true
posting_allowed (some _) _ = false

unfoldable pub find_account : ℕ → List Account → Option Account
find_account user [] = none
find_account user (a ∷ accounts) =
    if a.account_user == user then some a else find_account user accounts

-- `insert ... on conflict (user_id) do nothing`
unfoldable pub ensure_account : ℕ → List Account → List Account
ensure_account user accounts = elim (find_account user accounts) [
  | some _ ↦ accounts
  | none ↦ record { account_user = user; available = pos 0; reserved = pos 0 } ∷ accounts
]

-- `update coin_accounts set ... where id = v_account.id`
unfoldable pub update_account : ℕ → ℤ → ℤ → List Account → List Account
update_account user available reserved [] = []
update_account user available reserved (a ∷ accounts) =
    if a.account_user == user
    then record a { available = available; reserved = reserved } ∷ accounts
    else a ∷ update_account user available reserved accounts

-- `where account_id = v_account.id and idempotency_key = p_idempotency_key`
unfoldable pub find_entry : ℕ → Text → List Entry → Option Entry
find_entry user key [] = none
find_entry user key (e ∷ entries) =
    if e.movement.user_id == user && from_dec (Text-discrete e.movement.idempotency_key key)
    then some e
    else find_entry user key entries

-- The ten comparisons of a replay; the metadata is not compared.
unfoldable pub same_movement : Movement → Movement → Bool
same_movement a b =
    from_dec (OperationType-discrete a.operation_type b.operation_type)
    && eqb_ℤ a.available_delta b.available_delta
    && eqb_ℤ a.reserved_delta b.reserved_delta
    && from_dec (Text-discrete a.source_type b.source_type)
    && from_dec (Text-discrete a.source_id b.source_id)
    && from_dec (Text-discrete a.reason b.reason)
    && from_dec (OptionText-discrete a.external_reference b.external_reference)
    && from_dec (OptionNat-discrete a.rate_snapshot_id b.rate_snapshot_id)
    && from_dec (OptionNat-discrete a.admin_user_id b.admin_user_id)
    && from_dec (OptionText-discrete a.admin_actor b.admin_actor)

-- `length(btrim(s)) > 0`: SQL trims blanks only.
unfoldable pub not_blank : Text → Bool
not_blank [] = false
not_blank (c ∷ s) = not (c == 32) || not_blank s

abbrev is_some : {A : Type 0} → Option A → Bool
is_some none = false
is_some (some _) = true

unfoldable pub has_admin : Movement → Bool
unfolding not_blank
has_admin m =
    is_some m.admin_user_id || elim m.admin_actor [ none ↦ false | some actor ↦ not_blank actor ]

-- The signs that the table checks for each operation type.
unfoldable pub delta_shape : OperationType → ℤ → ℤ → Bool
unfolding ◌+ℤ◌ neg
delta_shape op available reserved =
    let credit = ltb_ℤ (pos 0) available && eqb_ℤ reserved (pos 0) in
    let debit = ltb_ℤ available (pos 0) && eqb_ℤ reserved (pos 0) in
    let hold = ltb_ℤ available (pos 0) && eqb_ℤ reserved (neg available) in
    let free = ltb_ℤ (pos 0) available && eqb_ℤ reserved (neg available) in
    let spend = eqb_ℤ available (pos 0) && ltb_ℤ reserved (pos 0) in
    elim op [
      | OperationType.crypto_deposit_credit ↦ credit
      | OperationType.refund_credit ↦ credit
      | OperationType.bonus_credit ↦ credit
      | OperationType.admin_credit ↦ credit
      | OperationType.correction_credit ↦ credit
      | OperationType.trade_settlement_credit ↦ credit
      | OperationType.withdrawal_reserve ↦ hold
      | OperationType.trade_reserve ↦ hold
      | OperationType.withdrawal_release ↦ free
      | OperationType.trade_release ↦ free
      | OperationType.withdrawal_debit ↦ spend
      | OperationType.trade_debit ↦ spend
      | OperationType.reversed_deposit ↦ debit
      | OperationType.admin_debit ↦ debit
      | OperationType.correction_debit ↦ debit
      | OperationType.fee_debit ↦ ltb_ℤ (available +ℤ reserved) (pos 0)
      | OperationType.migration_credit ↦ leb_ℤ (pos 0) available && leb_ℤ (pos 0) reserved
    ]

unfoldable pub needs_admin : OperationType → Bool
needs_admin OperationType.admin_credit = true
needs_admin OperationType.admin_debit = true
needs_admin OperationType.correction_credit = true
needs_admin OperationType.correction_debit = true
needs_admin _ = false

-- The checks of `coin_ledger_entries` on a new row, but those on the balances after it, which the
-- function has tested before.
unfoldable pub entry_checks : Movement → Bool
entry_checks m =
    not_blank m.idempotency_key
    && not_blank m.source_type
    && not_blank m.source_id
    && not_blank m.reason
    && not (eqb_ℤ m.available_delta (pos 0) && eqb_ℤ m.reserved_delta (pos 0))
    && (not (needs_admin m.operation_type) || has_admin m)
    && delta_shape m.operation_type m.available_delta m.reserved_delta

-- The account is updated and the entry is inserted.
unfoldable pub record_movement : Movement → ℤ → ℤ → List Account → CoinDb → Entry × CoinDb
record_movement m available reserved accounts db =
    let entry : Entry = record {
      entry_sequence = db.next_sequence;
      movement = m;
      available_after = available;
      reserved_after = reserved;
    } in
    (
      entry,
      record db {
        accounts = update_account m.user_id available reserved accounts;
        entries = entry ∷ db.entries;
        next_sequence = suc db.next_sequence;
      },
    )

-- A movement whose key is new for the account.
unfoldable pub post_new :
    Movement → Account → List Account → CoinDb → Result PgError (Entry × CoinDb)
post_new m account accounts db = do
  available ← sum_in_funds account.available m.available_delta
  reserved ← sum_in_funds account.reserved m.reserved_delta
  throw_if (not (entry_checks m)) PgError.check_violation
  ok (record_movement m available reserved accounts db)

-- A movement whose key the account has used.
unfoldable pub post_replay :
    Movement → Entry → List Account → CoinDb → Result PgError (Entry × CoinDb)
post_replay m existing accounts db =
    if same_movement existing.movement m
    then ok (existing, record db { accounts = accounts })
    else err PgError.idempotency_key_reuse_mismatch

unfoldable pub post_to_account :
    Movement
    → Option Account
    → Option Entry
    → List Account
    → CoinDb
    → Result PgError (Entry × CoinDb)
post_to_account m none found accounts db = err PgError.check_violation
post_to_account m (some account) none accounts db = post_new m account accounts db
post_to_account m (some account) (some existing) accounts db = post_replay m existing accounts db

unfoldable pub post_ledger_entry : Movement → CoinDb → Result PgError (Entry × CoinDb)
post_ledger_entry m db =
    let accounts = ensure_account m.user_id db.accounts in
    if posting_allowed db.active_system m.operation_type
    then post_to_account m (find_account m.user_id accounts)
        (find_entry m.user_id m.idempotency_key db.entries) accounts db
    else err PgError.cutover_incomplete
