-- ===== src/Coins/Replay.antt =====
-- Idempotency: a key that an account has used gives its entry back, or is refused.
use mpulse.Common.{
  ◌≡◌, refl, ◌∙◌, true, some, List, ◌∷◌, inl, inr, ok, err, arith, if◌then◌else◌, Bool-cases,
  ==_iff,
}
use mpulse.Common.Int.{ℤ, eqb_ℤ→eq, eqb_ℤ_refl}
use mpulse.Common.Equality.{
  from_dec→eq, eq→from_dec, Text-discrete, OptionText-discrete, OptionNat-discrete,
}
use mpulse.Coins.Types.{OperationType-discrete, Movement, Entry, Account, CoinDb, PgError}
use mpulse.Coins.Posting.{
  posting_allowed, find_account, update_account, find_entry, same_movement, record_movement,
  post_to_account, post_replay, post_ledger_entry,
}
use mpulse.Coins.Accounts.{
  find_account-ensured, ensure_account_twice, find_account-update, find_account-ensure_some,
}
use mpulse.Coins.Outcome.{ensured, Outcome, replayed, recorded, post_ledger_entry-Outcome}

-- The fields that a replay has to repeat.
pub record Agrees (a b : Movement) : Type 0 where
  pub operation_type : a.operation_type ≡ b.operation_type
  pub available_delta : a.available_delta ≡ b.available_delta
  pub reserved_delta : a.reserved_delta ≡ b.reserved_delta
  pub source_type : a.source_type ≡ b.source_type
  pub source_id : a.source_id ≡ b.source_id
  pub reason : a.reason ≡ b.reason
  pub external_reference : a.external_reference ≡ b.external_reference
  pub rate_snapshot_id : a.rate_snapshot_id ≡ b.rate_snapshot_id
  pub admin_user_id : a.admin_user_id ≡ b.admin_user_id
  pub admin_actor : a.admin_actor ≡ b.admin_actor

same_movement→Agrees : (a b : Movement) → same_movement a b ≡ true → Agrees a b
unfolding same_movement
same_movement→Agrees a b h = ground (
  arith,
  from_dec→eq (OperationType-discrete a.operation_type b.operation_type),
  eqb_ℤ→eq a.available_delta b.available_delta,
  eqb_ℤ→eq a.reserved_delta b.reserved_delta,
  from_dec→eq (Text-discrete a.source_type b.source_type),
  from_dec→eq (Text-discrete a.source_id b.source_id),
  from_dec→eq (Text-discrete a.reason b.reason),
  from_dec→eq (OptionText-discrete a.external_reference b.external_reference),
  from_dec→eq (OptionNat-discrete a.rate_snapshot_id b.rate_snapshot_id),
  from_dec→eq (OptionNat-discrete a.admin_user_id b.admin_user_id),
  from_dec→eq (OptionText-discrete a.admin_actor b.admin_actor),
)

Agrees→same_movement : (a b : Movement) → Agrees a b → same_movement a b ≡ true
unfolding same_movement
Agrees→same_movement a b h = rw (
  eq→from_dec (OperationType-discrete a.operation_type b.operation_type) h.operation_type,
  h.available_delta,
  eqb_ℤ_refl b.available_delta,
  h.reserved_delta,
  eqb_ℤ_refl b.reserved_delta,
  eq→from_dec (Text-discrete a.source_type b.source_type) h.source_type,
  eq→from_dec (Text-discrete a.source_id b.source_id) h.source_id,
  eq→from_dec (Text-discrete a.reason b.reason) h.reason,
  eq→from_dec (OptionText-discrete a.external_reference b.external_reference) h.external_reference,
  eq→from_dec (OptionNat-discrete a.rate_snapshot_id b.rate_snapshot_id) h.rate_snapshot_id,
  eq→from_dec (OptionNat-discrete a.admin_user_id b.admin_user_id) h.admin_user_id,
  eq→from_dec (OptionText-discrete a.admin_actor b.admin_actor) h.admin_actor,
)

Agrees-refl : (a : Movement) → Agrees a a
Agrees-refl a = ground arith

module _ (m : Movement) (db : CoinDb) (e : Entry)
    (allowed : posting_allowed db.active_system m.operation_type ≡ true)
    (found : find_entry m.user_id m.idempotency_key db.entries ≡ some e) where
  post_found : post_ledger_entry m db ≡ (
      if same_movement e.movement m
      then ok (e, record db { accounts = ensured m db })
      else err PgError.idempotency_key_reuse_mismatch)
  unfolding post_ledger_entry post_to_account post_replay
  post_found = rw (allowed, found, (find_account-ensured m.user_id db.accounts).1)

-- A key that the account has used, where posting is allowed: the post succeeds exactly when the
-- ten compared fields agree with the stored movement, and then it gives the stored entry and adds
-- none; otherwise it is refused as a mismatch.
pub key_reuse :
    (m : Movement) (db : CoinDb) (e : Entry)
    → posting_allowed db.active_system m.operation_type ≡ true
    → find_entry m.user_id m.idempotency_key db.entries ≡ some e
    → (Agrees e.movement m → post_ledger_entry m db ≡ ok (e, record db { accounts = ensured m db }))
      × (¬ Agrees e.movement m
          → post_ledger_entry m db ≡ err PgError.idempotency_key_reuse_mismatch)
key_reuse m db e allowed found = (
  λ agrees. post_found m db e allowed found ∙ rw (Agrees→same_movement e.movement m agrees),
  λ differs. post_found m db e allowed found ∙ elim (Bool-cases (same_movement e.movement m)) [
    | inl same ↦ absurd (differs (same_movement→Agrees e.movement m same))
    | inr other ↦ rw other
  ],
)

find_entry_self :
    (e : Entry) (entries : List Entry)
    → find_entry e.movement.user_id e.movement.idempotency_key (e ∷ entries) ≡ some e
unfolding find_entry
find_entry_self e entries = rw (
  (==_iff e.movement.user_id _).1 refl,
  eq→from_dec (Text-discrete e.movement.idempotency_key e.movement.idempotency_key) refl,
)

again_recorded :
    (m : Movement) (db : CoinDb) (account : Account) (x y : ℤ)
    → posting_allowed db.active_system m.operation_type ≡ true
    → find_account m.user_id (ensured m db) ≡ some account
    → let p = record_movement m x y (ensured m db) db in post_ledger_entry m p.1 ≡ ok p
unfolding record_movement
again_recorded m db account x y allowed found =
    let p = record_movement m x y (ensured m db) db in
    post_found m p.1 p.0 allowed (find_entry_self p.0 db.entries)
    ∙ rw (
      Agrees→same_movement m m (Agrees-refl m),
      find_account-ensure_some m.user_id (update_account m.user_id x y (ensured m db)) _
          (find_account-update m.user_id x y (ensured m db) account found),
    )

-- A post that has succeeded can be repeated: the same entry comes back, and nothing more changes.
pub post_twice :
    (m : Movement) (db : CoinDb) (p : Entry × CoinDb)
    → post_ledger_entry m db ≡ ok p
    → post_ledger_entry m p.1 ≡ ok p
post_twice m db p h =
    let (allowed, outcome) = post_ledger_entry-Outcome m db p h in again allowed outcome
  where
    again :
        posting_allowed db.active_system m.operation_type ≡ true
        → Outcome m db p
        → post_ledger_entry m p.1 ≡ ok p
    again allowed (replayed e found same r) = rw (
      r,
      post_found m (record db { accounts = ensured m db }) e allowed found,
      same,
      ensure_account_twice,
    )
    again allowed (recorded account found unused r) =
        rw r.result (again_recorded m db account r.available r.reserved allowed found)
