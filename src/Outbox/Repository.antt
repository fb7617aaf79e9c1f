-- ===== src/Outbox/Repository.antt =====
-- src/moneyOutbox.ts: `PostgresMoneyOutboxRepository`, one definition for a statement of its SQL.
-- `now` is the database's `now()`. `held` tells the rows that another transaction has locked, which
-- `for update skip locked` passes over; `token` gives each row its `gen_random_uuid()`.
use mpulse.Common.{
  ℕ, ◌+◌, Bool, true, false, not, ◌&&◌, ◌||◌, Option, none, some, List, [], ◌∷◌, map, if◌then◌else◌,
  ltb, leb, ◌==◌, filter, length, take,
}
use mpulse.Common.Text.{Text, codes}
use mpulse.Outbox.Types.{MoneyOutboxStatus, OutboxRow, Table, OutboxEvent, RecordFailureResult}

-- `locked_at is null or locked_at <= now() - lease`
unfoldable pub lease_expired : ℕ → ℕ → OutboxRow → Bool
lease_expired now lease r = elim r.locked_at [ none ↦ true | some at ↦ leb (at + lease) now ]

unfoldable pub is_exhausted : ℕ → ℕ → ℕ → OutboxRow → Bool
is_exhausted now lease max_attempts r = leb max_attempts r.attempts && elim r.status [
  | MoneyOutboxStatus.pending ↦ true
  | MoneyOutboxStatus.failed ↦ true
  | MoneyOutboxStatus.processing ↦ lease_expired now lease r
  | MoneyOutboxStatus.sent ↦ false
  | MoneyOutboxStatus.dead_letter ↦ false
]

unfoldable pub is_claimable : ℕ → ℕ → ℕ → OutboxRow → Bool
is_claimable now lease max_attempts r = ltb r.attempts max_attempts && elim r.status [
  | MoneyOutboxStatus.pending ↦ leb r.available_at now
  | MoneyOutboxStatus.failed ↦ leb r.available_at now
  | MoneyOutboxStatus.processing ↦ lease_expired now lease r
  | MoneyOutboxStatus.sent ↦ false
  | MoneyOutboxStatus.dead_letter ↦ false
]

-- `order by available_at, created_at, id`
unfoldable pub is_before : OutboxRow → OutboxRow → Bool
is_before a b =
    ltb a.available_at b.available_at
    || a.available_at == b.available_at
      && (ltb a.created_at b.created_at || a.created_at == b.created_at && ltb a.id b.id)

unfoldable pub insert_row : OutboxRow → Table → Table
insert_row r [] = r ∷ []
insert_row r (q ∷ rows) = if is_before q r then q ∷ insert_row r rows else r ∷ q ∷ rows

unfoldable pub order_rows : Table → Table
order_rows [] = []
order_rows (r ∷ rows) = insert_row r (order_rows rows)

unfoldable pub has_id : ℕ → Table → Bool
has_id id [] = false
has_id id (r ∷ rows) = r.id == id || has_id id rows

-- The rows of a `with ... for update skip locked limit n`.
unfoldable pub picked : (OutboxRow → Bool) → (ℕ → Bool) → ℕ → Table → Table
picked test held limit table =
    take limit (order_rows (filter (λ r. test r && not (held r.id)) table))

-- An `update ... from picked where events.id = picked.id`.
unfoldable pub update_picked : (OutboxRow → OutboxRow) → Table → Table → Table
update_picked change chosen table = map (λ r. if has_id r.id chosen then change r else r) table

unfoldable pub exhausted_row : ℕ → OutboxRow → OutboxRow
exhausted_row now r = record r {
  status = MoneyOutboxStatus.dead_letter;
  dead_lettered_at = some now;
  locked_at = none;
  locked_by = none;
  lock_token = none;
  last_error = elim r.last_error [
    | some e ↦ some e
    | none ↦ some (codes "Maximum delivery attempts exhausted before claim.")
  ];
  updated_at = now;
}

unfoldable pub dead_letter_exhausted : ℕ → (ℕ → Bool) → ℕ → ℕ → ℕ → Table → ℕ × Table
dead_letter_exhausted now held max_attempts lease limit table =
    let chosen = picked (is_exhausted now lease max_attempts) held limit table in
    (
      length (filter (λ r. has_id r.id chosen) table),
      update_picked (exhausted_row now) chosen table,
    )

unfoldable pub claimed_row : ℕ → (ℕ → ℕ) → Text → OutboxRow → OutboxRow
claimed_row now token worker r = record r {
  status = MoneyOutboxStatus.processing;
  attempts = r.attempts + 1;
  locked_at = some now;
  locked_by = some worker;
  lock_token = some (token r.id);
  last_attempt_at = some now;
  updated_at = now;
}

-- The rows that the claim returns, and the table after it.
unfoldable pub claim_rows : ℕ → (ℕ → Bool) → (ℕ → ℕ) → Text → ℕ → ℕ → ℕ → Table → Table × Table
claim_rows now held token worker batch_size lease max_attempts table =
    let chosen = picked (is_claimable now lease max_attempts) held batch_size table in
    (
      map (claimed_row now token worker) (filter (λ r. has_id r.id chosen) table),
      update_picked (claimed_row now token worker) chosen table,
    )

-- `none`: the row has no lock token, and the code throws.
unfoldable pub map_claimed_row : OutboxRow → Option OutboxEvent
map_claimed_row r = elim r.lock_token [
  | none ↦ none
  | some token ↦ some (record {
    event_id = r.id;
    event_aggregate_type = r.aggregate_type;
    event_aggregate_id = r.aggregate_id;
    event_kind = r.event_type;
    event_idempotency_key = r.idempotency_key;
    event_payload = r.payload;
    event_status = r.status;
    attempt = r.attempts;
    event_available_at = r.available_at;
    event_created_at = r.created_at;
    event_lock_token = token;
  })
]

unfoldable pub map_claimed_rows : Table → Option (List OutboxEvent)
map_claimed_rows [] = some []
map_claimed_rows (r ∷ rows) = elim (map_claimed_row r) [
  | none ↦ none
  | some e ↦ elim (map_claimed_rows rows) [ none ↦ none | some events ↦ some (e ∷ events) ]
]

abbrev holds_token : Option ℕ → ℕ → Bool
holds_token none token = false
holds_token (some t) token = t == token

abbrev is_processing : MoneyOutboxStatus → Bool
is_processing MoneyOutboxStatus.processing = true
is_processing _ = false

-- `where id = $1 and status = 'processing' and lock_token = $2`
unfoldable pub is_leased : ℕ → ℕ → OutboxRow → Bool
is_leased id token r = r.id == id && is_processing r.status && holds_token r.lock_token token

unfoldable pub sent_row : ℕ → OutboxRow → OutboxRow
sent_row now r = record r {
  status = MoneyOutboxStatus.sent;
  processed_at = some now;
  last_error = none;
  locked_at = none;
  locked_by = none;
  lock_token = none;
  updated_at = now;
}

unfoldable pub update_leased : ℕ → ℕ → (OutboxRow → OutboxRow) → Table → Table
update_leased id token change table = map (λ r. if is_leased id token r then change r else r) table

unfoldable pub mark_sent : ℕ → ℕ → ℕ → Table → Bool × Table
mark_sent now id token table =
    (length (filter (is_leased id token) table) == 1, update_leased id token (sent_row now) table)

unfoldable pub failed_row : ℕ → Text → ℕ → ℕ → OutboxRow → OutboxRow
failed_row now error retry_at max_attempts r =
    let spent = leb max_attempts r.attempts in
    record r {
      status = if spent then MoneyOutboxStatus.dead_letter else MoneyOutboxStatus.failed;
      available_at = if spent then r.available_at else retry_at;
      last_error = some (take 2000 error);
      dead_lettered_at = if spent then some now else none;
      locked_at = none;
      locked_by = none;
      lock_token = none;
      updated_at = now;
    }

-- The answer reads the status of the first row that was updated.
unfoldable pub failure_result : Table → RecordFailureResult
failure_result [] = RecordFailureResult.lease_lost
failure_result (r ∷ rows) = elim r.status [
  | MoneyOutboxStatus.dead_letter ↦ RecordFailureResult.exhausted
  | MoneyOutboxStatus.failed ↦ RecordFailureResult.retry
  | MoneyOutboxStatus.pending ↦ RecordFailureResult.lease_lost
  | MoneyOutboxStatus.processing ↦ RecordFailureResult.lease_lost
  | MoneyOutboxStatus.sent ↦ RecordFailureResult.lease_lost
]

unfoldable pub record_failure : ℕ → ℕ → ℕ → Text → ℕ → ℕ → Table → RecordFailureResult × Table
record_failure now id token error retry_at max_attempts table =
    let change = failed_row now error retry_at max_attempts in
    (
      failure_result (map change (filter (is_leased id token) table)),
      update_leased id token change table,
    )
