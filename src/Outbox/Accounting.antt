-- ===== src/Outbox/Accounting.antt =====
-- A run does not throw and counts every event once, and a lease records one outcome.
use mpulse.Common.{
  ◌⊎◌, ℕ, suc, ◌+◌, ◌≡◌, refl, ap, ◌∙◌, Bool, true, false, ◌&&◌, Option, none, some, List, [], ◌∷◌,
  map, inl, inr, arith, Bool-cases, ◌==◌, length, filter,
}
use mpulse.Common.Text.{Text}
use mpulse.Outbox.Types.{
  MoneyOutboxStatus, OutboxRow, Table, OutboxEvent, RecordFailureResult, RunResult,
}
use mpulse.Outbox.Repository.{
  has_id, picked, is_claimable, claimed_row, dead_letter_exhausted, claim_rows, map_claimed_row,
  map_claimed_rows, is_leased, sent_row, failed_row, failure_result, update_leased, mark_sent,
  record_failure,
}
use mpulse.Outbox.Worker.{
  WorkerOptions, Surroundings, count_sent, count_failure, deliver_outcome, deliver, deliver_all,
  deliver_claimed, run_once,
}

and_and_false : (a b : Bool) → (a && b && false) ≡ false
and_and_false true true = refl
and_and_false true false = refl
and_and_false false b = refl

-- The deliveries that a result counts.
abbrev pub outcomes : RunResult → ℕ
outcomes r = r.sent_count + r.retried + r.dead_lettered + r.lease_lost_count

freed-lease : (id token : ℕ) (r : OutboxRow) → r.lock_token ≡ none → is_leased id token r ≡ false
unfolding is_leased
freed-lease id token r e = rw e (and_and_false (r.id == id) _)

-- After an update that takes the token away, nobody holds the lease.
no_lease :
    (id token : ℕ) (change : OutboxRow → OutboxRow) (t : Table)
    → ((r : OutboxRow) → (change r).lock_token ≡ none)
    → (filter (is_leased id token) (update_leased id token change t) ≡ [])
      × ((next : OutboxRow → OutboxRow)
          → update_leased id token next (update_leased id token change t)
            ≡ update_leased id token change t)
unfolding update_leased
no_lease id token change [] frees = (refl, λ next. refl)
no_lease id token change (r ∷ t) frees =
    let (unheld, still) = no_lease id token change t frees in
    elim (Bool-cases (is_leased id token r)) [
      | inl leased ↦ rw leased (
          rw (freed-lease id token (change r) (frees r))
            (unheld, λ next. ap (λ q. change r ∷ q) (still next)))
      | inr free ↦ rw free (rw free (unheld, λ next. ap (λ q. r ∷ q) (still next)))
    ]

-- After an update that takes the token away, the lease records nothing any more.
lease_is_over :
    (id token : ℕ) (change : OutboxRow → OutboxRow) (t : Table)
    → ((r : OutboxRow) → (change r).lock_token ≡ none)
    → (now : ℕ)
    → (mark_sent now id token (update_leased id token change t)
        ≡ (false, update_leased id token change t))
      × ((error : Text) (retry_at max_attempts : ℕ)
          → record_failure now id token error retry_at max_attempts
              (update_leased id token change t)
            ≡ (RecordFailureResult.lease_lost, update_leased id token change t))
unfolding mark_sent record_failure failure_result
lease_is_over id token change t frees now =
    let (unheld, still) = no_lease id token change t frees in
    (
      rw (unheld, still (sent_row now)) refl,
      λ error retry_at max_attempts.
          rw (unheld, still (failed_row now error retry_at max_attempts)) refl,
    )

-- A lease records at most one outcome: once a success or a failure was written under a token,
-- a further success is not taken, a further failure is answered by a lost lease, and neither
-- changes the table.
pub outcome_once :
    (id token : ℕ) (before now : ℕ) (error : Text) (retry_at max_attempts : ℕ) (t after : Table)
    → (after ≡ (mark_sent before id token t).1)
      ⊎ (after ≡ (record_failure before id token error retry_at max_attempts t).1)
    → (mark_sent now id token after ≡ (false, after))
      × ((error' : Text) (retry_at' max_attempts' : ℕ)
          → record_failure now id token error' retry_at' max_attempts' after
            ≡ (RecordFailureResult.lease_lost, after))
unfolding mark_sent record_failure sent_row failed_row
outcome_once id token before now error retry_at max_attempts t after (inl e) =
    rw e (lease_is_over id token (sent_row before) t (λ r. refl) now)
outcome_once id token before now error retry_at max_attempts t after (inr e) =
    rw e (lease_is_over id token (failed_row before error retry_at max_attempts) t (λ r. refl) now)

count_sent-outcomes :
    (done : Bool) (result : RunResult) → outcomes (count_sent done result) ≡ suc (outcomes result)
unfolding count_sent
count_sent-outcomes true result = omega arith
count_sent-outcomes false result = omega arith

count_failure-outcomes :
    (outcome : RecordFailureResult) (result : RunResult)
    → outcomes (count_failure outcome result) ≡ suc (outcomes result)
unfolding count_failure
count_failure-outcomes RecordFailureResult.retry result = omega arith
count_failure-outcomes RecordFailureResult.exhausted result = omega arith
count_failure-outcomes RecordFailureResult.lease_lost result = omega arith

count_sent-claimed :
    (done : Bool) (result : RunResult) → (count_sent done result).claimed ≡ result.claimed
unfolding count_sent
count_sent-claimed true result = refl
count_sent-claimed false result = refl

count_failure-claimed :
    (outcome : RecordFailureResult) (result : RunResult)
    → (count_failure outcome result).claimed ≡ result.claimed
unfolding count_failure
count_failure-claimed RecordFailureResult.retry result = refl
count_failure-claimed RecordFailureResult.exhausted result = refl
count_failure-claimed RecordFailureResult.lease_lost result = refl

module _ (around : Surroundings) (options : WorkerOptions) where
  deliver-counts :
      (handled : Option Text) (event : OutboxEvent) (state : RunResult × Table)
      → (outcomes (deliver_outcome around options handled event state).0 ≡ suc (outcomes state.0))
        × ((deliver_outcome around options handled event state).0.claimed ≡ state.0.claimed)
  unfolding deliver_outcome
  deliver-counts none event state = (count_sent-outcomes _ state.0, count_sent-claimed _ state.0)
  deliver-counts (some e) event state =
      (count_failure-outcomes _ state.0, count_failure-claimed _ state.0)

  deliver_all-counts :
      (events : List OutboxEvent) (state : RunResult × Table)
      → (outcomes (deliver_all around options events state).0 ≡ length events + outcomes state.0)
        × ((deliver_all around options events state).0.claimed ≡ state.0.claimed)
  unfolding deliver_all deliver
  deliver_all-counts [] state = (omega arith, refl)
  deliver_all-counts (event ∷ events) state =
      let (counted, claimed) = deliver-counts (around.handler event) event state in
      let (rest, kept) = deliver_all-counts events (deliver around options event state) in
      (omega (arith, counted, rest), kept ∙ claimed)

  -- Claimed rows have a token, so each becomes an event.
  map_claimed_rows-total :
      (token : ℕ → ℕ) (rows : Table)
      → (events : List OutboxEvent) × (map_claimed_rows
            (map (claimed_row around.now token options.worker_id) rows)
          ≡ some events)
        × (length events ≡ length rows)
  unfolding map_claimed_rows map_claimed_row claimed_row
  map_claimed_rows-total token [] = ([], refl, refl)
  map_claimed_rows-total token (r ∷ rows) =
      let (events, made, same) = map_claimed_rows-total token rows in
      (
        record {
          event_id = r.id;
          event_aggregate_type = r.aggregate_type;
          event_aggregate_id = r.aggregate_id;
          event_kind = r.event_type;
          event_idempotency_key = r.idempotency_key;
          event_payload = r.payload;
          event_status = MoneyOutboxStatus.processing;
          attempt = r.attempts + 1;
          event_available_at = r.available_at;
          event_created_at = r.created_at;
          event_lock_token = token r.id;
        }
            ∷ events,
        rw made refl,
        ap suc same,
      )

  delivered-accounts :
      (exhausted : ℕ) (claims : Option (List OutboxEvent)) (events : List OutboxEvent)
      (table : Table)
      → claims ≡ some events
      → length (around.completion events) ≡ length events
      → (result : RunResult) × (after : Table) × (deliver_claimed around options exhausted claims
            table
          ≡ some (result, after))
        × (outcomes result ≡ result.claimed + exhausted)
  unfolding deliver_claimed
  delivered-accounts exhausted claims events table made complete =
      let start : RunResult × Table = (
        record {
          claimed = length events;
          sent_count = 0;
          retried = 0;
          dead_lettered = 0 + exhausted;
          lease_lost_count = 0;
        },
        table,
      ) in
      let (counted, claimed) = deliver_all-counts (around.completion events) start in
      (
        (deliver_all around options (around.completion events) start).0,
        (deliver_all around options (around.completion events) start).1,
        rw made refl,
        omega (arith, counted, claimed, complete),
      )

  -- A run never throws for a claimed event without a token, and it counts every event once: where
  -- every claimed event is delivered, the events sent, retried, dead-lettered and lost are together
  -- those that were claimed and those that were dead-lettered before the claim.
  pub run_once_accounts :
      (t : Table)
      → ((events : List OutboxEvent) → length (around.completion events) ≡ length events)
      → (result : RunResult) × (after : Table) × (run_once around options t ≡ some (result, after))
        × (outcomes result
            ≡ result.claimed
              + (dead_letter_exhausted around.now around.held options.max_attempts
                  options.lease_duration_ms options.batch_size t).0)
  unfolding run_once claim_rows
  run_once_accounts t all_of_them =
      let (exhausted, swept) =
        dead_letter_exhausted around.now around.held options.max_attempts options.lease_duration_ms
          options.batch_size t in
      let chosen =
        picked (is_claimable around.now options.lease_duration_ms options.max_attempts) around.held
          options.batch_size swept in
      let (events, made, same) =
        map_claimed_rows-total around.token (filter (λ r. has_id r.id chosen) swept) in
      delivered-accounts exhausted _ events _ made (all_of_them events)
