-- ===== src/Outbox/Worker.antt =====
-- src/moneyOutbox.ts: `MoneyOutboxWorker`. The handler is code of the caller: a parameter says for
-- each event whether it resolves, or with what stored error text it rejects. Deliveries run
-- concurrently, and each one writes the table once: `completion` gives the order of these writes.
use mpulse.Common.{
  ℕ, ◌+◌, ◌-◌, ◌*◌, ◌^◌, min, Bool, true, false, Option, none, some, List, [], ◌∷◌, Result, ◌>>◌,
  throw_if, ltb, length,
}
use mpulse.Common.Text.{Text}
use mpulse.Outbox.Types.{Table, OutboxEvent, RecordFailureResult, RunResult}
use mpulse.Outbox.Repository.{
  dead_letter_exhausted, claim_rows, map_claimed_rows, mark_sent, record_failure,
}

pub record WorkerOptions : Type 0 where
  pub worker_id : Text
  pub batch_size : ℕ
  pub concurrency : ℕ
  pub lease_duration_ms : ℕ
  pub max_attempts : ℕ
  pub backoff_base_ms : ℕ
  pub backoff_max_ms : ℕ

pub data OptionsError : Type 0 where
  not_positive_integer : OptionsError
  concurrency_exceeds_batch_size : OptionsError

-- The numbers are integers here; the check of the jitter ratio, a float, is left out.
unfoldable pub assert_worker_options : WorkerOptions → Result OptionsError (Unit {0})
assert_worker_options o = do
  throw_if (ltb o.batch_size 1) OptionsError.not_positive_integer
  throw_if (ltb o.concurrency 1) OptionsError.not_positive_integer
  throw_if (ltb o.lease_duration_ms 1) OptionsError.not_positive_integer
  throw_if (ltb o.max_attempts 1) OptionsError.not_positive_integer
  throw_if (ltb o.backoff_base_ms 1) OptionsError.not_positive_integer
  throw_if (ltb o.backoff_max_ms 1) OptionsError.not_positive_integer
  throw_if (ltb o.batch_size o.concurrency) OptionsError.concurrency_exceeds_batch_size

-- `Math.min(maxMs, baseMs * 2 ** exponent)`
unfoldable pub exponential_delay : ℕ → ℕ → ℕ → ℕ
exponential_delay base_ms max_ms attempt = min max_ms (base_ms * 2 ^ min 52 (attempt - 1))

-- `jitter` is `Math.round(exponential * jitterMultiplier)`, on floats.
unfoldable pub calculate_outbox_backoff_ms : (ℕ → ℕ) → ℕ → ℕ → ℕ → ℕ
unfolding exponential_delay
calculate_outbox_backoff_ms jitter base_ms max_ms attempt =
    min max_ms (jitter (exponential_delay base_ms max_ms attempt))

-- What surrounds a run.
pub record Surroundings : Type 0 where
  pub now : ℕ
  pub held : ℕ → Bool
  pub token : ℕ → ℕ
  pub handler : OutboxEvent → Option Text
  pub jitter : ℕ → ℕ
  pub completion : List OutboxEvent → List OutboxEvent

unfoldable pub count_sent : Bool → RunResult → RunResult
count_sent true result = record result { sent_count = result.sent_count + 1 }
count_sent false result = record result { lease_lost_count = result.lease_lost_count + 1 }

unfoldable pub count_failure : RecordFailureResult → RunResult → RunResult
count_failure RecordFailureResult.lease_lost result = record result {
  lease_lost_count = result.lease_lost_count + 1;
}
count_failure RecordFailureResult.exhausted result = record result {
  dead_lettered = result.dead_lettered + 1;
}
count_failure RecordFailureResult.retry result = record result { retried = result.retried + 1 }

module _ (around : Surroundings) (options : WorkerOptions) where
  -- The two ends of a delivery: the handler resolved, or it rejected.
  unfoldable pub deliver_outcome : Option Text → OutboxEvent → RunResult × Table → RunResult × Table
  deliver_outcome none event (result, table) =
      let (done, after) = mark_sent around.now event.event_id event.event_lock_token table in
      (count_sent done result, after)
  deliver_outcome (some error) event (result, table) =
      let delay =
        calculate_outbox_backoff_ms around.jitter options.backoff_base_ms options.backoff_max_ms
          event.attempt in
      let (outcome, after) =
        record_failure around.now event.event_id event.event_lock_token error (around.now + delay)
          options.max_attempts table in
      (count_failure outcome result, after)

  unfoldable pub deliver : OutboxEvent → RunResult × Table → RunResult × Table
  deliver event state = deliver_outcome (around.handler event) event state

  unfoldable pub deliver_all : List OutboxEvent → RunResult × Table → RunResult × Table
  deliver_all [] state = state
  deliver_all (event ∷ events) state = deliver_all events (deliver event state)

  unfoldable pub deliver_claimed :
      ℕ → Option (List OutboxEvent) → Table → Option (RunResult × Table)
  deliver_claimed exhausted none table = none
  deliver_claimed exhausted (some events) table = some (
      deliver_all (around.completion events) (
        record {
          claimed = length events;
          sent_count = 0;
          retried = 0;
          dead_lettered = 0 + exhausted;
          lease_lost_count = 0;
        },
        table,
      ))

  -- `none`: a claimed row had no lock token, and the run throws.
  unfoldable pub run_once : Table → Option (RunResult × Table)
  run_once table =
      let (exhausted, swept) =
        dead_letter_exhausted around.now around.held options.max_attempts options.lease_duration_ms
          options.batch_size table in
      let (rows, taken) =
        claim_rows around.now around.held around.token options.worker_id options.batch_size
          options.lease_duration_ms options.max_attempts swept in
      deliver_claimed exhausted (map_claimed_rows rows) taken
