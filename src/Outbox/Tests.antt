-- ===== src/Outbox/Tests.antt =====
-- Runs of the outbox on a table with one event.
use mpulse.Common.{ℕ, ◌+◌, ◌≤◌, ◌≡◌, refl, Bool, false, none, some, List, [], ◌∷◌, inl, inr, length}
use mpulse.Common.Int.{◌+ℤ◌, ◌-ℤ◌, neg}
use mpulse.Common.Text.{text_eq, is_space, trim_start, trim, starts_with}
use mpulse.Common.Equality.{Text-discrete, OptionText-discrete, OptionNat-discrete}
use mpulse.Outbox.Repository.{
  lease_expired, is_exhausted, is_claimable, is_before, insert_row, order_rows, has_id, picked,
  update_picked, exhausted_row, dead_letter_exhausted, claimed_row, claim_rows, map_claimed_row,
  map_claimed_rows, is_leased, sent_row, update_leased, mark_sent, failed_row, failure_result,
  record_failure,
}
use mpulse.Outbox.Worker.{
  assert_worker_options, exponential_delay, calculate_outbox_backoff_ms, count_sent, count_failure,
  deliver_outcome, deliver, deliver_all, deliver_claimed, run_once,
}
use mpulse.Outbox.Loop.{schedule, start_loop, stop_loop, fire_timer, end_run, loop_step, loop_run}
use mpulse.Common.Text.{Text, codes}
use mpulse.Outbox.Types.{MoneyOutboxStatus, OutboxRow, Table, RecordFailureResult, RunResult}
use mpulse.Outbox.Worker.{WorkerOptions, Surroundings}
use mpulse.Outbox.Picked.{Member}
use mpulse.Outbox.Steps.{Step, IsReachable, IsSound, reachable-IsSound}
use mpulse.Outbox.Final.{final_rows_stay}
use mpulse.Outbox.Accounting.{outcomes, outcome_once, run_once_accounts}
use mpulse.Outbox.Loop.{LoopEvent, initial_loop, one_run_at_a_time}

abbrev event : OutboxRow
event = record {
  id = 5;
  aggregate_type = codes "market";
  aggregate_id = codes "1";
  event_type = codes "settled";
  idempotency_key = codes "k";
  payload = codes "{}";
  status = MoneyOutboxStatus.pending;
  attempts = 0;
  available_at = 10;
  created_at = 10;
  locked_at = none;
  locked_by = none;
  lock_token = none;
  last_error = none;
  last_attempt_at = none;
  processed_at = none;
  dead_lettered_at = none;
  updated_at = 10;
}

abbrev claimed_table : Table
claimed_table = (claim_rows 20 (λ i. false) (λ i. 900) (codes "w") 10 1000 3 (event ∷ [])).1

abbrev sent_table : Table
sent_table = (mark_sent 30 5 900 claimed_table).1

abbrev nobody_holds : ℕ → Bool
nobody_holds i = false

abbrev tokens : ℕ → ℕ
tokens i = 900

claimed-Step : Step 3 (event ∷ []) claimed_table
claimed-Step = Step.claim 20 nobody_holds tokens (codes "w") 10 1000 (event ∷ [])

reached : IsReachable 3 claimed_table
unfolding ◌+ℤ◌ ◌-ℤ◌ neg text_eq is_space trim_start trim starts_with Text-discrete
    OptionText-discrete OptionNat-discrete lease_expired is_exhausted is_claimable is_before
    insert_row order_rows has_id picked update_picked exhausted_row dead_letter_exhausted
    claimed_row claim_rows map_claimed_row map_claimed_rows is_leased sent_row update_leased
    mark_sent failed_row failure_result record_failure assert_worker_options exponential_delay
    calculate_outbox_backoff_ms count_sent count_failure deliver_outcome deliver deliver_all
    deliver_claimed run_once schedule start_loop stop_loop fire_timer end_run loop_step loop_run
reached =
    IsReachable.next (event ∷ []) claimed_table
      (IsReachable.next [] (event ∷ []) IsReachable.start
        (Step.enqueue event [] (refl, refl, refl, refl) refl))
      claimed-Step

reachable-IsSound_example : IsSound 3 claimed_table
reachable-IsSound_example = reachable-IsSound 3 claimed_table reached

final_rows_stay_example :
    Member (sent_row 30 (claimed_row 20 tokens (codes "w") event)) (mark_sent 40 5 900 sent_table).1
unfolding ◌+ℤ◌ ◌-ℤ◌ neg text_eq is_space trim_start trim starts_with Text-discrete
    OptionText-discrete OptionNat-discrete lease_expired is_exhausted is_claimable is_before
    insert_row order_rows has_id picked update_picked exhausted_row dead_letter_exhausted
    claimed_row claim_rows map_claimed_row map_claimed_rows is_leased sent_row update_leased
    mark_sent failed_row failure_result record_failure assert_worker_options exponential_delay
    calculate_outbox_backoff_ms count_sent count_failure deliver_outcome deliver deliver_all
    deliver_claimed run_once schedule start_loop stop_loop fire_timer end_run loop_step loop_run
final_rows_stay_example =
    final_rows_stay 3 sent_table (mark_sent 40 5 900 sent_table).1
      (sent_row 30 (claimed_row 20 tokens (codes "w") event)) (refl, tt)
      (Step.succeed 40 5 900 sent_table) (inl refl) (inl refl)

outcome_once_example :
    (mark_sent 40 5 900 sent_table ≡ (false, sent_table))
    × ((error : Text) (retry_at max_attempts : ℕ)
        → record_failure 40 5 900 error retry_at max_attempts sent_table
          ≡ (RecordFailureResult.lease_lost, sent_table))
outcome_once_example = outcome_once 5 900 30 40 [] 50 3 claimed_table sent_table (inl refl)

abbrev options : WorkerOptions
options = record {
  worker_id = codes "w";
  batch_size = 10;
  concurrency = 2;
  lease_duration_ms = 1000;
  max_attempts = 3;
  backoff_base_ms = 100;
  backoff_max_ms = 5000;
}

abbrev around : Surroundings
around = record {
  now = 20;
  held = nobody_holds;
  token = tokens;
  handler = λ e. none;
  jitter = λ n. n;
  completion = λ events. events;
}

run_once_accounts_example :
    (result : RunResult) × (after : Table) × (run_once around options (event ∷ [])
      ≡ some (result, after))
    × (outcomes result
        ≡ result.claimed + (dead_letter_exhausted 20 nobody_holds 3 1000 10 (event ∷ [])).0)
run_once_accounts_example = run_once_accounts around options (event ∷ []) (λ events. refl)

abbrev day : List LoopEvent
day =
    LoopEvent.start_called
    ∷ LoopEvent.timer_fired 0
    ∷ LoopEvent.stop_called
    ∷ LoopEvent.run_ended 1
    ∷ LoopEvent.start_called
    ∷ []

one_run_at_a_time_example :
    let s = loop_run day initial_loop in
    (length s.armed + length s.running ≤ 1)
    × (s.stopping ≡ false → length s.armed + length s.running ≡ 1)
unfolding ◌+ℤ◌ ◌-ℤ◌ neg text_eq is_space trim_start trim starts_with Text-discrete
    OptionText-discrete OptionNat-discrete lease_expired is_exhausted is_claimable is_before
    insert_row order_rows has_id picked update_picked exhausted_row dead_letter_exhausted
    claimed_row claim_rows map_claimed_row map_claimed_rows is_leased sent_row update_leased
    mark_sent failed_row failure_result record_failure assert_worker_options exponential_delay
    calculate_outbox_backoff_ms count_sent count_failure deliver_outcome deliver deliver_all
    deliver_claimed run_once schedule start_loop stop_loop fire_timer end_run loop_step loop_run
one_run_at_a_time_example = one_run_at_a_time day (inr refl, (tt, (tt, (tt, (inr refl, tt)))))

-- A loop that is started again while a stop still waits for its run goes on in two chains.
two_chains :
    length
      (loop_run
        (LoopEvent.start_called
          ∷ LoopEvent.timer_fired 0
          ∷ LoopEvent.stop_called
          ∷ LoopEvent.start_called
          ∷ LoopEvent.run_ended 1
          ∷ [])
        initial_loop).armed
    ≡ 2
unfolding ◌+ℤ◌ ◌-ℤ◌ neg text_eq is_space trim_start trim starts_with Text-discrete
    OptionText-discrete OptionNat-discrete lease_expired is_exhausted is_claimable is_before
    insert_row order_rows has_id picked update_picked exhausted_row dead_letter_exhausted
    claimed_row claim_rows map_claimed_row map_claimed_rows is_leased sent_row update_leased
    mark_sent failed_row failure_result record_failure assert_worker_options exponential_delay
    calculate_outbox_backoff_ms count_sent count_failure deliver_outcome deliver deliver_all
    deliver_claimed run_once schedule start_loop stop_loop fire_timer end_run loop_step loop_run
two_chains = refl
