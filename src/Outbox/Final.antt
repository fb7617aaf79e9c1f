-- ===== src/Outbox/Final.antt =====
-- Events that are sent or dead-lettered stay as they are.
use mpulse.Common.{ℕ, ◌≡◌, ◌⊎◌, Bool, false, map, inl, inr, arith, if◌then◌else◌, Bool-cases}
use mpulse.Outbox.Types.{MoneyOutboxStatus, OutboxRow, Table}
use mpulse.Outbox.Repository.{
  is_exhausted, is_claimable, has_id, picked, update_picked, exhausted_row, dead_letter_exhausted,
  claimed_row, claim_rows, is_leased, sent_row, update_leased, mark_sent, failed_row,
  record_failure,
}
use mpulse.Outbox.Picked.{IsUnique, Member, picked-test, map-Member}
use mpulse.Outbox.Steps.{Step, enqueue, exhaust, claim, succeed, fail}

abbrev pub IsFinal : OutboxRow → Type 0
IsFinal r = (r.status ≡ MoneyOutboxStatus.sent) ⊎ (r.status ≡ MoneyOutboxStatus.dead_letter)

-- An update whose test no final row passes leaves a final row as it is.
updated-Member :
    (test : OutboxRow → Bool) (change : OutboxRow → OutboxRow) (t : Table) (r : OutboxRow)
    → test r ≡ false
    → Member r t
    → Member r (map (λ q. if test q then change q else q) t)
updated-Member test change t r passed m =
    rw passed at (map-Member (λ q. if test q then change q else q) t r m)

final_not_leased : (id token : ℕ) (r : OutboxRow) → IsFinal r → is_leased id token r ≡ false
unfolding is_leased
final_not_leased id token r (inl e) = rw e (ground arith)
final_not_leased id token r (inr e) = rw e (ground arith)

final_not_exhausted :
    (now lease max_attempts : ℕ) (r : OutboxRow)
    → IsFinal r
    → is_exhausted now lease max_attempts r ≡ false
unfolding is_exhausted
final_not_exhausted now lease max_attempts r (inl e) = rw e (ground arith)
final_not_exhausted now lease max_attempts r (inr e) = rw e (ground arith)

final_not_claimable :
    (now lease max_attempts : ℕ) (r : OutboxRow)
    → IsFinal r
    → is_claimable now lease max_attempts r ≡ false
unfolding is_claimable
final_not_claimable now lease max_attempts r (inl e) = rw e (ground arith)
final_not_claimable now lease max_attempts r (inr e) = rw e (ground arith)

not_picked :
    (test : OutboxRow → Bool) (held : ℕ → Bool) (limit : ℕ) (t : Table) (r : OutboxRow)
    → IsUnique t
    → Member r t
    → test r ≡ false
    → has_id r.id (picked test held limit t) ≡ false
not_picked test held limit t r unique m fails =
    elim (Bool-cases (has_id r.id (picked test held limit t))) [
      | inl chosen ↦ let passes = picked-test test held limit t r unique m chosen in cc
      | inr left ↦ left
    ]

-- An event that was sent or dead-lettered stays in the table as it is, whatever step is taken.
pub final_rows_stay :
    (max_attempts : ℕ) (t t' : Table) (r : OutboxRow)
    → IsUnique t
    → Step max_attempts t t'
    → IsFinal r
    → Member r t
    → Member r t'
unfolding dead_letter_exhausted claim_rows update_picked mark_sent record_failure update_leased
final_rows_stay max_attempts t _ r unique (enqueue q _ new fresh) final m = inr m
final_rows_stay max_attempts t _ r unique (exhaust now held lease limit _) final m =
    updated-Member _ (exhausted_row now) t r
      (not_picked _ held limit t r unique m (final_not_exhausted now lease max_attempts r final)) m
final_rows_stay max_attempts t _ r unique (claim now held token worker batch_size lease _) final m =
    updated-Member _ (claimed_row now token worker) t r
      (not_picked _ held batch_size t r unique m
        (final_not_claimable now lease max_attempts r final))
      m
final_rows_stay max_attempts t _ r unique (succeed now id token _) final m =
    updated-Member (is_leased id token) (sent_row now) t r (final_not_leased id token r final) m
final_rows_stay max_attempts t _ r unique (fail now id token error retry_at _) final m =
    updated-Member (is_leased id token) (failed_row now error retry_at max_attempts) t r
      (final_not_leased id token r final) m
