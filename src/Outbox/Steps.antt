-- ===== src/Outbox/Steps.antt =====
-- What may happen to the outbox table, as steps, and what every step keeps.
use mpulse.Common.{
  ℕ, ◌≤◌, ◌<◌, ◌≡◌, ◌≢◌, refl, Bool, true, false, none, [], ◌∷◌, map, inl, inr, arith,
  if◌then◌else◌, Bool-cases, ltb, leb, All,
}
use mpulse.Common.Text.{Text}
use mpulse.Outbox.Types.{MoneyOutboxStatus, OutboxRow, Table}
use mpulse.Outbox.Repository.{
  is_exhausted, is_claimable, has_id, update_picked, exhausted_row, dead_letter_exhausted,
  claimed_row, claim_rows, sent_row, update_leased, mark_sent, failed_row, record_failure,
}
use mpulse.Outbox.Picked.{IsUnique, Member, picked-test, map-IsUnique, map-All, false-true}

-- A row as the code that records an event inserts it.
abbrev pub IsNew : OutboxRow → Type 0
IsNew r =
    (r.status ≡ MoneyOutboxStatus.pending)
    × (r.attempts ≡ 0)
    × (r.lock_token ≡ none)
    × (r.locked_at ≡ none)

-- The steps of the table for one bound on the attempts: times, workers, limits, tokens and the rows
-- locked by others are free, so every interleaving of workers is a sequence of steps.
pub data Step (max_attempts : ℕ) : Table → Table → Type 0 where
  enqueue :
      (r : OutboxRow) (table : Table)
      → IsNew r
      → has_id r.id table ≡ false
      → Step max_attempts table (r ∷ table)
  exhaust :
      (now : ℕ) (held : ℕ → Bool) (lease limit : ℕ) (table : Table)
      → Step max_attempts table (dead_letter_exhausted now held max_attempts lease limit table).1
  claim :
      (now : ℕ) (held : ℕ → Bool) (token : ℕ → ℕ) (worker : Text) (batch_size lease : ℕ)
      (table : Table)
      → Step max_attempts table
          (claim_rows now held token worker batch_size lease max_attempts table).1
  succeed :
      (now id token : ℕ) (table : Table) → Step max_attempts table (mark_sent now id token table).1
  fail :
      (now id token : ℕ) (error : Text) (retry_at : ℕ) (table : Table)
      → Step max_attempts table (record_failure now id token error retry_at max_attempts table).1

-- What the columns of a row say together.
abbrev pub IsConsistent : ℕ → OutboxRow → Type 0
IsConsistent max_attempts r = elim r.status [
  | MoneyOutboxStatus.pending ↦ (r.lock_token ≡ none) × (r.locked_at ≡ none)
  | MoneyOutboxStatus.failed ↦ (r.lock_token ≡ none) × (r.locked_at ≡ none)
  | MoneyOutboxStatus.processing ↦ (r.lock_token ≢ none) × (r.locked_at ≢ none)
  | MoneyOutboxStatus.sent ↦ (r.lock_token ≡ none) × (r.processed_at ≢ none)
  | MoneyOutboxStatus.dead_letter ↦
      (r.lock_token ≡ none) × (r.dead_lettered_at ≢ none) × (max_attempts ≤ r.attempts)
]

abbrev pub IsSoundRow : ℕ → OutboxRow → Type 0
IsSoundRow max_attempts r = (r.attempts ≤ max_attempts) × IsConsistent max_attempts r

abbrev pub IsSound : ℕ → Table → Type 0
IsSound max_attempts table = IsUnique table × All (IsSoundRow max_attempts) table

claimable-attempts :
    (now lease max_attempts : ℕ) (r : OutboxRow)
    → is_claimable now lease max_attempts r ≡ true
    → r.attempts < max_attempts
unfolding is_claimable
claimable-attempts now lease max_attempts r h = elim (Bool-cases (ltb r.attempts max_attempts)) [
  | inl less ↦ ground arith
  | inr more ↦ absurd (false-true (rw more at h))
]

exhausted-attempts :
    (now lease max_attempts : ℕ) (r : OutboxRow)
    → is_exhausted now lease max_attempts r ≡ true
    → max_attempts ≤ r.attempts
unfolding is_exhausted
exhausted-attempts now lease max_attempts r h = elim (Bool-cases (leb max_attempts r.attempts)) [
  | inl spent ↦ ground arith
  | inr left ↦ absurd (false-true (rw left at h))
]

claimed_row-IsSoundRow :
    (now : ℕ) (token : ℕ → ℕ) (worker : Text) (max_attempts : ℕ) (r : OutboxRow)
    → r.attempts < max_attempts
    → IsSoundRow max_attempts (claimed_row now token worker r)
unfolding claimed_row
claimed_row-IsSoundRow now token worker max_attempts r less = (omega arith, ((λ e. cc), λ e. cc))

exhausted_row-IsSoundRow :
    (now max_attempts : ℕ) (r : OutboxRow)
    → max_attempts ≤ r.attempts
    → r.attempts ≤ max_attempts
    → IsSoundRow max_attempts (exhausted_row now r)
unfolding exhausted_row
exhausted_row-IsSoundRow now max_attempts r spent bound = (bound, (refl, (λ e. cc), spent))

sent_row-IsSoundRow :
    (now max_attempts : ℕ) (r : OutboxRow)
    → r.attempts ≤ max_attempts
    → IsSoundRow max_attempts (sent_row now r)
unfolding sent_row
sent_row-IsSoundRow now max_attempts r bound = (bound, (refl, λ e. cc))

failed_row-IsSoundRow :
    (now : ℕ) (error : Text) (retry_at max_attempts : ℕ) (r : OutboxRow)
    → r.attempts ≤ max_attempts
    → IsSoundRow max_attempts (failed_row now error retry_at max_attempts r)
unfolding failed_row
failed_row-IsSoundRow now error retry_at max_attempts r bound =
    elim (Bool-cases (leb max_attempts r.attempts)) [
      | inl spent ↦ rw spent (bound, (refl, (λ e. cc), ground arith))
      | inr left ↦ rw left (bound, (refl, refl))
    ]

if-keeps :
    {A : Type 0} (P : A → Type 0) (b : Bool) (x y : A)
    → (b ≡ true → P x)
    → P y
    → P (if b then x else y)
if-keeps P true x y px py = px refl
if-keeps P false x y px py = py

-- An update that keeps the ids, and makes sound rows of the rows that pass its test.
updated-IsSound :
    (max_attempts : ℕ) (test : OutboxRow → Bool) (change : OutboxRow → OutboxRow) (t : Table)
    → ((r : OutboxRow) → (change r).id ≡ r.id)
    → ((r : OutboxRow)
        → IsUnique t
        → Member r t
        → test r ≡ true
        → r.attempts ≤ max_attempts
        → IsSoundRow max_attempts (change r))
    → IsSound max_attempts t
    → IsSound max_attempts (map (λ r. if test r then change r else r) t)
updated-IsSound max_attempts test change t same keep sound = (
  map-IsUnique (λ r. if test r then change r else r)
      (λ r. if-keeps (λ (q : OutboxRow). q.id ≡ r.id) (test r) (change r) r (λ h. same r) refl) t
      sound.0,
  map-All (IsSoundRow max_attempts) (λ r. if test r then change r else r) t
      (λ r m row.
        if-keeps (IsSoundRow max_attempts) (test r) (change r) r (λ h. keep r sound.0 m h row.0)
          row)
      sound.1,
)

new-IsSoundRow : (max_attempts : ℕ) (r : OutboxRow) → IsNew r → IsSoundRow max_attempts r
new-IsSoundRow max_attempts r (is_pending, zero_attempts, no_token, no_lock) =
    rw is_pending (omega arith, (no_token, no_lock))

-- A step keeps the table sound: every row has its own id, no row has more attempts than allowed,
-- a row has a lock token exactly while it is processing, a sent row says when it was processed, and
-- a dead-lettered row has used up its attempts.
pub Step-IsSound :
    (max_attempts : ℕ) (t t' : Table)
    → Step max_attempts t t'
    → IsSound max_attempts t
    → IsSound max_attempts t'
unfolding dead_letter_exhausted claim_rows update_picked mark_sent record_failure update_leased
    exhausted_row claimed_row sent_row failed_row
Step-IsSound max_attempts t _ (enqueue r _ new fresh) sound =
    ((fresh, sound.0), (new-IsSoundRow max_attempts r new, sound.1))
Step-IsSound max_attempts t _ (exhaust now held lease limit _) sound =
    updated-IsSound max_attempts _ (exhausted_row now) t (λ r. refl)
      (λ r unique m h bound.
        exhausted_row-IsSoundRow now max_attempts r
          (exhausted-attempts now lease max_attempts r (picked-test _ held limit t r unique m h))
          bound)
      sound
Step-IsSound max_attempts t _ (claim now held token worker batch_size lease _) sound =
    updated-IsSound max_attempts _ (claimed_row now token worker) t (λ r. refl)
      (λ r unique m h bound. claimed_row-IsSoundRow now token worker max_attempts r (
        claimable-attempts now lease max_attempts r (picked-test _ held batch_size t r unique m h)))
      sound
Step-IsSound max_attempts t _ (succeed now id token _) sound =
    updated-IsSound max_attempts _ (sent_row now) t (λ r. refl)
      (λ r unique m h bound. sent_row-IsSoundRow now max_attempts r bound) sound
Step-IsSound max_attempts t _ (fail now id token error retry_at _) sound =
    updated-IsSound max_attempts _ (failed_row now error retry_at max_attempts) t (λ r. refl)
      (λ r unique m h bound. failed_row-IsSoundRow now error retry_at max_attempts r bound) sound

-- Tables that steps reach from the empty table.
pub data IsReachable (max_attempts : ℕ) : Table → Type 0 where
  start : IsReachable max_attempts []
  next :
      (t t' : Table)
      → IsReachable max_attempts t
      → Step max_attempts t t'
      → IsReachable max_attempts t'

-- Every table that the outbox can reach, by any interleaving of its operations, is sound.
pub reachable-IsSound :
    (max_attempts : ℕ) (t : Table) → IsReachable max_attempts t → IsSound max_attempts t
reachable-IsSound max_attempts _ start = (tt, tt)
reachable-IsSound max_attempts _ (next t t' before step) =
    Step-IsSound max_attempts t t' step (reachable-IsSound max_attempts t before)
