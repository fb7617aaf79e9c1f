-- ===== src/Deposits/Phases.antt =====
-- The phases of a deposit: nothing is credited, or it is credited, or credited and reversed.
use mpulse.Common.{
  ℕ, ◌≡◌, ◌≢◌, refl, sym, ap, ◌∙◌, Bool, true, false, not, ◌&&◌, Option, none, some, List, [], ◌∷◌,
  ◌++◌, inl, inr, ok, throw_if, if◌then◌else◌, All, Bool-cases, ==_iff, >>=-eq-ok, throw_if-eq-ok,
  ◌==◌,
}
use mpulse.Common.Text.{Text}
use mpulse.Common.Table.{
  Absent, IsUnique, Stands, Stands-All, amend-All, amend-IsUnique, amended-Stands, append-IsUnique,
}
use mpulse.Wallets.Types.{WalletError, WalletHost}
use mpulse.Wallets.Store.{is_some}
use mpulse.Deposits.Types.{DepositStatus, Deposit, Intent, Event, DepositDb}
use mpulse.Deposits.Store.{update_deposit, find_deposit}
use mpulse.Deposits.Matching.{
  is_deposit_of, find_matching, is_deposit_financial_state_immutable, immutable_fields_differ,
  seen_deposit, find_deposit_intent, new_deposit, first_issue, Locked, lock_existing, lock_new,
  lock_found, lock_or_create_deposit,
}

-- The entries that a status goes with: the credit, and the reversal. No operation leaves a deposit
-- in the status reversing.
abbrev pub deposit_phase : DepositStatus → Bool → Bool → Bool
deposit_phase DepositStatus.credited credit reversal = credit && not reversal
deposit_phase DepositStatus.reversal_pending credit reversal = credit && not reversal
deposit_phase DepositStatus.reversing credit reversal = false
deposit_phase DepositStatus.reversed credit reversal = credit && reversal
deposit_phase DepositStatus.detected credit reversal = not credit && not reversal
deposit_phase DepositStatus.confirming credit reversal = not credit && not reversal
deposit_phase DepositStatus.confirmed_unpriced credit reversal = not credit && not reversal
deposit_phase DepositStatus.pending_rate credit reversal = not credit && not reversal
deposit_phase DepositStatus.manual_review credit reversal = not credit && not reversal
deposit_phase DepositStatus.rejected credit reversal = not credit && not reversal

-- The entries fit the status, and a credited deposit has its amount and its user.
pub record IsSound (d : Deposit) : Type 0 where
  pub phase :
      deposit_phase d.deposit_status (is_some d.credit_entry) (is_some d.reversal_entry) ≡ true
  pub owned :
      is_some d.credit_entry ≡ true
      → (is_some d.credited_coin_micros ≡ true) × (is_some d.deposit_user ≡ true)

abbrev pub key : Deposit → ℕ
key d = d.deposit_id

-- No two deposits have one id, and each is sound.
pub record AreSound (rows : List Deposit) : Type 0 where
  pub unique : IsUnique key rows
  pub sound : All IsSound rows

-- Nothing has been credited for a deposit.
pub record Uncredited (d : Deposit) : Type 0 where
  pub no_credit : is_some d.credit_entry ≡ false
  pub no_reversal : is_some d.reversal_entry ≡ false

pub true-false : true ≢ false
true-false e = cc

pub update-AreSound :
    (rows : List Deposit) (d : Deposit) (change : Deposit → Deposit)
    → AreSound rows
    → Stands key d rows
    → (change d).deposit_id ≡ d.deposit_id
    → IsSound (change d)
    → AreSound (update_deposit d.deposit_id change rows)
unfolding update_deposit
update-AreSound rows d change valid place same sound = record {
  unique = amend-IsUnique key rows d valid.unique place change same;
  sound = amend-All key rows d valid.unique place change IsSound sound valid.sound;
}

phase_seen :
    (clash : Bool) (status : DepositStatus) (c r : Bool)
    → deposit_phase status c r ≡ true
    → deposit_phase
        (if clash && not (is_deposit_financial_state_immutable status)
          then DepositStatus.manual_review
          else status)
        c
        r
      ≡ true
unfolding is_deposit_financial_state_immutable
phase_seen false status c r h = h
phase_seen true DepositStatus.credited c r h = h
phase_seen true DepositStatus.reversal_pending c r h = h
phase_seen true DepositStatus.reversing c r h = h
phase_seen true DepositStatus.reversed c r h = h
phase_seen true DepositStatus.detected c r h = h
phase_seen true DepositStatus.confirming c r h = h
phase_seen true DepositStatus.confirmed_unpriced c r h = h
phase_seen true DepositStatus.pending_rate c r h = h
phase_seen true DepositStatus.manual_review c r h = h
phase_seen true DepositStatus.rejected c r h = h

seen-IsSound :
    (clash : Bool) (stored : ℕ) (e : Event) (d : Deposit)
    → IsSound d
    → IsSound (seen_deposit clash stored e d)
unfolding seen_deposit
seen-IsSound clash stored e d h = record {
  phase = phase_seen clash d.deposit_status _ _ h.phase;
  owned = h.owned;
}

find_matching-Stands :
    (e : Event) (rows : List Deposit) (d : Deposit)
    → find_matching e rows ≡ some d
    → Stands key d rows
unfolding find_matching
find_matching-Stands e [] d h = cc
find_matching-Stands e (x ∷ rows) d h = elim (Bool-cases (is_deposit_of e x)) [
  | inl this ↦
      let same : x ≡ d = some_injective x d (rw this at h) in
      record { front = []; back = rows; split = rw same refl }
  | inr next ↦
      let there = find_matching-Stands e rows d (rw next at h) in
      record { front = x ∷ there.front; back = there.back; split = ap (λ l. x ∷ l) there.split }
]
  where
    some_injective : (a b : Deposit) → some a ≡ some b → a ≡ b
    some_injective a b q = cc

pub find_deposit-Stands :
    (id : ℕ) (rows : List Deposit) (d : Deposit) → find_deposit id rows ≡ some d → Stands key d rows
unfolding find_deposit
find_deposit-Stands id [] d h = cc
find_deposit-Stands id (x ∷ rows) d h = elim (Bool-cases (x.deposit_id == id)) [
  | inl this ↦
      let same : x ≡ d = some_injective x d (rw this at h) in
      record { front = []; back = rows; split = rw same refl }
  | inr next ↦
      let there = find_deposit-Stands id rows d (rw next at h) in
      record { front = x ∷ there.front; back = there.back; split = ap (λ l. x ∷ l) there.split }
]
  where
    some_injective : (a b : Deposit) → some a ≡ some b → a ≡ b
    some_injective a b q = cc

find_deposit-Absent :
    (id : ℕ) (rows : List Deposit) → is_some (find_deposit id rows) ≡ false → Absent key id rows
unfolding find_deposit
find_deposit-Absent id [] h = tt
find_deposit-Absent id (x ∷ rows) h = elim (Bool-cases (x.deposit_id == id)) [
  | inl this ↦ absurd (true-false (rw this at h))
  | inr next ↦ (
    λ same. absurd (true-false (sym ((==_iff x.deposit_id id).1 same) ∙ next)),
    find_deposit-Absent id rows (rw next at h),
  )
]

-- What the lock of the row of an event leaves.
pub record IsLocked (l : Locked) : Type 0 where
  pub valid : AreSound l.rows
  pub place : Stands key l.locked l.rows

lock_existing-IsLocked :
    (d : Deposit) (stored : ℕ) (e : Event) (rows : List Deposit)
    → AreSound rows
    → Stands key d rows
    → IsLocked (lock_existing d stored e rows)
unfolding lock_existing update_deposit seen_deposit
lock_existing-IsLocked d stored e rows valid place =
    let change = seen_deposit (immutable_fields_differ d e) stored e in
    record {
      valid =
          update-AreSound rows d change valid place refl
            (seen-IsSound _ stored e d (Stands-All key IsSound rows d place valid.sound));
      place = amended-Stands key rows d valid.unique place change;
    }

new-IsSound :
    (id stored needed : ℕ) (e : Event) (intent : Option Intent) (invalid : Option Text)
    → IsSound (new_deposit id stored needed e intent invalid)
unfolding new_deposit
new-IsSound id stored needed e intent none = record { phase = refl; owned = λ h. cc }
new-IsSound id stored needed e intent (some reason) = record { phase = refl; owned = λ h. cc }

append-All :
    (rows : List Deposit) (d : Deposit)
    → IsSound d
    → All IsSound rows
    → All IsSound (rows ++ (d ∷ []))
append-All [] d p h = (p, tt)
append-All (x ∷ rows) d p h = (h.0, append-All rows d p h.1)

lock_new-IsLocked :
    (host : WalletHost) (stored needed : ℕ) (e : Event) (intent : Option Intent) (ambiguous : Bool)
    (rows : List Deposit) (l : Locked)
    → AreSound rows
    → lock_new host stored needed e (intent, ambiguous) rows ≡ ok l
    → IsLocked l
unfolding lock_new
lock_new-IsLocked host stored needed e intent ambiguous rows l valid h =
    let d =
      new_deposit (host.new_uuid 1) stored needed e intent
        (first_issue e.validation_issues ambiguous) in
    let (u, fresh, h1) =
      >>=-eq-ok (throw_if (is_some (find_deposit d.deposit_id rows)) WalletError.unique_violation) _
        h in
    let absent =
      find_deposit-Absent d.deposit_id rows (throw_if-eq-ok _ WalletError.unique_violation fresh) in
    let rows_of : l.rows ≡ rows ++ (d ∷ []) = cc in
    let row_of : l.locked ≡ d = cc in
    record {
      valid = rw rows_of (record {
        unique = append-IsUnique key rows d absent valid.unique;
        sound = append-All rows d (new-IsSound _ stored needed e intent _) valid.sound;
      });
      place = rw (rows_of, row_of) (record { front = rows; back = []; split = refl });
    }

lock_found-IsLocked :
    (found : Option Deposit) (host : WalletHost) (stored needed : ℕ) (e : Event) (db : DepositDb)
    (l : Locked)
    → find_matching e db.deposits ≡ found
    → AreSound db.deposits
    → lock_found found host stored needed e db ≡ ok l
    → IsLocked l
unfolding lock_found
lock_found-IsLocked (some d) host stored needed e db l known valid h =
    let same : lock_existing d stored e db.deposits ≡ l = cc in
    rw (← same) (
      lock_existing-IsLocked d stored e db.deposits valid
        (find_matching-Stands e db.deposits d known))
lock_found-IsLocked none host stored needed e db l known valid h =
    let pair = find_deposit_intent host.now e db.intents in
    lock_new-IsLocked host stored needed e pair.0 pair.1 db.deposits l valid h

pub lock-IsLocked :
    (host : WalletHost) (stored needed : ℕ) (e : Event) (db : DepositDb) (l : Locked)
    → AreSound db.deposits
    → lock_or_create_deposit host stored needed e db ≡ ok l
    → IsLocked l
unfolding lock_or_create_deposit
lock-IsLocked host stored needed e db l valid h =
    lock_found-IsLocked _ host stored needed e db l refl valid h
