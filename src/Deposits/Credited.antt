-- ===== src/Deposits/Credited.antt =====
-- A credit and a reversal leave each deposit in a phase that its status allows.
use mpulse.Common.{
  ℕ, ◌≡◌, refl, sym, ◌∙◌, Bool, true, false, not, ◌&&◌, Option, none, some, Result, ok, >>=-eq-ok,
}
use mpulse.Common.Int.{ℤ}
use mpulse.Common.Text.{Text}
use mpulse.Common.Table.{Stands}
use mpulse.ExchangeRates.{UsdQuote, ExchangeRateError}
use mpulse.Coins.Repository.{post_entry}
use mpulse.Wallets.Types.{WalletHost}
use mpulse.Wallets.Store.{is_some, from_ledger}
use mpulse.Deposits.Types.{DepositStatus, Deposit, Event, DepositDb, DepositOptions, Processed}
use mpulse.Deposits.Store.{update_deposit, with_state, find_entry_of}
use mpulse.Deposits.Credit.{
  credit_movement, credited_deposit, credited_amount, credit_owner, credit_once, credit_for,
  credit_deposit,
}
use mpulse.Deposits.Reverse.{
  is_reversible, is_reversed, reversal_movement, reversed_deposit_row, reject_deposit,
  hold_reversal, post_reversal, reverse_funded, reverse_credited, reverse_again, reverse_deposit,
}
use mpulse.Deposits.Process.{keep_deposit}
use mpulse.Deposits.Phases.{
  deposit_phase, IsSound, key, AreSound, Uncredited, true-false, update-AreSound,
}

and_not : (c r : Bool) → (not c && not r) ≡ true → (c ≡ false) × (r ≡ false)
and_not false false h = (refl, refl)
and_not true r h = cc
and_not false true h = cc

-- A status in which nothing is credited.
abbrev pub is_uncredited : DepositStatus → Bool
is_uncredited DepositStatus.credited = false
is_uncredited DepositStatus.reversal_pending = false
is_uncredited DepositStatus.reversing = false
is_uncredited DepositStatus.reversed = false
is_uncredited DepositStatus.detected = true
is_uncredited DepositStatus.confirming = true
is_uncredited DepositStatus.confirmed_unpriced = true
is_uncredited DepositStatus.pending_rate = true
is_uncredited DepositStatus.manual_review = true
is_uncredited DepositStatus.rejected = true

pub phase_uncredited :
    (s : DepositStatus) (c r : Bool)
    → is_uncredited s ≡ true
    → deposit_phase s c r ≡ true
    → (c ≡ false) × (r ≡ false)
phase_uncredited DepositStatus.credited c r u h = cc
phase_uncredited DepositStatus.reversal_pending c r u h = cc
phase_uncredited DepositStatus.reversing c r u h = cc
phase_uncredited DepositStatus.reversed c r u h = cc
phase_uncredited DepositStatus.detected c r u h = and_not c r h
phase_uncredited DepositStatus.confirming c r u h = and_not c r h
phase_uncredited DepositStatus.confirmed_unpriced c r u h = and_not c r h
phase_uncredited DepositStatus.pending_rate c r u h = and_not c r h
phase_uncredited DepositStatus.manual_review c r u h = and_not c r h
phase_uncredited DepositStatus.rejected c r u h = and_not c r h

pub status-Uncredited :
    (d : Deposit) → is_uncredited d.deposit_status ≡ true → IsSound d → Uncredited d
status-Uncredited d u h =
    let facts = phase_uncredited d.deposit_status _ _ u h.phase in
    record { no_credit = facts.0; no_reversal = facts.1 }

-- A change of the status of an uncredited deposit to another such status.
with_state-IsSound :
    (status : DepositStatus) (n : ℕ) (noted confirmed : Option Text) (d : Deposit)
    → deposit_phase status false false ≡ true
    → Uncredited d
    → IsSound (with_state status n noted confirmed d)
unfolding with_state
with_state-IsSound status n noted confirmed d plain h = record {
  phase = rw (h.no_credit, h.no_reversal) plain;
  owned = λ credited. absurd (true-false (sym credited ∙ h.no_credit));
}

pub keep-AreSound :
    (host : WalletHost) (options : DepositOptions) (fetched : ℤ → Result ExchangeRateError UsdQuote)
    (status : DepositStatus) (noted confirmed : Option Text) (blocked audit : Text)
    (event : Option (Text × Text)) (existing : Bool) (e : Event) (d : Deposit) (db : DepositDb)
    → deposit_phase status false false ≡ true
    → Uncredited d
    → AreSound db.deposits
    → Stands key d db.deposits
    → AreSound
        (keep_deposit host options fetched status noted confirmed blocked audit event existing e d
          db).1.deposits
unfolding keep_deposit with_state
keep-AreSound host options fetched status noted confirmed blocked audit event existing e d db plain
      uncredited valid place =
    update-AreSound db.deposits d _ valid place refl (
      unfold with_state in
      (with_state-IsSound status e.confirmations noted confirmed d plain uncredited))

-- The credit of a deposit.
module _ (host : WalletHost) (event : Text) (admin : Option (Text × Text)) (quote : UsdQuote)
    (d : Deposit) (db : DepositDb) (out : Processed × DepositDb) (uncredited : Uncredited d)
    (valid : AreSound db.deposits) (place : Stands key d db.deposits) where
  owner-AreSound :
      (user intent : ℕ)
      → d.deposit_user ≡ some user
      → credit_owner host event admin user intent quote d db ≡ ok out
      → AreSound out.1.deposits
  unfolding credit_owner credited_deposit
  owner-AreSound user intent owned h =
      let (amount, priced, h1) = >>=-eq-ok (credited_amount host event admin d quote) _ h in
      let (posted, post, h2) =
        >>=-eq-ok
          (from_ledger (
            post_entry (credit_movement host event admin user amount (host.new_uuid 2) d) db.coins))
          _ h1 in
      let change =
        credited_deposit host event admin amount (host.new_uuid 2) posted.0.entry_sequence in
      let rows_of : out.1.deposits ≡ update_deposit d.deposit_id change db.deposits = cc in
      rw rows_of (
        update-AreSound db.deposits d change valid place refl (record {
          phase = rw uncredited.no_reversal refl;
          owned = λ credited. (refl, rw owned refl);
        }))

  once-AreSound :
      (again : Bool) (user intent : ℕ)
      → d.deposit_user ≡ some user
      → credit_once host event admin again user intent quote d db ≡ ok out
      → AreSound out.1.deposits
  unfolding credit_once
  once-AreSound true user intent owned h =
      let (entry, found, h1) = >>=-eq-ok (find_entry_of d.credit_entry db) _ h in
      let same : out.1 ≡ db = cc in rw same valid
  once-AreSound false user intent owned h = owner-AreSound user intent owned h

  for-AreSound :
      (user intent : Option ℕ)
      → d.deposit_user ≡ user
      → credit_for host event admin user intent quote d db ≡ ok out
      → AreSound out.1.deposits
  unfolding credit_for
  for-AreSound (some user) (some intent) owned h = once-AreSound _ user intent owned h
  for-AreSound none intent owned h = cc
  for-AreSound (some user) none owned h = cc

  pub credit-AreSound :
      credit_deposit host event admin quote d db ≡ ok out → AreSound out.1.deposits
  unfolding credit_deposit
  credit-AreSound h = for-AreSound d.deposit_user d.deposit_intent refl h

credited_phase :
    (s : DepositStatus) (c r : Bool)
    → is_reversible s ≡ true
    → deposit_phase s c r ≡ true
    → (c ≡ true) × (r ≡ false)
credited_phase DepositStatus.credited true false u h = (refl, refl)
credited_phase DepositStatus.credited false r u h = cc
credited_phase DepositStatus.credited true true u h = cc
credited_phase DepositStatus.reversal_pending true false u h = (refl, refl)
credited_phase DepositStatus.reversal_pending false r u h = cc
credited_phase DepositStatus.reversal_pending true true u h = cc
credited_phase DepositStatus.reversing c r u h = cc
credited_phase _ c r u h = cc

unreversed_phase :
    (s : DepositStatus) (c r : Bool)
    → is_reversible s ≡ false
    → (is_reversed s && r) ≡ false
    → deposit_phase s c r ≡ true
    → (c ≡ false) × (r ≡ false)
unreversed_phase DepositStatus.credited c r u w h = cc
unreversed_phase DepositStatus.reversal_pending c r u w h = cc
unreversed_phase DepositStatus.reversing c r u w h = cc
unreversed_phase DepositStatus.reversed true true u w h = cc
unreversed_phase DepositStatus.reversed false r u w h = cc
unreversed_phase DepositStatus.reversed true false u w h = cc
unreversed_phase DepositStatus.detected c r u w h = and_not c r h
unreversed_phase DepositStatus.confirming c r u w h = and_not c r h
unreversed_phase DepositStatus.confirmed_unpriced c r u w h = and_not c r h
unreversed_phase DepositStatus.pending_rate c r u w h = and_not c r h
unreversed_phase DepositStatus.manual_review c r u w h = and_not c r h
unreversed_phase DepositStatus.rejected c r u w h = and_not c r h

-- The reversal of a deposit.
module _ (host : WalletHost) (e : Event) (d : Deposit) (db : DepositDb)
    (out : Processed × DepositDb) (sound : IsSound d) (valid : AreSound db.deposits)
    (place : Stands key d db.deposits) where
  reject-AreSound : Uncredited d → reject_deposit host e d db ≡ out → AreSound out.1.deposits
  unfolding reject_deposit with_state
  reject-AreSound uncredited same = rw (← same) (
      update-AreSound db.deposits d _ valid place refl
        (with_state-IsSound DepositStatus.rejected e.confirmations _ none d refl uncredited))

  funded-AreSound :
      (short : Bool) (user amount : ℕ)
      → is_reversible d.deposit_status ≡ true
      → reverse_funded host e short user amount d db ≡ ok out
      → AreSound out.1.deposits
  unfolding reverse_funded hold_reversal post_reversal with_state reversed_deposit_row
  funded-AreSound true user amount credited h =
      let same : hold_reversal host e user d db ≡ out = cc in
      let facts = credited_phase d.deposit_status _ _ credited sound.phase in
      rw (← same) (
        update-AreSound db.deposits d _ valid place refl
          (record { phase = rw (facts.0, facts.1) refl; owned = sound.owned }))
  funded-AreSound false user amount credited h =
      let (posted, post, h1) =
        >>=-eq-ok (from_ledger (post_entry (reversal_movement host e user amount d) db.coins)) _
          h in
      let facts = credited_phase d.deposit_status _ _ credited sound.phase in
      let change = reversed_deposit_row host e posted.0.entry_sequence in
      let rows_of : out.1.deposits ≡ update_deposit d.deposit_id change db.deposits = cc in
      rw rows_of (
        update-AreSound db.deposits d change valid place refl
          (record { phase = rw facts.0 refl; owned = sound.owned }))

  reverse_credited-AreSound :
      (reversible : Bool) (user amount : Option ℕ)
      → is_reversible d.deposit_status ≡ reversible
      → d.deposit_user ≡ user
      → d.credited_coin_micros ≡ amount
      → (is_reversed d.deposit_status && is_some d.reversal_entry) ≡ false
      → reverse_credited host e reversible user amount d db ≡ ok out
      → AreSound out.1.deposits
  unfolding reverse_credited
  reverse_credited-AreSound true (some user) (some amount) known ku ka again h =
      funded-AreSound _ user amount known h
  reverse_credited-AreSound true none amount known ku ka again h =
      let facts = credited_phase d.deposit_status _ _ known sound.phase in
      absurd (true-false (sym (sound.owned facts.0).1 ∙ rw ku refl))
  reverse_credited-AreSound true (some user) none known ku ka again h =
      let facts = credited_phase d.deposit_status _ _ known sound.phase in
      absurd (true-false (sym (sound.owned facts.0).0 ∙ rw ka refl))
  reverse_credited-AreSound false user amount known ku ka again h =
      let facts = unreversed_phase d.deposit_status _ _ known again sound.phase in
      reject-AreSound (record { no_credit = facts.0; no_reversal = facts.1 }) (cc)

  reverse_again-AreSound :
      (again : Bool)
      → (is_reversed d.deposit_status && is_some d.reversal_entry) ≡ again
      → reverse_again host e again d db ≡ ok out
      → AreSound out.1.deposits
  unfolding reverse_again
  reverse_again-AreSound true known h =
      let (entry, found, h1) = >>=-eq-ok (find_entry_of d.reversal_entry db) _ h in
      let same : out.1 ≡ db = cc in rw same valid
  reverse_again-AreSound false known h = reverse_credited-AreSound _ _ _ refl refl refl known h

  pub reverse-AreSound : reverse_deposit host e d db ≡ ok out → AreSound out.1.deposits
  unfolding reverse_deposit
  reverse-AreSound h = reverse_again-AreSound _ refl h
