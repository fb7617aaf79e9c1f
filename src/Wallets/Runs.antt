-- ===== src/Wallets/Runs.antt =====
-- The operations on withdrawals as steps of the database, and runs of them.
use mpulse.Common.{ℕ, ◌≡◌, ◌⊎◌, refl, ap, Option, some, inl, inr, Result, ok, >>=-eq-ok}
use mpulse.Common.Int.{ℤ}
use mpulse.Common.Text.{Text}
use mpulse.Coins.Types.{ActiveSystem}
use mpulse.Wallets.Types.{WalletDb, Wallet, ProviderOutcome, Answer, WalletHost}
use mpulse.Wallets.Parse.{required_text, required_reason, optional_reason}
use mpulse.Wallets.Store.{when_coin, with_cutover_ready}
use mpulse.ExchangeRates.{UsdQuote, ExchangeRateError}
use mpulse.Wallets.Confirm.{ConfirmInput, confirm_withdrawal}
use mpulse.Wallets.Release.{ReleaseInput, cancel_withdrawal, reject_withdrawal}
use mpulse.Wallets.Outcome.{reconcile_verified_outcome}
use mpulse.Wallets.Review.{approve_withdrawal_for_review, safe_retry_withdrawal}
use mpulse.Wallets.Quotes.{QuoteInput, QuoteAnswer, create_withdrawal_quote}
use mpulse.Wallets.Succeeded.{Reserved, confirm-Reserved, Released, release-Released}
use mpulse.Wallets.Reviewed.{Approved, approve-Approved, retry-Approved, create_quote-Keeps}
use mpulse.Wallets.Reconciled.{Reconciled, reconcile-Reconciled}
use mpulse.Wallets.Phases.{
  IsValid, Reserved-IsValid, Released-IsValid, Approved-IsValid, Reconciled-IsValid,
}

-- A call that succeeded. Each has its own host, as the time goes on; `first` is the state that the
-- guard of the cutover and the reads before the transaction saw.
pub data WalletStep (db db' : WalletDb) : Type 0 where
  quotes_withdrawal :
      (host : WalletHost) (rate_ttl : ℤ) (fetched : ℤ → Result ExchangeRateError UsdQuote)
      (network_fee provider_fee : ℕ) (input : QuoteInput) (first : WalletDb) (answer : QuoteAnswer)
      → with_cutover_ready first
          (create_withdrawal_quote host rate_ttl fetched network_fee provider_fee input first db)
        ≡ ok (answer, db')
      → WalletStep db db'
  confirms :
      (host : WalletHost) (input : ConfirmInput) (first : WalletDb) (answer : Answer)
      → with_cutover_ready first (confirm_withdrawal host input db) ≡ ok (answer, db')
      → WalletStep db db'
  cancels :
      (host : WalletHost) (id user : ℕ) (reason : Option (Option Text)) (first : WalletDb)
      (answer : Answer)
      → with_cutover_ready first (cancel_withdrawal host id user reason db) ≡ ok (answer, db')
      → WalletStep db db'
  rejects :
      (host : WalletHost) (id : ℕ) (actor : Text) (reason : Option Text) (first : WalletDb)
      (answer : Answer)
      → with_cutover_ready first (reject_withdrawal host id actor reason db) ≡ ok (answer, db')
      → WalletStep db db'
  approves :
      (host : WalletHost) (id : ℕ) (actor : Text) (reason : Option Text) (first : WalletDb)
      (answer : Answer)
      → with_cutover_ready first (approve_withdrawal_for_review host id actor reason db)
        ≡ ok (answer, db')
      → WalletStep db db'
  retries :
      (host : WalletHost) (id : ℕ) (actor : Text) (reason : Option Text) (first : WalletDb)
      (answer : Answer)
      → with_cutover_ready first (safe_retry_withdrawal host id actor reason first db)
        ≡ ok (answer, db')
      → WalletStep db db'
  reconciles :
      (host : WalletHost) (rate_ttl : ℤ) (fetched : ℤ → Result ExchangeRateError UsdQuote) (id : ℕ)
      (outcome : ProviderOutcome) (first : WalletDb) (answer : Answer)
      → with_cutover_ready first
          (reconcile_verified_outcome host rate_ttl fetched id outcome first db)
        ≡ ok (answer, db')
      → WalletStep db db'

-- Any number of calls, one after the other.
pub data WalletRun : WalletDb → WalletDb → Type 0 where
  done : {db : WalletDb} → WalletRun db db
  step : {db next last : WalletDb} → WalletStep db next → WalletRun next last → WalletRun db last

-- What a step has done to the requests and to the ledger.
pub data Change (db db' : WalletDb) : Type 0 where
  kept : db'.coins ≡ db.coins → db'.requests ≡ db.requests → Change db db'
  reserved : (host : WalletHost) (user : ℕ) → Reserved host user db db' → Change db db'
  released : (host : WalletHost) (input : ReleaseInput) → Released host input db db' → Change db db'
  approved : Approved db db' → Change db db'
  reconciled : (host : WalletHost) (id : ℕ) → Reconciled host id db db' → Change db db'

when_coin-eq-ok :
    {A : Type 0} (system : Option ActiveSystem) (operation : Wallet A) (a : A)
    → when_coin system operation ≡ ok a
    → (system ≡ some ActiveSystem.coin) × (operation ≡ ok a)
unfolding when_coin
when_coin-eq-ok (some ActiveSystem.coin) operation a h = (refl, h)
when_coin-eq-ok _ operation a h = cc

pub with_cutover_ready-eq-ok :
    {A : Type 0} (db : WalletDb) (operation : Wallet A) (a : A)
    → with_cutover_ready db operation ≡ ok a
    → (db.coins.active_system ≡ some ActiveSystem.coin) × (operation ≡ ok a)
unfolding with_cutover_ready
with_cutover_ready-eq-ok db operation a h = when_coin-eq-ok db.coins.active_system operation a h

unchanged : (db db' : WalletDb) {P : Type 0} → (P → Change db db') → (db' ≡ db) ⊎ P → Change db db'
unchanged db db' made (inl same) =
    Change.kept (ap (λ (d : WalletDb). d.coins) same) (ap (λ (d : WalletDb). d.requests) same)
unchanged db db' made (inr p) = made p

cancel-Change :
    (host : WalletHost) (id user : ℕ) (reason : Option (Option Text)) (db : WalletDb)
    (out : Answer × WalletDb)
    → cancel_withdrawal host id user reason db ≡ ok out
    → Change db out.1
unfolding cancel_withdrawal
cancel-Change host id user reason db out h =
    let (given, valid, h1) = >>=-eq-ok (optional_reason reason) _ h in
    unchanged db out.1 (Change.released host _) (release-Released host _ db out h1)

reject-Change :
    (host : WalletHost) (id : ℕ) (actor : Text) (reason : Option Text) (db : WalletDb)
    (out : Answer × WalletDb)
    → reject_withdrawal host id actor reason db ≡ ok out
    → Change db out.1
unfolding reject_withdrawal
reject-Change host id actor reason db out h =
    let (known, checked, h1) = >>=-eq-ok (required_text (some actor)) _ h in
    let (given, valid, h2) = >>=-eq-ok (required_reason reason) _ h1 in
    unchanged db out.1 (Change.released host _) (release-Released host _ db out h2)

pub step-Change : (db db' : WalletDb) → WalletStep db db' → Change db db'
step-Change db db'
      (WalletStep.quotes_withdrawal host ttl fetched network fee input first answer h) =
    let keeps =
      create_quote-Keeps host ttl fetched network fee db (answer, db') input first
        (with_cutover_ready-eq-ok first _ _ h).1 in
    Change.kept keeps.0 keeps.1
step-Change db db' (WalletStep.confirms host input first answer h) =
    unchanged db db' (Change.reserved host _)
      (confirm-Reserved host db (answer, db') input (with_cutover_ready-eq-ok first _ _ h).1)
step-Change db db' (WalletStep.cancels host id user reason first answer h) =
    cancel-Change host id user reason db (answer, db') (with_cutover_ready-eq-ok first _ _ h).1
step-Change db db' (WalletStep.rejects host id actor reason first answer h) =
    reject-Change host id actor reason db (answer, db') (with_cutover_ready-eq-ok first _ _ h).1
step-Change db db' (WalletStep.approves host id actor reason first answer h) =
    unchanged db db' Change.approved (
      approve-Approved host db id actor reason (answer, db')
        (with_cutover_ready-eq-ok first _ _ h).1)
step-Change db db' (WalletStep.retries host id actor reason first answer h) =
    unchanged db db' Change.approved (
      retry-Approved host db id actor reason first (answer, db')
        (with_cutover_ready-eq-ok first _ _ h).1)
step-Change db db' (WalletStep.reconciles host ttl fetched id outcome first answer h) =
    unchanged db db' (Change.reconciled host id) (
      reconcile-Reconciled host ttl fetched id outcome first db (answer, db')
        (with_cutover_ready-eq-ok first _ _ h).1)

kept-IsValid : (db db' : WalletDb) → IsValid db → db'.requests ≡ db.requests → IsValid db'
kept-IsValid db db' valid same = record {
  unique = rw same valid.unique;
  sound = rw same valid.sound;
}

Change-IsValid : (db db' : WalletDb) → IsValid db → Change db db' → IsValid db'
Change-IsValid db db' valid (Change.kept c r) = kept-IsValid db db' valid r
Change-IsValid db db' valid (Change.reserved host user made) =
    Reserved-IsValid db db' valid host user made
Change-IsValid db db' valid (Change.released host input made) =
    Released-IsValid db db' valid host input made
Change-IsValid db db' valid (Change.approved made) = Approved-IsValid db db' valid made
Change-IsValid db db' valid (Change.reconciled host id made) =
    Reconciled-IsValid db db' valid host id made

pub step-IsValid : (db db' : WalletDb) → IsValid db → WalletStep db db' → IsValid db'
step-IsValid db db' valid made = Change-IsValid db db' valid (step-Change db db' made)

-- From a table of requests of which this holds, it holds after any calls of the withdrawal service
-- that succeed, in any order: a request that is pending or approved has no final debit and no
-- release; a cancelled or rejected one has a release and no final debit; a broadcasted one has a
-- final debit and no release; a failed one has no final debit; one that waits for its broadcast
-- has not both; a final debit takes what was reserved; and no two requests have one id.
pub run-IsValid : (db db' : WalletDb) → IsValid db → WalletRun db db' → IsValid db'
run-IsValid db db' valid WalletRun.done = valid
run-IsValid db db' valid (WalletRun.step {next} first rest) =
    run-IsValid next db' (step-IsValid db next valid first) rest
