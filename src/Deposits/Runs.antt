-- ===== src/Deposits/Runs.antt =====
-- Every event and every retry leaves each deposit in a phase that its status allows.
use mpulse.Common.{
  ℕ, ◌≡◌, refl, Bool, true, false, not, ◌&&◌, ◌||◌, Option, none, some, List, [], ◌∷◌, map, inl,
  inr, Result, ok, err, throw_if, if◌then◌else◌, All, Bool-cases, >>=-eq-ok, ltb,
}
use mpulse.Common.Int.{ℤ, pos}
use mpulse.Common.Text.{Text, codes, text_eq}
use mpulse.Common.Table.{Stands, Stands-All, map-IsUnique}
use mpulse.Money.Units.{usdt_atomic}
use mpulse.ExchangeRates.{UsdQuote, ExchangeRateError}
use mpulse.Wallets.Types.{WalletError, Wallet, WalletHost}
use mpulse.Wallets.Parse.{required_text, required_reason}
use mpulse.Wallets.Store.{is_some, required}
use mpulse.Wallets.Amounts.{from_rate}
use mpulse.Wallets.Quotes.{as_money}
use mpulse.Wallets.Succeeded.{required-eq-ok}
use mpulse.Deposits.Types.{
  DepositStatus, Deposit, ProviderEvent, Event, DepositDb, DepositOptions, Processed,
}
use mpulse.Deposits.Store.{StoredEvent, store_provider_event, find_deposit, find_entry_of}
use mpulse.Deposits.Matching.{
  is_deposit_of, is_deposit_financial_state_immutable, Locked, lock_or_create_deposit,
}
use mpulse.Deposits.Validation.{no_issues}
use mpulse.Deposits.Credit.{is_credited}
use mpulse.Deposits.Reverse.{is_reversed}
use mpulse.Deposits.Process.{
  with_issues, contract_issues, awaits_reversal, unpriced_status, mark_conflict,
  record_payload_conflict, record_fields_conflict, hold_back, price_deposit, credit_allowed,
  validated, answer_again, process_case, process_deposit, process_locked, process_stored,
  process_webhook, retryable, is_retryable, retry_case, retry_locked, retry_deposit, deposit_quote,
  quote_for_event,
}
use mpulse.Deposits.Phases.{
  deposit_phase, IsSound, key, AreSound, Uncredited, find_deposit-Stands, IsLocked, lock-IsLocked,
}
use mpulse.Deposits.Credited.{
  is_uncredited, status-Uncredited, keep-AreSound, credit-AreSound, reverse-AreSound,
}

unpriced_plain : (e : ExchangeRateError) → deposit_phase (unpriced_status e) false false ≡ true
unpriced_plain ExchangeRateError.rate_stale = refl
unpriced_plain ExchangeRateError.rate_unavailable = refl
unpriced_plain ExchangeRateError.rate_asset_unsupported = refl
unpriced_plain ExchangeRateError.rate_provider_invalid = refl
unpriced_plain ExchangeRateError.rate_response_invalid = refl

-- Where the event is none of the cases before, nothing has been credited.
left_uncredited :
    (s : DepositStatus) (c r : Bool)
    → is_credited s ≡ false
    → (is_reversed s || awaits_reversal s) ≡ false
    → deposit_phase s c r ≡ true
    → is_uncredited s ≡ true
left_uncredited DepositStatus.credited c r u w h = cc
left_uncredited DepositStatus.reversal_pending c r u w h = cc
left_uncredited DepositStatus.reversing c r u w h = cc
left_uncredited DepositStatus.reversed c r u w h = cc
left_uncredited DepositStatus.detected c r u w h = refl
left_uncredited DepositStatus.confirming c r u w h = refl
left_uncredited DepositStatus.confirmed_unpriced c r u w h = refl
left_uncredited DepositStatus.pending_rate c r u w h = refl
left_uncredited DepositStatus.manual_review c r u w h = refl
left_uncredited DepositStatus.rejected c r u w h = refl

retryable_uncredited :
    (s : DepositStatus) (reason : Option Text) → retryable s reason ≡ true → is_uncredited s ≡ true
retryable_uncredited DepositStatus.pending_rate reason h = refl
retryable_uncredited DepositStatus.confirmed_unpriced reason h = refl
retryable_uncredited DepositStatus.manual_review reason h = refl
retryable_uncredited _ reason h = cc

ok_injective :
    (a b : Processed × DepositDb) → ◌≡◌ {A = Wallet (Processed × DepositDb)} (ok a) (ok b) → a ≡ b
ok_injective a b h = cc

phase_marked :
    (s : DepositStatus) (c r : Bool)
    → deposit_phase s c r ≡ true
    → deposit_phase
        (if is_deposit_financial_state_immutable s then s else DepositStatus.manual_review)
        c
        r
      ≡ true
unfolding is_deposit_financial_state_immutable
phase_marked DepositStatus.credited c r h = h
phase_marked DepositStatus.reversal_pending c r h = h
phase_marked DepositStatus.reversing c r h = h
phase_marked DepositStatus.reversed c r h = h
phase_marked DepositStatus.detected c r h = h
phase_marked DepositStatus.confirming c r h = h
phase_marked DepositStatus.confirmed_unpriced c r h = h
phase_marked DepositStatus.pending_rate c r h = h
phase_marked DepositStatus.manual_review c r h = h
phase_marked DepositStatus.rejected c r h = h

and_true : (a : Bool) → (a && true) ≡ false → a ≡ false
and_true true h = cc
and_true false h = refl

module _ (host : WalletHost) (options : DepositOptions)
    (fetched : ℤ → Result ExchangeRateError UsdQuote) where
  again-AreSound :
      (entry : Option ℕ) (blocked : Option Text) (d : Deposit) (db : DepositDb)
      (out : Processed × DepositDb)
      → AreSound db.deposits
      → answer_again host options fetched entry blocked d db ≡ ok out
      → AreSound out.1.deposits
  unfolding answer_again
  again-AreSound entry blocked d db out valid h =
      let (found, read, h1) = >>=-eq-ok (find_entry_of entry db) _ h in
      let same : out.1 ≡ db = cc in rw same valid

  module _ (e : Event) (d : Deposit) (db : DepositDb) (out : Processed × DepositDb)
      (valid : AreSound db.deposits) (place : Stands key d db.deposits) where
    hold_back-AreSound :
        (reason : Text) (existing : Bool)
        → Uncredited d
        → AreSound (hold_back host options fetched reason existing e d db).1.deposits
    unfolding hold_back
    hold_back-AreSound reason existing uncredited =
        elim (Bool-cases (text_eq reason (codes "INSUFFICIENT_CONFIRMATIONS"))) [
          | inl early ↦ rw early (
              keep-AreSound host options fetched DepositStatus.confirming none none reason _ _
                existing e d db refl uncredited valid place)
          | inr other ↦ rw other (
              keep-AreSound host options fetched DepositStatus.manual_review (some reason) none
                reason _ _ existing e d db refl uncredited valid place)
        ]

    price-AreSound :
        (quote : Result ExchangeRateError UsdQuote) (existing : Bool)
        → Uncredited d
        → price_deposit host options fetched quote existing e d db ≡ ok out
        → AreSound out.1.deposits
    unfolding price_deposit
    price-AreSound (err rate_error) existing uncredited h = rw (← ok_injective _ out h) (
        keep-AreSound host options fetched (unpriced_status rate_error) _ (some host.now_text) _ _ _
          existing e d db (unpriced_plain rate_error) uncredited valid place)
    price-AreSound (ok quote) existing uncredited h =
        credit-AreSound host e.provider_event_id none quote d db out uncredited valid place h

    allowed-AreSound :
        (allowed : Bool) (quote : Result ExchangeRateError UsdQuote) (existing : Bool)
        → Uncredited d
        → credit_allowed host options fetched allowed quote existing e d db ≡ ok out
        → AreSound out.1.deposits
    unfolding credit_allowed
    allowed-AreSound true quote existing uncredited h = price-AreSound quote existing uncredited h
    allowed-AreSound false quote existing uncredited h = rw (← ok_injective _ out h) (
        keep-AreSound host options fetched DepositStatus.manual_review _ (some host.now_text) _ _
          none existing e d db refl uncredited valid place)

    validated-AreSound :
        (reason : Option Text) (quote : Result ExchangeRateError UsdQuote) (existing : Bool)
        → Uncredited d
        → validated host options fetched reason quote existing e d db ≡ ok out
        → AreSound out.1.deposits
    unfolding validated
    validated-AreSound (some reason) quote existing uncredited h =
        rw (← ok_injective _ out h) (hold_back-AreSound reason existing uncredited)
    validated-AreSound none quote existing uncredited h =
        allowed-AreSound _ quote existing uncredited h

    case-AreSound :
        (credited reversed back : Bool) (quote : Result ExchangeRateError UsdQuote)
        (existing : Bool)
        → (is_credited d.deposit_status && not back) ≡ credited
        → ((is_reversed d.deposit_status || awaits_reversal d.deposit_status) && not back)
          ≡ reversed
        → IsSound d
        → process_case host options fetched credited reversed back quote existing e d db ≡ ok out
        → AreSound out.1.deposits
    unfolding process_case
    case-AreSound true reversed back quote existing kc kr sound h =
        again-AreSound _ _ d db out valid h
    case-AreSound false true back quote existing kc kr sound h = again-AreSound _ _ d db out valid h
    case-AreSound false false true quote existing kc kr sound h =
        reverse-AreSound host e d db out sound valid place h
    case-AreSound false false false quote existing kc kr sound h =
        validated-AreSound _ quote existing
          (status-Uncredited d
            (left_uncredited d.deposit_status _ _ (and_true _ kc) (and_true _ kr) sound.phase)
            sound)
          h

    process-AreSound :
        (quote : Result ExchangeRateError UsdQuote) (existing : Bool)
        → IsSound d
        → process_deposit host options fetched quote existing e d db ≡ ok out
        → AreSound out.1.deposits
    unfolding process_deposit
    process-AreSound quote existing sound h =
        case-AreSound _ _ e.reversal quote existing refl refl sound h

  locked-AreSound :
      (quote : Result ExchangeRateError UsdQuote) (stored : StoredEvent) (e : Event) (l : Locked)
      (db : DepositDb) (out : Processed × DepositDb)
      → IsLocked l
      → process_locked host options fetched quote stored e l db ≡ ok out
      → AreSound out.1.deposits
  unfolding process_locked record_fields_conflict
  locked-AreSound quote stored e l db out held h = elim (Bool-cases l.fields_clash) [
    | inl clash ↦ let result = ok_injective _ out (rw clash at h) in rw (← result) held.valid
    | inr agree ↦
        process-AreSound e l.locked (record db { deposits = l.rows }) out held.valid held.place
          quote stored.was_there
          (Stands-All key IsSound l.rows l.locked held.place held.valid.sound) (rw agree at h)
  ]

  mark-IsSound : (d : Deposit) → IsSound d → IsSound (mark_conflict host options fetched d)
  unfolding mark_conflict
  mark-IsSound d h = record { phase = phase_marked d.deposit_status _ _ h.phase; owned = h.owned }

  marked-AreSound :
      (e : Event) (rows : List Deposit)
      → AreSound rows
      → AreSound
          (map (λ d. if is_deposit_of e d then mark_conflict host options fetched d else d) rows)
  unfolding mark_conflict
  marked-AreSound e rows valid = record {
    unique =
        map-IsUnique key _
          (λ d. elim (Bool-cases (is_deposit_of e d)) [
            | inl this ↦ rw this refl
            | inr other ↦ rw other refl
          ])
          rows valid.unique;
    sound = marked-All e rows valid.sound;
  }
    where
      marked-All :
          (e : Event) (l : List Deposit)
          → All IsSound l
          → All IsSound
              (map (λ d. if is_deposit_of e d then mark_conflict host options fetched d else d) l)
      marked-All e [] h = tt
      marked-All e (d ∷ l) h = (
        elim (Bool-cases (is_deposit_of e d)) [
          | inl this ↦ rw this (mark-IsSound d h.0)
          | inr other ↦ rw other h.0
        ],
        marked-All e l h.1,
      )

  stored-AreSound :
      (quote : Result ExchangeRateError UsdQuote) (e : Event) (stored : StoredEvent)
      (events : List ProviderEvent) (db : DepositDb) (out : Processed × DepositDb)
      → AreSound db.deposits
      → process_stored host options fetched quote e (stored, events) db ≡ ok out
      → AreSound out.1.deposits
  unfolding process_stored record_payload_conflict
  stored-AreSound quote e stored events db out valid h =
      elim (Bool-cases (not (text_eq stored.stored_hash e.payload_hash))) [
        | inl clash ↦
            let result = ok_injective _ out (rw clash at h) in
            rw (← result) (marked-AreSound e db.deposits valid)
        | inr same ↦
            let (l, held, h1) =
              >>=-eq-ok
                (lock_or_create_deposit host stored.stored_id options.needed_confirmations e
                  (record db { events = events }))
                _ (rw same at h) in
            locked-AreSound quote stored e l (record db { events = events }) out
              (lock-IsLocked host stored.stored_id _ e (record db { events = events }) l valid held)
              h1
      ]

  webhook-AreSound :
      (received : Event) (db : DepositDb) (out : Processed × DepositDb)
      → AreSound db.deposits
      → process_webhook host options fetched received db ≡ ok out
      → AreSound out.1.deposits
  unfolding process_webhook
  webhook-AreSound received db out valid h =
      let e = with_issues options.usdt_tron_contract received in
      let found =
        store_provider_event (host.new_uuid 0) e.provider_event_id e.payload_hash db.events in
      stored-AreSound (quote_for_event host options fetched e) e found.0 found.1 db out valid h

  retry_case-AreSound :
      (done may : Bool) (actor reason : Text) (quote : UsdQuote) (d : Deposit) (db : DepositDb)
      (out : Processed × DepositDb)
      → is_retryable d ≡ may
      → AreSound db.deposits
      → Stands key d db.deposits
      → retry_case host options fetched done may actor reason quote d db ≡ ok out
      → AreSound out.1.deposits
  unfolding retry_case
  retry_case-AreSound true may actor reason quote d db out known valid place h =
      again-AreSound _ _ d db out valid h
  retry_case-AreSound false true actor reason quote d db out known valid place h =
      let sound = Stands-All key IsSound db.deposits d place valid.sound in
      credit-AreSound host _ _ quote d db out
        (status-Uncredited d (retryable_uncredited d.deposit_status d.manual_review_reason known)
          sound)
        valid place h
  retry_case-AreSound false false actor reason quote d db out known valid place h = cc

  retry-AreSound :
      (id : ℕ) (actor : Text) (reason : Option Text) (first db : DepositDb)
      (out : Processed × DepositDb)
      → AreSound db.deposits
      → retry_deposit host options fetched id actor reason first db ≡ ok out
      → AreSound out.1.deposits
  unfolding retry_deposit retry_locked
  retry-AreSound id actor reason first db out valid h =
      let (given, r1, h1) = >>=-eq-ok (required_reason reason) _ h in
      let (known, r2, h2) = >>=-eq-ok (required_text (some actor)) _ h1 in
      let (u, r3, h3) =
        >>=-eq-ok (throw_if (not options.allow_deposit_credits) WalletError.deposit_not_retryable) _
          h2 in
      let (d, r4, h4) =
        >>=-eq-ok (required WalletError.deposit_not_found (find_deposit id first.deposits)) _ h3 in
      let (v, r5, h5) =
        >>=-eq-ok
          (throw_if
            (not (is_retryable d)
              || ltb d.actual_confirmations d.required_confirmations
              || not (no_issues (contract_issues options.usdt_tron_contract d.contract)))
            WalletError.deposit_not_retryable)
          _ h4 in
      let (w, r6, h6) =
        >>=-eq-ok
          (throw_if (not (is_some d.deposit_user) || not (is_some d.deposit_intent))
            WalletError.deposit_not_retryable)
          _ h5 in
      let (net, r7, h7) = >>=-eq-ok (as_money (usdt_atomic (pos d.net_usdt) false)) _ h6 in
      let (quote, r8, h8) =
        >>=-eq-ok (from_rate (deposit_quote host options fetched d.net_usdt)) _ h7 in
      let (locked, r9, h9) =
        >>=-eq-ok (required WalletError.deposit_not_found (find_deposit id db.deposits)) _ h8 in
      retry_case-AreSound _ _ known given quote locked db out refl valid
        (find_deposit-Stands id db.deposits locked (required-eq-ok _ _ locked r9)) h9

-- What can happen to the deposits: an event of the provider, with whatever it says, or a retry by an
-- administrator. Each has its own host, and `first` is the state at a first read.
pub data DepositStep (db db' : DepositDb) : Type 0 where
  receives :
      (host : WalletHost) (options : DepositOptions)
      (fetched : ℤ → Result ExchangeRateError UsdQuote) (received : Event) (answer : Processed)
      → process_webhook host options fetched received db ≡ ok (answer, db')
      → DepositStep db db'
  retries :
      (host : WalletHost) (options : DepositOptions)
      (fetched : ℤ → Result ExchangeRateError UsdQuote) (id : ℕ) (actor : Text)
      (reason : Option Text) (first : DepositDb) (answer : Processed)
      → retry_deposit host options fetched id actor reason first db ≡ ok (answer, db')
      → DepositStep db db'

pub data DepositRun : DepositDb → DepositDb → Type 0 where
  done : {db : DepositDb} → DepositRun db db
  step :
      {db next last : DepositDb} → DepositStep db next → DepositRun next last → DepositRun db last

step-AreSound :
    (db db' : DepositDb) → AreSound db.deposits → DepositStep db db' → AreSound db'.deposits
step-AreSound db db' valid (DepositStep.receives host options fetched received answer h) =
    webhook-AreSound host options fetched received db (answer, db') valid h
step-AreSound db db' valid
      (DepositStep.retries host options fetched id actor reason first answer h) =
    retry-AreSound host options fetched id actor reason first db (answer, db') valid h

-- From deposits of which this holds, it holds after any events and retries that succeed, in any
-- order: a deposit records a credit entry exactly where it is credited, about to be reversed, or
-- reversed, and a reversal entry exactly where it is reversed; a deposit with a credit has an
-- amount and a user; none is reversing; and no two deposits have one id.
pub run-AreSound :
    (db db' : DepositDb) → AreSound db.deposits → DepositRun db db' → AreSound db'.deposits
run-AreSound db db' valid DepositRun.done = valid
run-AreSound db db' valid (DepositRun.step {next} first rest) =
    run-AreSound next db' (step-AreSound db next valid first) rest
