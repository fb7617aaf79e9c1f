-- ===== src/Deposits/Checked.antt =====
-- An event credits Coins only for a deposit that passes every check.
use mpulse.Common.{
  ℕ, ◌≤◌, ◌≡◌, ◌≢◌, ◌⊎◌, refl, sym, ◌∙◌, Bool, true, false, not, ◌||◌, Option, none, some, List, [],
  ◌∷◌, ◌++◌, max, inl, inr, Result, ok, err, if◌then◌else◌, All, Bool-cases, >>=-eq-ok,
  ltb_false→le, ==_iff,
}
use mpulse.Common.Int.{ℤ, pos, leb_ℤ, eqb_ℤ→eq}
use mpulse.Common.Text.{Text, codes, text_eq}
use mpulse.ExchangeRates.{UsdQuote, ExchangeRateError}
use mpulse.Wallets.Types.{Wallet, WalletHost}
use mpulse.Wallets.Address.{is_valid_tron_address}
use mpulse.Deposits.Types.{
  Deposit, Intent, ProviderEvent, Event, DepositDb, DepositOptions, Processed,
}
use mpulse.Deposits.Store.{StoredEvent, store_provider_event, find_entry_of, is_open_intent}
use mpulse.Deposits.Matching.{Locked, lock_or_create_deposit}
use mpulse.Deposits.Validation.{
  first_reason, no_issues, is_user, intent_reasons, intent_of, event_reasons,
  validate_deposit_for_credit,
}
use mpulse.Deposits.Process.{
  with_issues, record_payload_conflict, record_fields_conflict, keep_deposit, hold_back,
  price_deposit, credit_allowed, validated, answer_again, process_case, process_deposit,
  process_locked, process_stored, process_webhook, quote_for_event,
}

-- The event has no issue, the address is valid, the confirmations suffice, something is left after
-- the fees, and the intent of the deposit is the user's, is open, has not expired, and expects the
-- gross amount; a rate was found, and credits are allowed.
pub record IsChecked (host : WalletHost) (options : DepositOptions)
    (quote : Result ExchangeRateError UsdQuote) (e : Event) (d : Deposit) (intents : List Intent)
    : Type 0 where
  pub allowed : options.allow_deposit_credits ≡ true
  pub rate : UsdQuote
  pub priced : quote ≡ ok rate
  pub clean : no_issues e.validation_issues ≡ true
  pub addressed : is_valid_tron_address host.sha256 e.destination ≡ true
  pub enough : d.required_confirmations ≤ max e.confirmations d.actual_confirmations
  pub some_left : d.net_usdt ≢ 0
  pub intent : Intent
  pub found : intent_of d.deposit_intent intents ≡ some intent
  pub of_user : is_user d.deposit_user intent.intent_user ≡ true
  pub open_still : is_open_intent intent.intent_status ≡ true
  pub unexpired : leb_ℤ intent.intent_expires host.now ≡ false
  pub expected : intent.expected_amount ≡ pos d.gross_usdt

abbrev Passed : Bool × Text → Type 0
Passed p = p.0 ≡ false

first_reason-none : (l : List (Bool × Text)) → first_reason l ≡ none → All Passed l
unfolding first_reason
first_reason-none [] h = tt
first_reason-none ((test, reason) ∷ l) h = passed test reason l (first_reason-none l) h
  where
    passed :
        (t : Bool) (why : Text) (rest : List (Bool × Text))
        → (first_reason rest ≡ none → All Passed rest)
        → (if t then some why else first_reason rest) ≡ none
        → All Passed ((t, why) ∷ rest)
    passed true why rest next e = cc
    passed false why rest next e = (refl, next e)

All-left : (a b : List (Bool × Text)) → All Passed (a ++ b) → All Passed a
All-left [] b h = tt
All-left (p ∷ a) b h = (h.0, All-left a b h.1)

All-right : (a b : List (Bool × Text)) → All Passed (a ++ b) → All Passed b
All-right [] b h = h
All-right (p ∷ a) b h = All-right a b h.1

not-false : (b : Bool) → not b ≡ false → b ≡ true
not-false true h = refl
not-false false h = cc

all_three : (a b c : Bool) → (not a || not b || not c) ≡ false → (a ≡ true) × (c ≡ true)
all_three true true true h = (refl, refl)
all_three true true false h = cc
all_three true false c h = cc
all_three false b c h = cc

true-false : true ≢ false
true-false e = cc

module _ (host : WalletHost) (options : DepositOptions) (quote : UsdQuote) (e : Event) (d : Deposit)
    (intents : List Intent) (allowed : options.allow_deposit_credits ≡ true) where
  intent-IsChecked :
      (found : Option Intent)
      → intent_of d.deposit_intent intents ≡ found
      → All Passed (event_reasons host d e)
      → All Passed (intent_reasons host.now d found)
      → IsChecked host options (ok quote) e d intents
  unfolding event_reasons intent_reasons
  intent-IsChecked none known event passed = absurd (true-false passed.0)
  intent-IsChecked (some i) known event passed =
      let (owned, open_intent) =
        all_three (is_user d.deposit_user i.intent_user)
          (text_eq i.intent_address d.deposit_address) (is_open_intent i.intent_status)
          passed.1.0 in
      record {
        allowed = allowed;
        rate = quote;
        priced = refl;
        clean = not-false _ event.1.1.0;
        addressed = not-false _ event.1.1.1.1.1.0;
        enough = ltb_false→le _ _ event.1.1.1.1.1.1.1.0;
        some_left =
            λ z. absurd (true-false (sym ((==_iff d.net_usdt 0).1 z) ∙ event.1.1.1.1.1.1.1.1.1.0));
        intent = i;
        found = known;
        of_user = owned;
        open_still = open_intent;
        unexpired = passed.0;
        expected = eqb_ℤ→eq _ _ (not-false _ passed.1.1.1.0);
      }

  validated-IsChecked :
      validate_deposit_for_credit host d e intents ≡ none
      → IsChecked host options (ok quote) e d intents
  unfolding validate_deposit_for_credit
  validated-IsChecked h =
      let found = intent_of d.deposit_intent intents in
      let passed =
        first_reason-none (event_reasons host d e ++ intent_reasons host.now d found) h in
      intent-IsChecked found refl (All-left (event_reasons host d e) _ passed)
        (All-right (event_reasons host d e) _ passed)

with_issues-reversal :
    (contract : Option Text) (e : Event) → (with_issues contract e).reversal ≡ e.reversal
unfolding with_issues
with_issues-reversal contract e = refl

-- The row that an event was credited for.
pub record CreditFor (host : WalletHost) (options : DepositOptions)
    (quote : Result ExchangeRateError UsdQuote) (e : Event) (db : DepositDb) : Type 0 where
  pub stored : ℕ
  pub rows : List ProviderEvent
  pub l : Locked
  pub lock :
      lock_or_create_deposit host stored options.needed_confirmations e
        (record db { events = rows })
      ≡ ok l
  pub agree : l.fields_clash ≡ false
  pub checked : IsChecked host options quote e l.locked db.intents

module _ (host : WalletHost) (options : DepositOptions)
    (fetched : ℤ → Result ExchangeRateError UsdQuote) where
  module _ (e : Event) (d : Deposit) (db : DepositDb) (out : Processed × DepositDb) where
    ok_injective :
        (a b : Processed × DepositDb)
        → ◌≡◌ {A = Wallet (Processed × DepositDb)} (ok a) (ok b)
        → a ≡ b
    ok_injective a b h = cc

    hold_back-coins :
        (reason : Text) (existing : Bool)
        → (hold_back host options fetched reason existing e d db).1.coins ≡ db.coins
    unfolding hold_back keep_deposit
    hold_back-coins reason existing =
        elim (Bool-cases (text_eq reason (codes "INSUFFICIENT_CONFIRMATIONS"))) [
          | inl early ↦ rw early refl
          | inr other ↦ rw other refl
        ]

    allowed-coins :
        (allow : Bool) (quote : Result ExchangeRateError UsdQuote) (existing : Bool)
        → options.allow_deposit_credits ≡ allow
        → validate_deposit_for_credit host d e db.intents ≡ none
        → credit_allowed host options fetched allow quote existing e d db ≡ ok out
        → (out.1.coins ≡ db.coins) ⊎ IsChecked host options quote e d db.intents
    unfolding credit_allowed price_deposit keep_deposit
    allowed-coins false quote existing ka kv h = inl (rw (← ok_injective _ out h) refl)
    allowed-coins true (err rate_error) existing ka kv h = inl (rw (← ok_injective _ out h) refl)
    allowed-coins true (ok rate) existing ka kv h =
        inr (validated-IsChecked host options rate e d db.intents ka kv)

    validated-coins :
        (reason : Option Text) (quote : Result ExchangeRateError UsdQuote) (existing : Bool)
        → validate_deposit_for_credit host d e db.intents ≡ reason
        → validated host options fetched reason quote existing e d db ≡ ok out
        → (out.1.coins ≡ db.coins) ⊎ IsChecked host options quote e d db.intents
    unfolding validated
    validated-coins (some reason) quote existing kv h =
        inl (rw (← ok_injective _ out h) (hold_back-coins reason existing))
    validated-coins none quote existing kv h = allowed-coins _ quote existing refl kv h

    again-coins :
        (entry : Option ℕ) (blocked : Option Text)
        → answer_again host options fetched entry blocked d db ≡ ok out
        → out.1.coins ≡ db.coins
    unfolding answer_again
    again-coins entry blocked h =
        let (found, read, h1) = >>=-eq-ok (find_entry_of entry db) _ h in cc

    case-coins :
        (credited reversed : Bool) (quote : Result ExchangeRateError UsdQuote) (existing : Bool)
        → process_case host options fetched credited reversed false quote existing e d db ≡ ok out
        → (out.1.coins ≡ db.coins) ⊎ IsChecked host options quote e d db.intents
    unfolding process_case
    case-coins true reversed quote existing h = inl (again-coins _ _ h)
    case-coins false true quote existing h = inl (again-coins _ _ h)
    case-coins false false quote existing h = validated-coins _ quote existing refl h

  process-coins :
      (back : Bool) (quote : Result ExchangeRateError UsdQuote) (existing credited reversed : Bool)
      (e : Event) (d : Deposit) (db : DepositDb) (out : Processed × DepositDb)
      → back ≡ false
      → process_case host options fetched credited reversed back quote existing e d db ≡ ok out
      → (out.1.coins ≡ db.coins) ⊎ IsChecked host options quote e d db.intents
  process-coins true quote existing credited reversed e d db out forth h = absurd (true-false forth)
  process-coins false quote existing credited reversed e d db out forth h =
      case-coins e d db out credited reversed quote existing h

  stored-coins :
      (quote : Result ExchangeRateError UsdQuote) (e : Event) (stored : StoredEvent)
      (events : List ProviderEvent) (db : DepositDb) (out : Processed × DepositDb)
      → e.reversal ≡ false
      → process_stored host options fetched quote e (stored, events) db ≡ ok out
      → (out.1.coins ≡ db.coins) ⊎ CreditFor host options quote e db
  unfolding process_stored record_payload_conflict process_locked record_fields_conflict
      process_deposit
  stored-coins quote e stored events db out forth h =
      elim (Bool-cases (not (text_eq stored.stored_hash e.payload_hash))) [
        | inl clash ↦ inl (rw (← again_ok _ out (rw clash at h)) refl)
        | inr same ↦
            let (l, lock, h1) =
              >>=-eq-ok
                (lock_or_create_deposit host stored.stored_id options.needed_confirmations e
                  (record db { events = events }))
                _ (rw same at h) in
            elim (Bool-cases l.fields_clash) [
              | inl differs ↦ inl (rw (← again_ok _ out (rw differs at h1)) refl)
              | inr agree ↦
                  elim (process-coins e.reversal quote stored.was_there _ _ e l.locked
                    (record db { events = events; deposits = l.rows }) out forth (rw agree at h1)) [
                      | inl unmoved ↦ inl unmoved
                      | inr checked ↦ inr (record {
                        stored = stored.stored_id;
                        rows = events;
                        l = l;
                        lock = lock;
                        agree = agree;
                        checked = checked;
                      })
                    ]
            ]
      ]
    where
      again_ok :
          (a b : Processed × DepositDb)
          → ◌≡◌ {A = Wallet (Processed × DepositDb)} (ok a) (ok b)
          → a ≡ b
      again_ok a b q = cc

-- An event that does not take a transfer back leaves the Coin ledger, or it is for a deposit whose
-- fixed fields agree with the event and that passes every check: credits are allowed and a valid
-- rate was found; the event has no issue, its address is valid and its confirmations suffice;
-- something is left after the fees; and the intent of the deposit is its user's, is open, has not
-- expired and expects the gross amount.
pub credit-IsChecked :
    (host : WalletHost) (options : DepositOptions) (fetched : ℤ → Result ExchangeRateError UsdQuote)
    (received : Event) (db : DepositDb) (out : Processed × DepositDb)
    → received.reversal ≡ false
    → process_webhook host options fetched received db ≡ ok out
    → (out.1.coins ≡ db.coins)
      ⊎ CreditFor host options
          (quote_for_event host options fetched (with_issues options.usdt_tron_contract received))
          (with_issues options.usdt_tron_contract received)
          db
unfolding process_webhook
credit-IsChecked host options fetched received db out forth h =
    let e = with_issues options.usdt_tron_contract received in
    let found =
      store_provider_event (host.new_uuid 0) e.provider_event_id e.payload_hash db.events in
    stored-coins host options fetched (quote_for_event host options fetched e) e found.0 found.1 db
      out (with_issues-reversal options.usdt_tron_contract received ∙ forth) h
