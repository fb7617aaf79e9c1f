-- ===== src/Deposits/Validation.antt =====
-- src/coinWallets.ts: `validateDepositForCredit`, which says why a deposit may not be credited.
use mpulse.Common.{
  ℕ, Bool, true, false, not, ◌&&◌, ◌||◌, Option, none, some, List, [], ◌∷◌, ◌++◌, max,
  if◌then◌else◌, ◌==◌, ltb,
}
use mpulse.Common.Int.{ℤ, pos, leb_ℤ, ltb_ℤ, eqb_ℤ}
use mpulse.Common.Text.{Text, codes, text_eq}
use mpulse.Wallets.Types.{WalletHost}
use mpulse.Wallets.Store.{is_some, is_text}
use mpulse.Wallets.Address.{is_valid_tron_address}
use mpulse.Deposits.Types.{DepositStatus, Deposit, Intent, Event}
use mpulse.Deposits.Store.{find_intent, is_open_intent}
use mpulse.Deposits.Matching.{immutable_fields_conflict, intent_ambiguous}

-- A sequence of `if (test) return reason`.
unfoldable pub first_reason : List (Bool × Text) → Option Text
first_reason [] = none
first_reason ((test, reason) ∷ rest) = if test then some reason else first_reason rest

abbrev pub no_issues : List Text → Bool
no_issues [] = true
no_issues (i ∷ issues) = false

abbrev pub head_issue : List Text → Text
head_issue [] = codes "INVALID_PROVIDER_EVENT"
head_issue (i ∷ issues) = i

-- `["confirmed_unpriced", "pending_rate", "credited", "reversal_pending", "reversed"]`
abbrev pub is_past_confirmation : DepositStatus → Bool
is_past_confirmation DepositStatus.confirmed_unpriced = true
is_past_confirmation DepositStatus.pending_rate = true
is_past_confirmation DepositStatus.credited = true
is_past_confirmation DepositStatus.reversal_pending = true
is_past_confirmation DepositStatus.reversed = true
is_past_confirmation _ = false

unfoldable pub was_already_confirmed : Deposit → Bool
was_already_confirmed d = is_some d.confirmed_at || is_past_confirmation d.deposit_status

abbrev pub is_user : Option ℕ → ℕ → Bool
is_user none id = false
is_user (some u) id = u == id

unfoldable pub intent_reasons : ℤ → Deposit → Option Intent → List (Bool × Text)
intent_reasons now d none = (true, codes "DEPOSIT_INTENT_MISSING_OR_EXPIRED") ∷ []
intent_reasons now d (some i) =
    (leb_ℤ i.intent_expires now, codes "DEPOSIT_INTENT_MISSING_OR_EXPIRED")
    ∷ (
      not (is_user d.deposit_user i.intent_user)
          || not (text_eq i.intent_address d.deposit_address)
          || not (is_open_intent i.intent_status),
      codes "DEPOSIT_INTENT_MISMATCH",
    )
    ∷ (ltb_ℤ i.expected_amount (pos 0), codes "DEPOSIT_INTENT_AMOUNT_INVALID")
    ∷ (not (eqb_ℤ i.expected_amount (pos d.gross_usdt)), codes "DEPOSIT_AMOUNT_MISMATCH")
    ∷ []

abbrev pub intent_of : Option ℕ → List Intent → Option Intent
intent_of none intents = none
intent_of (some id) intents = find_intent id intents

unfoldable pub event_reasons : WalletHost → Deposit → Event → List (Bool × Text)
unfolding was_already_confirmed
event_reasons host d e =
    (is_text d.manual_review_reason immutable_fields_conflict, immutable_fields_conflict)
    ∷ (is_text d.manual_review_reason intent_ambiguous, intent_ambiguous)
    ∷ (not (no_issues e.validation_issues), head_issue e.validation_issues)
    ∷ (not (text_eq e.event_asset (codes "USDT")), codes "UNSUPPORTED_ASSET")
    ∷ (not (text_eq e.event_network (codes "TRON")), codes "UNSUPPORTED_NETWORK")
    ∷ (not (is_valid_tron_address host.sha256 e.destination), codes "INVALID_DESTINATION_ADDRESS")
    ∷ (
      not (is_some d.deposit_intent) || not (is_some d.deposit_user),
      codes "DEPOSIT_INTENT_MISSING_OR_EXPIRED",
    )
    ∷ (
      ltb (max e.confirmations d.actual_confirmations) d.required_confirmations,
      codes "INSUFFICIENT_CONFIRMATIONS",
    )
    ∷ (not e.confirmed && not (was_already_confirmed d), codes "PROVIDER_STATUS_NOT_CONFIRMED")
    ∷ (d.net_usdt == 0, codes "INVALID_NET_AMOUNT")
    ∷ []

unfoldable pub validate_deposit_for_credit :
    WalletHost → Deposit → Event → List Intent → Option Text
unfolding first_reason event_reasons intent_reasons
validate_deposit_for_credit host d e intents =
    first_reason
      (event_reasons host d e ++ intent_reasons host.now d (intent_of d.deposit_intent intents))
