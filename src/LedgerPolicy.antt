-- ===== src/LedgerPolicy.antt =====
-- src/ledger.ts: the runtime policy of the USDT ledger, which decides what entries may be posted.
-- A Boolean setting that is not given counts as false, as `Boolean(...)` makes it. The ledger's
-- amounts, which are floats, are not modelled.
pub mod Tests
pub mod Safety
pub mod Readiness
use mpulse.Common.{
  Bool, true, false, not, ◌&&◌, ◌||◌, Option, none, some, List, [], ◌∷◌, ◌++◌, Result, ok, err,
  if◌then◌else◌,
}
use mpulse.Common.Text.{Text, codes, trim, is_empty, starts_with, text_eq}

pub data LedgerEntryType : Type 0 where
  credit debit hold release trade_debit trade_credit adjustment : LedgerEntryType

-- What the policy reads of a `CreateLedgerEntryInput`: `source` is `metadata.source` if that is a
-- string, and `adjustment_direction` is `metadata.adjustmentDirection`.
pub record EntryInput : Type 0 where
  pub entry_type : LedgerEntryType
  pub reason : Text
  pub reference_type : Option Text
  pub source : Option Text
  pub adjustment_direction : Option Text

pub record LedgerRuntimePolicy : Type 0 where
  pub app_mode : Option Text
  pub node_env : Option Text
  pub production_deployment : Bool
  pub local_ledger_credit_api : Bool
  pub local_deposit_webhook_credit : Bool
  pub admin_manual_deposit_credit : Bool
  pub admin_activity_seed_api : Bool
  pub local_simulated_trading : Bool
  pub real_trading_execution : Bool
  pub real_withdrawal_transfer : Bool
  pub market_settlement_credit : Bool

pub data CreditApiBlock : Type 0 where
  api_disabled api_production_disabled api_app_mode_disabled : CreditApiBlock

pub record LedgerRuntimeCapabilities : Type 0 where
  pub credit_api_configured : Bool
  pub credit_api_enabled : Bool
  pub credit_api_block_reason : Option CreditApiBlock
  pub deposit_webhook_enabled : Bool
  pub manual_deposit_enabled : Bool
  pub seed_enabled : Bool
  pub simulated_trading_enabled : Bool
  pub trading_enabled : Bool
  pub withdrawal_enabled : Bool
  pub settlement_enabled : Bool
  pub unclassified_blocked : Bool

pub data LedgerPolicySource : Type 0 where
  local_ledger_credit local_deposit_webhook admin_deposit_review admin_seed : LedgerPolicySource
  simulated_trading real_trading real_withdrawal market_settlement : LedgerPolicySource
  unknown_balance_credit unrestricted : LedgerPolicySource

abbrev is_text : Option Text → Text → Bool
is_text none t = false
is_text (some s) t = text_eq s t

unfoldable pub is_production_runtime_policy : LedgerRuntimePolicy → Bool
is_production_runtime_policy policy =
    policy.production_deployment || is_text policy.node_env (codes "production")

unfoldable pub get_local_ledger_credit_api_block_reason :
    LedgerRuntimePolicy → Option CreditApiBlock
get_local_ledger_credit_api_block_reason policy =
    if not policy.local_ledger_credit_api
    then some CreditApiBlock.api_disabled
    else if is_production_runtime_policy policy
    then some CreditApiBlock.api_production_disabled
    else if not (is_text policy.app_mode (codes "local"))
    then some CreditApiBlock.api_app_mode_disabled
    else none

unfoldable pub is_local_runtime_credit_surface_enabled : LedgerRuntimePolicy → Bool → Bool
is_local_runtime_credit_surface_enabled policy configured =
    configured
    && is_text policy.app_mode (codes "local")
    && not (is_production_runtime_policy policy)

abbrev pub is_none : {A : Type 0} → Option A → Bool
is_none none = true
is_none (some _) = false

unfoldable pub build_ledger_runtime_capabilities : LedgerRuntimePolicy → LedgerRuntimeCapabilities
build_ledger_runtime_capabilities policy =
    let reason = get_local_ledger_credit_api_block_reason policy in
    record {
      credit_api_configured = policy.local_ledger_credit_api;
      credit_api_enabled = is_none reason;
      credit_api_block_reason = reason;
      deposit_webhook_enabled =
          is_local_runtime_credit_surface_enabled policy policy.local_deposit_webhook_credit;
      manual_deposit_enabled =
          is_local_runtime_credit_surface_enabled policy policy.admin_manual_deposit_credit;
      seed_enabled = is_local_runtime_credit_surface_enabled policy policy.admin_activity_seed_api;
      simulated_trading_enabled =
          is_local_runtime_credit_surface_enabled policy policy.local_simulated_trading;
      trading_enabled = policy.real_trading_execution;
      withdrawal_enabled = policy.real_withdrawal_transfer;
      settlement_enabled = policy.market_settlement_credit;
      unclassified_blocked = is_production_runtime_policy policy;
    }

unfoldable pub is_balance_credit_entry : EntryInput → Bool
is_balance_credit_entry input = elim input.entry_type [
  | LedgerEntryType.credit ↦ true
  | LedgerEntryType.trade_credit ↦ true
  | LedgerEntryType.adjustment ↦ not (is_text input.adjustment_direction (codes "debit"))
  | LedgerEntryType.debit ↦ false
  | LedgerEntryType.hold ↦ false
  | LedgerEntryType.release ↦ false
  | LedgerEntryType.trade_debit ↦ false
]

-- `input.referenceType?.trim() || null`
abbrev given_reference : Option Text → Option Text
given_reference none = none
given_reference (some r) = if is_empty (trim r) then none else some (trim r)

-- A chain of `if (test) return source`, and what is returned after it.
unfoldable pub first_source :
    List (Bool × LedgerPolicySource) → LedgerPolicySource → LedgerPolicySource
first_source [] last = last
first_source ((test, source) ∷ branches) last = if test then source else first_source branches last

unfoldable pub classify_ledger_policy_source : EntryInput → LedgerPolicySource
classify_ledger_policy_source input =
    let source = input.source in
    let reason = trim input.reason in
    let reference = given_reference input.reference_type in
    first_source
      ((
        is_text source (codes "ledger_credit")
            || text_eq reason (codes "ledger_credit")
            || is_text reference (codes "ledger_credit"),
        LedgerPolicySource.local_ledger_credit,
      )
        ∷ (is_text source (codes "local_deposit_webhook"), LedgerPolicySource.local_deposit_webhook)
        ∷ (is_text source (codes "admin_deposit_review"), LedgerPolicySource.admin_deposit_review)
        ∷ (
          is_text source (codes "admin_seed")
              || starts_with (codes "admin_seed_") reason
              || is_text reference (codes "admin_seed_payment"),
          LedgerPolicySource.admin_seed,
        )
        ∷ (
          is_text reference (codes "local_init")
              || is_text reference (codes "local_reset")
              || is_text reference (codes "local_trade"),
          LedgerPolicySource.simulated_trading,
        )
        ∷ (is_text reference (codes "real_trade"), LedgerPolicySource.real_trading)
        ∷ (
          is_text source (codes "real_withdrawal_broadcast")
              || is_text reference (codes "real_withdrawal"),
          LedgerPolicySource.real_withdrawal,
        )
        ∷ (is_text reference (codes "market_settlement"), LedgerPolicySource.market_settlement)
        ∷ [])
      (if is_balance_credit_entry input
        then LedgerPolicySource.unknown_balance_credit
        else LedgerPolicySource.unrestricted)

pub data DisabledReason : Type 0 where
  credit_api_blocked : CreditApiBlock → DisabledReason
  deposit_webhook_disabled manual_deposit_disabled seed_disabled simulated_disabled : DisabledReason
  trading_disabled withdrawal_disabled settlement_disabled unclassified_credit : DisabledReason

abbrev pub unless : Bool → DisabledReason → Option DisabledReason
unless true reason = none
unless false reason = some reason

-- `capabilities.localLedgerCreditApiBlockReason ?? "LOCAL_LEDGER_CREDIT_API_DISABLED"`
abbrev credit_api_reason : Option CreditApiBlock → DisabledReason
credit_api_reason none = DisabledReason.credit_api_blocked CreditApiBlock.api_disabled
credit_api_reason (some block) = DisabledReason.credit_api_blocked block

unfoldable pub disabled_reason :
    LedgerRuntimeCapabilities → LedgerPolicySource → Option DisabledReason
disabled_reason c LedgerPolicySource.local_ledger_credit =
    unless c.credit_api_enabled (credit_api_reason c.credit_api_block_reason)
disabled_reason c LedgerPolicySource.local_deposit_webhook =
    unless c.deposit_webhook_enabled DisabledReason.deposit_webhook_disabled
disabled_reason c LedgerPolicySource.admin_deposit_review =
    unless c.manual_deposit_enabled DisabledReason.manual_deposit_disabled
disabled_reason c LedgerPolicySource.admin_seed = unless c.seed_enabled DisabledReason.seed_disabled
disabled_reason c LedgerPolicySource.simulated_trading =
    unless c.simulated_trading_enabled DisabledReason.simulated_disabled
disabled_reason c LedgerPolicySource.real_trading =
    unless c.trading_enabled DisabledReason.trading_disabled
disabled_reason c LedgerPolicySource.real_withdrawal =
    unless c.withdrawal_enabled DisabledReason.withdrawal_disabled
disabled_reason c LedgerPolicySource.market_settlement =
    unless c.settlement_enabled DisabledReason.settlement_disabled
disabled_reason c LedgerPolicySource.unknown_balance_credit =
    unless (not c.unclassified_blocked) DisabledReason.unclassified_credit
disabled_reason c LedgerPolicySource.unrestricted = none

pub data LedgerPolicyError : Type 0 where
  ledger_entry_policy_disabled : DisabledReason → LedgerPolicyError
  ledger_runtime_policy_required : LedgerPolicyError

abbrev pub refuse : Option DisabledReason → Result LedgerPolicyError (Unit {0})
refuse none = ok tt
refuse (some reason) = err (LedgerPolicyError.ledger_entry_policy_disabled reason)

unfoldable pub assert_ledger_runtime_policy_allows_entry :
    EntryInput → Option LedgerRuntimePolicy → Result LedgerPolicyError (Unit {0})
assert_ledger_runtime_policy_allows_entry input none = ok tt
assert_ledger_runtime_policy_allows_entry input (some policy) = refuse (
    disabled_reason (build_ledger_runtime_capabilities policy)
      (classify_ledger_policy_source input))

unfoldable pub assert_persistent_ledger_runtime_policy :
    Option LedgerRuntimePolicy → Result LedgerPolicyError (Unit {0})
assert_persistent_ledger_runtime_policy none = err LedgerPolicyError.ledger_runtime_policy_required
assert_persistent_ledger_runtime_policy (some policy) = ok tt

pub data ReadinessBlocker : Type 0 where
  credit_api_on deposit_webhook_on manual_deposit_on seed_on simulated_on : ReadinessBlocker
  trading_off withdrawal_off settlement_off unclassified_not_blocked : ReadinessBlocker

abbrev pub blocker_if : Bool → ReadinessBlocker → List ReadinessBlocker
blocker_if true b = b ∷ []
blocker_if false b = []

unfoldable pub get_ledger_runtime_readiness_blocker_details :
    LedgerRuntimeCapabilities → List ReadinessBlocker
get_ledger_runtime_readiness_blocker_details c =
    blocker_if c.credit_api_enabled ReadinessBlocker.credit_api_on
    ++ blocker_if c.deposit_webhook_enabled ReadinessBlocker.deposit_webhook_on
    ++ blocker_if c.manual_deposit_enabled ReadinessBlocker.manual_deposit_on
    ++ blocker_if c.seed_enabled ReadinessBlocker.seed_on
    ++ blocker_if c.simulated_trading_enabled ReadinessBlocker.simulated_on
    ++ blocker_if (not c.trading_enabled) ReadinessBlocker.trading_off
    ++ blocker_if (not c.withdrawal_enabled) ReadinessBlocker.withdrawal_off
    ++ blocker_if (not c.settlement_enabled) ReadinessBlocker.settlement_off
    ++ blocker_if (not c.unclassified_blocked) ReadinessBlocker.unclassified_not_blocked
