-- ===== src/Gates.antt =====
-- src/coinFeatureGates.ts and src/realMoneyLaunchApproval.ts: which Coin features are enabled. The
-- texts of errors and blockers are not modelled, and an optional Boolean is an `Option Bool`.
pub mod Tests
pub mod Opened
use mpulse.Common.{
  Bool, true, false, not, ◌&&◌, ◌||◌, Option, none, some, List, [], ◌∷◌, Result, ok, err, ◌>>◌,
  throw_if, if◌then◌else◌,
}
use mpulse.Common.Text.{Text, codes, trim, is_empty, text_eq}

pub data ArtifactStatus : Type 0 where
  not_checked approved rejected : ArtifactStatus

pub record LaunchApproval : Type 0 where
  pub approval_ref : Option Text
  pub ref_accepted : Bool
  pub artifact_status : ArtifactStatus
  pub is_approved : Bool

abbrev pub is_some : {A : Type 0} → Option A → Bool
is_some none = false
is_some (some _) = true

-- `value?.trim() || null`
abbrev pub given_text : Option Text → Option Text
given_text none = none
given_text (some t) = if is_empty (trim t) then none else some (trim t)

unfoldable pub artifact_status_of : Bool → Option Bool → ArtifactStatus
artifact_status_of false artifact = ArtifactStatus.not_checked
artifact_status_of true (some true) = ArtifactStatus.approved
artifact_status_of true (some false) = ArtifactStatus.rejected
artifact_status_of true none = ArtifactStatus.not_checked

abbrev pub is_artifact_approved : ArtifactStatus → Bool
is_artifact_approved ArtifactStatus.approved = true
is_artifact_approved _ = false

pub data LaunchBlocker : Type 0 where
  approval_required ref_invalid artifact_not_approved : LaunchBlocker

unfoldable pub get_launch_approval_blockers : LaunchApproval → List LaunchBlocker
get_launch_approval_blockers c =
    if not (is_some c.approval_ref)
    then LaunchBlocker.approval_required ∷ []
    else if not c.ref_accepted
    then LaunchBlocker.ref_invalid ∷ []
    else if not c.is_approved
    then LaunchBlocker.artifact_not_approved ∷ []
    else []

pub data DepositBlock : Type 0 where
  deposit_credits_disabled launch_not_approved signed_webhook_required : DepositBlock
  deposit_rate_provider_required deposit_contract_required : DepositBlock

pub data WithdrawalBlock : Type 0 where
  withdrawal_requests_disabled withdrawal_rate_provider_required : WithdrawalBlock

pub record GateConfig : Type 0 where
  pub deposit_credits : Option Bool
  pub withdrawal_requests : Option Bool
  pub internal_trading : Option Bool
  pub deposit_webhook : Option Bool
  pub deposit_provider : Option Text
  pub exchange_rate_provider : Option Text
  pub usdt_tron_contract : Option Text
  pub launch_approval : Option LaunchApproval

pub record CoinFeatureCapabilities : Type 0 where
  pub deposits_requested : Bool
  pub intent_creation_enabled : Bool
  pub credits_enabled : Bool
  pub webhook_ingestion_enabled : Bool
  pub deposit_block_reason : Option DepositBlock
  pub withdrawals_requested : Bool
  pub requests_enabled : Bool
  pub review_only : Bool
  pub broadcast_enabled : Bool
  pub withdrawal_block_reason : Option WithdrawalBlock
  pub trading_requested : Bool
  pub internal_execution_enabled : Bool
  pub external_execution_enabled : Bool
  pub outbound_calls_enabled : Bool

abbrev pub is_true : Option Bool → Bool
is_true none = false
is_true (some b) = b

abbrev pub is_null : {A : Type 0} → Option A → Bool
is_null none = true
is_null (some _) = false

-- `Boolean(provider) && provider !== "disabled"`
unfoldable pub has_rate_provider : Option Text → Bool
has_rate_provider none = false
has_rate_provider (some p) = not (is_empty p) && not (text_eq p (codes "disabled"))

pub data GateError : Type 0 where
  deposits_unsafe withdrawals_unsafe : GateError

-- `accepts` is `isRealMoneyLaunchApprovalRef`, which matches regular expressions, and `normalize`
-- is `value.trim().toLowerCase().replace(/\s+/g, "-")`.
module _ (accepts : Text → Bool) (normalize : Text → Text) where
  unfoldable pub build_launch_approval : Option Text → Option Bool → LaunchApproval
  unfolding artifact_status_of
  build_launch_approval reference artifact =
      let approval_ref = given_text reference in
      let accepted : Bool = elim approval_ref [ none ↦ false | some r ↦ accepts r ] in
      record {
        approval_ref = approval_ref;
        ref_accepted = accepted;
        artifact_status = artifact_status_of accepted artifact;
        is_approved = accepted && is_artifact_approved (artifact_status_of accepted artifact);
      }

  unfoldable pub controlling_denial : LaunchApproval
  unfolding build_launch_approval
  controlling_denial =
      build_launch_approval (some (codes "docs/real-money-launch-approval.md")) (some false)

  -- `config.realMoneyLaunchApproval ?? controllingRealMoneyLaunchDenial`
  unfoldable pub approval_of : GateConfig → LaunchApproval
  unfolding controlling_denial
  approval_of config = elim config.launch_approval [ none ↦ controlling_denial | some a ↦ a ]

  unfoldable pub webhook_ingestion : GateConfig → Bool
  webhook_ingestion config = is_true config.deposit_webhook && elim config.deposit_provider [
    | none ↦ false
    | some p ↦ text_eq (normalize p) (codes "fireblocks")
  ]

  unfoldable pub deposit_block : GateConfig → Option DepositBlock
  unfolding has_rate_provider
  deposit_block config =
      if not (is_true config.deposit_credits)
      then some DepositBlock.deposit_credits_disabled
      else if not (approval_of config).is_approved
      then some DepositBlock.launch_not_approved
      else if not (webhook_ingestion config)
      then some DepositBlock.signed_webhook_required
      else if not (has_rate_provider config.exchange_rate_provider)
      then some DepositBlock.deposit_rate_provider_required
      else if not (is_some (given_text config.usdt_tron_contract))
      then some DepositBlock.deposit_contract_required
      else none

  unfoldable pub withdrawal_block : GateConfig → Option WithdrawalBlock
  withdrawal_block config =
      if not (is_true config.withdrawal_requests)
      then some WithdrawalBlock.withdrawal_requests_disabled
      else if not (has_rate_provider config.exchange_rate_provider)
      then some WithdrawalBlock.withdrawal_rate_provider_required
      else none

  unfoldable pub build_coin_feature_capabilities : GateConfig → CoinFeatureCapabilities
  build_coin_feature_capabilities config = record {
    deposits_requested = is_true config.deposit_credits;
    intent_creation_enabled = is_null (deposit_block config);
    credits_enabled = is_null (deposit_block config);
    webhook_ingestion_enabled = webhook_ingestion config;
    deposit_block_reason = deposit_block config;
    withdrawals_requested = is_true config.withdrawal_requests;
    requests_enabled = is_null (withdrawal_block config);
    review_only = true;
    broadcast_enabled = false;
    withdrawal_block_reason = withdrawal_block config;
    trading_requested = is_true config.internal_trading;
    internal_execution_enabled = is_true config.internal_trading;
    external_execution_enabled = false;
    outbound_calls_enabled = false;
  }

  unfoldable pub assert_coin_feature_gate_configuration : GateConfig → Result GateError (Unit {0})
  assert_coin_feature_gate_configuration config =
      let c = build_coin_feature_capabilities config in
      throw_if (c.deposits_requested && not c.credits_enabled) GateError.deposits_unsafe
      >> throw_if (c.withdrawals_requested && not c.requests_enabled) GateError.withdrawals_unsafe
