-- ===== src/Gates/Tests.antt =====
-- A configuration that passes the check at startup.
use mpulse.Common.{◌≡◌, refl, Bool, true, none, some}
use mpulse.Common.Int.{◌+ℤ◌, ◌-ℤ◌, neg}
use mpulse.Common.Text.{text_eq, is_space, trim_start, trim, starts_with}
use mpulse.Common.Equality.{Text-discrete, OptionText-discrete, OptionNat-discrete}
use mpulse.Gates.{
  artifact_status_of, get_launch_approval_blockers, has_rate_provider, build_launch_approval,
  controlling_denial, approval_of, webhook_ingestion, deposit_block, withdrawal_block,
  build_coin_feature_capabilities, assert_coin_feature_gate_configuration,
}
use mpulse.Common.Text.{Text, codes}
use mpulse.Gates.{LaunchApproval, ArtifactStatus, GateConfig, is_true, is_some, given_text}
use mpulse.Gates.Opened.{configuration_is_safe}

abbrev approval : LaunchApproval
approval = record {
  approval_ref = some (codes "docs/a.md");
  ref_accepted = true;
  artifact_status = ArtifactStatus.approved;
  is_approved = true;
}

abbrev test_config : GateConfig
test_config = record {
  deposit_credits = some true;
  withdrawal_requests = some true;
  internal_trading = none;
  deposit_webhook = some true;
  deposit_provider = some (codes "fireblocks");
  exchange_rate_provider = some (codes "market");
  usdt_tron_contract = some (codes "T");
  launch_approval = some approval;
}

abbrev accepts_all : Text → Bool
accepts_all t = true

abbrev as_it_is : Text → Text
as_it_is t = t

configuration_is_safe_example :
    (is_true test_config.deposit_credits ≡ true
      → ((a : LaunchApproval) × (test_config.launch_approval ≡ some a) × (a.is_approved ≡ true))
        × (webhook_ingestion accepts_all as_it_is test_config ≡ true)
        × (has_rate_provider test_config.exchange_rate_provider ≡ true)
        × (is_some (given_text test_config.usdt_tron_contract) ≡ true))
    × (is_true test_config.withdrawal_requests ≡ true
        → has_rate_provider test_config.exchange_rate_provider ≡ true)
unfolding ◌+ℤ◌ ◌-ℤ◌ neg text_eq is_space trim_start trim starts_with Text-discrete
    OptionText-discrete OptionNat-discrete artifact_status_of get_launch_approval_blockers
    has_rate_provider build_launch_approval controlling_denial approval_of webhook_ingestion
    deposit_block withdrawal_block build_coin_feature_capabilities
    assert_coin_feature_gate_configuration
configuration_is_safe_example = configuration_is_safe accepts_all as_it_is test_config refl
