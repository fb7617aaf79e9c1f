-- ===== src/LedgerPolicy/Tests.antt =====
-- A production policy that lets settlements through.
use mpulse.Common.{◌≡◌, ◌↔◌, refl, true, false, none, some, []}
use mpulse.Common.Int.{◌+ℤ◌, ◌-ℤ◌, neg}
use mpulse.Common.Text.{text_eq, is_space, trim_start, trim, starts_with}
use mpulse.Common.Equality.{Text-discrete, OptionText-discrete, OptionNat-discrete}
use mpulse.LedgerPolicy.{
  is_production_runtime_policy, get_local_ledger_credit_api_block_reason,
  is_local_runtime_credit_surface_enabled, build_ledger_runtime_capabilities,
  is_balance_credit_entry, first_source, classify_ledger_policy_source, disabled_reason,
  assert_ledger_runtime_policy_allows_entry, assert_persistent_ledger_runtime_policy,
  get_ledger_runtime_readiness_blocker_details,
}
use mpulse.Common.Text.{codes}
use mpulse.LedgerPolicy.{LedgerEntryType, EntryInput, LedgerRuntimePolicy}
use mpulse.LedgerPolicy.Safety.{IsProductionSource, production_credits}
use mpulse.LedgerPolicy.Readiness.{ready_iff}

abbrev production : LedgerRuntimePolicy
production = record {
  app_mode = some (codes "real");
  node_env = some (codes "production");
  production_deployment = true;
  local_ledger_credit_api = true;
  local_deposit_webhook_credit = true;
  admin_manual_deposit_credit = false;
  admin_activity_seed_api = false;
  local_simulated_trading = false;
  real_trading_execution = true;
  real_withdrawal_transfer = true;
  market_settlement_credit = true;
}

abbrev settlement_credit : EntryInput
settlement_credit = record {
  entry_type = LedgerEntryType.credit;
  reason = codes "payout";
  reference_type = some (codes "market_settlement");
  source = none;
  adjustment_direction = none;
}

production_credits_example :
    IsProductionSource production (classify_ledger_policy_source settlement_credit)
unfolding ◌+ℤ◌ ◌-ℤ◌ neg text_eq is_space trim_start trim starts_with Text-discrete
    OptionText-discrete OptionNat-discrete is_production_runtime_policy
    get_local_ledger_credit_api_block_reason is_local_runtime_credit_surface_enabled
    build_ledger_runtime_capabilities is_balance_credit_entry first_source
    classify_ledger_policy_source disabled_reason assert_ledger_runtime_policy_allows_entry
    assert_persistent_ledger_runtime_policy get_ledger_runtime_readiness_blocker_details
production_credits_example = production_credits production settlement_credit refl refl refl

ready_iff_example :
    (get_ledger_runtime_readiness_blocker_details (build_ledger_runtime_capabilities production)
      ≡ [])
    ↔ ((is_production_runtime_policy production ≡ true)
        × (true ≡ true)
        × (true ≡ true)
        × (true ≡ true))
ready_iff_example = ready_iff production
