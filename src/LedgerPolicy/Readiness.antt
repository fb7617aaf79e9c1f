-- ===== src/LedgerPolicy/Readiness.antt =====
-- When the ledger reports no blocker for real money.
use mpulse.Common.{◌≡◌, ◌↔◌, refl, Bool, true, false, not, List, [], ◌∷◌, ◌++◌}
use mpulse.LedgerPolicy.{
  LedgerRuntimePolicy, ReadinessBlocker, blocker_if, is_production_runtime_policy,
  build_ledger_runtime_capabilities, get_ledger_runtime_readiness_blocker_details,
}
use mpulse.LedgerPolicy.Safety.{surface-production, credit_api-production}

append-eq-nil : (xs ys : List ReadinessBlocker) → xs ++ ys ≡ [] → (xs ≡ []) × (ys ≡ [])
append-eq-nil [] ys h = (refl, h)
append-eq-nil (x ∷ xs) ys h = cc

unblocked : (b : Bool) (x : ReadinessBlocker) → blocker_if (not b) x ≡ [] → b ≡ true
unblocked true x h = refl
unblocked false x h = cc

-- The ledger is ready for real money exactly in a production deployment where trading, withdrawals
-- and settlements are switched on: then no local surface is open, whatever is configured.
pub ready_iff :
    (policy : LedgerRuntimePolicy)
    → (get_ledger_runtime_readiness_blocker_details (build_ledger_runtime_capabilities policy) ≡ [])
      ↔ ((is_production_runtime_policy policy ≡ true)
          × (policy.real_trading_execution ≡ true)
          × (policy.real_withdrawal_transfer ≡ true)
          × (policy.market_settlement_credit ≡ true))
unfolding get_ledger_runtime_readiness_blocker_details build_ledger_runtime_capabilities
ready_iff policy = (
  λ h.
      let (front, unclassified) = append-eq-nil _ _ h in
      let (front2, settlement) = append-eq-nil _ _ front in
      let (front3, withdrawal) = append-eq-nil _ _ front2 in
      let (front4, trading) = append-eq-nil _ _ front3 in
      (
        unblocked _ _ unclassified,
        unblocked _ _ trading,
        unblocked _ _ withdrawal,
        unblocked _ _ settlement,
      ),
  λ (production, trading, withdrawal, settlement).
      rw
        (
          credit_api-production policy production,
          surface-production policy policy.local_deposit_webhook_credit production,
          surface-production policy policy.admin_manual_deposit_credit production,
          surface-production policy policy.admin_activity_seed_api production,
          surface-production policy policy.local_simulated_trading production,
          production,
          trading,
          withdrawal,
          settlement,
        )
        refl,
)
