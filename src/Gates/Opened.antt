-- ===== src/Gates/Opened.antt =====
-- What must be configured before Coin deposits or withdrawals are open.
use mpulse.Common.{
  ◌≡◌, refl, inl, inr, Bool, true, false, not, ◌&&◌, Option, some, ok, throw_if, if◌then◌else◌,
  Option-cases, >>=-eq-ok, throw_if-eq-ok,
}
use mpulse.Common.Text.{Text}
use mpulse.Gates.{
  LaunchApproval, is_artifact_approved, GateConfig, GateError, is_true, is_null, given_text,
  is_some, has_rate_provider, artifact_status_of, build_launch_approval, controlling_denial,
  approval_of, webhook_ingestion, deposit_block, withdrawal_block, build_coin_feature_capabilities,
  assert_coin_feature_gate_configuration,
}

guard :
    {A : Type 0} (b : Bool) (x : A) (y : Option A)
    → is_null (if not b then some x else y) ≡ true
    → (b ≡ true) × (is_null y ≡ true)
guard true x y h = (refl, h)
guard false x y h = cc

not_refused : (a b : Bool) → a ≡ true → (a && not b) ≡ false → b ≡ true
not_refused true true e h = refl
not_refused true false e h = cc
not_refused false b e h = cc

module _ (accepts : Text → Bool) (normalize : Text → Text) (config : GateConfig) where
  open_deposits :
      is_null (deposit_block accepts normalize config) ≡ true
      → (is_true config.deposit_credits ≡ true)
        × ((approval_of accepts normalize config).is_approved ≡ true)
        × (webhook_ingestion accepts normalize config ≡ true)
        × (has_rate_provider config.exchange_rate_provider ≡ true)
        × (is_some (given_text config.usdt_tron_contract) ≡ true)
  unfolding deposit_block
  open_deposits h =
      let (requested, h1) = guard (is_true config.deposit_credits) _ _ h in
      let (approved, h2) = guard (approval_of accepts normalize config).is_approved _ _ h1 in
      let (webhook, h3) = guard (webhook_ingestion accepts normalize config) _ _ h2 in
      let (rates, h4) = guard (has_rate_provider config.exchange_rate_provider) _ _ h3 in
      let (contract, h5) = guard (is_some (given_text config.usdt_tron_contract)) _ _ h4 in
      (requested, approved, webhook, rates, contract)

  open_withdrawals :
      is_null (withdrawal_block accepts normalize config) ≡ true
      → (is_true config.withdrawal_requests ≡ true)
        × (has_rate_provider config.exchange_rate_provider ≡ true)
  unfolding withdrawal_block
  open_withdrawals h =
      let (requested, h1) = guard (is_true config.withdrawal_requests) _ _ h in
      let (rates, h2) = guard (has_rate_provider config.exchange_rate_provider) _ _ h1 in
      (requested, rates)

  -- Deposits can be open only with an approval that was given: the default denies.
  given_approval :
      (approval_of accepts normalize config).is_approved ≡ true
      → (a : LaunchApproval) × (config.launch_approval ≡ some a) × (a.is_approved ≡ true)
  unfolding approval_of controlling_denial build_launch_approval artifact_status_of
  given_approval h = elim (Option-cases config.launch_approval) [
    | inl missing ↦
        absurd (denied (controlling_denial accepts normalize).ref_accepted (rw missing at h))
    | inr (a, there) ↦ (a, there, rw there at h)
  ]
    where
      denied :
          (b : Bool) → (b && is_artifact_approved (artifact_status_of b (some false))) ≡ true → ⊥
      denied true e = cc
      denied false e = cc

-- A configuration that passes the check at startup opens no requested feature without what it
-- needs: requested deposits have an approval that was given, signed webhooks of the provider, a
-- rate provider and a contract, and requested withdrawals have a rate provider.
pub configuration_is_safe :
    (accepts : Text → Bool) (normalize : Text → Text) (config : GateConfig)
    → assert_coin_feature_gate_configuration accepts normalize config ≡ ok tt
    → (is_true config.deposit_credits ≡ true
        → ((a : LaunchApproval) × (config.launch_approval ≡ some a) × (a.is_approved ≡ true))
          × (webhook_ingestion accepts normalize config ≡ true)
          × (has_rate_provider config.exchange_rate_provider ≡ true)
          × (is_some (given_text config.usdt_tron_contract) ≡ true))
      × (is_true config.withdrawal_requests ≡ true
          → has_rate_provider config.exchange_rate_provider ≡ true)
unfolding assert_coin_feature_gate_configuration build_coin_feature_capabilities
configuration_is_safe accepts normalize config h =
    let (u, deposits, rest) =
      >>=-eq-ok
        (throw_if
          (is_true config.deposit_credits && not (is_null (deposit_block accepts normalize config)))
          GateError.deposits_unsafe)
        _ h in
    let safe_deposits = throw_if-eq-ok _ GateError.deposits_unsafe deposits in
    let safe_withdrawals = throw_if-eq-ok _ GateError.withdrawals_unsafe rest in
    (
      λ requested.
          let (on, approved, webhook, rates, contract) =
            open_deposits accepts normalize config (not_refused _ _ requested safe_deposits) in
          (given_approval accepts normalize config approved, webhook, rates, contract),
      λ requested.
          (open_withdrawals accepts normalize config
            (not_refused _ _ requested safe_withdrawals)).1,
    )
