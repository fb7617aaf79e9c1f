-- ===== src/LedgerPolicy/Safety.antt =====
-- In production the policy lets no local, simulated, seeded or unclassified balance credit through.
use mpulse.Common.{
  ◌≡◌, ◌≢◌, ◌⊎◌, refl, inl, inr, Bool, true, false, Option, none, some, List, [], ◌∷◌, ok,
  if◌then◌else◌, arith, Bool-cases, All,
}
use mpulse.LedgerPolicy.{
  EntryInput, LedgerRuntimePolicy, LedgerPolicySource, DisabledReason, is_none, refuse, unless,
  is_production_runtime_policy, get_local_ledger_credit_api_block_reason,
  is_local_runtime_credit_surface_enabled, build_ledger_runtime_capabilities,
  is_balance_credit_entry, classify_ledger_policy_source, first_source, disabled_reason,
  assert_ledger_runtime_policy_allows_entry,
}

-- Where no branch is unrestricted, an unrestricted outcome is what stands after them.
first_source-last :
    (branches : List (Bool × LedgerPolicySource)) (last : LedgerPolicySource)
    → All (λ (b : Bool × LedgerPolicySource). b.1 ≢ LedgerPolicySource.unrestricted) branches
    → first_source branches last ≡ LedgerPolicySource.unrestricted
    → last ≡ LedgerPolicySource.unrestricted
unfolding first_source
first_source-last [] last ne h = h
first_source-last ((true, source) ∷ branches) last ne h = absurd (ne.0 h)
first_source-last ((false, source) ∷ branches) last ne h = first_source-last branches last ne.1 h

unrestricted_last :
    (credit : Bool)
    → (if credit
        then LedgerPolicySource.unknown_balance_credit
        else LedgerPolicySource.unrestricted)
      ≡ LedgerPolicySource.unrestricted
    → credit ≡ false
unrestricted_last true h = cc
unrestricted_last false h = refl

-- An entry that no source restricts is not a credit.
unrestricted-no_credit :
    (input : EntryInput)
    → classify_ledger_policy_source input ≡ LedgerPolicySource.unrestricted
    → is_balance_credit_entry input ≡ false
unfolding classify_ledger_policy_source
unrestricted-no_credit input h = unrestricted_last (is_balance_credit_entry input) (
    first_source-last _ _
      (
        (λ e. cc),
        (
          (λ e. cc),
          ((λ e. cc), ((λ e. cc), ((λ e. cc), ((λ e. cc), ((λ e. cc), ((λ e. cc), tt)))))),
        ),
      )
      h)

-- In production no local surface is open.
pub surface-production :
    (policy : LedgerRuntimePolicy) (configured : Bool)
    → is_production_runtime_policy policy ≡ true
    → is_local_runtime_credit_surface_enabled policy configured ≡ false
unfolding is_local_runtime_credit_surface_enabled
surface-production policy configured production = rw production (ground arith)

pub credit_api-production :
    (policy : LedgerRuntimePolicy)
    → is_production_runtime_policy policy ≡ true
    → is_none (get_local_ledger_credit_api_block_reason policy) ≡ false
unfolding get_local_ledger_credit_api_block_reason
credit_api-production policy production =
    rw production (elim (Bool-cases policy.local_ledger_credit_api) [
      | inl on ↦ rw on refl
      | inr off ↦ rw off refl
    ])

-- What the policy of a production deployment lets through.
abbrev pub IsProductionSource : LedgerRuntimePolicy → LedgerPolicySource → Type 0
IsProductionSource policy source =
    ((source ≡ LedgerPolicySource.real_trading) × (policy.real_trading_execution ≡ true))
    ⊎ ((source ≡ LedgerPolicySource.real_withdrawal) × (policy.real_withdrawal_transfer ≡ true))
    ⊎ ((source ≡ LedgerPolicySource.market_settlement) × (policy.market_settlement_credit ≡ true))

refuse-eq-ok : (r : Option DisabledReason) {u : Unit {0}} → refuse r ≡ ok u → r ≡ none
refuse-eq-ok none h = refl
refuse-eq-ok (some r) h = cc

unless-eq-none : (b : Bool) (r : DisabledReason) → unless b r ≡ none → b ≡ true
unless-eq-none true r h = refl
unless-eq-none false r h = cc

allowed_source :
    (policy : LedgerRuntimePolicy) (source : LedgerPolicySource)
    → is_production_runtime_policy policy ≡ true
    → disabled_reason (build_ledger_runtime_capabilities policy) source ≡ none
    → IsProductionSource policy source ⊎ (source ≡ LedgerPolicySource.unrestricted)
unfolding disabled_reason build_ledger_runtime_capabilities
allowed_source policy LedgerPolicySource.local_ledger_credit p h =
    let on = unless-eq-none _ _ h in let off = credit_api-production policy p in cc
allowed_source policy LedgerPolicySource.local_deposit_webhook p h =
    let on = unless-eq-none _ _ h in
    let off = surface-production policy policy.local_deposit_webhook_credit p in cc
allowed_source policy LedgerPolicySource.admin_deposit_review p h =
    let on = unless-eq-none _ _ h in
    let off = surface-production policy policy.admin_manual_deposit_credit p in cc
allowed_source policy LedgerPolicySource.admin_seed p h =
    let on = unless-eq-none _ _ h in
    let off = surface-production policy policy.admin_activity_seed_api p in cc
allowed_source policy LedgerPolicySource.simulated_trading p h =
    let on = unless-eq-none _ _ h in
    let off = surface-production policy policy.local_simulated_trading p in cc
allowed_source policy LedgerPolicySource.real_trading p h = inl (inl (refl, unless-eq-none _ _ h))
allowed_source policy LedgerPolicySource.real_withdrawal p h =
    inl (inr (inl (refl, unless-eq-none _ _ h)))
allowed_source policy LedgerPolicySource.market_settlement p h =
    inl (inr (inr (refl, unless-eq-none _ _ h)))
allowed_source policy LedgerPolicySource.unknown_balance_credit p h =
    let blocked = unless-eq-none _ _ h in absurd (ground arith)
allowed_source policy LedgerPolicySource.unrestricted p h = inr refl

-- In production, an entry of a kind that the policy counts as a balance credit
-- (`is_balance_credit_entry`; a release is not one) and that the policy lets through comes from real
-- trading, a real withdrawal or a market settlement, each only where its own switch is on.
pub production_credits :
    (policy : LedgerRuntimePolicy) (input : EntryInput)
    → is_production_runtime_policy policy ≡ true
    → is_balance_credit_entry input ≡ true
    → assert_ledger_runtime_policy_allows_entry input (some policy) ≡ ok tt
    → IsProductionSource policy (classify_ledger_policy_source input)
unfolding assert_ledger_runtime_policy_allows_entry
production_credits policy input production credit allowed =
    elim (allowed_source policy (classify_ledger_policy_source input) production
      (refuse-eq-ok _ allowed)) [
        | inl source ↦ source
        | inr free ↦ let no_credit = unrestricted-no_credit input free in cc
      ]
