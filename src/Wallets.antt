-- ===== src/Wallets.antt =====
-- src/coinWallets.ts: withdrawals of Coins, from the quote to the provider's verified outcome.
pub mod Types
pub mod Parse
pub mod Store
pub mod Address
pub mod Quotes
pub mod Confirm
pub mod Release
pub mod Amounts
pub mod Outcome
pub mod Review
pub mod Rows
pub mod Succeeded
pub mod Reviewed
pub mod Reconciled
pub mod Phases
pub mod Runs
pub mod Refinement
pub mod Estimates
pub mod Accepted
pub mod Debited
pub mod Repeated
pub mod Accounting
mod Tests
