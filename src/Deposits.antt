-- ===== src/Deposits.antt =====
-- src/coinWallets.ts: deposits of USDT, from the provider's event to the credit or its reversal.
pub mod Types
pub mod Store
pub mod Matching
pub mod Validation
pub mod Credit
pub mod Reverse
pub mod Process
pub mod Phases
pub mod Credited
pub mod Runs
pub mod Checked
mod Tests
