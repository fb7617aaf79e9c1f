-- ===== src/Coins.antt =====
-- src/coins.ts: the Coin ledger repository, over the posting function of the database.
pub mod Tests
pub mod Types
pub mod Posting
pub mod Outcome
pub mod Accounts
pub mod Derived
pub mod Replay
pub mod Repository
pub mod Effects
pub mod Reserve
