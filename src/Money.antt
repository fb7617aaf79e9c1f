-- ===== src/Money.antt =====
-- src/money.ts: integer money arithmetic. `bigint` is ℤ, so nothing overflows here.
pub mod Error
pub mod Units
pub mod Decimal
pub mod Arithmetic
pub mod Quote
mod Tests
