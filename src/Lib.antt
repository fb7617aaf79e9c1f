-- ===== src/Lib.antt =====
-- The money core of Pulse Market, a prediction market whose users hold Coins.
--
-- Amounts are exact integers: Coins in micros, USDT in its atomic unit, rates in nanos. The Coin
-- ledger posts movements of a user's available and reserved balance, each under an idempotency key.
-- The settlement of a market groups the positions of its users, plans payouts and posts them to the
-- ledger in one transaction, which also records the event that the outbox delivers. Gates and
-- policies decide what a deployment may do.
--
-- Files and what they model:
--   Common: Booleans, lists, integers over the native numbers, texts as lists of code units, and
--     `Result` for code that throws.
--   Money: src/money.ts. `parseDecimalToAtomic` is parse_decimal_to_atomic, and so on; each
--     regular expression is written out as matching on characters.
--   ExchangeRates: `validateUsdQuote` of src/exchangeRates.ts.
--   Coins: src/coins.ts and the function coin_post_ledger_entry of
--     migrations/031_coins_ledger_cutover.sql. The state is CoinDb: the accounts, the entries with
--     the newest first, and the row that names the active system. An operation takes a state and
--     gives an error or a value with the new state; an error leaves the state, as a rollback does.
--   Settlement: the Coin path of src/settlement.ts. SettlementDb holds the tables that a commit
--     reads and writes; Plan builds the plan, Commit is the transaction and its checks, and Service
--     is resolveMarket and cancelMarket. Runs has settlements one after the other. Host gives uuids,
--     the time and texts.
--   Outbox: src/moneyOutbox.ts. Repository has one function for each SQL statement, Worker has
--     runOnce and deliver, Steps has the steps of the table in any order (Picked
--     and Final hold lemmas on them), Loop the timer loop.
--   LedgerPolicy: the runtime policy of src/ledger.ts.
--   Gates: src/coinFeatureGates.ts and src/realMoneyLaunchApproval.ts.
--   Wallets: the withdrawals of src/coinWallets.ts over WalletDb, which holds the Coin ledger, the
--     quotes, rate snapshots and requests, and the audit and outbox rows that are inserted. Parse and
--     Address check what a request gives; Store has the reads and writes of the tables; Quotes,
--     Confirm, Release, Outcome (with Amounts) and Review are the operations of the service, each
--     one transaction, and what it read before is the state of another argument. Succeeded, Reviewed
--     and Reconciled say what an operation that succeeds has done; Rows, Phases and Accounting hold
--     the lemmas on the table, Accepted and Debited those on what a reconciliation debits, Runs has
--     the operations as steps, and Refinement the machine of reserves that they implement.
--   Deposits: the deposits of src/coinWallets.ts over DepositDb. Matching is lockOrCreateDeposit,
--     Validation is validateDepositForCredit, Credit and Reverse are creditDeposit and
--     reverseDeposit, and Process is processFireblocksWebhook and retryDeposit. An event is given as
--     parseFireblocksDeposit makes it. Phases, Credited, Runs and Checked hold the lemmas on them.
--   RateLimit: `MemoryRateLimiter` of src/rateLimit.ts.
--
-- Bounds: a balance is a PostgreSQL bigint, so each sum is checked against its range. The code's
-- own bigint is unbounded, as the integers here are. Digits are emitted on fuel, the number itself
-- plus one, which is more than its digits, and the bytes of a Base58 text on its length. Every
-- other function is by structural recursion.
--
-- Parameters: Date.parse, the uuids, the clock, the handler of outbox events and the order in
-- which concurrent deliveries end, the random jitter, the rate provider, SHA-256, and two regular
-- expressions of the gates.
--
-- Not modelled: the parser of the provider's JSON, deposit intents as they are made, and
-- corrections by an administrator; the legacy USDT amounts, trading odds and prices, which are
-- floats; HTTP, logging, foreign keys and time stamps of the ledger tables; isolation levels,
-- since each transaction takes its locks first and runs as one step; texts of error messages.
pub mod Common
pub mod Money
pub mod ExchangeRates
pub mod Coins
pub mod Settlement
pub mod Outbox
pub mod LedgerPolicy
pub mod Gates
pub mod RateLimit
pub mod Wallets
pub mod Deposits
