-- ===== src/Coins/Effects.antt =====
-- What `postEntry`, `reserveCoins` and `releaseReservedCoins` do to the balances.
use mpulse.Common.{
  ℕ, ◌≡◌, ◌≢◌, ◌⊎◌, refl, sym, ap, ◌∙◌, true, Option, none, some, ◌∷◌, inl, inr, Result, ok, err,
  eq_or_ne, >>=-eq-ok,
}
use mpulse.Common.Int.{ℤ, neg, ◌+ℤ◌, ◌-ℤ◌, int_laws}
use mpulse.Coins.Types.{OperationType, Movement, Entry, Account, ActiveSystem, CoinDb, PgError}
use mpulse.Coins.Posting.{
  posting_allowed, find_account, find_entry, record_movement, post_ledger_entry,
}
use mpulse.Coins.Accounts.{
  amounts, amounts_of, amounts_of-ensure, find_account-update, find_account-update_ne,
}
use mpulse.Coins.Outcome.{ensured, Outcome, replayed, recorded, post_ledger_entry-Outcome}
use mpulse.Coins.Repository.{
  validate_post_entry, from_database, post_entry, reserve_coins, release_reserved_coins,
}

from_database-eq-ok :
    {A : Type 0} (r : Result PgError A) (a : A) → from_database r ≡ ok a → r ≡ ok a
unfolding from_database
from_database-eq-ok (ok b) a h = cc
from_database-eq-ok (err e) a h = cc

pub post_entry-eq-ok :
    (m : Movement) (db : CoinDb) (p : Entry × CoinDb)
    → post_entry m db ≡ ok p
    → post_ledger_entry m db ≡ ok p
unfolding post_entry
post_entry-eq-ok m db p h =
    let (u, ok_input, posted) = >>=-eq-ok (validate_post_entry m) _ h in
    from_database-eq-ok (post_ledger_entry m db) p posted

allowed_systems :
    (system : Option ActiveSystem) (op : OperationType)
    → posting_allowed system op ≡ true
    → (system ≡ some ActiveSystem.coin)
      ⊎ ((system ≡ some ActiveSystem.migrating) × (op ≡ OperationType.migration_credit))
unfolding posting_allowed
allowed_systems none op h = cc
allowed_systems (some ActiveSystem.coin) op h = inl refl
allowed_systems (some ActiveSystem.migrating) OperationType.migration_credit h = inr (refl, refl)
allowed_systems (some ActiveSystem.migrating) _ h = cc
allowed_systems (some ActiveSystem.legacy) _ h = cc

-- The fence: an entry is posted only while the Coin system is active, or, if it is a migration
-- credit, while the migration runs. A missing state row lets nothing through.
pub post_entry_fence :
    (m : Movement) (db : CoinDb) (p : Entry × CoinDb)
    → post_entry m db ≡ ok p
    → (db.active_system ≡ some ActiveSystem.coin)
      ⊎ ((db.active_system ≡ some ActiveSystem.migrating)
          × (m.operation_type ≡ OperationType.migration_credit))
post_entry_fence m db p h =
    allowed_systems _ _ (post_ledger_entry-Outcome m db p (post_entry-eq-ok m db p h)).0

-- The balances that a post of a new key leaves: the user's moved by the deltas, the others' same.
pub record Moved (m : Movement) (db db' : CoinDb) : Type 0 where
  pub self : ◌≡◌ {A = ℤ × ℤ} (amounts_of m.user_id db'.accounts) (
    (amounts_of m.user_id db.accounts).0 +ℤ m.available_delta,
    (amounts_of m.user_id db.accounts).1 +ℤ m.reserved_delta,
  )
  pub others :
      (user : ℕ) → m.user_id ≢ user → amounts_of user db'.accounts ≡ amounts_of user db.accounts

module _ (m : Movement) (db : CoinDb) (account : Account)
    (found : find_account m.user_id (ensured m db) ≡ some account) (x y : ℤ) where
  before : ◌≡◌ {A = ℤ × ℤ} (account.available, account.reserved) (amounts_of m.user_id db.accounts)
  before = sym (ap amounts found) ∙ amounts_of-ensure m.user_id m.user_id db.accounts

  record_movement-Moved :
      x ≡ account.available +ℤ m.available_delta
      → y ≡ account.reserved +ℤ m.reserved_delta
      → Moved m db (record_movement m x y (ensured m db) db).1
  unfolding record_movement
  record_movement-Moved ex ey = record {
    self =
        rw (find_account-update m.user_id x y (ensured m db) account found, ex, ey)
          (ap (λ (q : ℤ × ℤ). (q.0 +ℤ m.available_delta, q.1 +ℤ m.reserved_delta)) before);
    others = λ user ne.
        ap amounts (find_account-update_ne m.user_id user x y (ensured m db) ne)
        ∙ amounts_of-ensure m.user_id user db.accounts;
  }

pub post_entry-Moved :
    (m : Movement) (db : CoinDb) (p : Entry × CoinDb)
    → find_entry m.user_id m.idempotency_key db.entries ≡ none
    → post_entry m db ≡ ok p
    → Moved m db p.1
post_entry-Moved m db p unused h =
    moved (post_ledger_entry-Outcome m db p (post_entry-eq-ok m db p h)).1
  where
    moved : Outcome m db p → Moved m db p.1
    moved (replayed e found same r) = cc unused
    moved (recorded account found fresh r) = rw r.result (
        record_movement-Moved m db account found r.available r.reserved r.available_funded.exact
          r.reserved_funded.exact)

add_neg : (a b : ℤ) → a +ℤ neg b ≡ a -ℤ b
add_neg a b = omega int_laws

shift_total : (a r d : ℤ) → (a +ℤ neg d) +ℤ (r +ℤ d) ≡ a +ℤ r
shift_total a r d = omega int_laws

shift_back : (a d : ℤ) → a +ℤ neg d +ℤ d ≡ a
shift_back a d = omega int_laws

shift_forth : (a d : ℤ) → a +ℤ d +ℤ neg d ≡ a
shift_forth a d = omega int_laws

-- A reservation under a new key moves the amount from the available to the reserved balance of
-- the user, so that their sum stays, and leaves every other user's balances alone.
pub reserve_coins_moves :
    (input : Movement) (amount : ℤ) (db : CoinDb) (p : Entry × CoinDb)
    → find_entry input.user_id input.idempotency_key db.entries ≡ none
    → reserve_coins input amount db ≡ ok p
    → let (available, reserved) = amounts_of input.user_id db.accounts in
      let (available', reserved') = amounts_of input.user_id p.1.accounts in
      (available' ≡ available -ℤ amount)
      × (reserved' ≡ reserved +ℤ amount)
      × (available' +ℤ reserved' ≡ available +ℤ reserved)
      × ((user : ℕ)
          → input.user_id ≢ user
          → amounts_of user p.1.accounts ≡ amounts_of user db.accounts)
unfolding reserve_coins
reserve_coins_moves input amount db p unused h =
    let moved = post_entry-Moved _ db p unused h in
    let ea = ap (λ (q : ℤ × ℤ). q.0) moved.self in
    let er = ap (λ (q : ℤ × ℤ). q.1) moved.self in
    (ea ∙ add_neg _ amount, er, rw (ea, er) (shift_total _ _ amount), moved.others)

-- Releasing what was reserved, each under a new key, restores every user's balances.
pub release_undoes_reserve :
    (first second : Movement) (amount : ℤ) (db : CoinDb) (p q : Entry × CoinDb)
    → first.user_id ≡ second.user_id
    → find_entry first.user_id first.idempotency_key db.entries ≡ none
    → reserve_coins first amount db ≡ ok p
    → find_entry second.user_id second.idempotency_key p.1.entries ≡ none
    → release_reserved_coins second amount p.1 ≡ ok q
    → (user : ℕ) → amounts_of user q.1.accounts ≡ amounts_of user db.accounts
unfolding reserve_coins release_reserved_coins
release_undoes_reserve first second amount db p q same fresh reserved fresh' released user =
    let there = post_entry-Moved _ db p fresh reserved in
    let back = post_entry-Moved _ p.1 q fresh' released in
    elim (eq_or_ne second.user_id user) [
      | inl own ↦ rw (← own) (
          back.self
          ∙ rw (← same) (
              ap (λ (b : ℤ × ℤ). (b.0 +ℤ amount, b.1 +ℤ neg amount)) there.self
              ∙ rw (shift_back, shift_forth)))
      | inr other ↦ back.others user other ∙ there.others user (λ e. other (sym same ∙ e))
    ]

-- A post of a new key puts its entry in front of the ledger.
pub post_entry-entries :
    (m : Movement) (db : CoinDb) (p : Entry × CoinDb)
    → find_entry m.user_id m.idempotency_key db.entries ≡ none
    → post_entry m db ≡ ok p
    → (p.1.entries ≡ p.0 ∷ db.entries) × (p.0.movement ≡ m)
post_entry-entries m db p unused h =
    entries_of (post_ledger_entry-Outcome m db p (post_entry-eq-ok m db p h)).1
  where
    entries_of : Outcome m db p → (p.1.entries ≡ p.0 ∷ db.entries) × (p.0.movement ≡ m)
    entries_of (replayed e found same r) = cc unused
    entries_of (recorded account found fresh r) =
        rw r.result (unfold record_movement in (refl, refl))
