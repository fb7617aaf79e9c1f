-- ===== src/Wallets/Accounting.antt =====
-- What the requests hold of the Coins of a user, and how it moves with the ledger.
use mpulse.Common.{
  ℕ, zero, suc, ◌+◌, ◌-◌, ◌*◌, ◌≤◌, ◌<◌, ◌≡◌, ◌≢◌, ◌⊎◌, refl, sym, ap, ◌∙◌, Bool, true, false, not,
  ◌&&◌, ◌||◌, Option, none, some, List, [], ◌∷◌, ◌++◌, map, inl, inr, Result, ok, err, arith, ◌>>=◌,
  ◌>>◌, throw_if, if◌then◌else◌, ltb, leb, ◌==◌, filter, length, take, All, Bool-cases,
  Option-cases, ==_iff, eq_or_ne, >>=-eq-ok, throw_if-eq-ok,
}
use mpulse.Common.Int.{
  ℤ, pos, pos_part, neg_part, negsuc, neg, ◌+ℤ◌, ◌-ℤ◌, leb_ℤ, ltb_ℤ, eqb_ℤ, int_laws,
}
use mpulse.Common.Text.{Text, codes, text_eq, trim, is_empty}
use mpulse.Common.Equality.{from_dec, from_dec→eq, eq→from_dec, Text-discrete, OptionNat-discrete}
use mpulse.Coins.Types.{
  OperationType, Movement, Entry, Account, ActiveSystem, CoinDb, PgError, CoinLedgerError,
}
use mpulse.Coins.Repository.{CoinBalance, get_balance, post_entry, list_entries}
use mpulse.Wallets.Types.{
  WithdrawalStatus, QuoteStatus, WithdrawalQuote, RateSnapshot, Request, AuditRow, OutboxInsert,
  WalletDb, WalletError, Wallet, ProviderState, ProviderOutcome, Answer, WalletHost,
}
use mpulse.Wallets.Parse.{
  parse_positive_coin_micros, parse_positive_usdt_atomic, parse_signed_coin_delta,
  parse_idempotency_key, required_text, required_reason, optional_reason, parse_optional_atomic_fee,
  validate_verified_outcome,
}
use mpulse.Wallets.Store.{
  is_some, or_zero, is_text, required, from_ledger, with_cutover_ready, find_withdrawal_for_update,
  find_withdrawal_by_idempotency, update_request, request_clashes, insert_request, find_quote,
  set_quote_status, find_coin_entry, insert_audit, insert_outbox, map_withdrawal, withdrawal_key,
  withdrawal_event,
}
use mpulse.Coins.Posting.{find_entry}
use mpulse.Coins.Accounts.{amounts_of}
use mpulse.Coins.Effects.{Moved, post_entry-Moved}
use mpulse.Wallets.Rows.{IsUnique, Located, find-Located}
pub mod Steps
pub mod Confirms
pub mod Releases

-- The Coins that a request holds in reserve: none once it has a final debit or a release.
abbrev pub held : Request → ℕ
held r =
    if is_some r.final_ledger_entry || is_some r.release_ledger_entry
    then 0
    else or_zero r.coin_reserved_micros

-- The Coins that a request has taken from its user for good.
abbrev pub debited : Request → ℕ
debited r = if is_some r.final_ledger_entry then or_zero r.coin_debited_micros else 0

abbrev pub of_user : ℕ → (Request → ℕ) → Request → ℕ
of_user user amount r = if r.request_user == user then amount r else 0

unfoldable pub total : ℕ → (Request → ℕ) → List Request → ℕ
total user amount [] = 0
total user amount (r ∷ requests) = of_user user amount r + total user amount requests

total-append :
    (user : ℕ) (amount : Request → ℕ) (front back : List Request)
    → total user amount (front ++ back) ≡ total user amount front + total user amount back
unfolding total
total-append user amount [] back = omega arith
total-append user amount (r ∷ front) back = omega (arith, total-append user amount front back)

total_move : (f b x y : ℕ) → f + (y + b) + x ≡ f + (x + b) + y
total_move f b x y = omega arith

pub total-update :
    (user : ℕ) (amount : Request → ℕ) (r : Request) (requests : List Request)
    (change : Request → Request)
    → Located r requests
    → total user amount (update_request r.request_id change requests) + of_user user amount r
      ≡ total user amount requests + of_user user amount (change r)
unfolding total
total-update user amount r requests change place =
    let grown = total-append user amount place.front (change r ∷ place.back) in
    let whole = total-append user amount place.front (r ∷ place.back) in
    rw (place.changed change, grown, ap (total user amount) place.split, whole) (omega arith)

-- What a step has done to the balances of one user: the deltas, which leave the other users'.
pub record Shifted (user : ℕ) (a d : ℤ) (before after : CoinDb) : Type 0 where
  pub self :
      ◌≡◌ {A = ℤ × ℤ}
        (amounts_of user after.accounts)
        ((amounts_of user before.accounts).0 +ℤ a, (amounts_of user before.accounts).1 +ℤ d)
  pub others :
      (other : ℕ)
      → user ≢ other
      → amounts_of other after.accounts ≡ amounts_of other before.accounts

pub post_entry-Shifted :
    (m : Movement) (coins : CoinDb) (posted : Entry × CoinDb)
    → find_entry m.user_id m.idempotency_key coins.entries ≡ none
    → post_entry m coins ≡ ok posted
    → Shifted m.user_id m.available_delta m.reserved_delta coins posted.1
post_entry-Shifted m coins posted fresh h =
    let moved = post_entry-Moved m coins posted fresh h in
    record { self = moved.self; others = moved.others }

plus_zero : (x : ℤ) → x +ℤ pos 0 ≡ x
plus_zero x = omega int_laws

pub kept-Shifted : (user : ℕ) (coins : CoinDb) → Shifted user (pos 0) (pos 0) coins coins
kept-Shifted user coins = record { self = simp plus_zero; others = λ other ne. refl }

-- For each user: the reserved balance moves with what the requests hold, and the two balances
-- lose what the requests debit.
pub record Conserved (db db' : WalletDb) (user : ℕ) : Type 0 where
  pub reserve_moves :
      (amounts_of user db'.coins.accounts).1 +ℤ pos (total user held db.requests)
      ≡ (amounts_of user db.coins.accounts).1 +ℤ pos (total user held db'.requests)
  pub total_moves :
      (amounts_of user db'.coins.accounts).0
        +ℤ (amounts_of user db'.coins.accounts).1
        +ℤ pos (total user debited db'.requests)
      ≡ (amounts_of user db.coins.accounts).0
        +ℤ (amounts_of user db.coins.accounts).1
        +ℤ pos (total user debited db.requests)

-- The deltas fit the change of a row.
pub record Fits (a d : ℤ) (held0 debited0 held1 debited1 : ℕ) : Type 0 where
  pub reserve_fits : d +ℤ pos held0 ≡ pos held1
  pub total_fits : a +ℤ d +ℤ pos debited1 ≡ pos debited0

moves_own :
    (R R' d : ℤ) (H H' h0 h1 : ℕ)
    → R' ≡ R +ℤ d
    → H' + h0 ≡ H + h1
    → d +ℤ pos h0 ≡ pos h1
    → R' +ℤ pos H ≡ R +ℤ pos H'
moves_own R R' d H H' h0 h1 er eh fits =
    omega (int_laws, ap pos_part er, ap neg_part er, eh, ap pos_part fits, ap neg_part fits)

totals_own :
    (A R A' R' a d : ℤ) (D D' d0 d1 : ℕ)
    → A' ≡ A +ℤ a
    → R' ≡ R +ℤ d
    → D' + d0 ≡ D + d1
    → a +ℤ d +ℤ pos d1 ≡ pos d0
    → A' +ℤ R' +ℤ pos D' ≡ A +ℤ R +ℤ pos D
totals_own A R A' R' a d D D' d0 d1 ea er ed fits = omega (
  int_laws,
  ap pos_part ea,
  ap neg_part ea,
  ap pos_part er,
  ap neg_part er,
  ed,
  ap pos_part fits,
  ap neg_part fits,
)

-- A step that posts one movement for one user, whose rows change by what the movement fits.
module _ (db db' : WalletDb) (owner : ℕ) (a d : ℤ) (h0 d0 h1 d1 : ℕ)
    (shifted : Shifted owner a d db.coins db'.coins) (fits : Fits a d h0 d0 h1 d1) where
  conserve_own :
      total owner held db'.requests + h0 ≡ total owner held db.requests + h1
      → total owner debited db'.requests + d0 ≡ total owner debited db.requests + d1
      → Conserved db db' owner
  conserve_own eh ed = record {
    reserve_moves =
        moves_own _ _ d _ _ h0 h1 (ap (λ (q : ℤ × ℤ). q.1) shifted.self) eh fits.reserve_fits;
    total_moves =
        totals_own _ _ _ _ a d _ _ d0 d1 (ap (λ (q : ℤ × ℤ). q.0) shifted.self)
          (ap (λ (q : ℤ × ℤ). q.1) shifted.self) ed fits.total_fits;
  }

  conserve_other :
      (user : ℕ)
      → owner ≢ user
      → total user held db'.requests ≡ total user held db.requests
      → total user debited db'.requests ≡ total user debited db.requests
      → Conserved db db' user
  conserve_other user other eh ed =
      let same = shifted.others user other in
      record { reserve_moves = rw (same, eh) refl; total_moves = rw (same, ed) refl }

own :
    (user : ℕ) (amount : Request → ℕ) (r : Request)
    → r.request_user ≡ user
    → of_user user amount r ≡ amount r
own user amount r same = rw ((==_iff r.request_user user).1 same) refl

not_own :
    (user : ℕ) (amount : Request → ℕ) (r : Request)
    → r.request_user ≢ user
    → of_user user amount r ≡ 0
not_own user amount r other = elim (Bool-cases (r.request_user == user)) [
  | inl same ↦ absurd (other ((==_iff r.request_user user).0 same))
  | inr differs ↦ rw differs refl
]

pub insert-Conserved :
    (db db' : WalletDb) (r : Request) (a d : ℤ)
    → db'.requests ≡ r ∷ db.requests
    → Shifted r.request_user a d db.coins db'.coins
    → Fits a d 0 0 (held r) (debited r)
    → (user : ℕ) → Conserved db db' user
unfolding total
insert-Conserved db db' r a d wrote shifted fits user = elim (eq_or_ne r.request_user user) [
  | inl same ↦ rw (← same) (
      conserve_own db db' r.request_user a d 0 0 (held r) (debited r) shifted fits
        (inserted r.request_user held (own _ held r refl))
        (inserted r.request_user debited (own _ debited r refl)))
  | inr other ↦
      conserve_other db db' r.request_user a d 0 0 (held r) (debited r) shifted fits user other
        (skipped held (not_own user held r other)) (skipped debited (not_own user debited r other))
]
  where
    inserted :
        (owner : ℕ) (amount : Request → ℕ)
        → of_user owner amount r ≡ amount r
        → total owner amount db'.requests + 0 ≡ total owner amount db.requests + amount r
    inserted owner amount e = rw wrote (omega (arith, e))

    skipped :
        (amount : Request → ℕ)
        → of_user user amount r ≡ 0
        → total user amount db'.requests ≡ total user amount db.requests
    skipped amount e = rw wrote (omega (arith, e))

pub update-Conserved :
    (db db' : WalletDb) (id : ℕ) (user0 : Option ℕ) (r : Request) (change : Request → Request)
    (a d : ℤ)
    → IsUnique db.requests
    → find_withdrawal_for_update id user0 db.requests ≡ some r
    → db'.requests ≡ update_request r.request_id change db.requests
    → (change r).request_user ≡ r.request_user
    → Shifted r.request_user a d db.coins db'.coins
    → Fits a d (held r) (debited r) (held (change r)) (debited (change r))
    → (user : ℕ) → Conserved db db' user
update-Conserved db db' id user0 r change a d unique found wrote keeps shifted fits user =
    elim (eq_or_ne r.request_user user) [
      | inl same ↦ rw (← same) (
          conserve_own db db' r.request_user a d (held r) (debited r) (held (change r))
            (debited (change r)) shifted fits (changed held) (changed debited))
      | inr other ↦
          conserve_other db db' r.request_user a d (held r) (debited r) (held (change r))
            (debited (change r)) shifted fits user other (skipped held other)
            (skipped debited other)
    ]
  where
    moved :
        (who : ℕ) (amount : Request → ℕ)
        → total who amount db'.requests + of_user who amount r
          ≡ total who amount db.requests + of_user who amount (change r)
    moved who amount = rw wrote (
        total-update who amount r db.requests change
          (find-Located id user0 db.requests r unique found))

    changed :
        (amount : Request → ℕ)
        → total r.request_user amount db'.requests + amount r
          ≡ total r.request_user amount db.requests + amount (change r)
    changed amount =
        rw (own r.request_user amount r refl, own r.request_user amount (change r) keeps) at
          (moved r.request_user amount)

    skipped :
        (amount : Request → ℕ)
        → r.request_user ≢ user
        → total user amount db'.requests ≡ total user amount db.requests
    skipped amount other = omega (
      arith,
      moved user amount,
      not_own user amount r other,
      not_own user amount (change r) (λ e. other (sym keeps ∙ e)),
    )
