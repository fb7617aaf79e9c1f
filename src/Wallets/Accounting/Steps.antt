-- ===== src/Wallets/Accounting/Steps.antt =====
-- Each operation on a withdrawal moves the Coins of its user as the requests say.
use mpulse.Common.{
  ℕ, ◌≡◌, refl, sym, ◌∙◌, Bool, true, false, not, ◌&&◌, Option, none, some, inl, inr, Result, ok,
  >>=-eq-ok,
}
use mpulse.Common.Int.{ℤ, pos, neg, int_laws}
use mpulse.Common.Text.{Text, codes}
use mpulse.Coins.Types.{Entry, CoinDb}
use mpulse.Coins.Repository.{post_entry}
use mpulse.Wallets.Types.{Request, WalletDb, ProviderOutcome, Answer, WalletHost}
use mpulse.Wallets.Store.{is_some, or_zero, from_ledger, find_withdrawal_for_update, withdrawal_key}
use mpulse.Coins.Posting.{find_entry}
use mpulse.ExchangeRates.{UsdQuote, ExchangeRateError}
use mpulse.Wallets.Outcome.{
  must_release, post_failure, entry_of, coalesce, failure_movement, failed_request, debit_movement,
  completed_request, reconcile_verified_outcome,
}
use mpulse.Wallets.Rows.{IsUnique, some_injective}
use mpulse.Wallets.Succeeded.{from_ledger-eq-ok}
use mpulse.Wallets.Reconciled.{Settled, reconcile-Reconciled}
use mpulse.Wallets.Accounting.{
  held, debited, Shifted, post_entry-Shifted, kept-Shifted, Conserved, Fits, update-Conserved,
}

pub reserve_Fits : (n : ℕ) → Fits (neg (pos n)) (pos n) 0 0 n 0
reserve_Fits n = record { reserve_fits = omega int_laws; total_fits = omega int_laws }

pub release_Fits : (n : ℕ) → Fits (pos n) (neg (pos n)) n 0 0 0
release_Fits n = record { reserve_fits = omega int_laws; total_fits = omega int_laws }

debit_Fits : (n : ℕ) → Fits (pos 0) (neg (pos n)) n 0 0 n
debit_Fits n = record { reserve_fits = omega int_laws; total_fits = omega int_laws }

still_Fits : (n m : ℕ) → Fits (pos 0) (pos 0) n m n m
still_Fits n m = record { reserve_fits = omega int_laws; total_fits = omega int_laws }

pub kept_Conserved : (db db' : WalletDb) → db' ≡ db → (user : ℕ) → Conserved db db' user
kept_Conserved db db' same user = record {
  reserve_moves = rw same refl;
  total_moves = rw same refl;
}

pub none_of : (o : Option ℕ) → is_some o ≡ false → o ≡ none
none_of none h = refl
none_of (some n) h = cc

coalesce-none :
    (host : WalletHost) (outcome : ProviderOutcome) (old : Option ℕ)
    → coalesce host outcome old none ≡ old
coalesce-none host outcome none = refl
coalesce-none host outcome (some n) = refl

second_false : (a b c d : Bool) → (a && not b && c && d) ≡ true → b ≡ false
second_false true true c d h = cc
second_false true false c d h = refl
second_false false b c d h = cc

must_release-unreleased :
    (host : WalletHost) (outcome : ProviderOutcome) (wanted : Bool) (r : Request)
    → must_release host outcome wanted r ≡ true
    → r.release_ledger_entry ≡ none
unfolding must_release
must_release-unreleased host outcome wanted r h =
    none_of r.release_ledger_entry (second_false wanted (is_some r.release_ledger_entry) _ _ h)

failed-Shifted :
    (host : WalletHost) (outcome : ProviderOutcome) (failure : Text) (test : Bool) (r : Request)
    (coins : CoinDb) (posted : Option Entry × CoinDb)
    → r.final_ledger_entry ≡ none
    → (test ≡ true → r.release_ledger_entry ≡ none)
    → (test ≡ true
        → find_entry r.request_user
            (withdrawal_key host r.request_id (codes "provider-failure-release"))
            coins.entries
          ≡ none)
    → post_failure host outcome test r coins ≡ ok posted
    → (a : ℤ) × (d : ℤ) × (Shifted r.request_user a d coins posted.1)
      × (Fits a d
          (held r)
          (debited r)
          (held (failed_request host outcome failure (entry_of host outcome posted.0) r))
          (debited (failed_request host outcome failure (entry_of host outcome posted.0) r)))
unfolding post_failure failure_movement failed_request
failed-Shifted host outcome failure false r coins posted unfinished open_still fresh h =
    let same : posted.1 ≡ coins = cc in
    let no_entry : posted.0 ≡ none = cc in
    (
      pos 0,
      pos 0,
      rw same (kept-Shifted r.request_user coins),
      rw (no_entry, coalesce-none host outcome r.release_ledger_entry)
          (still_Fits (held r) (debited r)),
    )
failed-Shifted host outcome failure true r coins posted unfinished open_still fresh h =
    let n = or_zero r.coin_reserved_micros in
    let (p, post, h1) =
      >>=-eq-ok (from_ledger (post_entry (failure_movement host outcome r) coins)) _ h in
    let same : posted.1 ≡ p.1 = cc in
    let entry : posted.0 ≡ some p.0 = cc in
    (
      pos n,
      neg (pos n),
      rw same (post_entry-Shifted _ coins p (fresh refl) (from_ledger-eq-ok _ p post)),
      rw (entry, unfinished, open_still refl) (release_Fits n),
    )

-- The keys of the movements that a reconciliation may post.
abbrev failure_key : WalletHost → ℕ → Text
failure_key host id = withdrawal_key host id (codes "provider-failure-release")

abbrev debit_key : WalletHost → ℕ → Text
debit_key host id = withdrawal_key host id (codes "final-debit")

settled-Conserved :
    (host : WalletHost) (outcome : ProviderOutcome) (id : ℕ) (r : Request) (db db' : WalletDb)
    → IsUnique db.requests
    → find_withdrawal_for_update id none db.requests ≡ some r
    → r.final_ledger_entry ≡ none
    → (r.release_ledger_entry ≡ none
        → find_entry r.request_user (failure_key host r.request_id) db.coins.entries ≡ none)
    → find_entry r.request_user (debit_key host r.request_id) db.coins.entries ≡ none
    → Settled host outcome r db db'
    → (user : ℕ) → Conserved db db' user
unfolding failed_request completed_request debit_movement
settled-Conserved host outcome id r db db' unique found unfinished fresh fresh_debit
      (Settled.failed made) user =
    let test = must_release host outcome made.wants_release r in
    let unreleased : test ≡ true → r.release_ledger_entry ≡ none =
      must_release-unreleased host outcome made.wants_release r in
    let (a, d, shifted, fits) =
      failed-Shifted host outcome made.failure test r db.coins made.posted unfinished unreleased
        (λ t. fresh (unreleased t)) made.post in
    update-Conserved db db' id none r _ a d unique found made.requests_of refl
      (rw made.coins_of shifted) fits user
settled-Conserved host outcome id r db db' unique found unfinished fresh fresh_debit
      (Settled.completed made) user =
    let n = or_zero r.coin_reserved_micros in
    update-Conserved db db' id none r _ (pos 0) (neg (pos n)) unique found made.requests_of refl
      (rw made.coins_of (post_entry-Shifted _ db.coins made.posted fresh_debit made.post))
      (rw (unfinished, made.unreleased) (debit_Fits n)) user

-- A reconciliation that succeeds, where no two requests have one id and the ledger keys of what it
-- may post were not used, moves the Coins of the request's user as the request says: what the
-- request no longer holds has left the reserved balance, and the sum of the two balances has lost
-- what the request newly counts as debited, and nothing else; every other user's balances fit
-- their requests as before.
pub reconcile_conserves :
    (host : WalletHost) (rate_ttl : ℤ) (fetched : ℤ → Result ExchangeRateError UsdQuote) (id : ℕ)
    (outcome : ProviderOutcome) (before db : WalletDb) (out : Answer × WalletDb) (r : Request)
    → IsUnique db.requests
    → find_withdrawal_for_update id none db.requests ≡ some r
    → (r.release_ledger_entry ≡ none
        → find_entry r.request_user
            (withdrawal_key host r.request_id (codes "provider-failure-release"))
            db.coins.entries
          ≡ none)
    → find_entry r.request_user
        (withdrawal_key host r.request_id (codes "final-debit"))
        db.coins.entries
      ≡ none
    → reconcile_verified_outcome host rate_ttl fetched id outcome before db ≡ ok out
    → (user : ℕ) → Conserved db out.1 user
reconcile_conserves host rate_ttl fetched id outcome before db out r unique found fresh fresh_debit
      h user =
    elim (reconcile-Reconciled host rate_ttl fetched id outcome before db out h) [
      | inl same ↦ kept_Conserved db out.1 same user
      | inr made ↦
          let this : made.r ≡ r = some_injective made.r r (sym made.found ∙ found) in
          settled-Conserved host made.outcome id made.r db out.1 unique made.found made.undebited
            (rw this fresh) (rw this fresh_debit) made.settled user
    ]
