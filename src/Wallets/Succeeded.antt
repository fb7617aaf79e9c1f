-- ===== src/Wallets/Succeeded.antt =====
-- What an operation on a request has read and written when it succeeds.
use mpulse.Common.{
  ℕ, ◌≡◌, ◌⊎◌, refl, sym, ap, ◌∙◌, Bool, true, false, not, ◌&&◌, ◌||◌, Option, none, some, List,
  ◌∷◌, inl, inr, Result, ok, err, throw_if, ◌==◌, >>=-eq-ok, throw_if-eq-ok,
}
use mpulse.Common.Text.{Text}
use mpulse.Coins.Types.{Entry, CoinDb, CoinLedgerError}
use mpulse.Coins.Repository.{get_balance, post_entry}
use mpulse.Wallets.Types.{
  QuoteStatus, WithdrawalQuote, Request, WalletDb, WalletError, Answer, WalletHost,
}
use mpulse.Wallets.Parse.{parse_idempotency_key}
use mpulse.Wallets.Store.{
  is_some, or_zero, required, from_ledger, find_withdrawal_for_update, update_request,
  request_clashes, insert_request, find_quote, find_withdrawal_by_idempotency, map_withdrawal,
}
use mpulse.Wallets.Confirm.{
  ConfirmInput, reserve_movement, confirmed_request, confirm_open, confirm_status, confirm_found,
  confirm_withdrawal, is_past, same_quote,
}
use mpulse.Wallets.Release.{
  ReleaseInput, has_target, can_release_withdrawal_reserve, is_releasable, released_request,
  existing_release, release_or_post, release_reserve, release_found, release_withdrawal,
}

pub from_ledger-eq-ok :
    {A : Type 0} (r : Result CoinLedgerError A) (a : A) → from_ledger r ≡ ok a → r ≡ ok a
from_ledger-eq-ok (ok b) a h = cc
from_ledger-eq-ok (err e) a h = cc

pub required-eq-ok :
    {A : Type 0} (e : WalletError) (o : Option A) (a : A) → required e o ≡ ok a → o ≡ some a
required-eq-ok e none a h = cc
required-eq-ok e (some b) a h = cc

-- A confirmation that reserved the Coins of a quote.
pub record Reserved (host : WalletHost) (user : ℕ) (db db' : WalletDb) : Type 0 where
  pub key : Text
  pub quote : ℕ
  pub q : WithdrawalQuote
  pub quote_found : find_quote quote user db.quotes ≡ some q
  pub quote_open : q.quote_status ≡ QuoteStatus.open_quote
  pub posted : Entry × CoinDb
  pub post : post_entry (reserve_movement host user (host.new_uuid 0) q) db.coins ≡ ok posted
  pub no_clash :
      request_clashes
        (confirmed_request host user (host.new_uuid 0) key q posted.0.entry_sequence)
        db.requests
      ≡ false
  pub coins_of : db'.coins ≡ posted.1
  pub requests_of :
      db'.requests
      ≡ confirmed_request host user (host.new_uuid 0) key q posted.0.entry_sequence ∷ db.requests

-- How a confirmation is answered: as a repetition of the request that is on record under the key,
-- with nothing changed, or, where there is none, after a reservation.
pub data Confirmed (host : WalletHost) (input : ConfirmInput) (db : WalletDb)
    (out : Answer × WalletDb) : Type 0 where
  repeated :
      (key : Text) (r : Request)
      → parse_idempotency_key input.confirm_key ≡ ok key
      → find_withdrawal_by_idempotency input.confirm_user key db.requests ≡ some r
      → out.0.idempotent ≡ true
      → out.1 ≡ db
      → Confirmed host input db out
  reserved :
      (key : Text)
      → parse_idempotency_key input.confirm_key ≡ ok key
      → find_withdrawal_by_idempotency input.confirm_user key db.requests ≡ none
      → out.0.idempotent ≡ false
      → (made : Reserved host input.confirm_user db out.1) → input.confirm_quote ≡ some made.quote
      → made.key ≡ key
      → Confirmed host input db out

pub insert_request-eq-ok :
    (r : Request) (requests rows : List Request)
    → insert_request r requests ≡ ok rows
    → (request_clashes r requests ≡ false) × (rows ≡ r ∷ requests)
unfolding insert_request
insert_request-eq-ok r requests rows h =
    let (u, unclashed, h1) =
      >>=-eq-ok (throw_if (request_clashes r requests) WalletError.unique_violation) _ h in
    (throw_if-eq-ok _ WalletError.unique_violation unclashed, cc)

module _ (host : WalletHost) (db : WalletDb) (out : Answer × WalletDb) where
  confirm_open-Reserved :
      (user : ℕ) (key : Text) (quote : ℕ) (q : WithdrawalQuote)
      → find_quote quote user db.quotes ≡ some q
      → q.quote_status ≡ QuoteStatus.open_quote
      → confirm_open host user key q db ≡ ok out
      → (out.0.idempotent ≡ false)
        × (made : Reserved host user db out.1) × (made.quote ≡ quote)
        × (made.key ≡ key)
  unfolding confirm_open
  confirm_open-Reserved user key quote q found is_open h =
      let (posted, post, h1) =
        >>=-eq-ok
          (from_ledger (post_entry (reserve_movement host user (host.new_uuid 0) q) db.coins)) _
          h in
      let request = confirmed_request host user (host.new_uuid 0) key q posted.0.entry_sequence in
      let (rows, inserted, h2) = >>=-eq-ok (insert_request request db.requests) _ h1 in
      let (saved, mapped, h3) = >>=-eq-ok (map_withdrawal request) _ h2 in
      let (balance, read, h4) = >>=-eq-ok (from_ledger (get_balance user posted.1)) _ h3 in
      let (no_clash, grown) = insert_request-eq-ok request db.requests rows inserted in
      (
        cc,
        record {
          key = key;
          quote = quote;
          q = q;
          quote_found = found;
          quote_open = is_open;
          posted = posted;
          post = from_ledger-eq-ok _ posted post;
          no_clash = no_clash;
          coins_of = cc;
          requests_of = cc;
        },
        refl,
        refl,
      )

  confirm_status-Reserved :
      (status : QuoteStatus) (user : ℕ) (key : Text) (quote : ℕ) (q : WithdrawalQuote)
      → find_quote quote user db.quotes ≡ some q
      → q.quote_status ≡ status
      → confirm_status host status user key q db ≡ ok out
      → (out.0.idempotent ≡ false)
        × (made : Reserved host user db out.1) × (made.quote ≡ quote)
        × (made.key ≡ key)
  unfolding confirm_status
  confirm_status-Reserved QuoteStatus.consumed user key quote q found known h = cc
  confirm_status-Reserved QuoteStatus.expired user key quote q found known h = cc
  confirm_status-Reserved QuoteStatus.cancelled_quote user key quote q found known h = cc
  confirm_status-Reserved QuoteStatus.open_quote user key quote q found known h =
      let (u, current, h1) =
        >>=-eq-ok
          (throw_if (is_past (host.date_parse q.quote_expires_at) host.now)
            WalletError.withdrawal_quote_expired)
          _ h in
      confirm_open-Reserved user key quote q found known h1

  confirm_found-Confirmed :
      (input : ConfirmInput) (existing : Option Request) (quote : ℕ) (key : Text)
      → input.confirm_quote ≡ some quote
      → parse_idempotency_key input.confirm_key ≡ ok key
      → find_withdrawal_by_idempotency input.confirm_user key db.requests ≡ existing
      → confirm_found host existing input.confirm_user quote key db ≡ ok out
      → Confirmed host input db out
  unfolding confirm_found
  confirm_found-Confirmed input (some r) quote key given parsed known h =
      let (u, same, h1) =
        >>=-eq-ok
          (throw_if (not (same_quote r.withdrawal_quote quote))
            WalletError.idempotency_key_reuse_mismatch)
          _ h in
      let (saved, mapped, h2) = >>=-eq-ok (map_withdrawal r) _ h1 in
      let (balance, read, h3) =
        >>=-eq-ok (from_ledger (get_balance input.confirm_user db.coins)) _ h2 in
      Confirmed.repeated key r parsed known (cc) (cc)
  confirm_found-Confirmed input none quote key given parsed known h =
      let (q, found, h1) =
        >>=-eq-ok
          (required WalletError.withdrawal_quote_not_found
            (find_quote quote input.confirm_user db.quotes))
          _ h in
      let (answered, made, same, same_key) =
        confirm_status-Reserved q.quote_status input.confirm_user key quote q
          (required-eq-ok _ _ q found) refl h1 in
      Confirmed.reserved key parsed known answered made (given ∙ ap some (sym same)) same_key

  pub confirm-Confirmed :
      (input : ConfirmInput)
      → confirm_withdrawal host input db ≡ ok out
      → Confirmed host input db out
  unfolding confirm_withdrawal
  confirm-Confirmed input h =
      let (quote, given, h1) =
        >>=-eq-ok (required WalletError.invalid_coin_wallet_request input.confirm_quote) _ h in
      let (key, parsed, h2) = >>=-eq-ok (parse_idempotency_key input.confirm_key) _ h1 in
      confirm_found-Confirmed input _ quote key (required-eq-ok _ _ quote given) parsed refl h2

  pub confirm-Reserved :
      (input : ConfirmInput)
      → confirm_withdrawal host input db ≡ ok out
      → (out.1 ≡ db) ⊎ Reserved host input.confirm_user db out.1
  confirm-Reserved input h = elim (confirm-Confirmed input h) [
    | Confirmed.repeated key r parsed known replayed same ↦ inl same
    | Confirmed.reserved key parsed known answered made quoted same ↦ inr made
  ]

-- A release that was made: the row it found, the entry it refers to, and what it wrote.
pub record Released (host : WalletHost) (input : ReleaseInput) (db db' : WalletDb) : Type 0 where
  pub r : Request
  pub found : find_withdrawal_for_update input.release_id input.release_user db.requests ≡ some r
  pub unfinished : (not (is_releasable r.status) || is_some r.final_ledger_entry) ≡ false
  pub conclusive : not (can_release_withdrawal_reserve r.status r.failure_state) ≡ false
  pub existing : Option Entry
  pub looked_up : existing_release host input r db.coins ≡ ok existing
  pub posted : Entry × CoinDb
  pub post : release_or_post host input existing r db.coins ≡ ok posted
  pub coins_of : db'.coins ≡ posted.1
  pub requests_of :
      db'.requests
      ≡ update_request r.request_id
          (released_request host input posted.0.entry_sequence)
          db.requests

-- A release that was a repetition: the row has the wanted status and a release, and nothing changes.
pub record Repeated (input : ReleaseInput) (db : WalletDb) (out : Answer × WalletDb) : Type 0 where
  pub r : Request
  pub found : find_withdrawal_for_update input.release_id input.release_user db.requests ≡ some r
  pub on_target : (has_target input.target r.status && is_some r.release_ledger_entry) ≡ true
  pub replayed : out.0.idempotent ≡ true
  pub same : out.1 ≡ db

module _ (host : WalletHost) (input : ReleaseInput) (db : WalletDb) (out : Answer × WalletDb) where
  release_reserve-Released :
      (r : Request)
      → find_withdrawal_for_update input.release_id input.release_user db.requests ≡ some r
      → release_reserve host input r db ≡ ok out
      → (out.0.idempotent ≡ false) × Released host input db out.1
  unfolding release_reserve
  release_reserve-Released r found h =
      let (u, conclusive, h1) =
        >>=-eq-ok
          (throw_if (not (can_release_withdrawal_reserve r.status r.failure_state))
            WalletError.withdrawal_not_cancellable)
          _ h in
      let (v, unfinished, h2) =
        >>=-eq-ok
          (throw_if (not (is_releasable r.status) || is_some r.final_ledger_entry)
            WalletError.withdrawal_not_cancellable)
          _ h1 in
      let (w, backed, h3) =
        >>=-eq-ok
          (throw_if (or_zero r.coin_reserved_micros == 0 || not (is_some r.reserve_ledger_entry))
            WalletError.withdrawal_not_cancellable)
          _ h2 in
      let (existing, looked_up, h4) = >>=-eq-ok (existing_release host input r db.coins) _ h3 in
      let (posted, post, h5) = >>=-eq-ok (release_or_post host input existing r db.coins) _ h4 in
      let (saved, mapped, h6) =
        >>=-eq-ok (map_withdrawal (released_request host input posted.0.entry_sequence r)) _ h5 in
      let (balance, read, h7) =
        >>=-eq-ok (from_ledger (get_balance r.request_user posted.1)) _ h6 in
      (
        cc,
        record {
          r = r;
          found = found;
          unfinished = throw_if-eq-ok _ WalletError.withdrawal_not_cancellable unfinished;
          conclusive = throw_if-eq-ok _ WalletError.withdrawal_not_cancellable conclusive;
          existing = existing;
          looked_up = looked_up;
          posted = posted;
          post = post;
          coins_of = cc;
          requests_of = cc;
        },
      )

  release_found-Released :
      (repeated : Bool) (r : Request)
      → find_withdrawal_for_update input.release_id input.release_user db.requests ≡ some r
      → (has_target input.target r.status && is_some r.release_ledger_entry) ≡ repeated
      → release_found host input repeated r db ≡ ok out
      → Repeated input db out
        ⊎ ((out.0.idempotent ≡ false)
            × Released host input db out.1
            × (q : Request) × (find_withdrawal_for_update input.release_id input.release_user
                  db.requests
                ≡ some q)
            × ((has_target input.target q.status && is_some q.release_ledger_entry) ≡ false))
  unfolding release_found
  release_found-Released true r found known h =
      let (saved, mapped, h1) = >>=-eq-ok (map_withdrawal r) _ h in
      let (balance, read, h2) =
        >>=-eq-ok (from_ledger (get_balance r.request_user db.coins)) _ h1 in
      inl (record { r = r; found = found; on_target = known; replayed = cc; same = cc })
  release_found-Released false r found known h =
      let (answered, made) = release_reserve-Released r found h in
      inr (answered, made, r, found, known)

  -- A release is answered as a repetition, with nothing changed, or it was made.
  pub release-Answered :
      release_withdrawal host input db ≡ ok out
      → Repeated input db out
        ⊎ ((out.0.idempotent ≡ false)
            × Released host input db out.1
            × (q : Request) × (find_withdrawal_for_update input.release_id input.release_user
                  db.requests
                ≡ some q)
            × ((has_target input.target q.status && is_some q.release_ledger_entry) ≡ false))
  unfolding release_withdrawal
  release-Answered h =
      let (r, found, h1) =
        >>=-eq-ok
          (required WalletError.withdrawal_not_found
            (find_withdrawal_for_update input.release_id input.release_user db.requests))
          _ h in
      release_found-Released _ r (required-eq-ok _ _ r found) refl h1

  pub release-Released :
      release_withdrawal host input db ≡ ok out → (out.1 ≡ db) ⊎ Released host input db out.1
  release-Released h = elim (release-Answered h) [
    | inl again ↦ inl again.same
    | inr (answered, made, q, found, undone) ↦ inr made
  ]
