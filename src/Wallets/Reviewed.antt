-- ===== src/Wallets/Reviewed.antt =====
-- What an approval or a retry has written when it succeeds, and that a quote leaves the requests.
use mpulse.Common.{
  ℕ, ◌≡◌, ◌⊎◌, refl, not, Option, none, some, inl, inr, Result, ok, ◌>>=◌, throw_if, >>=-eq-ok,
}
use mpulse.Common.Int.{ℤ}
use mpulse.Common.Text.{Text, text_eq}
use mpulse.Wallets.Types.{
  WithdrawalStatus, WithdrawalQuote, RateSnapshot, Request, WalletDb, WalletError, Answer,
  WalletHost,
}
use mpulse.Wallets.Parse.{
  parse_positive_coin_micros, parse_idempotency_key, required_text, required_reason,
}
use mpulse.Wallets.Store.{required, find_withdrawal_for_update, update_request, map_withdrawal}
use mpulse.Wallets.Review.{
  approved_request, approve_status, approve_withdrawal_for_review, find_request, retry_status,
  safe_retry_withdrawal,
}
use mpulse.Wallets.Quotes.{
  QuoteInput, QuoteAnswer, replay_quote, save_quote, new_quote, insert_quote,
  create_withdrawal_quote, find_quote_by_idempotency, priced_quote, estimate,
}
use mpulse.Wallets.Address.{parse_tron_address}
use mpulse.ExchangeRates.{UsdQuote, ExchangeRateError}
use mpulse.Wallets.Succeeded.{required-eq-ok}

-- An approval of a request that was pending.
pub record Approved (db db' : WalletDb) : Type 0 where
  pub host : WalletHost
  pub actor : Text
  pub reason : Text
  pub id : ℕ
  pub r : Request
  pub found : find_withdrawal_for_update id none db.requests ≡ some r
  pub pending : r.status ≡ WithdrawalStatus.pending_review
  pub coins_of : db'.coins ≡ db.coins
  pub requests_of :
      db'.requests ≡ update_request r.request_id (approved_request host actor reason) db.requests

module _ (host : WalletHost) (db : WalletDb) where
  approve_status-Approved :
      (status : WithdrawalStatus) (id : ℕ) (actor reason : Text) (r : Request)
      (out : Answer × WalletDb)
      → find_withdrawal_for_update id none db.requests ≡ some r
      → r.status ≡ status
      → approve_status host status actor reason r db ≡ ok out
      → (out.1 ≡ db) ⊎ Approved db out.1
  unfolding approve_status
  approve_status-Approved WithdrawalStatus.approved_for_review id actor reason r out found known h =
      let (saved, mapped, h1) = >>=-eq-ok (map_withdrawal r) _ h in inl (cc)
  approve_status-Approved WithdrawalStatus.pending_review id actor reason r out found known h =
      let (saved, mapped, h1) =
        >>=-eq-ok (map_withdrawal (approved_request host actor reason r)) _ h in
      inr (record {
        host = host;
        actor = actor;
        reason = reason;
        id = id;
        r = r;
        found = found;
        pending = known;
        coins_of = cc;
        requests_of = cc;
      })
  approve_status-Approved _ id actor reason r out found known h = cc

  pub approve-Approved :
      (id : ℕ) (actor : Text) (reason : Option Text) (out : Answer × WalletDb)
      → approve_withdrawal_for_review host id actor reason db ≡ ok out
      → (out.1 ≡ db) ⊎ Approved db out.1
  unfolding approve_withdrawal_for_review
  approve-Approved id actor reason out h =
      let (known, checked, h1) = >>=-eq-ok (required_text (some actor)) _ h in
      let (given, stated, h2) = >>=-eq-ok (required_reason reason) _ h1 in
      let (r, found, h3) =
        >>=-eq-ok
          (required WalletError.withdrawal_not_found
            (find_withdrawal_for_update id none db.requests))
          _ h2 in
      approve_status-Approved r.status id known given r out (required-eq-ok _ _ r found) refl h3

  retried-Approved :
      (id : ℕ) (actor : Text) (reason : Option Text) (out : Answer × WalletDb)
      (answer : Answer → Answer)
      → (approve_withdrawal_for_review host id actor reason db >>= λ p. ok (answer p.0, p.1))
        ≡ ok out
      → (out.1 ≡ db) ⊎ Approved db out.1
  retried-Approved id actor reason out answer h =
      let (p, approved, h1) =
        >>=-eq-ok (approve_withdrawal_for_review host id actor reason db) _ h in
      let same : p.1 ≡ out.1 = cc in rw same at (approve-Approved id actor reason p approved)

  retry_status-Approved :
      (status : WithdrawalStatus) (id : ℕ) (actor : Text) (reason : Option Text) (r : Request)
      (out : Answer × WalletDb)
      → retry_status host status id actor reason r db ≡ ok out
      → (out.1 ≡ db) ⊎ Approved db out.1
  unfolding retry_status
  retry_status-Approved WithdrawalStatus.approved_for_review id actor reason r out h =
      let (saved, mapped, h1) = >>=-eq-ok (map_withdrawal r) _ h in inl (cc)
  retry_status-Approved WithdrawalStatus.failed id actor reason r out h =
      let (saved, mapped, h1) = >>=-eq-ok (map_withdrawal r) _ h in inl (cc)
  retry_status-Approved _ id actor reason r out h = retried-Approved id actor reason out _ h

  pub retry-Approved :
      (id : ℕ) (actor : Text) (reason : Option Text) (before : WalletDb) (out : Answer × WalletDb)
      → safe_retry_withdrawal host id actor reason before db ≡ ok out
      → (out.1 ≡ db) ⊎ Approved db out.1
  unfolding safe_retry_withdrawal
  retry-Approved id actor reason before out h =
      let (r, found, h1) =
        >>=-eq-ok (required WalletError.withdrawal_not_found (find_request id before.requests)) _
          h in
      retry_status-Approved r.status id actor reason r out h1

-- A quote leaves the ledger and the requests.
abbrev Keeps : WalletDb → QuoteAnswer × WalletDb → Type 0
Keeps db out = (out.1.coins ≡ db.coins) × (out.1.requests ≡ db.requests)

module _ (host : WalletHost) (rate_ttl : ℤ) (fetched : ℤ → Result ExchangeRateError UsdQuote)
    (network_fee provider_fee : ℕ) (db : WalletDb) (out : QuoteAnswer × WalletDb) where
  replay_quote-Keeps :
      (fingerprint : Text) (q : WithdrawalQuote) (rate : RateSnapshot)
      → replay_quote fingerprint (q, rate) db ≡ ok out
      → Keeps db out
  unfolding replay_quote
  replay_quote-Keeps fingerprint q rate h =
      let (u, same, h1) =
        >>=-eq-ok
          (throw_if (not (text_eq q.quote_fingerprint fingerprint))
            WalletError.idempotency_key_reuse_mismatch)
          _ h in
      (cc, cc)

  save_quote-Keeps :
      (quote : UsdQuote) (row : WithdrawalQuote)
      (concurrent : Option (WithdrawalQuote × RateSnapshot))
      → save_quote host rate_ttl fetched network_fee provider_fee quote row concurrent db ≡ ok out
      → Keeps db out
  unfolding save_quote
  save_quote-Keeps quote row (some (q, rate)) h = replay_quote-Keeps row.quote_fingerprint q rate h
  save_quote-Keeps quote row none h =
      let (rows, inserted, h1) = >>=-eq-ok (insert_quote row db.quotes) _ h in (cc, cc)

  new_quote-Keeps :
      (user : ℕ) (destination : Text) (amount : ℕ) (key fingerprint : Text)
      (existing : Option (WithdrawalQuote × RateSnapshot))
      → new_quote host rate_ttl fetched network_fee provider_fee user destination amount key
          fingerprint existing db
        ≡ ok out
      → Keeps db out
  unfolding new_quote
  new_quote-Keeps user destination amount key fingerprint (some (q, rate)) h =
      replay_quote-Keeps fingerprint q rate h
  new_quote-Keeps user destination amount key fingerprint none h =
      let (quote, priced, h1) =
        >>=-eq-ok (priced_quote host rate_ttl fetched network_fee provider_fee amount) _ h in
      let (estimated, worth, h2) =
        >>=-eq-ok (estimate host rate_ttl fetched network_fee provider_fee amount quote) _ h1 in
      let (concurrent, found, h3) = >>=-eq-ok (find_quote_by_idempotency user key db) _ h2 in
      save_quote-Keeps quote _ concurrent h3

  pub create_quote-Keeps :
      (input : QuoteInput) (before : WalletDb)
      → create_withdrawal_quote host rate_ttl fetched network_fee provider_fee input before db
        ≡ ok out
      → (out.1.coins ≡ db.coins) × (out.1.requests ≡ db.requests)
  unfolding create_withdrawal_quote
  create_quote-Keeps input before h =
      let (destination, valid, h1) =
        >>=-eq-ok (parse_tron_address host.sha256 input.input_destination) _ h in
      let (amount, positive, h2) = >>=-eq-ok (parse_positive_coin_micros input.input_amount) _ h1 in
      let (key, given, h3) = >>=-eq-ok (parse_idempotency_key input.input_key) _ h2 in
      let (existing, found, h4) =
        >>=-eq-ok (find_quote_by_idempotency input.input_user key before) _ h3 in
      new_quote-Keeps input.input_user destination amount key _ existing h4
