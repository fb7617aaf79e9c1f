-- ===== src/Wallets/Repeated.antt =====
-- `confirmWithdrawal` called again with the key of a call that succeeded.
use mpulse.Common.{
  ℕ, ◌≡◌, refl, sym, ap, ◌∙◌, Bool, true, false, not, ◌&&◌, Option, none, some, List, [], ◌∷◌, inl,
  inr, ok, throw_if, ◌==◌, Bool-cases, ==_iff, >>=-eq-ok, throw_if-eq-ok,
}
use mpulse.Common.Text.{Text}
use mpulse.Coins.Types.{CoinDb}
use mpulse.Coins.Repository.{CoinBalance, get_balance, post_entry}
use mpulse.Wallets.Types.{
  QuoteStatus, WithdrawalQuote, Request, WalletDb, WalletError, Answer, WalletHost,
}
use mpulse.Wallets.Parse.{parse_idempotency_key}
use mpulse.Wallets.Store.{
  required, from_ledger, find_withdrawal_by_idempotency, insert_request, find_quote, map_withdrawal,
}
use mpulse.Common.Text.{text_eq_refl}
use mpulse.Wallets.Confirm.{
  ConfirmInput, is_past, same_quote, reserve_movement, confirmed_request, confirm_open,
  confirm_status, confirm_found, confirm_withdrawal,
}
use mpulse.Wallets.Succeeded.{required-eq-ok, insert_request-eq-ok}
use mpulse.Wallets.Accepted.{map_withdrawal-eq-ok}

-- What a confirmation that succeeded leaves for the next one with its key.
record Answered (user quote : ℕ) (key : Text) (out : Answer × WalletDb) : Type 0 where
  row : Request
  stored : find_withdrawal_by_idempotency user key out.1.requests ≡ some row
  of_quote : same_quote row.withdrawal_quote quote ≡ true
  mapped : map_withdrawal row ≡ ok row
  answer_of : out.0.withdrawal_request ≡ row
  balance : CoinBalance
  read : from_ledger (get_balance user out.1.coins) ≡ ok balance

find_quote-id :
    (id user : ℕ) (quotes : List WithdrawalQuote) (q : WithdrawalQuote)
    → find_quote id user quotes ≡ some q
    → (q.quote_id == id) ≡ true
unfolding find_quote
find_quote-id id user [] q h = cc
find_quote-id id user (p ∷ quotes) q h =
    elim (Bool-cases (p.quote_id == id && p.quote_user == user)) [
      | inl this ↦
          let same = some_injective p q (rw this at h) in
          rw (← same) (and_left (p.quote_id == id) _ this)
      | inr next ↦ find_quote-id id user quotes q (rw next at h)
    ]
  where
    some_injective : (a b : WithdrawalQuote) → some a ≡ some b → a ≡ b
    some_injective a b e = cc

    and_left : (a b : Bool) → (a && b) ≡ true → a ≡ true
    and_left true b e = refl
    and_left false b e = cc

not-false : (b : Bool) → not b ≡ false → b ≡ true
not-false true h = refl
not-false false h = cc

module _ (host : WalletHost) (db : WalletDb) (out : Answer × WalletDb) (user quote : ℕ)
    (key : Text) where
  open_Answered :
      (q : WithdrawalQuote)
      → (q.quote_id == quote) ≡ true
      → confirm_open host user key q db ≡ ok out
      → Answered user quote key out
  unfolding confirm_open confirmed_request find_withdrawal_by_idempotency
  open_Answered q of_quote h =
      let (posted, post, h1) =
        >>=-eq-ok
          (from_ledger (post_entry (reserve_movement host user (host.new_uuid 0) q) db.coins)) _
          h in
      let request = confirmed_request host user (host.new_uuid 0) key q posted.0.entry_sequence in
      let (rows, inserted, h2) = >>=-eq-ok (insert_request request db.requests) _ h1 in
      let (saved, mapped, h3) = >>=-eq-ok (map_withdrawal request) _ h2 in
      let (balance, read, h4) = >>=-eq-ok (from_ledger (get_balance user posted.1)) _ h3 in
      let grown = (insert_request-eq-ok request db.requests rows inserted).1 in
      let requests_of : out.1.requests ≡ request ∷ db.requests = cc in
      let coins_of : out.1.coins ≡ posted.1 = cc in
      let row = map_withdrawal-eq-ok request saved mapped in
      let answered : out.0.withdrawal_request ≡ saved = cc in
      record {
        row = request;
        stored = rw requests_of (rw ((==_iff user user).1 refl, text_eq_refl key) refl);
        of_quote = of_quote;
        mapped = mapped ∙ ap ok row;
        answer_of = answered ∙ row;
        balance = balance;
        read = ap (λ (c : CoinDb). from_ledger (get_balance user c)) coins_of ∙ read;
      }

  status_Answered :
      (status : QuoteStatus) (q : WithdrawalQuote)
      → (q.quote_id == quote) ≡ true
      → confirm_status host status user key q db ≡ ok out
      → Answered user quote key out
  unfolding confirm_status
  status_Answered QuoteStatus.consumed q of_quote h = cc
  status_Answered QuoteStatus.expired q of_quote h = cc
  status_Answered QuoteStatus.cancelled_quote q of_quote h = cc
  status_Answered QuoteStatus.open_quote q of_quote h =
      let (u, current, h1) =
        >>=-eq-ok
          (throw_if (is_past (host.date_parse q.quote_expires_at) host.now)
            WalletError.withdrawal_quote_expired)
          _ h in
      open_Answered q of_quote h1

  found_Answered :
      (existing : Option Request)
      → find_withdrawal_by_idempotency user key db.requests ≡ existing
      → confirm_found host existing user quote key db ≡ ok out
      → Answered user quote key out
  unfolding confirm_found
  found_Answered (some r) known h =
      let (u, same, h1) =
        >>=-eq-ok
          (throw_if (not (same_quote r.withdrawal_quote quote))
            WalletError.idempotency_key_reuse_mismatch)
          _ h in
      let (saved, mapped, h2) = >>=-eq-ok (map_withdrawal r) _ h1 in
      let (balance, read, h3) = >>=-eq-ok (from_ledger (get_balance user db.coins)) _ h2 in
      let row = map_withdrawal-eq-ok r saved mapped in
      let db_of : out.1 ≡ db = cc in
      let answered : out.0.withdrawal_request ≡ saved = cc in
      record {
        row = r;
        stored =
            ap (λ (d : WalletDb). find_withdrawal_by_idempotency user key d.requests) db_of ∙ known;
        of_quote = not-false _ (throw_if-eq-ok _ WalletError.idempotency_key_reuse_mismatch same);
        mapped = mapped ∙ ap ok row;
        answer_of = answered ∙ row;
        balance = balance;
        read = ap (λ (d : WalletDb). from_ledger (get_balance user d.coins)) db_of ∙ read;
      }
  found_Answered none known h =
      let (q, found, h1) =
        >>=-eq-ok
          (required WalletError.withdrawal_quote_not_found (find_quote quote user db.quotes)) _ h in
      status_Answered q.quote_status q
        (find_quote-id quote user db.quotes q (required-eq-ok _ _ q found)) h1

-- The answer to a call with a key that is known.
abbrev replayed_answer :
    {user quote : ℕ} {key : Text} {out : Answer × WalletDb} → Answered user quote key out → Answer
replayed_answer made = record {
  withdrawal_request = made.row;
  balance = some made.balance;
  ledger_entry = none;
  idempotent = true;
  accepted = false;
  reserve_held = false;
  retry_blocked_reason = none;
}

replayed_found :
    (host : WalletHost) (user quote : ℕ) (key : Text) (out : Answer × WalletDb)
    (made : Answered user quote key out)
    → confirm_found host
        (find_withdrawal_by_idempotency user key out.1.requests)
        user
        quote
        key
        out.1
      ≡ ok (replayed_answer made, out.1)
unfolding confirm_found
replayed_found host user quote key out made =
    rw (made.stored, made.of_quote, made.mapped, made.read) refl

-- Once a confirmation has succeeded, the same call at any later time, from the state it left, answers
-- with the same request, marked as repeated, and changes nothing: the Coins are reserved once.
pub confirm_repeats :
    (host later : WalletHost) (input : ConfirmInput) (db : WalletDb) (out : Answer × WalletDb)
    → confirm_withdrawal host input db ≡ ok out
    → (answer : Answer) × (confirm_withdrawal later input out.1 ≡ ok (answer, out.1))
      × (answer.idempotent ≡ true)
      × (answer.withdrawal_request ≡ out.0.withdrawal_request)
unfolding confirm_withdrawal
confirm_repeats host later input db out h =
    let (quote, given, h1) =
      >>=-eq-ok (required WalletError.invalid_coin_wallet_request input.confirm_quote) _ h in
    let (key, parsed, h2) = >>=-eq-ok (parse_idempotency_key input.confirm_key) _ h1 in
    let made = found_Answered host db out input.confirm_user quote key _ refl h2 in
    (
      replayed_answer made,
      rw (given, parsed) (replayed_found later input.confirm_user quote key out made),
      refl,
      sym made.answer_of,
    )
