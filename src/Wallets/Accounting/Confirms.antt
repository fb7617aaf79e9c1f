-- ===== src/Wallets/Accounting/Confirms.antt =====
-- A confirmation of a quote reserves the Coins of the quote, once.
use mpulse.Common.{ℕ, ◌≡◌, refl, true, false, none, some, ◌∷◌, ◌⊎◌, inl, inr, ok}
use mpulse.Common.Int.{pos, neg}
use mpulse.Common.Text.{Text, codes}
use mpulse.Wallets.Types.{Request, WalletDb, Answer, WalletHost}
use mpulse.Wallets.Store.{find_quote, find_withdrawal_by_idempotency, withdrawal_key}
use mpulse.Coins.Posting.{find_entry}
use mpulse.Wallets.Confirm.{ConfirmInput, reserve_movement, confirmed_request, confirm_withdrawal}
use mpulse.Wallets.Succeeded.{Reserved, Confirmed, confirm-Confirmed}
use mpulse.Wallets.Parse.{parse_idempotency_key}
use mpulse.Wallets.Types.{WithdrawalStatus, QuoteStatus, WithdrawalQuote}
use mpulse.Wallets.Accounting.{
  held, debited, Shifted, post_entry-Shifted, Conserved, insert-Conserved,
}
use mpulse.Wallets.Accounting.Steps.{kept_Conserved, reserve_Fits}

module _ (host : WalletHost) (input : ConfirmInput) (db : WalletDb) (out : Answer × WalletDb) where
  -- What a confirmation that is not a repetition has done: it found the quote that was asked for,
  -- open, moved its Coins from the available to the reserved balance of the user, and added the
  -- request that holds them.
  pub record HasReserved : Type 0 where
    pub answered : out.0.idempotent ≡ false
    pub quote : ℕ
    pub asked : input.confirm_quote ≡ some quote
    pub q : WithdrawalQuote
    pub found : find_quote quote input.confirm_user db.quotes ≡ some q
    pub is_open : q.quote_status ≡ QuoteStatus.open_quote
    pub moved :
        Shifted input.confirm_user
          (neg (pos q.coin_to_debit_micros))
          (pos q.coin_to_debit_micros)
          db.coins
          out.1.coins
    pub request : Request
    pub added : out.1.requests ≡ request ∷ db.requests
    pub owner : request.request_user ≡ input.confirm_user
    pub holds : held request ≡ q.coin_to_debit_micros
    pub undebited : debited request ≡ 0
    pub status : request.status ≡ WithdrawalStatus.pending_review

  -- What a repeated confirmation has done: nothing.
  pub record HasRepeated (key : Text) : Type 0 where
    pub r : Request
    pub on_record : find_withdrawal_by_idempotency input.confirm_user key db.requests ≡ some r
    pub replayed : out.0.idempotent ≡ true
    pub same : out.1 ≡ db

  module _
      (fresh : find_entry input.confirm_user
          (withdrawal_key host (host.new_uuid 0) (codes "reserve"))
          db.coins.entries
        ≡ none) where
    has-reserved :
        (made : Reserved host input.confirm_user db out.1)
        → out.0.idempotent ≡ false
        → input.confirm_quote ≡ some made.quote
        → HasReserved
    unfolding reserve_movement confirmed_request
    has-reserved made answered asked = record {
      answered = answered;
      quote = made.quote;
      asked = asked;
      q = made.q;
      found = made.quote_found;
      is_open = made.quote_open;
      moved = rw made.coins_of (post_entry-Shifted _ db.coins made.posted fresh made.post);
      request =
          confirmed_request host input.confirm_user (host.new_uuid 0) made.key made.q
            made.posted.0.entry_sequence;
      added = made.requests_of;
      owner = refl;
      holds = refl;
      undebited = refl;
      status = refl;
    }

    reserved-Conserved : HasReserved → (user : ℕ) → Conserved db out.1 user
    reserved-Conserved made user =
        insert-Conserved db out.1 made.request (neg (pos made.q.coin_to_debit_micros))
          (pos made.q.coin_to_debit_micros) made.added (rw made.owner made.moved)
          (rw (made.holds, made.undebited) (reserve_Fits made.q.coin_to_debit_micros)) user

-- A confirmation that succeeds, under a ledger key that was not used, is a repetition exactly where
-- a request of the user is on record under its idempotency key: then it changes nothing. Otherwise
-- it finds the quote that was asked for, open, takes the Coins to debit of the quote from the
-- available balance of the user, adds them to the reserved balance, leaves the balances of all other
-- users, and adds one request of the user, pending review, which holds these Coins and debits none.
-- Either way the reserved balance of each user moves with what the requests hold, and the sum of the
-- two balances with what they debit.
pub confirm_conserves :
    (host : WalletHost) (input : ConfirmInput) (db : WalletDb) (out : Answer × WalletDb)
    → find_entry input.confirm_user
        (withdrawal_key host (host.new_uuid 0) (codes "reserve"))
        db.coins.entries
      ≡ none
    → confirm_withdrawal host input db ≡ ok out
    → ((key : Text) × (parse_idempotency_key input.confirm_key ≡ ok key)
        × (HasRepeated host input db out key
            ⊎ (HasReserved host input db out
                × (find_withdrawal_by_idempotency input.confirm_user key db.requests ≡ none))))
      × ((user : ℕ) → Conserved db out.1 user)
confirm_conserves host input db out fresh h = elim (confirm-Confirmed host db out input h) [
  | Confirmed.repeated key r parsed known replayed same ↦ (
    (key, parsed, inl (record { r = r; on_record = known; replayed = replayed; same = same })),
    kept_Conserved db out.1 same,
  )
  | Confirmed.reserved key parsed known answered made asked same ↦
      let done = has-reserved host input db out fresh made answered asked in
      ((key, parsed, inr (done, known)), reserved-Conserved host input db out fresh done)
]
