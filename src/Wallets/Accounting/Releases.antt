-- ===== src/Wallets/Accounting/Releases.antt =====
-- A release of a request gives back what the request holds, once.
use mpulse.Common.{ℕ, ◌≡◌, false, ◌&&◌, none, some}
use mpulse.Common.Int.{pos, neg}
use mpulse.Wallets.Types.{Request, WalletDb, Answer, WalletHost}
use mpulse.Wallets.Store.{is_some, update_request}
use mpulse.Wallets.Release.{ReleaseInput, has_target, target_status, released_request}
use mpulse.Wallets.Accounting.{held, Shifted}

-- What a release that is not a repetition has done to the request that it found: it had no debit,
-- what it held is back in the available balance of its user, and it has the wanted status, a release
-- and holds nothing.
pub record HasReleased (host : WalletHost) (input : ReleaseInput) (r : Request) (db : WalletDb)
    (out : Answer × WalletDb) : Type 0 where
  pub answered : out.0.idempotent ≡ false
  pub undone : (has_target input.target r.status && is_some r.release_ledger_entry) ≡ false
  pub undebited : r.final_ledger_entry ≡ none
  pub moved : Shifted r.request_user (pos (held r)) (neg (pos (held r))) db.coins out.1.coins
  pub entry : ℕ
  pub wrote :
      out.1.requests ≡ update_request r.request_id (released_request host input entry) db.requests
  pub status : (released_request host input entry r).status ≡ target_status input.target
  pub recorded : (released_request host input entry r).release_ledger_entry ≡ some entry
  pub emptied : held (released_request host input entry r) ≡ 0
