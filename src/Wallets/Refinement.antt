-- ===== src/Wallets/Refinement.antt =====
-- The withdrawals as a machine: a reserve is held until it is released or debited, once.
use mpulse.Common.{
  ℕ, ◌≡◌, refl, ◌∙◌, Bool, true, false, not, ◌||◌, Option, none, some, List, [], ◌∷◌, ◌++◌,
}
use mpulse.Wallets.Types.{Request, WalletDb, WalletHost, ProviderOutcome}
use mpulse.Wallets.Store.{is_some, find_withdrawal_for_update, update_request}
use mpulse.Wallets.Confirm.{confirmed_request}
use mpulse.Wallets.Release.{is_releasable, released_request}
use mpulse.Wallets.Outcome.{coalesce, failed_request, completed_request}
use mpulse.Wallets.Review.{approved_request}
use mpulse.Wallets.Rows.{IsUnique, find-Located}
use mpulse.Wallets.Reconciled.{Settled}
use mpulse.Wallets.Runs.{WalletStep, Change, step-Change}

-- The states of the machine, with the ledger entries that a row records. A row that has both a debit
-- and a release is in a state of its own.
pub data Reserve : Type 0 where
  is_held : Reserve
  is_released : ℕ → Reserve
  is_debited : ℕ → Reserve
  is_both : ℕ → ℕ → Reserve

-- Its steps: a row that was released can have its release recorded again, under another entry.
pub data ReserveStep : Reserve → Reserve → Type 0 where
  stays : {p : Reserve} → ReserveStep p p
  releases : {e : ℕ} → ReserveStep Reserve.is_held (Reserve.is_released e)
  records_again : {e f : ℕ} → ReserveStep (Reserve.is_released e) (Reserve.is_released f)
  debits : {e : ℕ} → ReserveStep Reserve.is_held (Reserve.is_debited e)

-- The state for the entry of the debit and that of the release.
abbrev pub reserve_by : Option ℕ → Option ℕ → Reserve
reserve_by (some e) (some f) = Reserve.is_both e f
reserve_by (some e) none = Reserve.is_debited e
reserve_by none (some f) = Reserve.is_released f
reserve_by none none = Reserve.is_held

-- What a row says of its reserve.
abbrev pub reserve_of : Request → Reserve
reserve_of r = reserve_by r.final_ledger_entry r.release_ledger_entry

-- A row and what it becomes: its id, user and reserved amount stay, and the machine makes a step.
pub record RowStep (r s : Request) : Type 0 where
  pub same_id : s.request_id ≡ r.request_id
  pub same_user : s.request_user ≡ r.request_user
  pub same_amount : s.coin_reserved_micros ≡ r.coin_reserved_micros
  pub moves : ReserveStep (reserve_of r) (reserve_of s)

abbrev pub Evolves : List Request → List Request → Type 0
Evolves [] [] = Unit
Evolves (r ∷ rows) (s ∷ others) = RowStep r s × Evolves rows others
Evolves _ _ = ⊥

-- Every row makes a step, or one row with a reserve that is held is added.
pub data Evolved (rows others : List Request) : Type 0 where
  evolves : Evolves rows others → Evolved rows others
  opens : (r : Request) → reserve_of r ≡ Reserve.is_held → others ≡ r ∷ rows → Evolved rows others

stays_RowStep : (r : Request) → RowStep r r
stays_RowStep r = record {
  same_id = refl;
  same_user = refl;
  same_amount = refl;
  moves = ReserveStep.stays;
}

Evolves-refl : (rows : List Request) → Evolves rows rows
Evolves-refl [] = tt
Evolves-refl (r ∷ rows) = (stays_RowStep r, Evolves-refl rows)

replace-Evolves :
    (front back : List Request) (r s : Request)
    → RowStep r s
    → Evolves (front ++ (r ∷ back)) (front ++ (s ∷ back))
replace-Evolves [] back r s h = (h, Evolves-refl back)
replace-Evolves (q ∷ front) back r s h = (stays_RowStep q, replace-Evolves front back r s h)

update-Evolved :
    (id : ℕ) (user : Option ℕ) (rows others : List Request) (r : Request)
    (change : Request → Request)
    → IsUnique rows
    → find_withdrawal_for_update id user rows ≡ some r
    → others ≡ update_request r.request_id change rows
    → RowStep r (change r)
    → Evolved rows others
update-Evolved id user rows others r change unique found wrote h =
    let place = find-Located id user rows r unique found in
    let whole = replace-Evolves place.front place.back r (change r) h in
    Evolved.evolves (rw (← place.split, ← (wrote ∙ place.changed change)) at whole)

none_of : (o : Option ℕ) → is_some o ≡ false → o ≡ none
none_of none h = refl
none_of (some n) h = cc

released_move :
    (final release : Option ℕ) (entry : ℕ)
    → final ≡ none
    → ReserveStep (reserve_by final release) (reserve_by final (some entry))
released_move none (some f) entry h = ReserveStep.records_again
released_move none none entry h = ReserveStep.releases
released_move (some e) release entry h = cc

right_false : (a b : Bool) → (a || b) ≡ false → b ≡ false
right_false true b h = cc
right_false false b h = h

coalesce_move :
    (host : WalletHost) (outcome : ProviderOutcome) (final old new : Option ℕ)
    → final ≡ none
    → ReserveStep (reserve_by final old) (reserve_by final (coalesce host outcome old new))
coalesce_move host outcome (some e) old new h = cc
coalesce_move host outcome none (some o) new h = ReserveStep.stays
coalesce_move host outcome none none none h = ReserveStep.stays
coalesce_move host outcome none none (some n) h = ReserveStep.releases

module _ (db db' : WalletDb) (unique : IsUnique db.requests) where
  Settled-Evolved :
      (host : WalletHost) (outcome : ProviderOutcome) (id : ℕ) (r : Request)
      → find_withdrawal_for_update id none db.requests ≡ some r
      → r.final_ledger_entry ≡ none
      → Settled host outcome r db db'
      → Evolved db.requests db'.requests
  unfolding failed_request completed_request
  Settled-Evolved host outcome id r found undebited (Settled.failed made) =
      update-Evolved id none db.requests db'.requests r _ unique found made.requests_of (record {
        same_id = refl;
        same_user = refl;
        same_amount = refl;
        moves = coalesce_move host outcome r.final_ledger_entry r.release_ledger_entry _ undebited;
      })
  Settled-Evolved host outcome id r found undebited (Settled.completed made) =
      update-Evolved id none db.requests db'.requests r _ unique found made.requests_of (record {
        same_id = refl;
        same_user = refl;
        same_amount = refl;
        moves = rw (undebited, made.unreleased) ReserveStep.debits;
      })

  Change-Evolved : Change db db' → Evolved db.requests db'.requests
  unfolding confirmed_request released_request approved_request
  Change-Evolved (Change.kept c same) = Evolved.evolves (rw same (Evolves-refl db.requests))
  Change-Evolved (Change.reserved host user made) = Evolved.opens _ refl made.requests_of
  Change-Evolved (Change.released host input made) =
      update-Evolved _ _ db.requests db'.requests made.r _ unique made.found made.requests_of
        (record {
          same_id = refl;
          same_user = refl;
          same_amount = refl;
          moves = released_move made.r.final_ledger_entry _ _ (
              none_of made.r.final_ledger_entry
                (right_false (not (is_releasable made.r.status)) _ made.unfinished));
        })
  Change-Evolved (Change.approved made) =
      update-Evolved _ _ db.requests db'.requests made.r _ unique made.found made.requests_of
        (record { same_id = refl; same_user = refl; same_amount = refl; moves = ReserveStep.stays })
  Change-Evolved (Change.reconciled host id made) =
      Settled-Evolved host made.outcome id made.r made.found made.undebited made.settled

-- Where no two requests have one id, the withdrawal service refines the machine of its reserves: a
-- call that succeeds adds one request, whose reserve is held, or lets every request keep its id,
-- user and reserved amount while its reserve stays as it is, entries included, or, if it was held,
-- becomes released or debited, or, if it was released, is released still, perhaps under another
-- entry. So a reserve that was released is never debited, and one that was debited keeps its entry
-- and is neither debited again nor released.
pub step-Evolved :
    (db db' : WalletDb)
    → IsUnique db.requests
    → WalletStep db db'
    → Evolved db.requests db'.requests
step-Evolved db db' unique made = Change-Evolved db db' unique (step-Change db db' made)
