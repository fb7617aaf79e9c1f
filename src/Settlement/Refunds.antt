-- ===== src/Settlement/Refunds.antt =====
-- A committed settlement credits every user with exactly what the user's positions cost.
use mpulse.Common.{
  ℕ, suc, ◌+◌, ◌≡◌, ◌≢◌, refl, sym, ap, ◌∙◌, Bool, true, false, ◌&&◌, ◌||◌, none, List, [], ◌∷◌,
  ◌++◌, map, inl, inr, Result, ok, err, arith, ◌==◌, if◌then◌else◌, Bool-cases, >>=-eq-ok, filter,
}
use mpulse.Common.Int.{ℤ, pos, ◌+ℤ◌, int_laws}
use mpulse.Common.Text.{Text, codes}
use mpulse.Common.Equality.{from_dec, from_dec→eq, Text-discrete}
use mpulse.Coins.Types.{Movement, Entry, CoinDb, CoinLedgerError}
use mpulse.Coins.Posting.{find_entry}
use mpulse.Coins.Accounts.{amounts_of}
use mpulse.Coins.Effects.{Moved, post_entry-Moved, post_entry-entries}
use mpulse.Coins.Repository.{post_entry}
use mpulse.Settlement.Types.{
  SettlementSide, same_side, Stake, Draft, CommitInput, SettlementError, Host,
}
use mpulse.Settlement.Plan.{
  refund_payout, refund_payouts, payout_key, payout_draft, is_positive, side_text,
}
use mpulse.Settlement.Commit.{post_draft, post_drafts}
use mpulse.Settlement.Stakes.{user_stake, has_stake, IsDistinct, same_side→eq}

append_cancel : (xs ys zs : Text) → xs ++ ys ≡ xs ++ zs → ys ≡ zs
append_cancel [] ys zs h = h
append_cancel (x ∷ xs) ys zs h = append_cancel xs ys zs (cc)

or_right : (a b : Bool) → b ≡ true → (a || b) ≡ true
or_right true b h = refl
or_right false b h = h

find_entry-cons_ne :
    (user : ℕ) (key : Text) (e : Entry) (entries : List Entry)
    → ¬ ((e.movement.user_id ≡ user) × (e.movement.idempotency_key ≡ key))
    → find_entry user key (e ∷ entries) ≡ find_entry user key entries
unfolding find_entry
find_entry-cons_ne user key e entries h =
    elim (Bool-cases
      (e.movement.user_id == user && from_dec (Text-discrete e.movement.idempotency_key key))) [
        | inl same ↦ absurd (
            h (
              ground (arith),
              from_dec→eq (Text-discrete e.movement.idempotency_key key) (ground arith),
            ))
        | inr other ↦ rw other
      ]

add_zero : (z : ℤ) → z +ℤ pos 0 ≡ z
add_zero z = omega int_laws

add_pos : (z : ℤ) (a b : ℕ) → (z +ℤ pos a) +ℤ pos b ≡ z +ℤ pos (a + b)
add_pos z a b = omega (arith, int_laws)

-- A movement of an available credit alone, seen by every user.
Moved-credit :
    (m : Movement) (x : ℕ) (db db' : CoinDb)
    → m.available_delta ≡ pos x
    → m.reserved_delta ≡ pos 0
    → Moved m db db'
    → (u : ℕ)
    → ◌≡◌ {A = ℤ × ℤ} (amounts_of u db'.accounts) (
      (amounts_of u db.accounts).0 +ℤ pos (if m.user_id == u then x else 0),
      (amounts_of u db.accounts).1,
    )
Moved-credit m x db db' ea er moved u = elim (Bool-cases (m.user_id == u)) [
  | inl same ↦
      let e : m.user_id ≡ u = ground arith in
      rw same (
        rw (← e) (
          rw (ea, er) at moved.self
          ∙ ap (λ z. ((amounts_of m.user_id db.accounts).0 +ℤ pos x, z)) (add_zero _)))
  | inr other ↦ rw other (
      moved.others u (λ e. ground arith)
      ∙ ap (λ z. (z, (amounts_of u db.accounts).1)) (sym (add_zero _)))
]

post_draft-eq-ok :
    (m : Movement) (coins : CoinDb) (p : Entry × CoinDb)
    → post_draft m coins ≡ ok p
    → post_entry m coins ≡ ok p
unfolding post_draft
post_draft-eq-ok m coins p h = ok_of (post_entry m coins) h
  where
    ok_of :
        (r : Result CoinLedgerError (Entry × CoinDb))
        → elim r [ ok posted ↦ ok posted | err e ↦ err (SettlementError.coin_ledger_error e) ]
          ≡ ok p
        → r ≡ ok p
    ok_of (ok q) k = cc
    ok_of (err e) k = cc

module _ (host : Host) (input : CommitInput) where
  sides_differ : side_text SettlementSide.yes_side ≢ side_text SettlementSide.no_side
  unfolding side_text
  sides_differ h = cc

  payout_key_tail :
      (u : ℕ) (a b : SettlementSide)
      → payout_key host input u a ≡ payout_key host input u b
      → side_text a ≡ side_text b
  unfolding payout_key
  payout_key_tail u a b h =
      append_cancel
        (codes "settlement:" ++ input.input_market ++ codes ":" ++ host.uuid_text u ++ codes ":")
        (side_text a) (side_text b) h

  -- For one user the key tells the sides apart.
  payout_key_side :
      (u : ℕ) (a b : SettlementSide)
      → payout_key host input u a ≡ payout_key host input u b
      → same_side a b ≡ true
  unfolding same_side
  payout_key_side u SettlementSide.yes_side SettlementSide.yes_side h = refl
  payout_key_side u SettlementSide.yes_side SettlementSide.no_side h =
      absurd (sides_differ (payout_key_tail u _ _ h))
  payout_key_side u SettlementSide.no_side SettlementSide.yes_side h =
      absurd (sides_differ (sym (payout_key_tail u _ _ h)))
  payout_key_side u SettlementSide.no_side SettlementSide.no_side h = refl

  abbrev pub drafts_of : ℕ → List Stake → List Draft
  drafts_of n grouped =
      map (payout_draft host input) (filter is_positive (refund_payouts host input n grouped))

  -- The keys of the stakes that are still to be paid are not used in the ledger.
  abbrev IsUnused : List Stake → CoinDb → Type 0
  IsUnused grouped coins =
      (u : ℕ) (side : SettlementSide)
      → has_stake u side grouped ≡ true
      → find_entry u (payout_key host input u side) coins.entries ≡ none

  abbrev movement_of : ℕ → Stake → Movement
  movement_of n s = (payout_draft host input (refund_payout host input n s)).draft_movement

  movement_of-fields :
      (n : ℕ) (s : Stake)
      → ((movement_of n s).user_id ≡ s.stake_user)
        × ((movement_of n s).idempotency_key ≡ payout_key host input s.stake_user s.stake_side)
        × ((movement_of n s).available_delta ≡ pos s.original_stake_coin_micros)
        × ((movement_of n s).reserved_delta ≡ pos 0)
  unfolding payout_draft refund_payout
  movement_of-fields n s = (refl, refl, refl, refl)

  IsUnused-rest :
      (n : ℕ) (s : Stake) (grouped : List Stake) (coins : CoinDb) (posted : Entry × CoinDb)
      → IsDistinct (s ∷ grouped)
      → IsUnused (s ∷ grouped) coins
      → find_entry (movement_of n s).user_id (movement_of n s).idempotency_key coins.entries ≡ none
      → post_entry (movement_of n s) coins ≡ ok posted
      → IsUnused grouped posted.1
  IsUnused-rest n s grouped coins posted distinct unused fresh h u side held =
      let (entries, moved) = post_entry-entries (movement_of n s) coins posted fresh h in
      let fields = movement_of-fields n s in
      rw entries (
        find_entry-cons_ne u (payout_key host input u side) posted.0 coins.entries
          (λ same. clash fields moved same)
        ∙ unused u side (or_right _ _ held))
    where
      clash :
          ((movement_of n s).user_id ≡ s.stake_user)
            × ((movement_of n s).idempotency_key ≡ payout_key host input s.stake_user s.stake_side)
            × ((movement_of n s).available_delta ≡ pos s.original_stake_coin_micros)
            × ((movement_of n s).reserved_delta ≡ pos 0)
          → posted.0.movement ≡ movement_of n s
          → (posted.0.movement.user_id ≡ u)
            × (posted.0.movement.idempotency_key ≡ payout_key host input u side)
          → ⊥
      clash fields moved same =
          let eu : s.stake_user ≡ u =
            sym fields.0 ∙ ap (λ (m : Movement). m.user_id) (sym moved) ∙ same.0 in
          let ek : payout_key host input s.stake_user s.stake_side ≡ payout_key host input u side =
            sym fields.1 ∙ ap (λ (m : Movement). m.idempotency_key) (sym moved) ∙ same.1 in
          let es : s.stake_side ≡ side = same_side→eq s.stake_side side (
            payout_key_side s.stake_user s.stake_side side
              (ek ∙ ap (λ v. payout_key host input v side) (sym eu))) in
          let back : has_stake s.stake_user s.stake_side grouped ≡ true =
            ap (λ v. has_stake v s.stake_side grouped) eu
            ∙ ap (λ v. has_stake u v grouped) es
            ∙ held in
          absurd (ground arith)

  movement-unused :
      (n : ℕ) (s : Stake) (grouped : List Stake) (coins : CoinDb)
      → IsUnused (s ∷ grouped) coins
      → find_entry (movement_of n s).user_id (movement_of n s).idempotency_key coins.entries ≡ none
  unfolding payout_draft refund_payout same_side
  movement-unused n s grouped coins unused = unused s.stake_user s.stake_side (own s.stake_side)
    where
      own :
          (side : SettlementSide)
          → (s.stake_user == s.stake_user && same_side side side
              || has_stake s.stake_user side grouped)
            ≡ true
      own SettlementSide.yes_side = ground arith
      own SettlementSide.no_side = ground arith

  no_stake :
      (n : ℕ) (s : Stake) (u : ℕ) (grouped : List Stake)
      → is_positive (refund_payout host input n s) ≡ false
      → user_stake u grouped ≡ user_stake u (s ∷ grouped)
  unfolding refund_payout
  no_stake n s u grouped unpaid = ground arith

  stake-credit :
      (n : ℕ) (s : Stake) (coins : CoinDb) (posted : Entry × CoinDb)
      → find_entry (movement_of n s).user_id (movement_of n s).idempotency_key coins.entries ≡ none
      → post_entry (movement_of n s) coins ≡ ok posted
      → (u : ℕ)
      → ◌≡◌ {A = ℤ × ℤ} (amounts_of u posted.1.accounts) (
        (amounts_of u coins.accounts).0
            +ℤ pos (if s.stake_user == u then s.original_stake_coin_micros else 0),
        (amounts_of u coins.accounts).1,
      )
  unfolding payout_draft refund_payout
  stake-credit n s coins posted fresh entry u =
      Moved-credit (movement_of n s) s.original_stake_coin_micros coins posted.1 refl refl
        (post_entry-Moved (movement_of n s) coins posted fresh entry) u

  pub post_drafts-pays :
      (n : ℕ) (grouped : List Stake) (ids : List (ℕ × ℕ)) (coins : CoinDb)
      (out : List (ℕ × ℕ) × CoinDb)
      → IsDistinct grouped
      → IsUnused grouped coins
      → post_drafts (drafts_of n grouped) ids coins ≡ ok out
      → (u : ℕ)
      → ◌≡◌ {A = ℤ × ℤ} (amounts_of u out.1.accounts) (
        (amounts_of u coins.accounts).0 +ℤ pos (user_stake u grouped),
        (amounts_of u coins.accounts).1,
      )
  unfolding refund_payouts post_drafts
  post_drafts-pays n [] ids coins out distinct unused h u =
      let e : coins ≡ out.1 = cc in
      rw (← e) (ap (λ z. (z, (amounts_of u coins.accounts).1)) (sym (add_zero _)))
  post_drafts-pays n (s ∷ grouped) ids coins out distinct unused h u =
      elim (Bool-cases (is_positive (refund_payout host input n s))) [
        | inl paid ↦
            let h' : post_drafts
                  (payout_draft host input (refund_payout host input n s)
                    ∷ drafts_of (suc n) grouped)
                  ids coins
                ≡ ok out =
              rw paid at h in
            let (posted, first, rest) = >>=-eq-ok (post_draft (movement_of n s) coins) _ h' in
            let entry = post_draft-eq-ok (movement_of n s) coins posted first in
            let fresh = movement-unused n s grouped coins unused in
            let ih =
              post_drafts-pays (suc n) grouped _ posted.1 out distinct.1
                (IsUnused-rest n s grouped coins posted distinct unused fresh entry) rest u in
            ih
            ∙ ap (λ (q : ℤ × ℤ). (q.0 +ℤ pos (user_stake u grouped), q.1))
                (stake-credit n s coins posted fresh entry u)
            ∙ ap (λ z. (z, (amounts_of u coins.accounts).1))
                (add_pos (amounts_of u coins.accounts).0 _ (user_stake u grouped))
        | inr unpaid ↦
            let h' : post_drafts (drafts_of (suc n) grouped) ids coins ≡ ok out = rw unpaid at h in
            let ih =
              post_drafts-pays (suc n) grouped ids coins out distinct.1
                (λ v side held. unused v side (or_right _ _ held)) h' u in
            ih
            ∙ ap
                (λ (x : ℕ).
                  ((amounts_of u coins.accounts).0 +ℤ pos x, (amounts_of u coins.accounts).1))
                (no_stake n s u grouped unpaid)
      ]
