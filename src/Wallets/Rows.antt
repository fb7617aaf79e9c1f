-- ===== src/Wallets/Rows.antt =====
-- The table of requests: the row that an operation finds, and what an update of it leaves.
use mpulse.Common.{
  ℕ, ◌≡◌, ◌≢◌, refl, sym, ap, ◌∙◌, Bool, true, false, ◌&&◌, ◌||◌, Option, some, List, [], ◌∷◌, ◌++◌,
  inl, inr, ◌==◌, All, Bool-cases, ==_iff,
}
use mpulse.Common.Table
use mpulse.Common.Table.{Stands, amended, amend-All, amend-IsUnique}
use mpulse.Wallets.Types.{Request}
use mpulse.Wallets.Store.{
  is_withdrawal_of, find_withdrawal_for_update, update_request, request_clashes,
}

abbrev pub key : Request → ℕ
key r = r.request_id

-- No two rows have one id.
abbrev pub IsUnique : List Request → Type 0
IsUnique = Table.IsUnique key

pub some_injective : (q r : Request) → some q ≡ some r → q ≡ r
some_injective q r h = cc

find-Stands :
    (id : ℕ) (user : Option ℕ) (requests : List Request) (r : Request)
    → find_withdrawal_for_update id user requests ≡ some r
    → Stands key r requests
unfolding find_withdrawal_for_update
find-Stands id user [] r h = cc
find-Stands id user (q ∷ requests) r h =
    elim (Bool-cases (q.request_id == id && is_withdrawal_of user q)) [
      | inl this ↦
          let same = some_injective q r (rw this at h) in
          record { front = []; back = requests; split = rw same refl }
      | inr next ↦
          let there = find-Stands id user requests r (rw next at h) in
          record { front = q ∷ there.front; back = there.back; split = ap (λ l. q ∷ l) there.split }
    ]

-- Where a row stands, and the table with that row changed.
pub record Located (r : Request) (requests : List Request) : Type 0 where
  pub front : List Request
  pub back : List Request
  pub split : requests ≡ front ++ (r ∷ back)
  pub changed :
      (change : Request → Request)
      → update_request r.request_id change requests ≡ front ++ (change r ∷ back)

-- An update of the row that was found, which keeps its id, keeps what holds of every row.
module _ (id : ℕ) (user : Option ℕ) (requests : List Request) (r : Request)
    (unique : IsUnique requests)
    (found : find_withdrawal_for_update id user requests ≡ some r) where
  pub find-Located : Located r requests
  unfolding update_request
  find-Located =
      let place = find-Stands id user requests r found in
      record {
        front = place.front;
        back = place.back;
        split = place.split;
        changed = amended key requests r unique place;
      }

  pub update-All :
      (change : Request → Request) (P : Request → Type 0)
      → P (change r)
      → All P requests
      → All P (update_request r.request_id change requests)
  unfolding update_request
  update-All change P held h =
      amend-All key requests r unique (find-Stands id user requests r found) change P held h

  pub update-IsUnique :
      (change : Request → Request)
      → (change r).request_id ≡ r.request_id
      → IsUnique (update_request r.request_id change requests)
  unfolding update_request
  update-IsUnique change same =
      amend-IsUnique key requests r unique (find-Stands id user requests r found) change same

  pub found-All : (P : Request → Type 0) → All P requests → P r
  found-All P h = Table.Stands-All key P requests r (find-Stands id user requests r found) h

true-false : true ≢ false
true-false e = cc

or_false : (a b c : Bool) → (a || b || c) ≡ false → (a ≡ false) × (c ≡ false)
or_false true b c h = cc
or_false false true c h = cc
or_false false false c h = (refl, h)

-- A row that was inserted has an id of its own.
pub request_clashes-Absent :
    (r : Request) (requests : List Request)
    → request_clashes r requests ≡ false
    → Table.Absent key r.request_id requests
unfolding request_clashes
request_clashes-Absent r [] h = tt
request_clashes-Absent r (q ∷ requests) h =
    let (other, rest) = or_false (q.request_id == r.request_id) _ _ h in
    (
      λ e. absurd (true-false (sym ((==_iff q.request_id r.request_id).1 e) ∙ other)),
      request_clashes-Absent r requests rest,
    )
