-- ===== src/Outbox/Picked.antt =====
-- The rows that a statement picks are rows of the table that passed its test.
use mpulse.Common.{
  ℕ, zero, suc, ◌≡◌, ◌≢◌, ◌⊎◌, refl, sym, ap, ◌∙◌, Bool, true, false, not, ◌&&◌, ◌||◌, [], ◌∷◌, map,
  inl, inr, arith, ◌==◌, Bool-cases, filter, take, All,
}
use mpulse.Outbox.Types.{OutboxRow, Table}
use mpulse.Outbox.Repository.{is_before, insert_row, order_rows, has_id, picked}

abbrev pub IsUnique : Table → Type 0
IsUnique [] = Unit
IsUnique (r ∷ rows) = (has_id r.id rows ≡ false) × IsUnique rows

abbrev pub Member : OutboxRow → Table → Type 0
Member r [] = ⊥
Member r (q ∷ rows) = (q ≡ r) ⊎ Member r rows

pub false-true : false ≢ true
false-true e = cc

Member-has_id : (r : OutboxRow) (t : Table) → Member r t → has_id r.id t ≡ true
unfolding has_id
Member-has_id r [] m = absurd m
Member-has_id r (q ∷ t) (inl e) = rw e (ground arith)
Member-has_id r (q ∷ t) (inr m) = ground (arith, Member-has_id r t m)

has_id-take : (i n : ℕ) (t : Table) → has_id i (take n t) ≡ true → has_id i t ≡ true
unfolding has_id
has_id-take i zero t h = cc
has_id-take i (suc n) [] h = h
has_id-take i (suc n) (r ∷ t) h = ground (arith, has_id-take i n t)

has_id-insert : (i : ℕ) (r : OutboxRow) (t : Table) → has_id i (insert_row r t) ≡ has_id i (r ∷ t)
unfolding has_id insert_row
has_id-insert i r [] = refl
has_id-insert i r (q ∷ t) = elim (Bool-cases (is_before q r)) [
  | inl later ↦ rw (later, has_id-insert i r t) (ground arith)
  | inr here ↦ rw here refl
]

has_id-order : (i : ℕ) (t : Table) → has_id i (order_rows t) ≡ has_id i t
unfolding has_id order_rows
has_id-order i [] = refl
has_id-order i (r ∷ t) = has_id-insert i r (order_rows t) ∙ rw (has_id-order i t) refl

has_id-filter :
    (i : ℕ) (test : OutboxRow → Bool) (t : Table)
    → has_id i (filter test t) ≡ true
    → has_id i t ≡ true
unfolding has_id
has_id-filter i test [] h = h
has_id-filter i test (r ∷ t) h = elim (Bool-cases (test r)) [
  | inl kept ↦ let h' = rw kept at h in ground (arith, has_id-filter i test t)
  | inr left ↦ let h' = rw left at h in ground (arith, has_id-filter i test t h')
]

filter-test :
    (test : OutboxRow → Bool) (t : Table) (r : OutboxRow)
    → IsUnique t
    → Member r t
    → has_id r.id (filter test t) ≡ true
    → test r ≡ true
unfolding has_id
filter-test test [] r unique m h = absurd m
filter-test test (q ∷ t) r unique (inl e) h = elim (Bool-cases (test q)) [
  | inl kept ↦ rw (← e) kept
  | inr left ↦
      let h' : has_id r.id (filter test t) ≡ true = rw left at h in
      let back = has_id-filter r.id test t h' in
      let clash : has_id r.id t ≡ false = rw (← e) unique.0 in cc
]
filter-test test (q ∷ t) r unique (inr m) h = elim (Bool-cases (test q)) [
  | inl kept ↦
      let h' : (q.id == r.id || has_id r.id (filter test t)) ≡ true = rw kept at h in
      elim (Bool-cases (q.id == r.id)) [
        | inl same ↦
            let e : q.id ≡ r.id = ground arith in
            let held : has_id q.id t ≡ true = rw e (Member-has_id r t m) in
            let clash = unique.0 in cc
        | inr other ↦ filter-test test t r unique.1 m (rw other at h')
      ]
  | inr left ↦
      let h' : has_id r.id (filter test t) ≡ true = rw left at h in
      filter-test test t r unique.1 m h'
]

-- A row that was picked passed the test.
pub picked-test :
    (test : OutboxRow → Bool) (held : ℕ → Bool) (limit : ℕ) (t : Table) (r : OutboxRow)
    → IsUnique t
    → Member r t
    → has_id r.id (picked test held limit t) ≡ true
    → test r ≡ true
unfolding picked
picked-test test held limit t r unique m h =
    let found = has_id-take r.id limit _ h in
    let here = sym (has_id-order r.id (filter (λ q. test q && not (held q.id)) t)) ∙ found in
    let both = filter-test (λ q. test q && not (held q.id)) t r unique m here in
    ground (arith, both)

module _ (f : OutboxRow → OutboxRow) (same_id : (r : OutboxRow) → (f r).id ≡ r.id) where
  pub has_id-map : (i : ℕ) (t : Table) → has_id i (map f t) ≡ has_id i t
  unfolding has_id
  has_id-map i [] = refl
  has_id-map i (r ∷ t) = rw (same_id r, has_id-map i t) refl

  pub map-IsUnique : (t : Table) → IsUnique t → IsUnique (map f t)
  map-IsUnique [] u = tt
  map-IsUnique (r ∷ t) u = (rw (same_id r) (has_id-map r.id t ∙ u.0), map-IsUnique t u.1)

-- A change of the rows that passed a test, each of which it keeps sound, keeps a table sound.
pub map-All :
    (P : OutboxRow → Type 0) (f : OutboxRow → OutboxRow) (t : Table)
    → ((r : OutboxRow) → Member r t → P r → P (f r))
    → All P t
    → All P (map f t)
map-All P f [] keep a = tt
map-All P f (r ∷ t) keep a = (keep r (inl refl) a.0, map-All P f t (λ q m. keep q (inr m)) a.1)

pub map-Member :
    (f : OutboxRow → OutboxRow) (t : Table) (r : OutboxRow) → Member r t → Member (f r) (map f t)
map-Member f [] r m = absurd m
map-Member f (q ∷ t) r (inl e) = inl (ap f e)
map-Member f (q ∷ t) r (inr m) = inr (map-Member f t r m)
