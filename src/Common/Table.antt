-- ===== src/Common/Table.antt =====
-- A table as a list of rows with a key: what an update by the key leaves.
use mpulse.Common.Tests.{◌==◌, ==_iff, if◌then◌else◌, Bool-cases}
use mpulse.Common.Lists.{All}
use Prim.Native.Nat.{ℕ}
use mathlib.Core.Path.{◌≡◌, refl, sym, ap, ◌∙◌}
use mathlib.Core.Logic.{◌≢◌, inl, inr}
use mathlib.Core.List.{List, [], ◌∷◌, ◌++◌, map}

module _ {A : Type 0} (key : A → ℕ) where
  abbrev pub Absent : ℕ → List A → Type 0
  Absent k rows = All (λ x. key x ≢ k) rows

  -- No two rows have one key.
  abbrev pub IsUnique : List A → Type 0
  IsUnique [] = Unit
  IsUnique (x ∷ rows) = Absent (key x) rows × IsUnique rows

  -- `update ... where id = $1`
  abbrev pub amend : ℕ → (A → A) → List A → List A
  amend k change rows = map (λ x. if key x == k then change x else x) rows

  -- A row stands in the table.
  pub record Stands (x : A) (rows : List A) : Type 0 where
    pub front : List A
    pub back : List A
    pub split : rows ≡ front ++ (x ∷ back)

  amend-Absent :
      (k : ℕ) (change : A → A) (rows : List A) → Absent k rows → amend k change rows ≡ rows
  amend-Absent k change [] h = refl
  amend-Absent k change (x ∷ rows) h = elim (Bool-cases (key x == k)) [
    | inl same ↦ absurd (h.0 ((==_iff (key x) k).0 same))
    | inr other ↦ rw other (ap (λ rest. x ∷ rest) (amend-Absent k change rows h.1))
  ]

  All-here : (P : A → Type 0) (front back : List A) (x : A) → All P (front ++ (x ∷ back)) → P x
  All-here P [] back x h = h.0
  All-here P (y ∷ front) back x h = All-here P front back x h.1

  -- What holds of every row holds of one that stands in the table.
  pub Stands-All : (P : A → Type 0) (rows : List A) (x : A) → Stands x rows → All P rows → P x
  Stands-All P rows x place h = All-here P place.front place.back x (rw place.split at h)

  amend-Stands :
      (change : A → A) (x : A) (front back : List A)
      → IsUnique (front ++ (x ∷ back))
      → amend (key x) change (front ++ (x ∷ back)) ≡ front ++ (change x ∷ back)
  amend-Stands change x [] back unique =
      rw ((==_iff (key x) (key x)).1 refl)
        (ap (λ rest. change x ∷ rest) (amend-Absent (key x) change back unique.0))
  amend-Stands change x (y ∷ front) back unique = elim (Bool-cases (key y == key x)) [
    | inl same ↦ absurd (All-here _ front back x unique.0 (sym ((==_iff (key y) (key x)).0 same)))
    | inr other ↦ rw other (ap (λ rest. y ∷ rest) (amend-Stands change x front back unique.1))
  ]

  replace-All :
      (P : A → Type 0) (front back : List A) (x y : A)
      → P y
      → All P (front ++ (x ∷ back))
      → All P (front ++ (y ∷ back))
  replace-All P [] back x y p h = (p, h.1)
  replace-All P (z ∷ front) back x y p h = (h.0, replace-All P front back x y p h.1)

  replace-IsUnique :
      (front back : List A) (x y : A)
      → key y ≡ key x
      → IsUnique (front ++ (x ∷ back))
      → IsUnique (front ++ (y ∷ back))
  replace-IsUnique [] back x y same h = (rw same h.0, h.1)
  replace-IsUnique (z ∷ front) back x y same h = (
    replace-All _ front back x y (λ e. All-here _ front back x h.0 (sym same ∙ e)) h.0,
    replace-IsUnique front back x y same h.1,
  )

  -- An update of a row that stands in the table.
  module _ (rows : List A) (x : A) (unique : IsUnique rows) (place : Stands x rows)
      (change : A → A) where
    pub amended : amend (key x) change rows ≡ place.front ++ (change x ∷ place.back)
    amended =
        rw place.split (amend-Stands change x place.front place.back (rw place.split at unique))

    pub amend-All : (P : A → Type 0) → P (change x) → All P rows → All P (amend (key x) change rows)
    amend-All P p h =
        rw amended (replace-All P place.front place.back x (change x) p (rw place.split at h))

    pub amend-IsUnique : key (change x) ≡ key x → IsUnique (amend (key x) change rows)
    amend-IsUnique same =
        rw amended
          (replace-IsUnique place.front place.back x (change x) same (rw place.split at unique))

    pub amended-Stands : Stands (change x) (amend (key x) change rows)
    amended-Stands = record { front = place.front; back = place.back; split = amended }

  -- A change of many rows that keeps the keys.
  map-Absent :
      (change : A → A)
      → ((x : A) → key (change x) ≡ key x)
      → (k : ℕ) (rows : List A) → Absent k rows
      → Absent k (map change rows)
  map-Absent change same k [] h = tt
  map-Absent change same k (x ∷ rows) h =
      ((λ e. h.0 (sym (same x) ∙ e)), map-Absent change same k rows h.1)

  pub map-IsUnique :
      (change : A → A)
      → ((x : A) → key (change x) ≡ key x)
      → (rows : List A) → IsUnique rows
      → IsUnique (map change rows)
  map-IsUnique change same [] h = tt
  map-IsUnique change same (x ∷ rows) h =
      (rw (same x) (map-Absent change same (key x) rows h.0), map-IsUnique change same rows h.1)

  pub append-IsUnique :
      (rows : List A) (x : A) → Absent (key x) rows → IsUnique rows → IsUnique (rows ++ (x ∷ []))
  append-IsUnique [] x absent h = (tt, tt)
  append-IsUnique (y ∷ rows) x absent h =
      (append-All _ rows x (λ e. absent.0 (sym e)) h.0, append-IsUnique rows x absent.1 h.1)
    where
      append-All : (P : A → Type 0) (l : List A) (z : A) → P z → All P l → All P (l ++ (z ∷ []))
      append-All P [] z p hs = (p, tt)
      append-All P (w ∷ l) z p hs = (hs.0, append-All P l z p hs.1)
