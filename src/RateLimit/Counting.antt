-- ===== src/RateLimit/Counting.antt =====
-- How the operations of a limiter change what the open windows count.
use mpulse.Common.{
  ℕ, ◌+◌, ◌<◌, ◌≡◌, refl, ap, true, false, Option, none, some, List, [], ◌∷◌, inl, inr,
  if◌then◌else◌, ltb, leb, ◌==◌, arith, Bool-cases, All, sym, ==_iff,
}
use mpulse.RateLimit.{Bucket, prune, lookup, set_bucket, is_live, get_bucket, increment}

abbrev pub live_count : ℕ → Option Bucket → ℕ
live_count now none = 0
live_count now (some b) = if ltb now b.reset_at then b.count else 0

-- How often a key was let through in the window that is open now.
abbrev pub used : ℕ → ℕ → List Bucket → ℕ
used now key buckets = live_count now (lookup key (prune now buckets))

lookup-set : (b : Bucket) (bs : List Bucket) → lookup b.key (set_bucket b bs) ≡ some b
unfolding lookup set_bucket
lookup-set b [] = ground arith
lookup-set b (c ∷ bs) = ground (arith, lookup-set b bs)

pub bump : Bucket → Bucket
bump b = record b { count = b.count + 1 }

some_first :
    (k : ℕ) (b c : Bucket) (bs : List Bucket)
    → (c.key == k) ≡ true
    → lookup k (c ∷ bs) ≡ some b
    → c ≡ b
unfolding lookup
some_first k b c bs here h = let h' : some c ≡ some b = rw here at h in cc

some_later :
    (k : ℕ) (b c : Bucket) (bs : List Bucket)
    → (c.key == k) ≡ false
    → lookup k (c ∷ bs) ≡ some b
    → lookup k bs ≡ some b
unfolding lookup
some_later k b c bs other h = rw other at h

lookup-increment :
    (k : ℕ) (b : Bucket) (bs : List Bucket)
    → lookup k bs ≡ some b
    → lookup k (increment k bs) ≡ some (bump b)
unfolding lookup increment bump
lookup-increment k b [] h = cc
lookup-increment k b (c ∷ bs) h = elim (Bool-cases (c.key == k)) [
  | inl here ↦ rw here (rw here (ap (λ x. some (bump x)) (some_first k b c bs here h)))
  | inr other ↦ rw other (rw other (lookup-increment k b bs (some_later k b c bs other h)))
]

-- Every bucket is in a window that is open.
abbrev pub IsLive : ℕ → List Bucket → Type 0
IsLive now bs = All (λ b. now < b.reset_at) bs

pub prune-IsLive : (now : ℕ) (bs : List Bucket) → IsLive now (prune now bs)
unfolding prune
prune-IsLive now [] = tt
prune-IsLive now (b ∷ bs) =
    let rest = prune-IsLive now bs in
    elim (Bool-cases (leb b.reset_at now)) [
      | inl over ↦ rw over rest
      | inr open_still ↦ rw open_still (ground arith, rest)
    ]

IsLive-prune : (now : ℕ) (bs : List Bucket) → IsLive now bs → prune now bs ≡ bs
unfolding prune
IsLive-prune now [] h = refl
IsLive-prune now (b ∷ bs) (live, rest) =
    let same = IsLive-prune now bs rest in
    let open_still : leb b.reset_at now ≡ false = ground arith in
    rw open_still (ap (λ l. b ∷ l) same)

-- Where every bucket is live, nothing is pruned when the calls of a key are counted.
pub used-live :
    (now k : ℕ) (bs : List Bucket) → IsLive now bs → used now k bs ≡ live_count now (lookup k bs)
used-live now k bs h = ap (λ l. live_count now (lookup k l)) (IsLive-prune now bs h)

set_bucket-IsLive :
    (now : ℕ) (b : Bucket) (bs : List Bucket)
    → now < b.reset_at
    → IsLive now bs
    → IsLive now (set_bucket b bs)
unfolding set_bucket
set_bucket-IsLive now b [] live h = (live, tt)
set_bucket-IsLive now b (c ∷ bs) live (first, rest) =
    let later = set_bucket-IsLive now b bs live rest in
    elim (Bool-cases (c.key == b.key)) [
      | inl here ↦ rw here (live, rest)
      | inr other ↦ rw other (first, later)
    ]

pub get_bucket-IsLive :
    (window now k : ℕ) (bs : List Bucket)
    → 0 < window
    → IsLive now bs
    → IsLive now (get_bucket window now k bs)
unfolding get_bucket
get_bucket-IsLive window now k bs h live = elim (Bool-cases (is_live now (lookup k bs))) [
  | inl there ↦ rw there live
  | inr missing ↦ rw missing (set_bucket-IsLive now _ bs (omega (arith, h)) live)
]

pub increment-IsLive : (now k : ℕ) (bs : List Bucket) → IsLive now bs → IsLive now (increment k bs)
unfolding increment
increment-IsLive now k [] h = tt
increment-IsLive now k (b ∷ bs) (first, rest) =
    let later = increment-IsLive now k bs rest in
    elim (Bool-cases (b.key == k)) [
      | inl here ↦ rw here (first, rest)
      | inr other ↦ rw other (first, later)
    ]

lookup-set_other :
    (k : ℕ) (b : Bucket) (bs : List Bucket)
    → (b.key == k) ≡ false
    → lookup k (set_bucket b bs) ≡ lookup k bs
unfolding lookup set_bucket
lookup-set_other k b [] h = rw h refl
lookup-set_other k b (c ∷ bs) h =
    let later = lookup-set_other k b bs h in
    elim (Bool-cases (c.key == b.key)) [
      | inl here ↦
          let same : (c.key == k) ≡ false = rw (← (==_iff c.key b.key).0 here) at h in
          rw (here, h, same) refl
      | inr other ↦ rw (other, later) refl
    ]

lookup-increment_other :
    (k j : ℕ) (bs : List Bucket) → (j == k) ≡ false → lookup k (increment j bs) ≡ lookup k bs
unfolding lookup increment
lookup-increment_other k j [] h = refl
lookup-increment_other k j (c ∷ bs) h =
    let later = lookup-increment_other k j bs h in
    elim (Bool-cases (c.key == j)) [
      | inl here ↦
          let same : (c.key == k) ≡ false = rw (← (==_iff c.key j).0 here) at h in
          rw (here, same) refl
      | inr other ↦ rw (other, later) refl
    ]

not_live_count : (now : ℕ) (o : Option Bucket) → is_live now o ≡ false → live_count now o ≡ 0
not_live_count now none h = refl
not_live_count now (some b) h = rw h refl

-- A bucket that is found live.
pub live_bucket :
    (now : ℕ) (o : Option Bucket)
    → is_live now o ≡ true
    → (b : Bucket) × (o ≡ some b) × (ltb now b.reset_at ≡ true)
live_bucket now none h = cc
live_bucket now (some b) h = (b, refl, h)

-- The bucket of a key, after the buckets were got: it is live, and what each key counts is kept.
module _ (window now j : ℕ) (bs : List Bucket) (some_window : 0 < window) where
  pub get_bucket-own : is_live now (lookup j (get_bucket window now j bs)) ≡ true
  unfolding get_bucket
  get_bucket-own = elim (Bool-cases (is_live now (lookup j bs))) [
    | inl there ↦ rw there there
    | inr missing ↦
        let b : Bucket = record { key = j; count = 0; reset_at = now + window } in
        let open_now : ltb now (now + window) ≡ true = ground arith in
        rw (missing, lookup-set b bs) open_now
  ]

  pub get_bucket-others :
      (k : ℕ)
      → is_live now (lookup k bs) ≡ true
      → is_live now (lookup k (get_bucket window now j bs)) ≡ true
  unfolding get_bucket
  get_bucket-others k live = elim (Bool-cases (is_live now (lookup j bs))) [
    | inl there ↦ rw there live
    | inr missing ↦ elim (Bool-cases (j == k)) [
      | inl same ↦ let e = (==_iff j k).0 same in cc (rw e at missing)
      | inr other ↦
          rw
            (
              missing,
              lookup-set_other k (record { key = j; count = 0; reset_at = now + window }) bs other,
            )
            live
    ]
  ]

  pub get_bucket-count :
      (k : ℕ)
      → live_count now (lookup k (get_bucket window now j bs)) ≡ live_count now (lookup k bs)
  unfolding get_bucket
  get_bucket-count k = elim (Bool-cases (is_live now (lookup j bs))) [
    | inl there ↦ rw there refl
    | inr missing ↦
        let b : Bucket = record { key = j; count = 0; reset_at = now + window } in
        elim (Bool-cases (j == k)) [
          | inl same ↦
              let e = (==_iff j k).0 same in
              let open_now : ltb now (now + window) ≡ true = ground arith in
              rw missing (
                rw (← e)
                  (rw (lookup-set b bs, open_now) (sym (not_live_count now (lookup j bs) missing))))
          | inr other ↦ rw (missing, lookup-set_other k b bs other) refl
        ]
  ]

-- A call is counted for its key, and for no other.
module _ (now j : ℕ) (bs : List Bucket) (live : is_live now (lookup j bs) ≡ true) where
  pub increment-others :
      (k : ℕ) → is_live now (lookup k bs) ≡ true → is_live now (lookup k (increment j bs)) ≡ true
  increment-others k there = elim (Bool-cases (j == k)) [
    | inl same ↦
        let (b, found, open_now) = live_bucket now (lookup j bs) live in
        rw (← (==_iff j k).0 same) (rw (lookup-increment j b bs found) (unfold bump in open_now))
    | inr other ↦ rw (lookup-increment_other k j bs other) there
  ]

  pub increment-count :
      (k : ℕ)
      → live_count now (lookup k (increment j bs))
        ≡ live_count now (lookup k bs) + (if j == k then 1 else 0)
  increment-count k = elim (Bool-cases (j == k)) [
    | inl same ↦
        let (b, found, open_now) = live_bucket now (lookup j bs) live in
        rw same (
          rw (← (==_iff j k).0 same)
            (rw (lookup-increment j b bs found, found) (unfold bump in rw open_now refl)))
    | inr other ↦ rw (other, lookup-increment_other k j bs other) (omega arith)
  ]
