-- ===== src/RateLimit/Deciding.antt =====
-- A limiter lets a call through exactly while the window of each of its keys has room.
use mpulse.Common.{
  ℕ, ◌+◌, ◌<◌, ◌≡◌, refl, ap, ◌∙◌, Bool, true, false, ◌&&◌, ◌||◌, none, some, List, [], ◌∷◌, inl,
  inr, if◌then◌else◌, ltb, leb, ◌==◌, arith, Bool-cases, All,
}
use mpulse.RateLimit.{
  Bucket, prune, lookup, is_live, get_bucket, get_buckets, find_limited, increment, increment_all,
  answer_check, check,
}
use mpulse.RateLimit.Counting.{
  live_count, used, IsLive, prune-IsLive, used-live, get_bucket-IsLive, increment-IsLive,
  live_bucket, get_bucket-own, get_bucket-others, get_bucket-count, increment-others,
  increment-count,
}

-- Each key was let through less often than the bound in its open window.
abbrev pub has_room : ℕ → ℕ → List ℕ → List Bucket → Bool
has_room max now [] buckets = true
has_room max now (key ∷ keys) buckets =
    ltb (used now key buckets) max && has_room max now keys buckets

-- How often a key stands in a list.
abbrev pub times : ℕ → List ℕ → ℕ
times key [] = 0
times key (k ∷ keys) = (if k == key then 1 else 0) + times key keys

-- The bucket of each key is there and live.
abbrev AreThere : ℕ → List ℕ → List Bucket → Type 0
AreThere now keys bs = All (λ k. is_live now (lookup k bs) ≡ true) keys

there-others :
    (now : ℕ) (keys : List ℕ) (bs cs : List Bucket)
    → ((k : ℕ) → is_live now (lookup k bs) ≡ true → is_live now (lookup k cs) ≡ true)
    → AreThere now keys bs
    → AreThere now keys cs
there-others now [] bs cs keeps h = tt
there-others now (k ∷ keys) bs cs keeps (first, rest) =
    (keeps k first, there-others now keys bs cs keeps rest)

module _ (window now : ℕ) (some_window : 0 < window) where
  get_buckets-keeps :
      (keys : List ℕ) (bs : List Bucket)
      → IsLive now bs
      → IsLive now (get_buckets window now keys bs)
        × ((k : ℕ)
            → live_count now (lookup k (get_buckets window now keys bs))
              ≡ live_count now (lookup k bs))
        × ((k : ℕ)
            → is_live now (lookup k bs) ≡ true
            → is_live now (lookup k (get_buckets window now keys bs)) ≡ true)
  unfolding get_buckets
  get_buckets-keeps [] bs live = (live, (λ k. refl), (λ k there. there))
  get_buckets-keeps (j ∷ keys) bs live =
      let (still, counted, found) =
        get_buckets-keeps keys (get_bucket window now j bs)
          (get_bucket-IsLive window now j bs some_window live) in
      (
        still,
        (λ k. counted k ∙ get_bucket-count window now j bs some_window k),
        (λ k there. found k (get_bucket-others window now j bs some_window k there)),
      )

  get_buckets-there :
      (keys : List ℕ) (bs : List Bucket)
      → IsLive now bs
      → AreThere now keys (get_buckets window now keys bs)
  unfolding get_buckets
  get_buckets-there [] bs live = tt
  get_buckets-there (j ∷ keys) bs live =
      let next = get_bucket-IsLive window now j bs some_window live in
      let (still, counted, found) = get_buckets-keeps keys (get_bucket window now j bs) next in
      (
        found j (get_bucket-own window now j bs some_window),
        get_buckets-there keys (get_bucket window now j bs) next,
      )

-- Counting a call for every key of a list.
increment_all-counts :
    (now : ℕ) (keys : List ℕ) (bs : List Bucket)
    → IsLive now bs
    → AreThere now keys bs
    → IsLive now (increment_all keys bs)
      × ((k : ℕ)
          → live_count now (lookup k (increment_all keys bs))
            ≡ live_count now (lookup k bs) + times k keys)
unfolding increment_all
increment_all-counts now [] bs live there = (live, (λ k. omega arith))
increment_all-counts now (j ∷ keys) bs live (first, rest) =
    let (still, counted) =
      increment_all-counts now keys (increment j bs) (increment-IsLive now j bs live)
        (there-others now keys bs (increment j bs) (increment-others now j bs first) rest) in
    (still, λ k. omega (arith, counted k, increment-count now j bs first k))

-- What the search for a full bucket finds.
module _ (max now : ℕ) (before bs : List Bucket)
    (counted : (k : ℕ) → live_count now (lookup k bs) ≡ used now k before) where
  full_or_room :
      (j : ℕ)
      → is_live now (lookup j bs) ≡ true
      → (b : Bucket) × (lookup j bs ≡ some b) × (leb max b.count ≡ leb max (used now j before))
  full_or_room j there =
      let (b, found, open_now) = live_bucket now (lookup j bs) there in
      let same : b.count ≡ used now j before = rw (found, open_now) at (counted j) in
      (b, found, ap (leb max) same)

  find_limited-room :
      (keys : List ℕ)
      → AreThere now keys bs
      → has_room max now keys before ≡ true
      → find_limited max keys bs ≡ none
  unfolding find_limited
  find_limited-room [] there room = refl
  find_limited-room (j ∷ keys) (first, rest) room =
      let (b, found, same) = full_or_room j first in
      let free : leb max (used now j before) ≡ false = ground arith in
      let later : has_room max now keys before ≡ true = ground arith in
      rw (found, same, free) (find_limited-room keys rest later)

  find_limited-full :
      (keys : List ℕ)
      → AreThere now keys bs
      → has_room max now keys before ≡ false
      → (b : Bucket) × (find_limited max keys bs ≡ some b)
  unfolding find_limited
  find_limited-full [] there full = cc
  find_limited-full (j ∷ keys) (first, rest) full =
      let (b, found, same) = full_or_room j first in
      elim (Bool-cases (leb max (used now j before))) [
        | inl closed ↦ (b, rw (found, same, closed) refl)
        | inr free ↦
            let later : has_room max now keys before ≡ false = ground arith in
            let (c, limited) = find_limited-full keys rest later in
            (c, rw (found, same, free) limited)
      ]

-- With a window and a bound above zero, a check of a list of keys lets the call through exactly
-- where each of them was let through less often than the bound in its open window. Then each key
-- counts once more for each time it stands in the list, and no other key does; a call that is
-- refused counts for no key.
pub check_decides :
    (window max now : ℕ) (keys : List ℕ) (bs : List Bucket)
    → 0 < window
    → 0 < max
    → ((check window max keys now bs).0.is_allowed ≡ has_room max now keys bs)
      × ((k : ℕ)
          → used now k (check window max keys now bs).1
            ≡ used now k bs + (if has_room max now keys bs then times k keys else 0))
unfolding check answer_check
check_decides window max now keys bs some_window some_max =
    let limits : (max == 0 || window == 0) ≡ false = ground arith in
    let pruned = prune-IsLive now bs in
    let ready = get_buckets window now keys (prune now bs) in
    let (live, counted, found) =
      get_buckets-keeps window now some_window keys (prune now bs) pruned in
    let there = get_buckets-there window now some_window keys (prune now bs) pruned in
    elim (Bool-cases (has_room max now keys bs)) [
      | inl room ↦
          let free = find_limited-room max now bs ready counted keys there room in
          let (still, added) = increment_all-counts now keys ready live there in
          rw (limits, free, room)
            (
              refl,
              λ k.
                  omega
                    (arith, used-live now k (increment_all keys ready) still, added k, counted k),
            )
      | inr full ↦
          let (b, limited) = find_limited-full max now bs ready counted keys there full in
          rw (limits, limited, full)
            (refl, λ k. used-live now k ready live ∙ counted k ∙ (omega arith))
    ]
