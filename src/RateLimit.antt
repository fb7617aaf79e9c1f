-- ===== src/RateLimit.antt =====
-- src/rateLimit.ts: `MemoryRateLimiter`. A key stands for a number, a time is in milliseconds.
pub mod Counting
pub mod Deciding
pub mod Tests
use mpulse.Common.{
  ℕ, ◌+◌, ◌-◌, Bool, true, false, not, ◌||◌, Option, none, some, List, [], ◌∷◌, if◌then◌else◌, ltb,
  leb, ◌==◌, filter,
}

-- An entry of the map `buckets`, which has one for each key.
pub record Bucket : Type 0 where
  pub key : ℕ
  pub count : ℕ
  pub reset_at : ℕ

pub record RateLimitResult : Type 0 where
  pub is_allowed : Bool
  pub retry_after_ms : ℕ

unfoldable pub prune : ℕ → List Bucket → List Bucket
prune now buckets = filter (λ b. not (leb b.reset_at now)) buckets

unfoldable pub lookup : ℕ → List Bucket → Option Bucket
lookup key [] = none
lookup key (b ∷ buckets) = if b.key == key then some b else lookup key buckets

-- `this.buckets.set(key, bucket)`
unfoldable pub set_bucket : Bucket → List Bucket → List Bucket
set_bucket b [] = b ∷ []
set_bucket b (c ∷ buckets) = if c.key == b.key then b ∷ buckets else c ∷ set_bucket b buckets

abbrev pub is_live : ℕ → Option Bucket → Bool
is_live now none = false
is_live now (some b) = ltb now b.reset_at

-- `getBucket`, for its effect: a key without a live bucket gets a new one.
unfoldable pub get_bucket : ℕ → ℕ → ℕ → List Bucket → List Bucket
get_bucket window now key buckets =
    if is_live now (lookup key buckets)
    then buckets
    else set_bucket (record { key = key; count = 0; reset_at = now + window }) buckets

unfoldable pub get_buckets : ℕ → ℕ → List ℕ → List Bucket → List Bucket
get_buckets window now [] buckets = buckets
get_buckets window now (key ∷ keys) buckets =
    get_buckets window now keys (get_bucket window now key buckets)

abbrev full_bucket : ℕ → Option Bucket → Option Bucket → Option Bucket
full_bucket max none later = later
full_bucket max (some b) later = if leb max b.count then some b else later

-- `buckets.find((bucket) => bucket.count >= this.max)`, over the buckets of the keys.
unfoldable pub find_limited : ℕ → List ℕ → List Bucket → Option Bucket
find_limited max [] buckets = none
find_limited max (key ∷ keys) buckets =
    full_bucket max (lookup key buckets) (find_limited max keys buckets)

-- `bucket.count += 1`: equal keys share a bucket, which then counts each of them.
unfoldable pub increment : ℕ → List Bucket → List Bucket
increment key [] = []
increment key (b ∷ buckets) =
    if b.key == key then record b { count = b.count + 1 } ∷ buckets else b ∷ increment key buckets

unfoldable pub increment_all : List ℕ → List Bucket → List Bucket
increment_all [] buckets = buckets
increment_all (key ∷ keys) buckets = increment_all keys (increment key buckets)

unfoldable pub answer_check :
    ℕ → List ℕ → Option Bucket → List Bucket → RateLimitResult × List Bucket
answer_check now keys (some limited) buckets =
    (record { is_allowed = false; retry_after_ms = limited.reset_at - now }, buckets)
answer_check now keys none buckets =
    (record { is_allowed = true; retry_after_ms = 0 }, increment_all keys buckets)

unfoldable pub check : ℕ → ℕ → List ℕ → ℕ → List Bucket → RateLimitResult × List Bucket
check window max keys now buckets =
    if max == 0 || window == 0
    then (record { is_allowed = true; retry_after_ms = 0 }, buckets)
    else let ready = get_buckets window now keys (prune now buckets) in
      answer_check now keys (find_limited max keys ready) ready
