-- ===== src/RateLimit/Tests.antt =====
-- A limiter of two calls for each window of 100 ms.
use mpulse.Common.{ℕ, if◌then◌else◌, ◌+◌, ◌≡◌, List, [], ◌∷◌, arith}
use mpulse.RateLimit.{Bucket, check}
use mpulse.RateLimit.Counting.{used}
use mpulse.RateLimit.Deciding.{has_room, times, check_decides}

abbrev one_call : List Bucket
one_call = record { key = 4; count = 1; reset_at = 150 } ∷ []

check_decides_example :
    ((check 100 2 (4 ∷ 7 ∷ []) 60 one_call).0.is_allowed ≡ has_room 2 60 (4 ∷ 7 ∷ []) one_call)
    × ((k : ℕ)
        → used 60 k (check 100 2 (4 ∷ 7 ∷ []) 60 one_call).1
          ≡ used 60 k one_call
            + (if has_room 2 60 (4 ∷ 7 ∷ []) one_call then times k (4 ∷ 7 ∷ []) else 0))
check_decides_example = check_decides 100 2 60 (4 ∷ 7 ∷ []) one_call (omega arith) (omega arith)
