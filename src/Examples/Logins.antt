-- ===== src/Examples/Logins.antt =====
-- Runs of the login rate limiter.
use trilithon.Base.{◌≡◌, refl, String, ℕ, List, none, some, [], ◌∷◌, ok, err, arith}
use trilithon.Base.BTreeMap.{get}
use trilithon.Auth.RateLimit.{Buckets, Retain, new, check, check_bucket, evict_stale, backoff_for}
use trilithon.Auth.RateLimit.Failures.{record_failures, last}
use trilithon.Auth.RateLimit.Backoff.{free_at, record_failures-check, check-wait}

-- A `retain` under a reference that does not return.
abbrev retain : Retain
retain buckets keep = none

abbrev attacker : String
attacker = "203.0.113.7"

abbrev visitor : String
visitor = "203.0.113.8"

abbrev times : List ℕ
times = 101 ∷ 102 ∷ 103 ∷ 104 ∷ []

-- After the fifth failure at 104.
abbrev blocked : Buckets
blocked = (attacker, record { failure_count = 5; next_allowed_at_unix = 106 }) ∷ []

evicted : evict_stale blocked 106 ≡ []
unfolding evict_stale
evicted = refl

kept : evict_stale blocked 105 ≡ blocked
unfolding evict_stale
kept = refl

refused : check blocked attacker 104 ≡ err (record { retry_after_seconds = 2 })
unfolding check check_bucket get
refused = refl

backoffs : (backoff_for 1 ≡ 2) × (backoff_for 5 ≡ 32) × (backoff_for 6 ≡ 60) × (backoff_for 90 ≡ 60)
unfolding backoff_for
backoffs = (refl, refl, refl, refl)

record_failures-check_example :
    (after : Buckets) × (record_failures retain new attacker (100 ∷ times) ≡ some after)
    × (check after attacker 105 ≡ err (record { retry_after_seconds = 1 }))
    × (check after visitor 105 ≡ check new visitor 105)
unfolding free_at last get
record_failures-check_example =
    record_failures-check retain new attacker visitor 100 105 times refl (ground arith)
      (ground arith) refl

check-wait_example :
    (check blocked attacker 106 ≡ ok tt)
    × (check blocked attacker 105 ≡ err (record { retry_after_seconds = 1 }))
check-wait_example =
    check-wait blocked attacker 104 (record { retry_after_seconds = 2 }) refused (ground arith)
