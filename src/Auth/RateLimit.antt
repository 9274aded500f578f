-- ===== src/Auth/RateLimit.antt =====
-- core/crates/adapters/src/auth/rate_limit.rs: the failures per source address. An address is its text,
-- and a time is a number of seconds from the epoch on. `DashMap` is a map of which the order is not
-- seen. Its `retain`, called while a reference into the map is held, is a parameter of the model:
-- `none` when it does not return.

pub mod Failures
pub mod Backoff
use trilithon.Base.{
  ℕ, String, Option, none, some, [], ◌∷◌, Bool, Result, ok, err, if◌then◌else◌, ltb, leb, ◌==◌, ◌+◌,
  ◌-◌, ◌%◌, ◌^◌,
}
use trilithon.Base.BTreeMap.{BTreeMap, get, insert, remove}

pub record RateLimited : Type 0 where
  pub retry_after_seconds : ℕ

-- The count is a u32, the time an i64.
pub record BucketState : Type 0 where
  pub failure_count : ℕ
  pub next_allowed_at_unix : ℕ

abbrev pub Buckets : Type 0
Buckets = BTreeMap BucketState

abbrev pub Retain : Type 0
Retain = Buckets → (BucketState → Bool) → Option Buckets

abbrev pub u32_max : ℕ
u32_max = 2 ^ 32 - 1

-- `BucketState::default()`, `LoginRateLimiter::new()`
abbrev pub default_bucket : BucketState
default_bucket = record { failure_count = 0; next_allowed_at_unix = 0 }

abbrev pub new : Buckets
new = []

-- `secs.max(1)`
abbrev pub at_least_1 : ℕ → ℕ
at_least_1 secs = if ltb secs 1 then 1 else secs

-- `u32::try_from(secs).unwrap_or(u32::MAX)`
abbrev pub to_u32 : ℕ → ℕ
to_u32 secs = if leb secs u32_max then secs else u32_max

unfoldable pub check_bucket : BucketState → ℕ → Result RateLimited (Unit {0})
check_bucket bucket now_unix =
    if ltb now_unix bucket.next_allowed_at_unix
    then err (record {
      retry_after_seconds = to_u32 (at_least_1 (bucket.next_allowed_at_unix - now_unix));
    })
    else ok tt

abbrev pub check_found : Option BucketState → ℕ → Result RateLimited (Unit {0})
check_found none now_unix = ok tt
check_found (some bucket) now_unix = check_bucket bucket now_unix

unfoldable pub check : Buckets → String → ℕ → Result RateLimited (Unit {0})
check buckets addr now_unix = check_found (get buckets addr) now_unix

-- `2_i64.saturating_pow(exponent).min(60)`
unfoldable pub backoff_for : ℕ → ℕ
backoff_for exponent =
    let power = if ltb exponent 63 then 2 ^ exponent else 2 ^ 63 - 1 in
    if leb power 60 then power else 60

-- The change of the bucket; the count wraps at 32 bits.
unfoldable pub fail : BucketState → ℕ → BucketState
fail bucket now_unix =
    let failure_count = (bucket.failure_count + 1) % 2 ^ 32 in
    if leb 5 failure_count
    then record {
      failure_count = failure_count;
      next_allowed_at_unix = now_unix + backoff_for (failure_count - 4);
    }
    else record {
      failure_count = failure_count;
      next_allowed_at_unix = bucket.next_allowed_at_unix;
    }

-- `buckets.entry(addr).or_default()`
abbrev pub or_default : Option BucketState → BucketState
or_default none = default_bucket
or_default (some bucket) = bucket

unfoldable pub entry_or_default : Buckets → String → BucketState
entry_or_default buckets addr = or_default (get buckets addr)

-- A bucket is kept when its time is after `now_unix - 300`.
unfoldable pub record_failure : Retain → Buckets → String → ℕ → Option Buckets
record_failure retain buckets addr now_unix =
    let bucket = fail (entry_or_default buckets addr) now_unix in
    let written = insert buckets addr bucket in
    if bucket.failure_count % 100 == 0
    then retain written (λ b. ltb now_unix (b.next_allowed_at_unix + 300))
    else some written

unfoldable pub record_success : Buckets → String → Buckets
record_success buckets addr = remove buckets addr

-- A method of its own; `retain` is called with no reference held.
unfoldable pub evict_stale : Buckets → ℕ → Buckets
evict_stale [] before_unix = []
evict_stale ((addr, b) ∷ buckets) before_unix =
    let rest = evict_stale buckets before_unix in
    if ltb before_unix b.next_allowed_at_unix then (addr, b) ∷ rest else rest
