-- ===== src/Auth/RateLimit/Backoff.antt =====
-- Who is refused after failed logins, for how long, and what a success clears.
use trilithon.Base.{
  ℕ, String, Option, none, some, List, ◌∷◌, true, false, Result, ok, err, length, if◌then◌else◌,
  ltb, leb, str_eq, ◌+◌, ◌-◌, ◌^◌, ◌≤◌, ◌<◌, inl, inr, ◌≡◌, refl, arith, eq_refl, Bool-cases,
}
use trilithon.Base.BTreeMap.{get, remove}
use trilithon.Base.BTreeMap.Lookup.{get-remove}
use trilithon.Auth.RateLimit.{
  RateLimited, BucketState, Buckets, Retain, default_bucket, check, check_bucket, check_found,
  or_default, entry_or_default, record_success, u32_max,
}
use trilithon.Auth.RateLimit.Failures.{
  record_failures, record_failures-get, fails, last, backoff_for-min, fails-early, fails-late,
}

-- When an address is free again after its n-th failure, at `t`.
unfoldable pub free_at : ℕ → ℕ → ℕ
free_at n t = if ltb n 5 then 0 else t + (if leb (2 ^ (n - 4)) 60 then 2 ^ (n - 4) else 60)

check_found-or_default :
    (o : Option BucketState) (now : ℕ) → check_found o now ≡ check_bucket (or_default o) now
unfolding check_bucket
check_found-or_default none now = ground arith
check_found-or_default (some b) now = refl

check-entry :
    (m : Buckets) (addr : String) (now : ℕ)
    → check m addr now ≡ check_bucket (entry_or_default m addr) now
unfolding check entry_or_default
check-entry m addr now = check_found-or_default (get m addr) now

check-get :
    (m w : Buckets) (addr : String) (now : ℕ)
    → get m addr ≡ get w addr
    → check m addr now ≡ check w addr now
unfolding check
check-get m w addr now same = rw same refl

free_at-fails :
    (t : ℕ) (ts : List ℕ)
    → length (t ∷ ts) < 100
    → (fails default_bucket (t ∷ ts)).next_allowed_at_unix ≡ free_at (length (t ∷ ts)) (last t ts)
unfolding free_at
free_at-fails t ts h = elim (Bool-cases (ltb (length (t ∷ ts)) 5)) [
  | inl few ↦ rw few (fails-early default_bucket (t ∷ ts) (ground arith))
  | inr many ↦
      let late = fails-late default_bucket t ts (omega arith) (ground arith) in
      let sum : 0 + length (t ∷ ts) ≡ length (t ∷ ts) = omega arith in
      let formula = backoff_for-min (length (t ∷ ts) - 4) in rw (many, ← formula) (rw sum at late)
]

free_at-bound : (n t : ℕ) → free_at n t ≤ t + 60
unfolding free_at
free_at-bound n t = ground arith

check_bucket-until :
    (b : BucketState) (now t : ℕ)
    → b.next_allowed_at_unix ≤ t + 60
    → t ≤ now
    → check_bucket b now ≡ (
        if ltb now b.next_allowed_at_unix
        then err (record { retry_after_seconds = b.next_allowed_at_unix - now })
        else ok tt)
unfolding check_bucket
check_bucket-until b now t h past = elim (Bool-cases (ltb now b.next_allowed_at_unix)) [
  | inr free ↦ rw free refl
  | inl blocked ↦
      let least : ltb (b.next_allowed_at_unix - now) 1 ≡ false = ground arith in
      let fits : leb (b.next_allowed_at_unix - now) u32_max ≡ true = ground arith in
      rw (blocked, least, fits) refl
]

-- After a run of fewer than a hundred failures from an address without a bucket, however far apart
-- they are and with nothing else recorded in between, at times of which the last is not after `now`:
-- the address is refused at `now` exactly when the run has five failures or more and fewer seconds
-- than 2^(n - 4), or 60 if that is less, have passed since the last of its n failures; the refusal
-- says how many seconds are left; and another address is answered as before. The failures are
-- counted without a window of a minute.
pub record_failures-check :
    (retain : Retain) (m : Buckets) (addr other : String) (t now : ℕ) (ts : List ℕ)
    → get m addr ≡ none
    → length (t ∷ ts) < 100
    → last t ts ≤ now
    → str_eq addr other ≡ false
    → (after : Buckets) × (record_failures retain m addr (t ∷ ts) ≡ some after)
      × (check after addr now ≡ (
          if ltb now (free_at (length (t ∷ ts)) (last t ts))
          then err (record { retry_after_seconds = free_at (length (t ∷ ts)) (last t ts) - now })
          else ok tt))
      × (check after other now ≡ check m other now)
unfolding entry_or_default
record_failures-check retain m addr other t now ts absent few past ne =
    let none_yet : entry_or_default m addr ≡ default_bucket = rw (entry_or_default, absent) refl in
    let bound : (entry_or_default m addr).failure_count + length (t ∷ ts) < 100 =
      rw none_yet (omega arith) in
    let (after, run, bucket, others) = record_failures-get retain m addr (t ∷ ts) bound in
    let free = free_at-fails t ts few in
    let entry : entry_or_default after addr ≡ fails default_bucket (t ∷ ts) =
      rw (← none_yet) bucket in
    let within = free_at-bound (length (t ∷ ts)) (last t ts) in
    let answer =
      check_bucket-until (fails default_bucket (t ∷ ts)) now (last t ts) (rw free within) past in
    (
      after,
      run,
      rw (check-entry after addr now, entry, ← free) answer,
      check-get after m other now (others other ne),
    )

-- A success clears its address: it is admitted at every time; another address is answered as before.
pub record_success-check :
    (m : Buckets) (addr other : String) (now : ℕ)
    → str_eq addr other ≡ false
    → (check (record_success m addr) addr now ≡ ok tt)
      × (check (record_success m addr) other now ≡ check m other now)
unfolding check record_success
record_success-check m addr other now ne =
    let self = get-remove m addr addr in
    let rest = get-remove m addr other in
    let cleared : get (remove m addr) addr ≡ none = rw (self, eq_refl addr) refl in
    (rw cleared refl, check-get (remove m addr) m other now (rw (rest, ne) refl))

check_bucket-admits :
    (b : BucketState) (now : ℕ) → b.next_allowed_at_unix ≤ now → check_bucket b now ≡ ok tt
unfolding check_bucket
check_bucket-admits b now past =
    let free : ltb now b.next_allowed_at_unix ≡ false = ground arith in rw free refl

retry_after :
    (b : BucketState) (now : ℕ) (r : RateLimited)
    → check_bucket b now ≡ err r
    → r.retry_after_seconds < u32_max
    → (now < b.next_allowed_at_unix) × (r.retry_after_seconds ≡ b.next_allowed_at_unix - now)
unfolding check_bucket
retry_after b now r h small = elim (Bool-cases (ltb now b.next_allowed_at_unix)) [
  | inr free ↦ cc (rw free at h)
  | inl blocked ↦
      let lt : now < b.next_allowed_at_unix = ground arith in
      let least : ltb (b.next_allowed_at_unix - now) 1 ≡ false = ground arith in
      elim (Bool-cases (leb (b.next_allowed_at_unix - now) u32_max)) [
        | inl fits ↦ (lt, same _ r refl (rw (blocked, least, fits) at h))
        | inr large ↦
            let most : r.retry_after_seconds ≡ u32_max =
              same _ r refl (rw (blocked, least, large) at h) in
            absurd (omega arith)
      ]
]
  where
    same :
        (x y : RateLimited) {n : ℕ}
        → x.retry_after_seconds ≡ n
        → ◌≡◌ {A = Result RateLimited (Unit {0})} (err x) (err y)
        → y.retry_after_seconds ≡ n
    same x y e h = let both : x ≡ y = cc in rw (← both) e

-- The wait of a refusal is exact where it fits in a u32: a second before the end of the wait the
-- address is still refused, and at its end it is admitted.
pub check-wait :
    (m : Buckets) (addr : String) (now : ℕ) (r : RateLimited)
    → check m addr now ≡ err r
    → r.retry_after_seconds < u32_max
    → (check m addr (now + r.retry_after_seconds) ≡ ok tt)
      × (check m addr (now + r.retry_after_seconds - 1) ≡ err (record { retry_after_seconds = 1 }))
check-wait m addr now r h small =
    let b = entry_or_default m addr in
    let (blocked, wait) = retry_after b now r (rw (check-entry m addr now) at h) small in
    let before : now + r.retry_after_seconds - 1 < b.next_allowed_at_unix = omega arith in
    let left : b.next_allowed_at_unix - (now + r.retry_after_seconds - 1) ≡ 1 = omega arith in
    let lt : ltb (now + r.retry_after_seconds - 1) b.next_allowed_at_unix ≡ true = ground arith in
    let answer =
      check_bucket-until b (now + r.retry_after_seconds - 1) (now + r.retry_after_seconds - 1)
        (omega arith) (omega arith) in
    (
      rw (check-entry m addr (now + r.retry_after_seconds))
          (check_bucket-admits b (now + r.retry_after_seconds) (omega arith)),
      rw (check-entry m addr (now + r.retry_after_seconds - 1)) (rw (lt, left) at answer),
    )
