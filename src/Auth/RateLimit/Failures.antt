-- ===== src/Auth/RateLimit/Failures.antt =====
-- What a run of failed logins from one address does to its bucket, and to the others'.
use trilithon.Base.{
  ℕ, String, Option, none, some, List, [], ◌∷◌, true, false, length, if◌then◌else◌, ltb, leb,
  str_eq, ◌==◌, ◌+◌, ◌*◌, ◌-◌, ◌%◌, ◌^◌, ◌≤◌, ◌<◌, inl, inr, ◌≡◌, refl, suc, zero, arith,
  Bool-cases,
}
use native.Mathlib.Numerals.{unary_clauses}
use trilithon.Base.BTreeMap.{get, insert}
use trilithon.Base.BTreeMap.Lookup.{get-insert, get-insert_self}
use trilithon.Auth.RateLimit.{
  BucketState, Buckets, Retain, backoff_for, fail, entry_or_default, record_failure,
}

-- The failures of one address at the times of a list, and the last of the times.
unfoldable pub record_failures : Retain → Buckets → String → List ℕ → Option Buckets
record_failures retain buckets addr [] = some buckets
record_failures retain buckets addr (t ∷ ts) = elim (record_failure retain buckets addr t) [
  | none ↦ none
  | some after ↦ record_failures retain after addr ts
]

unfoldable pub fails : BucketState → List ℕ → BucketState
fails bucket [] = bucket
fails bucket (t ∷ ts) = fails (fail bucket t) ts

unfoldable pub last : ℕ → List ℕ → ℕ
last t [] = t
last t (u ∷ ts) = last u ts

failure_count-fail :
    (b : BucketState) (t : ℕ)
    → b.failure_count + 1 < 100
    → (fail b t).failure_count ≡ b.failure_count + 1
unfolding fail
failure_count-fail b t h = ground arith

-- Under five failures the time is kept, and from the fifth on it is the back-off after the last.
fail-early :
    (b : BucketState) (t : ℕ)
    → b.failure_count + 1 < 5
    → (fail b t).next_allowed_at_unix ≡ b.next_allowed_at_unix
unfolding fail
fail-early b t h = ground arith

fail-late :
    (b : BucketState) (t : ℕ)
    → b.failure_count + 1 < 100
    → 5 ≤ b.failure_count + 1
    → (fail b t).next_allowed_at_unix ≡ t + backoff_for (b.failure_count + 1 - 4)
unfolding fail
fail-late b t h late =
    let wrap : (b.failure_count + 1) % 2 ^ 32 ≡ b.failure_count + 1 = omega arith in
    let le : leb 5 (b.failure_count + 1) ≡ true = ground arith in rw (wrap, le) refl

power_lower : (k : ℕ) → 64 ≤ 2 ^ (k + 6)
power_lower zero = ground arith
power_lower (suc k) =
    let rest = power_lower k in
    let twice : 2 ^ (suc k + 6) ≡ 2 ^ (k + 6) * 2 = simp unary_clauses refl in omega arith

-- The saturation is not seen: the back-off is the power of two, and 60 at most.
pub backoff_for-min : (e : ℕ) → backoff_for e ≡ (if leb (2 ^ e) 60 then 2 ^ e else 60)
unfolding backoff_for
backoff_for-min e = elim (Bool-cases (ltb e 63)) [
  | inl small ↦ rw small refl
  | inr large ↦
      let le : 6 ≤ e = ground arith in
      let above = power_lower (e - 6) in
      let same : e - 6 + 6 ≡ e = omega arith in
      let power : 64 ≤ 2 ^ e = rw same at above in
      let no : leb (2 ^ e) 60 ≡ false = ground arith in rw (large, no) refl
]

pub failure_count-fails :
    (b : BucketState) (ts : List ℕ)
    → b.failure_count + length ts < 100
    → (fails b ts).failure_count ≡ b.failure_count + length ts
unfolding fails
failure_count-fails b [] h = ground arith
failure_count-fails b (t ∷ ts) h =
    let one = failure_count-fail b t (omega arith) in
    let rest = failure_count-fails (fail b t) ts (omega arith) in omega arith

pub fails-early :
    (b : BucketState) (ts : List ℕ)
    → b.failure_count + length ts < 5
    → (fails b ts).next_allowed_at_unix ≡ b.next_allowed_at_unix
unfolding fails
fails-early b [] h = refl
fails-early b (t ∷ ts) h =
    let one = failure_count-fail b t (omega arith) in
    let rest = fails-early (fail b t) ts (omega arith) in
    let kept = fail-early b t (omega arith) in omega arith

pub fails-late :
    (b : BucketState) (t : ℕ) (ts : List ℕ)
    → b.failure_count + length (t ∷ ts) < 100
    → 5 ≤ b.failure_count + length (t ∷ ts)
    → (fails b (t ∷ ts)).next_allowed_at_unix
      ≡ last t ts + backoff_for (b.failure_count + length (t ∷ ts) - 4)
unfolding fails last
fails-late b t [] h late = fail-late b t h late
fails-late b t (u ∷ ts) h late =
    let one = failure_count-fail b t (omega arith) in
    let rest = fails-late (fail b t) u ts (omega arith) (omega arith) in
    let same : b.failure_count + suc (suc (length ts))
        ≡ (fail b t).failure_count + suc (length ts) =
      omega arith in
    rw same rest

-- Fewer than a hundred failures in all: the call returns, with the changed bucket in the map.
record_failure-inserts :
    (retain : Retain) (m : Buckets) (addr : String) (t : ℕ)
    → (entry_or_default m addr).failure_count + 1 < 100
    → record_failure retain m addr t ≡ some (insert m addr (fail (entry_or_default m addr) t))
unfolding record_failure
record_failure-inserts retain m addr t h =
    let count = failure_count-fail (entry_or_default m addr) t h in
    let e : ((fail (entry_or_default m addr) t).failure_count % 100 == 0) ≡ false = ground arith in
    rw e refl

entry_or_default-insert :
    (m : Buckets) (addr : String) (b : BucketState) → entry_or_default (insert m addr b) addr ≡ b
unfolding entry_or_default
entry_or_default-insert m addr b = rw (entry_or_default, get-insert_self m addr b) refl

-- A run of fewer than a hundred failures returns, with the bucket changed by each.
pub record_failures-get :
    (retain : Retain) (m : Buckets) (addr : String) (ts : List ℕ)
    → (entry_or_default m addr).failure_count + length ts < 100
    → (after : Buckets) × (record_failures retain m addr ts ≡ some after)
      × (entry_or_default after addr ≡ fails (entry_or_default m addr) ts)
      × ((other : String) → str_eq addr other ≡ false → get after other ≡ get m other)
unfolding record_failures fails
record_failures-get retain m addr [] h = (m, refl, refl, λ other ne. refl)
record_failures-get retain m addr (t ∷ ts) h =
    let b = fail (entry_or_default m addr) t in
    let once = record_failure-inserts retain m addr t (omega arith) in
    let count = failure_count-fail (entry_or_default m addr) t (omega arith) in
    let same = entry_or_default-insert m addr b in
    let bound : (entry_or_default (insert m addr b) addr).failure_count + length ts < 100 =
      rw same (omega arith) in
    let (after, run, bucket, others) = record_failures-get retain (insert m addr b) addr ts bound in
    (
      after,
      rw (record_failures, once) run,
      rw same at bucket,
      λ other ne. let there = get-insert m addr b other in rw (others other ne, there, ne) refl,
    )
