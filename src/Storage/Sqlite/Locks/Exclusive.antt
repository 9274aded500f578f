-- ===== src/Storage/Sqlite/Locks/Exclusive.antt =====
-- Who gets the advisory lock.
use trilithon.Base.{
  String, Bool, true, false, Option, none, some, Result, ok, err, ◌≡◌, refl, inl, inr, Bool-cases,
  Option-cases, sym, ◌∙◌, subst, eq_refl,
}
use trilithon.Base.Int.{ℤ, ◌==ℤ◌, ==ℤ_iff}
use trilithon.Base.BTreeMap.{get, insert}
use trilithon.Base.BTreeMap.Lookup.{get-insert_self, get-remove}
use trilithon.Storage.Sqlite.Locks.{
  Locks, LockError, already_held, Gaps, try_insert_lock, delete_lock, pid_or, retry, reap,
  acquire_apply_lock, release,
}

try-held :
    (locks : Locks) (i : String) (pid holder : ℤ)
    → get locks i ≡ some holder
    → try_insert_lock locks i pid ≡ (locks, false)
unfolding try_insert_lock
try-held locks i pid holder h = rw h refl

try-free :
    (locks : Locks) (i : String) (pid : ℤ)
    → get locks i ≡ none
    → try_insert_lock locks i pid ≡ (insert locks i pid, true)
unfolding try_insert_lock
try-free locks i pid h = rw h refl

delete-own :
    (locks : Locks) (i : String) (pid : ℤ)
    → get locks i ≡ some pid
    → get (delete_lock locks i pid) i ≡ none
unfolding delete_lock
delete-own locks i pid h =
    let same : (pid ==ℤ pid) ≡ true = (==ℤ_iff pid pid).1 refl in
    let gone = get-remove locks i i in rw (h, same) (rw (eq_refl i) at gone)

pub release-own :
    (locks : Locks) (i : String) (pid : ℤ)
    → get locks i ≡ some pid
    → get (release locks i pid) i ≡ none
unfolding release
release-own locks i pid h = delete-own locks i pid h

retry-free :
    (gap : Locks → Locks) (locks : Locks) (i : String) (pid : ℤ)
    → get locks i ≡ none
    → retry gap locks i pid ≡ (insert locks i pid, ok tt)
unfolding retry
retry-free gap locks i pid h = rw (try-free locks i pid h) refl

retry-held :
    (gap : Locks → Locks) (locks : Locks) (i : String) (pid holder : ℤ)
    → get locks i ≡ some holder
    → retry gap locks i pid ≡ (gap locks, err (already_held (pid_or (get (gap locks) i))))
unfolding retry
retry-held gap locks i pid holder h = rw (try-held locks i pid holder h) refl

inserted :
    (locks after : Locks) (i : String) (pid : ℤ)
    → ◌≡◌ {A = Locks × Result LockError (Unit {0})} (insert locks i pid, ok tt) (after, ok tt)
    → get after i ≡ some pid
inserted locks after i pid h =
    let same : insert locks i pid ≡ after = cc in
    subst (λ m. get m i ≡ some pid) same (get-insert_self locks i pid)

retry-ok :
    (gap : Locks → Locks) (locks after : Locks) (i : String) (pid : ℤ)
    → retry gap locks i pid ≡ (after, ok tt)
    → get after i ≡ some pid
retry-ok gap locks after i pid h = elim (Option-cases (get locks i)) [
  | inl free ↦ inserted locks after i pid (sym (retry-free gap locks i pid free) ∙ h)
  | inr (p, held) ↦ cc (retry-held gap locks i pid p held)
]

module _ (process_alive : ℤ → Bool) (gaps : Gaps) where
  -- A lock that a living process holds, and still holds when the row is read, is not taken: the caller
  -- is told the holder, and the table is as the other processes left it.
  pub acquire_apply_lock-held :
      (locks : Locks) (i : String) (pid holder : ℤ)
      → get locks i ≡ some holder
      → get (gaps.first locks) i ≡ some holder
      → process_alive holder ≡ true
      → acquire_apply_lock process_alive gaps locks i pid
        ≡ (gaps.first locks, err (already_held holder))
  unfolding acquire_apply_lock reap
  acquire_apply_lock-held locks i pid holder h still alive =
      rw (try-held locks i pid holder h, still, alive) refl

  pub acquire-free :
      (locks : Locks) (i : String) (pid : ℤ)
      → get locks i ≡ none
      → acquire_apply_lock process_alive gaps locks i pid ≡ (insert locks i pid, ok tt)
  unfolding acquire_apply_lock
  acquire-free locks i pid h = rw (try-free locks i pid h) refl

  acquire-taken :
      (locks : Locks) (i : String) (pid holder : ℤ)
      → get locks i ≡ some holder
      → acquire_apply_lock process_alive gaps locks i pid
        ≡ reap process_alive gaps (gaps.first locks) i pid (get (gaps.first locks) i)
  unfolding acquire_apply_lock
  acquire-taken locks i pid holder h = rw (try-held locks i pid holder h) refl

  reap-ok :
      (locks after : Locks) (i : String) (pid : ℤ) (holder : Option ℤ)
      → reap process_alive gaps locks i pid holder ≡ (after, ok tt)
      → get after i ≡ some pid
  unfolding reap
  reap-ok locks after i pid none h = retry-ok gaps.third (gaps.second locks) after i pid h
  reap-ok locks after i pid (some holder) h = elim (Bool-cases (process_alive holder)) [
    | inl alive ↦ cc (rw alive at h)
    | inr dead ↦
        retry-ok gaps.third (delete_lock (gaps.second locks) i holder) after i pid (rw dead at h)
  ]

  -- Whatever other processes do meanwhile: who is given the lock has its row in the table.
  pub acquire_apply_lock-ok :
      (locks after : Locks) (i : String) (pid : ℤ)
      → acquire_apply_lock process_alive gaps locks i pid ≡ (after, ok tt)
      → get after i ≡ some pid
  acquire_apply_lock-ok locks after i pid h = elim (Option-cases (get locks i)) [
    | inl free ↦ inserted locks after i pid (sym (acquire-free locks i pid free) ∙ h)
    | inr (p, held) ↦
        reap-ok (gaps.first locks) after i pid (get (gaps.first locks) i)
          (sym (acquire-taken locks i pid p held) ∙ h)
  ]

  -- A lock whose holder is dead does not block: a caller that no other process interferes with is
  -- given it, and after its release the lock is free.
  pub acquire_apply_lock-stale :
      (locks : Locks) (i : String) (pid holder : ℤ)
      → get locks i ≡ some holder
      → gaps.first locks ≡ locks
      → gaps.second locks ≡ locks
      → process_alive holder ≡ false
      → (after : Locks) × (acquire_apply_lock process_alive gaps locks i pid ≡ (after, ok tt))
        × (get after i ≡ some pid)
        × (get (release after i pid) i ≡ none)
  unfolding reap release
  acquire_apply_lock-stale locks i pid holder h one two dead =
      let reaped = delete_lock locks i holder in
      let after = insert reaped i pid in
      let free = delete-own locks i holder h in
      let own = get-insert_self reaped i pid in
      (
        after,
        acquire-taken locks i pid holder h
            ∙ rw (one, h, dead, two) (retry-free gaps.third reaped i pid free),
        own,
        delete-own after i pid own,
      )
