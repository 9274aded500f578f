-- ===== src/Storage/Sqlite/Locks.antt =====
-- storage_sqlite/locks.rs: the advisory lock of an instance, a row of `apply_locks` with the holder's
-- process id. Between two statements other processes may change the table: what they do is an
-- argument for each gap. Which processes are alive is one too.
pub mod Exclusive
use trilithon.Base.{String, Bool, true, false, Option, none, some, if◌then◌else◌, Result, ok, err}
use trilithon.Base.Int.{ℤ, negsuc, ◌==ℤ◌}
use trilithon.Base.BTreeMap.{BTreeMap, get, insert, remove, contains_key}

abbrev pub Locks : Type 0
Locks = BTreeMap ℤ

pub data LockError : Type 0 where
  already_held : ℤ → LockError
  lock_storage : String → LockError

-- What other processes do in the gaps after the first statement, the second and the third.
pub record Gaps : Type 0 where
  pub first : Locks → Locks
  pub second : Locks → Locks
  pub third : Locks → Locks

-- `INSERT` under the primary key: the table, and whether the row went in.
unfoldable pub try_insert_lock : Locks → String → ℤ → Locks × Bool
try_insert_lock locks instance_id pid =
    if contains_key locks instance_id then (locks, false) else (insert locks instance_id pid, true)

-- `DELETE … WHERE instance_id = ? AND holder_pid = ?`
abbrev pub is_holder : Option ℤ → ℤ → Bool
is_holder none pid = false
is_holder (some p) pid = p ==ℤ pid

unfoldable pub delete_lock : Locks → String → ℤ → Locks
delete_lock locks instance_id pid =
    if is_holder (get locks instance_id) pid then remove locks instance_id else locks

-- `pid.unwrap_or(-1)`
abbrev pub pid_or : Option ℤ → ℤ
pid_or none = negsuc 0
pid_or (some pid) = pid

-- The second attempt, and the look at who has the lock when it fails.
unfoldable pub retry : (Locks → Locks) → Locks → String → ℤ → Locks × Result LockError (Unit {0})
retry gap locks instance_id pid =
    let (after, inserted) = try_insert_lock locks instance_id pid in
    if inserted
    then (after, ok tt)
    else (gap after, err (already_held (pid_or (get (gap after) instance_id))))

module _ (process_alive : ℤ → Bool) (gaps : Gaps) where
  unfoldable pub reap : Locks → String → ℤ → Option ℤ → Locks × Result LockError (Unit {0})
  reap locks instance_id pid none = retry gaps.third (gaps.second locks) instance_id pid
  reap locks instance_id pid (some holder) =
      let reaped = delete_lock (gaps.second locks) instance_id holder in
      if process_alive holder
      then (locks, err (already_held holder))
      else retry gaps.third reaped instance_id pid

  unfoldable pub acquire_apply_lock : Locks → String → ℤ → Locks × Result LockError (Unit {0})
  acquire_apply_lock locks instance_id pid =
      let (after, inserted) = try_insert_lock locks instance_id pid in
      let seen = gaps.first after in
      if inserted then (after, ok tt) else reap seen instance_id pid (get seen instance_id)

-- `AcquiredLock::release`
unfoldable pub release : Locks → String → ℤ → Locks
release locks instance_id pid = delete_lock locks instance_id pid
