-- ===== src/Applier/Apply/Chained.antt =====
-- What an apply does to the chain of hashes of the audit log.
use trilithon.Base.{length, List, Result, ok, ◌≡◌, refl, sym, ap, subst, ◌⊎◌, inl, inr}
use trilithon.Base.Int.{ℤ}
use trilithon.Storage.Types.{Snapshot, AuditEventRow}
use trilithon.Storage.Tables.{reversed}
use trilithon.Storage.Sqlite.{Database}
use trilithon.Storage.Sqlite.Audit.{verify_audit_chain, intact}
use trilithon.Storage.Sqlite.Audit.Verified.{IsLatest, InTimeOrder, grown-intact}
use trilithon.Storage.Sqlite.Locks.{Locks, acquire_apply_lock, release}
use trilithon.Applier.Types.{ApplyError, ApplyOutcome, AuditAppend}
use trilithon.Applier.Monad.{World}
use trilithon.Applier.Writer.{event_row, linked_row, Grown}
use trilithon.Applier.Reports.{applied_row}
use trilithon.Applier.Apply.{CaddyApplier, apply, correlation_of}
use trilithon.Applier.Apply.Outcome.{Kept, Applied, apply-cases}

module _ (A : CaddyApplier) where
  -- The log is in the order of time and passes the verification of its hashes.
  abbrev pub IsIntact : List AuditEventRow → Type 0
  IsIntact log = InTimeOrder log × (verify_audit_chain A.audit.hashing (reversed log) ≡ intact)

  -- No row of the log comes after a row that the writer would write next; what it tells does not
  -- matter for that, only its time and its id do.
  abbrev pub IsDue : Snapshot → World → Type 0
  IsDue s w =
      IsLatest (event_row A.audit (length w.audit) (applied_row (correlation_of A s) s.snapshot_id))
        w.db.audit_log

  Grown-IsIntact :
      (s : Snapshot) (w : World) (P : AuditAppend → Type 0) (log : List AuditEventRow)
      → IsIntact w.db.audit_log
      → IsDue s w
      → Grown A.audit (length w.audit) P w.db.audit_log log
      → IsIntact log
  Grown-IsIntact s w P log sound due (inl same) = rw same sound
  Grown-IsIntact s w P log sound due (inr (append, p, grown)) =
      let row = linked_row A.audit (length w.audit) append w.db.audit_log in
      rw grown (grown-intact A.audit.hashing w.db.audit_log row sound.0 due refl sound.1)

  cases-IsIntact :
      (s : Snapshot) (v : ℤ) (w : World) (locks : Locks)
      (p : World × Result ApplyError ApplyOutcome)
      → IsIntact w.db.audit_log
      → IsDue s w
      → let freed = record w.db { apply_locks = locks } in
        Kept A s w freed p ⊎ Applied A s v w freed p → IsIntact p.0.db.audit_log
  cases-IsIntact s v w locks p sound due (inl ((log, grown, whole), failed)) =
      subst IsIntact (ap (λ (db : Database). db.audit_log) (sym whole))
        (Grown-IsIntact s w _ log sound due grown)
  cases-IsIntact s v w locks p sound due (inr applied) =
      let (log, grown, whole) = applied.7.1 in
      subst IsIntact (ap (λ (db : Database). db.audit_log) (sym whole))
        (Grown-IsIntact s w _ log sound due grown)

  -- An apply that is given the lock keeps the audit log in the order of time and its chain of hashes
  -- intact, whether it succeeds or fails and on every path, when no row of the log comes after the
  -- time and the id that the audit writer gives next.
  pub apply-IsIntact :
      (s : Snapshot) (v : ℤ) (w : World) (locks : Locks)
      → acquire_apply_lock A.process_alive A.gaps w.db.apply_locks A.instance_id A.holder_pid
        ≡ (locks, ok tt)
      → IsIntact w.db.audit_log
      → IsDue s w
      → IsIntact (apply A s v w).0.db.audit_log
  apply-IsIntact s v w locks given sound due =
      cases-IsIntact s v w (release locks A.instance_id A.holder_pid) (apply A s v w) sound due
        (apply-cases A s v w locks given).0
