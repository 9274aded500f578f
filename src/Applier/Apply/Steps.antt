-- ===== src/Applier/Apply/Steps.antt =====
-- What one step of the applier leaves as it was.
use Prim.Native.String.{◌++◌}
use trilithon.Base.{
  length, ℕ, List, [], ◌∷◌, Option, none, some, Result, ok, err, ◌≡◌, refl, ap, ◌⊎◌, inl, inr,
  Result-split,
}
use trilithon.Base.Int.{ℤ}
use trilithon.Model.Json.{Value}
use trilithon.Model.State.{DesiredState}
use trilithon.Mutation.Types.{SnapshotId}
use trilithon.Storage.Types.{AuditEventRow, outcome_error}
use trilithon.Storage.Sqlite.{Database, cas_advance_config_version}
use trilithon.Applier.Types.{
  ApplyOutcome, succeeded, failed, conflicted, ApplyError, storage, CaddyError, AuditAppend,
  caddy_unreachable_error, bad_status, timeout, protocol_violation, invalid_endpoint,
}
use trilithon.Applier.Monad.{World}
use trilithon.Applier.Writer.{AuditWriter, record_audit, Grown, recorded}
use trilithon.Applier.Reports.{
  load_failed, running_error, diffs_rejected, write_unreachable_audit, bad_status_outcome,
}
use trilithon.Applier.Apply.{CaddyApplier, verify_equivalence, cas_advance}

-- An entry about a failure with the snapshot.
abbrev pub IsErrorEntry : SnapshotId → AuditAppend → Type 0
IsErrorEntry id append = (append.snapshot_id ≡ id) × (append.outcome ≡ outcome_error)

-- The database is as before, but that its log may have the row of one entry about a failure more,
-- which was handed to the writer as the `n`th.
abbrev pub Noted : AuditWriter → ℕ → SnapshotId → Database → Database → Type 0
Noted W n id db after =
    (log : List AuditEventRow) × Grown W n (IsErrorEntry id) db.audit_log log
    × (after ≡ record db { audit_log = log })

pub unnoted : (W : AuditWriter) (n : ℕ) (id : SnapshotId) (db : Database) → Noted W n id db db
unnoted W n id db = (db.audit_log, inl refl, refl)

-- A computation that hands one row about a failure to the writer, and then answers.
pub record_audit-Noted :
    (W : AuditWriter) (append : AuditAppend) (w : World)
    → append.outcome ≡ outcome_error
    → Noted W (length w.audit) append.snapshot_id w.db (record_audit W append w).0.db
      × ((record_audit W append w).0.caddy ≡ w.caddy)
unfolding record_audit
record_audit-Noted W append w failed_row =
    let (log, grown, done) =
      recorded W (IsErrorEntry append.snapshot_id) append w (refl, failed_row) in
    ((log, grown, ap (λ p. p.0.db) done), refl)

-- An answer of `load_or_fail` with which `apply` ends: an error, or a failure.
abbrev pub Ends : Result ApplyError (Option ApplyOutcome) → Type 0
Ends (err e) = Unit
Ends (ok none) = ⊥
Ends (ok (some (failed id kind detail))) = Unit
Ends (ok (some (succeeded id version state kind ms))) = ⊥
Ends (ok (some (conflicted stale current))) = ⊥

pub load_failed-cases :
    (W : AuditWriter) (c : ℕ) (id : SnapshotId) (answer : Result CaddyError (Unit {0})) (w : World)
    → ((answer ≡ ok tt) × (load_failed W c id answer w ≡ (w, ok none)))
      ⊎ (Noted W (length w.audit) id w.db (load_failed W c id answer w).0.db
          × Ends (load_failed W c id answer w).1)
unfolding load_failed write_unreachable_audit bad_status_outcome record_audit
load_failed-cases W c id (ok _) w = inl (refl, refl)
load_failed-cases W c id (err (caddy_unreachable_error detail)) w =
    inr ((record_audit-Noted W _ w refl).0, tt)
load_failed-cases W c id (err (timeout seconds)) w = inr ((record_audit-Noted W _ w refl).0, tt)
load_failed-cases W c id (err (bad_status status body)) w =
    inr ((record_audit-Noted W _ w refl).0, tt)
load_failed-cases W c id (err (protocol_violation detail)) w =
    inr (unnoted W (length w.audit) id w.db, tt)
load_failed-cases W c id (err (invalid_endpoint detail)) w =
    inr (unnoted W (length w.audit) id w.db, tt)

module _ (A : CaddyApplier) where
  -- What Caddy runs was found to be what the state asks for.
  abbrev pub Verified : DesiredState → Value → Type 0
  Verified state running =
      (observed : Value) × (A.get_running_config running ≡ ok observed)
      × (A.structural_diff state observed ≡ ok [])

  pub verify_equivalence-cases :
      (state : DesiredState) (w : World)
      → (Verified state w.caddy × (verify_equivalence A state w ≡ (w, ok tt)))
        ⊎ ((e : ApplyError) × (verify_equivalence A state w ≡ (w, err e)))
  unfolding verify_equivalence
  verify_equivalence-cases state w = elim (Result-split (A.get_running_config w.caddy)) [
    | inr (e, h) ↦ inr (running_error e, rw h refl)
    | inl (observed, h) ↦ elim (Result-split (A.structural_diff state observed)) [
      | inr (e, k) ↦ inr (storage e, rw (h, k) refl)
      | inl ([], k) ↦ inl ((observed, h, k), rw (h, k) refl)
      | inl (d ∷ ds, k) ↦ inr (diffs_rejected (d ∷ ds), rw (h, k) refl)
    ]
  ]

  pub cas_advance-cases :
      (v : ℤ) (id : SnapshotId) (w : World)
      → ((after : Database) × (n : ℤ) × (cas_advance_config_version w.db A.instance_id v id
            ≡ ok (n, after))
          × (cas_advance A v id w ≡ (record w { db = after }, ok tt)))
        ⊎ ((e : ApplyError) × (cas_advance A v id w ≡ (w, err e)))
  unfolding cas_advance
  cas_advance-cases v id w =
      elim (Result-split (cas_advance_config_version w.db A.instance_id v id)) [
        | inr (e, h) ↦
            inr (storage ("cas_advance_config_version: " ++ A.show_storage_error e), rw h refl)
        | inl ((n, after), h) ↦ inl (after, n, h, rw h refl)
      ]

  pub verified :
      (state : DesiredState) (w : World)
      → Verified state w.caddy
      → verify_equivalence A state w ≡ (w, ok tt)
  unfolding verify_equivalence
  verified state w found = rw (found.1, found.2) refl
