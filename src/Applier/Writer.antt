-- ===== src/Applier/Writer.antt =====
-- `AuditWriter::record` of adapters/src/audit_writer.rs, for the rows of the applier, which have no
-- target and no diff, so that the redactor is not asked.
use Prim.Native.String.{len}
use trilithon.Base.{
  ℕ, zero, suc, ◌*◌, ◌/◌, String, List, ◌∷◌, none, some, ltb, length, Result, ok, err, ◌>>◌,
  refuse_if, ◌≡◌, refl, ◌⊎◌, inl, inr, Result-split, >>-eq-ok,
}
use trilithon.Base.Int.{ℤ, pos, negsuc}
use trilithon.Audit.Event.{kind_str}
use trilithon.Storage.Types.{AuditEventRow, system, StorageError}
use trilithon.Storage.Sqlite.{Database}
use trilithon.Storage.Sqlite.Audit.{
  Hashing, audit_prev_hash_seed, next_prev_hash, record_audit_event,
}
use trilithon.Storage.Sqlite.Audit.Verified.{record-whole}
use trilithon.Applier.Types.{ApplyAuditNotes, AuditAppend}
use trilithon.Applier.Monad.{World, M}

-- The fresh ids and the readings of the clock are numbered by the rows that were handed to the writer
-- before. The texts of the notes (serde_json) and of a ULID are given.
pub record AuditWriter : Type 0 where
  pub notes_to_string : ApplyAuditNotes → String
  pub show_ulid : ℕ → String
  pub row_id : ℕ → String
  pub now_unix_ms : ℕ → ℤ
  pub caddy_instance_id : String
  pub hashing : Hashing

pub data AuditWriteError : Type 0 where
  field_too_long : String → ℕ → ℕ → AuditWriteError
  storage_failed : StorageError → AuditWriteError

abbrev pub notes_max_len : ℕ
notes_max_len = 4 * 1024

abbrev negated : ℕ → ℤ
negated zero = pos 0
negated (suc n) = negsuc n

-- `now_ms / 1_000`, which rounds towards 0
abbrev pub in_seconds : ℤ → ℤ
in_seconds (pos n) = pos (n / 1000)
in_seconds (negsuc n) = negated (suc n / 1000)

module _ (W : AuditWriter) where
  abbrev pub event_row : ℕ → AuditAppend → AuditEventRow
  event_row n append = record {
    id = W.row_id n;
    prev_hash = audit_prev_hash_seed;
    caddy_instance_id = W.caddy_instance_id;
    correlation_id = W.show_ulid append.correlation_id;
    occurred_at = in_seconds (W.now_unix_ms n);
    occurred_at_ms = W.now_unix_ms n;
    actor_kind = system;
    actor_id = "caddy-applier";
    kind = kind_str append.event;
    target_kind = none;
    target_id = none;
    snapshot_id = some append.snapshot_id;
    redacted_diff_json = none;
    redaction_sites = 0;
    outcome = append.outcome;
    error_kind = append.error_kind;
    notes = some (W.notes_to_string append.notes);
  }

  abbrev written : Result StorageError (String × Database) → Result AuditWriteError Database
  written (ok (_, db)) = ok db
  written (err e) = err (storage_failed e)

  unfoldable pub write_row : ℕ → AuditAppend → Database → Result AuditWriteError Database
  write_row n append db = do
    let size = len (W.notes_to_string append.notes)
    refuse_if (ltb notes_max_len size) (field_too_long "notes" size notes_max_len)
    written (record_audit_event W.hashing db (event_row n append))

  -- `let _ = self.audit.record(…)`: a row that cannot be written is dropped.
  abbrev pub or_unchanged : Database → Result AuditWriteError Database → Database
  or_unchanged db (ok after) = after
  or_unchanged db (err _) = db

  unfoldable pub record_audit : AuditAppend → M (Unit {0})
  record_audit append w = (
    record w {
      db = or_unchanged w.db (write_row (length w.audit) append w.db);
      audit = append ∷ w.audit;
    },
    ok tt,
  )

  written-eq-ok :
      (answer : Result StorageError (String × Database)) (after : Database)
      → written answer ≡ ok after
      → (id : String) × (answer ≡ ok (id, after))
  written-eq-ok (ok (id, db)) after h = let same : db ≡ after = cc in (id, rw same refl)
  written-eq-ok (err e) after h = cc

  -- The row that the log gets for what was handed to the writer as the `n`th.
  abbrev pub linked_row : ℕ → AuditAppend → List AuditEventRow → AuditEventRow
  linked_row n append log = record (event_row n append) { prev_hash = next_prev_hash W.hashing log }

  write_row-ok :
      (n : ℕ) (append : AuditAppend) (db after : Database)
      → write_row n append db ≡ ok after
      → after ≡ record db { audit_log = linked_row n append db.audit_log ∷ db.audit_log }
  unfolding write_row
  write_row-ok n append db after h =
      let (_, rest) = >>-eq-ok (refuse_if _ _) _ h in
      let (id, done) = written-eq-ok _ after rest in
      (record-whole W.hashing db after (event_row n append) id done).1

  -- The log is as it was, or has the row of one entry more, of which `P` holds.
  abbrev pub Grown : ℕ → (AuditAppend → Type 0) → List AuditEventRow → List AuditEventRow → Type 0
  Grown n P old log =
      (log ≡ old) ⊎ ((append : AuditAppend) × P append × (log ≡ linked_row n append old ∷ old))

  -- The database but for its log stays as it was.
  pub recorded :
      (P : AuditAppend → Type 0) (append : AuditAppend) (w : World)
      → P append
      → (log : List AuditEventRow) × Grown (length w.audit) P w.db.audit_log log
        × (record_audit append w
            ≡ (record w { db = record w.db { audit_log = log }; audit = append ∷ w.audit }, ok tt))
  unfolding record_audit
  recorded P append w p = elim (Result-split (write_row (length w.audit) append w.db)) [
    | inr (e, h) ↦ (w.db.audit_log, inl refl, rw h refl)
    | inl (after, h) ↦
        let grown = write_row-ok (length w.audit) append w.db after h in
        (
          linked_row (length w.audit) append w.db.audit_log ∷ w.db.audit_log,
          inr (append, p, refl),
          rw (h, grown) refl,
        )
  ]
