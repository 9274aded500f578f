-- ===== src/Applier/Apply.antt =====
-- adapters/src/applier_caddy.rs: the applier. What it is built with, and what it asks of the machine,
-- are the fields of a record.
pub mod Steps
pub mod Outcome
pub mod Success
pub mod Sequence
pub mod Rollback
pub mod Chained
use Prim.Native.String.{◌++◌}
use trilithon.Base.{
  ℕ, ◌^◌, ◌-◌, String, Bool, not, ◌&&◌, List, [], ◌∷◌, Option, none, some, if◌then◌else◌, ltb,
  is_empty, Result, ok, err, ok_or,
}
use trilithon.Base.Int.{ℤ, ◌==ℤ◌}
use trilithon.Model.Json.{Value}
use trilithon.Model.State.{DesiredState}
use trilithon.Mutation.Types.{SnapshotId, CapabilitySet}
use trilithon.Storage.Types.{Snapshot, StorageError}
use trilithon.Storage.Sqlite.{
  Database, current_config_version, cas_advance_config_version, get_snapshot,
}
use trilithon.Storage.Sqlite.Locks.{Locks, LockError, Gaps, acquire_apply_lock, release}
use trilithon.Reconciler.Render.{render_state}
use trilithon.Reconciler.CapabilityCheck.{CapabilityCheckError, check_against_capability_set}
use trilithon.Applier.Types.{
  applied, graceful, ApplyOutcome, succeeded, ApplyError, renderer, storage, ValidationReport,
  CaddyError,
}
use trilithon.Applier.Monad.{World, M, ◌>>=◌, ◌>>◌, pure, lift}
use trilithon.Applier.Writer.{AuditWriter}
use trilithon.Applier.Reports.{
  load_failed, running_error, require_equal, handle_conflict, write_apply_succeeded_audit,
  host_names, lock_error, capability_error,
}

-- `load_config` takes what Caddy runs and the document, and says what Caddy runs then. The JSON
-- parsers, the parser of ULIDs with the fresh one in its place, the derived texts of errors and
-- identifiers, the other processes, the own process id and the time that an apply takes are given.
pub record CaddyApplier : Type 0 where
  pub load_config : Value → Value → Value × Result CaddyError (Unit {0})
  pub get_running_config : Value → Result CaddyError Value
  pub structural_diff : DesiredState → Value → Result String (List String)
  pub audit : AuditWriter
  pub capabilities : Option CapabilitySet
  pub instance_id : String
  pub tls_observer : Bool
  pub parse_state : String → Result String DesiredState
  pub parse : String → Result String Value
  pub parse_ulid : String → Option ℕ
  pub fallback_ulid : ℕ
  pub show_storage_error : StorageError → String
  pub debug_id : SnapshotId → String
  pub process_alive : ℤ → Bool
  pub gaps : Gaps
  pub holder_pid : ℤ
  pub elapsed_ms : ℕ

-- `elapsed.unsigned_abs().min(u64::from(u32::MAX)) as u32`
abbrev pub latency : ℕ → ℕ
latency ms = if ltb ms (2 ^ 32) then ms else 2 ^ 32 - 1

module _ (A : CaddyApplier) where
  unfoldable pub parse_desired_state : Snapshot → Result ApplyError DesiredState
  parse_desired_state snapshot = elim (A.parse_state snapshot.desired_state_json) [
    | ok state ↦ ok state
    | err e ↦ err (storage ("deserialise desired_state_json: " ++ e))
  ]

  abbrev pub check_cached :
      Option CapabilitySet → DesiredState → Result CapabilityCheckError (Unit {0})
  check_cached none state = ok tt
  check_cached (some capabilities) state = check_against_capability_set A.parse state capabilities

  unfoldable pub load_or_fail : Value → ℕ → SnapshotId → M (Option ApplyOutcome)
  load_or_fail document correlation_id snapshot_id w =
      let (running, answer) = A.load_config w.caddy document in
      load_failed A.audit correlation_id snapshot_id answer (record w { caddy = running })

  unfoldable pub verify_equivalence : DesiredState → M (Unit {0})
  verify_equivalence desired_state w =
      (do
        observed ← lift running_error (A.get_running_config w.caddy)
        diffs ← lift storage (A.structural_diff desired_state observed)
        require_equal diffs)
        w

  abbrev pub stored_advance :
      World → Result StorageError (ℤ × Database) → World × Result ApplyError (Unit {0})
  stored_advance w (ok (_, db)) = (record w { db = db }, ok tt)
  stored_advance w (err e) =
      (w, err (storage ("cas_advance_config_version: " ++ A.show_storage_error e)))

  unfoldable pub cas_advance : ℤ → SnapshotId → M (Unit {0})
  cas_advance expected_version snapshot_id w =
      stored_advance w (cas_advance_config_version w.db A.instance_id expected_version snapshot_id)

  -- The task that the observer runs is not followed.
  unfoldable pub observe : DesiredState → M (Unit {0})
  observe state w =
      let names = host_names state.routes in
      (
        record w {
          observed =
              if A.tls_observer && not (is_empty names) then names ∷ w.observed else w.observed;
        },
        ok tt,
      )

  abbrev pub success : Snapshot → ApplyOutcome
  success snapshot =
      succeeded snapshot.snapshot_id snapshot.config_version applied (graceful none)
        (latency A.elapsed_ms)

  unfoldable pub after_load : Snapshot → ℤ → ℕ → DesiredState → Option ApplyOutcome → M ApplyOutcome
  after_load snapshot expected_version correlation_id state (some outcome) = pure outcome
  after_load snapshot expected_version correlation_id state none = do
    verify_equivalence state
    cas_advance expected_version snapshot.snapshot_id
    write_apply_succeeded_audit A.audit correlation_id snapshot.snapshot_id
    observe state
    pure (success snapshot)

  unfoldable pub apply_current : Snapshot → ℤ → ℕ → M ApplyOutcome
  apply_current snapshot expected_version correlation_id = do
    state ← lift (λ e. e) (parse_desired_state snapshot)
    document ← lift renderer (render_state A.parse state)
    lift capability_error (check_cached A.capabilities state)
    failed_outcome ← load_or_fail document correlation_id snapshot.snapshot_id
    after_load snapshot expected_version correlation_id state failed_outcome

  -- What is done under the lock.
  unfoldable pub apply_locked : Snapshot → ℤ → ℕ → M ApplyOutcome
  apply_locked snapshot expected_version correlation_id w =
      let observed = current_config_version w.db A.instance_id in
      if observed ==ℤ expected_version
      then apply_current snapshot expected_version correlation_id w
      else handle_conflict A.audit correlation_id snapshot.snapshot_id expected_version observed w

  abbrev pub with_locks : World → Locks → World
  with_locks w locks = record w { db = record w.db { apply_locks = locks } }

  abbrev pub unlocked_db : Database → Database
  unlocked_db db = record db { apply_locks = release db.apply_locks A.instance_id A.holder_pid }

  abbrev pub unlock :
      World × Result ApplyError ApplyOutcome → World × Result ApplyError ApplyOutcome
  unlock (w, result) = (record w { db = unlocked_db w.db }, result)

  unfoldable pub under_lock : Result LockError (Unit {0}) → M ApplyOutcome → M ApplyOutcome
  under_lock (err e) body w = (w, err (lock_error e))
  under_lock (ok _) body w = unlock (body w)

  abbrev pub correlation_of : Snapshot → ℕ
  correlation_of snapshot = elim (A.parse_ulid snapshot.correlation_id) [
    | some id ↦ id
    | none ↦ A.fallback_ulid
  ]

  unfoldable pub apply : Snapshot → ℤ → M ApplyOutcome
  apply snapshot expected_version w =
      let (locks, answer) =
        acquire_apply_lock A.process_alive A.gaps w.db.apply_locks A.instance_id A.holder_pid in
      under_lock answer (apply_locked snapshot expected_version (correlation_of snapshot))
        (with_locks w locks)

  unfoldable pub validate : Snapshot → Result ApplyError ValidationReport
  validate snapshot = ok (record { failures = [] })

  abbrev pub found : Option Snapshot → SnapshotId → Result ApplyError Snapshot
  found target id =
      ok_or target (storage ("rollback target snapshot " ++ (A.debug_id id ++ " not found")))

  unfoldable pub rollback : SnapshotId → M ApplyOutcome
  rollback target w =
      (do
        stored ← lift (λ e. storage (A.show_storage_error e)) (get_snapshot w.db target)
        snapshot ← lift (λ e. e) (found stored target)
        apply snapshot (current_config_version w.db A.instance_id))
        w
