-- ===== src/Applier/Reports.antt =====
-- The steps of adapters/src/applier_caddy.rs that do not touch what the applier is built with: the
-- rows it hands to the audit writer, its errors and its texts. The notes of a row, a JSON text in the
-- source, are kept as a record.
use Prim.Native.String.{len, ◌++◌}
use mathlib.Core.List.{◌++◌ as append}
use trilithon.Base.{
  ℕ, ◌-◌, ◌/◌, String, Bool, true, false, List, [], ◌∷◌, Option, none, some, if◌then◌else◌, leb,
  ◌==◌, length, Result, ok, err, map,
}
use trilithon.Base.Int.{ℤ}
use trilithon.Base.Text.Decimal.{to_string}
use trilithon.Base.BTreeMap.{BTreeMap}
use trilithon.Model.Hostname.{HostPattern, exact, wildcard}
use trilithon.Model.Route.{Route}
use trilithon.Mutation.Types.{SnapshotId}
use trilithon.Audit.Event.{apply_succeeded, apply_failed, mutation_conflicted, caddy_unreachable}
use trilithon.Storage.Types.{outcome_ok, outcome_error}
use trilithon.Storage.Sqlite.Locks.{LockError, already_held, lock_storage}
use trilithon.Reconciler.CapabilityCheck.{CapabilityCheckError, missing}
use trilithon.Applier.Types.{
  graceful, ApplyFailureKind, caddy_validation, caddy_server_error, ApplyOutcome, failed,
  conflicted, ApplyError, caddy_rejected, capability_mismatch, unreachable, storage, lock_contested,
  applied_tag, ApplyAuditNotes, CaddyError, caddy_unreachable_error, bad_status, timeout,
  protocol_violation, invalid_endpoint, show_caddy_error, AuditAppend,
}
use trilithon.Applier.Monad.{M, ◌>>◌, pure, fail_with}
use trilithon.Applier.Writer.{AuditWriter, record_audit}

-- The characters that fit into a number of bytes.
unfoldable pub take_bytes : ℕ → String → String
take_bytes n String.[] = String.[]
take_bytes n (String.◌∷◌ c s) =
    let size = len (String.◌∷◌ c String.[]) in
    let rest = take_bytes (n - size) s in if leb size n then String.◌∷◌ c rest else String.[]

abbrev pub excerpt_max_bytes : ℕ
excerpt_max_bytes = 512

unfoldable pub bounded_excerpt : String → String
bounded_excerpt s =
    if leb (len s) excerpt_max_bytes then s else take_bytes (excerpt_max_bytes - 3) s ++ "…"

-- The notes of every row: only the error differs.
abbrev pub notes : Option String → Option String → Option ℕ → ApplyAuditNotes
notes error_kind error_detail caddy_status = record {
  reload_kind = graceful none;
  applied_state = applied_tag;
  drain_window_ms = none;
  error_kind = error_kind;
  error_detail = error_detail;
  caddy_status = caddy_status;
  stale_version = none;
  current_version = none;
}

unfoldable pub write_unreachable_audit : AuditWriter → ℕ → SnapshotId → String → M (Unit {0})
write_unreachable_audit W correlation_id snapshot_id detail = record_audit W (record {
  correlation_id = correlation_id;
  event = caddy_unreachable;
  snapshot_id = snapshot_id;
  outcome = outcome_error;
  error_kind = some "CaddyUnreachable";
  notes = notes (some "CaddyUnreachable") (some detail) none;
})

abbrev pub failure : Bool → ApplyFailureKind
failure true = caddy_validation
failure false = caddy_server_error

abbrev pub failure_str : Bool → String
failure_str true = "CaddyValidation"
failure_str false = "CaddyServerError"

-- Caddy's answer with another status than 2xx: 4xx is a validation failure.
unfoldable pub bad_status_outcome :
    AuditWriter → ℕ → SnapshotId → ℕ → String → M (Option ApplyOutcome)
bad_status_outcome W correlation_id snapshot_id status body = do
  let diffs_rejected = status / 100 == 4
  record_audit W (record {
    correlation_id = correlation_id;
    event = apply_failed;
    snapshot_id = snapshot_id;
    outcome = outcome_error;
    error_kind = some (failure_str diffs_rejected);
    notes = notes (some (failure_str diffs_rejected)) (some (bounded_excerpt body)) (some status);
  })
  pure (some (failed snapshot_id (failure diffs_rejected) (bounded_excerpt body)))

unfoldable pub load_failed :
    AuditWriter → ℕ → SnapshotId → Result CaddyError (Unit {0}) → M (Option ApplyOutcome)
load_failed W correlation_id snapshot_id (ok _) = pure none
load_failed W correlation_id snapshot_id (err (caddy_unreachable_error detail)) = do
  write_unreachable_audit W correlation_id snapshot_id detail
  fail_with (unreachable detail)
load_failed W correlation_id snapshot_id (err (timeout seconds)) = do
  let detail = "operation timed out after " ++ (to_string seconds ++ "s")
  write_unreachable_audit W correlation_id snapshot_id detail
  fail_with (unreachable detail)
load_failed W correlation_id snapshot_id (err (bad_status status body)) =
    bad_status_outcome W correlation_id snapshot_id status body
load_failed W correlation_id snapshot_id (err (protocol_violation detail)) =
    fail_with (storage (show_caddy_error (protocol_violation detail)))
load_failed W correlation_id snapshot_id (err (invalid_endpoint detail)) =
    fail_with (storage (show_caddy_error (invalid_endpoint detail)))

abbrev pub running_error : CaddyError → ApplyError
running_error (caddy_unreachable_error detail) =
    unreachable (show_caddy_error (caddy_unreachable_error detail))
running_error (timeout seconds) = unreachable (show_caddy_error (timeout seconds))
running_error (bad_status status body) = caddy_rejected (show_caddy_error (bad_status status body))
running_error (protocol_violation detail) =
    caddy_rejected (show_caddy_error (protocol_violation detail))
running_error (invalid_endpoint detail) =
    caddy_rejected (show_caddy_error (invalid_endpoint detail))

-- `diffs.join(", ")`
unfoldable pub join : List String → String
join [] = ""
join (s ∷ []) = s
join (s ∷ t ∷ rest) = s ++ (", " ++ join (t ∷ rest))

abbrev pub diffs_rejected : List String → ApplyError
diffs_rejected diffs = caddy_rejected (
    "post-load equivalence failed: "
    ++ (to_string (length diffs) ++ (" path(s) differ: " ++ join diffs)))

abbrev pub require_equal : List String → M (Unit {0})
require_equal [] = pure tt
require_equal (d ∷ ds) = fail_with (diffs_rejected (d ∷ ds))

unfoldable pub handle_conflict : AuditWriter → ℕ → SnapshotId → ℤ → ℤ → M ApplyOutcome
handle_conflict W correlation_id snapshot_id stale_version current_version = do
  record_audit W (record {
    correlation_id = correlation_id;
    event = mutation_conflicted;
    snapshot_id = snapshot_id;
    outcome = outcome_error;
    error_kind = some "OptimisticConflict";
    notes = record (notes (some "OptimisticConflict") none none) {
      stale_version = some stale_version;
      current_version = some current_version;
    };
  })
  pure (conflicted stale_version current_version)

abbrev pub applied_row : ℕ → SnapshotId → AuditAppend
applied_row correlation_id snapshot_id = record {
  correlation_id = correlation_id;
  event = apply_succeeded;
  snapshot_id = snapshot_id;
  outcome = outcome_ok;
  error_kind = none;
  notes = notes none none none;
}

unfoldable pub write_apply_succeeded_audit : AuditWriter → ℕ → SnapshotId → M (Unit {0})
write_apply_succeeded_audit W correlation_id snapshot_id =
    record_audit W (applied_row correlation_id snapshot_id)

abbrev pub host_of_pattern : HostPattern → String
host_of_pattern (exact h) = h
host_of_pattern (wildcard h) = h

unfoldable pub host_names : BTreeMap Route → List String
host_names [] = []
host_names ((_, r) ∷ routes) =
    let rest = host_names routes in
    if r.enabled then append (map host_of_pattern r.hostnames) rest else rest

abbrev pub lock_error : LockError → ApplyError
lock_error (already_held pid) = lock_contested pid
lock_error (lock_storage s) = storage ("advisory lock: " ++ s)

abbrev pub capability_error : CapabilityCheckError → ApplyError
capability_error (missing m site) = capability_mismatch m
