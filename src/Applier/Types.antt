-- ===== src/Applier/Types.antt =====
-- The outcome types of reconciler/applier.rs, `CaddyError` of caddy/error.rs, and the input of the
-- audit writer.
use Prim.Native.String.{◌++◌}
use trilithon.Base.{ℕ, String, List, Option}
use trilithon.Base.Int.{ℤ}
use trilithon.Base.Text.Decimal.{to_string}
use trilithon.Mutation.Types.{SnapshotId}
use trilithon.Audit.Event.{AuditEvent}
use trilithon.Storage.Types.{AuditOutcome}
use trilithon.Reconciler.Render.{RenderError}

pub data AppliedState : Type 0 where
  applied : AppliedState
  tls_issuing : List String → AppliedState

-- The drain window is a u32.
pub data ReloadKind : Type 0 where
  graceful : Option ℕ → ReloadKind
  abrupt : ReloadKind

pub data ApplyFailureKind : Type 0 where
  caddy_validation : ApplyFailureKind
  caddy_server_error : ApplyFailureKind
  caddy_unreachable_kind : ApplyFailureKind
  capability_mismatch_kind : String → ApplyFailureKind
  ownership_sentinel_conflict_kind : Option String → ApplyFailureKind
  renderer_kind : ApplyFailureKind

pub data ApplyOutcome : Type 0 where
  succeeded : SnapshotId → ℤ → AppliedState → ReloadKind → ℕ → ApplyOutcome
  failed : SnapshotId → ApplyFailureKind → String → ApplyOutcome
  conflicted : ℤ → ℤ → ApplyOutcome

pub data ApplyError : Type 0 where
  caddy_rejected : String → ApplyError
  optimistic_conflict_error : ℤ → ℤ → ApplyError
  capability_mismatch : String → ApplyError
  unreachable : String → ApplyError
  ownership_sentinel_conflict : String → Option String → ApplyError
  renderer : RenderError → ApplyError
  storage : String → ApplyError
  lock_contested : ℤ → ApplyError

pub record ValidationFailure : Type 0 where
  pub path : String
  pub message : String

pub record ValidationReport : Type 0 where
  pub failures : List ValidationFailure

pub data AppliedStateTag : Type 0 where
  applied_tag : AppliedStateTag
  tls_issuing_tag : AppliedStateTag

pub record ApplyAuditNotes : Type 0 where
  pub reload_kind : ReloadKind
  pub applied_state : AppliedStateTag
  pub drain_window_ms : Option ℕ
  pub error_kind : Option String
  pub error_detail : Option String
  pub caddy_status : Option ℕ
  pub stale_version : Option ℤ
  pub current_version : Option ℤ

-- The status is a u16, the seconds a u32.
pub data CaddyError : Type 0 where
  caddy_unreachable_error : String → CaddyError
  bad_status : ℕ → String → CaddyError
  timeout : ℕ → CaddyError
  protocol_violation : String → CaddyError
  invalid_endpoint : String → CaddyError

-- `to_string`
unfoldable pub show_caddy_error : CaddyError → String
show_caddy_error (caddy_unreachable_error detail) = "caddy admin endpoint unreachable: " ++ detail
show_caddy_error (bad_status status body) =
    "caddy responded " ++ (to_string status ++ (": " ++ body))
show_caddy_error (timeout seconds) = "operation timed out after " ++ (to_string seconds ++ "s")
show_caddy_error (protocol_violation detail) = "caddy admin protocol violation: " ++ detail
show_caddy_error (invalid_endpoint detail) = "invalid caddy admin endpoint: " ++ detail

-- The applier always writes as the component `caddy-applier`, with no target and no diff.
pub record AuditAppend : Type 0 where
  pub correlation_id : ℕ
  pub event : AuditEvent
  pub snapshot_id : SnapshotId
  pub outcome : AuditOutcome
  pub error_kind : Option String
  pub notes : ApplyAuditNotes
