-- ===== src/Storage/Types.antt =====
-- storage/types.rs and storage/error.rs of the core: the rows that cross the `Storage` trait. The
-- identifiers are newtypes over a text.
use Prim.Native.String.{len}
use trilithon.Base.{ℕ, ◌*◌, String, Bool, List, Option, leb}
use trilithon.Base.Int.{ℤ}
use trilithon.Model.Route.{UnixSeconds}
use trilithon.Mutation.Types.{SnapshotId}

pub record Snapshot : Type 0 where
  pub snapshot_id : SnapshotId
  pub parent_id : Option SnapshotId
  pub config_version : ℤ
  pub actor : String
  pub intent : String
  pub correlation_id : String
  pub caddy_version : String
  pub trilithon_version : String
  pub created_at_unix_seconds : UnixSeconds
  pub created_at_monotonic_nanos : ℕ  -- u64
  pub canonical_json_version : ℕ  -- u32
  pub desired_state_json : String

abbrev pub intent_max_bytes : ℕ
intent_max_bytes = 4 * 1024

abbrev pub validate_intent : String → Bool
validate_intent intent = leb (len intent) intent_max_bytes

pub data ActorKind : Type 0 where
  user : ActorKind
  token : ActorKind
  system : ActorKind

pub data AuditOutcome : Type 0 where
  outcome_ok : AuditOutcome
  outcome_error : AuditOutcome
  outcome_denied : AuditOutcome

-- `as_audit_str` of the two
abbrev pub actor_str : ActorKind → String
actor_str user = "user"
actor_str token = "token"
actor_str system = "system"

abbrev pub outcome_str : AuditOutcome → String
outcome_str outcome_ok = "ok"
outcome_str outcome_error = "error"
outcome_str outcome_denied = "denied"

pub record AuditEventRow : Type 0 where
  pub id : String
  pub prev_hash : String
  pub caddy_instance_id : String
  pub correlation_id : String
  pub occurred_at : UnixSeconds
  pub occurred_at_ms : ℤ
  pub actor_kind : ActorKind
  pub actor_id : String
  pub kind : String
  pub target_kind : Option String
  pub target_id : Option String
  pub snapshot_id : Option SnapshotId
  pub redacted_diff_json : Option String
  pub redaction_sites : ℕ  -- u32
  pub outcome : AuditOutcome
  pub error_kind : Option String
  pub notes : Option String

pub record AuditSelector : Type 0 where
  pub kind_glob : Option String
  pub actor_id : Option String
  pub correlation_id : Option String
  pub since : Option UnixSeconds
  pub until : Option UnixSeconds
  pub cursor_before : Option String

pub record ParentChain : Type 0 where
  pub snapshots : List Snapshot
  pub truncated : Bool

pub data DriftResolution : Type 0 where
  reapplied : DriftResolution
  accepted : DriftResolution
  rolled_back : DriftResolution
  deferred : DriftResolution

pub record DriftEventRow : Type 0 where
  pub id : String
  pub correlation_id : String
  pub detected_at : UnixSeconds
  pub snapshot_id : SnapshotId
  pub diff_json : String
  pub running_state_hash : String
  pub resolution : Option DriftResolution
  pub resolved_at : Option UnixSeconds

pub data ProposalSource : Type 0 where
  docker : ProposalSource
  llm : ProposalSource
  import_source : ProposalSource

pub data ProposalState : Type 0 where
  pending : ProposalState
  approved : ProposalState
  rejected : ProposalState
  expired : ProposalState
  superseded : ProposalState

pub record ProposalRow : Type 0 where
  pub id : String
  pub correlation_id : String
  pub source : ProposalSource
  pub source_ref : Option String
  pub payload_json : String
  pub rationale : Option String
  pub submitted_at : UnixSeconds
  pub expires_at : UnixSeconds
  pub state : ProposalState
  pub wildcard_callout : Bool

pub data SqliteErrorKind : Type 0 where
  constraint : SqliteErrorKind
  locked : SqliteErrorKind
  corrupt : SqliteErrorKind
  other_kind : String → SqliteErrorKind

-- `Io` holds an error of std, of which the text is kept.
pub data StorageError : Type 0 where
  integrity : String → StorageError
  audit_kind_unknown : String → StorageError
  snapshot_duplicate : SnapshotId → StorageError
  snapshot_parent_not_found : SnapshotId → StorageError
  snapshot_version_not_monotonic : ℤ → ℤ → StorageError
  snapshot_hash_collision : SnapshotId → StorageError
  proposal_duplicate : String → String → StorageError
  sqlite_busy : StorageError
  sqlite : SqliteErrorKind → StorageError
  migration : ℕ → String → StorageError
  not_yet_available : String → StorageError
  io : String → StorageError
  optimistic_conflict : ℤ → ℤ → StorageError
