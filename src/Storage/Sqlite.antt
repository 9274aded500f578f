-- ===== src/Storage/Sqlite.antt =====
-- The tables of sqlite_storage.rs, and its operations on snapshots and on the applied version, with
-- storage_sqlite/snapshots.rs. A statement means what SQL says of it; an operation that returns an
-- error has rolled its transaction back, so the database stays as it was. A failure of the database
-- itself (a lock, a full disk) is not modelled. The SHA-256 digest of a text is a parameter.
pub mod Ledger
pub mod Advance
pub mod Chain
pub mod Newest
pub mod Audit
pub mod Drift
pub mod Locks
pub mod Reads
pub mod Tail
use Prim.Native.String.{len, ◌++◌}
use trilithon.Base.{
  ℕ, zero, suc, ◌-◌, ◌*◌, ◌/◌, ◌^◌, String, Bool, true, not, ◌&&◌, List, [], ◌∷◌, Option, none,
  some, if◌then◌else◌, str_eq, ltb, length, is_some, Result, ok, err, ◌>>=◌, ◌>>◌, refuse_if,
}
use trilithon.Base.Int.{ℤ, pos, negsuc, ◌==ℤ◌, ltb_ℤ, wrapping_suc}
use trilithon.Base.Text.Decimal.{to_string}
use trilithon.Base.BTreeMap.{BTreeMap, get, insert, contains_key}
use trilithon.Mutation.Types.{SnapshotId}
use trilithon.Storage.Types.{
  Snapshot, validate_intent, AuditEventRow, DriftEventRow, ParentChain, ActorKind, user, token,
  system, StorageError, integrity, snapshot_parent_not_found, snapshot_version_not_monotonic,
  snapshot_hash_collision, optimistic_conflict,
}
use trilithon.Storage.Tables.{find, select, order_by, limit, first, reversed}

-- A row of the table `snapshots`.
pub record SnapshotRow : Type 0 where
  pub id : String
  pub parent_id : Option String
  pub caddy_instance_id : String
  pub actor_kind : String
  pub actor_id : String
  pub intent : String
  pub correlation_id : String
  pub caddy_version : String
  pub trilithon_version : String
  pub created_at : ℤ
  pub created_at_ms : ℤ
  pub created_at_monotonic_ns : ℤ
  pub config_version : ℤ
  pub canonical_json_version : ℤ
  pub desired_state_json : String

-- `applied` is `applied_config_version` of the rows of `caddy_instances`, and `apply_locks` the
-- holder of each lock, both by the instance's id.
pub record Database : Type 0 where
  pub snapshots : List SnapshotRow
  pub audit_log : List AuditEventRow
  pub drift_events : List DriftEventRow
  pub applied : BTreeMap ℤ
  pub apply_locks : BTreeMap ℤ

-- `n as i64` for a u64, and `v as u64` back
abbrev pub to_i64 : ℕ → ℤ
to_i64 n = if ltb n (2 ^ 63) then pos n else negsuc (2 ^ 64 - 1 - n)

abbrev pub to_u64 : ℤ → ℕ
to_u64 (pos n) = n
to_u64 (negsuc n) = 2 ^ 64 - 1 - n

abbrev pub saturate_u64 : ℕ → ℕ
saturate_u64 n = if ltb n (2 ^ 64) then n else 2 ^ 64 - 1

-- `{v}` of an i64
abbrev pub show_ℤ : ℤ → String
show_ℤ (pos n) = to_string n
show_ℤ (negsuc n) = "-" ++ to_string (suc n)

unfoldable pub parse_actor_kind : String → Result StorageError ActorKind
parse_actor_kind s =
    if str_eq s "user"
    then ok user
    else if str_eq s "token"
    then ok token
    else if str_eq s "system"
    then ok system
    else err (integrity ("unknown actor_kind: " ++ s))

abbrev pub try_u32 : ℤ → Option ℕ
try_u32 (pos n) = if ltb n (2 ^ 32) then some n else none
try_u32 (negsuc n) = none

abbrev pub version_or_err : ℤ → Result StorageError ℕ
version_or_err v = elim (try_u32 v) [
  | some n ↦ ok n
  | none ↦ err (integrity ("canonical_json_version " ++ (show_ℤ v ++ " is out of u32 range")))
]

unfoldable pub row_to_snapshot : SnapshotRow → Result StorageError Snapshot
row_to_snapshot row = do
  kind ← parse_actor_kind row.actor_kind
  canonical_json_version ← version_or_err row.canonical_json_version
  ok (record {
    snapshot_id = row.id;
    parent_id = row.parent_id;
    config_version = row.config_version;
    actor = row.actor_id;
    intent = row.intent;
    correlation_id = row.correlation_id;
    caddy_version = row.caddy_version;
    trilithon_version = row.trilithon_version;
    created_at_unix_seconds = row.created_at;
    created_at_monotonic_nanos = saturate_u64 (to_u64 row.created_at_ms * 1000000);
    canonical_json_version = canonical_json_version;
    desired_state_json = row.desired_state_json;
  })

-- `rows.iter().map(row_to_snapshot).collect()`
unfoldable pub collect : List SnapshotRow → Result StorageError (List Snapshot)
collect [] = ok []
collect (row ∷ rows) = do snapshot ← row_to_snapshot row; rest ← collect rows; ok (snapshot ∷ rest)

-- `row.map(row_to_snapshot).transpose()`
unfoldable pub transpose : Option SnapshotRow → Result StorageError (Option Snapshot)
transpose none = ok none
transpose (some row) = do snapshot ← row_to_snapshot row; ok (some snapshot)

abbrev pub has_id : String → SnapshotRow → Bool
has_id id row = str_eq row.id id

-- The row that the `INSERT` writes.
unfoldable pub to_row : Snapshot → SnapshotRow
to_row s = record {
  id = s.snapshot_id;
  parent_id = s.parent_id;
  caddy_instance_id = "local";
  actor_kind = "system";
  actor_id = s.actor;
  intent = s.intent;
  correlation_id = s.correlation_id;
  caddy_version = s.caddy_version;
  trilithon_version = s.trilithon_version;
  created_at = s.created_at_unix_seconds;
  created_at_ms = to_i64 (s.created_at_monotonic_nanos / 1000000);
  created_at_monotonic_ns = to_i64 s.created_at_monotonic_nanos;
  config_version = s.config_version;
  canonical_json_version = pos s.canonical_json_version;
  desired_state_json = s.desired_state_json;
}

abbrev pub max_of : Option ℤ → ℤ → ℤ
max_of none v = v
max_of (some m) v = if ltb_ℤ m v then v else m

-- `SELECT MAX(config_version) … WHERE caddy_instance_id = 'local'`
unfoldable pub max_version : List SnapshotRow → Option ℤ
max_version [] = none
max_version (row ∷ rows) =
    let rest = max_version rows in
    if str_eq row.caddy_instance_id "local" then some (max_of rest row.config_version) else rest

unfoldable pub check_existing : SnapshotRow → Snapshot → Result StorageError (Unit {0})
check_existing row snapshot = do
  refuse_if (not (str_eq row.desired_state_json snapshot.desired_state_json))
      (snapshot_hash_collision snapshot.snapshot_id)
  refuse_if (not (row.config_version ==ℤ snapshot.config_version)) (
      integrity (
        "duplicate snapshot "
        ++ (snapshot.snapshot_id
            ++ (": incoming config_version "
                ++ (show_ℤ snapshot.config_version
                    ++ (" does not match stored " ++ show_ℤ row.config_version))))))

unfoldable pub check_parent : List SnapshotRow → Option SnapshotId → Result StorageError (Unit {0})
check_parent rows none = ok tt
check_parent rows (some parent) =
    refuse_if (not (is_some (find (has_id parent) rows))) (snapshot_parent_not_found parent)

unfoldable pub check_monotonic : Option ℤ → ℤ → Result StorageError (Unit {0})
check_monotonic none version = ok tt
check_monotonic (some m) version =
    refuse_if (not (ltb_ℤ m version)) (snapshot_version_not_monotonic version m)

unfoldable pub insert_new : Database → Snapshot → Result StorageError (SnapshotId × Database)
insert_new db snapshot = do
  check_parent db.snapshots snapshot.parent_id
  check_monotonic (max_version db.snapshots) snapshot.config_version
  ok (snapshot.snapshot_id, record db { snapshots = to_row snapshot ∷ db.snapshots })

unfoldable pub insert_snapshot_inner :
    Database → Snapshot → Result StorageError (SnapshotId × Database)
insert_snapshot_inner db snapshot = elim (find (has_id snapshot.snapshot_id) db.snapshots) [
  | some row ↦ do check_existing row snapshot; ok (snapshot.snapshot_id, db)
  | none ↦ insert_new db snapshot
]

module _ (content_address : String → String) where
  unfoldable pub validate_snapshot_invariants : Snapshot → Result StorageError (Unit {0})
  validate_snapshot_invariants snapshot = do
    refuse_if (not (str_eq (content_address snapshot.desired_state_json) snapshot.snapshot_id)) (
        integrity (
          "snapshot_id "
          ++ (snapshot.snapshot_id
              ++ (" does not match SHA-256 of desired_state_json (expected "
                  ++ (content_address snapshot.desired_state_json ++ ")")))))
    refuse_if (not (validate_intent snapshot.intent)) (
        integrity (
          "intent field exceeds maximum length ("
          ++ (to_string (len snapshot.intent) ++ " bytes)")))

  unfoldable pub insert_snapshot : Database → Snapshot → Result StorageError (SnapshotId × Database)
  insert_snapshot db snapshot = do
    validate_snapshot_invariants snapshot
    insert_snapshot_inner db snapshot

unfoldable pub get_snapshot : Database → SnapshotId → Result StorageError (Option Snapshot)
get_snapshot db id = transpose (find (has_id id) db.snapshots)

abbrev pub newer : SnapshotRow → SnapshotRow → Bool
newer a b = ltb_ℤ b.config_version a.config_version

abbrev pub is_before : Option ℤ → SnapshotRow → Bool
is_before none row = true
is_before (some before) row = ltb_ℤ row.config_version before

unfoldable pub list_snapshots : Database → ℕ → Option ℤ → Result StorageError (List Snapshot)
list_snapshots db n cursor_before_version =
    collect (limit n (order_by newer (select (is_before cursor_before_version) db.snapshots)))

unfoldable pub latest_desired_state : Database → Result StorageError (Option Snapshot)
latest_desired_state db = transpose (first (order_by newer db.snapshots))

abbrev pub max_parent_chain_depth : ℕ
max_parent_chain_depth = 256

-- The rows of the recursive query, from the leaf on: a row of depth `d` is followed by its parent
-- as long as `d` is below the limit.
unfoldable pub chain : List SnapshotRow → ℕ → Option String → List SnapshotRow
chain rows n none = []
chain rows zero (some id) = elim (find (has_id id) rows) [ none ↦ [] | some row ↦ row ∷ [] ]
chain rows (suc n) (some id) = elim (find (has_id id) rows) [
  | none ↦ []
  | some row ↦ row ∷ chain rows n row.parent_id
]

-- The rows in the order of the query, the deepest first, cut to the depth.
unfoldable pub to_chain : List SnapshotRow → ℕ → Result StorageError ParentChain
to_chain rows max_depth = do
  let truncated = ltb max_depth (length rows)
  snapshots ← collect (limit (if truncated then max_depth else length rows) rows)
  ok (record { snapshots = snapshots; truncated = truncated })

unfoldable pub parent_chain : Database → SnapshotId → ℕ → Result StorageError ParentChain
parent_chain db leaf max_depth = do
  refuse_if (ltb max_parent_chain_depth max_depth) (
      integrity (
        "max_depth "
        ++ (to_string max_depth ++ (" exceeds ceiling " ++ to_string max_parent_chain_depth))))
  to_chain (reversed (chain db.snapshots (suc max_depth) (some leaf))) max_depth

-- A row that is missing counts as version 0.
abbrev pub or_zero : Option ℤ → ℤ
or_zero none = pos 0
or_zero (some version) = version

unfoldable pub current_config_version : Database → String → ℤ
current_config_version db instance_id = or_zero (get db.applied instance_id)

-- `SELECT COUNT(*) FROM snapshots WHERE id = ? AND caddy_instance_id = ? AND config_version = ?`
abbrev pub is_next : SnapshotId → String → ℤ → SnapshotRow → Bool
is_next id instance_id version row =
    str_eq row.id id && str_eq row.caddy_instance_id instance_id && row.config_version ==ℤ version

unfoldable pub cas_advance_config_version :
    Database → String → ℤ → SnapshotId → Result StorageError (ℤ × Database)
cas_advance_config_version db instance_id expected_version new_snapshot_id = do
  let observed = current_config_version db instance_id
  refuse_if (not (observed ==ℤ expected_version)) (optimistic_conflict observed expected_version)
  let new_version = wrapping_suc expected_version
  refuse_if (not (is_some (find (is_next new_snapshot_id instance_id new_version) db.snapshots))) (
      integrity (
        "advance_config_version_if_eq: snapshot "
        ++ (new_snapshot_id
            ++ (" not found or config_version mismatch for instance "
                ++ (instance_id
                    ++ (" (expected config_version=" ++ (show_ℤ new_version ++ ")")))))))
  refuse_if (not (contains_key db.applied instance_id)) (
      integrity
        ("advance_config_version_if_eq: caddy_instances row missing for instance " ++ instance_id))
  ok (new_version, record db { applied = insert db.applied instance_id new_version })
