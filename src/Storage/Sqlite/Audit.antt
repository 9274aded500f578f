-- ===== src/Storage/Sqlite/Audit.antt =====
-- The audit log of sqlite_storage.rs, with storage_sqlite/audit.rs and storage/helpers.rs. The text of
-- a JSON value (serde_json) and the SHA-256 digest of a text (sha2) are parameters.
pub mod Verified
use Prim.Native.Nat.{Ordering}
use Prim.Native.String.{compare}
use trilithon.Base.{
  suc, String, Bool, true, false, not, ◌&&◌, ◌||◌, List, [], ◌∷◌, Option, none, some, if◌then◌else◌,
  str_eq, is_some, Result, ok, ◌>>=◌, ◌>>◌, refuse_if,
}
use trilithon.Base.Int.{ℤ, pos, negsuc, ◌==ℤ◌, ltb_ℤ}
use trilithon.Base.BTreeMap.{contains}
use trilithon.Model.Json.{Value, Number, end, field, null, string, number, object}
use trilithon.Audit.Event.{audit_kinds, validate_audit_kind_pattern}
use trilithon.Storage.Types.{
  AuditEventRow, actor_str, outcome_str, StorageError, audit_kind_unknown, sqlite, constraint,
}
use trilithon.Storage.Tables.{find, order_by, first}
use trilithon.Storage.Sqlite.{Database, has_id}

pub record Hashing : Type 0 where
  pub to_text : Value → String
  pub sha256_hex : String → String

abbrev pub audit_prev_hash_seed : String
audit_prev_hash_seed = "0000000000000000000000000000000000000000000000000000000000000000"

abbrev pub from_i64 : ℤ → Value
from_i64 (pos n) = number (Number.unsigned n)
from_i64 (negsuc n) = number (Number.negative (suc n))

abbrev pub string_or_null : Option String → Value
string_or_null none = null
string_or_null (some s) = string s

-- The entries in the order of their keys.
unfoldable pub canonical_json_for_audit_hash : AuditEventRow → Value
canonical_json_for_audit_hash row = object (
    field "actor_id" (string row.actor_id) (
      field "actor_kind" (string (actor_str row.actor_kind)) (
        field "caddy_instance_id" (string row.caddy_instance_id) (
          field "correlation_id" (string row.correlation_id) (
            field "error_kind" (string_or_null row.error_kind) (
              field "id" (string row.id) (
                field "kind" (string row.kind) (
                  field "notes" (string_or_null row.notes) (
                    field "occurred_at" (from_i64 row.occurred_at) (
                      field "occurred_at_ms" (from_i64 row.occurred_at_ms) (
                        field "outcome" (string (outcome_str row.outcome)) (
                          field "redacted_diff_json" (string_or_null row.redacted_diff_json) (
                            field "redaction_sites" (number (Number.unsigned row.redaction_sites)) (
                              field "snapshot_id" (string_or_null row.snapshot_id) (
                                field "target_id" (string_or_null row.target_id) (
                                  field "target_kind" (string_or_null row.target_kind)
                                    end))))))))))))))))

unfoldable pub validate_kind : AuditEventRow → Result StorageError (Unit {0})
validate_kind row = do
  refuse_if (not (contains audit_kinds row.kind)) (audit_kind_unknown row.kind)
  refuse_if (not (validate_audit_kind_pattern row.kind)) (audit_kind_unknown row.kind)

abbrev pub gt_str : String → String → Bool
gt_str a b = elim (compare a b) [ Ordering.gt ↦ true | _ ↦ false ]

-- `ORDER BY occurred_at DESC, id DESC`
abbrev pub occurs_later : AuditEventRow → AuditEventRow → Bool
occurs_later a b =
    ltb_ℤ b.occurred_at a.occurred_at || (a.occurred_at ==ℤ b.occurred_at && gt_str a.id b.id)

abbrev pub has_row_id : String → AuditEventRow → Bool
has_row_id id row = str_eq row.id id

-- The constraints of the table: the id is its key, and a snapshot that is named exists.
unfoldable pub violates : Database → AuditEventRow → Bool
violates db event = is_some (find (has_row_id event.id) db.audit_log) || elim event.snapshot_id [
  | none ↦ false
  | some id ↦ not (is_some (find (has_id id) db.snapshots))
]

pub data AuditChainVerdict : Type 0 where
  intact : AuditChainVerdict
  broken : String → String → String → AuditChainVerdict

module _ (hashing : Hashing) where
  unfoldable pub chain_hash : AuditEventRow → String
  chain_hash row = hashing.sha256_hex (hashing.to_text (canonical_json_for_audit_hash row))

  abbrev pub hash_or_seed : Option AuditEventRow → String
  hash_or_seed none = audit_prev_hash_seed
  hash_or_seed (some row) = chain_hash row

  unfoldable pub next_prev_hash : List AuditEventRow → String
  next_prev_hash log = hash_or_seed (first (order_by occurs_later log))

  -- The expected hash of the row after `rows`.
  unfoldable pub last_hash : String → List AuditEventRow → String
  last_hash expected [] = expected
  last_hash expected (row ∷ rows) = last_hash (chain_hash row) rows

  unfoldable pub verify_from : String → List AuditEventRow → AuditChainVerdict
  verify_from expected [] = intact
  verify_from expected (row ∷ rows) =
      let rest = verify_from (chain_hash row) rows in
      if not (str_eq row.prev_hash expected) then broken row.id expected row.prev_hash else rest

  -- The rows come oldest first.
  unfoldable pub verify_audit_chain : List AuditEventRow → AuditChainVerdict
  verify_audit_chain rows = verify_from audit_prev_hash_seed rows

  unfoldable pub record_audit_event :
      Database → AuditEventRow → Result StorageError (String × Database)
  record_audit_event db event = do
    validate_kind event
    refuse_if (violates db event) (sqlite constraint)
    ok (
      event.id,
      record db {
        audit_log = record event { prev_hash = next_prev_hash db.audit_log } ∷ db.audit_log;
      },
    )
