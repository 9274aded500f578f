-- ===== src/Storage/Sqlite/Reads.antt =====
-- The reads of sqlite_storage.rs beside the `Storage` trait: the snapshots of a version, of a parent
-- and of a range of time. Rows that the order of a statement leaves equal keep the table's order.
use trilithon.Base.{
  ℕ, String, Bool, true, false, not, ◌&&◌, List, Option, none, some, str_eq, Result,
}
use trilithon.Base.Int.{ℤ, ◌==ℤ◌, ltb_ℤ}
use trilithon.Model.Route.{UnixSeconds}
use trilithon.Mutation.Types.{SnapshotId}
use trilithon.Storage.Types.{Snapshot, StorageError}
use trilithon.Storage.Tables.{select, order_by, limit}
use trilithon.Storage.Sqlite.{Database, SnapshotRow, collect}

pub record SnapshotDateRange : Type 0 where
  pub since : Option UnixSeconds
  pub until : Option UnixSeconds
  pub max_results : Option ℕ  -- u32

-- `ORDER BY created_at ASC`, and `ORDER BY config_version ASC`
abbrev pub created_before : SnapshotRow → SnapshotRow → Bool
created_before a b = ltb_ℤ a.created_at b.created_at

abbrev pub version_before : SnapshotRow → SnapshotRow → Bool
version_before a b = ltb_ℤ a.config_version b.config_version

unfoldable pub fetch_by_config_version : Database → ℤ → Result StorageError (List Snapshot)
fetch_by_config_version db config_version =
    collect
      (order_by created_before (select (λ row. row.config_version ==ℤ config_version) db.snapshots))

abbrev pub is_parent : SnapshotId → Option String → Bool
is_parent id none = false
is_parent id (some parent) = str_eq parent id

unfoldable pub fetch_by_parent_id : Database → SnapshotId → Result StorageError (List Snapshot)
fetch_by_parent_id db parent_id =
    collect
      (order_by version_before (select (λ row. is_parent parent_id row.parent_id) db.snapshots))

abbrev pub not_before : Option ℤ → ℤ → Bool
not_before none at = true
not_before (some since) at = not (ltb_ℤ at since)

abbrev pub not_after : Option ℤ → ℤ → Bool
not_after none at = true
not_after (some until) at = not (ltb_ℤ until at)

abbrev pub in_range : SnapshotDateRange → SnapshotRow → Bool
in_range range row = not_before range.since row.created_at && not_after range.until row.created_at

-- `LIMIT`, where -1 is no limit.
abbrev pub limit_to : Option ℕ → List SnapshotRow → List SnapshotRow
limit_to none rows = rows
limit_to (some n) rows = limit n rows

unfoldable pub fetch_by_date_range :
    Database → SnapshotDateRange → Result StorageError (List Snapshot)
fetch_by_date_range db range =
    collect
      (limit_to range.max_results (order_by created_before (select (in_range range) db.snapshots)))
