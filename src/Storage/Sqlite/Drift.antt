-- ===== src/Storage/Sqlite/Drift.antt =====
-- The drift events of sqlite_storage.rs. The columns hold the typed values, of which
-- `resolve_drift_event` writes the texts and the readers parse them.
pub mod Resolved
use trilithon.Base.{
  String, Bool, not, ◌&&◌, ◌||◌, List, [], ◌∷◌, Option, none, some, if◌then◌else◌, str_eq, is_some,
  leb, length, Result, ok, err, ◌>>=◌, ◌>>◌, refuse_if,
}
use Prim.Native.String.{◌++◌}
use trilithon.Base.Text.Decimal.{to_string}
use trilithon.Base.Int.{ℤ, ltb_ℤ}
use trilithon.Storage.Types.{
  DriftEventRow, DriftResolution, StorageError, sqlite, constraint, integrity,
}
use trilithon.Storage.Tables.{find, select, order_by, first}
use trilithon.Storage.Sqlite.{Database}

-- The key of the table, and the unique index on the correlation.
abbrev pub collides : DriftEventRow → DriftEventRow → Bool
collides event row = str_eq row.id event.id || str_eq row.correlation_id event.correlation_id

unfoldable pub record_drift_event :
    Database → DriftEventRow → Result StorageError (String × Database)
record_drift_event db event = do
  refuse_if (is_some (find (collides event) db.drift_events)) (sqlite constraint)
  ok (
    event.id,
    record db {
      drift_events = record event { resolution = none; resolved_at = none } ∷ db.drift_events;
    },
  )

abbrev pub detected_later : DriftEventRow → DriftEventRow → Bool
detected_later a b = ltb_ℤ b.detected_at a.detected_at

-- Of events that were detected at one time SQL leaves the order open; here it is the last recorded.
unfoldable pub latest_drift_event : Database → Option DriftEventRow
latest_drift_event db = first (order_by detected_later db.drift_events)

abbrev pub is_unresolved : DriftEventRow → Bool
is_unresolved row = not (is_some row.resolved_at)

unfoldable pub latest_unresolved_drift_event : Database → Option DriftEventRow
latest_unresolved_drift_event db =
    first (order_by detected_later (select is_unresolved db.drift_events))

-- `WHERE correlation_id = ? AND resolved_at IS NULL`
abbrev pub is_open : String → DriftEventRow → Bool
is_open correlation row = str_eq row.correlation_id correlation && is_unresolved row

unfoldable pub update_open : String → DriftResolution → ℤ → List DriftEventRow → List DriftEventRow
update_open correlation resolution at [] = []
update_open correlation resolution at (row ∷ rows) =
    let rest = update_open correlation resolution at rows in
    (if is_open correlation row
      then record row { resolution = some resolution; resolved_at = some at }
      else row)
    ∷ rest

-- More than one row that the `UPDATE` affected is an error; the statement stands all the same, since
-- it is no part of a transaction.
unfoldable pub resolve_drift_event :
    Database → String → DriftResolution → ℤ → Database × Result StorageError (Unit {0})
resolve_drift_event db correlation resolution at =
    let affected = length (select (is_open correlation) db.drift_events) in
    (
      record db { drift_events = update_open correlation resolution at db.drift_events },
      if leb affected 1
          then ok tt
          else err (
              integrity (
                "resolve_drift_event: expected ≤1 row affected, got "
                ++ (to_string affected
                    ++ (" for correlation_id=" ++ (correlation ++ " (UNIQUE index missing?)"))))),
    )
