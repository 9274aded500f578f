-- ===== src/Storage/Sqlite/Newest.antt =====
-- What the readers give for a snapshot that was just inserted.
use trilithon.Base.{
  ℕ, ◌*◌, ◌/◌, ◌^◌, ◌<◌, String, true, false, List, ◌∷◌, none, some, eq_refl, ltb, ok, ◌≡◌, refl,
  All-map, arith, sym, ap, ◌∙◌, subst,
}
use trilithon.Base.Int.{pos, ltb_ℤ_asym}
use trilithon.Mutation.Types.{SnapshotId}
use trilithon.Storage.Types.{Snapshot}
use trilithon.Storage.Tables.{find, first, order_by, order_by-first}
use trilithon.Storage.Sqlite.{
  SnapshotRow, Database, has_id, newer, to_row, to_i64, to_u64, saturate_u64, row_to_snapshot,
  parse_actor_kind, version_or_err, transpose, insert_new, insert_snapshot_inner, insert_snapshot,
  get_snapshot, latest_desired_state,
}
use trilithon.Storage.Sqlite.Ledger.{
  IsLedger, IsOlder, insert_snapshot-eq-ok, insert_new-eq-ok, insert_snapshot-IsLedger,
}

-- The table keeps whole milliseconds.
abbrev pub in_milliseconds : Snapshot → Snapshot
in_milliseconds s = record s {
  created_at_monotonic_nanos = s.created_at_monotonic_nanos / 1000000 * 1000000;
}

nanos :
    (n : ℕ)
    → n < 2 ^ 64
    → saturate_u64 (to_u64 (to_i64 (n / 1000000)) * 1000000) ≡ n / 1000000 * 1000000
nanos n h =
    let small : ltb (n / 1000000) (2 ^ 63) ≡ true = ground arith in
    let fits : ltb (n / 1000000 * 1000000) (2 ^ 64) ≡ true = ground arith in rw small (rw fits refl)

version : (n : ℕ) → n < 2 ^ 32 → version_or_err (pos n) ≡ ok n
version n h = let fits : ltb n (2 ^ 32) ≡ true = ground arith in rw (fits, version_or_err) refl

row_to_snapshot-to_row :
    (s : Snapshot)
    → s.created_at_monotonic_nanos < 2 ^ 64
    → s.canonical_json_version < 2 ^ 32
    → row_to_snapshot (to_row s) ≡ ok (in_milliseconds s)
unfolding row_to_snapshot to_row parse_actor_kind
row_to_snapshot-to_row s n v =
    rw (version s.canonical_json_version v, nanos s.created_at_monotonic_nanos n) refl

transpose-to_row :
    (s : Snapshot)
    → s.created_at_monotonic_nanos < 2 ^ 64
    → s.canonical_json_version < 2 ^ 32
    → transpose (some (to_row s)) ≡ ok (some (in_milliseconds s))
unfolding transpose
transpose-to_row s n v = rw (row_to_snapshot-to_row s n v) refl

find-head :
    (row : SnapshotRow) (rows : List SnapshotRow) → find (has_id row.id) (row ∷ rows) ≡ some row
unfolding find
find-head row rows = rw (eq_refl row.id) refl

inner-new :
    (db : Database) (s : Snapshot)
    → find (has_id s.snapshot_id) db.snapshots ≡ none
    → insert_snapshot_inner db s ≡ insert_new db s
unfolding insert_snapshot_inner
inner-new db s fresh = rw (fresh, insert_snapshot_inner) refl

module _ (content_address : String → String) where
  -- A snapshot with a new id that was inserted is the latest desired state after it, and is read
  -- back under its id, field by field but for the part of its time below a millisecond.
  pub insert_snapshot-latest :
      (db after : Database) (s : Snapshot) (id : SnapshotId)
      → IsLedger content_address db.snapshots
      → s.created_at_monotonic_nanos < 2 ^ 64
      → s.canonical_json_version < 2 ^ 32
      → find (has_id s.snapshot_id) db.snapshots ≡ none
      → insert_snapshot content_address db s ≡ ok (id, after)
      → (id ≡ s.snapshot_id)
        × (latest_desired_state after ≡ ok (some (in_milliseconds s)))
        × (get_snapshot after id ≡ ok (some (in_milliseconds s)))
  unfolding latest_desired_state get_snapshot to_row
  insert_snapshot-latest db after s id ledger n v fresh h =
      let inner = (insert_snapshot-eq-ok content_address db after s id h).1 in
      let (_, _, named, grown) =
        insert_new-eq-ok db after s id (sym (inner-new db s fresh) ∙ inner) in
      let rows : after.snapshots ≡ to_row s ∷ db.snapshots =
        ap (λ (d : Database). d.snapshots) grown in
      let kept =
        subst (IsLedger content_address) rows
          (insert_snapshot-IsLedger content_address db after s id ledger h).0 in
      let older =
        All-map (IsOlder s.config_version) (λ b. newer b (to_row s) ≡ false)
          (λ b lt. ltb_ℤ_asym b.config_version s.config_version lt) db.snapshots kept.0.greatest in
      let stored = transpose-to_row s n v in
      (
        named,
        ap (λ (l : List SnapshotRow). transpose (first (order_by newer l))) rows
            ∙ (ap transpose (order_by-first newer (to_row s) db.snapshots older) ∙ stored),
        ap (λ (l : List SnapshotRow). transpose (find (has_id id) l)) rows
            ∙ (ap (λ (i : String). transpose (find (has_id i) (to_row s ∷ db.snapshots))) named
                ∙ (ap transpose (find-head (to_row s) db.snapshots) ∙ stored)),
      )
