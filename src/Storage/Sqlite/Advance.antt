-- ===== src/Storage/Sqlite/Advance.antt =====
-- The advance of the applied version, of storage_sqlite/snapshots.rs.
use trilithon.Base.{String, true, some, Result, ok, ◌≡◌, refl, Option-cases, Bool-cases, inl, inr}
use trilithon.Base.Int.{ℤ, ◌==ℤ◌, ==ℤ_iff, wrapping_suc}
use trilithon.Base.BTreeMap.{insert, contains_key}
use trilithon.Base.BTreeMap.Lookup.{get-insert_self}
use trilithon.Mutation.Types.{SnapshotId}
use trilithon.Storage.Types.{StorageError}
use trilithon.Storage.Tables.{find}
use trilithon.Storage.Sqlite.{
  Database, SnapshotRow, is_next, current_config_version, cas_advance_config_version,
}

-- The database after an advance.
abbrev pub advanced : Database → String → ℤ → Database
advanced db instance_id version = record db { applied = insert db.applied instance_id version }

pub cas_advance_config_version-ok :
    (db : Database) (i : String) (expected n : ℤ) (id : SnapshotId) (after : Database)
    → cas_advance_config_version db i expected id ≡ ok (n, after)
    → (current_config_version db i ≡ expected)
      × (after ≡ advanced db i (wrapping_suc expected))
      × ((row : SnapshotRow) × (find (is_next id i (wrapping_suc expected)) db.snapshots ≡ some row)
          × (contains_key db.applied i ≡ true))
unfolding cas_advance_config_version
cas_advance_config_version-ok db i expected n id after h =
    let new = wrapping_suc expected in
    let hit = find (is_next id i new) db.snapshots in
    elim (Bool-cases (current_config_version db i ==ℤ expected)) [
      | inr f ↦ cc (rw f at h)
      | inl same ↦ elim (Option-cases hit) [
        | inl gone ↦ cc (rw (same, gone) at h)
        | inr (row, there) ↦ elim (Bool-cases (contains_key db.applied i)) [
          | inr f ↦ cc (rw (same, there, f) at h)
          | inl has ↦
              let done : ◌≡◌ {A = Result StorageError (ℤ × Database)} (ok (new, advanced db i new))
                  (ok (n, after)) =
                rw (same, there, has) at h in
              ((==ℤ_iff _ _).0 same, cc, (row, there, has))
        ]
      ]
    ]

pub current_config_version-advanced :
    (db : Database) (i : String) (n : ℤ) → current_config_version (advanced db i n) i ≡ n
unfolding current_config_version
current_config_version-advanced db i n = rw (get-insert_self db.applied i n) refl

pub cas_advance_config_version-advanced :
    (db : Database) (i : String) (expected : ℤ) (id : SnapshotId) (row : SnapshotRow)
    → current_config_version db i ≡ expected
    → find (is_next id i (wrapping_suc expected)) db.snapshots ≡ some row
    → contains_key db.applied i ≡ true
    → cas_advance_config_version db i expected id
      ≡ ok (wrapping_suc expected, advanced db i (wrapping_suc expected))
unfolding cas_advance_config_version
cas_advance_config_version-advanced db i expected id row same there has =
    let equal : (current_config_version db i ==ℤ expected) ≡ true = (==ℤ_iff _ _).1 same in
    rw (equal, there, has) refl
