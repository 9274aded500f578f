-- ===== src/Storage/Sqlite/Ledger.antt =====
-- What `insert_snapshot` keeps of the table of snapshots.
use trilithon.Base.{
  String, true, not, List, [], ◌∷◌, Option, none, some, str_eq, eq_iff, is_some, ok, ◌>>◌,
  refuse_if, ◌≡◌, refl, inl, inr, ◌⊎◌, All, Bool-cases, Option-cases, >>-eq-ok, refuse_if-eq-ok,
  not-false,
}
use trilithon.Base.Int.{ℤ, ltb_ℤ, ltb_ℤ_trans, ltb_ℤ_trans_le}
use trilithon.Mutation.Types.{SnapshotId}
use trilithon.Storage.Types.{
  snapshot_version_not_monotonic, snapshot_parent_not_found, Snapshot, validate_intent,
}
use trilithon.Storage.Tables.{find}
use trilithon.Storage.Sqlite.{
  SnapshotRow, Database, to_row, has_id, max_version, max_of, check_existing, check_parent,
  check_monotonic, insert_new, insert_snapshot_inner, validate_snapshot_invariants, insert_snapshot,
}

abbrev pub HasParent : Option String → List SnapshotRow → Type 0
HasParent none rows = Unit
HasParent (some id) rows = is_some (find (has_id id) rows) ≡ true

abbrev pub IsOlder : ℤ → SnapshotRow → Type 0
IsOlder version row = ltb_ℤ row.config_version version ≡ true

-- A row over the rows that were there before it: its id is the digest of its state and is new, its
-- version is above all of theirs, and its parent is among them.
pub record IsEntry (content_address : String → String) (row : SnapshotRow) (rows : List SnapshotRow)
    : Type 0 where
  pub fresh : find (has_id row.id) rows ≡ none
  pub greatest : All (IsOlder row.config_version) rows
  pub parent : HasParent row.parent_id rows
  pub local : row.caddy_instance_id ≡ "local"
  pub addressed : content_address row.desired_state_json ≡ row.id
  pub bounded : validate_intent row.intent ≡ true

abbrev pub IsLedger : (String → String) → List SnapshotRow → Type 0
IsLedger content_address [] = Unit
IsLedger content_address (row ∷ rows) =
    IsEntry content_address row rows × IsLedger content_address rows

abbrev IsLocal : SnapshotRow → Type 0
IsLocal row = row.caddy_instance_id ≡ "local"

module _ (content_address : String → String) where
  All-IsLocal : (rows : List SnapshotRow) → IsLedger content_address rows → All IsLocal rows
  All-IsLocal [] h = tt
  All-IsLocal (row ∷ rows) h = (h.0.local, All-IsLocal rows h.1)

monotonic-lt : (m v : ℤ) → check_monotonic (some m) v ≡ ok tt → ltb_ℤ m v ≡ true
unfolding check_monotonic
monotonic-lt m v h =
    not-false (ltb_ℤ m v) (refuse_if-eq-ok (not (ltb_ℤ m v)) (snapshot_version_not_monotonic v m) h)

lt-monotonic : (m v : ℤ) → ltb_ℤ m v ≡ true → check_monotonic (some m) v ≡ ok tt
unfolding check_monotonic
lt-monotonic m v h = rw h refl

max_version-cons :
    (row : SnapshotRow) (rows : List SnapshotRow)
    → IsLocal row
    → max_version (row ∷ rows) ≡ some (max_of (max_version rows) row.config_version)
unfolding max_version
max_version-cons row rows local = rw local refl

none_monotonic : (v : ℤ) → check_monotonic none v ≡ ok tt
unfolding check_monotonic
none_monotonic v = refl

-- A version above the maximum is above every row of the local instance.
max_version-bound :
    (rows : List SnapshotRow) (v : ℤ)
    → All IsLocal rows
    → check_monotonic (max_version rows) v ≡ ok tt
    → All (IsOlder v) rows
max_version-bound [] v local h = tt
max_version-bound (row ∷ rows) v (here, local) h =
    let above =
      monotonic-lt (max_of (max_version rows) row.config_version) v
        (rw (max_version-cons row rows here) at h) in
    elim (Option-cases (max_version rows)) [
      | inl e ↦ (rw e at above, max_version-bound rows v local (rw e (none_monotonic v)))
      | inr (m, e) ↦
          let above_m = rw e at above in
          elim (Bool-cases (ltb_ℤ m row.config_version)) [
            | inl lt ↦
                let row_v : ltb_ℤ row.config_version v ≡ true = rw lt at above_m in
                (
                  row_v,
                  max_version-bound rows v local
                      (rw e (lt-monotonic m v (ltb_ℤ_trans m row.config_version v lt row_v))),
                )
            | inr ge ↦
                let m_v : ltb_ℤ m v ≡ true = rw ge at above_m in
                (
                  ltb_ℤ_trans_le m row.config_version v ge m_v,
                  max_version-bound rows v local (rw e (lt-monotonic m v m_v)),
                )
          ]
    ]

has_parent :
    (rows : List SnapshotRow) (parent : Option String)
    → check_parent rows parent ≡ ok tt
    → HasParent parent rows
unfolding check_parent
has_parent rows none h = tt
has_parent rows (some id) h =
    not-false (is_some (find (has_id id) rows))
      (refuse_if-eq-ok (not (is_some (find (has_id id) rows))) (snapshot_parent_not_found id) h)

-- What a successful insertion of a new snapshot does.
pub insert_new-eq-ok :
    (db after : Database) (s : Snapshot) (id : SnapshotId)
    → insert_new db s ≡ ok (id, after)
    → (check_parent db.snapshots s.parent_id ≡ ok tt)
      × (check_monotonic (max_version db.snapshots) s.config_version ≡ ok tt)
      × (id ≡ s.snapshot_id)
      × (after ≡ record db { snapshots = to_row s ∷ db.snapshots })
unfolding insert_new
insert_new-eq-ok db after s id h =
    let (parent, rest) = >>-eq-ok (check_parent db.snapshots s.parent_id) _ h in
    let (monotonic, done) =
      >>-eq-ok (check_monotonic (max_version db.snapshots) s.config_version) _ rest in
    (parent, monotonic, cc, cc)

existing_keeps :
    (db after : Database) (row : SnapshotRow) (s : Snapshot) (id : SnapshotId)
    → ◌>>◌ {B = SnapshotId × Database} (check_existing row s) (ok (s.snapshot_id, db))
      ≡ ok (id, after)
    → after ≡ db
existing_keeps db after row s id h =
    let (_, done) = >>-eq-ok (check_existing row s) (ok (s.snapshot_id, db)) h in cc

-- There is a row with the id.
abbrev pub HasRow : SnapshotId → List SnapshotRow → Type 0
HasRow id rows = (row : SnapshotRow) × (find (has_id id) rows ≡ some row)

-- A successful `insert_snapshot_inner` found the id and changed nothing, or it is `insert_new`.
pub inner-eq-ok :
    (db after : Database) (s : Snapshot) (id : SnapshotId)
    → insert_snapshot_inner db s ≡ ok (id, after)
    → (HasRow s.snapshot_id db.snapshots × (after ≡ db))
      ⊎ ((find (has_id s.snapshot_id) db.snapshots ≡ none) × (insert_new db s ≡ ok (id, after)))
unfolding insert_snapshot_inner
inner-eq-ok db after s id h = elim (Option-cases (find (has_id s.snapshot_id) db.snapshots)) [
  | inl e ↦ inr (e, rw (e, insert_snapshot_inner) at h)
  | inr (row, e) ↦
      inl ((row, e), existing_keeps db after row s id (rw (e, insert_snapshot_inner) at h))
]

module _ (content_address : String → String) where
  validated :
      (s : Snapshot)
      → validate_snapshot_invariants content_address s ≡ ok tt
      → (content_address s.desired_state_json ≡ s.snapshot_id) × (validate_intent s.intent ≡ true)
  unfolding validate_snapshot_invariants
  validated s h =
      let (address, rest) =
        >>-eq-ok (refuse_if (not (str_eq (content_address s.desired_state_json) s.snapshot_id)) _) _
          h in
      (
        (eq_iff (content_address s.desired_state_json) s.snapshot_id).0 (
            not-false _ (
              refuse_if-eq-ok (not (str_eq (content_address s.desired_state_json) s.snapshot_id)) _
                address)),
        not-false _ (refuse_if-eq-ok (not (validate_intent s.intent)) _ rest),
      )

  pub insert_snapshot-eq-ok :
      (db after : Database) (s : Snapshot) (id : SnapshotId)
      → insert_snapshot content_address db s ≡ ok (id, after)
      → (validate_snapshot_invariants content_address s ≡ ok tt)
        × (insert_snapshot_inner db s ≡ ok (id, after))
  unfolding insert_snapshot
  insert_snapshot-eq-ok db after s id h =
      >>-eq-ok (validate_snapshot_invariants content_address s) _ h

  -- The table of snapshots stays a ledger, in which each row's id is the digest of its state and is
  -- new over the rows before it, its version is above all of theirs and its parent, if it names one,
  -- is among them: a successful insertion adds the row of the snapshot to the old rows, changes
  -- nothing else in the database and answers with the snapshot's id, or it changes nothing, and then a
  -- row with that id was there already.
  pub insert_snapshot-IsLedger :
      (db after : Database) (s : Snapshot) (id : SnapshotId)
      → IsLedger content_address db.snapshots
      → insert_snapshot content_address db s ≡ ok (id, after)
      → IsLedger content_address after.snapshots
        × ((HasRow s.snapshot_id db.snapshots × (after ≡ db))
            ⊎ ((find (has_id s.snapshot_id) db.snapshots ≡ none)
                × (id ≡ s.snapshot_id)
                × (after ≡ record db { snapshots = to_row s ∷ db.snapshots })))
  unfolding to_row
  insert_snapshot-IsLedger db after s id ledger h =
      let (valid, inner) = insert_snapshot-eq-ok db after s id h in
      let (addressed, bounded) = validated s valid in
      elim (inner-eq-ok db after s id inner) [
        | inl (there, same) ↦ (rw same ledger, inl (there, same))
        | inr (fresh, new) ↦
            let (parent, monotonic, named, grown) = insert_new-eq-ok db after s id new in
            let entry : IsEntry content_address (to_row s) db.snapshots = record {
              fresh = fresh;
              greatest =
                  max_version-bound db.snapshots s.config_version
                    (All-IsLocal content_address db.snapshots ledger) monotonic;
              parent = has_parent db.snapshots s.parent_id parent;
              local = refl;
              addressed = addressed;
              bounded = bounded;
            } in
            (rw grown (entry, ledger), inr (fresh, named, grown))
      ]

  -- No row is lost or changed: every id that the table had is found with the same row afterwards.
  pub insert_snapshot-keeps :
      (db after : Database) (s : Snapshot) (id i : SnapshotId) (row : SnapshotRow)
      → insert_snapshot content_address db s ≡ ok (id, after)
      → find (has_id i) db.snapshots ≡ some row
      → find (has_id i) after.snapshots ≡ some row
  unfolding find to_row
  insert_snapshot-keeps db after s id i row h old =
      elim (inner-eq-ok db after s id (insert_snapshot-eq-ok db after s id h).1) [
        | inl (_, same) ↦ rw same old
        | inr (fresh, new) ↦
            let (_, _, _, grown) = insert_new-eq-ok db after s id new in
            elim (Bool-cases (str_eq s.snapshot_id i)) [
              | inl e ↦ let equal = (eq_iff s.snapshot_id i).0 e in cc (rw equal at fresh)
              | inr e ↦ rw (grown, e) old
            ]
      ]
