-- ===== src/Examples/Snapshots.antt =====
-- Runs of the operations on snapshots, audit rows, drift events and locks.
use Prim.Native.String.{◌++◌}
use trilithon.Base.{
  ◌≡◌, ◌≢◌, ◌⊎◌, length, refl, String, Bool, true, false, none, some, [], ◌∷◌, ok, arith, All,
}
use trilithon.Base.Int.{ℤ, pos}
use trilithon.Base.BTreeMap.{get}
use trilithon.Storage.Types.{Snapshot, ParentChain}
use trilithon.Storage.Tables.{find, limit, reversed}
use trilithon.Storage.Sqlite.{
  Database, to_row, insert_snapshot, insert_snapshot_inner, insert_new,
  validate_snapshot_invariants, check_parent, check_monotonic, max_version, latest_desired_state,
  get_snapshot, has_id, parent_chain, chain, to_chain, collect, row_to_snapshot, parse_actor_kind,
}
use trilithon.Storage.Sqlite.Ledger.{IsLedger, HasRow, insert_snapshot-IsLedger}
use trilithon.Storage.Sqlite.Newest.{in_milliseconds, insert_snapshot-latest}
use trilithon.Storage.Sqlite.Chain.{parent_chain-drops_leaf}
use trilithon.Storage.Sqlite.Locks.{Locks, Gaps, acquire_apply_lock, release}
use trilithon.Storage.Sqlite.Locks.Exclusive.{acquire_apply_lock-stale}

-- A stand-in for the digest.
abbrev pub digest : String → String
digest s = "#" ++ s

abbrev pub no_rows : Database
no_rows = record {
  snapshots = [];
  audit_log = [];
  drift_events = [];
  applied = ("local", pos 1) ∷ [];
  apply_locks = [];
}

abbrev pub first_snapshot : Snapshot
first_snapshot = record {
  snapshot_id = "#one";
  parent_id = none;
  config_version = pos 1;
  actor = "ada";
  intent = "first";
  correlation_id = "01";
  caddy_version = "2.8.4";
  trilithon_version = "0.1.0";
  created_at_unix_seconds = pos 1700000000;
  created_at_monotonic_nanos = 1700000000123456789;
  canonical_json_version = 1;
  desired_state_json = "one";
}

abbrev pub second_snapshot : Snapshot
second_snapshot = record first_snapshot {
  snapshot_id = "#two";
  parent_id = some "#one";
  config_version = pos 2;
  desired_state_json = "two";
}

abbrev pub one_row : Database
one_row = record no_rows { snapshots = to_row first_snapshot ∷ [] }

abbrev pub two_rows : Database
two_rows = record no_rows { snapshots = to_row second_snapshot ∷ to_row first_snapshot ∷ [] }

first_inserted : insert_snapshot digest no_rows first_snapshot ≡ ok ("#one", one_row)
unfolding insert_snapshot insert_snapshot_inner insert_new validate_snapshot_invariants check_parent
    check_monotonic max_version find
first_inserted = refl

second_inserted : insert_snapshot digest one_row second_snapshot ≡ ok ("#two", two_rows)
unfolding insert_snapshot insert_snapshot_inner insert_new validate_snapshot_invariants check_parent
    check_monotonic max_version find to_row
second_inserted = refl

one_row-IsLedger : IsLedger digest one_row.snapshots
one_row-IsLedger =
    (insert_snapshot-IsLedger digest no_rows one_row first_snapshot "#one" tt first_inserted).0

two_rows-IsLedger : IsLedger digest two_rows.snapshots
two_rows-IsLedger =
    (insert_snapshot-IsLedger digest one_row two_rows second_snapshot "#two" one_row-IsLedger
      second_inserted).0

insert_snapshot-IsLedger_example :
    IsLedger digest two_rows.snapshots
    × ((HasRow "#two" one_row.snapshots × (two_rows ≡ one_row))
        ⊎ ((find (has_id "#two") one_row.snapshots ≡ none)
            × (◌≡◌ {A = String} "#two" "#two")
            × (two_rows
                ≡ record one_row { snapshots = to_row second_snapshot ∷ one_row.snapshots })))
insert_snapshot-IsLedger_example =
    insert_snapshot-IsLedger digest one_row two_rows second_snapshot "#two" one_row-IsLedger
      second_inserted

insert_snapshot-latest_example :
    (◌≡◌ {A = String} "#two" "#two")
    × (latest_desired_state two_rows ≡ ok (some (in_milliseconds second_snapshot)))
    × (get_snapshot two_rows "#two" ≡ ok (some (in_milliseconds second_snapshot)))
unfolding find to_row
insert_snapshot-latest_example =
    insert_snapshot-latest digest one_row two_rows second_snapshot "#two" one_row-IsLedger
      (ground arith) (ground arith) refl second_inserted

abbrev oldest : ParentChain
oldest = record { snapshots = in_milliseconds first_snapshot ∷ []; truncated = true }

short_chain : parent_chain two_rows "#two" 1 ≡ ok oldest
unfolding parent_chain chain to_chain collect row_to_snapshot parse_actor_kind find to_row limit
    reversed
short_chain = refl

parent_chain-drops_leaf_example :
    (collect (limit 1 (reversed (chain two_rows.snapshots 1 (some "#one")))) ≡ ok oldest.snapshots)
    × (length oldest.snapshots ≡ 1)
    × All (λ (s : Snapshot). s.snapshot_id ≢ "#two") oldest.snapshots
unfolding find to_row
parent_chain-drops_leaf_example =
    parent_chain-drops_leaf digest two_rows "#two" 1 (to_row second_snapshot) oldest
      two_rows-IsLedger refl short_chain refl

-- Nobody interferes; the process 7 is dead.
abbrev pub quiet : Gaps
quiet = record { first = λ l. l; second = λ l. l; third = λ l. l }

abbrev pub none_alive : ℤ → Bool
none_alive pid = false

abbrev left_behind : Locks
left_behind = ("local", pos 7) ∷ []

acquire_apply_lock-stale_example :
    (after : Locks) × (acquire_apply_lock none_alive quiet left_behind "local" (pos 8)
      ≡ (after, ok tt))
    × (get after "local" ≡ some (pos 8))
    × (get (release after "local" (pos 8)) "local" ≡ none)
unfolding get
acquire_apply_lock-stale_example =
    acquire_apply_lock-stale none_alive quiet left_behind "local" (pos 8) (pos 7) refl refl refl
      refl
