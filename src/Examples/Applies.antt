-- ===== src/Examples/Applies.antt =====
-- Runs of the applier with a Caddy that takes every document.
use trilithon.Base.{◌*◌, List, ◌+◌, ◌↔◌, ◌≡◌, ◌⊎◌, refl, none, some, [], ◌∷◌, ok, err, true}
use trilithon.Base.Int.{ℤ, pos}
use trilithon.Base.BTreeMap.{get, insert, remove}
use trilithon.Model.Json.{Value, null}
use trilithon.Model.State.{empty}
use trilithon.Mutation.Invariant.Reach.{empty-IsWellFormed}
use trilithon.Storage.Tables.{find, reversed}
use trilithon.Storage.Sqlite.{
  to_row, get_snapshot, current_config_version, transpose, row_to_snapshot, parse_actor_kind,
}
use trilithon.Storage.Sqlite.Newest.{in_milliseconds}
use trilithon.Storage.Sqlite.Locks.{
  Locks, acquire_apply_lock, try_insert_lock, delete_lock, release,
}
use trilithon.Reconciler.Render.{render_state}
use trilithon.Reconciler.Render.Total.{render_state-succeeds}
use trilithon.Applier.Types.{ApplyError, AuditAppend}
use trilithon.Applier.Monad.{World}
use trilithon.Applier.Writer.{AuditWriter, event_row}
use trilithon.Applier.Reports.{applied_row}
use trilithon.Applier.Apply.Chained.{IsIntact, apply-IsIntact}
use trilithon.Storage.Sqlite.Audit.{verify_audit_chain, verify_from}
use trilithon.Base.Text.Decimal.{to_string}
use trilithon.Applier.Apply.{CaddyApplier, apply, rollback, parse_desired_state}
use trilithon.Applier.Apply.Outcome.{is_succeeded, Kept, Applied, apply-cases}
use trilithon.Applier.Apply.Success.{IsReady, apply-succeeds_iff}
use trilithon.Applier.Apply.Sequence.{advance_by, apply_all, apply_all-counts}
use trilithon.Storage.Types.{Snapshot}
use trilithon.Applier.Apply.Rollback.{rollback-diverges}
use trilithon.Examples.Snapshots.{two_rows, first_snapshot, second_snapshot, quiet, none_alive}
use trilithon.Examples.Renders.{parse}

-- The rows of the applier, named by the characters of their number.
abbrev writer : AuditWriter
writer = record {
  notes_to_string = λ notes. "{}";
  show_ulid = λ id. to_string id;
  row_id = λ n. to_string n;
  now_unix_ms = λ n. pos (1700000000000 + 1000 * n);
  caddy_instance_id = "local";
  hashing = record { to_text = λ value. ""; sha256_hex = λ text. text };
}

abbrev applier : CaddyApplier
applier = record {
  load_config = λ running document. (document, ok tt);
  get_running_config = λ running. ok running;
  structural_diff = λ state running. ok [];
  audit = writer;
  capabilities = none;
  instance_id = "local";
  tls_observer = true;
  parse_state = λ text. ok empty;
  parse = parse;
  parse_ulid = λ text. none;
  fallback_ulid = 5;
  show_storage_error = λ e. "storage";
  debug_id = λ id. id;
  process_alive = none_alive;
  gaps = quiet;
  holder_pid = pos 8;
  elapsed_ms = 12;
}

-- The second snapshot is applied.
abbrev world : World
world = record {
  db = record two_rows { applied = ("local", pos 2) ∷ [] };
  caddy = null;
  audit = [];
  observed = [];
}

abbrev applied_first : World
applied_first = record world { db = two_rows }

abbrev held_locks : Locks
held_locks = ("local", pos 8) ∷ []

acquired : acquire_apply_lock none_alive quiet [] "local" (pos 8) ≡ (held_locks, ok tt)
unfolding acquire_apply_lock try_insert_lock get insert
acquired = refl

apply-cases_example :
    (Kept applier second_snapshot world world.db (apply applier second_snapshot (pos 2) world)
      ⊎ Applied applier second_snapshot
          (pos 2)
          world
          world.db
          (apply applier second_snapshot (pos 2) world))
    × (get (apply applier second_snapshot (pos 2) world).0.db.apply_locks "local" ≡ none)
unfolding release delete_lock get remove
apply-cases_example = apply-cases applier second_snapshot (pos 2) world held_locks acquired

document : (d : Value) × (render_state parse empty ≡ ok d)
unfolding get
document = render_state-succeeds parse empty empty-IsWellFormed (λ k u h. cc) (λ k r h. cc) refl

stored : get_snapshot world.db "#one" ≡ ok (some (in_milliseconds first_snapshot))
unfolding get_snapshot transpose row_to_snapshot parse_actor_kind find to_row
stored = refl

rollback-diverges_example :
    ((rollback applier "#one" world).0.caddy ≡ document.0)
    × ((rollback applier "#one" world).0.db.applied ≡ world.db.applied)
    × ((e : ApplyError) × ((rollback applier "#one" world).1 ≡ err e))
unfolding find to_row parse_desired_state get current_config_version
rollback-diverges_example =
    rollback-diverges applier "#one" (in_milliseconds first_snapshot) world held_locks empty
      document.0 document.0 stored refl acquired refl document.1 refl refl (document.0, refl, refl)

apply-succeeds_iff_example :
    (is_succeeded (apply applier second_snapshot (pos 1) applied_first).1 ≡ true)
    ↔ IsReady applier second_snapshot (pos 1) applied_first
apply-succeeds_iff_example =
    apply-succeeds_iff applier second_snapshot (pos 1) applied_first held_locks acquired

-- The right side holds.
second_succeeds : is_succeeded (apply applier second_snapshot (pos 1) applied_first).1 ≡ true
unfolding find to_row parse_desired_state get current_config_version
second_succeeds =
    (apply-succeeds_iff applier second_snapshot (pos 1) applied_first held_locks acquired).1 (
      refl,
      (to_row second_snapshot, refl, refl),
      (empty, document.0, document.0, refl, document.1, refl, refl, (document.0, refl, refl)),
    )

-- The second is refused: the version that it expects is no longer the applied one.
abbrev twice : List (Snapshot × ℤ)
twice = (second_snapshot, pos 1) ∷ (second_snapshot, pos 1) ∷ []

apply_all-counts_example :
    (current_config_version (apply_all applier twice applied_first).0.db "local"
      ≡ advance_by
          (apply_all applier twice applied_first).1
          (current_config_version applied_first.db "local"))
    × (get (apply_all applier twice applied_first).0.db.apply_locks "local" ≡ none)
unfolding get
apply_all-counts_example = apply_all-counts applier twice applied_first refl

-- One row was written before.
abbrev first_entry : AuditAppend
first_entry = applied_row 5 "#one"

abbrev logged : World
logged = record world {
  db = record world.db { audit_log = event_row writer 0 first_entry ∷ [] };
  audit = first_entry ∷ [];
}

apply-IsIntact_example :
    IsIntact applier (apply applier second_snapshot (pos 2) logged).0.db.audit_log
unfolding verify_audit_chain verify_from reversed
apply-IsIntact_example =
    apply-IsIntact applier second_snapshot (pos 2) logged held_locks acquired ((tt, tt), refl)
      (refl, tt)
