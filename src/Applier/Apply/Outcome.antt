-- ===== src/Applier/Apply/Outcome.antt =====
-- What an apply does to the applied version, to Caddy and to the lock.
use trilithon.Base.{
  length, ℕ, Bool, true, false, List, ◌∷◌, Option, none, some, Result, ok, err, ◌≡◌, refl, sym, ap,
  subst, ◌⊎◌, inl, inr, Bool-cases, Result-split,
}
use trilithon.Base.Int.{ℤ, ◌==ℤ◌, wrapping_suc}
use trilithon.Model.Json.{Value}
use trilithon.Model.State.{DesiredState}
use trilithon.Storage.Types.{Snapshot, AuditEventRow}
use trilithon.Storage.Sqlite.{Database, SnapshotRow, is_next, current_config_version}
use trilithon.Storage.Tables.{find}
use trilithon.Storage.Sqlite.Locks.{Locks, acquire_apply_lock, release}
use trilithon.Storage.Sqlite.Locks.Exclusive.{acquire_apply_lock-ok, release-own}
use trilithon.Base.BTreeMap.{get, contains_key}
use trilithon.Storage.Sqlite.Advance.{cas_advance_config_version-ok, advanced}
use trilithon.Reconciler.Render.{render_state}
use trilithon.Applier.Types.{ApplyOutcome, succeeded, failed, conflicted, ApplyError, AuditAppend}
use trilithon.Applier.Monad.{World, continue}
use trilithon.Applier.Writer.{record_audit, Grown, recorded}
use trilithon.Applier.Reports.{
  load_failed, write_apply_succeeded_audit, applied_row, handle_conflict,
}
use trilithon.Applier.Apply.{
  CaddyApplier, parse_desired_state, load_or_fail, cas_advance, observe, success, after_load,
  check_cached, apply_current, apply_locked, apply, under_lock, with_locks, unlock, unlocked_db,
  correlation_of,
}
use trilithon.Applier.Apply.Steps.{
  Noted, unnoted, record_audit-Noted, Ends, Verified, verify_equivalence-cases, cas_advance-cases,
  load_failed-cases,
}

abbrev pub is_succeeded : Result ApplyError ApplyOutcome → Bool
is_succeeded (ok (succeeded id version state kind ms)) = true
is_succeeded (ok (failed id kind detail)) = false
is_succeeded (ok (conflicted stale current)) = false
is_succeeded (err e) = false

module _ (A : CaddyApplier) where
  -- The snapshot is recorded as the one of the version after `v`, and the instance has a row.
  abbrev pub IsNext : Snapshot → World → ℤ → Type 0
  IsNext s w v =
      (row : SnapshotRow) × (find (is_next s.snapshot_id A.instance_id (wrapping_suc v))
          w.db.snapshots
        ≡ some row)
      × (contains_key w.db.applied A.instance_id ≡ true)

  -- No success, and the given database, but that its log may have the row of one entry about a failure
  -- more, which is handed to the writer in the given world.
  abbrev pub Kept : Snapshot → World → Database → World × Result ApplyError ApplyOutcome → Type 0
  Kept s w db p =
      Noted A.audit (length w.audit) s.snapshot_id db p.0.db × (is_succeeded p.1 ≡ false)

  -- The entry about a success with the snapshot.
  abbrev pub IsAppliedEntry : Snapshot → AuditAppend → Type 0
  IsAppliedEntry s append = append ≡ applied_row (correlation_of A s) s.snapshot_id

  -- A success: the applied version goes from the expected one to the next, for which there is a row
  -- of the snapshot, and a row about it is handed to the writer; nothing else is changed.
  abbrev pub Moved :
      Snapshot → ℤ → World → Database → World × Result ApplyError ApplyOutcome → Type 0
  Moved s v w db p =
      (current_config_version w.db A.instance_id ≡ v)
      × ((log : List AuditEventRow) × Grown A.audit (length w.audit) (IsAppliedEntry s) db.audit_log
            log
          × (p.0.db ≡ record (advanced db A.instance_id (wrapping_suc v)) { audit_log = log }))
      × (p.0.audit ≡ applied_row (correlation_of A s) s.snapshot_id ∷ w.audit)
      × (p.1 ≡ ok (success A s))
      × IsNext s w v

  after_load-cases :
      (s : Snapshot) (v : ℤ) (state : DesiredState) (w : World)
      → let p = after_load A s v (correlation_of A s) state none w in
        Kept s w w.db p ⊎ (Verified A state w.caddy × (p.0.caddy ≡ w.caddy) × Moved s v w w.db p)
  unfolding after_load write_apply_succeeded_audit observe
  after_load-cases s v state w = elim (verify_equivalence-cases A state w) [
    | inr (e, h) ↦ inl (rw h (unnoted A.audit (length w.audit) s.snapshot_id w.db, refl))
    | inl (found, h) ↦ elim (cas_advance-cases A v s.snapshot_id w) [
      | inr (e, k) ↦ inl (rw (h, k) (unnoted A.audit (length w.audit) s.snapshot_id w.db, refl))
      | inl (after, n, adv, k) ↦
          let done = cas_advance_config_version-ok w.db A.instance_id v n s.snapshot_id after adv in
          let moved : World = record w { db = advanced w.db A.instance_id (wrapping_suc v) } in
          let k : cas_advance A v s.snapshot_id w ≡ (moved, ok tt) = rw done.1 at k in
          let (log, grown, noted) =
            recorded A.audit (IsAppliedEntry s) (applied_row (correlation_of A s) s.snapshot_id)
              moved refl in
          inr (
            found,
            rw (h, k, noted) refl,
            (
              done.0,
              (log, grown, rw (h, k, noted) refl),
              rw (h, k, noted) refl,
              rw (h, k, noted) refl,
              done.2,
            ),
          )
    ]
  ]

  -- A success, and what it rests on: the document of the snapshot's state is what Caddy was given
  -- and took, and what it runs was found to be what the state asks for.
  abbrev pub Applied :
      Snapshot → ℤ → World → Database → World × Result ApplyError ApplyOutcome → Type 0
  Applied s v w db p =
      (state : DesiredState) × (document : Value) × (parse_desired_state A s ≡ ok state)
      × (render_state A.parse state ≡ ok document)
      × (check_cached A A.capabilities state ≡ ok tt)
      × (A.load_config w.caddy document ≡ (p.0.caddy, ok tt))
      × Verified A state p.0.caddy
      × Moved s v w db p

  after_end :
      (s : Snapshot) (v : ℤ) (c : ℕ) (state : DesiredState) (w : World)
      (x : World × Result ApplyError (Option ApplyOutcome))
      → Noted A.audit (length w.audit) s.snapshot_id w.db x.0.db
      → Ends x.1
      → Kept s w w.db (continue x (after_load A s v c state))
  unfolding after_load
  after_end s v c state w (after, err e) same ends = (same, refl)
  after_end s v c state w (after, ok none) same ends = absurd ends
  after_end s v c state w (after, ok (some (failed id kind detail))) same ends = (same, refl)
  after_end s v c state w (after, ok (some (succeeded id version how kind ms))) same ends =
      absurd ends
  after_end s v c state w (after, ok (some (conflicted stale current))) same ends = absurd ends

  -- From the load on.
  loaded-cases :
      (s : Snapshot) (v : ℤ) (state : DesiredState) (document : Value) (w : World)
      → parse_desired_state A s ≡ ok state
      → render_state A.parse state ≡ ok document
      → check_cached A A.capabilities state ≡ ok tt
      → let c = correlation_of A s in
        let p = continue (load_or_fail A document c s.snapshot_id w) (after_load A s v c state) in
        Kept s w w.db p ⊎ Applied s v w w.db p
  unfolding load_or_fail
  loaded-cases s v state document w parsed rendered checked =
      let c = correlation_of A s in
      let answer = A.load_config w.caddy document in
      let loaded : World = record w { caddy = answer.0 } in
      elim (load_failed-cases A.audit c s.snapshot_id answer.1 loaded) [
        | inr (same, ends) ↦ inl (
            after_end s v c state w (load_failed A.audit c s.snapshot_id answer.1 loaded) same ends)
        | inl (took, next) ↦ elim (after_load-cases s v state loaded) [
          | inl kept ↦ inl (rw next kept)
          | inr (found, runs, moved) ↦
              let shown =
                subst (λ r. (answer ≡ (r, ok tt)) × Verified A state r) (sym runs)
                  (ap (λ a. (answer.0, a)) took, found) in
              let whole : Applied s v w w.db (after_load A s v c state none loaded) =
                (state, document, parsed, rendered, checked, shown.0, shown.1, moved) in
              inr (rw next whole)
        ]
      ]

  pub apply_current-passed :
      (s : Snapshot) (v : ℤ) (c : ℕ) (w : World) (state : DesiredState) (document : Value)
      → parse_desired_state A s ≡ ok state
      → render_state A.parse state ≡ ok document
      → check_cached A A.capabilities state ≡ ok tt
      → apply_current A s v c w
        ≡ continue (load_or_fail A document c s.snapshot_id w) (after_load A s v c state)
  unfolding apply_current
  apply_current-passed s v c w state document h k l = rw (h, k, l) refl

  apply_current-cases :
      (s : Snapshot) (v : ℤ) (w : World)
      → let p = apply_current A s v (correlation_of A s) w in Kept s w w.db p ⊎ Applied s v w w.db p
  unfolding apply_current
  apply_current-cases s v w = elim (Result-split (parse_desired_state A s)) [
    | inr (e, h) ↦ inl (rw h (unnoted A.audit (length w.audit) s.snapshot_id w.db, refl))
    | inl (state, h) ↦ elim (Result-split (render_state A.parse state)) [
      | inr (e, k) ↦ inl (rw (h, k) (unnoted A.audit (length w.audit) s.snapshot_id w.db, refl))
      | inl (document, k) ↦ elim (Result-split (check_cached A A.capabilities state)) [
        | inr (e, l) ↦
            inl (rw (h, k, l) (unnoted A.audit (length w.audit) s.snapshot_id w.db, refl))
        | inl (t, l) ↦
            subst (λ p. Kept s w w.db p ⊎ Applied s v w w.db p)
              (sym (apply_current-passed s v (correlation_of A s) w state document h k l))
              (loaded-cases s v state document w h k l)
      ]
    ]
  ]

  apply_locked-cases :
      (s : Snapshot) (v : ℤ) (w : World)
      → let p = apply_locked A s v (correlation_of A s) w in Kept s w w.db p ⊎ Applied s v w w.db p
  unfolding apply_locked handle_conflict record_audit
  apply_locked-cases s v w = elim (Bool-cases (current_config_version w.db A.instance_id ==ℤ v)) [
    | inr stale ↦ inl (rw stale ((record_audit-Noted A.audit _ w refl).0, refl))
    | inl same ↦ rw same (apply_current-cases s v w)
  ]

  unlock-cases :
      (s : Snapshot) (v : ℤ) (w : World) (locks : Locks)
      (p : World × Result ApplyError ApplyOutcome)
      → let held = with_locks A w locks in
        let freed = record w.db { apply_locks = release locks A.instance_id A.holder_pid } in
        Kept s held held.db p ⊎ Applied s v held held.db p
        → Kept s w freed (unlock A p) ⊎ Applied s v w freed (unlock A p)
  unfolding current_config_version
  unlock-cases s v w locks p (inl kept) =
      inl ((kept.0.0, kept.0.1, ap (unlocked_db A) kept.0.2), kept.1)
  unlock-cases s v w locks p
        (inr (state, document, parsed, rendered, checked, loaded, found, moved)) =
      inr (
        state,
        document,
        parsed,
        rendered,
        checked,
        loaded,
        found,
        (moved.0, (moved.1.0, moved.1.1, ap (unlocked_db A) moved.1.2), moved.2, moved.3, moved.4),
      )

  pub apply-given :
      (s : Snapshot) (v : ℤ) (w : World) (locks : Locks)
      → acquire_apply_lock A.process_alive A.gaps w.db.apply_locks A.instance_id A.holder_pid
        ≡ (locks, ok tt)
      → apply A s v w ≡ unlock A (apply_locked A s v (correlation_of A s) (with_locks A w locks))
  unfolding apply under_lock
  apply-given s v w locks h = rw h refl

  freed-lock :
      (s : Snapshot) (v : ℤ) (w : World) (locks : Locks)
      (p : World × Result ApplyError ApplyOutcome)
      → get locks A.instance_id ≡ some A.holder_pid
      → let freed = record w.db { apply_locks = release locks A.instance_id A.holder_pid } in
        Kept s w freed p ⊎ Applied s v w freed p → get p.0.db.apply_locks A.instance_id ≡ none
  freed-lock s v w locks p own (inl kept) =
      subst (λ db. get db.apply_locks A.instance_id ≡ none) (sym kept.0.2)
        (release-own locks A.instance_id A.holder_pid own)
  freed-lock s v w locks p own
        (inr (state, document, parsed, rendered, checked, loaded, found, moved)) =
      subst (λ db. get db.apply_locks A.instance_id ≡ none) (sym moved.1.2)
        (release-own locks A.instance_id A.holder_pid own)

  -- An apply that is given the lock either is no success and leaves the database as it was, but for
  -- the lock and at most one row about an error with the snapshot, linked to the rows before it, on
  -- top of the audit log; or is a success: then the applied version was the expected one and is now
  -- the next, as which the snapshot is recorded, Caddy took the document of the snapshot's state,
  -- which passed the check of modules, what it runs was found to be what the state asks for, the
  -- audit writer was handed one entry about the success, and nothing else in the database is changed
  -- but that its row, if it could be written, is on top of the audit log, linked to the rows before
  -- it. The lock is free afterwards in both cases.
  pub apply-cases :
      (s : Snapshot) (v : ℤ) (w : World) (locks : Locks)
      → acquire_apply_lock A.process_alive A.gaps w.db.apply_locks A.instance_id A.holder_pid
        ≡ (locks, ok tt)
      → let freed = record w.db { apply_locks = release locks A.instance_id A.holder_pid } in
        let p = apply A s v w in
        (Kept s w freed p ⊎ Applied s v w freed p) × (get p.0.db.apply_locks A.instance_id ≡ none)
  apply-cases s v w locks h =
      let freed = record w.db { apply_locks = release locks A.instance_id A.holder_pid } in
      let own = acquire_apply_lock-ok A.process_alive A.gaps _ locks A.instance_id A.holder_pid h in
      let held = apply_locked-cases s v (with_locks A w locks) in
      let cases =
        subst (λ p. Kept s w freed p ⊎ Applied s v w freed p) (sym (apply-given s v w locks h))
          (unlock-cases s v w locks (apply_locked A s v (correlation_of A s) (with_locks A w locks))
            held) in
      (cases, freed-lock s v w locks (apply A s v w) own cases)
