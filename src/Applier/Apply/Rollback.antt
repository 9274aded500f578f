-- ===== src/Applier/Apply/Rollback.antt =====
-- A rollback, which asks for the advance of the applied version to the target's.
use trilithon.Base.{ℕ, true, none, some, ok, err, ◌≡◌, refl, sym, ap, ◌∙◌, subst, inl, inr}
use trilithon.Base.Int.{ℤ, ◌==ℤ◌, ==ℤ_iff, wrapping_suc}
use trilithon.Model.Json.{Value}
use trilithon.Model.State.{DesiredState}
use trilithon.Mutation.Types.{SnapshotId}
use trilithon.Storage.Tables.{find}
use trilithon.Storage.Types.{Snapshot}
use trilithon.Storage.Sqlite.{is_next, current_config_version, get_snapshot}
use trilithon.Storage.Sqlite.Advance.{cas_advance_config_version-ok}
use trilithon.Storage.Sqlite.Locks.{Locks, acquire_apply_lock}
use trilithon.Reconciler.Render.{render_state}
use trilithon.Applier.Types.{ApplyError}
use trilithon.Applier.Monad.{World}
use trilithon.Applier.Reports.{load_failed}
use trilithon.Applier.Apply.{
  CaddyApplier, parse_desired_state, check_cached, load_or_fail, cas_advance, after_load,
  apply_locked, apply, with_locks, unlock, rollback, correlation_of,
}
use trilithon.Applier.Apply.Steps.{Verified, verified, cas_advance-cases}
use trilithon.Applier.Apply.Outcome.{apply_current-passed, apply-given}

module _ (A : CaddyApplier) where
  abbrev NotNext : Snapshot → World → ℤ → Type 0
  NotNext s w v = find (is_next s.snapshot_id A.instance_id (wrapping_suc v)) w.db.snapshots ≡ none

  cas_advance-refused :
      (s : Snapshot) (v : ℤ) (w : World)
      → NotNext s w v
      → (e : ApplyError) × (cas_advance A v s.snapshot_id w ≡ (w, err e))
  cas_advance-refused s v w gone = elim (cas_advance-cases A v s.snapshot_id w) [
    | inr refused ↦ refused
    | inl (after, n, adv, k) ↦
        let done = cas_advance_config_version-ok w.db A.instance_id v n s.snapshot_id after adv in
        cc (sym gone ∙ done.2.1)
  ]

  after_load-refused :
      (s : Snapshot) (v : ℤ) (c : ℕ) (state : DesiredState) (w : World)
      → Verified A state w.caddy
      → NotNext s w v
      → (e : ApplyError) × (after_load A s v c state none w ≡ (w, err e))
  unfolding after_load
  after_load-refused s v c state w found gone =
      let refused = cas_advance-refused s v w gone in
      (refused.0, rw (verified A state w found, refused.1) refl)

  apply_locked-refused :
      (s : Snapshot) (c : ℕ) (w : World) (state : DesiredState) (document running : Value)
      → let v = current_config_version w.db A.instance_id in
        NotNext s w v
        → parse_desired_state A s ≡ ok state
        → render_state A.parse state ≡ ok document
        → check_cached A A.capabilities state ≡ ok tt
        → A.load_config w.caddy document ≡ (running, ok tt)
        → Verified A state running
        → (e : ApplyError) × (apply_locked A s v c w ≡ (record w { caddy = running }, err e))
  unfolding apply_locked load_or_fail load_failed
  apply_locked-refused s c w state document running gone h k l took found =
      let v = current_config_version w.db A.instance_id in
      let same : (v ==ℤ v) ≡ true = (==ℤ_iff v v).1 refl in
      let end = after_load-refused s v c state (record w { caddy = running }) found gone in
      (end.0, rw same (apply_current-passed A s v c w state document h k l ∙ rw (took, end.1) refl))

  rollback-apply :
      (target : SnapshotId) (s : Snapshot) (w : World)
      → get_snapshot w.db target ≡ ok (some s)
      → rollback A target w ≡ apply A s (current_config_version w.db A.instance_id) w
  unfolding rollback
  rollback-apply target s w h = rw h refl

  -- A rollback to a snapshot that is not the one of the version after the applied one fails although
  -- nothing else does: Caddy then runs the document of the target's state, which it took and which
  -- was verified, while the result is an error and the database still has the version before.
  pub rollback-diverges :
      (target : SnapshotId) (s : Snapshot) (w : World) (locks : Locks) (state : DesiredState)
      (document running : Value)
      → get_snapshot w.db target ≡ ok (some s)
      → NotNext s w (current_config_version w.db A.instance_id)
      → acquire_apply_lock A.process_alive A.gaps w.db.apply_locks A.instance_id A.holder_pid
        ≡ (locks, ok tt)
      → parse_desired_state A s ≡ ok state
      → render_state A.parse state ≡ ok document
      → check_cached A A.capabilities state ≡ ok tt
      → A.load_config w.caddy document ≡ (running, ok tt)
      → Verified A state running
      → let p = rollback A target w in
        (p.0.caddy ≡ running) × (p.0.db.applied ≡ w.db.applied) × ((e : ApplyError) × (p.1 ≡ err e))
  unfolding current_config_version
  rollback-diverges target s w locks state document running stored gone given h k l took found =
      let v = current_config_version w.db A.instance_id in
      let c = correlation_of A s in
      let end =
        apply_locked-refused s c (with_locks A w locks) state document running gone h k l took
          found in
      let whole =
        rollback-apply target s w stored ∙ apply-given A s v w locks given ∙ ap (unlock A) end.1 in
      subst
        (λ p.
          (p.0.caddy ≡ running)
          × (p.0.db.applied ≡ w.db.applied)
          × ((e : ApplyError) × (p.1 ≡ err e)))
        (sym whole) (refl, refl, (end.0, refl))
