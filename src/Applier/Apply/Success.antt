-- ===== src/Applier/Apply/Success.antt =====
-- When an apply succeeds.
use trilithon.Base.{ℕ, true, none, Result, ok, ◌≡◌, refl, sym, ap, ◌∙◌, ◌⊎◌, inl, inr, ◌↔◌}
use trilithon.Base.Int.{ℤ, ◌==ℤ◌, ==ℤ_iff}
use trilithon.Model.Json.{Value}
use trilithon.Model.State.{DesiredState}
use trilithon.Storage.Types.{Snapshot}
use trilithon.Storage.Sqlite.{Database, current_config_version}
use trilithon.Storage.Sqlite.Advance.{cas_advance_config_version-advanced}
use trilithon.Storage.Sqlite.Locks.{Locks, acquire_apply_lock, release}
use trilithon.Reconciler.Render.{render_state}
use trilithon.Applier.Types.{ApplyError, ApplyOutcome}
use trilithon.Applier.Monad.{World}
use trilithon.Applier.Writer.{record_audit}
use trilithon.Applier.Reports.{load_failed, write_apply_succeeded_audit}
use trilithon.Applier.Apply.{
  CaddyApplier, parse_desired_state, check_cached, load_or_fail, cas_advance, observe, success,
  after_load, apply_locked, apply, with_locks, unlock, correlation_of,
}
use trilithon.Applier.Apply.Steps.{Verified, verified}
use trilithon.Applier.Apply.Outcome.{
  IsNext, is_succeeded, Kept, Applied, apply-cases, apply_current-passed, apply-given,
}

module _ (A : CaddyApplier) where
  after_load-succeeds :
      (s : Snapshot) (v : ℤ) (c : ℕ) (state : DesiredState) (w : World)
      → current_config_version w.db A.instance_id ≡ v
      → IsNext A s w v
      → Verified A state w.caddy
      → (after : World) × (after_load A s v c state none w ≡ (after, ok (success A s)))
        × (after.caddy ≡ w.caddy)
  unfolding after_load cas_advance write_apply_succeeded_audit observe record_audit
  after_load-succeeds s v c state w same (row, there, has) found =
      let stored =
        cas_advance_config_version-advanced w.db A.instance_id v s.snapshot_id row same there has in
      let found = verified A state w found in
      ((after_load A s v c state none w).0, rw (found, stored) refl, rw (found, stored) refl)

  -- An apply for which everything is ready succeeds, and Caddy then runs what it said it would.
  pub apply-succeeds :
      (s : Snapshot) (w : World) (locks : Locks) (state : DesiredState) (document running : Value)
      → let v = current_config_version w.db A.instance_id in
        IsNext A s w v
        → acquire_apply_lock A.process_alive A.gaps w.db.apply_locks A.instance_id A.holder_pid
          ≡ (locks, ok tt)
        → parse_desired_state A s ≡ ok state
        → render_state A.parse state ≡ ok document
        → check_cached A A.capabilities state ≡ ok tt
        → A.load_config w.caddy document ≡ (running, ok tt)
        → Verified A state running
        → ((apply A s v w).1 ≡ ok (success A s)) × ((apply A s v w).0.caddy ≡ running)
  unfolding apply_locked load_or_fail load_failed current_config_version
  apply-succeeds s w locks state document running next given h k l took found =
      let v = current_config_version w.db A.instance_id in
      let c = correlation_of A s in
      let held = with_locks A w locks in
      let equal : (v ==ℤ v) ≡ true = (==ℤ_iff v v).1 refl in
      let (after, done, kept) =
        after_load-succeeds s v c state (record held { caddy = running }) refl next found in
      let inner : apply_locked A s v c held ≡ (after, ok (success A s)) =
        rw equal (apply_current-passed A s v c held state document h k l ∙ rw (took, done) refl) in
      let whole = apply-given A s v w locks given ∙ ap (unlock A) inner in
      (ap (λ p. p.1) whole, ap (λ p. p.0.caddy) whole ∙ kept)

  -- What an apply of the snapshot, with the expected version `v`, needs besides the lock.
  abbrev pub IsReady : Snapshot → ℤ → World → Type 0
  IsReady s v w =
      (current_config_version w.db A.instance_id ≡ v)
      × IsNext A s w v
      × ((state : DesiredState) × (document : Value) × (running : Value) × (parse_desired_state A s
            ≡ ok state)
          × (render_state A.parse state ≡ ok document)
          × (check_cached A A.capabilities state ≡ ok tt)
          × (A.load_config w.caddy document ≡ (running, ok tt))
          × Verified A state running)

  ready :
      (s : Snapshot) (v : ℤ) (w : World) (db : Database)
      (p : World × Result ApplyError ApplyOutcome)
      → Kept A s w db p ⊎ Applied A s v w db p
      → is_succeeded p.1 ≡ true
      → IsReady s v w
  ready s v w db p (inl kept) h = cc (sym kept.1 ∙ h)
  ready s v w db p (inr (state, document, parsed, rendered, checked, loaded, found, moved)) h =
      (moved.0, moved.4, (state, document, p.0.caddy, parsed, rendered, checked, loaded, found))

  -- An apply that is given the lock succeeds exactly when the version that it expects is the applied
  -- one, the instance has an applied version, its snapshot is recorded as the one of the next
  -- version, the state is parsed, rendered and passes the check of modules, and Caddy takes the
  -- document and is found to run what the state asks for.
  pub apply-succeeds_iff :
      (s : Snapshot) (v : ℤ) (w : World) (locks : Locks)
      → acquire_apply_lock A.process_alive A.gaps w.db.apply_locks A.instance_id A.holder_pid
        ≡ (locks, ok tt)
      → (is_succeeded (apply A s v w).1 ≡ true) ↔ IsReady s v w
  apply-succeeds_iff s v w locks given = (
    λ h.
        ready s v w (record w.db { apply_locks = release locks A.instance_id A.holder_pid })
          (apply A s v w) (apply-cases A s v w locks given).0 h,
    λ (same, next, (state, document, running, h, k, l, took, found)).
        let next : IsNext A s w (current_config_version w.db A.instance_id) = rw same next in
        let done : (apply A s (current_config_version w.db A.instance_id) w).1 ≡ ok (success A s) =
          (apply-succeeds s w locks state document running next given h k l took found).0 in
        let done : (apply A s v w).1 ≡ ok (success A s) = rw same at done in rw done refl,
  )
