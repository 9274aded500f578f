-- ===== src/Applier/Apply/Sequence.antt =====
-- Applies one after the other.
use trilithon.Base.{
  ℕ, zero, suc, Bool, List, [], ◌∷◌, none, Result, if◌then◌else◌, ◌≡◌, refl, sym, ap, ◌∙◌, ◌⊎◌, inl,
  inr, Bool-cases,
}
use trilithon.Base.Int.{ℤ, wrapping_suc}
use trilithon.Base.BTreeMap.{get, insert}
use trilithon.Storage.Types.{Snapshot, AuditEventRow}
use trilithon.Storage.Sqlite.{Database, current_config_version}
use trilithon.Storage.Sqlite.Advance.{advanced, current_config_version-advanced}
use trilithon.Storage.Sqlite.Locks.{Locks, release}
use trilithon.Storage.Sqlite.Locks.Exclusive.{acquire-free}
use trilithon.Applier.Types.{ApplyError, ApplyOutcome}
use trilithon.Applier.Monad.{World}
use trilithon.Applier.Apply.{CaddyApplier, apply}
use trilithon.Applier.Apply.Outcome.{is_succeeded, Kept, Applied, apply-cases}

-- The version after a number of advances.
unfoldable pub advance_by : ℕ → ℤ → ℤ
advance_by zero v = v
advance_by (suc n) v = advance_by n (wrapping_suc v)

module _ (A : CaddyApplier) where
  abbrev version : World → ℤ
  version w = current_config_version w.db A.instance_id

  abbrev one_more : Bool → ℕ → ℕ
  one_more b n = if b then suc n else n

  -- The world after the applies, each with the version that it expects, and how many succeeded.
  unfoldable pub apply_all : List (Snapshot × ℤ) → World → World × ℕ
  apply_all [] w = (w, 0)
  apply_all ((s, v) ∷ rest) w =
      let p = apply A s v w in let r = apply_all rest p.0 in (r.0, one_more (is_succeeded p.1) r.1)

  version-logged :
      (db : Database) (log : List AuditEventRow)
      → current_config_version (record db { audit_log = log }) A.instance_id
        ≡ current_config_version db A.instance_id
  unfolding current_config_version
  version-logged db log = refl

  -- The versions before and after one apply.
  version-counted :
      (s : Snapshot) (v : ℤ) (w : World) (db : Database)
      (p : World × Result ApplyError ApplyOutcome)
      → current_config_version db A.instance_id ≡ version w
      → Kept A s w db p ⊎ Applied A s v w db p
      → version p.0 ≡ (if is_succeeded p.1 then wrapping_suc (version w) else version w)
  version-counted s v w db p same (inl kept) = rw kept.1 (
      ap (λ d. current_config_version d A.instance_id) kept.0.2 ∙ version-logged db kept.0.0 ∙ same)
  version-counted s v w db p same
        (inr (state, document, parsed, rendered, checked, loaded, found, moved)) =
      rw moved.3 (
        ap (λ d. current_config_version d A.instance_id) moved.1.2
        ∙ version-logged (advanced db A.instance_id (wrapping_suc v)) moved.1.0
        ∙ current_config_version-advanced db A.instance_id (wrapping_suc v)
        ∙ ap wrapping_suc (sym moved.0))

  version-unlocked :
      (w : World) (locks : Locks)
      → current_config_version (record w.db { apply_locks = locks }) A.instance_id ≡ version w
  unfolding current_config_version
  version-unlocked w locks = refl

  -- However many applies follow one another, on whatever snapshots and expected versions and whatever
  -- Caddy answers: when the lock is free at the start, the applied version has advanced by exactly one
  -- for each that succeeded, and the lock is free at the end.
  pub apply_all-counts :
      (applies : List (Snapshot × ℤ)) (w : World)
      → get w.db.apply_locks A.instance_id ≡ none
      → let r = apply_all applies w in
        (version r.0 ≡ advance_by r.1 (version w)) × (get r.0.db.apply_locks A.instance_id ≡ none)
  unfolding apply_all advance_by
  apply_all-counts [] w free = (refl, free)
  apply_all-counts ((s, v) ∷ rest) w free =
      let locks = insert w.db.apply_locks A.instance_id A.holder_pid in
      let given =
        acquire-free A.process_alive A.gaps w.db.apply_locks A.instance_id A.holder_pid free in
      let (cases, freed) = apply-cases A s v w locks given in
      let held = release locks A.instance_id A.holder_pid in
      let p = apply A s v w in
      let one =
        version-counted s v w (record w.db { apply_locks = held }) p (version-unlocked w held)
          cases in
      let (more, unlocked) = apply_all-counts rest p.0 freed in
      elim (Bool-cases (is_succeeded p.1)) [
        | inl e ↦ (rw e (more ∙ ap (advance_by (apply_all rest p.0).1) (rw e at one)), unlocked)
        | inr e ↦ (rw e (more ∙ ap (advance_by (apply_all rest p.0).1) (rw e at one)), unlocked)
      ]
