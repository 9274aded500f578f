-- ===== src/Mutation/Apply/Order.antt =====
-- The order of two mutations on one version, and the mutations that `apply_mutation` never accepts.
use trilithon.Base.{
  String, ◌≡◌, refl, sym, ◌∙◌, inl, inr, true, false, not, none, ok, err, Bool, Bool-cases,
  if◌then◌else◌, str_eq, eq_refl, >>-eq-ok, refuse_if,
}
use trilithon.Base.Int.{ℤ, suc_ℤ, ◌==ℤ◌, ==ℤ_iff, suc_ℤ-ne}
use trilithon.Base.BTreeMap.{get, contains_key, remove}
use trilithon.Base.BTreeMap.Lookup.{get-remove}
use trilithon.Model.State.{DesiredState}
use trilithon.Mutation.Types.{
  Mutation, MutationKind, MutationOutcome, CapabilitySet, conflict, forbidden,
  rollback_target_unknown, upstream_reference_missing, expected_version, kind,
}
use trilithon.Mutation.Capability.{check_capabilities, first_missing, referenced_caddy_modules}
use trilithon.Mutation.Validate.{check_delete_upstream, check_unreferenced, mentions, invalid_at}
use trilithon.Mutation.Validate.Import.{pre_conditions}
use trilithon.Mutation.Steps.{Serde, apply_delete_upstream}
use trilithon.Mutation.Apply.{apply_variant, apply_mutation}
use trilithon.Mutation.Apply.Frame.{apply_variant-SameFrame}
use trilithon.Mutation.Apply.Pipeline.{apply_mutation-Passed}
use trilithon.Mutation.Apply.Conflict.{conflict_iff}
use trilithon.Mutation.Invariant.Maps.{Holds}
use trilithon.Mutation.Invariant.Checks.{check_unreferenced-ok}

-- After a mutation that succeeds, every mutation that expects the same version is a conflict, the
-- same mutation again among them.
pub apply_mutation-again :
    (serde : Serde) (s : DesiredState) (m : Mutation) (caps : CapabilitySet) (o : MutationOutcome)
    → apply_mutation serde s m caps ≡ ok o
    → (again : Mutation) (now : CapabilitySet) → expected_version again ≡ expected_version m
    → apply_mutation serde o.new_state again now
      ≡ err (conflict (suc_ℤ s.version) (expected_version m))
apply_mutation-again serde s m caps o h again now same =
    let passed = apply_mutation-Passed serde s m caps o h in
    let frame = apply_variant-SameFrame serde s _ o.new_state m o.diff.changes passed.applied in
    (conflict_iff serde o.new_state again now (suc_ℤ s.version) (expected_version m)).1 (
      sym frame.version,
      sym same,
      λ e. true_false (
          sym ((==ℤ_iff s.version (suc_ℤ s.version)).1 (sym passed.version ∙ e))
          ∙ suc_ℤ-ne s.version),
    )
  where
    true_false : ◌≡◌ {A = Bool} true false → ⊥
    true_false e = cc

-- The kinds that have no implementation yet.
abbrev pub is_reserved : MutationKind → Bool
is_reserved MutationKind.rollback = true
is_reserved MutationKind.replace_desired_state = true
is_reserved MutationKind.reapply_snapshot = true
is_reserved MutationKind.drift_deferred = true
is_reserved _ = false

reserved_checks :
    (s : DesiredState) (m : Mutation) (caps : CapabilitySet)
    → is_reserved (kind m) ≡ true
    → (check_capabilities m caps ≡ ok tt)
      × (pre_conditions s m ≡ err (forbidden rollback_target_unknown))
unfolding kind check_capabilities first_missing referenced_caddy_modules pre_conditions
reserved_checks s (Mutation.rollback _ _) caps h = (refl, refl)
reserved_checks s (Mutation.replace_desired_state _ _ _) caps h = (refl, refl)
reserved_checks s (Mutation.reapply_snapshot _ _ _) caps h = (refl, refl)
reserved_checks s (Mutation.drift_deferred _ _) caps h = (refl, refl)
reserved_checks s _ caps h = cc

-- A rollback, a replacement of the state, a reapplication and a deferral are refused: as a conflict on
-- another version, and as an unknown target on the state's own.
pub apply_mutation-reserved :
    (serde : Serde) (s : DesiredState) (m : Mutation) (caps : CapabilitySet)
    → is_reserved (kind m) ≡ true
    → apply_mutation serde s m caps
      ≡ err (
          if expected_version m ==ℤ s.version
          then forbidden rollback_target_unknown
          else conflict s.version (expected_version m))
unfolding apply_mutation
apply_mutation-reserved serde s m caps h =
    let (capable, refused) = reserved_checks s m caps h in
    elim (Bool-cases (expected_version m ==ℤ s.version)) [
      | inl e ↦ rw (e, capable, refused)
      | inr e ↦ rw e
    ]

delete_upstream_checks :
    (s : DesiredState) (id : String)
    → check_delete_upstream s id ≡ ok tt
    → Holds (λ _ r. mentions r.upstreams id ≡ false) s.routes
unfolding check_delete_upstream
delete_upstream_checks s id h =
    check_unreferenced-ok s.routes id
      (>>-eq-ok
        (refuse_if (not (contains_key s.upstreams id))
          (invalid_at upstream_reference_missing "id" "upstream does not exist"))
        (check_unreferenced s.routes id) h).1

-- An upstream whose deletion succeeds is gone, no route names it, and the routes and the other
-- upstreams stay.
pub delete_upstream-gone :
    (serde : Serde) (s : DesiredState) (caps : CapabilitySet) (o : MutationOutcome) (v : ℤ)
    (id : String)
    → apply_mutation serde s (Mutation.delete_upstream v id) caps ≡ ok o
    → (get o.new_state.upstreams id ≡ none)
      × Holds (λ _ r. mentions r.upstreams id ≡ false) o.new_state.routes
      × (o.new_state.routes ≡ s.routes)
      × ((j : String) → str_eq id j ≡ false → get o.new_state.upstreams j ≡ get s.upstreams j)
unfolding pre_conditions apply_variant apply_delete_upstream
delete_upstream-gone serde s caps o v id h =
    let passed = apply_mutation-Passed serde s (Mutation.delete_upstream v id) caps o h in
    let state : record s { version = suc_ℤ s.version; upstreams = remove s.upstreams id }
        ≡ o.new_state =
      cc (passed.applied) in
    let free = delete_upstream_checks s id passed.allowed in
    rw (← state) (rw (get-remove, eq_refl), free, refl, λ j ne. rw (get-remove, ne))
