-- ===== src/Mutation/Apply/Pipeline.antt =====
-- The stages of `apply_mutation`: what a success has passed, and which error comes first.
use trilithon.Base.{
  ◌≡◌, refl, sym, false, not, Result, >>=-eq-ok, ◌>>=◌, ok_or, refuse_if, refuse_if-eq-ok,
  ok_or-eq-ok, not-false, ap, ok, err, ◌∙◌,
}
use trilithon.Base.Int.{
  ◌==ℤ◌, ==ℤ_iff, checked_suc, checked_suc-eq_some, suc_ℤ, suc_ℤ-IsI64, IsI64, i64_max,
}
use trilithon.Model.State.{DesiredState}
use trilithon.Mutation.Types.{
  Mutation, expected_version, kind, MutationOutcome, CapabilitySet, conflict, forbidden,
  version_overflow,
}
use trilithon.Mutation.Capability.{check_capabilities}
use trilithon.Mutation.Validate.Import.{pre_conditions}
use trilithon.Mutation.Steps.{Serde, Applied}
use trilithon.Mutation.Apply.Frame.{apply_variant-SameFrame}
use trilithon.Mutation.Apply.{apply_mutation, apply_variant, audit_event_for}

-- A chain of three checks and two steps that succeeds.
stages :
    {E A B C : Type 0} (c k p : Result E (Unit {0})) (v : Result E A) (f : A → Result E B)
    (g : B → C) {o : C}
    → (c >>= λ _. k >>= λ _. p >>= λ _. v >>= λ x. f x >>= λ y. ok (g y)) ≡ ok o
    → (c ≡ ok tt)
      × (k ≡ ok tt)
      × (p ≡ ok tt)
      × (x : A) × (v ≡ ok x)
      × (y : B) × (f x ≡ ok y)
      × (g y ≡ o)
stages (err e) k p v f g h = cc
stages (ok _) (err e) p v f g h = cc
stages (ok _) (ok _) (err e) v f g h = cc
stages (ok _) (ok _) (ok _) (err e) f g h = cc
stages (ok _) (ok _) (ok _) (ok x) f g h =
    let (y, e, q) = >>=-eq-ok (f x) (λ y. ok (g y)) h in (refl, refl, refl, x, refl, y, e, cc)

module _ (serde : Serde) (s : DesiredState) (m : Mutation) (caps : CapabilitySet) where
  -- What a successful application has passed, and where its outcome comes from.
  pub record Passed (o : MutationOutcome) : Type 0 where
    pub version : expected_version m ≡ s.version
    pub capable : check_capabilities m caps ≡ ok tt
    pub allowed : pre_conditions s m ≡ ok tt
    pub room : (s.version ==ℤ i64_max) ≡ false
    pub applied :
        apply_variant serde s (record s { version = suc_ℤ s.version }) m
        ≡ ok (o.new_state, o.diff.changes)
    pub event : o.audit_event ≡ audit_event_for (kind m)

  pub apply_mutation-Passed :
      (o : MutationOutcome) → apply_mutation serde s m caps ≡ ok o → Passed o
  unfolding apply_mutation
  apply_mutation-Passed o h =
      let (c, k, p, v, bumped, y, e, q) =
        stages
          (refuse_if (not (expected_version m ==ℤ s.version))
            (conflict s.version (expected_version m)))
          (check_capabilities m caps) (pre_conditions s m)
          (ok_or (checked_suc s.version) (forbidden version_overflow))
          (λ v. apply_variant serde s (record s { version = v }) m)
          (λ y. record {
            new_state = y.0;
            diff = record { changes = y.1 };
            audit_event = audit_event_for (kind m);
          })
          h in
      let (room, next) =
        checked_suc-eq_some s.version v (ok_or-eq-ok _ (forbidden version_overflow) bumped) in
      record {
        version =
            (==ℤ_iff (expected_version m) s.version).0
              (not-false _ (refuse_if-eq-ok _ (conflict s.version (expected_version m)) c));
        capable = k;
        allowed = p;
        room = room;
        applied = rw (← next) (e ∙ ap ok (ap {B = Applied} (λ x. (x.new_state, x.diff.changes)) q));
        event = sym (ap (λ x. x.audit_event) q);
      }

  -- A mutation that succeeds adds one to the version, and a version that was an `i64` stays one.
  pub version-apply_mutation :
      (o : MutationOutcome)
      → apply_mutation serde s m caps ≡ ok o
      → IsI64 s.version
      → (o.new_state.version ≡ suc_ℤ s.version) × IsI64 o.new_state.version
  version-apply_mutation o h bound =
      let passed = apply_mutation-Passed o h in
      let frame = apply_variant-SameFrame serde s _ o.new_state m o.diff.changes passed.applied in
      (frame.version, rw frame.version (suc_ℤ-IsI64 s.version bound passed.room))
