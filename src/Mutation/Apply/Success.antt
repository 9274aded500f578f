-- ===== src/Mutation/Apply/Success.antt =====
-- When `apply_mutation` succeeds: no step fails once the pre-condition holds.
use trilithon.Base.{
  String, ◌≡◌, ◌≢◌, refl, sym, ◌∙◌, ◌↔◌, inl, inr, Bool, true, false, some, ok, some-is_some,
  ok_of_is_ok, not-false, >>-eq-ok, >>=-eq-ok, refuse_if-eq-ok, Bool-cases, ℕ,
}
use trilithon.Base.Int.{ℤ, suc_ℤ, ◌==ℤ◌, ==ℤ_iff, i64_max, checked_suc}
use trilithon.Base.BTreeMap.{get, contains_key, contains}
use trilithon.Model.Route.{Route, RoutePolicyAttachment}
use trilithon.Model.State.{DesiredState}
use trilithon.Mutation.Types.{
  Mutation, MutationOutcome, CapabilitySet, RoutePatch, expected_version,
}
use trilithon.Mutation.Capability.{referenced_caddy_modules}
use trilithon.Mutation.Capability.Loaded.{check_capabilities_iff}
use trilithon.Mutation.Validate.{
  check_route_exists, check_update_route, check_update_upstream, check_attach_policy,
  check_detach_policy, check_upgrade_policy, attached_policy,
}
use trilithon.Mutation.Validate.Import.{pre_conditions}
use trilithon.Mutation.Steps.{
  Serde, Applied, apply_route_patch, apply_upstream_patch, apply_attach_policy, apply_detach_policy,
  apply_upgrade_policy,
}
use trilithon.Mutation.Apply.{apply_variant, apply_mutation}
use trilithon.Mutation.Apply.Pipeline.{apply_mutation-Passed}
use trilithon.Mutation.Apply.Effect.{attached_policy-ok}

route_exists :
    (s : DesiredState) (id : String)
    → check_route_exists s id ≡ ok tt
    → (r : Route) × (get s.routes id ≡ some r)
unfolding check_route_exists
route_exists s id h =
    some-is_some (get s.routes id) (not-false (contains_key s.routes id) (refuse_if-eq-ok _ _ h))

update_route_exists :
    (s : DesiredState) (id : String) (p : RoutePatch)
    → check_update_route s id p ≡ ok tt
    → (r : Route) × (get s.routes id ≡ some r)
unfolding check_update_route
update_route_exists s id p h = route_exists s id (>>-eq-ok (check_route_exists s id) _ h).0

attach_route_exists :
    (s : DesiredState) (id preset : String) (k : ℕ)
    → check_attach_policy s id preset k ≡ ok tt
    → (r : Route) × (get s.routes id ≡ some r)
unfolding check_attach_policy
attach_route_exists s id preset k h =
    route_exists s id (>>-eq-ok (check_route_exists s id) _ (>>-eq-ok _ _ h).1).0

detach_route_exists :
    (s : DesiredState) (id : String)
    → check_detach_policy s id ≡ ok tt
    → (r : Route) × (get s.routes id ≡ some r)
unfolding check_detach_policy
detach_route_exists s id h =
    let (a, found, _) = >>=-eq-ok (attached_policy (get s.routes id)) _ h in
    let (r, at, _) = attached_policy-ok (get s.routes id) a found in (r, at)

upgrade_attachment_exists :
    (s : DesiredState) (id : String) (k : ℕ)
    → check_upgrade_policy s id k ≡ ok tt
    → (r : Route) × (a : RoutePolicyAttachment) × (get s.routes id ≡ some r)
      × (r.policy_attachment ≡ some a)
unfolding check_upgrade_policy
upgrade_attachment_exists s id k h =
    let (a, found, _) = >>=-eq-ok (attached_policy (get s.routes id)) _ h in
    let (r, at, attached) = attached_policy-ok (get s.routes id) a found in (r, a, at, attached)

module _ (serde : Serde) (s : DesiredState) where
  variant_total :
      (v : ℤ) (m : Mutation)
      → pre_conditions s m ≡ ok tt
      → (a : Applied) × (apply_variant serde s (record s { version = v }) m ≡ ok a)
  unfolding apply_variant pre_conditions
  variant_total v (Mutation.create_route _ _) h = (_, refl)
  variant_total v (Mutation.update_route _ id p) h =
      unfold apply_route_patch in
      let (r, at) = update_route_exists s id p h in ok_of_is_ok _ (rw at)
  variant_total v (Mutation.delete_route _ _) h = (_, refl)
  variant_total v (Mutation.create_upstream _ _) h = (_, refl)
  variant_total v (Mutation.update_upstream _ id p) h =
      unfold apply_upstream_patch check_update_upstream in
      let (u, at) =
        some-is_some (get s.upstreams id)
          (not-false (contains_key s.upstreams id) (refuse_if-eq-ok _ _ h)) in
      ok_of_is_ok _ (rw at)
  variant_total v (Mutation.delete_upstream _ _) h = (_, refl)
  variant_total v (Mutation.attach_policy _ id preset k) h =
      unfold apply_attach_policy in
      let (r, at) = attach_route_exists s id preset k h in ok_of_is_ok _ (rw at)
  variant_total v (Mutation.detach_policy _ id) h =
      unfold apply_detach_policy in
      let (r, at) = detach_route_exists s id h in ok_of_is_ok _ (rw at)
  variant_total v (Mutation.upgrade_policy _ id k) h =
      unfold apply_upgrade_policy in
      let (r, a, at, attached) = upgrade_attachment_exists s id k h in
      ok_of_is_ok _ (rw (at, attached))
  variant_total v (Mutation.set_global_config _ _) h = (_, refl)
  variant_total v (Mutation.set_tls_config _ _) h = (_, refl)
  variant_total v (Mutation.import_from_caddyfile _ _) h = (_, refl)
  variant_total v _ h = cc

  -- A mutation succeeds exactly when it expects the state's version, all modules that it refers to
  -- are loaded, its pre-condition holds and the version has a successor.
  pub apply_mutation_iff :
      (m : Mutation) (caps : CapabilitySet)
      → ((o : MutationOutcome) × (apply_mutation serde s m caps ≡ ok o)) ↔ (
          (expected_version m ≡ s.version)
          × ((x : String)
              → contains (referenced_caddy_modules m) x ≡ true
              → contains caps.loaded_modules x ≡ true)
          × (pre_conditions s m ≡ ok tt)
          × (s.version ≢ i64_max))
  unfolding apply_mutation checked_suc
  apply_mutation_iff m caps = (
    λ (o, h).
        let passed = apply_mutation-Passed serde s m caps o h in
        (
          passed.version,
          (check_capabilities_iff m caps).0 passed.capable,
          passed.allowed,
          λ e. true_false (sym ((==ℤ_iff s.version i64_max).1 e) ∙ passed.room),
        ),
    λ (version, loaded, allowed, room).
        let (a, done) = variant_total (suc_ℤ s.version) m allowed in
        ok_of_is_ok _ (
          rw (
            (==ℤ_iff (expected_version m) s.version).1 version,
            (check_capabilities_iff m caps).1 loaded,
            allowed,
            below s.version room,
            done,
          )),
  )
    where
      true_false : ◌≡◌ {A = Bool} true false → ⊥
      true_false e = cc

      below : (v : ℤ) → v ≢ i64_max → (v ==ℤ i64_max) ≡ false
      below v ne = elim (Bool-cases (v ==ℤ i64_max)) [
        | inl e ↦ absurd (ne ((==ℤ_iff v i64_max).0 e))
        | inr e ↦ e
      ]
