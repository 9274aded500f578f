-- ===== src/Mutation/Apply/Complete/Mutations.antt =====
-- The same for each mutation and for `apply_mutation`.
use mathlib.Core.Path.{subst}
use trilithon.Base.{
  ok_or-eq-ok, String, ◌≡◌, refl, inl, List, none, ok, ok_or, >>-eq-ok, >>=-eq-ok, refuse_if-eq-ok,
  Result, Option,
}
use trilithon.Base.Int.{ℤ, suc_ℤ}
use trilithon.Base.BTreeMap.{get}
use trilithon.Model.Route.{Route, RoutePolicyAttachment}
use trilithon.Model.Upstream.{Upstream}
use trilithon.Model.State.{DesiredState}
use trilithon.Mutation.Types.{
  Mutation, MutationError, MutationOutcome, CapabilitySet, RoutePatch, UpstreamPatch, DiffChange,
  forbidden, ForbiddenReason,
}
use trilithon.Mutation.Patch.{patch_route, patch_upstream, patch_global, patch_tls}
use trilithon.Mutation.Validate.{check_create_route, check_route_id_unused, check_create_upstream}
use trilithon.Mutation.Validate.Import.{pre_conditions}
use trilithon.Mutation.Steps.{
  Serde, Applied, route_pointer, upstream_pointer, missing_route_error, missing_upstream_error,
  apply_create_route, apply_route_patch, apply_delete_route, apply_create_upstream,
  apply_upstream_patch, apply_delete_upstream, set_attachment, apply_attach_policy,
  apply_detach_policy, apply_upgrade_policy, apply_set_global_config, apply_set_tls_config,
}
use trilithon.Mutation.Apply.{apply_variant, apply_mutation}
use trilithon.Mutation.Apply.Pipeline.{apply_mutation-Passed}
use trilithon.Mutation.Apply.Complete.{insert-Tracked, remove-Tracked}
use trilithon.Mutation.Apply.Complete.Variants.{
  Complete, routes_only, upstreams_only, no_value, config_tracked, attachment_tracked,
  import_Complete,
}

module _ (serde : Serde) (s : DesiredState) (v : ℤ) where
  abbrev next : DesiredState
  next = record s { version = v }

  -- A step that cannot fail.
  done :
      {a : Applied} {n : DesiredState} {d : List DiffChange}
      → ◌≡◌ {A = Result MutationError Applied} (ok a) (ok (n, d))
      → Complete serde s a.0 a.1
      → Complete serde s n d
  done {a} {n} {d} e w =
      let same : a ≡ (n, d) = cc in subst {A = Applied} (λ x. Complete serde s x.0 x.1) same w

  create_route-Complete :
      (r : Route)
      → check_create_route s r ≡ ok tt
      → Complete serde s (apply_create_route serde next r).0 (apply_create_route serde next r).1
  unfolding apply_create_route check_create_route check_route_id_unused
  create_route-Complete r h =
      let (unused, _) = >>-eq-ok (check_route_id_unused s r.id) _ h in
      routes_only serde s _ _ refl refl refl λ k. inl (
        insert-Tracked serde.route route_pointer s.routes r.id r none
          (no_value serde s.routes r.id serde.route (refuse_if-eq-ok _ _ unused)) k)

  create_upstream-Complete :
      (u : Upstream)
      → check_create_upstream s u.id ≡ ok tt
      → Complete serde s
          (apply_create_upstream serde next u).0
          (apply_create_upstream serde next u).1
  unfolding apply_create_upstream check_create_upstream
  create_upstream-Complete u h = upstreams_only serde s _ _ refl refl refl λ k.
      insert-Tracked serde.upstream upstream_pointer s.upstreams u.id u none
        (no_value serde s.upstreams u.id serde.upstream (refuse_if-eq-ok _ _ h)) k

  route_patch-Complete :
      (id : String) (p : RoutePatch) (n : DesiredState) (d : List DiffChange)
      → apply_route_patch serde s next id p ≡ ok (n, d)
      → Complete serde s n d
  unfolding apply_route_patch
  route_patch-Complete id p n d e =
      let (r, _, same) = >>=-eq-ok (ok_or (get s.routes id) (missing_route_error id)) _ e in
      done same (
        routes_only serde s _ _ refl refl refl λ k.
          inl (insert-Tracked serde.route route_pointer s.routes id (patch_route p r) _ refl k))

  upstream_patch-Complete :
      (id : String) (p : UpstreamPatch) (n : DesiredState) (d : List DiffChange)
      → apply_upstream_patch serde s next id p ≡ ok (n, d)
      → Complete serde s n d
  unfolding apply_upstream_patch
  upstream_patch-Complete id p n d e =
      let (u, _, same) = >>=-eq-ok (ok_or (get s.upstreams id) (missing_upstream_error id)) _ e in
      done same (
        upstreams_only serde s _ _ refl refl refl λ k.
          insert-Tracked serde.upstream upstream_pointer s.upstreams id (patch_upstream p u) _ refl
            k)

  attachment-Complete :
      (id : String) (r : Route) (a : Option RoutePolicyAttachment)
      → ok_or (get s.routes id) (missing_route_error id) ≡ ok r
      → Complete serde s
          (set_attachment serde s next id r a).0
          (set_attachment serde s next id r a).1
  unfolding set_attachment
  attachment-Complete id r a found =
      routes_only serde s _ _ refl refl refl
        (attachment_tracked serde s next id r a (ok_or-eq-ok _ (missing_route_error id) found))

  variant-Complete :
      (m : Mutation) (n : DesiredState) (d : List DiffChange)
      → pre_conditions s m ≡ ok tt
      → apply_variant serde s next m ≡ ok (n, d)
      → Complete serde s n d
  unfolding apply_variant pre_conditions
  variant-Complete (Mutation.create_route _ r) n d h e = done e (create_route-Complete r h)
  variant-Complete (Mutation.update_route _ id p) n d h e = route_patch-Complete id p n d e
  variant-Complete (Mutation.delete_route _ id) n d h e =
      unfold apply_delete_route in
      done e (
        routes_only serde s _ _ refl refl refl
          λ k. inl (remove-Tracked serde.route route_pointer s.routes id k))
  variant-Complete (Mutation.create_upstream _ u) n d h e = done e (create_upstream-Complete u h)
  variant-Complete (Mutation.update_upstream _ id p) n d h e = upstream_patch-Complete id p n d e
  variant-Complete (Mutation.delete_upstream _ id) n d h e =
      unfold apply_delete_upstream in
      done e (
        upstreams_only serde s _ _ refl refl refl
          λ k. remove-Tracked serde.upstream upstream_pointer s.upstreams id k)
  variant-Complete (Mutation.attach_policy _ id preset k) n d h e =
      unfold apply_attach_policy in
      let (r, found, same) = >>=-eq-ok (ok_or (get s.routes id) (missing_route_error id)) _ e in
      done same (attachment-Complete id r _ found)
  variant-Complete (Mutation.detach_policy _ id) n d h e =
      unfold apply_detach_policy in
      let (r, found, same) = >>=-eq-ok (ok_or (get s.routes id) (missing_route_error id)) _ e in
      done same (attachment-Complete id r none found)
  variant-Complete (Mutation.upgrade_policy _ id k) n d h e =
      unfold apply_upgrade_policy in
      let (r, found, e₁) = >>=-eq-ok (ok_or (get s.routes id) (missing_route_error id)) _ e in
      let (a, _, same) =
        >>=-eq-ok (ok_or r.policy_attachment (forbidden ForbiddenReason.policy_attachment_missing))
          _ e₁ in
      done same (attachment-Complete id r _ found)
  variant-Complete (Mutation.set_global_config _ p) n d h e =
      unfold apply_set_global_config in
      done e (record {
        routes = λ k. inl (inl refl);
        upstreams = λ k. inl refl;
        global = config_tracked serde serde.global "global" s.global (patch_global p s.global);
        tls = inl refl;
      })
  variant-Complete (Mutation.set_tls_config _ p) n d h e =
      unfold apply_set_tls_config in
      done e (record {
        routes = λ k. inl (inl refl);
        upstreams = λ k. inl refl;
        global = inl refl;
        tls = config_tracked serde serde.tls "tls" s.tls (patch_tls p s.tls);
      })
  variant-Complete (Mutation.import_from_caddyfile _ p) n d h e =
      done e (import_Complete serde s next p refl refl refl refl h)
  variant-Complete _ n d h e = cc

-- After a mutation that succeeds, every route is as it was or the changes report it, or they report
-- its policy attachment and nothing else of it changed; every upstream is as it was or reported; each
-- configuration is as it was, has the same serialised form or is reported. What is reported stands
-- between the serialised values before and after.
pub apply_mutation-Complete :
    (serde : Serde) (s : DesiredState) (m : Mutation) (caps : CapabilitySet) (o : MutationOutcome)
    → apply_mutation serde s m caps ≡ ok o
    → Complete serde s o.new_state o.diff.changes
apply_mutation-Complete serde s m caps o h =
    let passed = apply_mutation-Passed serde s m caps o h in
    variant-Complete serde s (suc_ℤ s.version) m o.new_state o.diff.changes passed.allowed
      passed.applied
