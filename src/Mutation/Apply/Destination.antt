-- ===== src/Mutation/Apply/Destination.antt =====
-- Which mutations keep a destination, an upstream or a redirect, in every route.
use trilithon.Base.{
  String, ◌≡◌, ◌≢◌, refl, ap, ◌⊎◌, true, false, List, [], ◌∷◌, Option, none, some, ok, Result,
  is_empty, is_some, arith, >>-eq-ok, >>=-eq-ok, ok_or, ok_or-eq-ok,
}
use trilithon.Base.Int.{ℤ, suc_ℤ, ◌==ℤ◌, ==ℤ_iff, i64_max, checked_suc}
use trilithon.Base.BTreeMap.{BTreeMap, BTreeSet, get, insert, insert_set}
use trilithon.Base.BTreeMap.Lookup.{get-insert_self}
use trilithon.Model.Route.{Route, RoutePolicyAttachment}
use trilithon.Model.Upstream.{Upstream}
use trilithon.Model.State.{DesiredState}
use trilithon.Mutation.Types.{
  Mutation, MutationKind, MutationError, MutationOutcome, CapabilitySet, RoutePatch,
  ParsedCaddyfile, DiffChange, forbidden, ForbiddenReason, kind, expected_version,
}
use trilithon.Mutation.Cidr.{check_matchers_valid}
use trilithon.Mutation.Capability.{
  check_capabilities, first_missing, referenced_caddy_modules, update_route_modules,
}
use trilithon.Mutation.Validate.{
  check_create_route, check_route_id_unused, check_upstreams_exist, check_hostnames_valid,
  check_route_has_destination, check_redirect, check_update_route, check_route_exists,
  check_upstreams_from,
}
use trilithon.Mutation.Validate.Import.{
  import_upstreams, import_routes, import_references, check_import_caddyfile, pre_conditions,
}
use trilithon.Mutation.Steps.{
  Serde, Applied, route_pointer, missing_route_error, apply_create_route, apply_route_patch,
  apply_delete_route, apply_create_upstream, apply_upstream_patch, missing_upstream_error,
  apply_delete_upstream, set_attachment, apply_attach_policy, apply_detach_policy,
  apply_upgrade_policy, apply_set_global_config, apply_set_tls_config,
}
use trilithon.Mutation.Patch.{patch_route}
use trilithon.Mutation.Apply.{
  import_upstreams_into, import_routes_into, apply_import_caddyfile, apply_variant, apply_mutation,
  audit_event_for,
}
use trilithon.Mutation.Apply.Pipeline.{apply_mutation-Passed}
use trilithon.Mutation.Invariant.Maps.{Holds, Holds-insert, Holds-remove}

abbrev pub HasDestination : Route → Type 0
HasDestination r = (is_empty r.upstreams ≡ false) ⊎ (is_some r.redirects ≡ true)

abbrev pub HaveDestinations : BTreeMap Route → Type 0
HaveDestinations = Holds λ _ r. HasDestination r

destination-ok :
    (r : Route) → check_route_has_destination r.upstreams r.redirects ≡ ok tt → HasDestination r
unfolding check_route_has_destination
destination-ok r h = ground arith

create_route-ok : (s : DesiredState) (r : Route) → check_create_route s r ≡ ok tt → HasDestination r
unfolding check_create_route
create_route-ok s r h =
    let (_, h₁) = >>-eq-ok (check_route_id_unused s r.id) _ h in
    let (_, h₂) = >>-eq-ok (check_upstreams_exist s r.upstreams) _ h₁ in
    let (_, h₃) = >>-eq-ok (check_hostnames_valid r.hostnames) _ h₂ in
    let (_, h₄) = >>-eq-ok (check_matchers_valid r.matchers) _ h₃ in
    destination-ok r (>>-eq-ok (check_route_has_destination r.upstreams r.redirects) _ h₄).0

module _ (serde : Serde) where
  upstreams_keep :
      (t : DesiredState) (d : List DiffChange) (l : List Upstream)
      → (import_upstreams_into serde t d l).0.routes ≡ t.routes
  unfolding import_upstreams_into
  upstreams_keep t d [] = refl
  upstreams_keep t d (u ∷ l) =
      upstreams_keep (record t { upstreams = insert t.upstreams u.id u }) _ l

  routes_loop :
      (s t : DesiredState) (d : List DiffChange) (seen ups : BTreeSet) (l : List Route)
      → import_routes s seen ups l ≡ ok tt
      → HaveDestinations t.routes
      → HaveDestinations (import_routes_into serde t d l).0.routes
  unfolding import_routes import_routes_into
  routes_loop s t d seen ups [] h w = w
  routes_loop s t d seen ups (r ∷ l) h w =
      let (_, h₁) = >>-eq-ok _ _ h in
      let (_, h₂) = >>-eq-ok (check_hostnames_valid r.hostnames) _ h₁ in
      let (_, h₃) = >>-eq-ok (check_matchers_valid r.matchers) _ h₂ in
      let (target, h₄) = >>-eq-ok (check_route_has_destination r.upstreams r.redirects) _ h₃ in
      let (_, h₅) = >>-eq-ok (check_redirect r.redirects) _ h₄ in
      let (_, rest) = >>-eq-ok (import_references s ups r.upstreams) _ h₅ in
      routes_loop s (record t { routes = insert t.routes r.id r }) _ (insert_set seen r.id) ups l
        rest (Holds-insert (λ _ x. HasDestination x) t.routes r.id r w (destination-ok r target))

  import_destinations :
      (s t : DesiredState) (p : ParsedCaddyfile)
      → check_import_caddyfile s p ≡ ok tt
      → HaveDestinations t.routes
      → HaveDestinations (apply_import_caddyfile serde t p).0.routes
  unfolding apply_import_caddyfile check_import_caddyfile
  import_destinations s t p h w =
      let (all, _, routes) = >>=-eq-ok (import_upstreams s [] p.upstreams) _ h in
      let (left, d) = import_upstreams_into serde t [] p.upstreams in
      routes_loop s left d [] all p.routes routes (rw (upstreams_keep t [] p.upstreams) w)

  module _ (s : DesiredState) (v : ℤ) (w : HaveDestinations s.routes) where
    done :
        {a : Applied} {n : DesiredState} {d : List DiffChange}
        → ◌≡◌ {A = Result MutationError Applied} (ok a) (ok (n, d))
        → HaveDestinations a.0.routes
        → HaveDestinations n.routes
    done {a} {n} {d} e h =
        let same : a ≡ (n, d) = cc in rw (← ap {B = DesiredState} (λ x. x.0) same) h

    attachment_keeps :
        (id : String) (r : Route) (a : Option RoutePolicyAttachment)
        → ok_or (get s.routes id) (missing_route_error id) ≡ ok r
        → HaveDestinations (set_attachment serde s (record s { version = v }) id r a).0.routes
    unfolding set_attachment
    attachment_keeps id r a found =
        Holds-insert (λ _ x. HasDestination x) s.routes id (record r { policy_attachment = a }) w
          (w id r (ok_or-eq-ok _ _ found))

    variant_keeps :
        (m : Mutation) (n : DesiredState) (d : List DiffChange)
        → kind m ≢ MutationKind.update_route
        → pre_conditions s m ≡ ok tt
        → apply_variant serde s (record s { version = v }) m ≡ ok (n, d)
        → HaveDestinations n.routes
    unfolding apply_variant pre_conditions kind
    variant_keeps (Mutation.create_route _ r) n d ne h e =
        unfold apply_create_route in
        done e (Holds-insert (λ _ x. HasDestination x) s.routes r.id r w (create_route-ok s r h))
    variant_keeps (Mutation.update_route _ id p) n d ne h e = absurd (ne refl)
    variant_keeps (Mutation.delete_route _ id) n d ne h e =
        unfold apply_delete_route in done e (Holds-remove (λ _ x. HasDestination x) s.routes id w)
    variant_keeps (Mutation.create_upstream _ u) n d ne h e =
        unfold apply_create_upstream in done e w
    variant_keeps (Mutation.update_upstream _ id p) n d ne h e =
        unfold apply_upstream_patch in
        let (_, _, same) = >>=-eq-ok (ok_or (get s.upstreams id) (missing_upstream_error id)) _ e in
        done same w
    variant_keeps (Mutation.delete_upstream _ id) n d ne h e =
        unfold apply_delete_upstream in done e w
    variant_keeps (Mutation.attach_policy _ id preset k) n d ne h e =
        unfold apply_attach_policy in
        let (r, found, same) = >>=-eq-ok (ok_or (get s.routes id) (missing_route_error id)) _ e in
        done same (attachment_keeps id r _ found)
    variant_keeps (Mutation.detach_policy _ id) n d ne h e =
        unfold apply_detach_policy in
        let (r, found, same) = >>=-eq-ok (ok_or (get s.routes id) (missing_route_error id)) _ e in
        done same (attachment_keeps id r none found)
    variant_keeps (Mutation.upgrade_policy _ id k) n d ne h e =
        unfold apply_upgrade_policy in
        let (r, found, e₁) = >>=-eq-ok (ok_or (get s.routes id) (missing_route_error id)) _ e in
        let (_, _, same) =
          >>=-eq-ok
            (ok_or r.policy_attachment (forbidden ForbiddenReason.policy_attachment_missing)) _
            e₁ in
        done same (attachment_keeps id r _ found)
    variant_keeps (Mutation.set_global_config _ p) n d ne h e =
        unfold apply_set_global_config in done e w
    variant_keeps (Mutation.set_tls_config _ p) n d ne h e = unfold apply_set_tls_config in done e w
    variant_keeps (Mutation.import_from_caddyfile _ p) n d ne h e =
        done e (import_destinations s (record s { version = v }) p h w)
    variant_keeps _ n d ne h e = cc

-- A mutation that is no update of a route leaves a destination in every route, if every route had one.
pub apply_mutation-HaveDestinations :
    (serde : Serde) (s : DesiredState) (m : Mutation) (caps : CapabilitySet) (o : MutationOutcome)
    → kind m ≢ MutationKind.update_route
    → HaveDestinations s.routes
    → apply_mutation serde s m caps ≡ ok o
    → HaveDestinations o.new_state.routes
apply_mutation-HaveDestinations serde s m caps o ne w h =
    let passed = apply_mutation-Passed serde s m caps o h in
    variant_keeps serde s (suc_ℤ s.version) w m o.new_state o.diff.changes ne passed.allowed
      passed.applied

-- A patch that clears the upstreams and the redirect.
abbrev pub no_destination : RoutePatch
no_destination = record {
  hostnames = none;
  upstreams = some [];
  matchers = none;
  headers = none;
  redirects = some none;
  policy_attachment = none;
  enabled = none;
}

-- An update of a route at the state's version may clear its upstreams and its redirect: it succeeds on
-- every route, unless the version overflows, and leaves the route without a destination.
pub update_route-no_destination :
    (serde : Serde) (s : DesiredState) (caps : CapabilitySet) (id : String) (r : Route)
    → get s.routes id ≡ some r
    → (s.version ==ℤ i64_max) ≡ false
    → (o : MutationOutcome) × (apply_mutation serde s
          (Mutation.update_route s.version id no_destination)
          caps
        ≡ ok o)
      × (get o.new_state.routes id ≡ some (record r { upstreams = []; redirects = none }))
unfolding apply_mutation expected_version check_capabilities first_missing referenced_caddy_modules
    update_route_modules pre_conditions check_redirect check_update_route check_route_exists
    check_upstreams_exist check_upstreams_from checked_suc apply_variant apply_route_patch
    patch_route kind
update_route-no_destination serde s caps id r found room =
    let bare = record r { upstreams = []; redirects = none } in
    (
      record {
        new_state = record s { version = suc_ℤ s.version; routes = insert s.routes id bare };
        diff = record {
          changes =
              record { path = route_pointer id; before = serde.route r; after = serde.route bare }
              ∷ [];
        };
        audit_event = audit_event_for MutationKind.update_route;
      },
      rw ((==ℤ_iff s.version s.version).1 refl, found, room),
      get-insert_self s.routes id bare,
    )
