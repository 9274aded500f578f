-- ===== src/Mutation/Apply/Attachment.antt =====
-- The policy attachment of a route through `UpdateRoute`.
use trilithon.Base.{String, ◌≡◌, refl, false, [], ◌∷◌, Option, none, some, ok}
use trilithon.Base.Int.{suc_ℤ, ◌==ℤ◌, ==ℤ_iff, i64_max, checked_suc}
use trilithon.Base.BTreeMap.{get, insert}
use trilithon.Base.BTreeMap.Lookup.{get-insert_self}
use trilithon.Model.Route.{Route, RoutePolicyAttachment}
use trilithon.Model.State.{DesiredState}
use trilithon.Mutation.Types.{
  Mutation, MutationKind, MutationOutcome, CapabilitySet, RoutePatch, kind, expected_version,
}
use trilithon.Mutation.Capability.{
  check_capabilities, first_missing, referenced_caddy_modules, update_route_modules,
}
use trilithon.Mutation.Validate.{check_redirect, check_update_route, check_route_exists}
use trilithon.Mutation.Validate.Import.{pre_conditions}
use trilithon.Mutation.Patch.{patch_route}
use trilithon.Mutation.Steps.{Serde, route_pointer, apply_route_patch}
use trilithon.Mutation.Apply.{apply_variant, apply_mutation, audit_event_for}

-- A patch of the policy attachment alone.
abbrev pub only_attachment : Option RoutePolicyAttachment → RoutePatch
only_attachment attachment = record {
  hostnames = none;
  upstreams = none;
  matchers = none;
  headers = none;
  redirects = none;
  policy_attachment = some attachment;
  enabled = none;
}

-- An update of a route at the state's version may set any policy attachment, of no registered preset or of an older version:
-- it succeeds on every route, unless the version overflows.
pub update_route-any_attachment :
    (serde : Serde) (s : DesiredState) (caps : CapabilitySet) (id : String) (r : Route)
    (attachment : Option RoutePolicyAttachment)
    → get s.routes id ≡ some r
    → (s.version ==ℤ i64_max) ≡ false
    → (o : MutationOutcome) × (apply_mutation serde s
          (Mutation.update_route s.version id (only_attachment attachment))
          caps
        ≡ ok o)
      × (get o.new_state.routes id ≡ some (record r { policy_attachment = attachment }))
unfolding apply_mutation expected_version check_capabilities first_missing referenced_caddy_modules
    update_route_modules pre_conditions check_redirect check_update_route check_route_exists
    checked_suc apply_variant apply_route_patch patch_route kind
update_route-any_attachment serde s caps id r attachment found room =
    let patched_route = record r { policy_attachment = attachment } in
    (
      record {
        new_state = record s {
          version = suc_ℤ s.version;
          routes = insert s.routes id patched_route;
        };
        diff = record {
          changes =
              record {
                path = route_pointer id;
                before = serde.route r;
                after = serde.route patched_route;
              }
              ∷ [];
        };
        audit_event = audit_event_for MutationKind.update_route;
      },
      rw ((==ℤ_iff s.version s.version).1 refl, found, room),
      get-insert_self s.routes id patched_route,
    )
