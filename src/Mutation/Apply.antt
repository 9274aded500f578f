-- ===== src/Mutation/Apply.antt =====
-- mutation/apply.rs: the import, the choice of a step and `apply_mutation` itself.
pub mod Pipeline
pub mod Frame
pub mod Conflict
pub mod Effect
pub mod Order
pub mod Success
pub mod Attachment
pub mod Destination
pub mod Complete
use mathlib.Core.List.{◌++◌ as append}
use trilithon.Base.{not, List, [], ◌∷◌, none, Result, ok, err, ◌>>=◌, ◌>>◌, refuse_if, ok_or}
use trilithon.Base.Int.{◌==ℤ◌, checked_suc}
use trilithon.Base.BTreeMap.{insert}
use trilithon.Audit.Event.{
  AuditEvent, mutation_applied, policy_preset_attached, policy_preset_detached,
  policy_preset_upgraded, import_caddyfile, config_rolled_back,
}
use trilithon.Model.Route.{Route}
use trilithon.Model.Upstream.{Upstream}
use trilithon.Model.State.{DesiredState}
use trilithon.Mutation.Types.{
  ParsedCaddyfile, Mutation, MutationKind, expected_version, kind, MutationError, conflict,
  forbidden, version_overflow, rollback_target_unknown, DiffChange, MutationOutcome, CapabilitySet,
}
use trilithon.Mutation.Capability.{check_capabilities}
use trilithon.Mutation.Validate.Import.{pre_conditions}
use trilithon.Mutation.Steps.{
  Serde, Applied, route_pointer, upstream_pointer, apply_create_route, apply_route_patch,
  apply_delete_route, apply_create_upstream, apply_upstream_patch, apply_delete_upstream,
  apply_attach_policy, apply_detach_policy, apply_upgrade_policy, apply_set_global_config,
  apply_set_tls_config,
}

unfoldable pub audit_event_for : MutationKind → AuditEvent
audit_event_for MutationKind.attach_policy = policy_preset_attached
audit_event_for MutationKind.detach_policy = policy_preset_detached
audit_event_for MutationKind.upgrade_policy = policy_preset_upgraded
audit_event_for MutationKind.import_from_caddyfile = import_caddyfile
audit_event_for MutationKind.rollback = config_rolled_back
audit_event_for _ = mutation_applied

module _ (serde : Serde) where
  -- The two loops of an import; `diffs` grows at its end.
  unfoldable pub import_upstreams_into : DesiredState → List DiffChange → List Upstream → Applied
  import_upstreams_into new_state diffs [] = (new_state, diffs)
  import_upstreams_into new_state diffs (upstream ∷ upstreams) =
      import_upstreams_into
        (record new_state { upstreams = insert new_state.upstreams upstream.id upstream })
        (append diffs (
          record {
            path = upstream_pointer upstream.id;
            before = none;
            after = serde.upstream upstream;
          }
          ∷ []))
        upstreams

  unfoldable pub import_routes_into : DesiredState → List DiffChange → List Route → Applied
  import_routes_into new_state diffs [] = (new_state, diffs)
  import_routes_into new_state diffs (route ∷ routes) =
      import_routes_into (record new_state { routes = insert new_state.routes route.id route })
        (append diffs
          (record { path = route_pointer route.id; before = none; after = serde.route route } ∷ []))
        routes

  unfoldable pub apply_import_caddyfile : DesiredState → ParsedCaddyfile → Applied
  apply_import_caddyfile new_state parsed =
      let (s, diffs) = import_upstreams_into new_state [] parsed.upstreams in
      import_routes_into s diffs parsed.routes

  unfoldable pub apply_variant :
      DesiredState → DesiredState → Mutation → Result MutationError Applied
  apply_variant state new_state (Mutation.create_route _ route) =
      ok (apply_create_route serde new_state route)
  apply_variant state new_state (Mutation.update_route _ id patch) =
      apply_route_patch serde state new_state id patch
  apply_variant state new_state (Mutation.delete_route _ id) =
      ok (apply_delete_route serde state new_state id)
  apply_variant state new_state (Mutation.create_upstream _ upstream) =
      ok (apply_create_upstream serde new_state upstream)
  apply_variant state new_state (Mutation.update_upstream _ id patch) =
      apply_upstream_patch serde state new_state id patch
  apply_variant state new_state (Mutation.delete_upstream _ id) =
      ok (apply_delete_upstream serde state new_state id)
  apply_variant state new_state (Mutation.attach_policy _ route_id preset_id preset_version) =
      apply_attach_policy serde state new_state route_id preset_id preset_version
  apply_variant state new_state (Mutation.detach_policy _ route_id) =
      apply_detach_policy serde state new_state route_id
  apply_variant state new_state (Mutation.upgrade_policy _ route_id to_version) =
      apply_upgrade_policy serde state new_state route_id to_version
  apply_variant state new_state (Mutation.set_global_config _ patch) =
      ok (apply_set_global_config serde state new_state patch)
  apply_variant state new_state (Mutation.set_tls_config _ patch) =
      ok (apply_set_tls_config serde state new_state patch)
  apply_variant state new_state (Mutation.import_from_caddyfile _ parsed) =
      ok (apply_import_caddyfile new_state parsed)
  apply_variant state new_state _ = err (forbidden rollback_target_unknown)

  unfoldable pub apply_mutation :
      DesiredState → Mutation → CapabilitySet → Result MutationError MutationOutcome
  apply_mutation state mutation capabilities = do
    refuse_if (not (expected_version mutation ==ℤ state.version))
        (conflict state.version (expected_version mutation))
    check_capabilities mutation capabilities
    pre_conditions state mutation
    version ← ok_or (checked_suc state.version) (forbidden version_overflow)
    (new_state, changes) ← apply_variant state (record state { version = version }) mutation
    ok (record {
      new_state = new_state;
      diff = record { changes = changes };
      audit_event = audit_event_for (kind mutation);
    })
