-- ===== src/Mutation/Validate/Import.antt =====
-- `check_import_caddyfile` and `pre_conditions` of mutation/validate.rs.
use Prim.Native.String.{◌++◌}
use trilithon.Base.{not, ◌&&◌, ◌||◌, List, [], ◌∷◌, Result, ok, err, ◌>>=◌, ◌>>◌, refuse_if}
use trilithon.Base.BTreeMap.{BTreeSet, contains_key, contains, insert_set}
use trilithon.Model.Pointer.{root, push}
use trilithon.Model.Identifier.{UpstreamId}
use trilithon.Model.Route.{Route}
use trilithon.Model.Upstream.{Upstream}
use trilithon.Model.State.{DesiredState}
use trilithon.Mutation.Types.{
  ParsedCaddyfile, Mutation, MutationError, validation, forbidden, duplicate_route_id,
  duplicate_upstream_id, upstream_reference_missing, rollback_target_unknown,
}
use trilithon.Mutation.Cidr.{check_matchers_valid}
use trilithon.Mutation.Validate.{
  Check, check_hostnames_valid, check_route_has_destination, check_redirect, check_create_route,
  check_update_route, check_route_exists, check_create_upstream, check_update_upstream,
  check_delete_upstream, check_attach_policy, check_detach_policy, check_upgrade_policy,
  check_set_global_config, check_set_tls_config,
}

-- The loop over the upstreams; it returns the ids that it has seen.
unfoldable pub import_upstreams :
    DesiredState → BTreeSet → List Upstream → Result MutationError BTreeSet
import_upstreams state seen [] = ok seen
import_upstreams state seen (upstream ∷ upstreams) = do
  refuse_if (contains_key state.upstreams upstream.id || contains seen upstream.id) (
      validation duplicate_upstream_id (push (push root "parsed") "upstreams")
        ("upstream '" ++ (upstream.id ++ "' already exists")))
  import_upstreams state (insert_set seen upstream.id) upstreams

-- The loop over the upstreams of one route.
unfoldable pub import_references : DesiredState → BTreeSet → List UpstreamId → Check
import_references state seen [] = ok tt
import_references state seen (uid ∷ uids) = do
  refuse_if (not (contains_key state.upstreams uid) && not (contains seen uid)) (
      validation upstream_reference_missing (push (push (push root "parsed") "routes") "upstreams")
        ("upstream '" ++ (uid ++ "' does not exist")))
  import_references state seen uids

-- The loop over the routes: `seen_routes` grows, `seen_upstreams` is what the first loop left.
unfoldable pub import_routes : DesiredState → BTreeSet → BTreeSet → List Route → Check
import_routes state seen_routes seen_upstreams [] = ok tt
import_routes state seen_routes seen_upstreams (route ∷ routes) = do
  refuse_if (contains_key state.routes route.id || contains seen_routes route.id) (
      validation duplicate_route_id (push (push root "parsed") "routes")
        ("route '" ++ (route.id ++ "' already exists")))
  check_hostnames_valid route.hostnames
  check_matchers_valid route.matchers
  check_route_has_destination route.upstreams route.redirects
  check_redirect route.redirects
  import_references state seen_upstreams route.upstreams
  import_routes state (insert_set seen_routes route.id) seen_upstreams routes

unfoldable pub check_import_caddyfile : DesiredState → ParsedCaddyfile → Check
check_import_caddyfile state parsed = do
  seen_upstreams ← import_upstreams state [] parsed.upstreams
  import_routes state [] seen_upstreams parsed.routes

unfoldable pub pre_conditions : DesiredState → Mutation → Check
pre_conditions state (Mutation.create_route _ route) = check_create_route state route
pre_conditions state (Mutation.update_route _ id patch) = check_update_route state id patch
pre_conditions state (Mutation.delete_route _ id) = check_route_exists state id
pre_conditions state (Mutation.create_upstream _ upstream) = check_create_upstream state upstream.id
pre_conditions state (Mutation.update_upstream _ id _) = check_update_upstream state id
pre_conditions state (Mutation.delete_upstream _ id) = check_delete_upstream state id
pre_conditions state (Mutation.attach_policy _ route_id preset_id preset_version) =
    check_attach_policy state route_id preset_id preset_version
pre_conditions state (Mutation.detach_policy _ route_id) = check_detach_policy state route_id
pre_conditions state (Mutation.upgrade_policy _ route_id to_version) =
    check_upgrade_policy state route_id to_version
pre_conditions state (Mutation.set_global_config _ patch) = check_set_global_config patch
pre_conditions state (Mutation.set_tls_config _ patch) = check_set_tls_config patch
pre_conditions state (Mutation.import_from_caddyfile _ parsed) = check_import_caddyfile state parsed
pre_conditions state _ = err (forbidden rollback_target_unknown)
