-- ===== src/Reconciler/Render/Ignored.antt =====
-- The parts of a route that the renderer does not read.
use Prim.Native.String.{◌++◌}
use trilithon.Base.{
  ℕ, suc, String, List, [], ◌∷◌, Option, none, some, if◌then◌else◌, is_some, Result, ◌≡◌, refl, inl,
  inr, Option-cases,
}
use trilithon.Base.BTreeMap.{BTreeMap}
use trilithon.Model.Json.{Value}
use trilithon.Model.Route.{Route, RoutePolicyAttachment}
use trilithon.Model.State.{DesiredState}
use trilithon.Reconciler.Render.{
  build_matcher, upstream_values, resolve_upstream_dial, build_header_ops, policy_body,
  proxy_handler, build_handler, build_route, build_routes, build_http_servers, render_state,
}

-- The route without its matchers on methods, queries, headers and remote addresses, and without the
-- policy when it redirects.
unfoldable pub opened : Route → Route
opened route = record route {
  matchers = record route.matchers { methods = []; query = []; headers = []; remote = [] };
  policy_attachment = if is_some route.redirects then none else route.policy_attachment;
}

unfoldable pub opened_routes : BTreeMap Route → BTreeMap Route
opened_routes [] = []
opened_routes ((id, route) ∷ routes) = (id, opened route) ∷ opened_routes routes

upstream_values-routes :
    (ids : List String) (state : DesiredState) (routes : BTreeMap Route) (prefix : String) (i : ℕ)
    → upstream_values ids (record state { routes = routes }) prefix i
      ≡ upstream_values ids state prefix i
unfolding upstream_values resolve_upstream_dial
upstream_values-routes [] state routes prefix i = refl
upstream_values-routes (id ∷ ids) state routes prefix i =
    rw (upstream_values-routes ids state routes prefix (suc i)) refl

opened-enabled : (route : Route) → (opened route).enabled ≡ route.enabled
unfolding opened
opened-enabled route = refl

module _ (parse : String → Result String Value) where
  policy_body-routes :
      (attachment : Option RoutePolicyAttachment) (state : DesiredState) (routes : BTreeMap Route)
      → policy_body parse attachment (record state { routes = routes })
        ≡ policy_body parse attachment state
  unfolding policy_body
  policy_body-routes none state routes = refl
  policy_body-routes (some a) state routes = refl

  build_handler-opened :
      (route : Route) (state : DesiredState) (routes : BTreeMap Route) (prefix : String)
      → build_handler parse (opened route) (record state { routes = routes }) prefix
        ≡ build_handler parse route state prefix
  unfolding build_handler opened proxy_handler build_header_ops
  build_handler-opened route state routes prefix = elim (Option-cases route.redirects) [
    | inl e ↦ rw e (
        simp (
          upstream_values-routes route.upstreams state routes prefix 0,
          policy_body-routes route.policy_attachment state routes,
        ))
    | inr (r, e) ↦ rw e refl
  ]

  build_route-opened :
      (route : Route) (state : DesiredState) (routes : BTreeMap Route) (prefix : String)
      → build_route parse (opened route) (record state { routes = routes }) prefix
        ≡ build_route parse route state prefix
  unfolding build_route build_matcher
  build_route-opened route state routes prefix =
      let handler = build_handler-opened route state routes prefix in
      let matcher : build_matcher (opened route) prefix ≡ build_matcher route prefix =
        matcher_opened route prefix in
      simp (handler, matcher)
    where
      matcher_opened :
          (route : Route) (prefix : String)
          → build_matcher (opened route) prefix ≡ build_matcher route prefix
      matcher_opened route prefix = unfold opened in refl

  build_routes-opened :
      (rows : BTreeMap Route) (state : DesiredState) (routes : BTreeMap Route)
      → build_routes parse (opened_routes rows) (record state { routes = routes })
        ≡ build_routes parse rows state
  unfolding build_routes opened_routes
  build_routes-opened [] state routes = refl
  build_routes-opened ((id, route) ∷ rows) state routes = simp (
    opened-enabled route,
    build_route-opened route state routes ("/routes/" ++ id),
    build_routes-opened rows state routes,
  )

  -- The document does not depend on the methods, queries, headers and remote addresses that the
  -- routes match, nor on the policies that are attached to routes with a redirect: without them all,
  -- the state gives the same document, or the same error.
  pub render_state-opened :
      (state : DesiredState)
      → render_state parse (record state { routes = opened_routes state.routes })
        ≡ render_state parse state
  unfolding render_state build_http_servers
  render_state-opened state =
      simp (build_routes-opened state.routes state (opened_routes state.routes))
