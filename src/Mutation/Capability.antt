-- ===== src/Mutation/Capability.antt =====
-- mutation/capability.rs
pub mod Loaded
use trilithon.Base.{
  Bool, not, ◌||◌, List, [], ◌∷◌, Option, none, some, is_some, is_empty, if◌then◌else◌, Result, ok,
  err,
}
use trilithon.Base.BTreeMap.{BTreeSet, contains, insert_set, extend}
use trilithon.Model.Pointer.{CaddyModule}
use trilithon.Model.Identifier.{UpstreamId}
use trilithon.Model.Route.{HeaderRules, Route}
use trilithon.Model.Upstream.{UpstreamProbe, Upstream}
use trilithon.Model.Config.{TlsConfigPatch}
use trilithon.Mutation.Types.{
  RoutePatch, UpstreamPatch, Mutation, kind, MutationError, capability_missing, CapabilitySet,
}

-- `if test { mods.insert(module) }`
abbrev pub insert_if : Bool → CaddyModule → BTreeSet → BTreeSet
insert_if test m mods = if test then insert_set mods m else mods

-- The inserts for the upstreams, the headers and the redirect of a route or of a patch, in turn.
unfoldable pub upstream_modules : List UpstreamId → BTreeSet → BTreeSet
upstream_modules upstreams = insert_if (not (is_empty upstreams)) "http.handlers.reverse_proxy"

unfoldable pub header_modules : HeaderRules → BTreeSet → BTreeSet
header_modules headers mods =
    insert_if (not (is_empty headers.response)) "http.handlers.headers"
      (insert_if (not (is_empty headers.request)) "http.handlers.headers" mods)

unfoldable pub redirect_modules : Bool → BTreeSet → BTreeSet
redirect_modules redirects = insert_if redirects "http.handlers.static_response"

unfoldable pub create_route_modules : Route → BTreeSet
unfolding upstream_modules header_modules redirect_modules
create_route_modules route =
    redirect_modules (is_some route.redirects)
      (header_modules route.headers (upstream_modules route.upstreams []))

-- `if let Some(a) = … { … }` around some inserts.
abbrev pub when_some : {A : Type 0} → Option A → (A → BTreeSet → BTreeSet) → BTreeSet → BTreeSet
when_some none f mods = mods
when_some (some a) f mods = f a mods

unfoldable pub update_route_modules : RoutePatch → BTreeSet
unfolding upstream_modules header_modules redirect_modules
update_route_modules patch =
    when_some patch.redirects (λ redirect. redirect_modules (is_some redirect))
      (when_some patch.headers header_modules (when_some patch.upstreams upstream_modules []))

abbrev pub is_disabled : UpstreamProbe → Bool
is_disabled UpstreamProbe.disabled = Bool.true
is_disabled _ = Bool.false

unfoldable pub probe_modules : UpstreamProbe → BTreeSet → BTreeSet
probe_modules probe = insert_if (not (is_disabled probe)) "http.health_checks.active"

unfoldable pub create_upstream_modules : Upstream → BTreeSet
unfolding probe_modules
create_upstream_modules upstream =
    probe_modules upstream.probe (insert_set [] "http.handlers.reverse_proxy")

unfoldable pub update_upstream_modules : UpstreamPatch → BTreeSet
unfolding probe_modules
update_upstream_modules patch =
    when_some patch.probe probe_modules (insert_set [] "http.handlers.reverse_proxy")

unfoldable pub tls_modules : TlsConfigPatch → BTreeSet
tls_modules patch =
    insert_if
      (is_some patch.email
        || (is_some patch.on_demand_enabled
            || (is_some patch.on_demand_ask_url || is_some patch.default_issuer)))
      "tls" []

-- The two loops of an import: the synthesised `CreateRoute`s, then the `CreateUpstream`s.
unfoldable pub import_route_modules : List Route → BTreeSet → BTreeSet
import_route_modules [] mods = mods
import_route_modules (route ∷ routes) mods =
    import_route_modules routes (extend mods (create_route_modules route))

unfoldable pub import_upstream_modules : List Upstream → BTreeSet → BTreeSet
import_upstream_modules [] mods = mods
import_upstream_modules (upstream ∷ upstreams) mods =
    import_upstream_modules upstreams (extend mods (create_upstream_modules upstream))

unfoldable pub referenced_caddy_modules : Mutation → BTreeSet
referenced_caddy_modules (Mutation.create_route _ route) = create_route_modules route
referenced_caddy_modules (Mutation.update_route _ _ patch) = update_route_modules patch
referenced_caddy_modules (Mutation.create_upstream _ upstream) = create_upstream_modules upstream
referenced_caddy_modules (Mutation.update_upstream _ _ patch) = update_upstream_modules patch
referenced_caddy_modules (Mutation.set_tls_config _ patch) = tls_modules patch
referenced_caddy_modules (Mutation.import_from_caddyfile _ parsed) =
    import_upstream_modules parsed.upstreams (import_route_modules parsed.routes [])
referenced_caddy_modules _ = []

-- `referenced.into_iter().find(|m| !loaded.contains(m))`
unfoldable pub first_missing : BTreeSet → BTreeSet → Option CaddyModule
first_missing loaded [] = none
first_missing loaded (m ∷ mods) =
    let rest = first_missing loaded mods in if contains loaded m then rest else some m

unfoldable pub check_capabilities : Mutation → CapabilitySet → Result MutationError (Unit {0})
check_capabilities mutation capabilities =
    elim (first_missing capabilities.loaded_modules (referenced_caddy_modules mutation)) [
      | none ↦ ok tt
      | some m ↦ err (capability_missing m (kind mutation))
    ]
