-- ===== src/Reconciler/Render/Total.antt =====
-- When a desired state is rendered without an error.
use Prim.Native.String.{◌++◌}
use trilithon.Base.{
  ℕ, suc, String, true, false, List, [], ◌∷◌, Option, none, some, Result, ok, ◌≡◌, refl, inl, inr,
  All, All-map, Bool-cases, Option-cases, some-is_some,
}
use trilithon.Base.BTreeMap.{BTreeMap, get, contains_key}
use trilithon.Base.BTreeMap.Order.{IsSorted-get}
use trilithon.Base.Text.{is_empty_str}
use trilithon.Model.Json.{Value}
use trilithon.Model.Hostname.{HostPattern}
use trilithon.Model.Hostname.Exact.{raw, IsHostPattern, validate_hostname_iff}
use trilithon.Model.Route.{Route, RoutePolicyAttachment}
use trilithon.Model.Upstream.{UpstreamDestination}
use trilithon.Model.State.{DesiredState, PresetVersion}
use trilithon.Mutation.Invariant.{IsWellFormed, IsRoute}
use trilithon.Mutation.Invariant.Maps.{Holds}
use trilithon.Reconciler.Render.{
  RenderError, indexed, host_list, build_matcher, validate_upstream_host, is_socket_path,
  is_container_id, dial, resolve_upstream_dial, upstream_values, preset_at, policy_body,
  proxy_handler, build_handler, build_route, build_routes, build_http_servers,
  apply_unknown_extensions, render_state,
}

-- A result that is no error.
abbrev pub Succeeds : {A : Type 0} → Result RenderError A → Type 0
Succeeds {A} r = (a : A) × (r ≡ ok a)

-- A destination that Caddy can dial.
abbrev pub IsDialable : UpstreamDestination → Type 0
IsDialable (UpstreamDestination.tcp_addr host port) = is_empty_str host ≡ false
IsDialable (UpstreamDestination.unix_socket path) = is_socket_path path ≡ true
IsDialable (UpstreamDestination.docker_container id port) = is_container_id id ≡ true

dial-Succeeds : (d : UpstreamDestination) (site : String) → IsDialable d → Succeeds (dial d site)
unfolding dial validate_upstream_host
dial-Succeeds (UpstreamDestination.tcp_addr host port) site h = rw h (_, refl)
dial-Succeeds (UpstreamDestination.unix_socket path) site h = rw h (_, refl)
dial-Succeeds (UpstreamDestination.docker_container id port) site h = rw h (_, refl)

host_list-Succeeds :
    (hosts : List HostPattern) (prefix : String) (i : ℕ)
    → All IsHostPattern hosts
    → Succeeds (host_list hosts prefix i)
unfolding host_list
host_list-Succeeds [] prefix i h = (_, refl)
host_list-Succeeds (hp ∷ hosts) prefix i h =
    let valid = (validate_hostname_iff (raw hp) hp).1 (refl, h.0) in
    let (l, rest) = host_list-Succeeds hosts prefix (suc i) h.1 in rw (valid, rest) (_, refl)

upstream_values-Succeeds :
    (ids : List String) (state : DesiredState) (prefix : String) (i : ℕ)
    → All (λ u. contains_key state.upstreams u ≡ true) ids
    → Holds (λ k u. IsDialable u.destination) state.upstreams
    → Succeeds (upstream_values ids state prefix i)
unfolding upstream_values resolve_upstream_dial
upstream_values-Succeeds [] state prefix i h dialable = (_, refl)
upstream_values-Succeeds (id ∷ ids) state prefix i h dialable =
    let (u, there) = some-is_some (get state.upstreams id) h.0 in
    let (l, rest) = upstream_values-Succeeds ids state prefix (suc i) h.1 dialable in
    let (target, dialled) =
      dial-Succeeds u.destination (indexed prefix "upstreams" i) (dialable id u there) in
    rw (there, dialled, rest) (_, refl)

module _ (parse : String → Result String Value) where
  -- The preset that is attached is registered at its version, and its body is JSON.
  abbrev pub HasPolicy : DesiredState → Option RoutePolicyAttachment → Type 0
  HasPolicy state none = Unit
  HasPolicy state (some a) =
      (p : PresetVersion) × (body : Value) × (preset_at (get state.presets a.preset_id)
          a.preset_version
        ≡ some p)
      × (parse p.body_json ≡ ok body)

  policy_body-Succeeds :
      (state : DesiredState) (a : Option RoutePolicyAttachment)
      → HasPolicy state a
      → Succeeds (policy_body parse a state)
  unfolding policy_body
  policy_body-Succeeds state none h = (_, refl)
  policy_body-Succeeds state (some a) (p, body, found, parsed) = rw (found, parsed) (_, refl)

  build_route-Succeeds :
      (state : DesiredState) (id prefix : String) (r : Route)
      → IsRoute state.upstreams id r
      → HasPolicy state r.policy_attachment
      → Holds (λ k u. IsDialable u.destination) state.upstreams
      → Succeeds (build_route parse r state prefix)
  unfolding build_route build_matcher build_handler proxy_handler
  build_route-Succeeds state id prefix r route policy dialable =
      let (hosts, listed) = host_list-Succeeds r.hostnames prefix 0 route.hostnames in
      elim (Option-cases r.redirects) [
        | inr (redirect, e) ↦ rw (listed, e) (_, refl)
        | inl e ↦
            let (us, dialled) =
              upstream_values-Succeeds r.upstreams state prefix 0 route.references dialable in
            let (body, found) = policy_body-Succeeds state r.policy_attachment policy in
            rw (listed, e, dialled, found) (_, refl)
      ]

  -- An entry of the map of routes, for the state.
  abbrev CanRender : DesiredState → String × Route → Type 0
  CanRender state e = IsRoute state.upstreams e.0 e.1 × HasPolicy state e.1.policy_attachment

  build_routes-Succeeds :
      (rows : BTreeMap Route) (state : DesiredState)
      → All (CanRender state) rows
      → Holds (λ k u. IsDialable u.destination) state.upstreams
      → Succeeds (build_routes parse rows state)
  unfolding build_routes
  build_routes-Succeeds [] state h dialable = (_, refl)
  build_routes-Succeeds ((id, r) ∷ rows) state h dialable =
      let (values, rest) = build_routes-Succeeds rows state h.1 dialable in
      elim (Bool-cases r.enabled) [
        | inr e ↦ rw (e, rest) (_, refl)
        | inl e ↦
            let (v, built) =
              build_route-Succeeds state id ("/routes/" ++ id) r h.0.0 h.0.1 dialable in
            rw (built, rest, e) (_, refl)
      ]

  -- A well-formed state without extensions is rendered, if every upstream has a destination that can
  -- be dialled and every policy that a route attaches is a registered preset whose body is JSON.
  pub render_state-succeeds :
      (state : DesiredState)
      → IsWellFormed state
      → Holds (λ k u. IsDialable u.destination) state.upstreams
      → Holds (λ k r. HasPolicy state r.policy_attachment) state.routes
      → state.unknown_extensions ≡ []
      → (document : Value) × (render_state parse state ≡ ok document)
  unfolding render_state build_http_servers apply_unknown_extensions
  render_state-succeeds state well dialable policies plain =
      let entries =
        All-map (λ e. get state.routes e.0 ≡ some e.1) (CanRender state)
          (λ e found. (well.routes e.0 e.1 found, policies e.0 e.1 found)) state.routes
          (IsSorted-get state.routes well.routes_sorted) in
      let (values, built) = build_routes-Succeeds state.routes state entries dialable in
      rw (built, plain) (_, refl)
