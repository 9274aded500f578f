-- ===== src/Mutation/Patch.antt =====
-- mutation/apply.rs: how a patch changes its record.
use trilithon.Base.{Option, none, some}
use trilithon.Model.Route.{Route}
use trilithon.Model.Upstream.{Upstream}
use trilithon.Model.Config.{GlobalConfig, GlobalConfigPatch, TlsConfig, TlsConfigPatch}
use trilithon.Mutation.Types.{RoutePatch, UpstreamPatch}

-- `if let Some(v) = patch { field.clone_from(v) }`
abbrev pub patched : {A : Type 0} → Option A → A → A
patched none old = old
patched (some new) old = new

unfoldable pub patch_route : RoutePatch → Route → Route
patch_route patch route = record route {
  hostnames = patched patch.hostnames route.hostnames;
  upstreams = patched patch.upstreams route.upstreams;
  matchers = patched patch.matchers route.matchers;
  headers = patched patch.headers route.headers;
  redirects = patched patch.redirects route.redirects;
  policy_attachment = patched patch.policy_attachment route.policy_attachment;
  enabled = patched patch.enabled route.enabled;
}

unfoldable pub patch_upstream : UpstreamPatch → Upstream → Upstream
patch_upstream patch upstream = record upstream {
  destination = patched patch.destination upstream.destination;
  probe = patched patch.probe upstream.probe;
  weight = patched patch.weight upstream.weight;
  max_request_bytes = patched patch.max_request_bytes upstream.max_request_bytes;
}

unfoldable pub patch_global : GlobalConfigPatch → GlobalConfig → GlobalConfig
patch_global patch global = record {
  admin_listen = patched patch.admin_listen global.admin_listen;
  default_sni = patched patch.default_sni global.default_sni;
  log_level = patched patch.log_level global.log_level;
}

unfoldable pub patch_tls : TlsConfigPatch → TlsConfig → TlsConfig
patch_tls patch tls = record {
  email = patched patch.email tls.email;
  on_demand_enabled = patched patch.on_demand_enabled tls.on_demand_enabled;
  on_demand_ask_url = patched patch.on_demand_ask_url tls.on_demand_ask_url;
  default_issuer = patched patch.default_issuer tls.default_issuer;
}
