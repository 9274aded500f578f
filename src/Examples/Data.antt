-- ===== src/Examples/Data.antt =====
-- A small configuration, and serialisers that keep an id each.
use trilithon.Base.{none, some, [], ◌∷◌, true, false, Bool, str_eq}
use trilithon.Base.Int.{pos}
use trilithon.Model.Json.{Value, string, null}
use trilithon.Model.Hostname.{exact, wildcard}
use trilithon.Model.Route.{Route, MatcherSet}
use trilithon.Model.Upstream.{Upstream, UpstreamDestination, UpstreamProbe}
use trilithon.Model.State.{DesiredState, PresetVersion, empty}
use trilithon.Mutation.Types.{Mutation, CapabilitySet}
use trilithon.Mutation.Steps.{Serde}

abbrev same_json : Value → Value → Bool
same_json (string s) (string t) = str_eq s t
same_json null null = true
same_json _ _ = false

abbrev pub serde : Serde
serde = record {
  route = λ r. some (string r.id);
  upstream = λ u. some (string u.id);
  attachment = λ a. some (string a.preset_id);
  global = λ g. some null;
  tls = λ t. some null;
  eq = same_json;
}

abbrev pub no_matchers : MatcherSet
no_matchers = record { paths = []; methods = []; query = []; headers = []; remote = [] }

abbrev pub web : Route
web = record {
  id = "web";
  hostnames = exact "a.example" ∷ wildcard "*.b.example" ∷ [];
  upstreams = "blue" ∷ [];
  matchers = record no_matchers { remote = "10.0.0.0/8" ∷ [] };
  headers = record { request = []; response = [] };
  redirects = none;
  policy_attachment = some (record { preset_id = "public"; preset_version = 1 });
  enabled = true;
  created_at = pos 0;
  updated_at = pos 0;
}

abbrev pub docs : Route
docs = record web {
  id = "docs";
  upstreams = "green" ∷ [];
  redirects = some (record { to = "https://docs.example/"; status = 308 });
  policy_attachment = none;
}

abbrev pub blue : Upstream
blue = record {
  id = "blue";
  destination = UpstreamDestination.tcp_addr "10.0.0.1" 80;
  probe = UpstreamProbe.tcp;
  weight = 1;
  max_request_bytes = none;
}

abbrev pub green : Upstream
green = record blue { id = "green" }

abbrev pub public_preset : PresetVersion
public_preset = record { preset_id = "public"; version = 2; body_json = "{}" }

-- Version 7, with one route and two upstreams.
abbrev pub state : DesiredState
state = record empty {
  version = pos 7;
  routes = ("web", web) ∷ [];
  upstreams = ("blue", blue) ∷ ("green", green) ∷ [];
  presets = ("public", public_preset) ∷ [];
}

abbrev pub caps : CapabilitySet
caps = record {
  loaded_modules =
      "http.handlers.reverse_proxy" ∷ "http.handlers.static_response" ∷ "http.health_checks.active"
      ∷ "tls" ∷ [];
  caddy_version = "2.8.4";
  probed_at = pos 0;
}

abbrev pub create_docs : Mutation
create_docs = Mutation.create_route (pos 7) docs

abbrev pub import_docs : Mutation
import_docs =
    Mutation.import_from_caddyfile (pos 0)
      (record { routes = docs ∷ []; upstreams = green ∷ []; warnings = [] })

abbrev pub upgrade_web : Mutation
upgrade_web = Mutation.upgrade_policy (pos 7) "web" 2

abbrev pub delete_green : Mutation
delete_green = Mutation.delete_upstream (pos 7) "green"

abbrev pub rollback_to : Mutation
rollback_to = Mutation.rollback (pos 7) "snapshot"

abbrev pub no_modules : CapabilitySet
no_modules = record caps { loaded_modules = [] }
