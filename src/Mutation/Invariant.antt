-- ===== src/Mutation/Invariant.antt =====
-- What every state that mutations reach satisfies.
pub mod Maps
pub mod Checks
pub mod Parts
pub mod Steps
pub mod Import
pub mod Reach
use trilithon.Base.{String, ◌≡◌, true, Option, none, some, All}
use trilithon.Base.BTreeMap.{BTreeMap, contains_key}
use trilithon.Base.BTreeMap.Order.{IsSorted}
use trilithon.Model.Hostname.Exact.{IsHostPattern}
use trilithon.Model.Route.{Route, RedirectRule}
use trilithon.Model.Upstream.{Upstream}
use trilithon.Model.State.{DesiredState}
use trilithon.Mutation.Url.Accepted.{IsWebUrl, IsAskUrl}
use trilithon.Mutation.Cidr.Accepted.{IsCidr}
use trilithon.Mutation.Validate.{is_redirect_status}
use trilithon.Mutation.Invariant.Maps.{Holds}

-- A redirect to a web URL with one of the redirect statuses.
abbrev pub IsRedirect : Option RedirectRule → Type 0
IsRedirect none = Unit
IsRedirect (some r) = IsWebUrl r.to × (is_redirect_status r.status ≡ true)

-- A route of a map, at its key.
pub record IsRoute (upstreams : BTreeMap Upstream) (id : String) (r : Route) : Type 0 where
  pub key : r.id ≡ id
  pub references : All (λ u. contains_key upstreams u ≡ true) r.upstreams
  pub hostnames : All IsHostPattern r.hostnames
  pub remote : All IsCidr r.matchers.remote
  pub redirect : IsRedirect r.redirects

abbrev pub IsUpstream : String → Upstream → Type 0
IsUpstream id u = u.id ≡ id

abbrev pub IsAsk : Option String → Type 0
IsAsk none = Unit
IsAsk (some url) = IsAskUrl url

-- The keys are sorted and are the ids of their values, every upstream that a route names exists, and
-- host names, CIDR blocks, redirects and the ask URL are valid.
pub record IsWellFormed (s : DesiredState) : Type 0 where
  pub routes_sorted : IsSorted s.routes
  pub upstreams_sorted : IsSorted s.upstreams
  pub routes : Holds (IsRoute s.upstreams) s.routes
  pub upstreams : Holds IsUpstream s.upstreams
  pub ask : IsAsk s.tls.on_demand_ask_url
