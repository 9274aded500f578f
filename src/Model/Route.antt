-- ===== src/Model/Route.antt =====
-- model/route.rs, model/header.rs, model/matcher.rs and model/redirect.rs: a route and its parts.
use trilithon.Base.{ℕ, String, Bool, List, Option}
use trilithon.Base.Int.{ℤ}
use trilithon.Model.Identifier.{RouteId, UpstreamId, PresetId}
use trilithon.Model.Hostname.{HostPattern}

abbrev pub UnixSeconds : Type 0
UnixSeconds = ℤ

pub data HeaderOp : Type 0 where
  set : String → String → HeaderOp
  add : String → String → HeaderOp
  delete : String → HeaderOp

pub record HeaderRules : Type 0 where
  pub request : List HeaderOp
  pub response : List HeaderOp

pub data HttpMethod : Type 0 where
  get post put patch delete head options : HttpMethod

pub record QueryMatcher : Type 0 where
  pub key : String
  pub value : Option String

pub record HeaderMatcher : Type 0 where
  pub name : String
  pub value : Option String

-- `paths` and `remote` hold newtypes over a text (`PathMatcher`, `CidrMatcher`).
pub record MatcherSet : Type 0 where
  pub paths : List String
  pub methods : List HttpMethod
  pub query : List QueryMatcher
  pub headers : List HeaderMatcher
  pub remote : List String

pub record RedirectRule : Type 0 where
  pub to : String
  pub status : ℕ  -- u16

pub record RoutePolicyAttachment : Type 0 where
  pub preset_id : PresetId
  pub preset_version : ℕ  -- u32

pub record Route : Type 0 where
  pub id : RouteId
  pub hostnames : List HostPattern
  pub upstreams : List UpstreamId
  pub matchers : MatcherSet
  pub headers : HeaderRules
  pub redirects : Option RedirectRule
  pub policy_attachment : Option RoutePolicyAttachment
  pub enabled : Bool
  pub created_at : UnixSeconds
  pub updated_at : UnixSeconds
