-- ===== src/Reconciler/CapabilityCheck.antt =====
-- reconciler/capability_check.rs. The parser of a preset's body (serde_json) is a parameter.
pub mod Required
use Prim.Native.Nat.{Ordering}
use Prim.Native.String.{◌++◌, compare}
use trilithon.Base.{
  String, Bool, true, false, not, ◌||◌, List, [], ◌∷◌, Option, none, some, if◌then◌else◌, str_eq,
  is_some, is_empty, Result, ok, err, ◌>>=◌, ◌>>◌,
}
use trilithon.Base.BTreeMap.{BTreeMap, get, contains}
use trilithon.Model.Json.{Value, object, Fields, end, field}
use trilithon.Model.Route.{Route, RoutePolicyAttachment}
use trilithon.Model.State.{DesiredState, PresetVersion}
use trilithon.Mutation.Types.{CapabilitySet}
use trilithon.Storage.Tables.{order_by}
use trilithon.Reconciler.Render.{preset_at}

-- The module, and the pointer of the route.
pub data CapabilityCheckError : Type 0 where
  missing : String → String → CapabilityCheckError

unfoldable pub require : CapabilitySet → String → String → Result CapabilityCheckError (Unit {0})
require capabilities m site =
    if contains capabilities.loaded_modules m then ok tt else err (missing m site)

-- `if test { require(…)? }`
abbrev pub require_if :
    Bool → CapabilitySet → String → String → Result CapabilityCheckError (Unit {0})
require_if true capabilities m site = require capabilities m site
require_if false capabilities m site = ok tt

unfoldable pub require_all :
    CapabilitySet → List String → String → Result CapabilityCheckError (Unit {0})
require_all capabilities [] site = ok tt
require_all capabilities (m ∷ modules) site = do
  require capabilities m site
  require_all capabilities modules site

abbrev pub key_module : String → List String → List String
key_module key rest =
    if str_eq key "rate_limit"
    then "http.handlers.rate_limit" ∷ rest
    else if str_eq key "forward_auth"
    then "http.handlers.forward_auth" ∷ rest
    else if str_eq key "coraza"
    then "http.handlers.waf" ∷ rest
    else rest

unfoldable pub key_modules : Fields → List String
key_modules end = []
key_modules (field key v fs) = let rest = key_modules fs in key_module key rest

abbrev pub lt_str : String → String → Bool
lt_str a b = elim (compare a b) [ Ordering.lt ↦ true | _ ↦ false ]

abbrev pub object_modules : Value → List String
object_modules (object fs) = order_by lt_str (key_modules fs)
object_modules _ = []

abbrev pub parsed_modules : Result String Value → List String
parsed_modules (ok v) = object_modules v
parsed_modules (err _) = []

module _ (parse : String → Result String Value) where
  unfoldable pub preset_body_modules : String → List String
  preset_body_modules body_json = parsed_modules (parse body_json)

  abbrev pub found_modules : Option PresetVersion → List String
  found_modules none = []
  found_modules (some p) = preset_body_modules p.body_json

  unfoldable pub attachment_modules : Option RoutePolicyAttachment → DesiredState → List String
  attachment_modules none state = []
  attachment_modules (some a) state =
      found_modules (preset_at (get state.presets a.preset_id) a.preset_version)

  unfoldable pub check_route :
      Route → DesiredState → CapabilitySet → String → Result CapabilityCheckError (Unit {0})
  check_route route state capabilities site = do
    require_if (not (is_empty route.upstreams)) capabilities "http.handlers.reverse_proxy" site
    require_if (not (is_empty route.headers.request) || not (is_empty route.headers.response))
        capabilities "http.handlers.headers" site
    require_if (is_some route.redirects) capabilities "http.handlers.static_response" site
    require_all capabilities (attachment_modules route.policy_attachment state) site

  unfoldable pub check_routes :
      BTreeMap Route → DesiredState → CapabilitySet → Result CapabilityCheckError (Unit {0})
  check_routes [] state capabilities = ok tt
  check_routes ((id, route) ∷ routes) state capabilities =
      let rest = check_routes routes state capabilities in
      if route.enabled
      then check_route route state capabilities ("/routes/" ++ id) >> rest
      else rest

  unfoldable pub check_against_capability_set :
      DesiredState → CapabilitySet → Result CapabilityCheckError (Unit {0})
  check_against_capability_set state capabilities = check_routes state.routes state capabilities
