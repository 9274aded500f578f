-- ===== src/Mutation/Validate.antt =====
-- mutation/validate.rs: the pre-conditions of each mutation, but for those on URLs and matchers.
pub mod Import
use Prim.Native.String.{◌++◌}
use trilithon.Base.{
  ℕ, suc, String, Bool, true, false, not, ◌&&◌, ◌||◌, List, [], ◌∷◌, Option, none, some, str_eq,
  ◌==◌, leb, is_some, is_empty, if◌then◌else◌, Result, ok, err, ◌>>=◌, ◌>>◌, refuse_if, ok_or,
}
use trilithon.Base.Text.Decimal.{to_string}
use trilithon.Base.BTreeMap.{BTreeMap, get, contains_key}
use trilithon.Model.Pointer.{root, push}
use trilithon.Model.Identifier.{RouteId, UpstreamId, PresetId}
use trilithon.Model.Hostname.{HostPattern, exact, wildcard, HostnameError, validate_hostname}
use trilithon.Model.Route.{RedirectRule, RoutePolicyAttachment, Route}
use trilithon.Model.State.{PresetVersion, DesiredState}
use trilithon.Model.Config.{GlobalConfigPatch, TlsConfigPatch, is_noop}
use trilithon.Mutation.Types.{
  RoutePatch, ValidationRule, MutationError, validation, forbidden, hostname_invalid,
  upstream_reference_missing, policy_preset_missing, duplicate_route_id, duplicate_upstream_id,
  route_missing, upstream_still_referenced, no_op_mutation, policy_preset_version_mismatch,
  policy_preset_version_zero, policy_downgrade,
}
use trilithon.Mutation.Url.{check_redirect_url, check_on_demand_ask_url, redirect_error}
use trilithon.Mutation.Cidr.{check_matchers_valid}

abbrev pub Check : Type 0
Check = Result MutationError (Unit {0})

-- An error at a pointer of one segment.
abbrev pub invalid_at : ValidationRule → String → String → MutationError
invalid_at rule member hint = validation rule (push root member) hint

unfoldable pub check_route_id_unused : DesiredState → RouteId → Check
check_route_id_unused state id =
    refuse_if (contains_key state.routes id)
      (validation duplicate_route_id (push (push root "route") "id") "route id already exists")

unfoldable pub check_route_exists : DesiredState → RouteId → Check
check_route_exists state id =
    refuse_if (not (contains_key state.routes id))
      (invalid_at route_missing "id" "route does not exist")

unfoldable pub missing_upstream : String → ℕ → MutationError
missing_upstream uid i =
    validation upstream_reference_missing
      (push (push (push root "route") "upstreams") (to_string i))
      ("upstream '" ++ (uid ++ "' does not exist"))

-- The loop over the upstreams of a route, from an index on.
unfoldable pub check_upstreams_from : DesiredState → ℕ → List UpstreamId → Check
check_upstreams_from state i [] = ok tt
check_upstreams_from state i (uid ∷ uids) = do
  refuse_if (not (contains_key state.upstreams uid)) (missing_upstream uid i)
  check_upstreams_from state (suc i) uids

unfoldable pub check_upstreams_exist : DesiredState → List UpstreamId → Check
unfolding check_upstreams_from
check_upstreams_exist state ids = check_upstreams_from state 0 ids

abbrev pub raw_host : HostPattern → String
raw_host (exact s) = s
raw_host (wildcard s) = s

-- Equal discriminants.
abbrev pub same_variant : HostPattern → HostPattern → Bool
same_variant (exact _) (exact _) = true
same_variant (wildcard _) (wildcard _) = true
same_variant _ _ = false

abbrev is_wildcard_of : String → HostPattern → Bool
is_wildcard_of raw (exact _) = false
is_wildcard_of raw (wildcard s) = str_eq s raw

-- `Display` of a hostname error.
display : HostnameError → String
display HostnameError.empty = "hostname is empty"
display HostnameError.empty_label =
    "hostname contains an empty label (consecutive dots or leading/trailing dot)"
display (HostnameError.hyphen_boundary label) =
    "hostname label " ++ (label ++ " starts or ends with hyphen")
display (HostnameError.label_too_long label) =
    "hostname label " ++ (label ++ " exceeds 63 characters")
display HostnameError.total_too_long = "hostname total length exceeds 253 characters"
display (HostnameError.invalid_character found) =
    "hostname contains invalid character " ++ String.◌∷◌ found String.[]
display (HostnameError.invalid_wildcard pattern_text) =
    "wildcard " ++ (pattern_text ++ " must be of the form '*.example.com'")

unfoldable pub hostname_error : ℕ → String → MutationError
hostname_error i hint =
    validation hostname_invalid (push (push (push root "route") "hostnames") (to_string i)) hint

-- The body of the loop over the host patterns.
unfoldable pub check_hostname : ℕ → HostPattern → Check
unfolding display
check_hostname i hp = elim (validate_hostname (raw_host hp)) [
  | err e ↦ err (hostname_error i ("hostname '" ++ (raw_host hp ++ ("': " ++ display e))))
  | ok canonical ↦ refuse_if (not (same_variant canonical hp)) (
      hostname_error i (
        "hostname '"
        ++ (raw_host hp
            ++ ("' is a "
                ++ ((if is_wildcard_of (raw_host hp) canonical then "wildcard" else "exact")
                    ++ (" pattern but was tagged as "
                        ++ (if same_variant hp (wildcard "") then "Wildcard" else "Exact")))))))
]

unfoldable pub check_hostnames_from : ℕ → List HostPattern → Check
check_hostnames_from i [] = ok tt
check_hostnames_from i (hp ∷ hps) = do check_hostname i hp; check_hostnames_from (suc i) hps

unfoldable pub check_hostnames_valid : List HostPattern → Check
unfolding check_hostnames_from
check_hostnames_valid hostnames = check_hostnames_from 0 hostnames

unfoldable pub check_route_has_destination : List UpstreamId → Option RedirectRule → Check
check_route_has_destination upstreams redirects =
    refuse_if (is_empty upstreams && not (is_some redirects))
      (validation no_op_mutation root "route must have at least one upstream or a redirect rule")

-- `VALID_REDIRECT_STATUSES.contains(&status)`
unfoldable pub is_redirect_status : ℕ → Bool
is_redirect_status s = s == 300 || (s == 301 || (s == 302 || (s == 303 || (s == 307 || s == 308))))

unfoldable pub check_redirect_status : ℕ → Check
unfolding is_redirect_status
check_redirect_status status = refuse_if (not (is_redirect_status status)) (
    redirect_error "status" (
      "redirect status "
      ++ (to_string status
          ++ (" is not a valid HTTP redirect code; "
              ++ "accepted values are 300, 301, 302, 303, 307, 308"))))

-- `if let Some(redirect) = …` with the two checks on a redirect.
unfoldable pub check_redirect : Option RedirectRule → Check
check_redirect none = ok tt
check_redirect (some redirect) = do
  check_redirect_url redirect.to
  check_redirect_status redirect.status

unfoldable pub check_create_route : DesiredState → Route → Check
check_create_route state route = do
  check_route_id_unused state route.id
  check_upstreams_exist state route.upstreams
  check_hostnames_valid route.hostnames
  check_matchers_valid route.matchers
  check_route_has_destination route.upstreams route.redirects
  check_redirect route.redirects

-- `if let Some(a) = …` around one check.
abbrev pub check_some : {A : Type 0} → (A → Check) → Option A → Check
check_some f none = ok tt
check_some f (some a) = f a

unfoldable pub check_update_route : DesiredState → RouteId → RoutePatch → Check
check_update_route state id patch = do
  check_route_exists state id
  check_some (check_upstreams_exist state) patch.upstreams
  check_some check_hostnames_valid patch.hostnames
  check_some check_matchers_valid patch.matchers
  check_some check_redirect patch.redirects

abbrev pub version_mismatch : String → ℕ → ℕ → MutationError
version_mismatch member wanted current = invalid_at policy_preset_version_mismatch member (
    "preset version "
    ++ (to_string wanted ++ (" not available; current version is " ++ to_string current)))

-- The lookup of a preset at a version; `member` names the field in an error.
unfoldable pub check_preset : String → ℕ → Option PresetVersion → Check
check_preset member wanted none =
    err (invalid_at policy_preset_missing "preset_id" "policy preset does not exist")
check_preset member wanted (some pv) =
    refuse_if (not (pv.version == wanted)) (version_mismatch member wanted pv.version)

unfoldable pub check_attach_policy : DesiredState → RouteId → PresetId → ℕ → Check
check_attach_policy state route_id preset_id preset_version = do
  refuse_if (preset_version == 0) (
      invalid_at policy_preset_version_zero "preset_version"
        "preset versions start at 1; version 0 is reserved")
  check_route_exists state route_id
  check_preset "preset_version" preset_version (get state.presets preset_id)

-- The two lookups that detaching and upgrading begin with.
unfoldable pub attached_policy : Option Route → Result MutationError RoutePolicyAttachment
attached_policy none = err (invalid_at route_missing "id" "route does not exist")
attached_policy (some route) = ok_or route.policy_attachment (
    invalid_at ValidationRule.policy_attachment_missing "route_id"
      "route does not carry a policy attachment")

unfoldable pub check_detach_policy : DesiredState → RouteId → Check
check_detach_policy state route_id = do _ ← attached_policy (get state.routes route_id); ok tt

unfoldable pub check_upgrade_policy : DesiredState → RouteId → ℕ → Check
check_upgrade_policy state route_id to_version = do
  attachment ← attached_policy (get state.routes route_id)
  check_preset "to_version" to_version (get state.presets attachment.preset_id)
  refuse_if (leb to_version attachment.preset_version) (forbidden policy_downgrade)

-- `route.upstreams.contains(id)`
unfoldable pub mentions : List UpstreamId → UpstreamId → Bool
mentions [] id = false
mentions (uid ∷ uids) id = str_eq uid id || mentions uids id

unfoldable pub still_referenced : UpstreamId → RouteId → MutationError
still_referenced id route_id =
    invalid_at upstream_still_referenced "id"
      ("upstream '" ++ (id ++ ("' is still referenced by route '" ++ (route_id ++ "'"))))

-- The loop over the routes, in the order of their ids.
unfoldable pub check_unreferenced : BTreeMap Route → UpstreamId → Check
check_unreferenced [] id = ok tt
check_unreferenced ((route_id, route) ∷ routes) id = do
  refuse_if (mentions route.upstreams id) (still_referenced id route_id)
  check_unreferenced routes id

unfoldable pub check_delete_upstream : DesiredState → UpstreamId → Check
check_delete_upstream state id = do
  refuse_if (not (contains_key state.upstreams id))
      (invalid_at upstream_reference_missing "id" "upstream does not exist")
  check_unreferenced state.routes id

-- The arms of `pre_conditions` that test in place.
unfoldable pub check_create_upstream : DesiredState → UpstreamId → Check
check_create_upstream state id = refuse_if (contains_key state.upstreams id) (
    validation duplicate_upstream_id (push (push root "upstream") "id")
      "upstream id already exists")

unfoldable pub check_update_upstream : DesiredState → UpstreamId → Check
check_update_upstream state id =
    refuse_if (not (contains_key state.upstreams id))
      (invalid_at upstream_reference_missing "id" "upstream does not exist")

unfoldable pub check_set_global_config : GlobalConfigPatch → Check
check_set_global_config patch =
    refuse_if (is_noop patch) (
      invalid_at no_op_mutation "patch" "all patch fields are None — mutation would make no change")

unfoldable pub check_set_tls_config : TlsConfigPatch → Check
check_set_tls_config patch = elim patch.on_demand_ask_url [
  | none ↦ ok tt
  | some ask_url ↦ check_some check_on_demand_ask_url ask_url
]
