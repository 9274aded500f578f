-- ===== src/Reconciler/Render.antt =====
-- reconciler/render.rs: the Caddy document of a desired state. The parser of a preset's body
-- (serde_json) is a parameter: the value, or the text of the error.
pub mod Owned
pub mod Ignored
pub mod Total
use Prim.Native.String.{len, ◌++◌}
use trilithon.Base.{
  ℕ, suc, String, Bool, not, ◌&&◌, ◌||◌, List, [], ◌∷◌, Option, none, some, if◌then◌else◌, str_eq,
  is_some, is_empty, leb, ◌==◌, Result, ok, err, ◌>>=◌, ◌>>◌, refuse_if, map,
}
use trilithon.Base.BTreeMap.{BTreeMap, get}
use trilithon.Base.Text.{
  is_empty_str, starts_with_char, contains_char, split, split_once, strip_prefix, all_chars,
  is_alphanumeric,
}
use trilithon.Base.Text.Decimal.{to_string}
use trilithon.Model.Json.{
  Number, Value, string, number, array, object, Items, nil, cons, Fields, end, field,
}
use trilithon.Model.Pointer.{JsonPointer, unescape_segment}
use trilithon.Model.Hostname.{HostPattern, validate_hostname, HostnameError}
use trilithon.Model.Hostname.Exact.{raw}
use trilithon.Model.Route.{HeaderOp, Route, RedirectRule, RoutePolicyAttachment}
use trilithon.Model.Upstream.{Upstream, UpstreamDestination}
use trilithon.Model.Config.{TlsConfig, TlsIssuer}
use trilithon.Model.State.{DesiredState, PresetVersion}
use trilithon.Diff.Canonical.{get_field, insert_field}

pub data RenderError : Type 0 where
  invalid_hostname : String → String → RenderError
  invalid_upstream : String → String → RenderError
  unknown_preset : String → ℕ → RenderError
  extension_collision : String → RenderError
  invalid_preset_body : String → ℕ → String → RenderError

abbrev pub ownership_sentinel : String
ownership_sentinel = "trilithon-owner-local"

-- `OWNED_TOP_LEVEL_KEYS.contains`
abbrev pub is_owned : String → Bool
is_owned key = str_eq key "@id" || str_eq key "apps"

abbrev pub to_items : List Value → Items
to_items [] = nil
to_items (v ∷ vs) = cons v (to_items vs)

-- `path_prefix/name/i`
abbrev pub indexed : String → String → ℕ → String
indexed path_prefix name i = path_prefix ++ ("/" ++ (name ++ ("/" ++ to_string i)))

abbrev pub check_host :
    Result HostnameError HostPattern → RenderError → Result RenderError (Unit {0})
check_host (ok _) e = ok tt
check_host (err _) e = err e

unfoldable pub host_list : List HostPattern → String → ℕ → Result RenderError (List Value)
host_list [] path_prefix i = ok []
host_list (hp ∷ hostnames) path_prefix i = do
  check_host (validate_hostname (raw hp))
      (invalid_hostname (raw hp) (indexed path_prefix "hostnames" i))
  rest ← host_list hostnames path_prefix (suc i)
  ok (string (raw hp) ∷ rest)

-- `if !values.is_empty() { map.insert(key, Value::Array(values)) }`
abbrev pub insert_array : String → List Value → Fields → Fields
insert_array key values fs =
    if is_empty values then fs else insert_field key (array (to_items values)) fs

abbrev pub object_unless_empty : Fields → Option Value
object_unless_empty end = none
object_unless_empty (field k v fs) = some (object (field k v fs))

unfoldable pub build_matcher : Route → String → Result RenderError (Option Value)
build_matcher route path_prefix = do
  hosts ← host_list route.hostnames path_prefix 0
  ok (
      object_unless_empty
        (insert_array "path" (map string route.matchers.paths) (insert_array "host" hosts end)))

unfoldable pub header_op_to_value : HeaderOp → Value
header_op_to_value (HeaderOp.set name value) = object (
    insert_field "value" (string value)
      (insert_field "field" (string name) (insert_field "op" (string "set") end)))
header_op_to_value (HeaderOp.add name value) = object (
    insert_field "value" (string value)
      (insert_field "field" (string name) (insert_field "op" (string "add") end)))
header_op_to_value (HeaderOp.delete name) =
    object (insert_field "field" (string name) (insert_field "op" (string "delete") end))

unfoldable pub build_header_ops : Route → Option Value
build_header_ops route = object_unless_empty (
    insert_array "response" (map header_op_to_value route.headers.response)
      (insert_array "request" (map header_op_to_value route.headers.request) end))

unfoldable pub validate_upstream_host : String → String → Result RenderError (Unit {0})
validate_upstream_host host path = refuse_if (is_empty_str host) (invalid_upstream host path)

-- `Path::is_absolute` on Unix
abbrev pub is_socket_path : String → Bool
is_socket_path path =
    starts_with_char b'/' path && not (is_some (split_once ".." path)) && not (contains_char 0 path)

abbrev pub is_container_id : String → Bool
is_container_id id =
    not (is_empty_str id)
    && leb (len id) 128
    && all_chars (λ c. is_alphanumeric c || c == b'_' || c == b'.' || c == b'-') id

unfoldable pub dial : UpstreamDestination → String → Result RenderError String
dial (UpstreamDestination.tcp_addr host port) site = do
  validate_upstream_host host (site ++ "/host")
  ok (
      if contains_char b':' host
      then "[" ++ (host ++ ("]:" ++ to_string port))
      else host ++ (":" ++ to_string port))
dial (UpstreamDestination.unix_socket path) site = do
  refuse_if (not (is_socket_path path)) (invalid_upstream path (site ++ "/path"))
  ok ("unix/" ++ path)
dial (UpstreamDestination.docker_container container_id port) site = do
  refuse_if (not (is_container_id container_id))
      (invalid_upstream container_id (site ++ "/container_id"))
  ok (container_id ++ (":" ++ to_string port))

abbrev pub dial_found : Option Upstream → String → String → Result RenderError String
dial_found none id site = err (invalid_upstream id site)
dial_found (some upstream) id site = dial upstream.destination site

unfoldable pub resolve_upstream_dial :
    String → DesiredState → String → ℕ → Result RenderError String
resolve_upstream_dial upstream_id state path_prefix i =
    dial_found (get state.upstreams upstream_id) upstream_id (indexed path_prefix "upstreams" i)

unfoldable pub upstream_values :
    List String → DesiredState → String → ℕ → Result RenderError (List Value)
upstream_values [] state path_prefix i = ok []
upstream_values (id ∷ ids) state path_prefix i = do
  target ← resolve_upstream_dial id state path_prefix i
  rest ← upstream_values ids state path_prefix (suc i)
  ok (object (insert_field "dial" (string target) end) ∷ rest)

abbrev pub insert_some : String → Option Value → Fields → Fields
insert_some key none fs = fs
insert_some key (some v) fs = insert_field key v fs

-- `presets.get(id).filter(|p| p.version == version)`
abbrev pub preset_at : Option PresetVersion → ℕ → Option PresetVersion
preset_at none version = none
preset_at (some p) version = if p.version == version then some p else none

unfoldable pub redirect_handler : RedirectRule → Value
redirect_handler redirect = object (
    insert_field "headers"
      (object (insert_field "Location" (array (cons (string redirect.to) nil)) end))
      (insert_field "status_code" (number (Number.unsigned redirect.status))
        (insert_field "handler" (string "static_response") end)))

abbrev pub or_unknown : Option PresetVersion → String → ℕ → Result RenderError PresetVersion
or_unknown none id version = err (unknown_preset id version)
or_unknown (some p) id version = ok p

abbrev pub or_invalid_body : Result String Value → String → ℕ → Result RenderError Value
or_invalid_body (ok v) id version = ok v
or_invalid_body (err detail) id version = err (invalid_preset_body id version detail)

-- The TLS block.
unfoldable pub on_demand_block : TlsConfig → Fields → Fields
on_demand_block tls automation =
    if tls.on_demand_enabled
    then insert_field "on_demand"
        (object (elim tls.on_demand_ask_url [
          | none ↦ end
          | some url ↦ insert_field "ask" (object (insert_field "endpoint" (string url) end)) end
        ]))
        automation
    else automation

abbrev pub issuer_value : TlsIssuer → Value
issuer_value (TlsIssuer.acme directory_url) =
    object (insert_field "ca" (string directory_url) (insert_field "module" (string "acme") end))
issuer_value TlsIssuer.internal = object (insert_field "module" (string "internal") end)

abbrev pub issuer_policies : Option TlsIssuer → List Value
issuer_policies none = []
issuer_policies (some issuer) =
    object (insert_field "issuers" (array (cons (issuer_value issuer) nil)) end) ∷ []

abbrev pub string_value : Option String → Option Value
string_value none = none
string_value (some s) = some (string s)

unfoldable pub build_tls_automation : TlsConfig → Value
build_tls_automation tls = object (
    insert_array "policies" (issuer_policies tls.default_issuer)
      (insert_some "email" (string_value tls.email) (on_demand_block tls end)))

unfoldable pub apps_value : Fields → TlsConfig → Value
apps_value servers tls = object (
    insert_field "tls" (object (insert_field "automation" (build_tls_automation tls) end))
      (insert_field "http" (object (insert_field "servers" (object servers) end)) end))

-- The skeleton, before the extensions are merged.
unfoldable pub skeleton : Fields → TlsConfig → Fields
skeleton servers tls =
    insert_field "apps" (apps_value servers tls)
      (insert_field "@id" (string ownership_sentinel) end)

-- The extensions. `set_path` is the walk of `json_pointer_set`, with `none` for its error.
unfoldable pub inner_object : Option Value → Option Fields
inner_object none = some end
inner_object (some (object fs)) = some fs
inner_object (some _) = none

abbrev pub and_in : Option Fields → (Fields → Option Fields) → Option Fields
and_in none f = none
and_in (some inner) f = f inner

abbrev pub put_back : String → Fields → Option Fields → Option Fields
put_back segment fs none = none
put_back segment fs (some written) = some (insert_field segment (object written) fs)

unfoldable pub set_path : List String → Value → Fields → Option Fields
set_path [] value fs = some fs
set_path (segment ∷ []) value fs = some (insert_field segment value fs)
set_path (segment ∷ next ∷ rest) value fs =
    put_back segment fs
      (and_in (inner_object (get_field fs segment)) (set_path (next ∷ rest) value))

unfoldable pub json_pointer_set : Fields → String → Value → Option Fields
json_pointer_set fs ptr value =
    if is_empty_str ptr || str_eq ptr "/" then none else elim (strip_prefix "/" ptr) [
      | none ↦ none
      | some rest ↦ set_path (map unescape_segment (split (λ c. c == b'/') rest)) value fs
    ]

abbrev pub first_of : List String → String
first_of [] = ""
first_of (s ∷ _) = s

-- The raw text of the pointer's first segment, or the empty text.
unfoldable pub first_key : JsonPointer → String
first_key pointer = elim (strip_prefix "/" pointer) [
  | none ↦ ""
  | some rest ↦ first_of (split (λ c. c == b'/') rest)
]

abbrev pub or_collision : Option Fields → JsonPointer → Result RenderError Fields
or_collision none pointer = err (extension_collision pointer)
or_collision (some fs) pointer = ok fs

unfoldable pub apply_unknown_extensions : Fields → BTreeMap Value → Result RenderError Fields
apply_unknown_extensions root [] = ok root
apply_unknown_extensions root ((pointer, value) ∷ extensions) = do
  refuse_if (is_owned (first_key pointer)) (extension_collision pointer)
  written ← or_collision (json_pointer_set root pointer value) pointer
  apply_unknown_extensions written extensions

module _ (parse : String → Result String Value) where
  unfoldable pub policy_body :
      Option RoutePolicyAttachment → DesiredState → Result RenderError (Option Value)
  policy_body none state = ok none
  policy_body (some attachment) state = do
    preset ←
        or_unknown (preset_at (get state.presets attachment.preset_id) attachment.preset_version)
          attachment.preset_id attachment.preset_version
    body ← or_invalid_body (parse preset.body_json) attachment.preset_id attachment.preset_version
    ok (some body)

  unfoldable pub proxy_handler : Route → DesiredState → String → Result RenderError Value
  proxy_handler route state path_prefix = do
    upstreams ← upstream_values route.upstreams state path_prefix 0
    policy ← policy_body route.policy_attachment state
    ok (
        object (
          insert_some "policy" policy (
            insert_some "headers" (build_header_ops route) (
              insert_field "upstreams" (array (to_items upstreams))
                (insert_field "handler" (string "reverse_proxy") end)))))

  unfoldable pub build_handler : Route → DesiredState → String → Result RenderError Value
  build_handler route state path_prefix = elim route.redirects [
    | some redirect ↦ ok (redirect_handler redirect)
    | none ↦ proxy_handler route state path_prefix
  ]

  abbrev pub matcher_fields : Option Value → Fields
  matcher_fields none = end
  matcher_fields (some m) = insert_field "match" (array (cons m nil)) end

  unfoldable pub build_route : Route → DesiredState → String → Result RenderError Value
  build_route route state path_prefix = do
    matcher ← build_matcher route path_prefix
    handler ← build_handler route state path_prefix
    ok (object (insert_field "handle" (array (cons handler nil)) (matcher_fields matcher)))

  unfoldable pub build_routes : BTreeMap Route → DesiredState → Result RenderError (List Value)
  build_routes [] state = ok []
  build_routes ((id, route) ∷ routes) state =
      let rest = build_routes routes state in
      if route.enabled
      then (do
        value ← build_route route state ("/routes/" ++ id)
        values ← rest
        ok (value ∷ values))
      else rest

  unfoldable pub build_http_servers : DesiredState → Result RenderError Fields
  build_http_servers state = do
    routes ← build_routes state.routes state
    ok (
        insert_field "trilithon"
          (object (
            insert_field "routes" (array (to_items routes))
              (insert_field "listen" (array (cons (string ":443") nil)) end)))
          end)

  unfoldable pub render_state : DesiredState → Result RenderError Value
  render_state state = do
    servers ← build_http_servers state
    root ← apply_unknown_extensions (skeleton servers state.tls) state.unknown_extensions
    ok (object root)
