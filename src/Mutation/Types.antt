-- ===== src/Mutation/Types.antt =====
-- mutation/types.rs, patches.rs, error.rs and outcome.rs, `ResolveSource` of diff/resolve.rs and the
-- capability record of caddy/capabilities.rs.
use trilithon.Base.{ℕ, String, Bool, List, Option}
use trilithon.Base.Int.{ℤ}
use trilithon.Base.BTreeMap.{BTreeSet}
use trilithon.Audit.Event.{AuditEvent}
use trilithon.Model.Json.{Value}
use trilithon.Model.Pointer.{JsonPointer, CaddyModule}
use trilithon.Model.Identifier.{RouteId, UpstreamId, PresetId}
use trilithon.Model.Hostname.{HostPattern}
use trilithon.Model.Route.{
  MatcherSet, HeaderRules, RedirectRule, RoutePolicyAttachment, Route, UnixSeconds,
}
use trilithon.Model.Upstream.{UpstreamDestination, UpstreamProbe, Upstream}
use trilithon.Model.Config.{GlobalConfigPatch, TlsConfigPatch}
use trilithon.Model.State.{DesiredState}

abbrev pub SnapshotId : Type 0
SnapshotId = String

-- `ulid::Ulid` is a number of 128 bits.
abbrev pub Ulid : Type 0
Ulid = ℕ

pub data ResolveSource : Type 0 where
  drift_adopt : Ulid → ResolveSource
  drift_reapply : Ulid → ResolveSource

pub record RoutePatch : Type 0 where
  pub hostnames : Option (List HostPattern)
  pub upstreams : Option (List UpstreamId)
  pub matchers : Option MatcherSet
  pub headers : Option HeaderRules
  pub redirects : Option (Option RedirectRule)
  pub policy_attachment : Option (Option RoutePolicyAttachment)
  pub enabled : Option Bool

pub record UpstreamPatch : Type 0 where
  pub destination : Option UpstreamDestination
  pub probe : Option UpstreamProbe
  pub weight : Option ℕ
  pub max_request_bytes : Option (Option ℕ)

pub record ParsedCaddyfile : Type 0 where
  pub routes : List Route
  pub upstreams : List Upstream
  pub warnings : List String

-- The first argument of each is `expected_version`.
pub data Mutation : Type 0 where
  create_route : ℤ → Route → Mutation
  update_route : ℤ → RouteId → RoutePatch → Mutation
  delete_route : ℤ → RouteId → Mutation
  create_upstream : ℤ → Upstream → Mutation
  update_upstream : ℤ → UpstreamId → UpstreamPatch → Mutation
  delete_upstream : ℤ → UpstreamId → Mutation
  attach_policy : ℤ → RouteId → PresetId → ℕ → Mutation
  detach_policy : ℤ → RouteId → Mutation
  upgrade_policy : ℤ → RouteId → ℕ → Mutation
  set_global_config : ℤ → GlobalConfigPatch → Mutation
  set_tls_config : ℤ → TlsConfigPatch → Mutation
  import_from_caddyfile : ℤ → ParsedCaddyfile → Mutation
  rollback : ℤ → SnapshotId → Mutation
  replace_desired_state : ℤ → DesiredState → ResolveSource → Mutation
  reapply_snapshot : ℤ → SnapshotId → ResolveSource → Mutation
  drift_deferred : ℤ → Ulid → Mutation

unfoldable pub expected_version : Mutation → ℤ
expected_version (create_route v _) = v
expected_version (update_route v _ _) = v
expected_version (delete_route v _) = v
expected_version (create_upstream v _) = v
expected_version (update_upstream v _ _) = v
expected_version (delete_upstream v _) = v
expected_version (attach_policy v _ _ _) = v
expected_version (detach_policy v _) = v
expected_version (upgrade_policy v _ _) = v
expected_version (set_global_config v _) = v
expected_version (set_tls_config v _) = v
expected_version (import_from_caddyfile v _) = v
expected_version (rollback v _) = v
expected_version (replace_desired_state v _ _) = v
expected_version (reapply_snapshot v _ _) = v
expected_version (drift_deferred v _) = v

pub data MutationKind : Type 0 where
  create_route : MutationKind
  update_route : MutationKind
  delete_route : MutationKind
  create_upstream : MutationKind
  update_upstream : MutationKind
  delete_upstream : MutationKind
  attach_policy : MutationKind
  detach_policy : MutationKind
  upgrade_policy : MutationKind
  set_global_config : MutationKind
  set_tls_config : MutationKind
  import_from_caddyfile : MutationKind
  rollback : MutationKind
  replace_desired_state : MutationKind
  reapply_snapshot : MutationKind
  drift_deferred : MutationKind

unfoldable pub kind : Mutation → MutationKind
kind (Mutation.create_route _ _) = MutationKind.create_route
kind (Mutation.update_route _ _ _) = MutationKind.update_route
kind (Mutation.delete_route _ _) = MutationKind.delete_route
kind (Mutation.create_upstream _ _) = MutationKind.create_upstream
kind (Mutation.update_upstream _ _ _) = MutationKind.update_upstream
kind (Mutation.delete_upstream _ _) = MutationKind.delete_upstream
kind (Mutation.attach_policy _ _ _ _) = MutationKind.attach_policy
kind (Mutation.detach_policy _ _) = MutationKind.detach_policy
kind (Mutation.upgrade_policy _ _ _) = MutationKind.upgrade_policy
kind (Mutation.set_global_config _ _) = MutationKind.set_global_config
kind (Mutation.set_tls_config _ _) = MutationKind.set_tls_config
kind (Mutation.import_from_caddyfile _ _) = MutationKind.import_from_caddyfile
kind (Mutation.rollback _ _) = MutationKind.rollback
kind (Mutation.replace_desired_state _ _ _) = MutationKind.replace_desired_state
kind (Mutation.reapply_snapshot _ _ _) = MutationKind.reapply_snapshot
kind (Mutation.drift_deferred _ _) = MutationKind.drift_deferred

pub data ValidationRule : Type 0 where
  hostname_invalid : ValidationRule
  upstream_reference_missing : ValidationRule
  policy_preset_missing : ValidationRule
  duplicate_route_id : ValidationRule
  duplicate_upstream_id : ValidationRule
  route_missing : ValidationRule
  policy_attachment_missing : ValidationRule
  upstream_still_referenced : ValidationRule
  no_op_mutation : ValidationRule
  policy_preset_version_mismatch : ValidationRule
  policy_preset_version_zero : ValidationRule
  redirect_url_invalid : ValidationRule
  on_demand_ask_url_invalid : ValidationRule
  cidr_invalid : ValidationRule

pub data SchemaErrorKind : Type 0 where
  unknown_field : SchemaErrorKind
  type_mismatch : String → String → SchemaErrorKind
  out_of_range : String → String → SchemaErrorKind

pub data ForbiddenReason : Type 0 where
  rollback_target_unknown : ForbiddenReason
  policy_downgrade : ForbiddenReason
  policy_attachment_missing : ForbiddenReason
  version_overflow : ForbiddenReason

pub data MutationError : Type 0 where
  validation : ValidationRule → JsonPointer → String → MutationError
  capability_missing : CaddyModule → MutationKind → MutationError
  conflict : ℤ → ℤ → MutationError  -- observed, expected
  schema : JsonPointer → SchemaErrorKind → MutationError
  forbidden : ForbiddenReason → MutationError

pub record DiffChange : Type 0 where
  pub path : JsonPointer
  pub before : Option Value
  pub after : Option Value

pub record Diff : Type 0 where
  pub changes : List DiffChange

pub record MutationOutcome : Type 0 where
  pub new_state : DesiredState
  pub diff : Diff
  pub audit_event : AuditEvent

pub record CapabilitySet : Type 0 where
  pub loaded_modules : BTreeSet
  pub caddy_version : String
  pub probed_at : UnixSeconds
