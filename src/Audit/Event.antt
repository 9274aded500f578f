-- ===== src/Audit/Event.antt =====
-- audit/event.rs and storage/audit_vocab.rs: the audit events, their wire names and the two lists of
-- names that writers are checked against.
use trilithon.Base.{
  ℕ, String, code, Bool, true, false, ◌&&◌, ◌||◌, List, [], ◌∷◌, str_eq, ◌==◌, leb, if◌then◌else◌,
  Result, ok, err,
}
use trilithon.Base.Text.{is_digit, all_chars, contains_char, split}

pub data AuditEvent : Type 0 where
  auth_login_succeeded : AuditEvent
  auth_login_failed : AuditEvent
  auth_logout : AuditEvent
  auth_session_revoked : AuditEvent
  auth_bootstrap_credentials_rotated : AuditEvent
  auth_bootstrap_credentials_created : AuditEvent
  caddy_capability_probe_completed : AuditEvent
  caddy_ownership_sentinel_conflict : AuditEvent
  caddy_reconnected : AuditEvent
  caddy_unreachable : AuditEvent
  apply_succeeded : AuditEvent
  apply_failed : AuditEvent
  drift_detected : AuditEvent
  drift_resolved : AuditEvent
  config_rolled_back : AuditEvent
  drift_deferred : AuditEvent
  drift_auto_deferred : AuditEvent
  config_rebased : AuditEvent
  mutation_proposed : AuditEvent
  mutation_submitted : AuditEvent
  mutation_applied : AuditEvent
  mutation_conflicted : AuditEvent
  mutation_rejected : AuditEvent
  mutation_rejected_missing_expected_version : AuditEvent
  mutation_rebased_auto : AuditEvent
  mutation_rebased_manual : AuditEvent
  mutation_rebase_expired : AuditEvent
  secrets_revealed : AuditEvent
  secrets_master_key_rotated : AuditEvent
  policy_preset_attached : AuditEvent
  policy_preset_detached : AuditEvent
  policy_preset_upgraded : AuditEvent
  policy_registry_mismatch : AuditEvent
  import_caddyfile : AuditEvent
  export_bundle : AuditEvent
  export_caddy_json : AuditEvent
  export_caddyfile : AuditEvent
  tool_gateway_session_opened : AuditEvent
  tool_gateway_session_closed : AuditEvent
  tool_gateway_invoked : AuditEvent
  docker_socket_trust_grant : AuditEvent
  proposal_approved : AuditEvent
  proposal_rejected : AuditEvent
  proposal_expired : AuditEvent

pub data AuditEventParseError : Type 0 where
  unknown : String → AuditEventParseError

unfoldable pub kind_str : AuditEvent → String
kind_str auth_login_succeeded = "auth.login-succeeded"
kind_str auth_login_failed = "auth.login-failed"
kind_str auth_logout = "auth.logout"
kind_str auth_session_revoked = "auth.session-revoked"
kind_str auth_bootstrap_credentials_rotated = "auth.bootstrap-credentials-rotated"
kind_str auth_bootstrap_credentials_created = "auth.bootstrap-credentials-created"
kind_str caddy_capability_probe_completed = "caddy.capability-probe-completed"
kind_str caddy_ownership_sentinel_conflict = "caddy.ownership-sentinel-conflict"
kind_str caddy_reconnected = "caddy.reconnected"
kind_str caddy_unreachable = "caddy.unreachable"
kind_str apply_succeeded = "config.applied"
kind_str apply_failed = "config.apply-failed"
kind_str drift_detected = "config.drift-detected"
kind_str drift_resolved = "config.drift-resolved"
kind_str config_rolled_back = "config.rolled-back"
kind_str drift_deferred = "config.drift-deferred"
kind_str drift_auto_deferred = "config.drift-auto-deferred"
kind_str config_rebased = "config.rebased"
kind_str mutation_proposed = "mutation.proposed"
kind_str mutation_submitted = "mutation.submitted"
kind_str mutation_applied = "mutation.applied"
kind_str mutation_conflicted = "mutation.conflicted"
kind_str mutation_rejected = "mutation.rejected"
kind_str mutation_rejected_missing_expected_version = "mutation.rejected.missing-expected-version"
kind_str mutation_rebased_auto = "mutation.rebased.auto"
kind_str mutation_rebased_manual = "mutation.rebased.manual"
kind_str mutation_rebase_expired = "mutation.rebase.expired"
kind_str secrets_revealed = "secrets.revealed"
kind_str secrets_master_key_rotated = "secrets.master-key-rotated"
kind_str policy_preset_attached = "policy-preset.attached"
kind_str policy_preset_detached = "policy-preset.detached"
kind_str policy_preset_upgraded = "policy-preset.upgraded"
kind_str policy_registry_mismatch = "policy.registry-mismatch"
kind_str import_caddyfile = "import.caddyfile"
kind_str export_bundle = "export.bundle"
kind_str export_caddy_json = "export.caddy-json"
kind_str export_caddyfile = "export.caddyfile"
kind_str tool_gateway_session_opened = "tool-gateway.session-opened"
kind_str tool_gateway_session_closed = "tool-gateway.session-closed"
kind_str tool_gateway_invoked = "tool-gateway.tool-invoked"
kind_str docker_socket_trust_grant = "docker.socket-trust-grant"
kind_str proposal_approved = "proposal.approved"
kind_str proposal_rejected = "proposal.rejected"
kind_str proposal_expired = "proposal.expired"

unfoldable pub from_str : String → Result AuditEventParseError AuditEvent
from_str s =
    if str_eq s "auth.login-succeeded"
    then ok auth_login_succeeded
    else if str_eq s "auth.login-failed"
    then ok auth_login_failed
    else if str_eq s "auth.logout"
    then ok auth_logout
    else if str_eq s "auth.session-revoked"
    then ok auth_session_revoked
    else if str_eq s "auth.bootstrap-credentials-rotated"
    then ok auth_bootstrap_credentials_rotated
    else if str_eq s "auth.bootstrap-credentials-created"
    then ok auth_bootstrap_credentials_created
    else if str_eq s "caddy.capability-probe-completed"
    then ok caddy_capability_probe_completed
    else if str_eq s "caddy.ownership-sentinel-conflict"
    then ok caddy_ownership_sentinel_conflict
    else if str_eq s "caddy.reconnected"
    then ok caddy_reconnected
    else if str_eq s "caddy.unreachable"
    then ok caddy_unreachable
    else if str_eq s "config.applied"
    then ok apply_succeeded
    else if str_eq s "config.apply-failed"
    then ok apply_failed
    else if str_eq s "config.drift-detected"
    then ok drift_detected
    else if str_eq s "config.drift-resolved"
    then ok drift_resolved
    else if str_eq s "config.rolled-back"
    then ok config_rolled_back
    else if str_eq s "config.drift-deferred"
    then ok drift_deferred
    else if str_eq s "config.drift-auto-deferred"
    then ok drift_auto_deferred
    else if str_eq s "config.rebased"
    then ok config_rebased
    else if str_eq s "mutation.proposed"
    then ok mutation_proposed
    else if str_eq s "mutation.submitted"
    then ok mutation_submitted
    else if str_eq s "mutation.applied"
    then ok mutation_applied
    else if str_eq s "mutation.conflicted"
    then ok mutation_conflicted
    else if str_eq s "mutation.rejected"
    then ok mutation_rejected
    else if str_eq s "mutation.rejected.missing-expected-version"
    then ok mutation_rejected_missing_expected_version
    else if str_eq s "mutation.rebased.auto"
    then ok mutation_rebased_auto
    else if str_eq s "mutation.rebased.manual"
    then ok mutation_rebased_manual
    else if str_eq s "mutation.rebase.expired"
    then ok mutation_rebase_expired
    else if str_eq s "secrets.revealed"
    then ok secrets_revealed
    else if str_eq s "secrets.master-key-rotated"
    then ok secrets_master_key_rotated
    else if str_eq s "policy-preset.attached"
    then ok policy_preset_attached
    else if str_eq s "policy-preset.detached"
    then ok policy_preset_detached
    else if str_eq s "policy-preset.upgraded"
    then ok policy_preset_upgraded
    else if str_eq s "policy.registry-mismatch"
    then ok policy_registry_mismatch
    else if str_eq s "import.caddyfile"
    then ok import_caddyfile
    else if str_eq s "export.bundle"
    then ok export_bundle
    else if str_eq s "export.caddy-json"
    then ok export_caddy_json
    else if str_eq s "export.caddyfile"
    then ok export_caddyfile
    else if str_eq s "tool-gateway.session-opened"
    then ok tool_gateway_session_opened
    else if str_eq s "tool-gateway.session-closed"
    then ok tool_gateway_session_closed
    else if str_eq s "tool-gateway.tool-invoked"
    then ok tool_gateway_invoked
    else if str_eq s "docker.socket-trust-grant"
    then ok docker_socket_trust_grant
    else if str_eq s "proposal.approved"
    then ok proposal_approved
    else if str_eq s "proposal.rejected"
    then ok proposal_rejected
    else if str_eq s "proposal.expired"
    then ok proposal_expired
    else err (unknown s)

-- `AUDIT_KIND_VOCAB` of audit/event.rs
abbrev pub audit_kind_vocab : List String
audit_kind_vocab =
    "auth.bootstrap-credentials-created" ∷ "auth.bootstrap-credentials-rotated"
    ∷ "auth.login-failed" ∷ "auth.login-succeeded" ∷ "auth.logout" ∷ "auth.session-revoked"
    ∷ "caddy.capability-probe-completed" ∷ "caddy.ownership-sentinel-conflict" ∷ "caddy.reconnected"
    ∷ "caddy.unreachable" ∷ "config.applied" ∷ "config.apply-failed" ∷ "config.drift-auto-deferred"
    ∷ "config.drift-deferred" ∷ "config.drift-detected" ∷ "config.drift-resolved" ∷ "config.rebased"
    ∷ "config.rolled-back" ∷ "docker.socket-trust-grant" ∷ "export.bundle" ∷ "export.caddy-json"
    ∷ "export.caddyfile" ∷ "import.caddyfile" ∷ "mutation.applied" ∷ "mutation.conflicted"
    ∷ "mutation.proposed" ∷ "mutation.rebase.expired" ∷ "mutation.rebased.auto"
    ∷ "mutation.rebased.manual" ∷ "mutation.rejected" ∷ "mutation.rejected.missing-expected-version"
    ∷ "mutation.submitted" ∷ "policy-preset.attached" ∷ "policy-preset.detached"
    ∷ "policy-preset.upgraded" ∷ "policy.registry-mismatch" ∷ "proposal.approved"
    ∷ "proposal.expired" ∷ "proposal.rejected" ∷ "secrets.master-key-rotated" ∷ "secrets.revealed"
    ∷ "tool-gateway.session-closed" ∷ "tool-gateway.session-opened" ∷ "tool-gateway.tool-invoked"
    ∷ []

-- `AUDIT_KINDS` of storage/audit_vocab.rs
abbrev pub audit_kinds : List String
audit_kinds =
    "auth.bootstrap-credentials-created" ∷ "auth.bootstrap-credentials-rotated"
    ∷ "auth.login-failed" ∷ "auth.login-succeeded" ∷ "auth.logout" ∷ "auth.session-revoked"
    ∷ "caddy.capability-probe-completed" ∷ "caddy.ownership-sentinel-conflict"
    ∷ "caddy.ownership-sentinel-takeover" ∷ "caddy.reconnected" ∷ "caddy.unreachable"
    ∷ "config.applied" ∷ "config.apply-failed" ∷ "config.drift-auto-deferred"
    ∷ "config.drift-deferred" ∷ "config.drift-detected" ∷ "config.drift-resolved"
    ∷ "config.exported" ∷ "config.imported" ∷ "config.rebased" ∷ "config.rolled-back"
    ∷ "docker.socket-trust-grant" ∷ "export.bundle" ∷ "export.caddy-json" ∷ "export.caddyfile"
    ∷ "import.caddyfile" ∷ "mutation.applied" ∷ "mutation.conflicted" ∷ "mutation.proposed"
    ∷ "mutation.rebase.expired" ∷ "mutation.rebased.auto" ∷ "mutation.rebased.manual"
    ∷ "mutation.rejected" ∷ "mutation.rejected.missing-expected-version" ∷ "mutation.submitted"
    ∷ "policy-preset.attached" ∷ "policy-preset.detached" ∷ "policy-preset.upgraded"
    ∷ "policy.registry-mismatch" ∷ "proposal.approved" ∷ "proposal.expired" ∷ "proposal.rejected"
    ∷ "secrets.master-key-fallback-engaged" ∷ "secrets.master-key-rotated" ∷ "secrets.revealed"
    ∷ "system.restore-applied" ∷ "system.restore-cross-machine" ∷ "tool-gateway.session-closed"
    ∷ "tool-gateway.session-opened" ∷ []

abbrev is_lowercase : ℕ → Bool
is_lowercase c = leb b'a' c && leb c b'z'

-- The test of one segment: a lowercase letter, then lowercase letters, digits and dashes.
unfoldable pub segment_ok : String → Bool
segment_ok String.[] = false
segment_ok (String.◌∷◌ c s) =
    is_lowercase (code c) && all_chars (λ x. is_lowercase x || (is_digit x || x == b'-')) s

unfoldable pub all_segments_ok : List String → Bool
unfolding segment_ok
all_segments_ok [] = true
all_segments_ok (s ∷ ss) = segment_ok s && all_segments_ok ss

unfoldable pub validate_audit_kind_pattern : String → Bool
unfolding all_segments_ok
validate_audit_kind_pattern kind =
    contains_char b'.' kind && all_segments_ok (split (λ c. c == b'.') kind)
