-- ===== src/Audit/Vocab.antt =====
-- The wire names of the audit events against the two vocabularies and the pattern.
use trilithon.Base.{
  arith, String, ◌≡◌, ◌≢◌, refl, sym, ◌↔◌, inl, inr, true, false, List, [], ◌∷◌, str_eq, eq_iff,
  Bool-cases, if◌then◌else◌, Result, ok, err, ◌∙◌, Bool, not,
}
use trilithon.Base.BTreeMap.{contains}
use trilithon.Base.Text.{split, all_chars, contains_char}
use trilithon.Audit.Event.{
  AuditEvent, AuditEventParseError, unknown, kind_str, from_str, audit_kind_vocab, audit_kinds,
  validate_audit_kind_pattern, tool_gateway_invoked, segment_ok,
}

-- The events in the order in which `from_str` tries them.
abbrev events : List AuditEvent
events =
    AuditEvent.auth_login_succeeded ∷ AuditEvent.auth_login_failed ∷ AuditEvent.auth_logout
    ∷ AuditEvent.auth_session_revoked ∷ AuditEvent.auth_bootstrap_credentials_rotated
    ∷ AuditEvent.auth_bootstrap_credentials_created ∷ AuditEvent.caddy_capability_probe_completed
    ∷ AuditEvent.caddy_ownership_sentinel_conflict ∷ AuditEvent.caddy_reconnected
    ∷ AuditEvent.caddy_unreachable ∷ AuditEvent.apply_succeeded ∷ AuditEvent.apply_failed
    ∷ AuditEvent.drift_detected ∷ AuditEvent.drift_resolved ∷ AuditEvent.config_rolled_back
    ∷ AuditEvent.drift_deferred ∷ AuditEvent.drift_auto_deferred ∷ AuditEvent.config_rebased
    ∷ AuditEvent.mutation_proposed ∷ AuditEvent.mutation_submitted ∷ AuditEvent.mutation_applied
    ∷ AuditEvent.mutation_conflicted ∷ AuditEvent.mutation_rejected
    ∷ AuditEvent.mutation_rejected_missing_expected_version ∷ AuditEvent.mutation_rebased_auto
    ∷ AuditEvent.mutation_rebased_manual ∷ AuditEvent.mutation_rebase_expired
    ∷ AuditEvent.secrets_revealed ∷ AuditEvent.secrets_master_key_rotated
    ∷ AuditEvent.policy_preset_attached ∷ AuditEvent.policy_preset_detached
    ∷ AuditEvent.policy_preset_upgraded ∷ AuditEvent.policy_registry_mismatch
    ∷ AuditEvent.import_caddyfile ∷ AuditEvent.export_bundle ∷ AuditEvent.export_caddy_json
    ∷ AuditEvent.export_caddyfile ∷ AuditEvent.tool_gateway_session_opened
    ∷ AuditEvent.tool_gateway_session_closed ∷ AuditEvent.tool_gateway_invoked
    ∷ AuditEvent.docker_socket_trust_grant ∷ AuditEvent.proposal_approved
    ∷ AuditEvent.proposal_rejected ∷ AuditEvent.proposal_expired ∷ []

find_event : String → List AuditEvent → Result AuditEventParseError AuditEvent
find_event s [] = err (unknown s)
find_event s (e ∷ es) = if str_eq s (kind_str e) then ok e else find_event s es

find_event-ok :
    (s : String) (l : List AuditEvent) (e : AuditEvent) → find_event s l ≡ ok e → kind_str e ≡ s
unfolding find_event
find_event-ok s [] e h = cc
find_event-ok s (x ∷ l) e h = elim (Bool-cases (str_eq s (kind_str x))) [
  | inl q ↦
      let found : ok x ≡ ok e = rw q at h in
      let same : x ≡ e = cc in rw (← same) (sym ((eq_iff s (kind_str x)).0 q))
  | inr q ↦ find_event-ok s l e (rw q at h)
]

from_str-is_find : (s : String) → from_str s ≡ find_event s events
unfolding from_str find_event kind_str
from_str-is_find s = refl

from_str-kind_str : (e : AuditEvent) → from_str (kind_str e) ≡ ok e
unfolding from_str kind_str
from_str-kind_str AuditEvent.auth_login_succeeded = refl
from_str-kind_str _ = refl

-- A text parses as an event exactly when it is that event's wire name.
pub from_str_iff : (s : String) (e : AuditEvent) → (from_str s ≡ ok e) ↔ (kind_str e ≡ s)
from_str_iff s e = (
  λ h. find_event-ok s events e (sym (from_str-is_find s) ∙ h),
  λ p. rw (← p) (from_str-kind_str e),
)

-- Every wire name is in the vocabulary of event.rs and follows the pattern.
pub kind_str-vocab :
    (e : AuditEvent)
    → (contains audit_kind_vocab (kind_str e) ≡ true)
      × (validate_audit_kind_pattern (kind_str e) ≡ true)
unfolding kind_str contains validate_audit_kind_pattern segment_ok split all_chars contains_char
kind_str-vocab AuditEvent.auth_login_succeeded = (refl, refl)
kind_str-vocab _ = (refl, refl)

is_invoked : AuditEvent → Bool
is_invoked AuditEvent.tool_gateway_invoked = true
is_invoked _ = false

writers_take : (e : AuditEvent) → contains audit_kinds (kind_str e) ≡ not (is_invoked e)
unfolding kind_str contains is_invoked
writers_take AuditEvent.tool_gateway_invoked = refl
writers_take _ = refl

invoked_iff : (e : AuditEvent) → (is_invoked e ≡ true) ↔ (e ≡ tool_gateway_invoked)
unfolding is_invoked
invoked_iff AuditEvent.tool_gateway_invoked = (λ h. refl, λ h. refl)
invoked_iff _ = (λ h. cc, λ h. cc)

-- The writers' vocabulary has the wire name of every event but that of a tool's invocation.
pub audit_kinds_iff :
    (e : AuditEvent) → (contains audit_kinds (kind_str e) ≡ true) ↔ (e ≢ tool_gateway_invoked)
audit_kinds_iff e = (
  λ h. ground (arith, writers_take e, invoked_iff e),
  λ h. ground (arith, writers_take e, invoked_iff e),
)
