-- ===== src/Examples/Audits.antt =====
-- The theorems on audit events at concrete events.
use trilithon.Base.{◌≡◌, ◌↔◌, ◌≢◌, true}
use trilithon.Base.BTreeMap.{contains}
use trilithon.Audit.Event.{kind_str, audit_kinds, tool_gateway_invoked}
use trilithon.Audit.Vocab.{audit_kinds_iff}

audit_kinds_iff_example :
    (contains audit_kinds (kind_str tool_gateway_invoked) ≡ true)
    ↔ (tool_gateway_invoked ≢ tool_gateway_invoked)
audit_kinds_iff_example = audit_kinds_iff tool_gateway_invoked
