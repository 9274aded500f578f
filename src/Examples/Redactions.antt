-- ===== src/Examples/Redactions.antt =====
-- The redaction of a small value, and the theorems at it.
use trilithon.Base.{◌≡◌, refl, String, ok, arith}
use trilithon.Base.Text.{replace_char, split, strip_prefix}
use trilithon.Model.Json.{Value, string, object, end, field}
use trilithon.Model.Pointer.{root, push, escape_segment, unescape_segment, replace_pair}
use trilithon.Audit.Redactor.{
  RedactionResult, tier_1_secret_fields, is_secret_field, decoded_segments, segments_match,
  redact_leaf, prefix_of, walk, self_check, redact,
}
use trilithon.Audit.Redactor.Safe.{IsRedaction}
use trilithon.Audit.Redactor.Checked.{NoPlaintext, redact-NoPlaintext}
use trilithon.Audit.Redactor.Shallow.{IsShallow, redact-IsShallow}

abbrev hash : String → String
hash s = "0123456789abcdef"

-- A private key and its path on disk.
abbrev tls : Value
tls = object (
    field "tls"
      (object (field "private_key" (string "secret") (field "path" (string "/key.pem") end))) end)

abbrev tls_redacted : RedactionResult
tls_redacted = record {
  value = object (
      field "tls"
        (object
          (field "private_key" (string "***0123456789ab") (field "path" (string "/key.pem") end)))
        end);
  sites = 1;
}

tls_run : redact tier_1_secret_fields hash tls ≡ ok tls_redacted
unfolding redact walk self_check is_secret_field decoded_segments segments_match redact_leaf
    prefix_of push escape_segment unescape_segment replace_pair replace_char split strip_prefix
tls_run = refl

redact-NoPlaintext_example :
    NoPlaintext tier_1_secret_fields tls_redacted.value root
    × IsRedaction tier_1_secret_fields hash tls tls_redacted.value root
redact-NoPlaintext_example = redact-NoPlaintext tier_1_secret_fields hash tls tls_redacted tls_run

shallow : IsShallow tls 0
unfolding IsShallow
shallow = (omega arith, ((omega arith, (omega arith, (omega arith, tt))), tt))

redact-IsShallow_example : (r : RedactionResult) × (redact tier_1_secret_fields hash tls ≡ ok r)
redact-IsShallow_example = redact-IsShallow tier_1_secret_fields hash tls shallow
