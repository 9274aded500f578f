-- ===== src/Examples/Outcomes.antt =====
-- Runs of `apply_mutation`.
use trilithon.Base.{◌≡◌, refl, none, some, [], ◌∷◌, ok}
use trilithon.Base.Int.{pos}
use trilithon.Audit.Event.{AuditEvent}
use trilithon.Model.Json.{string}
use trilithon.Model.State.{empty}
use trilithon.Mutation.Types.{MutationOutcome}
use trilithon.Examples.Data.{
  serde, state, caps, web, docs, blue, green, create_docs, import_docs, upgrade_web, delete_green,
}
use trilithon.Base.BTreeMap.{contains, extend, get, insert, insert_set, remove}
use trilithon.Base.Int.{checked_suc}
use trilithon.Base.IpAddr.{parse_ipv4, parse_u8, take_digits}
use trilithon.Base.Text.{
  ends_with_char, contains_char, replace_char, split, split_once, strip_prefix,
}
use trilithon.Model.Hostname.{
  check_chars, check_label, check_labels, validate_hostname, validate_labels, validate_pattern,
}
use trilithon.Model.Pointer.{escape_segment, push}
use trilithon.Mutation.Apply.{
  apply_import_caddyfile, apply_mutation, apply_variant, audit_event_for, import_routes_into,
  import_upstreams_into,
}
use trilithon.Mutation.Capability.{
  check_capabilities, create_route_modules, create_upstream_modules, first_missing,
  import_route_modules, import_upstream_modules, referenced_caddy_modules,
}
use trilithon.Mutation.Cidr.{
  check_cidrs, check_matchers_valid, check_prefix, cidr_error, parse_cidr, rsplit_once,
}
use trilithon.Mutation.Steps.{
  apply_create_route, apply_delete_upstream, apply_upgrade_policy, attachment_pointer,
  policy_attachment_preamble, route_pointer, set_attachment, upstream_pointer,
}
use trilithon.Mutation.Types.{expected_version, kind}
use trilithon.Mutation.Url.{check_redirect_url, parse_url_scheme}
use trilithon.Mutation.Validate.{
  attached_policy, check_create_route, check_delete_upstream, check_hostname, check_hostnames_from,
  check_hostnames_valid, check_preset, check_redirect, check_redirect_status,
  check_route_has_destination, check_route_id_unused, check_unreferenced, check_upgrade_policy,
  check_upstreams_exist, check_upstreams_from, is_redirect_status, mentions,
}
use trilithon.Mutation.Validate.Import.{
  check_import_caddyfile, import_references, import_routes, import_upstreams, pre_conditions,
}

-- "docs" is created and takes its place before "web".
abbrev pub docs_created : MutationOutcome
docs_created = record {
  new_state = record state { version = pos 8; routes = ("docs", docs) ∷ ("web", web) ∷ [] };
  diff = record {
    changes = record { path = "/routes/docs"; before = none; after = some (string "docs") } ∷ [];
  };
  audit_event = AuditEvent.mutation_applied;
}

pub create_docs_run : apply_mutation serde state create_docs caps ≡ ok docs_created
unfolding apply_mutation apply_variant expected_version kind checked_suc audit_event_for
    check_capabilities first_missing referenced_caddy_modules insert_set contains extend get insert
    remove pre_conditions route_pointer upstream_pointer push escape_segment replace_char
    validate_hostname validate_pattern validate_labels check_labels check_label check_chars
    strip_prefix contains_char split check_upstreams_exist check_hostnames_valid check_hostname
    check_hostnames_from check_upstreams_from check_route_has_destination check_redirect
    check_redirect_status check_redirect_url parse_url_scheme split_once check_matchers_valid
    check_cidrs parse_cidr rsplit_once parse_u8 take_digits check_prefix parse_ipv4 cidr_error
    is_redirect_status ends_with_char check_create_route check_route_id_unused create_route_modules
    apply_create_route
create_docs_run = refl

-- "docs" and its upstream are imported into the empty state.
abbrev pub docs_imported : MutationOutcome
docs_imported = record {
  new_state = record empty {
    version = pos 1;
    routes = ("docs", docs) ∷ [];
    upstreams = ("green", green) ∷ [];
  };
  diff = record {
    changes =
        record { path = "/upstreams/green"; before = none; after = some (string "green") }
        ∷ record { path = "/routes/docs"; before = none; after = some (string "docs") }
        ∷ [];
  };
  audit_event = AuditEvent.import_caddyfile;
}

pub import_run : apply_mutation serde empty import_docs caps ≡ ok docs_imported
unfolding apply_mutation apply_variant expected_version kind checked_suc audit_event_for
    check_capabilities first_missing referenced_caddy_modules insert_set contains extend get insert
    remove pre_conditions route_pointer upstream_pointer push escape_segment replace_char
    validate_hostname validate_pattern validate_labels check_labels check_label check_chars
    strip_prefix contains_char split check_upstreams_exist check_hostnames_valid check_hostname
    check_hostnames_from check_upstreams_from check_route_has_destination check_redirect
    check_redirect_status check_redirect_url parse_url_scheme split_once check_matchers_valid
    check_cidrs parse_cidr rsplit_once parse_u8 take_digits check_prefix parse_ipv4 cidr_error
    is_redirect_status ends_with_char check_import_caddyfile import_upstreams import_routes
    import_references import_route_modules import_upstream_modules create_route_modules
    create_upstream_modules apply_import_caddyfile import_upstreams_into import_routes_into
import_run = refl

-- The attachment of "web" moves to the current version of its preset.
abbrev pub web_upgraded : MutationOutcome
web_upgraded = record {
  new_state = record state {
    version = pos 8;
    routes =
        (
          "web",
          record web {
            policy_attachment = some (record { preset_id = "public"; preset_version = 2 });
          },
        )
        ∷ [];
  };
  diff = record {
    changes =
        record {
          path = "/routes/web/policy_attachment";
          before = some (string "public");
          after = some (string "public");
        }
        ∷ [];
  };
  audit_event = AuditEvent.policy_preset_upgraded;
}

pub upgrade_run : apply_mutation serde state upgrade_web caps ≡ ok web_upgraded
unfolding apply_mutation apply_variant expected_version kind checked_suc audit_event_for
    check_capabilities first_missing referenced_caddy_modules insert_set contains extend get insert
    remove pre_conditions route_pointer upstream_pointer push escape_segment replace_char
    check_upgrade_policy attached_policy check_preset apply_upgrade_policy set_attachment
    attachment_pointer policy_attachment_preamble
upgrade_run = refl

-- "green" is named by no route and is deleted.
abbrev pub green_deleted : MutationOutcome
green_deleted = record {
  new_state = record state { version = pos 8; upstreams = ("blue", blue) ∷ [] };
  diff = record {
    changes =
        record { path = "/upstreams/green"; before = some (string "green"); after = none } ∷ [];
  };
  audit_event = AuditEvent.mutation_applied;
}

pub delete_run : apply_mutation serde state delete_green caps ≡ ok green_deleted
unfolding apply_mutation apply_variant expected_version kind checked_suc audit_event_for
    check_capabilities first_missing referenced_caddy_modules insert_set contains extend get insert
    remove pre_conditions route_pointer upstream_pointer push escape_segment replace_char
    check_delete_upstream check_unreferenced mentions apply_delete_upstream
delete_run = refl
