-- ===== src/Examples/AuditLog.antt =====
-- Runs of the audit log.
use trilithon.Storage.Sqlite.Tail.{like, kind_like, glob_prefix, is_selected, tail_audit_log}
use trilithon.Storage.Sqlite.Tail.Glob.{means, like-kind_like}
use trilithon.Storage.Sqlite.Tail.Bounded.{Passes, tail_audit_log-bounded}
use trilithon.Storage.Sqlite.Tail.Complete.{Holds, tail_audit_log_complete}
use trilithon.Base.{some, ◌≤◌, inl, arith, All, length, ◌≡◌, refl, String, none, [], ◌∷◌, ok}
use trilithon.Base.Int.{pos}
use trilithon.Base.BTreeMap.{contains}
use trilithon.Model.Json.{Value, field, string, object}
use trilithon.Audit.Event.{validate_audit_kind_pattern}
use trilithon.Base.Text.{split, all_chars, contains_char}
use trilithon.Storage.Types.{AuditEventRow, AuditSelector, user, outcome_ok}
use trilithon.Storage.Tables.{find, order_by, insert_row, select, limit, reversed}
use trilithon.Storage.Sqlite.{Database}
use trilithon.Storage.Sqlite.Audit.{
  Hashing, audit_prev_hash_seed, record_audit_event, validate_kind, violates, next_prev_hash,
  chain_hash, canonical_json_for_audit_hash, verify_audit_chain, verify_from, intact, broken,
}
use trilithon.Storage.Sqlite.Audit.Verified.{
  InTimeOrder, record_audit_event-intact, record_audit_event-forks,
}
use trilithon.Examples.Snapshots.{no_rows}

-- The text of a row is its id.
abbrev id_text : Value → String
id_text
      (object (field _ _ (field _ _ (field _ _ (field _ _ (field _ _ (field _ (string id) _))))))) =
    id
id_text _ = ""

abbrev hashing : Hashing
hashing = record { to_text = id_text; sha256_hex = λ s. s }

abbrev event : AuditEventRow
event = record {
  id = "one";
  prev_hash = "";
  caddy_instance_id = "local";
  correlation_id = "01";
  occurred_at = pos 100;
  occurred_at_ms = pos 100000;
  actor_kind = user;
  actor_id = "ada";
  kind = "config.applied";
  target_kind = none;
  target_id = none;
  snapshot_id = none;
  redacted_diff_json = none;
  redaction_sites = 0;
  outcome = outcome_ok;
  error_kind = none;
  notes = none;
}

abbrev one_row : AuditEventRow
one_row = record event { prev_hash = audit_prev_hash_seed }

abbrev one_event : Database
one_event = record no_rows { audit_log = one_row ∷ [] }

-- The clock was set back.
abbrev early : AuditEventRow
early = record event { id = "two"; occurred_at = pos 99 }

abbrev two_events : Database
two_events = record no_rows { audit_log = record early { prev_hash = "one" } ∷ one_row ∷ [] }

abbrev next : AuditEventRow
next = record event { id = "three"; occurred_at = pos 101 }

abbrev three_events : Database
three_events = record no_rows {
  audit_log = record next { prev_hash = "one" } ∷ record early { prev_hash = "one" } ∷ one_row ∷ [];
}

first_recorded : record_audit_event hashing no_rows event ≡ ok ("one", one_event)
unfolding record_audit_event validate_kind contains validate_audit_kind_pattern contains_char split
    all_chars violates find next_prev_hash order_by
first_recorded = refl

second_recorded : record_audit_event hashing one_event early ≡ ok ("two", two_events)
unfolding record_audit_event validate_kind contains validate_audit_kind_pattern contains_char split
    all_chars violates find next_prev_hash order_by insert_row chain_hash
    canonical_json_for_audit_hash
second_recorded = refl

third_recorded : record_audit_event hashing two_events next ≡ ok ("three", three_events)
unfolding record_audit_event validate_kind contains validate_audit_kind_pattern contains_char split
    all_chars violates find next_prev_hash order_by insert_row chain_hash
    canonical_json_for_audit_hash
third_recorded = refl

record_audit_event-intact_example :
    InTimeOrder one_event.audit_log
    × (verify_audit_chain hashing (reversed one_event.audit_log) ≡ intact)
unfolding reversed verify_audit_chain verify_from
record_audit_event-intact_example =
    record_audit_event-intact hashing no_rows one_event event "one" tt tt refl first_recorded

first_intact : verify_audit_chain hashing (reversed one_event.audit_log) ≡ intact
unfolding reversed verify_audit_chain verify_from
first_intact = refl

record_audit_event-forks_example :
    verify_audit_chain hashing (reversed three_events.audit_log) ≡ broken "three" "two" "one"
unfolding chain_hash canonical_json_for_audit_hash
record_audit_event-forks_example =
    record_audit_event-forks hashing one_event two_events three_events one_row early next [] "two"
      "three" refl (tt, tt) refl first_intact second_recorded third_recorded refl

-- An underscore of a glob is no wildcard.
like-kind_like_example :
    like (kind_like "config_*") "config.applied"
    ≡ means (glob_prefix "config_*") "config_*" "config.applied"
like-kind_like_example = like-kind_like "config_*" "config.applied"

abbrev everything : AuditSelector
everything = record {
  kind_glob = some "config.*";
  actor_id = none;
  correlation_id = none;
  since = none;
  until = none;
  cursor_before = none;
}

tail_audit_log-bounded_example :
    All (Passes everything) (tail_audit_log two_events everything 0)
    × (length (tail_audit_log two_events everything 0) ≤ 1000)
    × (length (tail_audit_log two_events everything 0) ≤ 100)
tail_audit_log-bounded_example = tail_audit_log-bounded two_events everything 0

abbrev of_ada : AuditSelector
of_ada = record everything { kind_glob = none; actor_id = some "ada" }

tail_audit_log_complete_example : Holds one_row (tail_audit_log one_event of_ada 0)
unfolding tail_audit_log select order_by insert_row limit is_selected
tail_audit_log_complete_example =
    tail_audit_log_complete one_event of_ada 0 one_row (inl refl)
      (record {
        not_before = tt;
        is_before = tt;
        correlated = tt;
        by_actor = refl;
        of_kind = tt;
        below = tt;
      })
      (omega arith)
