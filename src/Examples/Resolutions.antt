-- ===== src/Examples/Resolutions.antt =====
-- The answers of diff/resolve.rs to a drift event.
use trilithon.Base.{◌≡◌, refl, [], ◌∷◌, ok, err}
use trilithon.Base.Int.{pos}
use trilithon.Base.BTreeMap.{get}
use trilithon.Model.Json.{string}
use trilithon.Model.State.{DesiredState, empty}
use trilithon.Mutation.Types.{Mutation, drift_adopt}
use trilithon.Diff.Summary.{ObjectKind}
use trilithon.Diff.Resolve.{
  DriftEvent, ownership_sentinel_path, sentinel_absent, missing_snapshot, adopt_running_state,
  reapply_desired_state, defer_for_manual_reconciliation,
}

abbrev event : DriftEvent
event = record {
  before_snapshot_id = "s1";
  running_state_hash = "00";
  diff_summary = (ObjectKind.route, record { added = 1; removed = 0; modified = 0 }) ∷ [];
  detected_at = pos 1700000000;
  correlation_id = 77;
  redacted_diff_json = "{}";
  redaction_sites = 0;
}

-- The running state, with the sentinel.
abbrev running : DesiredState
running = record empty { unknown_extensions = (ownership_sentinel_path, string "trilithon") ∷ [] }

adopted :
    adopt_running_state event running (pos 4)
    ≡ ok (Mutation.replace_desired_state (pos 4) running (drift_adopt 77))
unfolding adopt_running_state get
adopted = refl

not_adopted :
    adopt_running_state event empty (pos 4) ≡ err (sentinel_absent ownership_sentinel_path)
unfolding adopt_running_state get
not_adopted = refl

never_applied : reapply_desired_state event empty ≡ err (missing_snapshot "s1")
unfolding reapply_desired_state
never_applied = refl

deferred : defer_for_manual_reconciliation event ≡ Mutation.drift_deferred (pos 0) 77
unfolding defer_for_manual_reconciliation
deferred = refl
