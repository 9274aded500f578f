-- ===== src/Diff/Resolve.antt =====
-- diff/resolve.rs: the three answers to a drift event, with `DriftEvent` of
-- diff.rs.
use trilithon.Base.{
  ℕ, String, ◌≡◌, refl, ◌⊎◌, inl, inr, true, not, if◌then◌else◌, Result, ok, err, ◌>>◌, refuse_if,
  Bool-cases,
}
use trilithon.Base.Int.{ℤ, pos, ◌==ℤ◌}
use trilithon.Base.BTreeMap.{contains_key}
use trilithon.Diff.Summary.{Summary}
use trilithon.Model.Pointer.{JsonPointer}
use trilithon.Model.State.{DesiredState}
use trilithon.Mutation.Types.{
  SnapshotId, Ulid, drift_adopt, drift_reapply, Mutation, CapabilitySet, forbidden,
  rollback_target_unknown, conflict, expected_version, kind,
}
use trilithon.Mutation.Steps.{Serde}
use trilithon.Mutation.Apply.{apply_mutation}
use trilithon.Mutation.Apply.Order.{is_reserved, apply_mutation-reserved}

pub record DriftEvent : Type 0 where
  pub before_snapshot_id : SnapshotId
  pub running_state_hash : String
  pub diff_summary : Summary
  pub detected_at : ℤ
  pub correlation_id : Ulid
  pub redacted_diff_json : String
  pub redaction_sites : ℕ  -- u32

pub data ResolveError : Type 0 where
  unparseable_running : JsonPointer → ResolveError
  missing_snapshot : SnapshotId → ResolveError
  sentinel_absent : JsonPointer → ResolveError

abbrev pub ownership_sentinel_path : JsonPointer
ownership_sentinel_path = "/storage/trilithon-owner"

unfoldable pub adopt_running_state : DriftEvent → DesiredState → ℤ → Result ResolveError Mutation
adopt_running_state event running_state desired_version = do
  refuse_if (not (contains_key running_state.unknown_extensions ownership_sentinel_path))
      (sentinel_absent ownership_sentinel_path)
  ok (
      Mutation.replace_desired_state desired_version running_state
        (drift_adopt event.correlation_id))

unfoldable pub reapply_desired_state : DriftEvent → DesiredState → Result ResolveError Mutation
reapply_desired_state event desired_state = do
  refuse_if (desired_state.version ==ℤ pos 0) (missing_snapshot event.before_snapshot_id)
  ok (
      Mutation.reapply_snapshot desired_state.version event.before_snapshot_id
        (drift_reapply event.correlation_id))

unfoldable pub defer_for_manual_reconciliation : DriftEvent → Mutation
defer_for_manual_reconciliation event = Mutation.drift_deferred (pos 0) event.correlation_id

-- The mutation answers the event, for a desired state.
abbrev pub IsAnswer : DriftEvent → DesiredState → DesiredState → Mutation → Type 0
IsAnswer event running s m =
    (adopt_running_state event running s.version ≡ ok m)
    ⊎ ((reapply_desired_state event s ≡ ok m) ⊎ (defer_for_manual_reconciliation event ≡ m))

ok_kind :
    (a b : Mutation)
    → is_reserved (kind a) ≡ true
    → ◌≡◌ {A = Result ResolveError Mutation} (ok a) (ok b)
    → is_reserved (kind b) ≡ true
ok_kind a b k e = let same : a ≡ b = cc in rw (← same) k

-- The kind of an answer is reserved.
answer_kind :
    (event : DriftEvent) (running s : DesiredState) (m : Mutation)
    → IsAnswer event running s m
    → is_reserved (kind m) ≡ true
unfolding adopt_running_state reapply_desired_state defer_for_manual_reconciliation kind
answer_kind event running s m (inl h) =
    elim (Bool-cases (contains_key running.unknown_extensions ownership_sentinel_path)) [
      | inl e ↦ ok_kind _ m refl (rw e at h)
      | inr e ↦ cc (rw e at h)
    ]
answer_kind event running s m (inr (inl h)) = elim (Bool-cases (s.version ==ℤ pos 0)) [
  | inl e ↦ cc (rw e at h)
  | inr e ↦ ok_kind _ m refl (rw e at h)
]
answer_kind event running s m (inr (inr h)) = rw (← h) refl

-- `apply_mutation` refuses the mutations that the three answers to a drift event give, as an unknown
-- target on the state's version and as a conflict on another.
pub answer-refused :
    (serde : Serde) (event : DriftEvent) (running s : DesiredState) (m : Mutation)
    (caps : CapabilitySet)
    → IsAnswer event running s m
    → apply_mutation serde s m caps
      ≡ err (
          if expected_version m ==ℤ s.version
          then forbidden rollback_target_unknown
          else conflict s.version (expected_version m))
answer-refused serde event running s m caps h =
    apply_mutation-reserved serde s m caps (answer_kind event running s m h)
