-- ===== src/Mutation/Apply/Effect.antt =====
-- What single mutations do when they succeed, and what can never succeed.
use trilithon.Base.{
  ℕ, String, ◌≡◌, refl, ◌<◌, false, List, Option, none, some, ok, ok_or, ok_or-eq-ok, >>-eq-ok,
  >>=-eq-ok, refuse_if-eq-ok, arith, leb, ◌==◌, ==_iff, not-false, str_eq,
}
use trilithon.Base.Int.{ℤ, suc_ℤ}
use trilithon.Base.BTreeMap.{get, insert}
use trilithon.Base.BTreeMap.Lookup.{get-insert, get-insert_self}
use trilithon.Model.Route.{Route, RoutePolicyAttachment}
use trilithon.Model.State.{DesiredState, PresetVersion}
use trilithon.Mutation.Types.{
  Mutation, MutationOutcome, CapabilitySet, forbidden, ForbiddenReason, DiffChange,
}
use trilithon.Mutation.Validate.{check_upgrade_policy, attached_policy, check_preset}
use trilithon.Mutation.Validate.Import.{pre_conditions}
use trilithon.Mutation.Steps.{Serde, missing_route_error, set_attachment, apply_upgrade_policy}
use trilithon.Mutation.Apply.{apply_variant, apply_mutation}
use trilithon.Mutation.Apply.Pipeline.{apply_mutation-Passed}

-- What an upgrade has found, and what it leaves.
pub record Upgraded (s n : DesiredState) (id : String) (to : ℕ) : Type 0 where
  pub route : Route
  pub attachment : RoutePolicyAttachment
  pub preset : PresetVersion
  pub found : get s.routes id ≡ some route
  pub attached : route.policy_attachment ≡ some attachment
  pub registered : get s.presets attachment.preset_id ≡ some preset
  pub current : preset.version ≡ to
  pub upwards : attachment.preset_version < to
  pub result :
      get n.routes id
      ≡ some (record route { policy_attachment = some (record attachment { preset_version = to }) })
  pub others : (j : String) → str_eq id j ≡ false → get n.routes j ≡ get s.routes j

pub attached_policy-ok :
    (o : Option Route) (a : RoutePolicyAttachment)
    → attached_policy o ≡ ok a
    → (r : Route) × (o ≡ some r) × (r.policy_attachment ≡ some a)
unfolding attached_policy
attached_policy-ok none a h = cc
attached_policy-ok (some r) a h = (r, refl, ok_or-eq-ok _ _ h)

preset-ok :
    (member : String) (k : ℕ) (o : Option PresetVersion)
    → check_preset member k o ≡ ok tt
    → (p : PresetVersion) × (o ≡ some p) × (p.version ≡ k)
unfolding check_preset
preset-ok member k none h = cc
preset-ok member k (some p) h =
    (p, refl, (==_iff p.version k).0 (not-false (p.version == k) (refuse_if-eq-ok _ _ h)))

upgrade_checks :
    (s : DesiredState) (id : String) (to : ℕ)
    → check_upgrade_policy s id to ≡ ok tt
    → (r : Route) × (a : RoutePolicyAttachment) × (p : PresetVersion) × (get s.routes id ≡ some r)
      × (r.policy_attachment ≡ some a)
      × (get s.presets a.preset_id ≡ some p)
      × (p.version ≡ to)
      × (a.preset_version < to)
unfolding check_upgrade_policy
upgrade_checks s id to h =
    let (a, found, h₁) = >>=-eq-ok (attached_policy (get s.routes id)) _ h in
    let (r, at, attached) = attached_policy-ok (get s.routes id) a found in
    let (preset, h₂) = >>-eq-ok (check_preset "to_version" to (get s.presets a.preset_id)) _ h₁ in
    let (p, registered, current) = preset-ok "to_version" to (get s.presets a.preset_id) preset in
    let up : leb to a.preset_version ≡ false = refuse_if-eq-ok _ _ h₂ in
    (r, a, p, at, attached, registered, current, ground arith)

module _ (serde : Serde) (s : DesiredState) (caps : CapabilitySet) (o : MutationOutcome) where
  upgrade_step :
      (n : DesiredState) (d : List DiffChange) (v : ℤ) (id : String) (to : ℕ) (r : Route)
      (a : RoutePolicyAttachment)
      → get s.routes id ≡ some r
      → r.policy_attachment ≡ some a
      → apply_upgrade_policy serde s (record s { version = v }) id to ≡ ok (n, d)
      → n.routes
        ≡ insert s.routes id
            (record r { policy_attachment = some (record a { preset_version = to }) })
  unfolding apply_upgrade_policy set_attachment
  upgrade_step n d v id to r a found attached e =
      let (r', found', e₁) = >>=-eq-ok (ok_or (get s.routes id) (missing_route_error id)) _ e in
      let (a', attached', e₂) =
        >>=-eq-ok (ok_or r'.policy_attachment (forbidden ForbiddenReason.policy_attachment_missing))
          _ e₁ in
      let same_route : r' ≡ r = cc (ok_or-eq-ok _ _ found', found) in
      let same : a' ≡ a = cc (ok_or-eq-ok _ _ attached', attached, same_route) in
      let state : record s {
        version = v;
        routes =
            insert s.routes id
              (record r' { policy_attachment = some (record a' { preset_version = to }) });
      }
          ≡ n =
        cc in
      rw (← state) (rw (same_route, same))

  -- An upgrade that succeeds moves the attachment of its route to the current version of the same
  -- preset, which is above the old one, and leaves every other route.
  pub upgrade_policy-Upgraded :
      (v : ℤ) (id : String) (to : ℕ)
      → apply_mutation serde s (Mutation.upgrade_policy v id to) caps ≡ ok o
      → Upgraded s o.new_state id to
  unfolding pre_conditions apply_variant
  upgrade_policy-Upgraded v id to h =
      let passed = apply_mutation-Passed serde s (Mutation.upgrade_policy v id to) caps o h in
      let (r, a, p, found, attached, registered, current, up) =
        upgrade_checks s id to passed.allowed in
      let routes =
        upgrade_step o.new_state o.diff.changes (suc_ℤ s.version) id to r a found attached
          passed.applied in
      record {
        route = r;
        attachment = a;
        preset = p;
        found = found;
        attached = attached;
        registered = registered;
        current = current;
        upwards = up;
        result = rw (routes, get-insert_self);
        others = λ j ne. rw (routes, get-insert, ne);
      }
