-- ===== src/Mutation/Steps.antt =====
-- mutation/apply.rs: what each mutation does to the state, and the changes that it reports. A
-- function that changes `new_state` returns it. `get_mut` and a write is `get` and `insert`.
use Prim.Native.String.{◌++◌}
use trilithon.Base.{
  ℕ, Bool, List, [], ◌∷◌, Option, none, some, if◌then◌else◌, Result, ok, ◌>>=◌, ok_or,
}
use trilithon.Base.BTreeMap.{get, insert, remove}
use trilithon.Model.Json.{Value}
use trilithon.Model.Pointer.{JsonPointer, root, push}
use trilithon.Model.Identifier.{RouteId, UpstreamId, PresetId}
use trilithon.Model.Route.{RoutePolicyAttachment, Route}
use trilithon.Model.Upstream.{Upstream}
use trilithon.Model.Config.{GlobalConfig, GlobalConfigPatch, TlsConfig, TlsConfigPatch}
use trilithon.Model.State.{DesiredState}
use trilithon.Mutation.Types.{
  RoutePatch, UpstreamPatch, MutationError, forbidden, validation, route_missing,
  upstream_reference_missing, DiffChange, ForbiddenReason,
}
use trilithon.Mutation.Patch.{patch_route, patch_upstream, patch_global, patch_tls}

-- serde: the serialisers that `derive(Serialize)` generates, `none` for an error, and `==` of
-- `serde_json::Value`.
pub record Serde : Type 0 where
  pub route : Route → Option Value
  pub upstream : Upstream → Option Value
  pub attachment : RoutePolicyAttachment → Option Value
  pub global : GlobalConfig → Option Value
  pub tls : TlsConfig → Option Value
  pub eq : Value → Value → Bool

unfoldable pub missing_route_error : RouteId → MutationError
missing_route_error id =
    validation route_missing (push root "route_id") ("route '" ++ (id ++ "' does not exist"))

unfoldable pub missing_upstream_error : UpstreamId → MutationError
missing_upstream_error id =
    validation upstream_reference_missing (push root "id")
      ("upstream '" ++ (id ++ "' does not exist"))

unfoldable pub route_pointer : RouteId → JsonPointer
route_pointer id = push (push root "routes") id

unfoldable pub upstream_pointer : UpstreamId → JsonPointer
upstream_pointer id = push (push root "upstreams") id

unfoldable pub attachment_pointer : RouteId → JsonPointer
unfolding route_pointer
attachment_pointer id = push (route_pointer id) "policy_attachment"

abbrev pub and_then : {A B : Type 0} → Option A → (A → Option B) → Option B
and_then none f = none
and_then (some a) f = f a

abbrev pub attachment_of : Option Route → Option RoutePolicyAttachment
attachment_of route = and_then route (λ r. r.policy_attachment)

-- What a step leaves: `new_state` and the changes.
abbrev pub Applied : Type 0
Applied = DesiredState × List DiffChange

module _ (serde : Serde) where
  unfoldable pub apply_create_route : DesiredState → Route → Applied
  apply_create_route new_state route = (
    record new_state { routes = insert new_state.routes route.id route },
    record { path = route_pointer route.id; before = none; after = serde.route route } ∷ [],
  )

  unfoldable pub apply_delete_route : DesiredState → DesiredState → RouteId → Applied
  apply_delete_route state new_state id = (
    record new_state { routes = remove new_state.routes id },
    record {
      path = route_pointer id;
      before = and_then (get state.routes id) serde.route;
      after = none;
    }
        ∷ [],
  )

  unfoldable pub apply_create_upstream : DesiredState → Upstream → Applied
  apply_create_upstream new_state upstream = (
    record new_state { upstreams = insert new_state.upstreams upstream.id upstream },
    record { path = upstream_pointer upstream.id; before = none; after = serde.upstream upstream }
        ∷ [],
  )

  unfoldable pub apply_delete_upstream : DesiredState → DesiredState → UpstreamId → Applied
  apply_delete_upstream state new_state id = (
    record new_state { upstreams = remove new_state.upstreams id },
    record {
      path = upstream_pointer id;
      before = and_then (get state.upstreams id) serde.upstream;
      after = none;
    }
        ∷ [],
  )

  unfoldable pub policy_attachment_preamble : DesiredState → RouteId → JsonPointer × Option Value
  policy_attachment_preamble state route_id = (
    attachment_pointer route_id,
    and_then (attachment_of (get state.routes route_id)) serde.attachment,
  )

  -- The route that `get_mut` finds gets an attachment, and the change is reported.
  unfoldable pub set_attachment :
      DesiredState → DesiredState → RouteId → Route → Option RoutePolicyAttachment → Applied
  unfolding policy_attachment_preamble
  set_attachment state new_state route_id route attachment =
      let (pointer, before) = policy_attachment_preamble state route_id in
      (
        record new_state {
          routes =
              insert new_state.routes route_id (record route { policy_attachment = attachment });
        },
        record { path = pointer; before = before; after = and_then attachment serde.attachment }
            ∷ [],
      )

  unfoldable pub apply_attach_policy :
      DesiredState → DesiredState → RouteId → PresetId → ℕ → Result MutationError Applied
  unfolding set_attachment
  apply_attach_policy state new_state route_id preset_id preset_version = do
    route ← ok_or (get new_state.routes route_id) (missing_route_error route_id)
    ok (
        set_attachment state new_state route_id route
          (some (record { preset_id = preset_id; preset_version = preset_version })))

  unfoldable pub apply_detach_policy :
      DesiredState → DesiredState → RouteId → Result MutationError Applied
  unfolding set_attachment
  apply_detach_policy state new_state route_id = do
    route ← ok_or (get new_state.routes route_id) (missing_route_error route_id)
    ok (set_attachment state new_state route_id route none)

  unfoldable pub apply_upgrade_policy :
      DesiredState → DesiredState → RouteId → ℕ → Result MutationError Applied
  unfolding set_attachment
  apply_upgrade_policy state new_state route_id to_version = do
    route ← ok_or (get new_state.routes route_id) (missing_route_error route_id)
    attachment ← ok_or route.policy_attachment (forbidden ForbiddenReason.policy_attachment_missing)
    ok (
        set_attachment state new_state route_id route
          (some (record attachment { preset_version = to_version })))

  -- `before == after` on optional values
  abbrev pub same_value : Option Value → Option Value → Bool
  same_value none none = Bool.true
  same_value (some a) (some b) = serde.eq a b
  same_value _ _ = Bool.false

  -- The change of a configuration, if its serialised form changed.
  unfoldable pub config_change : JsonPointer → Option Value → Option Value → List DiffChange
  config_change pointer before after =
      if same_value before after
      then []
      else record { path = pointer; before = before; after = after } ∷ []

  unfoldable pub apply_set_global_config : DesiredState → DesiredState → GlobalConfigPatch → Applied
  unfolding config_change
  apply_set_global_config state new_state patch =
      let global = patch_global patch new_state.global in
      (
        record new_state { global = global },
        config_change (push root "global") (serde.global state.global) (serde.global global),
      )

  unfoldable pub apply_set_tls_config : DesiredState → DesiredState → TlsConfigPatch → Applied
  unfolding config_change
  apply_set_tls_config state new_state patch =
      let tls = patch_tls patch new_state.tls in
      (
        record new_state { tls = tls },
        config_change (push root "tls") (serde.tls state.tls) (serde.tls tls),
      )

  unfoldable pub apply_route_patch :
      DesiredState → DesiredState → RouteId → RoutePatch → Result MutationError Applied
  apply_route_patch state new_state id patch = do
    route ← ok_or (get new_state.routes id) (missing_route_error id)
    ok (
      record new_state { routes = insert new_state.routes id (patch_route patch route) },
      record {
        path = route_pointer id;
        before = and_then (get state.routes id) serde.route;
        after = serde.route (patch_route patch route);
      }
          ∷ [],
    )

  unfoldable pub apply_upstream_patch :
      DesiredState → DesiredState → UpstreamId → UpstreamPatch → Result MutationError Applied
  apply_upstream_patch state new_state id patch = do
    upstream ← ok_or (get new_state.upstreams id) (missing_upstream_error id)
    ok (
      record new_state {
        upstreams = insert new_state.upstreams id (patch_upstream patch upstream);
      },
      record {
        path = upstream_pointer id;
        before = and_then (get state.upstreams id) serde.upstream;
        after = serde.upstream (patch_upstream patch upstream);
      }
          ∷ [],
    )
