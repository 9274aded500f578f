-- ===== src/Mutation/Invariant/Steps.antt =====
-- Each step of mutation/apply.rs keeps the invariant, when the mutation's pre-condition holds.
use trilithon.Base.{
  String, ◌≡◌, refl, ℕ, List, false, Option, none, some, ok, ok_or, >>=-eq-ok, ok_or-eq-ok,
  >>-eq-ok, not, refuse_if, ap,
}
use trilithon.Base.Int.{ℤ}
use trilithon.Base.BTreeMap.{get, contains_key, insert, remove}
use trilithon.Base.BTreeMap.Order.{insert-IsSorted, remove-IsSorted}
use trilithon.Model.Route.{Route, RoutePolicyAttachment}
use trilithon.Model.Upstream.{Upstream}
use trilithon.Model.Config.{GlobalConfigPatch, TlsConfigPatch}
use trilithon.Model.State.{DesiredState}
use trilithon.Mutation.Types.{
  RoutePatch, UpstreamPatch, DiffChange, upstream_reference_missing, forbidden, ForbiddenReason,
}
use trilithon.Mutation.Validate.{
  check_create_route, check_update_route, check_delete_upstream, check_unreferenced,
  check_set_tls_config, mentions, invalid_at,
}
use trilithon.Mutation.Patch.{patch_route, patch_upstream, patch_tls}
use trilithon.Mutation.Steps.{
  Serde, missing_route_error, missing_upstream_error, apply_create_route, apply_route_patch,
  apply_delete_route, apply_create_upstream, apply_upstream_patch, apply_delete_upstream,
  set_attachment, apply_attach_policy, apply_detach_policy, apply_upgrade_policy,
  apply_set_global_config, apply_set_tls_config,
}
use trilithon.Mutation.Invariant.{IsRoute, IsUpstream, IsWellFormed}
use trilithon.Mutation.Invariant.Maps.{
  Holds, Holds-insert, Holds-remove, Holds-map, contains_key-insert,
}
use trilithon.Mutation.Invariant.Checks.{check_unreferenced-ok}
use trilithon.Mutation.Invariant.Parts.{
  IsRoute-grow, IsRoute-remove, IsRoute-attachment, check_create_route-ok, check_update_route-ok,
  check_set_tls_config-ok,
}

pub put_route :
    (s : DesiredState) (id : String) (r : Route)
    → IsWellFormed s
    → IsRoute s.upstreams id r
    → IsWellFormed (record s { routes = insert s.routes id r })
put_route s id r w h = record {
  routes_sorted = insert-IsSorted s.routes id r w.routes_sorted;
  upstreams_sorted = w.upstreams_sorted;
  routes = Holds-insert (IsRoute s.upstreams) s.routes id r w.routes h;
  upstreams = w.upstreams;
  ask = w.ask;
}

pub put_upstream :
    (s : DesiredState) (id : String) (u : Upstream)
    → IsWellFormed s
    → IsUpstream id u
    → IsWellFormed (record s { upstreams = insert s.upstreams id u })
put_upstream s id u w h = record {
  routes_sorted = w.routes_sorted;
  upstreams_sorted = insert-IsSorted s.upstreams id u w.upstreams_sorted;
  routes =
      Holds-map (IsRoute s.upstreams) (IsRoute (insert s.upstreams id u)) s.routes
        (IsRoute-grow s.upstreams (insert s.upstreams id u) (contains_key-insert s.upstreams id u))
        w.routes;
  upstreams = Holds-insert IsUpstream s.upstreams id u w.upstreams h;
  ask = w.ask;
}

drop_route :
    (s : DesiredState) (id : String)
    → IsWellFormed s
    → IsWellFormed (record s { routes = remove s.routes id })
drop_route s id w = record {
  routes_sorted = remove-IsSorted s.routes id w.routes_sorted;
  upstreams_sorted = w.upstreams_sorted;
  routes = Holds-remove (IsRoute s.upstreams) s.routes id w.routes;
  upstreams = w.upstreams;
  ask = w.ask;
}

drop_upstream :
    (s : DesiredState) (id : String)
    → IsWellFormed s
    → Holds (λ _ r. mentions r.upstreams id ≡ false) s.routes
    → IsWellFormed (record s { upstreams = remove s.upstreams id })
drop_upstream s id w free = record {
  routes_sorted = w.routes_sorted;
  upstreams_sorted = remove-IsSorted s.upstreams id w.upstreams_sorted;
  routes = λ k r e. IsRoute-remove s.upstreams id k r (free k r e) (w.routes k r e);
  upstreams = Holds-remove IsUpstream s.upstreams id w.upstreams;
  ask = w.ask;
}

-- The version is no part of the invariant.
pub at_version :
    (s : DesiredState) (v : ℤ) → IsWellFormed s → IsWellFormed (record s { version = v })
at_version s v w = record {
  routes_sorted = w.routes_sorted;
  upstreams_sorted = w.upstreams_sorted;
  routes = w.routes;
  upstreams = w.upstreams;
  ask = w.ask;
}

abbrev next : DesiredState → ℤ → DesiredState
next s v = record s { version = v }

module _ (serde : Serde) (s : DesiredState) (v : ℤ) (w : IsWellFormed s) where
  pub delete_route-IsWellFormed :
      (id : String) → IsWellFormed (apply_delete_route serde s (next s v) id).0
  unfolding apply_delete_route
  delete_route-IsWellFormed id = drop_route (next s v) id (at_version s v w)

  pub delete_upstream-IsWellFormed :
      (id : String)
      → check_delete_upstream s id ≡ ok tt
      → IsWellFormed (apply_delete_upstream serde s (next s v) id).0
  unfolding apply_delete_upstream check_delete_upstream
  delete_upstream-IsWellFormed id h = drop_upstream (next s v) id (at_version s v w) (
      check_unreferenced-ok s.routes id
        (>>-eq-ok
          (refuse_if (not (contains_key s.upstreams id))
            (invalid_at upstream_reference_missing "id" "upstream does not exist"))
          (check_unreferenced s.routes id) h).1)

  pub create_route-IsWellFormed :
      (r : Route)
      → check_create_route s r ≡ ok tt
      → IsWellFormed (apply_create_route serde (next s v) r).0
  unfolding apply_create_route
  create_route-IsWellFormed r h =
      put_route (next s v) r.id r (at_version s v w) (check_create_route-ok s r h)

  pub create_upstream-IsWellFormed :
      (u : Upstream) → IsWellFormed (apply_create_upstream serde (next s v) u).0
  unfolding apply_create_upstream
  create_upstream-IsWellFormed u = put_upstream (next s v) u.id u (at_version s v w) refl

  pub set_global_config-IsWellFormed :
      (p : GlobalConfigPatch) → IsWellFormed (apply_set_global_config serde s (next s v) p).0
  unfolding apply_set_global_config
  set_global_config-IsWellFormed p = record {
    routes_sorted = w.routes_sorted;
    upstreams_sorted = w.upstreams_sorted;
    routes = w.routes;
    upstreams = w.upstreams;
    ask = w.ask;
  }

  pub set_tls_config-IsWellFormed :
      (p : TlsConfigPatch)
      → check_set_tls_config p ≡ ok tt
      → IsWellFormed (apply_set_tls_config serde s (next s v) p).0
  unfolding apply_set_tls_config patch_tls
  set_tls_config-IsWellFormed p h = record {
    routes_sorted = w.routes_sorted;
    upstreams_sorted = w.upstreams_sorted;
    routes = w.routes;
    upstreams = w.upstreams;
    ask = check_set_tls_config-ok p s.tls.on_demand_ask_url h w.ask;
  }

  module _ (n : DesiredState) (d : List DiffChange) where
    pub route_patch-IsWellFormed :
        (id : String) (p : RoutePatch)
        → check_update_route s id p ≡ ok tt
        → apply_route_patch serde s (next s v) id p ≡ ok (n, d)
        → IsWellFormed n
    unfolding apply_route_patch
    route_patch-IsWellFormed id p h e =
        let (r, found, same) = >>=-eq-ok (ok_or (get s.routes id) (missing_route_error id)) _ e in
        let at : get s.routes id ≡ some r = ok_or-eq-ok _ (missing_route_error id) found in
        let same_state : record (next s v) { routes = insert s.routes id (patch_route p r) } ≡ n =
          cc in
        rw (← same_state) (
          put_route (next s v) id (patch_route p r) (at_version s v w)
            (check_update_route-ok s id p r h (w.routes id r at)))

    pub upstream_patch-IsWellFormed :
        (id : String) (p : UpstreamPatch)
        → apply_upstream_patch serde s (next s v) id p ≡ ok (n, d)
        → IsWellFormed n
    unfolding apply_upstream_patch patch_upstream
    upstream_patch-IsWellFormed id p e =
        let (u, found, same) =
          >>=-eq-ok (ok_or (get s.upstreams id) (missing_upstream_error id)) _ e in
        let at : get s.upstreams id ≡ some u = ok_or-eq-ok _ (missing_upstream_error id) found in
        let same_state : record (next s v) {
          upstreams = insert s.upstreams id (patch_upstream p u);
        }
            ≡ n =
          cc in
        rw (← same_state)
          (put_upstream (next s v) id (patch_upstream p u) (at_version s v w) (w.upstreams id u at))

    attachment-IsWellFormed :
        (id : String) (r : Route) (a : Option RoutePolicyAttachment)
        → get s.routes id ≡ some r
        → set_attachment serde s (next s v) id r a ≡ (n, d)
        → IsWellFormed n
    unfolding set_attachment
    attachment-IsWellFormed id r a at e = rw (← ap {B = DesiredState} (λ x. x.0) e) (
        put_route (next s v) id (record r { policy_attachment = a }) (at_version s v w)
          (IsRoute-attachment s.upstreams id r a (w.routes id r at)))

    pub attach_policy-IsWellFormed :
        (id preset : String) (k : ℕ)
        → apply_attach_policy serde s (next s v) id preset k ≡ ok (n, d)
        → IsWellFormed n
    unfolding apply_attach_policy
    attach_policy-IsWellFormed id preset k e =
        let (r, found, same) = >>=-eq-ok (ok_or (get s.routes id) (missing_route_error id)) _ e in
        attachment-IsWellFormed id r (some (record { preset_id = preset; preset_version = k }))
          (ok_or-eq-ok _ (missing_route_error id) found) cc

    pub detach_policy-IsWellFormed :
        (id : String) → apply_detach_policy serde s (next s v) id ≡ ok (n, d) → IsWellFormed n
    unfolding apply_detach_policy
    detach_policy-IsWellFormed id e =
        let (r, found, same) = >>=-eq-ok (ok_or (get s.routes id) (missing_route_error id)) _ e in
        attachment-IsWellFormed id r none (ok_or-eq-ok _ (missing_route_error id) found) cc

    pub upgrade_policy-IsWellFormed :
        (id : String) (k : ℕ)
        → apply_upgrade_policy serde s (next s v) id k ≡ ok (n, d)
        → IsWellFormed n
    unfolding apply_upgrade_policy
    upgrade_policy-IsWellFormed id k e =
        let (r, found, e₁) = >>=-eq-ok (ok_or (get s.routes id) (missing_route_error id)) _ e in
        let (a, _, same) =
          >>=-eq-ok
            (ok_or r.policy_attachment (forbidden ForbiddenReason.policy_attachment_missing)) _
            e₁ in
        attachment-IsWellFormed id r (some (record a { preset_version = k }))
          (ok_or-eq-ok _ (missing_route_error id) found) cc
