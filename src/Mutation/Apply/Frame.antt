-- ===== src/Mutation/Apply/Frame.antt =====
-- What no mutation changes.
use mathlib.Core.List.{◌++◌ as append}
use trilithon.Base.{◌≡◌, List, [], ◌∷◌, none, arith, ok}
use trilithon.Base.BTreeMap.{insert}
use trilithon.Model.Route.{Route}
use trilithon.Model.Upstream.{Upstream}
use trilithon.Model.State.{DesiredState}
use trilithon.Mutation.Types.{Mutation, ParsedCaddyfile, DiffChange}
use trilithon.Mutation.Steps.{
  Serde, route_pointer, upstream_pointer, apply_create_route, apply_route_patch, apply_delete_route,
  apply_create_upstream, apply_upstream_patch, apply_delete_upstream, apply_attach_policy,
  apply_detach_policy, apply_upgrade_policy, apply_set_global_config, apply_set_tls_config,
}
use trilithon.Mutation.Apply.{
  import_upstreams_into, import_routes_into, apply_import_caddyfile, apply_variant,
}

-- The parts that only other components write.
pub record SameFrame (s t : DesiredState) : Type 0 where
  pub version : t.version ≡ s.version
  pub policies : t.policies ≡ s.policies
  pub presets : t.presets ≡ s.presets
  pub unknown_extensions : t.unknown_extensions ≡ s.unknown_extensions

module _ (serde : Serde) where
  upstreams_frame :
      (t : DesiredState) (d : List DiffChange) (l : List Upstream)
      → SameFrame t (import_upstreams_into serde t d l).0
  unfolding import_upstreams_into
  upstreams_frame t d [] = ground arith
  upstreams_frame t d (u ∷ l) = ground (
    arith,
    upstreams_frame (record t { upstreams = insert t.upstreams u.id u })
        (append d
          (record { path = upstream_pointer u.id; before = none; after = serde.upstream u } ∷ []))
        l,
  )

  routes_frame :
      (t : DesiredState) (d : List DiffChange) (l : List Route)
      → SameFrame t (import_routes_into serde t d l).0
  unfolding import_routes_into
  routes_frame t d [] = ground arith
  routes_frame t d (r ∷ l) = ground (
    arith,
    routes_frame (record t { routes = insert t.routes r.id r })
        (append d (record { path = route_pointer r.id; before = none; after = serde.route r } ∷ []))
        l,
  )

  import_frame :
      (t : DesiredState) (p : ParsedCaddyfile) → SameFrame t (apply_import_caddyfile serde t p).0
  unfolding apply_import_caddyfile
  import_frame t p =
      let (u, d) = import_upstreams_into serde t [] p.upstreams in
      ground (arith, upstreams_frame t [] p.upstreams, routes_frame u d p.routes)

  -- A step that succeeds leaves the version of the copy that it changes, the policies, the presets
  -- and the unknown extensions.
  pub apply_variant-SameFrame :
      (s t n : DesiredState) (m : Mutation) (d : List DiffChange)
      → apply_variant serde s t m ≡ ok (n, d)
      → SameFrame t n
  unfolding apply_variant
  apply_variant-SameFrame s t n (Mutation.create_route _ r) d h =
      unfold apply_create_route in ground arith
  apply_variant-SameFrame s t n (Mutation.update_route _ id p) d h =
      unfold apply_route_patch in ground arith
  apply_variant-SameFrame s t n (Mutation.delete_route _ id) d h =
      unfold apply_delete_route in ground arith
  apply_variant-SameFrame s t n (Mutation.create_upstream _ u) d h =
      unfold apply_create_upstream in ground arith
  apply_variant-SameFrame s t n (Mutation.update_upstream _ id p) d h =
      unfold apply_upstream_patch in ground arith
  apply_variant-SameFrame s t n (Mutation.delete_upstream _ id) d h =
      unfold apply_delete_upstream in ground arith
  apply_variant-SameFrame s t n (Mutation.attach_policy _ id preset v) d h =
      unfold apply_attach_policy in ground arith
  apply_variant-SameFrame s t n (Mutation.detach_policy _ id) d h =
      unfold apply_detach_policy in ground arith
  apply_variant-SameFrame s t n (Mutation.upgrade_policy _ id v) d h =
      unfold apply_upgrade_policy in ground arith
  apply_variant-SameFrame s t n (Mutation.set_global_config _ p) d h =
      unfold apply_set_global_config in ground arith
  apply_variant-SameFrame s t n (Mutation.set_tls_config _ p) d h =
      unfold apply_set_tls_config in ground arith
  apply_variant-SameFrame s t n (Mutation.import_from_caddyfile _ p) d h =
      ground (arith, import_frame t p)
  apply_variant-SameFrame s t n _ d h = cc
