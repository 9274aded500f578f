-- ===== src/Mutation/Capability/Loaded.antt =====
-- When the capability check passes, and which module it reports.
use trilithon.Base.{
  String, ◌≡◌, refl, ◌↔◌, ◌⊎◌, inl, inr, true, false, List, [], ◌∷◌, none, some, arith, str_eq,
  eq_iff, eq_refl, Bool-cases, Option-cases, Any, ok, err,
}
use trilithon.Base.Int.{ℤ}
use trilithon.Base.BTreeMap.{BTreeSet, contains, extend}
use trilithon.Base.BTreeMap.Lookup.{contains-extend}
use trilithon.Mutation.Types.{
  Mutation, MutationError, ParsedCaddyfile, kind, capability_missing, CapabilitySet,
}
use trilithon.Model.Route.{Route}
use trilithon.Model.Upstream.{Upstream}
use trilithon.Mutation.Capability.{
  referenced_caddy_modules, first_missing, check_capabilities, create_route_modules,
  create_upstream_modules, import_route_modules, import_upstream_modules,
}

none_missing_iff :
    (loaded mods : BTreeSet)
    → (first_missing loaded mods ≡ none)
      ↔ ((m : String) → contains mods m ≡ true → contains loaded m ≡ true)
unfolding first_missing contains
none_missing_iff loaded [] = (λ h m c. cc, λ h. refl)
none_missing_iff loaded (x ∷ mods) =
    let rest = none_missing_iff loaded mods in
    (
      λ h m c. elim (Bool-cases (contains loaded x)) [
        | inl e ↦ elim (Bool-cases (str_eq x m)) [
          | inl q ↦ rw (← (eq_iff x m).0 q) e
          | inr q ↦ rest.0 (rw e at h) m (rw q at c)
        ]
        | inr e ↦ let missing : some x ≡ none = rw e at h in cc
      ],
      λ h. rw (h x (rw eq_refl)) (rest.1 λ m c. h m (ground (arith))),
    )

missing_is :
    (loaded mods : BTreeSet) (m : String)
    → first_missing loaded mods ≡ some m
    → (contains mods m ≡ true) × (contains loaded m ≡ false)
unfolding first_missing contains
missing_is loaded [] m h = cc
missing_is loaded (x ∷ mods) m h = elim (Bool-cases (contains loaded x)) [
  | inl e ↦ let (a, b) = missing_is loaded mods m (rw e at h) in (ground arith, b)
  | inr e ↦
      let found : some x ≡ some m = rw e at h in
      let same : x ≡ m = cc in rw (← same) (rw eq_refl, e)
]

module _ (m : Mutation) (caps : CapabilitySet) where
  -- The capability check passes exactly when every module that the mutation refers to is loaded.
  pub check_capabilities_iff : (check_capabilities m caps ≡ ok tt) ↔ (
      (x : String)
      → contains (referenced_caddy_modules m) x ≡ true
      → contains caps.loaded_modules x ≡ true)
  unfolding check_capabilities
  check_capabilities_iff =
      let missing = none_missing_iff caps.loaded_modules (referenced_caddy_modules m) in
      (
        λ h.
            missing.0
              (elim (Option-cases
                (first_missing caps.loaded_modules (referenced_caddy_modules m))) [
                  | inl e ↦ e
                  | inr (x, e) ↦ cc (rw (e, check_capabilities) at h)
                ]),
        λ h. rw (missing.1 h, check_capabilities),
      )

  -- A refusal of the capability check names a module that the mutation refers to and that is not loaded, and the kind.
  pub check_capabilities-err :
      (e : MutationError)
      → check_capabilities m caps ≡ err e
      → (x : String) × (e ≡ capability_missing x (kind m))
        × (contains (referenced_caddy_modules m) x ≡ true)
        × (contains caps.loaded_modules x ≡ false)
  unfolding check_capabilities
  check_capabilities-err e h =
      elim (Option-cases (first_missing caps.loaded_modules (referenced_caddy_modules m))) [
        | inl q ↦ cc (rw (q, check_capabilities) at h)
        | inr (x, q) ↦
            let refused : err (capability_missing x (kind m)) ≡ err e =
              rw (q, check_capabilities) at h in
            let same : e ≡ capability_missing x (kind m) = cc in
            let (needed, absent) =
              missing_is caps.loaded_modules (referenced_caddy_modules m) x q in
            (x, same, needed, absent)
      ]

import_routes_modules :
    (l : List Route) (mods : BTreeSet) (x : String)
    → (contains (import_route_modules l mods) x ≡ true)
      ↔ ((contains mods x ≡ true) ⊎ Any (λ r. contains (create_route_modules r) x ≡ true) l)
unfolding import_route_modules
import_routes_modules [] mods x = (λ h. inl h, λ h. elim h [ inl e ↦ e | inr e ↦ absurd e ])
import_routes_modules (r ∷ l) mods x =
    let rest = import_routes_modules l (extend mods (create_route_modules r)) x in
    let joined = contains-extend mods (create_route_modules r) x in
    (λ h. ground (arith, rest, joined), λ h. ground (arith, rest, joined))

import_upstreams_modules :
    (l : List Upstream) (mods : BTreeSet) (x : String)
    → (contains (import_upstream_modules l mods) x ≡ true)
      ↔ ((contains mods x ≡ true) ⊎ Any (λ u. contains (create_upstream_modules u) x ≡ true) l)
unfolding import_upstream_modules
import_upstreams_modules [] mods x = (λ h. inl h, λ h. elim h [ inl e ↦ e | inr e ↦ absurd e ])
import_upstreams_modules (u ∷ l) mods x =
    let rest = import_upstreams_modules l (extend mods (create_upstream_modules u)) x in
    let joined = contains-extend mods (create_upstream_modules u) x in
    (λ h. ground (arith, rest, joined), λ h. ground (arith, rest, joined))

-- An import refers to the modules of its routes and of its upstreams, and to no other.
pub import_modules_iff :
    (v : ℤ) (p : ParsedCaddyfile) (x : String)
    → (contains (referenced_caddy_modules (Mutation.import_from_caddyfile v p)) x ≡ true) ↔ (
        Any (λ r. contains (referenced_caddy_modules (Mutation.create_route v r)) x ≡ true) p.routes
        ⊎ Any
            (λ u. contains (referenced_caddy_modules (Mutation.create_upstream v u)) x ≡ true)
            p.upstreams)
unfolding referenced_caddy_modules contains
import_modules_iff v p x =
    let ups = import_upstreams_modules p.upstreams (import_route_modules p.routes []) x in
    let routes = import_routes_modules p.routes [] x in
    (λ h. ground (arith, ups, routes), λ h. ground (arith, ups, routes))
