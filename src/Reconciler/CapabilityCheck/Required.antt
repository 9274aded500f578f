-- ===== src/Reconciler/CapabilityCheck/Required.antt =====
-- The modules that a state needs, and the check against them.
use Prim.Native.String.{◌++◌}
use trilithon.Base.{
  String, Bool, true, false, not, ◌||◌, List, [], ◌∷◌, if◌then◌else◌, is_some, is_empty, Result, ok,
  ◌>>◌, ◌≡◌, refl, ◌↔◌, All, >>-eq-ok, arith,
}
use trilithon.Base.BTreeMap.{BTreeMap, contains}
use trilithon.Model.Json.{Value}
use trilithon.Model.Route.{Route}
use trilithon.Model.State.{DesiredState}
use trilithon.Mutation.Types.{CapabilitySet}
use trilithon.Reconciler.CapabilityCheck.{
  CapabilityCheckError, require, require_if, require_all, attachment_modules, check_route,
  check_routes, check_against_capability_set,
}

abbrev pub IsLoaded : CapabilitySet → String → Type 0
IsLoaded capabilities m = contains capabilities.loaded_modules m ≡ true

-- The module is loaded, if the test passes.
abbrev pub LoadedIf : Bool → CapabilitySet → String → Type 0
LoadedIf true capabilities m = IsLoaded capabilities m
LoadedIf false capabilities m = Unit

require_iff : (c : CapabilitySet) (m site : String) → (require c m site ≡ ok tt) ↔ IsLoaded c m
unfolding require
require_iff c m site = (λ h. ground arith, λ h. ground arith)

require_if_iff :
    (test : Bool) (c : CapabilitySet) (m site : String)
    → (require_if test c m site ≡ ok tt) ↔ LoadedIf test c m
require_if_iff true c m site = require_iff c m site
require_if_iff false c m site = (λ h. tt, λ h. refl)

require_all_iff :
    (c : CapabilitySet) (ms : List String) (site : String)
    → (require_all c ms site ≡ ok tt) ↔ All (IsLoaded c) ms
unfolding require_all
require_all_iff c [] site = (λ h. tt, λ h. refl)
require_all_iff c (m ∷ ms) site = (
  λ h.
      let (one, rest) = >>-eq-ok (require c m site) (require_all c ms site) h in
      ((require_iff c m site).0 one, (require_all_iff c ms site).0 rest),
  λ h. rw ((require_iff c m site).1 h.0) ((require_all_iff c ms site).1 h.1),
)

module _ (parse : String → Result String Value) where
  -- What a route needs: the proxy for its upstreams, the header module for its header rules, the
  -- static response for its redirect, and the modules of the policy that it attaches.
  pub record HasModules (state : DesiredState) (c : CapabilitySet) (r : Route) : Type 0 where
    pub proxy : LoadedIf (not (is_empty r.upstreams)) c "http.handlers.reverse_proxy"
    pub headers :
        LoadedIf
          (not (is_empty r.headers.request) || not (is_empty r.headers.response))
          c
          "http.handlers.headers"
    pub redirect : LoadedIf (is_some r.redirects) c "http.handlers.static_response"
    pub policy : All (IsLoaded c) (attachment_modules parse r.policy_attachment state)

  check_route_iff :
      (r : Route) (state : DesiredState) (c : CapabilitySet) (site : String)
      → (check_route parse r state c site ≡ ok tt) ↔ HasModules state c r
  unfolding check_route
  check_route_iff r state c site = (
    λ h.
        let (a, ra) =
          >>-eq-ok (require_if (not (is_empty r.upstreams)) c "http.handlers.reverse_proxy" site) _
            h in
        let (b, rb) =
          >>-eq-ok
            (require_if (not (is_empty r.headers.request) || not (is_empty r.headers.response)) c
              "http.handlers.headers" site)
            _ ra in
        let (d, rd) =
          >>-eq-ok (require_if (is_some r.redirects) c "http.handlers.static_response" site) _ rb in
        record {
          proxy = (require_if_iff (not (is_empty r.upstreams)) c _ site).0 a;
          headers =
              (require_if_iff
                  (not (is_empty r.headers.request) || not (is_empty r.headers.response)) c _
                  site).0
                b;
          redirect = (require_if_iff (is_some r.redirects) c _ site).0 d;
          policy =
              (require_all_iff c (attachment_modules parse r.policy_attachment state) site).0 rd;
        },
    λ h.
        rw
          (
            (require_if_iff (not (is_empty r.upstreams)) c "http.handlers.reverse_proxy" site).1
                h.proxy,
            (require_if_iff (not (is_empty r.headers.request) || not (is_empty r.headers.response))
                  c "http.handlers.headers" site).1
                h.headers,
            (require_if_iff (is_some r.redirects) c "http.handlers.static_response" site).1
                h.redirect,
          )
          ((require_all_iff c (attachment_modules parse r.policy_attachment state) site).1
            h.policy),
  )

  -- An enabled route has its modules; a disabled one needs none.
  abbrev pub When : Bool → Type 0 → Type 0
  When true P = P
  When false P = Unit

  check_routes_iff :
      (rows : BTreeMap Route) (state : DesiredState) (c : CapabilitySet)
      → (check_routes parse rows state c ≡ ok tt)
        ↔ All (λ e. When e.1.enabled (HasModules state c e.1)) rows
  unfolding check_routes
  check_routes_iff [] state c = (λ h. tt, λ h. refl)
  check_routes_iff ((id, r) ∷ rows) state c =
      let rest = check_routes_iff rows state c in
      let one = check_route_iff r state c ("/routes/" ++ id) in split_enabled r.enabled one rest
    where
      split_enabled :
          {P Q : Type 0} {m k : Result CapabilityCheckError (Unit {0})} (b : Bool)
          → ((m ≡ ok tt) ↔ P)
          → ((k ≡ ok tt) ↔ Q)
          → ((if b then m >> k else k) ≡ ok tt) ↔ (When b P × Q)
      split_enabled {P} {Q} {m} {k} true one rest = (
        λ h. let (a, b) = >>-eq-ok m k h in (one.0 a, rest.0 b),
        λ h. rw (one.1 h.0) (rest.1 h.1),
      )
      split_enabled false one rest = (λ h. (tt, rest.0 h), λ h. rest.1 h.1)

  -- The check passes exactly when every enabled route of the state has all its modules loaded.
  pub check_against_capability_set_iff :
      (state : DesiredState) (c : CapabilitySet)
      → (check_against_capability_set parse state c ≡ ok tt)
        ↔ All (λ e. When e.1.enabled (HasModules state c e.1)) state.routes
  unfolding check_against_capability_set
  check_against_capability_set_iff state c = check_routes_iff state.routes state c
