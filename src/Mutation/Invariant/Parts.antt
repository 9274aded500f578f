-- ===== src/Mutation/Invariant/Parts.antt =====
-- What the checks of a mutation say of the routes that it leaves, and how a route stays valid.
use trilithon.Base.{
  All-map, String, ◌≡◌, refl, true, false, List, [], ◌∷◌, Option, none, some, arith, All, eq_iff,
  ok, >>-eq-ok, Option-cases, inl, inr,
}
use trilithon.Base.BTreeMap.{BTreeMap, contains_key, remove}
use trilithon.Model.Hostname.Exact.{IsHostPattern}
use trilithon.Model.Route.{Route, RoutePolicyAttachment}
use trilithon.Model.Upstream.{Upstream}
use trilithon.Model.Config.{TlsConfigPatch}
use trilithon.Model.State.{DesiredState}
use trilithon.Mutation.Types.{RoutePatch}
use trilithon.Mutation.Cidr.{check_matchers_valid}
use trilithon.Mutation.Cidr.Accepted.{IsCidr, check_matchers_valid-ok}
use trilithon.Mutation.Validate.{
  Check, check_some, check_hostnames_valid, check_upstreams_exist, check_redirect, mentions,
  check_route_id_unused, check_route_has_destination, check_create_route, check_update_route,
  check_route_exists, check_set_tls_config,
}
use trilithon.Mutation.Patch.{patched, patch_route}
use trilithon.Mutation.Invariant.{IsRoute, IsRedirect, IsAsk}
use trilithon.Mutation.Invariant.Maps.{contains_key-remove}
use trilithon.Mutation.Invariant.Checks.{
  check_upstreams_exist-ok, check_hostnames_valid-ok, check_redirect-ok, IsAsk-ok,
}

-- More upstreams keep a route valid.
pub IsRoute-grow :
    (ups more : BTreeMap Upstream)
    → ((u : String) → contains_key ups u ≡ true → contains_key more u ≡ true)
    → (id : String) (r : Route) → IsRoute ups id r
    → IsRoute more id r
IsRoute-grow ups more f id r h = record {
  key = h.key;
  references =
      All-map (λ u. contains_key ups u ≡ true) (λ u. contains_key more u ≡ true) f r.upstreams
        h.references;
  hostnames = h.hostnames;
  remote = h.remote;
  redirect = h.redirect;
}

references-remove :
    (ups : BTreeMap Upstream) (id : String) (l : List String)
    → mentions l id ≡ false
    → All (λ u. contains_key ups u ≡ true) l
    → All (λ u. contains_key (remove ups id) u ≡ true) l
unfolding mentions
references-remove ups id [] n h = tt
references-remove ups id (u ∷ l) n h = (
  contains_key-remove ups id u h.0 (ground (arith, eq_iff id u, eq_iff u id)),
  references-remove ups id l (ground arith) h.1,
)

-- The removal of an upstream that a route does not name keeps it valid.
pub IsRoute-remove :
    (ups : BTreeMap Upstream) (del : String) (id : String) (r : Route)
    → mentions r.upstreams del ≡ false
    → IsRoute ups id r
    → IsRoute (remove ups del) id r
IsRoute-remove ups del id r n h = record {
  key = h.key;
  references = references-remove ups del r.upstreams n h.references;
  hostnames = h.hostnames;
  remote = h.remote;
  redirect = h.redirect;
}

pub IsRoute-attachment :
    (ups : BTreeMap Upstream) (id : String) (r : Route) (a : Option RoutePolicyAttachment)
    → IsRoute ups id r
    → IsRoute ups id (record r { policy_attachment = a })
IsRoute-attachment ups id r a h = record {
  key = h.key;
  references = h.references;
  hostnames = h.hostnames;
  remote = h.remote;
  redirect = h.redirect;
}

pub check_create_route-ok :
    (s : DesiredState) (r : Route) → check_create_route s r ≡ ok tt → IsRoute s.upstreams r.id r
unfolding check_create_route
check_create_route-ok s r h =
    let (_, h₁) = >>-eq-ok (check_route_id_unused s r.id) _ h in
    let (refs, h₂) = >>-eq-ok (check_upstreams_exist s r.upstreams) _ h₁ in
    let (hosts, h₃) = >>-eq-ok (check_hostnames_valid r.hostnames) _ h₂ in
    let (cidrs, h₄) = >>-eq-ok (check_matchers_valid r.matchers) _ h₃ in
    let (_, redirect) = >>-eq-ok (check_route_has_destination r.upstreams r.redirects) _ h₄ in
    record {
      key = refl;
      references = check_upstreams_exist-ok s r.upstreams refs;
      hostnames = check_hostnames_valid-ok r.hostnames hosts;
      remote = check_matchers_valid-ok r.matchers cidrs;
      redirect = check_redirect-ok r.redirects redirect;
    }

-- A patched field satisfies what the check on the patch says, or what the old one did.
patched-ok :
    {A : Type 0} (f : A → Check) (P : A → Type 0)
    → ((a : A) → f a ≡ ok tt → P a)
    → (o : Option A) (old : A) → check_some f o ≡ ok tt
    → P old
    → P (patched o old)
patched-ok f P k none old h p = p
patched-ok f P k (some a) old h p = k a h

pub check_update_route-ok :
    (s : DesiredState) (id : String) (p : RoutePatch) (r : Route)
    → check_update_route s id p ≡ ok tt
    → IsRoute s.upstreams id r
    → IsRoute s.upstreams id (patch_route p r)
unfolding check_update_route patch_route
check_update_route-ok s id p r h old =
    let (_, h₁) = >>-eq-ok (check_route_exists s id) _ h in
    let (refs, h₂) = >>-eq-ok (check_some (check_upstreams_exist s) p.upstreams) _ h₁ in
    let (hosts, h₃) = >>-eq-ok (check_some check_hostnames_valid p.hostnames) _ h₂ in
    let (cidrs, redirect) = >>-eq-ok (check_some check_matchers_valid p.matchers) _ h₃ in
    record {
      key = old.key;
      references =
          patched-ok (check_upstreams_exist s) (All (λ u. contains_key s.upstreams u ≡ true))
            (check_upstreams_exist-ok s) p.upstreams r.upstreams refs old.references;
      hostnames =
          patched-ok check_hostnames_valid (All IsHostPattern) check_hostnames_valid-ok p.hostnames
            r.hostnames hosts old.hostnames;
      remote =
          patched-ok check_matchers_valid (λ m. All IsCidr m.remote) check_matchers_valid-ok
            p.matchers r.matchers cidrs old.remote;
      redirect =
          patched-ok check_redirect IsRedirect check_redirect-ok p.redirects r.redirects redirect
            old.redirect;
    }

-- The ask URL after a patch.
pub check_set_tls_config-ok :
    (p : TlsConfigPatch) (old : Option String)
    → check_set_tls_config p ≡ ok tt
    → IsAsk old
    → IsAsk (patched p.on_demand_ask_url old)
unfolding check_set_tls_config
check_set_tls_config-ok p old h a = elim (Option-cases p.on_demand_ask_url) [
  | inl e ↦ rw e a
  | inr (url, e) ↦ rw e (IsAsk-ok url (rw (e, check_set_tls_config) at h))
]
