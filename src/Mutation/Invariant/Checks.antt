-- ===== src/Mutation/Invariant/Checks.antt =====
-- What the pre-conditions of mutation/validate.rs establish when they pass.
use trilithon.Base.{
  ℕ, suc, String, ◌≡◌, true, false, not, List, [], ◌∷◌, Option, none, some, arith, All, ok,
  >>-eq-ok, refuse_if, refuse_if-eq-ok, not-false, ap, str_eq, Bool-cases, Result-split, inl, inr,
}
use trilithon.Base.BTreeMap.{BTreeMap, contains_key, get}
use trilithon.Model.Hostname.{HostPattern, exact, wildcard, validate_hostname}
use trilithon.Model.Hostname.Exact.{IsHostPattern, raw, validate_hostname_iff}
use trilithon.Model.Route.{Route, RedirectRule}
use trilithon.Model.State.{DesiredState}
use trilithon.Mutation.Url.{check_redirect_url, check_on_demand_ask_url}
use trilithon.Mutation.Url.Accepted.{check_redirect_url_iff, check_on_demand_ask_url_iff}
use trilithon.Mutation.Validate.{
  raw_host, same_variant, check_some, check_hostname, check_hostnames_from, check_hostnames_valid,
  check_upstreams_from, check_upstreams_exist, missing_upstream, check_redirect_status,
  check_redirect, check_unreferenced, mentions, hostname_error, still_referenced,
}
use trilithon.Mutation.Invariant.{IsRedirect, IsAsk}
use trilithon.Mutation.Invariant.Maps.{Holds}

pub check_upstreams_from-ok :
    (s : DesiredState) (i : ℕ) (l : List String)
    → check_upstreams_from s i l ≡ ok tt
    → All (λ u. contains_key s.upstreams u ≡ true) l
unfolding check_upstreams_from
check_upstreams_from-ok s i [] h = tt
check_upstreams_from-ok s i (u ∷ l) h =
    let (a, b) =
      >>-eq-ok (refuse_if (not (contains_key s.upstreams u)) (missing_upstream u i))
        (check_upstreams_from s (suc i) l) h in
    (
      not-false (contains_key s.upstreams u) (refuse_if-eq-ok _ (missing_upstream u i) a),
      check_upstreams_from-ok s (suc i) l b,
    )

pub check_upstreams_exist-ok :
    (s : DesiredState) (l : List String)
    → check_upstreams_exist s l ≡ ok tt
    → All (λ u. contains_key s.upstreams u ≡ true) l
unfolding check_upstreams_exist
check_upstreams_exist-ok s l h = check_upstreams_from-ok s 0 l h

same_pattern : (p q : HostPattern) → raw p ≡ raw_host q → same_variant p q ≡ true → p ≡ q
same_pattern (exact s) (exact t) e h = ap exact e
same_pattern (wildcard s) (wildcard t) e h = ap wildcard e
same_pattern (exact s) (wildcard t) e h = cc
same_pattern (wildcard s) (exact t) e h = cc

accepted_pattern :
    (i : ℕ) (hp : HostPattern)
    → check_hostname i hp ≡ ok tt
    → (p : HostPattern) × (validate_hostname (raw_host hp) ≡ ok p) × (same_variant p hp ≡ true)
unfolding check_hostname hostname_error
accepted_pattern i hp h = elim (Result-split (validate_hostname (raw_host hp))) [
  | inr (e, f) ↦ cc (rw (f, check_hostname) at h)
  | inl (p, f) ↦
      (p, f, not-false (same_variant p hp) (refuse_if-eq-ok _ _ (rw (f, check_hostname) at h)))
]

check_hostname-ok : (i : ℕ) (hp : HostPattern) → check_hostname i hp ≡ ok tt → IsHostPattern hp
check_hostname-ok i hp h =
    let (p, v, same) = accepted_pattern i hp h in
    let (e, valid) = (validate_hostname_iff (raw_host hp) p).0 v in
    rw (← same_pattern p hp e same) valid

check_hostnames_from-ok :
    (i : ℕ) (l : List HostPattern) → check_hostnames_from i l ≡ ok tt → All IsHostPattern l
unfolding check_hostnames_from
check_hostnames_from-ok i [] h = tt
check_hostnames_from-ok i (p ∷ l) h =
    let (a, b) = >>-eq-ok (check_hostname i p) (check_hostnames_from (suc i) l) h in
    (check_hostname-ok i p a, check_hostnames_from-ok (suc i) l b)

pub check_hostnames_valid-ok :
    (l : List HostPattern) → check_hostnames_valid l ≡ ok tt → All IsHostPattern l
unfolding check_hostnames_valid
check_hostnames_valid-ok l h = check_hostnames_from-ok 0 l h

pub check_redirect-ok : (r : Option RedirectRule) → check_redirect r ≡ ok tt → IsRedirect r
unfolding check_redirect check_redirect_status
check_redirect-ok none h = tt
check_redirect-ok (some r) h =
    let (a, b) = >>-eq-ok (check_redirect_url r.to) (check_redirect_status r.status) h in
    ((check_redirect_url_iff r.to).0 a, ground arith)

pub IsAsk-ok : (url : Option String) → check_some check_on_demand_ask_url url ≡ ok tt → IsAsk url
IsAsk-ok none h = tt
IsAsk-ok (some url) h = (check_on_demand_ask_url_iff url).0 h

-- No route names an upstream that may be deleted.
pub check_unreferenced-ok :
    (m : BTreeMap Route) (id : String)
    → check_unreferenced m id ≡ ok tt
    → Holds (λ _ r. mentions r.upstreams id ≡ false) m
unfolding check_unreferenced get
check_unreferenced-ok [] id h k r e = cc
check_unreferenced-ok ((j, w) ∷ m) id h k r e =
    let (a, b) =
      >>-eq-ok (refuse_if (mentions w.upstreams id) (still_referenced id j))
        (check_unreferenced m id) h in
    elim (Bool-cases (str_eq j k)) [
      | inl q ↦
          let same : some w ≡ some r = rw q at e in
          let eq : w ≡ r = cc in
          rw (← eq) (refuse_if-eq-ok (mentions w.upstreams id) (still_referenced id j) a)
      | inr q ↦ check_unreferenced-ok m id b k r (rw q at e)
    ]
