-- ===== src/Mutation/Apply/Conflict.antt =====
-- Only the first test of `apply_mutation` reports a conflict.
use mathlib.Core.Path.{subst, ap₂}
use trilithon.Base.{
  sym, ◌∙◌, ℕ, suc, ◌≡◌, ◌≢◌, ◌↔◌, String, true, false, Option, none, some, List, [], ◌∷◌, arith,
  Result, ◌>>=◌, ok, err, ok_or, Bool-cases, inl, inr,
}
use trilithon.Base.Int.{ℤ, ◌==ℤ◌, ==ℤ_iff}
use trilithon.Base.BTreeMap.{BTreeMap, BTreeSet, insert_set}
use trilithon.Model.Hostname.{HostPattern}
use trilithon.Model.Route.{Route, RedirectRule}
use trilithon.Model.Upstream.{Upstream}
use trilithon.Model.State.{DesiredState}
use trilithon.Mutation.Types.{
  Mutation, RoutePatch, ParsedCaddyfile, MutationError, CapabilitySet, conflict, expected_version,
}
use trilithon.Mutation.Capability.{check_capabilities}
use trilithon.Mutation.Url.{
  check_redirect_url, check_on_demand_ask_url, ask_url_error, redirect_error,
}
use trilithon.Mutation.Cidr.{check_matchers_valid, check_cidrs, cidr_error}
use trilithon.Mutation.Validate.{
  Check, check_some, check_route_id_unused, check_route_exists, check_upstreams_from,
  check_upstreams_exist, check_hostname, check_hostnames_from, check_hostnames_valid,
  check_route_has_destination, check_redirect_status, check_redirect, check_create_route,
  check_update_route, check_preset, check_attach_policy, attached_policy, check_detach_policy,
  check_upgrade_policy, check_unreferenced, check_delete_upstream, check_create_upstream,
  check_update_upstream, check_set_global_config, check_set_tls_config, missing_upstream,
  hostname_error, still_referenced,
}
use trilithon.Mutation.Steps.{
  Serde, missing_route_error, missing_upstream_error, apply_route_patch, apply_upstream_patch,
  apply_attach_policy, apply_detach_policy, apply_upgrade_policy,
}
use trilithon.Mutation.Apply.{apply_variant, apply_mutation}
use trilithon.Mutation.Validate.Import.{
  import_upstreams, import_references, import_routes, check_import_caddyfile, pre_conditions,
}

-- The result is no conflict.
abbrev Quiet : {A : Type 0} → Result MutationError A → Type 0
Quiet (err (conflict _ _)) = ⊥
Quiet _ = Unit

matchers-Quiet : (i : ℕ) (l : List String) → Quiet (check_cidrs i l)
unfolding check_cidrs cidr_error
matchers-Quiet i [] = tt
matchers-Quiet i (c ∷ l) = ground (arith, matchers-Quiet (suc i) l)

upstreams-Quiet : (s : DesiredState) (i : ℕ) (l : List String) → Quiet (check_upstreams_from s i l)
unfolding check_upstreams_from missing_upstream
upstreams-Quiet s i [] = tt
upstreams-Quiet s i (c ∷ l) = ground (arith, upstreams-Quiet s (suc i) l)

hostname-Quiet : (i : ℕ) (p : HostPattern) → Quiet (check_hostname i p)
unfolding check_hostname hostname_error
hostname-Quiet i p = ground arith

hostnames-Quiet : (i : ℕ) (l : List HostPattern) → Quiet (check_hostnames_from i l)
unfolding check_hostnames_from
hostnames-Quiet i [] = tt
hostnames-Quiet i (p ∷ l) = ground (arith, hostname-Quiet i p, hostnames-Quiet (suc i) l)

redirect-Quiet : (r : Option RedirectRule) → Quiet (check_redirect r)
unfolding check_redirect check_redirect_url check_redirect_status redirect_error
redirect-Quiet r = ground arith

ask_url-Quiet : (url : String) → Quiet (check_on_demand_ask_url url)
unfolding check_on_demand_ask_url ask_url_error
ask_url-Quiet url = ground arith

unreferenced-Quiet : (m : BTreeMap Route) (id : String) → Quiet (check_unreferenced m id)
unfolding check_unreferenced still_referenced
unreferenced-Quiet [] id = tt
unreferenced-Quiet (r ∷ m) id = ground (arith, unreferenced-Quiet m id)

import_upstreams-Quiet :
    (s : DesiredState) (seen : BTreeSet) (l : List Upstream) → Quiet (import_upstreams s seen l)
unfolding import_upstreams
import_upstreams-Quiet s seen [] = tt
import_upstreams-Quiet s seen (u ∷ l) =
    ground (arith, import_upstreams-Quiet s (insert_set seen u.id) l)

references-Quiet :
    (s : DesiredState) (seen : BTreeSet) (l : List String) → Quiet (import_references s seen l)
unfolding import_references
references-Quiet s seen [] = tt
references-Quiet s seen (u ∷ l) = ground (arith, references-Quiet s seen l)

destination-Quiet :
    (l : List String) (r : Option RedirectRule) → Quiet (check_route_has_destination l r)
unfolding check_route_has_destination
destination-Quiet l r = ground arith

import_routes-Quiet :
    (s : DesiredState) (seen seen_upstreams : BTreeSet) (l : List Route)
    → Quiet (import_routes s seen seen_upstreams l)
unfolding import_routes check_hostnames_valid check_matchers_valid
import_routes-Quiet s seen su [] = tt
import_routes-Quiet s seen su (r ∷ l) = ground (
  arith,
  hostnames-Quiet 0 r.hostnames,
  matchers-Quiet 0 r.matchers.remote,
  destination-Quiet r.upstreams r.redirects,
  redirect-Quiet r.redirects,
  references-Quiet s su r.upstreams,
  import_routes-Quiet s (insert_set seen r.id) su l,
)

create_route-Quiet : (s : DesiredState) (r : Route) → Quiet (check_create_route s r)
unfolding check_create_route check_route_id_unused check_hostnames_valid check_matchers_valid
    check_upstreams_exist
create_route-Quiet s r = ground (
  arith,
  upstreams-Quiet s 0 r.upstreams,
  hostnames-Quiet 0 r.hostnames,
  matchers-Quiet 0 r.matchers.remote,
  destination-Quiet r.upstreams r.redirects,
  redirect-Quiet r.redirects,
)

some-Quiet :
    {A : Type 0} (f : A → Check) (o : Option A) → ((a : A) → Quiet (f a)) → Quiet (check_some f o)
some-Quiet f none h = tt
some-Quiet f (some a) h = h a

update_route-Quiet :
    (s : DesiredState) (id : String) (p : RoutePatch) → Quiet (check_update_route s id p)
unfolding check_update_route check_route_exists check_hostnames_valid check_matchers_valid
    check_upstreams_exist
update_route-Quiet s id p = ground (
  arith,
  some-Quiet (check_upstreams_exist s) p.upstreams (upstreams-Quiet s 0),
  some-Quiet check_hostnames_valid p.hostnames (hostnames-Quiet 0),
  some-Quiet check_matchers_valid p.matchers (λ m. matchers-Quiet 0 m.remote),
  some-Quiet check_redirect p.redirects redirect-Quiet,
)

tls-Quiet :
    (url : Option (Option String))
    → Quiet (elim url [ none ↦ ok tt | some ask_url ↦ check_some check_on_demand_ask_url ask_url ])
tls-Quiet none = tt
tls-Quiet (some url) = some-Quiet check_on_demand_ask_url url ask_url-Quiet

import-Quiet :
    (s : DesiredState) (parsed : ParsedCaddyfile) → Quiet (check_import_caddyfile s parsed)
unfolding check_import_caddyfile
import-Quiet s parsed =
    go (import_upstreams s [] parsed.upstreams) (import_upstreams-Quiet s [] parsed.upstreams)
  where
    go :
        (r : Result MutationError BTreeSet)
        → Quiet r
        → Quiet (r >>= λ seen. import_routes s [] seen parsed.routes)
    go (ok seen) h = import_routes-Quiet s [] seen parsed.routes
    go (err (conflict a b)) h = h
    go (err e) h = ground arith

pre_conditions-Quiet : (s : DesiredState) (m : Mutation) → Quiet (pre_conditions s m)
unfolding pre_conditions
pre_conditions-Quiet s (Mutation.create_route _ r) = create_route-Quiet s r
pre_conditions-Quiet s (Mutation.update_route _ id p) = update_route-Quiet s id p
pre_conditions-Quiet s (Mutation.delete_route _ id) = unfold check_route_exists in ground arith
pre_conditions-Quiet s (Mutation.create_upstream _ u) = unfold check_create_upstream in ground arith
pre_conditions-Quiet s (Mutation.update_upstream _ id _) =
    unfold check_update_upstream in ground arith
pre_conditions-Quiet s (Mutation.delete_upstream _ id) =
    unfold check_delete_upstream in ground (arith, unreferenced-Quiet s.routes id)
pre_conditions-Quiet s (Mutation.attach_policy _ route_id preset_id preset_version) =
    unfold check_attach_policy check_route_exists check_preset in ground arith
pre_conditions-Quiet s (Mutation.detach_policy _ route_id) =
    unfold check_detach_policy attached_policy in ground arith
pre_conditions-Quiet s (Mutation.upgrade_policy _ route_id to_version) =
    unfold check_upgrade_policy attached_policy check_preset in ground arith
pre_conditions-Quiet s (Mutation.set_global_config _ patch) =
    unfold check_set_global_config in ground arith
pre_conditions-Quiet s (Mutation.set_tls_config _ patch) =
    unfold check_set_tls_config in tls-Quiet patch.on_demand_ask_url
pre_conditions-Quiet s (Mutation.import_from_caddyfile _ parsed) = import-Quiet s parsed
pre_conditions-Quiet s _ = tt

capabilities-Quiet : (m : Mutation) (caps : CapabilitySet) → Quiet (check_capabilities m caps)
unfolding check_capabilities
capabilities-Quiet m caps = ground arith

Quiet-bind :
    {A B : Type 0} (m : Result MutationError A) (f : A → Result MutationError B)
    → Quiet m
    → ((a : A) → Quiet (f a))
    → Quiet (m >>= f)
Quiet-bind (ok a) f h k = k a
Quiet-bind (err (conflict a b)) f h k = h
Quiet-bind (err e) f h k = ground arith

Quiet-ok_or :
    {A : Type 0} (o : Option A) (e : MutationError) → Quiet {A = A} (err e) → Quiet (ok_or o e)
Quiet-ok_or none e h = h
Quiet-ok_or (some a) e h = tt

module _ (serde : Serde) where
  variant-Quiet : (s t : DesiredState) (m : Mutation) → Quiet (apply_variant serde s t m)
  unfolding apply_variant
  variant-Quiet s t (Mutation.create_route _ r) = tt
  variant-Quiet s t (Mutation.update_route _ id p) =
      unfold apply_route_patch missing_route_error in ground arith
  variant-Quiet s t (Mutation.update_upstream _ id p) =
      unfold apply_upstream_patch missing_upstream_error in ground arith
  variant-Quiet s t (Mutation.attach_policy _ id preset v) =
      unfold apply_attach_policy missing_route_error in ground arith
  variant-Quiet s t (Mutation.detach_policy _ id) =
      unfold apply_detach_policy missing_route_error in ground arith
  variant-Quiet s t (Mutation.upgrade_policy _ id v) =
      unfold apply_upgrade_policy missing_route_error in ground arith
  variant-Quiet s t _ = tt

  module _ (s : DesiredState) (m : Mutation) (caps : CapabilitySet) where
    Quiet-from_match :
        (expected_version m ==ℤ s.version) ≡ true → Quiet (apply_mutation serde s m caps)
    unfolding apply_mutation
    Quiet-from_match e = rw e (
        Quiet-bind _ _ (capabilities-Quiet m caps) λ _.
          Quiet-bind _ _ (pre_conditions-Quiet s m) λ _.
            Quiet-bind _ _ (Quiet-ok_or _ _ tt)
              λ v. Quiet-bind _ _ (variant-Quiet s (record s { version = v }) m) λ _. tt)

    conflict_of_mismatch :
        (expected_version m ==ℤ s.version) ≡ false
        → apply_mutation serde s m caps ≡ err (conflict s.version (expected_version m))
    unfolding apply_mutation
    conflict_of_mismatch e = rw e

    Quiet-not_conflict :
        {A : Type 0} (r : Result MutationError A) (a b : ℤ) → Quiet r → r ≡ err (conflict a b) → ⊥
    Quiet-not_conflict r a b h e = subst Quiet e h

    -- A conflict is reported exactly when the expected version is not the state's, and names both.
    pub conflict_iff :
        (a b : ℤ)
        → (apply_mutation serde s m caps ≡ err (conflict a b))
          ↔ ((a ≡ s.version) × (b ≡ expected_version m) × (b ≢ a))
    conflict_iff a b = elim (Bool-cases (expected_version m ==ℤ s.version)) [
      | inl e ↦ (
        λ h. absurd (Quiet-not_conflict _ a b (Quiet-from_match e) h),
        λ (p, q, ne). absurd (ne (q ∙ ((==ℤ_iff (expected_version m) s.version).0 e ∙ sym p))),
      )
      | inr e ↦ (
        λ h.
            let same : err (conflict s.version (expected_version m)) ≡ err (conflict a b) =
              sym (conflict_of_mismatch e) ∙ h in
            let p : a ≡ s.version = cc in
            let q : b ≡ expected_version m = cc in
            (p, q, λ r. cc ((==ℤ_iff (expected_version m) s.version).1 (sym q ∙ (r ∙ p)), e)),
        λ (p, q, ne). conflict_of_mismatch e ∙ ap₂ (λ x y. err (conflict x y)) (sym p) (sym q),
      )
    ]
